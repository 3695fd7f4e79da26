-- ===== src/Tunnel/BuildRequest/Examine.antt =====
-- Which requests pass the validity checks of `HopAcceptor` (src/tunnel/acceptor.rs).
use ire.Prelude.{
  ℕ, suc, ◌+◌, ◌*◌, ◌<◌, ◌≡◌, ◌≢◌, ◌↔◌, ◌⊎◌, inl, inr, refl, false, Bytes, bytes_beq, bytes_beq_iff,
  arith, Bool-cases, beq_false_of_ne,
}
use ire.Data.{Hash}
use ire.I2np.{ParticipantType, BuildRequestRecord}
use ire.Tunnel.BuildRequest.{
  proceed, is_next_hop, is_turned_back, examine_time, examine, max_request_age, max_request_future,
  second,
}

-- The request's hour, in nanoseconds.
abbrev pub request_time_of : BuildRequestRecord → ℕ
request_time_of brr = brr.request_time * 3600 * second

-- What a request must meet: the next hop is another router, unless this one is the last; an
-- intermediate hop does not send back to where the request came from; and the clock stands less
-- than 65 minutes and a second after the request's hour, and less than 5 minutes and a second
-- before it.
pub record IsAcceptable (us from : Hash) (brr : BuildRequestRecord) (now : ℕ) : Type 0 where
  pub other_next : (brr.hop_type ≡ ParticipantType.outbound_endpoint) ⊎ (brr.next_ident ≢ us)
  pub onward : (brr.hop_type ≡ ParticipantType.intermediate) → from ≢ brr.next_ident
  pub not_old : now < request_time_of brr + suc max_request_age * second
  pub not_early : request_time_of brr < now + suc max_request_future * second

examine_time_iff :
    (r c : ℕ)
    → (examine_time r c ≡ proceed)
      ↔ ((c < r + suc max_request_age * second) × (r < c + suc max_request_future * second))
unfolding examine_time
examine_time_iff r c = (λ h. (ground arith, ground arith), λ h. ground arith)

bytes_ne_iff : (xs ys : Bytes) → (bytes_beq xs ys ≡ false) ↔ (xs ≢ ys)
bytes_ne_iff xs ys = (λ h e. cc (h, (bytes_beq_iff xs ys).1 e), λ ne. beq_false_of_ne xs ys ne)

is_next_hop_iff :
    (t : ParticipantType) (next us : Hash)
    → (is_next_hop t next us ≡ false) ↔ ((t ≡ ParticipantType.outbound_endpoint) ⊎ (next ≢ us))
unfolding is_next_hop
is_next_hop_iff ParticipantType.outbound_endpoint next us = (λ h. inl refl, λ h. refl)
is_next_hop_iff ParticipantType.intermediate next us = (
  λ h. inr ((bytes_ne_iff next us).0 h),
  λ h. elim h [ inl e ↦ cc | inr ne ↦ (bytes_ne_iff next us).1 ne ],
)
is_next_hop_iff ParticipantType.inbound_gateway next us = (
  λ h. inr ((bytes_ne_iff next us).0 h),
  λ h. elim h [ inl e ↦ cc | inr ne ↦ (bytes_ne_iff next us).1 ne ],
)

is_turned_back_iff :
    (t : ParticipantType) (from next : Hash)
    → (is_turned_back t from next ≡ false) ↔ ((t ≡ ParticipantType.intermediate) → from ≢ next)
unfolding is_turned_back
is_turned_back_iff ParticipantType.intermediate from next =
    (λ h e. (bytes_ne_iff from next).0 h, λ h. (bytes_ne_iff from next).1 (h refl))
is_turned_back_iff ParticipantType.outbound_endpoint from next = (λ h e. cc, λ h. refl)
is_turned_back_iff ParticipantType.inbound_gateway from next = (λ h e. cc, λ h. refl)

-- The checks let a request through exactly when it is acceptable.
pub examine_iff :
    (us from : Hash) (brr : BuildRequestRecord) (now : ℕ)
    → (examine us from brr now ≡ proceed) ↔ IsAcceptable us from brr now
unfolding examine
examine_iff us from brr now = (to_acceptable, from_acceptable)
  where
    to_acceptable : examine us from brr now ≡ proceed → IsAcceptable us from brr now
    to_acceptable h = elim (Bool-cases (is_next_hop brr.hop_type brr.next_ident us)) [
      | inl t ↦ absurd (ground (arith, t, h))
      | inr f ↦ elim (Bool-cases (is_turned_back brr.hop_type from brr.next_ident)) [
        | inl t ↦ absurd (ground (arith, f, t, h))
        | inr g ↦
            let times = (examine_time_iff (request_time_of brr) now).0 (rw (examine, f, g) at h) in
            record {
              other_next = (is_next_hop_iff brr.hop_type brr.next_ident us).0 f;
              onward = (is_turned_back_iff brr.hop_type from brr.next_ident).0 g;
              not_old = times.0;
              not_early = times.1;
            }
      ]
    ]

    from_acceptable : IsAcceptable us from brr now → examine us from brr now ≡ proceed
    from_acceptable p =
        let f = (is_next_hop_iff brr.hop_type brr.next_ident us).1 p.other_next in
        let g = (is_turned_back_iff brr.hop_type from brr.next_ident).1 p.onward in
        let times = (examine_time_iff (request_time_of brr) now).1 (p.not_old, p.not_early) in
        unfold examine in rw (f, g) times
