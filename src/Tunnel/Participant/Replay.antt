-- ===== src/Tunnel/Participant/Replay.antt =====
-- The duplicate filter across iterations of `Participant::poll` (src/tunnel/processor.rs).
use ire.Prelude.{
  nat_eq, ◌⊎◌, ℕ, ◌+◌, ◌≤◌, ◌≡◌, ◌≢◌, refl, sym, ap, ◌∙◌, false, Option, none, some, List, [], ◌∷◌,
  arith, Bytes, All, if◌then◌else◌, subst, inl, inr, Bool-cases,
}
use ire.Tunnel.Participant.Step.{Forwarded-filter, turn_failed, turn-ready, turn-Forwarded, ready}
use ire.Tunnel.Participant.{
  from_previous_hop, Participant, Turn, Inbound, Outcome, Processing, spawned, received, closed,
  not_ready, failed, filter_value, handle_tunnel_data, handle_payload, handle_inbound, periodic,
  turn, run, goes_on,
}
use ire.HashMap
use ire.Bloom
use ire.Bloom.{BloomFilter}
use ire.Bloom.Memory.{
  IsCurrent, IsPresent, feed-IsCurrent, feed-IsPresent, feed-eq_present, IsCurrent→IsPresent,
  decay-IsPresent, feed-IsCurrent_fresh,
}
use ire.Data.{Hash}
use ire.I2np.{MessagePayload, TunnelData, tunnel_data}
use ire.Tunnel.Hop.{HopConfig}

-- The outcome forwards no message whose duplicate check has the value `v`.
abbrev pub NoForwardOf : {RI C : Type 0} → Bytes → Outcome RI C → Type 0
NoForwardOf {RI} {C} v o = (hp : Processing RI C) → o ≡ spawned hp → filter_value hp.td.body ≢ v

-- How often the filter decays during the iterations.
abbrev pub count_decays : {RI LS C : Type 0} → List (Turn RI LS C) → ℕ
count_decays [] = 0
count_decays (t ∷ ts) = (if t.decay_fired then 1 else 0) + count_decays ts

module _ {RI C : Type 0} (b : BloomFilter) where
  tunnel_data_filter :
      (q : Participant b RI C) (from : Hash) (td : TunnelData) (o : Option (HopConfig RI C))
      → ((handle_tunnel_data b q from td o).0.filter ≡ q.filter)
        ⊎ ((handle_tunnel_data b q from td o).0.filter
            ≡ (Bloom.feed b q.filter (filter_value td.body)).0)
  unfolding handle_tunnel_data
  tunnel_data_filter q from td none = inl refl
  tunnel_data_filter q from td (some config) =
      elim (Bool-cases (from_previous_hop from config.hop_data)) [
        | inl same ↦ inr (ground (arith, same))
        | inr other ↦ inl (ground (arith, other))
      ]

module _ {RI LS C : Type 0} (b : BloomFilter) where
  -- A property of the filter that `feed` keeps is kept by the handling of any message.
  module _ (P : Bloom.DecayingBloomFilter b → Type 0)
      (feed-P : (f : Bloom.DecayingBloomFilter b) (x : Bytes) → P f → P (Bloom.feed b f x).0) where
    payload_keeps :
        (q : Participant b RI C) (from : Hash) (m : MessagePayload RI LS)
        → P q.filter
        → P (handle_payload b q from m).0.filter
    unfolding handle_payload
    payload_keeps q from (tunnel_data td) h =
        elim (tunnel_data_filter b q from td (HashMap.get td.tid q.participating)) [
          | inl same ↦ subst P (sym same) h
          | inr fed ↦ subst P (sym fed) (feed-P q.filter _ h)
        ]
    payload_keeps q from _ h = h

    handle_inbound_keeps :
        (q : Participant b RI C) (i : Inbound RI LS)
        → P q.filter
        → P (handle_inbound b q i).0.filter
    unfolding handle_inbound
    handle_inbound_keeps q (received from m) h = payload_keeps q from m h
    handle_inbound_keeps q closed h = h
    handle_inbound_keeps q not_ready h = h
    handle_inbound_keeps q failed h = h

    -- An iteration keeps it if the work of the timers does.
    turn_keeps :
        (p : Participant b RI C) (t : Turn RI LS C)
        → P p.filter
        → P (ready b p t).filter
        → P (turn b p t).0.filter
    turn_keeps p t h r = elim (Bool-cases t.new_tunnels_fail) [
      | inl fails ↦ subst P (sym (turn_failed b p t fails).0) h
      | inr adds ↦
          subst (λ (s : Participant b RI C × Outcome RI C). P s.0.filter)
            (sym (turn-ready b p t adds)) (handle_inbound_keeps (ready b p t) t.inbound r)
    ]

  ready-IsCurrent :
      (v : Bytes) (p : Participant b RI C) (t : Turn RI LS C)
      → t.decay_fired ≡ false
      → IsCurrent b v p.filter
      → IsCurrent b v (ready b p t).filter
  unfolding ready periodic
  ready-IsCurrent v p t e h = rw e h

  ready-IsPresent :
      (v : Bytes) (p : Participant b RI C) (t : Turn RI LS C)
      → t.decay_fired ≡ false
      → IsPresent b v p.filter
      → IsPresent b v (ready b p t).filter
  unfolding ready periodic
  ready-IsPresent v p t e h = rw e h

  ready-IsPresent_decayed :
      (v : Bytes) (p : Participant b RI C) (t : Turn RI LS C)
      → IsCurrent b v p.filter
      → IsPresent b v (ready b p t).filter
  unfolding ready periodic
  ready-IsPresent_decayed v p t h = elim (Bool-cases t.decay_fired) [
    | inl e ↦ rw e (decay-IsPresent b v p.filter h)
    | inr e ↦ rw e (IsCurrent→IsPresent b v p.filter h)
  ]

  -- What the filter knows is not forwarded.
  turn-NoForwardOf :
      (v : Bytes) (p : Participant b RI C) (t : Turn RI LS C)
      → IsPresent b v (ready b p t).filter
      → NoForwardOf v (turn b p t).1
  turn-NoForwardOf v p t h hp e same =
      let f = turn-Forwarded b p t hp e in
      let value : filter_value f.td.body ≡ v =
        ap (λ (m : TunnelData). filter_value m.body) (sym f.forwards.message_kept) ∙ same in
      let seen = feed-eq_present b v (ready b p t).filter h in
      let fresh =
        subst (λ (x : Bytes). (Bloom.feed b (ready b p t).filter x).1 ≡ false) value
          f.forwards.not_seen in
      cc (seen, fresh)

  run-present :
      (v : Bytes) (p : Participant b RI C) (ts : List (Turn RI LS C))
      → count_decays ts ≤ 0
      → IsPresent b v p.filter
      → All (NoForwardOf v) (run b p ts).1
  unfolding run
  run-present v p [] n h = tt
  run-present v p (t ∷ ts) n h =
      let quiet : t.decay_fired ≡ false = ground arith in
      let r = ready-IsPresent v p t quiet h in
      let first = turn-NoForwardOf v p t r in
      let rest =
        run-present v (turn b p t).0 ts (omega arith)
          (turn_keeps (IsPresent b v) (λ f x. feed-IsPresent b v x f) p t h r) in
      elim (Bool-cases (goes_on (turn b p t).1)) [
        | inl more ↦ rw more (first, rest)
        | inr done ↦ rw done (first, tt)
      ]

  run-current :
      (v : Bytes) (p : Participant b RI C) (ts : List (Turn RI LS C))
      → count_decays ts ≤ 1
      → IsCurrent b v p.filter
      → All (NoForwardOf v) (run b p ts).1
  unfolding run
  run-current v p [] n h = tt
  run-current v p (t ∷ ts) n h =
      let first = turn-NoForwardOf v p t (ready-IsPresent_decayed v p t h) in
      let rest : All (NoForwardOf v) (run b (turn b p t).0 ts).1 = elim (Bool-cases t.decay_fired) [
        | inl fired ↦ run-present v (turn b p t).0 ts (ground arith) (
            turn_keeps (IsPresent b v) (λ f x. feed-IsPresent b v x f) p t
              (IsCurrent→IsPresent b v p.filter h) (ready-IsPresent_decayed v p t h))
        | inr quiet ↦ run-current v (turn b p t).0 ts (ground arith) (
            turn_keeps (IsCurrent b v) (λ f x. feed-IsCurrent b v x f) p t h
              (ready-IsCurrent v p t quiet h))
      ] in
      elim (Bool-cases (goes_on (turn b p t).1)) [
        | inl more ↦ rw more (first, rest)
        | inr done ↦ rw done (first, tt)
      ]

  -- An iteration that forwards leaves the message's value in the filter's current layer.
  turn_spawned-IsCurrent :
      (p : Participant b RI C) (t : Turn RI LS C) (hp : Processing RI C)
      → (turn b p t).1 ≡ spawned hp
      → IsCurrent b (filter_value hp.td.body) (turn b p t).0.filter
  turn_spawned-IsCurrent p t hp e =
      let f = turn-Forwarded b p t hp e in
      let fed =
        feed-IsCurrent_fresh b (filter_value f.td.body) (ready b p t).filter f.forwards.not_seen in
      subst (λ (m : TunnelData). IsCurrent b (filter_value m.body) (turn b p t).0.filter)
        (sym f.forwards.message_kept)
        (subst (IsCurrent b (filter_value f.td.body)) (sym (Forwarded-filter b p t hp f)) fed)

  -- Once a message has been forwarded, no message with the same first two blocks' XOR is forwarded
  -- again, over any further iterations in which the filter decays at most once.
  pub no_replay :
      (p : Participant b RI C) (t : Turn RI LS C) (ts : List (Turn RI LS C)) (hp : Processing RI C)
      → (turn b p t).1 ≡ spawned hp
      → count_decays ts ≤ 1
      → All (NoForwardOf (filter_value hp.td.body)) (run b (turn b p t).0 ts).1
  no_replay p t ts hp e n =
      run-current (filter_value hp.td.body) (turn b p t).0 ts n (turn_spawned-IsCurrent p t hp e)
