-- ===== src/Tunnel/Listener.antt =====
-- `Listener` of src/tunnel/acceptor.rs, which gives each request with an entry for this router to an
-- acceptor of its own.
pub mod Spawned
mod Tests
use ire.Prelude.{
  ℕ, zero, suc, ◌<◌, ◌≡◌, ◌≢◌, ◌↔◌, refl, sym, ap, ◌∙◌, subst, Bool, true, false, Option, none,
  some, List, [], ◌∷◌, map, take, if◌then◌else◌, Bytes, bytes_beq, bytes_beq_iff, arith, Bool-cases,
  inl, inr,
}
use ire.Data.{Hash}
use ire.I2np.{MessagePayload, tunnel_build, variable_tunnel_build}
use ire.Tunnel.BuildRequest.{TunnelBuild, fixed, variable, entry, entries}
use ire.Tunnel.Acceptor.{AcceptorState, decrypting}

unfoldable pub next_index : Option ℕ → Option ℕ
next_index none = none
next_index (some i) = some (suc i)

-- `find_our_entry`: the first entry whose first 16 bytes are those of our hash.
unfoldable pub find_our_entry : Hash → List Bytes → Option ℕ
unfolding next_index
find_our_entry us [] = none
find_our_entry us (e ∷ es) =
    let rest = next_index (find_our_entry us es) in
    if bytes_beq (take 16 e) (take 16 us) then some zero else rest

-- An acceptor, if there is an entry for us.
unfoldable pub accept_entry :
    {RI LS C : Type 0} → Hash → TunnelBuild → Option ℕ → Option (AcceptorState RI LS C)
accept_entry from tb none = none
accept_entry from tb (some i) = some (decrypting from tb i)

-- The `match msg.payload` of `poll`: the acceptor that is spawned, if one is.
unfoldable pub handle_message :
    {RI LS C : Type 0} → Hash → Hash → MessagePayload RI LS → Option (AcceptorState RI LS C)
unfolding accept_entry
handle_message us from (tunnel_build es) = accept_entry from (fixed es) (find_our_entry us es)
handle_message us from (variable_tunnel_build es) =
    accept_entry from (variable es) (find_our_entry us es)
handle_message us from other = none

-- The entry is there and is ours, and no earlier one is.
pub record IsFirst (us : Hash) (es : List Bytes) (i : ℕ) : Type 0 where
  pub own : Bytes
  pub present : entry i es ≡ some own
  pub ours : take 16 own ≡ take 16 us
  pub earlier : (j : ℕ) (e : Bytes) → j < i → entry j es ≡ some e → take 16 e ≢ take 16 us

IsFirst-zero :
    (us : Hash) (e : Bytes) (es : List Bytes)
    → bytes_beq (take 16 e) (take 16 us) ≡ true
    → IsFirst us (e ∷ es) zero
unfolding entry
IsFirst-zero us e es h = record {
  own = e;
  present = refl;
  ours = (bytes_beq_iff (take 16 e) (take 16 us)).0 h;
  earlier = λ j d lt p. absurd (omega arith);
}

earlier_suc :
    (us : Hash) (e : Bytes) (es : List Bytes) (i : ℕ)
    → bytes_beq (take 16 e) (take 16 us) ≡ false
    → IsFirst us es i
    → (j : ℕ) (d : Bytes) → j < suc i
    → entry j (e ∷ es) ≡ some d
    → take 16 d ≢ take 16 us
unfolding entry
earlier_suc us e es i ne f zero d lt p =
    let same : e ≡ d = ground arith in
    λ q. cc (ne, (bytes_beq_iff (take 16 e) (take 16 us)).1 (ap (take 16) same ∙ q))
earlier_suc us e es i ne f (suc j) d lt p = f.earlier j d (omega arith) p

IsFirst-suc :
    (us : Hash) (e : Bytes) (es : List Bytes) (i : ℕ)
    → bytes_beq (take 16 e) (take 16 us) ≡ false
    → IsFirst us es i
    → IsFirst us (e ∷ es) (suc i)
unfolding entry
IsFirst-suc us e es i ne f = record {
  own = f.own;
  present = f.present;
  ours = f.ours;
  earlier = earlier_suc us e es i ne f;
}

shifted :
    (us : Hash) (e : Bytes) (es : List Bytes) (o : Option ℕ) (i : ℕ)
    → bytes_beq (take 16 e) (take 16 us) ≡ false
    → ((k : ℕ) → o ≡ some k → IsFirst us es k)
    → next_index o ≡ some i
    → IsFirst us (e ∷ es) i
unfolding next_index
shifted us e es none i ne ih h = cc
shifted us e es (some k) i ne ih h =
    let same : suc k ≡ i = ground arith in
    subst (IsFirst us (e ∷ es)) same (IsFirst-suc us e es k ne (ih k refl))

-- What is found is the first entry for us.
pub find_our_entry-IsFirst :
    (us : Hash) (es : List Bytes) (i : ℕ) → find_our_entry us es ≡ some i → IsFirst us es i
unfolding find_our_entry
find_our_entry-IsFirst us [] i h = cc
find_our_entry-IsFirst us (e ∷ es) i h = elim (Bool-cases (bytes_beq (take 16 e) (take 16 us))) [
  | inl yes_ours ↦
      let same : zero ≡ i = ground (arith, yes_ours) in
      subst (IsFirst us (e ∷ es)) same (IsFirst-zero us e es yes_ours)
  | inr not_ours ↦
      shifted us e es (find_our_entry us es) i not_ours (λ k q. find_our_entry-IsFirst us es k q)
        (rw not_ours at h)
]
