-- ===== src/Tunnel/Listener/Spawned.antt =====
-- The acceptors that `Listener` (src/tunnel/acceptor.rs) spawns.
use ire.Prelude.{ℕ, ◌≡◌, refl, sym, subst, Option, none, some, List, [], ◌∷◌, All, Bytes, arith}
use mathlib.Core.List.{Memᴰ}
use ire.Bloom.{BloomFilter, DecayingBloomFilter}
use ire.Data.{Hash}
use ire.I2np.{MessagePayload, tunnel_build, variable_tunnel_build}
use ire.Tunnel.Encryption.{AesCrates, LayerCipher}
use ire.Tunnel.BuildRequest.{RequestOps, TunnelBuild, fixed, variable, entries}
use ire.Tunnel.Acceptor.{AcceptorState, decrypting, Moment, run}
use ire.Tunnel.Acceptor.Reached.{begun}
use ire.Tunnel.Acceptor.Decision.{IsSound, run-IsSound}
use ire.Tunnel.Listener.{
  find_our_entry, accept_entry, handle_message, IsFirst, find_our_entry-IsFirst,
}

-- The request that a message carries, of eight entries or of any number.
pub data Carries {RI LS : Type 0} : MessagePayload RI LS → TunnelBuild → Type 0 where
  eight : (es : List Bytes) → Carries (tunnel_build es) (fixed es)
  any_number : (es : List Bytes) → Carries (variable_tunnel_build es) (variable es)

-- The acceptor begins with the message's request, at the first entry for us.
pub record Begins {RI LS C : Type 0} (us from : Hash) (p : MessagePayload RI LS)
    (s : AcceptorState RI LS C) : Type 0 where
  pub tb : TunnelBuild
  pub carried : Carries p tb
  pub i : ℕ
  pub first : IsFirst us (entries tb) i
  pub begins : s ≡ decrypting from tb i

-- What holds of every member holds of all.
All-Mem : {A : Type 0} {P : A → Type 0} (xs : List A) → ((x : A) → Memᴰ x xs → P x) → All P xs
All-Mem [] h = tt
All-Mem (x ∷ xs) h = (h x (Memᴰ.head refl), All-Mem xs (λ y m. h y (Memᴰ.tail m)))

accept_entry-Begins :
    {RI LS C : Type 0} (us from : Hash) (p : MessagePayload RI LS) (tb : TunnelBuild) (o : Option ℕ)
    (s : AcceptorState RI LS C)
    → Carries p tb
    → find_our_entry us (entries tb) ≡ o
    → accept_entry from tb o ≡ some s
    → Begins us from p s
unfolding accept_entry
accept_entry-Begins us from p tb none s c e h = cc
accept_entry-Begins us from p tb (some i) s c e h = record {
  tb = tb;
  carried = c;
  i = i;
  first = find_our_entry-IsFirst us (entries tb) i e;
  begins = ground arith;
}

handle_message-Begins :
    {RI LS C : Type 0} (us from : Hash) (p : MessagePayload RI LS) (s : AcceptorState RI LS C)
    → handle_message us from p ≡ some s
    → Begins us from p s
unfolding handle_message
handle_message-Begins us from (tunnel_build es) s h =
    accept_entry-Begins us from (tunnel_build es) (fixed es) (find_our_entry us es) s (eight es)
      (unfold entries in refl) h
handle_message-Begins us from (variable_tunnel_build es) s h =
    accept_entry-Begins us from (variable_tunnel_build es) (variable es) (find_our_entry us es) s
      (any_number es) (unfold entries in refl) h
handle_message-Begins us from other s h = absurd (cc h)

module _ {RI LS : Type 0} (b : BloomFilter) (a : AesCrates) (ops : RequestOps) where
  -- For every message that makes the listener spawn an acceptor, the acceptor begins with the
  -- message's request, at the first entry whose first 16 bytes are those of our hash. Whatever the
  -- outside answers, it never panics. It registers a tunnel only for a record in that entry that
  -- decrypts, passed the checks at the time of an iteration and asks for an intermediate hop: under
  -- the tunnel id and with the keys of the record, from the peer that sent the request to what the
  -- lookup of the record's next hop yielded, for ten minutes. It hands over only answers to a record
  -- in that entry that decrypts and passed the checks, to what the lookup of its next hop yielded:
  -- acceptance for an intermediate hop, rejection for the others, in place of the entry, and all
  -- entries encrypted under the record's reply key.
  pub spawned-IsSound :
      (f : DecayingBloomFilter b) (from : Hash) (p : MessagePayload RI LS)
      (s : AcceptorState RI LS (LayerCipher a)) (ms : List (Moment RI))
      → handle_message ops.our_hash from p ≡ some s
      → (o : Begins ops.our_hash from p s) × IsSound
          (λ m. Memᴰ m ms)
          b
          a
          ops
          from
          o.tb
          o.i
          o.first.own
          o.first.present
          (run b a ops f s ms)
  spawned-IsSound f from p s ms h =
      let o = handle_message-Begins ops.our_hash from p s h in
      (
        o,
        subst
            (λ x.
              IsSound (λ m. Memᴰ m ms) b a ops from o.tb o.i o.first.own o.first.present
                (run b a ops f x ms))
            (sym o.begins)
            (run-IsSound (λ m. Memᴰ m ms) b a ops from o.tb o.i o.first.own o.first.present f
              (decrypting from o.tb o.i) ms (All-Mem ms (λ m at_m. at_m)) begun),
      )
