-- ===== src/Transport/Session/Channel.antt =====
-- Into which channel an operation of src/transport/session.rs puts frames.
use ire.Prelude.{
  ℕ, ◌≡◌, refl, bytes_eq, Bool, true, false, subst, Option, none, some, List, [], ◌∷◌, map, All,
  arith,
}
use ire.HashMap
use ire.HashMap.{HashMap, get-insert_self}
use ire.Data.{Hash}
use ire.Transport.Session.{
  Shared, Done, Event, sends, opens, ends, Log, start_send, cache, send_by, send, flush, waiting,
  established, open_session, drop_session, step,
}

module _ {F : Type 0} where
  -- A send uses the channel of the peer's session and leaves the sessions alone; a new session gets
  -- all in its own channel, which is the peer's from then on; the end of one puts nothing anywhere.
  abbrev pub IsAddressed : Shared F → Event F → Done F → Type 0
  IsAddressed s (sends k alive f) d =
      (d.after.sessions ≡ s.sessions)
      × All (λ (p : ℕ × F). HashMap.get k s.sessions ≡ some p.0) d.delivered
  IsAddressed s (opens k alive tx) d =
      (d.after.sessions ≡ HashMap.insert k tx s.sessions)
      × All (λ (p : ℕ × F). p.0 ≡ tx) d.delivered
  IsAddressed s (ends k) d = (d.after.sessions ≡ HashMap.remove k s.sessions) × (d.delivered ≡ [])

  abbrev pub AllAddressed : Shared F → Log F → Type 0
  AllAddressed s [] = Unit
  AllAddressed s ((e, d) ∷ l) = IsAddressed s e d × AllAddressed d.after l

  start-IsAddressed :
      (s : Shared F) (k : Hash) (alive : Bool) (tx : ℕ) (f : F)
      → HashMap.get k s.sessions ≡ some tx
      → IsAddressed s (sends k alive f) (start_send s alive tx f)
  unfolding start_send
  start-IsAddressed s k true tx f e = (refl, (e, tt))
  start-IsAddressed s k false tx f e = (refl, tt)

  cache-IsAddressed :
      (s : Shared F) (k : Hash) (alive : Bool) (f : F) (o : Option (List F))
      → IsAddressed s (sends k alive f) (cache s k f o)
  unfolding cache
  cache-IsAddressed s k alive f none = (refl, tt)
  cache-IsAddressed s k alive f (some frames) = (refl, tt)

  send-IsAddressed :
      (s : Shared F) (k : Hash) (alive : Bool) (f : F) (o : Option ℕ)
      → HashMap.get k s.sessions ≡ o
      → IsAddressed s (sends k alive f) (send_by s alive k f o)
  unfolding send_by
  send-IsAddressed s k alive f (some tx) e = start-IsAddressed s k alive tx f e
  send-IsAddressed s k alive f none e =
      cache-IsAddressed s k alive f (HashMap.get k s.pending_sessions)

  tagged : (tx : ℕ) (msgs : List F) → All (λ (p : ℕ × F). p.0 ≡ tx) (map (λ m. (tx, m)) msgs)
  tagged tx [] = tt
  tagged tx (m ∷ ms) = (refl, tagged tx ms)

  flushed :
      (alive : Bool) (tx : ℕ) (msgs : List F) (sent : List (ℕ × F))
      → flush alive tx msgs ≡ some sent
      → All (λ (p : ℕ × F). p.0 ≡ tx) sent
  unfolding flush
  flushed alive tx [] sent e = let same : [] ≡ sent = ground arith in rw (← same) tt
  flushed true tx (m ∷ ms) sent e =
      let same : map (λ x. (tx, x)) (m ∷ ms) ≡ sent = ground arith in
      rw (← same) (refl, tagged tx ms)
  flushed false tx (m ∷ ms) sent e = cc

  established-IsAddressed :
      (s : Shared F) (k : Hash) (alive : Bool) (tx : ℕ) (o : Option (List (ℕ × F))) (d : Done F)
      → flush alive tx (waiting k s) ≡ o
      → established s k tx o ≡ some d
      → IsAddressed s (opens k alive tx) d
  unfolding established
  established-IsAddressed s k alive tx none d e i = cc
  established-IsAddressed s k alive tx (some sent) d e i =
      let done : Done F = record {
        after = record {
          sessions = HashMap.insert k tx s.sessions;
          pending_sessions = HashMap.remove k s.pending_sessions;
        };
        taken = true;
        connects = false;
        delivered = sent;
      } in
      let same : done ≡ d = ground arith in
      subst (IsAddressed s (opens k alive tx)) same (refl, flushed alive tx (waiting k s) sent e)

  pub step-IsAddressed :
      (s : Shared F) (e : Event F) (d : Done F) → step s e ≡ some d → IsAddressed s e d
  unfolding step
  step-IsAddressed s (sends k alive f) d i =
      let same : send s alive k f ≡ d = ground arith in
      subst (IsAddressed s (sends k alive f)) same
        (unfold send in send-IsAddressed s k alive f (HashMap.get k s.sessions) refl)
  step-IsAddressed s (opens k alive tx) d i =
      established-IsAddressed s k alive tx (flush alive tx (waiting k s)) d refl
        (unfold open_session in i)
  step-IsAddressed s (ends k) d i =
      let done : Done F = record {
        after = drop_session s k;
        taken = true;
        connects = false;
        delivered = [];
      } in
      let same : done ≡ d = ground arith in
      subst (IsAddressed s (ends k)) same (unfold drop_session in (refl, refl))
