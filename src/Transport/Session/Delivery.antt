-- ===== src/Transport/Session/Delivery.antt =====
-- Every frame that `SessionState::send` of src/transport/session.rs takes goes to the peer once, in
-- order, or still waits.
use ire.Prelude.{
  ℕ, ◌≡◌, refl, ap, ◌∙◌, subst, Bool, true, false, Option, none, some, List, [], ◌∷◌, ◌++◌, map,
  if◌then◌else◌, bytes_eq, bytes_beq, bytes_beq_iff, arith, Bool-cases, inl, inr,
}
use ire.HashMap
use ire.HashMap.{HashMap, get-insert, get-insert_self, get-remove, beq_self}
use ire.Data.{Hash}
use ire.Transport.Session.{
  Shared, Done, Event, sends, opens, ends, Log, start_send, cache, send_by, send, flush, waiting,
  waiting_of, established, open_session, drop_session, step,
}

module _ {F : Type 0} where
  -- A peer with a session has no frames that wait for one.
  abbrev pub IsDisjoint : Shared F → Type 0
  IsDisjoint s = (k : Hash) (tx : ℕ) → HashMap.get k s.sessions ≡ some tx → waiting k s ≡ []

  abbrev only : Hash → Hash → List F → List F
  only hash k frames = if bytes_beq k hash then frames else []

  abbrev frames_of : List (ℕ × F) → List F
  frames_of sent = map (λ (p : ℕ × F). p.1) sent

  -- The frames for a peer that one event brought in.
  abbrev pub taken_by : Hash → Event F → Done F → List F
  taken_by hash (sends k alive frame) d = only hash k (if d.taken then frame ∷ [] else [])
  taken_by hash e d = []

  -- The frames that one event put into a channel of the peer.
  abbrev pub given_by : Hash → Event F → Done F → List F
  given_by hash (sends k alive frame) d = only hash k (frames_of d.delivered)
  given_by hash (opens k alive tx) d = only hash k (frames_of d.delivered)
  given_by hash (ends k) d = []

  abbrev pub taken : Hash → Log F → List F
  taken hash [] = []
  taken hash ((e, d) ∷ l) = taken_by hash e d ++ taken hash l

  abbrev pub given : Hash → Log F → List F
  given hash [] = []
  given hash ((e, d) ∷ l) = given_by hash e d ++ given hash l

  waiting_insert_self :
      (k : Hash) (v : List F) (m : HashMap Hash (List F))
      → waiting_of (HashMap.get k (HashMap.insert k v m)) ≡ v
  unfolding waiting_of
  waiting_insert_self k v m = ap waiting_of (get-insert_self k v m)

  pub waiting_insert_other :
      (k h : Hash) (v : List F) (m : HashMap Hash (List F))
      → bytes_beq k h ≡ false
      → waiting_of (HashMap.get h (HashMap.insert k v m)) ≡ waiting_of (HashMap.get h m)
  waiting_insert_other k h v m ne = ap waiting_of (get-insert k h v m ∙ rw ne refl)

  pub waiting_remove_self :
      (k : Hash) (m : HashMap Hash (List F)) → waiting_of (HashMap.get k (HashMap.remove k m)) ≡ []
  unfolding waiting_of
  waiting_remove_self k m =
      let gone : HashMap.get k (HashMap.remove k m) ≡ none =
        get-remove k k m ∙ rw (beq_self k) refl in
      ap waiting_of gone

  pub waiting_remove_other :
      (k h : Hash) (m : HashMap Hash (List F))
      → bytes_beq k h ≡ false
      → waiting_of (HashMap.get h (HashMap.remove k m)) ≡ waiting_of (HashMap.get h m)
  waiting_remove_other k h m ne = ap waiting_of (get-remove k h m ∙ rw ne refl)

  -- What one event does for a peer: nothing taken is lost, doubled or reordered.
  abbrev pub Conserves : Hash → Shared F → Event F → Done F → Type 0
  Conserves h s e d = waiting h s ++ taken_by h e d ≡ given_by h e d ++ waiting h d.after

  pub append_nil : (xs : List F) → xs ++ [] ≡ xs
  append_nil [] = refl
  append_nil (x ∷ xs) = ap (λ t. x ∷ t) (append_nil xs)

  cache_same :
      (s : Shared F) (k : Hash) (alive : Bool) (f : F) (o : Option (List F))
      → waiting k s ≡ waiting_of o
      → Conserves k s (sends k alive f) (cache s k f o)
  unfolding cache waiting_of
  cache_same s k alive f none e = rw (beq_self k, waiting_insert_self k, e) refl
  cache_same s k alive f (some frames) e = rw (beq_self k, waiting_insert_self k, e) refl

  cache_other :
      (s : Shared F) (k h : Hash) (alive : Bool) (f : F) (o : Option (List F))
      → bytes_beq k h ≡ false
      → Conserves h s (sends k alive f) (cache s k f o)
  unfolding cache
  cache_other s k h alive f none ne =
      rw (ne, waiting_insert_other k h (f ∷ []) s.pending_sessions ne) (append_nil (waiting h s))
  cache_other s k h alive f (some frames) ne =
      rw (ne, waiting_insert_other k h (frames ++ f ∷ []) s.pending_sessions ne)
        (append_nil (waiting h s))

  start_same :
      (s : Shared F) (k : Hash) (alive : Bool) (tx : ℕ) (f : F)
      → waiting k s ≡ []
      → Conserves k s (sends k alive f) (start_send s alive tx f)
  unfolding start_send
  start_same s k true tx f e = rw (beq_self k, e) refl
  start_same s k false tx f e = rw (beq_self k, e) refl

  start_other :
      (s : Shared F) (k h : Hash) (alive : Bool) (tx : ℕ) (f : F)
      → bytes_beq k h ≡ false
      → Conserves h s (sends k alive f) (start_send s alive tx f)
  unfolding start_send
  start_other s k h true tx f ne = rw ne (append_nil (waiting h s))
  start_other s k h false tx f ne = rw ne (append_nil (waiting h s))

  send-Conserves :
      (s : Shared F) (k h : Hash) (alive : Bool) (f : F) (o : Option ℕ)
      → HashMap.get k s.sessions ≡ o
      → IsDisjoint s
      → Conserves h s (sends k alive f) (send_by s alive k f o)
  unfolding send_by
  send-Conserves s k h alive f (some tx) e d = elim (Bool-cases (bytes_beq k h)) [
    | inl same ↦
        subst (λ x. Conserves x s (sends k alive f) (start_send s alive tx f))
          ((bytes_beq_iff k h).0 same) (start_same s k alive tx f (d k tx e))
    | inr other ↦ start_other s k h alive tx f other
  ]
  send-Conserves s k h alive f none e d = elim (Bool-cases (bytes_beq k h)) [
    | inl same ↦
        subst
          (λ x. Conserves x s (sends k alive f) (cache s k f (HashMap.get k s.pending_sessions)))
          ((bytes_beq_iff k h).0 same)
          (cache_same s k alive f (HashMap.get k s.pending_sessions) refl)
    | inr other ↦ cache_other s k h alive f (HashMap.get k s.pending_sessions) other
  ]

  tagged : (tx : ℕ) (msgs : List F) → frames_of (map (λ m. (tx, m)) msgs) ≡ msgs
  tagged tx [] = refl
  tagged tx (m ∷ ms) = ap (λ t. m ∷ t) (tagged tx ms)

  flush_all :
      (alive : Bool) (tx : ℕ) (msgs : List F) (sent : List (ℕ × F))
      → flush alive tx msgs ≡ some sent
      → frames_of sent ≡ msgs
  unfolding flush
  flush_all alive tx [] sent e = let same : [] ≡ sent = ground arith in rw (← same) refl
  flush_all true tx (m ∷ ms) sent e =
      let same : map (λ x. (tx, x)) (m ∷ ms) ≡ sent = ground arith in
      rw (← same) (ap (λ t. m ∷ t) (tagged tx ms))
  flush_all false tx (m ∷ ms) sent e = cc

  established-Conserves :
      (s : Shared F) (k h : Hash) (alive : Bool) (tx : ℕ) (o : Option (List (ℕ × F))) (d : Done F)
      → flush alive tx (waiting k s) ≡ o
      → established s k tx o ≡ some d
      → Conserves h s (opens k alive tx) d
  unfolding established
  established-Conserves s k h alive tx none d e i = cc
  established-Conserves s k h alive tx (some sent) d e i =
      let done : Done F = record {
        after = record {
          sessions = HashMap.insert k tx s.sessions;
          pending_sessions = HashMap.remove k s.pending_sessions;
        };
        taken = true;
        connects = false;
        delivered = sent;
      } in
      let is_done : done ≡ d = ground arith in
      subst (Conserves h s (opens k alive tx)) is_done (elim (Bool-cases (bytes_beq k h)) [
        | inl same ↦
            subst (λ x. Conserves x s (opens k alive tx) done) ((bytes_beq_iff k h).0 same)
              (rw (beq_self k, waiting_remove_self k, flush_all alive tx (waiting k s) sent e) refl)
        | inr other ↦
            rw (other, waiting_remove_other k h s.pending_sessions other) (append_nil (waiting h s))
      ])

  pub step-Conserves :
      (s : Shared F) (h : Hash) (e : Event F) (d : Done F)
      → IsDisjoint s
      → step s e ≡ some d
      → Conserves h s e d
  unfolding step
  step-Conserves s h (sends k alive f) d v e =
      let same : send s alive k f ≡ d = ground arith in
      subst (Conserves h s (sends k alive f)) same
        (unfold send in send-Conserves s k h alive f (HashMap.get k s.sessions) refl v)
  step-Conserves s h (opens k alive tx) d v e =
      established-Conserves s k h alive tx (flush alive tx (waiting k s)) d refl
        (unfold open_session in e)
  step-Conserves s h (ends k) d v e =
      let done : Done F = record {
        after = drop_session s k;
        taken = true;
        connects = false;
        delivered = [];
      } in
      let same : done ≡ d = ground arith in
      subst (Conserves h s (ends k)) same (unfold drop_session in append_nil (waiting h s))
