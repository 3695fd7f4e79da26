-- ===== src/Transport/Session/Disjoint.antt =====
-- The invariant of the session state of src/transport/session.rs: a peer has a session or frames
-- that wait for one, never both.
use ire.Prelude.{
  ℕ, ◌≡◌, refl, sym, ◌∙◌, subst, Bool, true, false, Option, none, some, List, [], ◌∷◌, ◌++◌,
  bytes_eq, bytes_beq, bytes_beq_iff, arith, Bool-cases, inl, inr,
}
use ire.HashMap
use ire.HashMap.{HashMap, get-insert, get-insert_self, get-remove, beq_self}
use ire.Data.{Hash}
use ire.Transport.Session.{
  Shared, Done, Event, sends, opens, ends, start_send, cache, send_by, send, flush, waiting,
  waiting_of, established, open_session, drop_session, step,
}
use ire.Transport.Session.Delivery.{
  IsDisjoint, waiting_insert_other, waiting_remove_self, waiting_remove_other,
}

module _ {F : Type 0} where
  -- The receiver of a new session's channel is there when the session is opened.
  abbrev pub OpensAlive : Event F → Type 0
  OpensAlive (opens k alive tx) = alive ≡ true
  OpensAlive e = Unit {0}

  cache-IsDisjoint :
      (s : Shared F) (k : Hash) (f : F) (o : Option (List F))
      → HashMap.get k s.sessions ≡ none
      → IsDisjoint s
      → IsDisjoint (cache s k f o).after
  unfolding cache
  cache-IsDisjoint s k f none e v = λ j tx up. elim (Bool-cases (bytes_beq k j)) [
    | inl same ↦
        let key_eq : k ≡ j = (bytes_beq_iff k j).0 same in
        absurd (cc (subst (λ x. HashMap.get x s.sessions ≡ none) key_eq e, up))
    | inr other ↦ waiting_insert_other k j (f ∷ []) s.pending_sessions other ∙ v j tx up
  ]
  cache-IsDisjoint s k f (some frames) e v = λ j tx up. elim (Bool-cases (bytes_beq k j)) [
    | inl same ↦
        let key_eq : k ≡ j = (bytes_beq_iff k j).0 same in
        absurd (cc (subst (λ x. HashMap.get x s.sessions ≡ none) key_eq e, up))
    | inr other ↦ waiting_insert_other k j (frames ++ f ∷ []) s.pending_sessions other ∙ v j tx up
  ]

  start-after : (s : Shared F) (alive : Bool) (tx : ℕ) (f : F) → (start_send s alive tx f).after ≡ s
  unfolding start_send
  start-after s true tx f = refl
  start-after s false tx f = refl

  send-IsDisjoint :
      (s : Shared F) (k : Hash) (alive : Bool) (f : F) (o : Option ℕ)
      → HashMap.get k s.sessions ≡ o
      → IsDisjoint s
      → IsDisjoint (send_by s alive k f o).after
  unfolding send_by
  send-IsDisjoint s k alive f (some tx) e v = subst IsDisjoint (sym (start-after s alive tx f)) v
  send-IsDisjoint s k alive f none e v =
      cache-IsDisjoint s k f (HashMap.get k s.pending_sessions) e v

  opened-IsDisjoint :
      (s : Shared F) (k : Hash) (tx : ℕ)
      → IsDisjoint s
      → IsDisjoint (record {
        sessions = HashMap.insert k tx s.sessions;
        pending_sessions = HashMap.remove k s.pending_sessions;
      })
  opened-IsDisjoint s k tx v = λ j tx' up. elim (Bool-cases (bytes_beq k j)) [
    | inl same ↦
        subst (λ x. waiting_of (HashMap.get x (HashMap.remove k s.pending_sessions)) ≡ [])
          ((bytes_beq_iff k j).0 same) (waiting_remove_self k s.pending_sessions)
    | inr other ↦
        waiting_remove_other k j s.pending_sessions other
        ∙ v j tx' (rw (get-insert k j tx s.sessions, other) at up)
  ]

  dropped-IsDisjoint : (s : Shared F) (k : Hash) → IsDisjoint s → IsDisjoint (drop_session s k)
  unfolding drop_session
  dropped-IsDisjoint s k v = λ j tx up. elim (Bool-cases (bytes_beq k j)) [
    | inl same ↦ absurd (ground (arith, get-remove k j s.sessions, same, up))
    | inr other ↦ v j tx (rw (get-remove k j s.sessions, other) at up)
  ]

  established-IsDisjoint :
      (s : Shared F) (k : Hash) (tx : ℕ) (o : Option (List (ℕ × F))) (d : Done F)
      → established s k tx o ≡ some d
      → IsDisjoint s
      → IsDisjoint d.after
  unfolding established
  established-IsDisjoint s k tx none d i v = cc
  established-IsDisjoint s k tx (some sent) d i v =
      let done : Done F = record {
        after = record {
          sessions = HashMap.insert k tx s.sessions;
          pending_sessions = HashMap.remove k s.pending_sessions;
        };
        taken = true;
        connects = false;
        delivered = sent;
      } in
      let same : done ≡ d = ground arith in
      subst (λ (x : Done F). IsDisjoint x.after) same (opened-IsDisjoint s k tx v)

  -- The invariant is kept by every operation.
  pub step-IsDisjoint :
      (s : Shared F) (e : Event F) (d : Done F)
      → step s e ≡ some d
      → IsDisjoint s
      → IsDisjoint d.after
  unfolding step
  step-IsDisjoint s (sends k alive f) d i v =
      let same : send s alive k f ≡ d = ground arith in
      subst (λ (x : Done F). IsDisjoint x.after) same
        (unfold send in send-IsDisjoint s k alive f (HashMap.get k s.sessions) refl v)
  step-IsDisjoint s (opens k alive tx) d i v =
      established-IsDisjoint s k tx (flush alive tx (waiting k s)) d (unfold open_session in i) v
  step-IsDisjoint s (ends k) d i v =
      let done : Done F = record {
        after = drop_session s k;
        taken = true;
        connects = false;
        delivered = [];
      } in
      let same : done ≡ d = ground arith in
      subst (λ (x : Done F). IsDisjoint x.after) same (dropped-IsDisjoint s k v)
