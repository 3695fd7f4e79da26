-- ===== src/Transport/Session/Stale.antt =====
-- Two sessions with one peer: `SessionContext` of src/transport/session.rs removes by the peer's
-- hash, whichever session it stands for.
use ire.Prelude.{
  ℕ, ◌≡◌, refl, ◌∙◌, Bool, true, false, Option, none, some, List, [], arith, bytes_eq,
}
use ire.HashMap
use ire.HashMap.{get-insert, get-insert_self, get-remove, beq_self}
use ire.Data.{Hash}
use ire.Transport.Session.{
  Shared, Done, send, send_by, cache, flush, waiting, established, open_session, drop_session,
}

module _ {F : Type 0} where
  removed : (s : Shared F) (h : Hash) → HashMap.get h (drop_session s h).sessions ≡ none
  unfolding drop_session
  removed s h = get-remove h h s.sessions ∙ rw (beq_self h) refl

  connects_anew :
      (s : Shared F) (h : Hash) (alive : Bool) (f : F) (o : Option ℕ)
      → o ≡ none
      → HashMap.get h s.pending_sessions ≡ none
      → ((send_by s alive h f o).connects ≡ true) × ((send_by s alive h f o).delivered ≡ [])
  unfolding send_by cache
  connects_anew s h alive f none e p = rw p (refl, refl)
  connects_anew s h alive f (some tx) e p = cc

  opened_waits :
      (s : Shared F) (h : Hash) (tx : ℕ) (o : Option (List (ℕ × F))) (d : Done F)
      → established s h tx o ≡ some d
      → (HashMap.get h d.after.pending_sessions ≡ none) × (HashMap.get h d.after.sessions ≡ some tx)
  unfolding established
  opened_waits s h tx none d e = cc
  opened_waits s h tx (some sent) d e =
      let done : Done F = record {
        after = record {
          sessions = HashMap.insert h tx s.sessions;
          pending_sessions = HashMap.remove h s.pending_sessions;
        };
        taken = true;
        connects = false;
        delivered = sent;
      } in
      let same : done ≡ d = ground arith in
      rw (← same)
        (get-remove h h s.pending_sessions ∙ rw (beq_self h) refl, get-insert_self h tx s.sessions)

  -- When a second session with a peer is opened while the first is still there, the end of the
  -- first removes the second: its channel is the one for the peer until then, and afterwards the
  -- next send puts nothing into it but opens yet another connection.
  pub stale_drop_forgets :
      (s : Shared F) (h : Hash) (first second : ℕ) (d e : Done F) (alive : Bool) (frame : F)
      → open_session s true h first ≡ some d
      → open_session d.after true h second ≡ some e
      → (HashMap.get h e.after.sessions ≡ some second)
        × ((send (drop_session e.after h) alive h frame).connects ≡ true)
        × ((send (drop_session e.after h) alive h frame).delivered ≡ [])
  unfolding open_session send
  stale_drop_forgets s h first second d e alive frame i j =
      let opened = opened_waits d.after h second (flush true second (waiting h d.after)) e j in
      let fresh =
        connects_anew (drop_session e.after h) h alive frame
          (HashMap.get h (drop_session e.after h).sessions) (removed e.after h)
          (unfold drop_session in opened.0) in
      (opened.1, fresh.0, fresh.1)
