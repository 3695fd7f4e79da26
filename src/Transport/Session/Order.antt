-- ===== src/Transport/Session/Order.antt =====
-- Runs of the session state of src/transport/session.rs.
use ire.Prelude.{
  ℕ, ◌≡◌, refl, sym, ap, ◌∙◌, true, false, Option, none, some, List, [], ◌∷◌, ◌++◌, All, arith, map,
}
use ire.Data.{Hash}
use ire.Transport.Session.{
  Shared, Done, Event, sends, opens, ends, Log, flush, waiting, established, open_session, step,
  log_with, resume, run, final,
}
use ire.Transport.Session.Channel.{AllAddressed, step-IsAddressed}
use ire.Transport.Session.Disjoint.{OpensAlive, step-IsDisjoint}
use ire.Transport.Session.Delivery.{
  IsDisjoint, taken, given, taken_by, given_by, append_nil, step-Conserves,
}

module _ {F : Type 0} where
  -- The run has a log, and what it took for each peer, behind the frames that waited, is what it
  -- gave to the peer's channels followed by the frames that still wait; each frame went into the
  -- channel of the peer's session.
  pub record InOrder (s : Shared F) (es : List (Event F)) : Type 0 where
    pub log : Log F
    pub runs : run s es ≡ some log
    pub conserves : (h : Hash) → waiting h s ++ taken h log ≡ given h log ++ waiting h (final s log)
    pub disjoint : IsDisjoint (final s log)
    pub addressed : AllAddressed s log

  append_assoc : (xs ys zs : List F) → (xs ++ ys) ++ zs ≡ xs ++ (ys ++ zs)
  append_assoc [] ys zs = refl
  append_assoc (x ∷ xs) ys zs = ap (λ t. x ∷ t) (append_assoc xs ys zs)

  -- w ++ t = g ++ w' and w' ++ t' = g' ++ w'' give w ++ t ++ t' = (g ++ g') ++ w''.
  chain :
      (w t g w1 t1 g1 w2 : List F)
      → w ++ t ≡ g ++ w1
      → w1 ++ t1 ≡ g1 ++ w2
      → w ++ (t ++ t1) ≡ (g ++ g1) ++ w2
  chain w t g w1 t1 g1 w2 a b =
      sym (append_assoc w t t1)
      ∙ ap (λ x. x ++ t1) a
      ∙ append_assoc g w1 t1
      ∙ ap (λ x. g ++ x) b
      ∙ sym (append_assoc g g1 w2)

  -- The step does not panic.
  flush_alive : (tx : ℕ) (msgs : List F) → (sent : List (ℕ × F)) × (flush true tx msgs ≡ some sent)
  unfolding flush
  flush_alive tx [] = ([], refl)
  flush_alive tx (m ∷ ms) = (map (λ x. (tx, x)) (m ∷ ms), refl)

  step_total : (s : Shared F) (e : Event F) → OpensAlive e → (d : Done F) × (step s e ≡ some d)
  unfolding step open_session established
  step_total s (sends k alive f) a = (_, refl)
  step_total s (opens k true tx) a =
      let (sent, eq) = flush_alive tx (waiting k s) in (_, ap (established s k tx) eq)
  step_total s (opens k false tx) a = cc
  step_total s (ends k) a = (_, refl)

  resumed :
      (k : Shared F → Option (Log F)) (e : Event F) (d : Done F) (o : Option (Done F)) (l : Log F)
      → o ≡ some d
      → k d.after ≡ some l
      → resume k e o ≡ some ((e, d) ∷ l)
  unfolding resume log_with
  resumed k e d none l i j = cc
  resumed k e d (some d1) l i j = let same : d1 ≡ d = ground arith in rw same (ap (log_with e d) j)

  -- Unless a session is opened whose receiver has already gone, a run never panics, and for each
  -- peer the frames that waited at the start and those that `send` took, in this order, are the
  -- frames put into the peer's channels followed by those that still wait at the end: none is lost,
  -- doubled or overtaken. A frame that is sent goes into the channel of the session that the peer
  -- has then, the frames that waited into that of the new session, and nothing else is put into any
  -- channel; only the start and the end of a session change the sessions. No peer with a session is
  -- left with frames that wait.
  pub run-InOrder :
      (s : Shared F) (es : List (Event F)) → IsDisjoint s → All OpensAlive es → InOrder s es
  unfolding run final
  run-InOrder s [] v a = record {
    log = [];
    runs = refl;
    conserves = λ h. append_nil (waiting h s);
    disjoint = v;
    addressed = tt;
  }
  run-InOrder s (e ∷ es) v a =
      let (d, stepped) = step_total s e a.0 in
      let rest = run-InOrder d.after es (step-IsDisjoint s e d stepped v) a.1 in
      record {
        log = (e, d) ∷ rest.log;
        runs = resumed (λ s1. run s1 es) e d (step s e) rest.log stepped rest.runs;
        conserves = λ h.
            chain (waiting h s) (taken_by h e d) (given_by h e d) (waiting h d.after)
              (taken h rest.log) (given h rest.log) (waiting h (final d.after rest.log))
              (step-Conserves s h e d v stepped) (rest.conserves h);
        disjoint = rest.disjoint;
        addressed = (step-IsAddressed s e d stepped, rest.addressed);
      }
