-- ===== src/Tunnel/Acceptor/Wait.antt =====
-- `HopAcceptor` (src/tunnel/acceptor.rs) while the future of its state is not ready.
use ire.Prelude.{◌≡◌, ◌≢◌, refl, ap, Bool, true, false, List, [], ◌∷◌, All, if◌then◌else◌}
use ire.Bloom.{BloomFilter, DecayingBloomFilter}
use ire.Tunnel.Encryption.{AesCrates, LayerCipher}
use ire.Tunnel.Processor.{Answer, ready, not_ready, failed}
use ire.Tunnel.BuildRequest.{RequestOps}
use ire.Tunnel.Acceptor.{
  AcceptorState, Moment, Next, continue, stay, done, error, panicked, Step, after, step_on, step,
  resume, run,
}

abbrev pub is_ready : Answer → Bool
is_ready ready = true
is_ready not_ready = false
is_ready failed = false

module _ {RI : Type 0} where
  -- The iterations at which the state's future was ready.
  abbrev pub answers : List (Moment RI) → List (Moment RI)
  answers [] = []
  answers (m ∷ ms) = let rest = answers ms in if is_ready m.answer then m ∷ rest else rest

module _ {RI LS : Type 0} (b : BloomFilter) (a : AesCrates) (ops : RequestOps) where
  resume_ap :
      (k l : DecayingBloomFilter b
        → AcceptorState RI LS (LayerCipher a)
        → Step b RI LS (LayerCipher a))
      (st : Step b RI LS (LayerCipher a)) (n : Next RI LS (LayerCipher a))
      → ((g : DecayingBloomFilter b) (s : AcceptorState RI LS (LayerCipher a)) → k g s ≡ l g s)
      → resume b a ops k st n ≡ resume b a ops l st n
  unfolding resume
  resume_ap k l st (continue s) h = ap (after b a ops st) (h st.filter s)
  resume_ap k l st (stay s) h = ap (after b a ops st) (h st.filter s)
  resume_ap k l st done h = refl
  resume_ap k l st error h = refl
  resume_ap k l st panicked h = refl

  run_on :
      (f : DecayingBloomFilter b) (s : AcceptorState RI LS (LayerCipher a)) (m : Moment RI)
      (ms : List (Moment RI)) (o : Answer)
      → m.answer ≡ o
      → m.answer ≢ failed
      → ((g : DecayingBloomFilter b) (t : AcceptorState RI LS (LayerCipher a))
          → run b a ops g t ms ≡ run b a ops g t (answers ms))
      → run b a ops f s (m ∷ ms)
        ≡ run b a ops f s (if is_ready o then m ∷ answers ms else answers ms)
  unfolding run step resume step_on
  run_on f s m ms ready e ne h =
      resume_ap (λ g t. run b a ops g t ms) (λ g t. run b a ops g t (answers ms))
        (step b a ops f s m) (step b a ops f s m).next h
  run_on f s m ms not_ready e ne h = rw e (h f s)
  run_on f s m ms failed e ne h = absurd (ne e)

  -- However long an acceptor waits, only the iterations count at which it was answered.
  pub run_waits :
      (f : DecayingBloomFilter b) (s : AcceptorState RI LS (LayerCipher a)) (ms : List (Moment RI))
      → All (λ (m : Moment RI). m.answer ≢ failed) ms
      → run b a ops f s ms ≡ run b a ops f s (answers ms)
  run_waits f s [] h = refl
  run_waits f s (m ∷ ms) h = run_on f s m ms m.answer refl h.0 (λ g t. run_waits g t ms h.1)
