-- ===== src/Tunnel/Processor/Tests.antt =====
-- `HopProcessor` with a cipher that reverses bytes, and the theorem at a concrete message.
use ire.Prelude.{ℕ, true, List, [], ◌∷◌, refl, replicate}
use ire.Tunnel.Encryption.{LayerCipher}
use ire.Tunnel.Encryption.Reversal.{reversal}
use ire.Tunnel.Participant.{Processing}
use ire.Tunnel.Processor.{Moment, processing, ready, not_ready, run}
use ire.Tunnel.Processor.Sent.{Ends, waiting, run-Ends, Delivers, run-Delivers}

abbrev hop : Processing ℕ (LayerCipher reversal)
hop = record {
  next_hop = (55, 9);
  td = record { tid = 7; body = replicate 1024 5 };
  layer_cipher = record { iv_cipher = 1 ∷ []; layer_key = 2 ∷ [] };
}

abbrev slow_pool : List Moment
slow_pool =
    record { answer = not_ready; accepted = true; msg_id = 1; now = 0 }
    ∷ record { answer = ready; accepted = true; msg_id = 2; now = 1000 }
    ∷ record { answer = ready; accepted = true; msg_id = 3; now = 1000 }
    ∷ []

run-Ends_example : Ends {LS = ℕ} reversal hop (run reversal (processing hop) slow_pool)
run-Ends_example = run-Ends reversal hop refl (processing hop) slow_pool waiting

abbrev free : ℕ → Moment
free now = record { answer = ready; accepted = true; msg_id = 1; now = now }

run-Delivers_example : Delivers ℕ reversal hop (free 1) (free 2)
run-Delivers_example = run-Delivers ℕ reversal hop (free 1) (free 2) refl refl refl refl
