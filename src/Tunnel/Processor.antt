-- ===== src/Tunnel/Processor.antt =====
-- `HopProcessor` of src/tunnel/processor.rs: encrypts one TunnelData message and sends it on. One
-- iteration of the loop in `poll` is a step; what the thread pool, the transports and the clock
-- answer is its input. The transports take the message or give it back (`CommSystem::send`).
pub mod Sent
mod Tests
use ire.Prelude.{ℕ, ◌+◌, Bool, true, false, Option, none, some, List, [], ◌∷◌}
use ire.Data.{TunnelId, I2PDate}
use ire.I2np.{Message, TunnelData, message, tunnel_data}
use ire.Tunnel.Encryption.{AesCrates, LayerCipher, encrypt_layer}
use ire.Tunnel.Participant.{Processing}

-- What a future answers.
pub data Answer : Type 0 where
  ready not_ready failed : Answer

-- The outside during one iteration: `blocking` or the transport's future, whether a transport takes
-- the message, and the id and time that `Message::from_payload` uses.
pub record Moment : Type 0 where
  pub answer : Answer
  pub accepted : Bool
  pub msg_id : ℕ
  pub now : ℕ

-- `MESSAGE_EXPIRATION_MS` and `Message::from_payload` of src/i2np/mod.rs, for TunnelData.
unfoldable pub from_tunnel_data : {RI LS : Type 0} → Moment → TunnelData → Message RI LS
from_tunnel_data m td = message m.msg_id (m.now + 60000) (tunnel_data td)

-- `Sending` holds the transport's future; what was handed over is kept for the statements.
pub data HopState (RI LS C : Type 0) : Type 0 where
  processing : Processing RI C → HopState RI LS C
  sending : RI → Message RI LS → HopState RI LS C

-- The loop goes on in a state, `poll` returns `NotReady` in a state, or the future is done: with
-- `Ready(())`, with an error, or by a panic.
pub data Next (RI LS C : Type 0) : Type 0 where
  continue stay : HopState RI LS C → Next RI LS C
  done error panicked : Next RI LS C

module _ {RI LS : Type 0} (a : AesCrates) where
  -- The `match` on what `send` returns.
  unfoldable pub offer : Bool → RI → Message RI LS → Next RI LS (LayerCipher a)
  offer true ri msg = continue (sending ri msg)
  offer false ri msg = error

  -- `td.tid = next_hop.1`, and the call of `send`.
  unfoldable pub hand_over : Moment → RI × TunnelId → Option TunnelData → Next RI LS (LayerCipher a)
  unfolding from_tunnel_data
  hand_over m next none = panicked
  hand_over m next (some td) =
      offer m.accepted next.0 (from_tunnel_data m (record td { tid = next.1 }))

  unfoldable pub step_processing :
      Processing RI (LayerCipher a) → Moment → Answer → Next RI LS (LayerCipher a)
  unfolding hand_over
  step_processing hp m ready = hand_over m hp.next_hop (encrypt_layer a hp.layer_cipher hp.td)
  step_processing hp m not_ready = stay (processing hp)
  step_processing hp m failed = error

  unfoldable pub step_sending : RI → Message RI LS → Answer → Next RI LS (LayerCipher a)
  step_sending ri msg ready = done
  step_sending ri msg not_ready = stay (sending ri msg)
  step_sending ri msg failed = error

  unfoldable pub step : HopState RI LS (LayerCipher a) → Moment → Next RI LS (LayerCipher a)
  unfolding step_processing step_sending
  step (processing hp) m = step_processing hp m m.answer
  step (sending ri msg) m = step_sending ri msg m.answer

  -- Iterations one after the other, over all calls of `poll`, and where they end.
  unfoldable pub resume :
      (HopState RI LS (LayerCipher a) → Next RI LS (LayerCipher a))
      → Next RI LS (LayerCipher a)
      → Next RI LS (LayerCipher a)
  resume k (continue s) = k s
  resume k (stay s) = k s
  resume k done = done
  resume k error = error
  resume k panicked = panicked

  unfoldable pub run : HopState RI LS (LayerCipher a) → List Moment → Next RI LS (LayerCipher a)
  unfolding resume
  run s [] = stay s
  run s (m ∷ ms) = resume (λ s'. run s' ms) (step s m)
