-- ===== src/Tunnel/Listener/Tests.antt =====
-- `Listener` at a request whose second entry is ours.
use ire.Prelude.{ℕ, ◌≡◌, refl, false, some, List, [], ◌∷◌, replicate, true, Bytes}
use mathlib.Core.List.{Memᴰ}
use ire.Bloom.{DecayingBloomFilter}
use ire.Bloom.Exact.{exact}
use ire.Data.{Hash}
use ire.I2np.{ParticipantType, BuildRequestRecord, MessagePayload, variable_tunnel_build}
use ire.Tunnel.Encryption.{LayerCipher}
use ire.Tunnel.Encryption.Reversal.{reversal}
use ire.Tunnel.Processor.{ready, not_ready}
use ire.Tunnel.BuildRequest.{RequestOps, variable}
use ire.Tunnel.Acceptor.{AcceptorState, decrypting, Moment, run}
use ire.Tunnel.Acceptor.Decision.{IsSound}
use ire.Tunnel.Listener.{find_our_entry, handle_message}
use ire.Tunnel.Listener.Spawned.{Begins, spawned-IsSound}

abbrev us : Hash
us = replicate 32 1

abbrev hop : BuildRequestRecord
hop = record {
  receive_tid = 1;
  our_ident = us;
  next_tid = 2;
  next_ident = 2 ∷ [];
  layer_key = [];
  iv_key = [];
  reply_key = 5 ∷ [];
  reply_iv = [];
  hop_type = ParticipantType.intermediate;
  request_time = 1;
  send_msg_id = 77;
}

abbrev request_ops : RequestOps
request_ops = record {
  our_hash = us;
  elgamal_decrypt = λ ct. some ct;
  build_request_record = λ pt. some hop;
  sha256 = λ x. x;
}

abbrev requests : List Bytes
requests = replicate 528 4 ∷ replicate 528 1 ∷ []

abbrev build_message : MessagePayload ℕ ℕ
build_message = variable_tunnel_build requests

abbrev empty : DecayingBloomFilter exact
empty = record { current = []; previous = []; max_elements = 20000 }

abbrev acceptor : AcceptorState ℕ ℕ (LayerCipher reversal)
acceptor = decrypting (3 ∷ []) (variable requests) 1

-- One iteration that waits, and those that register the tunnel and send the answer.
abbrev waits : Moment ℕ
waits = record { answer = not_ready; found = λ k. 44; now = 0; padding = []; accepted = false }

abbrev answered_at : ℕ → Moment ℕ
answered_at now = record {
  answer = ready;
  found = λ k. 44;
  now = now;
  padding = 9 ∷ [];
  accepted = true;
}

abbrev moments : List (Moment ℕ)
moments = waits ∷ replicate 5 (answered_at 3600000000000)

second_is_ours : handle_message us (3 ∷ []) build_message ≡ some acceptor
unfolding handle_message find_our_entry
second_is_ours = refl

spawned-IsSound_example :
    (o : Begins us (3 ∷ []) build_message acceptor) × IsSound
      (λ m. Memᴰ m moments)
      exact
      reversal
      request_ops
      (3 ∷ [])
      o.tb
      o.i
      o.first.own
      o.first.present
      (run exact reversal request_ops empty acceptor moments)
spawned-IsSound_example =
    spawned-IsSound exact reversal request_ops empty (3 ∷ []) build_message acceptor moments
      second_is_ours
