-- ===== src/Tunnel/Acceptor/Tests.antt =====
-- `HopAcceptor` at a concrete request, with an exact filter and a cipher that reverses bytes.
use ire.Prelude.{
  ℕ, ◌+◌, ◌≢◌, List, All, Bytes, length, ◌≡◌, ◌↔◌, refl, false, some, [], ◌∷◌, inr, replicate,
  arith,
}
use ire.Tunnel.Acceptor.Complete.{ready_at, intermediate_joins, others_declined}
use ire.Tunnel.Acceptor.Reply.{IsReply, reply_byte, intermediate_config}
use ire.Tunnel.Processor.{not_ready, failed}
use ire.Bloom.{DecayingBloomFilter, feed}
use ire.Bloom.Exact.{exact}
use ire.Data.{Hash}
use ire.I2np.{ParticipantType, Message, BuildRequestRecord}
use ire.Tunnel.Encryption.Reversal.{reversal}
use ire.Tunnel.BuildRequest.{
  RequestOps, TunnelBuild, variable, proceed, examine, decrypt_record, entry, entries,
}
use ire.Tunnel.BuildRequest.Examine.{IsAcceptable, examine_iff}
use ire.Tunnel.Acceptor.{Moment, decrypting, done, run}

abbrev us : Hash
us = replicate 32 1

abbrev as_hop : ParticipantType → BuildRequestRecord
as_hop t = record {
  receive_tid = 1;
  our_ident = us;
  next_tid = 2;
  next_ident = 2 ∷ [];
  layer_key = [];
  iv_key = [];
  reply_key = 5 ∷ [];
  reply_iv = [];
  hop_type = t;
  request_time = 1;
  send_msg_id = 77;
}

abbrev request_ops : ParticipantType → RequestOps
request_ops t = record {
  our_hash = us;
  elgamal_decrypt = λ ct. some ct;
  build_request_record = λ pt. some (as_hop t);
  sha256 = λ x. x;
}

abbrev ours_only : TunnelBuild
ours_only = variable (replicate 528 1 ∷ [])

abbrev empty : DecayingBloomFilter exact
empty = record { current = []; previous = []; max_elements = 20000 }

abbrev from : Hash
from = 3 ∷ []

abbrev one_hour : ℕ
one_hour = 3600000000000

acceptable : (t : ParticipantType) → IsAcceptable us from (as_hop t) one_hour
acceptable t = record {
  other_next = inr (λ e. cc);
  onward = λ h e. cc;
  not_old = omega arith;
  not_early = omega arith;
}

examine_iff_example :
    (examine us from (as_hop ParticipantType.intermediate) one_hour ≡ proceed)
    ↔ IsAcceptable us from (as_hop ParticipantType.intermediate) one_hour
examine_iff_example = examine_iff us from (as_hop ParticipantType.intermediate) one_hour

entry_ours : entry 0 (entries ours_only) ≡ some (replicate 528 1)
unfolding entry entries
entry_ours = refl

decrypts_ours :
    (t : ParticipantType) → decrypt_record (request_ops t) (replicate 528 1) ≡ some (as_hop t)
unfolding decrypt_record
decrypts_ours t = refl

feed_fresh : (feed exact empty (5 ∷ [])).1 ≡ false
unfolding feed
feed_fresh = refl

-- The router with the number 44 is found under the next hop's hash.
abbrev looked_up : Hash → ℕ
looked_up key = length key + 43

abbrev waits : Moment ℕ
waits = record { answer = not_ready; found = looked_up; now = 0; padding = []; accepted = false }

abbrev at_one : Bytes → Moment ℕ
at_one padding = ready_at looked_up one_hour padding

abbrev five : List (Moment ℕ)
five = waits ∷ at_one [] ∷ at_one [] ∷ at_one [] ∷ at_one (9 ∷ []) ∷ at_one [] ∷ []

abbrev four : List (Moment ℕ)
four = at_one [] ∷ waits ∷ at_one [] ∷ at_one (9 ∷ []) ∷ at_one [] ∷ []

five_unfailed : All (λ (m : Moment ℕ). m.answer ≢ failed) five
five_unfailed = ((λ e. cc), ((λ e. cc), ((λ e. cc), ((λ e. cc), ((λ e. cc), ((λ e. cc), tt))))))

four_unfailed : All (λ (m : Moment ℕ). m.answer ≢ failed) four
four_unfailed = ((λ e. cc), ((λ e. cc), ((λ e. cc), ((λ e. cc), ((λ e. cc), tt)))))

intermediate_joins_example :
    (msg : Message ℕ ℕ) × (run exact reversal
        (request_ops ParticipantType.intermediate)
        empty
        (decrypting from ours_only 0)
        five
      ≡ record {
        filter = (feed exact empty (5 ∷ [])).0;
        next = done;
        registered =
            (1, intermediate_config reversal from (as_hop ParticipantType.intermediate) 44 one_hour)
            ∷ [];
        handed = (44, msg) ∷ [];
      })
    × IsReply reversal
        (λ x. x)
        (as_hop ParticipantType.intermediate)
        ours_only
        0
        (9 ∷ [])
        one_hour
        msg
intermediate_joins_example =
    intermediate_joins exact reversal (request_ops ParticipantType.intermediate) empty from
      ours_only 0 (replicate 528 1) (as_hop ParticipantType.intermediate) looked_up looked_up
      looked_up looked_up looked_up one_hour one_hour one_hour one_hour one_hour [] [] [] (9 ∷ [])
      [] entry_ours (decrypts_ours ParticipantType.intermediate) five [] five_unfailed feed_fresh
      (acceptable ParticipantType.intermediate) refl refl

others_declined_example :
    (msg : Message ℕ ℕ) × (run exact reversal
        (request_ops ParticipantType.outbound_endpoint)
        empty
        (decrypting from ours_only 0)
        four
      ≡ record {
        filter = (feed exact empty (5 ∷ [])).0;
        next = done;
        registered = [];
        handed = (44, msg) ∷ [];
      })
    × IsReply reversal
        (λ x. x)
        (as_hop ParticipantType.outbound_endpoint)
        ours_only
        0
        (9 ∷ [])
        one_hour
        msg
    × (reply_byte ParticipantType.outbound_endpoint ≡ 50)
others_declined_example =
    others_declined exact reversal (request_ops ParticipantType.outbound_endpoint) empty from
      ours_only 0 (replicate 528 1) (as_hop ParticipantType.outbound_endpoint) looked_up looked_up
      looked_up looked_up looked_up one_hour one_hour one_hour one_hour one_hour [] [] (9 ∷ []) []
      [] entry_ours (decrypts_ours ParticipantType.outbound_endpoint) four [] four_unfailed
      feed_fresh (acceptable ParticipantType.outbound_endpoint) (λ e. cc) refl
