-- ===== src/Tunnel/Acceptor.antt =====
-- `HopAcceptor` of src/tunnel/acceptor.rs, which decides on one request to take part in a tunnel.
-- One iteration of the loop in `poll` is a step; what the pool, the network database, the channel,
-- the transports and the clock answer is its input. A time is in nanoseconds here.
pub mod Reached
pub mod Reply
pub mod Wait
pub mod Decision
pub mod Complete
mod Tests
use ire.Prelude.{
  ℕ, zero, suc, ◌+◌, ◌-◌, ◌*◌, ◌/◌, Bool, true, false, Option, none, some, List, [], ◌∷◌, ◌++◌, map,
  take, drop, ltb, ◌==◌, if◌then◌else◌, Bytes, bytes_beq,
}
use ire.Bloom.{BloomFilter, DecayingBloomFilter, feed}
use ire.Data.{Hash, TunnelId, SessionKey}
use ire.I2np.{
  ParticipantType, BuildRequestRecord, Message, message, tunnel_build, tunnel_build_reply,
  variable_tunnel_build, variable_tunnel_build_reply,
}
use ire.Tunnel.Hop.{HopData, HopConfig}
use ire.Tunnel.Encryption.{AesCrates, LayerCipher, new_layer_cipher}
use ire.Tunnel.Processor.{Answer, ready, not_ready, failed}
use ire.Tunnel.BuildRequest.{
  entries, with_entries, to_msg, to_reply, entry, set_entry, is_next_hop, is_turned_back,
  examine_time, examine, check_ident, parse_record, decrypt_record, build_response_record,
  reply_for, is_obep, hop_data_for, info_for, config_for, encrypt_entries, answered, packaged,
  forward_msg, max_request_age, max_request_future, tunnel_lifetime, second, tunnel_accept,
  tunnel_reject_crit, RequestOps, TunnelBuild, Verdict, proceed, EncryptionInfo,
}

-- `HopAcceptorState`; of the lookup that `Resolving` holds, the key that it asks for stands behind
-- the previous hop.
pub data AcceptorState (RI LS C : Type 0) : Type 0 where
  decrypting : Hash → TunnelBuild → ℕ → AcceptorState RI LS C
  resolving : Hash → Hash → BuildRequestRecord → TunnelBuild → ℕ → AcceptorState RI LS C
  registering : TunnelId → HopConfig RI C → EncryptionInfo RI → AcceptorState RI LS C
  encrypting : EncryptionInfo RI → AcceptorState RI LS C
  sending : RI → Message RI LS → AcceptorState RI LS C

-- The outside during one iteration: what the state's future answers, the RouterInfo that a lookup
-- yields for its key, the clock, the random padding, and whether a transport takes the message.
pub record Moment (RI : Type 0) : Type 0 where
  pub answer : Answer
  pub found : Hash → RI
  pub now : ℕ
  pub padding : Bytes
  pub accepted : Bool

pub data Next (RI LS C : Type 0) : Type 0 where
  continue stay : AcceptorState RI LS C → Next RI LS C
  done error panicked : Next RI LS C

-- The filter that all acceptors share, how the iteration ends, and what it gave to the participant
-- and to the transports.
pub record Step (b : BloomFilter) (RI LS C : Type 0) : Type 0 where
  pub filter : DecayingBloomFilter b
  pub next : Next RI LS C
  pub registered : List (TunnelId × HopConfig RI C)
  pub handed : List (RI × Message RI LS)

module _ {RI LS : Type 0} (b : BloomFilter) (a : AesCrates) (ops : RequestOps) where
  -- The filter as it was, nothing registered and nothing handed over.
  abbrev pub only :
      DecayingBloomFilter b → Next RI LS (LayerCipher a) → Step b RI LS (LayerCipher a)
  only f n = record { filter = f; next = n; registered = []; handed = [] }

  -- After the checks: look the next hop up, or drop the request.
  unfoldable pub decide :
      Verdict → Hash → BuildRequestRecord → TunnelBuild → ℕ → Next RI LS (LayerCipher a)
  decide proceed from brr tb i = continue (resolving from brr.next_ident brr tb i)
  decide refused from brr tb i = done

  -- The branch `Decrypt` once the record has been decrypted: `none` is an error of `decrypt`.
  unfoldable pub decrypted :
      DecayingBloomFilter b
      → Hash
      → TunnelBuild
      → ℕ
      → ℕ
      → Option BuildRequestRecord
      → Step b RI LS (LayerCipher a)
  unfolding decide
  decrypted f from tb i now none = only f done
  decrypted f from tb i now (some brr) =
      let fed = feed b f brr.reply_key in
      let verdict = examine ops.our_hash from brr now in
      if fed.1 then only fed.0 done else only fed.0 (decide verdict from brr tb i)

  unfoldable pub decrypt_entry :
      DecayingBloomFilter b
      → Hash
      → TunnelBuild
      → ℕ
      → ℕ
      → Option Bytes
      → Step b RI LS (LayerCipher a)
  unfolding decrypted
  decrypt_entry f from tb i now none = only f panicked
  decrypt_entry f from tb i now (some ct) = decrypted f from tb i now (decrypt_record ops ct)

  -- The branch `Resolving` once the lookup has answered.
  unfoldable pub resolved :
      Hash → BuildRequestRecord → TunnelBuild → ℕ → RI → ℕ → AcceptorState RI LS (LayerCipher a)
  resolved from brr tb i next now =
      let info = info_for brr tb i next in
      if info.reply == tunnel_accept
      then registering brr.receive_tid (config_for a from brr next now) info
      else encrypting info

  -- The branch `Encrypt` once the pool has done its work.
  unfoldable pub offered :
      DecayingBloomFilter b → RI → Message RI LS → Bool → Step b RI LS (LayerCipher a)
  offered f next msg true = record {
    filter = f;
    next = continue (sending next msg);
    registered = [];
    handed = (next, msg) ∷ [];
  }
  offered f next msg false = only f error

  -- A branch whose future is ready.
  unfoldable pub step_ready :
      DecayingBloomFilter b
      → AcceptorState RI LS (LayerCipher a)
      → Moment RI
      → Step b RI LS (LayerCipher a)
  unfolding decrypt_entry resolved offered
  step_ready f (decrypting from tb i) m = decrypt_entry f from tb i m.now (entry i (entries tb))
  step_ready f (resolving from key brr tb i) m =
      only f (continue (resolved from brr tb i (m.found key) m.now))
  step_ready f (registering tid config info) m = record {
    filter = f;
    next = continue (encrypting info);
    registered = (tid, config) ∷ [];
    handed = [];
  }
  step_ready f (encrypting info) m =
      offered f info.next_hop (forward_msg a ops info m.padding m.now) m.accepted
  step_ready f (sending next msg) m = only f done

  -- `try_poll!` around each branch.
  unfoldable pub step_on :
      DecayingBloomFilter b
      → AcceptorState RI LS (LayerCipher a)
      → Moment RI
      → Answer
      → Step b RI LS (LayerCipher a)
  unfolding step_ready
  step_on f s m ready = step_ready f s m
  step_on f s m not_ready = only f (stay s)
  step_on f s m failed = only f error

  unfoldable pub step :
      DecayingBloomFilter b
      → AcceptorState RI LS (LayerCipher a)
      → Moment RI
      → Step b RI LS (LayerCipher a)
  unfolding step_on
  step f s m = step_on f s m m.answer

  -- What an iteration gave away, before what the later ones give.
  abbrev pub after :
      Step b RI LS (LayerCipher a) → Step b RI LS (LayerCipher a) → Step b RI LS (LayerCipher a)
  after st rest = record rest {
    registered = st.registered ++ rest.registered;
    handed = st.handed ++ rest.handed;
  }

  unfoldable pub resume :
      (DecayingBloomFilter b → AcceptorState RI LS (LayerCipher a) → Step b RI LS (LayerCipher a))
      → Step b RI LS (LayerCipher a)
      → Next RI LS (LayerCipher a)
      → Step b RI LS (LayerCipher a)
  resume k st (continue s) = after st (k st.filter s)
  resume k st (stay s) = after st (k st.filter s)
  resume k st done = st
  resume k st error = st
  resume k st panicked = st

  -- Iterations one after the other, over all calls of `poll`. Other acceptors may use the filter in
  -- between; here only this one does.
  unfoldable pub run :
      DecayingBloomFilter b
      → AcceptorState RI LS (LayerCipher a)
      → List (Moment RI)
      → Step b RI LS (LayerCipher a)
  unfolding resume
  run f s [] = only f (stay s)
  run f s (m ∷ ms) = let st = step f s m in resume (λ g s'. run g s' ms) st st.next
