-- ===== src/Tunnel/BuildRequest.antt =====
-- The pure parts of `HopAcceptor` of src/tunnel/acceptor.rs: the request message, the record for
-- this router in it, the validity checks, and the answer. A time is in nanoseconds here.
pub mod Examine
use ire.Prelude.{
  ℕ, zero, suc, ◌+◌, ◌-◌, ◌*◌, ◌/◌, Bool, true, false, Option, none, some, List, [], ◌∷◌, ◌++◌, map,
  take, drop, ltb, ◌==◌, if◌then◌else◌, Bytes, bytes_beq,
}
use ire.Bloom.{BloomFilter, DecayingBloomFilter, feed}
use ire.Data.{Hash, TunnelId, SessionKey}
use ire.I2np.{
  ParticipantType, BuildRequestRecord, Message, message, tunnel_build, tunnel_build_reply,
  variable_tunnel_build, variable_tunnel_build_reply,
}
use ire.Tunnel.Hop.{HopData, HopConfig}
use ire.Tunnel.Encryption.{AesCrates, LayerCipher, new_layer_cipher}
use ire.Tunnel.Processor.{Answer, ready, not_ready, failed}

-- What the acceptor asks of other parts: our own hash, ElGamal (src/crypto/elgamal.rs), the
-- parser of a build request record (src/i2np/frame.rs), and SHA-256.
pub record RequestOps : Type 0 where
  pub our_hash : Hash
  pub elgamal_decrypt : Bytes → Option Bytes
  pub build_request_record : Bytes → Option BuildRequestRecord
  pub sha256 : Bytes → Bytes

-- The two types that implement `TunnelBuildRequest`: `Box<[[u8; 528]; 8]>` and `Vec<[u8; 528]>`.
pub data TunnelBuild : Type 0 where
  fixed variable : List Bytes → TunnelBuild

unfoldable pub entries : TunnelBuild → List Bytes
entries (fixed es) = es
entries (variable es) = es

unfoldable pub with_entries : TunnelBuild → List Bytes → TunnelBuild
with_entries (fixed old) es = fixed es
with_entries (variable old) es = variable es

-- `expiration` is that of `Message::from_payload`, in milliseconds.
unfoldable pub to_msg : {RI LS : Type 0} → TunnelBuild → ℕ → ℕ → Message RI LS
to_msg (fixed es) msg_id expiration = message msg_id expiration (tunnel_build es)
to_msg (variable es) msg_id expiration = message msg_id expiration (variable_tunnel_build es)

unfoldable pub to_reply : {RI LS : Type 0} → TunnelBuild → ℕ → ℕ → Message RI LS
to_reply (fixed es) msg_id expiration = message msg_id expiration (tunnel_build_reply es)
to_reply (variable es) msg_id expiration =
    message msg_id expiration (variable_tunnel_build_reply es)

-- `tb[i]`, and its replacement; `none` is the panic of an index out of range.
unfoldable pub entry : ℕ → List Bytes → Option Bytes
entry i [] = none
entry zero (e ∷ es) = some e
entry (suc i) (e ∷ es) = entry i es

unfoldable pub set_entry : ℕ → Bytes → List Bytes → List Bytes
set_entry i x [] = []
set_entry zero x (e ∷ es) = x ∷ es
set_entry (suc i) x (e ∷ es) = e ∷ set_entry i x es

-- `MAX_REQUEST_AGE`, `MAX_REQUEST_FUTURE` and `TUNNEL_LIFETIME` in seconds, and a second.
abbrev pub max_request_age : ℕ
max_request_age = 65 * 60

abbrev pub max_request_future : ℕ
max_request_future = 5 * 60

abbrev pub tunnel_lifetime : ℕ
tunnel_lifetime = 10 * 60

abbrev pub second : ℕ
second = 1000000000

abbrev pub tunnel_accept : ℕ
tunnel_accept = 0

abbrev pub tunnel_reject_crit : ℕ
tunnel_reject_crit = 50

-- What the validity checks say.
pub data Verdict : Type 0 where
  proceed next_is_us same_peers too_old too_new : Verdict

-- Is the next hop this router? Not asked of an outbound endpoint.
unfoldable pub is_next_hop : ParticipantType → Hash → Hash → Bool
is_next_hop ParticipantType.outbound_endpoint next us = false
is_next_hop ParticipantType.intermediate next us = bytes_beq next us
is_next_hop ParticipantType.inbound_gateway next us = bytes_beq next us

-- Are the previous and the next hop one? Asked of an intermediate hop only.
unfoldable pub is_turned_back : ParticipantType → Hash → Hash → Bool
is_turned_back ParticipantType.intermediate from next = bytes_beq from next
is_turned_back ParticipantType.outbound_endpoint from next = false
is_turned_back ParticipantType.inbound_gateway from next = false

-- Both `as_secs` round down.
unfoldable pub examine_time : ℕ → ℕ → Verdict
examine_time request_time cur_time =
    if ltb request_time cur_time
    then (if ltb max_request_age ((cur_time - request_time) / second) then too_old else proceed)
    else (if ltb max_request_future ((request_time - cur_time) / second) then too_new else proceed)

unfoldable pub examine : Hash → Hash → BuildRequestRecord → ℕ → Verdict
unfolding is_next_hop is_turned_back examine_time
examine us from brr cur_time =
    if is_next_hop brr.hop_type brr.next_ident us
    then next_is_us
    else if is_turned_back brr.hop_type from brr.next_ident
    then same_peers
    else examine_time (brr.request_time * 3600 * second) cur_time

-- `EncryptionInfo`; `reply` is that of the response record.
pub record EncryptionInfo (RI : Type 0) : Type 0 where
  pub is_obep : Bool
  pub next_hop : RI
  pub send_msg_id : ℕ
  pub reply : ℕ
  pub tb : TunnelBuild
  pub i : ℕ
  pub reply_key : SessionKey
  pub reply_iv : Bytes

-- The last test of `decrypt`: both are compared by their first 16 bytes.
unfoldable pub check_ident : Bytes → Option BuildRequestRecord → Option BuildRequestRecord
check_ident ct none = none
check_ident ct (some brr) =
    if bytes_beq (take 16 ct) (take 16 brr.our_ident) then some brr else none

unfoldable pub parse_record : RequestOps → Bytes → Option Bytes → Option BuildRequestRecord
unfolding check_ident
parse_record ops ct none = none
parse_record ops ct (some pt) = check_ident ct (ops.build_request_record pt)

-- `BuildRequestRecord::decrypt` of src/i2np/mod.rs
unfoldable pub decrypt_record : RequestOps → Bytes → Option BuildRequestRecord
unfolding parse_record
decrypt_record ops ct = parse_record ops ct (ops.elgamal_decrypt (drop 16 ct))

-- `gen_build_response_record` of src/i2np/frame.rs: a checksum, padding and the reply.
unfoldable pub build_response_record : (Bytes → Bytes) → Bytes → ℕ → Bytes
build_response_record sha256 padding reply = sha256 (padding ++ reply ∷ []) ++ padding ++ reply ∷ []

-- `match resolving.brr.hop_type` for the reply.
unfoldable pub reply_for : ParticipantType → ℕ
reply_for ParticipantType.intermediate = tunnel_accept
reply_for ParticipantType.inbound_gateway = tunnel_reject_crit
reply_for ParticipantType.outbound_endpoint = tunnel_reject_crit

unfoldable pub is_obep : ParticipantType → Bool
is_obep ParticipantType.outbound_endpoint = true
is_obep ParticipantType.intermediate = false
is_obep ParticipantType.inbound_gateway = false

-- `match resolving.brr.hop_type` for the data of the hop.
unfoldable pub hop_data_for : {RI : Type 0} → ParticipantType → Hash → RI → TunnelId → HopData RI
hop_data_for ParticipantType.inbound_gateway from next tid = HopData.inbound_gateway (next, tid)
hop_data_for ParticipantType.intermediate from next tid = HopData.intermediate from (next, tid)
hop_data_for ParticipantType.outbound_endpoint from next tid = HopData.outbound_endpoint from

unfoldable pub info_for :
    {RI : Type 0} → BuildRequestRecord → TunnelBuild → ℕ → RI → EncryptionInfo RI
info_for brr tb i next = record {
  is_obep = is_obep brr.hop_type;
  next_hop = next;
  send_msg_id = brr.send_msg_id;
  reply = reply_for brr.hop_type;
  tb = tb;
  i = i;
  reply_key = brr.reply_key;
  reply_iv = brr.reply_iv;
}

module _ (a : AesCrates) where
  unfoldable pub config_for :
      {RI : Type 0} → Hash → BuildRequestRecord → RI → ℕ → HopConfig RI (LayerCipher a)
  config_for from brr next now = record {
    hop_data = hop_data_for brr.hop_type from next brr.next_tid;
    layer_cipher = new_layer_cipher a brr.iv_key brr.layer_key;
    expires = now + tunnel_lifetime * second;
  }

  -- The bytes of every entry, encrypted with a cipher of its own.
  unfoldable pub encrypt_entries : SessionKey → Bytes → List Bytes → List Bytes
  encrypt_entries key iv es = map (λ e. (a.encrypt_blocks_mut (a.encryptor key iv) e).1) es

module _ (a : AesCrates) (ops : RequestOps) where
  -- The branch `Encrypt` up to the message: `padding` is random.
  unfoldable pub answered : {RI : Type 0} → EncryptionInfo RI → Bytes → TunnelBuild
  answered info padding =
      let record_bytes = build_response_record ops.sha256 padding info.reply in
      with_entries info.tb (
        encrypt_entries a info.reply_key info.reply_iv
          (set_entry info.i record_bytes (entries info.tb)))

unfoldable pub packaged : {RI LS : Type 0} → Bool → TunnelBuild → ℕ → ℕ → Message RI LS
packaged true tb msg_id expiration = to_reply tb msg_id expiration
packaged false tb msg_id expiration = to_msg tb msg_id expiration

module _ (a : AesCrates) (ops : RequestOps) where
  -- The expiration is `I2PDate::from_system_time(now + 60 s)`.
  unfoldable pub forward_msg : {RI LS : Type 0} → EncryptionInfo RI → Bytes → ℕ → Message RI LS
  forward_msg info padding now =
      packaged info.is_obep (answered a ops info padding) info.send_msg_id
        ((now + 60 * second) / 1000000)
