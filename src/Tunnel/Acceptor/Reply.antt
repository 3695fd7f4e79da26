-- ===== src/Tunnel/Acceptor/Reply.antt =====
-- What `HopAcceptor` (src/tunnel/acceptor.rs) registers and sends, described apart from the code.
use ire.Prelude.{
  ℕ, zero, suc, ◌+◌, ◌*◌, ◌/◌, ◌≡◌, ◌≢◌, refl, ap, ◌∙◌, some, List, [], ◌∷◌, ◌++◌, map, Bytes,
  length, arith,
}
use ire.Data.{Hash}
use ire.I2np.{
  ParticipantType, BuildRequestRecord, Message, message, tunnel_build, tunnel_build_reply,
  variable_tunnel_build, variable_tunnel_build_reply,
}
use ire.Tunnel.Hop.{HopData, HopConfig}
use ire.Tunnel.Encryption.{AesCrates, LayerCipher, new_layer_cipher}
use ire.Tunnel.BuildRequest.{
  RequestOps, TunnelBuild, fixed, variable, entries, with_entries, entry, set_entry, to_msg,
  to_reply, packaged, is_obep, reply_for, build_response_record, encrypt_entries, answered,
  info_for, forward_msg, hop_data_for, config_for, second,
}

-- Zero accepts, fifty rejects.
abbrev pub reply_byte : ParticipantType → ℕ
reply_byte ParticipantType.intermediate = 0
reply_byte ParticipantType.inbound_gateway = 50
reply_byte ParticipantType.outbound_endpoint = 50

-- The message around the entries: a request again, or a reply if this router is the last hop.
abbrev pub wrapped :
    {RI LS : Type 0} → ParticipantType → TunnelBuild → ℕ → ℕ → List Bytes → Message RI LS
wrapped ParticipantType.outbound_endpoint (fixed old) id t es = message id t (tunnel_build_reply es)
wrapped ParticipantType.outbound_endpoint (variable old) id t es =
    message id t (variable_tunnel_build_reply es)
wrapped ParticipantType.intermediate (fixed old) id t es = message id t (tunnel_build es)
wrapped ParticipantType.intermediate (variable old) id t es =
    message id t (variable_tunnel_build es)
wrapped ParticipantType.inbound_gateway (fixed old) id t es = message id t (tunnel_build es)
wrapped ParticipantType.inbound_gateway (variable old) id t es =
    message id t (variable_tunnel_build es)

-- One entry, encrypted under the reply key and IV of the record.
abbrev pub sealed : AesCrates → BuildRequestRecord → Bytes → Bytes
sealed a brr bs = (a.encrypt_blocks_mut (a.encryptor brr.reply_key brr.reply_iv) bs).1

-- The digest of the padding and the reply byte, and both.
abbrev pub response_bytes : (Bytes → Bytes) → Bytes → ℕ → Bytes
response_bytes sha256 padding byte = sha256 (padding ++ byte ∷ []) ++ padding ++ byte ∷ []

-- The message answers the record, which stands at `i`: there is the response with the byte for the
-- kind of hop, and every other entry is the one received; all are sealed. The message has the id that
-- the record asks for, and a minute to live.
pub record IsReply (a : AesCrates) (sha256 : Bytes → Bytes) (brr : BuildRequestRecord)
    (tb : TunnelBuild) (i : ℕ) (padding : Bytes) (now : ℕ) {RI LS : Type 0} (msg : Message RI LS)
    : Type 0 where
  pub out : List Bytes
  pub wraps : msg ≡ wrapped brr.hop_type tb brr.send_msg_id ((now + 60 * second) / 1000000) out
  pub size : length out ≡ length (entries tb)
  pub own :
      entry i out ≡ some (sealed a brr (response_bytes sha256 padding (reply_byte brr.hop_type)))
  pub others :
      (j : ℕ) (e : Bytes)
      → j ≢ i
      → entry j (entries tb) ≡ some e
      → entry j out ≡ some (sealed a brr e)

entry-map :
    (f : Bytes → Bytes) (j : ℕ) (es : List Bytes) (e : Bytes)
    → entry j es ≡ some e
    → entry j (map f es) ≡ some (f e)
unfolding entry
entry-map f j [] e h = cc
entry-map f zero (x ∷ es) e h = let same : x ≡ e = ground arith in rw same refl
entry-map f (suc j) (x ∷ es) e h = entry-map f j es e h

entry-set_self :
    (i : ℕ) (x : Bytes) (es : List Bytes) (e : Bytes)
    → entry i es ≡ some e
    → entry i (set_entry i x es) ≡ some x
unfolding entry set_entry
entry-set_self i x [] e h = cc
entry-set_self zero x (y ∷ es) e h = refl
entry-set_self (suc i) x (y ∷ es) e h = entry-set_self i x es e h

entry-set_other :
    (i j : ℕ) (x : Bytes) (es : List Bytes) → j ≢ i → entry j (set_entry i x es) ≡ entry j es
unfolding entry set_entry
entry-set_other i j x [] ne = refl
entry-set_other zero zero x (y ∷ es) ne = absurd (ne refl)
entry-set_other zero (suc j) x (y ∷ es) ne = refl
entry-set_other (suc i) zero x (y ∷ es) ne = refl
entry-set_other (suc i) (suc j) x (y ∷ es) ne = entry-set_other i j x es (λ e. ne (ap suc e))

length-map : (f : Bytes → Bytes) (es : List Bytes) → length (map f es) ≡ length es
length-map f [] = refl
length-map f (e ∷ es) = ap suc (length-map f es)

length-set_entry : (i : ℕ) (x : Bytes) (es : List Bytes) → length (set_entry i x es) ≡ length es
unfolding set_entry
length-set_entry i x [] = refl
length-set_entry zero x (e ∷ es) = refl
length-set_entry (suc i) x (e ∷ es) = ap suc (length-set_entry i x es)

reply-byte : (t : ParticipantType) → reply_for t ≡ reply_byte t
unfolding reply_for
reply-byte ParticipantType.intermediate = refl
reply-byte ParticipantType.inbound_gateway = refl
reply-byte ParticipantType.outbound_endpoint = refl

packaged-wrapped :
    {RI LS : Type 0} (t : ParticipantType) (tb : TunnelBuild) (id expiration : ℕ) (es : List Bytes)
    → packaged {RI = RI} {LS = LS} (is_obep t) (with_entries tb es) id expiration
      ≡ wrapped t tb id expiration es
unfolding packaged is_obep with_entries to_msg to_reply
packaged-wrapped ParticipantType.outbound_endpoint (fixed old) id expiration es = refl
packaged-wrapped ParticipantType.outbound_endpoint (variable old) id expiration es = refl
packaged-wrapped ParticipantType.intermediate (fixed old) id expiration es = refl
packaged-wrapped ParticipantType.intermediate (variable old) id expiration es = refl
packaged-wrapped ParticipantType.inbound_gateway (fixed old) id expiration es = refl
packaged-wrapped ParticipantType.inbound_gateway (variable old) id expiration es = refl

-- What is sent is the answer.
pub forward_msg-IsReply :
    {RI LS : Type 0} (a : AesCrates) (ops : RequestOps) (brr : BuildRequestRecord)
    (tb : TunnelBuild) (i : ℕ) (next : RI) (padding ct : Bytes) (now : ℕ)
    → entry i (entries tb) ≡ some ct
    → IsReply a ops.sha256 brr tb i padding now {RI = RI} {LS = LS}
        (forward_msg a ops (info_for brr tb i next) padding now)
unfolding forward_msg answered info_for encrypt_entries build_response_record
forward_msg-IsReply a ops brr tb i next padding ct now ours =
    let written = response_bytes ops.sha256 padding (reply_for brr.hop_type) in
    let es = set_entry i written (entries tb) in
    record {
      out = map (sealed a brr) es;
      wraps = packaged-wrapped brr.hop_type tb brr.send_msg_id _ (map (sealed a brr) es);
      size = length-map (sealed a brr) es ∙ length-set_entry i written (entries tb);
      own =
          entry-map (sealed a brr) i es written (entry-set_self i written (entries tb) ct ours)
          ∙ ap (λ n. some (sealed a brr (response_bytes ops.sha256 padding n)))
              (reply-byte brr.hop_type);
      others = λ j e ne h.
          entry-map (sealed a brr) j es e (entry-set_other i j written (entries tb) ne ∙ h);
    }

module _ {RI : Type 0} (a : AesCrates) where
  -- The tunnel from the previous hop on to the next one, with the record's keys, for ten minutes.
  abbrev pub intermediate_config : Hash → BuildRequestRecord → RI → ℕ → HopConfig RI (LayerCipher a)
  intermediate_config from brr next now = record {
    hop_data = HopData.intermediate from (next, brr.next_tid);
    layer_cipher = record { iv_cipher = a.cipher brr.iv_key; layer_key = brr.layer_key };
    expires = now + 600 * second;
  }

  pub config_for_intermediate :
      (from : Hash) (brr : BuildRequestRecord) (next : RI) (now : ℕ)
      → (brr.hop_type ≡ ParticipantType.intermediate)
      → config_for a from brr next now ≡ intermediate_config from brr next now
  unfolding config_for hop_data_for new_layer_cipher
  config_for_intermediate from brr next now hop =
      ap
        (λ t. record {
          hop_data = hop_data_for t from next brr.next_tid;
          layer_cipher = new_layer_cipher a brr.iv_key brr.layer_key;
          expires = now + 600 * second;
        })
        hop
