-- ===== src/I2np/Records/RoundTrip.antt =====
-- A build record that src/i2np/frame.rs generates is the one that it parses, whatever the padding.
use Prim.Native.Nat.{◌^◌}
use ire.Prelude.{
  ℕ, ◌+◌, ◌/◌, ◌%◌, ◌<◌, ◌≡◌, refl, arith, true, some, none, beq_false_of_ne, ◌≢◌, err, [], ◌∷◌,
  Bytes, length, append_assoc, bytes_beq_self, ok,
}
use ire.Crypto.Frame.{session_key-Reads, gen_session_key-Writes}
use ire.Data.Frame.RoundTrip.{hash-Reads, tunnel_id-Reads, gen_hash-Writes, gen_tunnel_id-Writes}
use ire.I2np.{ParticipantType, inbound_gateway, intermediate, outbound_endpoint, BuildRequestRecord}
use ire.I2np.Records.{
  BuildResponseRecord, hop_type_of, are_set, both_clear, iv, hop_flags, build_request_record,
  request_of, check_response, build_response_record, hop_flags_byte, gen_build_request_record,
  gen_build_response_record,
}
use ire.Wire.{error, ◌<>◌, ◌>>>◌, be_bytes}
use ire.Wire.Nom.{Nom}
use ire.Wire.Cookie.{Cookie}
use ire.Wire.Reads.{
  Reads, Reads-then, Reads-returns, map-Reads, map_opt-Reads, verify-Reads, take-Reads, be_u8-Reads,
  be_u32-Reads, pair-Reads, terminated-Reads,
}
use ire.Wire.ReadsBits.{take_bits-ReadsBits, pair-ReadsBits, terminated-ReadsBits, bits-Reads}
use ire.Wire.Writes.{
  Writes, Writes-bytes, slice-Writes, be_u8-Writes, be_u32-Writes, do_gen-Writes,
  do_gen-Writes_last,
}

-- The fields of a request, in order, without the padding.
unfoldable pub request_bytes : BuildRequestRecord → Bytes
request_bytes brr =
    be_bytes 4 brr.receive_tid
    <> brr.our_ident
    <> be_bytes 4 brr.next_tid
    <> brr.next_ident
    <> brr.layer_key
    <> brr.iv_key
    <> brr.reply_key
    <> brr.reply_iv
    <> be_bytes 1 (hop_flags_byte brr.hop_type)
    <> be_bytes 4 brr.request_time
    <> be_bytes 4 brr.send_msg_id

-- The widths of the fields.
pub record IsRequest (brr : BuildRequestRecord) : Type 0 where
  pub receive_tid : brr.receive_tid < 2 ^ 32
  pub our_ident : length brr.our_ident ≡ 32
  pub next_tid : brr.next_tid < 2 ^ 32
  pub next_ident : length brr.next_ident ≡ 32
  pub layer_key : length brr.layer_key ≡ 32
  pub iv_key : length brr.iv_key ≡ 32
  pub reply_key : length brr.reply_key ≡ 32
  pub reply_iv : length brr.reply_iv ≡ 16
  pub request_time : brr.request_time < 2 ^ 32
  pub send_msg_id : brr.send_msg_id < 2 ^ 32

module _ (nom : Nom) where
  iv-Reads : (x : Bytes) → length x ≡ 16 → Reads (iv nom) x x
  unfolding iv
  iv-Reads x h = Reads-then _ (take-Reads nom 16 x h) (Reads-returns x)

  -- The two bits of the flags byte `b`.
  flags-Reads :
      (b : ℕ)
      → both_clear (are_set (b / 128 % 2, b / 64 % 2)) ≡ true
      → Reads (hop_flags nom) (b ∷ []) (are_set (b / 128 % 2, b / 64 % 2))
  unfolding hop_flags
  flags-Reads b h =
      verify-Reads nom both_clear
        (map-Reads nom are_set (
          bits-Reads nom (
            terminated-ReadsBits nom (omega arith)
              (pair-ReadsBits nom (omega arith) (take_bits-ReadsBits nom 1 0 b (omega arith))
                (take_bits-ReadsBits nom 1 1 b (omega arith)))
              (take_bits-ReadsBits nom 6 2 b (omega arith)))))
        h

  hop_type-Reads :
      (t : ParticipantType)
      → Reads (hop_flags nom >>> hop_type_of) (be_bytes 1 (hop_flags_byte t)) t
  unfolding hop_type_of hop_flags_byte be_bytes
  hop_type-Reads intermediate =
      Reads-then hop_type_of (flags-Reads 0 refl) (Reads-returns intermediate)
  hop_type-Reads inbound_gateway =
      Reads-then hop_type_of (flags-Reads 128 refl) (Reads-returns inbound_gateway)
  hop_type-Reads outbound_endpoint =
      Reads-then hop_type_of (flags-Reads 64 refl) (Reads-returns outbound_endpoint)

  build_request_record-Reads :
      (brr : BuildRequestRecord) (padding : Bytes)
      → IsRequest brr
      → length padding ≡ 29
      → Reads (build_request_record nom) (request_bytes brr <> padding) brr
  unfolding build_request_record request_bytes request_of
  build_request_record-Reads brr padding r h = map-Reads nom request_of (
      terminated-Reads nom
        (pair-Reads nom (tunnel_id-Reads nom brr.receive_tid r.receive_tid) (
          pair-Reads nom (hash-Reads nom brr.our_ident r.our_ident) (
            pair-Reads nom (tunnel_id-Reads nom brr.next_tid r.next_tid) (
              pair-Reads nom (hash-Reads nom brr.next_ident r.next_ident) (
                pair-Reads nom (session_key-Reads nom brr.layer_key r.layer_key) (
                  pair-Reads nom (session_key-Reads nom brr.iv_key r.iv_key) (
                    pair-Reads nom (session_key-Reads nom brr.reply_key r.reply_key) (
                      pair-Reads nom (iv-Reads brr.reply_iv r.reply_iv) (
                        pair-Reads nom (hop_type-Reads brr.hop_type) (
                          pair-Reads nom (be_u32-Reads nom brr.request_time r.request_time)
                            (be_u32-Reads nom brr.send_msg_id r.send_msg_id)))))))))))
        (take-Reads nom 29 padding h))

module _ (cf : Cookie) where
  gen_build_request_record-Writes :
      (padding : Bytes) (brr : BuildRequestRecord)
      → Writes (gen_build_request_record cf padding brr) (request_bytes brr <> padding)
  unfolding gen_build_request_record request_bytes
  gen_build_request_record-Writes padding brr = Writes-bytes (simp append_assoc) (
      do_gen-Writes cf (gen_tunnel_id-Writes cf brr.receive_tid) (
        do_gen-Writes cf (gen_hash-Writes cf brr.our_ident) (
          do_gen-Writes cf (gen_tunnel_id-Writes cf brr.next_tid) (
            do_gen-Writes cf (gen_hash-Writes cf brr.next_ident) (
              do_gen-Writes cf (gen_session_key-Writes cf brr.layer_key) (
                do_gen-Writes cf (gen_session_key-Writes cf brr.iv_key) (
                  do_gen-Writes cf (gen_session_key-Writes cf brr.reply_key) (
                    do_gen-Writes cf (slice-Writes cf brr.reply_iv) (
                      do_gen-Writes cf (be_u8-Writes cf (hop_flags_byte brr.hop_type)) (
                        do_gen-Writes cf (be_u32-Writes cf brr.request_time) (
                          do_gen-Writes cf (be_u32-Writes cf brr.send_msg_id)
                            (do_gen-Writes_last cf (slice-Writes cf padding)))))))))))))

-- A build request record with fields of their widths is written to the buffer as its fields in
-- order and the 29 bytes of padding, and reading that gives the record back, whatever the padding
-- and whatever stands behind.
pub gen_build_request_record-build_request_record :
    (nom : Nom) (cf : Cookie) (brr : BuildRequestRecord) (padding pre old post rest : Bytes)
    → IsRequest brr
    → length padding ≡ 29
    → length old ≡ length (request_bytes brr <> padding)
    → (gen_build_request_record cf padding brr (pre <> old <> post, length pre)
        ≡ ok (
          pre <> (request_bytes brr <> padding) <> post,
          length pre + length (request_bytes brr <> padding),
        ))
      × (build_request_record nom ((request_bytes brr <> padding) <> rest) ≡ ok (rest, brr))
gen_build_request_record-build_request_record nom cf brr padding pre old post rest r h l = (
  (gen_build_request_record-Writes cf padding brr).at pre old post l,
  (build_request_record-Reads nom brr padding r h).at rest,
)

-- The hash, the padding and the reply.
unfoldable pub response_bytes : (Bytes → Bytes) → Bytes → ℕ → Bytes
response_bytes sha256 padding reply = sha256 (padding <> reply ∷ []) <> padding <> be_bytes 1 reply

-- A build response record is written to the buffer as the hash, the padding and the reply, and
-- reading that gives the record back: the hash that the parser computes is the one written. The
-- digest has 32 bytes, the padding 495, and the reply is a byte.
pub gen_build_response_record-build_response_record :
    (nom : Nom) (cf : Cookie) (sha256 : Bytes → Bytes) (brr : BuildResponseRecord)
    (padding pre old post rest : Bytes)
    → ((bs : Bytes) → length (sha256 bs) ≡ 32)
    → length padding ≡ 495
    → brr.reply < 256
    → length old ≡ length (response_bytes sha256 padding brr.reply)
    → (gen_build_response_record cf sha256 padding brr (pre <> old <> post, length pre)
        ≡ ok (
          pre <> response_bytes sha256 padding brr.reply <> post,
          length pre + length (response_bytes sha256 padding brr.reply),
        ))
      × (build_response_record nom sha256 (response_bytes sha256 padding brr.reply <> rest)
          ≡ ok (rest, brr))
unfolding gen_build_response_record build_response_record response_bytes
gen_build_response_record-build_response_record nom cf sha256 brr padding pre old post rest d h b
      l =
    let digest = sha256 (padding <> brr.reply ∷ []) in
    let checks : check_response nom sha256 (digest, (padding, brr.reply)) ≡ some brr =
      unfold check_response in rw (bytes_beq_self digest) refl in
    let r = pair-Reads nom (take-Reads nom 495 padding h) (be_u8-Reads nom brr.reply b) in
    (
      (do_gen-Writes cf (slice-Writes cf digest) (
            do_gen-Writes cf (slice-Writes cf padding)
              (do_gen-Writes_last cf (be_u8-Writes cf brr.reply)))).at
          pre old post l,
      (map_opt-Reads nom _ (pair-Reads nom (hash-Reads nom digest (d _)) r) checks).at rest,
    )

-- A response whose hash is not that of its padding and reply is refused with an error of nom.
pub build_response_record-mismatch :
    (nom : Nom) (sha256 : Bytes → Bytes) (h padding rest : Bytes) (reply : ℕ)
    → length h ≡ 32
    → length padding ≡ 495
    → reply < 256
    → h ≢ sha256 (padding <> reply ∷ [])
    → (e : nom.Err) × (build_response_record nom sha256 ((h <> padding <> be_bytes 1 reply) <> rest)
        ≡ err (error e))
unfolding build_response_record
build_response_record-mismatch nom sha256 h padding rest reply lh lp b ne =
    let r = pair-Reads nom (take-Reads nom 495 padding lp) (be_u8-Reads nom reply b) in
    let fails : check_response nom sha256 (h, (padding, reply)) ≡ none =
      unfold check_response in rw (beq_false_of_ne h (sha256 (padding <> reply ∷ [])) ne) refl in
    nom.map_opt_none _ _ _ rest _ ((pair-Reads nom (hash-Reads nom h lh) r).at rest) fails
