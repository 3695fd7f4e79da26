-- ===== src/I2np/Records.antt =====
-- The build records of src/i2np/frame.rs: a hop's request and its answer. The padding that the
-- generators draw at random is an argument.
pub mod RoundTrip
mod Tests
use ire.Prelude.{
  ℕ, ◌≡◌, Bool, true, false, not, ◌&&◌, Option, none, some, List, [], ◌∷◌, ◌++◌, Bytes, length, ltb,
  bytes_beq, if◌then◌else◌,
}
use ire.Crypto.Frame.{session_key, gen_session_key}
use ire.Data.{Hash, TunnelId}
use ire.Data.Frame.{hash, tunnel_id, gen_hash, gen_tunnel_id}
use ire.I2np.{ParticipantType, inbound_gateway, intermediate, outbound_endpoint, BuildRequestRecord}
use ire.Wire.{Parser, Gen, ◌>>>◌, returns, panics}
use ire.Wire.Nom.{Nom}
use ire.Wire.Cookie.{Cookie}

-- `BuildResponseRecord`
pub record BuildResponseRecord : Type 0 where
  pub reply : ℕ

-- The two flags; both at once are `unreachable!()`.
unfoldable pub hop_type_of : {E : Type 0} → Bool × Bool → Parser E Bytes ParticipantType
hop_type_of (false, false) = returns intermediate
hop_type_of (true, false) = returns inbound_gateway
hop_type_of (false, true) = returns outbound_endpoint
hop_type_of (true, true) = panics

abbrev pub both_clear : Bool × Bool → Bool
both_clear f = not (f.0 && f.1)

abbrev pub are_set : ℕ × ℕ → Bool × Bool
are_set f = (ltb 0 f.0, ltb 0 f.1)

-- The tuple of the parser.
abbrev pub RequestFields : Type 0
RequestFields =
    TunnelId
    × (Hash
        × (TunnelId × (Hash × (Bytes × (Bytes × (Bytes × (Bytes × (ParticipantType × (ℕ × ℕ)))))))))

unfoldable pub request_of : RequestFields → BuildRequestRecord
request_of
      (
        receive_tid,
        (
          our_ident,
          (
            next_tid,
            (
              next_ident,
              (
                layer_key,
                (iv_key, (reply_key, (reply_iv, (hop_type, (request_time, send_msg_id))))),
              ),
            ),
          ),
        ),
      ) =
    record {
      receive_tid = receive_tid;
      our_ident = our_ident;
      next_tid = next_tid;
      next_ident = next_ident;
      layer_key = layer_key;
      iv_key = iv_key;
      reply_key = reply_key;
      reply_iv = reply_iv;
      hop_type = hop_type;
      request_time = request_time;
      send_msg_id = send_msg_id;
    }

module _ (nom : Nom) where
  open nom use {Err, take, be_u8, be_u32, take_bits, bits, map, map_opt, verify, pair, terminated}

  -- `iv` of the same file: 16 bytes.
  unfoldable pub iv : Parser Err Bytes Bytes
  iv = take 16 >>> λ x. returns x

  unfoldable pub hop_flags : Parser Err Bytes (Bool × Bool)
  hop_flags =
      verify (map (bits (terminated (pair (take_bits 1) (take_bits 1)) (take_bits 6))) are_set)
        both_clear

  unfoldable pub build_request_record : Parser Err Bytes BuildRequestRecord
  build_request_record =
      map
        (terminated
          (pair (tunnel_id nom) (
            pair (hash nom) (
              pair (tunnel_id nom) (
                pair (hash nom) (
                  pair (session_key nom) (
                    pair (session_key nom) (
                      pair (session_key nom)
                        (pair iv (pair (hop_flags >>> hop_type_of) (pair be_u32 be_u32))))))))))
          (take 29))
        request_of

  -- `sha256` is that of the crate sha2.
  unfoldable pub check_response : (Bytes → Bytes) → Hash × (Bytes × ℕ) → Option BuildResponseRecord
  check_response sha256 (h, (padding, reply)) =
      if bytes_beq h (sha256 (padding ++ reply ∷ [])) then some (record { reply = reply }) else none

  unfoldable pub build_response_record : (Bytes → Bytes) → Parser Err Bytes BuildResponseRecord
  build_response_record sha256 =
      map_opt (pair (hash nom) (pair (take 495) be_u8)) (check_response sha256)

unfoldable pub hop_flags_byte : ParticipantType → ℕ
hop_flags_byte intermediate = 0
hop_flags_byte inbound_gateway = 128
hop_flags_byte outbound_endpoint = 64

module _ (cf : Cookie) where
  open cf use {GenError, slice, be_u8, be_u32, do_gen}

  unfoldable pub gen_build_request_record : Bytes → BuildRequestRecord → Gen GenError
  gen_build_request_record padding brr = do_gen (
      gen_tunnel_id cf brr.receive_tid
      ∷ gen_hash cf brr.our_ident
      ∷ gen_tunnel_id cf brr.next_tid
      ∷ gen_hash cf brr.next_ident
      ∷ gen_session_key cf brr.layer_key
      ∷ gen_session_key cf brr.iv_key
      ∷ gen_session_key cf brr.reply_key
      ∷ slice brr.reply_iv
      ∷ be_u8 (hop_flags_byte brr.hop_type)
      ∷ be_u32 brr.request_time
      ∷ be_u32 brr.send_msg_id
      ∷ slice padding
      ∷ [])

  unfoldable pub gen_build_response_record :
      (Bytes → Bytes) → Bytes → BuildResponseRecord → Gen GenError
  gen_build_response_record sha256 padding brr =
      do_gen (slice (sha256 (padding ++ brr.reply ∷ [])) ∷ slice padding ∷ be_u8 brr.reply ∷ [])
