-- ===== src/I2np/Records/Tests.antt =====
-- A request to an outbound endpoint, an answer, and a forged answer.
use ire.Prelude.{◌+◌, ◌≡◌, ◌≢◌, refl, arith, [], ◌∷◌, Bytes, length, replicate, ok, err}
use ire.I2np.{outbound_endpoint, BuildRequestRecord}
use ire.I2np.Records.{
  BuildResponseRecord, build_request_record, gen_build_request_record, build_response_record,
  gen_build_response_record, hop_flags_byte,
}
use ire.I2np.Records.RoundTrip.{
  request_bytes, response_bytes, IsRequest, gen_build_request_record-build_request_record,
  gen_build_response_record-build_response_record, build_response_record-mismatch,
}
use ire.Wire.{error, ◌<>◌, be_bytes}
use ire.Wire.Reference.{reference_nom, reference_cookie}

abbrev request : BuildRequestRecord
request = record {
  receive_tid = 7;
  our_ident = replicate 32 4;
  next_tid = 2;
  next_ident = replicate 32 9;
  layer_key = replicate 32 6;
  iv_key = replicate 32 8;
  reply_key = replicate 32 1;
  reply_iv = replicate 16 3;
  hop_type = outbound_endpoint;
  request_time = 5;
  send_msg_id = 12;
}

request-IsRequest : IsRequest request
request-IsRequest = record {
  receive_tid = omega arith;
  our_ident = refl;
  next_tid = omega arith;
  next_ident = refl;
  layer_key = refl;
  iv_key = refl;
  reply_key = refl;
  reply_iv = refl;
  request_time = omega arith;
  send_msg_id = omega arith;
}

abbrev padding : Bytes
padding = replicate 29 77

request_size : 222 ≡ length (request_bytes request <> padding)
unfolding request_bytes be_bytes hop_flags_byte
request_size = refl

gen_build_request_record-build_request_record_example :
    (gen_build_request_record reference_cookie padding request ([] <> replicate 222 0 <> [], 0)
      ≡ ok (
        [] <> (request_bytes request <> padding) <> [],
        0 + length (request_bytes request <> padding),
      ))
    × (build_request_record reference_nom ((request_bytes request <> padding) <> (1 ∷ []))
        ≡ ok (1 ∷ [], request))
gen_build_request_record-build_request_record_example =
    gen_build_request_record-build_request_record reference_nom reference_cookie request padding []
      (replicate 222 0) [] (1 ∷ []) request-IsRequest refl request_size

-- A digest of 32 bytes.
abbrev sha256 : Bytes → Bytes
sha256 bs = replicate 32 5

abbrev response : BuildResponseRecord
response = record { reply = 50 }

response_size : 528 ≡ length (response_bytes sha256 (replicate 495 2) 50)
unfolding response_bytes be_bytes
response_size = refl

gen_build_response_record-build_response_record_example :
    (gen_build_response_record reference_cookie sha256
        (replicate 495 2)
        response
        ([] <> replicate 528 0 <> [], 0)
      ≡ ok (
        [] <> response_bytes sha256 (replicate 495 2) 50 <> [],
        0 + length (response_bytes sha256 (replicate 495 2) 50),
      ))
    × (build_response_record reference_nom sha256
          (response_bytes sha256 (replicate 495 2) 50 <> (1 ∷ []))
        ≡ ok (1 ∷ [], response))
gen_build_response_record-build_response_record_example =
    gen_build_response_record-build_response_record reference_nom reference_cookie sha256 response
      (replicate 495 2) [] (replicate 528 0) [] (1 ∷ []) (λ bs. refl) refl (omega arith)
      response_size

abbrev sixes : Bytes
sixes = replicate 32 6

abbrev fives : Bytes
fives = replicate 32 5

forged : sixes ≢ fives
forged e = ground arith

build_response_record-mismatch_example :
    (e : reference_nom.Err) × (build_response_record reference_nom sha256
        ((sixes <> replicate 495 2 <> be_bytes 1 0) <> [])
      ≡ err (error e))
build_response_record-mismatch_example =
    build_response_record-mismatch reference_nom sha256 (replicate 32 6) (replicate 495 2) [] 0 refl
      refl (omega arith) forged
