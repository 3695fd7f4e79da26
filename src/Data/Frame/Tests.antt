-- ===== src/Data/Frame/Tests.antt =====
-- A key certificate of a type with extra data, in the middle of a buffer.
use ire.Prelude.{◌+◌, ◌≡◌, refl, sym, ap, [], ◌∷◌, Bytes, length, replicate, ok}
use ire.Crypto.{
  SigType, EncType, extra_data_len, pubkey_len, enc_extra_data_len, sig_type_code, enc_type_code,
}
use ire.Crypto.Tests.{sizes}
use ire.Data.{Certificate}
use ire.Data.Frame.{certificate, gen_certificate}
use ire.Data.Frame.Encoding.{certificate_bytes, key_certificate_bytes, IsEncodable}
use ire.Data.Frame.RoundTrip.{gen_certificate-certificate}
use ire.Wire.{◌<>◌, be_bytes}
use ire.Wire.Reference.{reference_nom, reference_cookie}

abbrev cert : Certificate
cert = Certificate.key (record {
  sig_type = SigType.ecdsa_sha512_p521;
  enc_type = EncType.elgamal2048;
  sig_data = 9 ∷ 8 ∷ 7 ∷ 6 ∷ [];
  enc_data = [];
})

abbrev bytes : Bytes
bytes = 5 ∷ 0 ∷ 8 ∷ 0 ∷ 3 ∷ 0 ∷ 0 ∷ 9 ∷ 8 ∷ 7 ∷ 6 ∷ []

cert_layout : certificate_bytes cert ≡ bytes
unfolding certificate_bytes key_certificate_bytes be_bytes sig_type_code enc_type_code
cert_layout = refl

cert-IsEncodable : IsEncodable sizes cert
unfolding IsEncodable extra_data_len pubkey_len enc_extra_data_len
cert-IsEncodable = (refl, refl)

gen_certificate-certificate_example :
    (gen_certificate reference_cookie cert ((1 ∷ []) <> replicate 11 0 <> (2 ∷ []), 1)
      ≡ ok ((1 ∷ []) <> certificate_bytes cert <> (2 ∷ []), 1 + length (certificate_bytes cert)))
    × (certificate reference_nom sizes (certificate_bytes cert <> (3 ∷ [])) ≡ ok (3 ∷ [], cert))
gen_certificate-certificate_example =
    gen_certificate-certificate reference_nom reference_cookie sizes cert (1 ∷ []) (replicate 11 0)
      (2 ∷ []) (3 ∷ []) cert-IsEncodable (ap length (sym cert_layout))
