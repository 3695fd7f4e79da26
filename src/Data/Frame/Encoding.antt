-- ===== src/Data/Frame/Encoding.antt =====
-- The layout of the common structures, written down on its own, and the values that it can hold.
use ire.Prelude.{◌<◌, ◌≡◌, Bytes, length}
use ire.Crypto.{CurveSizes, sig_type_code, enc_type_code, extra_data_len, enc_extra_data_len}
use ire.Data.{KeyCertificate, Certificate}
use ire.Wire.{◌<>◌, be_bytes}

-- Two bytes of length, and the payload.
abbrev pub counted : Bytes → Bytes
counted payload = be_bytes 2 (length payload) <> payload

unfoldable pub key_certificate_bytes : KeyCertificate → Bytes
key_certificate_bytes kc =
    be_bytes 2 (sig_type_code kc.sig_type)
    <> be_bytes 2 (enc_type_code kc.enc_type)
    <> kc.sig_data
    <> kc.enc_data

-- A type byte, and the payload behind its length.
unfoldable pub certificate_bytes : Certificate → Bytes
certificate_bytes Certificate.null = be_bytes 1 0 <> be_bytes 2 0
certificate_bytes (Certificate.hash_cash payload) = be_bytes 1 1 <> counted payload
certificate_bytes Certificate.hidden = be_bytes 1 2 <> be_bytes 2 0
certificate_bytes (Certificate.signed payload) = be_bytes 1 3 <> counted payload
certificate_bytes (Certificate.multiple payload) = be_bytes 1 4 <> counted payload
certificate_bytes (Certificate.key kc) = be_bytes 1 5 <> counted (key_certificate_bytes kc)

-- The payload's length fits its two bytes, and a key certificate holds the data that its
-- algorithms want.
unfoldable pub IsEncodable : CurveSizes → Certificate → Type 0
IsEncodable sizes Certificate.null = Unit
IsEncodable sizes (Certificate.hash_cash payload) = length payload < 65536
IsEncodable sizes Certificate.hidden = Unit
IsEncodable sizes (Certificate.signed payload) = length payload < 65536
IsEncodable sizes (Certificate.multiple payload) = length payload < 65536
IsEncodable sizes (Certificate.key kc) =
    (length kc.sig_data ≡ extra_data_len sizes kc.sig_type kc.enc_type)
    × (length kc.enc_data ≡ enc_extra_data_len kc.enc_type kc.sig_type)
