-- ===== src/Data/Frame.antt =====
-- The formats of src/data/frame.rs, but for mappings and router infos. `Hash::from_bytes` and its
-- like keep the bytes. A cast `as u16` is `% 65536`.
pub mod Encoding
pub mod RoundTrip
pub mod RouterInfo
mod Tests
use ire.Prelude.{ℕ, ◌+◌, ◌*◌, ◌/◌, ◌%◌, List, [], ◌∷◌, Bytes, length, ◌==◌, if◌then◌else◌, err}
use ire.Crypto.{SigType, EncType, CurveSizes, extra_data_len, enc_extra_data_len}
use ire.Crypto.Frame.{sig_type, enc_type, gen_sig_type, gen_enc_type}
use ire.Data.{Hash, I2PDate, TunnelId, SessionTag, KeyCertificate, Certificate}
use ire.Wire.{error, Parser, Gen, ◌>>>◌}
use ire.Wire.Nom.{Nom, switch}
use ire.Wire.Cookie.{Cookie}
use ire.Wire.Sized.{sized}

module _ (nom : Nom) where
  open nom use {Err, take, tag, be_u8, be_u16, be_u32, be_u64, map, pair, length_data, length_value}

  unfoldable pub hash : Parser Err Bytes Hash
  hash = map (take 32) (λ bytes. bytes)

  unfoldable pub i2p_date : Parser Err Bytes I2PDate
  i2p_date = map be_u64 (λ n. n)

  unfoldable pub short_expiry : Parser Err Bytes I2PDate
  short_expiry = map be_u32 (λ seconds. seconds * 1000)

  unfoldable pub session_tag : Parser Err Bytes SessionTag
  session_tag = map (take 32) (λ t. t)

  unfoldable pub tunnel_id : Parser Err Bytes TunnelId
  tunnel_id = map be_u32 (λ n. n)

module _ (nom : Nom) (sizes : CurveSizes) where
  open nom use {Err, take, tag, be_u8, be_u16, map, pair, length_data, length_value}

  -- What follows the two types.
  unfoldable pub key_certificate_data : SigType × EncType → Parser Err Bytes KeyCertificate
  key_certificate_data (t, e) =
      map (pair (take (extra_data_len sizes t e)) (take (enc_extra_data_len e t)))
        (λ d. record { sig_type = t; enc_type = e; sig_data = d.0; enc_data = d.1 })

  unfoldable pub key_certificate : Parser Err Bytes KeyCertificate
  key_certificate = pair (sig_type nom) (enc_type nom) >>> key_certificate_data

  -- The match on the type byte.
  unfoldable pub certificate_of : ℕ → Parser Err Bytes Certificate
  certificate_of cert_type =
      if cert_type == 0
      then map (tag (0 ∷ 0 ∷ [])) (λ z. Certificate.null)
      else if cert_type == 1
      then map (length_data be_u16) (λ payload. Certificate.hash_cash payload)
      else if cert_type == 2
      then map (tag (0 ∷ 0 ∷ [])) (λ z. Certificate.hidden)
      else if cert_type == 3
      then map (length_data be_u16) (λ payload. Certificate.signed payload)
      else if cert_type == 4
      then map (length_data be_u16) (λ payload. Certificate.multiple payload)
      else if cert_type == 5
      then map (length_value be_u16 key_certificate) (λ kc. Certificate.key kc)
      else λ i. err (error (nom.error_new i switch))

  unfoldable pub certificate : Parser Err Bytes Certificate
  certificate = be_u8 >>> certificate_of

module _ (cf : Cookie) where
  open cf use {GenError, slice, be_u8, be_u16, be_u32, be_u64, do_gen}

  unfoldable pub gen_hash : Hash → Gen GenError
  gen_hash h = slice h

  unfoldable pub gen_i2p_date : I2PDate → Gen GenError
  gen_i2p_date date = be_u64 date

  unfoldable pub gen_short_expiry : I2PDate → Gen GenError
  gen_short_expiry date = be_u32 (date / 1000)

  unfoldable pub gen_session_tag : SessionTag → Gen GenError
  gen_session_tag t = slice t

  unfoldable pub gen_tunnel_id : TunnelId → Gen GenError
  gen_tunnel_id tid = be_u32 tid

  unfoldable pub gen_key_certificate : KeyCertificate → Gen GenError
  gen_key_certificate kc = do_gen (
      gen_sig_type cf kc.sig_type
      ∷ gen_enc_type cf kc.enc_type
      ∷ slice kc.sig_data
      ∷ slice kc.enc_data
      ∷ [])

  unfoldable pub gen_certificate : Certificate → Gen GenError
  gen_certificate Certificate.null = do_gen (be_u8 0 ∷ be_u16 0 ∷ [])
  gen_certificate (Certificate.hash_cash payload) =
      do_gen (be_u8 1 ∷ be_u16 (length payload % 65536) ∷ slice payload ∷ [])
  gen_certificate Certificate.hidden = do_gen (be_u8 2 ∷ be_u16 0 ∷ [])
  gen_certificate (Certificate.signed payload) =
      do_gen (be_u8 3 ∷ be_u16 (length payload % 65536) ∷ slice payload ∷ [])
  gen_certificate (Certificate.multiple payload) =
      do_gen (be_u8 4 ∷ be_u16 (length payload % 65536) ∷ slice payload ∷ [])
  gen_certificate (Certificate.key kc) = do_gen (be_u8 5 ∷ sized cf (gen_key_certificate kc) ∷ [])
