-- ===== src/Crypto.antt =====
-- The algorithm identifiers of src/crypto/mod.rs.
pub mod Lengths
pub mod Frame
pub mod Tests
use ire.Prelude.{ℕ, ◌-◌, ◌*◌, ◌≡◌}

pub data SigType : Type 0 where
  dsa_sha1 ecdsa_sha256_p256 ecdsa_sha384_p384 ecdsa_sha512_p521 : SigType
  rsa2048_sha256 rsa3072_sha384 rsa4096_sha512 ed25519 : SigType

pub data EncType : Type 0 where
  elgamal2048 : EncType

-- `SigType::code`, with the constants of src/constants.rs.
unfoldable pub sig_type_code : SigType → ℕ
sig_type_code SigType.dsa_sha1 = 0
sig_type_code SigType.ecdsa_sha256_p256 = 1
sig_type_code SigType.ecdsa_sha384_p384 = 2
sig_type_code SigType.ecdsa_sha512_p521 = 3
sig_type_code SigType.rsa2048_sha256 = 4
sig_type_code SigType.rsa3072_sha384 = 5
sig_type_code SigType.rsa4096_sha512 = 6
sig_type_code SigType.ed25519 = 7

-- `EncType::code`.
unfoldable pub enc_type_code : EncType → ℕ
enc_type_code EncType.elgamal2048 = 0

-- `crypto::Error`
pub data CryptoError : Type 0 where
  invalid_ciphertext invalid_key invalid_message invalid_signature : CryptoError
  no_signature signing_failed type_mismatch : CryptoError

-- Lengths that the crates elliptic_curve and ed25519_dalek define: the field of the NIST curves,
-- and the keys and signatures of Ed25519.
pub record CurveSizes : Type 0 where
  pub p256_field : ℕ
  pub p384_field : ℕ
  pub ed25519_public_key : ℕ
  pub ed25519_secret_key : ℕ
  pub ed25519_signature : ℕ
  pub p256_field_eq : p256_field ≡ 32
  pub p384_field_eq : p384_field ≡ 48
  pub ed25519_public_key_eq : ed25519_public_key ≡ 32
  pub ed25519_secret_key_eq : ed25519_secret_key ≡ 32
  pub ed25519_signature_eq : ed25519_signature ≡ 64

-- `KEYCERT_SIGKEY_BYTES`
abbrev pub keycert_sigkey_bytes : ℕ
keycert_sigkey_bytes = 128

module _ (sizes : CurveSizes) where
  unfoldable pub pubkey_len : SigType → ℕ
  pubkey_len SigType.dsa_sha1 = 128
  pubkey_len SigType.ecdsa_sha256_p256 = 2 * sizes.p256_field
  pubkey_len SigType.ecdsa_sha384_p384 = 2 * sizes.p384_field
  pubkey_len SigType.ecdsa_sha512_p521 = 132
  pubkey_len SigType.rsa2048_sha256 = 256
  pubkey_len SigType.rsa3072_sha384 = 384
  pubkey_len SigType.rsa4096_sha512 = 512
  pubkey_len SigType.ed25519 = sizes.ed25519_public_key

  unfoldable pub privkey_len : SigType → ℕ
  privkey_len SigType.dsa_sha1 = 20
  privkey_len SigType.ecdsa_sha256_p256 = sizes.p256_field
  privkey_len SigType.ecdsa_sha384_p384 = sizes.p384_field
  privkey_len SigType.ecdsa_sha512_p521 = 66
  privkey_len SigType.rsa2048_sha256 = 512
  privkey_len SigType.rsa3072_sha384 = 768
  privkey_len SigType.rsa4096_sha512 = 1024
  privkey_len SigType.ed25519 = sizes.ed25519_secret_key

  unfoldable pub sig_len : SigType → ℕ
  sig_len SigType.dsa_sha1 = 40
  sig_len SigType.ecdsa_sha256_p256 = 2 * sizes.p256_field
  sig_len SigType.ecdsa_sha384_p384 = 2 * sizes.p384_field
  sig_len SigType.ecdsa_sha512_p521 = 132
  sig_len SigType.rsa2048_sha256 = 256
  sig_len SigType.rsa3072_sha384 = 384
  sig_len SigType.rsa4096_sha512 = 512
  sig_len SigType.ed25519 = sizes.ed25519_signature

  -- `saturating_sub` is the subtraction of ℕ.
  unfoldable pub pad_len : SigType → EncType → ℕ
  pad_len t EncType.elgamal2048 = keycert_sigkey_bytes - pubkey_len t

  unfoldable pub extra_data_len : SigType → EncType → ℕ
  extra_data_len t EncType.elgamal2048 = pubkey_len t - keycert_sigkey_bytes

-- `EncType::extra_data_len`
unfoldable pub enc_extra_data_len : EncType → SigType → ℕ
enc_extra_data_len EncType.elgamal2048 t = 0
