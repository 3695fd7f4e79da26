-- ===== src/Crypto/Tests.antt =====
-- The lengths of the crates as they are, and a key type whose key is too long for its field.
use ire.Prelude.{◌≡◌, refl}
use ire.Crypto.{SigType, EncType, CurveSizes, pubkey_len, extra_data_len}

abbrev pub sizes : CurveSizes
sizes = record {
  p256_field = 32;
  p384_field = 48;
  ed25519_public_key = 32;
  ed25519_secret_key = 32;
  ed25519_signature = 64;
  p256_field_eq = refl;
  p384_field_eq = refl;
  ed25519_public_key_eq = refl;
  ed25519_secret_key_eq = refl;
  ed25519_signature_eq = refl;
}

abbrev p521 : SigType
p521 = SigType.ecdsa_sha512_p521

extra_data_len-p521 : extra_data_len sizes p521 EncType.elgamal2048 ≡ 4
unfolding extra_data_len pubkey_len
extra_data_len-p521 = refl
