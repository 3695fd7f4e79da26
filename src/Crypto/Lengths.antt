-- ===== src/Crypto/Lengths.antt =====
-- How a signing key divides between the field of 128 bytes and the key certificate.
use ire.Prelude.{◌+◌, ◌≤◌, ◌≡◌, ◌⊎◌, refl, arith}
use Prim.Native.Nat.{min}
use ire.Crypto.{
  SigType, EncType, CurveSizes, pubkey_len, pad_len, extra_data_len, enc_extra_data_len,
  keycert_sigkey_bytes,
}

-- No signing key is longer than 512 bytes.
pub pubkey_len-le : (sizes : CurveSizes) (t : SigType) → pubkey_len sizes t ≤ 512
unfolding pubkey_len
pubkey_len-le sizes SigType.dsa_sha1 = omega arith
pubkey_len-le sizes SigType.ecdsa_sha256_p256 = omega (arith, sizes.p256_field_eq)
pubkey_len-le sizes SigType.ecdsa_sha384_p384 = omega (arith, sizes.p384_field_eq)
pubkey_len-le sizes SigType.ecdsa_sha512_p521 = omega arith
pubkey_len-le sizes SigType.rsa2048_sha256 = omega arith
pubkey_len-le sizes SigType.rsa3072_sha384 = omega arith
pubkey_len-le sizes SigType.rsa4096_sha512 = omega arith
pubkey_len-le sizes SigType.ed25519 = omega (arith, sizes.ed25519_public_key_eq)

-- For each signature type with ElGamal encryption, the padding and the part of the public key that
-- the field of 128 bytes holds fill that field, the part in the field and the extra data of the
-- key certificate make the whole key, and the padding or the extra data is empty. The extra data
-- has at most 384 bytes.
pub key_fills_field :
    (sizes : CurveSizes) (t : SigType) (e : EncType)
    → (pad_len sizes t e + min (pubkey_len sizes t) keycert_sigkey_bytes ≡ keycert_sigkey_bytes)
      × (min (pubkey_len sizes t) keycert_sigkey_bytes + extra_data_len sizes t e
          ≡ pubkey_len sizes t)
      × ((pad_len sizes t e ≡ 0) ⊎ (extra_data_len sizes t e ≡ 0))
      × (extra_data_len sizes t e ≤ 384)
unfolding pad_len extra_data_len
key_fills_field sizes t EncType.elgamal2048 =
    let l = pubkey_len-le sizes t in (omega arith, omega arith, ground arith, omega arith)

pub extra_data_len-le :
    (sizes : CurveSizes) (t : SigType) (e : EncType) → extra_data_len sizes t e ≤ 384
extra_data_len-le sizes t e = (key_fills_field sizes t e).3

pub enc_extra_data_len-eq : (e : EncType) (t : SigType) → enc_extra_data_len e t ≡ 0
unfolding enc_extra_data_len
enc_extra_data_len-eq EncType.elgamal2048 t = refl
