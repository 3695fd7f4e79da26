-- ===== src/Crypto/Frame.antt =====
-- The formats of src/crypto/frame.rs: the codes of the algorithms, and the keys that are plain
-- byte arrays.
use ire.Prelude.{ℕ, ◌<◌, ◌≡◌, refl, arith, Option, none, some, Bytes, length, ◌==◌, if◌then◌else◌}
use ire.Crypto.{SigType, EncType, sig_type_code, enc_type_code}
use ire.Wire.{Parser, Gen, be_bytes}
use ire.Wire.Nom.{Nom}
use ire.Wire.Cookie.{Cookie}
use ire.Wire.Reads.{Reads, map-Reads, map_opt-Reads, take-Reads, be_u16-Reads}
use ire.Wire.Writes.{Writes, slice-Writes, be_u16-Writes}

-- The match of `sig_type` and of `enc_type`.
unfoldable pub sig_type_of : ℕ → Option SigType
sig_type_of code =
    if code == 0
    then some SigType.dsa_sha1
    else if code == 1
    then some SigType.ecdsa_sha256_p256
    else if code == 2
    then some SigType.ecdsa_sha384_p384
    else if code == 3
    then some SigType.ecdsa_sha512_p521
    else if code == 4
    then some SigType.rsa2048_sha256
    else if code == 5
    then some SigType.rsa3072_sha384
    else if code == 6
    then some SigType.rsa4096_sha512
    else if code == 7
    then some SigType.ed25519
    else none

unfoldable pub enc_type_of : ℕ → Option EncType
enc_type_of code = if code == 0 then some EncType.elgamal2048 else none

module _ (nom : Nom) where
  open nom use {Err, take, be_u16, map, map_opt}

  unfoldable pub sig_type : Parser Err Bytes SigType
  sig_type = map_opt be_u16 sig_type_of

  unfoldable pub enc_type : Parser Err Bytes EncType
  enc_type = map_opt be_u16 enc_type_of

  unfoldable pub session_key : Parser Err Bytes Bytes
  session_key = map (take 32) (λ k. k)

  unfoldable pub public_key : Parser Err Bytes Bytes
  public_key = map (take 256) (λ k. k)

  unfoldable pub private_key : Parser Err Bytes Bytes
  private_key = map (take 256) (λ k. k)

module _ (cf : Cookie) where
  open cf use {GenError, slice, be_u16}

  unfoldable pub gen_sig_type : SigType → Gen GenError
  gen_sig_type t = be_u16 (sig_type_code t)

  unfoldable pub gen_enc_type : EncType → Gen GenError
  gen_enc_type t = be_u16 (enc_type_code t)

  unfoldable pub gen_session_key : Bytes → Gen GenError
  gen_session_key k = slice k

  unfoldable pub gen_public_key : Bytes → Gen GenError
  gen_public_key key = slice key

  unfoldable pub gen_private_key : Bytes → Gen GenError
  gen_private_key key = slice key

sig_type_code-lt : (t : SigType) → sig_type_code t < 65536
unfolding sig_type_code
sig_type_code-lt SigType.dsa_sha1 = omega arith
sig_type_code-lt SigType.ecdsa_sha256_p256 = omega arith
sig_type_code-lt SigType.ecdsa_sha384_p384 = omega arith
sig_type_code-lt SigType.ecdsa_sha512_p521 = omega arith
sig_type_code-lt SigType.rsa2048_sha256 = omega arith
sig_type_code-lt SigType.rsa3072_sha384 = omega arith
sig_type_code-lt SigType.rsa4096_sha512 = omega arith
sig_type_code-lt SigType.ed25519 = omega arith

pub sig_type_of-code : (t : SigType) → sig_type_of (sig_type_code t) ≡ some t
unfolding sig_type_of sig_type_code
sig_type_of-code SigType.dsa_sha1 = refl
sig_type_of-code SigType.ecdsa_sha256_p256 = refl
sig_type_of-code SigType.ecdsa_sha384_p384 = refl
sig_type_of-code SigType.ecdsa_sha512_p521 = refl
sig_type_of-code SigType.rsa2048_sha256 = refl
sig_type_of-code SigType.rsa3072_sha384 = refl
sig_type_of-code SigType.rsa4096_sha512 = refl
sig_type_of-code SigType.ed25519 = refl

module _ (nom : Nom) where
  pub sig_type-Reads : (t : SigType) → Reads (sig_type nom) (be_bytes 2 (sig_type_code t)) t
  unfolding sig_type
  sig_type-Reads t =
      map_opt-Reads nom sig_type_of (be_u16-Reads nom (sig_type_code t) (sig_type_code-lt t))
        (sig_type_of-code t)

  pub enc_type-Reads : (t : EncType) → Reads (enc_type nom) (be_bytes 2 (enc_type_code t)) t
  unfolding enc_type enc_type_of enc_type_code
  enc_type-Reads EncType.elgamal2048 =
      map_opt-Reads nom enc_type_of (be_u16-Reads nom 0 (omega arith)) refl

  pub session_key-Reads : (k : Bytes) → length k ≡ 32 → Reads (session_key nom) k k
  unfolding session_key
  session_key-Reads k h = map-Reads nom _ (take-Reads nom 32 k h)

  pub public_key-Reads : (k : Bytes) → length k ≡ 256 → Reads (public_key nom) k k
  unfolding public_key
  public_key-Reads k h = map-Reads nom _ (take-Reads nom 256 k h)

module _ (cf : Cookie) where
  pub gen_sig_type-Writes :
      (t : SigType) → Writes (gen_sig_type cf t) (be_bytes 2 (sig_type_code t))
  unfolding gen_sig_type
  gen_sig_type-Writes t = be_u16-Writes cf (sig_type_code t)

  pub gen_enc_type-Writes :
      (t : EncType) → Writes (gen_enc_type cf t) (be_bytes 2 (enc_type_code t))
  unfolding gen_enc_type
  gen_enc_type-Writes t = be_u16-Writes cf (enc_type_code t)

  pub gen_session_key-Writes : (k : Bytes) → Writes (gen_session_key cf k) k
  unfolding gen_session_key
  gen_session_key-Writes k = slice-Writes cf k

  pub gen_public_key-Writes : (k : Bytes) → Writes (gen_public_key cf k) k
  unfolding gen_public_key
  gen_public_key-Writes k = slice-Writes cf k
