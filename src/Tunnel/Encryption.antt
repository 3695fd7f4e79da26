-- ===== src/Tunnel/Encryption.antt =====
-- `LayerCipher` of src/tunnel/encryption.rs, over `Aes256` of src/crypto/mod.rs. The crates aes and
-- cbc are a parameter: a block cipher on 16 bytes that can be undone, and its CBC mode, undone by
-- the decryptor with the same key and vector.
pub mod RoundTrip
pub mod Reversal
mod Tests
use ire.Prelude.{
  ℕ, ◌+◌, ◌*◌, ◌/◌, ◌%◌, ◌≡◌, Option, none, some, ◌++◌, length, take, drop, replicate, ltb, ◌==◌,
  if◌then◌else◌, Bytes,
}
use ire.Data.{SessionKey}
use ire.I2np.{TunnelData}

pub record AesCrates : Type 1 where
  -- `aes::Aes256` and its operations on one block
  pub Cipher : Type 0
  pub cipher : SessionKey → Cipher
  pub encrypt_block : Cipher → Bytes → Bytes
  pub decrypt_block : Cipher → Bytes → Bytes
  pub length-encrypt_block :
      (c : Cipher) (x : Bytes) → length x ≡ 16 → length (encrypt_block c x) ≡ 16
  pub length-decrypt_block :
      (c : Cipher) (x : Bytes) → length x ≡ 16 → length (decrypt_block c x) ≡ 16
  pub decrypt-encrypt_block :
      (c : Cipher) (x : Bytes) → length x ≡ 16 → decrypt_block c (encrypt_block c x) ≡ x
  pub encrypt-decrypt_block :
      (c : Cipher) (x : Bytes) → length x ≡ 16 → encrypt_block c (decrypt_block c x) ≡ x
  -- `cbc::Encryptor` and `cbc::Decryptor`, whose state is the chaining block
  pub Encryptor : Type 0
  pub Decryptor : Type 0
  pub encryptor : SessionKey → Bytes → Encryptor
  pub decryptor : SessionKey → Bytes → Decryptor
  pub encrypt_blocks_mut : Encryptor → Bytes → Encryptor × Bytes
  pub decrypt_blocks_mut : Decryptor → Bytes → Decryptor × Bytes
  pub length-encrypt_blocks_mut :
      (e : Encryptor) (x : Bytes) → length (encrypt_blocks_mut e x).1 ≡ length x
  pub length-decrypt_blocks_mut :
      (d : Decryptor) (x : Bytes) → length (decrypt_blocks_mut d x).1 ≡ length x
  pub decrypt-encrypt_blocks_mut :
      (k : SessionKey) (iv x : Bytes)
      → length iv ≡ 16
      → length x % 16 ≡ 0
      → (decrypt_blocks_mut (decryptor k iv) (encrypt_blocks_mut (encryptor k iv) x).1).1 ≡ x
  pub encrypt-decrypt_blocks_mut :
      (k : SessionKey) (iv x : Bytes)
      → length iv ≡ 16
      → length x % 16 ≡ 0
      → (encrypt_blocks_mut (encryptor k iv) (decrypt_blocks_mut (decryptor k iv) x).1).1 ≡ x

-- `assert_eq!(n, Some(1008))`, and then the value; `none` is the panic.
unfoldable pub assert_1008 : {A : Type 0} → Option ℕ → A → Option A
assert_1008 none x = none
assert_1008 (some n) x = if n == 1008 then some x else none

module _ (a : AesCrates) where
  open a use {encrypt_block, decrypt_block, encrypt_blocks_mut, decrypt_blocks_mut}

  -- `crypto::Aes256`
  pub record Aes256 : Type 0 where
    pub cbc_enc : a.Encryptor
    pub cbc_dec : a.Decryptor

  unfoldable pub new_aes256 : SessionKey → Bytes → Bytes → Aes256
  new_aes256 k iv_enc iv_dec = record {
    cbc_enc = a.encryptor k iv_enc;
    cbc_dec = a.decryptor k iv_dec;
  }

  -- The whole blocks at the front are replaced, and what is left over stays as it is.
  unfoldable pub encrypt_blocks : Aes256 → Bytes → Aes256 × Bytes × Option ℕ
  encrypt_blocks c buf =
      let end = length buf / 16 * 16 in
      let out = encrypt_blocks_mut c.cbc_enc (take end buf) in
      if ltb (length buf) 16
      then (c, buf, none)
      else (record c { cbc_enc = out.0 }, out.1 ++ drop end buf, some end)

  unfoldable pub decrypt_blocks : Aes256 → Bytes → Aes256 × Bytes × Option ℕ
  decrypt_blocks c buf =
      let end = length buf / 16 * 16 in
      let out = decrypt_blocks_mut c.cbc_dec (take end buf) in
      if ltb (length buf) 16
      then (c, buf, none)
      else (record c { cbc_dec = out.0 }, out.1 ++ drop end buf, some end)

  pub record LayerCipher : Type 0 where
    pub iv_cipher : a.Cipher
    pub layer_key : SessionKey

  unfoldable pub new_layer_cipher : SessionKey → SessionKey → LayerCipher
  new_layer_cipher iv_key layer_key = record { iv_cipher = a.cipher iv_key; layer_key = layer_key }

  abbrev pub zero_iv : Bytes
  zero_iv = replicate 16 0

  unfoldable pub encrypt_layer : LayerCipher → TunnelData → Option TunnelData
  unfolding new_aes256 assert_1008
  encrypt_layer c td =
      let iv = encrypt_block c.iv_cipher (take 16 td.body) in
      let cipher = new_aes256 c.layer_key iv zero_iv in
      let out = encrypt_blocks cipher (drop 16 td.body) in
      assert_1008 out.2 (record td { body = encrypt_block c.iv_cipher iv ++ out.1 })

  unfoldable pub decrypt_layer : LayerCipher → TunnelData → Option TunnelData
  unfolding new_aes256 assert_1008
  decrypt_layer c td =
      let iv = decrypt_block c.iv_cipher (take 16 td.body) in
      let cipher = new_aes256 c.layer_key zero_iv iv in
      let out = decrypt_blocks cipher (drop 16 td.body) in
      assert_1008 out.2 (record td { body = decrypt_block c.iv_cipher iv ++ out.1 })
