-- ===== src/Tunnel/Encryption/RoundTrip.antt =====
-- The layers of src/tunnel/encryption.rs undo each other.
use ire.Prelude.{
  ◌≡◌, ◌∙◌, refl, some, ◌++◌, length, take, drop, arith, Bytes, take-append-drop, length-take,
  length-drop, take-eq_all, drop-eq_nil, append-nil, length-append, take-append_of_length,
  drop-append_of_length,
}
use ire.I2np.{TunnelData}
use ire.Tunnel.Encryption.{
  AesCrates, Aes256, LayerCipher, encrypt_blocks, decrypt_blocks, encrypt_layer, decrypt_layer,
}

module _ (a : AesCrates) where
  -- On whole blocks the buffer is replaced in full.
  encrypt_blocks_whole :
      (c : Aes256 a) (buf : Bytes)
      → length buf ≡ 1008
      → (encrypt_blocks a c buf).1 ≡ (a.encrypt_blocks_mut c.cbc_enc buf).1
  unfolding encrypt_blocks
  encrypt_blocks_whole c buf h =
      rw (h, take-eq_all 1008 buf h, drop-eq_nil 1008 buf h, append-nil) refl

  encrypt_blocks_count :
      (c : Aes256 a) (buf : Bytes) → length buf ≡ 1008 → (encrypt_blocks a c buf).2 ≡ some 1008
  unfolding encrypt_blocks
  encrypt_blocks_count c buf h = rw h refl

  decrypt_blocks_whole :
      (c : Aes256 a) (buf : Bytes)
      → length buf ≡ 1008
      → (decrypt_blocks a c buf).1 ≡ (a.decrypt_blocks_mut c.cbc_dec buf).1
  unfolding decrypt_blocks
  decrypt_blocks_whole c buf h =
      rw (h, take-eq_all 1008 buf h, drop-eq_nil 1008 buf h, append-nil) refl

  decrypt_blocks_count :
      (c : Aes256 a) (buf : Bytes) → length buf ≡ 1008 → (decrypt_blocks a c buf).2 ≡ some 1008
  unfolding decrypt_blocks
  decrypt_blocks_count c buf h = rw h refl

  -- The body after one layer: the vector encrypted twice, then the rest in CBC mode.
  abbrev encrypted_body : LayerCipher a → Bytes → Bytes
  encrypted_body c x =
      let iv = a.encrypt_block c.iv_cipher (take 16 x) in
      a.encrypt_block c.iv_cipher iv
      ++ (a.encrypt_blocks_mut (a.encryptor c.layer_key iv) (drop 16 x)).1

  abbrev decrypted_body : LayerCipher a → Bytes → Bytes
  decrypted_body c x =
      let iv = a.decrypt_block c.iv_cipher (take 16 x) in
      a.decrypt_block c.iv_cipher iv
      ++ (a.decrypt_blocks_mut (a.decryptor c.layer_key iv) (drop 16 x)).1

  body_rest : (x : Bytes) → length x ≡ 1024 → length (drop 16 x) ≡ 1008
  body_rest x h = omega (arith, length-drop 16 x)

  body_iv : (x : Bytes) → length x ≡ 1024 → length (take 16 x) ≡ 16
  body_iv x h = omega (arith, length-take 16 x)

  encrypt_layer_lem :
      (c : LayerCipher a) (td : TunnelData)
      → length td.body ≡ 1024
      → encrypt_layer a c td ≡ some (record td { body = encrypted_body c td.body })
  unfolding encrypt_layer
  encrypt_layer_lem c td h =
      let rest = body_rest td.body h in
      rw (
        encrypt_blocks_count _ (drop 16 td.body) rest,
        encrypt_blocks_whole _ (drop 16 td.body) rest,
      )

  decrypt_layer_lem :
      (c : LayerCipher a) (td : TunnelData)
      → length td.body ≡ 1024
      → decrypt_layer a c td ≡ some (record td { body = decrypted_body c td.body })
  unfolding decrypt_layer
  decrypt_layer_lem c td h =
      let rest = body_rest td.body h in
      rw (
        decrypt_blocks_count _ (drop 16 td.body) rest,
        decrypt_blocks_whole _ (drop 16 td.body) rest,
      )

  length-encrypted_body :
      (c : LayerCipher a) (x : Bytes) → length x ≡ 1024 → length (encrypted_body c x) ≡ 1024
  length-encrypted_body c x h =
      let iv = a.encrypt_block c.iv_cipher (take 16 x) in
      let iv_length = a.length-encrypt_block c.iv_cipher (take 16 x) (body_iv x h) in
      let cbc = a.encryptor c.layer_key iv in
      omega (
        arith,
        length-append (a.encrypt_block c.iv_cipher iv) (a.encrypt_blocks_mut cbc (drop 16 x)).1,
        a.length-encrypt_block c.iv_cipher iv iv_length,
        a.length-encrypt_blocks_mut cbc (drop 16 x),
        body_rest x h,
      )

  length-decrypted_body :
      (c : LayerCipher a) (x : Bytes) → length x ≡ 1024 → length (decrypted_body c x) ≡ 1024
  length-decrypted_body c x h =
      let iv = a.decrypt_block c.iv_cipher (take 16 x) in
      let iv_length = a.length-decrypt_block c.iv_cipher (take 16 x) (body_iv x h) in
      let cbc = a.decryptor c.layer_key iv in
      omega (
        arith,
        length-append (a.decrypt_block c.iv_cipher iv) (a.decrypt_blocks_mut cbc (drop 16 x)).1,
        a.length-decrypt_block c.iv_cipher iv iv_length,
        a.length-decrypt_blocks_mut cbc (drop 16 x),
        body_rest x h,
      )

  decrypted-encrypted_body :
      (c : LayerCipher a) (x : Bytes) → length x ≡ 1024 → decrypted_body c (encrypted_body c x) ≡ x
  decrypted-encrypted_body c x h =
      let iv0 = take 16 x in
      let iv = a.encrypt_block c.iv_cipher iv0 in
      let iv0_length = body_iv x h in
      let iv_length = a.length-encrypt_block c.iv_cipher iv0 iv0_length in
      let front = a.encrypt_block c.iv_cipher iv in
      let back = (a.encrypt_blocks_mut (a.encryptor c.layer_key iv) (drop 16 x)).1 in
      let front_length = a.length-encrypt_block c.iv_cipher iv iv_length in
      rw
        (
          take-append_of_length 16 front back front_length,
          drop-append_of_length 16 front back front_length,
          a.decrypt-encrypt_block c.iv_cipher iv iv_length,
          a.decrypt-encrypt_block c.iv_cipher iv0 iv0_length,
          a.decrypt-encrypt_blocks_mut c.layer_key iv (drop 16 x) iv_length
              (omega (arith, body_rest x h)),
        )
        (take-append-drop 16 x)

  encrypted-decrypted_body :
      (c : LayerCipher a) (x : Bytes) → length x ≡ 1024 → encrypted_body c (decrypted_body c x) ≡ x
  encrypted-decrypted_body c x h =
      let iv0 = take 16 x in
      let iv = a.decrypt_block c.iv_cipher iv0 in
      let iv0_length = body_iv x h in
      let iv_length = a.length-decrypt_block c.iv_cipher iv0 iv0_length in
      let front = a.decrypt_block c.iv_cipher iv in
      let back = (a.decrypt_blocks_mut (a.decryptor c.layer_key iv) (drop 16 x)).1 in
      let front_length = a.length-decrypt_block c.iv_cipher iv iv_length in
      rw
        (
          take-append_of_length 16 front back front_length,
          drop-append_of_length 16 front back front_length,
          a.encrypt-decrypt_block c.iv_cipher iv iv_length,
          a.encrypt-decrypt_block c.iv_cipher iv0 iv0_length,
          a.encrypt-decrypt_blocks_mut c.layer_key iv (drop 16 x) iv_length
              (omega (arith, body_rest x h)),
        )
        (take-append-drop 16 x)

  -- On a message of 1024 bytes both layers return a message with the same tunnel id and 1024 bytes
  -- (no assertion fails), and each of them undoes the other.
  pub layers_undo :
      (c : LayerCipher a) (td : TunnelData)
      → length td.body ≡ 1024
      → ((enc : TunnelData) × (encrypt_layer a c td ≡ some enc)
          × (enc.tid ≡ td.tid)
          × (length enc.body ≡ 1024)
          × (decrypt_layer a c enc ≡ some td))
        × ((dec : TunnelData) × (decrypt_layer a c td ≡ some dec)
            × (dec.tid ≡ td.tid)
            × (length dec.body ≡ 1024)
            × (encrypt_layer a c dec ≡ some td))
  layers_undo c td h =
      let enc : TunnelData = record td { body = encrypted_body c td.body } in
      let dec : TunnelData = record td { body = decrypted_body c td.body } in
      let enc_length = length-encrypted_body c td.body h in
      let dec_length = length-decrypted_body c td.body h in
      (
        (
          enc,
          encrypt_layer_lem c td h,
          refl,
          enc_length,
          decrypt_layer_lem c enc enc_length ∙ rw (decrypted-encrypted_body c td.body h),
        ),
        (
          dec,
          decrypt_layer_lem c td h,
          refl,
          dec_length,
          encrypt_layer_lem c dec dec_length ∙ rw (encrypted-decrypted_body c td.body h),
        ),
      )
