-- ===== src/Tunnel/Encryption/Reversal.antt =====
-- A cipher that reverses the bytes, which meets what src/tunnel/encryption.rs assumes of the crates
-- aes and cbc.
use mathlib.Core.List.{reverse, reverse-append, reverse-reverse}
use ire.Prelude.{◌≡◌, ◌∙◌, refl, ap, [], ◌∷◌, length, length-append, arith, Bytes}
use ire.Tunnel.Encryption.{AesCrates}

pub length-reverse : (xs : Bytes) → length (reverse xs) ≡ length xs
length-reverse [] = refl
length-reverse (x ∷ xs) =
    ap length (reverse-append (x ∷ []) xs)
    ∙ omega (arith, length-append (reverse xs) (x ∷ []), length-reverse xs)

abbrev pub reversal : AesCrates
reversal = record {
  Cipher = Bytes;
  cipher = λ k. k;
  encrypt_block = λ c x. reverse x;
  decrypt_block = λ c x. reverse x;
  length-encrypt_block = λ c x h. length-reverse x ∙ h;
  length-decrypt_block = λ c x h. length-reverse x ∙ h;
  decrypt-encrypt_block = λ c x h. reverse-reverse x;
  encrypt-decrypt_block = λ c x h. reverse-reverse x;
  Encryptor = Bytes;
  Decryptor = Bytes;
  encryptor = λ k iv. iv;
  decryptor = λ k iv. iv;
  encrypt_blocks_mut = λ e x. (e, reverse x);
  decrypt_blocks_mut = λ d x. (d, reverse x);
  length-encrypt_blocks_mut = λ e x. length-reverse x;
  length-decrypt_blocks_mut = λ d x. length-reverse x;
  decrypt-encrypt_blocks_mut = λ k iv x h m. reverse-reverse x;
  encrypt-decrypt_blocks_mut = λ k iv x h m. reverse-reverse x;
}
