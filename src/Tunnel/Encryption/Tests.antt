-- ===== src/Tunnel/Encryption/Tests.antt =====
-- `LayerCipher` with a cipher that reverses bytes, at a concrete message.
use ire.Prelude.{◌≡◌, refl, some, [], ◌∷◌, length, replicate}
use ire.I2np.{TunnelData}
use ire.Tunnel.Encryption.{LayerCipher, encrypt_layer, decrypt_layer}
use ire.Tunnel.Encryption.Reversal.{reversal}
use ire.Tunnel.Encryption.RoundTrip.{layers_undo}

abbrev cipher : LayerCipher reversal
cipher = record { iv_cipher = 1 ∷ []; layer_key = 2 ∷ [] }

abbrev message : TunnelData
message = record { tid = 1234; body = replicate 1024 7 }

layers_undo_example :
    ((enc : TunnelData) × (encrypt_layer reversal cipher message ≡ some enc)
      × (enc.tid ≡ 1234)
      × (length enc.body ≡ 1024)
      × (decrypt_layer reversal cipher enc ≡ some message))
    × ((dec : TunnelData) × (decrypt_layer reversal cipher message ≡ some dec)
        × (dec.tid ≡ 1234)
        × (length dec.body ≡ 1024)
        × (encrypt_layer reversal cipher dec ≡ some message))
layers_undo_example = layers_undo reversal cipher message refl
