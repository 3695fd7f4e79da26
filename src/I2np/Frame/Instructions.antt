-- ===== src/I2np/Frame/Instructions.antt =====
-- The delivery instructions of a garlic clove (src/i2np/frame.rs) are read as their layout.
use ire.Prelude.{arith}
use ire.Crypto.Frame.{session_key-Reads}
use ire.Data.Frame.RoundTrip.{hash-Reads, tunnel_id-Reads}
use ire.I2np.{GarlicCloveDeliveryInstructions}
use ire.I2np.Frame.Parse.{instructions_with, instructions_of, garlic_clove_delivery_instructions}
use ire.I2np.Frame.Layout.{optional, as_is, bit, clove_byte, instructions_bytes, IsInstructions}
use ire.I2np.Frame.Flags.{clove_byte-fields, clove_byte-bytes}
use ire.I2np.Frame.Optional.{Within-map, announced-Reads}
use ire.I2np.Frame.Leaves.{is_set-bit}
use ire.Wire.{◌<>◌, be_bytes}
use ire.Wire.Nom.{Nom}
use ire.Wire.Reads.{
  Reads, Reads-bind, Reads-bytes, Reads-value, map-Reads, pair-Reads, be_u32-Reads,
}
use ire.Wire.ReadsBits.{take_bits-ReadsBits, pair-ReadsBits, terminated-ReadsBits, bits-Reads}

module _ (nom : Nom) where
  instructions_with-Reads :
      (gcdi : GarlicCloveDeliveryInstructions)
      → IsInstructions gcdi
      → Reads
          (instructions_with nom gcdi.encrypted gcdi.delivery_type gcdi.delay_set)
          (optional as_is gcdi.session_key
            <> optional as_is gcdi.to_hash
            <> optional (be_bytes 4) gcdi.tid
            <> optional (be_bytes 4) gcdi.delay)
          gcdi
  unfolding instructions_with
  instructions_with-Reads gcdi h =
      (map-Reads nom _ (
        pair-Reads nom
          (announced-Reads nom as_is gcdi.session_key _ h.with_key
            (Within-map (session_key-Reads nom) gcdi.session_key h.session_key))
          (pair-Reads nom
            (announced-Reads nom as_is gcdi.to_hash _ h.with_hash
              (Within-map (hash-Reads nom) gcdi.to_hash h.to_hash))
            (pair-Reads nom
              (announced-Reads nom (be_bytes 4) gcdi.tid _ h.with_tid
                (Within-map (tunnel_id-Reads nom) gcdi.tid h.tid))
              (announced-Reads nom (be_bytes 4) gcdi.delay _ h.with_delay
                (Within-map (be_u32-Reads nom) gcdi.delay h.delay))))))

  instructions_of-Reads :
      (gcdi : GarlicCloveDeliveryInstructions)
      → IsInstructions gcdi
      → Reads
          (instructions_of nom (bit gcdi.encrypted, (gcdi.delivery_type, bit gcdi.delay_set)))
          (optional as_is gcdi.session_key
            <> optional as_is gcdi.to_hash
            <> optional (be_bytes 4) gcdi.tid
            <> optional (be_bytes 4) gcdi.delay)
          gcdi
  unfolding instructions_of
  instructions_of-Reads gcdi h =
      rw (is_set-bit gcdi.encrypted, is_set-bit gcdi.delay_set) (instructions_with-Reads gcdi h)

  pub garlic_clove_delivery_instructions-Reads :
      (gcdi : GarlicCloveDeliveryInstructions)
      → IsInstructions gcdi
      → Reads (garlic_clove_delivery_instructions nom) (instructions_bytes gcdi) gcdi
  unfolding garlic_clove_delivery_instructions instructions_bytes
  garlic_clove_delivery_instructions-Reads gcdi h =
      let b = clove_byte gcdi.encrypted gcdi.delivery_type gcdi.delay_set in
      let fields = clove_byte-fields gcdi.encrypted gcdi.delivery_type gcdi.delay_set h.two_bits in
      let one = clove_byte-bytes gcdi.encrypted gcdi.delivery_type gcdi.delay_set h.two_bits in
      Reads-bind (instructions_of nom)
        (Reads-bytes one (
          Reads-value fields (
            bits-Reads nom (
              terminated-ReadsBits nom (omega arith)
                (pair-ReadsBits nom (omega arith) (take_bits-ReadsBits nom 1 0 b (omega arith)) (
                  pair-ReadsBits nom (omega arith) (take_bits-ReadsBits nom 2 1 b (omega arith))
                    (take_bits-ReadsBits nom 1 3 b (omega arith))))
                (take_bits-ReadsBits nom 4 4 b (omega arith))))))
        (instructions_of-Reads gcdi h)
