-- ===== src/I2np/Framing/RoundTrip.antt =====
-- Messages that src/i2np/frame.rs generates are the ones that it parses, and what happens to the
-- others.
use Prim.Native.Nat.{◌^◌}
use ire.Prelude.{ℕ, suc, ◌+◌, ◌*◌, ◌/◌, ◌<◌, ◌≤◌, ◌≡◌, arith, Bytes, length, append_assoc, ok}
use ire.Crypto.{CurveSizes}
use ire.Data.Frame.RoundTrip.{gen_short_expiry-Writes, short_expiry-Reads}
use ire.I2np.{Message, message}
use ire.I2np.Frame.{EntryParsers, EntryGens}
use ire.I2np.Framing.{
  checksum, ntcp2_header, parse_payload, parse_message, ntcp2_message_of, ntcp2_message,
  gen_message, gen_ntcp2_message, message_type,
}
use ire.I2np.Framing.Layout.{
  EntryLayout, message_bytes, payload_bytes, message_depth, IsMessage, IsPayload,
}
use ire.I2np.Framing.Read.{ReadsEntries, message_type-lt}
use ire.I2np.Framing.Nested.{message-Reads, payload-Reads}
use ire.I2np.Framing.Write.{WritesEntries, gen_message-Writes, gen_payload-Writes}
use ire.Wire.{◌<>◌, be_bytes}
use ire.Wire.Nom.{Nom}
use ire.Wire.Cookie.{Cookie}
use ire.Wire.Reads.{
  Reads, Reads-bind, Reads-then, Reads-bytes, Reads-returns, pair-Reads, be_u8-Reads, be_u32-Reads,
}
use ire.Wire.Writes.{be_u8-Writes, be_u32-Writes, do_gen-Writes, do_gen-Writes_last, Writes}

-- A message whose fields fit, and which neither is nor holds a tunnel gateway or a store of a
-- RouterInfo, is written to the buffer as its layout (the header with the length and the checksum
-- filled in, then the payload, garlic with its cloves and the messages in them included), and
-- reading that with fuel for the depth of its garlic gives the message back. This is so when the
-- format of lease sets writes and reads the layout of those that fit, and a checksum is a byte.
pub gen_message-parse_message :
    (nom : Nom) (cf : Cookie) (sizes : CurveSizes) (sha256 : Bytes → Bytes) {RI LS : Type 0}
    (parsers : EntryParsers nom RI LS) (gens : EntryGens cf RI LS) (layout : EntryLayout RI LS)
    (m : Message RI LS) (depth : ℕ) (pre old post rest : Bytes)
    → ReadsEntries nom parsers layout
    → WritesEntries cf gens layout
    → ((x : Bytes) → checksum sha256 x < 256)
    → IsMessage sizes sha256 layout m
    → message_depth m ≤ depth
    → length old ≡ length (message_bytes sha256 layout m)
    → (gen_message cf sha256 gens m (pre <> old <> post, length pre)
        ≡ ok (
          pre <> message_bytes sha256 layout m <> post,
          length pre + length (message_bytes sha256 layout m),
        ))
      × (parse_message nom sizes sha256 parsers depth (message_bytes sha256 layout m <> rest)
          ≡ ok (rest, m))
gen_message-parse_message nom cf sizes sha256 parsers gens layout m depth pre old post rest re we
      small h d l =
    (
      (gen_message-Writes cf sha256 gens layout sizes m we h).at pre old post l,
      (message-Reads nom sizes sha256 parsers layout m depth re small h d).at rest,
    )

-- The layout of the NTCP2 frame: no length and no checksum, and the expiration in seconds.
unfoldable pub ntcp2_bytes :
    (Bytes → Bytes) → {RI LS : Type 0} → EntryLayout RI LS → Message RI LS → Bytes
ntcp2_bytes sha256 layout (message id expiration p) =
    be_bytes 1 (message_type p)
    <> be_bytes 4 id
    <> be_bytes 4 (expiration / 1000)
    <> payload_bytes sha256 layout p

unfoldable pub to_seconds : {RI LS : Type 0} → Message RI LS → Message RI LS
to_seconds (message id expiration p) = message id (expiration / 1000 * 1000) p

-- What the NTCP2 frame can hold.
unfoldable pub IsNtcp2 :
    CurveSizes → (Bytes → Bytes) → {RI LS : Type 0} → EntryLayout RI LS → Message RI LS → Type 0
IsNtcp2 sizes sha256 layout (message id expiration p) =
    (id < 2 ^ 32) × (expiration / 1000 < 2 ^ 32) × IsPayload sizes sha256 layout p

module _ (nom : Nom) (cf : Cookie) (sizes : CurveSizes) (sha256 : Bytes → Bytes) {RI LS : Type 0}
    (parsers : EntryParsers nom RI LS) (gens : EntryGens cf RI LS)
    (layout : EntryLayout RI LS) where
  gen_ntcp2_message-Writes :
      (m : Message RI LS)
      → WritesEntries cf gens layout
      → IsNtcp2 sizes sha256 layout m
      → Writes (gen_ntcp2_message cf sha256 gens m) (ntcp2_bytes sha256 layout m)
  unfolding gen_ntcp2_message ntcp2_bytes IsNtcp2
  gen_ntcp2_message-Writes (message id expiration p) we h =
      (do_gen-Writes cf (be_u8-Writes cf (message_type p)) (
        do_gen-Writes cf (be_u32-Writes cf id) (
          do_gen-Writes cf (gen_short_expiry-Writes cf expiration)
            (do_gen-Writes_last cf (gen_payload-Writes cf sha256 gens layout sizes p we h.2)))))

  ntcp2_message-Reads :
      (m : Message RI LS) (depth : ℕ)
      → ReadsEntries nom parsers layout
      → ((x : Bytes) → checksum sha256 x < 256)
      → IsNtcp2 sizes sha256 layout m
      → message_depth m ≤ suc depth
      → Reads
          (ntcp2_message nom sizes sha256 parsers depth)
          (ntcp2_bytes sha256 layout m)
          (to_seconds m)
  unfolding ntcp2_message ntcp2_bytes IsNtcp2 ntcp2_header ntcp2_message_of to_seconds message_depth
  ntcp2_message-Reads (message id expiration p) depth re small h d =
      Reads-bytes (simp append_assoc) (
        Reads-bind
          (ntcp2_message_of nom sizes sha256
            (parse_payload nom sizes sha256 parsers (parse_message nom sizes sha256 parsers depth)))
          (pair-Reads nom (be_u8-Reads nom (message_type p) (message_type-lt p))
            (pair-Reads nom (be_u32-Reads nom id h.0) (short_expiry-Reads nom expiration h.1)))
          (Reads-then _
            (payload-Reads nom sizes sha256 parsers layout p depth re small h.2 (omega arith))
            (Reads-returns _)))

-- In an NTCP2 frame, a message whose fields fit, and which neither is nor holds a tunnel gateway or
-- a store of a RouterInfo, is written as its layout and comes back with its expiration rounded down
-- to the second, and otherwise unchanged. This is so when the format of lease sets writes and reads
-- the layout of those that fit, and a checksum is a byte.
pub gen_ntcp2_message-ntcp2_message :
    (nom : Nom) (cf : Cookie) (sizes : CurveSizes) (sha256 : Bytes → Bytes) {RI LS : Type 0}
    (parsers : EntryParsers nom RI LS) (gens : EntryGens cf RI LS) (layout : EntryLayout RI LS)
    (m : Message RI LS) (depth : ℕ) (pre old post rest : Bytes)
    → ReadsEntries nom parsers layout
    → WritesEntries cf gens layout
    → ((x : Bytes) → checksum sha256 x < 256)
    → IsNtcp2 sizes sha256 layout m
    → message_depth m ≤ suc depth
    → length old ≡ length (ntcp2_bytes sha256 layout m)
    → (gen_ntcp2_message cf sha256 gens m (pre <> old <> post, length pre)
        ≡ ok (
          pre <> ntcp2_bytes sha256 layout m <> post,
          length pre + length (ntcp2_bytes sha256 layout m),
        ))
      × (ntcp2_message nom sizes sha256 parsers depth (ntcp2_bytes sha256 layout m <> rest)
          ≡ ok (rest, to_seconds m))
gen_ntcp2_message-ntcp2_message nom cf sizes sha256 parsers gens layout m depth pre old post rest re
      we small h d l =
    (
      (gen_ntcp2_message-Writes nom cf sizes sha256 parsers gens layout m we h).at pre old post l,
      (ntcp2_message-Reads nom cf sizes sha256 parsers gens layout m depth re small h d).at rest,
    )
