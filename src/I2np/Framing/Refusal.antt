-- ===== src/I2np/Framing/Refusal.antt =====
-- Frames of src/i2np/frame.rs that are refused or misread: a wrong checksum, and the payload of a
-- tunnel gateway.
use Prim.Native.Nat.{◌^◌}
use ire.Prelude.{
  ℕ, suc, ◌+◌, ◌<◌, ◌≡◌, ◌≢◌, refl, ◌∙◌, false, Bytes, length, ok, err, ◌==◌, ==_iff, Bool-cases,
  inl, inr, Bool,
}
use ire.Crypto.{CurveSizes}
use ire.Data.Frame.RoundTrip.{tunnel_id-Reads}
use ire.I2np.{MessagePayload, tunnel_gateway}
use ire.I2np.Frame.{EntryParsers}
use ire.I2np.Frame.Parse.{parse_tunnel_gateway}
use ire.I2np.Frame.Generate.{gen_tunnel_gateway}
use ire.I2np.Frame.Written.{gen_tunnel_gateway-Writes}
use ire.I2np.Framing.{checksum, message_of, parse_payload, parse_message}
use ire.I2np.Framing.Read.{header-Reads}
use ire.Wire.{error, ◌<>◌, ◌>>>◌, be_bytes, Parser}
use ire.Wire.Nom.{Nom}
use ire.Wire.Cookie.{Cookie}
use ire.Wire.Reads.{map-Reads, pair-Reads, length_data-Reads, be_u16-Reads}

-- The header of a message with the given checksum.
unfoldable pub header_bytes : ℕ → ℕ → ℕ → ℕ → ℕ → Bytes
header_bytes t id expiration size cs =
    be_bytes 1 t <> be_bytes 4 id <> be_bytes 8 expiration <> be_bytes 2 size <> be_bytes 1 cs

==-false : (a b : ℕ) → a ≢ b → (a == b) ≡ false
==-false a b ne = elim (Bool-cases (a == b)) [
  | inl same ↦ absurd (ne ((==_iff a b).0 same))
  | inr other ↦ other
]

module _ (nom : Nom) where
  -- A look at bytes that the test refuses ends the parser.
  refused :
      {A : Type 0} (p : Parser nom.Err Bytes A) (test : Bytes → Bool) (bs rest : Bytes)
      → test bs ≡ false
      → (e : nom.Err) × (nom.preceded
            (nom.peek (nom.verify (nom.take (length bs)) test))
            p
            (bs <> rest)
          ≡ err (error e))
  unfolding ◌>>>◌
  refused p test bs rest h =
      let (e, f) =
        nom.verify_fails (nom.take (length bs)) test (bs <> rest) rest bs (nom.take_ok bs rest) h in
      (
        e,
        nom.preceded_eq _ p (bs <> rest)
            ∙ rw (nom.peek_err (nom.verify (nom.take (length bs)) test) (bs <> rest) (error e) f)
                refl,
      )

module _ (nom : Nom) (sizes : CurveSizes) (sha256 : Bytes → Bytes) {RI LS : Type 0} where
  message_of-refused :
      (payload : ℕ → Parser nom.Err Bytes (MessagePayload RI LS)) (t id expiration cs : ℕ)
      (bs rest : Bytes)
      → checksum sha256 bs ≢ cs
      → (e : nom.Err) × (message_of nom sizes sha256 payload
            (t, (id, (expiration, (length bs, cs))))
            (bs <> rest)
          ≡ err (error e))
  unfolding message_of ◌>>>◌
  message_of-refused payload t id expiration cs bs rest ne =
      let (e, f) =
        refused nom (payload t) (λ buf. checksum sha256 buf == cs) bs rest
          (==-false (checksum sha256 bs) cs ne) in
      (e, nom.map_eq _ _ (bs <> rest) ∙ rw f refl)

-- A message whose header carries another checksum than that of its payload is refused with an
-- error of nom, whatever the payload and the type; so no part of the payload is read.
pub parse_message-corrupt :
    (nom : Nom) (sizes : CurveSizes) (sha256 : Bytes → Bytes) {RI LS : Type 0}
    (parsers : EntryParsers nom RI LS) (depth t id expiration cs : ℕ) (bs rest : Bytes)
    → t < 256
    → id < 2 ^ 32
    → expiration < 2 ^ 64
    → length bs < 65536
    → cs < 256
    → checksum sha256 bs ≢ cs
    → (e : nom.Err) × (parse_message nom sizes sha256 parsers
          (suc depth)
          (header_bytes t id expiration (length bs) cs <> bs <> rest)
        ≡ err (error e))
unfolding parse_message header_bytes ◌>>>◌
parse_message-corrupt nom sizes sha256 parsers depth t id expiration cs bs rest ht hi he hs hc ne =
    let inner =
      parse_payload nom sizes sha256 parsers (parse_message nom sizes sha256 parsers depth) in
    let (e, f) = message_of-refused nom sizes sha256 inner t id expiration cs bs rest ne in
    (e, rw ((header-Reads nom t id expiration (length bs) cs ht hi he hs hc).at (bs <> rest)) f)

-- The payload of a tunnel gateway is written without its length, and its first two bytes are read
-- as one: a body that starts with the length of `inner` comes back as `inner`, and the rest of the body is left over.
pub gen_tunnel_gateway-parse_tunnel_gateway :
    (nom : Nom) (cf : Cookie) (RI LS : Type 0) (tid : ℕ) (inner tail pre old post rest : Bytes)
    → tid < 2 ^ 32
    → length inner < 65536
    → length old ≡ length (be_bytes 4 tid <> be_bytes 2 (length inner) <> inner <> tail)
    → (gen_tunnel_gateway cf
          (record { tid = tid; body = be_bytes 2 (length inner) <> inner <> tail })
          (pre <> old <> post, length pre)
        ≡ ok (
          pre <> (be_bytes 4 tid <> be_bytes 2 (length inner) <> inner <> tail) <> post,
          length pre + length (be_bytes 4 tid <> be_bytes 2 (length inner) <> inner <> tail),
        ))
      × (parse_tunnel_gateway nom {RI = RI} {LS = LS}
            ((be_bytes 4 tid <> be_bytes 2 (length inner) <> inner) <> tail <> rest)
          ≡ ok (tail <> rest, tunnel_gateway (record { tid = tid; body = inner })))
unfolding parse_tunnel_gateway
gen_tunnel_gateway-parse_tunnel_gateway nom cf RI LS tid inner tail pre old post rest ht hl l = (
  (gen_tunnel_gateway-Writes cf _).at pre old post l,
  (map-Reads nom _ (
        pair-Reads nom (tunnel_id-Reads nom tid ht)
          (length_data-Reads nom inner (be_u16-Reads nom (length inner) hl)))).at
      (tail <> rest),
)
