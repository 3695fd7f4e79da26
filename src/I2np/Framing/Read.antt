-- ===== src/I2np/Framing/Read.antt =====
-- Messages are read as their layout, by a parser with fuel for their depth.
use Prim.Native.Nat.{◌^◌}
use ire.Prelude.{
  ℕ, suc, ◌<◌, ◌≡◌, refl, ap, ◌∙◌, arith, true, List, [], ◌∷◌, Bytes, length, append_assoc, ==_iff,
  Bool,
}
use ire.Crypto.{CurveSizes}
use ire.Data.{I2PDate, Certificate}
use ire.Data.Frame.Encoding.{certificate_bytes, IsEncodable}
use ire.Data.Frame.RoundTrip.{hash-Reads, i2p_date-Reads, certificate-Reads}
use ire.I2np.{
  DatabaseStore, DatabaseStoreData, ri, ls, Message, message, MessagePayload, database_store,
  database_lookup, database_search_reply, delivery_status, garlic, tunnel_data, tunnel_gateway,
  plain_data, tunnel_build, tunnel_build_reply, variable_tunnel_build, variable_tunnel_build_reply,
  Cloves, no_cloves, clove, GarlicCloveDeliveryInstructions,
}
use ire.I2np.Frame.{EntryParsers}
use ire.I2np.Frame.Parse.{entry_of, database_store_of, parse_database_store}
use ire.I2np.Frame.Layout.{Has, reply_path_bytes, IsReplyPath, instructions_bytes, IsInstructions}
use ire.I2np.Frame.Leaves.{reply_path-Reads}
use ire.I2np.Frame.Instructions.{garlic_clove_delivery_instructions-Reads}
use ire.I2np.Framing.{
  checksum, GarlicClove, cloves_of, clove_count, header, garlic_clove, parse_garlic, message_of,
  message_type,
}
use ire.I2np.Framing.Layout.{EntryLayout, entry_bytes, IsEntry, framed_bytes}
use ire.Wire.{◌<>◌, Parser, ◌>>>◌, be_bytes}
use ire.Wire.Nom.{Nom}
use ire.Wire.Reads.{
  Reads, Reads-then, Reads-bind, Reads-bytes, Reads-value, Reads-eq, Reads-returns, map-Reads,
  be_u8-Reads, be_u16-Reads, be_u32-Reads, pair-Reads,
}

-- The parser of lease sets reads their layout.
pub record ReadsEntries (nom : Nom) {RI LS : Type 0} (entries : EntryParsers nom RI LS)
    (layout : EntryLayout RI LS) : Type 0 where
  pub reads_ls : (l : LS) → layout.fits l → Reads entries.lease_set (layout.ls_bytes l) l

pub message_type-lt : {RI LS : Type 0} → (p : MessagePayload RI LS) → message_type p < 256
unfolding message_type
message_type-lt (database_store ds) = omega arith
message_type-lt (database_lookup dl) = omega arith
message_type-lt (database_search_reply dsr) = omega arith
message_type-lt (delivery_status ds) = omega arith
message_type-lt (garlic cs cert id e) = omega arith
message_type-lt (tunnel_data td) = omega arith
message_type-lt (tunnel_gateway tg) = omega arith
message_type-lt (plain_data d) = omega arith
message_type-lt (tunnel_build tb) = omega arith
message_type-lt (tunnel_build_reply tb) = omega arith
message_type-lt (variable_tunnel_build tb) = omega arith
message_type-lt (variable_tunnel_build_reply tb) = omega arith

module _ (nom : Nom) {A : Type 0} where
  -- A body behind a look at its bytes, whose test it passes.
  checked-Reads :
      (p : Parser nom.Err Bytes A) (test : Bytes → Bool) (bs : Bytes) (a : A)
      → test bs ≡ true
      → Reads p bs a
      → Reads (nom.preceded (nom.peek (nom.verify (nom.take (length bs)) test)) p) bs a
  unfolding ◌>>>◌
  checked-Reads p test bs a h r = record {
    at = λ rest.
        let i = bs <> rest in
        let seen = nom.verify_ok _ test i rest bs (nom.take_ok bs rest) h in
        nom.preceded_eq _ p i ∙ rw (nom.peek_ok _ i rest bs seen) (r.at rest);
  }

pub header-Reads :
    (nom : Nom) (t id expiration size cs : ℕ)
    → t < 256
    → id < 2 ^ 32
    → expiration < 2 ^ 64
    → size < 65536
    → cs < 256
    → Reads
        (header nom)
        (be_bytes 1 t <> be_bytes 4 id <> be_bytes 8 expiration <> be_bytes 2 size <> be_bytes 1 cs)
        (t, (id, (expiration, (size, cs))))
unfolding header
header-Reads nom t id expiration size cs ht hi he hs hc = pair-Reads nom (be_u8-Reads nom t ht) (
    pair-Reads nom (be_u32-Reads nom id hi) (
      pair-Reads nom (i2p_date-Reads nom expiration he)
        (pair-Reads nom (be_u16-Reads nom size hs) (be_u8-Reads nom cs hc))))

unfoldable pub clove_list : {RI LS : Type 0} → Cloves RI LS → List (GarlicClove RI LS)
clove_list no_cloves = []
clove_list (clove di msg id expiration cert cs) =
    (di, (msg, (id, (expiration, cert)))) ∷ clove_list cs

cloves_of-list : {RI LS : Type 0} → (cs : Cloves RI LS) → cloves_of (clove_list cs) ≡ cs
unfolding cloves_of clove_list
cloves_of-list no_cloves = refl
cloves_of-list (clove di msg id expiration cert cs) = rw (cloves_of-list cs) refl

module _ (nom : Nom) (sizes : CurveSizes) (sha256 : Bytes → Bytes) {RI LS : Type 0}
    (entries : EntryParsers nom RI LS) (layout : EntryLayout RI LS) where
  entry_of-Reads :
      (ds_type : ℕ) (d : DatabaseStoreData RI LS)
      → ReadsEntries nom entries layout
      → IsEntry layout ds_type d
      → Reads (entry_of nom entries ds_type) (entry_bytes layout d) d
  unfolding entry_of entry_bytes IsEntry
  entry_of-Reads ds_type (ri r) re h = absurd h
  entry_of-Reads ds_type (ls l) re h = rw h.0 (map-Reads nom _ (re.reads_ls l h.1))

  pub database_store-Reads :
      (ds : DatabaseStore RI LS)
      → ReadsEntries nom entries layout
      → Has 32 ds.key
      → IsReplyPath ds.reply
      → IsEntry layout ds.ds_type ds.payload
      → ds.ds_type < 256
      → Reads
          (parse_database_store nom entries)
          (ds.key
            <> be_bytes 1 ds.ds_type
            <> reply_path_bytes ds.reply
            <> entry_bytes layout ds.payload)
          (database_store ds)
  unfolding parse_database_store database_store_of
  database_store-Reads ds re k r e t = Reads-bytes (simp append_assoc) (
      Reads-bind (database_store_of nom entries)
        (pair-Reads nom (hash-Reads nom ds.key k) (be_u8-Reads nom ds.ds_type t))
        (Reads-bind _ (reply_path-Reads nom ds.reply r)
          (Reads-then _ (entry_of-Reads ds.ds_type ds.payload re e) (Reads-returns _))))

  message_of-Reads :
      (payload : ℕ → Parser nom.Err Bytes (MessagePayload RI LS)) (t id expiration : ℕ) (bs : Bytes)
      (p : MessagePayload RI LS)
      → Reads (payload t) bs p
      → Reads
          (message_of nom sizes sha256 payload
            (t, (id, (expiration, (length bs, checksum sha256 bs)))))
          bs
          (message id expiration p)
  unfolding message_of
  message_of-Reads payload t id expiration bs p r =
      map-Reads nom _
        (checked-Reads nom (payload t) _ bs p ((==_iff (checksum sha256 bs) _).1 refl) r)

  pub IsEntry-lt :
      (ds_type : ℕ) (d : DatabaseStoreData RI LS) → IsEntry layout ds_type d → ds_type < 256
  unfolding IsEntry
  IsEntry-lt ds_type (ri r) h = absurd h
  IsEntry-lt ds_type (ls l) h = omega (arith, h.0)

  pub garlic_clove-Reads :
      (inner : Parser nom.Err Bytes (Message RI LS)) (di : GarlicCloveDeliveryInstructions)
      (msg : Message RI LS) (id : ℕ) (expiration : I2PDate) (cert : Certificate) (bs : Bytes)
      → IsInstructions di
      → Reads inner bs msg
      → id < 2 ^ 32
      → expiration < 2 ^ 64
      → IsEncodable sizes cert
      → Reads
          (garlic_clove nom sizes sha256 inner)
          (instructions_bytes di
            <> bs
            <> be_bytes 4 id
            <> be_bytes 8 expiration
            <> certificate_bytes cert)
          (di, (msg, (id, (expiration, cert))))
  unfolding garlic_clove
  garlic_clove-Reads inner di msg id expiration cert bs hd r hi he hc = map-Reads nom _ (
      pair-Reads nom (garlic_clove_delivery_instructions-Reads nom di hd) (
        pair-Reads nom r (
          pair-Reads nom (be_u32-Reads nom id hi) (
            pair-Reads nom (i2p_date-Reads nom expiration he)
              (certificate-Reads nom sizes cert hc)))))

  pub parse_garlic-Reads :
      (inner : Parser nom.Err Bytes (Message RI LS)) (cs : Cloves RI LS) (cert : Certificate)
      (id : ℕ) (expiration : I2PDate) (bs : Bytes)
      → clove_count cs < 256
      → Reads (nom.count (garlic_clove nom sizes sha256 inner) (clove_count cs)) bs (clove_list cs)
      → IsEncodable sizes cert
      → id < 2 ^ 32
      → expiration < 2 ^ 64
      → Reads
          (parse_garlic nom sizes sha256 inner)
          (be_bytes 1 (clove_count cs)
            <> bs
            <> certificate_bytes cert
            <> be_bytes 4 id
            <> be_bytes 8 expiration)
          (garlic cs cert id expiration)
  unfolding parse_garlic
  parse_garlic-Reads inner cs cert id expiration bs l r hc hi he =
      let counted =
        Reads-eq (nom.length_count_eq nom.be_u8 (garlic_clove nom sizes sha256 inner))
          (Reads-bind _ (be_u8-Reads nom (clove_count cs) l) r) in
      Reads-value (ap (λ c. garlic c cert id expiration) (cloves_of-list cs)) (
        Reads-bytes (simp append_assoc) (
          map-Reads nom _ (
            pair-Reads nom counted (
              pair-Reads nom (certificate-Reads nom sizes cert hc)
                (pair-Reads nom (be_u32-Reads nom id hi) (i2p_date-Reads nom expiration he))))))

  pub no_cloves-Reads :
      (inner : Parser nom.Err Bytes (Message RI LS))
      → Reads (nom.count (garlic_clove nom sizes sha256 inner) 0) [] []
  no_cloves-Reads inner = Reads-eq (nom.count_zero _) (Reads-returns [])

  pub more_cloves-Reads :
      (inner : Parser nom.Err Bytes (Message RI LS)) (n : ℕ) (c : GarlicClove RI LS)
      (cs : List (GarlicClove RI LS)) (bs more : Bytes)
      → Reads (garlic_clove nom sizes sha256 inner) bs c
      → Reads (nom.count (garlic_clove nom sizes sha256 inner) n) more cs
      → Reads (nom.count (garlic_clove nom sizes sha256 inner) (suc n)) (bs <> more) (c ∷ cs)
  more_cloves-Reads inner n c cs bs more r s =
      Reads-eq (nom.count_suc _ n) (Reads-bind _ r (Reads-then _ s (Reads-returns (c ∷ cs))))

  pub framed_message-Reads :
      (payload : ℕ → Parser nom.Err Bytes (MessagePayload RI LS)) (id expiration : ℕ)
      (p : MessagePayload RI LS) (bs : Bytes)
      → ((x : Bytes) → checksum sha256 x < 256)
      → id < 2 ^ 32
      → expiration < 2 ^ 64
      → length bs < 65536
      → Reads (payload (message_type p)) bs p
      → Reads
          (header nom >>> message_of nom sizes sha256 payload)
          (be_bytes 1 (message_type p)
            <> be_bytes 4 id
            <> be_bytes 8 expiration
            <> framed_bytes sha256 layout bs)
          (message id expiration p)
  unfolding framed_bytes
  framed_message-Reads payload id expiration p bs small hi he hl r =
      Reads-bytes (simp append_assoc) (
        Reads-bind (message_of nom sizes sha256 payload)
          (header-Reads nom (message_type p) id expiration (length bs) (checksum sha256 bs)
            (message_type-lt p) hi he hl (small bs))
          (message_of-Reads payload (message_type p) id expiration bs p r))
