-- ===== src/I2np/Framing.antt =====
-- The framing of I2NP messages in src/i2np/frame.rs: headers, the match on the message's type, and
-- garlic, whose cloves hold messages. A parser of messages recurses as deep as messages are nested:
-- the fuel is that depth, and running out of it is a panic, as on a full stack.
pub mod Layout
pub mod Read
pub mod Nested
pub mod Fill
pub mod Write
pub mod RoundTrip
pub mod Refusal
pub mod Unwritten
mod Tests
use ire.Prelude.{
  ℕ, zero, suc, ◌+◌, ◌-◌, ◌%◌, Bool, true, false, ◌&&◌, List, [], ◌∷◌, Bytes, length, take, drop,
  leb, ◌==◌, if◌then◌else◌, err,
}
use ire.Crypto.{CurveSizes}
use ire.Data.{I2PDate, Certificate}
use ire.Data.Frame.{
  certificate, i2p_date, short_expiry, gen_certificate, gen_i2p_date, gen_short_expiry,
}
use ire.I2np.{
  GarlicCloveDeliveryInstructions, Message, message, MessagePayload, database_store,
  database_lookup, database_search_reply, delivery_status, garlic, tunnel_data, tunnel_gateway,
  plain_data, tunnel_build, tunnel_build_reply, variable_tunnel_build, variable_tunnel_build_reply,
  Cloves, no_cloves, clove,
}
use ire.I2np.Frame.{EntryParsers, EntryGens}
use ire.I2np.Frame.Parse.{
  garlic_clove_delivery_instructions, parse_database_store, parse_database_lookup,
  parse_database_search_reply, parse_delivery_status, parse_tunnel_data, parse_tunnel_gateway,
  parse_data, parse_tunnel_build, parse_tunnel_build_reply, parse_variable_tunnel_build,
  parse_variable_tunnel_build_reply,
}
use ire.I2np.Frame.Generate.{
  gen_database_store, gen_database_lookup, gen_database_search_reply, gen_delivery_status,
  gen_garlic_clove_delivery_instructions, gen_tunnel_data, gen_tunnel_gateway, gen_data,
  gen_tunnel_build, gen_variable_tunnel_build,
}
use ire.Wire.{Parser, Gen, ◌>>>◌, returns, panics, panic}
use ire.Wire.Nom.{Nom}
use ire.Wire.Cookie.{Cookie}

-- `Sha256::digest(buf)[0]`; `sha256` is that of the crate sha2, whose digests are not empty.
unfoldable pub checksum : (Bytes → Bytes) → Bytes → ℕ
checksum sha256 buf = elim (sha256 buf) [ [] ↦ 0 | b ∷ bs ↦ b ]

-- `GarlicClove`, as the parser makes it.
abbrev pub GarlicClove : Type 0 → Type 0 → Type 0
GarlicClove RI LS =
    GarlicCloveDeliveryInstructions × (Message RI LS × (ℕ × (I2PDate × Certificate)))

unfoldable pub cloves_of : {RI LS : Type 0} → List (GarlicClove RI LS) → Cloves RI LS
cloves_of [] = no_cloves
cloves_of ((di, (msg, (id, (expiration, cert)))) ∷ cs) =
    clove di msg id expiration cert (cloves_of cs)

unfoldable pub clove_count : {RI LS : Type 0} → Cloves RI LS → ℕ
clove_count no_cloves = 0
clove_count (clove di msg id expiration cert cs) = suc (clove_count cs)

module _ (nom : Nom) where
  open nom use {Err, be_u8, be_u16, be_u32, pair}

  unfoldable pub header : Parser Err Bytes (ℕ × (ℕ × (I2PDate × (ℕ × ℕ))))
  header = pair be_u8 (pair be_u32 (pair (i2p_date nom) (pair be_u16 be_u8)))

  unfoldable pub ntcp2_header : Parser Err Bytes (ℕ × (ℕ × I2PDate))
  ntcp2_header = pair be_u8 (pair be_u32 (short_expiry nom))

module _ (nom : Nom) (sizes : CurveSizes) (sha256 : Bytes → Bytes) {RI LS : Type 0} where
  open nom use {Err, take, be_u8, be_u32, map, verify, peek, pair, preceded, length_count}

  -- `inner` is `message`.
  unfoldable pub garlic_clove :
      Parser Err Bytes (Message RI LS) → Parser Err Bytes (GarlicClove RI LS)
  garlic_clove inner =
      map
        (pair (garlic_clove_delivery_instructions nom)
          (pair inner (pair be_u32 (pair (i2p_date nom) (certificate nom sizes)))))
        (λ c. c)

  unfoldable pub parse_garlic :
      Parser Err Bytes (Message RI LS) → Parser Err Bytes (MessagePayload RI LS)
  parse_garlic inner =
      map
        (pair (length_count be_u8 (garlic_clove inner))
          (pair (certificate nom sizes) (pair be_u32 (i2p_date nom))))
        (λ g. garlic (cloves_of g.0) g.1.0 g.1.1.0 g.1.1.1)

  -- The match on the type; another type is `unimplemented!()`.
  unfoldable pub parse_payload :
      EntryParsers nom RI LS
      → Parser Err Bytes (Message RI LS)
      → ℕ
      → Parser Err Bytes (MessagePayload RI LS)
  parse_payload entries inner msg_type =
      if msg_type == 1
      then parse_database_store nom entries
      else if msg_type == 2
      then parse_database_lookup nom
      else if msg_type == 3
      then parse_database_search_reply nom
      else if msg_type == 10
      then parse_delivery_status nom
      else if msg_type == 11
      then parse_garlic inner
      else if msg_type == 18
      then parse_tunnel_data nom
      else if msg_type == 19
      then parse_tunnel_gateway nom
      else if msg_type == 20
      then parse_data nom
      else if msg_type == 21
      then parse_tunnel_build nom
      else if msg_type == 22
      then parse_tunnel_build_reply nom
      else if msg_type == 23
      then parse_variable_tunnel_build nom
      else if msg_type == 24
      then parse_variable_tunnel_build_reply nom
      else panics

  -- What follows the header.
  unfoldable pub message_of :
      (ℕ → Parser Err Bytes (MessagePayload RI LS))
      → ℕ × (ℕ × (I2PDate × (ℕ × ℕ)))
      → Parser Err Bytes (Message RI LS)
  message_of payload (msg_type, (id, (expiration, (size, cs)))) =
      map
        (preceded (peek (verify (take size) (λ buf. checksum sha256 buf == cs))) (payload msg_type))
        (λ p. message id expiration p)

  unfoldable pub parse_message : EntryParsers nom RI LS → ℕ → Parser Err Bytes (Message RI LS)
  parse_message entries zero = panics
  parse_message entries (suc depth) =
      header nom >>> message_of (parse_payload entries (parse_message entries depth))

  unfoldable pub ntcp2_message_of :
      (ℕ → Parser Err Bytes (MessagePayload RI LS))
      → ℕ × (ℕ × I2PDate)
      → Parser Err Bytes (Message RI LS)
  ntcp2_message_of payload (msg_type, (id, expiration)) =
      payload msg_type >>> λ p. returns (message id expiration p)

  unfoldable pub ntcp2_message : EntryParsers nom RI LS → ℕ → Parser Err Bytes (Message RI LS)
  ntcp2_message entries depth =
      ntcp2_header nom >>> ntcp2_message_of (parse_payload entries (parse_message entries depth))

-- The match of `gen_message_type`.
unfoldable pub message_type : {RI LS : Type 0} → MessagePayload RI LS → ℕ
message_type (database_store ds) = 1
message_type (database_lookup dl) = 2
message_type (database_search_reply dsr) = 3
message_type (delivery_status ds) = 10
message_type (garlic cs cert id e) = 11
message_type (tunnel_data td) = 18
message_type (tunnel_gateway tg) = 19
message_type (plain_data d) = 20
message_type (tunnel_build tb) = 21
message_type (tunnel_build_reply tb) = 22
message_type (variable_tunnel_build tb) = 23
message_type (variable_tunnel_build_reply tb) = 24

module _ (cf : Cookie) (sha256 : Bytes → Bytes) where
  open cf use {GenError, be_u8, be_u16, be_u32, do_gen, label, skip, at_offset}

  -- `&input.0[start..end]`, whose bounds are checked.
  unfoldable pub gen_checksum : ℕ → ℕ → Gen GenError
  gen_checksum start finish (buf, i) =
      if leb start finish && leb finish (length buf)
      then be_u8 (checksum sha256 (take (finish - start) (drop start buf))) (buf, i)
      else err panic

  -- The message's generator from `end:` on, then from `start:`, `cs:` and `size:` on.
  unfoldable pub fill_header : ℕ → ℕ → ℕ → Gen GenError
  fill_header size cs start = label (λ finish.
      do_gen
        (at_offset size (be_u16 (finish - start)) ∷ at_offset cs (gen_checksum start finish) ∷ []))

  unfoldable pub payload_then_header : Gen GenError → ℕ → ℕ → Gen GenError
  payload_then_header payload size cs =
      label (λ start. do_gen (payload ∷ fill_header size cs start ∷ []))

  unfoldable pub framed : Gen GenError → Gen GenError
  framed payload = label (λ size.
      do_gen
        (skip 2 ∷ label (λ cs. do_gen (skip 1 ∷ payload_then_header payload size cs ∷ [])) ∷ []))

module _ (cf : Cookie) (sha256 : Bytes → Bytes) {RI LS : Type 0}
    (entries : EntryGens cf RI LS) where
  open cf use {GenError, be_u8, be_u16, be_u32, do_gen, many}

  unfoldable mutual
    pub gen_message : Message RI LS → Gen GenError
    gen_message (message id expiration payload) = do_gen (
        be_u8 (message_type payload)
        ∷ be_u32 id
        ∷ gen_i2p_date cf expiration
        ∷ framed cf sha256 (gen_payload payload)
        ∷ [])

    pub gen_payload : MessagePayload RI LS → Gen GenError
    gen_payload (database_store ds) = gen_database_store cf entries ds
    gen_payload (database_lookup dl) = gen_database_lookup cf dl
    gen_payload (database_search_reply dsr) = gen_database_search_reply cf dsr
    gen_payload (delivery_status ds) = gen_delivery_status cf ds
    gen_payload (garlic cs cert msg_id expiration) = do_gen (
        be_u8 (clove_count cs % 256)
        ∷ many (gen_cloves cs) (λ g. g)
        ∷ gen_certificate cf cert
        ∷ be_u32 msg_id
        ∷ gen_i2p_date cf expiration
        ∷ [])
    gen_payload (tunnel_data td) = gen_tunnel_data cf td
    gen_payload (tunnel_gateway tg) = gen_tunnel_gateway cf tg
    gen_payload (plain_data d) = gen_data cf d
    gen_payload (tunnel_build tb) = gen_tunnel_build cf tb
    gen_payload (tunnel_build_reply tb) = gen_tunnel_build cf tb
    gen_payload (variable_tunnel_build tb) = gen_variable_tunnel_build cf tb
    gen_payload (variable_tunnel_build_reply tb) = gen_variable_tunnel_build cf tb

    -- `gen_garlic_clove` of each clove.
    pub gen_cloves : Cloves RI LS → List (Gen GenError)
    gen_cloves no_cloves = []
    gen_cloves (clove di msg id expiration cert cs) =
        do_gen (
          gen_garlic_clove_delivery_instructions cf di
          ∷ gen_message msg
          ∷ be_u32 id
          ∷ gen_i2p_date cf expiration
          ∷ gen_certificate cf cert
          ∷ [])
        ∷ gen_cloves cs

  unfoldable pub gen_ntcp2_message : Message RI LS → Gen GenError
  gen_ntcp2_message (message id expiration payload) = do_gen (
      be_u8 (message_type payload)
      ∷ be_u32 id
      ∷ gen_short_expiry cf expiration
      ∷ gen_payload payload
      ∷ [])
