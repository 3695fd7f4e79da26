-- ===== src/I2np/Frame/Parse.antt =====
-- The parsers of the payloads of src/i2np/frame.rs that hold no other message.
use ire.Prelude.{ℕ, Bool, not, Option, Bytes, ltb, ◌==◌, if◌then◌else◌}
use ire.Crypto.Frame.{session_key}
use ire.Data.{Hash}
use ire.Data.Frame.{hash, tunnel_id, i2p_date, session_tag}
use ire.I2np.{
  ReplyPath, DatabaseStoreData, ri, ls, DatabaseLookupType, any, lease_set, router_info,
  exploratory, GarlicCloveDeliveryInstructions, MessagePayload, database_store, database_lookup,
  database_search_reply, delivery_status, tunnel_data, tunnel_gateway, plain_data, tunnel_build,
  tunnel_build_reply, variable_tunnel_build, variable_tunnel_build_reply,
}
use ire.I2np.Frame.{EntryParsers}
use ire.Wire.{Parser, ◌>>>◌, returns, panics}
use ire.Wire.Nom.{Nom}

pub record DatabaseLookupFlags : Type 0 where
  pub delivery : Bool
  pub encryption : Bool
  pub lookup_type : DatabaseLookupType

-- A flag bit is tested with `> 0`.
unfoldable pub is_set : ℕ → Bool
is_set n = ltb 0 n

-- The match on two bits; a third bit is `unreachable!()`.
unfoldable pub lookup_type_of : {E : Type 0} → ℕ → Parser E Bytes DatabaseLookupType
lookup_type_of t =
    if t == 0
    then returns any
    else if t == 1
    then returns lease_set
    else if t == 2
    then returns router_info
    else if t == 3
    then returns exploratory
    else panics

module _ (nom : Nom) where
  open nom use {
    Err, take, be_u8, be_u16, be_u32, take_bits, bits, map, cond, pair, preceded, terminated,
  }
  open nom use {count, length_count, length_data}

  unfoldable pub reply_path_of : ℕ → Parser Err Bytes (Option ReplyPath)
  reply_path_of reply_tok = cond (ltb 0 reply_tok) (
      map (pair (tunnel_id nom) (hash nom))
        (λ p. record { token = reply_tok; tid = p.0; gateway = p.1 }))

  unfoldable pub reply_path : Parser Err Bytes (Option ReplyPath)
  reply_path = be_u32 >>> reply_path_of

  -- The closure of the `map`, which may panic.
  unfoldable pub lookup_flags_of : ℕ × (ℕ × ℕ) → Parser Err Bytes DatabaseLookupFlags
  lookup_flags_of (t, (encryption, delivery)) = lookup_type_of t >>> λ lookup_type.
      returns (record {
        delivery = is_set delivery;
        encryption = is_set encryption;
        lookup_type = lookup_type;
      })

  unfoldable pub database_lookup_flags : Parser Err Bytes DatabaseLookupFlags
  database_lookup_flags =
      bits (preceded (take_bits 4) (pair (take_bits 2) (pair (take_bits 1) (take_bits 1))))
      >>> lookup_flags_of

  -- The fields of the instructions that the flags announce.
  unfoldable pub instructions_with :
      Bool → ℕ → Bool → Parser Err Bytes GarlicCloveDeliveryInstructions
  instructions_with encrypted delivery_type delay_set =
      map
        (pair (cond encrypted (session_key nom)) (
          pair (cond (not (delivery_type == 0)) (hash nom))
            (pair (cond (delivery_type == 3) (tunnel_id nom)) (cond delay_set be_u32))))
        (λ f. record {
          encrypted = encrypted;
          delivery_type = delivery_type;
          delay_set = delay_set;
          session_key = f.0;
          to_hash = f.1.0;
          tid = f.1.1.0;
          delay = f.1.1.1;
        })

  unfoldable pub instructions_of : ℕ × (ℕ × ℕ) → Parser Err Bytes GarlicCloveDeliveryInstructions
  instructions_of (e, (delivery_type, d)) = instructions_with (is_set e) delivery_type (is_set d)

  unfoldable pub garlic_clove_delivery_instructions :
      Parser Err Bytes GarlicCloveDeliveryInstructions
  garlic_clove_delivery_instructions =
      bits (terminated (pair (take_bits 1) (pair (take_bits 2) (take_bits 1))) (take_bits 4))
      >>> instructions_of

module _ (nom : Nom) {RI LS : Type 0} where
  open nom use {Err, take, be_u8, be_u16, be_u32, map, cond, pair, count, length_count, length_data}

  -- The match on `ds_type`; another type is `unimplemented!()`.
  unfoldable pub entry_of : EntryParsers nom RI LS → ℕ → Parser Err Bytes (DatabaseStoreData RI LS)
  entry_of entries ds_type =
      if ds_type == 0
      then map entries.compressed_ri (λ r. ri r)
      else if ds_type == 1
      then map entries.lease_set (λ l. ls l)
      else panics

  unfoldable pub database_store_of :
      EntryParsers nom RI LS → Hash × ℕ → Parser Err Bytes (MessagePayload RI LS)
  database_store_of entries (key, ds_type) = reply_path nom >>> λ reply.
      entry_of entries ds_type >>> λ d.
      returns (database_store (record { key = key; ds_type = ds_type; reply = reply; payload = d }))

  unfoldable pub parse_database_store :
      EntryParsers nom RI LS → Parser Err Bytes (MessagePayload RI LS)
  parse_database_store entries = pair (hash nom) be_u8 >>> database_store_of entries

  unfoldable pub database_lookup_of :
      Hash × (Hash × DatabaseLookupFlags) → Parser Err Bytes (MessagePayload RI LS)
  database_lookup_of (key, (from, flags)) =
      map
        (pair (cond flags.delivery (tunnel_id nom)) (
          pair (length_count be_u16 (hash nom)) (
            cond flags.encryption (pair (session_key nom) (length_count be_u8 (session_tag nom))))))
        (λ f. database_lookup (record {
          key = key;
          from = from;
          lookup_type = flags.lookup_type;
          reply_tid = f.0;
          excluded_peers = f.1.0;
          reply_enc = f.1.1;
        }))

  unfoldable pub parse_database_lookup : Parser Err Bytes (MessagePayload RI LS)
  parse_database_lookup =
      pair (hash nom) (pair (hash nom) (database_lookup_flags nom)) >>> database_lookup_of

  unfoldable pub parse_database_search_reply : Parser Err Bytes (MessagePayload RI LS)
  parse_database_search_reply =
      map (pair (hash nom) (pair (length_count be_u8 (hash nom)) (hash nom)))
        (λ f. database_search_reply (record { key = f.0; peers = f.1.0; from = f.1.1 }))

  unfoldable pub parse_delivery_status : Parser Err Bytes (MessagePayload RI LS)
  parse_delivery_status =
      map (pair be_u32 (i2p_date nom))
        (λ f. delivery_status (record { msg_id = f.0; time_stamp = f.1 }))

  unfoldable pub parse_tunnel_data : Parser Err Bytes (MessagePayload RI LS)
  parse_tunnel_data =
      map (pair (tunnel_id nom) (take 1024)) (λ f. tunnel_data (record { tid = f.0; body = f.1 }))

  unfoldable pub parse_tunnel_gateway : Parser Err Bytes (MessagePayload RI LS)
  parse_tunnel_gateway =
      map (pair (tunnel_id nom) (length_data be_u16))
        (λ f. tunnel_gateway (record { tid = f.0; body = f.1 }))

  unfoldable pub parse_data : Parser Err Bytes (MessagePayload RI LS)
  parse_data = map (length_data be_u32) (λ d. plain_data d)

  unfoldable pub parse_tunnel_build : Parser Err Bytes (MessagePayload RI LS)
  parse_tunnel_build = count (take 528) 8 >>> λ r. returns (tunnel_build r)

  unfoldable pub parse_tunnel_build_reply : Parser Err Bytes (MessagePayload RI LS)
  parse_tunnel_build_reply = count (take 528) 8 >>> λ r. returns (tunnel_build_reply r)

  unfoldable pub parse_variable_tunnel_build : Parser Err Bytes (MessagePayload RI LS)
  parse_variable_tunnel_build =
      length_count be_u8 (take 528) >>> λ r. returns (variable_tunnel_build r)

  unfoldable pub parse_variable_tunnel_build_reply : Parser Err Bytes (MessagePayload RI LS)
  parse_variable_tunnel_build_reply =
      length_count be_u8 (take 528) >>> λ r. returns (variable_tunnel_build_reply r)
