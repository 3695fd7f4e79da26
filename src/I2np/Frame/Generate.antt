-- ===== src/I2np/Frame/Generate.antt =====
-- The generators of the payloads of src/i2np/frame.rs that hold no other message. A cast `as u8`
-- is `% 256`, and `unwrap` of nothing a panic.
use Prim.Native.Nat.{bit_or, bit_and}
use ire.Prelude.{
  ℕ, ◌*◌, ◌%◌, Bool, true, false, not, Option, none, some, List, [], ◌∷◌, Bytes, length, ◌==◌,
  if◌then◌else◌, ok, err, ◌>>=◌,
}
use ire.Crypto.Frame.{gen_session_key}
use ire.Data.{SessionKey, SessionTag}
use ire.Data.Frame.{gen_hash, gen_tunnel_id, gen_i2p_date, gen_session_tag}
use ire.I2np.{
  ReplyPath, DatabaseStoreData, ri, ls, DatabaseStore, DatabaseLookupType, any, lease_set,
  router_info, exploratory, DatabaseLookup, DatabaseSearchReply, DeliveryStatus,
  GarlicCloveDeliveryInstructions, TunnelData, TunnelGateway,
}
use ire.Data.Frame.RouterInfo.{gen_router_info}
use ire.I2np.Frame.{EntryGens}
use ire.I2np.Frame.Parse.{DatabaseLookupFlags}
use ire.Wire.{Gen, error, panic}
use ire.Wire.Cookie.{Cookie}

-- `x.as_ref().unwrap()` under a generator.
unfoldable pub unwrapped : {E A : Type 0} → (A → Gen E) → Option A → Gen E
unwrapped g none s = err panic
unwrapped g (some x) s = g x s

abbrev pub is_some : {A : Type 0} → Option A → Bool
is_some none = false
is_some (some x) = true

unfoldable pub lookup_type_bits : DatabaseLookupType → ℕ
lookup_type_bits any = 0
lookup_type_bits lease_set = 1
lookup_type_bits router_info = 2
lookup_type_bits exploratory = 3

unfoldable pub lookup_flags_byte : DatabaseLookupFlags → ℕ
lookup_flags_byte flags =
    let x = if flags.delivery then bit_or 0 1 else 0 in
    let y = if flags.encryption then bit_or x 2 else x in
    bit_or y (bit_and (lookup_type_bits flags.lookup_type * 4) 12)

-- `flags` of the delivery instructions, from the three fields that it reads.
unfoldable pub instructions_byte : Bool → ℕ → Bool → ℕ
instructions_byte encrypted delivery_type delay_set =
    let x = if encrypted then bit_or 0 128 else 0 in
    let y = bit_or x (bit_and (delivery_type * 32 % 256) 96) in if delay_set then bit_or y 16 else y

module _ (cf : Cookie) where
  open cf use {GenError, slice, be_u8, be_u16, be_u32, cond, many, do_gen}

  unfoldable pub gen_reply_path : Option ReplyPath → Gen GenError
  gen_reply_path (some path) =
      do_gen (be_u32 path.token ∷ gen_tunnel_id cf path.tid ∷ gen_hash cf path.gateway ∷ [])
  gen_reply_path none = be_u32 0

  unfoldable pub gen_database_lookup_flags : DatabaseLookupFlags → Gen GenError
  gen_database_lookup_flags flags = be_u8 (lookup_flags_byte flags)

  unfoldable pub gen_reply_enc : SessionKey × List SessionTag → Gen GenError
  gen_reply_enc (k, tags) =
      do_gen
        (gen_session_key cf k ∷ be_u8 (length tags % 256) ∷ many tags (gen_session_tag cf) ∷ [])

  unfoldable pub gen_database_lookup : DatabaseLookup → Gen GenError
  gen_database_lookup dl = do_gen (
      gen_hash cf dl.key
      ∷ gen_hash cf dl.from
      ∷ gen_database_lookup_flags (record {
        delivery = is_some dl.reply_tid;
        encryption = is_some dl.reply_enc;
        lookup_type = dl.lookup_type;
      })
      ∷ cond (is_some dl.reply_tid) (unwrapped (gen_tunnel_id cf) dl.reply_tid)
      ∷ be_u16 (length dl.excluded_peers % 65536)
      ∷ many dl.excluded_peers (gen_hash cf)
      ∷ cond (is_some dl.reply_enc) (unwrapped gen_reply_enc dl.reply_enc)
      ∷ [])

  unfoldable pub gen_database_search_reply : DatabaseSearchReply → Gen GenError
  gen_database_search_reply dsr = do_gen (
      gen_hash cf dsr.key
      ∷ be_u8 (length dsr.peers % 256)
      ∷ many dsr.peers (gen_hash cf)
      ∷ gen_hash cf dsr.from
      ∷ [])

  unfoldable pub gen_delivery_status : DeliveryStatus → Gen GenError
  gen_delivery_status ds = do_gen (be_u32 ds.msg_id ∷ gen_i2p_date cf ds.time_stamp ∷ [])

  unfoldable pub gen_garlic_clove_delivery_instructions :
      GarlicCloveDeliveryInstructions → Gen GenError
  gen_garlic_clove_delivery_instructions gcdi = do_gen (
      be_u8 (instructions_byte gcdi.encrypted gcdi.delivery_type gcdi.delay_set)
      ∷ cond gcdi.encrypted (unwrapped (gen_session_key cf) gcdi.session_key)
      ∷ cond (not (gcdi.delivery_type == 0)) (unwrapped (gen_hash cf) gcdi.to_hash)
      ∷ cond (gcdi.delivery_type == 3) (unwrapped (gen_tunnel_id cf) gcdi.tid)
      ∷ cond gcdi.delay_set (unwrapped be_u32 gcdi.delay)
      ∷ [])

  unfoldable pub gen_tunnel_data : TunnelData → Gen GenError
  gen_tunnel_data td = do_gen (gen_tunnel_id cf td.tid ∷ slice td.body ∷ [])

  unfoldable pub gen_tunnel_gateway : TunnelGateway → Gen GenError
  gen_tunnel_gateway tg = do_gen (gen_tunnel_id cf tg.tid ∷ slice tg.body ∷ [])

  unfoldable pub gen_data : Bytes → Gen GenError
  gen_data d = do_gen (be_u32 (length d) ∷ slice d ∷ [])

  -- `gen_slice!(tb[0]) >> ... >> gen_slice!(tb[7])`; the array has eight records.
  unfoldable pub gen_tunnel_build : List Bytes → Gen GenError
  gen_tunnel_build (a ∷ b ∷ c ∷ d ∷ e ∷ f ∷ g ∷ h ∷ []) =
      do_gen (slice a ∷ slice b ∷ slice c ∷ slice d ∷ slice e ∷ slice f ∷ slice g ∷ slice h ∷ [])
  gen_tunnel_build _ = λ s. err panic

  -- The loop over the records.
  unfoldable pub gen_records : List Bytes → Gen GenError
  gen_records [] x = ok x
  gen_records (record_bytes ∷ tb) x = slice record_bytes x >>= gen_records tb

  unfoldable pub gen_variable_tunnel_build : List Bytes → Gen GenError
  gen_variable_tunnel_build tb input = be_u8 (length tb % 256) input >>= gen_records tb

module _ (cf : Cookie) {RI LS : Type 0} (entries : EntryGens cf RI LS) where
  open cf use {GenError, custom_error, slice, be_u8, be_u16, do_gen}

  unfoldable pub gen_compressed : Option Bytes → Gen GenError
  gen_compressed none = λ input. err (error (custom_error 1))
  gen_compressed (some payload) = do_gen (be_u16 (length payload) ∷ slice payload ∷ [])

  -- The RouterInfo is generated into a Vec of no bytes.
  unfoldable pub gen_compressed_ri : RI → Gen GenError
  gen_compressed_ri r input =
      gen_router_info cf entries.router_info_parts r ([], 0) >>= λ generated.
      gen_compressed (entries.gz_encode generated.0) input

  unfoldable pub gen_database_store_data : DatabaseStoreData RI LS → Gen GenError
  gen_database_store_data (ri r) = gen_compressed_ri r
  gen_database_store_data (ls l) = entries.gen_lease_set l

  unfoldable pub gen_database_store : DatabaseStore RI LS → Gen GenError
  gen_database_store ds = do_gen (
      gen_hash cf ds.key
      ∷ be_u8 ds.ds_type
      ∷ gen_reply_path cf ds.reply
      ∷ gen_database_store_data ds.payload
      ∷ [])
