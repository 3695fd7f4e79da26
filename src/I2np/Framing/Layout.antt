-- ===== src/I2np/Framing/Layout.antt =====
-- The layout of messages, and the messages that it can hold.
use Prim.Native.Nat.{◌^◌, max}
use ire.Prelude.{ℕ, suc, ◌<◌, ◌≡◌, [], Bytes, All, length}
use ire.Crypto.{CurveSizes}
use ire.Data.Frame.Encoding.{certificate_bytes, IsEncodable}
use ire.I2np.{
  DatabaseStoreData, ri, ls, Message, message, MessagePayload, database_store, database_lookup,
  database_search_reply, delivery_status, garlic, tunnel_data, tunnel_gateway, plain_data,
  tunnel_build, tunnel_build_reply, variable_tunnel_build, variable_tunnel_build_reply, Cloves,
  no_cloves, clove,
}
use ire.I2np.Frame.Layout.{
  Has, as_is, reply_path_bytes, IsReplyPath, database_lookup_bytes, IsDatabaseLookup,
  database_search_reply_bytes, IsDatabaseSearchReply, delivery_status_bytes, IsDeliveryStatus,
  instructions_bytes, IsInstructions, tunnel_data_bytes, IsTunnelData, data_bytes,
  variable_build_bytes,
}
use ire.I2np.Framing.{checksum, message_type, clove_count}
use ire.Wire.{◌<>◌, be_bytes}
use ire.Wire.Reads.{each}

-- How lease sets are laid out, and which have a layout: a signed one, with few enough leases.
pub record EntryLayout (RI LS : Type 0) : Type 1 where
  pub fits : LS → Type 0
  pub ls_bytes : LS → Bytes

unfoldable pub entry_bytes : {RI LS : Type 0} → EntryLayout RI LS → DatabaseStoreData RI LS → Bytes
entry_bytes l (ri r) = []
entry_bytes l (ls s) = l.ls_bytes s

-- The entry is a lease set that fits, and the type byte agrees. A RouterInfo has no layout here.
unfoldable pub IsEntry : {RI LS : Type 0} → EntryLayout RI LS → ℕ → DatabaseStoreData RI LS → Type 0
IsEntry l ds_type (ri r) = ⊥
IsEntry l ds_type (ls s) = (ds_type ≡ 1) × l.fits s

module _ (sha256 : Bytes → Bytes) {RI LS : Type 0} (layout : EntryLayout RI LS) where
  -- The payload's length, its checksum, and the payload.
  unfoldable pub framed_bytes : Bytes → Bytes
  framed_bytes bs = be_bytes 2 (length bs) <> be_bytes 1 (checksum sha256 bs) <> bs

  unfoldable mutual
    pub message_bytes : Message RI LS → Bytes
    message_bytes (message id expiration payload) =
        be_bytes 1 (message_type payload)
        <> be_bytes 4 id
        <> be_bytes 8 expiration
        <> framed_bytes (payload_bytes payload)

    pub payload_bytes : MessagePayload RI LS → Bytes
    payload_bytes (database_store ds) =
        ds.key
        <> be_bytes 1 ds.ds_type
        <> reply_path_bytes ds.reply
        <> entry_bytes layout ds.payload
    payload_bytes (database_lookup dl) = database_lookup_bytes dl
    payload_bytes (database_search_reply dsr) = database_search_reply_bytes dsr
    payload_bytes (delivery_status ds) = delivery_status_bytes ds
    payload_bytes (garlic cs cert id expiration) =
        be_bytes 1 (clove_count cs)
        <> cloves_bytes cs
        <> certificate_bytes cert
        <> be_bytes 4 id
        <> be_bytes 8 expiration
    payload_bytes (tunnel_data td) = tunnel_data_bytes td
    payload_bytes (tunnel_gateway tg) = be_bytes 4 tg.tid <> tg.body
    payload_bytes (plain_data d) = data_bytes d
    payload_bytes (tunnel_build tb) = each as_is tb
    payload_bytes (tunnel_build_reply tb) = each as_is tb
    payload_bytes (variable_tunnel_build tb) = variable_build_bytes tb
    payload_bytes (variable_tunnel_build_reply tb) = variable_build_bytes tb

    pub cloves_bytes : Cloves RI LS → Bytes
    cloves_bytes no_cloves = []
    cloves_bytes (clove di msg id expiration cert cs) =
        (instructions_bytes di
          <> message_bytes msg
          <> be_bytes 4 id
          <> be_bytes 8 expiration
          <> certificate_bytes cert)
        <> cloves_bytes cs

-- How deep garlic is nested.
unfoldable mutual
  pub message_depth : {RI LS : Type 0} → Message RI LS → ℕ
  message_depth (message id expiration payload) = suc (payload_depth payload)

  pub payload_depth : {RI LS : Type 0} → MessagePayload RI LS → ℕ
  payload_depth (garlic cs cert id expiration) = cloves_depth cs
  payload_depth (database_store ds) = 0
  payload_depth (database_lookup dl) = 0
  payload_depth (database_search_reply dsr) = 0
  payload_depth (delivery_status ds) = 0
  payload_depth (tunnel_data td) = 0
  payload_depth (tunnel_gateway tg) = 0
  payload_depth (plain_data d) = 0
  payload_depth (tunnel_build tb) = 0
  payload_depth (tunnel_build_reply tb) = 0
  payload_depth (variable_tunnel_build tb) = 0
  payload_depth (variable_tunnel_build_reply tb) = 0

  pub cloves_depth : {RI LS : Type 0} → Cloves RI LS → ℕ
  cloves_depth no_cloves = 0
  cloves_depth (clove di msg id expiration cert cs) = max (message_depth msg) (cloves_depth cs)

module _ (sizes : CurveSizes) (sha256 : Bytes → Bytes) {RI LS : Type 0}
    (layout : EntryLayout RI LS) where
  -- Numbers and counts fit their fields and arrays have their lengths. Two kinds of payload are left
  -- out: a store of a RouterInfo, whose generator has a buffer of no bytes, and a tunnel gateway, whose
  -- generator leaves out the length that its parser reads.
  unfoldable mutual
    pub IsMessage : Message RI LS → Type 0
    IsMessage (message id expiration payload) =
        (id < 2 ^ 32)
        × (expiration < 2 ^ 64)
        × (length (payload_bytes sha256 layout payload) < 65536)
        × IsPayload payload

    pub IsPayload : MessagePayload RI LS → Type 0
    IsPayload (database_store ds) =
        Has 32 ds.key × IsReplyPath ds.reply × IsEntry layout ds.ds_type ds.payload
    IsPayload (database_lookup dl) = IsDatabaseLookup dl
    IsPayload (database_search_reply dsr) = IsDatabaseSearchReply dsr
    IsPayload (delivery_status ds) = IsDeliveryStatus ds
    IsPayload (garlic cs cert id expiration) =
        (clove_count cs < 256)
        × AreCloves cs
        × IsEncodable sizes cert
        × (id < 2 ^ 32)
        × (expiration < 2 ^ 64)
    IsPayload (tunnel_data td) = IsTunnelData td
    IsPayload (tunnel_gateway tg) = ⊥
    IsPayload (plain_data d) = length d < 2 ^ 32
    IsPayload (tunnel_build tb) = (length tb ≡ 8) × All (Has 528) tb
    IsPayload (tunnel_build_reply tb) = (length tb ≡ 8) × All (Has 528) tb
    IsPayload (variable_tunnel_build tb) = (length tb < 256) × All (Has 528) tb
    IsPayload (variable_tunnel_build_reply tb) = (length tb < 256) × All (Has 528) tb

    pub AreCloves : Cloves RI LS → Type 0
    AreCloves no_cloves = Unit
    AreCloves (clove di msg id expiration cert cs) =
        IsInstructions di
        × IsMessage msg
        × (id < 2 ^ 32)
        × (expiration < 2 ^ 64)
        × IsEncodable sizes cert
        × AreCloves cs
