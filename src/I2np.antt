-- ===== src/I2np.antt =====
-- The messages of src/i2np/mod.rs. RouterInfo and LeaseSet, which only some payloads carry, are
-- type parameters here.
pub mod Records
pub mod Frame
pub mod Framing
use ire.Prelude.{ℕ, Bool, Option, none, List, [], Bytes}
use ire.Data.{Hash, I2PDate, TunnelId, SessionKey, SessionTag, Certificate}

pub data ParticipantType : Type 0 where
  inbound_gateway intermediate outbound_endpoint : ParticipantType

pub record BuildRequestRecord : Type 0 where
  pub receive_tid : TunnelId
  pub our_ident : Hash
  pub next_tid : TunnelId
  pub next_ident : Hash
  pub layer_key : SessionKey
  pub iv_key : SessionKey
  pub reply_key : SessionKey
  pub reply_iv : Bytes
  pub hop_type : ParticipantType
  pub request_time : ℕ
  pub send_msg_id : ℕ

pub record ReplyPath : Type 0 where
  pub token : ℕ
  pub tid : TunnelId
  pub gateway : Hash

pub data DatabaseStoreData (RI LS : Type 0) : Type 0 where
  ri : RI → DatabaseStoreData RI LS
  ls : LS → DatabaseStoreData RI LS

pub record DatabaseStore (RI LS : Type 0) : Type 0 where
  pub key : Hash
  pub ds_type : ℕ
  pub reply : Option ReplyPath
  pub payload : DatabaseStoreData RI LS

pub data DatabaseLookupType : Type 0 where
  any lease_set router_info exploratory : DatabaseLookupType

pub record DatabaseLookup : Type 0 where
  pub key : Hash
  pub from : Hash
  pub lookup_type : DatabaseLookupType
  pub reply_tid : Option TunnelId
  pub excluded_peers : List Hash
  pub reply_enc : Option (SessionKey × List SessionTag)

pub record DatabaseSearchReply : Type 0 where
  pub key : Hash
  pub peers : List Hash
  pub from : Hash

pub record DeliveryStatus : Type 0 where
  pub msg_id : ℕ
  pub time_stamp : I2PDate

pub record GarlicCloveDeliveryInstructions : Type 0 where
  pub encrypted : Bool
  pub delivery_type : ℕ
  pub delay_set : Bool
  pub session_key : Option SessionKey
  pub to_hash : Option Hash
  pub tid : Option TunnelId
  pub delay : Option ℕ

pub record TunnelData : Type 0 where
  pub tid : TunnelId
  pub body : Bytes

pub record TunnelGateway : Type 0 where
  pub tid : TunnelId
  pub body : Bytes

-- A garlic clove holds a message: `Cloves` is the vector of cloves inside `Garlic`.
mutual
  pub data Message (RI LS : Type 0) : Type 0 where
    message : ℕ → I2PDate → MessagePayload RI LS → Message RI LS

  pub data MessagePayload (RI LS : Type 0) : Type 0 where
    database_store : DatabaseStore RI LS → MessagePayload RI LS
    database_lookup : DatabaseLookup → MessagePayload RI LS
    database_search_reply : DatabaseSearchReply → MessagePayload RI LS
    delivery_status : DeliveryStatus → MessagePayload RI LS
    garlic : Cloves RI LS → Certificate → ℕ → I2PDate → MessagePayload RI LS
    tunnel_data : TunnelData → MessagePayload RI LS
    tunnel_gateway : TunnelGateway → MessagePayload RI LS
    plain_data : Bytes → MessagePayload RI LS
    tunnel_build : List Bytes → MessagePayload RI LS
    tunnel_build_reply : List Bytes → MessagePayload RI LS
    variable_tunnel_build : List Bytes → MessagePayload RI LS
    variable_tunnel_build_reply : List Bytes → MessagePayload RI LS

  -- `Vec<GarlicClove>`: the delivery instructions, the message, the clove id, the expiration and
  -- the certificate of the first clove, and the others.
  pub data Cloves (RI LS : Type 0) : Type 0 where
    no_cloves : Cloves RI LS
    clove :
        GarlicCloveDeliveryInstructions
        → Message RI LS
        → ℕ
        → I2PDate
        → Certificate
        → Cloves RI LS
        → Cloves RI LS

abbrev pub payload : {RI LS : Type 0} → Message RI LS → MessagePayload RI LS
payload (message i e p) = p

-- `DatabaseStore::from_ri` and `from_ls`, where `hash` is that of the router or of the destination.
unfoldable pub from_ri :
    {RI LS : Type 0} → (RI → Hash) → RI → Option ReplyPath → DatabaseStore RI LS
from_ri hash r reply = record { key = hash r; ds_type = 0; reply = reply; payload = ri r }

unfoldable pub from_ls :
    {RI LS : Type 0} → (LS → Hash) → LS → Option ReplyPath → DatabaseStore RI LS
from_ls hash l reply = record { key = hash l; ds_type = 1; reply = reply; payload = ls l }

-- `DatabaseLookup::create_msg`, with the id and the expiration that `Message::from_payload` gives.
unfoldable pub create_msg :
    {RI LS : Type 0} → ℕ → I2PDate → Hash → Hash → DatabaseLookupType → Message RI LS
create_msg msg_id expiration key from lookup_type = message msg_id expiration (
    database_lookup (record {
      key = key;
      from = from;
      lookup_type = lookup_type;
      reply_tid = none;
      excluded_peers = [];
      reply_enc = none;
    }))
