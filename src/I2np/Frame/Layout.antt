-- ===== src/I2np/Frame/Layout.antt =====
-- The layout of the payloads, written down on its own, and the values that it can hold.
use Prim.Native.Nat.{◌^◌}
use ire.Prelude.{
  ℕ, ◌+◌, ◌*◌, ◌<◌, ◌≡◌, Bool, true, false, not, Option, none, some, List, [], Bytes, All, length,
  ◌==◌,
}
use ire.Data.{SessionKey, SessionTag}
use ire.I2np.{
  ReplyPath, DatabaseLookupType, DatabaseLookup, DatabaseSearchReply, DeliveryStatus,
  GarlicCloveDeliveryInstructions, TunnelData,
}
use ire.I2np.Frame.Generate.{is_some, lookup_type_bits}
use ire.Wire.{◌<>◌, be_bytes}
use ire.Wire.Reads.{each}

abbrev pub optional : {A : Type 0} → (A → Bytes) → Option A → Bytes
optional f none = []
optional f (some x) = f x

-- `P` holds of the value, if there is one.
abbrev pub Within {ℓ} : {A : Type 0} → (A → Type ℓ) → Option A → Type ℓ
Within P none = Unit
Within P (some x) = P x

abbrev pub Has : ℕ → Bytes → Type 0
Has n bs = length bs ≡ n

abbrev pub bit : Bool → ℕ
bit true = 1
bit false = 0

abbrev pub as_is : Bytes → Bytes
as_is bs = bs

unfoldable pub reply_path_bytes : Option ReplyPath → Bytes
reply_path_bytes none = be_bytes 4 0
reply_path_bytes (some p) = be_bytes 4 p.token <> be_bytes 4 p.tid <> p.gateway

-- A token of 0 says that there is no path.
unfoldable pub IsReplyPath : Option ReplyPath → Type 0
IsReplyPath none = Unit
IsReplyPath (some p) = (0 < p.token) × (p.token < 2 ^ 32) × (p.tid < 2 ^ 32) × Has 32 p.gateway

-- The layouts of one byte: four unused bits, the lookup's type, encryption, delivery; and
-- encryption, the delivery's type, delay, four unused bits.
abbrev pub lookup_byte : Bool → Bool → DatabaseLookupType → ℕ
lookup_byte delivery encryption t = 4 * lookup_type_bits t + 2 * bit encryption + bit delivery

abbrev pub clove_byte : Bool → ℕ → Bool → ℕ
clove_byte encrypted delivery_type delay_set =
    128 * bit encrypted + 32 * delivery_type + 16 * bit delay_set

unfoldable pub reply_enc_bytes : SessionKey × List SessionTag → Bytes
reply_enc_bytes (k, tags) = k <> be_bytes 1 (length tags) <> each as_is tags

unfoldable pub database_lookup_bytes : DatabaseLookup → Bytes
database_lookup_bytes dl =
    dl.key
    <> dl.from
    <> be_bytes 1 (lookup_byte (is_some dl.reply_tid) (is_some dl.reply_enc) dl.lookup_type)
    <> optional (be_bytes 4) dl.reply_tid
    <> be_bytes 2 (length dl.excluded_peers)
    <> each as_is dl.excluded_peers
    <> optional reply_enc_bytes dl.reply_enc

unfoldable pub IsReplyEnc : SessionKey × List SessionTag → Type 0
IsReplyEnc (k, tags) = Has 32 k × (length tags < 256) × All (Has 32) tags

pub record IsDatabaseLookup (dl : DatabaseLookup) : Type 0 where
  pub key : Has 32 dl.key
  pub from : Has 32 dl.from
  pub reply_tid : Within (λ n. n < 2 ^ 32) dl.reply_tid
  pub few_peers : length dl.excluded_peers < 65536
  pub peers : All (Has 32) dl.excluded_peers
  pub reply_enc : Within IsReplyEnc dl.reply_enc

unfoldable pub database_search_reply_bytes : DatabaseSearchReply → Bytes
database_search_reply_bytes dsr =
    dsr.key <> be_bytes 1 (length dsr.peers) <> each as_is dsr.peers <> dsr.from

pub record IsDatabaseSearchReply (dsr : DatabaseSearchReply) : Type 0 where
  pub key : Has 32 dsr.key
  pub few_peers : length dsr.peers < 256
  pub peers : All (Has 32) dsr.peers
  pub from : Has 32 dsr.from

unfoldable pub delivery_status_bytes : DeliveryStatus → Bytes
delivery_status_bytes ds = be_bytes 4 ds.msg_id <> be_bytes 8 ds.time_stamp

abbrev pub IsDeliveryStatus : DeliveryStatus → Type 0
IsDeliveryStatus ds = (ds.msg_id < 2 ^ 32) × (ds.time_stamp < 2 ^ 64)

unfoldable pub instructions_bytes : GarlicCloveDeliveryInstructions → Bytes
instructions_bytes gcdi =
    be_bytes 1 (clove_byte gcdi.encrypted gcdi.delivery_type gcdi.delay_set)
    <> optional as_is gcdi.session_key
    <> optional as_is gcdi.to_hash
    <> optional (be_bytes 4) gcdi.tid
    <> optional (be_bytes 4) gcdi.delay

-- Each field is there exactly when the flags say so.
pub record IsInstructions (gcdi : GarlicCloveDeliveryInstructions) : Type 0 where
  pub two_bits : gcdi.delivery_type < 4
  pub with_key : is_some gcdi.session_key ≡ gcdi.encrypted
  pub with_hash : is_some gcdi.to_hash ≡ not (gcdi.delivery_type == 0)
  pub with_tid : is_some gcdi.tid ≡ (gcdi.delivery_type == 3)
  pub with_delay : is_some gcdi.delay ≡ gcdi.delay_set
  pub session_key : Within (Has 32) gcdi.session_key
  pub to_hash : Within (Has 32) gcdi.to_hash
  pub tid : Within (λ n. n < 2 ^ 32) gcdi.tid
  pub delay : Within (λ n. n < 2 ^ 32) gcdi.delay

unfoldable pub tunnel_data_bytes : TunnelData → Bytes
tunnel_data_bytes td = be_bytes 4 td.tid <> td.body

abbrev pub IsTunnelData : TunnelData → Type 0
IsTunnelData td = (td.tid < 2 ^ 32) × Has 1024 td.body

unfoldable pub data_bytes : Bytes → Bytes
data_bytes d = be_bytes 4 (length d) <> d

unfoldable pub variable_build_bytes : List Bytes → Bytes
variable_build_bytes tb = be_bytes 1 (length tb) <> each as_is tb
