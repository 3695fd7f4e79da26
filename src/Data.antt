-- ===== src/Data.antt =====
-- The data types of src/data/mod.rs that the messages carry. A `[u8; n]` is a byte string; its
-- length is stated where a theorem needs it.
pub mod LeaseSet
pub mod Frame
use Prim.Native.Nat.{bit_xor}
use ire.Prelude.{ℕ, Bytes, [], ◌∷◌}
use ire.Crypto.{SigType, EncType}

-- `Hash([u8; 32])`
abbrev pub Hash : Type 0
Hash = Bytes

-- `I2PDate(u64)`: milliseconds since the Unix epoch.
abbrev pub I2PDate : Type 0
I2PDate = ℕ

-- `TunnelId(u32)`
abbrev pub TunnelId : Type 0
TunnelId = ℕ

-- `SessionKey([u8; 32])` of src/crypto/mod.rs
abbrev pub SessionKey : Type 0
SessionKey = Bytes

-- `SessionTag([u8; 32])`
abbrev pub SessionTag : Type 0
SessionTag = Bytes

pub record KeyCertificate : Type 0 where
  pub sig_type : SigType
  pub enc_type : EncType
  pub sig_data : Bytes
  pub enc_data : Bytes

pub data Certificate : Type 0 where
  null hidden : Certificate
  hash_cash signed multiple : Bytes → Certificate
  key : KeyCertificate → Certificate

-- `Certificate::code`, with the constants of src/constants.rs.
unfoldable pub certificate_code : Certificate → ℕ
certificate_code Certificate.null = 0
certificate_code (Certificate.hash_cash p) = 1
certificate_code Certificate.hidden = 2
certificate_code (Certificate.signed p) = 3
certificate_code (Certificate.multiple p) = 4
certificate_code (Certificate.key kc) = 5

-- `Hash::xor`: each byte with the byte in the same place, up to the shorter length.
unfoldable pub xor_bytes : Bytes → Bytes → Bytes
xor_bytes [] ys = []
xor_bytes (x ∷ xs) [] = []
xor_bytes (x ∷ xs) (y ∷ ys) = bit_xor x y ∷ xor_bytes xs ys
