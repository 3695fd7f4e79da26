-- ===== src/Tunnel/Fragment.antt =====
-- The fragments of an I2NP message inside a tunnel message, and their lengths (src/tunnel.rs).
use ire.Prelude.{ℕ, ◌+◌, ◌≡◌, refl, Bool, true, Option, none, some, List, [], ◌∷◌, length, Bytes}
use ire.Data.{Hash, TunnelId}

pub data TunnelMessageDeliveryType : Type 0 where
  local : TunnelMessageDeliveryType
  tunnel : TunnelId → Hash → TunnelMessageDeliveryType
  router : Hash → TunnelMessageDeliveryType

pub record FirstFragmentDeliveryInstructions : Type 0 where
  pub delivery_type : TunnelMessageDeliveryType
  pub msg_id : Option ℕ

pub record FollowOnFragmentDeliveryInstructions : Type 0 where
  pub fragment_number : ℕ
  pub last_fragment : Bool
  pub msg_id : ℕ

pub data TunnelMessageDeliveryInstructions : Type 0 where
  first : FirstFragmentDeliveryInstructions → TunnelMessageDeliveryInstructions
  follow_on : FollowOnFragmentDeliveryInstructions → TunnelMessageDeliveryInstructions

unfoldable pub delivery_type_len : TunnelMessageDeliveryType → ℕ
delivery_type_len local = 0
delivery_type_len (tunnel tid hash) = 36
delivery_type_len (router hash) = 32

unfoldable pub msg_id_len : Option ℕ → ℕ
msg_id_len none = 0
msg_id_len (some id) = 4

-- `TunnelMessageDeliveryInstructions::byte_len`
unfoldable pub instructions_len : TunnelMessageDeliveryInstructions → ℕ
unfolding delivery_type_len msg_id_len
instructions_len (first di) = 1 + delivery_type_len di.delivery_type + msg_id_len di.msg_id
instructions_len (follow_on di) = 5

-- `TunnelMessage`
abbrev pub TunnelMessage : Type 0
TunnelMessage = List (TunnelMessageDeliveryInstructions × Bytes)

-- The fold of `TunnelMessage::byte_len`, from `acc` on.
unfoldable pub len_from : ℕ → TunnelMessage → ℕ
len_from acc [] = acc
len_from acc ((tmdi, frag) ∷ fs) = len_from (acc + instructions_len tmdi + 2 + length frag) fs

unfoldable pub byte_len : TunnelMessage → ℕ
byte_len fs = len_from 0 fs

follow_on_and_first :
    byte_len (
      (follow_on (record { fragment_number = 1; last_fragment = true; msg_id = 7 }), 1 ∷ 2 ∷ [])
      ∷ (first (record { delivery_type = tunnel 3 []; msg_id = some 7 }), 1 ∷ [])
      ∷ [])
    ≡ 53
unfolding byte_len len_from instructions_len
follow_on_and_first = refl
