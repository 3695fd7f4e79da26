-- ===== src/Tunnel/Frame/Layout.antt =====
-- The layout of the fragments in a tunnel message, and the fragments that it can hold.
use Prim.Native.Nat.{◌^◌}
use ire.Prelude.{◌<◌, [], Bytes, length}
use ire.I2np.Frame.Generate.{is_some}
use ire.I2np.Frame.Layout.{optional, Within, Has}
use ire.Tunnel.Fragment.{
  TunnelMessageDeliveryType, local, tunnel, router, TunnelMessageDeliveryInstructions, first,
  follow_on,
}
use ire.Tunnel.Frame.{delivery_code}
use ire.Tunnel.Frame.Flags.{first_sum, follow_on_sum}
use ire.Wire.{◌<>◌, be_bytes}

unfoldable pub delivery_bytes : TunnelMessageDeliveryType → Bytes
delivery_bytes local = []
delivery_bytes (tunnel tid to) = be_bytes 4 tid <> to
delivery_bytes (router to) = to

unfoldable pub tmdi_bytes : TunnelMessageDeliveryInstructions → Bytes
tmdi_bytes (first di) =
    be_bytes 1 (first_sum (delivery_code di.delivery_type) (is_some di.msg_id))
    <> delivery_bytes di.delivery_type
    <> optional (be_bytes 4) di.msg_id
tmdi_bytes (follow_on di) =
    be_bytes 1 (follow_on_sum di.fragment_number di.last_fragment) <> be_bytes 4 di.msg_id

-- The instructions, the length of the fragment, and the fragment.
unfoldable pub fragment_bytes : TunnelMessageDeliveryInstructions × Bytes → Bytes
fragment_bytes (di, frag) = tmdi_bytes di <> be_bytes 2 (length frag) <> frag

unfoldable pub IsDelivery : TunnelMessageDeliveryType → Type 0
IsDelivery local = Unit
IsDelivery (tunnel tid to) = (tid < 2 ^ 32) × Has 32 to
IsDelivery (router to) = Has 32 to

-- Numbers fit their fields: a fragment's number has six bits.
unfoldable pub IsTmdi : TunnelMessageDeliveryInstructions → Type 0
IsTmdi (first di) = IsDelivery di.delivery_type × Within (λ n. n < 2 ^ 32) di.msg_id
IsTmdi (follow_on di) = (di.fragment_number < 64) × (di.msg_id < 2 ^ 32)

abbrev pub IsFragment : TunnelMessageDeliveryInstructions × Bytes → Type 0
IsFragment f = IsTmdi f.0 × (length f.1 < 65536)
