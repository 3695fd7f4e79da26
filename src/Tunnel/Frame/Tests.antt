-- ===== src/Tunnel/Frame/Tests.antt =====
-- A first fragment for another tunnel and the fragment that follows it.
use ire.Prelude.{◌+◌, ◌≤◌, ◌≡◌, refl, arith, true, some, [], ◌∷◌, Bytes, length, replicate, ok}
use ire.Tunnel.Fragment.{
  tunnel, TunnelMessageDeliveryInstructions, first, follow_on, TunnelMessage, byte_len, len_from,
  instructions_len, delivery_type_len, msg_id_len,
}
use ire.Tunnel.Frame.{delivery_code, fragment, gen_tmdi_fragment_pair}
use ire.Tunnel.Frame.Layout.{
  delivery_bytes, tmdi_bytes, fragment_bytes, IsDelivery, IsTmdi, IsFragment,
}
use ire.Tunnel.Frame.RoundTrip.{gen_tmdi_fragment_pair-fragment}
use ire.Tunnel.Frame.Message.{gen_tunnel_message}
use ire.Tunnel.Frame.Message.Filled.{tunnel_message_bytes, gen_tunnel_message-fills}
use ire.Wire.{◌<>◌, be_bytes}
use ire.Wire.Reference.{reference_nom, reference_cookie}

abbrev one : TunnelMessageDeliveryInstructions × Bytes
one = (first (record { delivery_type = tunnel 3 (replicate 32 6); msg_id = some 7 }), 1 ∷ 2 ∷ [])

abbrev two : TunnelMessageDeliveryInstructions × Bytes
two = (follow_on (record { fragment_number = 1; last_fragment = true; msg_id = 123456789 }), 3 ∷ [])

one-IsFragment : IsFragment one
unfolding IsTmdi IsDelivery
one-IsFragment = (((omega arith, refl), omega arith), omega arith)

two-IsFragment : IsFragment two
unfolding IsTmdi
two-IsFragment = ((omega arith, omega arith), omega arith)

two_layout : fragment_bytes two ≡ 131 ∷ 7 ∷ 91 ∷ 205 ∷ 21 ∷ 0 ∷ 1 ∷ 3 ∷ []
unfolding fragment_bytes tmdi_bytes be_bytes
two_layout = refl

one_size : 45 ≡ length (fragment_bytes one)
unfolding fragment_bytes tmdi_bytes delivery_bytes delivery_code be_bytes
one_size = refl

gen_tmdi_fragment_pair-fragment_example :
    (gen_tmdi_fragment_pair reference_cookie one ((9 ∷ []) <> replicate 45 0 <> [], 1)
      ≡ ok ((9 ∷ []) <> fragment_bytes one <> [], 1 + length (fragment_bytes one)))
    × (fragment reference_nom (fragment_bytes one <> (8 ∷ [])) ≡ ok (8 ∷ [], one))
gen_tmdi_fragment_pair-fragment_example =
    gen_tmdi_fragment_pair-fragment reference_nom reference_cookie one (9 ∷ []) (replicate 45 0) []
      (8 ∷ []) one-IsFragment one_size

abbrev both : TunnelMessage
both = one ∷ two ∷ []

both_fits : byte_len both ≤ 1003
unfolding byte_len len_from instructions_len delivery_type_len msg_id_len
both_fits = omega arith

abbrev sha256 : Bytes → Bytes
sha256 bs = replicate 32 5

gen_tunnel_message-fills_example :
    gen_tunnel_message reference_cookie sha256
      (replicate 16 1)
      both
      ((7 ∷ []) <> replicate 1024 0 <> (9 ∷ []), 1)
    ≡ ok ((7 ∷ []) <> tunnel_message_bytes sha256 (replicate 16 1) both <> (9 ∷ []), 1 + 1024)
gen_tunnel_message-fills_example =
    gen_tunnel_message-fills reference_cookie sha256 (replicate 16 1) both (7 ∷ [])
      (replicate 1024 0) (9 ∷ []) (one-IsFragment, (two-IsFragment, tt)) both_fits refl refl
