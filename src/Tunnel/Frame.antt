-- ===== src/Tunnel/Frame.antt =====
-- The fragments of a tunnel message as src/tunnel/frame.rs writes and reads them.
pub mod Flags
pub mod Layout
pub mod Written
pub mod Message
pub mod RoundTrip
mod Tests
use Prim.Native.Nat.{bit_or, bit_and}
use ire.Prelude.{
  ℕ, ◌*◌, ◌%◌, Bool, true, false, Option, List, [], ◌∷◌, Bytes, length, ltb, ◌==◌, if◌then◌else◌,
  err,
}
use ire.Data.Frame.{hash, tunnel_id, gen_hash, gen_tunnel_id}
use ire.I2np.Frame.Generate.{is_some, unwrapped}
use ire.Tunnel.Fragment.{
  TunnelMessageDeliveryType, local, tunnel, router, FirstFragmentDeliveryInstructions,
  FollowOnFragmentDeliveryInstructions, TunnelMessageDeliveryInstructions, first, follow_on,
}
use ire.Wire.{Parser, Gen, ◌>>>◌, returns, error}
use ire.Wire.Nom.{Nom, char}
use ire.Wire.Cookie.{Cookie}

module _ (nom : Nom) where
  open nom use {Err, be_u16, be_u32, take_bits, bits, map, cond, pair, peek, length_data}

  -- The delivery type and the fragmented flag.
  unfoldable pub first_flags : Parser Err Bytes (ℕ × Bool)
  first_flags =
      map
        (bits (
          pair (take_bits 1)
            (pair (take_bits 2) (pair (take_bits 1) (pair (take_bits 1) (take_bits 3))))))
        (λ f. (f.1.0, ltb 0 f.1.1.1.0))

  unfoldable pub delivery_of : ℕ → Parser Err Bytes TunnelMessageDeliveryType
  delivery_of delivery_type =
      if delivery_type == 0
      then returns local
      else if delivery_type == 1
      then map (pair (tunnel_id nom) (hash nom)) (λ p. tunnel p.0 p.1)
      else if delivery_type == 2
      then map (hash nom) (λ to. router to)
      else λ i. err (error (nom.error_new i char))

  unfoldable pub first_frag_of : ℕ × Bool → Parser Err Bytes FirstFragmentDeliveryInstructions
  first_frag_of (t, fragmented) = delivery_of t >>> λ d.
      cond fragmented be_u32 >>> λ id. returns (record { delivery_type = d; msg_id = id })

  unfoldable pub first_frag_di : Parser Err Bytes FirstFragmentDeliveryInstructions
  first_frag_di = first_flags >>> first_frag_of

  unfoldable pub follow_on_flags : Parser Err Bytes (ℕ × Bool)
  follow_on_flags =
      map (bits (pair (take_bits 1) (pair (take_bits 6) (take_bits 1)))) (λ f. (f.1.0, ltb 0 f.1.1))

  unfoldable pub follow_on_frag_di : Parser Err Bytes FollowOnFragmentDeliveryInstructions
  follow_on_frag_di =
      map (pair follow_on_flags be_u32)
        (λ f. record { fragment_number = f.0.0; last_fragment = f.0.1; msg_id = f.1 })

  unfoldable pub tmdi_of : Bool → Parser Err Bytes TunnelMessageDeliveryInstructions
  tmdi_of true = map first_frag_di (λ di. first di)
  tmdi_of false = map follow_on_frag_di (λ di. follow_on di)

  unfoldable pub tmdi : Parser Err Bytes TunnelMessageDeliveryInstructions
  tmdi = peek (map (bits (take_bits 1)) (λ b. b == 0)) >>> tmdi_of

  -- One fragment, as `tunnel_message` reads them.
  unfoldable pub fragment : Parser Err Bytes (TunnelMessageDeliveryInstructions × Bytes)
  fragment = pair tmdi (length_data be_u16)

unfoldable pub delivery_code : TunnelMessageDeliveryType → ℕ
delivery_code local = 0
delivery_code (tunnel tid to) = 1
delivery_code (router to) = 2

unfoldable pub first_byte : ℕ → Bool → ℕ
first_byte code has_id =
    let x = bit_or 0 (bit_and (code * 32 % 256) 96) in if has_id then bit_or x 8 else x

unfoldable pub follow_on_byte : ℕ → Bool → ℕ
follow_on_byte fragment_number last_fragment =
    let x = bit_or 128 (bit_and (fragment_number * 2 % 256) 126) in
    if last_fragment then bit_or x 1 else x

module _ (cf : Cookie) where
  open cf use {GenError, slice, be_u8, be_u16, be_u32, cond, do_gen}

  unfoldable pub gen_msg_id : Option ℕ → Gen GenError
  gen_msg_id msg_id = cond (is_some msg_id) (unwrapped be_u32 msg_id)

  -- The match on the delivery type, behind the flags `x`.
  unfoldable pub gen_delivery : ℕ → TunnelMessageDeliveryType → Option ℕ → Gen GenError
  gen_delivery x local id = do_gen (be_u8 x ∷ gen_msg_id id ∷ [])
  gen_delivery x (tunnel tid to) id =
      do_gen (be_u8 x ∷ gen_tunnel_id cf tid ∷ gen_hash cf to ∷ gen_msg_id id ∷ [])
  gen_delivery x (router to) id = do_gen (be_u8 x ∷ gen_hash cf to ∷ gen_msg_id id ∷ [])

  unfoldable pub gen_first_frag_di : FirstFragmentDeliveryInstructions → Gen GenError
  gen_first_frag_di di =
      gen_delivery (first_byte (delivery_code di.delivery_type) (is_some di.msg_id))
        di.delivery_type di.msg_id

  unfoldable pub gen_follow_on_frag_di : FollowOnFragmentDeliveryInstructions → Gen GenError
  gen_follow_on_frag_di di =
      do_gen (be_u8 (follow_on_byte di.fragment_number di.last_fragment) ∷ be_u32 di.msg_id ∷ [])

  unfoldable pub gen_tmdi : TunnelMessageDeliveryInstructions → Gen GenError
  gen_tmdi (first di) = gen_first_frag_di di
  gen_tmdi (follow_on di) = gen_follow_on_frag_di di

  unfoldable pub gen_tmdi_fragment_pair : TunnelMessageDeliveryInstructions × Bytes → Gen GenError
  gen_tmdi_fragment_pair (di, frag) =
      do_gen (gen_tmdi di ∷ be_u16 (length frag % 65536) ∷ slice frag ∷ [])
