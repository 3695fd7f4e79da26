-- ===== src/Tunnel/Frame/Message.antt =====
-- `gen_tunnel_message` of src/tunnel/frame.rs: the plaintext of a TunnelData message, which is padded
-- to 1024 bytes. Where the length for the padding would fall below zero there is a panic, as in a
-- build that checks overflow.
pub mod Filled
use ire.Prelude.{
  ℕ, ◌+◌, ◌-◌, Bool, ◌&&◌, List, [], ◌∷◌, ◌++◌, Bytes, length, take, drop, replicate, leb,
  if◌then◌else◌, err,
}
use ire.Tunnel.Fragment.{TunnelMessage, byte_len}
use ire.Tunnel.Frame.{gen_tmdi_fragment_pair}
use ire.Wire.{Gen, panic, be_value}
use ire.Wire.Cookie.{Cookie}

-- `checksum`: the first four bytes of the digest of the message and the IV.
unfoldable pub tunnel_checksum : (Bytes → Bytes) → Bytes → Bytes → ℕ
tunnel_checksum sha256 buf iv = be_value (take 4 (sha256 (buf ++ iv)))

module _ (cf : Cookie) where
  open cf use {GenError, slice, be_u8, be_u32, do_gen, label, skip, at_offset, many}

  -- `gen_checksum`, with the bounds of `&input.0[start..end]`.
  unfoldable pub gen_tunnel_checksum : (Bytes → Bytes) → Bytes → ℕ → ℕ → Gen GenError
  gen_tunnel_checksum sha256 iv start finish (buf, i) =
      if leb start finish && leb finish (length buf)
      then be_u32 (tunnel_checksum sha256 (take (finish - start) (drop start buf)) iv) (buf, i)
      else err panic

  unfoldable pub gen_nonzero_padding : ℕ → Gen GenError
  gen_nonzero_padding n = do_gen (many (replicate n 1) be_u8 ∷ [])

  -- `gen_nonzero_padding(1008 - 4 - 1 - tm.byte_len())`
  unfoldable pub gen_padding_for : TunnelMessage → Gen GenError
  gen_padding_for tm =
      if leb (byte_len tm) 1003 then gen_nonzero_padding (1003 - byte_len tm) else λ s. err panic

  -- `msg_end: gen_at_offset!(checksum, gen_checksum(msg_start, msg_end, iv))`
  unfoldable pub fill_checksum : (Bytes → Bytes) → Bytes → ℕ → ℕ → Gen GenError
  fill_checksum sha256 iv checksum_at msg_start =
      label (λ msg_end. at_offset checksum_at (gen_tunnel_checksum sha256 iv msg_start msg_end))

  -- From `msg_start:` on, and from `checksum:` on.
  unfoldable pub gen_fragments : (Bytes → Bytes) → Bytes → TunnelMessage → ℕ → Gen GenError
  gen_fragments sha256 iv tm checksum_at = label (λ msg_start.
      do_gen
        (many tm (gen_tmdi_fragment_pair cf) ∷ fill_checksum sha256 iv checksum_at msg_start ∷ []))

  unfoldable pub gen_padded : (Bytes → Bytes) → Bytes → TunnelMessage → Gen GenError
  gen_padded sha256 iv tm = label (λ checksum_at.
      do_gen (skip 4 ∷ gen_padding_for tm ∷ be_u8 0 ∷ gen_fragments sha256 iv tm checksum_at ∷ []))

  unfoldable pub gen_tunnel_message : (Bytes → Bytes) → Bytes → TunnelMessage → Gen GenError
  gen_tunnel_message sha256 iv tm = do_gen (slice iv ∷ gen_padded sha256 iv tm ∷ [])
