-- ===== src/Tunnel/Frame/Written.antt =====
-- Fragments (src/tunnel/frame.rs) are written as their layout, whose length is the one that
-- `byte_len` of src/tunnel.rs computes.
use ire.Prelude.{
  ℕ, ◌+◌, ◌≡◌, refl, ap, arith, Option, none, some, [], ◌∷◌, Bytes, All, length, length-append,
  append_assoc,
}
use ire.Data.Frame.RoundTrip.{gen_hash-Writes, gen_tunnel_id-Writes, be_u16_cast-Writes}
use ire.I2np.Frame.Generate.{is_some}
use ire.I2np.Frame.Layout.{optional}
use ire.I2np.Frame.Optional.{announced-Writes, Within-all}
use ire.Tunnel.Fragment.{
  TunnelMessageDeliveryType, local, tunnel, router, TunnelMessageDeliveryInstructions, first,
  follow_on, TunnelMessage, delivery_type_len, msg_id_len, instructions_len, len_from, byte_len,
}
use ire.Tunnel.Frame.{
  delivery_code, gen_msg_id, gen_delivery, gen_first_frag_di, gen_follow_on_frag_di, gen_tmdi,
  gen_tmdi_fragment_pair,
}
use ire.Tunnel.Frame.Flags.{first_sum, follow_on_sum, first_byte-eq, follow_on_byte-eq}
use ire.Tunnel.Frame.Layout.{
  delivery_bytes, tmdi_bytes, fragment_bytes, IsDelivery, IsTmdi, IsFragment,
}
use ire.Wire.{◌<>◌, be_bytes}
use ire.Wire.BigEndian.{length-be_bytes}
use ire.Wire.Cookie.{Cookie}
use ire.Wire.Reads.{each}
use ire.Wire.Writes.{
  Writes, Writes-bytes, slice-Writes, be_u8-Writes, be_u32-Writes, many-Writes, do_gen-Writes,
  do_gen-Writes_last,
}

module _ (cf : Cookie) where
  gen_msg_id-Writes : (o : Option ℕ) → Writes (gen_msg_id cf o) (optional (be_bytes 4) o)
  unfolding gen_msg_id
  gen_msg_id-Writes o =
      announced-Writes cf cf.be_u32 (be_bytes 4) o _ refl (Within-all (be_u32-Writes cf) o)

  gen_delivery-Writes :
      (x : ℕ) (d : TunnelMessageDeliveryType) (id : Option ℕ)
      → Writes
          (gen_delivery cf x d id)
          (be_bytes 1 x <> delivery_bytes d <> optional (be_bytes 4) id)
  unfolding gen_delivery delivery_bytes
  gen_delivery-Writes x local id =
      do_gen-Writes cf (be_u8-Writes cf x) (do_gen-Writes_last cf (gen_msg_id-Writes id))
  gen_delivery-Writes x (tunnel tid to) id = Writes-bytes (simp append_assoc) (
      do_gen-Writes cf (be_u8-Writes cf x) (
        do_gen-Writes cf (gen_tunnel_id-Writes cf tid) (
          do_gen-Writes cf (gen_hash-Writes cf to) (do_gen-Writes_last cf (gen_msg_id-Writes id)))))
  gen_delivery-Writes x (router to) id =
      do_gen-Writes cf (be_u8-Writes cf x)
        (do_gen-Writes cf (gen_hash-Writes cf to) (do_gen-Writes_last cf (gen_msg_id-Writes id)))

  gen_tmdi-Writes :
      (di : TunnelMessageDeliveryInstructions) → IsTmdi di → Writes (gen_tmdi cf di) (tmdi_bytes di)
  unfolding gen_tmdi tmdi_bytes gen_first_frag_di gen_follow_on_frag_di IsTmdi
  gen_tmdi-Writes (first di) h =
      Writes-bytes
        (ap
          (λ b. be_bytes 1 b <> delivery_bytes di.delivery_type <> optional (be_bytes 4) di.msg_id)
          (first_byte-eq di.delivery_type (is_some di.msg_id)))
        (gen_delivery-Writes _ di.delivery_type di.msg_id)
  gen_tmdi-Writes (follow_on di) h =
      Writes-bytes
        (ap (λ b. be_bytes 1 b <> be_bytes 4 di.msg_id)
          (follow_on_byte-eq di.fragment_number di.last_fragment h.0))
        (do_gen-Writes cf (be_u8-Writes cf _) (do_gen-Writes_last cf (be_u32-Writes cf di.msg_id)))

  pub gen_fragment-Writes :
      (f : TunnelMessageDeliveryInstructions × Bytes)
      → IsFragment f
      → Writes (gen_tmdi_fragment_pair cf f) (fragment_bytes f)
  unfolding gen_tmdi_fragment_pair fragment_bytes
  gen_fragment-Writes (di, frag) h = do_gen-Writes cf (gen_tmdi-Writes di h.0) (
      do_gen-Writes cf (be_u16_cast-Writes cf (length frag) h.1)
        (do_gen-Writes_last cf (slice-Writes cf frag)))

  All-Writes :
      (tm : TunnelMessage)
      → All IsFragment tm
      → All (λ f. Writes (gen_tmdi_fragment_pair cf f) (fragment_bytes f)) tm
  All-Writes [] h = tt
  All-Writes (f ∷ tm) h = (gen_fragment-Writes f h.0, All-Writes tm h.1)

  pub gen_fragments-Writes :
      (tm : TunnelMessage)
      → All IsFragment tm
      → Writes (cf.many tm (gen_tmdi_fragment_pair cf)) (each fragment_bytes tm)
  gen_fragments-Writes tm h = many-Writes cf fragment_bytes tm (All-Writes tm h)

length-delivery_bytes :
    (d : TunnelMessageDeliveryType) → IsDelivery d → length (delivery_bytes d) ≡ delivery_type_len d
unfolding delivery_bytes delivery_type_len IsDelivery
length-delivery_bytes local h = refl
length-delivery_bytes (tunnel tid to) h =
    omega (arith, h, length-append (be_bytes 4 tid) to, length-be_bytes 4 tid)
length-delivery_bytes (router to) h = h

length-msg_id : (o : Option ℕ) → length (optional (be_bytes 4) o) ≡ msg_id_len o
unfolding msg_id_len
length-msg_id none = refl
length-msg_id (some id) = length-be_bytes 4 id

pub length-tmdi_bytes :
    (di : TunnelMessageDeliveryInstructions)
    → IsTmdi di
    → length (tmdi_bytes di) ≡ instructions_len di
unfolding tmdi_bytes instructions_len IsTmdi
length-tmdi_bytes (first di) h =
    let b = be_bytes 1 (first_sum (delivery_code di.delivery_type) (is_some di.msg_id)) in
    let d = delivery_bytes di.delivery_type in
    omega (
      arith,
      length-append b (d <> optional (be_bytes 4) di.msg_id),
      length-append d (optional (be_bytes 4) di.msg_id),
      length-be_bytes 1 (first_sum (delivery_code di.delivery_type) (is_some di.msg_id)),
      length-delivery_bytes di.delivery_type h.0,
      length-msg_id di.msg_id,
    )
length-tmdi_bytes (follow_on di) h =
    let n = follow_on_sum di.fragment_number di.last_fragment in
    omega (
      arith,
      length-append (be_bytes 1 n) (be_bytes 4 di.msg_id),
      length-be_bytes 1 n,
      length-be_bytes 4 di.msg_id,
    )

length-fragment_bytes :
    (di : TunnelMessageDeliveryInstructions) (frag : Bytes)
    → IsTmdi di
    → length (fragment_bytes (di, frag)) ≡ instructions_len di + 2 + length frag
unfolding fragment_bytes
length-fragment_bytes di frag h = omega (
  arith,
  length-append (tmdi_bytes di) (be_bytes 2 (length frag) <> frag),
  length-append (be_bytes 2 (length frag)) frag,
  length-be_bytes 2 (length frag),
  length-tmdi_bytes di h,
)

len_from-each :
    (tm : TunnelMessage) (acc : ℕ)
    → All IsFragment tm
    → len_from acc tm ≡ acc + length (each fragment_bytes tm)
unfolding len_from each
len_from-each [] acc h = omega arith
len_from-each ((di, frag) ∷ tm) acc h = omega (
  arith,
  len_from-each tm (acc + instructions_len di + 2 + length frag) h.1,
  length-append (fragment_bytes (di, frag)) (each fragment_bytes tm),
  length-fragment_bytes di frag h.0.0,
)

pub length-fragments :
    (tm : TunnelMessage) → All IsFragment tm → length (each fragment_bytes tm) ≡ byte_len tm
unfolding byte_len
length-fragments tm h = omega (arith, len_from-each tm 0 h)
