-- ===== src/Tunnel/Frame/Message/Filled.antt =====
-- A tunnel message (src/tunnel/frame.rs) fills its 1024 bytes exactly.
use ire.Prelude.{
  ℕ, zero, suc, ◌+◌, ◌-◌, ◌<◌, ◌≤◌, ◌≡◌, refl, sym, ap, ◌∙◌, arith, true, [], ◌∷◌, Bytes, All,
  length, length-append, take, drop, replicate, length-replicate, length-take, length-drop,
  take-append-drop, append_assoc, ok, leb,
}
use ire.I2np.Frame.Flags.{byte_bytes}
use ire.I2np.Framing.Fill.{slice_within}
use ire.Tunnel.Fragment.{TunnelMessage, byte_len}
use ire.Tunnel.Frame.{gen_tmdi_fragment_pair}
use ire.Tunnel.Frame.Layout.{fragment_bytes, IsFragment}
use ire.Tunnel.Frame.Written.{gen_fragments-Writes, length-fragments}
use ire.Tunnel.Frame.Message.{
  tunnel_checksum, gen_tunnel_checksum, gen_nonzero_padding, gen_padding_for, fill_checksum,
  gen_fragments, gen_padded, gen_tunnel_message,
}
use ire.Wire.{◌<>◌, Gen, be_bytes}
use ire.Wire.BigEndian.{length-be_bytes}
use ire.Wire.Cookie.{Cookie}
use ire.Wire.Reads.{each}
use ire.Wire.Sized.{two_gens}
use ire.Wire.Writes.{
  skip_at, Writes, Writes-eq, Writes-bytes, Writes-then, after, slice-Writes, be_u8-Writes,
  be_u32-Writes, do_gen-Writes_last, nothing-Writes,
}

-- A generator in a buffer and at a position that are known by other names.
pub run_at :
    {E : Type 0} (g : Gen E) (pre head bs old post buf next : Bytes) (i j : ℕ)
    → Writes g bs
    → pre <> head <> old <> post ≡ buf
    → pre <> head <> bs <> post ≡ next
    → length pre + length head ≡ i
    → i + length bs ≡ j
    → length old ≡ length bs
    → g (buf, i) ≡ ok (next, j)
run_at g pre head bs old post buf next i j w e f p q l =
    rw (← e, ← f, ← q, ← p) (after g pre head bs old post w l)

module _ (cf : Cookie) where
  open cf use {GenError, slice, be_u8, be_u32, do_gen, label, skip, at_offset, many}

  four_gens :
      (a b c d : Gen GenError) (s t u v w : Bytes × ℕ)
      → a s ≡ ok t
      → b t ≡ ok u
      → c u ≡ ok v
      → d v ≡ ok w
      → do_gen (a ∷ b ∷ c ∷ d ∷ []) s ≡ ok w
  four_gens a b c d s t u v w e f g h =
      rw (cf.do_gen_cons a (b ∷ c ∷ d ∷ []) s, e, cf.do_gen_cons b (c ∷ d ∷ []) t, f)
        (two_gens cf c d u v w g h)

  byte-Writes : (b : ℕ) → b < 256 → Writes (be_u8 b) (b ∷ [])
  byte-Writes b h = Writes-bytes (sym (byte_bytes b h)) (be_u8-Writes cf b)

  ones-Writes : (n : ℕ) → Writes (many (replicate n 1) be_u8) (replicate n 1)
  ones-Writes zero = nothing-Writes cf (cf.many_nil be_u8)
  ones-Writes (suc n) = Writes-eq (cf.many_cons 1 (replicate n 1) be_u8) (
      Writes-then (be_u8 1) (many (replicate n 1) be_u8) (byte-Writes 1 (omega arith))
        (ones-Writes n))

  padding-Writes :
      (tm : TunnelMessage)
      → byte_len tm ≤ 1003
      → Writes (gen_padding_for cf tm) (replicate (1003 - byte_len tm) 1)
  unfolding gen_padding_for gen_nonzero_padding
  padding-Writes tm h =
      let e : leb (byte_len tm) 1003 ≡ true = ground arith in
      rw e (do_gen-Writes_last cf (ones-Writes (1003 - byte_len tm)))

module _ (cf : Cookie) (sha256 : Bytes → Bytes) (iv : Bytes) where
  open cf use {GenError, be_u8, be_u32, do_gen, label, skip, at_offset, many}

  checksum_run :
      (head frags post buf : Bytes) (start finish i : ℕ)
      → head <> frags <> post ≡ buf
      → length head ≡ start
      → start + length frags ≡ finish
      → gen_tunnel_checksum cf sha256 iv start finish (buf, i)
        ≡ be_u32 (tunnel_checksum sha256 frags iv) (buf, i)
  unfolding gen_tunnel_checksum
  checksum_run head frags post buf start finish i e h f =
      let n : finish - start ≡ length frags = omega arith in
      let size : length buf ≡ length head + (length frags + length post) = rw (← e) (
        length-append head (frags <> post)
        ∙ ap (λ k. length head + k) (length-append frags post)) in
      let a : leb start finish ≡ true = ground arith in
      let b : leb finish (length buf) ≡ true = ground (arith, size) in
      rw (a, b, slice_within head frags post buf start finish e h n) refl

  -- The message over the parts `c0`, `p0`, `z0` and `f0` of the old buffer.
  padded_at :
      (tm : TunnelMessage) (pre c0 p0 z0 f0 post : Bytes)
      → All IsFragment tm
      → byte_len tm ≤ 1003
      → length c0 ≡ 4
      → length p0 ≡ 1003 - byte_len tm
      → length z0 ≡ 1
      → length f0 ≡ byte_len tm
      → gen_padded cf sha256 iv tm (pre <> c0 <> p0 <> z0 <> f0 <> post, length pre)
        ≡ ok (
          pre
              <> be_bytes 4 (tunnel_checksum sha256 (each fragment_bytes tm) iv)
              <> replicate (1003 - byte_len tm) 1
              <> (0 ∷ [])
              <> each fragment_bytes tm
              <> post,
          length pre + 1008,
        )
  unfolding gen_padded gen_fragments fill_checksum
  padded_at tm pre c0 p0 z0 f0 post all room lc lp lz lf =
      let k = 1003 - byte_len tm in
      let ones : Bytes = replicate k 1 in
      let frags = each fragment_bytes tm in
      let lo : length ones ≡ k = length-replicate k 1 in
      let lm = length-fragments tm all in
      let start = length pre + 5 + k in
      let finish = length pre + 1008 in
      let cs = tunnel_checksum sha256 frags iv in
      let b0 = pre <> c0 <> p0 <> z0 <> f0 <> post in
      let b1 = pre <> c0 <> ones <> z0 <> f0 <> post in
      let b2 = pre <> c0 <> ones <> (0 ∷ []) <> f0 <> post in
      let b3 = pre <> c0 <> ones <> (0 ∷ []) <> frags <> post in
      let h2 = length-append c0 ones in
      let h3 = length-append (c0 <> ones) (0 ∷ []) in
      let e0 = skip_at cf pre c0 (p0 <> z0 <> f0 <> post) 4 lc in
      let e1 : gen_padding_for cf tm (b0, length pre + 4) ≡ ok (b1, length pre + 4 + k) =
        run_at (gen_padding_for cf tm) pre c0 ones p0 (z0 <> f0 <> post) b0 b1 _ _
          (padding-Writes cf tm room) refl refl (omega arith) (omega (arith, lo)) (lp ∙ sym lo) in
      let e2 : be_u8 0 (b1, length pre + 4 + k) ≡ ok (b2, start) =
        run_at (be_u8 0) pre (c0 <> ones) (0 ∷ []) z0 (f0 <> post) b1 b2 _ _
          (byte-Writes cf 0 (omega arith)) (simp append_assoc) (simp append_assoc)
          (omega (arith, h2, lo, lc)) (omega arith) lz in
      let e3 : many tm (gen_tmdi_fragment_pair cf) (b2, start) ≡ ok (b3, finish) =
        run_at (many tm (gen_tmdi_fragment_pair cf)) pre ((c0 <> ones) <> (0 ∷ [])) frags f0 post b2
          b3 _ _ (gen_fragments-Writes cf tm all) (simp append_assoc) (simp append_assoc)
          (omega (arith, h2, h3, lo, lc)) (omega (arith, lm, room)) (lf ∙ sym lm) in
      let head = pre <> c0 <> ones <> (0 ∷ []) in
      let hl : length head ≡ start = omega (
        arith,
        lc,
        lo,
        length-append pre (c0 <> ones <> (0 ∷ [])),
        length-append c0 (ones <> (0 ∷ [])),
        length-append ones (0 ∷ []),
      ) in
      let run =
        checksum_run head frags post b3 start finish (length pre) (simp append_assoc) hl
          (omega (arith, lm, room)) in
      let w =
        (be_u32-Writes cf cs).at pre c0 (ones <> (0 ∷ []) <> frags <> post)
          (lc ∙ sym (length-be_bytes 4 cs)) in
      let fill = cf.label_eq _ _ _ ∙ cf.at_offset_ok (length pre) _ b3 _ finish _ (run ∙ w) in
      let last = cf.label_eq _ _ _ ∙ two_gens cf _ _ _ _ _ e3 fill in
      cf.label_eq _ _ _ ∙ four_gens cf _ _ _ _ _ _ _ _ _ e0 e1 e2 last

-- The IV, the checksum, the padding of ones, a zero, and the fragments.
unfoldable pub tunnel_message_bytes : (Bytes → Bytes) → Bytes → TunnelMessage → Bytes
tunnel_message_bytes sha256 iv tm =
    iv
    <> be_bytes 4 (tunnel_checksum sha256 (each fragment_bytes tm) iv)
    <> replicate (1003 - byte_len tm) 1
    <> (0 ∷ [])
    <> each fragment_bytes tm

message_at :
    (cf : Cookie) (sha256 : Bytes → Bytes) (iv : Bytes) (tm : TunnelMessage)
    (pre v0 c0 p0 z0 f0 post : Bytes)
    → All IsFragment tm
    → byte_len tm ≤ 1003
    → length iv ≡ 16
    → length v0 ≡ 16
    → length c0 ≡ 4
    → length p0 ≡ 1003 - byte_len tm
    → length z0 ≡ 1
    → length f0 ≡ byte_len tm
    → gen_tunnel_message cf sha256 iv tm (pre <> (v0 <> c0 <> p0 <> z0 <> f0) <> post, length pre)
      ≡ ok (pre <> tunnel_message_bytes sha256 iv tm <> post, length pre + 1024)
unfolding gen_tunnel_message tunnel_message_bytes
message_at cf sha256 iv tm pre v0 c0 p0 z0 f0 post all room li lv lc lp lz lf =
    let rest = c0 <> p0 <> z0 <> f0 in
    let head = pre <> iv in
    let lh : length head ≡ length pre + 16 = omega (arith, li, length-append pre iv) in
    let b0 = pre <> (v0 <> rest) <> post in
    let b1 = head <> c0 <> p0 <> z0 <> f0 <> post in
    let e0 : cf.slice iv (b0, length pre) ≡ ok (b1, length head) =
      run_at (cf.slice iv) pre [] iv v0 (rest <> post) b0 b1 _ _ (slice-Writes cf iv)
        (simp append_assoc) (simp append_assoc) (omega arith) (omega (arith, lh, li))
        (lv ∙ sym li) in
    let e1 = padded_at cf sha256 iv tm head c0 p0 z0 f0 post all room lc lp lz lf in
    let n : length head + 1008 ≡ length pre + 1024 = omega (arith, lh) in
    let cs = be_bytes 4 (tunnel_checksum sha256 (each fragment_bytes tm) iv) in
    let ones : Bytes = replicate (1003 - byte_len tm) 1 in
    let frags = each fragment_bytes tm in
    let shape : head <> cs <> ones <> (0 ∷ []) <> frags <> post
        ≡ pre <> (iv <> cs <> ones <> (0 ∷ []) <> frags) <> post =
      simp append_assoc in
    two_gens cf _ _ _ _ _ e0 e1 ∙ rw (n, shape) refl

split :
    (n : ℕ) (xs : Bytes)
    → n ≤ length xs
    → (a : Bytes) × ((b : Bytes) × ((a <> b ≡ xs) × ((length a ≡ n) × (n + length b ≡ length xs))))
split n xs h = (
  take n xs,
  (
    drop n xs,
    (take-append-drop n xs, (omega (arith, length-take n xs), omega (arith, length-drop n xs))),
  ),
)

-- A tunnel message of fragments that fit their fields and take at most 1003 bytes fills exactly 1024
-- bytes: the IV, the checksum of the fragments and the IV, ones as padding, a zero, and the
-- fragments one after the other.
pub gen_tunnel_message-fills :
    (cf : Cookie) (sha256 : Bytes → Bytes) (iv : Bytes) (tm : TunnelMessage) (pre old post : Bytes)
    → All IsFragment tm
    → byte_len tm ≤ 1003
    → length iv ≡ 16
    → length old ≡ 1024
    → gen_tunnel_message cf sha256 iv tm (pre <> old <> post, length pre)
      ≡ ok (pre <> tunnel_message_bytes sha256 iv tm <> post, length pre + 1024)
gen_tunnel_message-fills cf sha256 iv tm pre old post all room li l =
    let (v0, (r1, (e1, (l1, m1)))) = split 16 old (omega arith) in
    let (c0, (r2, (e2, (l2, m2)))) = split 4 r1 (omega arith) in
    let (p0, (r3, (e3, (l3, m3)))) = split (1003 - byte_len tm) r2 (omega arith) in
    let (z0, (f0, (e4, (l4, m4)))) = split 1 r3 (omega arith) in
    let e : v0 <> c0 <> p0 <> z0 <> f0 ≡ old = rw (e4, e3, e2) e1 in
    rw (← e)
      (message_at cf sha256 iv tm pre v0 c0 p0 z0 f0 post all room li l1 l2 l3 l4 (omega arith))
