-- ===== src/I2np/Framing/Fill.antt =====
-- The generator of a message's frame (src/i2np/frame.rs) fills in the length and the checksum of the
-- payload that it has written.
use ire.Prelude.{
  ℕ, ◌+◌, ◌-◌, ◌≤◌, ◌≡◌, refl, sym, ap, ◌∙◌, subst, arith, true, [], ◌∷◌, Bytes, length,
  length-append, take, drop, take-append, drop-append, append_assoc, ok, leb,
}
use ire.I2np.Framing.{checksum, gen_checksum, fill_header, payload_then_header, framed}
use ire.Wire.{◌<>◌, Gen, be_bytes}
use ire.Wire.BigEndian.{length-be_bytes}
use ire.Wire.Cookie.{Cookie}
use ire.Wire.Sized.{two_gens}
use ire.Wire.Writes.{Writes, after_at, be_u16-Writes, be_u8-Writes, skip_at, skip_after}

-- The payload in the buffer.
slice_at : (head bs post : Bytes) → take (length bs) (drop (length head) (head <> bs <> post)) ≡ bs
slice_at head bs post = rw (drop-append head (bs <> post)) (take-append bs post)

pub slice_within :
    (head bs post buf : Bytes) (start finish : ℕ)
    → head <> bs <> post ≡ buf
    → length head ≡ start
    → finish - start ≡ length bs
    → take (finish - start) (drop start buf) ≡ bs
slice_within head bs post buf start finish shape lh n =
    rw (n, ← shape, ← lh) (slice_at head bs post)

abbrev finish_of : ℕ → Bytes → ℕ
finish_of start bs = start + length bs

module _ (cf : Cookie) (sha256 : Bytes → Bytes) where
  open cf use {GenError, be_u8, be_u16, do_gen, label, skip, at_offset}

  gen_checksum_run :
      (start finish i : ℕ) (buf bs : Bytes)
      → start ≤ finish
      → finish ≤ length buf
      → take (finish - start) (drop start buf) ≡ bs
      → gen_checksum cf sha256 start finish (buf, i) ≡ be_u8 (checksum sha256 bs) (buf, i)
  unfolding gen_checksum
  gen_checksum_run start finish i buf bs h k e =
      let a : leb start finish ≡ true = ground arith in
      let b : leb finish (length buf) ≡ true = ground arith in rw (a, b, e) refl

  -- `head` holds the three bytes before the payload.
  checksum_at :
      (pre size old bs post : Bytes)
      → length size ≡ 2
      → length old ≡ 1
      → gen_checksum cf sha256
          (length pre + 3)
          (length pre + 3 + length bs)
          (pre <> size <> old <> bs <> post, length pre + 2)
        ≡ ok (pre <> size <> be_bytes 1 (checksum sha256 bs) <> bs <> post, length pre + 2 + 1)
  checksum_at pre size old bs post ls lo =
      let head = pre <> size <> old in
      let buf = pre <> size <> old <> bs <> post in
      let start = length pre + 3 in
      let lh : length head ≡ start =
        omega (arith, ls, lo, length-append pre (size <> old), length-append size old) in
      let shape : head <> bs <> post ≡ buf = simp append_assoc in
      let n : finish_of start bs - start ≡ length bs = omega arith in
      let fits : finish_of start bs ≤ length buf =
        subst (λ b. finish_of start bs ≤ length b) shape
          (omega (arith, lh, length-append head (bs <> post), length-append bs post)) in
      let cut : take (finish_of start bs - start) (drop start buf) ≡ bs =
        slice_within head bs post buf start (finish_of start bs) shape lh n in
      let w : be_u8 (checksum sha256 bs) (buf, length pre + 2)
          ≡ ok (pre <> size <> be_bytes 1 (checksum sha256 bs) <> bs <> post, length pre + 2 + 1) =
        after_at (be_u8 (checksum sha256 bs)) pre size (be_bytes 1 (checksum sha256 bs)) old
          (bs <> post) 2 1 (be_u8-Writes cf (checksum sha256 bs)) ls
          (length-be_bytes 1 (checksum sha256 bs)) lo in
      gen_checksum_run start (finish_of start bs) (length pre + 2) buf bs (omega arith) fits cut ∙ w

  fill_header_at :
      (pre two one bs post : Bytes)
      → length two ≡ 2
      → length one ≡ 1
      → fill_header cf sha256
          (length pre)
          (length pre + 2)
          (length pre + 3)
          (pre <> two <> one <> bs <> post, length pre + 3 + length bs)
        ≡ ok (
          pre <> be_bytes 2 (length bs) <> be_bytes 1 (checksum sha256 bs) <> bs <> post,
          length pre + 3 + length bs,
        )
  unfolding fill_header
  fill_header_at pre two one bs post l2 l1 =
      let start = length pre + 3 in
      let finish = length pre + 3 + length bs in
      let n : finish - start ≡ length bs = omega arith in
      let sized = be_bytes 2 (finish - start) in
      let ls = length-be_bytes 2 (finish - start) in
      let w = (be_u16-Writes cf (finish - start)).at pre two (one <> bs <> post) (l2 ∙ sym ls) in
      let c = checksum_at pre sized one bs post ls l1 in
      let done : label
            (λ f. do_gen (
              at_offset (length pre) (be_u16 (f - start))
              ∷ at_offset (length pre + 2) (gen_checksum cf sha256 start f)
              ∷ []))
            (pre <> two <> one <> bs <> post, finish)
          ≡ ok (pre <> sized <> be_bytes 1 (checksum sha256 bs) <> bs <> post, finish) =
        cf.label_eq _ _ _
        ∙ two_gens cf _ _ _ _ _ (cf.at_offset_ok (length pre) _ _ _ finish _ w)
            (cf.at_offset_ok (length pre + 2) _ _ _ finish _ c) in
      done
      ∙ ap (λ k. ok (pre <> be_bytes 2 k <> be_bytes 1 (checksum sha256 bs) <> bs <> post, finish))
          n

  pub framed_at :
      (g : Gen GenError) (pre two one old bs post : Bytes)
      → Writes g bs
      → length two ≡ 2
      → length one ≡ 1
      → length old ≡ length bs
      → framed cf sha256 g (pre <> two <> one <> old <> post, length pre)
        ≡ ok (
          pre <> be_bytes 2 (length bs) <> be_bytes 1 (checksum sha256 bs) <> bs <> post,
          length pre + 3 + length bs,
        )
  unfolding framed payload_then_header
  framed_at g pre two one old bs post w l2 l1 l =
      let rest = old <> post in
      let lh : length (two <> one) ≡ 3 = omega (arith, l2, l1, length-append two one) in
      let b : g (pre <> two <> one <> rest, length pre + 3)
          ≡ ok (pre <> two <> one <> bs <> post, length pre + 3 + length bs) =
        rw (← append_assoc two one rest, ← append_assoc two one (bs <> post))
          (after_at g pre (two <> one) bs old post 3 (length bs) w lh refl l) in
      let s2 = skip_at cf pre two (one <> rest) 2 l2 in
      let three : length pre + 2 + 1 ≡ length pre + 3 = omega arith in
      let s1 : skip 1 (pre <> two <> one <> rest, length pre + 2)
          ≡ ok (pre <> two <> one <> rest, length pre + 3) =
        rw (← three) (skip_after cf pre two one rest 2 1 l2 l1) in
      let body =
        cf.label_eq _ _ _ ∙ two_gens cf _ _ _ _ _ b (fill_header_at pre two one bs post l2 l1) in
      cf.label_eq _ _ _
      ∙ two_gens cf _ _ _ _ _ s2 (cf.label_eq _ _ _ ∙ two_gens cf _ _ _ _ _ s1 body)
