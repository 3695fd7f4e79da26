-- ===== src/Wire/Sized.antt =====
-- A body behind its length in two bytes, written as the source does: the place of the length is
-- skipped, the body written, and the length filled in.
use ire.Prelude.{
  ℕ, ◌+◌, ◌-◌, ◌≡◌, sym, subst, ◌∙◌, arith, [], ◌∷◌, Bytes, length, length-append, take, drop,
  length-take, length-drop, take-append-drop, append_assoc, ok,
}
use ire.Wire.{◌<>◌, Gen, be_bytes}
use ire.Wire.BigEndian.{length-be_bytes}
use ire.Wire.Cookie.{Cookie}
use ire.Wire.Writes.{Writes, after, be_u16-Writes}

module _ (cf : Cookie) where
  open cf use {be_u16, do_gen, label, skip, at_offset, GenError}

  -- `end: gen_at_offset!(size, gen_be_u16!(end - start))`
  unfoldable pub fill_size : ℕ → ℕ → Gen GenError
  fill_size size start = label (λ finish. at_offset size (be_u16 (finish - start)))

  -- `start: g >> ...`
  unfoldable pub body_then_size : Gen GenError → ℕ → Gen GenError
  body_then_size g size = label (λ start. do_gen (g ∷ fill_size size start ∷ []))

  -- `size: gen_skip!(2) >> start: g >> end: gen_at_offset!(size, gen_be_u16!(end - start))`
  unfoldable pub sized : Gen GenError → Gen GenError
  sized g = label (λ size. do_gen (skip 2 ∷ body_then_size g size ∷ []))

module _ (cf : Cookie) where
  open cf use {be_u16, do_gen, label, skip, at_offset, GenError}

  fill_size_at :
      (pre old post : Bytes) (start finish n : ℕ)
      → length old ≡ 2
      → finish - start ≡ n
      → fill_size cf (length pre) start (pre <> old <> post, finish)
        ≡ ok (pre <> be_bytes 2 n <> post, finish)
  unfolding fill_size
  fill_size_at pre old post start finish n l e =
      let w = (be_u16-Writes cf (finish - start)).at pre old post (l ∙ sym (length-be_bytes 2 _)) in
      cf.label_eq _ _ _ ∙ cf.at_offset_ok (length pre) _ _ _ finish _ w ∙ rw e

  pub two_gens :
      (g h : Gen GenError) (s t u : Bytes × ℕ)
      → g s ≡ ok t
      → h t ≡ ok u
      → do_gen (g ∷ h ∷ []) s ≡ ok u
  two_gens g h s t u e f =
      rw (cf.do_gen_cons g (h ∷ []) s, e, cf.do_gen_cons h [] t, f) (cf.do_gen_nil u)

  body_then_size_at :
      (g : Gen GenError) (bs pre head old post : Bytes)
      → Writes g bs
      → length head ≡ 2
      → length old ≡ length bs
      → body_then_size cf g (length pre) (pre <> head <> old <> post, length pre + 2)
        ≡ ok (pre <> (be_bytes 2 (length bs) <> bs) <> post, length pre + 2 + length bs)
  unfolding body_then_size
  body_then_size_at g bs pre head old post w lh l =
      let start = length pre + 2 in
      let finish = length pre + 2 + length bs in
      let b : g (pre <> head <> old <> post, start) ≡ ok (pre <> head <> bs <> post, finish) =
        subst
          (λ n.
            g (pre <> head <> old <> post, length pre + n)
            ≡ ok (pre <> head <> bs <> post, length pre + n + length bs))
          lh (after g pre head bs old post w l) in
      let f = fill_size_at pre head (bs <> post) start finish (length bs) lh (omega arith) in
      cf.label_eq _ _ _
      ∙ two_gens g _ _ _ _ b f
      ∙ rw (append_assoc (be_bytes 2 (length bs)) bs post)

  sized_at :
      (g : Gen GenError) (bs pre head old post : Bytes)
      → Writes g bs
      → length head ≡ 2
      → length old ≡ length bs
      → sized cf g (pre <> (head <> old) <> post, length pre)
        ≡ ok (pre <> (be_bytes 2 (length bs) <> bs) <> post, length pre + 2 + length bs)
  unfolding sized
  sized_at g bs pre head old post w lh l =
      let s : skip 2 (pre <> head <> old <> post, length pre)
          ≡ ok (pre <> head <> old <> post, length pre + 2) =
        subst
          (λ n.
            skip n (pre <> head <> old <> post, length pre)
            ≡ ok (pre <> head <> old <> post, length pre + n))
          lh (cf.skip_ok pre head (old <> post)) in
      rw (append_assoc head old post)
        (cf.label_eq _ _ _ ∙ two_gens _ _ _ _ _ s (body_then_size_at g bs pre head old post w lh l))

  pub sized-Writes :
      {g : Gen GenError} {bs : Bytes}
      → Writes g bs
      → Writes (sized cf g) (be_bytes 2 (length bs) <> bs)
  sized-Writes {g} {bs} w = record {
    at = λ pre old post l.
        let h = length-be_bytes 2 (length bs) in
        let n = length-append (be_bytes 2 (length bs)) bs in
        let e : length pre + length (be_bytes 2 (length bs) <> bs) ≡ length pre + 2 + length bs =
          omega (arith, h, n) in
        rw (← take-append-drop 2 old, e)
          (sized_at g bs pre (take 2 old) (drop 2 old) post w
            (omega (arith, l, h, n, length-take 2 old))
            (omega (arith, l, h, n, length-drop 2 old)));
  }
