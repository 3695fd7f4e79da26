-- ===== src/Wire/Writes.antt =====
-- A generator writes exactly the bytes of a value over as many old ones, wherever it stands in the
-- buffer: one rule for each macro of cookie_factory.
use ire.Prelude.{
  ℕ, ◌+◌, ◌≡◌, sym, ap, ◌∙◌, subst, arith, true, false, List, [], ◌∷◌, Bytes, All, length,
  length-append, take, drop, length-take, length-drop, take-append-drop, append_assoc, append-nil,
  Result, ok, ◌>>=◌,
}
use ire.Wire.{◌<>◌, Stop, Gen, be_bytes}
use ire.Wire.Cookie.{Cookie}
use ire.Wire.Reads.{each}

pub record Writes {E : Type 0} (g : Gen E) (bs : Bytes) : Type 0 where
  pub at :
      (pre old post : Bytes)
      → length old ≡ length bs
      → g (pre <> old <> post, length pre) ≡ ok (pre <> bs <> post, length pre + length bs)

pub Writes-eq :
    {E : Type 0} {g h : Gen E} {bs : Bytes}
    → ((s : Bytes × ℕ) → g s ≡ h s)
    → Writes h bs
    → Writes g bs
Writes-eq e w = record { at = λ pre old post l. e _ ∙ w.at pre old post l }

pub Writes-bytes : {E : Type 0} {g : Gen E} {bs cs : Bytes} → bs ≡ cs → Writes g bs → Writes g cs
Writes-bytes {g = g} e w = subst (λ x. Writes g x) e w

-- The same with some bytes between.
pub after :
    {E : Type 0} (h : Gen E) (pre bs cs old post : Bytes)
    → Writes h cs
    → length old ≡ length cs
    → h (pre <> bs <> old <> post, length pre + length bs)
      ≡ ok (pre <> bs <> cs <> post, length pre + length bs + length cs)
after h pre bs cs old post w l =
    rw
      (
        ← append_assoc pre bs (old <> post),
        ← append_assoc pre bs (cs <> post),
        ← length-append pre bs,
      )
      (w.at (pre <> bs) old post l)

-- The same with the lengths named.
pub after_at :
    {E : Type 0} (h : Gen E) (pre bs cs old post : Bytes) (m n : ℕ)
    → Writes h cs
    → length bs ≡ m
    → length cs ≡ n
    → length old ≡ n
    → h (pre <> bs <> old <> post, length pre + m)
      ≡ ok (pre <> bs <> cs <> post, length pre + m + n)
after_at h pre bs cs old post m n w e f l = rw (← e, ← f) (after h pre bs cs old post w (l ∙ sym f))

-- The bytes written join those that stand before them.
behind :
    {E : Type 0} (h : Gen E) (pre bs cs old post : Bytes)
    → Writes h cs
    → length old ≡ length cs
    → h (pre <> bs <> old <> post, length pre + length bs)
      ≡ ok (pre <> (bs <> cs) <> post, length pre + length (bs <> cs))
behind h pre bs cs old post w l =
    let e : length pre + (length bs + length cs) ≡ length pre + length bs + length cs =
      omega arith in
    rw (append_assoc bs cs post, length-append bs cs, e) (after h pre bs cs old post w l)

then_at :
    {E : Type 0} (g h : Gen E) (bs cs pre one two post : Bytes)
    → Writes g bs
    → Writes h cs
    → length one ≡ length bs
    → length two ≡ length cs
    → (g (pre <> (one <> two) <> post, length pre) >>= h)
      ≡ ok (pre <> (bs <> cs) <> post, length pre + length (bs <> cs))
then_at g h bs cs pre one two post v w l m =
    rw (append_assoc one two post, v.at pre one (two <> post) l) (behind h pre bs cs two post w m)

-- One generator after another.
pub Writes-then :
    {E : Type 0} (g h : Gen E) {bs cs : Bytes}
    → Writes g bs
    → Writes h cs
    → Writes (λ s. g s >>= h) (bs <> cs)
Writes-then g h {bs} {cs} v w = record {
  at = λ pre old post l.
      let n = length bs in
      let s = length-append bs cs in
      rw (← take-append-drop n old) (
        then_at g h bs cs pre (take n old) (drop n old) post v w
          (omega (arith, l, s, length-take n old)) (omega (arith, l, s, length-drop n old)));
}

pub nothing_at :
    {E : Type 0}
    → (pre old post : Bytes) → length old ≡ 0
    → Path
        (Result (Stop E) (Bytes × ℕ))
        (ok (pre <> old <> post, length pre))
        (ok (pre <> post, length pre + 0))
nothing_at pre [] post l = ap (λ n. ok (pre <> post, n)) (omega arith)
nothing_at pre (x ∷ xs) post l = absurd (omega arith)

module _ (cf : Cookie) where
  open cf use {
    slice, be_u8, be_u16, be_u32, be_u64, cond, many, do_gen, label, skip, at_offset, GenError,
  }

  pub slice-Writes : (bs : Bytes) → Writes (slice bs) bs
  slice-Writes bs = record { at = cf.slice_ok bs }

  pub be_u8-Writes : (n : ℕ) → Writes (be_u8 n) (be_bytes 1 n)
  be_u8-Writes n = Writes-eq (cf.be_u8_eq n) (slice-Writes (be_bytes 1 n))

  pub be_u16-Writes : (n : ℕ) → Writes (be_u16 n) (be_bytes 2 n)
  be_u16-Writes n = Writes-eq (cf.be_u16_eq n) (slice-Writes (be_bytes 2 n))

  pub be_u32-Writes : (n : ℕ) → Writes (be_u32 n) (be_bytes 4 n)
  be_u32-Writes n = Writes-eq (cf.be_u32_eq n) (slice-Writes (be_bytes 4 n))

  pub be_u64-Writes : (n : ℕ) → Writes (be_u64 n) (be_bytes 8 n)
  be_u64-Writes n = Writes-eq (cf.be_u64_eq n) (slice-Writes (be_bytes 8 n))

  pub cond_true-Writes : {g : Gen GenError} {bs : Bytes} → Writes g bs → Writes (cond true g) bs
  cond_true-Writes {g} w = Writes-eq (cf.cond_true g) w

  pub nothing-Writes : {g : Gen GenError} → ((s : Bytes × ℕ) → g s ≡ ok s) → Writes g []
  nothing-Writes e = record { at = λ pre old post l. e _ ∙ nothing_at pre old post l }

  pub cond_false-Writes : (g : Gen GenError) → Writes (cond false g) []
  cond_false-Writes g = nothing-Writes (cf.cond_false g)

  pub do_gen-Writes_nil : Writes (do_gen []) []
  do_gen-Writes_nil = nothing-Writes cf.do_gen_nil

  pub do_gen-Writes :
      {g : Gen GenError} {gs : List (Gen GenError)} {bs cs : Bytes}
      → Writes g bs
      → Writes (do_gen gs) cs
      → Writes (do_gen (g ∷ gs)) (bs <> cs)
  do_gen-Writes {g} {gs} v w = Writes-eq (cf.do_gen_cons g gs) (Writes-then g (do_gen gs) v w)

  pub do_gen-Writes_last :
      {g : Gen GenError} {bs : Bytes} → Writes g bs → Writes (do_gen (g ∷ [])) bs
  do_gen-Writes_last {bs = bs} w = Writes-bytes (append-nil bs) (do_gen-Writes w do_gen-Writes_nil)

module _ (cf : Cookie) {A : Type 0} where
  pub many-Writes :
      {g : A → Gen cf.GenError} (f : A → Bytes) (xs : List A)
      → All (λ x. Writes (g x) (f x)) xs
      → Writes (cf.many xs g) (each f xs)
  unfolding each
  many-Writes {g} f [] h = nothing-Writes cf (cf.many_nil g)
  many-Writes {g} f (x ∷ xs) h =
      Writes-eq (cf.many_cons x xs g) (Writes-then (g x) (cf.many xs g) h.0 (many-Writes f xs h.1))

module _ (cf : Cookie) where
  pub skip_at :
      (pre old post : Bytes) (n : ℕ)
      → length old ≡ n
      → cf.skip n (pre <> old <> post, length pre) ≡ ok (pre <> old <> post, length pre + n)
  skip_at pre old post n l = rw (← l) (cf.skip_ok pre old post)

  pub skip_after :
      (pre head old post : Bytes) (m n : ℕ)
      → length head ≡ m
      → length old ≡ n
      → cf.skip n (pre <> head <> old <> post, length pre + m)
        ≡ ok (pre <> head <> old <> post, length pre + m + n)
  skip_after pre head old post m n e l =
      rw (← e, ← append_assoc pre head (old <> post), ← length-append pre head)
        (skip_at (pre <> head) old post n l)
