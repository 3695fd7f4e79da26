-- ===== src/Wire/Cookie.antt =====
-- The crate cookie_factory, a parameter: the generators and the macros that the source calls,
-- with what they document.
use ire.Prelude.{ℕ, ◌+◌, ◌<◌, ◌≡◌, Bool, true, false, List, [], ◌∷◌, Bytes, length, ok, err}
use ire.Prelude.{◌>>=◌}
use ire.Wire.{◌<>◌, error, Gen, be_bytes}

pub record Cookie : Type 1 where
  pub GenError : Type 0
  pub custom_error : ℕ → GenError
  pub slice : Bytes → Gen GenError
  -- The integer macros cast their argument to the width.
  pub be_u8 : ℕ → Gen GenError
  pub be_u16 : ℕ → Gen GenError
  pub be_u32 : ℕ → Gen GenError
  pub be_u64 : ℕ → Gen GenError
  pub skip : ℕ → Gen GenError
  pub at_offset : ℕ → Gen GenError → Gen GenError
  pub cond : Bool → Gen GenError → Gen GenError
  pub many : {A : Type 0} → List A → (A → Gen GenError) → Gen GenError
  -- `do_gen!(a >> b >> ...)`, and `name:` in it, which binds the position.
  pub do_gen : List (Gen GenError) → Gen GenError
  pub label : (ℕ → Gen GenError) → Gen GenError
  pub slice_ok :
      (bs pre old post : Bytes)
      → length old ≡ length bs
      → slice bs (pre <> old <> post, length pre) ≡ ok (pre <> bs <> post, length pre + length bs)
  -- A slice for which the buffer has too little room is an error.
  pub slice_short :
      (bs buf : Bytes) (i : ℕ)
      → length buf < i + length bs
      → (e : GenError) × (slice bs (buf, i) ≡ err (error e))
  pub be_u8_eq : (n : ℕ) (s : Bytes × ℕ) → be_u8 n s ≡ slice (be_bytes 1 n) s
  pub be_u16_eq : (n : ℕ) (s : Bytes × ℕ) → be_u16 n s ≡ slice (be_bytes 2 n) s
  pub be_u32_eq : (n : ℕ) (s : Bytes × ℕ) → be_u32 n s ≡ slice (be_bytes 4 n) s
  pub be_u64_eq : (n : ℕ) (s : Bytes × ℕ) → be_u64 n s ≡ slice (be_bytes 8 n) s
  pub skip_ok :
      (pre old post : Bytes)
      → skip (length old) (pre <> old <> post, length pre)
        ≡ ok (pre <> old <> post, length pre + length old)
  pub at_offset_ok :
      (o : ℕ) (g : Gen GenError) (buf after : Bytes) (i j : ℕ)
      → g (buf, o) ≡ ok (after, j)
      → at_offset o g (buf, i) ≡ ok (after, i)
  pub cond_true : (g : Gen GenError) (s : Bytes × ℕ) → cond true g s ≡ g s
  pub cond_false : (g : Gen GenError) (s : Bytes × ℕ) → cond false g s ≡ ok s
  pub many_nil : {A : Type 0} (f : A → Gen GenError) (s : Bytes × ℕ) → many [] f s ≡ ok s
  pub many_cons :
      {A : Type 0} (x : A) (xs : List A) (f : A → Gen GenError) (s : Bytes × ℕ)
      → many (x ∷ xs) f s ≡ (f x s >>= many xs f)
  pub do_gen_nil : (s : Bytes × ℕ) → do_gen [] s ≡ ok s
  pub do_gen_cons :
      (g : Gen GenError) (gs : List (Gen GenError)) (s : Bytes × ℕ)
      → do_gen (g ∷ gs) s ≡ (g s >>= do_gen gs)
  pub label_eq : (f : ℕ → Gen GenError) (buf : Bytes) (i : ℕ) → label f (buf, i) ≡ f i (buf, i)
