-- ===== src/Wire/Nom.antt =====
-- The crate nom, a parameter: the streaming parsers and the combinators that the source calls,
-- with what they document. A sequence `tuple` is a nested `pair`.
use Prim.Native.Nat.{ℕ, suc, ◌+◌, ◌-◌, ◌/◌, ◌%◌, ◌^◌, ◌≤◌}
use ire.Prelude.{
  ◌≡◌, Bool, true, false, Option, none, some, List, [], ◌∷◌, Bytes, length, ◌==◌, if◌then◌else◌,
  Result, ok, err,
}
use ire.Wire.{◌<>◌, Stop, error, Parser, ◌>>>◌, returns, be_value}

-- `ErrorKind`: the kinds that the source itself raises.
pub data ErrorKind : Type 0 where
  switch verify_kind eof char : ErrorKind

-- `(&[u8], usize)`: the bytes, and how many bits of the first are read.
abbrev pub Bits : Type 0
Bits = Bytes × ℕ

-- `m` bits of the byte `b` are read, and `rest` stands behind it.
abbrev pub bits_at : ℕ → Bytes → ℕ → Bits
bits_at b rest m = if m == 8 then (rest, 0) else (b ∷ rest, m)

pub record Nom : Type 1 where
  pub Err : Type 0
  -- `Err::Error(NomError::new(i, kind))`
  pub error_new : Bytes → ErrorKind → Err
  pub take : ℕ → Parser Err Bytes Bytes
  pub tag : Bytes → Parser Err Bytes Bytes
  pub be_u8 : Parser Err Bytes ℕ
  pub be_u16 : Parser Err Bytes ℕ
  pub be_u32 : Parser Err Bytes ℕ
  pub be_u64 : Parser Err Bytes ℕ
  pub take_bits : ℕ → Parser Err Bits ℕ
  pub bits : {A : Type 0} → Parser Err Bits A → Parser Err Bytes A
  pub map : {I A B : Type 0} → Parser Err I A → (A → B) → Parser Err I B
  pub map_opt : {I A B : Type 0} → Parser Err I A → (A → Option B) → Parser Err I B
  pub map_res : {I A B X : Type 0} → Parser Err I A → (A → Result X B) → Parser Err I B
  pub verify : {I A : Type 0} → Parser Err I A → (A → Bool) → Parser Err I A
  pub peek : {I A : Type 0} → Parser Err I A → Parser Err I A
  pub cond : {I A : Type 0} → Bool → Parser Err I A → Parser Err I (Option A)
  pub pair : {I A B : Type 0} → Parser Err I A → Parser Err I B → Parser Err I (A × B)
  pub preceded : {I A B : Type 0} → Parser Err I A → Parser Err I B → Parser Err I B
  pub terminated : {I A B : Type 0} → Parser Err I A → Parser Err I B → Parser Err I A
  pub count : {A : Type 0} → Parser Err Bytes A → ℕ → Parser Err Bytes (List A)
  pub length_count :
      {A : Type 0} → Parser Err Bytes ℕ → Parser Err Bytes A → Parser Err Bytes (List A)
  pub length_data : Parser Err Bytes ℕ → Parser Err Bytes Bytes
  pub length_value : {A : Type 0} → Parser Err Bytes ℕ → Parser Err Bytes A → Parser Err Bytes A
  pub take_ok : (bs rest : Bytes) → take (length bs) (bs <> rest) ≡ ok (rest, bs)
  pub tag_ok : (bs rest : Bytes) → tag bs (bs <> rest) ≡ ok (rest, bs)
  pub be_u8_ok : (bs rest : Bytes) → length bs ≡ 1 → be_u8 (bs <> rest) ≡ ok (rest, be_value bs)
  pub be_u16_ok : (bs rest : Bytes) → length bs ≡ 2 → be_u16 (bs <> rest) ≡ ok (rest, be_value bs)
  pub be_u32_ok : (bs rest : Bytes) → length bs ≡ 4 → be_u32 (bs <> rest) ≡ ok (rest, be_value bs)
  pub be_u64_ok : (bs rest : Bytes) → length bs ≡ 8 → be_u64 (bs <> rest) ≡ ok (rest, be_value bs)
  pub take_bits_ok :
      (n m b : ℕ) (rest : Bytes)
      → m + n ≤ 8
      → take_bits n (b ∷ rest, m) ≡ ok (bits_at b rest (m + n), b / 2 ^ (8 - (m + n)) % 2 ^ n)
  pub bits_ok :
      {A : Type 0} (p : Parser Err Bits A) (i rest : Bytes) (a : A)
      → p (i, 0) ≡ ok ((rest, 0), a)
      → bits p i ≡ ok (rest, a)
  -- What is left of a byte is dropped.
  pub bits_partial :
      {A : Type 0} (p : Parser Err Bits A) (i rest : Bytes) (b m : ℕ) (a : A)
      → p (i, 0) ≡ ok ((b ∷ rest, suc m), a)
      → bits p i ≡ ok (rest, a)
  pub map_eq :
      {I A B : Type 0} (p : Parser Err I A) (f : A → B) (i : I)
      → map p f i ≡ (p >>> λ a. returns (f a)) i
  pub map_opt_some :
      {I A B : Type 0} (p : Parser Err I A) (f : A → Option B) (i rest : I) (a : A) (b : B)
      → p i ≡ ok (rest, a)
      → f a ≡ some b
      → map_opt p f i ≡ ok (rest, b)
  pub map_opt_none :
      {I A B : Type 0} (p : Parser Err I A) (f : A → Option B) (i rest : I) (a : A)
      → p i ≡ ok (rest, a)
      → f a ≡ none
      → (e : Err) × (map_opt p f i ≡ err (error e))
  pub map_res_ok :
      {I A B X : Type 0} (p : Parser Err I A) (f : A → Result X B) (i rest : I) (a : A) (b : B)
      → p i ≡ ok (rest, a)
      → f a ≡ ok b
      → map_res p f i ≡ ok (rest, b)
  pub map_res_err :
      {I A B X : Type 0} (p : Parser Err I A) (f : A → Result X B) (i rest : I) (a : A) (x : X)
      → p i ≡ ok (rest, a)
      → f a ≡ err x
      → (e : Err) × (map_res p f i ≡ err (error e))
  pub verify_ok :
      {I A : Type 0} (p : Parser Err I A) (test : A → Bool) (i rest : I) (a : A)
      → p i ≡ ok (rest, a)
      → test a ≡ true
      → verify p test i ≡ ok (rest, a)
  pub verify_fails :
      {I A : Type 0} (p : Parser Err I A) (test : A → Bool) (i rest : I) (a : A)
      → p i ≡ ok (rest, a)
      → test a ≡ false
      → (e : Err) × (verify p test i ≡ err (error e))
  pub peek_ok :
      {I A : Type 0} (p : Parser Err I A) (i rest : I) (a : A)
      → p i ≡ ok (rest, a)
      → peek p i ≡ ok (i, a)
  pub peek_err :
      {I A : Type 0} (p : Parser Err I A) (i : I) (e : Stop Err) → p i ≡ err e → peek p i ≡ err e
  pub cond_true :
      {I A : Type 0} (p : Parser Err I A) (i : I) → cond true p i ≡ (p >>> λ a. returns (some a)) i
  pub cond_false : {I A : Type 0} (p : Parser Err I A) (i : I) → cond false p i ≡ returns none i
  pub pair_eq :
      {I A B : Type 0} (p : Parser Err I A) (q : Parser Err I B) (i : I)
      → pair p q i ≡ (p >>> λ a. q >>> λ b. returns (a, b)) i
  pub preceded_eq :
      {I A B : Type 0} (p : Parser Err I A) (q : Parser Err I B) (i : I)
      → preceded p q i ≡ (p >>> λ a. q) i
  pub terminated_eq :
      {I A B : Type 0} (p : Parser Err I A) (q : Parser Err I B) (i : I)
      → terminated p q i ≡ (p >>> λ a. q >>> λ b. returns a) i
  pub count_zero : {A : Type 0} (p : Parser Err Bytes A) (i : Bytes) → count p 0 i ≡ returns [] i
  pub count_suc :
      {A : Type 0} (p : Parser Err Bytes A) (n : ℕ) (i : Bytes)
      → count p (suc n) i ≡ (p >>> λ a. count p n >>> λ xs. returns (a ∷ xs)) i
  pub length_count_eq :
      {A : Type 0} (size : Parser Err Bytes ℕ) (p : Parser Err Bytes A) (i : Bytes)
      → length_count size p i ≡ (size >>> λ n. count p n) i
  pub length_data_eq :
      (size : Parser Err Bytes ℕ) (i : Bytes) → length_data size i ≡ (size >>> take) i
  pub length_value_ok :
      {A : Type 0} (size : Parser Err Bytes ℕ) (p : Parser Err Bytes A) (i rest left bs : Bytes)
      (a : A)
      → length_data size i ≡ ok (rest, bs)
      → p bs ≡ ok (left, a)
      → length_value size p i ≡ ok (rest, a)
