-- ===== src/Wire.antt =====
-- What the wire formats share: how a parser and a generator end, big-endian numbers, and the
-- `?` of a parser. The crates nom and cookie_factory are the children `Nom` and `Cookie`.
pub mod BigEndian
pub mod Nom
pub mod Cookie
pub mod Reads
pub mod ReadsBits
pub mod Writes
pub mod Sized
pub mod Reference
use ire.Prelude.{
  ℕ, zero, suc, ◌+◌, ◌*◌, ◌/◌, ◌%◌, List, [], ◌∷◌, ◌++◌, Bytes, Result, ok, err, ◌>>=◌,
}

infixr 65 ◌<>◌
-- `++`, nested to the right, as parsers nest.
abbrev pub ◌<>◌ : Bytes → Bytes → Bytes
xs <> ys = xs ++ ys

-- An error of the crate, or a panic.
pub data Stop (E : Type 0) : Type 0 where
  error : E → Stop E
  panic : Stop E

-- `Fn(I) -> IResult<I, A>`: what is left of the input, and the value.
abbrev pub Parser : Type 0 → Type 0 → Type 0 → Type 0
Parser E I A = I → Result (Stop E) (I × A)

-- `Fn((&mut [u8], usize)) -> Result<(&mut [u8], usize), GenError>`: the buffer and the position.
abbrev pub Gen : Type 0 → Type 0
Gen E = Bytes × ℕ → Result (Stop E) (Bytes × ℕ)

infixr 5 ◌>>>◌
-- `let (i, a) = p(i)?;` and what follows it.
unfoldable pub ◌>>>◌ : {E I A B : Type 0} → Parser E I A → (A → Parser E I B) → Parser E I B
(p >>> q) i = p i >>= λ r. q r.1 r.0

-- `Ok((i, a))`
unfoldable pub returns : {E I A : Type 0} → A → Parser E I A
returns a i = ok (i, a)

unfoldable pub panics : {E I A : Type 0} → Parser E I A
panics i = err panic

-- Numbers of `n` bytes lie below `byte_range n`.
abbrev pub byte_range : ℕ → ℕ
byte_range zero = 1
byte_range (suc k) = 256 * byte_range k

-- `to_be_bytes` of the low `k` bytes, and `from_be_bytes`.
unfoldable pub be_bytes : ℕ → ℕ → Bytes
be_bytes zero n = []
be_bytes (suc k) n = be_bytes k (n / 256) ++ n % 256 ∷ []

unfoldable pub be_value_from : ℕ → Bytes → ℕ
be_value_from n [] = n
be_value_from n (b ∷ bs) = be_value_from (n * 256 + b) bs

abbrev pub be_value : Bytes → ℕ
be_value = be_value_from 0
