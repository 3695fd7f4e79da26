-- ===== src/Wire/BigEndian.antt =====
-- Big-endian numbers: the length, and reading back what was written.
use ire.Prelude.{
  ℕ, zero, suc, ◌+◌, ◌*◌, ◌/◌, ◌%◌, ◌<◌, ◌≡◌, refl, ◌∙◌, arith, [], ◌∷◌, ◌++◌, Bytes, length,
  length-append,
}
use ire.Wire.{byte_range, be_bytes, be_value, be_value_from}

pub length-be_bytes : (k n : ℕ) → length (be_bytes k n) ≡ k
unfolding be_bytes
length-be_bytes zero n = refl
length-be_bytes (suc k) n =
    omega (arith, length-append (be_bytes k (n / 256)) (n % 256 ∷ []), length-be_bytes k (n / 256))

be_value_from-snoc :
    (n b : ℕ) (bs : Bytes) → be_value_from n (bs ++ b ∷ []) ≡ be_value_from n bs * 256 + b
unfolding be_value_from
be_value_from-snoc n b [] = refl
be_value_from-snoc n b (c ∷ cs) = be_value_from-snoc (n * 256 + c) b cs

be_value-snoc : (n : ℕ) (bs : Bytes) → be_value bs ≡ n / 256 → be_value (bs ++ n % 256 ∷ []) ≡ n
be_value-snoc n bs h = be_value_from-snoc 0 (n % 256) bs ∙ omega (arith, h)

pub be_value-be_bytes : (k n : ℕ) → n < byte_range k → be_value (be_bytes k n) ≡ n
unfolding be_bytes be_value_from
be_value-be_bytes zero n h = omega arith
be_value-be_bytes (suc k) n h =
    be_value-snoc n (be_bytes k (n / 256)) (be_value-be_bytes k (n / 256) (omega arith))
