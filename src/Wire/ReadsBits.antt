-- ===== src/Wire/ReadsBits.antt =====
-- Parsers of the bit fields of one byte: which bits are read, and from where on.
use Prim.Native.Nat.{◌-◌, ◌/◌, ◌%◌, ◌^◌, ◌≤◌}
use ire.Prelude.{ℕ, ◌+◌, ◌<◌, ◌≡◌, refl, ◌∙◌, subst, arith, Bytes, [], ◌∷◌, ok}
use ire.Wire.{Parser, ◌>>>◌, returns}
use ire.Wire.Nom.{Nom, Bits, bits_at}
use ire.Wire.Reads.{Reads}

-- The parser of bits reads `n` bits of the byte `b`, from bit `m` on.
pub record ReadsBits {E A : Type 0} (p : Parser E Bits A) (b m n : ℕ) (a : A) : Type 0 where
  pub at : (rest : Bytes) → p (b ∷ rest, m) ≡ ok (bits_at b rest (m + n), a)

pub ReadsBits-value :
    {E A : Type 0} {p : Parser E Bits A} {b m n : ℕ} {x y : A}
    → x ≡ y
    → ReadsBits p b m n x
    → ReadsBits p b m n y
ReadsBits-value {p = p} {b} {m} {n} e r = subst (λ x. ReadsBits p b m n x) e r

bits_at-within : (b : ℕ) (rest : Bytes) (m : ℕ) → m < 8 → bits_at b rest m ≡ (b ∷ rest, m)
bits_at-within b rest m h = ground arith

ReadsBits-bind :
    {E A B : Type 0} {p : Parser E Bits A} (q : A → Parser E Bits B) {b m n k : ℕ} {x : A} {y : B}
    → m + n < 8
    → ReadsBits p b m n x
    → ReadsBits (q x) b (m + n) k y
    → ReadsBits (p >>> q) b m (n + k) y
unfolding ◌>>>◌
ReadsBits-bind q {b} {m} {n} {k} h r s = record {
  at = λ rest.
      let e : m + (n + k) ≡ m + n + k = omega arith in
      rw (r.at rest, bits_at-within b rest (m + n) h, e) (s.at rest);
}

ReadsBits-then :
    {E A B : Type 0} {p : Parser E Bits A} (f : A → B) {b m n : ℕ} {x : A}
    → ReadsBits p b m n x
    → ReadsBits (p >>> λ a. returns (f a)) b m n (f x)
unfolding ◌>>>◌ returns
ReadsBits-then f r = record { at = λ rest. rw (r.at rest) refl }

ReadsBits-eq :
    {E A : Type 0} {p q : Parser E Bits A} {b m n : ℕ} {x : A}
    → ((i : Bits) → p i ≡ q i)
    → ReadsBits q b m n x
    → ReadsBits p b m n x
ReadsBits-eq e r = record { at = λ rest. e _ ∙ r.at rest }

pub take_bits-ReadsBits :
    (nom : Nom) (n m b : ℕ)
    → m + n ≤ 8
    → ReadsBits (nom.take_bits n) b m n (b / 2 ^ (8 - (m + n)) % 2 ^ n)
take_bits-ReadsBits nom n m b h = record { at = λ rest. nom.take_bits_ok n m b rest h }

module _ (nom : Nom) {A B : Type 0} where
  pub pair-ReadsBits :
      {p : Parser nom.Err Bits A} {q : Parser nom.Err Bits B} {b m n k : ℕ} {x : A} {y : B}
      → m + n < 8
      → ReadsBits p b m n x
      → ReadsBits q b (m + n) k y
      → ReadsBits (nom.pair p q) b m (n + k) (x, y)
  pair-ReadsBits {p} {q} {x = x} h r s =
      ReadsBits-eq (nom.pair_eq p q) (ReadsBits-bind _ h r (ReadsBits-then (λ y. (x, y)) s))

  pub preceded-ReadsBits :
      {p : Parser nom.Err Bits A} {q : Parser nom.Err Bits B} {b m n k : ℕ} {x : A} {y : B}
      → m + n < 8
      → ReadsBits p b m n x
      → ReadsBits q b (m + n) k y
      → ReadsBits (nom.preceded p q) b m (n + k) y
  preceded-ReadsBits {p} {q} h r s = ReadsBits-eq (nom.preceded_eq p q) (ReadsBits-bind _ h r s)

  pub terminated-ReadsBits :
      {p : Parser nom.Err Bits A} {q : Parser nom.Err Bits B} {b m n k : ℕ} {x : A} {y : B}
      → m + n < 8
      → ReadsBits p b m n x
      → ReadsBits q b (m + n) k y
      → ReadsBits (nom.terminated p q) b m (n + k) x
  terminated-ReadsBits {p} {q} {x = x} h r s =
      ReadsBits-eq (nom.terminated_eq p q) (ReadsBits-bind _ h r (ReadsBits-then (λ y. x) s))

module _ (nom : Nom) {A : Type 0} where
  pub bits-Reads :
      {p : Parser nom.Err Bits A} {b : ℕ} {a : A}
      → ReadsBits p b 0 8 a
      → Reads (nom.bits p) (b ∷ []) a
  bits-Reads {p} {b} r = record { at = λ rest. nom.bits_ok p (b ∷ rest) rest _ (r.at rest) }
