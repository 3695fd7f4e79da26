-- ===== src/Bloom/Exact.antt =====
-- An exact set of byte strings, which meets what the filter of src/util.rs assumes.
use ire.Prelude.{
  Bool, true, false, List, [], ◌∷◌, ◌≡◌, refl, ◌||◌, Bytes, bytes_beq, bytes_beq_self, arith,
}
use ire.Bloom.{BloomFilter}

abbrev holds : List Bytes → Bytes → Bool
holds [] x = false
holds (y ∷ ys) x = bytes_beq y x || holds ys x

pub holds-cons_self : (ys : List Bytes) (x : Bytes) → holds (x ∷ ys) x ≡ true
holds-cons_self ys x = ground (arith, bytes_beq_self x)

pub holds-cons : (ys : List Bytes) (x y : Bytes) → holds ys x ≡ true → holds (y ∷ ys) x ≡ true
holds-cons ys x y h = ground arith

abbrev pub exact : BloomFilter
exact = record {
  Filter = List Bytes;
  optimal = λ n. [];
  contains = holds;
  insert = λ f x. x ∷ f;
  contains-optimal = λ n x. refl;
  contains-insert_self = holds-cons_self;
  contains-insert = holds-cons;
}
