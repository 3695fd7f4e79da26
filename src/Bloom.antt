-- ===== src/Bloom.antt =====
-- `DecayingBloomFilter` of src/util.rs: a two-layer filter for duplicate detection. The Bloom
-- filter itself is the crate bloom_filter_rs, a parameter with the documented behaviour of such a
-- filter: an empty one contains nothing, and what was inserted is found.
pub mod Memory
pub mod Exact
mod Tests
use ire.Prelude.{ℕ, Bool, true, false, List, [], ◌∷◌, ◌≡◌, ◌||◌, Bytes, if◌then◌else◌, suc}

-- `bloom_filter_rs::BloomFilter<Murmur3>`; `optimal n` is `optimal(Murmur3, n, 0.00001)`.
pub record BloomFilter : Type 1 where
  pub Filter : Type 0
  pub optimal : ℕ → Filter
  pub contains : Filter → Bytes → Bool
  pub insert : Filter → Bytes → Filter
  pub contains-optimal : (n : ℕ) (x : Bytes) → contains (optimal n) x ≡ false
  pub contains-insert_self : (f : Filter) (x : Bytes) → contains (insert f x) x ≡ true
  pub contains-insert :
      (f : Filter) (x y : Bytes) → contains f x ≡ true → contains (insert f y) x ≡ true

pub record DecayingBloomFilter (b : BloomFilter) : Type 0 where
  pub current : b.Filter
  pub previous : b.Filter
  pub max_elements : ℕ

module _ (b : BloomFilter) where
  open b use {optimal, contains, insert}

  unfoldable pub new : ℕ → DecayingBloomFilter b
  new n = record { current = optimal n; previous = optimal n; max_elements = n }

  -- Is `x` in either layer? If so `feed` changes nothing.
  unfoldable pub is_present : DecayingBloomFilter b → Bytes → Bool
  is_present f x = contains f.current x || contains f.previous x

  -- The new state, and the `bool` that the method returns.
  unfoldable pub feed : DecayingBloomFilter b → Bytes → DecayingBloomFilter b × Bool
  unfolding is_present
  feed f x =
      if is_present f x then (f, true) else (record f { current = insert f.current x }, false)

  unfoldable pub decay : DecayingBloomFilter b → DecayingBloomFilter b
  decay f = record f { current = optimal f.max_elements; previous = f.current }

-- What a user of the filter does with it.
pub data Use : Type 0 where
  feeds : Bytes → Use
  decays : Use

abbrev pub count_decays : List Use → ℕ
count_decays [] = 0
count_decays (feeds x ∷ us) = count_decays us
count_decays (decays ∷ us) = suc (count_decays us)

module _ (b : BloomFilter) where
  unfoldable pub run : List Use → DecayingBloomFilter b → DecayingBloomFilter b
  run [] f = f
  run (feeds x ∷ us) f = run us (feed b f x).0
  run (decays ∷ us) f = run us (decay b f)
