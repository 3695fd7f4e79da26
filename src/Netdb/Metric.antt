-- ===== src/Netdb/Metric.antt =====
-- The order of `XorMetric` (src/netdb/mod.rs), derived from that of byte arrays, and the standard
-- library's `min_by_key` over it.
use ire.Prelude.{
  ◌≡◌, refl, sym, subst, ◌⊎◌, inl, inr, Bool, true, false, ◌&&◌, Option, none, some, List, [], ◌∷◌,
  arith, ltb, ◌==◌, if◌then◌else◌, Bytes, bytes_eq, Bool-cases,
}

-- The derived order on `[u8; 32]`.
unfoldable pub bytes_le : Bytes → Bytes → Bool
bytes_le [] ys = true
bytes_le (x ∷ xs) [] = false
bytes_le (x ∷ xs) (y ∷ ys) = if ltb x y then true else ((x == y) && bytes_le xs ys)

pub bytes_le_refl : (xs : Bytes) → bytes_le xs xs ≡ true
unfolding bytes_le
bytes_le_refl [] = refl
bytes_le_refl (x ∷ xs) = ground (arith, bytes_le_refl xs)

pub bytes_le_trans :
    (xs ys zs : Bytes) → bytes_le xs ys ≡ true → bytes_le ys zs ≡ true → bytes_le xs zs ≡ true
unfolding bytes_le
bytes_le_trans [] ys zs h k = refl
bytes_le_trans (x ∷ xs) [] zs h k = cc
bytes_le_trans (x ∷ xs) (y ∷ ys) [] h k = cc
bytes_le_trans (x ∷ xs) (y ∷ ys) (z ∷ zs) h k = ground (arith, bytes_le_trans xs ys zs)

pub bytes_le-total : (xs ys : Bytes) → bytes_le xs ys ≡ false → bytes_le ys xs ≡ true
unfolding bytes_le
bytes_le-total [] ys h = cc
bytes_le-total (x ∷ xs) [] h = refl
bytes_le-total (x ∷ xs) (y ∷ ys) h = ground (arith, bytes_le-total xs ys)

-- `a` is one of the elements.
abbrev pub Has : {A : Type 0} → A → List A → Type 0
Has a [] = ⊥
Has a (x ∷ xs) = (a ≡ x) ⊎ Has a xs

Has-skip : {A : Type 0} {a x : A} (y : A) (ys : List A) → Has a (x ∷ ys) → Has a (x ∷ y ∷ ys)
Has-skip y ys (inl e) = inl e
Has-skip y ys (inr r) = inr (inr r)

module _ {A : Type 0} (metric : A → Bytes) where
  -- `min_by_key`: the first of the elements with the least key.
  unfoldable pub min_from : A → List A → A
  min_from x [] = x
  min_from x (y ∷ ys) = min_from (if bytes_le (metric x) (metric y) then x else y) ys

  unfoldable pub min_by_key : List A → Option A
  unfolding min_from
  min_by_key [] = none
  min_by_key (x ∷ xs) = some (min_from x xs)

  min_from-le_start : (x : A) (ys : List A) → bytes_le (metric (min_from x ys)) (metric x) ≡ true
  unfolding min_from
  min_from-le_start x [] = bytes_le_refl (metric x)
  min_from-le_start x (y ∷ ys) = elim (Bool-cases (bytes_le (metric x) (metric y))) [
    | inl le ↦ rw le (min_from-le_start x ys)
    | inr gt ↦ rw gt (
        bytes_le_trans (metric (min_from y ys)) (metric y) (metric x) (min_from-le_start y ys)
          (bytes_le-total (metric x) (metric y) gt))
  ]

  min_from-le_rest :
      (x : A) (ys : List A) (a : A) → Has a ys → bytes_le (metric (min_from x ys)) (metric a) ≡ true
  unfolding min_from
  min_from-le_rest x [] a h = absurd h
  min_from-le_rest x (y ∷ ys) a (inl e) = elim (Bool-cases (bytes_le (metric x) (metric y))) [
    | inl le ↦
        rw (le, e)
          (bytes_le_trans (metric (min_from x ys)) (metric x) (metric y) (min_from-le_start x ys)
            le)
    | inr gt ↦ rw (gt, e) (min_from-le_start y ys)
  ]
  min_from-le_rest x (y ∷ ys) a (inr r) = elim (Bool-cases (bytes_le (metric x) (metric y))) [
    | inl le ↦ rw le (min_from-le_rest x ys a r)
    | inr gt ↦ rw gt (min_from-le_rest y ys a r)
  ]

  min_from-Has : (x : A) (ys : List A) → Has (min_from x ys) (x ∷ ys)
  unfolding min_from
  min_from-Has x [] = inl refl
  min_from-Has x (y ∷ ys) = elim (Bool-cases (bytes_le (metric x) (metric y))) [
    | inl le ↦
        subst (λ t. Has (min_from (if t then x else y) ys) (x ∷ y ∷ ys)) (sym le)
          (Has-skip y ys (min_from-Has x ys))
    | inr gt ↦
        subst (λ t. Has (min_from (if t then x else y) ys) (x ∷ y ∷ ys)) (sym gt)
          (inr (min_from-Has y ys))
  ]

  -- The least of a list is one of its elements, and no element has a smaller key.
  pub min_by_key-some :
      (xs : List A) (a : A)
      → min_by_key xs ≡ some a
      → Has a xs × ((c : A) → Has c xs → bytes_le (metric a) (metric c) ≡ true)
  unfolding min_by_key
  min_by_key-some [] a h = cc
  min_by_key-some (x ∷ xs) a h =
      let e : min_from x xs ≡ a = cc in
      (
        subst (λ b. Has b (x ∷ xs)) e (min_from-Has x xs),
        λ c m. subst (λ b. bytes_le (metric b) (metric c) ≡ true) e (bound c m),
      )
    where
      bound : (c : A) → Has c (x ∷ xs) → bytes_le (metric (min_from x xs)) (metric c) ≡ true
      bound c (inl same) = rw same (min_from-le_start x xs)
      bound c (inr rest) = min_from-le_rest x xs c rest

  pub min_by_key-none : (xs : List A) → min_by_key xs ≡ none → xs ≡ []
  unfolding min_by_key
  min_by_key-none [] h = refl
  min_by_key-none (x ∷ xs) h = cc
