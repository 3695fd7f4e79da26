-- ===== src/HashMap.antt =====
-- `std::collections::HashMap`, as the program uses it: an association list with one entry for a
-- key. No operation of the program depends on the order of the entries.
use ire.Prelude.{
  ◌≡◌, refl, Bool, true, false, Option, none, some, List, [], ◌∷◌, arith, Eq, if◌then◌else◌,
  Bool-cases, inl, inr,
}

abbrev pub HashMap : Type 0 → Type 0 → Type 0
HashMap K V = List (K × V)

pub beq_self : {K : Type 0} ⦃e : Eq K⦄ (k : K) → e.beq k k ≡ true
beq_self ⦃e⦄ k = (e.beq_iff k k).1 refl

-- What a filter leaves of one entry.
abbrev pub keep : {K V : Type 0} → (K → V → Bool) → K → Option V → Option V
keep p k none = none
keep p k (some v) = if p k v then some v else none

module _ {K V : Type 0} ⦃e : Eq K⦄ where
  unfoldable pub get : K → HashMap K V → Option V
  get k [] = none
  get k ((j, v) ∷ m) = if e.beq j k then some v else get k m

  unfoldable pub contains_key : K → HashMap K V → Bool
  unfolding get
  contains_key k m = elim (get k m) [ none ↦ false | some _ ↦ true ]

  unfoldable pub remove : K → HashMap K V → HashMap K V
  remove k [] = []
  remove k ((j, v) ∷ m) = let rest = remove k m in if e.beq j k then rest else (j, v) ∷ rest

  unfoldable pub insert : K → V → HashMap K V → HashMap K V
  unfolding remove
  insert k v m = (k, v) ∷ remove k m

  unfoldable pub retain : (K → V → Bool) → HashMap K V → HashMap K V
  retain p [] = []
  retain p ((k, v) ∷ m) = let rest = retain p m in if p k v then (k, v) ∷ rest else rest

  -- One entry for a key.
  abbrev pub IsDistinct : HashMap K V → Type 0
  IsDistinct [] = Unit
  IsDistinct ((k, v) ∷ m) = (get k m ≡ none) × IsDistinct m

  pub get-remove :
      (k j : K) (m : HashMap K V) → get j (remove k m) ≡ (if e.beq k j then none else get j m)
  unfolding get remove
  get-remove k j [] = ground arith
  get-remove k j ((i, v) ∷ m) =
      ground (arith, e.beq_iff i k, e.beq_iff i j, e.beq_iff k j, get-remove k j m)

  pub get-insert :
      (k j : K) (v : V) (m : HashMap K V)
      → get j (insert k v m) ≡ (if e.beq k j then some v else get j m)
  unfolding get insert
  get-insert k j v m = ground (arith, get-remove k j m)

  pub get-insert_self : (k : K) (v : V) (m : HashMap K V) → get k (insert k v m) ≡ some v
  get-insert_self k v m = ground (arith, get-insert k k v m, beq_self k)

  pub remove-IsDistinct : (k : K) (m : HashMap K V) → IsDistinct m → IsDistinct (remove k m)
  unfolding remove
  remove-IsDistinct k [] h = tt
  remove-IsDistinct k ((j, v) ∷ m) h = elim (Bool-cases (e.beq j k)) [
    | inl eq ↦ rw eq (remove-IsDistinct k m h.1)
    | inr ne ↦ rw ne (ground (arith, get-remove k j m), remove-IsDistinct k m h.1)
  ]

  pub insert-IsDistinct :
      (k : K) (v : V) (m : HashMap K V) → IsDistinct m → IsDistinct (insert k v m)
  unfolding insert
  insert-IsDistinct k v m h =
      (ground (arith, get-remove k k m, beq_self k), remove-IsDistinct k m h)

  pub get-retain :
      (p : K → V → Bool) (k : K) (m : HashMap K V)
      → IsDistinct m
      → get k (retain p m) ≡ keep p k (get k m)
  unfolding get retain
  get-retain p k [] h = refl
  get-retain p k ((j, v) ∷ m) h = elim (Bool-cases (e.beq j k)) [
    | inl eq ↦
        let same : j ≡ k = (e.beq_iff j k).0 eq in
        rw eq (ground (arith, same, h.0, eq, get-retain p k m h.1))
    | inr ne ↦ ground (arith, ne, get-retain p k m h.1)
  ]

  pub retain-IsDistinct :
      (p : K → V → Bool) (m : HashMap K V) → IsDistinct m → IsDistinct (retain p m)
  unfolding retain
  retain-IsDistinct p [] h = tt
  retain-IsDistinct p ((k, v) ∷ m) h = elim (Bool-cases (p k v)) [
    | inl kept ↦ rw kept (ground (arith, get-retain p k m h.1, h.0), retain-IsDistinct p m h.1)
    | inr gone ↦ rw gone (retain-IsDistinct p m h.1)
  ]

pub keep-some :
    {K V : Type 0} (p : K → V → Bool) (k : K) (o : Option V) (v : V)
    → keep p k o ≡ some v
    → (o ≡ some v) × (p k v ≡ true)
keep-some p k none v h = cc
keep-some p k (some w) v h = elim (Bool-cases (p k w)) [
  | inl yes_kept ↦ let e : w ≡ v = ground arith in (ground arith, rw (← e) yes_kept)
  | inr gone ↦ absurd (ground arith)
]
