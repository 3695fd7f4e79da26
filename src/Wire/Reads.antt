-- ===== src/Wire/Reads.antt =====
-- A parser reads exactly the bytes of a value, whatever follows them: one rule for each
-- combinator of nom.
use ire.Prelude.{
  ℕ, ◌<◌, ◌≡◌, refl, ◌∙◌, subst, Bool, true, false, Option, none, some, List, [], ◌∷◌, Bytes, All,
  length, append_assoc, append-nil, Result, ok,
}
use ire.Wire.{◌<>◌, Parser, ◌>>>◌, returns, be_bytes, byte_range}
use ire.Wire.BigEndian.{length-be_bytes, be_value-be_bytes}
use ire.Wire.Nom.{Nom}

pub record Reads {E A : Type 0} (p : Parser E Bytes A) (bs : Bytes) (a : A) : Type 0 where
  pub at : (rest : Bytes) → p (bs <> rest) ≡ ok (rest, a)

pub Reads-bytes :
    {E A : Type 0} {p : Parser E Bytes A} {bs cs : Bytes} {a : A}
    → bs ≡ cs
    → Reads p bs a
    → Reads p cs a
Reads-bytes {p = p} {a = a} e r = subst (λ x. Reads p x a) e r

pub Reads-value :
    {E A : Type 0} {p : Parser E Bytes A} {bs : Bytes} {a b : A}
    → a ≡ b
    → Reads p bs a
    → Reads p bs b
Reads-value {p = p} {bs = bs} e r = subst (λ x. Reads p bs x) e r

pub Reads-returns : {E A : Type 0} (a : A) → Reads {E = E} (returns a) [] a
unfolding returns
Reads-returns a = record { at = λ rest. refl }

pub Reads-bind :
    {E A B : Type 0} {p : Parser E Bytes A} {bs cs : Bytes} {a : A} {b : B}
    (q : A → Parser E Bytes B)
    → Reads p bs a
    → Reads (q a) cs b
    → Reads (p >>> q) (bs <> cs) b
unfolding ◌>>>◌
Reads-bind {bs = bs} {cs = cs} q r s = record {
  at = λ rest. rw (append_assoc bs cs rest, r.at (cs <> rest)) (s.at rest);
}

pub Reads-then :
    {E A B : Type 0} {p : Parser E Bytes A} {bs : Bytes} {a : A} {b : B} (q : A → Parser E Bytes B)
    → Reads p bs a
    → Reads (q a) [] b
    → Reads (p >>> q) bs b
Reads-then {bs = bs} q r s = Reads-bytes (append-nil bs) (Reads-bind q r s)

-- A combinator that is equal to one that reads.
pub Reads-eq :
    {E A : Type 0} {p q : Parser E Bytes A} {bs : Bytes} {a : A}
    → ((i : Bytes) → p i ≡ q i)
    → Reads q bs a
    → Reads p bs a
Reads-eq {bs = bs} e r = record { at = λ rest. e (bs <> rest) ∙ r.at rest }

module _ (nom : Nom) where
  open nom use {take, tag, be_u8, be_u16, be_u32, be_u64, take_bits, bits, map, map_opt, map_res}
  open nom use {verify, peek, cond, pair, preceded, terminated, count, length_count, length_data}
  open nom use {length_value, Err}

  pub take-Reads : (n : ℕ) (bs : Bytes) → length bs ≡ n → Reads (take n) bs bs
  take-Reads n bs h = record { at = λ rest. rw (← h) (nom.take_ok bs rest) }

  pub tag-Reads : (bs : Bytes) → Reads (tag bs) bs bs
  tag-Reads bs = record { at = nom.tag_ok bs }

  pub be_u8-Reads : (n : ℕ) → n < byte_range 1 → Reads be_u8 (be_bytes 1 n) n
  be_u8-Reads n h =
      Reads-value (be_value-be_bytes 1 n h)
        (record { at = λ rest. nom.be_u8_ok (be_bytes 1 n) rest (length-be_bytes 1 n) })

  pub be_u16-Reads : (n : ℕ) → n < byte_range 2 → Reads be_u16 (be_bytes 2 n) n
  be_u16-Reads n h =
      Reads-value (be_value-be_bytes 2 n h)
        (record { at = λ rest. nom.be_u16_ok (be_bytes 2 n) rest (length-be_bytes 2 n) })

  pub be_u32-Reads : (n : ℕ) → n < byte_range 4 → Reads be_u32 (be_bytes 4 n) n
  be_u32-Reads n h =
      Reads-value (be_value-be_bytes 4 n h)
        (record { at = λ rest. nom.be_u32_ok (be_bytes 4 n) rest (length-be_bytes 4 n) })

  pub be_u64-Reads : (n : ℕ) → n < byte_range 8 → Reads be_u64 (be_bytes 8 n) n
  be_u64-Reads n h =
      Reads-value (be_value-be_bytes 8 n h)
        (record { at = λ rest. nom.be_u64_ok (be_bytes 8 n) rest (length-be_bytes 8 n) })

module _ (nom : Nom) {A B : Type 0} where
  pub map-Reads :
      {p : Parser nom.Err Bytes A} {bs : Bytes} {a : A} (f : A → B)
      → Reads p bs a
      → Reads (nom.map p f) bs (f a)
  map-Reads {p} f r = Reads-eq (nom.map_eq p f) (Reads-then _ r (Reads-returns (f _)))

  pub map_opt-Reads :
      {p : Parser nom.Err Bytes A} {bs : Bytes} {a : A} {b : B} (f : A → Option B)
      → Reads p bs a
      → f a ≡ some b
      → Reads (nom.map_opt p f) bs b
  map_opt-Reads {p} {bs} f r e = record {
    at = λ rest. nom.map_opt_some p f (bs <> rest) rest _ _ (r.at rest) e;
  }

  pub map_res-Reads :
      {X : Type 0} {p : Parser nom.Err Bytes A} {bs : Bytes} {a : A} {b : B} (f : A → Result X B)
      → Reads p bs a
      → f a ≡ ok b
      → Reads (nom.map_res p f) bs b
  map_res-Reads {p = p} {bs = bs} f r e = record {
    at = λ rest. nom.map_res_ok p f (bs <> rest) rest _ _ (r.at rest) e;
  }

  pub pair-Reads :
      {p : Parser nom.Err Bytes A} {q : Parser nom.Err Bytes B} {bs cs : Bytes} {a : A} {b : B}
      → Reads p bs a
      → Reads q cs b
      → Reads (nom.pair p q) (bs <> cs) (a, b)
  pair-Reads {p} {q} r s =
      Reads-eq (nom.pair_eq p q) (Reads-bind _ r (Reads-then _ s (Reads-returns _)))

  pub preceded-Reads :
      {p : Parser nom.Err Bytes A} {q : Parser nom.Err Bytes B} {bs cs : Bytes} {a : A} {b : B}
      → Reads p bs a
      → Reads q cs b
      → Reads (nom.preceded p q) (bs <> cs) b
  preceded-Reads {p} {q} r s = Reads-eq (nom.preceded_eq p q) (Reads-bind _ r s)

  pub terminated-Reads :
      {p : Parser nom.Err Bytes A} {q : Parser nom.Err Bytes B} {bs cs : Bytes} {a : A} {b : B}
      → Reads p bs a
      → Reads q cs b
      → Reads (nom.terminated p q) (bs <> cs) a
  terminated-Reads {p} {q} r s =
      Reads-eq (nom.terminated_eq p q) (Reads-bind _ r (Reads-then _ s (Reads-returns _)))

module _ (nom : Nom) {A : Type 0} where
  pub verify-Reads :
      {p : Parser nom.Err Bytes A} {bs : Bytes} {a : A} (test : A → Bool)
      → Reads p bs a
      → test a ≡ true
      → Reads (nom.verify p test) bs a
  verify-Reads {p} {bs} test r e = record {
    at = λ rest. nom.verify_ok p test (bs <> rest) rest _ (r.at rest) e;
  }

  pub cond_true-Reads :
      {p : Parser nom.Err Bytes A} {bs : Bytes} {a : A}
      → Reads p bs a
      → Reads (nom.cond true p) bs (some a)
  cond_true-Reads {p} r = Reads-eq (nom.cond_true p) (Reads-then _ r (Reads-returns _))

  pub cond_false-Reads : (p : Parser nom.Err Bytes A) → Reads (nom.cond false p) [] none
  cond_false-Reads p = Reads-eq (nom.cond_false p) (Reads-returns none)

module _ (nom : Nom) where
  pub length_data-Reads :
      {size : Parser nom.Err Bytes ℕ} {bs : Bytes} (body : Bytes)
      → Reads size bs (length body)
      → Reads (nom.length_data size) (bs <> body) body
  length_data-Reads {size} body r =
      Reads-eq (nom.length_data_eq size) (Reads-bind _ r (take-Reads nom (length body) body refl))

-- The bytes of a list of values, one after the other.
unfoldable pub each : {A : Type 0} → (A → Bytes) → List A → Bytes
each f [] = []
each f (x ∷ xs) = f x <> each f xs

module _ (nom : Nom) {A : Type 0} where
  pub count-Reads :
      {p : Parser nom.Err Bytes A} (f : A → Bytes) (xs : List A)
      → All (λ x. Reads p (f x) x) xs
      → Reads (nom.count p (length xs)) (each f xs) xs
  unfolding each
  count-Reads {p} f [] h = Reads-eq (nom.count_zero p) (Reads-returns [])
  count-Reads {p} f (x ∷ xs) h =
      Reads-eq (nom.count_suc p (length xs))
        (Reads-bind _ h.0 (Reads-then _ (count-Reads f xs h.1) (Reads-returns (x ∷ xs))))

  pub length_count-Reads :
      {size : Parser nom.Err Bytes ℕ} {p : Parser nom.Err Bytes A} {bs : Bytes} (f : A → Bytes)
      (xs : List A)
      → Reads size bs (length xs)
      → All (λ x. Reads p (f x) x) xs
      → Reads (nom.length_count size p) (bs <> each f xs) xs
  length_count-Reads {size} {p} f xs r h =
      Reads-eq (nom.length_count_eq size p) (Reads-bind _ r (count-Reads f xs h))

  pub length_value-Reads :
      {size : Parser nom.Err Bytes ℕ} {p : Parser nom.Err Bytes A} {bs : Bytes} (body : Bytes)
      {a : A}
      → Reads size bs (length body)
      → Reads p body a
      → Reads (nom.length_value size p) (bs <> body) a
  length_value-Reads {size} {p} {bs} body r s = record {
    at = λ rest.
        nom.length_value_ok size p ((bs <> body) <> rest) rest [] body _
          ((length_data-Reads nom body r).at rest) (rw (← append-nil body) (s.at []));
  }
