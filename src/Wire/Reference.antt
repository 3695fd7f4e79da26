-- ===== src/Wire/Reference.antt =====
-- Concrete parsers and generators that meet the laws of `Nom` and `Cookie`, for the tests.
use Prim.Native.Nat.{◌-◌, ◌/◌, ◌%◌, ◌^◌}
use ire.Prelude.{
  ℕ, ◌<◌, zero, suc, ◌+◌, ◌≡◌, refl, arith, Bool, true, false, Option, none, some, List, [], ◌∷◌,
  Bytes, length, length-append, take, drop, take-append, drop-append, append_assoc, bytes_beq,
  bytes_beq_self, leb, if◌then◌else◌, Result, ok, err, ◌>>=◌,
}
use ire.Wire.{◌<>◌, Stop, error, Parser, Gen, ◌>>>◌, returns, be_bytes, be_value}
use ire.Wire.Nom.{Nom, Bits, bits_at}
use ire.Wire.Cookie.{Cookie}

abbrev failed : {A : Type 0} → Result (Stop Unit) A
failed = err (error tt)

abbrev take_ref : ℕ → Parser Unit Bytes Bytes
take_ref n i = if leb n (length i) then ok (drop n i, take n i) else failed

abbrev tag_ref : Bytes → Parser Unit Bytes Bytes
tag_ref t i = if bytes_beq (take (length t) i) t then ok (drop (length t) i, t) else failed

abbrev be_ref : ℕ → Parser Unit Bytes ℕ
be_ref n i = take_ref n i >>= λ r. ok (r.0, be_value r.1)

abbrev take_bits_ref : ℕ → Parser Unit Bits ℕ
take_bits_ref n ([], m) = failed
take_bits_ref n (b ∷ rest, m) = ok (bits_at b rest (m + n), b / 2 ^ (8 - (m + n)) % 2 ^ n)

abbrev whole_bytes : Bits → Bytes
whole_bytes (i, zero) = i
whole_bytes (i, suc m) = drop 1 i

abbrev bits_ref : {A : Type 0} → Parser Unit Bits A → Parser Unit Bytes A
bits_ref p i = p (i, 0) >>= λ r. ok (whole_bytes r.0, r.1)

abbrev from_option : {I B : Type 0} → I → Option B → Result (Stop Unit) (I × B)
from_option i none = failed
from_option i (some b) = ok (i, b)

abbrev from_result : {I X B : Type 0} → I → Result X B → Result (Stop Unit) (I × B)
from_result i (err x) = failed
from_result i (ok b) = ok (i, b)

abbrev cond_ref : {I A : Type 0} → Bool → Parser Unit I A → Parser Unit I (Option A)
cond_ref true p = p >>> λ a. returns (some a)
cond_ref false p = returns none

abbrev count_ref : {A : Type 0} → Parser Unit Bytes A → ℕ → Parser Unit Bytes (List A)
count_ref p zero = returns []
count_ref p (suc n) = p >>> λ a. count_ref p n >>> λ xs. returns (a ∷ xs)

pub take_ref_ok : (bs rest : Bytes) → take_ref (length bs) (bs <> rest) ≡ ok (rest, bs)
take_ref_ok bs rest =
    let e : leb (length bs) (length (bs <> rest)) ≡ true = ground (arith, length-append bs rest) in
    rw (e, drop-append bs rest, take-append bs rest) refl

pub tag_ref_ok : (bs rest : Bytes) → tag_ref bs (bs <> rest) ≡ ok (rest, bs)
tag_ref_ok bs rest = rw (take-append bs rest, bytes_beq_self bs, drop-append bs rest) refl

pub be_ref_ok :
    (n : ℕ) (bs rest : Bytes) → length bs ≡ n → be_ref n (bs <> rest) ≡ ok (rest, be_value bs)
be_ref_ok n bs rest h = rw (← h, take_ref_ok bs rest) refl

unfoldable pub reference_nom : Nom
unfolding ◌>>>◌ returns
reference_nom = record {
  Err = Unit;
  error_new = λ i k. tt;
  take = take_ref;
  tag = tag_ref;
  be_u8 = be_ref 1;
  be_u16 = be_ref 2;
  be_u32 = be_ref 4;
  be_u64 = be_ref 8;
  take_bits = take_bits_ref;
  bits = bits_ref;
  map = λ p f. p >>> λ a. returns (f a);
  map_opt = λ p f i. p i >>= λ r. from_option r.0 (f r.1);
  map_res = λ p f i. p i >>= λ r. from_result r.0 (f r.1);
  verify = λ p test i. p i >>= λ r. if test r.1 then ok r else failed;
  peek = λ p i. p i >>= λ r. ok (i, r.1);
  cond = cond_ref;
  pair = λ p q. p >>> λ a. q >>> λ b. returns (a, b);
  preceded = λ p q. p >>> λ a. q;
  terminated = λ p q. p >>> λ a. q >>> λ b. returns a;
  count = count_ref;
  length_count = λ size p. size >>> count_ref p;
  length_data = λ size. size >>> take_ref;
  length_value = λ size p i. (size >>> take_ref) i >>= λ r. p r.1 >>= λ s. ok (r.0, s.1);
  take_ok = take_ref_ok;
  tag_ok = tag_ref_ok;
  be_u8_ok = be_ref_ok 1;
  be_u16_ok = be_ref_ok 2;
  be_u32_ok = be_ref_ok 4;
  be_u64_ok = be_ref_ok 8;
  take_bits_ok = λ n m b rest h. refl;
  bits_ok = λ p i rest a e. rw e refl;
  bits_partial = λ p i rest b m a e. rw e refl;
  map_eq = λ p f i. refl;
  map_opt_some = λ p f i rest a b e h. rw (e, h) refl;
  map_opt_none = λ p f i rest a e h. (tt, rw (e, h) refl);
  map_res_ok = λ p f i rest a b e h. rw (e, h) refl;
  map_res_err = λ p f i rest a x e h. (tt, rw (e, h) refl);
  verify_ok = λ p test i rest a e h. rw (e, h) refl;
  verify_fails = λ p test i rest a e h. (tt, rw (e, h) refl);
  peek_ok = λ p i rest a e. rw e refl;
  peek_err = λ p i x e. rw e refl;
  cond_true = λ p i. refl;
  cond_false = λ p i. refl;
  pair_eq = λ p q i. refl;
  preceded_eq = λ p q i. refl;
  terminated_eq = λ p q i. refl;
  count_zero = λ p i. refl;
  count_suc = λ p n i. refl;
  length_count_eq = λ size p i. refl;
  length_data_eq = λ size i. refl;
  length_value_ok = λ size p i rest left bs a e h. rw (e, h) refl;
}

-- Too little room ends in an error.
abbrev slice_ref : Bytes → Gen Unit
slice_ref bs (buf, i) =
    if leb (i + length bs) (length buf)
    then ok (take i buf <> bs <> drop (i + length bs) buf, i + length bs)
    else err (error tt)

abbrev skip_ref : ℕ → Gen Unit
skip_ref n (buf, i) = if leb (i + n) (length buf) then ok (buf, i + n) else err (error tt)

abbrev many_ref : {A : Type 0} → List A → (A → Gen Unit) → Gen Unit
many_ref [] f s = ok s
many_ref (x ∷ xs) f s = f x s >>= many_ref xs f

abbrev do_gen_ref : List (Gen Unit) → Gen Unit
do_gen_ref [] s = ok s
do_gen_ref (g ∷ gs) s = g s >>= do_gen_ref gs

abbrev cond_gen_ref : Bool → Gen Unit → Gen Unit
cond_gen_ref true g s = g s
cond_gen_ref false g s = ok s

drop_both :
    (pre old post : Bytes) (n : ℕ)
    → length old ≡ n
    → drop (length pre + n) (pre <> old <> post) ≡ post
drop_both pre old post n l =
    let h : length (pre <> old) ≡ length pre + n = omega (arith, l, length-append pre old) in
    rw (← append_assoc pre old post, ← h) (drop-append (pre <> old) post)

fits :
    (pre old post : Bytes) (n : ℕ)
    → length old ≡ n
    → leb (length pre + n) (length (pre <> old <> post)) ≡ true
fits pre old post n l = ground (arith, l, length-append pre (old <> post), length-append old post)

pub slice_ref_ok :
    (bs pre old post : Bytes)
    → length old ≡ length bs
    → slice_ref bs (pre <> old <> post, length pre) ≡ ok (pre <> bs <> post, length pre + length bs)
slice_ref_ok bs pre old post l =
    rw
      (
        fits pre old post (length bs) l,
        take-append pre (old <> post),
        drop_both pre old post (length bs) l,
      )
      refl

pub slice_ref_short :
    (bs buf : Bytes) (i : ℕ)
    → length buf < i + length bs
    → (e : Unit {0}) × (slice_ref bs (buf, i) ≡ err (error e))
slice_ref_short bs buf i h =
    let no_room : leb (i + length bs) (length buf) ≡ false = ground arith in (tt, rw no_room refl)

pub skip_ref_ok :
    (pre old post : Bytes)
    → skip_ref (length old) (pre <> old <> post, length pre)
      ≡ ok (pre <> old <> post, length pre + length old)
skip_ref_ok pre old post = rw (fits pre old post (length old) refl) refl

unfoldable pub reference_cookie : Cookie
reference_cookie = record {
  GenError = Unit;
  custom_error = λ n. tt;
  slice = slice_ref;
  be_u8 = λ n. slice_ref (be_bytes 1 n);
  be_u16 = λ n. slice_ref (be_bytes 2 n);
  be_u32 = λ n. slice_ref (be_bytes 4 n);
  be_u64 = λ n. slice_ref (be_bytes 8 n);
  skip = skip_ref;
  at_offset = λ o g s. g (s.0, o) >>= λ r. ok (r.0, s.1);
  cond = cond_gen_ref;
  many = many_ref;
  do_gen = do_gen_ref;
  label = λ f s. f s.1 s;
  slice_ok = slice_ref_ok;
  slice_short = slice_ref_short;
  be_u8_eq = λ n s. refl;
  be_u16_eq = λ n s. refl;
  be_u32_eq = λ n s. refl;
  be_u64_eq = λ n s. refl;
  skip_ok = skip_ref_ok;
  at_offset_ok = λ o g buf after i j e. rw e refl;
  cond_true = λ g s. refl;
  cond_false = λ g s. refl;
  many_nil = λ f s. refl;
  many_cons = λ x xs f s. refl;
  do_gen_nil = λ s. refl;
  do_gen_cons = λ g gs s. refl;
  label_eq = λ f buf i. refl;
}
