-- ===== src/Tunnel/Frame/RoundTrip.antt =====
-- A fragment that src/tunnel/frame.rs writes is the one that it reads.
use ire.Prelude.{
  ℕ, ◌+◌, ◌*◌, ◌/◌, ◌%◌, ◌<◌, ◌≡◌, refl, ap, ◌∙◌, arith, Bool, true, false, [], ◌∷◌, Bytes, length,
  ok, ltb, ◌==◌,
}
use ire.Data.Frame.RoundTrip.{hash-Reads, tunnel_id-Reads}
use ire.I2np.Frame.Flags.{byte_bytes}
use ire.I2np.Frame.Generate.{is_some}
use ire.I2np.Frame.Layout.{optional}
use ire.I2np.Frame.Optional.{Within-map, announced-Reads}
use ire.Tunnel.Fragment.{
  TunnelMessageDeliveryType, local, tunnel, router, FirstFragmentDeliveryInstructions,
  FollowOnFragmentDeliveryInstructions, TunnelMessageDeliveryInstructions, first, follow_on,
}
use ire.Tunnel.Frame.{
  first_flags, delivery_of, first_frag_of, first_frag_di, follow_on_flags, follow_on_frag_di,
  tmdi_of, tmdi, fragment, delivery_code, gen_tmdi_fragment_pair,
}
use ire.Tunnel.Frame.Flags.{first_sum, follow_on_sum}
use ire.Tunnel.Frame.Layout.{
  delivery_bytes, tmdi_bytes, fragment_bytes, IsDelivery, IsTmdi, IsFragment,
}
use ire.Tunnel.Frame.Written.{gen_fragment-Writes}
use ire.Wire.{◌<>◌, ◌>>>◌, be_bytes, returns}
use ire.Wire.Nom.{Nom}
use ire.Wire.Cookie.{Cookie}
use ire.Wire.Reads.{
  Reads, Reads-bind, Reads-then, Reads-bytes, Reads-value, Reads-returns, map-Reads, pair-Reads,
  be_u16-Reads, be_u32-Reads, length_data-Reads,
}
use ire.Wire.ReadsBits.{take_bits-ReadsBits, pair-ReadsBits, bits-Reads}

-- What the parser makes of the flags of a first fragment.
first_fields :
    (d : TunnelMessageDeliveryType) (b : Bool)
    → Path
        (ℕ × Bool)
        (first_sum (delivery_code d) b / 32 % 4, ltb 0 (first_sum (delivery_code d) b / 8 % 2))
        (delivery_code d, b)
unfolding delivery_code
first_fields local true = refl
first_fields local false = refl
first_fields (tunnel tid to) true = refl
first_fields (tunnel tid to) false = refl
first_fields (router to) true = refl
first_fields (router to) false = refl

first_test :
    (d : TunnelMessageDeliveryType) (b : Bool)
    → (first_sum (delivery_code d) b / 128 % 2 == 0) ≡ true
unfolding delivery_code
first_test local true = refl
first_test local false = refl
first_test (tunnel tid to) true = refl
first_test (tunnel tid to) false = refl
first_test (router to) true = refl
first_test (router to) false = refl

first_sum-lt : (d : TunnelMessageDeliveryType) (b : Bool) → first_sum (delivery_code d) b < 256
unfolding delivery_code
first_sum-lt local true = omega arith
first_sum-lt local false = omega arith
first_sum-lt (tunnel tid to) true = omega arith
first_sum-lt (tunnel tid to) false = omega arith
first_sum-lt (router to) true = omega arith
first_sum-lt (router to) false = omega arith

follow_on_fields :
    (n : ℕ) (l : Bool)
    → n < 64
    → Path (ℕ × Bool) (follow_on_sum n l / 2 % 64, ltb 0 (follow_on_sum n l / 1 % 2)) (n, l)
follow_on_fields n true h =
    let a : (128 + 2 * n + 1) / 2 % 64 ≡ n = omega arith in
    let b : (128 + 2 * n + 1) / 1 % 2 ≡ 1 = omega arith in rw (a, b) refl
follow_on_fields n false h =
    let a : (128 + 2 * n + 0) / 2 % 64 ≡ n = omega arith in
    let b : (128 + 2 * n + 0) / 1 % 2 ≡ 0 = omega arith in rw (a, b) refl

follow_on_test : (n : ℕ) (l : Bool) → n < 64 → (follow_on_sum n l / 128 % 2 == 0) ≡ false
follow_on_test n true h = let a : (128 + 2 * n + 1) / 128 % 2 ≡ 1 = omega arith in rw a refl
follow_on_test n false h = let a : (128 + 2 * n + 0) / 128 % 2 ≡ 1 = omega arith in rw a refl

follow_on_sum-lt : (n : ℕ) (l : Bool) → n < 64 → follow_on_sum n l < 256
follow_on_sum-lt n true h = omega arith
follow_on_sum-lt n false h = omega arith

module _ (nom : Nom) where
  first_flags-Reads :
      (d : TunnelMessageDeliveryType) (b : Bool)
      → Reads (first_flags nom) (first_sum (delivery_code d) b ∷ []) (delivery_code d, b)
  unfolding first_flags
  first_flags-Reads d b =
      let c = first_sum (delivery_code d) b in
      Reads-value (first_fields d b) (
        map-Reads nom _ (
          bits-Reads nom (
            pair-ReadsBits nom (omega arith) (take_bits-ReadsBits nom 1 0 c (omega arith)) (
              pair-ReadsBits nom (omega arith) (take_bits-ReadsBits nom 2 1 c (omega arith)) (
                pair-ReadsBits nom (omega arith) (take_bits-ReadsBits nom 1 3 c (omega arith)) (
                  pair-ReadsBits nom (omega arith) (take_bits-ReadsBits nom 1 4 c (omega arith))
                    (take_bits-ReadsBits nom 3 5 c (omega arith))))))))

  follow_on_flags-Reads :
      (n : ℕ) (l : Bool) → n < 64 → Reads (follow_on_flags nom) (follow_on_sum n l ∷ []) (n, l)
  unfolding follow_on_flags
  follow_on_flags-Reads n l h =
      let c = follow_on_sum n l in
      Reads-value (follow_on_fields n l h) (
        map-Reads nom _ (
          bits-Reads nom (
            pair-ReadsBits nom (omega arith) (take_bits-ReadsBits nom 1 0 c (omega arith)) (
              pair-ReadsBits nom (omega arith) (take_bits-ReadsBits nom 6 1 c (omega arith))
                (take_bits-ReadsBits nom 1 7 c (omega arith))))))

  delivery_of-Reads :
      (d : TunnelMessageDeliveryType)
      → IsDelivery d
      → Reads (delivery_of nom (delivery_code d)) (delivery_bytes d) d
  unfolding delivery_of delivery_code delivery_bytes IsDelivery
  delivery_of-Reads local h = Reads-returns local
  delivery_of-Reads (tunnel tid to) h =
      map-Reads nom _ (pair-Reads nom (tunnel_id-Reads nom tid h.0) (hash-Reads nom to h.1))
  delivery_of-Reads (router to) h = map-Reads nom _ (hash-Reads nom to h)

  -- The first bit of the instructions chooses the parser of all of them.
  tmdi-Reads_branch :
      (c : ℕ) (is_first : Bool) (bs : Bytes) (x : TunnelMessageDeliveryInstructions)
      → (c / 128 % 2 == 0) ≡ is_first
      → Reads (tmdi_of nom is_first) (c ∷ bs) x
      → Reads (tmdi nom) (c ∷ bs) x
  unfolding tmdi ◌>>>◌ returns
  tmdi-Reads_branch c is_first bs x e r = record {
    at = λ rest.
        let i = c ∷ bs <> rest in
        let b =
          nom.bits_partial (nom.take_bits 1) i (bs <> rest) c 0 _
            (nom.take_bits_ok 1 0 c (bs <> rest) (omega arith)) in
        let m : nom.map (nom.bits (nom.take_bits 1)) (λ n. n == 0) i ≡ ok (bs <> rest, is_first) =
          nom.map_eq (nom.bits (nom.take_bits 1)) (λ n. n == 0) i ∙ rw (b, e) refl in
        rw
          (nom.peek_ok (nom.map (nom.bits (nom.take_bits 1)) (λ n. n == 0)) i (bs <> rest) is_first
            m)
          (r.at rest);
  }

  first-Reads :
      (di : FirstFragmentDeliveryInstructions)
      → IsTmdi (first di)
      → Reads
          (first_frag_di nom)
          ((first_sum (delivery_code di.delivery_type) (is_some di.msg_id) ∷ [])
            <> delivery_bytes di.delivery_type
            <> optional (be_bytes 4) di.msg_id)
          di
  unfolding first_frag_di first_frag_of IsTmdi
  first-Reads di h =
      Reads-bind (first_frag_of nom) (first_flags-Reads di.delivery_type (is_some di.msg_id)) (
        Reads-bind _ (delivery_of-Reads di.delivery_type h.0) (
          Reads-then _
            (announced-Reads nom (be_bytes 4) di.msg_id _ refl
              (Within-map (be_u32-Reads nom) di.msg_id h.1))
            (Reads-returns _)))

  follow_on-Reads :
      (di : FollowOnFragmentDeliveryInstructions)
      → IsTmdi (follow_on di)
      → Reads
          (follow_on_frag_di nom)
          ((follow_on_sum di.fragment_number di.last_fragment ∷ []) <> be_bytes 4 di.msg_id)
          di
  unfolding follow_on_frag_di IsTmdi
  follow_on-Reads di h = map-Reads nom _ (
      pair-Reads nom (follow_on_flags-Reads di.fragment_number di.last_fragment h.0)
        (be_u32-Reads nom di.msg_id h.1))

  tmdi-Reads :
      (di : TunnelMessageDeliveryInstructions) → IsTmdi di → Reads (tmdi nom) (tmdi_bytes di) di
  unfolding tmdi_bytes tmdi_of
  tmdi-Reads (first di) h =
      let b = is_some di.msg_id in
      let tail = delivery_bytes di.delivery_type <> optional (be_bytes 4) di.msg_id in
      Reads-bytes (ap (λ x. x <> tail) (byte_bytes _ (first_sum-lt di.delivery_type b))) (
        tmdi-Reads_branch (first_sum (delivery_code di.delivery_type) b) true tail (first di)
          (first_test di.delivery_type b) (map-Reads nom _ (first-Reads di h)))
  tmdi-Reads (follow_on di) h =
      let n = di.fragment_number in
      let l = di.last_fragment in
      let small : n < 64 = unfold IsTmdi in h.0 in
      Reads-bytes (ap (λ x. x <> be_bytes 4 di.msg_id) (byte_bytes _ (follow_on_sum-lt n l small)))
        (tmdi-Reads_branch (follow_on_sum n l) false (be_bytes 4 di.msg_id) (follow_on di)
          (follow_on_test n l small) (map-Reads nom _ (follow_on-Reads di h)))

  fragment-Reads :
      (f : TunnelMessageDeliveryInstructions × Bytes)
      → IsFragment f
      → Reads (fragment nom) (fragment_bytes f) f
  unfolding fragment fragment_bytes
  fragment-Reads (di, frag) h =
      pair-Reads nom (tmdi-Reads di h.0)
        (length_data-Reads nom frag (be_u16-Reads nom (length frag) h.1))

-- A fragment that fits its fields, first or follow-on, is written to the buffer as its layout, and
-- reading that gives the fragment back with its instructions.
pub gen_tmdi_fragment_pair-fragment :
    (nom : Nom) (cf : Cookie) (f : TunnelMessageDeliveryInstructions × Bytes)
    (pre old post rest : Bytes)
    → IsFragment f
    → length old ≡ length (fragment_bytes f)
    → (gen_tmdi_fragment_pair cf f (pre <> old <> post, length pre)
        ≡ ok (pre <> fragment_bytes f <> post, length pre + length (fragment_bytes f)))
      × (fragment nom (fragment_bytes f <> rest) ≡ ok (rest, f))
gen_tmdi_fragment_pair-fragment nom cf f pre old post rest h l =
    ((gen_fragment-Writes cf f h).at pre old post l, (fragment-Reads nom f h).at rest)
