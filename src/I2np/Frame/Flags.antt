-- ===== src/I2np/Frame/Flags.antt =====
-- The flag bytes of src/i2np/frame.rs: what the generators compute bit by bit is the layout, and its
-- bit fields are the flags.
use ire.Prelude.{ℕ, zero, suc, ◌/◌, ◌%◌, ◌<◌, ◌≤◌, ap, [], ◌∷◌, ◌≡◌, refl, arith, Bool, true, false}
use ire.I2np.{DatabaseLookupType, any, lease_set, router_info, exploratory}
use ire.Wire.{be_bytes}
use ire.I2np.Frame.Generate.{lookup_type_bits, lookup_flags_byte, instructions_byte}
use ire.I2np.Frame.Layout.{bit, lookup_byte, clove_byte}

pub lookup_flags_byte-eq :
    (d e : Bool) (t : DatabaseLookupType)
    → lookup_flags_byte (record { delivery = d; encryption = e; lookup_type = t })
      ≡ lookup_byte d e t
unfolding lookup_flags_byte lookup_type_bits
lookup_flags_byte-eq false false any = refl
lookup_flags_byte-eq false true any = refl
lookup_flags_byte-eq true false any = refl
lookup_flags_byte-eq true true any = refl
lookup_flags_byte-eq false false lease_set = refl
lookup_flags_byte-eq false true lease_set = refl
lookup_flags_byte-eq true false lease_set = refl
lookup_flags_byte-eq true true lease_set = refl
lookup_flags_byte-eq false false router_info = refl
lookup_flags_byte-eq false true router_info = refl
lookup_flags_byte-eq true false router_info = refl
lookup_flags_byte-eq true true router_info = refl
lookup_flags_byte-eq false false exploratory = refl
lookup_flags_byte-eq false true exploratory = refl
lookup_flags_byte-eq true false exploratory = refl
lookup_flags_byte-eq true true exploratory = refl

pub lookup_byte-fields :
    (d e : Bool) (t : DatabaseLookupType)
    → Path
        (ℕ × (ℕ × ℕ))
        (lookup_byte d e t / 4 % 4, (lookup_byte d e t / 2 % 2, lookup_byte d e t / 1 % 2))
        (lookup_type_bits t, (bit e, bit d))
unfolding lookup_type_bits
lookup_byte-fields false false any = refl
lookup_byte-fields false true any = refl
lookup_byte-fields true false any = refl
lookup_byte-fields true true any = refl
lookup_byte-fields false false lease_set = refl
lookup_byte-fields false true lease_set = refl
lookup_byte-fields true false lease_set = refl
lookup_byte-fields true true lease_set = refl
lookup_byte-fields false false router_info = refl
lookup_byte-fields false true router_info = refl
lookup_byte-fields true false router_info = refl
lookup_byte-fields true true router_info = refl
lookup_byte-fields false false exploratory = refl
lookup_byte-fields false true exploratory = refl
lookup_byte-fields true false exploratory = refl
lookup_byte-fields true true exploratory = refl

pub instructions_byte-eq :
    (e : Bool) (t : ℕ) (d : Bool) → t < 4 → instructions_byte e t d ≡ clove_byte e t d
unfolding instructions_byte
instructions_byte-eq false zero false h = refl
instructions_byte-eq false zero true h = refl
instructions_byte-eq true zero false h = refl
instructions_byte-eq true zero true h = refl
instructions_byte-eq false (suc zero) false h = refl
instructions_byte-eq false (suc zero) true h = refl
instructions_byte-eq true (suc zero) false h = refl
instructions_byte-eq true (suc zero) true h = refl
instructions_byte-eq false (suc (suc zero)) false h = refl
instructions_byte-eq false (suc (suc zero)) true h = refl
instructions_byte-eq true (suc (suc zero)) false h = refl
instructions_byte-eq true (suc (suc zero)) true h = refl
instructions_byte-eq false (suc (suc (suc zero))) false h = refl
instructions_byte-eq false (suc (suc (suc zero))) true h = refl
instructions_byte-eq true (suc (suc (suc zero))) false h = refl
instructions_byte-eq true (suc (suc (suc zero))) true h = refl
instructions_byte-eq e (suc (suc (suc (suc n)))) d h = absurd (omega arith)

pub clove_byte-fields :
    (e : Bool) (t : ℕ) (d : Bool)
    → t < 4
    → Path
        (ℕ × (ℕ × ℕ))
        (clove_byte e t d / 128 % 2, (clove_byte e t d / 32 % 4, clove_byte e t d / 16 % 2))
        (bit e, (t, bit d))
clove_byte-fields false zero false h = refl
clove_byte-fields false zero true h = refl
clove_byte-fields true zero false h = refl
clove_byte-fields true zero true h = refl
clove_byte-fields false (suc zero) false h = refl
clove_byte-fields false (suc zero) true h = refl
clove_byte-fields true (suc zero) false h = refl
clove_byte-fields true (suc zero) true h = refl
clove_byte-fields false (suc (suc zero)) false h = refl
clove_byte-fields false (suc (suc zero)) true h = refl
clove_byte-fields true (suc (suc zero)) false h = refl
clove_byte-fields true (suc (suc zero)) true h = refl
clove_byte-fields false (suc (suc (suc zero))) false h = refl
clove_byte-fields false (suc (suc (suc zero))) true h = refl
clove_byte-fields true (suc (suc (suc zero))) false h = refl
clove_byte-fields true (suc (suc (suc zero))) true h = refl
clove_byte-fields e (suc (suc (suc (suc n)))) d h = absurd (omega arith)

bit-le : (b : Bool) → bit b ≤ 1
bit-le true = omega arith
bit-le false = omega arith

lookup_type_bits-le : (t : DatabaseLookupType) → lookup_type_bits t ≤ 3
unfolding lookup_type_bits
lookup_type_bits-le any = omega arith
lookup_type_bits-le lease_set = omega arith
lookup_type_bits-le router_info = omega arith
lookup_type_bits-le exploratory = omega arith

pub byte_bytes : (n : ℕ) → n < 256 → n ∷ [] ≡ be_bytes 1 n
unfolding be_bytes
byte_bytes n h = let e : n ≡ n % 256 = omega arith in ap (λ k. k ∷ []) e

-- The flags fit one byte.
pub lookup_byte-bytes :
    (d e : Bool) (t : DatabaseLookupType) → lookup_byte d e t ∷ [] ≡ be_bytes 1 (lookup_byte d e t)
lookup_byte-bytes d e t =
    byte_bytes (lookup_byte d e t) (omega (arith, bit-le d, bit-le e, lookup_type_bits-le t))

pub clove_byte-bytes :
    (e : Bool) (t : ℕ) (d : Bool) → t < 4 → clove_byte e t d ∷ [] ≡ be_bytes 1 (clove_byte e t d)
clove_byte-bytes e t d h = byte_bytes (clove_byte e t d) (omega (arith, h, bit-le d, bit-le e))
