-- ===== src/Tunnel/Frame/Flags.antt =====
-- The flag bytes of fragments (src/tunnel/frame.rs): what the generators compute bit by bit, as sums,
-- and the bit fields in them.
use ire.Prelude.{
  ℕ, zero, suc, ◌+◌, ◌*◌, ◌<◌, ◌≡◌, refl, arith, Bool, true, false, ◌&&◌, inl, inr, ◌==◌, ==_iff,
  Bool-cases,
}
use ire.I2np.Frame.Layout.{bit}
use ire.Tunnel.Fragment.{TunnelMessageDeliveryType, local, tunnel, router}
use ire.Tunnel.Frame.{delivery_code, first_byte, follow_on_byte}

abbrev pub first_sum : ℕ → Bool → ℕ
first_sum code has_id = 32 * code + 8 * bit has_id

abbrev pub follow_on_sum : ℕ → Bool → ℕ
follow_on_sum n l = 128 + 2 * n + bit l

pub first_byte-eq :
    (d : TunnelMessageDeliveryType) (b : Bool)
    → first_byte (delivery_code d) b ≡ first_sum (delivery_code d) b
unfolding first_byte delivery_code
first_byte-eq local true = refl
first_byte-eq local false = refl
first_byte-eq (tunnel tid to) true = refl
first_byte-eq (tunnel tid to) false = refl
first_byte-eq (router to) true = refl
first_byte-eq (router to) false = refl

-- A test that holds below a bound, found by running it.
below : ℕ → (ℕ → Bool) → Bool
below zero test = true
below (suc n) test = test n && below n test

&&-true : (a b : Bool) → (a && b) ≡ true → (a ≡ true) × (b ≡ true)
&&-true true b h = (refl, h)
&&-true false b h = cc

below-true : (k : ℕ) (test : ℕ → Bool) (n : ℕ) → below k test ≡ true → n < k → test n ≡ true
unfolding below
below-true zero test n h l = absurd (omega arith)
below-true (suc k) test n h l =
    let both = &&-true (test k) (below k test) h in
    elim (Bool-cases (n == k)) [
      | inl same ↦ rw ((==_iff n k).0 same) both.0
      | inr other ↦ below-true k test n both.1 (ground arith)
    ]

agree_true : below 64 (λ n. follow_on_byte n true == follow_on_sum n true) ≡ true
unfolding below follow_on_byte
agree_true = refl

agree_false : below 64 (λ n. follow_on_byte n false == follow_on_sum n false) ≡ true
unfolding below follow_on_byte
agree_false = refl

pub follow_on_byte-eq : (n : ℕ) (l : Bool) → n < 64 → follow_on_byte n l ≡ follow_on_sum n l
follow_on_byte-eq n true h =
    (==_iff (follow_on_byte n true) (follow_on_sum n true)).0
      (below-true 64 (λ k. follow_on_byte k true == follow_on_sum k true) n agree_true h)
follow_on_byte-eq n false h =
    (==_iff (follow_on_byte n false) (follow_on_sum n false)).0
      (below-true 64 (λ k. follow_on_byte k false == follow_on_sum k false) n agree_false h)
