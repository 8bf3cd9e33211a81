-- ===== src/Layout/Powers.antt =====
-- src/layout.rs, the test for powers of two, and masks of a power of two.
use mimalloc_rs.Prelude.{
  ℕ, zero, suc, ◌+◌, ◌-◌, ◌*◌, ◌/◌, ◌%◌, ◌^◌, ◌≤◌, ◌<◌, bit_and, ◌≡◌, ap, ◌∙◌, inl, inr, true,
  arith, ltb, leb, ◌==◌, Bool-cases,
}
use mimalloc_rs.Word.{complement, wrapping_sub}
use mimalloc_rs.Word.Step.{bit_and_step}
use mimalloc_rs.Word.Bit.{
  bit, bit-bit_and, bit_ext, bit_high, pow-two-suc, bit-mul_pow, bit-div_pow, bit-ones,
  bit-complement,
}
use mimalloc_rs.Layout.{is_power_of_two}

bit_and_self : (x : ℕ) → bit_and x x ≡ x
bit_and_self x = bit_ext _ _ (λ i. ground (arith, bit-bit_and x x i))

-- A number that shares no digit with its predecessor is a power of two.
power_of : (rounds a : ℕ) → a ≤ rounds → 1 ≤ a → bit_and a (a - 1) ≡ 0 → (k : ℕ) × (a ≡ 2 ^ k)
power_of zero a small pos e = absurd (omega arith)
power_of (suc rounds) a small pos e =
    let step = bit_and_step a (a - 1) in
    elim (Bool-cases (a % 2 == 1)) [
      | inl odd ↦
          let halves : (a - 1) / 2 ≡ a / 2 = ground arith in
          let same : bit_and (a / 2) ((a - 1) / 2) ≡ a / 2 =
            ap (λ (z : ℕ). bit_and (a / 2) z) halves ∙ bit_and_self (a / 2) in
          (0, ground (arith, step, same))
      | inr even ↦
          let halves : (a - 1) / 2 ≡ a / 2 - 1 = ground arith in
          let moved : bit_and (a / 2) ((a - 1) / 2) ≡ bit_and (a / 2) (a / 2 - 1) =
            ap (λ (z : ℕ). bit_and (a / 2) z) halves in
          let less : bit_and (a / 2) (a / 2 - 1) ≡ 0 = omega (arith, step, e, moved) in
          let (k, p) = power_of rounds (a / 2) (omega arith) (ground arith) less in
          (suc k, ground (arith, p, pow-two-suc k))
    ]

-- The test is exact on the words that are not 0.
pub is_power_of_two-power :
    (a : ℕ) → 1 ≤ a → a < 2 ^ 64 → is_power_of_two a ≡ true → (k : ℕ) × (a ≡ 2 ^ k)
unfolding is_power_of_two
is_power_of_two-power a pos small h =
    let e : wrapping_sub a 1 ≡ a - 1 = omega arith in
    let moved : bit_and a (wrapping_sub a 1) ≡ bit_and a (a - 1) = ap (λ (z : ℕ). bit_and a z) e in
    power_of a a (omega arith) pos (ground (arith, moved))

-- Dropping the low digits rounds down to a multiple.
pub bit_and-complement_mask :
    (k x : ℕ) → x < 2 ^ 64 → 2 ^ k < 2 ^ 64 → bit_and x (complement (2 ^ k - 1)) ≡ x / 2 ^ k * 2 ^ k
bit_and-complement_mask k x small fits = bit_ext _ _ (λ i.
    let shifted : bit (x / 2 ^ k) (i - k) ≡ bit x (i - k + k) = bit-div_pow k x (i - k) in
    let back : leb k i ≡ true → i - k + k ≡ i = λ h. ground arith in
    let lhs = bit-bit_and x (complement (2 ^ k - 1)) i in
    let rhs = bit-mul_pow k (x / 2 ^ k) i in
    let mask = bit-complement 64 (2 ^ k - 1) i (omega (arith, fits)) in
    elim (Bool-cases (leb k i)) [
      | inr low ↦ ground (arith, lhs, rhs, mask, bit-ones k i, low)
      | inl high ↦
          let at : bit (x / 2 ^ k) (i - k) ≡ bit x i = shifted ∙ ap (bit x) (back high) in
          elim (Bool-cases (ltb i 64)) [
            | inl inside ↦ ground (arith, lhs, rhs, mask, bit-ones k i, high, at)
            | inr outside ↦ ground (arith, lhs, rhs, at, high, bit_high 64 x i small (ground arith))
          ]
    ])
