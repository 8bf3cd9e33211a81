-- ===== src/Word/Step.antt =====
-- One binary digit at a time: the native operations on digits without their fuel.
use Prim.Native.Nat.{digits, bitwise, differ, bit_and-bitwise, bit_or-bitwise, bit_xor-bitwise}
use mimalloc_rs.Prelude.{
  ℕ, zero, suc, ◌+◌, ◌*◌, ◌/◌, ◌%◌, ◌≤◌, ◌<◌, min, max, bit_and, bit_or, bit_xor, ◌≡◌, refl, arith,
}

module _ (last : ℕ → ℕ) (op : ℕ → ℕ → ℕ) where
  -- Any two amounts of fuel that cover the first number give the same digits.
  digits-fuel : (m n a b : ℕ) → a ≤ m → a ≤ n → digits last op m a b ≡ digits last op n a b
  digits-fuel zero zero a b hm hn = refl
  digits-fuel (suc m) zero zero b hm hn = refl
  digits-fuel (suc m) zero (suc a) b hm hn = absurd (omega arith)
  digits-fuel zero (suc n) zero b hm hn = refl
  digits-fuel zero (suc n) (suc a) b hm hn = absurd (omega arith)
  digits-fuel (suc m) (suc n) zero b hm hn = refl
  digits-fuel (suc m) (suc n) (suc a) b hm hn =
      rw (digits-fuel m n (suc a / 2) (b / 2) (omega arith) (omega arith))

  bitwise-next :
      (a b : ℕ)
      → bitwise last op (suc a) b ≡ bitwise last op (suc a / 2) (b / 2) * 2 + op (suc a % 2) (b % 2)
  bitwise-next a b = rw (digits-fuel a (suc a / 2) (suc a / 2) (b / 2) (omega arith) (omega arith))

pub bit_and_step : (x y : ℕ) → bit_and x y ≡ bit_and (x / 2) (y / 2) * 2 + min (x % 2) (y % 2)
bit_and_step zero y = omega (arith, bit_and-bitwise 0 (y / 2), bit_and-bitwise 0 y)
bit_and_step (suc a) b = simp bit_and-bitwise (bitwise-next (λ _. 0) min a b)

pub bit_or_step : (a b : ℕ) → bit_or a b ≡ bit_or (a / 2) (b / 2) * 2 + max (a % 2) (b % 2)
bit_or_step zero b = omega (arith, bit_or-bitwise 0 b, bit_or-bitwise 0 (b / 2))
bit_or_step (suc a) b = simp bit_or-bitwise (bitwise-next (λ t. t) max a b)

differ-eq-add : (x y : ℕ) → x < 2 → y < 2 → differ x y ≡ (x + y) % 2
differ-eq-add zero y hx hy = omega arith
differ-eq-add (suc zero) zero hx hy = refl
differ-eq-add (suc zero) (suc zero) hx hy = refl
differ-eq-add (suc zero) (suc (suc y)) hx hy = absurd (omega arith)
differ-eq-add (suc (suc x)) y hx hy = absurd (omega arith)

pub bit_xor_step : (a b : ℕ) → bit_xor a b ≡ bit_xor (a / 2) (b / 2) * 2 + (a % 2 + b % 2) % 2
bit_xor_step zero b = omega (arith, bit_xor-bitwise 0 b, bit_xor-bitwise 0 (b / 2))
bit_xor_step (suc a) b = simp bit_xor-bitwise (
    omega (
      arith,
      bitwise-next (λ t. t) differ a b,
      differ-eq-add (suc a % 2) (b % 2) (omega arith) (omega arith),
    ))
