-- ===== src/Word/Bit.antt =====
-- The binary digits of a number, and what the operations on words do to each digit.
use native.Mathlib.Nat.{pow-suc, one-le-pow, div-div-eq-div-mul, mod-add-div}
use mimalloc_rs.Prelude.{
  ℕ, zero, suc, ◌+◌, ◌-◌, ◌*◌, ◌/◌, ◌%◌, ◌^◌, ◌≤◌, ◌<◌, bit_and, bit_or, bit_xor, ◌≡◌, refl, sym,
  ap, ◌∙◌, Bool, true, false, ◌&&◌, ◌||◌, not, arith, ltb, leb, ◌==◌,
}
use mimalloc_rs.Word.Step.{bit_and_step, bit_or_step, bit_xor_step}

-- Digit `i` of a number, the lowest one first.
unfoldable pub bit : ℕ → ℕ → Bool
bit w zero = w % 2 == 1
bit w (suc i) = bit (w / 2) i

pub pow-two-suc : (k : ℕ) → 2 ^ suc k ≡ 2 * 2 ^ k
pow-two-suc k = omega (arith, pow-suc 2 k)

pub pow-two-pos : (k : ℕ) → 1 ≤ 2 ^ k
pow-two-pos k = one-le-pow k 2 (omega arith)

pub bit-zero : (i : ℕ) → bit 0 i ≡ false
unfolding bit
bit-zero zero = refl
bit-zero (suc i) = bit-zero i

pub bit-bit_and : (a b i : ℕ) → bit (bit_and a b) i ≡ (bit a i && bit b i)
unfolding bit
bit-bit_and a b zero = ground (arith, bit_and_step a b)
bit-bit_and a b (suc i) =
    ap (λ t. bit t i) (omega (arith, bit_and_step a b)) ∙ bit-bit_and (a / 2) (b / 2) i

pub bit-bit_or : (a b i : ℕ) → bit (bit_or a b) i ≡ (bit a i || bit b i)
unfolding bit
bit-bit_or a b zero = ground (arith, bit_or_step a b)
bit-bit_or a b (suc i) =
    ap (λ t. bit t i) (omega (arith, bit_or_step a b)) ∙ bit-bit_or (a / 2) (b / 2) i

-- Exclusive or, written with `not`.
abbrev pub differs : Bool → Bool → Bool
differs true y = not y
differs false y = y

pub bit-bit_xor : (a b i : ℕ) → bit (bit_xor a b) i ≡ differs (bit a i) (bit b i)
unfolding bit
bit-bit_xor a b zero = ground (arith, bit_xor_step a b)
bit-bit_xor a b (suc i) =
    ap (λ t. bit t i) (omega (arith, bit_xor_step a b)) ∙ bit-bit_xor (a / 2) (b / 2) i

-- Numbers with the same digits are equal.
bit_ext_fuel : (n a b : ℕ) → a ≤ n → b ≤ n → ((i : ℕ) → bit a i ≡ bit b i) → a ≡ b
unfolding bit
bit_ext_fuel zero a b ha hb same = omega arith
bit_ext_fuel (suc n) a b ha hb same =
    let tails = bit_ext_fuel n (a / 2) (b / 2) (omega arith) (omega arith) (λ i. same (suc i)) in
    let heads : a % 2 ≡ b % 2 = ground (arith, same 0) in omega arith

pub bit_ext : (a b : ℕ) → ((i : ℕ) → bit a i ≡ bit b i) → a ≡ b
bit_ext a b = bit_ext_fuel (a + b) a b (omega arith) (omega arith)

-- A number below 2^k has no digit from `k` on, and conversely.
pub bit_high : (k a i : ℕ) → a < 2 ^ k → k ≤ i → bit a i ≡ false
unfolding bit
bit_high zero a i h le = ap (λ t. bit t i) (omega arith) ∙ bit-zero i
bit_high (suc k) a zero h le = absurd (omega arith)
bit_high (suc k) a (suc i) h le = bit_high k (a / 2) i (omega (arith, pow-two-suc k)) (omega arith)

pub lt_of_bit : (k a : ℕ) → ((i : ℕ) → k ≤ i → bit a i ≡ false) → a < 2 ^ k
unfolding bit
lt_of_bit zero a h = let e = bit_ext a 0 (λ i. h i (omega arith) ∙ sym (bit-zero i)) in omega arith
lt_of_bit (suc k) a h =
    omega (arith, pow-two-suc k, lt_of_bit k (a / 2) (λ i le. h (suc i) (omega arith)))

pub bit-mul_pow : (k x i : ℕ) → bit (x * 2 ^ k) i ≡ (leb k i && bit x (i - k))
unfolding bit
bit-mul_pow zero x i =
    let e : x * 2 ^ 0 ≡ x = omega arith in
    let d : i - 0 ≡ i = omega arith in rw (e, d) (ground arith)
bit-mul_pow (suc k) x zero = ground (arith, ap (λ (t : ℕ). x * t) (pow-two-suc k))
bit-mul_pow (suc k) x (suc i) =
    let e : x * 2 ^ suc k / 2 ≡ x * 2 ^ k = omega (arith, ap (λ (t : ℕ). x * t) (pow-two-suc k)) in
    let d : suc i - suc k ≡ i - k = omega arith in rw (e, d) (bit-mul_pow k x i ∙ ground arith)

-- A remainder by 2^(k+1) is a remainder of the half by 2^k, and the lowest digit.
mod-pow_two_suc : (k x : ℕ) → x % 2 ^ suc k ≡ 2 * (x / 2 % 2 ^ k) + x % 2
mod-pow_two_suc k x = rw (pow-two-suc k) (
    omega (
      arith,
      mod-add-div x (2 * 2 ^ k),
      mod-add-div (x / 2) (2 ^ k),
      ap (λ (t : ℕ). 2 ^ k * t) (div-div-eq-div-mul x 2 (2 ^ k)),
    ))

pub bit-mod_pow : (k x i : ℕ) → bit (x % 2 ^ k) i ≡ (ltb i k && bit x i)
unfolding bit
bit-mod_pow zero x i = let e : x % 2 ^ 0 ≡ 0 = omega arith in rw e (ground (arith, bit-zero i))
bit-mod_pow (suc k) x zero = ground (arith, mod-pow_two_suc k x)
bit-mod_pow (suc k) x (suc i) =
    let e : x % 2 ^ suc k / 2 ≡ x / 2 % 2 ^ k = omega (arith, mod-pow_two_suc k x) in
    rw e (bit-mod_pow k (x / 2) i ∙ ground arith)

pub bit-div_pow : (k x i : ℕ) → bit (x / 2 ^ k) i ≡ bit x (i + k)
unfolding bit
bit-div_pow zero x i =
    let e : x / 2 ^ 0 ≡ x = omega arith in let d : i + 0 ≡ i = omega arith in rw (e, d)
bit-div_pow (suc k) x i =
    let e : x / 2 ^ suc k ≡ x / 2 / 2 ^ k =
      rw (pow-two-suc k) (sym (div-div-eq-div-mul x 2 (2 ^ k))) in
    let d : i + suc k ≡ suc (i + k) = omega arith in rw (e, d) (bit-div_pow k (x / 2) i)

pub bit-ones : (k i : ℕ) → bit (2 ^ k - 1) i ≡ ltb i k
unfolding bit
bit-ones zero i = bit-zero i ∙ ground arith
bit-ones (suc k) zero = ground (arith, pow-two-suc k, pow-two-pos k)
bit-ones (suc k) (suc i) =
    let e : (2 ^ suc k - 1) / 2 ≡ 2 ^ k - 1 = omega (arith, pow-two-suc k, pow-two-pos k) in
    rw e (bit-ones k i ∙ ground arith)

pub bit-complement : (k x i : ℕ) → x < 2 ^ k → bit (2 ^ k - 1 - x) i ≡ (ltb i k && not (bit x i))
unfolding bit
bit-complement zero x i h =
    let e : 2 ^ 0 - 1 - x ≡ 0 = omega arith in rw e (bit-zero i ∙ ground arith)
bit-complement (suc k) x zero h = ground (arith, pow-two-suc k, pow-two-pos k)
bit-complement (suc k) x (suc i) h =
    let e : (2 ^ suc k - 1 - x) / 2 ≡ 2 ^ k - 1 - x / 2 =
      omega (arith, pow-two-suc k, pow-two-pos k) in
    rw e (bit-complement k (x / 2) i (omega (arith, pow-two-suc k)) ∙ ground arith)
