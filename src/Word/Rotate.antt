-- ===== src/Word/Rotate.antt =====
-- Rotations undo one another, low masks are remainders, and exclusive or undoes itself.
use native.Mathlib.Nat.{
  div-add-mod, mod-lt, mod-eq_of_lt, div-lt_iff_lt-mul, div-eq_of_lt, add-mul-div_right,
  mul-lt-mul_of_pos_right, mul-le-mul_right, add-mul-mod_self_left, mul_comm,
}
use mathlib.Core.Path.{ap₂}
use mimalloc_rs.Prelude.{
  ℕ, suc, zero, ◌+◌, ◌-◌, ◌*◌, ◌/◌, ◌%◌, ◌^◌, ◌≤◌, ◌<◌, bit_and, bit_or, bit_xor, ◌≡◌, sym, ap,
  subst, ◌∙◌, arith,
}
use mimalloc_rs.Word.{rotate_left, rotate_right}
use mimalloc_rs.Word.Bit.{
  bit-zero, bit-bit_and, bit-bit_or, bit-bit_xor, bit_ext, bit_high, lt_of_bit, bit-ones,
  bit-mod_pow, pow-two-pos, pow-two-suc,
}

pub bit_and-ones : (k x : ℕ) → bit_and x (2 ^ k - 1) ≡ x % 2 ^ k
bit_and-ones k x =
    bit_ext _ _ (λ i. ground (arith, bit-bit_and x (2 ^ k - 1) i, bit-ones k i, bit-mod_pow k x i))

pub bit_or-zero : (x : ℕ) → bit_or x 0 ≡ x
bit_or-zero x = bit_ext _ _ (λ i. ground (arith, bit-bit_or x 0 i, bit-zero i))

pub bit_xor_undo : (x k : ℕ) → bit_xor (bit_xor x k) k ≡ x
bit_xor_undo x k =
    bit_ext _ _ (λ i. ground (arith, bit-bit_xor (bit_xor x k) k i, bit-bit_xor x k i))

pub bit_xor-lt : (x k : ℕ) → x < 2 ^ 64 → k < 2 ^ 64 → bit_xor x k < 2 ^ 64
bit_xor-lt x k hx hk =
    lt_of_bit 64 _
      (λ i le. ground (arith, bit-bit_xor x k i, bit_high 64 x i hx le, bit_high 64 k i hk le))

pow-two-split : (r k : ℕ) → r ≤ k → 2 ^ k ≡ 2 ^ r * 2 ^ (k - r)
pow-two-split zero k le = ap (λ t. 2 ^ t) (let e : k ≡ k - 0 = omega arith in e) ∙ omega arith
pow-two-split (suc r) zero le = absurd (omega arith)
pow-two-split (suc r) (suc k) le =
    let e : suc k - suc r ≡ k - r = omega arith in
    rw e (
      omega (
        arith,
        pow-two-suc k,
        pow-two-split r k (omega arith),
        ap (λ (t : ℕ). t * 2 ^ (k - r)) (pow-two-suc r),
      ))

-- A number below `b * c` turned by `b`, written with its two digits.
turned : (b c h l : ℕ) → l < c → h < b → (c * h + l) * b % (b * c) ≡ l * b
turned b c h l hl hh =
    let e : (c * h + l) * b ≡ l * b + (b * c) * h = omega arith in
    let lt : l * b < b * c =
      omega (arith, mul-lt-mul_of_pos_right {m = l} {n = c} {k = b} hl (omega arith)) in
    rw e (add-mul-mod_self_left (l * b) (b * c) h ∙ mod-eq_of_lt lt)

rotate_undo :
    (b c x : ℕ)
    → x < b * c
    → 1 ≤ b
    → 1 ≤ c
    → (x * b % (b * c) + x / c) / b + (x * b % (b * c) + x / c) * c % (b * c) ≡ x
rotate_undo b c x hx hb hc =
    let h = x / c in
    let l = x % c in
    let hl : l < c = mod-lt x hc in
    let hh : h < b = (div-lt_iff_lt-mul hc).1 hx in
    let parts : c * h + l ≡ x = div-add-mod x c in
    let high : x * b % (b * c) ≡ l * b =
      ap (λ z. z * b % (b * c)) (sym parts) ∙ turned b c h l hl hh in
    let low : (l * b + h) * c % (b * c) ≡ h * c =
      ap₂ (λ y z. y * c % z) (omega arith) (mul_comm b c) ∙ turned c b l h hh hl in
    let top : (l * b + h) / b ≡ l =
      ap (λ z. z / b) (omega arith)
      ∙ add-mul-div_right h l hb
      ∙ ap (λ z. z + l) (div-eq_of_lt hh)
      ∙ omega arith in
    rw high (rw (top, low) (omega (arith, parts)))

-- A rotation to the right undoes one to the left.
pub rotate_right-rotate_left :
    (x r : ℕ) → x < 2 ^ 64 → r < 64 → rotate_right (rotate_left x r) r ≡ x
rotate_right-rotate_left x r hx hr =
    let e : 2 ^ 64 ≡ 2 ^ r * 2 ^ (64 - r) = pow-two-split r 64 (omega arith) in
    subst
      (λ m.
        (x * 2 ^ r % m + x / 2 ^ (64 - r)) / 2 ^ r
          + (x * 2 ^ r % m + x / 2 ^ (64 - r)) * 2 ^ (64 - r) % m
        ≡ x)
      (sym e)
      (rotate_undo (2 ^ r) (2 ^ (64 - r)) x (rw e at hx) (pow-two-pos r) (pow-two-pos (64 - r)))

rotated-lt : (b c x : ℕ) → x < b * c → 1 ≤ b → 1 ≤ c → x * b % (b * c) + x / c < b * c
rotated-lt b c x hx hb hc =
    let hl : x % c < c = mod-lt x hc in
    let hh : x / c < b = (div-lt_iff_lt-mul hc).1 hx in
    let high : x * b % (b * c) ≡ x % c * b =
      ap (λ z. z * b % (b * c)) (sym (div-add-mod x c)) ∙ turned b c (x / c) (x % c) hl hh in
    rw high (omega (arith, mul-le-mul_right {m = x % c + 1} {n = c} b (omega arith)))

pub rotate_left-lt : (x r : ℕ) → x < 2 ^ 64 → r < 64 → rotate_left x r < 2 ^ 64
rotate_left-lt x r hx hr =
    let e : 2 ^ 64 ≡ 2 ^ r * 2 ^ (64 - r) = pow-two-split r 64 (omega arith) in
    subst (λ m. x * 2 ^ r % m + x / 2 ^ (64 - r) < m) (sym e)
      (rotated-lt (2 ^ r) (2 ^ (64 - r)) x (rw e at hx) (pow-two-pos r) (pow-two-pos (64 - r)))
