-- ===== src/Options/Integers.antt =====
-- The 64-bit signed integers of src/options.rs: integers between -2^63 and 2^63 - 1.
use mimalloc_rs.Prelude.{
  ℕ, ◌+◌, ◌-◌, ◌*◌, ◌≤◌, min, max, Bool, true, false, ◌==◌, if◌then◌else◌, ◌^◌,
}

-- `negsuc n` is `-1 - n`.
pub data ℤ : Type 0 where
  pos : ℕ → ℤ
  negsuc : ℕ → ℤ

-- `i64::MAX`.
abbrev pub max_i64 : ℕ
max_i64 = 2 ^ 63 - 1

-- `-n`.
abbrev pub neg : ℕ → ℤ
neg n = if n == 0 then pos 0 else negsuc (n - 1)

abbrev pub is_zero : ℤ → Bool
is_zero (pos n) = n == 0
is_zero (negsuc n) = false

abbrev pub is_negative : ℤ → Bool
is_negative (pos n) = false
is_negative (negsuc n) = true

unfoldable pub maxℤ : ℤ → ℤ → ℤ
maxℤ (pos a) (pos b) = pos (max a b)
maxℤ (pos a) (negsuc b) = pos a
maxℤ (negsuc a) (pos b) = pos b
maxℤ (negsuc a) (negsuc b) = negsuc (min a b)

infixl 70 ◌*ℤ◌
unfoldable pub ◌*ℤ◌ : ℤ → ℤ → ℤ
pos a *ℤ pos b = pos (a * b)
pos a *ℤ negsuc b = neg (a * (b + 1))
negsuc a *ℤ pos b = neg ((a + 1) * b)
negsuc a *ℤ negsuc b = pos ((a + 1) * (b + 1))

-- The nearest 64-bit integer.
abbrev pub saturate : ℤ → ℤ
saturate (pos n) = pos (min n max_i64)
saturate (negsuc n) = negsuc (min n max_i64)

-- `i64::saturating_mul`.
unfoldable pub saturating_mul : ℤ → ℤ → ℤ
saturating_mul a b = saturate (a *ℤ b)

-- A 64-bit integer.
abbrev pub IsI64 : ℤ → Type 0
IsI64 (pos n) = n ≤ max_i64
IsI64 (negsuc n) = n ≤ max_i64
