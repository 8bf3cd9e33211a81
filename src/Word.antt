-- ===== src/Word.antt =====
-- The `usize` of a 64-bit target as a native number below 2^64, with the operations of the
-- language that the source applies to it: shifts, complement, wrapping sums, rotations, and the
-- counts of leading, trailing and set bits. They are the documented ones of the integer types of
-- the Rust standard library.
pub mod Step
pub mod Bit
pub mod Masks
pub mod Counts
pub mod Rotate
use mimalloc_rs.Prelude.{ℕ, zero, suc, ◌+◌, ◌-◌, ◌*◌, ◌/◌, ◌%◌, ◌^◌, ◌==◌, if◌then◌else◌}

abbrev pub word_bits : ℕ
word_bits = 64

abbrev pub modulus : ℕ
modulus = 2 ^ 64

-- `usize::MAX`
abbrev pub max_word : ℕ
max_word = 2 ^ 64 - 1

-- `x << k` drops the bits that leave the word, `x >> k` those below it.
infixl 75 ◌<<<◌ ◌>>>◌
abbrev pub ◌<<<◌ : ℕ → ℕ → ℕ
x <<< k = x * 2 ^ k % 2 ^ 64

abbrev pub ◌>>>◌ : ℕ → ℕ → ℕ
x >>> k = x / 2 ^ k

-- `!x`
abbrev pub complement : ℕ → ℕ
complement x = 2 ^ 64 - 1 - x

abbrev pub wrapping_add : ℕ → ℕ → ℕ
wrapping_add a b = (a + b) % 2 ^ 64

abbrev pub wrapping_sub : ℕ → ℕ → ℕ
wrapping_sub a b = (a + 2 ^ 64 - b) % 2 ^ 64

abbrev pub rotate_left : ℕ → ℕ → ℕ
rotate_left x r = x * 2 ^ r % 2 ^ 64 + x / 2 ^ (64 - r)

abbrev pub rotate_right : ℕ → ℕ → ℕ
rotate_right x r = x / 2 ^ r + x * 2 ^ (64 - r) % 2 ^ 64

-- The number of binary digits of `x`, the digit counts of a word of `k` bits.
unfoldable pub digit_count : ℕ → ℕ → ℕ
digit_count zero x = 0
digit_count (suc k) x = let rest = digit_count k (x / 2) in if x == 0 then 0 else suc rest

unfoldable pub trailing_zeros : ℕ → ℕ → ℕ
trailing_zeros zero x = 0
trailing_zeros (suc k) x = let rest = trailing_zeros k (x / 2) in if x % 2 == 1 then 0 else suc rest

unfoldable pub count_ones : ℕ → ℕ → ℕ
count_ones zero x = 0
count_ones (suc k) x = x % 2 + count_ones k (x / 2)
