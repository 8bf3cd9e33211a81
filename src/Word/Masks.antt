-- ===== src/Word/Masks.antt =====
-- Masks of consecutive bits, single bits, and the words that they are applied to.
use mimalloc_rs.Prelude.{
  ℕ, ◌+◌, ◌-◌, ◌*◌, ◌%◌, ◌^◌, ◌<◌, bit_and, bit_or, ◌≡◌, ap, true, false, ◌&&◌, not, arith, ltb,
  within, ◌↔◌,
}
use mimalloc_rs.Word.Bit.{
  bit, bit-zero, bit-bit_and, bit-bit_or, bit_ext, bit_high, lt_of_bit, bit-mul_pow, bit-mod_pow,
  bit-ones, bit-complement,
}

-- The bits of a mask of `n` ones at `b`: they may leave the word.
pub bit-mask : (n b i : ℕ) → bit ((2 ^ n - 1) * 2 ^ b % 2 ^ 64) i ≡ (ltb i 64 && within b (b + n) i)
bit-mask n b i =
    ground (
      arith,
      bit-mod_pow 64 ((2 ^ n - 1) * 2 ^ b) i,
      bit-mul_pow b (2 ^ n - 1) i,
      bit-ones n (i - b),
    )

-- Every bit of `m` is a bit of `w`.
abbrev pub Covers : ℕ → ℕ → Type 0
Covers w m = (i : ℕ) → bit m i ≡ true → bit w i ≡ true

abbrev pub Avoids : ℕ → ℕ → Type 0
Avoids w m = (i : ℕ) → bit m i ≡ true → bit w i ≡ false

pub bit_and-eq_mask_iff : (w m : ℕ) → (bit_and w m ≡ m) ↔ Covers w m
bit_and-eq_mask_iff w m = (
  λ e i h. ground (arith, bit-bit_and w m i, ap (λ t. bit t i) e),
  λ c. bit_ext (bit_and w m) m (λ i. ground (arith, bit-bit_and w m i, c i)),
)

pub bit_and-eq_zero_iff : (w m : ℕ) → (bit_and w m ≡ 0) ↔ Avoids w m
bit_and-eq_zero_iff w m = (
  λ e i h. ground (arith, bit-bit_and w m i, ap (λ t. bit t i) e, bit-zero i),
  λ c. bit_ext (bit_and w m) 0 (λ i. ground (arith, bit-bit_and w m i, c i, bit-zero i)),
)

pub bit_or-eq_self_iff : (w m : ℕ) → (bit_or w m ≡ w) ↔ Covers w m
bit_or-eq_self_iff w m = (
  λ e i h. ground (arith, bit-bit_or w m i, ap (λ t. bit t i) e),
  λ c. bit_ext (bit_or w m) w (λ i. ground (arith, bit-bit_or w m i, c i)),
)

-- `w & !m` for a mask that fits the word.
pub bit-clear :
    (w m i : ℕ)
    → w < 2 ^ 64
    → m < 2 ^ 64
    → bit (bit_and w (2 ^ 64 - 1 - m)) i ≡ (bit w i && not (bit m i))
bit-clear w m i hw hm =
    ground (arith, bit-bit_and w (2 ^ 64 - 1 - m) i, bit-complement 64 m i hm, bit_high 64 w i hw)

pub bit_and-lt : (w m : ℕ) → w < 2 ^ 64 → bit_and w m < 2 ^ 64
bit_and-lt w m h =
    lt_of_bit 64 (bit_and w m) (λ i le. ground (arith, bit-bit_and w m i, bit_high 64 w i h le))

pub bit_or-lt : (w m : ℕ) → w < 2 ^ 64 → m < 2 ^ 64 → bit_or w m < 2 ^ 64
bit_or-lt w m hw hm =
    lt_of_bit 64 (bit_or w m)
      (λ i le. ground (arith, bit-bit_or w m i, bit_high 64 w i hw le, bit_high 64 m i hm le))
