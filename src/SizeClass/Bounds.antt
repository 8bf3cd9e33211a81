-- ===== src/SizeClass/Bounds.antt =====
-- src/bits.rs, the range of the size classes.
use mimalloc_rs.Prelude.{
  ℕ, suc, zero, ◌+◌, ◌-◌, ◌*◌, ◌/◌, ◌^◌, bit_and, ◌≤◌, ◌<◌, ◌≡◌, refl, ◌↔◌, inl, inr, arith, ltb,
  leb, Bool-cases,
}
use mimalloc_rs.Word.{complement}
use mimalloc_rs.Word.Bit.{pow-two-pos}
use mimalloc_rs.Word.Step.{bit_and_step}
use mimalloc_rs.Word.Rotate.{bit_and-ones}
use mimalloc_rs.SizeClass.{
  large_max_obj_size, bin_huge, bit_length, mi_clz, wsize_from_size, small_bin, large_bin, bin,
}

bit_length-le : (k rounds x : ℕ) → x < 2 ^ k → bit_length rounds x ≤ k
unfolding bit_length
bit_length-le k zero x h = omega arith
bit_length-le zero (suc rounds) x h = ground arith
bit_length-le (suc k) (suc rounds) x h =
    ground (arith, bit_length-le k rounds (x / 2) (omega arith))

lt-bit_length : (k rounds x : ℕ) → 2 ^ k ≤ x → k < rounds → k < bit_length rounds x
unfolding bit_length
lt-bit_length k zero x h le = absurd (omega arith)
lt-bit_length zero (suc rounds) x h le = ground arith
lt-bit_length (suc k) (suc rounds) x h le =
    ground (arith, pow-two-pos k, lt-bit_length k rounds (x / 2) (omega arith) (omega arith))

small_bin-range : (wsize : ℕ) → wsize ≤ 8 → (1 ≤ small_bin wsize) × (small_bin wsize ≤ 8)
unfolding small_bin
small_bin-range wsize h =
    let e : bit_and (wsize + 1) (complement 1) ≡ (wsize + 1) / 2 * 2 =
      omega (arith, bit_and_step (wsize + 1) (complement 1), bit_and-ones 63 ((wsize + 1) / 2)) in
    ground (arith, e)

large_bin-range : (w : ℕ) → 8 ≤ w → w < 65536 → (9 ≤ large_bin w) × (large_bin w ≤ 60)
unfolding large_bin mi_clz
large_bin-range w lo hi =
    let below = bit_length-le 16 64 w (omega arith) in
    let above = lt-bit_length 3 64 w (omega arith) (omega arith) in
    let digits = bit_and-ones 2 (w / 2 ^ (64 - 1 - (64 - bit_length 64 w) - 2)) in
    omega (arith, below, above, digits)

wsize-le : (size : ℕ) → wsize_from_size size ≤ 65536 ↔ size ≤ 524288
unfolding wsize_from_size
wsize-le size = (λ h. omega arith, λ h. omega arith)

-- Every size has a class from 1 to 73. A size that is too large for the size classes has class 73,
-- and every other size has class 60 at most.
pub bin_lem :
    (size : ℕ)
    → (1 ≤ bin size)
      × (bin size ≤ bin_huge)
      × ((bin size ≡ bin_huge) ↔ (large_max_obj_size < size))
      × (size ≤ large_max_obj_size → bin size ≤ 60)
unfolding bin
bin_lem size = elim (Bool-cases (leb (wsize_from_size size) 8)) [
  | inl few ↦
      let range = small_bin-range (wsize_from_size size) (ground arith) in
      let le = (wsize-le size).0 (ground arith) in
      rw few (
        omega (arith, range),
        omega (arith, range),
        (λ e. omega (arith, range), λ h. omega (arith, le)),
        λ h. omega (arith, range),
      )
  | inr many ↦ elim (Bool-cases (ltb 65536 (wsize_from_size size))) [
    | inl huge ↦
        let gt : ¬ (size ≤ 524288) = λ h. ground (arith, (wsize-le size).1 h) in
        rw (many, huge)
          (omega arith, omega arith, (λ e. omega (arith, gt), λ h. refl), λ h. absurd (gt h))
    | inr large ↦
        let range = large_bin-range (wsize_from_size size - 1) (ground arith) (ground arith) in
        let le = (wsize-le size).0 (ground arith) in
        rw (many, large)
          (
            omega (arith, range),
            omega (arith, range),
            (λ e. omega (arith, range), λ h. omega (arith, le)),
            λ h. omega (arith, range),
          )
  ]
]
