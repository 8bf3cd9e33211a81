-- ===== src/Layout/Tests.antt =====
-- src/layout.rs, runs of the code's own tests, and the theorems at them.
use mimalloc_rs.Prelude.{ℕ, ◌+◌, ◌*◌, ◌≤◌, ◌<◌, max, ◌≡◌, refl, arith, false}
use mimalloc_rs.Layout.{
  is_power_of_two, align_up, align_down, is_aligned, good_size, default_align_for, next_power_from,
  size_align,
}
use mimalloc_rs.Layout.Rounding.{align_lem, good_size_lem}

align_up_run : align_up 9 16 ≡ 16
unfolding align_up is_power_of_two
align_up_run = refl

align_up_odd : align_up 10 6 ≡ 12
unfolding align_up is_power_of_two
align_up_odd = refl

align_down_run : align_down 15 8 ≡ 8
unfolding align_down is_power_of_two
align_down_run = refl

is_aligned_run : is_aligned 8 16 ≡ false
unfolding is_aligned
is_aligned_run = refl

natural_run : default_align_for 5 ≡ 8
unfolding default_align_for next_power_from
natural_run = refl

size_align_run : size_align 24 8 ≡ (24, 16)
unfolding size_align default_align_for next_power_from
size_align_run = refl

align_lem_example :
    (10 ≤ align_up 10 6)
    × (align_up 10 6 < 16)
    × ((q : ℕ) × (align_up 10 6 ≡ q * 6))
    × (align_down 10 6 ≤ 10)
    × (10 < align_down 10 6 + 6)
    × ((q : ℕ) × (align_down 10 6 ≡ q * 6))
align_lem_example = align_lem 10 6 (omega arith) (omega arith) (omega arith)

good_size_lem_example :
    (24 ≤ good_size 24 16) × (8 ≤ good_size 24 16) × ((q : ℕ) × (good_size 24 16 ≡ q * max 16 8))
good_size_lem_example = good_size_lem 24 16 (omega arith)
