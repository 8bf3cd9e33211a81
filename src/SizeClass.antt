-- ===== src/SizeClass.antt =====
-- src/bits.rs: the size classes. A size is a number of bytes below 2 ^ 64.
pub mod Bounds
mod Tests
use mimalloc_rs.Prelude.{
  ℕ, suc, zero, ◌+◌, ◌-◌, ◌/◌, bit_and, ltb, leb, ◌==◌, if◌then◌else◌, Option, none, some,
}
use mimalloc_rs.Word.{◌<<<◌, ◌>>>◌, complement}

abbrev pub size_bits : ℕ
size_bits = 64

abbrev pub intptr_size : ℕ
intptr_size = 8

abbrev pub large_max_obj_size : ℕ
large_max_obj_size = 524288

abbrev pub large_max_obj_wsize : ℕ
large_max_obj_wsize = 65536

abbrev pub bin_huge : ℕ
bin_huge = 73

-- The number of binary digits, by halving at most `rounds` times.
unfoldable pub bit_length : ℕ → ℕ → ℕ
bit_length zero x = 0
bit_length (suc rounds) x = let rest = bit_length rounds (x / 2) in if x == 0 then 0 else rest + 1

unfoldable pub mi_clz : ℕ → ℕ
mi_clz x = size_bits - bit_length size_bits x

unfoldable pub wsize_from_size : ℕ → ℕ
wsize_from_size size = (size + (intptr_size - 1)) / intptr_size

-- The classes of eight words and fewer.
unfoldable pub small_bin : ℕ → ℕ
small_bin wsize = if leb wsize 1 then 1 else bit_and (wsize + 1) (complement 1)

-- Four classes for each power of two, from the three highest digits of the last word's index.
unfoldable pub large_bin : ℕ → ℕ
large_bin w = let b = size_bits - 1 - mi_clz w in (b <<< 2) + bit_and (w >>> (b - 2)) 3 - 3

unfoldable pub bin : ℕ → ℕ
bin size =
    let wsize = wsize_from_size size in
    if leb wsize 8
    then small_bin wsize
    else (if ltb large_max_obj_wsize wsize then bin_huge else large_bin (wsize - 1))
