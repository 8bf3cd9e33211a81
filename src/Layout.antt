-- ===== src/Layout.antt =====
-- src/layout.rs: rounding to multiples of an alignment, and the sizes and alignments of requests.
pub mod Powers
pub mod Rounding
mod Tests
use mimalloc_rs.Prelude.{
  ℕ, zero, suc, ◌+◌, ◌-◌, ◌*◌, ◌/◌, min, max, bit_and, Bool, ltb, leb, ◌==◌, if◌then◌else◌,
}
use mimalloc_rs.Word.{complement, wrapping_add, wrapping_sub}

abbrev pub intptr_size : ℕ
intptr_size = 8

abbrev pub max_align_size : ℕ
max_align_size = 16

unfoldable pub is_power_of_two : ℕ → Bool
is_power_of_two x = bit_and x (wrapping_sub x 1) == 0

unfoldable pub align_up : ℕ → ℕ → ℕ
align_up sz alignment =
    let mask = alignment - 1 in
    if is_power_of_two alignment
    then bit_and (wrapping_add sz mask) (complement mask)
    else wrapping_add sz mask / alignment * alignment

unfoldable pub align_down : ℕ → ℕ → ℕ
align_down sz alignment =
    let mask = alignment - 1 in
    if is_power_of_two alignment then bit_and sz (complement mask) else sz / alignment * alignment

unfoldable pub is_aligned : ℕ → ℕ → Bool
is_aligned addr alignment = bit_and addr (alignment - 1) == 0

unfoldable pub good_size : ℕ → ℕ → ℕ
good_size size align =
    align_up (if size == 0 then intptr_size else size)
      (if ltb align intptr_size then intptr_size else align)

-- `usize::next_power_of_two`, from `p` on: doubling 64 times passes every size.
unfoldable pub next_power_from : ℕ → ℕ → ℕ → ℕ
next_power_from zero p size = p
next_power_from (suc rounds) p size =
    let rest = next_power_from rounds (p * 2) size in if leb size p then p else rest

unfoldable pub default_align_for : ℕ → ℕ
default_align_for size =
    let p = next_power_from 64 1 size in
    if leb max_align_size size
    then max_align_size
    else (if size == 0 then intptr_size else (if ltb max_align_size p then max_align_size else p))

-- The size and the alignment that a layout asks for.
unfoldable pub size_align : ℕ → ℕ → ℕ × ℕ
size_align size align =
    let natural = max align (min max_align_size (default_align_for size)) in (size, max natural 1)
