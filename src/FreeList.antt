-- ===== src/FreeList.antt =====
-- src/free_list.rs: the links of free blocks. A block is its address, the first word of every
-- block is a function on addresses, and the build flag `hardened` (the `secure` and `debug`
-- features) selects the encoded links.
pub mod Codec
mod Tests
use mimalloc_rs.Prelude.{ℕ, ◌+◌, ◌-◌, ◌%◌, ◌^◌, bit_and, bit_xor, Bool, ◌==◌, if◌then◌else◌}
use mimalloc_rs.Word.{rotate_left, rotate_right, wrapping_add, wrapping_sub}

pub record Keys : Type 0 where
  pub key0 : ℕ
  pub key1 : ℕ

-- src/bits.rs, `mi_rotl` and `mi_rotr`: the count is taken modulo the width.
unfoldable pub mi_rotl : ℕ → ℕ → ℕ
mi_rotl x r = rotate_left x (bit_and r (64 - 1))

unfoldable pub mi_rotr : ℕ → ℕ → ℕ
mi_rotr x r = rotate_right x (bit_and r (64 - 1))

unfoldable pub encode : ℕ → Keys → ℕ
encode p k = if p == 0 then 0 else wrapping_add (mi_rotl (bit_xor p k.key1) k.key0) k.key0

unfoldable pub decode : ℕ → Keys → ℕ
decode x k = if x == 0 then 0 else bit_xor (mi_rotr (wrapping_sub x k.key0) k.key0) k.key1

-- The first words of the blocks.
abbrev pub Memory : Type 0
Memory = ℕ → ℕ

abbrev pub write : Memory → ℕ → ℕ → Memory
write mem p v q = if q == p then v else mem q

unfoldable pub next : Bool → Keys → Memory → ℕ → ℕ
next hardened k mem block = if hardened then decode (mem block) k else mem block

unfoldable pub set_next : Bool → Keys → Memory → ℕ → ℕ → Memory
set_next hardened k mem block p = write mem block (if hardened then encode p k else p)
