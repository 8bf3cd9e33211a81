-- ===== src/Heap.antt =====
-- src/heap.rs: the sizes of blocks and of pages. The table of the block sizes is computed by the
-- loop that the compiler runs.
pub mod Sizes
pub mod Room
pub mod Blocks
pub mod Theap
pub mod Theaps
pub mod Free
mod Tests
use mimalloc_rs.Prelude.{
  ℕ, suc, zero, ◌+◌, ◌*◌, max, ltb, leb, if◌then◌else◌, ◌&&◌, List, [], ◌∷◌, get_or, set,
}
use mimalloc_rs.SizeClass.{bin, bin_huge}
use mimalloc_rs.Layout.{align_up, intptr_size}

abbrev pub bin_count : ℕ
bin_count = 75

abbrev pub slice_size : ℕ
slice_size = 65536

abbrev pub small_max_obj_size : ℕ
small_max_obj_size = 10240

abbrev pub medium_max_obj_size : ℕ
medium_max_obj_size = 86698

-- `MI_LARGE_MAX_OBJ_SIZE / MI_INTPTR_SIZE`
abbrev pub max_wsize : ℕ
max_wsize = 65536

abbrev pub zeros : ℕ → List ℕ
zeros zero = []
zeros (suc n) = 0 ∷ zeros n

-- One round of the loop.
unfoldable pub bin_sizes_step : ℕ → List ℕ → List ℕ
bin_sizes_step w t =
    let sz = w * intptr_size in
    let b = bin sz in if ltb b bin_huge && ltb (get_or t b 0) sz then set t b sz else t

-- `left` rounds, from `w` on.
unfoldable pub bin_sizes_loop : ℕ → ℕ → List ℕ → List ℕ
bin_sizes_loop zero w t = t
bin_sizes_loop (suc left) w t = bin_sizes_loop left (w + 1) (bin_sizes_step w t)

unfoldable pub bin_sizes : List ℕ
bin_sizes = bin_sizes_loop max_wsize 1 (zeros bin_count)

unfoldable pub bin_block_size : ℕ → ℕ
bin_block_size b = get_or bin_sizes b 0

unfoldable pub good_size : ℕ → ℕ
good_size size =
    let size = max size intptr_size in
    let b = bin size in if leb bin_huge b then align_up size slice_size else bin_block_size b

unfoldable pub page_slices_for : ℕ → ℕ
page_slices_for block_size =
    if leb block_size small_max_obj_size
    then 1
    else (if leb block_size medium_max_obj_size then 8 else 64)
