-- ===== src/Heap/Room.antt =====
-- src/heap.rs, the slices of a page for the blocks of a size class.
use native.Mathlib.Nat.{le-div_iff_mul-le, div-le_of_le-mul}
use mimalloc_rs.Prelude.{
  ℕ, ◌+◌, ◌-◌, ◌*◌, ◌/◌, ◌%◌, ◌^◌, ◌≤◌, ◌≡◌, ap, refl, inl, inr, Bool, arith, leb, Bool-cases, max,
}
use mimalloc_rs.FreeList.{Keys}
use mimalloc_rs.Layout.{align_up}
use mimalloc_rs.Layout.Rounding.{align_up-eq}
use mimalloc_rs.Page.{init, start_off}
use mimalloc_rs.SizeClass.{bin, large_max_obj_size}
use mimalloc_rs.Heap.{bin_block_size, page_slices_for}
use mimalloc_rs.Heap.Sizes.{bin_block_size_lem, at_least_word}

start_off-le : (header_size : ℕ) → header_size ≤ 4064 → start_off header_size ≤ 4096
unfolding start_off
start_off-le header_size h =
    let one = align_up-eq header_size 16 (omega arith) (omega arith) (omega arith) in
    let two =
      align_up-eq (align_up header_size 16) 16 (omega arith) (omega (arith, one)) (omega arith) in
    omega (arith, one, two)

slices_fit :
    (bs : ℕ)
    → 8 ≤ bs
    → bs ≤ 524288
    → (6 * bs + 4096 ≤ page_slices_for bs * 65536) × (page_slices_for bs * 65536 ≤ 8192 * bs)
unfolding page_slices_for
slices_fit bs word h = elim (Bool-cases (leb bs 10240)) [
  | inl small ↦ rw small (ground arith, ground arith)
  | inr more ↦ elim (Bool-cases (leb bs 86698)) [
    | inl medium ↦ rw (more, medium) (ground arith, ground arith)
    | inr large ↦ rw (more, large) (ground arith, ground arith)
  ]
]

reserved-div :
    (header_size slice_ptr index slices size : ℕ) (k : Keys) (zeroed : Bool)
    → (init header_size slice_ptr index slices size k zeroed).reserved
      ≡ (slices * 65536 - start_off header_size) / size % 2 ^ 32
unfolding init
reserved-div header_size slice_ptr index slices size k zeroed = refl

-- For a size of the size classes, the blocks of its class hold it, and a fresh page of such blocks,
-- with as many slices as `page_slices_for` says and a header of at most 4064 bytes, has between 6
-- and 8192 of them.
pub page_slices_for_lem :
    (size header_size slice_ptr index : ℕ) (k : Keys) (zeroed : Bool)
    → 1 ≤ size
    → size ≤ large_max_obj_size
    → header_size ≤ 4064
    → let bs = bin_block_size (bin size) in
      let pg = init header_size slice_ptr index (page_slices_for bs) bs k zeroed in
      (size ≤ bs) × (6 ≤ pg.reserved) × (pg.reserved ≤ 8192)
page_slices_for_lem size header_size slice_ptr index k zeroed pos small header =
    let (enough, same, most) = bin_block_size_lem size pos small in
    let bs = bin_block_size (bin size) in
    let word : 8 ≤ bs =
      let at_least = bin_block_size_lem (max size 8) (ground arith) (ground arith) in
      ground (arith, at_least.0, ap bin_block_size (at_least_word size)) in
    let (room, few) = slices_fit bs word most in
    let off = start_off-le header_size header in
    let area = page_slices_for bs * 65536 - start_off header_size in
    let e = reserved-div header_size slice_ptr index (page_slices_for bs) bs k zeroed in
    let low : 6 ≤ area / bs =
      (le-div_iff_mul-le (omega (arith, enough))).1 (omega (arith, room, off)) in
    let high : area / bs ≤ 8192 = div-le_of_le-mul bs {m = area} {n = 8192} (omega (arith, few)) in
    (enough, omega (arith, e, low, high), omega (arith, e, low, high))
