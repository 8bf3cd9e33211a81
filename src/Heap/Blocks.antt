-- ===== src/Heap/Blocks.antt =====
-- src/heap.rs: the block that a pointer into a page stands for, and aligned allocation, for any way
-- to allocate a block. A page is found by the page map.
use native.Mathlib.Nat.{add-mul-div_right, div-eq_of_lt, mod-eq_of_lt, add-mul-mod_self_right}
use mimalloc_rs.Prelude.{
  ℕ, ◌+◌, ◌-◌, ◌*◌, ◌/◌, ◌%◌, ◌^◌, ◌≤◌, ◌<◌, ◌≡◌, refl, sym, ap, ◌∙◌, ◌≢◌, inl, inr, true, false,
  arith, ◌==◌, leb, if◌then◌else◌, Bool-cases, Option, some, none, subst,
}
use mimalloc_rs.Word.{wrapping_add}
use mimalloc_rs.Layout.{align_up, intptr_size}
use mimalloc_rs.Layout.Rounding.{align_lem}
use mimalloc_rs.PageMap.{PageMap, lookup}
use mimalloc_rs.Page.{Page}
use mimalloc_rs.Page.Flags.{set_has_interior}

unfoldable pub recover_block_start : Page → ℕ → ℕ → ℕ
recover_block_start page p bs =
    let pstart = page.page_start in
    let off = p - pstart in if off == 0 then p else wrapping_add pstart (off / bs * bs)

unfoldable pub usable_size : (ℕ → Page) → PageMap → ℕ → ℕ
usable_size pages map ptr =
    let page = lookup map ptr in
    let bs = (pages page).block_size in
    if page == 0 then 0 else bs - (ptr - (pages page).page_start) % bs

-- What the blocks of a heap depend on; `rest` is the state of the allocation itself.
pub record Blocks (R : Type 0) : Type 0 where
  pub pages : ℕ → Page
  pub map : PageMap
  pub rest : R

-- Aligned allocation over `alloc`, the allocation of a block.
module _ {R : Type 0} (alloc : Blocks R → ℕ → Blocks R × Option ℕ) where
  -- The pointer into the block `p`; the page is flagged when it is not the block itself.
  unfoldable pub align_block : ℕ → Blocks R × Option ℕ → Blocks R × Option ℕ
  align_block align (h, none) = (h, none)
  align_block align (h, some p) =
      let aligned = align_up p align in
      let page = lookup h.map p in
      let flagged : Blocks R = record h {
        pages = λ q. if q == page then set_has_interior (h.pages page) else h.pages q;
      } in
      if aligned == p then (h, some aligned) else (flagged, some aligned)

  unfoldable pub alloc_aligned : Blocks R → ℕ → ℕ → Blocks R × Option ℕ
  alloc_aligned h size align =
      if leb align intptr_size
      then alloc h size
      else (if leb (2 ^ 64) (size + (align - 1))
          then (h, none)
          else align_block align (alloc h (size + (align - 1))))

-- In the heap `h`, `p` is the start of a block of a mapped page, with room for `total` bytes.
pub record IsBlock {R : Type 0} (h : Blocks R) (p total : ℕ) : Type 0 where
  pub index : ℕ
  pub place :
      p ≡ (h.pages (lookup h.map p)).page_start + index * (h.pages (lookup h.map p)).block_size
  pub enough : total ≤ (h.pages (lookup h.map p)).block_size
  pub inside : p + (h.pages (lookup h.map p)).block_size < 2 ^ 64
  pub mapped : lookup h.map p ≢ 0
  pub whole :
      (o : ℕ) → o < (h.pages (lookup h.map p)).block_size → lookup h.map (p + o) ≡ lookup h.map p

pub recover_block_start_lem :
    (page : Page) (index d : ℕ)
    → d < page.block_size
    → page.page_start + index * page.block_size < 2 ^ 64
    → recover_block_start page (page.page_start + index * page.block_size + d) page.block_size
      ≡ page.page_start + index * page.block_size
unfolding recover_block_start
recover_block_start_lem page index d lt small =
    let bs = page.block_size in
    let p = page.page_start + index * bs + d in
    let off : p - page.page_start ≡ d + index * bs = omega arith in
    let q : (p - page.page_start) / bs ≡ index = omega (
      arith,
      ap (λ z. z / bs) off,
      add-mul-div_right d index {z = bs} (omega arith),
      div-eq_of_lt lt,
    ) in
    elim (Bool-cases (p - page.page_start == 0)) [
      | inl start ↦ rw start (ground arith)
      | inr later ↦ rw (later, q) (omega arith)
    ]

usable_size_lem :
    (pages : ℕ → Page) (map : PageMap) (index d p : ℕ)
    → lookup map p ≢ 0
    → d < (pages (lookup map p)).block_size
    → p ≡ (pages (lookup map p)).page_start + index * (pages (lookup map p)).block_size + d
    → usable_size pages map p ≡ (pages (lookup map p)).block_size - d
unfolding usable_size
usable_size_lem pages map index d p nz lt e =
    let pg = pages (lookup map p) in
    let mapped : (lookup map p == 0) ≡ false = ground arith in
    let off : p - pg.page_start ≡ d + index * pg.block_size = omega arith in
    let r : (p - pg.page_start) % pg.block_size ≡ d =
      ap (λ z. z % pg.block_size) off
      ∙ add-mul-mod_self_right d index pg.block_size
      ∙ mod-eq_of_lt lt in
    rw (mapped, r) refl

-- What an aligned allocation of `size` bytes in the block `p` of the heap `h` leaves.
pub record IsAligned {R : Type 0} (h : Blocks R) (p size align : ℕ) (h' : Blocks R) (q : ℕ)
    : Type 0 where
  pub multiple : (k : ℕ) × (q ≡ k * align)
  pub above : p ≤ q
  pub room : size ≤ usable_size h'.pages h'.map q
  pub inside : q + usable_size h'.pages h'.map q ≡ p + (h.pages (lookup h.map p)).block_size
  pub back :
      recover_block_start (h'.pages (lookup h'.map q)) q (h'.pages (lookup h'.map q)).block_size ≡ p
  pub flagged : q ≢ p → h'.pages (lookup h'.map q) ≡ set_has_interior (h.pages (lookup h.map p))

same_place :
    (pg : Page)
    → ((set_has_interior pg).page_start ≡ pg.page_start)
      × ((set_has_interior pg).block_size ≡ pg.block_size)
unfolding set_has_interior
same_place pg = (refl, refl)

-- A pointer into the block `p`, in a heap with the same blocks.
placed :
    {R : Type 0} (h : Blocks R) (p size align : ℕ) (h' : Blocks R) (q : ℕ)
    → 1 ≤ size
    → IsBlock h p (size + (align - 1))
    → h'.map ≡ h.map
    → (h'.pages (lookup h.map p)).page_start ≡ (h.pages (lookup h.map p)).page_start
    → (h'.pages (lookup h.map p)).block_size ≡ (h.pages (lookup h.map p)).block_size
    → p ≤ q
    → q < p + align
    → (k : ℕ) × (q ≡ k * align)
    → (q ≢ p → h'.pages (lookup h.map p) ≡ set_has_interior (h.pages (lookup h.map p)))
    → IsAligned h p size align h' q
placed h p size align h' q some_ block map start bs low high multiple flagged =
    let at = lookup h.map p in
    let pg = h'.pages at in
    let d = q - p in
    let enough = block.enough in
    let lt : d < (h.pages at).block_size = omega arith in
    let lt' : d < pg.block_size = omega (arith, lt, bs) in
    let e : lookup h'.map q ≡ at =
      ap (λ m. lookup m q) map
      ∙ ap (lookup h.map) (let z : q ≡ p + d = omega arith in z)
      ∙ block.whole d lt in
    let place : p ≡ pg.page_start + block.index * pg.block_size =
      omega (arith, block.place, start, ap (λ z. block.index * z) bs) in
    let here : q ≡ pg.page_start + block.index * pg.block_size + d = omega (arith, place) in
    let usable : usable_size h'.pages h'.map q ≡ pg.block_size - d =
      usable_size_lem h'.pages h'.map block.index d q (λ z. block.mapped (sym e ∙ z))
        (subst (λ z. d < (h'.pages z).block_size) (sym e) lt')
        (subst (λ z. q ≡ (h'.pages z).page_start + block.index * (h'.pages z).block_size + d)
          (sym e) here)
      ∙ ap (λ z. (h'.pages z).block_size - d) e in
    let recovered : recover_block_start pg q pg.block_size ≡ p =
      ap (λ z. recover_block_start pg z pg.block_size) here
      ∙ recover_block_start_lem pg block.index d lt' (omega (arith, place, block.inside))
      ∙ sym place in
    record {
      multiple = multiple;
      above = low;
      room = omega (arith, usable, bs, enough);
      inside = omega (arith, usable, bs, lt);
      back =
          subst (λ z. recover_block_start (h'.pages z) q (h'.pages z).block_size ≡ p) (sym e)
            recovered;
      flagged = λ ne. ap h'.pages e ∙ flagged ne;
    }

-- A request that overflows with its slack gives none, and asks for no block; one that gets no block
-- gives none.
alloc_aligned-none :
    {R : Type 0} (alloc : Blocks R → ℕ → Blocks R × Option ℕ) (h : Blocks R) (size align : ℕ)
    → 8 < align
    → (2 ^ 64 ≤ size + (align - 1) → alloc_aligned alloc h size align ≡ (h, none))
      × ((h' : Blocks R)
          → size + (align - 1) < 2 ^ 64
          → alloc h (size + (align - 1)) ≡ (h', none)
          → alloc_aligned alloc h size align ≡ (h', none))
unfolding alloc_aligned align_block
alloc_aligned-none alloc h size align big =
    let above : leb align intptr_size ≡ false = ground arith in
    (
      λ over. let e : leb (2 ^ 64) (size + (align - 1)) ≡ true = ground arith in rw (above, e) refl,
      λ h' fits got.
          let e : leb (2 ^ 64) (size + (align - 1)) ≡ false = ground arith in
          rw (above, e, got) refl,
    )

-- A request for at least one byte with an alignment above 8, for which the allocator of blocks
-- serves the size and the slack with a block of a mapped page. Aligned allocation returns a
-- multiple of the alignment inside that block, with at least the size asked for from there to the
-- block's end, as `usable_size` tells; from it, `recover_block_start` finds the block again; and a
-- page that hands out a pointer that is not a block's start is flagged.
pub heap_alloc_aligned_lem :
    {R : Type 0} (alloc : Blocks R → ℕ → Blocks R × Option ℕ) (h : Blocks R) (size align : ℕ)
    (h' : Blocks R) (p : ℕ)
    → 1 ≤ size
    → 8 < align
    → align < 2 ^ 64
    → alloc h (size + (align - 1)) ≡ (h', some p)
    → IsBlock h' p (size + (align - 1))
    → (h2 : Blocks R) × (q : ℕ) × (alloc_aligned alloc h size align ≡ (h2, some q))
      × IsAligned h' p size align h2 q
unfolding alloc_aligned align_block
heap_alloc_aligned_lem alloc h size align h' p some_ big small got block =
    let above : leb align intptr_size ≡ false = ground arith in
    let enough = block.enough in
    let inside = block.inside in
    let e : leb (2 ^ 64) (size + (align - 1)) ≡ false = ground arith in
    let (low, high, multiple, below, near, down) =
      align_lem p align (omega arith) small (omega arith) in
    let q = align_up p align in
    let at = lookup h'.map p in
    elim (Bool-cases (q == p)) [
      | inl same ↦ (
        h',
        q,
        rw (above, e, got, same) refl,
        placed h' p size align h' q some_ block refl refl refl low high multiple
            (λ ne. absurd (ne (ground arith))),
      )
      | inr moved ↦
          let h2 : Blocks _ = record h' {
            pages = λ r. if r == at then set_has_interior (h'.pages at) else h'.pages r;
          } in
          let one : h2.pages at ≡ set_has_interior (h'.pages at) =
            let t : (at == at) ≡ true = ground arith in rw t refl in
          let (start, bs) = same_place (h'.pages at) in
          (
            h2,
            q,
            rw (above, e, got, moved) refl,
            placed h' p size align h2 q some_ block refl
                (ap (λ (pg : Page). pg.page_start) one ∙ start)
                (ap (λ (pg : Page). pg.block_size) one ∙ bs) low high multiple (λ ne. one),
          )
    ]
