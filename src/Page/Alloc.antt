-- ===== src/Page/Alloc.antt =====
-- src/page.rs, `extend_free` and `alloc` on a whole page.
use mimalloc_rs.Prelude.{
  ℕ, suc, zero, ◌+◌, ◌*◌, ◌%◌, ◌^◌, ◌≤◌, ◌<◌, ◌≡◌, refl, sym, ap, ◌∙◌, ◌≢◌, inl, inr, Bool, arith,
  ◌==◌, leb, Bool-cases, if◌then◌else◌, List, [], ◌∷◌, ◌++◌, subst, count, length, Option, none,
  some,
}
use mimalloc_rs.FreeList.{Memory}
use mimalloc_rs.Page.{
  Page, tf_block, extend_loop, extend_count, extend_free, collect, pop, popped, extend_pop,
  alloc_slow, alloc, Allocated,
}
use mimalloc_rs.Page.Lists.{slots, slots_mono, Chain-null}
use mimalloc_rs.Page.State.{IsPage, SameLayout, SameLayout-trans, free_Readable, pop_lem}
use mimalloc_rs.Page.Splice.{Leaves, move}
use mimalloc_rs.Page.Collect.{collect_lem}
use mimalloc_rs.Page.Extend.{extended, Extending, extend_loop_lem}

extend_count-le :
    (pg : Page) → pg.capacity ≤ pg.reserved → pg.capacity + extend_count pg ≤ pg.reserved
extend_count-le pg h = ground arith

extend_count-pos : (pg : Page) → pg.capacity < pg.reserved → 1 ≤ extend_count pg
extend_count-pos pg h = ground arith

abbrev Extends : Bool → Page → List ℕ → List ℕ → List ℕ → List ℕ → Page × Memory → Type 0
Extends hardened pg fs ls ts live (pg', mem') =
    IsPage hardened pg' mem' (extended pg.page_start pg.block_size pg.capacity (extend_count pg) fs)
      ls ts live
    × SameLayout pg pg'
    × (pg'.capacity ≡ pg.capacity + extend_count pg)

-- The work of `extend_free` on a page with room.
extend_some :
    (hardened : Bool) (pg : Page) (mem : Memory) (fs ls ts live : List ℕ)
    → IsPage hardened pg mem fs ls ts live
    → let r = extend_loop hardened (extend_count pg) pg pg.capacity pg.free mem in
      Extends hardened pg fs ls ts live
        (record pg { free = r.0; capacity = (pg.capacity + extend_count pg) % 2 ^ 32 }, r.1)
extend_some hardened pg mem fs ls ts live is =
    let n = extend_count pg in
    let le : pg.capacity + n ≤ pg.reserved = extend_count-le pg is.capacity in
    let e : (pg.capacity + n) % 2 ^ 32 ≡ pg.capacity + n = omega (arith, is.reserved) in
    let zero_more : pg.capacity + 0 ≡ pg.capacity = omega arith in
    let base : Extending hardened pg n n pg.free mem fs ls ts live = record {
      free = is.free;
      local = is.local;
      thread = is.thread;
      head_link = free_Readable hardened pg (tf_block pg.xthread_free) mem fs ls ts live is;
      todo = omega arith;
      blocks = λ a. omega (arith, is.blocks a);
      total = omega (arith, is.total);
    } in
    let w =
      extend_loop_lem hardened pg n ls ts live is.size is.start
        (λ a h. is.linkable a (
          omega
            (arith, h, slots_mono pg.page_start pg.block_size (pg.capacity + n) pg.reserved a le)))
        n pg.free mem fs base in
    (
      record {
        free = w.free;
        local = w.local;
        thread = w.thread;
        blocks = λ a. omega (
          arith,
          w.blocks a,
          ap (λ z. count a (slots pg.page_start pg.block_size z)) e,
          ap (λ z. count a (slots pg.page_start pg.block_size z)) zero_more,
        );
        used = is.used;
        total = omega (arith, w.total, e);
        capacity = omega (arith, le, e);
        reserved = is.reserved;
        size = is.size;
        start = is.start;
        null = is.null;
        linkable = is.linkable;
      },
      (refl, refl, refl, refl, refl),
      e,
    )

-- On a well-formed page `extend_free` puts the next blocks above the capacity in front of `free`,
-- the lowest first. It keeps every other list, never passes the reserved count, and adds a block if
-- one is left.
pub extend_free_lem :
    (hardened : Bool) (pg : Page) (mem : Memory) (fs ls ts live : List ℕ)
    → IsPage hardened pg mem fs ls ts live
    → let (pg', mem') = extend_free hardened pg mem in
      IsPage hardened pg' mem'
        (extended pg.page_start pg.block_size pg.capacity (extend_count pg) fs)
        ls
        ts
        live
      × SameLayout pg pg'
      × (pg'.capacity ≡ pg.capacity + extend_count pg)
      × (pg'.capacity ≤ pg.reserved)
      × (pg.capacity < pg.reserved → pg.capacity < pg'.capacity)
unfolding extend_free
extend_free_lem hardened pg mem fs ls ts live is = elim (Bool-cases (leb pg.reserved pg.capacity)) [
  | inl full ↦
      let z : extend_count pg ≡ 0 = ground arith in
      rw (full, z) (is, (refl, refl, refl, refl, refl), omega arith, is.capacity, λ h. ground arith)
  | inr room ↦
      let (page, same, cap) = extend_some hardened pg mem fs ls ts live is in
      rw room (
        page,
        same,
        cap,
        omega (arith, cap, extend_count-le pg is.capacity),
        λ h. omega (arith, cap, extend_count-pos pg h),
      )
]

extended-length :
    (start size capacity n : ℕ) (fs : List ℕ)
    → length (extended start size capacity n fs) ≡ n + length fs
extended-length start size capacity zero fs = omega arith
extended-length start size capacity (suc n) fs =
    omega (arith, extended-length start size capacity n ((start + (capacity + n) * size) ∷ fs))

-- What an allocation gives a client whose live blocks are `live`.
abbrev pub Serves : Bool → Page → List ℕ → Option Allocated → Type 0
Serves hardened pg live none = ⊥
Serves hardened pg live (some (pg', mem', none)) =
    (length live ≡ pg.reserved) × IsPage hardened pg' mem' [] [] [] live × SameLayout pg pg'
Serves hardened pg live (some (pg', mem', some b)) =
    (fs : List ℕ) × (ls : List ℕ) × (ts : List ℕ) × IsPage hardened pg' mem' fs ls ts (b ∷ live)
    × SameLayout pg pg'

popped_same :
    (hardened : Bool) (pg : Page) (mem : Memory) → SameLayout pg (pop hardened pg mem pg.free).0
unfolding pop
popped_same hardened pg mem = (refl, refl, refl, refl, refl)

-- A page with a free block serves it.
serve_popped :
    (hardened : Bool) (pg : Page) (mem : Memory) (fs ls ts live : List ℕ)
    → IsPage hardened pg mem fs ls ts live
    → pg.free ≢ 0
    → Serves hardened pg live (some (popped hardened pg mem))
unfolding pop
serve_popped hardened pg mem [] ls ts live is ne = absurd (ne is.free)
serve_popped hardened pg mem (x ∷ fs) ls ts live is ne =
    let head = sym is.free.0 in
    (
      fs,
      ls,
      ts,
      pop_lem hardened pg mem pg.free fs ls ts live
          (subst (λ z. IsPage hardened pg mem (z ∷ fs) ls ts live) head is),
      popped_same hardened pg mem,
    )

Serves-SameLayout :
    (hardened : Bool) (pg pg' : Page) (live : List ℕ) (r : Option Allocated)
    → SameLayout pg pg'
    → Serves hardened pg' live r
    → Serves hardened pg live r
Serves-SameLayout hardened pg pg' live none same s = s
Serves-SameLayout hardened pg pg' live (some (q, m, none)) same (full, is, same') =
    (full ∙ same.0, is, SameLayout-trans pg pg' q same same')
Serves-SameLayout hardened pg pg' live (some (q, m, some b)) same (fs, ls, ts, is, same') =
    (fs, ls, ts, is, SameLayout-trans pg pg' q same same')

extend_pop_lem :
    (hardened : Bool) (pg : Page) (mem : Memory) (fs live : List ℕ)
    → IsPage hardened pg mem fs [] [] live
    → Serves hardened pg live (some (extend_pop hardened pg mem))
unfolding extend_pop
extend_pop_lem hardened pg mem fs live is =
    let (is', same, cap, le, grows) = extend_free_lem hardened pg mem fs [] [] live is in
    let pg' = (extend_free hardened pg mem).0 in
    let mem' = (extend_free hardened pg mem).1 in
    let list = extended pg.page_start pg.block_size pg.capacity (extend_count pg) fs in
    elim (Bool-cases (pg'.free == 0)) [
      | inl h ↦
          let empty : list ≡ [] =
            Chain-null hardened pg'.keys mem' pg'.free list is'.free (ground arith) in
          let zero_left : extend_count pg + length fs ≡ 0 =
            sym (extended-length pg.page_start pg.block_size pg.capacity (extend_count pg) fs)
            ∙ ap length empty in
          let full : length live ≡ pg.reserved =
            let all : ¬ (pg.capacity < pg.reserved) =
              λ room. omega (arith, extend_count-pos pg room, zero_left) in
            omega (arith, is.total, zero_left, is.capacity) in
          rw h (full, subst (λ z. IsPage hardened pg' mem' z [] [] live) empty is', same)
      | inr h ↦ rw h (
          Serves-SameLayout hardened pg pg' live (some (popped hardened pg' mem')) same
            (serve_popped hardened pg' mem' list [] [] live is' (ground arith)))
    ]

alloc_collected :
    (hardened : Bool) (pg : Page) (mem : Memory) (fs live : List ℕ)
    → IsPage hardened pg mem fs [] [] live
    → Serves hardened pg live
        (some (if pg.free == 0 then extend_pop hardened pg mem else popped hardened pg mem))
alloc_collected hardened pg mem fs live is = elim (Bool-cases (pg.free == 0)) [
  | inl h ↦ rw h (extend_pop_lem hardened pg mem fs live is)
  | inr h ↦ rw h (serve_popped hardened pg mem fs [] [] live is (ground arith))
]

alloc_slow_rest :
    (hardened : Bool) (pg : Page) (fs live : List ℕ) (r : Option (Page × Memory))
    → Leaves (λ pg' mem'. IsPage hardened pg' mem' fs [] [] live × SameLayout pg pg') r
    → Serves hardened pg live (elim r [
      | none ↦ none
      | some (pg', mem') ↦
          some (if pg'.free == 0 then extend_pop hardened pg' mem' else popped hardened pg' mem')
    ])
alloc_slow_rest hardened pg fs live none l = l
alloc_slow_rest hardened pg fs live (some (pg', mem')) (is, same) =
    Serves-SameLayout hardened pg pg' live
      (some (if pg'.free == 0 then extend_pop hardened pg' mem' else popped hardened pg' mem')) same
      (alloc_collected hardened pg' mem' fs live is)

-- `alloc` of a well-formed page ends. It gives a block that was not live and is live afterwards, or
-- none, and none only when all the reserved blocks of the page are live; the page stays well
-- formed, and its constant fields stay the same.
pub alloc_lem :
    (hardened : Bool) (pg : Page) (mem : Memory) (fs ls ts live : List ℕ)
    → IsPage hardened pg mem fs ls ts live
    → Serves hardened pg live (alloc hardened pg mem)
unfolding alloc alloc_slow
alloc_lem hardened pg mem fs ls ts live is = elim (Bool-cases (pg.free == 0)) [
  | inl h ↦ rw h (
      alloc_slow_rest hardened pg (ls ++ move ts fs) live (collect hardened pg mem)
        (collect_lem hardened pg mem fs ls ts live is))
  | inr h ↦ rw h (serve_popped hardened pg mem fs ls ts live is (ground arith))
]
