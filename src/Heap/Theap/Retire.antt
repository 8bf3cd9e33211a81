-- ===== src/Heap/Theap/Retire.antt =====
-- src/heap.rs, `retire_page`: what becomes of a page whose last block has been freed.
use mathlib.Core.Path.{subst₂}
use mimalloc_rs.Prelude.{
  ℕ, ◌≤◌, ◌≡◌, refl, sym, ap, ◌∙◌, ◌≢◌, ◌⊎◌, inl, inr, false, arith, ◌==◌, leb, ◌||◌, Bool-cases,
  if◌then◌else◌, some, List, [], ◌∷◌, ◌++◌, count, length, length-append,
}
use mimalloc_rs.Os.{System}
use mimalloc_rs.Arena.{Arena}
use mimalloc_rs.Subproc.Arenas.{IsSubproc}
use mimalloc_rs.PageQueue.{remove}
use mimalloc_rs.PageQueue.Laws.{IsQueue, remove_lem}
use mimalloc_rs.SizeClass.{bin_huge}
use mimalloc_rs.Heap.{small_max_obj_size}
use mimalloc_rs.Heap.Theap.{
  World, ThreadHeap, clear_direct, arm, unlink, retire_page, release_page_slices,
}
use mimalloc_rs.Heap.Theap.Cells.{clear_direct-count, unlink_theap, unlink_queue}
use mimalloc_rs.Heap.Theap.Release.{IsHome, IsReleased, release_page_slices_lem}

-- A page that is kept: it alone has changed, by its countdown, and its heap's range of retired bins
-- covers its bin.
pub record IsKept (w : World) (p : ℕ) (w' : World) : Type 0 where
  pub subproc : w'.subproc ≡ w.subproc
  pub map : w'.map ≡ w.map
  pub links : w'.links ≡ w.links
  pub queues : (w'.theaps (w.pages p).theap).pages ≡ (w.theaps (w.pages p).theap).pages
  pub countdown :
      (w'.pages p).retire_expire ≡ (if leb (w.pages p).block_size small_max_obj_size then 16 else 4)
  pub tracked :
      ((w'.theaps (w.pages p).theap).page_retired_min ≤ (w.pages p).bin)
      × ((w.pages p).bin ≤ (w'.theaps (w.pages p).theap).page_retired_max)
  pub wider :
      ((w'.theaps (w.pages p).theap).page_retired_min
        ≤ (w.theaps (w.pages p).theap).page_retired_min)
      × ((w.theaps (w.pages p).theap).page_retired_max
          ≤ (w'.theaps (w.pages p).theap).page_retired_max)
  pub others : (q : ℕ) → q ≢ p → w'.pages q ≡ w.pages q

-- A page that is given up: its queue has the other pages, no entry of the fast path is left of it,
-- and its slices have been released.
pub record IsGivenUp (w : World) (p : ℕ) (a : Arena) (rest : List ℕ) (w' : World) : Type 0 where
  pub queue : IsQueue ((w'.theaps (w.pages p).theap).pages (w.pages p).bin) w'.links rest
  pub direct : count p (w'.theaps (w.pages p).theap).direct ≡ 0
  pub released : IsReleased w p a w'

arm-IsKept : (w : World) (p : ℕ) → IsKept w p (arm w p)
unfolding arm
arm-IsKept w p = record {
  subproc = refl;
  map = refl;
  links = refl;
  queues = ground arith;
  countdown = ground arith;
  tracked = (ground arith, ground arith);
  wider = (ground arith, ground arith);
  others = λ q ne. ground arith;
}

give_up :
    (sys : System) (w : World) (p : ℕ) (a : Arena) (xs ys : List ℕ)
    → p ≢ 0
    → IsSubproc w.subproc
    → IsHome w.subproc (w.pages p) a
    → IsQueue ((w.theaps (w.pages p).theap).pages (w.pages p).bin) w.links (xs ++ p ∷ ys)
    → (w' : World) × (release_page_slices sys (unlink w (w.pages p).theap (w.pages p).bin p) p
        ≡ some w')
      × IsGivenUp w p a (xs ++ ys) w'
unfolding unlink
give_up sys w p a xs ys nz is home queue =
    let t = (w.pages p).theap in
    let b = (w.pages p).bin in
    let u = unlink w t b p in
    let (w', got, released, links, theaps) = release_page_slices_lem sys u p a is home in
    let (rest, next, prev) = remove_lem _ w.links xs p ys queue in
    let at : (w'.theaps t).pages b ≡ (remove ((w.theaps t).pages b) w.links p).0 =
      ap (λ (f : ℕ → ThreadHeap). (f t).pages b) theaps ∙ unlink_queue w t b p in
    let slots : (w'.theaps t).direct ≡ clear_direct (w.theaps t).direct p =
      ap (λ (f : ℕ → ThreadHeap). (f t).direct) theaps
      ∙ ap (λ (th : ThreadHeap). th.direct) (unlink_theap w t b p) in
    (
      w',
      got,
      record {
        queue = subst₂ (λ q l. IsQueue q l (xs ++ ys)) (sym at) (sym links) rest;
        direct = ap (count p) slots ∙ clear_direct-count (w.theaps t).direct p nz;
        released = record {
          subproc = released.subproc;
          freed = released.freed;
          others = released.others;
          map = released.map;
          pages = released.pages;
        };
      },
    )

pub length-nil : (xs : List ℕ) → length xs ≡ 0 → xs ≡ []
length-nil [] e = refl
length-nil (x ∷ xs) e = absurd (omega arith)

-- What `retire_page` may do with the page `p` of arena `a`, when `rest` are the other pages of its
-- queue.
abbrev pub Retires : World → ℕ → Arena → List ℕ → World → Type 0
Retires w p a rest w' =
    (((w.pages p).retire_expire ≢ 0) × (w' ≡ w))
    ⊎ (((w.pages p).retire_expire ≡ 0)
        × (((((w.pages p).bin ≢ bin_huge) × (rest ≡ [])) × IsKept w p w')
            ⊎ ((((w.pages p).bin ≡ bin_huge) ⊎ (rest ≢ [])) × IsGivenUp w p a rest w')))

-- For a page of a heap and of an arena of the process, which stands in the queue of its bin,
-- `retire_page` does not fault. A page whose countdown is running stays as it is. The only page of
-- a bin that is not the huge one is kept: the process, the page map and the queues stay the same,
-- its countdown becomes 16, or 4 where its blocks are large, and the range of retired bins grows to
-- cover its bin. Any other page leaves the queue of its bin and the fast path, and exactly its
-- slices become free and exactly their addresses map to no page.
pub retire_page_lem :
    (sys : System) (w : World) (p : ℕ) (a : Arena) (xs ys : List ℕ)
    → p ≢ 0
    → (w.pages p).theap ≢ 0
    → IsSubproc w.subproc
    → IsHome w.subproc (w.pages p) a
    → IsQueue ((w.theaps (w.pages p).theap).pages (w.pages p).bin) w.links (xs ++ p ∷ ys)
    → (w' : World) × (retire_page sys w p ≡ some w') × Retires w p a (xs ++ ys) w'
unfolding retire_page
retire_page_lem sys w p a xs ys nz owned is home queue =
    let pg = w.pages p in
    let managed : (pg.theap == 0 || pg.arena == 0) ≡ false =
      let ne = home.some_arena in ground arith in
    let q = (w.theaps pg.theap).pages pg.bin in
    let whole = length-append {0} xs (p ∷ ys) in
    let part = length-append {0} xs ys in
    let counted = queue.counted in
    elim (Bool-cases (pg.retire_expire == 0)) [
      | inr running ↦ (w, rw (managed, running) refl, inl (λ e. ground arith, refl))
      | inl idle ↦
          let e : pg.retire_expire ≡ 0 = ground arith in
          let (w', got, given) = give_up sys w p a xs ys nz is home queue in
          elim (Bool-cases (pg.bin == bin_huge)) [
            | inl huge ↦
                (w', rw (managed, idle, huge) got, inr (e, inr (inl (ground arith), given)))
            | inr normal ↦ elim (Bool-cases (leb q.count 1)) [
              | inl sole ↦ (
                arm w p,
                rw (managed, idle, normal, sole) refl,
                inr (
                  e,
                  inl (
                    (λ z. ground arith, length-nil (xs ++ ys) (ground (arith, whole, part))),
                    arm-IsKept w p,
                  ),
                ),
              )
              | inr more ↦ (
                w',
                rw (managed, idle, normal, more) got,
                inr (e, inr (inr (λ z. ground (arith, whole, part, ap length z)), given)),
              )
            ]
          ]
    ]
