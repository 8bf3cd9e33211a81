-- ===== src/Heap/Theap.antt =====
-- src/heap.rs: a thread's heap with its pages, and the way of a page from its last block to the
-- arena. Pages, heaps and arenas have addresses, 0 is null; an arena's address is its number in the
-- process's list, from 1. `none` is a fault of a bitmap, or a pointer to no arena. The calls are
-- those of the owning thread.
pub mod Cells
pub mod Release
pub mod Retire
pub mod Owned
pub mod Sweep
pub mod Rounds
pub mod Collect
use mimalloc_rs.Prelude.{
  ℕ, suc, zero, ◌+◌, ◌-◌, ◌/◌, Bool, true, false, ◌&&◌, ◌||◌, not, Option, none, some, List, [],
  ◌∷◌, ltb, leb, ◌==◌, if◌then◌else◌, get_elem?, set,
}
use mimalloc_rs.Os.{System}
use mimalloc_rs.Arena.{Arena, free_slices, slice_ptr}
use mimalloc_rs.Subproc.{Subproc, try_purge}
use mimalloc_rs.PageMap.{PageMap, unregister}
use mimalloc_rs.PageQueue
use mimalloc_rs.PageQueue.{PageQueue, Links}
use mimalloc_rs.Page.{Page}
use mimalloc_rs.Page.Flags.{is_all_free}
use mimalloc_rs.FreeList.{Memory}
use mimalloc_rs.SizeClass.{bin_huge}
use mimalloc_rs.Heap.{small_max_obj_size}

abbrev pub retire_cycles : ℕ
retire_cycles = 16

abbrev pub bin_full : ℕ
bin_full = 74

-- A queue for each bin; `direct` is `pages_free_direct`.
pub record ThreadHeap : Type 0 where
  pub tid : ℕ
  pub tseq : ℕ
  pub pages : ℕ → PageQueue
  pub direct : List ℕ
  pub page_retired_min : ℕ
  pub page_retired_max : ℕ

pub record World : Type 0 where
  pub pages : ℕ → Page
  pub links : Links
  pub mem : Memory
  pub map : PageMap
  pub subproc : Subproc
  pub theaps : ℕ → ThreadHeap
  -- The headers that the metadata allocator got back.
  pub returned : List ℕ

abbrev pub put {ℓ} : {A : Type ℓ} → (ℕ → A) → ℕ → A → ℕ → A
put f p v q = if q == p then v else f q

abbrev pub set_page : World → ℕ → Page → World
set_page w p pg = record w { pages = put w.pages p pg }

abbrev pub set_theap : World → ℕ → ThreadHeap → World
set_theap w t th = record w { theaps = put w.theaps t th }

unfoldable pub is_huge : Page → Bool
is_huge pg = pg.bin == bin_huge

-- Every entry of the fast path for the page becomes null.
unfoldable pub clear_direct : List ℕ → ℕ → List ℕ
clear_direct [] p = []
clear_direct (slot ∷ slots) p = (if slot == p then 0 else slot) ∷ clear_direct slots p

-- `retire_page` arms the countdown of a page that is kept.
unfoldable pub arm : World → ℕ → World
arm w p =
    let page = w.pages p in
    let th = w.theaps page.theap in
    let cycles =
      if leb page.block_size small_max_obj_size then retire_cycles else retire_cycles / 4 in
    set_theap (set_page w p (record page { retire_expire = cycles })) page.theap (record th {
      page_retired_min = if ltb page.bin th.page_retired_min then page.bin else th.page_retired_min;
      page_retired_max = if ltb th.page_retired_max page.bin then page.bin else th.page_retired_max;
    })

-- Unlink a page from the queue of a bin, and clear its entries of the fast path.
unfoldable pub unlink : World → ℕ → ℕ → ℕ → World
unlink w t bin p =
    let th = w.theaps t in
    let (q, links) = PageQueue.remove (th.pages bin) w.links p in
    record w {
      links = links;
      theaps =
          put w.theaps t
            (record th { pages = put th.pages bin q; direct = clear_direct th.direct p });
    }

module _ (sys : System) where
  unfoldable pub release_page_slices : World → ℕ → Option World
  release_page_slices w p =
      let page = w.pages p in
      let release : Option World = elim (get_elem? w.subproc.arenas (page.arena - 1)) [
        | none ↦ none
        | some a ↦ elim (free_slices sys a page.slice_index page.slice_count) [
          | none ↦ none
          | some a' ↦ some (record w {
            map = unregister w.map (slice_ptr a page.slice_index) page.slice_count;
            subproc = record w.subproc { arenas = set w.subproc.arenas (page.arena - 1) a' };
            returned = if is_huge page then p ∷ w.returned else w.returned;
          })
        ]
      ] in
      if page.arena == 0 then some w else release

  unfoldable pub retire_page : World → ℕ → Option World
  retire_page w p =
      let page = w.pages p in
      if page.theap == 0 || page.arena == 0
      then some w
      else (if not (page.retire_expire == 0)
          then some w
          else (if not (page.bin == bin_huge) && leb ((w.theaps page.theap).pages page.bin).count 1
              then some (arm w p)
              else release_page_slices (unlink w page.theap page.bin p) p))

  -- The page `p` at the front of bin `b`, and the range of the bins that are still counting down.
  unfoldable pub sweep_page : World → ℕ → Bool → ℕ → ℕ → ℕ × ℕ → Option (World × ℕ × ℕ)
  sweep_page w t force b p (lo, hi) =
      let page = w.pages p in
      let remaining = page.retire_expire - 1 in
      let counted = set_page w p (record page { retire_expire = remaining }) in
      let release : Option (World × ℕ × ℕ) = elim (release_page_slices (unlink counted t b p) p) [
        | none ↦ none
        | some w' ↦ some (w', lo, hi)
      ] in
      if p == 0
      then some (w, lo, hi)
      else (if page.retire_expire == 0
          then some (w, lo, hi)
          else (if not (is_all_free page)
              then some (set_page w p (record page { retire_expire = 0 }), lo, hi)
              else (if remaining == 0 || force
                  then release
                  else some (counted, if ltb b lo then b else lo, if ltb hi b then b else hi))))

  unfoldable pub sweep_bin : World → ℕ → Bool → ℕ → ℕ × ℕ → Option (World × ℕ × ℕ)
  sweep_bin w t force b range = sweep_page w t force b ((w.theaps t).pages b).first range

  -- `for b in lo..=hi`, with the rounds that are left.
  unfoldable pub sweep : ℕ → World → ℕ → Bool → ℕ → ℕ × ℕ → Option (World × ℕ × ℕ)
  sweep zero w t force b range = some (w, range.0, range.1)
  sweep (suc left) w t force b range = elim (sweep_bin w t force b range) [
    | none ↦ none
    | some (w', lo, hi) ↦ sweep left w' t force (b + 1) (lo, hi)
  ]

  unfoldable pub collect_retired : World → ℕ → Bool → Option World
  collect_retired w t force =
      let th = w.theaps t in
      let rounds = th.page_retired_max + 1 - th.page_retired_min in
      elim (sweep rounds w t force th.page_retired_min (bin_full, 0)) [
        | none ↦ none
        | some (w', lo, hi) ↦
            let w2 =
              set_theap w' t
                (record (w'.theaps t) { page_retired_min = lo; page_retired_max = hi }) in
            elim (try_purge sys w2.subproc false) [
              | none ↦ none
              | some s ↦ some (record w2 { subproc = s })
            ]
      ]
