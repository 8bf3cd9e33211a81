-- ===== src/Heap/Theap/Release.antt =====
-- src/heap.rs, `release_page_slices`: the slices of a page go back to the arena and the page map.
use mimalloc_rs.Prelude.{
  ℕ, zero, suc, ◌+◌, ◌-◌, ◌≡◌, refl, ◌≢◌, false, arith, some, ◌==◌, if◌then◌else◌, within,
  get_elem?, get_elem?-inside, set, List, [], ◌∷◌,
}
use mimalloc_rs.Os.{System}
use mimalloc_rs.Bitmap.Map.Update.{SetOn}
use mimalloc_rs.Arena.{Arena, slice_ptr}
use mimalloc_rs.Arena.View.{IsRange, IsSamePlace}
use mimalloc_rs.Arena.Slices.{free_slices_lem}
use mimalloc_rs.Subproc.{Subproc}
use mimalloc_rs.Subproc.Arenas.{IsSubproc, get_elem?-set_self, put_arena}
use mimalloc_rs.PageMap.{lookup, unregister, slice_index}
use mimalloc_rs.PageMap.View.{unregister_lem}
use mimalloc_rs.Page.{Page}
use mimalloc_rs.Heap.Theap.{World, is_huge, release_page_slices}

-- The arena `a` of a page, which has the slices of the page.
pub record IsHome (s : Subproc) (pg : Page) (a : Arena) : Type 0 where
  pub some_arena : pg.arena ≢ 0
  pub arena : get_elem? s.arenas (pg.arena - 1) ≡ some a
  pub range : IsRange a pg.slice_index pg.slice_count

-- The slices of page `p`, in arena `a`, have been given back; the pages and the other arenas are
-- the same.
pub record IsReleased (w : World) (p : ℕ) (a : Arena) (w' : World) : Type 0 where
  pub subproc : IsSubproc w'.subproc
  pub freed :
      (b : Arena) × (get_elem? w'.subproc.arenas ((w.pages p).arena - 1) ≡ some b)
      × IsSamePlace a b
      × SetOn a.free (w.pages p).slice_index (w.pages p).slice_count b.free
  pub others :
      (j : ℕ)
      → j ≢ (w.pages p).arena - 1
      → get_elem? w'.subproc.arenas j ≡ get_elem? w.subproc.arenas j
  pub map :
      let u = slice_index (slice_ptr a (w.pages p).slice_index) in
      (x : ℕ)
      → lookup w'.map x
        ≡ (if within u (u + (w.pages p).slice_count) (slice_index x) then 0 else lookup w.map x)
  pub pages : w'.pages ≡ w.pages

pub get_elem?-set_ne :
    (xs : List Arena) (i j : ℕ) (a : Arena) → j ≢ i → get_elem? (set xs i a) j ≡ get_elem? xs j
get_elem?-set_ne [] i j a ne = refl
get_elem?-set_ne (x ∷ xs) zero zero a ne = absurd (ne refl)
get_elem?-set_ne (x ∷ xs) zero (suc j) a ne = refl
get_elem?-set_ne (x ∷ xs) (suc i) zero a ne = refl
get_elem?-set_ne (x ∷ xs) (suc i) (suc j) a ne = get_elem?-set_ne xs i j a (λ e. ne (rw e refl))

-- For a page with slices in an arena of the process, `release_page_slices` does not fault: exactly
-- the slices of the page become free in the arena, exactly their addresses map to no page, and the
-- pages, the heaps and the other arenas stay the same.
pub release_page_slices_lem :
    (sys : System) (w : World) (p : ℕ) (a : Arena)
    → IsSubproc w.subproc
    → IsHome w.subproc (w.pages p) a
    → (w' : World) × (release_page_slices sys w p ≡ some w')
      × IsReleased w p a w'
      × (w'.links ≡ w.links)
      × (w'.theaps ≡ w.theaps)
unfolding release_page_slices
release_page_slices_lem sys w p a is home =
    let pg = w.pages p in
    let ok = is.arenas (pg.arena - 1) a home.arena in
    let inside = get_elem?-inside w.subproc.arenas (pg.arena - 1) a home.arena in
    let some_arena : (pg.arena == 0) ≡ false = let ne = home.some_arena in ground arith in
    let (b, done, ok', place, over, committed) =
      free_slices_lem sys a pg.slice_index pg.slice_count ok home.range in
    let w' : World = record w {
      map = unregister w.map (slice_ptr a pg.slice_index) pg.slice_count;
      subproc = record w.subproc { arenas = set w.subproc.arenas (pg.arena - 1) b };
      returned = if is_huge pg then p ∷ w.returned else w.returned;
    } in
    (
      w',
      rw (some_arena, home.arena, done) refl,
      record {
        subproc = put_arena w.subproc (pg.arena - 1) b w.subproc.alloc_cursor is ok';
        freed = (b, get_elem?-set_self w.subproc.arenas (pg.arena - 1) b inside, place, over);
        others = λ j ne. get_elem?-set_ne w.subproc.arenas (pg.arena - 1) j b ne;
        map = λ x. unregister_lem w.map (slice_ptr a pg.slice_index) pg.slice_count x;
        pages = refl;
      },
      refl,
      refl,
    )
