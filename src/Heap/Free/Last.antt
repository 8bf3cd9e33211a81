-- ===== src/Heap/Free/Last.antt =====
-- src/heap.rs, a free from another thread of the last live block of an abandoned page.
use mimalloc_rs.Prelude.{
  ℕ, ◌+◌, ◌-◌, ◌/◌, ◌%◌, ◌^◌, ◌<◌, ◌≡◌, ◌≢◌, refl, sym, ap, ◌∙◌, inl, inr, Bool, true, false, not,
  arith, ◌==◌, leb, if◌then◌else◌, Bool-cases, within, List, [], ◌∷◌, length, ◌++◌, Option, none,
  some, get_elem?, get_elem?-inside, set, subst,
}
use mimalloc_rs.Os.{System}
use mimalloc_rs.Bitmap.Map.{Bitmap, chunk_count}
use mimalloc_rs.Bitmap.Map.View.{IsBitmap}
use mimalloc_rs.Bitmap.Map.Update.{SetOn, bitmap_clear_n_lem}
use mimalloc_rs.Arena.{Arena, slice_ptr}
use mimalloc_rs.Arena.View.{IsArena, IsSamePlace, IsRange}
use mimalloc_rs.Arena.Abandon.{page_unabandon}
use mimalloc_rs.Subproc.{Subproc}
use mimalloc_rs.Subproc.Arenas.{IsSubproc, put_arena, get_elem?-set_self}
use mimalloc_rs.PageMap.{PageMap, lookup, slice_index}
use mimalloc_rs.FreeList.{Memory}
use mimalloc_rs.Page.{Page, collect, thread_free_push, is_owned}
use mimalloc_rs.Page.Flags.{is_abandoned_mapped, is_all_free}
use mimalloc_rs.Page.State.{IsPage, SameLayout, provenance}
use mimalloc_rs.Page.Splice.{Leaves, move}
use mimalloc_rs.Page.Collect.{collect_lem}
use mimalloc_rs.Page.Owner.{thread_free_push_lem}
use mimalloc_rs.Page.Partly.{collect_partly}
use mimalloc_rs.Page.Partly.Migrate.{Gathered, collect_partly_lem}
use mimalloc_rs.Heap.Theap.{World, release_page_slices}
use mimalloc_rs.Heap.Theap.Cells.{put_self}
use mimalloc_rs.Heap.Theap.Release.{IsHome, IsReleased, get_elem?-set_ne, release_page_slices_lem}
use mimalloc_rs.Heap.Free.{
  store, on_arena, unabandon_if_mapped, gather, free_try_collect_mt, free_shared,
}

-- The registry of arena `a` has a bitmap for the bin of the page, which reaches its slice.
pub record IsListed (a : Arena) (pg : Page) : Type 0 where
  pub maps : List Bitmap
  pub m : Bitmap
  pub mapped : a.abandoned ≡ some maps
  pub at : get_elem? maps pg.bin ≡ some m
  pub bitmap : IsBitmap m
  pub reach : pg.slice_index / 512 < chunk_count m

page_unabandon_lem :
    (a : Arena) (pg : Page)
    → IsListed a pg
    → (o : Option (List Bitmap)) × (page_unabandon a pg.slice_index pg.bin
        ≡ some (record a { abandoned = o }))
unfolding page_unabandon
page_unabandon_lem a pg is =
    let ((m', was_set), got, ok, cleared) =
      bitmap_clear_n_lem is.m pg.slice_index 1 is.bitmap is.reach (omega arith) in
    (some (set is.maps pg.bin m'), simp (page_unabandon, is.mapped) (simp (is.at, got)))

with_abandoned-IsArena :
    (a : Arena) (o : Option (List Bitmap)) → IsArena a → IsArena (record a { abandoned = o })
with_abandoned-IsArena a o is = record {
  free = is.free;
  committed = is.committed;
  purge = is.purge;
  dirty = is.dirty;
  same_committed = is.same_committed;
  same_purge = is.same_purge;
  same_dirty = is.same_dirty;
  covers = is.covers;
  inside = is.inside;
}

on_arena_lem :
    (w : World) (i : ℕ) (f : Arena → Option Arena) (a b : Arena)
    → get_elem? w.subproc.arenas (i - 1) ≡ some a
    → f a ≡ some b
    → on_arena w i f
      ≡ some (record w { subproc = record w.subproc { arenas = set w.subproc.arenas (i - 1) b } })
unfolding on_arena
on_arena_lem w i f a b at done = rw (on_arena, at, done) refl

-- A release takes the page out of the registry first.
taken_out :
    (sys : System) (w : World) (p : ℕ) (a : Arena)
    → IsSubproc w.subproc
    → IsHome w.subproc (w.pages p) a
    → (is_abandoned_mapped (w.pages p) ≡ true → IsListed a (w.pages p))
    → (w' : World) × (elim (unabandon_if_mapped w p) [
      | none ↦ none
      | some w2 ↦ release_page_slices sys w2 p
    ]
        ≡ some w')
      × IsReleased w p a w'
unfolding unabandon_if_mapped
taken_out sys w p a is home listed = elim (Bool-cases (is_abandoned_mapped (w.pages p))) [
  | inr unmapped ↦
      let (w', got, done, l, t) = release_page_slices_lem sys w p a is home in
      (w', rw unmapped got, done)
  | inl mapped ↦
      let pg = w.pages p in
      let i = pg.arena - 1 in
      let (o, got) = page_unabandon_lem a pg (listed mapped) in
      let b : Arena = record a { abandoned = o } in
      let some_arena : (pg.arena == 0) ≡ false = let ne = home.some_arena in ground arith in
      let entry =
        on_arena_lem w pg.arena (λ x. page_unabandon x pg.slice_index pg.bin) a b home.arena got in
      let s : Subproc = record w.subproc { arenas = set w.subproc.arenas i b } in
      let w2 : World = record w { subproc = s } in
      let is2 : IsSubproc s =
        put_arena w.subproc i b w.subproc.alloc_cursor is
          (with_abandoned-IsArena a o (is.arenas i a home.arena)) in
      let home2 : IsHome s pg b = record {
        some_arena = home.some_arena;
        arena =
            get_elem?-set_self w.subproc.arenas i b
              (get_elem?-inside w.subproc.arenas i a home.arena);
        range = record {
          some_slice = home.range.some_slice;
          inside = home.range.inside;
          one_chunk = home.range.one_chunk;
        };
      } in
      let (w', gone, done, l, t) = release_page_slices_lem sys w2 p b is2 home2 in
      let (c, at, place, over) = done.freed in
      (
        w',
        simp (mapped, some_arena) (rw entry gone),
        record {
          subproc = done.subproc;
          freed = (
            c,
            at,
            record { start = place.start; slice_count = place.slice_count; memid = place.memid },
            over,
          );
          others = λ j ne. done.others j ne ∙ get_elem?-set_ne w.subproc.arenas i j b ne;
          map = done.map;
          pages = done.pages;
        },
      )
]

abbrev Left : World → ℕ → List ℕ → Option (Page × Memory) → Type 0
Left w p live r =
    (pg : Page) × (mem : Memory) × (elim r [ none ↦ none | some (q, m) ↦ some (store w p q m) ]
      ≡ some (store w p pg mem))
    × SameLayout (w.pages p) pg
    × (live ≡ [] → pg.used ≡ 0)

-- The state of the page after the first round has gathered the blocks that wait.
gathered :
    (hardened : Bool) (sys : System) (granted : Bool) (w : World) (p block : ℕ)
    (fs ls ts live : List ℕ)
    → IsPage hardened (w.pages p) w.mem fs ls (block ∷ ts) live
    → (pg : Page) × (mem : Memory) × (gather hardened sys granted true w p block
        ≡ some (store w p pg mem))
      × SameLayout (w.pages p) pg
      × (live ≡ [] → pg.used ≡ 0)
unfolding gather
gathered hardened sys granted w p block fs ls ts live is =
    elim (Bool-cases (leb (w.pages p).block_size 1024)) [
      | inl small ↦
          rw (small, gather)
            (partly (collect_partly hardened (w.pages p) w.mem block)
              (collect_partly_lem hardened (w.pages p) w.mem fs ls ts live block is))
      | inr large ↦
          rw (large, gather)
            (fully (collect hardened (w.pages p) w.mem)
              (collect_lem hardened (w.pages p) w.mem fs ls (block ∷ ts) live is))
    ]
  where
    partly :
        (r : Option (Page × Memory))
        → Leaves (Gathered hardened (w.pages p) live) r
        → Left w p live r
    partly none l = absurd l
    partly (some (pg, mem)) (fs', ls', ts', is', same, none_live, few) =
        (pg, mem, refl, same, none_live.1)

    fully :
        (r : Option (Page × Memory))
        → Leaves
            (λ q m.
              IsPage hardened q m (ls ++ move (block ∷ ts) fs) [] [] live
              × SameLayout (w.pages p) q)
            r
        → Left w p live r
    fully none l = absurd l
    fully (some (pg, mem)) (is', same) =
        (pg, mem, refl, same, λ e. omega (arith, is'.used, ap length e))

-- The slices `index` to `index + count` of the arena numbered `i`, which is `a`, have been given
-- back in the process `s` and the page map `table`; the other arenas are the same.
pub record IsGone (s : Subproc) (table : PageMap) (i index count : ℕ) (a : Arena) (w' : World)
    : Type 0 where
  pub subproc : IsSubproc w'.subproc
  pub freed :
      (b : Arena) × (get_elem? w'.subproc.arenas (i - 1) ≡ some b)
      × IsSamePlace a b
      × SetOn a.free index count b.free
  pub others : (j : ℕ) → j ≢ i - 1 → get_elem? w'.subproc.arenas j ≡ get_elem? s.arenas j
  pub map :
      let u = slice_index (slice_ptr a index) in
      (x : ℕ)
      → lookup w'.map x ≡ (if within u (u + count) (slice_index x) then 0 else lookup table x)

-- What a page is in depends on its provenance alone.
IsHome-of :
    (s : Subproc) (pg pg' : Page) (a : Arena)
    → provenance pg' ≡ provenance pg
    → IsHome s pg a
    → IsHome s pg' a
IsHome-of s pg pg' a e home =
    let (some_arena, arena, range) =
      subst
        (λ (z : ℕ × ℕ × ℕ × ℕ × ℕ × ℕ).
          (z.3 ≢ 0) × (get_elem? s.arenas (z.3 - 1) ≡ some a) × IsRange a z.4 z.5)
        (sym e) (home.some_arena, home.arena, home.range) in
    record { some_arena = some_arena; arena = arena; range = range }

IsListed-of :
    (pg pg' : Page) (a : Arena)
    → provenance pg' ≡ provenance pg
    → (is_abandoned_mapped pg ≡ true → IsListed a pg)
    → is_abandoned_mapped pg' ≡ true
    → IsListed a pg'
unfolding is_abandoned_mapped
IsListed-of pg pg' a e listed h =
    let same : pg'.xthread_id ≡ pg.xthread_id = ap (λ (z : ℕ × ℕ × ℕ × ℕ × ℕ × ℕ). z.0) e in
    let is = listed (rw same at h) in
    record {
      maps = is.maps;
      m = is.m;
      mapped = is.mapped;
      at = ap (λ (z : ℕ × ℕ × ℕ × ℕ × ℕ × ℕ). get_elem? is.maps z.2) e ∙ is.at;
      bitmap = is.bitmap;
      reach = subst (λ (z : ℕ × ℕ × ℕ × ℕ × ℕ × ℕ). z.4 / 512 < chunk_count is.m) (sym e) is.reach;
    }

-- The rounds after the page has been claimed: the first one is the last.
claimed_lem :
    (hardened : Bool) (sys : System) (granted : Bool) (w : World) (p block : ℕ) (a : Arena)
    (fs ls ts : List ℕ)
    → IsPage hardened (w.pages p) w.mem fs ls (block ∷ ts) []
    → IsSubproc w.subproc
    → IsHome w.subproc (w.pages p) a
    → (is_abandoned_mapped (w.pages p) ≡ true → IsListed a (w.pages p))
    → (w' : World) × (free_try_collect_mt hardened sys granted 2 true w p block ≡ some w')
      × IsGone w.subproc w.map
          (w.pages p).arena
          (w.pages p).slice_index
          (w.pages p).slice_count
          a
          w'
unfolding free_try_collect_mt is_all_free
claimed_lem hardened sys granted w p block a fs ls ts is ok home listed =
    let (pg, mem, got, same, none_live) = gathered hardened sys granted w p block fs ls ts [] is in
    let w2 = store w p pg mem in
    let at : w2.pages p ≡ pg = put_self w.pages p pg in
    let prov : provenance (w2.pages p) ≡ provenance (w.pages p) =
      ap (λ (q : Page). provenance q) at ∙ same.4 in
    let used : (w2.pages p).used ≡ 0 = ap (λ (q : Page). q.used) at ∙ none_live refl in
    let all : ((w2.pages p).used == 0) ≡ true = ground arith in
    let (w', gone, done) =
      taken_out sys w2 p a ok (IsHome-of w.subproc (w.pages p) (w2.pages p) a prov home)
        (IsListed-of (w.pages p) (w2.pages p) a prov listed) in
    (
      w',
      rw (got, free_try_collect_mt, all) gone,
      subst (λ (z : ℕ × ℕ × ℕ × ℕ × ℕ × ℕ). IsGone w.subproc w.map z.3 z.4 z.5 a w') prov
          (record {
            subproc = done.subproc;
            freed = done.freed;
            others = done.others;
            map = done.map;
          }),
    )

push-provenance :
    (hardened : Bool) (pg : Page) (mem : Memory) (b : ℕ)
    → provenance (thread_free_push hardened pg mem b).0 ≡ provenance pg
unfolding thread_free_push
push-provenance hardened pg mem b = refl

-- A free, by another thread, of the last live block of a well-formed page that no thread owns, whose
-- slices are in an arena of the process, with a bitmap for it in the arena's registry if the page is
-- listed there. Without contention it ends without a fault and returns the page: exactly its slices
-- become free, exactly their addresses map to no page, and the other arenas stay the same.
pub free_shared_lem :
    (hardened : Bool) (sys : System) (granted : Bool) (w : World) (p block : ℕ) (a : Arena)
    (fs ls ts : List ℕ)
    → IsPage hardened (w.pages p) w.mem fs ls ts (block ∷ [])
    → block < 2 ^ 64
    → block % 2 ≡ 0
    → is_owned (w.pages p) ≡ false
    → IsSubproc w.subproc
    → IsHome w.subproc (w.pages p) a
    → (is_abandoned_mapped (w.pages p) ≡ true → IsListed a (w.pages p))
    → (w' : World) × (free_shared hardened sys granted w p block ≡ some w')
      × IsGone w.subproc w.map
          (w.pages p).arena
          (w.pages p).slice_index
          (w.pages p).slice_count
          a
          w'
unfolding free_shared
free_shared_lem hardened sys granted w p block a fs ls ts is small even unowned ok home listed =
    let pg = w.pages p in
    let r = thread_free_push hardened pg w.mem block in
    let (pushed, owned, claimed, used) =
      thread_free_push_lem hardened pg w.mem fs ls ts [] block is small even in
    let w1 = store w p r.0 r.1 in
    let at : w1.pages p ≡ r.0 = put_self w.pages p r.0 in
    let prov : provenance (w1.pages p) ≡ provenance pg =
      ap (λ (q : Page). provenance q) at ∙ push-provenance hardened pg w.mem block in
    let (w', got, gone) =
      claimed_lem hardened sys granted w1 p block a fs ls ts
        (subst (λ q. IsPage hardened q r.1 fs ls (block ∷ ts) []) (sym at) pushed) ok
        (IsHome-of w.subproc pg (w1.pages p) a prov home)
        (IsListed-of pg (w1.pages p) a prov listed) in
    let yes : r.2 ≡ true = claimed ∙ ap not unowned in
    (
      w',
      rw yes got,
      subst (λ (z : ℕ × ℕ × ℕ × ℕ × ℕ × ℕ). IsGone w.subproc w.map z.3 z.4 z.5 a w') prov gone,
    )
