-- ===== src/PageMap.antt =====
-- src/page_map.rs: the two-level table from 64 KiB slices to pages. A page is its address, 0 is
-- null. A top entry `none` points to the shared submap of nulls. Memory of the operating system
-- comes zeroed; `grants k` says whether request number `k` for it succeeds. The second look under
-- the lock sees what the first one saw, as no other thread runs in between.
pub mod View
pub mod Register
mod Tests
use mimalloc_rs.Prelude.{
  ℕ, zero, suc, ◌+◌, ◌/◌, ◌%◌, Bool, true, false, Option, none, some, ltb, ◌==◌, if◌then◌else◌,
}

abbrev pub sub_count : ℕ
sub_count = 8192

abbrev pub top_count : ℕ
top_count = 262144

abbrev pub Submap : Type 0
Submap = ℕ → ℕ

-- The top table.
abbrev pub Table : Type 0
Table = ℕ → Option Submap

pub record PageMap : Type 0 where
  pub top : Option Table
  -- How many times the operating system has been asked for memory.
  pub asked : ℕ

abbrev pub slice_index : ℕ → ℕ
slice_index addr = addr / 65536

abbrev pub top_of : ℕ → ℕ
top_of u = u / sub_count

abbrev pub sub_of : ℕ → ℕ
sub_of u = u % sub_count

abbrev pub store_entry : Table → ℕ → Option Submap → Table
store_entry f t s i = if i == t then s else f i

abbrev pub store_page : Submap → ℕ → ℕ → Submap
store_page f b page i = if i == b then page else f i

-- Write the page of slice `u` into its submap.
abbrev pub write : Table → ℕ → Submap → ℕ → Table
write table u sub page = store_entry table (top_of u) (some (store_page sub (sub_of u) page))

-- A page of a submap; the shared submap has none.
abbrev pub page_in : Option Submap → ℕ → ℕ
page_in none i = 0
page_in (some sub) i = sub i

-- The load from the submap, for a slice number.
unfoldable pub table_page : Table → ℕ → ℕ
table_page table u = if ltb (top_of u) top_count then page_in (table (top_of u)) (sub_of u) else 0

abbrev pub slice_page : Option Table → ℕ → ℕ
slice_page none u = 0
slice_page (some table) u = table_page table u

unfoldable pub lookup : PageMap → ℕ → ℕ
lookup m addr = slice_page m.top (slice_index addr)

-- `for s in 0..slice_count` of `unregister`, from slice `u` on.
unfoldable pub unregister_loop : ℕ → Table → ℕ → Table
unregister_loop zero table u = table
unregister_loop (suc left) table u =
    let rest : Table = elim (table (top_of u)) [
      | none ↦ unregister_loop left table (u + 1)
      | some sub ↦ unregister_loop left (write table u sub 0) (u + 1)
    ] in
    if ltb (top_of u) top_count then rest else table

unfoldable pub unregister : PageMap → ℕ → ℕ → PageMap
unregister m addr slice_count = elim m.top [
  | none ↦ m
  | some table ↦ record m { top = some (unregister_loop slice_count table (slice_index addr)) }
]

module _ (grants : ℕ → Bool) where
  unfoldable pub ensure_top : PageMap → PageMap × Option Table
  ensure_top m = elim m.top [
    | some table ↦ (m, some table)
    | none ↦
        let fresh : Table = λ i. none in
        if grants m.asked
        then (record { top = some fresh; asked = suc m.asked }, some fresh)
        else (record m { asked = suc m.asked }, none)
  ]

  -- The table, how often memory has been asked for, and the submap; none is the shared submap, when
  -- there is no memory for one of its own.
  unfoldable pub ensure_submap : Table → ℕ → ℕ → Table × ℕ × Option Submap
  ensure_submap table asked t = elim (table t) [
    | some sub ↦ (table, asked, some sub)
    | none ↦
        let fresh : Submap = λ i. 0 in
        if grants asked
        then (store_entry table t (some fresh), suc asked, some fresh)
        else (table, suc asked, none)
  ]

  -- The submap to write slice `u` into, if there is one.
  unfoldable pub submap_for : Table → ℕ → ℕ → Table × ℕ × Option Submap
  submap_for table asked u =
      if ltb (top_of u) top_count
      then ensure_submap table asked (top_of u)
      else (table, asked, none)

  -- `for s in 0..slice_count` of `register`, with the rounds that are left; a failure clears the
  -- slices before `s` again.
  unfoldable pub register_loop : ℕ → Table → ℕ → ℕ → ℕ → ℕ → Table × ℕ × Bool
  register_loop zero table asked u0 s page = (table, asked, true)
  register_loop (suc left) table asked u0 s page =
      let (table', asked', got) = submap_for table asked (u0 + s) in
      elim got [
        | none ↦ (unregister_loop s table' u0, asked', false)
        | some sub ↦ register_loop left (write table' (u0 + s) sub page) asked' u0 (s + 1) page
      ]

  -- `register` with the table that it has got.
  abbrev pub register_in : ℕ → ℕ → ℕ → PageMap × Option Table → PageMap × Bool
  register_in u0 slice_count page (m, none) = (m, false)
  register_in u0 slice_count page (m, some table) =
      let (table', asked', ok) = register_loop slice_count table m.asked u0 0 page in
      (record { top = some table'; asked = asked' }, ok)

  unfoldable pub register : PageMap → ℕ → ℕ → ℕ → PageMap × Bool
  register m addr slice_count page = register_in (slice_index addr) slice_count page (ensure_top m)
