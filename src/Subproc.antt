-- ===== src/Subproc.antt =====
-- src/subproc.rs: the arenas of a process, searched for slices from the one that served last, and a
-- new one where none serves. What the system and the metadata allocator grant to a new arena is a
-- parameter. The calls are those of one thread at a time; `none` is a fault of an arena.
pub mod Arenas
pub mod Slices
pub mod Purge
pub mod Tests
use mimalloc_rs.Prelude.{
  ℕ, zero, suc, ◌+◌, ◌-◌, ◌%◌, max, Bool, true, false, ◌||◌, Option, none, some, List, [], ◌∷◌,
  ◌++◌, leb, ◌==◌, if◌then◌else◌, get_elem?, set, length,
}
use mimalloc_rs.Os.{MemId, System}
use mimalloc_rs.Arena
use mimalloc_rs.Arena.{Arena, Created, refused, made, create, slice_index_of, maybe_purge}

abbrev pub max_arenas : ℕ
max_arenas = 160

abbrev pub default_arena_slices : ℕ
default_arena_slices = 4096

pub record Subproc : Type 0 where
  pub arenas : List Arena
  pub alloc_cursor : ℕ

abbrev pub arena_count : Subproc → ℕ
arena_count s = length s.arenas

unfoldable pub add_arena : Subproc → Arena → Subproc × Bool
add_arena s a =
    if leb max_arenas (arena_count s)
    then (s, false)
    else (record s { arenas = s.arenas ++ (a ∷ []) }, true)

unfoldable pub any_owns : List Arena → ℕ → Bool
any_owns [] ptr = false
any_owns (a ∷ arenas) ptr = elim (slice_index_of a ptr) [
  | none ↦ any_owns arenas ptr
  | some idx ↦ true
]

unfoldable pub owns_address : Subproc → ℕ → Bool
owns_address s ptr = any_owns s.arenas ptr

module _ (sys : System) where
  unfoldable pub purge_all : List Arena → Bool → Option (List Arena)
  purge_all [] force = some []
  purge_all (a ∷ arenas) force = elim (maybe_purge sys a force) [
    | none ↦ none
    | some (a', purged) ↦ elim (purge_all arenas force) [
      | none ↦ none
      | some rest ↦ some (a' ∷ rest)
    ]
  ]

  unfoldable pub try_purge : Subproc → Bool → Option Subproc
  try_purge s force = elim (purge_all s.arenas force) [
    | none ↦ none
    | some arenas ↦ some (record s { arenas = arenas })
  ]

  -- The arena, the slice, its address, and whether the slices are zeroed.
  abbrev pub Served : Type 0
  Served = Option (Subproc × Option (ℕ × ℕ × ℕ × Bool))

  -- `for k in 0..count`, with the rounds that are left.
  unfoldable pub try_arenas : ℕ → Subproc → ℕ → ℕ → ℕ → ℕ → Served
  try_arenas zero s n tseq begin k = some (s, none)
  try_arenas (suc rounds) s n tseq begin k =
      let i = (begin + k) % arena_count s in
      elim (get_elem? s.arenas i) [
        | none ↦ none
        | some a ↦ elim (Arena.alloc_slices sys a n tseq) [
          | none ↦ none
          | some (a', some (idx, p, is_zero)) ↦ some (
            record s {
              arenas = set s.arenas i a';
              alloc_cursor = if k == 0 then s.alloc_cursor else i;
            },
            some (i, idx, p, is_zero),
          )
          | some (a', none) ↦
              try_arenas rounds (record s { arenas = set s.arenas i a' }) n tseq begin (k + 1)
        ]
      ]

  module _ (os_memory : Option (ℕ × MemId)) (bitmap_memory descriptor : Option ℕ) where
    -- The process, and the number of the new arena; one that does not fit in is destroyed.
    unfoldable pub reserve_arena : Subproc → ℕ → Bool → Option (Subproc × Option ℕ)
    reserve_arena s min_slices eager =
        elim (create (max min_slices default_arena_slices) eager os_memory bitmap_memory
          descriptor) [
            | none ↦ none
            | some (refused given_back) ↦ some (s, none)
            | some (made a) ↦
                let (s', added) = add_arena s a in
                if added then some (s', some (arena_count s)) else some (s, none)
          ]

    -- The slices of an arena that has just been added.
    unfoldable pub serve_new : Subproc → ℕ → ℕ → ℕ → Served
    serve_new s n tseq i = elim (get_elem? s.arenas i) [
      | none ↦ none
      | some a ↦ elim (Arena.alloc_slices sys a n tseq) [
        | none ↦ none
        | some (a', none) ↦ some (record s { arenas = set s.arenas i a' }, none)
        | some (a', some (idx, p, is_zero)) ↦ some (
          record s { arenas = set s.arenas i a'; alloc_cursor = arena_count s - 1 },
          some (i, idx, p, is_zero),
        )
      ]
    ]

    unfoldable pub grow : Subproc → ℕ → Bool → ℕ → Served
    grow s n eager tseq = elim (reserve_arena s n eager) [
      | none ↦ none
      | some (s', none) ↦ some (s', none)
      | some (s', some i) ↦ serve_new s' n tseq i
    ]

    unfoldable pub alloc_slices : Subproc → ℕ → Bool → ℕ → Served
    alloc_slices s n eager tseq =
        elim (try_arenas (arena_count s) s n tseq
          (if arena_count s == 0 then 0 else s.alloc_cursor % arena_count s) 0) [
            | none ↦ none
            | some (s', some r) ↦ some (s', some r)
            | some (s', none) ↦ grow s' n eager tseq
          ]
