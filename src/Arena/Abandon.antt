-- ===== src/Arena/Abandon.antt =====
-- src/arena.rs, the registry of abandoned pages: one bitmap of slices for each size class, mapped
-- at its first use. How a page is claimed is a parameter, with the state that it changes.
pub mod Registry
pub mod Reclaim
use mimalloc_rs.Prelude.{
  ℕ, zero, suc, ◌*◌, ◌<◌, ◌≡◌, refl, Bool, Option, none, some, List, [], ◌∷◌, if◌then◌else◌,
  get_elem?, set,
}
use mimalloc_rs.Bitmap.Map.{Bitmap, chunk_count, set_n, clear_n}
use mimalloc_rs.Bitmap.Wide.{try_find_and_claim}
use mimalloc_rs.Arena.{Arena, bin_count, zeroed_bitmap}

unfoldable pub registry : ℕ → ℕ → List Bitmap
registry count zero = []
registry count (suc bins) = zeroed_bitmap count ∷ registry count bins

-- The registry, mapped at its first use if the system grants its memory.
unfoldable pub ensure_abandoned : Bool → Arena → Option (Arena × List Bitmap)
ensure_abandoned granted a = elim a.abandoned [
  | some maps ↦ some (a, maps)
  | none ↦
      let maps = registry (chunk_count a.free) bin_count in
      if granted then some (record a { abandoned = some maps }, maps) else none
]

-- `none` is a fault; a page that cannot be registered is left out.
unfoldable pub page_abandon : Bool → Arena → ℕ → ℕ → Option Arena
page_abandon granted a slice_index bin = elim (ensure_abandoned granted a) [
  | none ↦ some a
  | some (a', maps) ↦ elim (get_elem? maps bin) [
    | none ↦ none
    | some m ↦ elim (set_n m slice_index 1) [
      | none ↦ none
      | some (m', was_clear) ↦ some (record a' { abandoned = some (set maps bin m') })
    ]
  ]
]

unfoldable pub page_unabandon : Arena → ℕ → ℕ → Option Arena
page_unabandon a slice_index bin = elim a.abandoned [
  | none ↦ some a
  | some maps ↦ elim (get_elem? maps bin) [
    | none ↦ none
    | some m ↦ elim (clear_n m slice_index 1) [
      | none ↦ none
      | some (m', was_set) ↦ some (record a { abandoned = some (set maps bin m') })
    ]
  ]
]

module _ {S : Type 0} (claim : ℕ → S → S × Bool) where
  unfoldable pub reclaim_abandoned : Arena → S → ℕ → ℕ → Option (Arena × S × Option ℕ)
  reclaim_abandoned a s bin tseq = elim a.abandoned [
    | none ↦ some (a, s, none)
    | some maps ↦ elim (get_elem? maps bin) [
      | none ↦ none
      | some m ↦ elim (try_find_and_claim claim m s tseq) [
        | none ↦ none
        | some (m', s', found) ↦ some (record a { abandoned = some (set maps bin m') }, s', found)
      ]
    ]
  ]
