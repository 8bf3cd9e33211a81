-- ===== src/Subproc/Slices.antt =====
-- src/subproc.rs, `alloc_slices` finds slices in the arenas of a process, or in a new one.
use mimalloc_rs.Prelude.{ℕ, ◌+◌, ◌*◌, ◌≤◌, ◌≡◌, Bool, true, false, Option, some, none, get_elem?}
use mimalloc_rs.Bitmap.Map.Update.{RangeIs}
use mimalloc_rs.Os.{System}
use mimalloc_rs.Arena
use mimalloc_rs.Arena.{Arena}
use mimalloc_rs.Subproc.{Subproc, arena_count}
use mimalloc_rs.Subproc.Arenas.{IsSubproc}

-- The slices that are served lie in arena `i` of the process, are not free there, and are
-- committed.
abbrev pub Serves : ℕ → Subproc × Option (ℕ × ℕ × ℕ × Bool) → Type 0
Serves n (s, none) = Unit {0}
Serves n (s, some (i, idx, p, is_zero)) =
    (a : Arena) × (get_elem? s.arenas i ≡ some a)
    × (idx + n ≤ a.slice_count)
    × (p ≡ a.start + idx * 65536)
    × RangeIs false a.free idx n
    × RangeIs true a.committed idx n

abbrev ServedWell : ℕ → ℕ → Option (Subproc × Option (ℕ × ℕ × ℕ × Bool)) → Type 0
ServedWell n count o =
    (r : Subproc × Option (ℕ × ℕ × ℕ × Bool)) × (o ≡ some r)
    × IsSubproc r.0
    × (arena_count r.0 ≡ count)
    × Serves n r

module _ (sys : System) where
  -- What follows the search: the process has its arenas still, or one more.
  abbrev pub EndsWell : Subproc → ℕ → Option (Subproc × Option (ℕ × ℕ × ℕ × Bool)) → Type 0
  EndsWell s n o =
      (r : Subproc × Option (ℕ × ℕ × ℕ × Bool)) × (o ≡ some r)
      × IsSubproc r.0
      × (arena_count s ≤ arena_count r.0)
      × Serves n r
