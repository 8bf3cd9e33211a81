-- ===== src/Subproc/Tests.antt =====
-- src/subproc.rs, the theorem at a process with one arena.
use mimalloc_rs.Prelude.{
  ℕ, zero, suc, ◌≡◌, sym, ap, true, Option, none, some, [], ◌∷◌, arith, get_elem?,
}
use mimalloc_rs.Arena.{Arena}
use mimalloc_rs.Arena.View.{IsArena}
use mimalloc_rs.Arena.Tests.{calm, eight_free, eight_free-IsArena}
use mimalloc_rs.Subproc.{Subproc, try_purge}
use mimalloc_rs.Subproc.Purge.{IsSubprocPurged, try_purge_lem}
use mimalloc_rs.Subproc.Arenas.{IsSubproc}

abbrev pub one_arena : Subproc
one_arena = record { arenas = eight_free ∷ []; alloc_cursor = 3 }

pub one_arena-IsSubproc : IsSubproc one_arena
one_arena-IsSubproc = record { few = omega arith; arenas = arenas }
  where
    arenas : (i : ℕ) (a : Arena) → get_elem? one_arena.arenas i ≡ some a → IsArena a
    arenas zero a e =
        let same : a ≡ eight_free =
          sym (ap (λ (o : Option Arena). elim o [ none ↦ eight_free | some w ↦ w ]) e) in
        rw same eight_free-IsArena
    arenas (suc i) a e = absurd (ground (arith, e))

try_purge_example :
    (s' : Subproc) × (try_purge calm one_arena true ≡ some s')
    × IsSubprocPurged calm true one_arena s'
try_purge_example = try_purge_lem calm one_arena true one_arena-IsSubproc
