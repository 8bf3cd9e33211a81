-- ===== src/Os/Trim.antt =====
-- src/os.rs, `alloc_aligned` gives back exactly what it has mapped too much.
use mimalloc_rs.Prelude.{
  ℕ, ◌+◌, ◌*◌, ◌^◌, ◌≤◌, ◌≡◌, ◌⊎◌, Bool, true, Option, none, some, List, [], ◌∷◌, if◌then◌else◌,
  within,
}
use mimalloc_rs.Layout.{is_aligned}
use mimalloc_rs.Os.{MemId, PrimAlloc, System, Call, mapped, unmapped}

-- How often the range, 1 or 0 times, has the address `x`.
abbrev pub touches : ℕ → ℕ → ℕ → ℕ
touches addr size x = if within addr (addr + size) x then 1 else 0

-- How often the address `x` has been mapped, and unmapped.
abbrev pub mapped_at : List Call → ℕ → ℕ
mapped_at [] x = 0
mapped_at (mapped addr size ∷ calls) x = touches addr size x + mapped_at calls x
mapped_at (unmapped addr size ∷ calls) x = mapped_at calls x

abbrev pub unmapped_at : List Call → ℕ → ℕ
unmapped_at [] x = 0
unmapped_at (mapped addr size ∷ calls) x = unmapped_at calls x
unmapped_at (unmapped addr size ∷ calls) x = touches addr size x + unmapped_at calls x

-- How often the region that is returned has the address `x`.
abbrev pub held : Option (ℕ × MemId) → ℕ → ℕ
held none x = 0
held (some (ptr, memid)) x = touches memid.base memid.size x

-- What an allocation of `size` bytes promises of the region it returns.
abbrev pub Places : ℕ → ℕ → Option (ℕ × MemId) → Type 0
Places size alignment none = Unit {0}
Places size alignment (some (ptr, memid)) =
    (memid.base ≡ ptr)
    × (memid.size ≡ size)
    × ((is_aligned ptr alignment ≡ true) ⊎ ((q : ℕ) × (ptr ≡ q * alignment)))

abbrev pub IsExact : ℕ → ℕ → List Call × Option (ℕ × MemId) → Type 0
IsExact size alignment (calls, r) =
    ((x : ℕ) → mapped_at calls x ≡ unmapped_at calls x + held r x) × Places size alignment r

-- The platform maps inside the address space.
abbrev pub InSpace : System → Type 0
InSpace sys =
    (size alignment : ℕ) (commit allow_large : Bool) (a : PrimAlloc)
    → sys.prim_alloc size alignment commit allow_large ≡ some a
    → a.addr + size ≤ 2 ^ 64
