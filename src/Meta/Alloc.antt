-- ===== src/Meta/Alloc.antt =====
-- src/arena_meta.rs, allocating metadata.
use mimalloc_rs.Prelude.{
  ℕ, ◌+◌, ◌*◌, ◌<◌, ◌≡◌, ◌⊎◌, true, false, ◌&&◌, not, within, Option, some, none, List,
}
use mimalloc_rs.Bitmap.Map.{Bitmap}
use mimalloc_rs.Meta.{MetaChunk, Meta}
use mimalloc_rs.Meta.Regions.{owned_at, free_at, AreRegions, IsRun, NoRun}

-- What an allocation of `n` blocks makes of the regions `cs`, at the address `p`: its blocks were
-- free, or lie in a new region; they are zeroed, and no other block of the old regions is taken.
pub record IsAllocated (cs : List MetaChunk) (bytes : ℕ → ℕ) (n : ℕ) (s' : Meta) (p : ℕ)
    : Type 0 where
  pub regions : AreRegions s'.chunks
  pub run : IsRun s'.chunks p n
  pub was_free :
      (a : ℕ) → within p (p + n * 64) a ≡ true → (free_at cs a ≡ true) ⊎ (owned_at cs a ≡ false)
  pub zeroed : (a : ℕ) → within p (p + n * 64) a ≡ true → s'.bytes a ≡ 0
  pub now :
      (a : ℕ)
      → owned_at cs a ≡ true
      → (owned_at s'.chunks a ≡ true)
        × (free_at s'.chunks a ≡ (free_at cs a && not (within p (p + n * 64) a)))
  pub kept : (a : ℕ) → owned_at cs a ≡ true → free_at cs a ≡ false → s'.bytes a ≡ bytes a

-- What a request for `n` blocks leaves when it fails.
pub record IsRefused (cs : List MetaChunk) (bytes : ℕ → ℕ) (n : ℕ) (s' : Meta) : Type 0 where
  pub regions : AreRegions s'.chunks
  pub same : (a : ℕ) → owned_at cs a ≡ true → free_at s'.chunks a ≡ free_at cs a
  pub why : (n ≡ 0) ⊎ ((512 < n) ⊎ NoRun cs n)

abbrev pub Allocates : List MetaChunk → (ℕ → ℕ) → ℕ → Option (Meta × Option ℕ) → Type 0
Allocates cs bytes n none = ⊥
Allocates cs bytes n (some (s', none)) = IsRefused cs bytes n s'
Allocates cs bytes n (some (s', some p)) = IsAllocated cs bytes n s' p
