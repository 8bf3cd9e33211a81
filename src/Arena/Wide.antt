-- ===== src/Arena/Wide.antt =====
-- src/arena.rs, `alloc_slices` on more than 512 slices, a run that cannot lie in one chunk.
use mimalloc_rs.Prelude.{
  ℕ, ◌+◌, ◌*◌, ◌%◌, ◌<◌, ◌≤◌, ◌≡◌, refl, inl, inr, Bool, true, false, Option, some, none, arith,
  ltb, leb, ◌==◌, if◌then◌else◌, Option-cases,
}
use mimalloc_rs.Bitmap.Map.{Bitmap, chunk_count, is_set_n}
use mimalloc_rs.Bitmap.Map.View.{IsBitmap}
use mimalloc_rs.Bitmap.Map.Update.{RangeIs}
use mimalloc_rs.Bitmap.Wide.{try_find_and_clear_n}
use mimalloc_rs.Bitmap.Wide.Sets.{set_n_faults}
use mimalloc_rs.Bitmap.Wide.Search.{FindsFirst, try_find_and_clear_n_lem}
use mimalloc_rs.Os.{System, commit}
use mimalloc_rs.Arena.{Arena, ensure_committed, free_slices, hand_out, alloc_slices, slice_ptr}
use mimalloc_rs.Arena.View.{IsArena}

otherwise : (A B : Type 0) (b : Bool) → b ≡ false → (if b then A else B) → B
otherwise A B true e x = absurd (ground (arith, e))
otherwise A B false e x = x

module _ (sys : System) where
  is_set_n-wide : (m : Bitmap) (idx n : ℕ) → 512 < n → is_set_n m idx n ≡ some false
  unfolding is_set_n
  is_set_n-wide m idx n wide =
      let out : ltb 512 (idx % 512 + n) ≡ true = ground (arith, wide) in rw (out, is_set_n) refl

  free_slices-wide :
      (a : Arena) (idx n : ℕ) → IsBitmap a.free → 512 < n → free_slices sys a idx n ≡ none
  unfolding free_slices
  free_slices-wide a idx n ok wide =
      rw (set_n_faults a.free idx n ok (omega arith), free_slices) refl

  ensure_committed-refused :
      (a : Arena) (idx n : ℕ)
      → 512 < n
      → commit sys (slice_ptr a idx) (n * 65536) ≡ none
      → ensure_committed sys a idx n ≡ some (a, false)
  unfolding ensure_committed
  ensure_committed-refused a idx n wide refused =
      rw (is_set_n-wide a.committed idx n wide, ensure_committed, refused) refl

  ensure_committed-granted :
      (a : Arena) (idx n : ℕ) (z : Bool)
      → IsBitmap a.committed
      → 512 < n
      → commit sys (slice_ptr a idx) (n * 65536) ≡ some z
      → ensure_committed sys a idx n ≡ none
  unfolding ensure_committed
  ensure_committed-granted a idx n z ok wide granted =
      rw
        (
          is_set_n-wide a.committed idx n wide,
          ensure_committed,
          granted,
          set_n_faults a.committed idx n ok (omega arith),
        )
        refl

  -- More than 512 slices are never handed out. On an arena that satisfies the invariant, if
  -- there is a run of so many free slices, `alloc_slices` faults on an index out of bounds, whether
  -- the platform commits the run or not.
  pub alloc_slices_faults :
      (a : Arena) (n tseq idx : ℕ)
      → IsArena a
      → 512 < n
      → idx + n ≤ chunk_count a.free * 512
      → RangeIs true a.free idx n
      → alloc_slices sys a n tseq ≡ none
  unfolding alloc_slices hand_out
  alloc_slices_faults a n tseq idx is wide fits run =
      let (r, got, ok, found) = try_find_and_clear_n_lem a.free n tseq is.free in
      let nz : (n == 0) ≡ false = ground (arith, wide) in
      let large : leb n 512 ≡ false = ground (arith, wide) in
      let first : FindsFirst a.free n 0 r =
        otherwise _ _ (leb n 512) large (otherwise _ _ (n == 0) nz found) in
      go r got ok first
    where
      go :
          (r : Bitmap × Option ℕ)
          → try_find_and_clear_n a.free n tseq ≡ some r
          → IsBitmap r.0
          → FindsFirst a.free n 0 r
          → alloc_slices sys a n tseq ≡ none
      go (f, none) got ok (same, none_) = absurd (none_ idx (omega arith) fits run)
      go (f, some j) got ok found = elim (Option-cases (commit sys (slice_ptr a j) (n * 65536))) [
        | inl refused ↦
            rw
              (got, alloc_slices, ensure_committed-refused (record a { free = f }) j n wide refused)
              (rw (free_slices-wide (record a { free = f }) j n ok wide, hand_out) refl)
        | inr (z, granted) ↦
            rw
              (
                got,
                alloc_slices,
                ensure_committed-granted (record a { free = f }) j n z is.committed wide granted,
              )
              refl
      ]
