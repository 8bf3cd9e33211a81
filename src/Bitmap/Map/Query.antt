-- ===== src/Bitmap/Map/Query.antt =====
-- src/bitmap.rs, the queries of a bitmap inside one chunk, and its updates with the number of
-- chunks.
use mimalloc_rs.Prelude.{ℕ, ◌+◌, ◌/◌, ◌%◌, ◌<◌, ◌≤◌, ◌≡◌, ◌↔◌, Bool, true, false, some, arith, ltb}
use mimalloc_rs.Bitmap.Chunk.Loops.{is_set_n_lem, is_clear_n_lem}
use mimalloc_rs.Bitmap.Map.{Bitmap, chunk_count, is_set, is_set_n, is_clear_n, set_n, clear_n}
use mimalloc_rs.Bitmap.Map.View.{IsBitmap, bit_of, chunk_at, chunk-some}
use mimalloc_rs.Bitmap.Map.Update.{
  RangeIs, RangeIs-iff, SetOn, ClearsRange, bitmap_set_n_lem, bitmap_clear_n_lem,
}
use mimalloc_rs.Bitmap.Map.Find.{chunk_is_set_lem}
use mimalloc_rs.Bitmap.Map.Counts.{set_n-count, clear_n-count}

pub bitmap_is_set_lem :
    (m : Bitmap) (idx : ℕ)
    → IsBitmap m
    → idx / 512 < chunk_count m
    → is_set m idx ≡ some (bit_of m idx)
unfolding is_set
bitmap_is_set_lem m idx is lt =
    rw (chunk-some m (idx / 512) lt, is_set)
      (chunk_is_set_lem (chunk_at m (idx / 512)) (is.chunks (idx / 512)) (idx % 512) (omega arith))

module _ (m : Bitmap) (idx n : ℕ) (is : IsBitmap m) (lt : idx / 512 < chunk_count m)
    (fits : idx % 512 + n ≤ 512) where
  inside_chunk : ltb 512 (idx % 512 + n) ≡ false
  inside_chunk = ground (arith, fits)

  pub bitmap_is_set_n_lem :
      (r : Bool) × (is_set_n m idx n ≡ some r) × ((r ≡ true) ↔ RangeIs true m idx n)
  unfolding is_set_n
  bitmap_is_set_n_lem =
      let (r, got, iff) =
        is_set_n_lem (chunk_at m (idx / 512)) (is.chunks (idx / 512)) (idx % 512) n fits in
      let view = RangeIs-iff true m idx n fits in
      (
        r,
        rw (inside_chunk, is_set_n, chunk-some m (idx / 512) lt) got,
        (λ e. view.0 (iff.0 e), λ all. iff.1 (view.1 all)),
      )

  pub bitmap_is_clear_n_lem :
      (r : Bool) × (is_clear_n m idx n ≡ some r) × ((r ≡ true) ↔ RangeIs false m idx n)
  unfolding is_clear_n
  bitmap_is_clear_n_lem =
      let (r, got, iff) =
        is_clear_n_lem (chunk_at m (idx / 512)) (is.chunks (idx / 512)) (idx % 512) n fits in
      let view = RangeIs-iff false m idx n fits in
      (
        r,
        rw (inside_chunk, is_clear_n, chunk-some m (idx / 512) lt) got,
        (λ e. view.0 (iff.0 e), λ all. iff.1 (view.1 all)),
      )

  pub set_n_kept :
      (m' : Bitmap) × (r : Bool) × (set_n m idx n ≡ some (m', r))
      × IsBitmap m'
      × SetOn m idx n m'
      × (chunk_count m' ≡ chunk_count m)
  set_n_kept =
      let (m', r, got, ok, over, iff) = bitmap_set_n_lem m idx n is lt fits in
      (m', r, got, ok, over, set_n-count m m' idx n r got)

  pub clear_n_kept :
      (r : Bitmap × Bool) × (clear_n m idx n ≡ some r)
      × IsBitmap r.0
      × ClearsRange m idx n r
      × (chunk_count r.0 ≡ chunk_count m)
  clear_n_kept =
      let (r, got, ok, clears) = bitmap_clear_n_lem m idx n is lt fits in
      (r, got, ok, clears, clear_n-count m r.0 idx n r.1 got)
