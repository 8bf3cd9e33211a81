-- ===== src/Arena/Alloc.antt =====
-- src/arena.rs, `alloc_slices` on runs of at most 512 slices.
use mimalloc_rs.Prelude.{
  ℕ, ◌+◌, ◌-◌, ◌*◌, ◌/◌, ◌%◌, ◌<◌, ◌≤◌, ◌≡◌, refl, sym, ◌∙◌, ap, ◌⊎◌, ◌↔◌, inl, inr, Bool, true,
  false, Option, some, none, arith, leb, ◌==◌, Bool-cases, within,
}
use mimalloc_rs.Bitmap.Map.{Bitmap, chunk_count}
use mimalloc_rs.Bitmap.Map.View.{IsBitmap, bit_of}
use mimalloc_rs.Bitmap.Map.Update.{RangeIs, ClearedOn}
use mimalloc_rs.Bitmap.Map.Query.{bitmap_is_clear_n_lem, set_n_kept}
use mimalloc_rs.Bitmap.Map.Counts.{find_small-count}
use mimalloc_rs.Bitmap.Map.Find.{IsTakenFrom, FindsRun, find_small_lem}
use mimalloc_rs.Bitmap.Map.{find_small}
use mimalloc_rs.Arena.Slices.{free_slices_lem, ensure_committed_lem}
use mimalloc_rs.Bitmap.Wide.{try_find_and_clear_n}
use mimalloc_rs.Os.{System, commit}
use mimalloc_rs.Arena.{Arena, hand_out, alloc_slices, slice_ptr}
use mimalloc_rs.Arena.View.{
  IsArena, IsRange, chunk-lt, IsSamePlace, with_free-IsArena, with_committed-IsArena,
  with_dirty-IsArena,
}

module _ (sys : System) where
  -- What `alloc_slices` promises for `n` slices: a run that was free and is free no more, with its
  -- commit bits and its dirty bits set; or nothing, with the free slices as before, because no chunk has a run or
  -- because the platform refused to commit one.
  pub record IsGiven (a b : Arena) (n idx ptr : ℕ) (clean : Bool) : Type 0 where
    pub inside : idx + n ≤ a.slice_count
    pub place : ptr ≡ a.start + idx * 65536
    pub was_free : RangeIs true a.free idx n
    pub now : ClearedOn a.free idx n b.free
    pub committed : RangeIs true b.committed idx n
    pub dirty : RangeIs true b.dirty idx n
    pub was_clean : (clean ≡ true) ↔ ((a.memid.initially_zero ≡ true) × RangeIs false a.dirty idx n)

  abbrev pub Allocates : Arena → ℕ → Arena × Option (ℕ × ℕ × Bool) → Type 0
  Allocates a n (b, some (idx, ptr, clean)) = IsGiven a b n idx ptr clean
  Allocates a n (b, none) =
      ((i : ℕ) → bit_of b.free i ≡ bit_of a.free i)
      × (((idx : ℕ)
            → idx / 512 < chunk_count a.free
            → idx % 512 + n ≤ 512
            → ¬ RangeIs true a.free idx n)
          ⊎ ((idx : ℕ) × RangeIs true a.free idx n
              × (commit sys (slice_ptr a idx) (n * 65536) ≡ none)))

  -- The outcome of an allocation.
  abbrev Given : Arena → ℕ → Option (Arena × Option (ℕ × ℕ × Bool)) → Type 0
  Given a n o =
      (r : Arena × Option (ℕ × ℕ × Bool)) × (o ≡ some r)
      × IsArena r.0
      × IsSamePlace a r.0
      × Allocates a n r

  hand_out_lem :
      (a : Arena) (f c : Bitmap) (idx n : ℕ)
      → IsArena a
      → IsTakenFrom a.free n idx f
      → IsRange a idx n
      → IsArena (record a { free = f; committed = c })
      → RangeIs true c idx n
      → Given a n (hand_out sys (record a { free = f; committed = c }) idx n true)
  unfolding hand_out
  hand_out_lem a f c idx n is taken range is_c all =
      let lt = chunk-lt a idx is (omega (arith, range.inside, range.some_slice)) in
      let (d, was, got, ok, over, count) =
        set_n_kept a.dirty idx n is.dirty (omega (arith, lt, is.same_dirty)) range.one_chunk in
      let (clear, query, iff) =
        bitmap_is_clear_n_lem a.dirty idx n is.dirty (omega (arith, lt, is.same_dirty))
          range.one_chunk in
      let ok_b =
        with_dirty-IsArena (record a { free = f; committed = c }) d is_c ok
          (omega (arith, count, is.same_dirty, is_c.same_dirty)) in
      let place : IsSamePlace a (record a { free = f; committed = c; dirty = d }) = record {
        start = refl;
        slice_count = refl;
        memid = refl;
      } in
      elim (Bool-cases a.memid.initially_zero) [
        | inl zero_ ↦ (
          (
            record a { free = f; committed = c; dirty = d },
            some (idx, a.start + idx * 65536, clear),
          ),
          simp (hand_out, zero_) (simp (query, got)),
          ok_b,
          place,
          record {
            inside = range.inside;
            place = refl;
            was_free = taken.was_set;
            now = taken.now;
            committed = all;
            dirty = λ i lo hi. ground (arith, over i);
            was_clean = (λ e. (zero_, iff.0 e), λ (z, off). iff.1 off);
          },
        )
        | inr used ↦ (
          (
            record a { free = f; committed = c; dirty = d },
            some (idx, a.start + idx * 65536, false),
          ),
          simp (hand_out, used) (rw got refl),
          ok_b,
          place,
          record {
            inside = range.inside;
            place = refl;
            was_free = taken.was_set;
            now = taken.now;
            committed = all;
            dirty = λ i lo hi. ground (arith, over i);
            was_clean =
                (λ e. absurd (ground (arith, e)), λ (z, off). absurd (ground (arith, used, z)));
          },
        )
      ]

  give_back_lem :
      (a : Arena) (f : Bitmap) (idx n : ℕ)
      → IsTakenFrom a.free n idx f
      → IsRange a idx n
      → IsArena (record a { free = f })
      → commit sys (slice_ptr a idx) (n * 65536) ≡ none
      → Given a n (hand_out sys (record a { free = f }) idx n false)
  unfolding hand_out
  give_back_lem a f idx n taken range is_f refused =
      let (b, done, ok, place, over, rest) =
        free_slices_lem sys (record a { free = f }) idx n is_f
          (record {
            some_slice = range.some_slice;
            inside = range.inside;
            one_chunk = range.one_chunk;
          }) in
      (
        (b, none),
        rw (done, hand_out) refl,
        ok,
        record { start = place.start; slice_count = place.slice_count; memid = place.memid },
        (
          λ i. elim (Bool-cases (within idx (idx + n) i)) [
            | inl e ↦ ground (arith, over i, taken.was_set i (ground arith) (ground arith), e)
            | inr e ↦ ground (arith, over i, taken.now i, e)
          ],
          inr (idx, taken.was_set, refused),
        ),
      )

  -- For 1 to 512 slices and any thread sequence number, `alloc_slices` does not fault and keeps the
  -- invariant of the arena. The slices it returns were free, lie in the arena and are free no more,
  -- while every other slice stays as it was; their commit bits and their dirty bits are set
  -- afterwards; and they are said to be clean exactly if the arena's memory began zeroed and none of
  -- their dirty bits was set before. It returns none only if no chunk has a free run of that length
  -- or the platform refuses to commit one, and then the free slices are as before.
  pub alloc_slices_lem :
      (a : Arena) (n tseq : ℕ)
      → IsArena a
      → 1 ≤ n
      → n ≤ 512
      → (r : Arena × Option (ℕ × ℕ × Bool)) × (alloc_slices sys a n tseq ≡ some r)
        × IsArena r.0
        × IsSamePlace a r.0
        × Allocates a n r
  unfolding alloc_slices try_find_and_clear_n
  alloc_slices_lem a n tseq is pos small =
      let (r, got, ok, found) = find_small_lem a.free n tseq is.free pos small in go r got ok found
    where
      some_bits : (n == 0) ≡ false
      some_bits = ground (arith, pos)

      one_chunk : leb n 512 ≡ true
      one_chunk = ground (arith, small)

      go :
          (r : Bitmap × Option ℕ)
          → find_small a.free n tseq ≡ some r
          → IsBitmap r.0
          → FindsRun a.free n r
          → Given a n (alloc_slices sys a n tseq)
      go (f, none) got ok (same, no_run) = (
        (record a { free = f }, none),
        simp (alloc_slices, try_find_and_clear_n, some_bits, one_chunk, got),
        with_free-IsArena a f is ok (ap chunk_count same)
            (λ i on. is.inside i (ap (λ z. bit_of z i) (sym same) ∙ on)),
        record { start = refl; slice_count = refl; memid = refl },
        (λ i. ap (λ z. bit_of z i) same, inl no_run),
      )
      go (f, some idx) got ok taken =
          let last : idx + n - 1 < a.slice_count =
            is.inside (idx + n - 1) (taken.was_set (idx + n - 1) (omega arith) (omega arith)) in
          let range : IsRange a idx n = record {
            some_slice = pos;
            inside = omega arith;
            one_chunk = taken.fits;
          } in
          let is_f : IsArena (record a { free = f }) =
            with_free-IsArena a f is ok (find_small-count a.free f n tseq (some idx) got)
              (λ i on. is.inside i (ground (arith, taken.now i, on))) in
          elim (ensure_committed_lem sys (record a { free = f }) idx n is_f
            (record {
              some_slice = range.some_slice;
              inside = range.inside;
              one_chunk = range.one_chunk;
            })) [
              | inl (c, done, ok_c, count, all) ↦
                  let (r, out, kept, place, gives) =
                    hand_out_lem a f c idx n is taken range
                      (with_committed-IsArena (record a { free = f }) c is_f ok_c count) all in
                  (
                    r,
                    rw (some_bits, one_chunk, alloc_slices, try_find_and_clear_n, got, done) out,
                    kept,
                    place,
                    gives,
                  )
              | inr (done, refused) ↦
                  let (r, out, kept, place, gives) =
                    give_back_lem a f idx n taken range is_f refused in
                  (
                    r,
                    rw (some_bits, one_chunk, alloc_slices, try_find_and_clear_n, got, done) out,
                    kept,
                    place,
                    gives,
                  )
            ]
