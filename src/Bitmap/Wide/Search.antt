-- ===== src/Bitmap/Wide/Search.antt =====
-- src/bitmap.rs, `try_find_and_clear_n` for runs of any length.
use mimalloc_rs.Prelude.{
  ℕ, zero, suc, ◌+◌, ◌*◌, ◌<◌, ◌≤◌, ◌≡◌, refl, ◌↔◌, inl, inr, Bool, true, false, Option, some, none,
  arith, ◌==◌, leb, if◌then◌else◌, Bool-cases,
}
use mimalloc_rs.Bitmap.Map.{Bitmap, chunk_count, max_bits}
use mimalloc_rs.Bitmap.Map.View.{IsBitmap}
use mimalloc_rs.Bitmap.Map.Update.{RangeIs, ClearedOn, ClearsRange}
use mimalloc_rs.Bitmap.Map.Find.{FindsRun, find_small_lem}
use mimalloc_rs.Bitmap.Wide.{
  range_is_set, range_try_clear, huge_loop, try_find_and_clear_n_huge, try_find_and_clear_n,
}
use mimalloc_rs.Bitmap.Wide.Ranges.{range_is_set_lem}
use mimalloc_rs.Bitmap.Wide.Clears.{range_try_clear_lem}

-- The search from `start` on takes the first run of `n` set bits, across any number of chunks; it
-- fails only if there is none.
abbrev pub FindsFirst : Bitmap → ℕ → ℕ → Bitmap × Option ℕ → Type 0
FindsFirst m n start (m', some idx) =
    (idx + n ≤ chunk_count m * 512)
    × RangeIs true m idx n
    × ClearedOn m idx n m'
    × ((j : ℕ) → start ≤ j → j < idx → ¬ RangeIs true m j n)
FindsFirst m n start (m', none) =
    (m' ≡ m) × ((j : ℕ) → start ≤ j → j + n ≤ chunk_count m * 512 → ¬ RangeIs true m j n)

-- Nothing starts at `start`, so the search goes on after it.
FindsFirst-later :
    (m : Bitmap) (n start : ℕ) (r : Bitmap × Option ℕ)
    → ¬ RangeIs true m start n
    → FindsFirst m n (start + 1) r
    → FindsFirst m n start r
FindsFirst-later m n start (m', some idx) not_here (fits, set, now, first) = (
  fits,
  set,
  now,
  λ j le lt run. elim (Bool-cases (j == start)) [
    | inl e ↦ let q : j ≡ start = ground arith in not_here (rw⁻¹ q run)
    | inr e ↦ first j (ground arith) lt run
  ],
)
FindsFirst-later m n start (m', none) not_here (same, none_) = (
  same,
  λ j le fits run. elim (Bool-cases (j == start)) [
    | inl e ↦ let q : j ≡ start = ground arith in not_here (rw⁻¹ q run)
    | inr e ↦ none_ j (ground arith) fits run
  ],
)

huge_loop_lem :
    (rounds : ℕ) (m : Bitmap) (n start : ℕ)
    → IsBitmap m
    → 1 ≤ n
    → chunk_count m * 512 < start + rounds
    → start ≤ chunk_count m * 512
    → (r : Bitmap × Option ℕ) × (huge_loop rounds m n start ≡ some r)
      × IsBitmap r.0
      × FindsFirst m n start r
unfolding huge_loop
huge_loop_lem zero m n start is pos few le = absurd (omega arith)
huge_loop_lem (suc rounds) m n start is pos few le =
    elim (Bool-cases (leb (start + n) (chunk_count m * 512))) [
      | inr past ↦
          ((m, none), rw (past, huge_loop) refl, is, (refl, λ j at fits. absurd (ground arith)))
      | inl inside ↦
          let fits : start + n ≤ chunk_count m * 512 = ground arith in
          let (b, got, iff) = range_is_set_lem m start n is fits in
          let later = huge_loop_lem rounds m n (start + 1) is pos (omega arith) (omega arith) in
          let (r, cleared, ok, all) = range_try_clear_lem m start n is fits in
          go inside fits b got iff later r cleared ok all
    ]
  where
    go :
        leb (start + n) (chunk_count m * 512) ≡ true
        → start + n ≤ chunk_count m * 512
        → (b : Bool) → range_is_set m start n ≡ some b
        → (b ≡ true) ↔ RangeIs true m start n
        → (r : Bitmap × Option ℕ) × (huge_loop rounds m n (start + 1) ≡ some r)
          × IsBitmap r.0
          × FindsFirst m n (start + 1) r
        → (q : Bitmap × Bool) → range_try_clear m start n ≡ some q
        → IsBitmap q.0
        → ClearsRange m start n q
        → (r : Bitmap × Option ℕ) × (huge_loop (suc rounds) m n start ≡ some r)
          × IsBitmap r.0
          × FindsFirst m n start r
    go inside fits false got iff (r, rest, okr, found) q cleared ok all = (
      r,
      rw (inside, huge_loop, got) rest,
      okr,
      FindsFirst-later m n start r (λ run. absurd (ground (arith, iff.1 run))) found,
    )
    go inside fits true got iff later (m', true) cleared ok (set, now) = (
      (m', some start),
      rw (inside, huge_loop, got, cleared) refl,
      ok,
      (fits, set, now, λ j a b. absurd (omega arith)),
    )
    go inside fits true got iff later (m', false) cleared ok (none_, same) =
        absurd (none_ (iff.0 refl))

-- What the search for `n` bits promises: below 513 bits a run in one chunk, above the first run.
abbrev pub Searched : Bitmap → ℕ → Bitmap × Option ℕ → Type 0
Searched m n r =
    if n == 0 then r ≡ (m, none) else (if leb n 512 then FindsRun m n r else FindsFirst m n 0 r)

-- For any number of bits and any thread sequence number, the search of a bitmap that satisfies the
-- invariant does not fault and keeps the invariant. For no bits it finds nothing. For 1 to 512
-- bits it takes a run inside one chunk and fails only if no chunk has one. For more it takes the
-- first run of the bitmap, whatever chunks it crosses, and fails only if there is none. It clears
-- exactly the run it takes, and changes nothing when it fails.
pub try_find_and_clear_n_lem :
    (m : Bitmap) (n tseq : ℕ)
    → IsBitmap m
    → (r : Bitmap × Option ℕ) × (try_find_and_clear_n m n tseq ≡ some r)
      × IsBitmap r.0
      × Searched m n r
unfolding try_find_and_clear_n try_find_and_clear_n_huge
try_find_and_clear_n_lem m n tseq is = elim (Bool-cases (n == 0)) [
  | inl z ↦ ((m, none), rw (z, try_find_and_clear_n) refl, is, rw z refl)
  | inr nz ↦ elim (Bool-cases (leb n 512)) [
    | inl small ↦
        let (r, got, ok, found) = find_small_lem m n tseq is (ground arith) (ground arith) in
        (r, rw (nz, small, try_find_and_clear_n) got, ok, rw (nz, small) found)
    | inr large ↦
        let (r, got, ok, found) =
          huge_loop_lem (max_bits m + 1) m n 0 is (ground arith) (omega arith) (omega arith) in
        (
          r,
          rw (nz, large, try_find_and_clear_n, try_find_and_clear_n_huge) got,
          ok,
          rw (nz, large) found,
        )
  ]
]
