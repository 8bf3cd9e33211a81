-- ===== src/Bitmap/Wide/Clears.antt =====
-- src/bitmap.rs, `range_try_clear` clears a range that may cross chunks, or nothing.
use mimalloc_rs.Prelude.{
  ℕ, zero, suc, ◌+◌, ◌-◌, ◌*◌, ◌/◌, ◌%◌, ◌<◌, ◌≤◌, ◌≡◌, refl, sym, ◌∙◌, ap, inl, inr, Bool, true,
  false, some, arith, ◌==◌, ltb, within, Bool-cases, length-set, get_or, subst,
}
use mimalloc_rs.Bitmap.Chunk
use mimalloc_rs.Bitmap.Chunk.{Chunk}
use mimalloc_rs.Bitmap.Chunk.View.{bit_at, IsChunk}
use mimalloc_rs.Bitmap.Chunk.RollBack.{AllOrNothing}
use mimalloc_rs.Bitmap.Chunk.Clear.{try_clear_n_lem}
use mimalloc_rs.Bitmap.Map.{Bitmap, chunk_count, put}
use mimalloc_rs.Bitmap.Map.View.{
  chunk_at, bit_of, IsBitmap, chunk-some, chunkmap_clear_if_empty_lem,
}
use mimalloc_rs.Bitmap.Map.Update.{
  RangeIs, ClearedOn, ClearsRange, RangeIs-iff, bit_of-put, bit_of-cleared,
}
use mimalloc_rs.Bitmap.Wide.{part, range_clear_loop, range_chunkmap, range_try_clear}
use mimalloc_rs.Bitmap.Wide.Ranges.{
  IsAlike, IsAlike-refl, IsAlike-put, IsAlike-IsBitmap, RangeIs-split, part-fits,
}
use mimalloc_rs.Bitmap.Wide.Sets.{range_roll_back_lem}

-- A prefix of the range, `j` bits of it, was set in `x` and has been cleared in `x'`.
record IsPrefix (m x : Bitmap) (bit n : ℕ) (x' : Bitmap) (j : ℕ) : Type 0 where
  part_of : j ≤ n
  alike : IsAlike m x'
  was_set : RangeIs true x bit j
  cleared : ClearedOn x bit j x'

-- The outcome of the clearing loop, begun with `done` bits cleared before.
abbrev Cleared : Bitmap → Bitmap → ℕ → ℕ → ℕ → Bitmap × ℕ × Bool → Type 0
Cleared m x done bit n (x', done', true) = IsPrefix m x bit n x' n
Cleared m x done bit n (x', done', false) =
    (j : ℕ) × (done' ≡ done + j) × IsPrefix m x bit n x' j × (¬ RangeIs true x bit n)

IsPrefix-empty : (m x : Bitmap) (bit n : ℕ) → IsAlike m x → IsPrefix m x bit n x 0
IsPrefix-empty m x bit n alike = record {
  part_of = omega arith;
  alike = alike;
  was_set = λ i lo hi. absurd (omega arith);
  cleared = λ i. ground arith;
}

-- A cleared part, and then a prefix of what follows.
IsPrefix-append :
    (m x y x' : Bitmap) (bit n k j : ℕ)
    → k ≤ n
    → RangeIs true x bit k
    → ClearedOn x bit k y
    → IsPrefix m y (bit + k) (n - k) x' j
    → IsPrefix m x bit n x' (k + j)
IsPrefix-append m x y x' s n k j le set one two = record {
  part_of = omega (arith, two.part_of);
  alike = two.alike;
  was_set = λ i lo hi. elim (Bool-cases (within s (s + k) i)) [
    | inl e ↦ set i lo (ground arith)
    | inr e ↦ ground (arith, two.was_set i (ground arith) (omega arith), one i)
  ];
  cleared = λ i. ground (arith, one i, two.cleared i);
}

-- What follows the cleared part is set in `y` exactly when it is in `x`.
rest_unset :
    (x y : Bitmap) (s k n : ℕ)
    → k ≤ n
    → ClearedOn x s k y
    → ¬ RangeIs true y (s + k) (n - k)
    → ¬ RangeIs true x s n
rest_unset x y s k n le one no_ all =
    no_ (λ i lo hi. ground (arith, one i, all i (omega arith) (omega arith)))

module _ (rounds : ℕ) (m x : Bitmap) (done s n : ℕ) (alike : IsAlike m x) where
  -- A round, and what the others come to.
  join :
      (d : Chunk)
      → part s n ≤ n
      → RangeIs true x s (part s n)
      → ClearedOn x s (part s n) (put x (s / 512) d)
      → (q : Bitmap × ℕ × Bool)
      → Cleared m (put x (s / 512) d) (done + part s n) (s + part s n) (n - part s n) q
      → Cleared m x done s n q
  join d le set one (x', done', true) p =
      let e : part s n + (n - part s n) ≡ n = omega arith in
      subst (λ z. IsPrefix m x s n x' z) e
        (IsPrefix-append m x (put x (s / 512) d) x' s n (part s n) (n - part s n) le set one p)
  join d le set one (x', done', false) (j, eq, p, no_) = (
    part s n + j,
    omega (arith, eq),
    IsPrefix-append m x (put x (s / 512) d) x' s n (part s n) j le set one p,
    rest_unset x (put x (s / 512) d) s (part s n) n le one no_,
  )

  clear_round :
      (n == 0) ≡ false
      → s / 512 < chunk_count x
      → s % 512 + part s n ≤ 512
      → part s n ≤ n
      → ((y : Bitmap)
          → IsAlike m y
          → chunk_count y ≡ chunk_count x
          → (r : Bitmap × ℕ × Bool) × (range_clear_loop rounds y
                (done + part s n)
                (s + part s n)
                (n - part s n)
              ≡ some r)
            × Cleared m y (done + part s n) (s + part s n) (n - part s n) r)
      → (r : Chunk × Bool) → Chunk.try_clear_n (chunk_at x (s / 512)) (s % 512) (part s n) ≡ some r
      → AllOrNothing (chunk_at x (s / 512)) (s % 512) (part s n) r
      → (q : Bitmap × ℕ × Bool) × (range_clear_loop (suc rounds) x done s n ≡ some q)
        × Cleared m x done s n q
  unfolding range_clear_loop
  clear_round e lt inside le rec (d, false) got (no_, same) =
      let c = s / 512 in
      let kept : IsChunk d = rw same (alike.chunks (s / 512)) in
      let bits : (i : ℕ) → bit_of (put x (s / 512) d) i ≡ bit_of x i = λ i.
        bit_of-put x (put x (s / 512) d) (s / 512) d i lt refl
        ∙ elim (Bool-cases (i / 512 == s / 512)) [
          | inl at ↦
              let eq : i / 512 ≡ s / 512 = ground arith in
              rw at (
                ap (λ q. bit_at q (i % 512)) same
                ∙ ap (λ q. bit_at (chunk_at x q) (i % 512)) (sym eq))
          | inr off ↦ rw off refl
        ] in
      (
        (put x (s / 512) d, done, false),
        rw (e, chunk-some x (s / 512) lt, range_clear_loop, got) refl,
        (
          0,
          omega arith,
          record {
            part_of = omega arith;
            alike = IsAlike-put m x (s / 512) d alike lt kept;
            was_set = λ i lo hi. absurd (omega arith);
            cleared = λ i. ground (arith, bits i);
          },
          λ all. no_ (
              (RangeIs-iff true x s (part s n) inside).1
                (((RangeIs-split true x s (part s n) n le).1 all).0)),
        ),
      )
  clear_round e lt inside le rec (d, true) got (run, now) =
      let set = (RangeIs-iff true x s (part s n) inside).0 run in
      let one = bit_of-cleared x (put x (s / 512) d) s (part s n) d lt inside now refl in
      let (q, rest, after) =
        rec (put x (s / 512) d) (IsAlike-put m x (s / 512) d alike lt now.chunk)
          (length-set x.chunks (s / 512) d) in
      (q, rw (e, chunk-some x (s / 512) lt, range_clear_loop, got) rest, join d le set one q after)

range_clear_loop_lem :
    (rounds : ℕ) (m x : Bitmap) (done s n : ℕ)
    → IsAlike m x
    → n < rounds
    → s + n ≤ chunk_count x * 512
    → (r : Bitmap × ℕ × Bool) × (range_clear_loop rounds x done s n ≡ some r)
      × Cleared m x done s n r
unfolding range_clear_loop
range_clear_loop_lem zero m x done s n alike few fits = absurd (omega arith)
range_clear_loop_lem (suc rounds) m x done s n alike few fits = elim (Bool-cases (n == 0)) [
  | inl e ↦
      let z : n ≡ 0 = ground arith in
      ((x, done, true), rw (e, range_clear_loop) refl, rw z (IsPrefix-empty m x s 0 alike))
  | inr e ↦
      let (lt, inside, pos, le) = part-fits x s n (ground arith) fits in
      let (r, got, all) =
        try_clear_n_lem (chunk_at x (s / 512)) (alike.chunks (s / 512)) (s % 512) (part s n)
          (omega arith) inside in
      clear_round rounds m x done s n alike e lt inside le
        (λ y near count.
          range_clear_loop_lem rounds m y (done + part s n) (s + part s n) (n - part s n) near
            (omega (arith, pos)) (omega (arith, count)))
        r got all
]

range_chunkmap_lem :
    (rounds : ℕ) (x : Bitmap) (c : ℕ)
    → IsBitmap x
    → (x' : Bitmap) × (range_chunkmap rounds x c ≡ some x') × IsBitmap x' × (x'.chunks ≡ x.chunks)
unfolding range_chunkmap
range_chunkmap_lem zero x c is = (x, refl, is, refl)
range_chunkmap_lem (suc rounds) x c is = elim (Bool-cases (ltb c (chunk_count x))) [
  | inr past ↦
      let (x', got, ok, same) = range_chunkmap_lem rounds x (c + 1) is in
      (x', rw (past, range_chunkmap) got, ok, same)
  | inl inside ↦
      let (y, done, near, keeps) = chunkmap_clear_if_empty_lem x c is (ground arith) in
      let (x', got, ok, same) = range_chunkmap_lem rounds y (c + 1) near in
      (x', rw (inside, range_chunkmap, done) got, ok, same ∙ keeps)
]

-- On a range inside the bitmap, across any number of chunks, `range_try_clear` does not fault and
-- keeps the invariant. It returns `true` exactly when the whole range is set, and then clears it
-- and nothing else; otherwise the rollback leaves every bit as it was.
pub range_try_clear_lem :
    (m : Bitmap) (idx n : ℕ)
    → IsBitmap m
    → idx + n ≤ chunk_count m * 512
    → (r : Bitmap × Bool) × (range_try_clear m idx n ≡ some r)
      × IsBitmap r.0
      × ClearsRange m idx n r
unfolding range_try_clear
range_try_clear_lem m idx n is fits =
    let (r, got, all) =
      range_clear_loop_lem (n + 1) m m 0 idx n (IsAlike-refl m is) (omega arith) fits in
    go r got all
  where
    go :
        (r : Bitmap × ℕ × Bool)
        → range_clear_loop (n + 1) m 0 idx n ≡ some r
        → Cleared m m 0 idx n r
        → (q : Bitmap × Bool) × (range_try_clear m idx n ≡ some q)
          × IsBitmap q.0
          × ClearsRange m idx n q
    go (x, done, true) got p =
        let ok = IsAlike-IsBitmap m x is p.alike (λ i set. ground (arith, p.cleared i)) in
        let (x', map, kept, same) = range_chunkmap_lem ((n + 511) / 512 + 1) x (idx / 512) ok in
        (
          (x', true),
          rw (got, range_try_clear, map) refl,
          kept,
          (
            p.was_set,
            λ i. ap (λ cs. bit_at (get_or cs (i / 512) Chunk.zeroed) (i % 512)) same ∙ p.cleared i,
          ),
        )
    go (x, done, false) got (j, eq, p, no_) =
        let (x', back, alike, over) =
          range_roll_back_lem (done + 1) m x idx done p.alike (omega arith)
            (omega (arith, p.part_of, p.alike.same_count)) in
        let e : done ≡ j = omega (arith, eq) in
        let same : (i : ℕ) → bit_of x' i ≡ bit_of m i = λ i.
          elim (Bool-cases (within idx (idx + j) i)) [
            | inl inside ↦ ground (arith, over i, p.was_set i (ground arith) (ground arith), e)
            | inr outside ↦ ground (arith, over i, p.cleared i, e)
          ] in
        (
          (x', false),
          rw (got, range_try_clear, back) refl,
          IsAlike-IsBitmap m x' is alike (λ i set. ground (arith, same i)),
          (no_, same),
        )
