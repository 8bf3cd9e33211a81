-- ===== src/Bitmap/Map/Update.antt =====
-- src/bitmap.rs, `set_n` and `clear_n` of a bitmap.
use mimalloc_rs.Prelude.{
  ℕ, ◌+◌, ◌*◌, ◌/◌, ◌%◌, ◌<◌, ◌≤◌, ◌≡◌, refl, sym, ◌∙◌, ap, ◌↔◌, inl, inr, Bool, true, false, ◌&&◌,
  ◌||◌, not, some, arith, ◌==◌, within, if◌then◌else◌, Bool-cases, get_or, length-set,
}
use mimalloc_rs.Bitmap.Chunk
use mimalloc_rs.Bitmap.Chunk.{Chunk}
use mimalloc_rs.Bitmap.Chunk.View.{bit_at, AllAre}
use mimalloc_rs.Bitmap.Chunk.Loops.{is_clear_n_lem, set_n_lem}
use mimalloc_rs.Bitmap.Chunk.RollBack.{IsClearedOn, AllOrNothing}
use mimalloc_rs.Bitmap.Chunk.Clear.{try_clear_n_lem}
use mimalloc_rs.Bitmap.Map.{Bitmap, chunk_count, put, set_n, clear_n}
use mimalloc_rs.Bitmap.Map.View.{
  chunk_at, bit_of, IsBitmap, chunk-some, chunk_at-put, put-IsBitmapBut, put-IsBitmap,
  chunkmap_set_lem, chunkmap_clear_if_empty_lem,
}

-- The bits of a range, `n` of them from `idx` on, all are `v`.
abbrev pub RangeIs : Bool → Bitmap → ℕ → ℕ → Type 0
RangeIs v m idx n = (i : ℕ) → idx ≤ i → i < idx + n → bit_of m i ≡ v

-- `m'` is `m` with the bits of the range set, or cleared.
abbrev pub SetOn : Bitmap → ℕ → ℕ → Bitmap → Type 0
SetOn m idx n m' = (i : ℕ) → bit_of m' i ≡ (bit_of m i || within idx (idx + n) i)

abbrev pub ClearedOn : Bitmap → ℕ → ℕ → Bitmap → Type 0
ClearedOn m idx n m' = (i : ℕ) → bit_of m' i ≡ (bit_of m i && not (within idx (idx + n) i))

-- A range inside one chunk, seen from the chunk and from the bitmap.
pub RangeIs-iff :
    (v : Bool) (m : Bitmap) (idx n : ℕ)
    → idx % 512 + n ≤ 512
    → AllAre v (chunk_at m (idx / 512)) (idx % 512) n ↔ RangeIs v m idx n
RangeIs-iff v m idx n fits = (
  λ a i le to.
      let same : i / 512 ≡ idx / 512 = omega arith in
      rw same (a (i % 512) (omega arith) (omega arith)),
  λ a j le to.
      let i = idx / 512 * 512 + j in
      let q : (idx / 512 * 512 + j) / 512 ≡ idx / 512 = omega arith in
      let r : (idx / 512 * 512 + j) % 512 ≡ j = omega arith in
      let at = a (idx / 512 * 512 + j) (omega arith) (omega arith) in rw (q, r) at at,
)

-- What a bitmap becomes when one chunk is replaced: bit by bit.
pub bit_of-put :
    (m m' : Bitmap) (c : ℕ) (d : Chunk) (i : ℕ)
    → c < chunk_count m
    → m'.chunks ≡ (put m c d).chunks
    → bit_of m' i ≡ (if i / 512 == c then bit_at d (i % 512) else bit_of m i)
bit_of-put m m' c d i h e =
    ap (λ cs. bit_at (get_or cs (i / 512) Chunk.zeroed) (i % 512)) e
    ∙ ap (λ q. bit_at q (i % 512)) (chunk_at-put m c d (i / 512) h)
    ∙ ground arith

-- On a range inside one chunk of a bitmap that satisfies the invariant, `set_n` does not fault and
-- keeps the invariant. It sets every bit of the range, changes no other bit, and answers whether
-- the whole range was clear.
pub bitmap_set_n_lem :
    (m : Bitmap) (idx n : ℕ)
    → IsBitmap m
    → idx / 512 < chunk_count m
    → idx % 512 + n ≤ 512
    → (m' : Bitmap) × (r : Bool) × (set_n m idx n ≡ some (m', r))
      × IsBitmap m'
      × SetOn m idx n m'
      × ((r ≡ true) ↔ RangeIs false m idx n)
unfolding set_n
bitmap_set_n_lem m idx n is h fits =
    let c = idx / 512 in
    let chunk = is.chunks c in
    let (r, clear, iff) = is_clear_n_lem (chunk_at m c) chunk (idx % 512) n fits in
    let (d, got, now) = set_n_lem (chunk_at m c) chunk (idx % 512) n fits in
    let (m', done, ok, same) =
      chunkmap_set_lem (put m c d) c (put-IsBitmapBut d is h now.chunk)
        (omega (arith, length-set m.chunks c d)) in
    (
      m',
      r,
      rw (chunk-some m c h, set_n, clear, got, done),
      ok,
      λ i. bit_of-put m m' c d i h same ∙ elim (Bool-cases (i / 512 == c)) [
        | inl at ↦
            let eq : i / 512 ≡ c = ground arith in
            rw at (ground (arith, now.bits (i % 512), ap (λ q. bit_at (chunk_at m q) (i % 512)) eq))
        | inr off ↦ rw off (ground arith)
      ],
      (
        λ e. (RangeIs-iff false m idx n fits).0 (iff.0 e),
        λ a. iff.1 ((RangeIs-iff false m idx n fits).1 a),
      ),
    )

-- Clearing a range of one chunk in the bitmap, as the chunk records it.
pub bit_of-cleared :
    (m m' : Bitmap) (idx n : ℕ) (d : Chunk)
    → idx / 512 < chunk_count m
    → idx % 512 + n ≤ 512
    → IsClearedOn (chunk_at m (idx / 512)) (idx % 512) n d
    → m'.chunks ≡ (put m (idx / 512) d).chunks
    → ClearedOn m idx n m'
bit_of-cleared m m' idx n d h fits now same i =
    bit_of-put m m' (idx / 512) d i h same ∙ elim (Bool-cases (i / 512 == idx / 512)) [
      | inl at ↦
          let eq : i / 512 ≡ idx / 512 = ground arith in
          rw at (ground (arith, now.bits (i % 512), ap (λ q. bit_at (chunk_at m q) (i % 512)) eq))
      | inr off ↦ rw off (ground arith)
    ]

-- What clearing a range of a bitmap promises: all of it, or nothing.
abbrev pub ClearsRange : Bitmap → ℕ → ℕ → Bitmap × Bool → Type 0
ClearsRange m idx n (m', true) = RangeIs true m idx n × ClearedOn m idx n m'
ClearsRange m idx n (m', false) = (¬ RangeIs true m idx n) × ((i : ℕ) → bit_of m' i ≡ bit_of m i)

-- On a range inside one chunk of a bitmap that satisfies the invariant, `clear_n` does not fault
-- and keeps the invariant. It returns `true` exactly when the whole range is set, and then clears
-- it and nothing else; otherwise no bit changes.
pub bitmap_clear_n_lem :
    (m : Bitmap) (idx n : ℕ)
    → IsBitmap m
    → idx / 512 < chunk_count m
    → idx % 512 + n ≤ 512
    → (r : Bitmap × Bool) × (clear_n m idx n ≡ some r) × IsBitmap r.0 × ClearsRange m idx n r
unfolding clear_n
bitmap_clear_n_lem m idx n is h fits =
    let (r, got, done) =
      try_clear_n_lem (chunk_at m c) (is.chunks c) (idx % 512) n (omega arith) fits in
    go r got done
  where
    c : ℕ
    c = idx / 512

    go :
        (r : Chunk × Bool)
        → Chunk.try_clear_n (chunk_at m c) (idx % 512) n ≡ some r
        → AllOrNothing (chunk_at m c) (idx % 512) n r
        → (q : Bitmap × Bool) × (clear_n m idx n ≡ some q) × IsBitmap q.0 × ClearsRange m idx n q
    go (d, false) got (no_run, same) = (
      (put m c d, false),
      rw (chunk-some m c h, clear_n, got),
      put-IsBitmap d is h (rw same (is.chunks c))
          (λ b set. ground (arith, ap (λ q. bit_at q b) same)),
      (
        λ a. no_run ((RangeIs-iff true m idx n fits).1 a),
        λ i. bit_of-put m (put m c d) c d i h refl ∙ elim (Bool-cases (i / 512 == c)) [
          | inl at ↦
              let eq : i / 512 ≡ c = ground arith in
              rw at (
                ap (λ q. bit_at q (i % 512)) same
                ∙ ap (λ q. bit_at (chunk_at m q) (i % 512)) (sym eq))
          | inr off ↦ rw off (ground arith)
        ],
      ),
    )
    go (d, true) got (run, now) =
        let kept = put-IsBitmap d is h now.chunk (λ b set. ground (arith, now.bits b)) in
        let (m', done, ok, same) =
          chunkmap_clear_if_empty_lem (put m c d) c kept (omega (arith, length-set m.chunks c d)) in
        (
          (m', true),
          rw (chunk-some m c h, clear_n, got, done),
          ok,
          ((RangeIs-iff true m idx n fits).0 run, bit_of-cleared m m' idx n d h fits now same),
        )
