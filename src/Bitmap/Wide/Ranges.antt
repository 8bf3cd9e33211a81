-- ===== src/Bitmap/Wide/Ranges.antt =====
-- src/bitmap.rs, bitmaps that agree on all but their bits, and ranges in two parts.
use mimalloc_rs.Prelude.{
  ℕ, zero, suc, ◌+◌, ◌-◌, ◌*◌, ◌/◌, ◌%◌, ◌<◌, ◌≤◌, ◌≡◌, refl, sym, ◌∙◌, ap, ◌↔◌, inl, inr, Bool,
  true, false, some, List, [], ◌∷◌, arith, ◌==◌, within, Bool-cases, get_or, length, length-set,
  subst,
}
use mimalloc_rs.Word.Bit.{bit, bit-zero}
use mimalloc_rs.Bitmap.Chunk.{Chunk}
use mimalloc_rs.Bitmap.Chunk.View.{bit_at, IsChunk}
use mimalloc_rs.Bitmap.Chunk.Loops.{is_set_n_lem}
use mimalloc_rs.Bitmap.Map.{Bitmap, chunk_count, put}
use mimalloc_rs.Bitmap.Map.View.{chunk_at, bit_of, IsBitmap, chunk-some, chunk_at-put}
use mimalloc_rs.Bitmap.Map.Update.{RangeIs, RangeIs-iff}
use mimalloc_rs.Bitmap.Wide.{part, range_set_loop, range_is_set}

-- `x` is `m`, except for the bits of its chunks.
pub record IsAlike (m x : Bitmap) : Type 0 where
  pub same_count : chunk_count x ≡ chunk_count m
  pub same_map : x.chunkmap ≡ m.chunkmap
  pub chunks : (c : ℕ) → IsChunk (chunk_at x c)

get_or_past : (c : List ℕ) (i : ℕ) → length c ≤ i → get_or c i 0 ≡ 0
get_or_past [] i h = refl
get_or_past (w ∷ c) zero h = absurd (omega arith)
get_or_past (w ∷ c) (suc i) h = get_or_past c i (omega arith)

-- A chunk has no set bits beyond its 512.
pub bit_at-inside : (c : Chunk) → IsChunk c → (b : ℕ) → bit_at c b ≡ true → b < 512
bit_at-inside c is b set = elim (Bool-cases (within 0 512 b)) [
  | inl e ↦ ground arith
  | inr e ↦
      let past : get_or c (b / 64) 0 ≡ 0 = get_or_past c (b / 64) (ground (arith, is.fields)) in
      ground (arith, ap (λ (w : ℕ). bit w (b % 64)) past, bit-zero (b % 64))
]

-- Such a bitmap with no more set bits than `m` satisfies the invariant as `m` does.
pub IsAlike-IsBitmap :
    (m x : Bitmap)
    → IsBitmap m
    → IsAlike m x
    → ((i : ℕ) → bit_of x i ≡ true → bit_of m i ≡ true)
    → IsBitmap x
IsAlike-IsBitmap m x is alike fewer = record {
  some_chunk = omega (arith, is.some_chunk, alike.same_count);
  few_chunks = omega (arith, is.few_chunks, alike.same_count);
  map = subst IsChunk (sym alike.same_map) is.map;
  chunks = alike.chunks;
  covered = λ c b lt set.
      let small : b < 512 = bit_at-inside (chunk_at x c) (alike.chunks c) b set in
      let q : (c * 512 + b) / 512 ≡ c = omega arith in
      let r : (c * 512 + b) % 512 ≡ b = omega arith in
      let at : bit_of x (c * 512 + b) ≡ true = rw (q, r) set in
      let was = fewer (c * 512 + b) at in
      let here : bit_at (chunk_at m c) b ≡ true = rw (q, r) at was in
      ap (λ z. bit_at z c) alike.same_map
      ∙ is.covered c b (omega (arith, lt, alike.same_count)) here;
}

pub IsAlike-refl : (m : Bitmap) → IsBitmap m → IsAlike m m
IsAlike-refl m is = record { same_count = refl; same_map = refl; chunks = is.chunks }

pub IsAlike-put :
    (m x : Bitmap) (c : ℕ) (d : Chunk)
    → IsAlike m x
    → c < chunk_count x
    → IsChunk d
    → IsAlike m (put x c d)
IsAlike-put m x c d alike lt is = record {
  same_count = length-set x.chunks c d ∙ alike.same_count;
  same_map = alike.same_map;
  chunks = λ e. elim (Bool-cases (e == c)) [
    | inl at ↦ rw (chunk_at-put x c d e lt, at) is
    | inr off ↦ rw (chunk_at-put x c d e lt, off) (alike.chunks e)
  ];
}

-- A range is as a whole what its two parts are.
pub RangeIs-split :
    (v : Bool) (m : Bitmap) (s k n : ℕ)
    → k ≤ n
    → (RangeIs v m s k × RangeIs v m (s + k) (n - k)) ↔ RangeIs v m s n
RangeIs-split v m s k n le = (
  λ (a, b) i lo hi. elim (Bool-cases (within s (s + k) i)) [
    | inl e ↦ a i lo (ground arith)
    | inr e ↦ b i (ground arith) (omega arith)
  ],
  λ a. ((λ i lo hi. a i lo (omega arith)), λ i lo hi. a i (omega arith) (omega arith)),
)

-- A part of a range in one chunk lies in the bitmap if the range does.
pub part-fits :
    (m : Bitmap) (bit n : ℕ)
    → 1 ≤ n
    → bit + n ≤ chunk_count m * 512
    → (bit / 512 < chunk_count m)
      × (bit % 512 + part bit n ≤ 512)
      × (1 ≤ part bit n)
      × (part bit n ≤ n)
part-fits m bit n pos fits = (omega arith, omega arith, omega arith, omega arith)

range_set_loop_lem :
    (rounds : ℕ) (m : Bitmap) (bit n : ℕ)
    → IsBitmap m
    → n < rounds
    → bit + n ≤ chunk_count m * 512
    → (r : Bool) × (range_set_loop rounds m bit n ≡ some r) × ((r ≡ true) ↔ RangeIs true m bit n)
unfolding range_set_loop
range_set_loop_lem zero m bit n is few fits = absurd (omega arith)
range_set_loop_lem (suc rounds) m bit n is few fits = elim (Bool-cases (n == 0)) [
  | inl e ↦ (true, rw (e, range_set_loop) refl, ((λ t i lo hi. absurd (ground arith)), λ t. refl))
  | inr e ↦
      let k = part bit n in
      let (lt, inside, pos, le) = part-fits m bit n (ground arith) fits in
      let (r, got, iff) =
        is_set_n_lem (chunk_at m (bit / 512)) (is.chunks (bit / 512)) (bit % 512) k inside in
      let view = RangeIs-iff true m bit k inside in
      let whole = RangeIs-split true m bit k n le in
      elim (Bool-cases r) [
        | inr no_ ↦ (
          false,
          rw (e, chunk-some m (bit / 512) lt, range_set_loop, got, no_) refl,
          ((λ t. ground arith), λ a. ground (arith, iff.1 (view.1 ((whole.1 a).0)), no_)),
        )
        | inl yes_ ↦
            let (q, rest, more) =
              range_set_loop_lem rounds m (bit + k) (n - k) is (omega (arith, pos)) (omega arith) in
            (
              q,
              rw (e, chunk-some m (bit / 512) lt, range_set_loop, got, yes_) rest,
              ((λ t. whole.0 (view.0 (iff.0 yes_), more.0 t)), λ a. more.1 ((whole.1 a).1)),
            )
      ]
]

-- On a range inside the bitmap `range_is_set` does not fault, and answers whether every bit is set.
pub range_is_set_lem :
    (m : Bitmap) (idx n : ℕ)
    → IsBitmap m
    → idx + n ≤ chunk_count m * 512
    → (r : Bool) × (range_is_set m idx n ≡ some r) × ((r ≡ true) ↔ RangeIs true m idx n)
unfolding range_is_set
range_is_set_lem m idx n is fits = range_set_loop_lem (n + 1) m idx n is (omega arith) fits
