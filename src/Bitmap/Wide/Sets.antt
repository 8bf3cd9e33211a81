-- ===== src/Bitmap/Wide/Sets.antt =====
-- src/bitmap.rs, setting ranges that may cross chunks, and the fault of `set_n` on such a range.
use mimalloc_rs.Prelude.{
  ℕ, zero, suc, ◌+◌, ◌-◌, ◌*◌, ◌/◌, ◌%◌, ◌<◌, ◌≤◌, ◌≡◌, refl, ◌∙◌, ap, inl, inr, false, some, none,
  [], arith, ◌==◌, Bool-cases, Option-cases, get_elem?, get_elem?-inside, length, length-set,
}
use mimalloc_rs.Bitmap.Field.{bf_set_mask}
use mimalloc_rs.Bitmap.Chunk
use mimalloc_rs.Bitmap.Chunk.{Chunk, field, here, mask_here, set_loop}
use mimalloc_rs.Bitmap.Chunk.View.{bit_at}
use mimalloc_rs.Bitmap.Chunk.Loops.{set_n_lem, IsSetOn}
use mimalloc_rs.Bitmap.Map.{Bitmap, chunk_count, put, set_n}
use mimalloc_rs.Bitmap.Map.View.{chunk_at, IsBitmap, chunk-some, put-IsBitmapBut, chunkmap_set_lem}
use mimalloc_rs.Bitmap.Map.Update.{SetOn, bit_of-put}
use mimalloc_rs.Bitmap.Wide.{part, unsafe_set_loop, unsafe_set_n, range_roll_back}
use mimalloc_rs.Bitmap.Wide.Ranges.{IsAlike, IsAlike-put, part-fits}

-- Setting a range of one chunk in the bitmap, as the chunk records it.
pub bit_of-set :
    (m m' : Bitmap) (idx n : ℕ) (d : Chunk)
    → idx / 512 < chunk_count m
    → idx % 512 + n ≤ 512
    → IsSetOn (chunk_at m (idx / 512)) (idx % 512) n d
    → m'.chunks ≡ (put m (idx / 512) d).chunks
    → SetOn m idx n m'
bit_of-set m m' idx n d h fits now same i =
    bit_of-put m m' (idx / 512) d i h same ∙ elim (Bool-cases (i / 512 == idx / 512)) [
      | inl at ↦
          let eq : i / 512 ≡ idx / 512 = ground arith in
          rw at (ground (arith, now.bits (i % 512), ap (λ q. bit_at (chunk_at m q) (i % 512)) eq))
      | inr off ↦ rw off (ground arith)
    ]

SetOn-append :
    (m x r : Bitmap) (s k n : ℕ) → k ≤ n → SetOn m s k x → SetOn x (s + k) (n - k) r → SetOn m s n r
SetOn-append m x r s k n le one two i = ground (arith, one i, two i)

unsafe_set_loop_lem :
    (rounds : ℕ) (m : Bitmap) (bit n : ℕ)
    → IsBitmap m
    → n < rounds
    → bit + n ≤ chunk_count m * 512
    → (m' : Bitmap) × (unsafe_set_loop rounds m bit n ≡ some m')
      × IsBitmap m'
      × SetOn m bit n m'
      × (chunk_count m' ≡ chunk_count m)
unfolding unsafe_set_loop
unsafe_set_loop_lem zero m bit n is few fits = absurd (omega arith)
unsafe_set_loop_lem (suc rounds) m bit n is few fits = elim (Bool-cases (n == 0)) [
  | inl e ↦ (m, rw (e, unsafe_set_loop) refl, is, (λ i. ground arith), refl)
  | inr e ↦
      let k = part bit n in
      let c = bit / 512 in
      let (lt, inside, pos, le) = part-fits m bit n (ground arith) fits in
      let (d, got, now) = set_n_lem (chunk_at m c) (is.chunks c) (bit % 512) k inside in
      let (x, done, ok, same) =
        chunkmap_set_lem (put m c d) c (put-IsBitmapBut d is lt now.chunk)
          (omega (arith, length-set m.chunks c d)) in
      let count : chunk_count x ≡ chunk_count m = ap length same ∙ length-set m.chunks c d in
      let (m', rest, kept, over, last) =
        unsafe_set_loop_lem rounds x (bit + k) (n - k) ok (omega (arith, pos))
          (omega (arith, count)) in
      (
        m',
        rw (e, chunk-some m c lt, unsafe_set_loop, got, done) rest,
        kept,
        SetOn-append m x m' bit k n le (bit_of-set m x bit k d lt inside now same) over,
        last ∙ count,
      )
]

-- On a range inside the bitmap, across any number of chunks, `unsafe_set_n` does not fault, keeps
-- the invariant, sets every bit of the range and changes no other bit.
pub unsafe_set_n_lem :
    (m : Bitmap) (idx n : ℕ)
    → IsBitmap m
    → idx + n ≤ chunk_count m * 512
    → (m' : Bitmap) × (unsafe_set_n m idx n ≡ some m')
      × IsBitmap m'
      × SetOn m idx n m'
      × (chunk_count m' ≡ chunk_count m)
unfolding unsafe_set_n
unsafe_set_n_lem m idx n is fits =
    let (m', got, ok, over, count) = unsafe_set_loop_lem (n + 1) m idx n is (omega arith) fits in
    (m', got, ok, over, count)

-- The rollback sets its range again and leaves the chunkmap.
pub range_roll_back_lem :
    (rounds : ℕ) (m x : Bitmap) (bit n : ℕ)
    → IsAlike m x
    → n < rounds
    → bit + n ≤ chunk_count x * 512
    → (x' : Bitmap) × (range_roll_back rounds x bit n ≡ some x') × IsAlike m x' × SetOn x bit n x'
unfolding range_roll_back
range_roll_back_lem zero m x bit n alike few fits = absurd (omega arith)
range_roll_back_lem (suc rounds) m x bit n alike few fits = elim (Bool-cases (n == 0)) [
  | inl e ↦ (x, rw (e, range_roll_back) refl, alike, (λ i. ground arith))
  | inr e ↦
      let k = part bit n in
      let c = bit / 512 in
      let (lt, inside, pos, le) = part-fits x bit n (ground arith) fits in
      let (d, got, now) = set_n_lem (chunk_at x c) (alike.chunks c) (bit % 512) k inside in
      let (x', rest, kept, over) =
        range_roll_back_lem rounds m (put x c d) (bit + k) (n - k)
          (IsAlike-put m x c d alike lt now.chunk) (omega (arith, pos))
          (omega (arith, length-set x.chunks c d)) in
      (
        x',
        rw (e, chunk-some x c lt, range_roll_back, got) rest,
        kept,
        SetOn-append x (put x c d) x' bit k n le
            (bit_of-set x (put x c d) bit k d lt inside now refl) over,
      )
]

-- The loop of a chunk runs into the field after the last one.
set_loop_faults :
    (rounds : ℕ) (c : Chunk) (s n : ℕ)
    → length c ≡ 8
    → s ≤ 512
    → 512 < s + n
    → set_loop rounds c s n ≡ none
unfolding set_loop
set_loop_faults zero c s n fields lo hi = refl
set_loop_faults (suc rounds) c s n fields lo hi =
    let e : (n == 0) ≡ false = ground arith in
    elim (Option-cases (field c (s / 64))) [
      | inl none_ ↦ rw (e, none_, set_loop) refl
      | inr (w, some_) ↦
          let u = (bf_set_mask [] w (mask_here s n)).after in
          let inside : s / 64 < 8 = omega (arith, fields, get_elem?-inside c (s / 64) w some_) in
          rw (e, some_, set_loop)
            (set_loop_faults rounds _ (s + here s n) (n - here s n)
              (length-set c (s / 64) u ∙ fields) (omega arith) (omega arith))
    ]

-- `set_n` on a range that leaves its chunk faults, in a build without debug assertions.
pub set_n_faults :
    (m : Bitmap) (idx n : ℕ) → IsBitmap m → 512 < idx % 512 + n → set_n m idx n ≡ none
unfolding set_n Chunk.set_n
set_n_faults m idx n is out = elim (Option-cases (get_elem? m.chunks (idx / 512))) [
  | inl none_ ↦ rw (none_, set_n) refl
  | inr (c, some_) ↦
      let lt : idx / 512 < chunk_count m = get_elem?-inside m.chunks (idx / 512) c some_ in
      let fault =
        set_loop_faults (n + 1) (chunk_at m (idx / 512)) (idx % 512) n
          ((is.chunks (idx / 512)).fields) (omega arith) out in
      elim (Option-cases (Chunk.is_clear_n (chunk_at m (idx / 512)) (idx % 512) n)) [
        | inl none_ ↦ rw (chunk-some m (idx / 512) lt, set_n, none_) refl
        | inr (b, clear) ↦ rw (chunk-some m (idx / 512) lt, set_n, clear, Chunk.set_n, fault) refl
      ]
]
