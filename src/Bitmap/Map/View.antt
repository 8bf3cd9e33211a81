-- ===== src/Bitmap/Map/View.antt =====
-- src/bitmap.rs, a bitmap as a sequence of bits, its invariant, and the chunkmap.
use mimalloc_rs.Prelude.{
  ℕ, suc, zero, ◌/◌, ◌^◌, ◌%◌, ◌<◌, ◌≤◌, ◌≡◌, refl, sym, ◌∙◌, ap, inl, inr, Bool, true, false, ◌||◌,
  some, [], ◌∷◌, arith, ◌==◌, if◌then◌else◌, Bool-cases, get_or, set, get_elem?, length-set,
  get_or-set_self, get_or-set_ne, get_elem?-eq-get_or,
}
use mimalloc_rs.Word.{◌<<<◌}
use mimalloc_rs.Word.Bit.{bit, bit-zero}
use mimalloc_rs.Word.Masks.{bit-mask}
use mimalloc_rs.Bitmap.Field.{bf_set_mask, bf_try_clear_mask}
use mimalloc_rs.Bitmap.Field.Laws.{bf_set_mask_lem, bf_try_clear_mask_lem, Sets-lt, Clears-lt}
use mimalloc_rs.Bitmap.Chunk.{Chunk, zeroed, is_all_clear}
use mimalloc_rs.Bitmap.Chunk.View.{bit_at, IsChunk, field-some, bit_at-set, IsChunk-set}
use mimalloc_rs.Bitmap.Map.{
  Bitmap, chunk_count, put, chunkmap_set, chunkmap_clear, chunkmap_clear_if_empty,
}

-- Chunk `c` of a bitmap.
abbrev pub chunk_at : Bitmap → ℕ → Chunk
chunk_at m c = get_or m.chunks c zeroed

-- Bit `idx` of a bitmap.
abbrev pub bit_of : Bitmap → ℕ → Bool
bit_of m idx = bit_at (chunk_at m (idx / 512)) (idx % 512)

-- At most 512 chunks, of which every one that is not empty has its bit in the chunkmap.
pub record IsBitmap (m : Bitmap) : Type 0 where
  pub some_chunk : 1 ≤ chunk_count m
  pub few_chunks : chunk_count m ≤ 512
  pub map : IsChunk m.chunkmap
  pub chunks : (c : ℕ) → IsChunk (chunk_at m c)
  pub covered :
      (c b : ℕ) → c < chunk_count m → bit_at (chunk_at m c) b ≡ true → bit_at m.chunkmap c ≡ true

-- The invariant, except that the chunkmap need not know of chunk `x`.
pub record IsBitmapBut (x : ℕ) (m : Bitmap) : Type 0 where
  pub some_chunk : 1 ≤ chunk_count m
  pub few_chunks : chunk_count m ≤ 512
  pub map : IsChunk m.chunkmap
  pub chunks : (c : ℕ) → IsChunk (chunk_at m c)
  pub covered :
      (c b : ℕ)
      → c < chunk_count m
      → (c == x) ≡ false
      → bit_at (chunk_at m c) b ≡ true
      → bit_at m.chunkmap c ≡ true

pub chunk-some :
    (m : Bitmap) (c : ℕ) → c < chunk_count m → get_elem? m.chunks c ≡ some (chunk_at m c)
chunk-some m c h = get_elem?-eq-get_or m.chunks c zeroed h

pub chunk_at-put :
    (m : Bitmap) (c : ℕ) (d : Chunk) (e : ℕ)
    → c < chunk_count m
    → chunk_at (put m c d) e ≡ (if e == c then d else chunk_at m e)
chunk_at-put m c d e h = elim (Bool-cases (e == c)) [
  | inl same ↦
      let q : e ≡ c = ground arith in rw (q, get_or-set_self m.chunks c d zeroed h) (ground arith)
  | inr off ↦ rw (get_or-set_ne m.chunks c e d zeroed (λ q. ground arith), off)
]

pub put-IsBitmapBut :
    {m : Bitmap} {c : ℕ} (d : Chunk)
    → IsBitmap m
    → c < chunk_count m
    → IsChunk d
    → IsBitmapBut c (put m c d)
put-IsBitmapBut {m} {c} d is h chunk = record {
  some_chunk = omega (arith, length-set m.chunks c d, is.some_chunk);
  few_chunks = omega (arith, length-set m.chunks c d, is.few_chunks);
  map = is.map;
  chunks = λ e.
      rw (chunk_at-put m c d e h)
        (elim (Bool-cases (e == c)) [ inl same ↦ rw same chunk | inr off ↦ rw off (is.chunks e) ]);
  covered = λ e b lt off set.
      is.covered e b (omega (arith, length-set m.chunks c d))
        (ground (arith, ap (λ q. bit_at q b) (chunk_at-put m c d e h)));
}

pub bit-one : (b i : ℕ) → b < 64 → bit (1 <<< b) i ≡ (i == b)
bit-one b i h = bit-mask 1 b i ∙ ground arith

-- The chunk with bit `i` written through its field.
abbrev with_bit : Chunk → ℕ → ℕ → Chunk
with_bit c i w = set c (i / 64) w

set_bit :
    (c : Chunk) (is : IsChunk c) (i : ℕ)
    → i < 512
    → let u = bf_set_mask [] (get_or c (i / 64) 0) (1 <<< (i % 64)) in
      IsChunk (with_bit c i u.after)
      × ((e : ℕ) → bit_at (with_bit c i u.after) e ≡ (bit_at c e || e == i))
set_bit c is i h =
    let lt : i / 64 < 8 = omega arith in
    let u = bf_set_mask_lem [] (get_or c (i / 64) 0) (1 <<< (i % 64)) in
    (
      IsChunk-set c is (i / 64) _ lt (Sets-lt u tt (is.words (i / 64)) (omega arith)),
      λ e. rw (bit_at-set c is (i / 64) _ e lt) (elim (Bool-cases (e / 64 == i / 64)) [
        | inl at ↦
            let same : e / 64 ≡ i / 64 = ground arith in
            rw at (
              u.bits (e % 64)
              ∙ ground (
                arith,
                u.observed,
                ap (λ f. get_or c f 0) same,
                bit-one (i % 64) (e % 64) (omega arith),
              ))
        | inr off ↦ rw off (ground arith)
      ]),
    )

clear_bit :
    (c : Chunk) (is : IsChunk c) (i : ℕ)
    → i < 512
    → let u = bf_try_clear_mask [] (get_or c (i / 64) 0) (1 <<< (i % 64)) in
      IsChunk (with_bit c i u.after)
      × ((e : ℕ) → (e == i) ≡ false → bit_at (with_bit c i u.after) e ≡ bit_at c e)
clear_bit c is i h =
    let lt : i / 64 < 8 = omega arith in
    let mask_fits : 1 <<< (i % 64) < 2 ^ 64 = omega arith in
    let u =
      bf_try_clear_mask_lem [] (get_or c (i / 64) 0) (1 <<< (i % 64)) tt (is.words (i / 64))
        mask_fits in
    (
      IsChunk-set c is (i / 64) _ lt (Clears-lt u tt (is.words (i / 64))),
      λ e off. rw (bit_at-set c is (i / 64) _ e lt) (elim (Bool-cases (e / 64 == i / 64)) [
        | inr other ↦ rw other
        | inl at ↦
            let same : e / 64 ≡ i / 64 = ground arith in
            rw at
              (elim (Bool-cases
                (bf_try_clear_mask [] (get_or c (i / 64) 0) (1 <<< (i % 64))).result) [
                  | inl hit ↦
                      u.cleared hit (e % 64)
                      ∙ ground (
                        arith,
                        u.observed,
                        ap (λ f. get_or c f 0) same,
                        bit-one (i % 64) (e % 64) (omega arith),
                      )
                  | inr miss ↦
                      ap (λ w. bit w (e % 64)) (u.kept miss ∙ u.observed)
                      ∙ ap (λ f. bit (get_or c f 0) (e % 64)) (sym same)
                ])
      ]),
    )

-- Set the chunkmap bit of the chunk that it may not know of.
pub chunkmap_set_lem :
    (m : Bitmap) (c : ℕ)
    → IsBitmapBut c m
    → c < chunk_count m
    → (m' : Bitmap) × (chunkmap_set m c ≡ some m') × IsBitmap m' × (m'.chunks ≡ m.chunks)
unfolding chunkmap_set
chunkmap_set_lem m c is h =
    let lt : c < 512 = omega (arith, is.few_chunks) in
    let (ok, bits) = set_bit m.chunkmap is.map c lt in
    (
      _,
      rw (field-some m.chunkmap is.map (c / 64) (omega arith), chunkmap_set),
      record {
        some_chunk = is.some_chunk;
        few_chunks = is.few_chunks;
        map = ok;
        chunks = is.chunks;
        covered = λ e b below set. bits e ∙ ground (arith, is.covered e b below);
      },
      refl,
    )

all_clear-bit : (c : Chunk) → is_all_clear c ≡ true → (i : ℕ) → bit_at c i ≡ false
all_clear-bit c h i = go c h (i / 64)
  where
    go : (c : Chunk) → is_all_clear c ≡ true → (f : ℕ) → bit (get_or c f 0) (i % 64) ≡ false
    go [] h f = bit-zero (i % 64)
    go (w ∷ c) h zero =
        let e : w ≡ 0 = unfold is_all_clear in ground arith in rw e (bit-zero (i % 64))
    go (w ∷ c) h (suc f) = go c (unfold is_all_clear in ground arith) f

-- Drop the chunkmap bit of an empty chunk: no chunk changes, and the invariant stays.
pub chunkmap_clear_if_empty_lem :
    (m : Bitmap) (c : ℕ)
    → IsBitmap m
    → c < chunk_count m
    → (m' : Bitmap) × (chunkmap_clear_if_empty m c ≡ some m') × IsBitmap m' × (m'.chunks ≡ m.chunks)
unfolding chunkmap_clear_if_empty chunkmap_clear
chunkmap_clear_if_empty_lem m c is h = elim (Bool-cases (is_all_clear (chunk_at m c))) [
  | inr e ↦ (m, rw (chunk-some m c h, chunkmap_clear_if_empty, e), is, refl)
  | inl e ↦
      let lt : c < 512 = omega (arith, is.few_chunks) in
      let (ok, bits) = clear_bit m.chunkmap is.map c lt in
      (
        _,
        rw
            (
              chunk-some m c h,
              chunkmap_clear_if_empty,
              e,
              field-some m.chunkmap is.map (c / 64) (omega arith),
              chunkmap_clear,
            )
            (ground arith),
        record {
          some_chunk = is.some_chunk;
          few_chunks = is.few_chunks;
          map = ok;
          chunks = is.chunks;
          covered = λ e' b below set. elim (Bool-cases (e' == c)) [
            | inr off ↦ bits e' off ∙ is.covered e' b below set
            | inl at ↦
                let same : e' ≡ c = ground arith in
                absurd (
                  ground (
                    arith,
                    ap (λ q. bit_at (chunk_at m q) b) same,
                    all_clear-bit (chunk_at m c) e b,
                  ))
          ];
        },
        refl,
      )
]

-- A chunk with fewer bits in place of another.
pub put-IsBitmap :
    {m : Bitmap} {c : ℕ} (d : Chunk)
    → IsBitmap m
    → c < chunk_count m
    → IsChunk d
    → ((b : ℕ) → bit_at d b ≡ true → bit_at (chunk_at m c) b ≡ true)
    → IsBitmap (put m c d)
put-IsBitmap {m} {c} d is h chunk fewer =
    let but = put-IsBitmapBut d is h chunk in
    record {
      some_chunk = but.some_chunk;
      few_chunks = but.few_chunks;
      map = is.map;
      chunks = but.chunks;
      covered = λ e b lt set. elim (Bool-cases (e == c)) [
        | inr off ↦ but.covered e b lt off set
        | inl at ↦
            let same : e ≡ c = ground arith in
            rw same (
              is.covered c b h
                (fewer b (ground (arith, ap (λ q. bit_at q b) (chunk_at-put m c d e h)))))
      ];
    }
