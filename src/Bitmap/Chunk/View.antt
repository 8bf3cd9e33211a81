-- ===== src/Bitmap/Chunk/View.antt =====
-- src/bitmap.rs, a chunk as a sequence of bits, and what a write of one field does to it.
use mimalloc_rs.Prelude.{
  ℕ, ◌+◌, ◌*◌, ◌/◌, ◌^◌, ◌%◌, ◌<◌, ◌≤◌, ◌≡◌, sym, ◌∙◌, inl, inr, Bool, true, false, some, arith,
  ◌==◌, ltb, within, if◌then◌else◌, Bool-cases, length, get_or, set, length-set, get_or-set_self,
  get_or-set_ne, get_elem?-eq-get_or, get_or_ext,
}
use mimalloc_rs.Word.Bit.{bit, bit_ext, bit_high}
use mimalloc_rs.Bitmap.Field.Runs.{bit-mask_n}
use mimalloc_rs.Bitmap.Chunk.{Chunk, field, here, mask_here}

-- Bit `i` of a chunk.
abbrev pub bit_at : Chunk → ℕ → Bool
bit_at c i = bit (get_or c (i / 64) 0) (i % 64)

-- Eight fields, each of them a word.
pub record IsChunk (c : Chunk) : Type 0 where
  pub fields : length c ≡ 8
  pub words : (f : ℕ) → get_or c f 0 < 2 ^ 64

-- The bits from `s` on, `n` of them, all are `v`.
abbrev pub AllAre : Bool → Chunk → ℕ → ℕ → Type 0
AllAre v c s n = (i : ℕ) → s ≤ i → i < s + n → bit_at c i ≡ v

abbrev pub AllSet : Chunk → ℕ → ℕ → Type 0
AllSet c s n = AllAre true c s n

module _ (c : Chunk) (is : IsChunk c) where
  pub field-some : (f : ℕ) → f < 8 → field c f ≡ some (get_or c f 0)
  field-some f h = get_elem?-eq-get_or c f 0 (omega (arith, is.fields))

  pub bit_at-set :
      (f w i : ℕ)
      → f < 8
      → bit_at (set c f w) i ≡ (if i / 64 == f then bit w (i % 64) else bit_at c i)
  bit_at-set f w i h = elim (Bool-cases (i / 64 == f)) [
    | inl e ↦
        let d : i / 64 ≡ f = ground arith in
        rw (d, get_or-set_self c f w 0 (omega (arith, is.fields))) (ground arith)
    | inr e ↦ rw (get_or-set_ne c f (i / 64) w 0 (λ d. ground arith), e)
  ]

  pub IsChunk-set : (f w : ℕ) → f < 8 → w < 2 ^ 64 → IsChunk (set c f w)
  IsChunk-set f w hf hw = record {
    fields = length-set c f w ∙ is.fields;
    words = λ g. elim (Bool-cases (f == g)) [
      | inl e ↦
          let d : f ≡ g = ground arith in
          rw (← d, get_or-set_self c f w 0 (omega (arith, is.fields))) hw
      | inr e ↦ rw (get_or-set_ne c f g w 0 (λ d. ground arith)) (is.words g)
    ];
  }

-- Chunks with the same bits are equal.
pub chunk_ext : (c d : Chunk) → IsChunk c → IsChunk d → ((i : ℕ) → bit_at c i ≡ bit_at d i) → c ≡ d
chunk_ext c d hc hd same = get_or_ext 0 c d (hc.fields ∙ sym hd.fields) λ f. bit_ext _ _ λ j.
    elim (Bool-cases (ltb j 64)) [
      | inl e ↦
          let q : (f * 64 + j) / 64 ≡ f = ground arith in
          let r : (f * 64 + j) % 64 ≡ j = ground arith in
          let h = same (f * 64 + j) in rw (q, r) at h
      | inr e ↦
          bit_high 64 _ j (hc.words f) (ground arith)
          ∙ sym (bit_high 64 _ j (hd.words f) (ground arith))
    ]

-- The part of a range that lies in one field, seen from the chunk and from the field.
pub mask_here-bit :
    (s n i : ℕ) → (i / 64 ≡ s / 64) → bit (mask_here s n) (i % 64) ≡ within s (s + here s n) i
mask_here-bit s n i same = ground (arith, bit-mask_n (here s n) (s % 64) (i % 64) (omega arith))

pub here-outside : (s n i : ℕ) → (i / 64 == s / 64) ≡ false → within s (s + here s n) i ≡ false
here-outside s n i ne = ground arith
