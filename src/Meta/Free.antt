-- ===== src/Meta/Free.antt =====
-- src/arena_meta.rs, allocating metadata and giving it back.
use mimalloc_rs.Prelude.{
  ℕ, ◌+◌, ◌-◌, ◌*◌, ◌/◌, ◌≤◌, ◌≡◌, refl, sym, ◌∙◌, inl, inr, true, false, ◌||◌, arith, Bool-cases,
  within, Option, some, none, List, [], ◌∷◌, subst,
}
use mimalloc_rs.Bitmap.Map.{Bitmap}
use mimalloc_rs.Bitmap.Map.View.{IsBitmap, bit_of}
use mimalloc_rs.Bitmap.Map.Update.{SetOn, bitmap_set_n_lem}
use mimalloc_rs.Meta.{MetaChunk, Meta, block_size, owns, div_ceil, free_in, meta_free}
use mimalloc_rs.Meta.Regions.{in_region, owned_at, free_at, AreRegions, IsRun}

-- What `free_in` leaves: exactly the blocks of the run have become free.
abbrev pub Frees : List MetaChunk → ℕ → ℕ → Option (List MetaChunk) → Type 0
Frees cs p n none = ⊥
Frees cs p n (some cs') =
    AreRegions cs'
    × ((a : ℕ) → owned_at cs' a ≡ owned_at cs a)
    × ((a : ℕ) → free_at cs' a ≡ (free_at cs a || within p (p + n * 64) a))

-- The first region gets a run back.
given :
    (c : MetaChunk) (cs : List MetaChunk) (n idx : ℕ) (m : Bitmap)
    → AreRegions (c ∷ cs)
    → c.first_data_block ≤ idx
    → idx + n ≤ 512
    → IsBitmap m
    → SetOn c.bitmap idx n m
    → Frees (c ∷ cs) (c.base + idx * 64) n (some (record c { bitmap = m } ∷ cs))
given c cs n idx m (is, apart, rest) low fits ok over = (
  (
    record {
      bitmap = ok;
      inside = λ i e. elim (Bool-cases (bit_of c.bitmap i)) [
        | inl before ↦ is.inside i before
        | inr new ↦ let o = over i in (ground arith, ground arith)
      ];
    },
    apart,
    rest,
  ),
  λ a. refl,
  λ a. elim (Bool-cases (in_region c a)) [
    | inl here ↦
        let same : within (c.base + idx * 64) (c.base + idx * 64 + n * 64) a
            ≡ within idx (idx + n) ((a - c.base) / 64) =
          ground arith in
        rw (here, same) (over ((a - c.base) / 64))
    | inr off ↦
        let out : within (c.base + idx * 64) (c.base + idx * 64 + n * 64) a ≡ false =
          ground arith in
        rw (off, out) (ground arith)
  ],
)

-- The addresses of a run belong to a region.
run-owned :
    (cs : List MetaChunk) (p n a : ℕ)
    → IsRun cs p n
    → within p (p + n * 64) a ≡ true
    → owned_at cs a ≡ true
run-owned [] p n a run h = absurd run
run-owned (c ∷ cs) p n a (inl (idx, e, low, fits)) h = ground arith
run-owned (c ∷ cs) p n a (inr (off, run)) h = ground (arith, run-owned cs p n a run h)

-- A later region gets a run back.
given_later :
    (c : MetaChunk) (cs : List MetaChunk) (p n : ℕ) (r : Option (List MetaChunk))
    → AreRegions (c ∷ cs)
    → IsRun cs p n
    → Frees cs p n r
    → Frees (c ∷ cs) p n (elim r [ none ↦ none | some cs' ↦ some (c ∷ cs') ])
given_later c cs p n none are run f = f
given_later c cs p n (some cs') (is, apart, rest) run (ok, owned, over) = (
  (is, (λ a here. owned a ∙ apart a here), ok),
  λ a. rw (owned a) refl,
  λ a. elim (Bool-cases (in_region c a)) [
    | inl here ↦
        let out : within p (p + n * 64) a ≡ false = elim (Bool-cases (within p (p + n * 64) a)) [
          | inl q ↦ absurd (ground (arith, apart a here, run-owned cs p n a run q))
          | inr q ↦ q
        ] in
        rw (here, out) (ground arith)
    | inr off ↦ rw off (over a)
  ],
)

free_in_lem :
    (cs : List MetaChunk) (p n : ℕ)
    → AreRegions cs
    → IsRun cs p n
    → 1 ≤ n
    → Frees cs p n (free_in cs p n)
unfolding free_in owns
free_in_lem [] p n are run pos = absurd run
free_in_lem (c ∷ cs) p n (is, apart, rest) (inl (idx, e, low, fits)) pos =
    let here : in_region c p ≡ true = ground arith in
    let at : (p - c.base) / 64 ≡ idx = omega arith in
    let some_chunk = is.bitmap.some_chunk in
    let (m, was, got, ok, over, iff) =
      bitmap_set_n_lem c.bitmap idx n is.bitmap (omega arith) (omega arith) in
    rw (here, at, got)
      (subst (λ q. Frees (c ∷ cs) q n (some (record c { bitmap = m } ∷ cs))) (sym e)
        (given c cs n idx m (is, apart, rest) low fits ok over))
free_in_lem (c ∷ cs) p n (is, apart, rest) (inr (off, run)) pos = rw off (
    (given_later c cs p n (free_in cs p n) (is, apart, rest) run (free_in_lem cs p n rest run pos)))

-- Giving a run of blocks back does not fault and keeps the regions; exactly its blocks become free.
pub meta_free_lem :
    (s : Meta) (p size : ℕ)
    → AreRegions s.chunks
    → 1 ≤ size
    → IsRun s.chunks p (div_ceil size block_size)
    → (s' : Meta) × (meta_free s p size ≡ some s')
      × Frees s.chunks p (div_ceil size block_size) (some s'.chunks)
unfolding meta_free div_ceil
meta_free_lem s p size are pos run =
    go (free_in s.chunks p ((size + 63) / 64)) refl
      (free_in_lem s.chunks p ((size + 63) / 64) are run (omega arith))
  where
    go :
        (r : Option (List MetaChunk))
        → free_in s.chunks p ((size + 63) / 64) ≡ r
        → Frees s.chunks p ((size + 63) / 64) r
        → (s' : Meta) × (meta_free s p size ≡ some s')
          × Frees s.chunks p ((size + 63) / 64) (some s'.chunks)
    go none e f = absurd f
    go (some cs') e f = (record s { chunks = cs' }, rw (meta_free, e) refl, f)
