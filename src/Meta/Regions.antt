-- ===== src/Meta/Regions.antt =====
-- src/arena_meta.rs, the free blocks of the regions, and the search for a run.
use mimalloc_rs.Prelude.{
  ℕ, ◌+◌, ◌-◌, ◌*◌, ◌/◌, ◌≤◌, ◌<◌, ◌≡◌, refl, sym, ◌∙◌, ◌⊎◌, inl, inr, Bool, true, false, ◌&&◌,
  ◌||◌, not, arith, ltb, leb, ◌==◌, if◌then◌else◌, Bool-cases, within, Option, some, none, List, [],
  ◌∷◌, subst,
}
use mimalloc_rs.Bitmap.Map.{Bitmap}
use mimalloc_rs.Bitmap.Map.View.{IsBitmap, bit_of}
use mimalloc_rs.Bitmap.Map.Find.{IsTakenFrom, FindsRun}
use mimalloc_rs.Bitmap.Map.Update.{RangeIs}
use mimalloc_rs.Bitmap.Wide.Search.{try_find_and_clear_n_lem}
use mimalloc_rs.Meta.{MetaChunk, block_ptr, serve}

-- A bitmap of one chunk, whose free blocks lie behind the header.
pub record IsRegion (c : MetaChunk) : Type 0 where
  pub bitmap : IsBitmap c.bitmap
  pub inside : (i : ℕ) → bit_of c.bitmap i ≡ true → (c.first_data_block ≤ i) × (i < 512)

abbrev pub in_region : MetaChunk → ℕ → Bool
in_region c a = leb c.base a && ltb a (c.base + 32768)

-- Whether the address is in a region, and whether it is in a free block.
abbrev pub owned_at : List MetaChunk → ℕ → Bool
owned_at [] a = false
owned_at (c ∷ cs) a = in_region c a || owned_at cs a

abbrev pub free_at : List MetaChunk → ℕ → Bool
free_at [] a = false
free_at (c ∷ cs) a = if in_region c a then bit_of c.bitmap ((a - c.base) / 64) else free_at cs a

-- Regions without a common address.
abbrev pub AreRegions : List MetaChunk → Type 0
AreRegions [] = Unit {0}
AreRegions (c ∷ cs) =
    IsRegion c × ((a : ℕ) → in_region c a ≡ true → owned_at cs a ≡ false) × AreRegions cs

-- The `n` blocks from `p` on are blocks of one region, behind its header.
abbrev pub IsRun : List MetaChunk → ℕ → ℕ → Type 0
IsRun [] p n = ⊥
IsRun (c ∷ cs) p n =
    ((idx : ℕ) × (p ≡ c.base + idx * 64) × (c.first_data_block ≤ idx) × (idx + n ≤ 512))
    ⊎ ((in_region c p ≡ false) × IsRun cs p n)

pub free-owned : (cs : List MetaChunk) (a : ℕ) → free_at cs a ≡ true → owned_at cs a ≡ true
free-owned [] a h = h
free-owned (c ∷ cs) a h = ground (arith, free-owned cs a)

-- No region has `n` free blocks in a row.
abbrev pub NoRun : List MetaChunk → ℕ → Type 0
NoRun [] n = Unit {0}
NoRun (c ∷ cs) n = ((idx : ℕ) → idx + n ≤ 512 → ¬ RangeIs true c.bitmap idx n) × NoRun cs n

-- What a search for `n` blocks leaves, when it takes the run at `p`.
pub record IsTaken (cs : List MetaChunk) (n : ℕ) (cs' : List MetaChunk) (p : ℕ) : Type 0 where
  pub run : IsRun cs' p n
  pub was_free : (a : ℕ) → within p (p + n * 64) a ≡ true → free_at cs a ≡ true
  pub now : (a : ℕ) → free_at cs' a ≡ (free_at cs a && not (within p (p + n * 64) a))

abbrev pub Served : List MetaChunk → ℕ → List MetaChunk → Option ℕ → Type 0
Served cs n cs' none = ((a : ℕ) → free_at cs' a ≡ free_at cs a) × NoRun cs n
Served cs n cs' (some p) = IsTaken cs n cs' p

-- The search keeps the regions.
abbrev pub Serves : List MetaChunk → ℕ → Option (List MetaChunk × Option ℕ) → Type 0
Serves cs n none = ⊥
Serves cs n (some (cs', got)) =
    AreRegions cs' × ((a : ℕ) → owned_at cs' a ≡ owned_at cs a) × Served cs n cs' got

-- A region with fewer free blocks.
fewer :
    (c : MetaChunk) (m : Bitmap)
    → IsRegion c
    → IsBitmap m
    → ((i : ℕ) → bit_of m i ≡ true → bit_of c.bitmap i ≡ true)
    → IsRegion (record c { bitmap = m })
fewer c m is ok less = record { bitmap = ok; inside = λ i e. is.inside i (less i e) }

-- A run taken from the first region.
pub taken :
    (c : MetaChunk) (cs : List MetaChunk) (n : ℕ) (m : Bitmap) (idx : ℕ)
    → AreRegions (c ∷ cs)
    → 1 ≤ n
    → IsBitmap m
    → IsTakenFrom c.bitmap n idx m
    → Serves (c ∷ cs) n (some (record c { bitmap = m } ∷ cs, some (block_ptr c idx)))
unfolding block_ptr
taken c cs n m idx (is, apart, rest) pos ok t =
    let set = t.was_set in
    let fits = t.fits in
    let (low, high) = is.inside idx (set idx (omega arith) (omega arith)) in
    (
      (fewer c m is ok (λ i e. ground (arith, t.now i)), apart, rest),
      λ a. refl,
      record {
        run = inl (idx, refl, low, omega arith);
        was_free = λ a h.
            let q = set ((a - c.base) / 64) (ground arith) (ground arith) in
            let here : in_region c a ≡ true = ground arith in rw here q;
        now = λ a. elim (Bool-cases (in_region c a)) [
          | inl here ↦
              let same : within (c.base + idx * 64) (c.base + idx * 64 + n * 64) a
                  ≡ within idx (idx + n) ((a - c.base) / 64) =
                ground arith in
              rw (here, same) (t.now ((a - c.base) / 64))
          | inr off ↦
              let out : within (c.base + idx * 64) (c.base + idx * 64 + n * 64) a ≡ false =
                ground arith in
              rw (off, out) (ground arith)
        ];
      },
    )

-- A run taken from a later region.
later :
    (c : MetaChunk) (cs : List MetaChunk) (n : ℕ) (cs' : List MetaChunk) (got : Option ℕ)
    → AreRegions (c ∷ cs)
    → 1 ≤ n
    → ((idx : ℕ) → idx + n ≤ 512 → ¬ RangeIs true c.bitmap idx n)
    → Serves cs n (some (cs', got))
    → Serves (c ∷ cs) n (some (c ∷ cs', got))
later c cs n cs' none (is, apart, rest) pos no_run (ok, owned, (same, none_left)) = (
  (is, (λ a here. owned a ∙ apart a here), ok),
  λ a. rw (owned a) refl,
  ((λ a. rw (same a) refl), (no_run, none_left)),
)
later c cs n cs' (some p) (is, apart, rest) pos no_run (ok, owned, t) =
    let off : (a : ℕ) → within p (p + n * 64) a ≡ true → in_region c a ≡ false = λ a h.
      elim (Bool-cases (in_region c a)) [
        | inl here ↦ absurd (ground (arith, apart a here, free-owned cs a (t.was_free a h)))
        | inr out ↦ out
      ] in
    (
      (is, (λ a here. owned a ∙ apart a here), ok),
      λ a. rw (owned a) refl,
      record {
        run = inr (off p (ground arith), t.run);
        was_free = λ a h. rw (off a h) (t.was_free a h);
        now = λ a. elim (Bool-cases (in_region c a)) [
          | inl here ↦
              let out : within p (p + n * 64) a ≡ false =
                elim (Bool-cases (within p (p + n * 64) a)) [
                  | inl q ↦ absurd (ground (arith, off a q))
                  | inr q ↦ q
                ] in
              rw (here, out) (ground arith)
          | inr there ↦ rw there (t.now a)
        ];
      },
    )

-- The search goes on behind a region without a run.
go_on :
    (c : MetaChunk) (cs : List MetaChunk) (n : ℕ) (m : Bitmap)
    (r : Option (List MetaChunk × Option ℕ))
    → AreRegions (c ∷ cs)
    → 1 ≤ n
    → FindsRun c.bitmap n (m, none)
    → Serves cs n r
    → Serves
        (c ∷ cs)
        n
        (elim r [ none ↦ none | some (cs', got) ↦ some (record c { bitmap = m } ∷ cs', got) ])
go_on c cs n m none are pos (same, no_run) s = s
go_on c cs n m (some (cs', got)) are pos (same, no_run) s =
    let some_chunk = are.0.bitmap.some_chunk in
    subst (λ b. Serves (c ∷ cs) n (some (record c { bitmap = b } ∷ cs', got))) (sym same)
      (later c cs n cs' got are pos
        (λ idx fits. no_run idx (omega (arith, some_chunk)) (omega arith)) s)

-- For 1 to 512 blocks the search of well-formed regions does not fault and keeps them. It takes a
-- run of free blocks of one region and no other block, and fails only if no region has one.
pub serve_lem :
    (cs : List MetaChunk) (n : ℕ) → AreRegions cs → 1 ≤ n → n ≤ 512 → Serves cs n (serve cs n)
unfolding serve
serve_lem [] n are pos few = (tt, (λ a. refl), ((λ a. refl), tt))
serve_lem (c ∷ cs) n (is, apart, rest) pos few =
    let ((m, found), got, ok, search) = try_find_and_clear_n_lem c.bitmap n 0 is.bitmap in
    let nz : (n == 0) ≡ false = ground arith in
    let small : leb n 512 ≡ true = ground arith in
    subst
      (λ (r : Option (Bitmap × Option ℕ)). Serves (c ∷ cs) n (elim r [
        | none ↦ none
        | some (b, some idx) ↦ some (record c { bitmap = b } ∷ cs, some (block_ptr c idx))
        | some (b, none) ↦ elim (serve cs n) [
          | none ↦ none
          | some (cs', taken_) ↦ some (record c { bitmap = b } ∷ cs', taken_)
        ]
      ]))
      (sym got) (go m found ok (rw (nz, small) at search) (serve_lem cs n rest pos few))
  where
    go :
        (m : Bitmap) (found : Option ℕ)
        → IsBitmap m
        → FindsRun c.bitmap n (m, found)
        → Serves cs n (serve cs n)
        → Serves (c ∷ cs) n (elim found [
          | some idx ↦ some (record c { bitmap = m } ∷ cs, some (block_ptr c idx))
          | none ↦ elim (serve cs n) [
            | none ↦ none
            | some (cs', taken_) ↦ some (record c { bitmap = m } ∷ cs', taken_)
          ]
        ])
    go m (some idx) ok search tail_ = taken c cs n m idx (is, apart, rest) pos ok search
    go m none ok search tail_ = go_on c cs n m (serve cs n) (is, apart, rest) pos search tail_
