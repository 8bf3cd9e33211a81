-- ===== src/Bitmap/Chunk/Loops.antt =====
-- src/bitmap.rs, the loops of a chunk over the fields of a range: the two predicates and `set_n`.
use mimalloc_rs.Prelude.{
  ℕ, suc, zero, ◌+◌, ◌-◌, ◌*◌, ◌/◌, ◌%◌, ◌<◌, ◌≤◌, ◌≡◌, refl, sym, ◌∙◌, ap, ◌↔◌, ◌⊎◌, inl, inr,
  Bool, true, false, ◌||◌, some, [], arith, ◌==◌, ltb, within, Bool-cases, get_or, set,
}
use mimalloc_rs.Word.Bit.{bit}
use mimalloc_rs.Word.Masks.{Covers}
use mimalloc_rs.Bitmap.Field.{bf_all_set, bf_all_clear, bf_set_mask}
use mimalloc_rs.Bitmap.Field.Laws.{Sets-lt, bf_all_set_iff, bf_all_clear_iff, bf_set_mask_lem}
use mimalloc_rs.Bitmap.Field.Runs.{mask_n-lt, bit-mask_n}
use mimalloc_rs.Bitmap.Chunk.{
  Chunk, here, mask_here, for_each_field_mask, is_set_n, is_clear_n, set_loop, set_n,
}
use mimalloc_rs.Bitmap.Chunk.View.{
  bit_at, IsChunk, AllAre, AllSet, field-some, bit_at-set, IsChunk-set, mask_here-bit, here-outside,
}

-- A test of the masked bits of a field for the value `v`.
abbrev Tests : Bool → (ℕ → ℕ → Bool) → Type 0
Tests v pred = (w m : ℕ) → (pred w m ≡ true) ↔ ((i : ℕ) → bit m i ≡ true → bit w i ≡ v)

module _ (v : Bool) (pred : ℕ → ℕ → Bool) (tests : Tests v pred) (c : Chunk) (is : IsChunk c) where
  -- The test of one field is a test of the part of the range in it.
  test-here :
      (s n : ℕ) → (pred (get_or c (s / 64) 0) (mask_here s n) ≡ true) ↔ AllAre v c s (here s n)
  test-here s n = (
    λ h i le lt.
        let same : i / 64 ≡ s / 64 = omega arith in
        let at = (tests _ _).0 h (i % 64) (ground (arith, mask_here-bit s n i same)) in rw same at,
    λ a. (tests _ _).1 (λ j m.
        let inside : within (s % 64) (s % 64 + here s n) j ≡ true =
          sym (bit-mask_n (here s n) (s % 64) j (omega arith)) ∙ m in
        let q : (s / 64 * 64 + j) / 64 ≡ s / 64 = ground arith in
        let r : (s / 64 * 64 + j) % 64 ≡ j = ground arith in
        let at = a (s / 64 * 64 + j) (ground arith) (ground arith) in rw (q, r) at at),
  )

  AllAre-split :
      (s k n : ℕ) → k ≤ n → (AllAre v c s k × AllAre v c (s + k) (n - k)) ↔ AllAre v c s n
  AllAre-split s k n le = (
    λ (low, high) i from to. elim (Bool-cases (ltb i (s + k))) [
      | inl lt ↦ low i from (ground arith)
      | inr ge ↦ high i (ground arith) (omega arith)
    ],
    λ a. (λ i from to. a i from (omega arith), λ i from to. a i (omega arith) (omega arith)),
  )

  for_each_lem :
      (rounds s n : ℕ)
      → n < rounds
      → s + n ≤ 512
      → (r : Bool) × (for_each_field_mask pred rounds c s n ≡ some r)
        × ((r ≡ true) ↔ AllAre v c s n)
  unfolding for_each_field_mask
  for_each_lem zero s n fuel fits = absurd (omega arith)
  for_each_lem (suc rounds) s n fuel fits = elim (Bool-cases (n == 0)) [
    | inl e ↦ (true, rw e, (λ _ i le lt. absurd (ground arith), λ _. refl))
    | inr e ↦
        let k = here s n in
        let pos : 1 ≤ n = ground arith in
        let found = field-some c is (s / 64) (omega arith) in
        elim (Bool-cases (pred (get_or c (s / 64) 0) (mask_here s n))) [
          | inr miss ↦ (
            false,
            rw (e, found, miss),
            (
              λ h. absurd (ground arith),
              λ a. sym miss ∙ (test-here s n).1 ((AllAre-split s k n (omega arith)).1 a).0,
            ),
          )
          | inl hit ↦
              let (r, same, iff) =
                for_each_lem rounds (s + k) (n - k) (omega arith) (omega arith) in
              (
                r,
                rw (e, found, hit) same,
                (
                  λ h. (AllAre-split s k n (omega arith)).0 ((test-here s n).0 hit, iff.0 h),
                  λ a. iff.1 ((AllAre-split s k n (omega arith)).1 a).1,
                ),
              )
        ]
  ]

-- The mask of the part of a range in one field covers bits that are all set, or not.
pub Covers-here_iff :
    (c : Chunk)
    → IsChunk c
    → (s n : ℕ) → Covers (get_or c (s / 64) 0) (mask_here s n) ↔ AllSet c s (here s n)
Covers-here_iff c is s n = (
  λ h. (test-here true bf_all_set bf_all_set_iff c is s n).0 ((bf_all_set_iff _ _).1 h),
  λ a. (bf_all_set_iff _ _).0 ((test-here true bf_all_set bf_all_set_iff c is s n).1 a),
)

pub AllSet-split :
    (c : Chunk)
    → IsChunk c
    → (s k n : ℕ) → k ≤ n
    → (AllSet c s k × AllSet c (s + k) (n - k)) ↔ AllSet c s n
AllSet-split = AllAre-split true bf_all_set bf_all_set_iff

module _ (c : Chunk) (is : IsChunk c) (s n : ℕ) (fits : s + n ≤ 512) where
  -- On a range inside the chunk `is_set_n` does not fault, and answers whether every bit is set.
  pub is_set_n_lem : (r : Bool) × (is_set_n c s n ≡ some r) × ((r ≡ true) ↔ AllSet c s n)
  unfolding is_set_n
  is_set_n_lem = for_each_lem true bf_all_set bf_all_set_iff c is (n + 1) s n (omega arith) fits

  pub is_set_n-cases :
      ((is_set_n c s n ≡ some true) × AllSet c s n)
      ⊎ ((is_set_n c s n ≡ some false) × (¬ AllSet c s n))
  is_set_n-cases = split is_set_n_lem.0 is_set_n_lem.1 is_set_n_lem.2
    where
      split :
          (r : Bool)
          → is_set_n c s n ≡ some r
          → (r ≡ true) ↔ AllSet c s n
          → ((is_set_n c s n ≡ some true) × AllSet c s n)
            ⊎ ((is_set_n c s n ≡ some false) × (¬ AllSet c s n))
      split true same iff = inl (same, iff.0 refl)
      split false same iff = inr (same, λ a. ground (arith, iff.1 a))

  -- On a range inside the chunk `is_clear_n` does not fault, and answers whether every bit is
  -- clear.
  pub is_clear_n_lem : (r : Bool) × (is_clear_n c s n ≡ some r) × ((r ≡ true) ↔ AllAre false c s n)
  unfolding is_clear_n
  is_clear_n_lem =
      for_each_lem false bf_all_clear bf_all_clear_iff c is (n + 1) s n (omega arith) fits

-- The chunk `d` is `c` with the bits of the range set.
pub record IsSetOn (c : Chunk) (s n : ℕ) (d : Chunk) : Type 0 where
  pub chunk : IsChunk d
  pub bits : (i : ℕ) → bit_at d i ≡ (bit_at c i || within s (s + n) i)

-- One round of the loop sets the part of the range in one field.
set-here :
    (c : Chunk) (is : IsChunk c) (s n : ℕ)
    → s / 64 < 8
    → IsSetOn c s
        (here s n)
        (set c (s / 64) (bf_set_mask [] (get_or c (s / 64) 0) (mask_here s n)).after)
set-here c is s n lt =
    let w = get_or c (s / 64) 0 in
    let u = bf_set_mask_lem [] w (mask_here s n) in
    record {
      chunk =
          IsChunk-set c is (s / 64) _ lt
            (Sets-lt u tt (is.words (s / 64)) (mask_n-lt (here s n) (s % 64)));
      bits = λ i. rw (bit_at-set c is (s / 64) _ i lt) (elim (Bool-cases (i / 64 == s / 64)) [
        | inl e ↦
            let same : i / 64 ≡ s / 64 = ground arith in
            rw e (
              u.bits (i % 64)
              ∙ ground (arith, u.observed, ap (λ f. get_or c f 0) same, mask_here-bit s n i same))
        | inr e ↦ rw (e, here-outside s n i e) (ground arith)
      ]);
    }

IsSetOn-append :
    {c d e : Chunk} (s k n : ℕ)
    → k ≤ n
    → IsSetOn c s k d
    → IsSetOn d (s + k) (n - k) e
    → IsSetOn c s n e
IsSetOn-append s k n le low high = record {
  chunk = high.chunk;
  bits = λ i. ground (arith, low.bits i, high.bits i);
}

set_loop_lem :
    (rounds : ℕ) (c : Chunk) (is : IsChunk c) (s n : ℕ)
    → n < rounds
    → s + n ≤ 512
    → (d : Chunk) × (set_loop rounds c s n ≡ some d) × IsSetOn c s n d
unfolding set_loop
set_loop_lem zero c is s n fuel fits = absurd (omega arith)
set_loop_lem (suc rounds) c is s n fuel fits = elim (Bool-cases (n == 0)) [
  | inl e ↦ (c, rw e, record { chunk = is; bits = λ i. ground arith })
  | inr e ↦
      let k = here s n in
      let pos : 1 ≤ n = ground arith in
      let low = set-here c is s n (omega arith) in
      let (d, same, high) =
        set_loop_lem rounds _ low.chunk (s + k) (n - k) (omega arith) (omega arith) in
      (
        d,
        rw (e, field-some c is (s / 64) (omega arith)) same,
        IsSetOn-append s k n (omega arith) low high,
      )
]

-- On a range inside the chunk `set_n` does not fault, sets every bit of the range and changes no
-- other bit.
pub set_n_lem :
    (c : Chunk)
    → IsChunk c
    → (s n : ℕ) → s + n ≤ 512
    → (d : Chunk) × (set_n c s n ≡ some d) × IsSetOn c s n d
unfolding set_n
set_n_lem c is s n fits = set_loop_lem (n + 1) c is s n (omega arith) fits
