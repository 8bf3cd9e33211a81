-- ===== src/Bitmap/Chunk/RollBack.antt =====
-- src/bitmap.rs, `try_clear_n`: one field of a range, and the rollback of the fields cleared
-- before.
use mimalloc_rs.Prelude.{
  ℕ, ◌+◌, ◌/◌, ◌^◌, ◌%◌, ◌<◌, ◌≡◌, refl, ◌∙◌, ap, inl, inr, Bool, true, false, ◌&&◌, ◌||◌, not,
  some, [], ◌∷◌, ◌++◌, arith, ◌==◌, within, Bool-cases, get_or, set, set-get_or,
}
use mimalloc_rs.Word.Bit.{bit}
use mimalloc_rs.Bitmap.Field.{Update, bf_try_clear_mask, bf_set_mask}
use mimalloc_rs.Bitmap.Field.Laws.{
  Clears, bf_try_clear_mask_lem, Clears-lt, bf_set_mask_lem, Sets-lt,
}
use mimalloc_rs.Bitmap.Field.Runs.{mask_n-lt}
use mimalloc_rs.Bitmap.Chunk.{Chunk, Cleared, here, mask_here, roll_back}
use mimalloc_rs.Bitmap.Chunk.Loops.{Covers-here_iff}
use mimalloc_rs.Bitmap.Chunk.View.{
  bit_at, IsChunk, AllSet, field-some, bit_at-set, IsChunk-set, mask_here-bit, here-outside,
}

-- The chunk `d` is `c` with the bits of the range cleared.
pub record IsClearedOn (c : Chunk) (s n : ℕ) (d : Chunk) : Type 0 where
  pub chunk : IsChunk d
  pub bits : (i : ℕ) → bit_at d i ≡ (bit_at c i && not (within s (s + n) i))

-- What an attempt to clear a range promises: all of it, or nothing.
abbrev pub AllOrNothing : Chunk → ℕ → ℕ → Chunk × Bool → Type 0
AllOrNothing c s n (d, true) = AllSet c s n × IsClearedOn c s n d
AllOrNothing c s n (d, false) = (¬ AllSet c s n) × (d ≡ c)

all_cleared :
    (c : Chunk) (s n : ℕ) (d : Chunk) (r : Bool)
    → r ≡ true
    → AllSet c s n
    → IsClearedOn c s n d
    → AllOrNothing c s n (d, r)
all_cleared c s n d true e a is = (a, is)
all_cleared c s n d false e a is = cc

none_cleared :
    (c : Chunk) (s n : ℕ) (d : Chunk) (r : Bool)
    → r ≡ false
    → ¬ AllSet c s n
    → d ≡ c
    → AllOrNothing c s n (d, r)
none_cleared c s n d true e a same = cc
none_cleared c s n d false e a same = (a, same)

-- One field: its part of the range is all set and cleared, or is left as it is.
pub clear_here :
    (c : Chunk)
    → IsChunk c
    → (s n : ℕ) → s / 64 < 8
    → let u = bf_try_clear_mask [] (get_or c (s / 64) 0) (mask_here s n) in
      AllOrNothing c s (here s n) (set c (s / 64) u.after, u.result)
clear_here c is s n lt = go _ (bf_try_clear_mask_lem [] _ _ tt (is.words (s / 64)) fits)
  where
    fits : mask_here s n < 2 ^ 64
    fits = mask_n-lt (here s n) (s % 64)

    go :
        (u : Update Bool)
        → Clears [] (get_or c (s / 64) 0) (mask_here s n) u
        → AllOrNothing c s (here s n) (set c (s / 64) u.after, u.result)
    go u is_clear =
        let covered = λ (e : u.result ≡ true).
          (Covers-here_iff c is s n).0 (rw is_clear.observed at (is_clear.decides.0 e)) in
        elim (Bool-cases u.result) [
          | inl e ↦ all_cleared c s (here s n) _ u.result e (covered e) (record {
            chunk =
                IsChunk-set c is (s / 64) u.after lt (Clears-lt is_clear tt (is.words (s / 64)));
            bits = λ i.
                rw (bit_at-set c is (s / 64) u.after i lt) (elim (Bool-cases (i / 64 == s / 64)) [
                  | inl at ↦
                      let same : i / 64 ≡ s / 64 = ground arith in
                      rw at (
                        is_clear.cleared e (i % 64)
                        ∙ ground (
                          arith,
                          is_clear.observed,
                          ap (λ f. get_or c f 0) same,
                          mask_here-bit s n i same,
                        ))
                  | inr off ↦ rw (off, here-outside s n i off) (ground arith)
                ]);
          })
          | inr e ↦
              none_cleared c s (here s n) _ u.result e
                (λ a. ground (
                  arith,
                  is_clear.decides.1 (rw is_clear.observed ((Covers-here_iff c is s n).1 a)),
                ))
                (ap (λ w. set c (s / 64) w) (is_clear.kept e ∙ is_clear.observed)
                  ∙ set-get_or c (s / 64) 0)
        ]

pub when_true :
    (c : Chunk) (s n : ℕ) (d : Chunk) (r : Bool)
    → AllOrNothing c s n (d, r)
    → r ≡ true
    → AllSet c s n × IsClearedOn c s n d
when_true c s n d true o e = o
when_true c s n d false o e = cc

pub when_false :
    (c : Chunk) (s n : ℕ) (d : Chunk) (r : Bool)
    → AllOrNothing c s n (d, r)
    → r ≡ false
    → (¬ AllSet c s n) × (d ≡ c)
when_false c s n d true o e = cc
when_false c s n d false o e = o

-- The bits that rolling back sets.
abbrev pub masks_at : Cleared → ℕ → Bool
masks_at [] i = false
masks_at ((f, m) ∷ rest) i = ((i / 64 == f) && bit m (i % 64)) || masks_at rest i

pub masks_at-append :
    (xs ys : Cleared) (i : ℕ) → masks_at (xs ++ ys) i ≡ (masks_at xs i || masks_at ys i)
masks_at-append [] ys i = refl
masks_at-append ((f, m) ∷ xs) ys i = ground (arith, masks_at-append xs ys i)

-- Fields of the chunk, masks that fit a word.
abbrev pub AreMasks : Cleared → Type 0
AreMasks [] = Unit {0}
AreMasks ((f, m) ∷ rest) = (f < 8) × (m < 2 ^ 64) × AreMasks rest

pub AreMasks-append : (xs ys : Cleared) → AreMasks xs → AreMasks ys → AreMasks (xs ++ ys)
AreMasks-append [] ys hx hy = hy
AreMasks-append ((f, m) ∷ xs) ys (lt, small, hx) hy = (lt, small, AreMasks-append xs ys hx hy)

pub roll_back_lem :
    (c : Chunk)
    → IsChunk c
    → (cleared : Cleared) → AreMasks cleared
    → (d : Chunk) × (roll_back c cleared ≡ some d)
      × IsChunk d
      × ((i : ℕ) → bit_at d i ≡ (bit_at c i || masks_at cleared i))
unfolding roll_back
roll_back_lem c is [] good = (c, refl, is, λ i. ground arith)
roll_back_lem c is ((f, m) ∷ rest) (lt, small, good) =
    let u = bf_set_mask_lem [] (get_or c f 0) m in
    let next = IsChunk-set c is f _ lt (Sets-lt u tt (is.words f) small) in
    let (d, same, ok, bits) =
      roll_back_lem (set c f (bf_set_mask [] (get_or c f 0) m).after) next rest good in
    (
      d,
      rw (field-some c is f lt, roll_back) same,
      ok,
      λ i.
          bits i
          ∙ rw (bit_at-set c is f _ i lt) (elim (Bool-cases (i / 64 == f)) [
            | inl e ↦
                let at : i / 64 ≡ f = ground arith in
                rw e (ground (arith, u.bits (i % 64), u.observed, ap (λ g. get_or c g 0) at))
            | inr e ↦ rw e (ground arith)
          ]),
    )
