-- ===== src/Bitmap/Field/Laws.antt =====
-- src/bitmap.rs, what the masked updates of one field do to its bits, whatever other threads do.
use mimalloc_rs.Prelude.{
  ℕ, ◌^◌, ◌<◌, bit_and, bit_or, ◌≡◌, refl, ◌↔◌, ◌⊎◌, inl, inr, Bool, true, false, ◌&&◌, ◌||◌, not,
  List, [], ◌∷◌, arith, ◌==◌, Bool-cases, ==_iff,
}
use mimalloc_rs.Word.{complement}
use mimalloc_rs.Word.Bit.{bit, bit-bit_or, bit_high, lt_of_bit}
use mimalloc_rs.Word.Masks.{
  Covers, Avoids, bit_and-eq_mask_iff, bit_and-eq_zero_iff, bit_or-eq_self_iff, bit-clear,
}
use mimalloc_rs.Bitmap.Field.{
  Attempt, exchanged, failed, cas_weak_acq_rel, Update, update, bf_all_set, bf_all_clear,
  bf_set_mask, bf_try_clear_mask,
}

-- The values that the field takes while an operation runs.
abbrev pub Observed : List Attempt → ℕ → ℕ → Type 0
Observed [] old w = w ≡ old
Observed (t ∷ ts) old w = (w ≡ old) ⊎ Observed ts t.seen w

pub Observed-here : (ts : List Attempt) (old : ℕ) → Observed ts old old
Observed-here [] old = refl
Observed-here (t ∷ ts) old = inl refl

-- Every value that the field takes fits a word.
abbrev pub AllWords : List Attempt → Type 0
AllWords [] = Unit {0}
AllWords (t ∷ ts) = (t.seen < 2 ^ 64) × AllWords ts

pub Observed-lt :
    (ts : List Attempt) {old w : ℕ} → AllWords ts → old < 2 ^ 64 → Observed ts old w → w < 2 ^ 64
Observed-lt [] a h o = omega arith
Observed-lt (t ∷ ts) a h (inl e) = omega arith
Observed-lt (t ∷ ts) a h (inr o) = Observed-lt ts a.1 a.0 o

pub cas_cases :
    (t : Attempt) (old : ℕ)
    → ((cas_weak_acq_rel t old ≡ exchanged) × (t.seen ≡ old))
      ⊎ (cas_weak_acq_rel t old ≡ failed t.seen)
unfolding cas_weak_acq_rel
cas_cases t old = ground arith

pub bf_all_set_iff : (w m : ℕ) → (bf_all_set w m ≡ true) ↔ Covers w m
unfolding bf_all_set
bf_all_set_iff w m = (
  λ h. (bit_and-eq_mask_iff w m).0 ((==_iff _ _).0 h),
  λ c. (==_iff _ _).1 ((bit_and-eq_mask_iff w m).1 c),
)

pub bf_all_clear_iff : (w m : ℕ) → (bf_all_clear w m ≡ true) ↔ Avoids w m
unfolding bf_all_clear
bf_all_clear_iff w m = (
  λ h. (bit_and-eq_zero_iff w m).0 ((==_iff _ _).0 h),
  λ c. (==_iff _ _).1 ((bit_and-eq_zero_iff w m).1 c),
)

-- What setting a mask promises.
pub record Sets (ts : List Attempt) (old mask : ℕ) (u : Update Bool) : Type 0 where
  pub observed : Observed ts old u.before
  pub bits : (i : ℕ) → bit u.after i ≡ (bit u.before i || bit mask i)
  pub unchanged : (u.result ≡ false) ↔ Covers u.before mask

Sets-old :
    (ts : List Attempt) (old mask : ℕ) → Covers old mask → Sets ts old mask (update old old false)
Sets-old ts old mask c = record {
  observed = Observed-here ts old;
  bits = λ i. ground (arith, c i);
  unchanged = (λ _. c, λ _. refl);
}

Sets-new :
    (ts : List Attempt) (old mask : ℕ)
    → (bit_or old mask == old) ≡ false
    → Sets ts old mask (update old (bit_or old mask) true)
Sets-new ts old mask ne = record {
  observed = Observed-here ts old;
  bits = bit-bit_or old mask;
  unchanged = (λ h. absurd (ground arith), λ c. ground (arith, (bit_or-eq_self_iff old mask).1 c));
}

-- Setting a mask leaves the bits of the mask set and all others as they were at the step that
-- decides, and returns `false` exactly when they all were set at that step. The field takes that
-- value while the operation runs, and this holds whatever the other threads write.
pub bf_set_mask_lem :
    (ts : List Attempt) (old mask : ℕ) → Sets ts old mask (bf_set_mask ts old mask)
unfolding bf_set_mask
bf_set_mask_lem [] old mask = elim (Bool-cases (bit_or old mask == old)) [
  | inl e ↦ rw e (Sets-old [] old mask ((bit_or-eq_self_iff old mask).0 ((==_iff _ _).0 e)))
  | inr e ↦ rw e (Sets-new [] old mask e)
]
bf_set_mask_lem (t ∷ ts) old mask = elim (Bool-cases (bit_or old mask == old)) [
  | inl e ↦ rw e (Sets-old (t ∷ ts) old mask ((bit_or-eq_self_iff old mask).0 ((==_iff _ _).0 e)))
  | inr e ↦ elim (cas_cases t old) [
    | inl (done, _) ↦ rw (e, done) (Sets-new (t ∷ ts) old mask e)
    | inr lost ↦
        rw (e, lost)
          (let rest = bf_set_mask_lem ts t.seen mask in
            record { observed = inr rest.observed; bits = rest.bits; unchanged = rest.unchanged })
  ]
]

-- An update that changes bits only as setting a mask does leaves a word.
pub Sets-lt :
    {ts : List Attempt} {old mask : ℕ} {u : Update Bool}
    → Sets ts old mask u
    → AllWords ts
    → old < 2 ^ 64
    → mask < 2 ^ 64
    → u.after < 2 ^ 64
Sets-lt {ts} {mask} {u} is a ho hm = lt_of_bit 64 u.after (λ i le. ground (
  arith,
  is.bits i,
  bit_high 64 u.before i (Observed-lt ts a ho is.observed) le,
  bit_high 64 mask i hm le,
))

-- What clearing a mask promises.
pub record Clears (ts : List Attempt) (old mask : ℕ) (u : Update Bool) : Type 0 where
  pub observed : Observed ts old u.before
  pub decides : (u.result ≡ true) ↔ Covers u.before mask
  pub cleared : u.result ≡ true → (i : ℕ) → bit u.after i ≡ (bit u.before i && not (bit mask i))
  pub kept : u.result ≡ false → u.after ≡ u.before

Clears-old :
    (ts : List Attempt) (old mask : ℕ)
    → (bit_and old mask == mask) ≡ false
    → Clears ts old mask (update old old false)
Clears-old ts old mask ne = record {
  observed = Observed-here ts old;
  decides = (λ h. absurd (ground arith), λ c. ground (arith, (bit_and-eq_mask_iff old mask).1 c));
  cleared = λ h. absurd (ground arith);
  kept = λ _. refl;
}

Clears-new :
    (ts : List Attempt) (old mask : ℕ)
    → (bit_and old mask == mask) ≡ true
    → old < 2 ^ 64
    → mask < 2 ^ 64
    → Clears ts old mask (update old (bit_and old (complement mask)) true)
Clears-new ts old mask e ho hm = record {
  observed = Observed-here ts old;
  decides = (λ _. (bit_and-eq_mask_iff old mask).0 ((==_iff _ _).0 e), λ _. refl);
  cleared = λ _ i. bit-clear old mask i ho hm;
  kept = λ h. absurd (ground arith);
}

-- Clearing a mask succeeds exactly when all its bits are set at the step that decides. Then it
-- clears them and no others; otherwise it writes nothing. This holds whatever words the other
-- threads write.
pub bf_try_clear_mask_lem :
    (ts : List Attempt) (old mask : ℕ)
    → AllWords ts
    → old < 2 ^ 64
    → mask < 2 ^ 64
    → Clears ts old mask (bf_try_clear_mask ts old mask)
unfolding bf_try_clear_mask
bf_try_clear_mask_lem [] old mask a ho hm = elim (Bool-cases (bit_and old mask == mask)) [
  | inl e ↦ rw e (Clears-new [] old mask e ho hm)
  | inr e ↦ rw e (Clears-old [] old mask e)
]
bf_try_clear_mask_lem (t ∷ ts) old mask a ho hm = elim (Bool-cases (bit_and old mask == mask)) [
  | inr e ↦ rw e (Clears-old (t ∷ ts) old mask e)
  | inl e ↦ elim (cas_cases t old) [
    | inl (done, _) ↦ rw (e, done) (Clears-new (t ∷ ts) old mask e ho hm)
    | inr lost ↦
        rw (e, lost)
          (let rest = bf_try_clear_mask_lem ts t.seen mask a.1 a.0 hm in
            record {
              observed = inr rest.observed;
              decides = rest.decides;
              cleared = rest.cleared;
              kept = rest.kept;
            })
  ]
]

pub Clears-lt :
    {ts : List Attempt} {old mask : ℕ} {u : Update Bool}
    → Clears ts old mask u
    → AllWords ts
    → old < 2 ^ 64
    → u.after < 2 ^ 64
Clears-lt {ts} {u} is a ho = elim (Bool-cases u.result) [
  | inl e ↦ lt_of_bit 64 u.after (λ i le.
      ground (arith, is.cleared e i, bit_high 64 u.before i (Observed-lt ts a ho is.observed) le))
  | inr e ↦ rw (is.kept e) (Observed-lt ts a ho is.observed)
]
