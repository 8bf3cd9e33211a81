-- ===== src/Bitmap/Chunk/Clear.antt =====
-- src/bitmap.rs, `try_clear_n`: the clearing of a range with its rollback.
use mimalloc_rs.Prelude.{
  ℕ, suc, zero, ◌+◌, ◌-◌, ◌/◌, ◌%◌, ◌<◌, ◌≤◌, ◌≡◌, refl, ◌∙◌, ap, inl, inr, Bool, true, false, some,
  [], ◌∷◌, ◌++◌, arith, ◌==◌, leb, within, Bool-cases, subst, get_or, set,
}
use mimalloc_rs.Bitmap.Field.{bf_try_clear_mask}
use mimalloc_rs.Bitmap.Field.Runs.{mask_n-lt}
use mimalloc_rs.Bitmap.Chunk.{
  Chunk, Cleared, here, mask_here, clear_loop, roll_back, clear_in_field, clear_across, try_clear_n,
}
use mimalloc_rs.Bitmap.Chunk.View.{
  IsChunk, AllSet, field-some, mask_here-bit, here-outside, chunk_ext,
}
use mimalloc_rs.Bitmap.Chunk.RollBack.{
  IsClearedOn, AllOrNothing, clear_here, when_true, when_false, masks_at, masks_at-append, AreMasks,
  AreMasks-append, roll_back_lem,
}

-- The first `k` bits of a range of `c` were set and are cleared in `d`; `cleared` says where.
record Progress (c : Chunk) (s k : ℕ) (d : Chunk) (cleared : Cleared) : Type 0 where
  was_set : AllSet c s k
  now : IsClearedOn c s k d
  masks : AreMasks cleared
  where_ : (i : ℕ) → masks_at cleared i ≡ within s (s + k) i

-- Rolling back from any progress gives the chunk back.
Progress-roll_back :
    {c : Chunk} {s k : ℕ} {d : Chunk} {cleared : Cleared}
    → IsChunk c
    → Progress c s k d cleared
    → roll_back d cleared ≡ some c
Progress-roll_back {c} {s} {k} {d} {cleared} is p =
    let (e, same, ok, bits) = roll_back_lem d p.now.chunk cleared p.masks in
    same
    ∙ ap some
        (chunk_ext e c ok is λ i. ground (arith, bits i, p.now.bits i, p.where_ i, p.was_set i))

Progress-step :
    {c : Chunk} {s k : ℕ} {d : Chunk} {cleared : Cleared} (n : ℕ) (e : Chunk)
    → Progress c s k d cleared
    → (s + k) / 64 < 8
    → AllSet d (s + k) (here (s + k) n)
    → IsClearedOn d (s + k) (here (s + k) n) e
    → Progress c s (k + here (s + k) n) e (cleared ++ ((s + k) / 64, mask_here (s + k) n) ∷ [])
Progress-step {c} {s} {k} {d} {cleared} n e p lt a is = record {
  was_set = λ i le to. ground (arith, p.was_set i, p.now.bits i, a i);
  now = record { chunk = is.chunk; bits = λ i. ground (arith, p.now.bits i, is.bits i) };
  masks = AreMasks-append cleared _ p.masks (lt, mask_n-lt (here (s + k) n) ((s + k) % 64), tt);
  where_ = λ i. masks_at-append cleared _ i ∙ elim (Bool-cases (i / 64 == (s + k) / 64)) [
    | inl at ↦ ground (arith, p.where_ i, mask_here-bit (s + k) n i (ground arith))
    | inr off ↦ ground (arith, p.where_ i, here-outside (s + k) n i off)
  ];
}

-- What the loop leaves behind: the range cleared, or the means to undo what was done.
abbrev LoopEnds : Chunk → ℕ → ℕ → Chunk × Cleared × Bool → Type 0
LoopEnds c s n (d, cleared, true) = AllSet c s n × IsClearedOn c s n d
LoopEnds c s n (d, cleared, false) = (¬ AllSet c s n) × (roll_back d cleared ≡ some c)

clear_loop_lem :
    (rounds : ℕ) (c : Chunk)
    → IsChunk c
    → (s k n t : ℕ) (d : Chunk) (cleared : Cleared) → k + n ≡ t
    → n < rounds
    → s + k + n ≤ 512
    → Progress c s k d cleared
    → (r : Chunk × Cleared × Bool) × (clear_loop rounds d cleared (s + k) n ≡ some r)
      × LoopEnds c s t r
unfolding clear_loop
clear_loop_lem zero c is s k n t d cleared total fuel fits p = absurd (omega arith)
clear_loop_lem (suc rounds) c is s k n t d cleared total fuel fits p = elim (Bool-cases (n == 0)) [
  | inl e ↦
      let same : k ≡ t = ground arith in
      (
        (d, cleared, true),
        rw e,
        subst (λ q. AllSet c s q × IsClearedOn c s q d) same (p.was_set, p.now),
      )
  | inr e ↦
      let pos : 1 ≤ n = ground arith in
      let lt : (s + k) / 64 < 8 = omega arith in
      let j = here (s + k) n in
      let found = field-some d p.now.chunk ((s + k) / 64) lt in
      let one = clear_here d p.now.chunk (s + k) n lt in
      elim (Bool-cases
        (bf_try_clear_mask [] (get_or d ((s + k) / 64) 0) (mask_here (s + k) n)).result) [
          | inl hit ↦
              let d' =
                set d ((s + k) / 64)
                  (bf_try_clear_mask [] (get_or d ((s + k) / 64) 0) (mask_here (s + k) n)).after in
              let cleared' = cleared ++ ((s + k) / 64, mask_here (s + k) n) ∷ [] in
              let (a, now) = when_true d (s + k) j _ _ one hit in
              let rest =
                clear_loop_lem rounds c is s (k + j) (n - j) t d' cleared' (omega arith)
                  (omega arith) (omega arith) (Progress-step n _ p lt a now) in
              let there : s + (k + j) ≡ s + k + j = omega arith in
              (
                rest.0,
                rw (e, found, hit)
                    (subst (λ q. clear_loop rounds d' cleared' q (n - j) ≡ some rest.0) there
                      rest.1),
                rest.2,
              )
          | inr miss ↦
              let (no_run, _) = when_false d (s + k) j _ _ one miss in
              (
                (d, cleared, false),
                rw (e, found, miss),
                (
                  λ a. no_run (λ i le to. ground (arith, a i, p.now.bits i)),
                  Progress-roll_back is p,
                ),
              )
        ]
]

-- A range that crosses a field boundary.
clear_across_lem :
    (c : Chunk)
    → IsChunk c
    → (s n : ℕ) → s + n ≤ 512
    → (r : Chunk × Bool) × (clear_across c s n ≡ some r) × AllOrNothing c s n r
unfolding clear_across
clear_across_lem c is s n fits =
    let start : Progress c s 0 c [] = record {
      was_set = λ i le to. absurd (omega arith);
      now = record { chunk = is; bits = λ i. ground arith };
      masks = tt;
      where_ = λ i. ground arith;
    } in
    let at : s + 0 ≡ s = omega arith in
    let (r, same, ends) =
      clear_loop_lem (n + 1) c is s 0 n n c [] (omega arith) (omega arith) (omega arith) start in
    finish r (subst (λ q. clear_loop (n + 1) c [] q n ≡ some r) at same) ends
  where
    finish :
        (r : Chunk × Cleared × Bool)
        → clear_loop (n + 1) c [] s n ≡ some r
        → LoopEnds c s n r
        → (q : Chunk × Bool) × (clear_across c s n ≡ some q) × AllOrNothing c s n q
    finish (d, cleared, true) same ends = ((d, true), rw (same, clear_across), ends)
    finish (d, cleared, false) same ends =
        ((c, false), rw (same, clear_across, ends.1), (ends.0, refl))

-- A range inside one field.
clear_in_field_lem :
    (c : Chunk)
    → IsChunk c
    → (s n : ℕ) → s % 64 + n ≤ 64
    → s / 64 < 8
    → (r : Chunk × Bool) × (clear_in_field c s n ≡ some r) × AllOrNothing c s n r
unfolding clear_in_field
clear_in_field_lem c is s n fits lt =
    let whole : here s n ≡ n = omega arith in
    (_, rw (field-some c is (s / 64) lt, clear_in_field), rw whole at (clear_here c is s n lt))

-- On a range inside the chunk `try_clear_n` does not fault. It returns `true` exactly when every
-- bit of the range is set; then it clears the range and nothing else. Otherwise the rollback
-- leaves the chunk as it was.
pub try_clear_n_lem :
    (c : Chunk)
    → IsChunk c
    → (s n : ℕ) → s < 512
    → s + n ≤ 512
    → (r : Chunk × Bool) × (try_clear_n c s n ≡ some r) × AllOrNothing c s n r
unfolding try_clear_n
try_clear_n_lem c is s n inside fits = elim (Bool-cases (leb (s % 64 + n) 64)) [
  | inl one ↦
      let (r, same, done) = clear_in_field_lem c is s n (ground arith) (omega arith) in
      (r, rw one same, done)
  | inr more ↦ let (r, same, done) = clear_across_lem c is s n fits in (r, rw more same, done)
]

pub try_clear_n-set :
    (c : Chunk)
    → IsChunk c
    → (s n : ℕ) → s < 512
    → s + n ≤ 512
    → AllSet c s n
    → (d : Chunk) × (try_clear_n c s n ≡ some (d, true)) × IsClearedOn c s n d
try_clear_n-set c is s n inside fits a =
    let (r, same, done) = try_clear_n_lem c is s n inside fits in go r same done
  where
    go :
        (r : Chunk × Bool)
        → try_clear_n c s n ≡ some r
        → AllOrNothing c s n r
        → (d : Chunk) × (try_clear_n c s n ≡ some (d, true)) × IsClearedOn c s n d
    go (d, true) same done = (d, same, done.1)
    go (d, false) same done = absurd (done.0 a)
