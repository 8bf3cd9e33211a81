-- ===== src/Bitmap/Field/Runs.antt =====
-- src/bitmap.rs, the search for a run of set bits in one field, and its clearing.
use native.Mathlib.Nat.{pow-le-pow_right}
use mimalloc_rs.Prelude.{
  ℕ, suc, zero, ◌+◌, ◌-◌, ◌^◌, ◌<◌, ◌≤◌, bit_and, ◌≡◌, refl, ◌↔◌, inl, inr, false, ◌&&◌, not,
  Option, none, some, List, [], ◌∷◌, arith, ◌==◌, ltb, leb, within, Bool-cases, Option-cases,
  ==_iff,
}
use mimalloc_rs.Word.{◌<<<◌, complement, count_ones}
use mimalloc_rs.Word.Bit.{bit, bit_high, lt_of_bit}
use mimalloc_rs.Word.Counts.{RunSet, run-le-count_ones}
use mimalloc_rs.Word.Masks.{bit-mask, Covers, bit_and-eq_mask_iff, bit-clear}
use mimalloc_rs.Bitmap.Field.{
  Attempt, Update, update, mask_n, find_shift, find_run, run_loop, bf_find_and_clear_run,
}
use mimalloc_rs.Bitmap.Field.Laws.{Observed, Observed-here, Observed-lt, AllWords, cas_cases}

pub mask_n-eq : (n : ℕ) → n ≤ 64 → mask_n n ≡ 2 ^ n - 1
unfolding mask_n
mask_n-eq n h = elim (Bool-cases (n == 64)) [
  | inl e ↦ let d : n ≡ 64 = ground arith in rw d
  | inr e ↦ rw e (
      let le : 2 ^ n ≤ 2 ^ 63 = pow-le-pow_right (omega arith) {i = n} {j = 63} (ground arith) in
      omega arith)
]

-- The bits of the mask of `n` bits at `b`.
pub bit-mask_n : (n b i : ℕ) → b + n ≤ 64 → bit (mask_n n <<< b) i ≡ within b (b + n) i
bit-mask_n n b i h = rw (mask_n-eq n (omega arith)) (ground (arith, bit-mask n b i))

pub mask_n-lt : (n b : ℕ) → mask_n n <<< b < 2 ^ 64
mask_n-lt n b = omega arith

pub Covers-mask_n_iff : (w n b : ℕ) → b + n ≤ 64 → Covers w (mask_n n <<< b) ↔ RunSet w b n
Covers-mask_n_iff w n b h = (
  λ c i le lt. c i (ground (arith, bit-mask_n n b i)),
  λ r i m. r i (ground (arith, bit-mask_n n b i)) (ground (arith, bit-mask_n n b i)),
)

-- No run of `n` set bits starts at or after `s` and fits the field.
abbrev pub NoRun : ℕ → ℕ → ℕ → Type 0
NoRun w s n = (b : ℕ) → s ≤ b → b + n ≤ 64 → ¬ RunSet w b n

abbrev Found : ℕ → ℕ → ℕ → Option ℕ → Type 0
Found w s n none = NoRun w s n
Found w s n (some b) = (s ≤ b) × (b + n ≤ 64) × RunSet w b n

Found-later : (w s n : ℕ) (o : Option ℕ) → ¬ RunSet w s n → Found w (s + 1) n o → Found w s n o
Found-later w s n none miss no_run = λ b le fits run. elim (Bool-cases (ltb s b)) [
  | inl lt ↦ no_run b (ground arith) fits run
  | inr ge ↦ let e : b ≡ s = ground arith in miss (rw e at run)
]
Found-later w s n (some b) miss (le, fits, run) = (omega arith, fits, run)

find_shift_lem : (rounds n w s : ℕ) → 64 < rounds + s → Found w s n (find_shift rounds n w s)
unfolding find_shift
find_shift_lem zero n w s h = λ b le fits. absurd (omega arith)
find_shift_lem (suc rounds) n w s h = elim (Bool-cases (leb (s + n) 64)) [
  | inr e ↦ rw e (λ b le fits. absurd (ground arith))
  | inl e ↦
      let fits : s + n ≤ 64 = ground arith in
      elim (Bool-cases (bit_and w (mask_n n <<< s) == (mask_n n <<< s))) [
        | inl hit ↦
            let c = (bit_and-eq_mask_iff w _).0 ((==_iff _ _).0 hit) in
            rw (e, hit) (omega arith, fits, (Covers-mask_n_iff w n s fits).0 c)
        | inr miss ↦
            rw (e, miss)
              (Found-later w s n _
                (λ run. ground (
                  arith,
                  (bit_and-eq_mask_iff w (mask_n n <<< s)).1 ((Covers-mask_n_iff w n s fits).1 run),
                ))
                (find_shift_lem rounds n w (s + 1) (omega arith)))
      ]
]

find_run_lem : (n w : ℕ) → Found w 0 n (find_run n w)
unfolding find_run
find_run_lem n w = elim (Bool-cases (ltb (count_ones 64 w) n)) [
  | inl few ↦ rw few (λ b le fits run. absurd (ground (arith, run-le-count_ones 64 w b n fits run)))
  | inr enough ↦ rw enough (find_shift_lem 65 n w 0 (omega arith))
]

-- What the search for a run of `n` bits promises: the run that it returns fits the field, was set
-- and is cleared, and no other bit changes; without a result there was no such run, and nothing
-- is written.
pub record Takes (ts : List Attempt) (n old : ℕ) (u : Update (Option ℕ)) : Type 0 where
  pub observed : Observed ts old u.before
  pub missing : u.result ≡ none → NoRun u.before 0 n × (u.after ≡ u.before)
  pub taken :
      (b : ℕ)
      → u.result ≡ some b
      → (b + n ≤ 64)
        × RunSet u.before b n
        × ((i : ℕ) → bit u.after i ≡ (bit u.before i && not (within b (b + n) i)))

Takes-none : (ts : List Attempt) (n old : ℕ) → NoRun old 0 n → Takes ts n old (update old old none)
Takes-none ts n old no_run = record {
  observed = Observed-here ts old;
  missing = λ _. (no_run, refl);
  taken = λ b e. cc;
}

Takes-some :
    (ts : List Attempt) (n old b : ℕ)
    → old < 2 ^ 64
    → b + n ≤ 64
    → RunSet old b n
    → Takes ts n old (update old (bit_and old (complement (mask_n n <<< b))) (some b))
Takes-some ts n old b ho fits run = record {
  observed = Observed-here ts old;
  missing = λ e. cc;
  taken = λ c e.
      let same : b ≡ c = cc in
      rw (← same) (
        fits,
        run,
        λ i.
            ground
              (arith, bit-clear old (mask_n n <<< b) i ho (mask_n-lt n b), bit-mask_n n b i fits),
      );
}

run_loop_lem :
    (ts : List Attempt) (n old : ℕ)
    → AllWords ts
    → old < 2 ^ 64
    → Takes ts n old (run_loop ts n old)
unfolding run_loop
run_loop_lem [] n old a h = elim (Option-cases (find_run n old)) [
  | inl e ↦ rw (e, run_loop) (Takes-none [] n old (rw e at (find_run_lem n old)))
  | inr (b, e) ↦
      let (_, fits, run) = rw e at (find_run_lem n old) in
      rw (e, run_loop) (Takes-some [] n old b h fits run)
]
run_loop_lem (t ∷ ts) n old a h = elim (Option-cases (find_run n old)) [
  | inl e ↦ rw (e, run_loop) (Takes-none (t ∷ ts) n old (rw e at (find_run_lem n old)))
  | inr (b, e) ↦ elim (cas_cases t old) [
    | inl (done, _) ↦
        let (_, fits, run) = rw e at (find_run_lem n old) in
        rw (e, run_loop, done) (Takes-some (t ∷ ts) n old b h fits run)
    | inr lost ↦
        rw (e, run_loop, lost)
          (let rest = run_loop_lem ts n t.seen a.1 a.0 in
            record { observed = inr rest.observed; missing = rest.missing; taken = rest.taken })
  ]
]

-- Whatever words the other threads write, a search for 1 to 64 bits takes a run that is set at the
-- step that decides, clears exactly that run, and fails only if the field then holds no such run.
pub bf_find_and_clear_run_lem :
    (ts : List Attempt) (n old : ℕ)
    → 1 ≤ n
    → n ≤ 64
    → AllWords ts
    → old < 2 ^ 64
    → Takes ts n old (bf_find_and_clear_run ts n old)
unfolding bf_find_and_clear_run
bf_find_and_clear_run_lem ts n old pos small a h =
    let e : (n == 0) ≡ false = ground arith in
    let d : ltb 64 n ≡ false = ground arith in rw (e, d) (run_loop_lem ts n old a h)

pub Takes-lt :
    {ts : List Attempt} {n old : ℕ} {u : Update (Option ℕ)}
    → Takes ts n old u
    → AllWords ts
    → old < 2 ^ 64
    → u.after < 2 ^ 64
Takes-lt {ts} {u} is a ho =
    let small = Observed-lt ts a ho is.observed in
    elim (Option-cases u.result) [
      | inl e ↦ rw ((is.missing e).1) small
      | inr (b, e) ↦
          let (_, _, bits) = is.taken b e in
          lt_of_bit 64 u.after (λ i le. ground (arith, bits i, bit_high 64 u.before i small le))
    ]
