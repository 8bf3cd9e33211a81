-- ===== src/Bitmap/Chunk/Find.antt =====
-- src/bitmap.rs, `find_and_clear_n`: the search of a chunk for a run of set bits.
use mimalloc_rs.Prelude.{
  ℕ, suc, zero, ◌+◌, ◌-◌, ◌*◌, ◌/◌, ◌%◌, ◌<◌, ◌≤◌, min, ◌≡◌, refl, sym, ◌∙◌, ap, inl, inr, true,
  false, ◌||◌, Option, none, some, List, [], ◌∷◌, arith, ◌==◌, ltb, leb, Bool-cases, Option-cases,
  subst, length, get_or, set,
}
use mimalloc_rs.Word.Bit.{bit}
use mimalloc_rs.Word.Counts.{run-le-count_ones}
use mimalloc_rs.Bitmap.Field.{Update, bf_find_and_clear_run}
use mimalloc_rs.Bitmap.Field.Runs.{Takes, Takes-lt, bf_find_and_clear_run_lem}
use mimalloc_rs.Bitmap.Chunk.{
  Chunk, find_in_fields, find_spanning, find_and_clear_n_spanning, popcount, find_rest,
  find_and_clear_n,
}
use mimalloc_rs.Bitmap.Chunk.View.{bit_at, IsChunk, AllSet, field-some, bit_at-set, IsChunk-set}
use mimalloc_rs.Bitmap.Chunk.Loops.{is_set_n-cases}
use mimalloc_rs.Bitmap.Chunk.RollBack.{IsClearedOn}
use mimalloc_rs.Bitmap.Chunk.Clear.{try_clear_n-set}

-- A run of `n` bits at `s` is taken from `c`, leaving `d`.
pub record IsTaken (c : Chunk) (n s : ℕ) (d : Chunk) : Type 0 where
  pub fits : s + n ≤ 512
  pub was_set : AllSet c s n
  pub now : IsClearedOn c s n d

-- No run of `n` set bits at `s` or later.
abbrev pub NoRunFrom : Chunk → ℕ → ℕ → Type 0
NoRunFrom c s n = (i : ℕ) → s ≤ i → i + n ≤ 512 → ¬ AllSet c i n

-- What a search from `s` on promises: a run is taken, or there is none and nothing changes.
abbrev pub Search : Chunk → ℕ → ℕ → Chunk × Option ℕ → Type 0
Search c s n (d, none) = NoRunFrom c s n × (d ≡ c)
Search c s n (d, some i) = IsTaken c n i d

-- The fast path looks at single fields: a run is taken, or nothing changes.
abbrev FieldSearch : Chunk → ℕ → Chunk × Option ℕ → Type 0
FieldSearch c n (d, none) = d ≡ c
FieldSearch c n (d, some i) = IsTaken c n i d

field-IsTaken :
    (c : Chunk) (is : IsChunk c) (f n b : ℕ) (u : Update (Option ℕ))
    → f < 8
    → Takes [] n (get_or c f 0) u
    → u.result ≡ some b
    → IsTaken c n (f * 64 + b) (set c f u.after)
field-IsTaken c is f n b u lt takes e =
    let (fits, run, bits) = takes.taken b e in
    record {
      fits = omega arith;
      was_set = λ i le to.
          let same : i / 64 ≡ f = omega arith in
          rw same (ground (arith, takes.observed, run (i % 64)));
      now = record {
        chunk = IsChunk-set c is f u.after lt (Takes-lt takes tt (is.words f));
        bits = λ i. rw (bit_at-set c is f u.after i lt) (elim (Bool-cases (i / 64 == f)) [
          | inl at ↦
              let same : i / 64 ≡ f = ground arith in
              rw at (ground (arith, bits (i % 64), takes.observed, ap (λ g. get_or c g 0) same))
          | inr off ↦ rw off (ground arith)
        ]);
      };
    }

find_in_fields_lem :
    (rounds : ℕ) (c : Chunk) (is : IsChunk c) (f n : ℕ)
    → f + rounds ≤ 8
    → 1 ≤ n
    → n ≤ 64
    → (r : Chunk × Option ℕ) × (find_in_fields rounds c f n ≡ some r) × FieldSearch c n r
unfolding find_in_fields
find_in_fields_lem zero c is f n h pos small = ((c, none), refl, refl)
find_in_fields_lem (suc rounds) c is f n h pos small =
    let lt : f < 8 = omega arith in
    let takes = bf_find_and_clear_run_lem [] n (get_or c f 0) pos small tt (is.words f) in
    elim (Option-cases (bf_find_and_clear_run [] n (get_or c f 0)).result) [
      | inl e ↦
          let (r, same, done) = find_in_fields_lem rounds c is (f + 1) n (omega arith) pos small in
          (r, rw (field-some c is f lt, find_in_fields, e) same, done)
      | inr (b, e) ↦ (
        (set c f (bf_find_and_clear_run [] n (get_or c f 0)).after, some (f * 64 + b)),
        rw (field-some c is f lt, find_in_fields, e),
        field-IsTaken c is f n b _ lt takes e,
      )
    ]

-- A search from the next position, when there is no run at this one.
Search-later :
    (c : Chunk) (s n : ℕ) (r : Chunk × Option ℕ)
    → ¬ AllSet c s n
    → Search c (s + 1) n r
    → Search c s n r
Search-later c s n (d, none) no_run (later, same) = (
  λ i le fits run. elim (Bool-cases (ltb s i)) [
    | inl lt ↦ later i (ground arith) fits run
    | inr ge ↦ let e : i ≡ s = ground arith in no_run (subst (λ q. AllSet c q n) e run)
  ],
  same,
)
Search-later c s n (d, some i) no_run taken = taken

find_spanning_lem :
    (rounds : ℕ) (c : Chunk) (is : IsChunk c) (s n : ℕ)
    → 512 < rounds + s
    → s ≤ 512
    → 1 ≤ n
    → (r : Chunk × Option ℕ) × (find_spanning rounds c s n ≡ some r) × Search c s n r
unfolding find_spanning
find_spanning_lem zero c is s n h le pos = absurd (omega arith)
find_spanning_lem (suc rounds) c is s n h le pos = elim (Bool-cases (leb (s + n) 512)) [
  | inr e ↦ ((c, none), rw e, (λ i le to. absurd (ground arith), refl))
  | inl e ↦
      let fits : s + n ≤ 512 = ground arith in
      elim (is_set_n-cases c is s n fits) [
        | inl (same, a) ↦
            let (d, got, now) = try_clear_n-set c is s n (omega arith) fits a in
            (
              (d, some s),
              rw (e, find_spanning, same, got),
              record { fits = fits; was_set = a; now = now },
            )
        | inr (same, no_run) ↦
            let (r, got, done) =
              find_spanning_lem rounds c is (s + 1) n (omega arith) (omega arith) pos in
            (r, rw (e, find_spanning, same) got, Search-later c s n r no_run done)
      ]
]

bit_at-head : (w : ℕ) (c : List ℕ) (i : ℕ) → i < 64 → bit_at (w ∷ c) i ≡ bit w i
bit_at-head w c i lt =
    let q : i / 64 ≡ 0 = omega arith in let r : i % 64 ≡ i = omega arith in rw (q, r)

bit_at-tail : (w : ℕ) (c : List ℕ) (i : ℕ) → bit_at (w ∷ c) (i + 64) ≡ bit_at c i
bit_at-tail w c i =
    let q : (i + 64) / 64 ≡ suc (i / 64) = omega arith in
    let r : (i + 64) % 64 ≡ i % 64 = omega arith in rw (q, r)

-- A run inside the chunk is no longer than the number of set bits.
run-le-popcount : (c : Chunk) (s n : ℕ) → s + n ≤ 64 * length c → AllSet c s n → n ≤ popcount c
unfolding popcount
run-le-popcount [] s n h run = omega arith
run-le-popcount (w ∷ c) s n h run = elim (Bool-cases (leb 64 s)) [
  | inl later ↦
      let rest =
        run-le-popcount c (s - 64) n (ground arith)
          (λ i le to. sym (bit_at-tail w c i) ∙ run (i + 64) (ground arith) (ground arith)) in
      omega arith
  | inr now ↦
      let k = min n (64 - s) in
      let low =
        run-le-count_ones 64 w s k (ground arith)
          (λ i le to. sym (bit_at-head w c i (ground arith)) ∙ run i le (omega arith)) in
      let rest =
        run-le-popcount c 0 (n - k) (ground arith)
          (λ i le to. sym (bit_at-tail w c i) ∙ run (i + 64) (ground arith) (omega arith)) in
      omega arith
]

find_rest_lem :
    (c : Chunk)
    → IsChunk c
    → (n : ℕ) → 1 ≤ n
    → (r : Chunk × Option ℕ) × (find_rest c n ≡ some r) × Search c 0 n r
unfolding find_rest find_and_clear_n_spanning
find_rest_lem c is n pos = elim (Bool-cases (ltb (popcount c) n)) [
  | inl few ↦ (
    (c, none),
    rw few,
    (
      λ i le fits run.
          absurd (ground (arith, is.fields, run-le-popcount c i n (omega (arith, is.fields)) run)),
      refl,
    ),
  )
  | inr enough ↦
      let (r, same, done) = find_spanning_lem 513 c is 0 n (omega arith) (omega arith) pos in
      (r, rw enough same, done)
]

-- For 1 to 512 bits the search of a chunk does not fault. It takes a run of `n` set bits inside
-- the chunk, clearing exactly that run, and fails only if the chunk has no such run; then it
-- leaves the chunk as it was.
pub find_and_clear_n_lem :
    (c : Chunk)
    → IsChunk c
    → (n : ℕ) → 1 ≤ n
    → n ≤ 512
    → (r : Chunk × Option ℕ) × (find_and_clear_n c n ≡ some r) × Search c 0 n r
unfolding find_and_clear_n
find_and_clear_n_lem c is n pos small =
    let e : (n == 0 || ltb 512 n) ≡ false = ground arith in
    elim (Bool-cases (leb n 64)) [
      | inr wide ↦ let (r, same, done) = find_rest_lem c is n pos in (r, rw (e, wide) same, done)
      | inl narrow ↦
          let (r, same, done) = find_in_fields_lem 8 c is 0 n (omega arith) pos (ground arith) in
          go r narrow same done
    ]
  where
    go :
        (r : Chunk × Option ℕ)
        → leb n 64 ≡ true
        → find_in_fields 8 c 0 n ≡ some r
        → FieldSearch c n r
        → (q : Chunk × Option ℕ) × (find_and_clear_n c n ≡ some q) × Search c 0 n q
    go (d, some i) narrow same done = (
      (d, some i),
      (let e : (n == 0 || ltb 512 n) ≡ false = ground arith in
          rw (e, narrow, find_and_clear_n, same)),
      done,
    )
    go (d, none) narrow same done =
        let (r, got, found) = find_rest_lem c is n pos in
        (
          r,
          (let e : (n == 0 || ltb 512 n) ≡ false = ground arith in
              rw (e, narrow, find_and_clear_n, same, done) got),
          found,
        )
