-- ===== src/Bitmap/Map/Find.antt =====
-- src/bitmap.rs, `try_find_and_clear_n` for runs of at most one chunk.
use native.Mathlib.Nat.{mod-lt, mod-eq_of_lt, mod-eq-sub-mod}
use mimalloc_rs.Prelude.{
  ℕ, suc, zero, ◌+◌, ◌-◌, ◌*◌, ◌/◌, ◌%◌, ◌<◌, ◌≤◌, ◌≡◌, refl, ◌∙◌, ap, inl, inr, true, Option, none,
  some, arith, ◌==◌, leb, if◌then◌else◌, Bool-cases, Bool-ext, subst, get_or, set, length-set,
  set-get_or,
}
use mimalloc_rs.Word.{◌<<<◌}
use mimalloc_rs.Bitmap.Field.Laws.{bf_all_set_iff}
use mimalloc_rs.Bitmap.Chunk
use mimalloc_rs.Bitmap.Chunk.{Chunk}
use mimalloc_rs.Bitmap.Chunk.View.{bit_at, IsChunk, AllSet, field-some}
use mimalloc_rs.Bitmap.Chunk.Find.{Search, find_and_clear_n_lem}
use mimalloc_rs.Bitmap.Map.{Bitmap, chunk_count, put, find_in_chunk, find_chunks, find_small}
use mimalloc_rs.Bitmap.Map.View.{
  chunk_at, IsBitmap, chunk-some, put-IsBitmap, bit-one, chunkmap_clear_if_empty_lem,
}
use mimalloc_rs.Bitmap.Map.Update.{RangeIs, ClearedOn, RangeIs-iff, bit_of-cleared}

-- The test of one bit of a chunk.
pub chunk_is_set_lem :
    (c : Chunk) → IsChunk c → (i : ℕ) → i < 512 → Chunk.is_set c i ≡ some (bit_at c i)
unfolding Chunk.is_set
chunk_is_set_lem c is i h =
    let w = get_or c (i / 64) 0 in
    let j = i % 64 in
    let one = bf_all_set_iff w (1 <<< (i % 64)) in
    let small : i % 64 < 64 = omega arith in
    rw (field-some c is (i / 64) (omega arith), Chunk.is_set)
      (ap some (
        Bool-ext _ _ (λ e. (one.0 e) (i % 64) (ground (arith, bit-one (i % 64) (i % 64) small)))
          (λ e. one.1 (λ k at.
            let same : k ≡ i % 64 = ground (arith, bit-one (i % 64) k small) in rw same e))))

-- A run of `n` bits at `idx`, inside one chunk, is taken from `m`, leaving `m'`.
pub record IsTakenFrom (m : Bitmap) (n idx : ℕ) (m' : Bitmap) : Type 0 where
  pub chunk : idx / 512 < chunk_count m
  pub fits : idx % 512 + n ≤ 512
  pub was_set : RangeIs true m idx n
  pub now : ClearedOn m idx n m'

-- What a search promises.
abbrev pub Finds : Bitmap → ℕ → (ℕ → Type 0) → Bitmap × Option ℕ → Type 0
Finds m n Looked (m', some idx) = IsTakenFrom m n idx m'
Finds m n Looked (m', none) =
    (m' ≡ m)
    × ((c : ℕ) → c < chunk_count m → Looked c → (b : ℕ) → b + n ≤ 512 → ¬ AllSet (chunk_at m c) b n)

find_in_chunk_lem :
    (m : Bitmap) (c n : ℕ)
    → IsBitmap m
    → c < chunk_count m
    → 1 ≤ n
    → n ≤ 512
    → (r : Bitmap × Option ℕ) × (find_in_chunk m c n ≡ some r)
      × IsBitmap r.0
      × Finds m n (λ e. e ≡ c) r
unfolding find_in_chunk
find_in_chunk_lem m c n is h pos small =
    let (r, got, done) = find_and_clear_n_lem (chunk_at m c) (is.chunks c) n pos small in
    go r got done
  where
    go :
        (r : Chunk × Option ℕ)
        → Chunk.find_and_clear_n (chunk_at m c) n ≡ some r
        → Search (chunk_at m c) 0 n r
        → (q : Bitmap × Option ℕ) × (find_in_chunk m c n ≡ some q)
          × IsBitmap q.0
          × Finds m n (λ e. e ≡ c) q
    go (d, none) got (no_run, same) =
        let kept : put m c d ≡ m =
          ap (λ q. record m { chunks = set m.chunks c q }) same
          ∙ ap (λ q. record m { chunks = q }) (set-get_or m.chunks c Chunk.zeroed) in
        (
          (m, none),
          rw (chunk-some m c h, find_in_chunk, got) (ap (λ q. some (q, none)) kept),
          is,
          (refl, λ e lt at b fits. rw at (no_run b (omega arith) fits)),
        )
    go (d, some b) got taken =
        let idx = c * 512 + b in
        let inside : b < 512 = omega (arith, taken.fits) in
        let q : (c * 512 + b) / 512 ≡ c = omega arith in
        let r : (c * 512 + b) % 512 ≡ b = omega arith in
        let fits : (c * 512 + b) % 512 + n ≤ 512 = omega (arith, taken.fits) in
        let at : (c * 512 + b) / 512 < chunk_count m = omega arith in
        let kept =
          put-IsBitmap d is h taken.now.chunk (λ j set. ground (arith, taken.now.bits j)) in
        let (m', done, ok, same) =
          chunkmap_clear_if_empty_lem (put m c d) c kept (omega (arith, length-set m.chunks c d)) in
        (
          (m', some (c * 512 + b)),
          rw (chunk-some m c h, find_in_chunk, got, done),
          ok,
          record {
            chunk = at;
            fits = fits;
            was_set = (RangeIs-iff true m (c * 512 + b) n fits).0 (rw (q, r) taken.was_set);
            now = bit_of-cleared m m' (c * 512 + b) n d at fits (rw (q, r) taken.now) (rw q same);
          },
        )

-- The chunks that the loop looks at from round `k` on.
abbrev pub Visits : Bitmap → ℕ → ℕ → ℕ → ℕ → Type 0
Visits m start k rounds c = (j : ℕ) × (k ≤ j) × (j < k + rounds) × ((start + j) % chunk_count m ≡ c)

Finds-next :
    (m : Bitmap) (start k rounds n : ℕ) (r : Bitmap × Option ℕ)
    → ((b : ℕ) → b + n ≤ 512 → ¬ AllSet (chunk_at m ((start + k) % chunk_count m)) b n)
    → Finds m n (Visits m start (k + 1) rounds) r
    → Finds m n (Visits m start k (suc rounds)) r
Finds-next m start k rounds n (m', some idx) no_run found = found
Finds-next m start k rounds n (m', none) no_run (same, rest) = (
  same,
  λ c lt (j, le, to, at) b fits run. elim (Bool-cases (j == k)) [
    | inl now ↦
        let e : j ≡ k = ground arith in
        let here : (start + k) % chunk_count m ≡ c =
          subst (λ t. (start + t) % chunk_count m ≡ c) e at in
        no_run b fits (rw here run)
    | inr later ↦ rest c lt (j, ground arith, omega arith, at) b fits run
  ],
)

find_chunks_lem :
    (rounds : ℕ) (m : Bitmap) (start k n : ℕ)
    → IsBitmap m
    → 1 ≤ n
    → n ≤ 512
    → (r : Bitmap × Option ℕ) × (find_chunks rounds m start k n ≡ some r)
      × IsBitmap r.0
      × Finds m n (Visits m start k rounds) r
unfolding find_chunks
find_chunks_lem zero m start k n is pos small =
    ((m, none), refl, is, (refl, λ c lt (j, le, to, at) b fits run. absurd (omega arith)))
find_chunks_lem (suc rounds) m start k n is pos small =
    let rest = find_chunks_lem rounds m start (k + 1) n is pos small in
    elim (Bool-cases (bit_at m.chunkmap c)) [
      | inr off ↦ (
        rest.0,
        rw (chunk_is_set_lem m.chunkmap is.map c (omega (arith, is.few_chunks)), find_chunks, off)
            rest.1,
        rest.2,
        Finds-next m start k rounds n rest.0
            (λ b fits run.
              absurd (ground (arith, is.covered c b lt (run b (omega arith) (omega arith)))))
            rest.3,
      )
      | inl on ↦
          let (r, got, ok, found) = find_in_chunk_lem m c n is lt pos small in
          go rest on r got ok found
    ]
  where
    c : ℕ
    c = (start + k) % chunk_count m

    lt : c < chunk_count m
    lt = mod-lt (start + k) is.some_chunk

    Result : Type 0
    Result =
        (r : Bitmap × Option ℕ) × (find_chunks (suc rounds) m start k n ≡ some r)
        × IsBitmap r.0
        × Finds m n (Visits m start k (suc rounds)) r

    go :
        (r : Bitmap × Option ℕ) × (find_chunks rounds m start (k + 1) n ≡ some r)
          × IsBitmap r.0
          × Finds m n (Visits m start (k + 1) rounds) r
        → bit_at m.chunkmap c ≡ true
        → (r : Bitmap × Option ℕ) → find_in_chunk m c n ≡ some r
        → IsBitmap r.0
        → Finds m n (λ e. e ≡ c) r
        → Result
    go rest on (m', some idx) got ok found = (
      (m', some idx),
      rw (
        chunk_is_set_lem m.chunkmap is.map c (omega (arith, is.few_chunks)),
        find_chunks,
        on,
        got,
      ),
      ok,
      found,
    )
    go rest on (m', none) got ok (same, no_run) = (
      rest.0,
      rw (chunk_is_set_lem m.chunkmap is.map c (omega (arith, is.few_chunks)), find_chunks, on, got)
          (ap (λ q. find_chunks rounds q start (k + 1) n) same ∙ rest.1),
      rest.2,
      Finds-next m start k rounds n rest.0 (no_run c lt refl) rest.3,
    )

-- Every chunk is visited in one round trip from any start.
pub visit :
    (m : Bitmap) (start c : ℕ)
    → start < chunk_count m
    → c < chunk_count m
    → Visits m start 0 (chunk_count m) c
visit m start c hs hc = elim (Bool-cases (leb start c)) [
  | inl le ↦
      let e : start + (c - start) ≡ c = ground arith in
      (c - start, omega arith, omega arith, rw e (mod-eq_of_lt hc))
  | inr gt ↦
      let e : start + (c + chunk_count m - start) ≡ c + chunk_count m = omega arith in
      let wrap : (c + chunk_count m) % chunk_count m
          ≡ (c + chunk_count m - chunk_count m) % chunk_count m =
        mod-eq-sub-mod (omega arith) in
      let back : c + chunk_count m - chunk_count m ≡ c = omega arith in
      (
        c + chunk_count m - start,
        omega arith,
        ground arith,
        rw e (wrap ∙ rw back (mod-eq_of_lt hc)),
      )
]

-- What a search of the whole bitmap promises.
abbrev pub FindsRun : Bitmap → ℕ → Bitmap × Option ℕ → Type 0
FindsRun m n (m', some idx) = IsTakenFrom m n idx m'
FindsRun m n (m', none) =
    (m' ≡ m)
    × ((idx : ℕ) → idx / 512 < chunk_count m → idx % 512 + n ≤ 512 → ¬ RangeIs true m idx n)

-- For 1 to 512 bits and any thread sequence number, the search of a bitmap that satisfies the
-- invariant does not fault and keeps the invariant. It takes a run of `n` set bits inside one
-- chunk and clears exactly that run; it fails only if no chunk has such a run, and then nothing
-- changes.
pub find_small_lem :
    (m : Bitmap) (n tseq : ℕ)
    → IsBitmap m
    → 1 ≤ n
    → n ≤ 512
    → (r : Bitmap × Option ℕ) × (find_small m n tseq ≡ some r) × IsBitmap r.0 × FindsRun m n r
unfolding find_small
find_small_lem m n tseq is pos small =
    let (r, got, ok, found) = find_chunks_lem (chunk_count m) m start 0 n is pos small in
    (r, got, ok, finish r found)
  where
    start : ℕ
    start = if chunk_count m == 0 then 0 else tseq % chunk_count m

    finish :
        (r : Bitmap × Option ℕ) → Finds m n (Visits m start 0 (chunk_count m)) r → FindsRun m n r
    finish (m', some idx) found = found
    finish (m', none) (same, no_run) = (
      same,
      λ idx lt fits run.
          no_run (idx / 512) lt
            (visit m start (idx / 512) (ground (arith, mod-lt tseq is.some_chunk)) lt) (idx % 512)
            fits ((RangeIs-iff true m idx n fits).1 run),
    )
