-- ===== src/Bitmap/Wide/Claim.antt =====
-- src/bitmap.rs, `try_find_and_claim`.
use native.Mathlib.Nat.{mod-lt}
use mimalloc_rs.Prelude.{
  ℕ, zero, suc, ◌+◌, ◌*◌, ◌/◌, ◌%◌, ◌<◌, ◌≤◌, ◌≡◌, refl, sym, subst, ap, ◌∙◌, ◌⊎◌, inl, inr, Bool,
  true, false, Option, some, none, arith, ◌==◌, Bool-cases, List, [], ◌∷◌, ◌++◌, count,
  count-append,
}
use mimalloc_rs.Bitmap.Chunk
use mimalloc_rs.Bitmap.Chunk.View.{bit_at}
use mimalloc_rs.Bitmap.Map.{Bitmap, chunk_count, clear_n}
use mimalloc_rs.Bitmap.Map.View.{IsBitmap, bit_of, chunk_at, chunk-some}
use mimalloc_rs.Bitmap.Map.Counts.{clear_n-count}
use mimalloc_rs.Bitmap.Map.Update.{ClearedOn, ClearsRange, bitmap_clear_n_lem}
use mimalloc_rs.Bitmap.Map.Find.{chunk_is_set_lem, Visits, visit}
use mimalloc_rs.Bitmap.Wide.{Claimed, claim_bits, claim_chunks, try_find_and_claim}

module _ {S : Type 0} (claim : ℕ → S → S × Bool) where
  -- Asked for the bits `asked`, one after the other from the state `s` on, `claim` refuses each of
  -- them and leaves `t`.
  abbrev pub Refusals : S → List ℕ → S → Type 0
  Refusals s [] t = t ≡ s
  Refusals s (idx ∷ asked) t = ((claim idx s).1 ≡ false) × Refusals (claim idx s).0 asked t

  -- How a run ends whose refusals have led to the state `t`.
  abbrev pub Ends : Bitmap → (ℕ → Type 0) → List ℕ → S → Bitmap → S → Option ℕ → Type 0
  Ends m Looked asked t m' s' (some idx) =
      (idx < chunk_count m * 512)
      × (bit_of m idx ≡ true)
      × (claim idx t ≡ (s', true))
      × ClearedOn m idx 1 m'
      × (chunk_count m' ≡ chunk_count m)
  Ends m Looked asked t m' s' none =
      (m' ≡ m) × (s' ≡ t) × ((i : ℕ) → Looked i → bit_of m i ≡ true → 1 ≤ count i asked)

  -- A run from the state `s`. It asks for set bits only, and up to its end `claim` refuses them all.
  -- If it takes a bit, then that bit is set, is granted in the state where the refusals have led,
  -- and is cleared alone. If it takes none, then nothing has changed, every set bit that it looks at
  -- has been asked for, and the state is the one where the refusals have led.
  abbrev pub Claims : Bitmap → S → (ℕ → Type 0) → Bitmap × S × Option ℕ → Type 0
  Claims m s Looked (m', s', found) =
      (asked : List ℕ) × (t : S) × Refusals s asked t
      × ((i : ℕ) → 1 ≤ count i asked → bit_of m i ≡ true)
      × Ends m Looked asked t m' s' found

  abbrev Outcome : Bitmap → S → (ℕ → Type 0) → Claimed claim → Type 0
  Outcome m s Looked o =
      (r : Bitmap × S × Option ℕ) × (o ≡ some r) × IsBitmap r.0 × Claims m s Looked r

  Refusals-append :
      (s : S) (xs : List ℕ) (t : S) (ys : List ℕ) (u : S)
      → Refusals s xs t
      → Refusals t ys u
      → Refusals s (xs ++ ys) u
  Refusals-append s [] t ys u e rest = subst (λ z. Refusals z ys u) e rest
  Refusals-append s (x ∷ xs) t ys u (not_won, more) rest =
      (not_won, Refusals-append (claim x s).0 xs t ys u more rest)

  -- A run after the refusals of `before`, which look at what the run itself does not.
  Claims-after :
      (m : Bitmap) (s t : S) (before : List ℕ) (L Rest : ℕ → Type 0) (r : Bitmap × S × Option ℕ)
      → Refusals s before t
      → ((i : ℕ) → 1 ≤ count i before → bit_of m i ≡ true)
      → ((i : ℕ) → L i → bit_of m i ≡ true → Rest i ⊎ (1 ≤ count i before))
      → Claims m t Rest r
      → Claims m s L r
  Claims-after m s t before L Rest (m', s', found) refused set split
        (asked, u, refused', set', ends) =
      (
        before ++ asked,
        u,
        Refusals-append s before t asked u refused refused',
        λ i some_. elim (Bool-cases (count i before == 0)) [
          | inl e ↦ set' i (ground (arith, count-append i before asked, some_))
          | inr e ↦ set i (ground arith)
        ],
        ended found ends,
      )
    where
      ended :
          (found : Option ℕ)
          → Ends m Rest asked u m' s' found
          → Ends m L (before ++ asked) u m' s' found
      ended (some idx) e = e
      ended none (same, at, all) = (
        same,
        at,
        λ i look on. elim (split i look on) [
          | inl rest ↦ omega (arith, count-append i before asked, all i rest on)
          | inr here ↦ omega (arith, count-append i before asked, here)
        ],
      )

  -- The bits of chunk `c` that the rounds from `b` on look at.
  abbrev InChunk : ℕ → ℕ → ℕ → ℕ → Type 0
  InChunk c b rounds i = (i / 512 ≡ c) × (b ≤ i % 512) × (i % 512 < b + rounds)

  claim_bits_lem :
      (rounds : ℕ) (m : Bitmap) (s : S) (c b : ℕ)
      → IsBitmap m
      → c < chunk_count m
      → b + rounds ≤ 512
      → Outcome m s (InChunk c b rounds) (claim_bits claim rounds m s c b)
  unfolding claim_bits
  claim_bits_lem zero m s c b is lt fits = (
    (m, s, none),
    refl,
    is,
    (
      [],
      s,
      refl,
      λ i z. absurd (omega arith),
      (refl, refl, λ i (at, le, to) set. absurd (omega arith)),
    ),
  )
  claim_bits_lem (suc rounds) m s c b is lt fits =
      let looked = chunk_is_set_lem (chunk_at m c) (is.chunks c) b (omega arith) in
      elim (Bool-cases (bit_at (chunk_at m c) b)) [
        | inr off ↦
            let (r, got, ok, claims) = claim_bits_lem rounds m s c (b + 1) is lt (omega arith) in
            (
              r,
              rw (chunk-some m c lt, claim_bits, looked, off) got,
              ok,
              Claims-after m s s [] _ (InChunk c (b + 1) rounds) r refl
                  (λ i z. absurd (omega arith))
                  (λ i (at, le, to) set. elim (Bool-cases (i % 512 == b)) [
                    | inl e ↦
                        let q : i % 512 ≡ b = ground arith in
                        let t : bit_at (chunk_at m c) b ≡ true = rw⁻¹ (at, q) set in
                        absurd (ground (arith, t, off))
                    | inr e ↦ inl (at, ground arith, omega arith)
                  ])
                  claims,
            )
        | inl on ↦
            go looked on (claim idx s) refl
              (claim_bits_lem rounds m (claim idx s).0 c (b + 1) is lt (omega arith))
      ]
    where
      idx : ℕ
      idx = c * 512 + b

      go :
          Chunk.is_set (chunk_at m c) b ≡ some (bit_at (chunk_at m c) b)
          → bit_at (chunk_at m c) b ≡ true
          → (a : S × Bool) → claim idx s ≡ a
          → Outcome m a.0 (InChunk c (b + 1) rounds) (claim_bits claim rounds m a.0 c (b + 1))
          → Outcome m s (InChunk c b (suc rounds)) (claim_bits claim (suc rounds) m s c b)
      go looked on (s', false) e (r, got, ok, claims) = (
        r,
        rw (chunk-some m c lt, claim_bits, looked, on, e)
            (subst (λ q. claim_bits claim rounds m q.0 c (b + 1) ≡ some r) (sym e) got),
        ok,
        Claims-after m s s' (idx ∷ []) _ (InChunk c (b + 1) rounds) r
            (ap (λ (q : S × Bool). q.1) e, ap (λ (q : S × Bool). q.0) (sym e))
            (λ i z.
              let w : i ≡ c * 512 + b = ground arith in
              let q : (c * 512 + b) / 512 ≡ c = omega arith in
              let t : (c * 512 + b) % 512 ≡ b = omega arith in rw w (rw (q, t) on))
            (λ i (at, le, to) set. elim (Bool-cases (i % 512 == b)) [
              | inl q ↦ inr (ground arith)
              | inr q ↦ inl (at, ground arith, omega arith)
            ])
            claims,
      )
      go looked on (s', true) e rest =
          let q : (c * 512 + b) / 512 ≡ c = omega arith in
          let t : (c * 512 + b) % 512 ≡ b = omega arith in
          let set : bit_of m (c * 512 + b) ≡ true = rw (q, t) on in
          let (r, cleared, ok, all) =
            bitmap_clear_n_lem m (c * 512 + b) 1 is (omega (arith, lt)) (omega arith) in
          won looked on s' e set r cleared ok all
        where
          won :
              Chunk.is_set (chunk_at m c) b ≡ some (bit_at (chunk_at m c) b)
              → bit_at (chunk_at m c) b ≡ true
              → (s' : S) → claim (c * 512 + b) s ≡ (s', true)
              → bit_of m (c * 512 + b) ≡ true
              → (r : Bitmap × Bool) → clear_n m (c * 512 + b) 1 ≡ some r
              → IsBitmap r.0
              → ClearsRange m (c * 512 + b) 1 r
              → Outcome m s (InChunk c b (suc rounds)) (claim_bits claim (suc rounds) m s c b)
          won looked on s' e set (m', true) cleared ok (run, now) = (
            (m', s', some (c * 512 + b)),
            rw (chunk-some m c lt, claim_bits, looked, on, e, cleared)
                (ap (λ q. some (m', q.0, some (c * 512 + b))) e),
            ok,
            (
              [],
              s,
              refl,
              λ i z. absurd (omega arith),
              (omega (arith, lt), set, e, now, clear_n-count m m' (c * 512 + b) 1 true cleared),
            ),
          )
          won looked on s' e set (m', false) cleared ok (not_set, same) =
              absurd (not_set (λ i lo hi. let w : i ≡ c * 512 + b = omega arith in rw w set))

  -- The bits whose chunk the rounds from `k` on look at.
  abbrev InVisits : Bitmap → ℕ → ℕ → ℕ → ℕ → Type 0
  InVisits m start k rounds i = Visits m start k rounds (i / 512)

  claim_chunks_lem :
      (rounds : ℕ) (m : Bitmap) (s : S) (start k : ℕ)
      → IsBitmap m
      → Outcome m s (InVisits m start k rounds) (claim_chunks claim rounds m s start k)
  unfolding claim_chunks
  claim_chunks_lem zero m s start k is = (
    (m, s, none),
    refl,
    is,
    (
      [],
      s,
      refl,
      λ i z. absurd (omega arith),
      (refl, refl, λ i (j, le, to, at) set. absurd (omega arith)),
    ),
  )
  claim_chunks_lem (suc rounds) m s start k is = elim (Bool-cases (bit_at m.chunkmap c)) [
    | inr off ↦
        let (r, got, ok, claims) = claim_chunks_lem rounds m s start (k + 1) is in
        (
          r,
          rw (looked, claim_chunks, off) got,
          ok,
          Claims-after m s s [] _ (InVisits m start (k + 1) rounds) r refl
              (λ i z. absurd (omega arith))
              (λ i visits set. later i visits (λ at. empty off i at set)) claims,
        )
    | inl on ↦
        let (r, got, ok, claims) = claim_bits_lem 512 m s c 0 is lt (omega arith) in
        go on r got ok claims (claim_chunks_lem rounds m r.1 start (k + 1) is)
  ]
    where
      c : ℕ
      c = (start + k) % chunk_count m

      lt : c < chunk_count m
      lt = mod-lt (start + k) is.some_chunk

      looked : Chunk.is_set m.chunkmap c ≡ some (bit_at m.chunkmap c)
      looked = chunk_is_set_lem m.chunkmap is.map c (omega (arith, is.few_chunks, lt))

      empty :
          {R : Type 0} → bit_at m.chunkmap c ≡ false → (i : ℕ) → i / 512 ≡ c → bit_of m i ≡ true → R
      empty off i at set =
          let t : bit_at (chunk_at m c) (i % 512) ≡ true = rw⁻¹ at set in
          absurd (ground (arith, is.covered c (i % 512) lt t, off))

      -- A chunk the rounds look at is that of this round, or one of a later round.
      later :
          {R : Type 0} (i : ℕ)
          → InVisits m start k (suc rounds) i
          → (i / 512 ≡ c → R)
          → InVisits m start (k + 1) rounds i ⊎ R
      later i (j, le, to, at) here = elim (Bool-cases (j == k)) [
        | inl e ↦
            let q : j ≡ k = ground arith in
            inr (here (sym at ∙ ap (λ z. (start + z) % chunk_count m) q))
        | inr e ↦ inl (j, ground arith, omega arith, at)
      ]

      go :
          bit_at m.chunkmap c ≡ true
          → (r : Bitmap × S × Option ℕ) → claim_bits claim 512 m s c 0 ≡ some r
          → IsBitmap r.0
          → Claims m s (InChunk c 0 512) r
          → Outcome m r.1
              (InVisits m start (k + 1) rounds)
              (claim_chunks claim rounds m r.1 start (k + 1))
          → Outcome m s
              (InVisits m start k (suc rounds))
              (claim_chunks claim (suc rounds) m s start k)
      go on (m', s', some idx) got ok claims rest =
          ((m', s', some idx), rw (looked, claim_chunks, on, got) refl, ok, claims)
      go on (m', s', none) got ok (asked, t, refused, set, (same, at, all)) (r, rest, ok', claims) =
          (
            r,
            rw (looked, claim_chunks, on, got)
                (ap (λ q. claim_chunks claim rounds q s' start (k + 1)) same ∙ rest),
            ok',
            Claims-after m s s' asked _ (InVisits m start (k + 1) rounds) r
                (subst (λ z. Refusals s asked z) (sym at) refused) set
                (λ i visits on'. later i visits (λ c'. all i (c', omega arith, omega arith) on'))
                claims,
          )

  -- On a bitmap that satisfies the invariant, `try_find_and_claim` does not fault and keeps the
  -- invariant, whatever `claim` does. It asks `claim` for set bits, one after the other, from the
  -- state at its start. If it returns a bit, then that bit was set, `claim` has refused those asked
  -- for before and grants this one in the state that they leave, and no other bit is cleared. If it
  -- returns none, then nothing changed, and in this run `claim` has been asked for every set bit and
  -- has refused it.
  pub try_find_and_claim_lem :
      (m : Bitmap) (s : S) (tseq : ℕ)
      → IsBitmap m
      → (r : Bitmap × S × Option ℕ) × (try_find_and_claim claim m s tseq ≡ some r)
        × IsBitmap r.0
        × Claims m s (λ i. i < chunk_count m * 512) r
  unfolding try_find_and_claim
  try_find_and_claim_lem m s tseq is =
      let some_chunk : (chunk_count m == 0) ≡ false = ground (arith, is.some_chunk) in
      let (r, got, ok, claims) = claim_chunks_lem (chunk_count m) m s (tseq % chunk_count m) 0 is in
      (
        r,
        rw (some_chunk, try_find_and_claim) got,
        ok,
        Claims-after m s s [] _ (InVisits m (tseq % chunk_count m) 0 (chunk_count m)) r refl
            (λ i z. absurd (omega arith))
            (λ i inside set. inl (
              visit m (tseq % chunk_count m) (i / 512) (mod-lt tseq is.some_chunk)
                (omega (arith, inside))))
            claims,
      )
