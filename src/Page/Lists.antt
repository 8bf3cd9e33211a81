-- ===== src/Page/Lists.antt =====
-- src/page.rs, free lists as lists of blocks, and the blocks of a page.
use native.Mathlib.Nat.{mul-le-mul_right}
use mimalloc_rs.Prelude.{
  ℕ, suc, zero, ◌+◌, ◌*◌, ◌^◌, ◌≤◌, ◌<◌, ◌≡◌, refl, sym, ap, ◌∙◌, ◌≢◌, ◌⊎◌, inl, inr, Bool, false,
  arith, ◌==◌, Bool-cases, List, [], ◌∷◌, subst, count, length,
}
use mimalloc_rs.FreeList.{Keys, Memory, next, set_next, encode}
use mimalloc_rs.FreeList.Codec.{AreKeys, next-set_next}

-- A link to `p` is read back as it was written.
abbrev pub Readable : Bool → Keys → ℕ → Type 0
Readable hardened k p =
    (hardened ≡ false) ⊎ (AreKeys k × (p < 2 ^ 64) × ((p ≡ 0) ⊎ (encode p k ≢ 0)))

-- From `p` the links lead through the blocks `xs` to null.
abbrev pub Chain : Bool → Keys → Memory → ℕ → List ℕ → Type 0
Chain hardened k mem p [] = p ≡ 0
Chain hardened k mem p (x ∷ xs) =
    (p ≡ x) × (x ≢ 0) × Chain hardened k mem (next hardened k mem x) xs

-- The first `n` blocks from `start` on, `size` bytes each.
abbrev pub slots : ℕ → ℕ → ℕ → List ℕ
slots start size zero = []
slots start size (suc n) = (start + n * size) ∷ slots start size n

pub slots_mono :
    (start size m n a : ℕ) → m ≤ n → count a (slots start size m) ≤ count a (slots start size n)
slots_mono start size zero n a h = omega arith
slots_mono start size (suc m) zero a h = absurd (omega arith)
slots_mono start size (suc m) (suc n) a h = elim (Bool-cases (m == n)) [
  | inl e ↦ let p : m ≡ n = ground arith in rw p (omega arith)
  | inr e ↦ omega (arith, slots_mono start size (suc m) n a (ground arith))
]

-- Block `j` is none of the first `n` blocks, if `n ≤ j`.
pub slot_fresh :
    (start size n j : ℕ) → 1 ≤ size → n ≤ j → count (start + j * size) (slots start size n) ≡ 0
slot_fresh start size zero j pos h = refl
slot_fresh start size (suc n) j pos h =
    let step : n * size + size ≤ j * size =
      omega (arith, mul-le-mul_right {m = suc n} {n = j} size h) in
    ground (arith, slot_fresh start size n j pos (omega arith))

pub slots_distinct : (start size n a : ℕ) → 1 ≤ size → count a (slots start size n) ≤ 1
slots_distinct start size zero a pos = omega arith
slots_distinct start size (suc n) a pos = elim (Bool-cases (a == start + n * size)) [
  | inl e ↦
      let p : a ≡ start + n * size = ground arith in
      rw p (ground (arith, slot_fresh start size n n pos (omega arith)))
  | inr e ↦ ground (arith, slots_distinct start size n a pos)
]

module _ (hardened : Bool) (k : Keys) where
  -- A write to another block does not break a chain.
  pub Chain-set_next :
      (mem : Memory) (b v : ℕ) (xs : List ℕ) (p : ℕ)
      → Readable hardened k v
      → count b xs ≡ 0
      → Chain hardened k mem p xs
      → Chain hardened k (set_next hardened k mem b v) p xs
  Chain-set_next mem b v [] p r out c = c
  Chain-set_next mem b v (x ∷ xs) p r out (e, ne, c) =
      let off : x ≢ b = λ z. ground arith in
      let same = (next-set_next hardened k mem b v r).1 x off in
      (e, ne, rw same (Chain-set_next mem b v xs (next hardened k mem x) r (ground arith) c))

  -- A block that is written to link to a chain is its new head.
  pub Chain-cons :
      (mem : Memory) (b v : ℕ) (xs : List ℕ)
      → Readable hardened k v
      → b ≢ 0
      → count b xs ≡ 0
      → Chain hardened k mem v xs
      → Chain hardened k (set_next hardened k mem b v) b (b ∷ xs)
  Chain-cons mem b v xs r ne out c =
      (refl, ne, rw ((next-set_next hardened k mem b v r).0) (Chain-set_next mem b v xs v r out c))

  -- The head of a chain is null exactly when the chain is empty.
  pub Chain-null :
      (mem : Memory) (p : ℕ) (xs : List ℕ) → Chain hardened k mem p xs → p ≡ 0 → xs ≡ []
  Chain-null mem p [] c z = refl
  Chain-null mem p (x ∷ xs) (e, ne, c) z = absurd (ne (sym e ∙ z))

  -- The head of a chain of linkable blocks is linkable.
  pub Chain-Readable :
      (mem : Memory) (p : ℕ) (xs : List ℕ)
      → Readable hardened k 0
      → ((a : ℕ) → 1 ≤ count a xs → Readable hardened k a)
      → Chain hardened k mem p xs
      → Readable hardened k p
  Chain-Readable mem p [] null ok c = subst (λ z. Readable hardened k z) (sym c) null
  Chain-Readable mem p (x ∷ xs) null ok (e, ne, c) =
      subst (λ z. Readable hardened k z) (sym e) (ok x (ground arith))

pub slots_pos : (start size n : ℕ) → 1 ≤ start → count 0 (slots start size n) ≡ 0
slots_pos start size zero h = refl
slots_pos start size (suc n) h = ground (arith, slots_pos start size n h)

pub length-slots : (start size n : ℕ) → length (slots start size n) ≡ n
length-slots start size zero = refl
length-slots start size (suc n) = ap suc (length-slots start size n)
