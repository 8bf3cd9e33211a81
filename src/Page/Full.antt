-- ===== src/Page/Full.antt =====
-- src/page.rs, the test for a full page.
use mimalloc_rs.Prelude.{
  ℕ, ◌<◌, ◌≡◌, refl, ap, ◌↔◌, inl, inr, Bool, true, false, arith, ◌==◌, leb, Bool-cases,
  if◌then◌else◌, List, [], ◌∷◌, ◌++◌, length, Option, none, some,
}
use mimalloc_rs.FreeList.{Memory}
use mimalloc_rs.Page.{Page, collect, is_full}
use mimalloc_rs.Page.Lists.{Chain-null}
use mimalloc_rs.Page.State.{IsPage, SameLayout}
use mimalloc_rs.Page.Splice.{Leaves, move}
use mimalloc_rs.Page.Collect.{collect_lem}

-- A page with a free block has a block that is not live.
room :
    (hardened : Bool) (pg : Page) (mem : Memory) (fs ls ts live : List ℕ)
    → IsPage hardened pg mem fs ls ts live
    → (pg.free == 0) ≡ false
    → length live < pg.reserved
room hardened pg mem [] ls ts live is some_ = absurd (ground (arith, is.free))
room hardened pg mem (x ∷ fs) ls ts live is some_ = omega (arith, is.total, is.capacity)

-- What the test leaves and answers, for the live blocks `live`.
abbrev pub Answers : Bool → Page → List ℕ → Option (Page × Memory × Bool) → Type 0
Answers hardened pg live none = ⊥
Answers hardened pg live (some (pg', mem', full)) =
    (fs : List ℕ) × (ls : List ℕ) × (ts : List ℕ) × IsPage hardened pg' mem' fs ls ts live
    × SameLayout pg pg'
    × ((full ≡ true) ↔ (length live ≡ pg.reserved))

after_collect :
    (hardened : Bool) (pg : Page) (fs live : List ℕ) (r : Option (Page × Memory))
    → Leaves (λ pg' mem'. IsPage hardened pg' mem' fs [] [] live × SameLayout pg pg') r
    → Answers hardened pg live (elim r [
      | none ↦ none
      | some (pg', mem') ↦
          some (pg', mem', if pg'.free == 0 then leb pg'.reserved pg'.capacity else false)
    ])
after_collect hardened pg fs live none l = l
after_collect hardened pg fs live (some (pg', mem')) (is, same) = (
  fs,
  [],
  [],
  is,
  same,
  elim (Bool-cases (pg'.free == 0)) [
    | inl h ↦
        let e : fs ≡ [] = Chain-null hardened pg'.keys mem' pg'.free fs is.free (ground arith) in
        let all : length live ≡ pg'.capacity = omega (arith, is.total, ap length e) in
        rw h
          (λ t. ground (arith, all, same, is.capacity), λ t. ground (arith, all, same, is.capacity))
    | inr h ↦
        let some_left = room hardened pg' mem' fs [] [] live is h in
        rw h (λ t. ground arith, λ t. ground (arith, some_left, same))
  ],
)

-- On a well-formed page `is_full` ends, keeps the page well formed and its live blocks live, and
-- answers whether all the reserved blocks of the page are live.
pub is_full_lem :
    (hardened : Bool) (pg : Page) (mem : Memory) (fs ls ts live : List ℕ)
    → IsPage hardened pg mem fs ls ts live
    → Answers hardened pg live (is_full hardened pg mem)
unfolding is_full
is_full_lem hardened pg mem fs ls ts live is = elim (Bool-cases (pg.free == 0)) [
  | inl h ↦ rw h (
      after_collect hardened pg (ls ++ move ts fs) live (collect hardened pg mem)
        (collect_lem hardened pg mem fs ls ts live is))
  | inr h ↦
      let some_left = room hardened pg mem fs ls ts live is h in
      rw h (
        fs,
        ls,
        ts,
        is,
        (refl, refl, refl, refl, refl),
        (λ t. ground arith, λ t. ground (arith, some_left)),
      )
]
