-- ===== src/PageMap/View.antt =====
-- src/page_map.rs, the table as a function on slices, and what each write does to it.
use mimalloc_rs.Prelude.{
  ℕ, zero, suc, ◌+◌, ◌<◌, ◌≡◌, refl, ap, ◌∙◌, inl, inr, true, false, arith, none, some, ltb, leb,
  within, ◌==◌, Bool-cases, Option-cases, if◌then◌else◌,
}
use mimalloc_rs.PageMap.{
  PageMap, Table, Submap, top_of, sub_of, top_count, store_entry, write, table_page,
  unregister_loop, unregister, slice_index, lookup,
}

-- Slices are equal when both parts of their numbers are.
same_slice : (u v : ℕ) → top_of u ≡ top_of v → sub_of u ≡ sub_of v → u ≡ v
same_slice u v h k = omega arith

pub table_page-write :
    (table : Table) (v : ℕ) (sub : Submap) (page u : ℕ)
    → top_of v < top_count
    → table (top_of v) ≡ some sub
    → table_page (write table v sub page) u ≡ (if u == v then page else table_page table u)
unfolding table_page
table_page-write table v sub page u inside here = elim (Bool-cases (top_of u == top_of v)) [
  | inr off ↦ let ne : (u == v) ≡ false = ground arith in rw (off, ne) refl
  | inl at ↦
      let e : top_of u ≡ top_of v = ground arith in
      let lt : ltb (top_of v) top_count ≡ true = ground arith in
      elim (Bool-cases (sub_of u == sub_of v)) [
        | inl same ↦
            let q : (u == v) ≡ true = ground (arith, same_slice u v e) in
            rw (at, e, lt, same, q) refl
        | inr other ↦ let q : (u == v) ≡ false = ground arith in rw (at, e, lt, other, q, here) refl
      ]
]

pub table_page-none : (table : Table) (u : ℕ) → table (top_of u) ≡ none → table_page table u ≡ 0
unfolding table_page
table_page-none table u h = rw h (ground arith)

pub table_page-out :
    (table : Table) (u : ℕ) → ltb (top_of u) top_count ≡ false → table_page table u ≡ 0
unfolding table_page
table_page-out table u h = rw h refl

-- A submap of nulls in place of the shared one.
pub table_page-fresh :
    (table : Table) (t u : ℕ)
    → table t ≡ none
    → table_page (store_entry table t (some (λ i. 0))) u ≡ table_page table u
unfolding table_page
table_page-fresh table t u h = elim (Bool-cases (top_of u == t)) [
  | inr off ↦ rw off refl
  | inl at ↦ let e : top_of u ≡ t = ground arith in rw (at, e, h) (ground arith)
]

-- The pages of `f`, except that the slices `[lo, hi)` have the page `p`.
abbrev pub Overwrites : (ℕ → ℕ) → ℕ → ℕ → ℕ → (ℕ → ℕ) → Type 0
Overwrites f lo hi p g = (u : ℕ) → g u ≡ (if within lo hi u then p else f u)

pub unregister_loop_lem :
    (left : ℕ) (table : Table) (u : ℕ)
    → Overwrites (table_page table) u (u + left) 0 (table_page (unregister_loop left table u))
unfolding unregister_loop
unregister_loop_lem zero table u v = ground arith
unregister_loop_lem (suc left) table u v = elim (Bool-cases (ltb (top_of u) top_count)) [
  | inr out ↦
      rw (out, unregister_loop)
        (elim (Bool-cases (leb u v)) [
          | inl le ↦
              let far : ltb (top_of v) top_count ≡ false = ground arith in
              ground (arith, table_page-out table v far)
          | inr lt ↦ ground arith
        ])
  | inl ok ↦ elim (Option-cases (table (top_of u))) [
    | inl e ↦
        let rest = unregister_loop_lem left table (u + 1) v in
        rw (ok, e, unregister_loop)
          (elim (Bool-cases (v == u)) [
            | inl at ↦
                let q : v ≡ u = ground arith in
                let gone : table_page table v ≡ 0 =
                  ap (table_page table) q ∙ table_page-none table u e in
                ground (arith, rest, gone)
            | inr off ↦ ground (arith, rest)
          ])
    | inr (sub, e) ↦
        let rest = unregister_loop_lem left (write table u sub 0) (u + 1) v in
        let one = table_page-write table u sub 0 v (ground arith) e in
        rw (ok, e, unregister_loop) (ground (arith, one, rest))
  ]
]

-- `unregister` makes every address in the range of slices map to null, and changes the page of no
-- other address.
pub unregister_lem :
    (m : PageMap) (addr n a : ℕ)
    → lookup (unregister m addr n) a
      ≡ (if within (slice_index addr) (slice_index addr + n) (slice_index a) then 0 else lookup m a)
unfolding unregister lookup
unregister_lem m addr n a = elim (Option-cases m.top) [
  | inl h ↦ rw (h, unregister) (ground arith)
  | inr (table, h) ↦
      rw (h, unregister) (unregister_loop_lem n table (slice_index addr) (slice_index a))
]
