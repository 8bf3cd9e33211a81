-- ===== src/PageMap/Register.antt =====
-- src/page_map.rs, `register` is all or nothing.
use mimalloc_rs.Prelude.{
  ℕ, zero, suc, ◌+◌, ◌≤◌, ◌<◌, ◌≡◌, refl, sym, ◌∙◌, inl, inr, ◌⊎◌, Bool, true, false, arith, Option,
  none, some, ltb, within, Bool-cases, Option-cases, if◌then◌else◌, subst,
}
use mimalloc_rs.PageMap.{
  PageMap, Table, Submap, top_of, top_count, write, table_page, slice_page, unregister_loop,
  slice_index, lookup, ensure_top, ensure_submap, submap_for, register_loop, register_in, register,
}
use mimalloc_rs.PageMap.View.{table_page-write, table_page-fresh, Overwrites, unregister_loop_lem}

-- The system always has memory.
abbrev pub AllGranted : (ℕ → Bool) → Type 0
AllGranted grants = (k : ℕ) → grants k ≡ true

-- The number of slices that the table can map.
abbrev pub slice_limit : ℕ
slice_limit = 2147483648

-- What getting a submap for slice `u` leaves: the same pages, and the submap in its place.
abbrev Gets : (ℕ → Bool) → Table → ℕ → Table × ℕ × Option Submap → Type 0
Gets grants table u (table', asked', none) =
    ((v : ℕ) → table_page table' v ≡ table_page table v) × (AllGranted grants → slice_limit ≤ u)
Gets grants table u (table', asked', some sub) =
    ((v : ℕ) → table_page table' v ≡ table_page table v)
    × (top_of u < top_count)
    × (table' (top_of u) ≡ some sub)

submap_for_lem :
    (grants : ℕ → Bool) (table : Table) (asked u : ℕ)
    → Gets grants table u (submap_for grants table asked u)
unfolding submap_for ensure_submap
submap_for_lem grants table asked u = elim (Bool-cases (ltb (top_of u) top_count)) [
  | inr out ↦ rw out ((λ v. refl), λ all. ground arith)
  | inl ok ↦ elim (Option-cases (table (top_of u))) [
    | inr (sub, e) ↦ rw (ok, e, ensure_submap) ((λ v. refl), ground arith, e)
    | inl e ↦ elim (Bool-cases (grants asked)) [
      | inl given ↦
          rw (ok, e, given, ensure_submap)
            ((λ v. table_page-fresh table (top_of u) v e), ground arith, ground arith)
      | inr refused ↦
          rw (ok, e, refused, ensure_submap)
            ((λ v. refl), λ all. absurd (ground (arith, all asked)))
    ]
  ]
]

-- The outcome of registering `[u0, u0 + n)`, for the pages `f` from before.
abbrev Registers : (ℕ → Bool) → (ℕ → ℕ) → ℕ → ℕ → ℕ → Table × ℕ × Bool → Type 0
Registers grants f u0 n page (table', asked', true) =
    Overwrites f u0 (u0 + n) page (table_page table') × ((n ≡ 0) ⊎ (u0 + n ≤ slice_limit))
Registers grants f u0 n page (table', asked', false) =
    ((v : ℕ) → table_page table' v ≡ f v) × (AllGranted grants → slice_limit < u0 + n)

-- The range has no page before.
abbrev pub Unmapped : (ℕ → ℕ) → ℕ → ℕ → Type 0
Unmapped f lo hi = (v : ℕ) → within lo hi v ≡ true → f v ≡ 0

module _ (grants : ℕ → Bool) (f : ℕ → ℕ) (u0 n page : ℕ) (unmapped : Unmapped f u0 (u0 + n)) where
  -- The rest of a round, once the submap is known.
  round :
      (left : ℕ) (table : Table) (asked s : ℕ) (got : Table × ℕ × Option Submap)
      → s + suc left ≡ n
      → Overwrites f u0 (u0 + s) page (table_page table)
      → Gets grants table (u0 + s) got
      → ((t : Table) (a : ℕ)
          → Overwrites f u0 (u0 + (s + 1)) page (table_page t)
          → u0 + (s + 1) ≤ slice_limit
          → Registers grants f u0 n page (register_loop grants left t a u0 (s + 1) page))
      → Registers grants f u0 n page (elim got.2 [
        | none ↦ (unregister_loop s got.0 u0, got.1, false)
        | some sub ↦ register_loop grants left (write got.0 (u0 + s) sub page) got.1 u0 (s + 1) page
      ])
  round left table asked s (table', asked', none) e over (same, limit) rest = (
    (λ v. ground (arith, unregister_loop_lem s table' u0 v, same v, over v, unmapped v)),
    λ all. omega (arith, limit all, e),
  )
  round left table asked s (table', asked', some sub) e over (same, inside, here) rest =
      rest (write table' (u0 + s) sub page) asked'
        (λ v.
          ground (arith, table_page-write table' (u0 + s) sub page v inside here, same v, over v))
        (omega (arith, inside))

  register_loop_lem :
      (left : ℕ) (table : Table) (asked s : ℕ)
      → s + left ≡ n
      → Overwrites f u0 (u0 + s) page (table_page table)
      → (s ≡ 0) ⊎ (u0 + s ≤ slice_limit)
      → Registers grants f u0 n page (register_loop grants left table asked u0 s page)
  unfolding register_loop
  register_loop_lem zero table asked s e over limit =
      let q : s ≡ n = omega arith in
      subst
        (λ z. Overwrites f u0 (u0 + z) page (table_page table) × ((z ≡ 0) ⊎ (u0 + z ≤ slice_limit)))
        q (over, limit)
  register_loop_lem (suc left) table asked s e over limit =
      round left table asked s (submap_for grants table asked (u0 + s)) e over
        (submap_for_lem grants table asked (u0 + s))
        (λ t a o le. register_loop_lem left t a (s + 1) (omega arith) o (inr le))

-- The outcome for the addresses, when slices had the pages `f` before.
abbrev pub Outcome : (ℕ → Bool) → (ℕ → ℕ) → ℕ → ℕ → ℕ → PageMap × Bool → Type 0
Outcome grants f u0 n page (m', true) =
    ((a : ℕ)
      → lookup m' a ≡ (if within u0 (u0 + n) (slice_index a) then page else f (slice_index a)))
    × ((n ≡ 0) ⊎ (u0 + n ≤ slice_limit))
Outcome grants f u0 n page (m', false) =
    ((a : ℕ) → lookup m' a ≡ f (slice_index a)) × (AllGranted grants → slice_limit < u0 + n)

of_table :
    (grants : ℕ → Bool) (f : ℕ → ℕ) (u0 n page : ℕ) (r : Table × ℕ × Bool)
    → Registers grants f u0 n page r
    → Outcome grants f u0 n page (record { top = some r.0; asked = r.1 }, r.2)
unfolding lookup
of_table grants f u0 n page (table, asked, true) (over, fits) = ((λ a. over (slice_index a)), fits)
of_table grants f u0 n page (table, asked, false) (same, full) = ((λ a. same (slice_index a)), full)

start :
    (grants : ℕ → Bool) (table : Table) (asked u0 n page : ℕ)
    → Unmapped (table_page table) u0 (u0 + n)
    → Registers grants (table_page table) u0 n page (register_loop grants n table asked u0 0 page)
start grants table asked u0 n page unmapped =
    register_loop_lem grants (table_page table) u0 n page unmapped n table asked 0 (omega arith)
      (λ v. ground arith) (inl refl)

no_pages : (u : ℕ) → table_page (λ i. none) u ≡ 0
unfolding table_page
no_pages u = ground arith

-- Before the first table is there, no slice has a page.
first_table :
    (grants : ℕ → Bool) (u0 n page : ℕ) (r : Table × ℕ × Bool)
    → Outcome grants
        (table_page (λ i. none))
        u0
        n
        page
        (record { top = some r.0; asked = r.1 }, r.2)
    → Outcome grants (λ u. 0) u0 n page (record { top = some r.0; asked = r.1 }, r.2)
first_table grants u0 n page (table, asked, true) (over, fits) =
    ((λ a. ground (arith, over a, no_pages (slice_index a))), fits)
first_table grants u0 n page (table, asked, false) (same, full) =
    ((λ a. same a ∙ no_pages (slice_index a)), full)

-- Registering a range of slices that has no page maps every address in the range to the page and
-- keeps the page of every other address, or it fails and keeps the page of every address. It can
-- succeed on a range that is not empty only if the range ends inside the table; if the system
-- always has memory it fails only on a range that does not.
pub register_lem :
    (grants : ℕ → Bool) (m : PageMap) (addr n page : ℕ)
    → Unmapped (slice_page m.top) (slice_index addr) (slice_index addr + n)
    → Outcome grants (slice_page m.top) (slice_index addr) n page (register grants m addr n page)
unfolding register ensure_top lookup
register_lem grants m addr n page unmapped = by_top m.top m.asked unmapped
  where
    by_top :
        (top : Option Table) (asked : ℕ)
        → Unmapped (slice_page top) (slice_index addr) (slice_index addr + n)
        → Outcome grants
            (slice_page top)
            (slice_index addr)
            n
            page
            (register grants (record { top = top; asked = asked }) addr n page)
    by_top (some table) asked unmapped =
        of_table grants (table_page table) (slice_index addr) n page
          (register_loop grants n table asked (slice_index addr) 0 page)
          (start grants table asked (slice_index addr) n page unmapped)
    by_top none asked unmapped = elim (Bool-cases (grants asked)) [
      | inr refused ↦
          let e : ensure_top grants (record { top = none; asked = asked })
              ≡ (record { top = none; asked = suc asked }, none) =
            rw refused refl in
          subst
            (λ z.
              Outcome grants (λ u. 0) (slice_index addr) n page
                (register_in grants (slice_index addr) n page z))
            (sym e) ((λ a. refl), λ all. absurd (ground (arith, all asked)))
      | inl given ↦
          let r = register_loop grants n (λ i. none) (suc asked) (slice_index addr) 0 page in
          let got =
            start grants (λ i. none) (suc asked) (slice_index addr) n page (λ v h. no_pages v) in
          let e : ensure_top grants (record { top = none; asked = asked })
              ≡ (record { top = some (λ i. none); asked = suc asked }, some (λ i. none)) =
            rw given refl in
          subst
            (λ z.
              Outcome grants (λ u. 0) (slice_index addr) n page
                (register_in grants (slice_index addr) n page z))
            (sym e)
            (first_table grants (slice_index addr) n page r
              (of_table grants (table_page (λ i. none)) (slice_index addr) n page r got))
    ]
