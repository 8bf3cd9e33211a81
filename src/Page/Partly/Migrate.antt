-- ===== src/Page/Partly/Migrate.antt =====
-- src/page.rs, what `collect_partly` leaves of a page.
use mimalloc_rs.Prelude.{
  ℕ, suc, zero, ◌+◌, ◌-◌, ◌%◌, ◌^◌, ◌≤◌, ◌<◌, ◌≡◌, ◌↔◌, refl, sym, ap, ◌∙◌, ◌≢◌, inl, inr, Bool,
  true, false, arith, ◌==◌, if◌then◌else◌, Bool-cases, List, [], ◌∷◌, ◌++◌, subst, count,
  count-append, length, length-append, some,
}
use mimalloc_rs.FreeList.{Keys, Memory, next, set_next}
use mimalloc_rs.FreeList.Codec.{next-set_next}
use mimalloc_rs.Page.{Page, tf_block, collect}
use mimalloc_rs.Page.Lists.{Readable, Chain, Chain-set_next, Chain-null}
use mimalloc_rs.Page.State.{IsPage, SameLayout, SameLayout-trans, once, local_Readable, count_head}
use mimalloc_rs.Page.Splice.{Leaves, Leaves-map}
use mimalloc_rs.Page.Collect.{last, last_count, Chain-append, collect_lem}
use mimalloc_rs.Page.Partly.{count_tail, migrate, collect_partly}

count_tail_lem :
    (hardened : Bool) (rounds : ℕ) (k : Keys) (mem : Memory) (x : ℕ) (xs : List ℕ) (n : ℕ)
    → length xs < rounds
    → Chain hardened k mem (next hardened k mem x) xs
    → count_tail hardened rounds k mem x n ≡ some (last x xs, n + length xs)
unfolding count_tail
count_tail_lem hardened zero k mem x xs n few c = absurd (omega arith)
count_tail_lem hardened (suc rounds) k mem x [] n few c =
    let end : (next hardened k mem x == 0) ≡ true = ground (arith, c) in
    rw end (ap (λ z. some (x, z)) (let e : n ≡ n + 0 = omega arith in e))
count_tail_lem hardened (suc rounds) k mem x (y ∷ ys) n few (e, ne, c) =
    let more : (next hardened k mem x == 0) ≡ false = ground (arith, e) in
    rw (more, e)
      (count_tail_lem hardened rounds k mem y ys (n + 1) (omega arith) c
        ∙ ap (λ z. some (last y ys, z))
            (let e : n + 1 + length ys ≡ n + suc (length ys) = omega arith in e))

-- What `collect_partly` leaves, for the live blocks `live`.
abbrev pub Gathered : Bool → Page → List ℕ → Page → Memory → Type 0
Gathered hardened pg live pg' mem' =
    (fs : List ℕ) × (ls : List ℕ) × (ts : List ℕ) × IsPage hardened pg' mem' fs ls ts live
    × SameLayout pg pg'
    × ((pg'.used ≡ 0) ↔ (live ≡ []))
    × (length ts ≤ 1)

-- The state after the stack below its top `h` has moved to `local_free`.
module _ (hardened : Bool) (pg : Page) (mem : Memory) (fs ls ts live : List ℕ) (h t : ℕ)
    (is : IsPage hardened pg mem fs ls (h ∷ t ∷ ts) live) where
  cut : Memory
  cut = set_next hardened pg.keys mem h 0

  linked : Memory
  linked = set_next hardened pg.keys cut (last t ts) pg.local_free

  single : (a : ℕ) → count a fs + (count a ls + (count a (h ∷ t ∷ ts) + count a live)) ≤ 1
  single a = once hardened pg (tf_block pg.xthread_free) mem fs ls (h ∷ t ∷ ts) live is a

  null_ok : Readable hardened pg.keys 0
  null_ok = is.null

  local_ok : Readable hardened pg.keys pg.local_free
  local_ok = local_Readable hardened pg (tf_block pg.xthread_free) mem fs ls (h ∷ t ∷ ts) live is

  frame :
      (xs : List ℕ) (p : ℕ)
      → count h xs ≡ 0
      → count (last t ts) xs ≡ 0
      → Chain hardened pg.keys mem p xs
      → Chain hardened pg.keys linked p xs
  unfolding linked cut
  frame xs p off off' c =
      Chain-set_next hardened pg.keys cut (last t ts) pg.local_free xs p local_ok off'
        (Chain-set_next hardened pg.keys mem h 0 xs p null_ok off c)

  apart :
      (a : ℕ)
      → 1 ≤ count a (t ∷ ts)
      → (count a fs ≡ 0) × (count a ls ≡ 0) × (count a live ≡ 0) × (a ≢ h)
  apart a m = (
    omega (arith, single a),
    omega (arith, single a),
    omega (arith, single a),
    λ z. ground (arith, single a),
  )

  top : Chain hardened pg.keys linked (tf_block pg.xthread_free) (h ∷ [])
  unfolding linked cut
  top =
      let (e, ne, c) = is.thread in
      let off : h ≢ last t ts = λ z. (apart (last t ts) (last_count t ts)).3 (sym z) in
      (
        e,
        ne,
        (next-set_next hardened pg.keys cut (last t ts) pg.local_free local_ok).1 h off
            ∙ (next-set_next hardened pg.keys mem h 0 null_ok).0,
      )

  below : Chain hardened pg.keys linked (next hardened pg.keys mem h) ((t ∷ ts) ++ ls)
  unfolding linked cut
  below =
      let (e, ne, c) = is.thread in
      let out : count h (t ∷ ts) ≡ 0 = omega (arith, single h, count_head h (t ∷ ts)) in
      let out' : count h ls ≡ 0 = omega (arith, single h, count_head h (t ∷ ts)) in
      Chain-append hardened pg.keys cut t ts (next hardened pg.keys mem h) pg.local_free ls local_ok
        (λ a. omega (arith, single a))
        (Chain-set_next hardened pg.keys mem h 0 (t ∷ ts) _ null_ok out c)
        (Chain-set_next hardened pg.keys mem h 0 ls _ null_ok out' is.local)

  walked :
      count_tail hardened (pg.capacity + 1) pg.keys cut (next hardened pg.keys mem h) 1
      ≡ some (last t ts, 1 + length ts)
  unfolding cut
  walked =
      let (e, ne, (e', ne', c)) = is.thread in
      let out : count h ts ≡ 0 = omega (arith, single h, count_head h (t ∷ ts)) in
      let off : t ≢ h = (apart t (omega (arith, count_head t ts))).3 in
      let link = (next-set_next hardened pg.keys mem h 0 null_ok).1 t off in
      let chain =
        Chain-set_next hardened pg.keys mem h 0 ts (next hardened pg.keys mem t) null_ok out c in
      subst
        (λ z.
          count_tail hardened (pg.capacity + 1) pg.keys (set_next hardened pg.keys mem h 0) z 1
          ≡ some (last t ts, 1 + length ts))
        (sym e')
        (count_tail_lem hardened (pg.capacity + 1) pg.keys (set_next hardened pg.keys mem h 0) t ts
          1 (omega (arith, is.total))
          (subst (λ z. Chain hardened pg.keys (set_next hardened pg.keys mem h 0) z ts) (sym link)
            chain))

  others :
      (xs : List ℕ) (p : ℕ)
      → ((a : ℕ) → count a xs + count a (h ∷ t ∷ ts) ≤ 1)
      → Chain hardened pg.keys mem p xs
      → Chain hardened pg.keys linked p xs
  others xs p off c =
      frame xs p (omega (arith, off h, count_head h (t ∷ ts)))
        (let m = last_count t ts in omega (arith, off (last t ts))) c

  fewer : (pg.used + 2 ^ 32 - (1 + length ts)) % 2 ^ 32 ≡ 1 + length live
  fewer = omega (arith, is.used, is.total, is.capacity, is.reserved)

  kept :
      IsPage hardened
        (record pg {
          local_free = next hardened pg.keys mem h;
          used = (pg.used + 2 ^ 32 - (1 + length ts)) % 2 ^ 32;
        })
        linked
        fs
        ((t ∷ ts) ++ ls)
        (h ∷ [])
        live
  kept = record {
    free = others fs pg.free (λ a. omega (arith, single a)) is.free;
    local = below;
    thread = top;
    blocks = λ a. omega (arith, is.blocks a, count-append a (t ∷ ts) ls);
    used = fewer;
    total = omega (arith, is.total, length-append {0} (t ∷ ts) ls);
    capacity = is.capacity;
    reserved = is.reserved;
    size = is.size;
    start = is.start;
    null = is.null;
    linkable = is.linkable;
  }

  emptied :
      pg.free ≡ 0
      → IsPage hardened
          (record pg {
            free = next hardened pg.keys mem h;
            local_free = 0;
            used = (pg.used + 2 ^ 32 - (1 + length ts)) % 2 ^ 32;
          })
          linked
          ((t ∷ ts) ++ ls)
          []
          (h ∷ [])
          live
  emptied z =
      let none_left : fs ≡ [] = Chain-null hardened pg.keys mem pg.free fs is.free z in
      record {
        free = below;
        local = refl;
        thread = top;
        blocks =
            λ a. omega (arith, is.blocks a, count-append a (t ∷ ts) ls, ap (count a) none_left);
        used = fewer;
        total = omega (arith, is.total, length-append {0} (t ∷ ts) ls, ap length none_left);
        capacity = is.capacity;
        reserved = is.reserved;
        size = is.size;
        start = is.start;
        null = is.null;
        linkable = is.linkable;
      }

-- The last step: if the page's other blocks are all free, the top is collected too.
finish :
    (hardened : Bool) (pg pg' : Page) (mem' : Memory) (fs ls live : List ℕ) (h : ℕ)
    → IsPage hardened pg' mem' fs ls (h ∷ []) live
    → SameLayout pg pg'
    → Leaves
        (Gathered hardened pg live)
        (if pg'.used == 1 then collect hardened pg' mem' else some (pg', mem'))
finish hardened pg pg' mem' fs ls live h is same = elim (Bool-cases (pg'.used == 1)) [
  | inl last_one ↦ rw last_one (
      Leaves-map _ (Gathered hardened pg live) (collect hardened pg' mem')
        (λ q m (is', same'). (
          _,
          [],
          [],
          is',
          SameLayout-trans pg pg' q same same',
          (λ z. empty live (omega (arith, is'.used)), λ z. omega (arith, is'.used, ap length z)),
          omega arith,
        ))
        (collect_lem hardened pg' mem' fs ls (h ∷ []) live is))
  | inr more ↦ rw more (
    fs,
    ls,
    h ∷ [],
    is,
    same,
    (λ z. absurd (omega (arith, is.used)), λ z. absurd (ground (arith, is.used, ap length z))),
    omega arith,
  )
]
  where
    empty : (xs : List ℕ) → length xs ≡ 0 → xs ≡ []
    empty [] e = refl
    empty (x ∷ xs) e = absurd (omega arith)

pub collect_partly_lem :
    (hardened : Bool) (pg : Page) (mem : Memory) (fs ls ts live : List ℕ) (h : ℕ)
    → IsPage hardened pg mem fs ls (h ∷ ts) live
    → Leaves (Gathered hardened pg live) (collect_partly hardened pg mem h)
unfolding collect_partly migrate linked cut
collect_partly_lem hardened pg mem fs ls [] live h is =
    let (e, ne, c) = is.thread in
    let some_ : (h == 0) ≡ false = ground arith in
    let none_below : (next hardened pg.keys mem h == 0) ≡ true = ground (arith, c) in
    rw (some_, none_below)
      (finish hardened pg pg mem fs ls live h is (refl, refl, refl, refl, refl))
collect_partly_lem hardened pg mem fs ls (t ∷ ts) live h is =
    let (e, ne, (e', ne', c)) = is.thread in
    let some_ : (h == 0) ≡ false = ground arith in
    let below_ : (next hardened pg.keys mem h == 0) ≡ false = ground (arith, e') in
    let walk = walked hardened pg mem fs ls ts live h t is in
    elim (Bool-cases (pg.free == 0)) [
      | inl nothing ↦
          rw (some_, below_, migrate, walk, nothing)
            (finish hardened pg _ _ ((t ∷ ts) ++ ls) [] live h
              (emptied hardened pg mem fs ls ts live h t is (ground arith))
              (refl, refl, refl, refl, refl))
      | inr something ↦
          rw (some_, below_, migrate, walk, something)
            (finish hardened pg _ _ fs ((t ∷ ts) ++ ls) live h
              (kept hardened pg mem fs ls ts live h t is) (refl, refl, refl, refl, refl))
    ]
