-- ===== src/Page/Collect.antt =====
-- src/page.rs, `collect` moves the blocks of the other two lists to `free`.
use mimalloc_rs.Prelude.{
  ℕ, suc, zero, ◌+◌, ◌≤◌, ◌<◌, ◌≡◌, refl, sym, ap, ◌∙◌, ◌≢◌, inl, inr, Bool, true, false, arith,
  ◌==◌, Bool-cases, List, [], ◌∷◌, ◌++◌, subst, count, count-append, length, length-append, Option,
  none, some,
}
use mimalloc_rs.FreeList.{Keys, Memory, next, set_next}
use mimalloc_rs.FreeList.Codec.{next-set_next}
use mimalloc_rs.Page.{
  Page, tf_block, collect_threads, collect_local, collect, find_tail, append_local,
}
use mimalloc_rs.Page.Lists.{Readable, Chain, Chain-set_next, Chain-null}
use mimalloc_rs.Page.State.{IsPage, SameLayout, SameLayout-trans, once, free_Readable, count_head}
use mimalloc_rs.Page.Splice.{Leaves, move, Collected, Leaves-map, collect_threads_lem}

abbrev pub last : ℕ → List ℕ → ℕ
last x [] = x
last x (y ∷ ys) = last y ys

pub last_count : (x : ℕ) (xs : List ℕ) → 1 ≤ count (last x xs) (x ∷ xs)
last_count x [] = ground arith
last_count x (y ∷ ys) = omega (arith, last_count y ys)

find_tail_lem :
    (hardened : Bool) (rounds : ℕ) (k : Keys) (mem : Memory) (x : ℕ) (xs : List ℕ)
    → length xs < rounds
    → Chain hardened k mem (next hardened k mem x) xs
    → find_tail hardened rounds k mem x ≡ some (last x xs)
unfolding find_tail
find_tail_lem hardened zero k mem x xs few c = absurd (omega arith)
find_tail_lem hardened (suc rounds) k mem x [] few c =
    let end : (next hardened k mem x == 0) ≡ true = ground (arith, c) in rw end refl
find_tail_lem hardened (suc rounds) k mem x (y ∷ ys) few (e, ne, c) =
    let more : (next hardened k mem x == 0) ≡ false = ground (arith, e) in
    rw (more, e) (find_tail_lem hardened rounds k mem y ys (omega arith) c)

-- Two disjoint chains, linked at the tail of the first.
pub Chain-append :
    (hardened : Bool) (k : Keys) (mem : Memory) (x : ℕ) (xs : List ℕ) (p v : ℕ) (fs : List ℕ)
    → Readable hardened k v
    → ((a : ℕ) → count a (x ∷ xs) + count a fs ≤ 1)
    → Chain hardened k mem p (x ∷ xs)
    → Chain hardened k mem v fs
    → Chain hardened k (set_next hardened k mem (last x xs) v) p ((x ∷ xs) ++ fs)
Chain-append hardened k mem x [] p v fs r single (e, ne, c) d = (
  e,
  ne,
  rw ((next-set_next hardened k mem x v r).0)
      (Chain-set_next hardened k mem x v fs v r (omega (arith, single x, count_head x [])) d),
)
Chain-append hardened k mem x (y ∷ ys) p v fs r single (e, ne, c) d =
    let off : x ≢ last y ys = λ z.
      omega
        (arith, single x, count_head x (y ∷ ys), ap (λ w. count w (y ∷ ys)) z, last_count y ys) in
    (
      e,
      ne,
      rw ((next-set_next hardened k mem (last y ys) v r).1 x off) (
          Chain-append hardened k mem y ys (next hardened k mem x) v fs r
            (λ a. omega (arith, single a)) c d),
    )

append-nil : (xs : List ℕ) → xs ++ [] ≡ xs
append-nil [] = refl
append-nil (x ∷ xs) = ap (λ z. x ∷ z) (append-nil xs)

-- The state after both lists have become `free`.
join :
    (hardened : Bool) (pg : Page) (mem mem' : Memory) (fs ls live : List ℕ)
    → IsPage hardened pg mem fs ls [] live
    → Chain hardened pg.keys mem' pg.local_free (ls ++ fs)
    → Chain hardened pg.keys mem' (tf_block pg.xthread_free) []
    → IsPage hardened
        (record pg { free = pg.local_free; free_is_zero = false; local_free = 0 })
        mem'
        (ls ++ fs)
        []
        []
        live
join hardened pg mem mem' fs ls live is chain end = record {
  free = chain;
  local = refl;
  thread = end;
  blocks = λ a. omega (arith, is.blocks a, count-append a ls fs);
  used = is.used;
  total = omega (arith, is.total, length-append {0} ls fs);
  capacity = is.capacity;
  reserved = is.reserved;
  size = is.size;
  start = is.start;
  null = is.null;
  linkable = is.linkable;
}

collect_local_lem :
    (hardened : Bool) (pg : Page) (mem : Memory) (fs ls live : List ℕ)
    → IsPage hardened pg mem fs ls [] live
    → Leaves (Collected hardened pg (ls ++ fs) [] live) (collect_local hardened pg mem)
unfolding collect_local append_local
collect_local_lem hardened pg mem fs [] live is =
    let end : (pg.local_free == 0) ≡ true = ground (arith, is.local) in
    rw end (is, (refl, refl, refl, refl, refl))
collect_local_lem hardened pg mem fs (x ∷ xs) live is = elim (Bool-cases (pg.free == 0)) [
  | inl h ↦
      let none_left : fs ≡ [] = Chain-null hardened pg.keys mem pg.free fs is.free (ground arith) in
      let whole : (x ∷ xs) ++ fs ≡ x ∷ xs =
        ap (λ z. (x ∷ xs) ++ z) none_left ∙ append-nil (x ∷ xs) in
      rw (more, h)
        (
          join hardened pg mem mem fs (x ∷ xs) live is
              (subst (Chain hardened pg.keys mem pg.local_free) (sym whole) is.local) is.thread,
          (refl, refl, refl, refl, refl),
        )
  | inr h ↦
      rw (more, h, tail)
        (
          join hardened pg mem (set_next hardened pg.keys mem (last x xs) pg.free) fs (x ∷ xs) live
              is
              (Chain-append hardened pg.keys mem x xs pg.local_free pg.free fs
                (free_Readable hardened pg (tf_block pg.xthread_free) mem fs (x ∷ xs) [] live is)
                (λ a.
                  omega (
                    arith,
                    once hardened pg (tf_block pg.xthread_free) mem fs (x ∷ xs) [] live is a,
                  ))
                is.local is.free)
              is.thread,
          (refl, refl, refl, refl, refl),
        )
]
  where
    more : (pg.local_free == 0) ≡ false
    more = ground (arith, is.local.0, is.local.1)

    tail : find_tail hardened (pg.capacity + 1) pg.keys mem pg.local_free ≡ some (last x xs)
    tail = rw (is.local.0) (
        find_tail_lem hardened (pg.capacity + 1) pg.keys mem x xs (omega (arith, is.total))
          is.local.2)

collect_rest :
    (hardened : Bool) (pg : Page) (fs ls live : List ℕ) (r : Option (Page × Memory))
    → Leaves (Collected hardened pg fs ls live) r
    → Leaves
        (Collected hardened pg (ls ++ fs) [] live)
        (elim r [ none ↦ none | some (pg', mem') ↦ collect_local hardened pg' mem' ])
collect_rest hardened pg fs ls live none l = l
collect_rest hardened pg fs ls live (some (pg', mem')) (is, same) =
    Leaves-map (Collected hardened pg' (ls ++ fs) [] live)
      (Collected hardened pg (ls ++ fs) [] live) (collect_local hardened pg' mem')
      (λ q m (is'', same'). (is'', SameLayout-trans pg pg' q same same'))
      (collect_local_lem hardened pg' mem' fs ls live is)

-- `collect` of a well-formed page ends, and moves every block of `local_free` and of the
-- cross-thread stack to `free`: `local_free` in its order, then the stack in reverse order, then
-- the old `free`; the live blocks stay, and `used` counts no block but them.
pub collect_lem :
    (hardened : Bool) (pg : Page) (mem : Memory) (fs ls ts live : List ℕ)
    → IsPage hardened pg mem fs ls ts live
    → Leaves
        (λ pg' mem'. IsPage hardened pg' mem' (ls ++ move ts fs) [] [] live × SameLayout pg pg')
        (collect hardened pg mem)
unfolding collect
collect_lem hardened pg mem fs ls ts live is =
    collect_rest hardened pg (move ts fs) ls live (collect_threads hardened pg mem)
      (collect_threads_lem hardened pg mem fs ls ts live is)
