-- ===== src/Page/Splice.antt =====
-- src/page.rs, `collect`: the cross-thread stack is spliced to the free list.
use mimalloc_rs.Prelude.{
  ℕ, suc, zero, ◌+◌, ◌-◌, ◌%◌, ◌^◌, ◌<◌, ◌≡◌, refl, sym, ap, ◌∙◌, Bool, true, false, arith, ◌==◌,
  List, [], ◌∷◌, subst, length, Option, none, some,
}
use mimalloc_rs.FreeList.{Memory, next, set_next}
use mimalloc_rs.Page.{Page, tf_block, tf_create, tf_is_owned, splice, collect_threads}
use mimalloc_rs.Page.Lists.{Chain-set_next, Chain-cons}
use mimalloc_rs.Page.State.{IsSplit, IsPage, SameLayout, once, free_Readable, count_head}

-- A walk ends, and in a state with the property.
abbrev pub Leaves : (Page → Memory → Type 0) → Option (Page × Memory) → Type 0
Leaves P none = ⊥
Leaves P (some (pg, mem)) = P pg mem

-- The blocks of a stack, moved one by one.
abbrev pub move : List ℕ → List ℕ → List ℕ
move [] fs = fs
move (t ∷ ts) fs = move ts (t ∷ fs)

-- One round of the splice.
splice_step :
    (hardened : Bool) (pg : Page) (tf : ℕ) (mem : Memory) (fs ls ts live : List ℕ)
    → IsSplit hardened pg tf mem fs ls (tf ∷ ts) live
    → IsSplit hardened
        (record pg { free = tf; used = (pg.used + 2 ^ 32 - 1) % 2 ^ 32 })
        (next hardened pg.keys mem tf)
        (set_next hardened pg.keys mem tf pg.free)
        (tf ∷ fs)
        ls
        ts
        live
splice_step hardened pg tf mem fs ls ts live is =
    let single = once hardened pg tf mem fs ls (tf ∷ ts) live is tf in
    let r = free_Readable hardened pg tf mem fs ls (tf ∷ ts) live is in
    let frame = Chain-set_next hardened pg.keys mem tf pg.free in
    record {
      free =
          Chain-cons hardened pg.keys mem tf pg.free fs r is.thread.1
            (omega (arith, single, count_head tf ts)) is.free;
      local = frame ls pg.local_free r (omega (arith, single, count_head tf ts)) is.local;
      thread =
          frame ts (next hardened pg.keys mem tf) r (omega (arith, single, count_head tf ts))
            is.thread.2;
      blocks = λ a. omega (arith, is.blocks a);
      used = omega (arith, is.used, is.total, is.capacity, is.reserved);
      total = omega (arith, is.total);
      capacity = is.capacity;
      reserved = is.reserved;
      size = is.size;
      start = is.start;
      null = is.null;
      linkable = is.linkable;
    }

abbrev Spliced : Bool → Page → List ℕ → List ℕ → List ℕ → Page → Memory → Type 0
Spliced hardened pg fs ls live pg' mem' =
    IsSplit hardened pg' 0 mem' fs ls [] live
    × SameLayout pg pg'
    × (pg'.xthread_free ≡ pg.xthread_free)

splice_lem :
    (hardened : Bool) (rounds tf : ℕ) (pg : Page) (mem : Memory) (fs ls ts live : List ℕ)
    → length ts < rounds
    → IsSplit hardened pg tf mem fs ls ts live
    → Leaves (Spliced hardened pg (move ts fs) ls live) (splice hardened rounds tf pg mem)
unfolding splice
splice_lem hardened zero tf pg mem fs ls ts live few is = absurd (omega arith)
splice_lem hardened (suc rounds) tf pg mem fs ls [] live few is =
    let end : (tf == 0) ≡ true = ground (arith, is.thread) in
    rw end (
      subst (λ z. IsSplit hardened pg z mem fs ls [] live) is.thread is,
      (refl, refl, refl, refl, refl),
      refl,
    )
splice_lem hardened (suc rounds) tf pg mem fs ls (t ∷ ts) live few is =
    let (e, ne, c) = is.thread in
    let more : (tf == 0) ≡ false = ground (arith, e) in
    let is' = subst (λ z. IsSplit hardened pg tf mem fs ls (z ∷ ts) live) (sym e) is in
    subst
      (λ z.
        Leaves (Spliced hardened pg (move ts (z ∷ fs)) ls live)
          (splice hardened (suc rounds) tf pg mem))
      e
      (rw more (
        splice_lem hardened rounds (next hardened pg.keys mem tf)
          (record pg { free = tf; used = (pg.used + 2 ^ 32 - 1) % 2 ^ 32 })
          (set_next hardened pg.keys mem tf pg.free) (tf ∷ fs) ls ts live (omega arith)
          (splice_step hardened pg tf mem fs ls ts live is')))

tf_block-empty : (owned : Bool) → tf_block (tf_create 0 owned) ≡ 0
unfolding tf_block tf_create
tf_block-empty false = refl
tf_block-empty true = refl

abbrev pub Collected : Bool → Page → List ℕ → List ℕ → List ℕ → Page → Memory → Type 0
Collected hardened pg fs ls live pg' mem' =
    IsPage hardened pg' mem' fs ls [] live × SameLayout pg pg'

pub Leaves-map :
    (P Q : Page → Memory → Type 0) (r : Option (Page × Memory))
    → ((pg : Page) (mem : Memory) → P pg mem → Q pg mem)
    → Leaves P r
    → Leaves Q r
Leaves-map P Q none f l = l
Leaves-map P Q (some (pg, mem)) f l = f pg mem l

pub collect_threads_lem :
    (hardened : Bool) (pg : Page) (mem : Memory) (fs ls ts live : List ℕ)
    → IsPage hardened pg mem fs ls ts live
    → Leaves (Collected hardened pg (move ts fs) ls live) (collect_threads hardened pg mem)
unfolding collect_threads
collect_threads_lem hardened pg mem fs ls [] live is =
    let end : (tf_block pg.xthread_free == 0) ≡ true = ground (arith, is.thread) in
    rw end (is, (refl, refl, refl, refl, refl))
collect_threads_lem hardened pg mem fs ls (t ∷ ts) live is =
    let (e, ne, c) = is.thread in
    let more : (tf_block pg.xthread_free == 0) ≡ false = ground (arith, e) in
    let owned = tf_is_owned pg.xthread_free in
    let pg' : Page = record pg { xthread_free = tf_create 0 owned; free_is_zero = false } in
    rw more (
      Leaves-map (Spliced hardened pg' (move ts (t ∷ fs)) ls live)
        (Collected hardened pg (move ts (t ∷ fs)) ls live) _
        (λ q m (split, same, tail). (
          subst (λ z. IsSplit hardened q z m (move ts (t ∷ fs)) ls [] live)
              (sym (ap tf_block tail ∙ tf_block-empty owned)) split,
          same,
        ))
        (splice_lem hardened (pg.capacity + 1) (tf_block pg.xthread_free) pg' mem fs ls (t ∷ ts)
          live (omega (arith, is.total)) is))
