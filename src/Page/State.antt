-- ===== src/Page/State.antt =====
-- src/page.rs, the state of a page: which list each of its blocks is on.
use mimalloc_rs.Prelude.{
  ℕ, suc, ◌+◌, ◌^◌, ◌≤◌, ◌<◌, ◌≡◌, ◌∙◌, ap, ◌≢◌, Bool, arith, List, ◌∷◌, count, length,
}
use mimalloc_rs.FreeList.{Keys, Memory}
use mimalloc_rs.Page.{Page, tf_block, pop, free_local}
use mimalloc_rs.Page.Lists.{
  Readable, Chain, slots, slots_mono, slots_distinct, slots_pos, Chain-set_next, Chain-cons,
  Chain-Readable,
}

-- The blocks of `free`, of `local_free`, of the stack from `tf` on, and the live ones; every block
-- below the capacity is on exactly one of the four lists.
pub record Split (hardened : Bool) (k : Keys) (head local_head tf in_use cap limit block area : ℕ)
    (mem : Memory) (fs ls ts live : List ℕ) : Type 0 where
  pub free : Chain hardened k mem head fs
  pub local : Chain hardened k mem local_head ls
  pub thread : Chain hardened k mem tf ts
  pub blocks :
      (a : ℕ)
      → count a fs + (count a ls + (count a ts + count a live)) ≡ count a (slots area block cap)
  pub used : in_use ≡ length ts + length live
  pub total : length fs + (length ls + (length ts + length live)) ≡ cap
  pub capacity : cap ≤ limit
  pub reserved : limit < 2 ^ 32
  pub size : 1 ≤ block
  pub start : 1 ≤ area
  pub null : Readable hardened k 0
  pub linkable : (a : ℕ) → 1 ≤ count a (slots area block limit) → Readable hardened k a

-- A page whose cross-thread blocks are the stack from `tf` on.
abbrev pub IsSplit : Bool → Page → ℕ → Memory → List ℕ → List ℕ → List ℕ → List ℕ → Type 0
IsSplit hardened pg tf mem fs ls ts live =
    Split hardened pg.keys pg.free pg.local_free tf pg.used pg.capacity pg.reserved pg.block_size
      pg.page_start mem fs ls ts live

abbrev pub IsPage : Bool → Page → Memory → List ℕ → List ℕ → List ℕ → List ℕ → Type 0
IsPage hardened pg mem fs ls ts live =
    IsSplit hardened pg (tf_block pg.xthread_free) mem fs ls ts live

-- The owner's word of a page, its heap and bin, and the arena and the slices it lies in.
abbrev pub provenance : Page → ℕ × ℕ × ℕ × ℕ × ℕ × ℕ
provenance pg = (pg.xthread_id, pg.theap, pg.bin, pg.arena, pg.slice_index, pg.slice_count)

-- The fields of a page that its lists do not change.
abbrev pub SameLayout : Page → Page → Type 0
SameLayout pg pg' =
    (pg'.reserved ≡ pg.reserved)
    × (pg'.block_size ≡ pg.block_size)
    × (pg'.page_start ≡ pg.page_start)
    × (pg'.keys ≡ pg.keys)
    × (provenance pg' ≡ provenance pg)

pub SameLayout-trans : (a b c : Page) → SameLayout a b → SameLayout b c → SameLayout a c
SameLayout-trans a b c s t = (t.0 ∙ s.0, t.1 ∙ s.1, t.2 ∙ s.2, t.3 ∙ s.3, t.4 ∙ s.4)

module _ (hardened : Bool) (pg : Page) (tf : ℕ) (mem : Memory) (fs ls ts live : List ℕ)
    (is : IsSplit hardened pg tf mem fs ls ts live) where
  -- No block is on two lists, or twice on one.
  pub once : (a : ℕ) → count a fs + (count a ls + (count a ts + count a live)) ≤ 1
  once a =
      omega (arith, is.blocks a, slots_distinct pg.page_start pg.block_size pg.capacity a is.size)

  -- Every block of the page can be linked to.
  pub linkable_block :
      (a : ℕ)
      → 1 ≤ count a fs + (count a ls + (count a ts + count a live))
      → Readable hardened pg.keys a
  linkable_block a h = is.linkable a (
      omega (
        arith,
        is.blocks a,
        slots_mono pg.page_start pg.block_size pg.capacity pg.reserved a is.capacity,
      ))

  pub block_nonzero : (a : ℕ) → 1 ≤ count a fs + (count a ls + (count a ts + count a live)) → a ≢ 0
  block_nonzero a h e = ground (
    arith,
    is.blocks a,
    ap (λ z. count z (slots pg.page_start pg.block_size pg.capacity)) e,
    slots_pos pg.page_start pg.block_size pg.capacity is.start,
  )

  pub free_Readable : Readable hardened pg.keys pg.free
  free_Readable =
      Chain-Readable hardened pg.keys mem pg.free fs is.null (λ a h. linkable_block a (omega arith))
        is.free

  pub local_Readable : Readable hardened pg.keys pg.local_free
  local_Readable =
      Chain-Readable hardened pg.keys mem pg.local_free ls is.null
        (λ a h. linkable_block a (omega arith)) is.local

  pub thread_Readable : Readable hardened pg.keys tf
  thread_Readable =
      Chain-Readable hardened pg.keys mem tf ts is.null (λ a h. linkable_block a (omega arith))
        is.thread

pub count_head : (b : ℕ) (xs : List ℕ) → count b (b ∷ xs) ≡ suc (count b xs)
count_head b xs = ground arith

-- Freeing a live block of a well-formed page in its owner moves it to the front of `local_free`,
-- and `used` counts one block less; the other lists keep their blocks and their order.
pub free_local_lem :
    (hardened : Bool) (pg : Page) (mem : Memory) (fs ls ts live : List ℕ) (b : ℕ)
    → IsPage hardened pg mem fs ls ts (b ∷ live)
    → let r = free_local hardened pg mem b in IsPage hardened r.0 r.1 fs (b ∷ ls) ts live
unfolding free_local
free_local_lem hardened pg mem fs ls ts live b is =
    let single = once hardened pg (tf_block pg.xthread_free) mem fs ls ts (b ∷ live) is b in
    let r = local_Readable hardened pg (tf_block pg.xthread_free) mem fs ls ts (b ∷ live) is in
    let frame = Chain-set_next hardened pg.keys mem b pg.local_free in
    record {
      free = frame fs pg.free r (omega (arith, single, count_head b live)) is.free;
      local =
          Chain-cons hardened pg.keys mem b pg.local_free ls r
            (block_nonzero hardened pg (tf_block pg.xthread_free) mem fs ls ts (b ∷ live) is b
              (omega (arith, count_head b live)))
            (omega (arith, single, count_head b live)) is.local;
      thread =
          frame ts (tf_block pg.xthread_free) r (omega (arith, single, count_head b live))
            is.thread;
      blocks = λ a. omega (arith, is.blocks a);
      used = omega (arith, is.used);
      total = omega (arith, is.total);
      capacity = is.capacity;
      reserved = is.reserved;
      size = is.size;
      start = is.start;
      null = is.null;
      linkable = is.linkable;
    }

-- Popping takes the head of `free`, which becomes live, and `used` counts one block more.
pub pop_lem :
    (hardened : Bool) (pg : Page) (mem : Memory) (b : ℕ) (fs ls ts live : List ℕ)
    → IsPage hardened pg mem (b ∷ fs) ls ts live
    → IsPage hardened (pop hardened pg mem b).0 mem fs ls ts (b ∷ live)
unfolding pop
pop_lem hardened pg mem b fs ls ts live is = record {
  free = is.free.2;
  local = is.local;
  thread = is.thread;
  blocks = λ a. omega (arith, is.blocks a);
  used = omega (arith, is.used, is.total, is.capacity, is.reserved);
  total = omega (arith, is.total);
  capacity = is.capacity;
  reserved = is.reserved;
  size = is.size;
  start = is.start;
  null = is.null;
  linkable = is.linkable;
}
