-- ===== src/Page/Extend.antt =====
-- src/page.rs, the loop that threads new blocks on the free list.
use mimalloc_rs.Prelude.{
  ℕ, suc, zero, ◌+◌, ◌*◌, ◌≤◌, ◌≡◌, sym, ap, Bool, arith, List, ◌∷◌, subst, count, length,
}
use mimalloc_rs.FreeList.{Memory, set_next}
use mimalloc_rs.Page.{Page, tf_block, extend_loop}
use mimalloc_rs.Page.Lists.{
  Readable, Chain, slots, slots_mono, slots_distinct, slot_fresh, Chain-set_next, Chain-cons,
}
use mimalloc_rs.Page.State.{count_head}

-- The blocks `[cap, cap + left)` in front of `fs`, the lowest first.
abbrev pub extended : ℕ → ℕ → ℕ → ℕ → List ℕ → List ℕ
extended start size cap zero fs = fs
extended start size cap (suc left) fs =
    extended start size cap left ((start + (cap + left) * size) ∷ fs)

-- The lists while `left` blocks are still to be put on `free`, of the `n` that extend a page.
pub record Extending (hardened : Bool) (pg : Page) (n left head : ℕ) (mem : Memory)
    (fs ls ts live : List ℕ) : Type 0 where
  pub free : Chain hardened pg.keys mem head fs
  pub local : Chain hardened pg.keys mem pg.local_free ls
  pub thread : Chain hardened pg.keys mem (tf_block pg.xthread_free) ts
  pub head_link : Readable hardened pg.keys head
  pub todo : left ≤ n
  pub blocks :
      (a : ℕ)
      → count a fs
          + (count a ls + (count a ts + count a live))
          + count a (slots pg.page_start pg.block_size (pg.capacity + left))
        ≡ count a (slots pg.page_start pg.block_size pg.capacity)
          + count a (slots pg.page_start pg.block_size (pg.capacity + n))
  pub total : length fs + (length ls + (length ts + length live)) + left ≡ pg.capacity + n

-- The next block to put on `free` is on no list.
extend_fresh :
    (start size cap n left : ℕ)
    → 1 ≤ size
    → suc left ≤ n
    → (c : ℕ)
    → let b = start + (cap + left) * size in
      c + count b (slots start size (cap + suc left))
        ≡ count b (slots start size cap) + count b (slots start size (cap + n))
      → c ≡ 0
extend_fresh start size cap n left pos le c h =
    let b = start + (cap + left) * size in
    let e : cap + suc left ≡ suc (cap + left) = omega arith in
    let one : 1 ≤ count b (slots start size (cap + suc left)) =
      subst (λ z. 1 ≤ count b (slots start size z)) (sym e)
        (omega (arith, count_head b (slots start size (cap + left)))) in
    omega (
      arith,
      h,
      one,
      slot_fresh start size cap (cap + left) pos (omega arith),
      slots_distinct start size (cap + n) b pos,
    )

module _ (hardened : Bool) (pg : Page) (n : ℕ) (ls ts live : List ℕ) (size : 1 ≤ pg.block_size)
    (start : 1 ≤ pg.page_start)
    (linkable : (a : ℕ)
      → 1 ≤ count a (slots pg.page_start pg.block_size (pg.capacity + n))
      → Readable hardened pg.keys a) where
  extend_step :
      (left head : ℕ) (mem : Memory) (fs : List ℕ)
      → Extending hardened pg n (suc left) head mem fs ls ts live
      → let b = pg.page_start + (pg.capacity + left) * pg.block_size in
        Extending hardened pg n left b (set_next hardened pg.keys mem b head) (b ∷ fs) ls ts live
  extend_step left head mem fs is =
      let b = pg.page_start + (pg.capacity + left) * pg.block_size in
      let e : pg.capacity + suc left ≡ suc (pg.capacity + left) = omega arith in
      let out : count b fs + (count b ls + (count b ts + count b live)) ≡ 0 =
        extend_fresh pg.page_start pg.block_size pg.capacity n left size is.todo _ (is.blocks b) in
      let frame = Chain-set_next hardened pg.keys mem b head in
      let in_range : 1 ≤ count b (slots pg.page_start pg.block_size (pg.capacity + n)) = omega (
        arith,
        count_head b (slots pg.page_start pg.block_size (pg.capacity + left)),
        slots_mono pg.page_start pg.block_size (suc (pg.capacity + left)) (pg.capacity + n) b
            (omega (arith, is.todo)),
      ) in
      record {
        free =
            Chain-cons hardened pg.keys mem b head fs is.head_link (omega (arith, start))
              (omega (arith, out)) is.free;
        local = frame ls pg.local_free is.head_link (omega (arith, out)) is.local;
        thread = frame ts (tf_block pg.xthread_free) is.head_link (omega (arith, out)) is.thread;
        head_link = linkable b in_range;
        todo = omega (arith, is.todo);
        blocks = λ a.
            omega (arith, is.blocks a, ap (λ z. count a (slots pg.page_start pg.block_size z)) e);
        total = omega (arith, is.total);
      }

  pub extend_loop_lem :
      (left head : ℕ) (mem : Memory) (fs : List ℕ)
      → Extending hardened pg n left head mem fs ls ts live
      → let r = extend_loop hardened left pg pg.capacity head mem in
        Extending hardened pg n 0 r.0 r.1
          (extended pg.page_start pg.block_size pg.capacity left fs)
          ls
          ts
          live
  unfolding extend_loop
  extend_loop_lem zero head mem fs is = is
  extend_loop_lem (suc left) head mem fs is =
      let b = pg.page_start + (pg.capacity + left) * pg.block_size in
      extend_loop_lem left b (set_next hardened pg.keys mem b head) (b ∷ fs)
        (extend_step left head mem fs is)
