-- ===== src/Page/Partly.antt =====
-- src/page.rs, `collect_partly`: the stack below its top goes to `local_free`.
pub mod Migrate
use mimalloc_rs.Prelude.{
  ℕ, suc, zero, ◌+◌, ◌-◌, ◌%◌, ◌^◌, ◌≤◌, ◌<◌, ◌≡◌, ◌↔◌, ◌⊎◌, refl, sym, ap, ◌∙◌, ◌≢◌, inl, inr,
  Bool, true, false, arith, ◌==◌, if◌then◌else◌, Bool-cases, List, [], ◌∷◌, ◌++◌, subst, count,
  count-append, length, length-append, Option, none, some,
}
use mimalloc_rs.FreeList.{Keys, Memory, next, set_next}
use mimalloc_rs.FreeList.Codec.{next-set_next}
use mimalloc_rs.Page.{Page, tf_block, collect, is_owned}
use mimalloc_rs.Page.Lists.{Readable, Chain, Chain-set_next, Chain-null}
use mimalloc_rs.Page.State.{IsPage, SameLayout, once, local_Readable, count_head}
use mimalloc_rs.Page.Splice.{Leaves, Leaves-map}
use mimalloc_rs.Page.Collect.{last, last_count, Chain-append, collect_lem}

module _ (hardened : Bool) where
  -- The last block of the chain at `tail`, and how many blocks there are with those before.
  unfoldable pub count_tail : ℕ → Keys → Memory → ℕ → ℕ → Option (ℕ × ℕ)
  count_tail zero keys mem tail n = none
  count_tail (suc rounds) keys mem tail n =
      let rest = count_tail rounds keys mem (next hardened keys mem tail) (n + 1) in
      if next hardened keys mem tail == 0 then some (tail, n) else rest

  -- The blocks below the top of the stack, `next` and on, with the top's link cleared.
  unfoldable pub migrate : Page → Memory → ℕ → Option (Page × Memory)
  migrate pg mem next = elim (count_tail (pg.capacity + 1) pg.keys mem next 1) [
    | none ↦ none
    | some (tail, n) ↦
        let used = (pg.used + 2 ^ 32 - n) % 2 ^ 32 in
        let mem' = set_next hardened pg.keys mem tail pg.local_free in
        if pg.free == 0
        then some (record pg { free = next; local_free = 0; used = used }, mem')
        else some (record pg { local_free = next; used = used }, mem')
  ]

  unfoldable pub collect_partly : Page → Memory → ℕ → Option (Page × Memory)
  collect_partly pg mem head =
      let below = next hardened pg.keys mem head in
      let migrated : Option (Page × Memory) =
        if below == 0
        then some (pg, mem)
        else migrate pg (set_next hardened pg.keys mem head 0) below in
      let collected : Option (Page × Memory) = elim migrated [
        | none ↦ none
        | some (pg', mem') ↦ if pg'.used == 1 then collect hardened pg' mem' else some (pg', mem')
      ] in
      if head == 0 then some (pg, mem) else collected
