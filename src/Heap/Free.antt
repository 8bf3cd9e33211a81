-- ===== src/Heap/Free.antt =====
-- src/heap.rs: freeing a block, from any thread. The word of the page's owner and flags, combined
-- with the calling thread's id, tells which way to go. A build without the features that check for
-- invalid frees; `none` also stands for a walk or a loop that goes on past its rounds.
pub mod Dispatch
pub mod Last
use mimalloc_rs.Prelude.{
  ℕ, suc, zero, ◌+◌, ◌-◌, bit_and, bit_xor, Bool, true, false, not, ◌&&◌, Option, none, some, leb,
  ◌==◌, if◌then◌else◌, get_elem?, set,
}
use mimalloc_rs.Word.{complement}
use mimalloc_rs.Os.{System}
use mimalloc_rs.Arena.{Arena}
use mimalloc_rs.Arena.Abandon.{page_abandon, page_unabandon}
use mimalloc_rs.PageMap.{lookup}
use mimalloc_rs.Page.{Page, collect, free_local, thread_free_push, is_full, try_unown}
use mimalloc_rs.Page.Partly.{collect_partly}
use mimalloc_rs.Page.Flags.{
  flag_mask, abandoned_mapped, is_abandoned_mapped, is_all_free, set_owner,
}
use mimalloc_rs.Heap.Blocks.{recover_block_start}
use mimalloc_rs.Heap.Theap.{World, set_page, retire_page, release_page_slices}

abbrev pub small_size_max : ℕ
small_size_max = 1024

-- A page and the memory after an operation on them.
abbrev pub store : World → ℕ → Page → (ℕ → ℕ) → World
store w p pg mem = record (set_page w p pg) { mem = mem }

-- An arena, by its address, after an operation on it.
unfoldable pub on_arena : World → ℕ → (Arena → Option Arena) → Option World
on_arena w i f = elim (get_elem? w.subproc.arenas (i - 1)) [
  | none ↦ none
  | some a ↦ elim (f a) [
    | none ↦ none
    | some a' ↦
        some (record w { subproc = record w.subproc { arenas = set w.subproc.arenas (i - 1) a' } })
  ]
]

unfoldable pub unabandon_if_mapped : World → ℕ → Option World
unabandon_if_mapped w p =
    let page = w.pages p in
    if is_abandoned_mapped page && not (page.arena == 0)
    then on_arena w page.arena (λ a. page_unabandon a page.slice_index page.bin)
    else some w

-- The platform grants the memory of a registry of abandoned pages, or not.
module _ (hardened : Bool) (sys : System) (granted : Bool) where
  -- Register a page that has room in its arena, and mark it.
  unfoldable pub reabandon : World → ℕ → Option World
  reabandon w p =
      let page = w.pages p in
      elim (on_arena w page.arena (λ a. page_abandon granted a page.slice_index page.bin)) [
        | none ↦ none
        | some w' ↦ some (set_page w' p (set_owner (w'.pages p) abandoned_mapped))
      ]

  -- The second and the third step of a round: the world, and whether ownership was released.
  unfoldable pub hand_over : World → ℕ → Option (World × Bool)
  hand_over w p = elim (is_full hardened (w.pages p) w.mem) [
    | none ↦ none
    | some (pg, mem, full) ↦
        let w1 = store w p pg mem in
        elim (if not full && not (is_abandoned_mapped pg) && not (pg.arena == 0)
          then reabandon w1 p
          else some w1) [
            | none ↦ none
            | some w2 ↦ let (pg', done) = try_unown (w2.pages p) in some (set_page w2 p pg', done)
          ]
  ]

  unfoldable pub gather : Bool → World → ℕ → ℕ → Option World
  gather first w p mt_free =
      let page = w.pages p in
      elim (if first && leb page.block_size small_size_max
        then collect_partly hardened page w.mem mt_free
        else collect hardened page w.mem) [ none ↦ none | some (pg, mem) ↦ some (store w p pg mem) ]

  -- The loop, with the rounds that are left.
  unfoldable pub free_try_collect_mt : ℕ → Bool → World → ℕ → ℕ → Option World
  free_try_collect_mt zero first w p mt_free = none
  free_try_collect_mt (suc rounds) first w p mt_free = elim (gather first w p mt_free) [
    | none ↦ none
    | some w1 ↦
        let release : Option World = elim (unabandon_if_mapped w1 p) [
          | none ↦ none
          | some w2 ↦ release_page_slices sys w2 p
        ] in
        let go_on : Option World = elim (hand_over w1 p) [
          | none ↦ none
          | some (w2, true) ↦ some w2
          | some (w2, false) ↦ free_try_collect_mt rounds false w2 p mt_free
        ] in
        if is_all_free (w1.pages p) then release else go_on
  ]

  -- The block's page is the caller's.
  unfoldable pub free_owned : World → ℕ → ℕ → Option World
  free_owned w p block =
      let (pg, mem) = free_local hardened (w.pages p) w.mem block in
      let w1 = store w p pg mem in
      if is_all_free (w1.pages p) then retire_page sys w1 p else some w1

  -- The block's page is another thread's, or abandoned: two rounds are enough without contention.
  unfoldable pub free_shared : World → ℕ → ℕ → Option World
  free_shared w p block =
      let (pg, mem, claimed) = thread_free_push hardened (w.pages p) w.mem block in
      let w1 = store w p pg mem in
      if claimed then free_try_collect_mt 2 true w1 p block else some w1

  unfoldable pub free_cold : World → ℕ → ℕ → ℕ → Option World
  free_cold w ptr p xtid =
      let page = w.pages p in
      if bit_and xtid (complement flag_mask) == 0
      then free_owned w p (recover_block_start page ptr page.block_size)
      else free_shared w p (
          if bit_and xtid flag_mask == 0 then ptr else recover_block_start page ptr page.block_size)

  -- `tid` is the calling thread's.
  unfoldable pub free : World → ℕ → ℕ → Option World
  free w tid ptr =
      let p = lookup w.map ptr in
      let xtid = bit_xor tid (w.pages p).xthread_id in
      if p == 0 then some w else (if xtid == 0 then free_owned w p ptr else free_cold w ptr p xtid)
