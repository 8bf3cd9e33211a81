-- ===== src/Page.antt =====
-- src/page.rs: a page of equal blocks with its three free lists. The owner's operations are those
-- of one thread while no other thread pushes, so a compare-exchange on `xthread_free` succeeds at
-- once. `none` stands for a walk that goes on past the blocks of the page; walks have one more
-- round than the page has blocks.
pub mod Tag
pub mod Lists
pub mod Init
pub mod State
pub mod Splice
pub mod Collect
pub mod Partly
pub mod Extend
pub mod Alloc
pub mod Full
pub mod Owner
pub mod Flags
mod Tests
use mimalloc_rs.Prelude.{
  ℕ, zero, suc, ◌+◌, ◌-◌, ◌*◌, ◌/◌, ◌%◌, ◌^◌, min, max, bit_and, bit_or, Bool, true, false, not,
  Option, none, some, ltb, leb, ◌==◌, if◌then◌else◌,
}
use mimalloc_rs.Word.{complement, wrapping_sub}
use mimalloc_rs.Layout.{align_up, max_align_size}
use mimalloc_rs.FreeList.{Keys, Memory, next, set_next}

pub record Page : Type 0 where
  pub xthread_id : ℕ
  pub free : ℕ
  pub local_free : ℕ
  pub xthread_free : ℕ
  pub used : ℕ
  pub capacity : ℕ
  pub reserved : ℕ
  pub block_size : ℕ
  pub page_start : ℕ
  pub keys : Keys
  pub next_page : ℕ
  pub prev_page : ℕ
  pub slice_index : ℕ
  pub slice_count : ℕ
  pub theap : ℕ
  pub arena : ℕ
  pub bin : ℕ
  pub free_is_zero : Bool
  pub retire_expire : ℕ

-- The ownership tag in the lowest bit of a head word.
abbrev pub tf_owned : ℕ
tf_owned = 1

unfoldable pub tf_block : ℕ → ℕ
tf_block tf = bit_and tf (complement tf_owned)

unfoldable pub tf_is_owned : ℕ → Bool
tf_is_owned tf = not (bit_and tf tf_owned == 0)

unfoldable pub tf_create : ℕ → Bool → ℕ
tf_create block owned = bit_or (bit_and block (complement tf_owned)) (if owned then 1 else 0)

abbrev pub max_extend_size : ℕ
max_extend_size = 4096

abbrev pub min_extend : ℕ
min_extend = 1

abbrev pub slice_size : ℕ
slice_size = 65536

-- Where the blocks start in a page's slices; `header_size` is the size of the page's header, which
-- the compiler lays out.
unfoldable pub start_off : ℕ → ℕ
start_off header_size = align_up (align_up header_size max_align_size) max_align_size

-- A page in the slices from `slice_ptr` on.
unfoldable pub init : ℕ → ℕ → ℕ → ℕ → ℕ → Keys → Bool → Page
init header_size slice_ptr index slices size k is_zero =
    let region = slices * slice_size in
    let area = region - start_off header_size in
    record {
      xthread_id = 0;
      free = 0;
      local_free = 0;
      xthread_free = tf_owned;
      used = 0;
      capacity = 0;
      reserved = area / size % 2 ^ 32;
      block_size = size;
      page_start = slice_ptr + start_off header_size;
      keys = k;
      next_page = 0;
      prev_page = 0;
      slice_index = index;
      slice_count = slices;
      theap = 0;
      arena = 0;
      bin = 0;
      free_is_zero = is_zero;
      retire_expire = 0;
    }

-- The operations on the ownership tag of the cross-thread stack.
unfoldable pub is_owned : Page → Bool
is_owned pg = tf_is_owned pg.xthread_free

unfoldable pub claim_ownership : Page → Page × Bool
claim_ownership pg =
    let cur = pg.xthread_free in
    if tf_is_owned cur
    then (pg, false)
    else (record pg { xthread_free = tf_create (tf_block cur) true }, true)

unfoldable pub try_unown : Page → Page × Bool
try_unown pg =
    if pg.xthread_free == tf_create 0 true
    then (record pg { xthread_free = tf_create 0 false }, true)
    else (pg, false)

unfoldable pub set_unowned : Page → Page
set_unowned pg = record pg { xthread_free = tf_create (tf_block pg.xthread_free) false }

-- What an allocation leaves: the page, the memory, and the block, if there is one.
abbrev pub Allocated : Type 0
Allocated = Page × Memory × Option ℕ

-- How many blocks one extension adds.
abbrev pub extend_count : Page → ℕ
extend_count pg = min (pg.reserved - pg.capacity) (max (max_extend_size / pg.block_size) min_extend)

module _ (hardened : Bool) where
  -- Thread the blocks `[cap, cap + left)` in front of `head`, the highest first.
  unfoldable pub extend_loop : ℕ → Page → ℕ → ℕ → Memory → ℕ × Memory
  extend_loop zero pg cap head mem = (head, mem)
  extend_loop (suc left) pg cap head mem =
      let b = pg.page_start + (cap + left) * pg.block_size in
      extend_loop left pg cap b (set_next hardened pg.keys mem b head)

  unfoldable pub extend_free : Page → Memory → Page × Memory
  extend_free pg mem =
      let (head, mem') = extend_loop (extend_count pg) pg pg.capacity pg.free mem in
      if leb pg.reserved pg.capacity
      then (pg, mem)
      else (record pg { free = head; capacity = (pg.capacity + extend_count pg) % 2 ^ 32 }, mem')

  -- Splice the captured stack into `free`, one block at a time.
  unfoldable pub splice : ℕ → ℕ → Page → Memory → Option (Page × Memory)
  splice zero tf pg mem = none
  splice (suc rounds) tf pg mem =
      let rest =
        splice rounds (next hardened pg.keys mem tf)
          (record pg { free = tf; used = (pg.used + 2 ^ 32 - 1) % 2 ^ 32 })
          (set_next hardened pg.keys mem tf pg.free) in
      if tf == 0 then some (pg, mem) else rest

  -- The first step of `collect`: capture the cross-thread stack, keeping the ownership bit.
  unfoldable pub collect_threads : Page → Memory → Option (Page × Memory)
  collect_threads pg mem =
      let tfree = pg.xthread_free in
      let rest =
        splice (pg.capacity + 1) (tf_block tfree)
          (record pg { xthread_free = tf_create 0 (tf_is_owned tfree); free_is_zero = false })
          mem in
      if tf_block tfree == 0 then some (pg, mem) else rest

  unfoldable pub find_tail : ℕ → Keys → Memory → ℕ → Option ℕ
  find_tail zero keys mem tail = none
  find_tail (suc rounds) keys mem tail =
      let rest = find_tail rounds keys mem (next hardened keys mem tail) in
      if next hardened keys mem tail == 0 then some tail else rest

  -- Link the tail of `local_free` to `free`, which then starts at the head of `local_free`.
  unfoldable pub append_local : Page → Memory → Option (Page × Memory)
  append_local pg mem = elim (find_tail (pg.capacity + 1) pg.keys mem pg.local_free) [
    | none ↦ none
    | some tail ↦
        some (record pg { free = pg.local_free }, set_next hardened pg.keys mem tail pg.free)
  ]

  -- The second step of `collect`.
  unfoldable pub collect_local : Page → Memory → Option (Page × Memory)
  collect_local pg mem =
      let spliced =
        if pg.free == 0
        then some (record pg { free = pg.local_free }, mem)
        else append_local pg mem in
      if pg.local_free == 0 then some (pg, mem) else elim spliced [
        | none ↦ none
        | some (pg', mem') ↦ some (record pg' { free_is_zero = false; local_free = 0 }, mem')
      ]

  unfoldable pub collect : Page → Memory → Option (Page × Memory)
  collect pg mem = elim (collect_threads pg mem) [
    | none ↦ none
    | some (pg', mem') ↦ collect_local pg' mem'
  ]

  -- Take the head `b` of `free`.
  unfoldable pub pop : Page → Memory → ℕ → Page × ℕ
  pop pg mem b =
      (record pg { free = next hardened pg.keys mem b; used = (pg.used + 1) % 2 ^ 32 }, b)

  abbrev pub popped : Page → Memory → Allocated
  popped pg mem = let (pg', b) = pop pg mem pg.free in (pg', mem, some b)

  unfoldable pub extend_pop : Page → Memory → Allocated
  extend_pop pg mem =
      let (pg', mem') = extend_free pg mem in
      if pg'.free == 0 then (pg', mem', none) else popped pg' mem'

  unfoldable pub alloc_slow : Page → Memory → Option Allocated
  alloc_slow pg mem = elim (collect pg mem) [
    | none ↦ none
    | some (pg', mem') ↦ some (if pg'.free == 0 then extend_pop pg' mem' else popped pg' mem')
  ]

  unfoldable pub alloc : Page → Memory → Option Allocated
  alloc pg mem = if pg.free == 0 then alloc_slow pg mem else some (popped pg mem)

  unfoldable pub free_local : Page → Memory → ℕ → Page × Memory
  free_local pg mem b = (
    record pg { local_free = b; used = pg.used - 1 },
    set_next hardened pg.keys mem b pg.local_free,
  )

  -- Push onto the cross-thread stack; the answer is whether the page was unowned.
  unfoldable pub thread_free_push : Page → Memory → ℕ → Page × Memory × Bool
  thread_free_push pg mem b =
      let cur = pg.xthread_free in
      (
        record pg { xthread_free = tf_create b true },
        set_next hardened pg.keys mem b (tf_block cur),
        not (tf_is_owned cur),
      )

  unfoldable pub is_full : Page → Memory → Option (Page × Memory × Bool)
  is_full pg mem =
      let collected : Option (Page × Memory × Bool) = elim (collect pg mem) [
        | none ↦ none
        | some (pg', mem') ↦
            some (pg', mem', if pg'.free == 0 then leb pg'.reserved pg'.capacity else false)
      ] in
      if pg.free == 0 then collected else some (pg, mem, false)
