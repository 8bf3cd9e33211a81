-- ===== src/Heap/Tests.antt =====
-- src/heap.rs, the theorems at small heaps.
use mimalloc_rs.Prelude.{
  ℕ, ◌+◌, ◌*◌, ◌/◌, ◌≤◌, ◌<◌, ◌≡◌, refl, sym, ap, ◌∙◌, inl, inr, true, false, arith, ◌==◌,
  if◌then◌else◌, Bool-cases, Option, none, some, List, [], ◌∷◌, length,
}
use mimalloc_rs.SizeClass.{bin, large_max_obj_size}
use mimalloc_rs.Arena.Tests.{calm, eight_free}
use mimalloc_rs.Subproc.Tests.{one_arena, one_arena-IsSubproc}
use mimalloc_rs.PageMap.{PageMap, lookup, table_page}
use mimalloc_rs.Heap.Blocks.{Blocks, alloc_aligned, IsBlock, IsAligned, heap_alloc_aligned_lem}
use mimalloc_rs.Heap.Free.{free, free_owned, free_shared}
use mimalloc_rs.Heap.Free.Dispatch.{free_lem}
use mimalloc_rs.Heap.Free.Last.{IsGone, free_shared_lem}
use mimalloc_rs.Word.{complement}
use mimalloc_rs.Page.State.{IsPage}
use mimalloc_rs.Page.Flags.{is_abandoned_mapped}
use mimalloc_rs.PageQueue.{PageQueue}
use mimalloc_rs.PageQueue.Laws.{IsQueue}
use mimalloc_rs.Page.{Page, init, tf_block, tf_is_owned, is_owned}
use mimalloc_rs.FreeList.{Keys}
use mimalloc_rs.Heap.{good_size, bin_block_size, page_slices_for}
use mimalloc_rs.Heap.Sizes.{heap_good_size_lem}
use mimalloc_rs.Heap.Room.{page_slices_for_lem}
use mimalloc_rs.Heap.Theap.{World, retire_page, collect_retired}
use mimalloc_rs.Heap.Theap.Release.{IsHome}
use mimalloc_rs.Heap.Theap.Retire.{length-nil, Retires, retire_page_lem}
use mimalloc_rs.Heap.Theap.Owned.{IsOwned}
use mimalloc_rs.Heap.Theap.Sweep.{Swept, head_expire}
use mimalloc_rs.Heap.Theap.Collect.{IsTracked, collect_retired_lem}
use mimalloc_rs.Heap.Theaps.{Theaps, IsTheaps, unregister_theap, unregister_theap_lem}

heap_good_size_lem_example :
    (1000 ≤ good_size 1000)
    × (bin (good_size 1000) ≡ bin 1000)
    × (1000 ≤ large_max_obj_size → good_size 1000 ≡ bin_block_size (bin 1000))
    × (large_max_obj_size < 1000 → good_size 1000 ≡ (1000 + 65535) / 65536 * 65536)
    × (good_size (good_size 1000) ≡ good_size 1000)
heap_good_size_lem_example = heap_good_size_lem 1000 (omega arith)

abbrev no_keys : Keys
no_keys = record { key0 = 0; key1 = 0 }

page_slices_for_lem_example :
    let bs = bin_block_size (bin 20000) in
    let pg = init 160 65536 0 (page_slices_for bs) bs no_keys true in
    (20000 ≤ bs) × (6 ≤ pg.reserved) × (pg.reserved ≤ 8192)
page_slices_for_lem_example =
    page_slices_for_lem 20000 160 65536 0 no_keys true (omega arith) (omega arith) (omega arith)

-- An empty page of heap 3, in slice 3 of the first arena.
abbrev idle : ℕ → Page
idle expire = record {
  xthread_id = 8;
  free = 262304;
  local_free = 0;
  xthread_free = 1;
  used = 0;
  capacity = 1;
  reserved = 100;
  block_size = 48;
  page_start = 262304;
  keys = no_keys;
  next_page = 0;
  prev_page = 0;
  slice_index = 3;
  slice_count = 1;
  theap = 3;
  arena = 1;
  bin = 6;
  free_is_zero = false;
  retire_expire = expire;
}

abbrev one_page : PageQueue
one_page = record { first = 262144; last = 262144; count = 1 }

abbrev no_page : PageQueue
no_page = record { first = 0; last = 0; count = 0 }

-- Heap 3 with the page in the queue of its bin, and in the fast path.
abbrev world : ℕ → World
world expire = record {
  pages = λ p. idle expire;
  links = record { next = λ p. 0; prev = λ p. 0 };
  mem = λ a. 0;
  map = record { top = none; asked = 0 };
  subproc = one_arena;
  theaps = λ t. record {
    tid = 8;
    tseq = 0;
    pages = λ b. if b == 6 then one_page else no_page;
    direct = 0 ∷ 262144 ∷ [];
    page_retired_min = 6;
    page_retired_max = 6;
  };
  returned = [];
}

abbrev lists : ℕ → List ℕ
lists b = if b == 6 then 262144 ∷ [] else []

idle-IsHome : (expire : ℕ) → IsHome one_arena (idle expire) eight_free
idle-IsHome expire = record {
  some_arena = omega arith;
  arena = refl;
  range = record { some_slice = omega arith; inside = omega arith; one_chunk = omega arith };
}

one_page-IsQueue : (expire : ℕ) → IsQueue one_page (world expire).links (262144 ∷ [])
one_page-IsQueue expire = record {
  chain = (refl, omega arith, refl, (refl, refl));
  distinct = λ a. ground arith;
  counted = refl;
  small = omega arith;
}

no_page-IsQueue : (expire : ℕ) → IsQueue no_page (world expire).links []
no_page-IsQueue expire = record {
  chain = (refl, refl);
  distinct = λ a. ground arith;
  counted = refl;
  small = omega arith;
}

retire_page_lem_example :
    (w' : World) × (retire_page calm (world 0) 262144 ≡ some w')
    × Retires (world 0) 262144 eight_free [] w'
retire_page_lem_example =
    retire_page_lem calm (world 0) 262144 eight_free [] [] (omega arith) (omega arith)
      one_arena-IsSubproc (idle-IsHome 0) (one_page-IsQueue 0)

world-IsOwned : (expire : ℕ) → IsOwned (world expire) 3 lists
world-IsOwned expire = record {
  subproc = one_arena-IsSubproc;
  queues = λ b. elim (Bool-cases (b == 6)) [
    | inl e ↦ rw e (one_page-IsQueue expire)
    | inr e ↦ rw e (no_page-IsQueue expire)
  ];
  apart = λ b c a ne m. elim (Bool-cases (b == 6)) [
    | inl e ↦ let off : (c == 6) ≡ false = ground arith in rw off refl
    | inr e ↦ absurd (ground (arith, rw e at m))
  ];
  home = λ b p m. (eight_free, idle-IsHome expire);
  sole = λ b p ys e run. elim (Bool-cases (b == 6)) [
    | inl h ↦ length-nil ys (ground (arith, rw h at (ap length e)))
    | inr h ↦ length-nil ys (ground (arith, rw h at (ap length e)))
  ];
}

world-IsTracked : (expire : ℕ) → IsTracked (world expire) 3 lists
world-IsTracked expire c run = elim (Bool-cases (c == 6)) [
  | inl e ↦ (ground arith, ground arith)
  | inr e ↦ absurd (run (rw e refl))
]

collect_retired_lem_example :
    (w' : World) × (lists' : ℕ → List ℕ) × (collect_retired calm (world 1) 3 false ≡ some w')
    × IsOwned w' 3 lists'
    × IsTracked w' 3 lists'
    × ((b : ℕ) → Swept false (world 1) w' (lists b) (lists' b))
    × (false ≡ true → (b : ℕ) → head_expire w' (lists' b) ≡ 0)
collect_retired_lem_example =
    collect_retired_lem calm (world 1) 3 false lists (world-IsOwned 1) (world-IsTracked 1)

abbrev two_theaps : Theaps
two_theaps = record {
  theaps = 50;
  links = record { next = λ a. if a == 50 then 40 else 0; prev = λ a. if a == 40 then 50 else 0 };
  linked = λ a. if a == 50 then true else if a == 40 then true else false;
}

two_theaps-IsTheaps : IsTheaps two_theaps (50 ∷ 40 ∷ [])
two_theaps-IsTheaps = record {
  last = 40;
  queue = record {
    chain = ground arith;
    distinct = λ a. ground arith;
    counted = refl;
    small = omega arith;
  };
  linked = λ a. ground arith;
}

unregister_theap_lem_example :
    IsTheaps (unregister_theap two_theaps 40) (50 ∷ [])
    × (unregister_theap (unregister_theap two_theaps 40) 40 ≡ unregister_theap two_theaps 40)
unregister_theap_lem_example = unregister_theap_lem two_theaps 40 (50 ∷ []) [] two_theaps-IsTheaps

-- Blocks of 160 bytes from 65600 on; every slice belongs to page 7.
abbrev wide : Page
wide = record (idle 0) { page_start = 65600; block_size = 160 }

abbrev one_table : PageMap
one_table = record { top = some (λ t. some (λ i. 7)); asked = 0 }

abbrev blocks : Blocks ℕ
blocks = record { pages = λ p. wide; map = one_table; rest = 0 }

abbrev serve_first : Blocks ℕ → ℕ → Blocks ℕ × Option ℕ
serve_first h total = (h, some 65600)

mapped_to : (a : ℕ) → a < 70000 → lookup one_table a ≡ 7
unfolding lookup table_page
mapped_to a h = ground arith

blocks-IsBlock : IsBlock blocks 65600 147
blocks-IsBlock = record {
  index = 0;
  place = refl;
  enough = omega arith;
  inside = omega arith;
  mapped = λ e. ground (arith, mapped_to 65600 (omega arith));
  whole = λ o lt. mapped_to (65600 + o) (omega arith) ∙ sym (mapped_to 65600 (omega arith));
}

heap_alloc_aligned_lem_example :
    (h2 : Blocks ℕ) × (q : ℕ) × (alloc_aligned serve_first blocks 20 128 ≡ (h2, some q))
    × IsAligned blocks 65600 20 128 h2 q
heap_alloc_aligned_lem_example =
    heap_alloc_aligned_lem serve_first blocks 20 128 blocks 65600 (omega arith) (omega arith)
      (omega arith) refl blocks-IsBlock

-- Thread 12 frees the pointer 65664 into the first block of a page of thread 8 that hands out such
-- pointers.
abbrev foreign : World
foreign = record (world 0) { pages = λ p. record wide { xthread_id = 10 }; map = one_table }

free_lem_example : free false calm true foreign 12 65664 ≡ (
    if 8 == 12
    then free_owned false calm true foreign (lookup one_table 65664) 65600
    else free_shared false calm true foreign (lookup one_table 65664) 65600)
free_lem_example =
    free_lem foreign 12 65664 0 64 8 true false (λ e. ground (arith, mapped_to 65664 (omega arith)))
      (record { thread = refl; flags = refl; small = omega arith }) (omega arith) (omega arith) refl
      (λ d. refl) false calm true refl (omega arith)

-- The heap whose page has no owner any more, and one block that is live.
abbrev left_behind : World
left_behind = record (world 0) {
  pages = λ p. record (idle 0) { xthread_id = 0; free = 0; xthread_free = 0; used = 1 };
}

left_behind-IsPage : IsPage false (left_behind.pages 262144) left_behind.mem [] [] [] (262304 ∷ [])
unfolding tf_block
left_behind-IsPage = record {
  free = refl;
  local = refl;
  thread = refl;
  blocks = λ a. ground arith;
  used = refl;
  total = refl;
  capacity = omega arith;
  reserved = omega arith;
  size = omega arith;
  start = omega arith;
  null = inl refl;
  linkable = λ a h. inl refl;
}

unowned : is_owned (left_behind.pages 262144) ≡ false
unfolding is_owned tf_is_owned
unowned = refl

unlisted : is_abandoned_mapped (left_behind.pages 262144) ≡ false
unfolding is_abandoned_mapped complement
unlisted = refl

free_shared_lem_example :
    (w' : World) × (free_shared false calm true left_behind 262144 262304 ≡ some w')
    × IsGone one_arena left_behind.map 1 3 1 eight_free w'
free_shared_lem_example =
    free_shared_lem false calm true left_behind 262144 262304 eight_free [] [] [] left_behind-IsPage
      (omega arith) (omega arith) unowned one_arena-IsSubproc
      (record {
        some_arena = omega arith;
        arena = refl;
        range = record { some_slice = omega arith; inside = omega arith; one_chunk = omega arith };
      })
      (λ e. ground (arith, unlisted))
