-- ===== src/Page/Tests.antt =====
-- src/page.rs, a page of three blocks and the theorems at it.
use mimalloc_rs.Prelude.{ℕ, ◌≤◌, ◌<◌, ◌≡◌, refl, inl, List, [], ◌∷◌, arith, true, false, not}
use mimalloc_rs.FreeList.{Keys, Memory, next}
use mimalloc_rs.Page.{
  Page, alloc, collect, extend_free, is_full, is_owned, tf_block, thread_free_push,
}
use mimalloc_rs.Page.Flags.{
  IsWord, set_owner, set_in_full, set_has_interior, owner_tid, is_in_full, is_abandoned_mapped,
  flags_lem,
}
use mimalloc_rs.Page.State.{IsPage, SameLayout}
use mimalloc_rs.Page.Splice.{Leaves}
use mimalloc_rs.Page.Collect.{collect_lem}
use mimalloc_rs.Page.Alloc.{Serves, extend_free_lem, alloc_lem}
use mimalloc_rs.Page.Full.{Answers, is_full_lem}
use mimalloc_rs.Page.Owner.{thread_free_push_lem}

abbrev stack : List ℕ
stack = 1200 ∷ []

abbrev no_keys : Keys
no_keys = record { key0 = 0; key1 = 0 }

-- Blocks 1000, 1100 and 1200; 1000 is in `free`, 1100 in `local_free`, 1200 on the stack.
abbrev three : Page
three = record {
  xthread_id = 8;
  free = 1000;
  local_free = 1100;
  xthread_free = 1201;
  used = 1;
  capacity = 3;
  reserved = 4;
  block_size = 100;
  page_start = 1000;
  keys = no_keys;
  next_page = 0;
  prev_page = 0;
  slice_index = 0;
  slice_count = 1;
  theap = 0;
  arena = 0;
  bin = 0;
  free_is_zero = true;
  retire_expire = 0;
}

abbrev blank : Memory
blank q = 0

three-IsPage : IsPage false three blank (1000 ∷ []) (1100 ∷ []) (1200 ∷ []) []
unfolding tf_block next
three-IsPage = record {
  free = (refl, omega arith, refl);
  local = (refl, omega arith, refl);
  thread = (refl, omega arith, refl);
  blocks = λ a. ground arith;
  used = refl;
  total = refl;
  capacity = omega arith;
  reserved = omega arith;
  size = omega arith;
  start = omega arith;
  null = inl refl;
  linkable = λ a h. inl refl;
}

-- The same page with block 1000 live.
abbrev live_one : Page
live_one = record three { free = 0; used = 2 }

live_one-IsPage : IsPage false live_one blank [] (1100 ∷ []) (1200 ∷ []) (1000 ∷ [])
unfolding tf_block next
live_one-IsPage = record {
  free = refl;
  local = (refl, omega arith, refl);
  thread = (refl, omega arith, refl);
  blocks = λ a. ground arith;
  used = refl;
  total = refl;
  capacity = omega arith;
  reserved = omega arith;
  size = omega arith;
  start = omega arith;
  null = inl refl;
  linkable = λ a h. inl refl;
}

collect_lem_example :
    Leaves
      (λ pg' mem'. IsPage false pg' mem' (1100 ∷ 1200 ∷ 1000 ∷ []) [] [] [] × SameLayout three pg')
      (collect false three blank)
collect_lem_example =
    collect_lem false three blank (1000 ∷ []) (1100 ∷ []) (1200 ∷ []) [] three-IsPage

extend_free_lem_example :
    let (pg', mem') = extend_free false live_one blank in
    IsPage false pg' mem' (1300 ∷ []) (1100 ∷ []) (1200 ∷ []) (1000 ∷ [])
    × SameLayout live_one pg'
    × (pg'.capacity ≡ 4)
    × (pg'.capacity ≤ 4)
    × (3 < 4 → 3 < pg'.capacity)
extend_free_lem_example =
    extend_free_lem false live_one blank [] (1100 ∷ []) (1200 ∷ []) (1000 ∷ []) live_one-IsPage

alloc_lem_example : Serves false live_one (1000 ∷ []) (alloc false live_one blank)
alloc_lem_example =
    alloc_lem false live_one blank [] (1100 ∷ []) (1200 ∷ []) (1000 ∷ []) live_one-IsPage

thread_free_push_lem_example :
    let (pg', mem', claimed) = thread_free_push false live_one blank 1000 in
    IsPage false pg' mem' [] (1100 ∷ []) (1000 ∷ 1200 ∷ []) []
    × (is_owned pg' ≡ true)
    × (claimed ≡ not (is_owned live_one))
    × (pg'.used ≡ 2)
thread_free_push_lem_example =
    thread_free_push_lem false live_one blank [] (1100 ∷ []) (1200 ∷ []) [] 1000 live_one-IsPage
      (omega arith) refl

is_full_lem_example : Answers false live_one (1000 ∷ []) (is_full false live_one blank)
is_full_lem_example =
    is_full_lem false live_one blank [] (1100 ∷ []) (1200 ∷ []) (1000 ∷ []) live_one-IsPage

-- The page of thread 8, without flags, goes to thread 12.
flags_lem_example :
    IsWord (set_owner three 12).xthread_id 12 false false
    × IsWord (set_in_full three true).xthread_id 8 false true
    × IsWord (set_has_interior three).xthread_id 8 true false
    × (owner_tid three ≡ 8)
    × (is_in_full three ≡ false)
    × (is_abandoned_mapped three ≡ false)
flags_lem_example =
    flags_lem three 8 12 false false true
      (record { thread = refl; flags = refl; small = omega arith }) refl (omega arith)
