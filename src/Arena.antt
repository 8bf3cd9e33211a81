-- ===== src/Arena.antt =====
-- src/arena.rs: an arena, whose slices of 64 KiB four bitmaps track. The calls are those of one
-- thread at a time. `none` is the panic of an index out of bounds in a bitmap, in a build without
-- debug assertions. The registry of abandoned pages has one bitmap for each size class.
pub mod View
pub mod Runs
pub mod Purge
pub mod Slices
pub mod Alloc
pub mod Wide
pub mod Create
pub mod Abandon
pub mod Tests
use mimalloc_rs.Prelude.{
  ℕ, zero, suc, ◌+◌, ◌-◌, ◌*◌, ◌/◌, min, max, Bool, true, false, ◌&&◌, ◌||◌, not, Option, none,
  some, List, [], ◌∷◌, ltb, leb, ◌==◌, if◌then◌else◌, get_elem?, set, length,
}
use mimalloc_rs.Bitmap.Chunk
use mimalloc_rs.Bitmap.Chunk.{Chunk, chunk_bits}
use mimalloc_rs.Bitmap.Map.{Bitmap, chunk_count, is_set, set_n, clear_n, is_set_n, is_clear_n}
use mimalloc_rs.Bitmap.Wide.{try_find_and_clear_n, try_find_and_claim, unsafe_set_n}
use mimalloc_rs.Options.Integers.{ℤ, pos, negsuc, max_i64}
use mimalloc_rs.Os.{MemId, System, commit, purge_ex}

-- A slice has 64 KiB.
abbrev pub slice_size : ℕ
slice_size = 65536

abbrev pub bin_count : ℕ
bin_count = 75

abbrev pub chunks_for : ℕ → ℕ
chunks_for slice_count = max ((slice_count + 511) / 512) 1

-- An unset `abandoned` is a registry that has not been mapped; a time of 0 is none.
pub record Arena : Type 0 where
  pub memid : MemId
  pub start : ℕ
  pub slice_count : ℕ
  pub free : Bitmap
  pub committed : Bitmap
  pub purge : Bitmap
  pub dirty : Bitmap
  pub abandoned : Option (List Bitmap)
  pub purge_expire : ℕ

-- A bitmap of `count` zeroed chunks.
unfoldable pub zeroed_chunks : ℕ → List Chunk
zeroed_chunks zero = []
zeroed_chunks (suc count) = Chunk.zeroed ∷ zeroed_chunks count

abbrev pub zeroed_bitmap : ℕ → Bitmap
zeroed_bitmap count = record { chunkmap = Chunk.zeroed; chunks = zeroed_chunks count }

-- A chunk has 64 bytes.
abbrev pub hot_bitmap_bytes : ℕ → ℕ
hot_bitmap_bytes chunk_count = 4 * (chunk_count + 1) * 64

-- What a failed `create` has taken and gives back.
pub data Release : Type 0 where
  region : MemId → Release
  bitmaps : ℕ → Release

pub data Created : Type 0 where
  refused : List Release → Created
  made : Arena → Created

-- The bits of a bitmap that are set from the start, if they are.
unfoldable pub preset : Bool → ℕ → ℕ → Option Bitmap
preset all count slice_count =
    if all then unsafe_set_n (zeroed_bitmap count) 0 slice_count else some (zeroed_bitmap count)

unfoldable pub initialize : ℕ → Bool → ℕ → MemId → Option Arena
initialize slice_count eager start memid =
    let count = chunks_for slice_count in
    elim (unsafe_set_n (zeroed_bitmap count) 0 slice_count) [
      | none ↦ none
      | some free ↦ elim (preset eager count slice_count) [
        | none ↦ none
        | some committed ↦ elim (preset (not memid.initially_zero) count slice_count) [
          | none ↦ none
          | some dirty ↦ some (record {
            memid = memid;
            start = start;
            slice_count = slice_count;
            free = free;
            committed = committed;
            purge = zeroed_bitmap count;
            dirty = dirty;
            abandoned = none;
            purge_expire = 0;
          })
        ]
      ]
    ]

-- `create`, from what `os::alloc_aligned` and the two calls of `meta_zalloc` answer.
unfoldable pub create : ℕ → Bool → Option (ℕ × MemId) → Option ℕ → Option ℕ → Option Created
create slice_count eager os_memory bitmap_memory descriptor =
    let count = chunks_for slice_count in
    if ltb chunk_bits count then some (refused []) else elim os_memory [
      | none ↦ some (refused [])
      | some (start, memid) ↦ elim bitmap_memory [
        | none ↦ some (refused (region memid ∷ []))
        | some at ↦ elim descriptor [
          | none ↦ some (refused (region memid ∷ bitmaps (hot_bitmap_bytes count) ∷ []))
          | some place ↦ elim (initialize slice_count eager start memid) [
            | none ↦ none
            | some a ↦ some (made a)
          ]
        ]
      ]
    ]

abbrev pub slice_ptr : Arena → ℕ → ℕ
slice_ptr a idx = a.start + idx * slice_size

unfoldable pub slice_index_of : Arena → ℕ → Option ℕ
slice_index_of a ptr =
    if ltb ptr a.start || leb (a.start + a.slice_count * slice_size) ptr
    then none
    else some ((ptr - a.start) / slice_size)

module _ (sys : System) where
  unfoldable pub ensure_committed : Arena → ℕ → ℕ → Option (Arena × Bool)
  ensure_committed a idx n = elim (is_set_n a.committed idx n) [
    | none ↦ none
    | some true ↦ some (a, true)
    | some false ↦ elim (commit sys (slice_ptr a idx) (n * slice_size)) [
      | none ↦ some (a, false)
      | some was_zero ↦ elim (set_n a.committed idx n) [
        | none ↦ none
        | some (m, was_clear) ↦ some (record a { committed = m }, true)
      ]
    ]
  ]

  -- `while end < slice_count && end < field_end && purge.is_set(end)`, with the rounds that are
  -- left.
  unfoldable pub run_end : ℕ → Arena → ℕ → ℕ → Option ℕ
  run_end zero a field_end end = none
  run_end (suc rounds) a field_end end =
      let next : Option ℕ = elim (is_set a.purge end) [
        | none ↦ none
        | some false ↦ some end
        | some true ↦ run_end rounds a field_end (end + 1)
      ] in
      if ltb end a.slice_count && ltb end field_end then next else some end

  -- Slices that were claimed from the free bitmap are purged and made free again.
  unfoldable pub purge_claimed : Arena → ℕ → ℕ → Option Arena
  purge_claimed a idx n = elim (is_set_n a.committed idx n) [
    | none ↦ none
    | some all_committed ↦
        let forget : Option (Bitmap × Bitmap) = elim (clear_n a.committed idx n) [
          | none ↦ none
          | some (c, c_all) ↦ elim (clear_n a.dirty idx n) [
            | none ↦ none
            | some (d, d_all) ↦ some (c, d)
          ]
        ] in
        elim (if purge_ex sys all_committed then forget else some (a.committed, a.dirty)) [
          | none ↦ none
          | some (c, d) ↦ elim (set_n a.free idx n) [
            | none ↦ none
            | some (f, was_clear) ↦ some (record a { committed = c; dirty = d; free = f })
          ]
        ]
  ]

  -- One run of scheduled slices: the arena, and whether the run was purged.
  unfoldable pub purge_range : Arena → ℕ → ℕ → Option (Arena × Bool)
  purge_range a idx n = elim (clear_n a.free idx n) [
    | none ↦ none
    | some (f, claimed) ↦
        elim (if claimed
          then purge_claimed (record a { free = f }) idx n
          else some (record a { free = f })) [
            | none ↦ none
            | some a' ↦ elim (clear_n a'.purge idx n) [
              | none ↦ none
              | some (p, all_set) ↦ some (record a' { purge = p }, claimed)
            ]
          ]
  ]

  -- `while idx < self.slice_count`, with the rounds that are left.
  unfoldable pub purge_loop : ℕ → Arena → ℕ → Bool → Option (Arena × Bool)
  purge_loop zero a idx purged = none
  purge_loop (suc rounds) a idx purged =
      let skip : Option (Arena × Bool) = purge_loop rounds a (idx + 1) purged in
      let run : Option (Arena × Bool) = elim (run_end 64 a ((idx / 64 + 1) * 64) (idx + 1)) [
        | none ↦ none
        | some end ↦ elim (purge_range a idx (end - idx)) [
          | none ↦ none
          | some (a', one) ↦ purge_loop rounds a' end (purged || one)
        ]
      ] in
      let next : Option (Arena × Bool) = elim (is_set a.purge idx) [
        | none ↦ none
        | some false ↦ skip
        | some true ↦ run
      ] in
      if ltb idx a.slice_count then next else some (a, purged)

  unfoldable pub run_purge : Arena → Option (Arena × Bool)
  run_purge a = purge_loop (a.slice_count + 1) a 0 false

  unfoldable pub schedule_purge : Arena → ℕ → ℕ → Option Arena
  schedule_purge a idx n = elim sys.arena_purge_delay [
    | negsuc k ↦ some a
    | pos delay ↦ if a.memid.is_pinned then some a else elim (set_n a.purge idx n) [
      | none ↦ none
      | some (p, was_clear) ↦
          let scheduled = record a { purge = p } in
          let expire = min (sys.clock_now_msecs + delay) max_i64 in
          if delay == 0
          then elim (run_purge scheduled) [ none ↦ none | some (a', purged) ↦ some a' ]
          else some (
              if a.purge_expire == 0 then record scheduled { purge_expire = expire } else scheduled)
    ]
  ]

  -- The compare-and-swap of `purge_expire` succeeds, as no other thread runs between.
  unfoldable pub maybe_purge : Arena → Bool → Option (Arena × Bool)
  maybe_purge a force =
      if a.memid.is_pinned
      then some (a, false)
      else (if force
          then run_purge (record a { purge_expire = 0 })
          else (if a.purge_expire == 0
              then some (a, false)
              else (if ltb sys.clock_now_msecs a.purge_expire
                  then some (a, false)
                  else run_purge (record a { purge_expire = 0 }))))

  unfoldable pub free_slices : Arena → ℕ → ℕ → Option Arena
  free_slices a idx n = elim (set_n a.free idx n) [
    | none ↦ none
    | some (f, was_clear) ↦ schedule_purge (record a { free = f }) idx n
  ]

  -- The slices that were found, once they are committed or could not be.
  unfoldable pub hand_out : Arena → ℕ → ℕ → Bool → Option (Arena × Option (ℕ × ℕ × Bool))
  hand_out a idx n false = elim (free_slices a idx n) [ none ↦ none | some a' ↦ some (a', none) ]
  hand_out a idx n true =
      elim (if a.memid.initially_zero then is_clear_n a.dirty idx n else some false) [
        | none ↦ none
        | some was_clean ↦ elim (set_n a.dirty idx n) [
          | none ↦ none
          | some (d, d_clear) ↦
              some (record a { dirty = d }, some (idx, slice_ptr a idx, was_clean))
        ]
      ]

  unfoldable pub alloc_slices : Arena → ℕ → ℕ → Option (Arena × Option (ℕ × ℕ × Bool))
  alloc_slices a n tseq = elim (try_find_and_clear_n a.free n tseq) [
    | none ↦ none
    | some (f, none) ↦ some (record a { free = f }, none)
    | some (f, some idx) ↦ elim (ensure_committed (record a { free = f }) idx n) [
      | none ↦ none
      | some (a', ok) ↦ hand_out a' idx n ok
    ]
  ]
