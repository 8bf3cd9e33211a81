-- ===== src/Arena/Tests.antt =====
-- src/arena.rs, the theorems at small arenas.
use mimalloc_rs.Prelude.{
  ℕ, zero, suc, ◌-◌, ◌/◌, ◌%◌, ◌^◌, ◌<◌, ◌≡◌, refl, ap, ◌∙◌, ◌&&◌, ◌||◌, ◌==◌, Bool, true, false,
  Option, none, some, [], ◌∷◌, arith, get_or,
}
use mimalloc_rs.Word.Bit.{bit, bit-ones}
use mimalloc_rs.Bitmap.Chunk
use mimalloc_rs.Bitmap.Chunk.{Chunk}
use mimalloc_rs.Bitmap.Chunk.View.{bit_at, IsChunk}
use mimalloc_rs.Bitmap.Map.{Bitmap}
use mimalloc_rs.Bitmap.Map.View.{IsBitmap, bit_of, chunk_at}
use mimalloc_rs.Bitmap.Map.Update.{SetOn}
use mimalloc_rs.Bitmap.Tests.{odd_claim, small, small-IsBitmap, words_of}
use mimalloc_rs.Options.Integers.{pos}
use mimalloc_rs.Os.{System, no_memory}
use mimalloc_rs.Arena.{Arena, Created, create, alloc_slices, free_slices, run_purge}
use mimalloc_rs.Arena.Abandon.{page_abandon, reclaim_abandoned}
use mimalloc_rs.Arena.Abandon.Registry.{registered}
use mimalloc_rs.Arena.Abandon.Reclaim.{Reclaims, reclaim-page_abandon}
use mimalloc_rs.Arena.View.{IsArena, IsSamePlace, IsPurged, ClearedWhere}
use mimalloc_rs.Arena.Purge.{run_purge_lem}
use mimalloc_rs.Arena.Slices.{free_slices_lem}
use mimalloc_rs.Arena.Alloc.{Allocates, alloc_slices_lem}
use mimalloc_rs.Arena.Wide.{alloc_slices_faults}
use mimalloc_rs.Arena.Create.{Creates, create_lem, zeroed-bit}

abbrev pub calm : System
calm = record {
  page_size = 4096;
  alloc_granularity = 4096;
  has_partial_free = true;
  prim_alloc = λ size alignment commit allow_large. none;
  prim_commit = λ addr size. some true;
  clock_now_msecs = 5;
  purge_delay = pos 0;
  purge_decommits = true;
  arena_purge_delay = pos 0;
}

-- Of 512 slices, 60 to 67 are free, committed, scheduled and dirty.
abbrev pub eight_free : Arena
eight_free = record {
  memid = no_memory;
  start = 65536;
  slice_count = 512;
  free = small;
  committed = small;
  purge = small;
  dirty = small;
  abandoned = none;
  purge_expire = 0;
}

pub eight_free-IsArena : IsArena eight_free
eight_free-IsArena = record {
  free = small-IsBitmap;
  committed = small-IsBitmap;
  purge = small-IsBitmap;
  dirty = small-IsBitmap;
  same_committed = refl;
  same_purge = refl;
  same_dirty = refl;
  covers = omega arith;
  inside = λ i on. inside i (i / 512) refl on;
}
  where
    inside : (i c : ℕ) → i / 512 ≡ c → bit_at (chunk_at small c) (i % 512) ≡ true → i < 512
    inside i zero at on = omega (arith, at)
    inside i (suc c) at on = absurd (ground (arith, zeroed-bit (i % 512), on))

free_slices_example :
    (b : Arena) × (free_slices calm eight_free 3 70 ≡ some b)
    × IsArena b
    × IsSamePlace eight_free b
    × SetOn eight_free.free 3 70 b.free
    × ClearedWhere (λ i. bit_of b.free i ≡ true) eight_free.committed b.committed
free_slices_example =
    free_slices_lem calm eight_free 3 70 eight_free-IsArena
      (record { some_slice = omega arith; inside = omega arith; one_chunk = omega arith })

run_purge_example :
    (r : Arena × Bool) × (run_purge calm eight_free ≡ some r)
    × IsPurged eight_free r.0
    × ((i : ℕ) → i < eight_free.slice_count → bit_of r.0.purge i ≡ false)
run_purge_example = run_purge_lem calm eight_free eight_free-IsArena

alloc_slices_example :
    (r : Arena × Option (ℕ × ℕ × Bool)) × (alloc_slices calm eight_free 6 9 ≡ some r)
    × IsArena r.0
    × IsSamePlace eight_free r.0
    × Allocates calm eight_free 6 r
alloc_slices_example =
    alloc_slices_lem calm eight_free 6 9 eight_free-IsArena (omega arith) (omega arith)

create_example :
    (r : Created) × (create 600 true (some (65536, no_memory)) (some 64) (some 128) ≡ some r)
    × Creates 600 true (some (65536, no_memory)) (some 64) (some 128) r
create_example = create_lem 600 true (some (65536, no_memory)) (some 64) (some 128) (omega arith)

abbrev full : Chunk
full =
    (2 ^ 64 - 1)
    ∷ (2 ^ 64 - 1)
    ∷ (2 ^ 64 - 1)
    ∷ (2 ^ 64 - 1)
    ∷ (2 ^ 64 - 1)
    ∷ (2 ^ 64 - 1)
    ∷ (2 ^ 64 - 1)
    ∷ (2 ^ 64 - 1)
    ∷ []

abbrev two_full : Bitmap
two_full = record { chunkmap = 3 ∷ 0 ∷ 0 ∷ 0 ∷ 0 ∷ 0 ∷ 0 ∷ 0 ∷ []; chunks = full ∷ full ∷ [] }

full-IsChunk : IsChunk full
full-IsChunk = record { fields = refl; words = words_of full (omega arith) }

full_field : (f : ℕ) → f < 8 → get_or full f 0 ≡ 2 ^ 64 - 1
full_field zero lt = refl
full_field (suc zero) lt = refl
full_field (suc (suc zero)) lt = refl
full_field (suc (suc (suc zero))) lt = refl
full_field (suc (suc (suc (suc zero)))) lt = refl
full_field (suc (suc (suc (suc (suc zero))))) lt = refl
full_field (suc (suc (suc (suc (suc (suc zero)))))) lt = refl
full_field (suc (suc (suc (suc (suc (suc (suc zero))))))) lt = refl
full_field (suc (suc (suc (suc (suc (suc (suc (suc f)))))))) lt = absurd (omega arith)

full_bit : (b : ℕ) → b < 512 → bit_at full b ≡ true
full_bit b lt =
    ap (λ (w : ℕ). bit w (b % 64)) (full_field (b / 64) (omega arith))
    ∙ ground (arith, bit-ones 64 (b % 64))

two_full-IsBitmap : IsBitmap two_full
unfolding bit
two_full-IsBitmap = record {
  some_chunk = omega arith;
  few_chunks = omega arith;
  map = record { fields = refl; words = words_of two_full.chunkmap (omega arith) };
  chunks = chunk_ok;
  covered = λ c b lt set. known c lt;
}
  where
    chunk_ok : (c : ℕ) → IsChunk (chunk_at two_full c)
    chunk_ok zero = full-IsChunk
    chunk_ok (suc zero) = full-IsChunk
    chunk_ok (suc (suc c)) = record { fields = refl; words = words_of Chunk.zeroed (omega arith) }

    known : (c : ℕ) → c < 2 → bit_at two_full.chunkmap c ≡ true
    known zero lt = refl
    known (suc zero) lt = refl
    known (suc (suc c)) lt = absurd (omega arith)

two_full_free : (i : ℕ) → i < 1024 → bit_of two_full i ≡ true
two_full_free i lt = at (i / 512) (omega arith)
  where
    at : (c : ℕ) → c < 2 → bit_at (chunk_at two_full c) (i % 512) ≡ true
    at zero low = full_bit (i % 512) (omega arith)
    at (suc zero) low = full_bit (i % 512) (omega arith)
    at (suc (suc c)) low = absurd (omega arith)

-- All of 1024 slices are free and committed.
abbrev all_free : Arena
all_free = record {
  memid = no_memory;
  start = 65536;
  slice_count = 1024;
  free = two_full;
  committed = two_full;
  purge = two_full;
  dirty = two_full;
  abandoned = none;
  purge_expire = 0;
}

all_free-IsArena : IsArena all_free
all_free-IsArena = record {
  free = two_full-IsBitmap;
  committed = two_full-IsBitmap;
  purge = two_full-IsBitmap;
  dirty = two_full-IsBitmap;
  same_committed = refl;
  same_purge = refl;
  same_dirty = refl;
  covers = omega arith;
  inside = λ i on. inside i (i / 512) refl on;
}
  where
    inside : (i c : ℕ) → i / 512 ≡ c → bit_at (chunk_at two_full c) (i % 512) ≡ true → i < 1024
    inside i zero at on = omega (arith, at)
    inside i (suc zero) at on = omega (arith, at)
    inside i (suc (suc c)) at on = absurd (ground (arith, zeroed-bit (i % 512), on))

alloc_slices_faults_example : alloc_slices calm all_free 513 0 ≡ none
alloc_slices_faults_example =
    alloc_slices_faults calm all_free 513 0 0 all_free-IsArena (omega arith) (omega arith)
      (λ i lo hi. two_full_free i (omega arith))

-- No registry is mapped yet: slice 60 is registered in class 3 first, and cannot be claimed.
reclaim-page_abandon_example :
    (b : Arena) × (page_abandon true eight_free 60 3 ≡ some b)
    × ((c i : ℕ) → registered b c i ≡ (registered eight_free c i || ((c == 3) && (i == 60))))
    × ((r : Arena × ℕ × Option ℕ) × (reclaim_abandoned odd_claim b 0 3 5 ≡ some r)
        × Reclaims odd_claim b 0 3 r)
reclaim-page_abandon_example =
    reclaim-page_abandon odd_claim true eight_free 0 60 3 5 eight_free-IsArena (λ maps e. cc)
      (omega arith) (omega arith) (λ e. refl)
