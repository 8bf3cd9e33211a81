-- ===== src/Bitmap/Tests.antt =====
-- src/bitmap.rs, runs on small bitmaps, and the theorems at them.
use mimalloc_rs.Prelude.{
  ℕ, suc, zero, ◌+◌, ◌==◌, not, ◌*◌, ◌^◌, ◌<◌, ◌≡◌, refl, Bool, false, Option, some, List, [], ◌∷◌,
  arith, get_or,
}
use mimalloc_rs.Word.Bit.{bit}
use mimalloc_rs.Bitmap.Field.{
  bf_try_clear_mask, bf_find_and_clear_run, bf_set_mask, cas_weak_acq_rel, run_loop, find_run,
  mask_n, bf_all_set, find_shift,
}
use mimalloc_rs.Word.{count_ones}
use mimalloc_rs.Bitmap.Chunk
use mimalloc_rs.Bitmap.Chunk.{Chunk}
use mimalloc_rs.Bitmap.Chunk.View.{IsChunk}
use mimalloc_rs.Bitmap.Chunk.RollBack.{AllOrNothing}
use mimalloc_rs.Bitmap.Chunk.Clear.{try_clear_n_lem}
use mimalloc_rs.Bitmap.Map.{Bitmap, chunk_count, clear_n}
use mimalloc_rs.Bitmap.Wide.{try_find_and_clear_n, try_find_and_claim}
use mimalloc_rs.Bitmap.Wide.Search.{Searched, try_find_and_clear_n_lem}
use mimalloc_rs.Bitmap.Wide.Claim.{Claims, try_find_and_claim_lem}
use mimalloc_rs.Bitmap.Map.View.{IsBitmap, chunk_at}
use mimalloc_rs.Bitmap.Map.Update.{ClearsRange, bitmap_clear_n_lem}

-- Each field of a list is a word.
abbrev pub AreWords : List ℕ → Type 0
AreWords [] = Unit {0}
AreWords (w ∷ c) = (w < 2 ^ 64) × AreWords c

pub words_of : (c : List ℕ) → AreWords c → (f : ℕ) → get_or c f 0 < 2 ^ 64
words_of [] a f = omega arith
words_of (w ∷ c) a zero = a.0
words_of (w ∷ c) a (suc f) = words_of c a.1 f

-- Bits 60 to 67 are set: they cross the first field boundary.
abbrev pub crossing : Chunk
crossing = 15 * 2 ^ 60 ∷ 15 ∷ 0 ∷ 0 ∷ 0 ∷ 0 ∷ 0 ∷ 0 ∷ []

crossing-IsChunk : IsChunk crossing
crossing-IsChunk = record { fields = refl; words = words_of crossing (omega arith) }

zeroed-IsChunk : IsChunk Chunk.zeroed
zeroed-IsChunk = record { fields = refl; words = words_of Chunk.zeroed (omega arith) }

abbrev pub one_set : Chunk
one_set = 1 ∷ 0 ∷ 0 ∷ 0 ∷ 0 ∷ 0 ∷ 0 ∷ 0 ∷ []

abbrev pub small : Bitmap
small = record { chunkmap = one_set; chunks = crossing ∷ [] }

pub small-IsBitmap : IsBitmap small
unfolding bit
small-IsBitmap = record {
  some_chunk = omega arith;
  few_chunks = omega arith;
  map = record { fields = refl; words = words_of one_set (omega arith) };
  chunks = chunk_ok;
  covered = λ c b lt set. let e : c ≡ 0 = omega arith in rw e;
}
  where
    chunk_ok : (c : ℕ) → IsChunk (chunk_at small c)
    chunk_ok zero = crossing-IsChunk
    chunk_ok (suc c) = zeroed-IsChunk

-- Another thread takes bit 0 first, so the second attempt decides, and fails.
lost_race : (bf_try_clear_mask (record { seen = 6; spurious = false } ∷ []) 7 1).result ≡ false
unfolding bf_try_clear_mask cas_weak_acq_rel
lost_race = refl

spanning_run :
    Chunk.find_and_clear_n crossing 6 ≡ some (0 ∷ 12 ∷ 0 ∷ 0 ∷ 0 ∷ 0 ∷ 0 ∷ 0 ∷ [], some 60)
unfolding Chunk.find_and_clear_n Chunk.find_in_fields bf_find_and_clear_run run_loop find_run
    count_ones Chunk.find_rest Chunk.popcount Chunk.find_and_clear_n_spanning Chunk.find_spanning
    Chunk.is_set_n Chunk.for_each_field_mask bf_all_set mask_n Chunk.try_clear_n Chunk.clear_across
    Chunk.clear_loop bf_try_clear_mask Chunk.clear_in_field Chunk.roll_back bf_set_mask find_shift
spanning_run = refl

try_clear_n_example :
    (r : Chunk × Bool) × (Chunk.try_clear_n crossing 60 9 ≡ some r) × AllOrNothing crossing 60 9 r
try_clear_n_example = try_clear_n_lem crossing crossing-IsChunk 60 9 (omega arith) (omega arith)

bitmap_clear_n_example :
    (r : Bitmap × Bool) × (clear_n small 60 8 ≡ some r) × IsBitmap r.0 × ClearsRange small 60 8 r
bitmap_clear_n_example = bitmap_clear_n_lem small 60 8 small-IsBitmap (omega arith) (omega arith)

try_find_and_clear_n_example :
    (r : Bitmap × Option ℕ) × (try_find_and_clear_n small 600 0 ≡ some r)
    × IsBitmap r.0
    × Searched small 600 r
try_find_and_clear_n_example = try_find_and_clear_n_lem small 600 0 small-IsBitmap

-- The claim refuses bit 60, and counts how often it is asked.
abbrev pub odd_claim : ℕ → ℕ → ℕ × Bool
odd_claim idx asked = (asked + 1, not (idx == 60))

try_find_and_claim_example :
    (r : Bitmap × ℕ × Option ℕ) × (try_find_and_claim odd_claim small 0 7 ≡ some r)
    × IsBitmap r.0
    × Claims odd_claim small 0 (λ i. i < chunk_count small * 512) r
try_find_and_claim_example = try_find_and_claim_lem odd_claim small 0 7 small-IsBitmap
