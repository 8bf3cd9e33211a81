-- ===== src/Arena/Create.antt =====
-- src/arena.rs, `create`: the bitmaps of a new arena, and what a failed creation gives back.
use mimalloc_rs.Prelude.{
  ℕ, zero, suc, ◌*◌, ◌/◌, ◌%◌, ◌≤◌, ◌≡◌, refl, sym, ◌∙◌, ap, inl, inr, Bool, true, false, Option,
  some, none, List, [], ◌∷◌, arith, ltb, ◌&&◌, not, if◌then◌else◌, Bool-cases, get_or, length,
}
use mimalloc_rs.Word.Bit.{bit, bit-zero}
use mimalloc_rs.Bitmap.Chunk
use mimalloc_rs.Bitmap.Chunk.{Chunk, chunk_bits}
use mimalloc_rs.Bitmap.Chunk.View.{bit_at, IsChunk}
use mimalloc_rs.Bitmap.Map.{Bitmap, chunk_count}
use mimalloc_rs.Bitmap.Map.View.{IsBitmap, bit_of}
use mimalloc_rs.Bitmap.Wide.{unsafe_set_n}
use mimalloc_rs.Bitmap.Wide.Sets.{unsafe_set_n_lem}
use mimalloc_rs.Os.{MemId}
use mimalloc_rs.Arena.{
  Arena, chunks_for, zeroed_chunks, zeroed_bitmap, hot_bitmap_bytes, Release, region, bitmaps,
  Created, refused, made, preset, initialize, create,
}
use mimalloc_rs.Arena.View.{IsArena}

zeroed-fields : (f : ℕ) → get_or Chunk.zeroed f 0 ≡ 0
unfolding Chunk.zeroed
zeroed-fields zero = refl
zeroed-fields (suc zero) = refl
zeroed-fields (suc (suc zero)) = refl
zeroed-fields (suc (suc (suc zero))) = refl
zeroed-fields (suc (suc (suc (suc zero)))) = refl
zeroed-fields (suc (suc (suc (suc (suc zero))))) = refl
zeroed-fields (suc (suc (suc (suc (suc (suc zero)))))) = refl
zeroed-fields (suc (suc (suc (suc (suc (suc (suc zero))))))) = refl
zeroed-fields (suc (suc (suc (suc (suc (suc (suc (suc f)))))))) = refl

zeroed-IsChunk : IsChunk Chunk.zeroed
zeroed-IsChunk = record { fields = refl; words = λ f. omega (arith, zeroed-fields f) }

pub zeroed-bit : (i : ℕ) → bit_at Chunk.zeroed i ≡ false
zeroed-bit i = ap (λ (w : ℕ). bit w (i % 64)) (zeroed-fields (i / 64)) ∙ bit-zero (i % 64)

pub length-zeroed_chunks : (count : ℕ) → length (zeroed_chunks count) ≡ count
unfolding zeroed_chunks
length-zeroed_chunks zero = refl
length-zeroed_chunks (suc count) = ap suc (length-zeroed_chunks count)

get_or-zeroed_chunks : (count c : ℕ) → get_or (zeroed_chunks count) c Chunk.zeroed ≡ Chunk.zeroed
unfolding zeroed_chunks
get_or-zeroed_chunks zero c = refl
get_or-zeroed_chunks (suc count) zero = refl
get_or-zeroed_chunks (suc count) (suc c) = get_or-zeroed_chunks count c

pub zeroed-clear : (count i : ℕ) → bit_of (zeroed_bitmap count) i ≡ false
zeroed-clear count i =
    ap (λ c. bit_at c (i % 512)) (get_or-zeroed_chunks count (i / 512)) ∙ zeroed-bit (i % 512)

pub zeroed_bitmap-IsBitmap : (count : ℕ) → 1 ≤ count → count ≤ 512 → IsBitmap (zeroed_bitmap count)
zeroed_bitmap-IsBitmap count some_ few = record {
  some_chunk = omega (arith, length-zeroed_chunks count);
  few_chunks = omega (arith, length-zeroed_chunks count);
  map = zeroed-IsChunk;
  chunks = λ c. rw (get_or-zeroed_chunks count c) zeroed-IsChunk;
  covered = λ c b lt set.
      absurd
        (ground (arith, set, ap (λ d. bit_at d b) (get_or-zeroed_chunks count c), zeroed-bit b));
}

-- The bits below `n` are set, if `all`.
abbrev pub FirstAre : Bool → ℕ → Bitmap → Type 0
FirstAre all n m = (i : ℕ) → bit_of m i ≡ (all && ltb i n)

-- What a failed creation has taken, in the order it took it.
abbrev pub acquired : ℕ → Option (ℕ × MemId) → Option ℕ → List Release
acquired count os_memory bitmap_memory = if ltb 512 count then [] else elim os_memory [
  | none ↦ []
  | some (start, memid) ↦
      region memid
      ∷ elim bitmap_memory [ none ↦ [] | some at ↦ bitmaps (hot_bitmap_bytes count) ∷ [] ]
]

abbrev pub Creates : ℕ → Bool → Option (ℕ × MemId) → Option ℕ → Option ℕ → Created → Type 0
Creates slice_count eager os_memory bitmap_memory descriptor (refused given_back) =
    given_back ≡ acquired (chunks_for slice_count) os_memory bitmap_memory
Creates slice_count eager os_memory bitmap_memory descriptor (made a) =
    (os_memory ≡ some (a.start, a.memid))
    × (a.slice_count ≡ slice_count)
    × IsArena a
    × FirstAre true slice_count a.free
    × FirstAre eager slice_count a.committed
    × FirstAre (not a.memid.initially_zero) slice_count a.dirty
    × FirstAre false slice_count a.purge

full_lem :
    (count n : ℕ)
    → 1 ≤ count
    → count ≤ 512
    → n ≤ count * 512
    → (m : Bitmap) × (unsafe_set_n (zeroed_bitmap count) 0 n ≡ some m)
      × IsBitmap m
      × (chunk_count m ≡ count)
      × FirstAre true n m
full_lem count n some_ few fits =
    let (m, got, ok, over, same) =
      unsafe_set_n_lem (zeroed_bitmap count) 0 n (zeroed_bitmap-IsBitmap count some_ few)
        (omega (arith, length-zeroed_chunks count)) in
    (
      m,
      got,
      ok,
      same ∙ length-zeroed_chunks count,
      λ i. ground (arith, over i, zeroed-clear count i),
    )

preset_lem :
    (all : Bool) (count n : ℕ)
    → 1 ≤ count
    → count ≤ 512
    → n ≤ count * 512
    → (m : Bitmap) × (preset all count n ≡ some m)
      × IsBitmap m
      × (chunk_count m ≡ count)
      × FirstAre all n m
unfolding preset
preset_lem false count n some_ few fits = (
  zeroed_bitmap count,
  refl,
  zeroed_bitmap-IsBitmap count some_ few,
  length-zeroed_chunks count,
  zeroed-clear count,
)
preset_lem true count n some_ few fits = full_lem count n some_ few fits

-- For at least one slice, `create` does not fault. A new arena satisfies the invariant; its first
-- `slice_count` slices are free, committed if it is eager, dirty unless its memory is zeroed, none
-- is scheduled, and no bit beyond them is set. If it fails then it gives back exactly what it had
-- taken.
pub create_lem :
    (slice_count : ℕ) (eager : Bool) (os_memory : Option (ℕ × MemId))
    (bitmap_memory descriptor : Option ℕ)
    → 1 ≤ slice_count
    → (r : Created) × (create slice_count eager os_memory bitmap_memory descriptor ≡ some r)
      × Creates slice_count eager os_memory bitmap_memory descriptor r
unfolding create initialize
create_lem n eager os_memory bitmap_memory descriptor some_slice =
    elim (Bool-cases (ltb 512 (chunks_for n))) [
      | inl large ↦ (refused [], rw (large, create) refl, rw large refl)
      | inr fits ↦ go fits os_memory bitmap_memory descriptor
    ]
  where
    go :
        ltb 512 (chunks_for n) ≡ false
        → (os_memory : Option (ℕ × MemId)) (bitmap_memory descriptor : Option ℕ)
        → (r : Created) × (create n eager os_memory bitmap_memory descriptor ≡ some r)
          × Creates n eager os_memory bitmap_memory descriptor r
    go fits none bm ds = (refused [], rw (fits, create) refl, rw fits refl)
    go fits (some (start, memid)) none ds =
        (refused (region memid ∷ []), rw (fits, create) refl, rw fits refl)
    go fits (some (start, memid)) (some at) none = (
      refused (region memid ∷ bitmaps (hot_bitmap_bytes (chunks_for n)) ∷ []),
      rw (fits, create) refl,
      rw fits refl,
    )
    go fits (some (start, memid)) (some at) (some place) =
        let count = chunks_for n in
        let few : chunks_for n ≤ 512 = ground (arith, fits) in
        let covers : n ≤ chunks_for n * 512 = omega arith in
        let (f, got_f, ok_f, count_f, free) = full_lem (chunks_for n) n (omega arith) few covers in
        let (c, got_c, ok_c, count_c, ready) =
          preset_lem eager (chunks_for n) n (omega arith) few covers in
        let (d, got_d, ok_d, count_d, dirt) =
          preset_lem (not memid.initially_zero) (chunks_for n) n (omega arith) few covers in
        let a : Arena = record {
          memid = memid;
          start = start;
          slice_count = n;
          free = f;
          committed = c;
          purge = zeroed_bitmap (chunks_for n);
          dirty = d;
          abandoned = none;
          purge_expire = 0;
        } in
        let done : initialize n eager start memid ≡ some a =
          simp (initialize, got_f, got_c, got_d) in
        (
          made a,
          rw (fits, create, done) refl,
          (
            refl,
            refl,
            record {
              free = ok_f;
              committed = ok_c;
              purge = zeroed_bitmap-IsBitmap (chunks_for n) (omega arith) few;
              dirty = ok_d;
              same_committed = count_c ∙ sym count_f;
              same_purge = length-zeroed_chunks (chunks_for n) ∙ sym count_f;
              same_dirty = count_d ∙ sym count_f;
              covers = omega (arith, count_f, covers);
              inside = λ i on. ground (arith, free i, on);
            },
            free,
            ready,
            dirt,
            zeroed-clear (chunks_for n),
          ),
        )
