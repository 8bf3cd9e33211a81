-- ===== src/Meta/Tests.antt =====
-- src/arena_meta.rs, the theorems at one region.
use mimalloc_rs.Prelude.{◌≡◌, refl, inl, some, [], ◌∷◌, arith}
use mimalloc_rs.Bitmap.Tests.{small, small-IsBitmap}
use mimalloc_rs.Arena.Tests.{eight_free-IsArena}
use mimalloc_rs.Meta.{MetaChunk, Meta, block_size, div_ceil, meta_free}
use mimalloc_rs.Meta.Regions.{IsRegion, AreRegions, IsRun}
use mimalloc_rs.Meta.Free.{Frees, meta_free_lem}

-- Blocks 60 to 67 of the region are free.
abbrev region : MetaChunk
region = record { base = 65536; bitmap = small; first_data_block = 0 }

abbrev one_region : Meta
one_region = record { chunks = region ∷ []; bytes = λ a. 1 }

region-IsRegion : IsRegion region
region-IsRegion = record {
  bitmap = small-IsBitmap;
  inside = λ i on. (omega arith, eight_free-IsArena.inside i on);
}

one_region-AreRegions : AreRegions one_region.chunks
one_region-AreRegions = (region-IsRegion, (λ a h. refl), tt)

ten-IsRun : IsRun one_region.chunks 66176 (div_ceil 100 block_size)
unfolding div_ceil
ten-IsRun = inl (10, refl, omega arith, omega arith)

meta_free_lem_example :
    (s' : Meta) × (meta_free one_region 66176 100 ≡ some s')
    × Frees one_region.chunks 66176 (div_ceil 100 block_size) (some s'.chunks)
meta_free_lem_example =
    meta_free_lem one_region 66176 100 one_region-AreRegions (omega arith) ten-IsRun
