-- ===== src/Os/Tests.antt =====
-- src/os.rs, runs of the aligned allocation on a small platform, and the theorem at it.
use mimalloc_rs.Prelude.{◌≡◌, refl, true, false, some, none, [], ◌∷◌, ltb, if◌then◌else◌, ◌^◌}
use mimalloc_rs.Layout.{align_up, is_power_of_two}
use mimalloc_rs.Options.Integers.{pos}
use mimalloc_rs.Os.{System, mapped, unmapped, alloc_over, alloc_direct, alloc_aligned}

-- Every request up to 2^40 bytes is granted at one page past 64 KiB.
abbrev one_page_off : System
one_page_off = record {
  page_size = 4096;
  alloc_granularity = 4096;
  has_partial_free = true;
  prim_alloc = λ size alignment commit allow_large.
      if ltb size (2 ^ 40)
      then some (record { addr = 69632; is_large = false; is_zero = true })
      else none;
  prim_commit = λ addr size. some true;
  clock_now_msecs = 0;
  purge_delay = pos 1000;
  purge_decommits = true;
  arena_purge_delay = pos 1000;
}

trimmed_run :
    (alloc_aligned one_page_off 131072 65536 true false).0
    ≡ (mapped 69632 196608 ∷ unmapped 69632 61440 ∷ unmapped 262144 4096 ∷ [])
unfolding alloc_aligned alloc_over alloc_direct align_up is_power_of_two
trimmed_run = refl
