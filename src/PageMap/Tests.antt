-- ===== src/PageMap/Tests.antt =====
-- src/page_map.rs, runs on an empty table and the theorems at it.
use mimalloc_rs.Prelude.{ℕ, ◌+◌, ◌*◌, ◌≡◌, refl, Bool, true, none}
use mimalloc_rs.PageMap.{
  PageMap, slice_page, slice_index, lookup, register, register_loop, ensure_top, ensure_submap,
  submap_for, table_page,
}
use mimalloc_rs.PageMap.Register.{Outcome, register_lem}

abbrev granted : ℕ → Bool
granted k = true

abbrev empty : PageMap
empty = record { top = none; asked = 0 }

-- Four slices from the last slice of one submap on, as in the code's own test.
abbrev base : ℕ
base = 8191 * 65536

lookup_run : lookup (register granted empty base 4 77).0 (base + 3 * 65536 + 7) ≡ 77
unfolding lookup register ensure_top register_loop submap_for ensure_submap table_page
lookup_run = refl

lookup_past : lookup (register granted empty base 4 77).0 (base + 4 * 65536) ≡ 0
unfolding lookup register ensure_top register_loop submap_for ensure_submap table_page
lookup_past = refl

register_lem_example :
    Outcome granted (slice_page none) (slice_index base) 4 77 (register granted empty base 4 77)
register_lem_example = register_lem granted empty base 4 77 (λ v h. refl)
