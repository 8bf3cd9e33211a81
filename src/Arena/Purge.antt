-- ===== src/Arena/Purge.antt =====
-- src/arena.rs, `run_purge` gives back the memory of scheduled slices that are free.
use mimalloc_rs.Prelude.{
  ℕ, zero, suc, ◌+◌, ◌-◌, ◌*◌, ◌/◌, ◌<◌, ◌≤◌, ◌≡◌, refl, inl, inr, Bool, true, false, Option, some,
  arith, ltb, ◌==◌, ◌||◌, Bool-cases, within,
}
use mimalloc_rs.Bitmap.Map.View.{bit_of}
use mimalloc_rs.Bitmap.Map.Update.{RangeIs}
use mimalloc_rs.Bitmap.Map.Query.{bitmap_is_set_lem}
use mimalloc_rs.Os.{System}
use mimalloc_rs.Arena.{Arena, purge_loop, run_purge}
use mimalloc_rs.Arena.View.{IsArena, IsRange, chunk-lt, IsPurged, IsPurged-refl, IsPurged-trans}
use mimalloc_rs.Arena.Runs.{run_end_lem, purge_range_lem}

module _ (sys : System) where
  -- The loop purges what is scheduled from `idx` on.
  abbrev LoopPurged : Arena → ℕ → Option (Arena × Bool) → Type 0
  LoopPurged a idx o =
      (r : Arena × Bool) × (o ≡ some r)
      × IsPurged a r.0
      × ((i : ℕ) → idx ≤ i → i < a.slice_count → bit_of r.0.purge i ≡ false)

  purge_loop_lem :
      (rounds : ℕ) (a : Arena) (idx : ℕ) (purged : Bool)
      → IsArena a
      → idx ≤ a.slice_count
      → a.slice_count < idx + rounds
      → LoopPurged a idx (purge_loop sys rounds a idx purged)
  unfolding purge_loop
  purge_loop_lem zero a idx purged is le few = absurd (omega arith)
  purge_loop_lem (suc rounds) a idx purged is le few = elim (Bool-cases (ltb idx a.slice_count)) [
    | inr past ↦ (
      (a, purged),
      rw (past, purge_loop) refl,
      IsPurged-refl a is,
      λ i lo hi. absurd (ground arith),
    )
    | inl more ↦
        let lt : idx < a.slice_count = ground arith in
        let got =
          bitmap_is_set_lem a.purge idx is.purge
            (omega (arith, chunk-lt a idx is lt, is.same_purge)) in
        elim (Bool-cases (bit_of a.purge idx)) [
          | inr off ↦
              let (r, rest, did, clear) =
                purge_loop_lem rounds a (idx + 1) purged is (omega arith) (omega arith) in
              (
                r,
                rw (more, purge_loop, got, off) rest,
                did,
                λ i lo hi. elim (Bool-cases (i == idx)) [
                  | inl e ↦
                      let q : i ≡ idx = ground arith in
                      let before : bit_of a.purge i ≡ false = rw q off in
                      elim (Bool-cases (bit_of r.0.purge i)) [
                        | inl on ↦ absurd (ground (arith, did.purge i on, before))
                        | inr clear_ ↦ clear_
                      ]
                  | inr e ↦ clear i (ground arith) hi
                ],
              )
          | inl on ↦
              let (e, stop, ge, inside, field, all) =
                run_end_lem sys 64 a ((idx / 64 + 1) * 64) (idx + 1) is (omega arith) (omega arith)
                  (omega arith) in
              let range : IsRange a idx (e - idx) = record {
                some_slice = omega arith;
                inside = omega arith;
                one_chunk = omega arith;
              } in
              let scheduled : RangeIs true a.purge idx (e - idx) = λ i lo hi.
                elim (Bool-cases (i == idx)) [
                  | inl q ↦ let w : i ≡ idx = ground arith in rw w on
                  | inr q ↦ all i (ground arith) (omega arith)
                ] in
              let ((b, one), did, first, gone) =
                purge_range_lem sys a idx (e - idx) is range scheduled in
              let (r, rest, second, clear) =
                purge_loop_lem rounds b e (purged || one) first.is
                  (omega (arith, first.place.slice_count))
                  (omega (arith, first.place.slice_count)) in
              (
                r,
                rw (more, purge_loop, got, on, stop, did) rest,
                IsPurged-trans a b r.0 first second,
                λ i lo hi. elim (Bool-cases (within idx e i)) [
                  | inl q ↦
                      let before : bit_of b.purge i ≡ false = ground (arith, gone i) in
                      elim (Bool-cases (bit_of r.0.purge i)) [
                        | inl on ↦ absurd (ground (arith, second.purge i on, before))
                        | inr clear_ ↦ clear_
                      ]
                  | inr q ↦ clear i (ground arith) (omega (arith, first.place.slice_count))
                ],
              )
        ]
  ]

  -- On an arena that satisfies the invariant, `run_purge` ends without a fault and keeps the
  -- invariant, whatever the platform answers. The free slices stay exactly the same ones; only
  -- slices that were free and scheduled may stop being committed or become clean, the deadline stays,
  -- and no slice of the arena is scheduled afterwards.
  pub run_purge_lem :
      (a : Arena)
      → IsArena a
      → (r : Arena × Bool) × (run_purge sys a ≡ some r)
        × IsPurged a r.0
        × ((i : ℕ) → i < a.slice_count → bit_of r.0.purge i ≡ false)
  unfolding run_purge
  run_purge_lem a is =
      let (r, got, did, clear) =
        purge_loop_lem (a.slice_count + 1) a 0 false is (omega arith) (omega arith) in
      (r, got, did, λ i lt. clear i (omega arith) lt)
