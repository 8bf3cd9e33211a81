-- ===== src/Arena/Abandon/Reclaim.antt =====
-- src/arena.rs, abandoned pages are offered to the reclaims of their class.
use mimalloc_rs.Prelude.{
  ℕ, ◌*◌, ◌<◌, ◌≤◌, ◌≡◌, refl, sym, ap, ◌∙◌, inl, inr, Bool, true, false, not, ◌&&◌, ◌||◌, arith,
  ◌==◌, Bool-cases, Option, none, some, List, [], count, get_elem?, set,
}
use mimalloc_rs.Bitmap.Map.{Bitmap, chunk_count}
use mimalloc_rs.Bitmap.Map.View.{IsBitmap, bit_of}
use mimalloc_rs.Bitmap.Wide.{try_find_and_claim}
use mimalloc_rs.Bitmap.Wide.Claim.{Refusals, Claims, try_find_and_claim_lem}
use mimalloc_rs.Arena.{Arena, bin_count}
use mimalloc_rs.Arena.View.{IsArena}
use mimalloc_rs.Arena.Abandon.{page_abandon, reclaim_abandoned}
use mimalloc_rs.Arena.Abandon.Registry.{
  class_bit, registered, IsClass, IsRegistry, put_class-IsRegistry, put_class-bit, page_abandon_lem,
}

module _ {S : Type 0} (claim : ℕ → S → S × Bool) where
  -- How a reclaim of class `bin` ends whose refusals have led to the state `t`.
  abbrev ReclaimEnds : Arena → ℕ → List ℕ → S → Arena → S → Option ℕ → Type 0
  ReclaimEnds a bin asked t b s' (some idx) =
      (registered a bin idx ≡ true)
      × (claim idx t ≡ (s', true))
      × ((c i : ℕ) → registered b c i ≡ (registered a c i && not ((c == bin) && (i == idx))))
  ReclaimEnds a bin asked t b s' none =
      (s' ≡ t)
      × ((c i : ℕ) → registered b c i ≡ registered a c i)
      × ((i : ℕ) → i < chunk_count a.free * 512 → registered a bin i ≡ true → 1 ≤ count i asked)

  -- A reclaim of class `bin` from the state `s`: it asks for registered pages only.
  abbrev pub Reclaims : Arena → S → ℕ → Arena × S × Option ℕ → Type 0
  Reclaims a s bin (b, s', found) =
      IsRegistry b
      × ((asked : List ℕ) × (t : S) × Refusals claim s asked t
          × ((i : ℕ) → 1 ≤ count i asked → registered a bin i ≡ true)
          × ReclaimEnds a bin asked t b s' found)

  -- A reclaim in a registry that has been mapped.
  reclaim_mapped :
      (a : Arena) (s : S) (bin tseq : ℕ) (maps : List Bitmap)
      → a.abandoned ≡ some maps
      → ((c : ℕ) → c < bin_count → IsClass (chunk_count a.free) maps c)
      → bin < bin_count
      → (r : Arena × S × Option ℕ) × (reclaim_abandoned claim a s bin tseq ≡ some r)
        × Reclaims a s bin r
  unfolding reclaim_abandoned
  reclaim_mapped a s bin tseq maps mapped_ classes lt =
      let (m, at, ok, size) = classes bin lt in
      let (r, got, ok', claims) = try_find_and_claim_lem claim m s tseq ok in
      go m at size r got ok' claims
    where
      old : (m : Bitmap) → get_elem? maps bin ≡ some m → (i : ℕ) → registered a bin i ≡ bit_of m i
      old m at i = rw (mapped_, at) refl

      go :
          (m : Bitmap) (at : get_elem? maps bin ≡ some m)
          → chunk_count m ≡ chunk_count a.free
          → (r : Bitmap × S × Option ℕ) → try_find_and_claim claim m s tseq ≡ some r
          → IsBitmap r.0
          → Claims claim m s (λ i. i < chunk_count m * 512) r
          → (r : Arena × S × Option ℕ) × (reclaim_abandoned claim a s bin tseq ≡ some r)
            × Reclaims a s bin r
      go m at size (n, s', some idx) got ok (asked, t, refused, set_, (lt_, on, won, now, same)) =
          let size_n = same ∙ size in
          (
            (record a { abandoned = some (set maps bin n) }, s', some idx),
            simp (reclaim_abandoned, mapped_) (simp (at, got)),
            (
              put_class-IsRegistry a maps bin m n classes at ok size_n,
              (
                asked,
                t,
                refused,
                λ i some_. old m at i ∙ set_ i some_,
                (
                  old m at idx ∙ on,
                  won,
                  λ c i.
                      put_class-bit a maps bin m n classes at ok size_n c i
                      ∙ elim (Bool-cases (c == bin)) [
                        | inl here ↦
                            let q : c ≡ bin = ground arith in
                            let e : registered a c i ≡ bit_of m i = rw q (old m at i) in
                            rw (here, e) (ground (arith, now i))
                        | inr off ↦
                            let e : registered a c i ≡ class_bit (get_elem? maps c) i =
                              rw mapped_ refl in
                            rw (off, e) (ground arith)
                      ],
                ),
              ),
            ),
          )
      go m at size (n, s', none) got ok (asked, t, refused, set_, (same, state, all)) =
          let size_n : chunk_count n ≡ chunk_count a.free = ap chunk_count same ∙ size in
          (
            (record a { abandoned = some (set maps bin n) }, s', none),
            simp (reclaim_abandoned, mapped_) (simp (at, got)),
            (
              put_class-IsRegistry a maps bin m n classes at ok size_n,
              (
                asked,
                t,
                refused,
                λ i some_. old m at i ∙ set_ i some_,
                (
                  state,
                  λ c i.
                      put_class-bit a maps bin m n classes at ok size_n c i
                      ∙ elim (Bool-cases (c == bin)) [
                        | inl here ↦
                            let q : c ≡ bin = ground arith in
                            let e : registered a c i ≡ bit_of m i = rw q (old m at i) in
                            rw (here, e) (ap (λ z. bit_of z i) same)
                        | inr off ↦
                            let e : registered a c i ≡ class_bit (get_elem? maps c) i =
                              rw mapped_ refl in
                            rw (off, e) refl
                      ],
                  λ i lo on. all i (omega (arith, lo, size)) (sym (old m at i) ∙ on),
                ),
              ),
            ),
          )

  -- A reclaim in any registry.
  reclaim_abandoned_lem :
      (a : Arena) (s : S) (bin tseq : ℕ)
      → IsRegistry a
      → bin < bin_count
      → (r : Arena × S × Option ℕ) × (reclaim_abandoned claim a s bin tseq ≡ some r)
        × Reclaims a s bin r
  unfolding reclaim_abandoned
  reclaim_abandoned_lem a s bin tseq reg lt = go a.abandoned refl
    where
      go :
          (o : Option (List Bitmap))
          → a.abandoned ≡ o
          → (r : Arena × S × Option ℕ) × (reclaim_abandoned claim a s bin tseq ≡ some r)
            × Reclaims a s bin r
      go (some maps) e = reclaim_mapped a s bin tseq maps e (reg maps e) lt
      go none e =
          let empty : (i : ℕ) → registered a bin i ≡ false = λ i. rw e refl in
          (
            (a, s, none),
            simp (reclaim_abandoned, e),
            (
              reg,
              (
                [],
                s,
                refl,
                λ i z. absurd (omega arith),
                (refl, λ c i. refl, λ i lo on. absurd (ground (arith, empty i, on))),
              ),
            ),
          )

  -- On an arena that satisfies its invariant, with a bitmap for every class if the registry is
  -- mapped: a page that `page_abandon` registers, where the registry is mapped or can be, is offered
  -- to the next reclaim of its class, whatever claiming a page does. Registering adds this page to
  -- this class and nothing else. The reclaim asks for registered pages of the class only, one after
  -- the other from the state at its start. A page it returns was granted in the state that the
  -- refusals before have left, and is the only one taken out of the registry. If it returns none,
  -- then in this run every slice of the arena that is registered in the class was asked for and
  -- refused, and the registry stays. Neither call faults.
  pub reclaim-page_abandon :
      (granted : Bool) (a : Arena) (s : S) (idx bin tseq : ℕ)
      → IsArena a
      → IsRegistry a
      → bin < bin_count
      → idx < a.slice_count
      → (a.abandoned ≡ none → granted ≡ true)
      → (b : Arena) × (page_abandon granted a idx bin ≡ some b)
        × ((c i : ℕ) → registered b c i ≡ (registered a c i || ((c == bin) && (i == idx))))
        × ((r : Arena × S × Option ℕ) × (reclaim_abandoned claim b s bin tseq ≡ some r)
            × Reclaims b s bin r)
  reclaim-page_abandon granted a s idx bin tseq is reg lt inside mappable =
      let (b, got, ok, now) = page_abandon_lem granted a idx bin is reg lt inside mappable in
      (b, got, now, reclaim_abandoned_lem b s bin tseq ok lt)
