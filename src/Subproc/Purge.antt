-- ===== src/Subproc/Purge.antt =====
-- src/subproc.rs, `try_purge`, and src/arena.rs, `maybe_purge`.
use mimalloc_rs.Prelude.{
  ℕ, zero, suc, ◌<◌, ◌≡◌, refl, sym, ap, subst, ◌⊎◌, inl, inr, Bool, true, false, not, ◌&&◌, ◌||◌,
  arith, ltb, leb, ◌==◌, Bool-cases, some, some-injective, List, [], ◌∷◌, get_elem?, length,
}
use mimalloc_rs.Os.{System}
use mimalloc_rs.Bitmap.Map.View.{bit_of}
use mimalloc_rs.Arena.{Arena, maybe_purge}
use mimalloc_rs.Arena.View.{IsArena, IsPurged, with_expire-IsArena}
use mimalloc_rs.Arena.Purge.{run_purge_lem}
use mimalloc_rs.Subproc.{Subproc, purge_all, try_purge}
use mimalloc_rs.Subproc.Arenas.{IsSubproc}

module _ (sys : System) where
  -- Whether an arena is to be purged now: its memory is not pinned, and the purge is forced or its
  -- deadline has been set and has passed.
  abbrev pub is_due : Bool → Arena → Bool
  is_due force a =
      not a.memid.is_pinned
      && (force || (not (a.purge_expire == 0) && leb a.purge_expire sys.clock_now_msecs))

  -- An arena that is due is purged: its deadline is unset, and none of its slices is scheduled any
  -- more. Any other arena stays as it is.
  abbrev pub Purges : Bool → Arena → Arena → Type 0
  Purges force a b =
      ((is_due force a ≡ false) × (b ≡ a))
      ⊎ ((is_due force a ≡ true)
          × IsPurged (record a { purge_expire = 0 }) b
          × ((i : ℕ) → i < a.slice_count → bit_of b.purge i ≡ false))

  maybe_purge_lem :
      (a : Arena) (force : Bool)
      → IsArena a
      → (r : Arena × Bool) × (maybe_purge sys a force ≡ some r) × Purges force a r.0
  unfolding maybe_purge
  maybe_purge_lem a force is =
      let (r, got, did, clear) =
        run_purge_lem sys (record a { purge_expire = 0 }) (with_expire-IsArena a 0 is) in
      elim (Bool-cases a.memid.is_pinned) [
        | inl pinned ↦ ((a, false), rw pinned refl, inl (ground arith, refl))
        | inr free ↦ elim (Bool-cases force) [
          | inl f ↦ (r, simp (free, f) got, inr (ground arith, did, clear))
          | inr f ↦ elim (Bool-cases (a.purge_expire == 0)) [
            | inl none_due ↦ ((a, false), rw (free, f, none_due) refl, inl (ground arith, refl))
            | inr due ↦ elim (Bool-cases (ltb sys.clock_now_msecs a.purge_expire)) [
              | inl early ↦ ((a, false), rw (free, f, due, early) refl, inl (ground arith, refl))
              | inr late ↦ (r, simp (free, f, due, late) got, inr (ground arith, did, clear))
            ]
          ]
        ]
      ]

  Purges-IsArena : (force : Bool) (a b : Arena) → IsArena a → Purges force a b → IsArena b
  Purges-IsArena force a b is (inl (stays, e)) = subst IsArena (sym e) is
  Purges-IsArena force a b is (inr (due, did, clear)) = did.is

  pub Purges-slice_count :
      (force : Bool) (a b : Arena) → Purges force a b → b.slice_count ≡ a.slice_count
  Purges-slice_count force a b (inl (stays, e)) = ap (λ (x : Arena). x.slice_count) e
  Purges-slice_count force a b (inr (due, did, clear)) = did.place.slice_count

  -- Every arena of a list has been purged if it was due.
  abbrev pub ArePurged : Bool → List Arena → List Arena → Type 0
  ArePurged force [] [] = Unit {0}
  ArePurged force [] (b ∷ bs) = ⊥
  ArePurged force (a ∷ xs) [] = ⊥
  ArePurged force (a ∷ xs) (b ∷ bs) = Purges force a b × ArePurged force xs bs

  purge_all_lem :
      (arenas : List Arena) (force : Bool)
      → ((i : ℕ) (a : Arena) → get_elem? arenas i ≡ some a → IsArena a)
      → (rest : List Arena) × (purge_all sys arenas force ≡ some rest) × ArePurged force arenas rest
  unfolding purge_all
  purge_all_lem [] force are = ([], refl, tt)
  purge_all_lem (a ∷ arenas) force are =
      let ((b, purged), one, did) = maybe_purge_lem a force (are 0 a refl) in
      let (bs, rest, all) = purge_all_lem arenas force (λ i c e. are (suc i) c e) in
      (b ∷ bs, rw (one, purge_all, rest) refl, (did, all))

  ArePurged-get :
      (force : Bool) (xs ys : List Arena) (i : ℕ) (b : Arena)
      → ArePurged force xs ys
      → get_elem? ys i ≡ some b
      → (a : Arena) × (get_elem? xs i ≡ some a) × Purges force a b
  ArePurged-get force [] [] i b p e = cc
  ArePurged-get force [] (y ∷ ys) i b p e = absurd p
  ArePurged-get force (x ∷ xs) [] i b p e = absurd p
  ArePurged-get force (x ∷ xs) (y ∷ ys) zero b (p, rest) e =
      (x, refl, subst (Purges force x) (some-injective y b e) p)
  ArePurged-get force (x ∷ xs) (y ∷ ys) (suc i) b (p, rest) e = ArePurged-get force xs ys i b rest e

  ArePurged-length :
      (force : Bool) (xs ys : List Arena) → ArePurged force xs ys → length ys ≡ length xs
  ArePurged-length force [] [] p = refl
  ArePurged-length force [] (y ∷ ys) p = absurd p
  ArePurged-length force (x ∷ xs) [] p = absurd p
  ArePurged-length force (x ∷ xs) (y ∷ ys) (p, rest) = ap suc (ArePurged-length force xs ys rest)

  -- What `try_purge` leaves of the process `s`.
  pub record IsSubprocPurged (force : Bool) (s s' : Subproc) : Type 0 where
    pub is : IsSubproc s'
    pub cursor : s'.alloc_cursor ≡ s.alloc_cursor
    pub count : length s'.arenas ≡ length s.arenas
    pub arenas :
        (i : ℕ) (b : Arena)
        → get_elem? s'.arenas i ≡ some b
        → (a : Arena) × (get_elem? s.arenas i ≡ some a) × Purges force a b

  -- On a process that satisfies its invariant, `try_purge` ends without a fault and keeps the
  -- invariant and the number of arenas, whatever the platform answers. Exactly the arenas that are
  -- due are purged: those whose memory is not pinned, and where the purge is forced or a deadline
  -- has been set and has passed. Such an arena has no deadline and no scheduled slice afterwards, its
  -- free slices are the same ones, and only slices that were free and scheduled may stop being
  -- committed or become clean. Any other arena stays as it is.
  pub try_purge_lem :
      (s : Subproc) (force : Bool)
      → IsSubproc s
      → (s' : Subproc) × (try_purge sys s force ≡ some s') × IsSubprocPurged force s s'
  unfolding try_purge
  try_purge_lem s force is =
      let (arenas, got, all) = purge_all_lem s.arenas force is.arenas in
      let count = ArePurged-length force s.arenas arenas all in
      (
        record s { arenas = arenas },
        rw (got, try_purge) refl,
        record {
          is = record {
            few = omega (arith, count, is.few);
            arenas = λ i b e.
                let (a, was, did) = ArePurged-get force s.arenas arenas i b all e in
                Purges-IsArena force a b (is.arenas i a was) did;
          };
          cursor = refl;
          count = count;
          arenas = λ i b e. ArePurged-get force s.arenas arenas i b all e;
        },
      )
