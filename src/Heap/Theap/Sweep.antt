-- ===== src/Heap/Theap/Sweep.antt =====
-- src/heap.rs, `collect_retired`: one round of the countdowns of the pages that are kept.
use mimalloc_rs.Prelude.{
  ℕ, ◌-◌, ◌≤◌, ◌≡◌, refl, sym, ap, ◌∙◌, ◌≢◌, ◌⊎◌, inl, inr, Bool, true, false, not, arith, ◌==◌,
  ltb, ◌&&◌, ◌||◌, Bool-cases, if◌then◌else◌, Option, some, List, [], ◌∷◌, count, subst,
}
use mimalloc_rs.Os.{System}
use mimalloc_rs.PageQueue.Laws.{IsQueue}
use mimalloc_rs.Page.{Page}
use mimalloc_rs.Page.Flags.{is_all_free}
use mimalloc_rs.Heap.Theap.{
  World, put, set_page, unlink, release_page_slices, sweep_page, sweep_bin,
}
use mimalloc_rs.Heap.Theap.Cells.{put_self, put_ne}
use mimalloc_rs.Heap.Theap.Owned.{IsOwned, set_expire-IsOwned, release-IsOwned}

-- The countdown of the page at the front.
abbrev pub head_expire : World → List ℕ → ℕ
head_expire w [] = 0
head_expire w (p ∷ ys) = (w.pages p).retire_expire

-- Whether the round ends the countdown of an idle page.
abbrev pub is_due : Bool → Page → Bool
is_due force pg = not (pg.retire_expire == 0) && pg.used == 0 && (pg.retire_expire == 1 || force)

-- What is left of a countdown: a page that is in use again has none.
abbrev pub left : Page → ℕ
left pg = if pg.used == 0 then pg.retire_expire - 1 else 0

-- What a round makes of the queue of one bin.
abbrev pub Swept : Bool → World → World → List ℕ → List ℕ → Type 0
Swept force w w' [] after = after ≡ []
Swept force w w' (p ∷ ys) after =
    ((is_due force (w.pages p) ≡ true) × (after ≡ []))
    ⊎ ((is_due force (w.pages p) ≡ false)
        × ((after ≡ p ∷ ys) × ((w'.pages p).retire_expire ≡ left (w.pages p))))

-- One bin of the round.
pub record IsStep (force : Bool) (w : World) (t b : ℕ) (lists : ℕ → List ℕ) (range : ℕ × ℕ)
    (w' : World) (range' : ℕ × ℕ) (lists' : ℕ → List ℕ) : Type 0 where
  pub owned : IsOwned w' t lists'
  pub here : Swept force w w' (lists b) (lists' b)
  pub others : (c : ℕ) → c ≢ b → lists' c ≡ lists c
  pub pages : (q : ℕ) → count q (lists b) ≡ 0 → w'.pages q ≡ w.pages q
  pub wider : (range'.0 ≤ range.0) × (range.1 ≤ range'.1)
  pub tracked : head_expire w' (lists' b) ≢ 0 → (range'.0 ≤ b) × (b ≤ range'.1)

-- A round of a bin whose page stays, with another countdown.
stays :
    (force : Bool) (w : World) (t b p : ℕ) (lists : ℕ → List ℕ) (range range' : ℕ × ℕ) (ys : List ℕ)
    (e : ℕ)
    → IsOwned w t lists
    → lists b ≡ p ∷ ys
    → (e ≢ 0 → ys ≡ [])
    → is_due force (w.pages p) ≡ false
    → e ≡ left (w.pages p)
    → (range'.0 ≤ range.0) × (range.1 ≤ range'.1)
    → (e ≢ 0 → (range'.0 ≤ b) × (b ≤ range'.1))
    → IsStep force w t b lists range
        (set_page w p (record (w.pages p) { retire_expire = e }))
        range'
        lists
stays force w t b p lists range range' ys e is front alone due eq wide track =
    let w' = set_page w p (record (w.pages p) { retire_expire = e }) in
    let at : (w'.pages p).retire_expire ≡ e =
      ap (λ (pg : Page). pg.retire_expire) (put_self w.pages p _) in
    record {
      owned = set_expire-IsOwned w t lists b p ys e is front alone;
      here = subst (λ l. Swept force w w' l l) (sym front) (inr (due, (refl, at ∙ eq)));
      others = λ c ne. refl;
      pages = λ q out. put_ne w.pages p _ q (λ z. ground (arith, ap (count q) front));
      wider = wide;
      tracked = λ run. track (λ z. run (ap (head_expire w') front ∙ at ∙ z));
    }

-- A round of a bin with no countdown.
passes :
    (force : Bool) (w : World) (t b : ℕ) (lists : ℕ → List ℕ) (range : ℕ × ℕ)
    → IsOwned w t lists
    → head_expire w (lists b) ≡ 0
    → IsStep force w t b lists range w range lists
passes force w t b lists range is idle = record {
  owned = is;
  here = same (lists b) idle;
  others = λ c ne. refl;
  pages = λ q out. refl;
  wider = (omega arith, omega arith);
  tracked = λ run. absurd (run idle);
}
  where
    same : (xs : List ℕ) → head_expire w xs ≡ 0 → Swept force w w xs xs
    same [] e = refl
    same (p ∷ ys) e = inr (ground (arith, e), (refl, ground (arith, e)))

-- A round of a bin whose page is released.
gives :
    (force : Bool) (sys : System) (w : World) (t b p : ℕ) (lists : ℕ → List ℕ) (range : ℕ × ℕ)
    (ys : List ℕ)
    → IsOwned w t lists
    → lists b ≡ p ∷ ys
    → is_due force (w.pages p) ≡ true
    → let u = set_page w p (record (w.pages p) { retire_expire = (w.pages p).retire_expire - 1 }) in
      (w' : World) × (release_page_slices sys (unlink u t b p) p ≡ some w')
      × IsStep force w t b lists range w' range (put lists b [])
gives force sys w t b p lists range ys is front due =
    let pg = w.pages p in
    let u = set_page w p (record pg { retire_expire = pg.retire_expire - 1 }) in
    let only = is.sole b p ys front (λ z. ground (arith, due)) in
    let owned = set_expire-IsOwned w t lists b p ys (pg.retire_expire - 1) is front (λ z. only) in
    let (w', got, owned', pages) =
      release-IsOwned sys u t lists b p owned (front ∙ ap (λ z. p ∷ z) only) in
    let empty : put lists b [] b ≡ [] = put_self lists b [] in
    (
      w',
      got,
      record {
        owned = owned';
        here = subst (λ l. Swept force w w' l (put lists b [] b)) (sym front) (inl (due, empty));
        others = λ c ne. put_ne lists b [] c ne;
        pages = λ q out.
            ap (λ (f : ℕ → Page). f q) pages
            ∙ put_ne w.pages p _ q (λ z. ground (arith, ap (count q) front));
        wider = (omega arith, omega arith);
        tracked = λ run. absurd (run (ap (head_expire w') empty));
      },
    )

abbrev pub Steps : Bool → World → ℕ → ℕ → (ℕ → List ℕ) → ℕ × ℕ → Option (World × ℕ × ℕ) → Type 0
Steps force w t b lists range r =
    (w' : World) × (range' : ℕ × ℕ) × (lists' : ℕ → List ℕ) × (r ≡ some (w', range'.0, range'.1))
    × IsStep force w t b lists range w' range' lists'

no_page :
    (sys : System) (w : World) (t : ℕ) (force : Bool) (b : ℕ) (range : ℕ × ℕ)
    → sweep_page sys w t force b 0 range ≡ some (w, range.0, range.1)
unfolding sweep_page
no_page sys w t force b range = refl

sweep_page_lem :
    (force : Bool) (sys : System) (w : World) (t b p : ℕ) (lists : ℕ → List ℕ) (range : ℕ × ℕ)
    (ys : List ℕ)
    → IsOwned w t lists
    → lists b ≡ p ∷ ys
    → p ≢ 0
    → Steps force w t b lists range (sweep_page sys w t force b p range)
unfolding sweep_page is_all_free
sweep_page_lem force sys w t b p lists range ys is front nz =
    let pg = w.pages p in
    let one : (p == 0) ≡ false = ground arith in
    elim (Bool-cases (pg.retire_expire == 0)) [
      | inl idle ↦ (
        w,
        range,
        lists,
        rw (one, idle, sweep_page) refl,
        passes force w t b lists range is (ap (head_expire w) front ∙ ground arith),
      )
      | inr running ↦ elim (Bool-cases (pg.used == 0)) [
        | inr busy ↦ (
          _,
          range,
          lists,
          rw (one, running, busy, sweep_page) refl,
          stays force w t b p lists range range ys 0 is front (λ z. absurd (z refl)) (ground arith)
              (ground arith) (omega arith, omega arith) (λ z. absurd (z refl)),
        )
        | inl empty ↦ elim (Bool-cases (pg.retire_expire - 1 == 0 || force)) [
          | inl due ↦
              let d : is_due force pg ≡ true = ground arith in
              let (w', got, step) = gives force sys w t b p lists range ys is front d in
              (w', range, put lists b [], rw (one, running, empty, due, got, sweep_page) refl, step)
          | inr early ↦
              let d : is_due force pg ≡ false = ground arith in
              (
                _,
                (if ltb b range.0 then b else range.0, if ltb range.1 b then b else range.1),
                lists,
                rw (one, running, empty, early, sweep_page) refl,
                stays force w t b p lists range _ ys (pg.retire_expire - 1) is front
                    (λ z. is.sole b p ys front (λ q. ground (arith, q))) d (ground arith)
                    (ground arith, ground arith) (λ z. (ground arith, ground arith)),
              )
        ]
      ]
    ]

pub sweep_bin_lem :
    (force : Bool) (sys : System) (w : World) (t b : ℕ) (lists : ℕ → List ℕ) (range : ℕ × ℕ)
    → IsOwned w t lists
    → Steps force w t b lists range (sweep_bin sys w t force b range)
unfolding sweep_bin
sweep_bin_lem force sys w t b lists range is = go (lists b) refl
  where
    go :
        (xs : List ℕ)
        → lists b ≡ xs
        → Steps force w t b lists range
            (sweep_page sys w t force b ((w.theaps t).pages b).first range)
    go [] e =
        let (first, last) = (subst (IsQueue _ w.links) e (is.queues b)).chain in
        subst (λ p. Steps force w t b lists range (sweep_page sys w t force b p range)) (sym first)
          (
            w,
            range,
            lists,
            no_page sys w t force b range,
            passes force w t b lists range is (ap (head_expire w) e),
          )
    go (p ∷ ys) e =
        let (first, nz, prev, rest) = (subst (IsQueue _ w.links) e (is.queues b)).chain in
        subst (λ p. Steps force w t b lists range (sweep_page sys w t force b p range)) (sym first)
          (sweep_page_lem force sys w t b p lists range ys is e nz)
