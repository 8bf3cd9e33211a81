-- ===== src/Heap/Theap/Rounds.antt =====
-- src/heap.rs, the round of `collect_retired` over a range of bins.
use mimalloc_rs.Prelude.{
  ℕ, zero, suc, ◌+◌, ◌≤◌, ◌≡◌, refl, sym, ap, ◌∙◌, ◌≢◌, ◌⊎◌, inl, inr, Bool, true, false, arith,
  ◌==◌, Bool-cases, some, List, [], ◌∷◌, count, subst, within,
}
use mimalloc_rs.Os.{System}
use mimalloc_rs.Page.{Page}
use mimalloc_rs.Heap.Theap.{World, sweep}
use mimalloc_rs.Heap.Theap.Owned.{IsOwned, count_head}
use mimalloc_rs.Heap.Theap.Sweep.{head_expire, is_due, left, Swept, IsStep, sweep_bin_lem}

-- The pages of a list are the same.
abbrev pub SameOn : World → World → List ℕ → Type 0
SameOn w w' xs = (q : ℕ) → 1 ≤ count q xs → w'.pages q ≡ w.pages q

pub head_expire-same :
    (w w' : World) (xs : List ℕ) → SameOn w w' xs → head_expire w' xs ≡ head_expire w xs
head_expire-same w w' [] same = refl
head_expire-same w w' (p ∷ ys) same =
    ap (λ (pg : Page). pg.retire_expire) (same p (count_head p ys))

pub Swept-later :
    (force : Bool) (w w1 w2 : World) (xs after after' : List ℕ)
    → after' ≡ after
    → SameOn w1 w2 after
    → Swept force w w1 xs after
    → Swept force w w2 xs after'
Swept-later force w w1 w2 [] after after' e same s = e ∙ s
Swept-later force w w1 w2 (p ∷ ys) after after' e same (inl (due, gone)) = inl (due, e ∙ gone)
Swept-later force w w1 w2 (p ∷ ys) after after' e same (inr (not_due, (kept, expire))) =
    let still = same p (ground (arith, ap (count p) kept)) in
    inr (not_due, (e ∙ kept, ap (λ (pg : Page). pg.retire_expire) still ∙ expire))

Swept-earlier :
    (force : Bool) (w w1 w2 : World) (xs after : List ℕ)
    → SameOn w w1 xs
    → Swept force w1 w2 xs after
    → Swept force w w2 xs after
Swept-earlier force w w1 w2 [] after same s = s
Swept-earlier force w w1 w2 (p ∷ ys) after same s =
    subst
      (λ pg.
        ((is_due force pg ≡ true) × (after ≡ []))
        ⊎ ((is_due force pg ≡ false) × ((after ≡ p ∷ ys) × ((w2.pages p).retire_expire ≡ left pg))))
      (same p (count_head p ys)) s

-- The round over the bins `[b, b + rounds)`.
pub record IsSwept (force : Bool) (w : World) (t b rounds : ℕ) (lists : ℕ → List ℕ) (w' : World)
    (range' : ℕ × ℕ) (lists' : ℕ → List ℕ) : Type 0 where
  pub owned : IsOwned w' t lists'
  pub tracked : (c : ℕ) → head_expire w' (lists' c) ≢ 0 → (range'.0 ≤ c) × (c ≤ range'.1)
  pub inside : (c : ℕ) → within b (b + rounds) c ≡ true → Swept force w w' (lists c) (lists' c)
  pub outside :
      (c : ℕ) → within b (b + rounds) c ≡ false → (lists' c ≡ lists c) × SameOn w w' (lists c)

step_frame :
    (force : Bool) (w : World) (t b : ℕ) (lists : ℕ → List ℕ) (range : ℕ × ℕ) (w' : World)
    (range' : ℕ × ℕ) (lists' : ℕ → List ℕ)
    → IsOwned w t lists
    → IsStep force w t b lists range w' range' lists'
    → (c : ℕ) → c ≢ b
    → SameOn w w' (lists c)
step_frame force w t b lists range w' range' lists' is step c ne q m =
    step.pages q (is.apart c b q ne m)

pub sweep_lem :
    (force : Bool) (sys : System) (rounds : ℕ) (w : World) (t b : ℕ) (lists : ℕ → List ℕ)
    (range : ℕ × ℕ)
    → IsOwned w t lists
    → ((c : ℕ)
        → head_expire w (lists c) ≢ 0
        → ((range.0 ≤ c) × (c ≤ range.1)) ⊎ (within b (b + rounds) c ≡ true))
    → (w' : World) × (range' : ℕ × ℕ) × (lists' : ℕ → List ℕ) × (sweep sys rounds w t force b range
        ≡ some (w', range'.0, range'.1))
      × IsSwept force w t b rounds lists w' range' lists'
unfolding sweep
sweep_lem force sys zero w t b lists range is track = (
  w,
  range,
  lists,
  refl,
  record {
    owned = is;
    tracked = λ c run. elim (track c run) [ inl r ↦ r | inr e ↦ absurd (ground arith) ];
    inside = λ c e. absurd (ground arith);
    outside = λ c e. (refl, λ q m. refl);
  },
)
sweep_lem force sys (suc rounds) w t b lists range is track =
    let (w1, range1, lists1, got, step) = sweep_bin_lem force sys w t b lists range is in
    let same = step_frame force w t b lists range w1 range1 lists1 is step in
    let track1 : (c : ℕ)
        → head_expire w1 (lists1 c) ≢ 0
        → ((range1.0 ≤ c) × (c ≤ range1.1)) ⊎ (within (b + 1) (b + 1 + rounds) c ≡ true) =
      λ c run. elim (Bool-cases (c == b)) [
        | inl here ↦
            let z : c ≡ b = ground arith in
            inl (
              subst (λ d. (range1.0 ≤ d) × (d ≤ range1.1)) (sym z)
                (step.tracked (λ q. run (ap (λ d. head_expire w1 (lists1 d)) z ∙ q))))
        | inr there ↦
            let ne : c ≢ b = λ z. ground arith in
            let e : head_expire w1 (lists1 c) ≡ head_expire w (lists c) =
              ap (head_expire w1) (step.others c ne)
              ∙ head_expire-same w w1 (lists c) (same c ne) in
            elim (track c (λ z. run (e ∙ z))) [
              | inl r ↦ let wide = step.wider in inl (omega arith, omega arith)
              | inr r ↦ inr (ground arith)
            ]
      ] in
    let (w2, range2, lists2, rest, swept) =
      sweep_lem force sys rounds w1 t (b + 1) lists1 range1 step.owned track1 in
    (
      w2,
      range2,
      lists2,
      rw (got, sweep) rest,
      record {
        owned = swept.owned;
        tracked = swept.tracked;
        inside = λ c e. elim (Bool-cases (c == b)) [
          | inl here ↦
              let z : b ≡ c = ground arith in
              let (l, p) = swept.outside b (ground arith) in
              subst (λ d. Swept force w w2 (lists d) (lists2 d)) z
                (Swept-later force w w1 w2 (lists b) (lists1 b) (lists2 b) l p step.here)
          | inr there ↦
              let ne : c ≢ b = λ z. ground arith in
              let s = swept.inside c (ground arith) in
              Swept-earlier force w w1 w2 (lists c) (lists2 c) (same c ne)
                (subst (λ l. Swept force w1 w2 l (lists2 c)) (step.others c ne) s)
        ];
        outside = λ c e.
            let ne : c ≢ b = λ z. ground arith in
            let (l, p) = swept.outside c (ground arith) in
            (
              l ∙ step.others c ne,
              λ q m. p q (subst (λ l. 1 ≤ count q l) (sym (step.others c ne)) m) ∙ same c ne q m,
            );
      },
    )
