-- ===== src/PageQueue/Segment.antt =====
-- src/page_queue.rs, stretches of linked pages.
use mimalloc_rs.Prelude.{
  ℕ, suc, ◌≤◌, ◌≡◌, refl, sym, ap, ◌∙◌, ◌≢◌, List, [], ◌∷◌, ◌++◌, arith, count,
}
use mimalloc_rs.PageQueue.{Links}

-- From `p`, behind `before`, the links lead through the pages `xs` to `stop`, the last being
-- `last`.
abbrev pub Segment : Links → ℕ → ℕ → List ℕ → ℕ → ℕ → Type 0
Segment s before p [] last stop = (p ≡ stop) × (last ≡ before)
Segment s before p (x ∷ xs) last stop =
    (p ≡ x) × (x ≢ 0) × (s.prev x ≡ before) × Segment s x (s.next x) xs last stop

-- No page stands in a list twice.
abbrev pub Distinct : List ℕ → Type 0
Distinct xs = (a : ℕ) → count a xs ≤ 1

pub count_self : (x : ℕ) (xs : List ℕ) → count x (x ∷ xs) ≡ suc (count x xs)
count_self x xs = ground arith

pub Distinct-tail : (x : ℕ) (xs : List ℕ) → Distinct (x ∷ xs) → Distinct xs
Distinct-tail x xs d a = omega (arith, d a)

pub Segment-append :
    (s : Links) (before p : ℕ) (xs ys : List ℕ) (mid q last stop : ℕ)
    → Segment s before p xs mid q
    → Segment s mid q ys last stop
    → Segment s before p (xs ++ ys) last stop
Segment-append s before p [] [] mid q last stop (e, f) (g, h) = (e ∙ g, h ∙ f)
Segment-append s before p [] (y ∷ ys) mid q last stop (e, f) (g, ne, h, rest) =
    (e ∙ g, ne, h ∙ f, rest)
Segment-append s before p (x ∷ xs) ys mid q last stop (e, ne, f, rest) t =
    (e, ne, f, Segment-append s x (s.next x) xs ys mid q last stop rest t)

pub Segment-split :
    (s : Links) (before p : ℕ) (xs ys : List ℕ) (last stop : ℕ)
    → Segment s before p (xs ++ ys) last stop
    → (mid : ℕ) × (q : ℕ) × Segment s before p xs mid q × Segment s mid q ys last stop
Segment-split s before p [] ys last stop t = (before, p, (refl, refl), t)
Segment-split s before p (x ∷ xs) ys last stop (e, ne, f, rest) =
    let (mid, q, a, b) = Segment-split s x (s.next x) xs ys last stop rest in
    (mid, q, (e, ne, f, a), b)

-- The last page of a stretch is one of its pages.
pub Segment-last :
    (s : Links) (before p x : ℕ) (xs : List ℕ) (last stop : ℕ)
    → Segment s before p (x ∷ xs) last stop
    → (1 ≤ count last (x ∷ xs)) × (last ≢ 0)
Segment-last s before p x [] last stop (e, ne, f, (g, h)) = (ground arith, λ z. ne (sym h ∙ z))
Segment-last s before p x (y ∷ xs) last stop (e, ne, f, rest) =
    let (m, nz) = Segment-last s x (s.next x) y xs last stop rest in (omega arith, nz)

-- A stretch does not see writes to the cells of other pages.
pub Segment-frame :
    (s t : Links) (before p : ℕ) (xs : List ℕ) (last stop : ℕ)
    → ((a : ℕ) → 1 ≤ count a xs → (t.next a ≡ s.next a) × (t.prev a ≡ s.prev a))
    → Segment s before p xs last stop
    → Segment t before p xs last stop
Segment-frame s t before p [] last stop same seg = seg
Segment-frame s t before p (x ∷ xs) last stop same (e, ne, f, rest) =
    let (n, q) = same x (omega (arith, count_self x xs)) in
    let tail = Segment-frame s t x (s.next x) xs last stop (λ a m. same a (omega arith)) rest in
    (e, ne, q ∙ f, rw n tail)

-- The last page of a stretch is linked to another successor.
pub Segment-relink :
    (s t : Links) (before p x : ℕ) (xs : List ℕ) (last stop stop' : ℕ)
    → Distinct (x ∷ xs)
    → ((a : ℕ) → 1 ≤ count a (x ∷ xs) → t.prev a ≡ s.prev a)
    → ((a : ℕ) → 1 ≤ count a (x ∷ xs) → a ≢ last → t.next a ≡ s.next a)
    → t.next last ≡ stop'
    → Segment s before p (x ∷ xs) last stop
    → Segment t before p (x ∷ xs) last stop'
Segment-relink s t before p x [] last stop stop' d same_prev same_next new (e, ne, f, (g, h)) =
    (e, ne, same_prev x (omega (arith, count_self x [])) ∙ f, (ap t.next (sym h) ∙ new, h))
Segment-relink s t before p x (y ∷ xs) last stop stop' d same_prev same_next new (e, ne, f, rest) =
    let (m, nz) = Segment-last s x (s.next x) y xs last stop rest in
    let apart : x ≢ last = λ q. ground (
      arith,
      d last,
      count_self x (y ∷ xs),
      ap (λ z. count z (x ∷ y ∷ xs)) q,
      ap (λ z. count z (y ∷ xs)) q,
    ) in
    let n = same_next x (omega (arith, count_self x (y ∷ xs))) apart in
    let tail =
      Segment-relink s t x (s.next x) y xs last stop stop' (Distinct-tail x (y ∷ xs) d)
        (λ a h. same_prev a (omega arith)) (λ a h off. same_next a (omega arith) off) new rest in
    (e, ne, same_prev x (omega (arith, count_self x (y ∷ xs))) ∙ f, rw n tail)

-- The first page of a stretch is linked to another predecessor.
pub Segment-rehead :
    (s t : Links) (before before' p x : ℕ) (xs : List ℕ) (last stop : ℕ)
    → Distinct (x ∷ xs)
    → t.prev x ≡ before'
    → ((a : ℕ) → 1 ≤ count a (x ∷ xs) → t.next a ≡ s.next a)
    → ((a : ℕ) → 1 ≤ count a xs → t.prev a ≡ s.prev a)
    → Segment s before p (x ∷ xs) last stop
    → Segment t before' p (x ∷ xs) last stop
Segment-rehead s t before before' p x xs last stop d new same_next same_prev (e, ne, f, rest) =
    let n = same_next x (omega (arith, count_self x xs)) in
    let tail =
      Segment-frame s t x (s.next x) xs last stop
        (λ a h. (same_next a (omega arith), same_prev a h)) rest in
    (e, ne, new, rw n tail)
