-- ===== src/Subproc/Arenas.antt =====
-- src/subproc.rs, the invariant of a process, and its list of arenas when one is written back or
-- added.
use mimalloc_rs.Prelude.{
  ℕ, zero, suc, ◌+◌, ◌<◌, ◌≤◌, ◌≡◌, refl, sym, ap, ◌⊎◌, inl, inr, Option, some, none, List, [], ◌∷◌,
  ◌++◌, arith, get_elem?, set, length, length-set,
}
use mimalloc_rs.Arena.{Arena}
use mimalloc_rs.Arena.View.{IsArena}
use mimalloc_rs.Subproc.{Subproc, arena_count}

-- At most 160 arenas, each of which satisfies its invariant.
pub record IsSubproc (s : Subproc) : Type 0 where
  pub few : arena_count s ≤ 160
  pub arenas : (i : ℕ) (a : Arena) → get_elem? s.arenas i ≡ some a → IsArena a

pub get_elem?-set :
    (xs : List Arena) (i j : ℕ) (a b : Arena)
    → get_elem? (set xs i a) j ≡ some b
    → (b ≡ a) ⊎ (get_elem? xs j ≡ some b)
get_elem?-set [] i j a b e = inr e
get_elem?-set (x ∷ xs) zero zero a b e = inl (same e)
  where
    same : some a ≡ some b → b ≡ a
    same q = sym (ap (λ (o : Option Arena). elim o [ none ↦ a | some w ↦ w ]) q)
get_elem?-set (x ∷ xs) zero (suc j) a b e = inr e
get_elem?-set (x ∷ xs) (suc i) zero a b e = inr e
get_elem?-set (x ∷ xs) (suc i) (suc j) a b e = get_elem?-set xs i j a b e

pub get_elem?-set_self :
    (xs : List Arena) (i : ℕ) (a : Arena) → i < length xs → get_elem? (set xs i a) i ≡ some a
get_elem?-set_self [] i a lt = absurd (omega arith)
get_elem?-set_self (x ∷ xs) zero a lt = refl
get_elem?-set_self (x ∷ xs) (suc i) a lt = get_elem?-set_self xs i a (omega arith)

pub get_elem?-append :
    (xs : List Arena) (j : ℕ) (a b : Arena)
    → get_elem? (xs ++ (a ∷ [])) j ≡ some b
    → (b ≡ a) ⊎ (get_elem? xs j ≡ some b)
get_elem?-append [] zero a b e =
    inl (sym (ap (λ (o : Option Arena). elim o [ none ↦ a | some w ↦ w ]) e))
get_elem?-append [] (suc j) a b e = inr e
get_elem?-append (x ∷ xs) zero a b e = inr e
get_elem?-append (x ∷ xs) (suc j) a b e = get_elem?-append xs j a b e

pub get_elem?-last : (xs : List Arena) (a : Arena) → get_elem? (xs ++ (a ∷ [])) (length xs) ≡ some a
get_elem?-last [] a = refl
get_elem?-last (x ∷ xs) a = get_elem?-last xs a

pub length-snoc : (xs : List Arena) (a : Arena) → length (xs ++ (a ∷ [])) ≡ length xs + 1
length-snoc [] a = refl
length-snoc (x ∷ xs) a = omega (arith, length-snoc xs a)

pub get_elem?-some :
    (xs : List Arena) (i : ℕ) → i < length xs → (a : Arena) × (get_elem? xs i ≡ some a)
get_elem?-some [] i lt = absurd (omega arith)
get_elem?-some (x ∷ xs) zero lt = (x, refl)
get_elem?-some (x ∷ xs) (suc i) lt = get_elem?-some xs i (omega arith)

-- An arena is written back.
pub put_arena :
    (s : Subproc) (i : ℕ) (a : Arena) (cursor : ℕ)
    → IsSubproc s
    → IsArena a
    → IsSubproc (record { arenas = set s.arenas i a; alloc_cursor = cursor })
put_arena s i a cursor is ok = record {
  few = omega (arith, length-set s.arenas i a, is.few);
  arenas = λ j b e. elim (get_elem?-set s.arenas i j a b e) [
    | inl same ↦ rw same ok
    | inr before ↦ is.arenas j b before
  ];
}
