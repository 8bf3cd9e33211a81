-- ===== src/Options/Laws.antt =====
-- src/options.rs: what is read from the options after they are seeded and set, and the arena purge
-- delay.
use Prim.Native.String.{String}
use mimalloc_rs.Prelude.{
  ℕ, suc, ◌+◌, ◌-◌, ◌*◌, ◌≤◌, ◌<◌, ◌≡◌, refl, ap, ◌∙◌, inl, inr, true, false, Option, List, [], ◌∷◌,
  ◌==◌, if◌then◌else◌, arith, Bool-cases, length, get_or, set, length-set, get_or-set_self,
  get_or-set_ne,
}
use mimalloc_rs.Options.Integers.{
  ℤ, pos, negsuc, is_negative, is_zero, maxℤ, ◌*ℤ◌, saturating_mul, IsI64,
}
use mimalloc_rs.Options.{
  Opt, verbose, show_stats, eager_commit, purge_decommits, purge_delay, arena_reserve,
  arena_purge_mult, index, from_index, env_value, seed, Settings, unseeded, ensure_init, get,
  set_option, get_purge_delay, arena_purge_delay,
}

-- There is a slot for every option.
abbrev pub IsComplete : Settings → Type 0
IsComplete s = length s.values ≡ 7

index-lt : (o : Opt) → index o < 7
index-lt verbose = omega arith
index-lt show_stats = omega arith
index-lt eager_commit = omega arith
index-lt purge_decommits = omega arith
index-lt purge_delay = omega arith
index-lt arena_reserve = omega arith
index-lt arena_purge_mult = omega arith

module _ (getenv : String → Option (List ℕ)) where
  length-seed : (i : ℕ) (slots : List ℤ) → length (seed getenv i slots) ≡ length slots
  unfolding seed
  length-seed i [] = refl
  length-seed i (slot ∷ slots) = ap suc (length-seed (i + 1) slots)

  ensure_init-IsComplete : (s : Settings) → IsComplete s → IsComplete (ensure_init getenv s)
  unfolding ensure_init
  ensure_init-IsComplete s full = elim (Bool-cases s.ready) [
    | inl e ↦ rw (e, ensure_init) full
    | inr e ↦ rw (e, ensure_init) (length-seed 0 s.values ∙ full)
  ]

  ensure_init_again : (s : Settings) → s.ready ≡ true → ensure_init getenv s ≡ s
  unfolding ensure_init
  ensure_init_again s e = simp e

  ensure_init_ready : (s : Settings) → (ensure_init getenv s).ready ≡ true
  unfolding ensure_init
  ensure_init_ready s = elim (Bool-cases s.ready) [
    | inl e ↦ ap (λ t. t.ready) (ensure_init_again s e) ∙ e
    | inr e ↦ rw (e, ensure_init) refl
  ]

  -- After an option is set, that option reads as the value and every other one as before; every
  -- slot stays in place. This holds too when the call is the one that seeds the options.
  pub get-set_option :
      (s : Settings) (o o' : Opt) (v : ℤ)
      → IsComplete s
      → IsComplete (set_option getenv s o v)
        × ((get getenv (set_option getenv s o v) o').1
            ≡ (if index o' == index o then v else (get getenv s o').1))
  unfolding get set_option ensure_init
  get-set_option s o o' v full =
      let s' = ensure_init getenv s in
      let full' = ensure_init-IsComplete s full in
      let lt : index o < length s'.values = omega (arith, full', index-lt o) in
      let again : (ensure_init getenv (set_option getenv s o v)).values
          ≡ set s'.values (index o) v =
        ap (λ t. t.values) (ensure_init_again (set_option getenv s o v) (ensure_init_ready s)) in
      let read : get_or (ensure_init getenv (set_option getenv s o v)).values (index o') (pos 0)
          ≡ get_or (set s'.values (index o) v) (index o') (pos 0) =
        ap (λ vs. get_or vs (index o') (pos 0)) again in
      (
        length-set s'.values (index o) v ∙ full',
        read ∙ elim (Bool-cases (index o' == index o)) [
          | inl e ↦
              let same : index o' ≡ index o = ground arith in
              rw (e, same) (get_or-set_self s'.values (index o) v (pos 0) lt)
          | inr e ↦
              rw e (get_or-set_ne s'.values (index o) (index o') v (pos 0) (λ q. ground arith))
        ],
      )

  -- The first read of an option gives what its environment variable says.
  pub get-unseeded : (o : Opt) → (get getenv unseeded o).1 ≡ env_value getenv o
  unfolding get ensure_init seed from_index
  get-unseeded verbose = refl
  get-unseeded show_stats = refl
  get-unseeded eager_commit = refl
  get-unseeded purge_decommits = refl
  get-unseeded purge_delay = refl
  get-unseeded arena_reserve = refl
  get-unseeded arena_purge_mult = refl

saturating_mul_lem :
    (a : ℤ) (k : ℕ)
    → IsI64 (saturating_mul a (pos (suc k)))
      × (is_negative (saturating_mul a (pos (suc k))) ≡ is_negative a)
      × (is_zero (saturating_mul a (pos (suc k))) ≡ is_zero a)
unfolding saturating_mul ◌*ℤ◌
saturating_mul_lem (pos n) k =
    let grow : n ≤ n * suc k = grind arith in (omega arith, refl, ground (arith, grow))
saturating_mul_lem (negsuc n) k =
    let grow : n + 1 ≤ (n + 1) * suc k = grind arith in
    let some_ : (((n + 1) * suc k) == 0) ≡ false = ground (arith, grow) in
    rw (some_, saturating_mul, ◌*ℤ◌) (omega arith, refl, refl)

maxℤ-one : (m : ℤ) → (k : ℕ) × (maxℤ m (pos 1) ≡ pos (suc k))
unfolding maxℤ
maxℤ-one (pos n) = (n - 1, ap pos (omega arith))
maxℤ-one (negsuc n) = (0, refl)

-- The arena purge delay is a 64-bit integer, whatever the settings are. It is negative, so that
-- purging is disabled, exactly when the purge delay is, and zero, so that purging is immediate,
-- exactly when the purge delay is: the multiplier changes neither.
pub arena_purge_delay_lem :
    (getenv : String → Option (List ℕ)) (s : Settings)
    → IsI64 (arena_purge_delay getenv s).1
      × (is_negative (arena_purge_delay getenv s).1 ≡ is_negative (get_purge_delay getenv s).1)
      × (is_zero (arena_purge_delay getenv s).1 ≡ is_zero (get_purge_delay getenv s).1)
unfolding arena_purge_delay
arena_purge_delay_lem getenv s =
    let s1 = (get_purge_delay getenv s).0 in
    let (k, e) = maxℤ-one (get getenv s1 arena_purge_mult).1 in
    rw (e, arena_purge_delay) (saturating_mul_lem (get_purge_delay getenv s).1 k)
