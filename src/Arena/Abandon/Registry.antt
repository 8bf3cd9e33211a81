-- ===== src/Arena/Abandon/Registry.antt =====
-- src/arena.rs, the registry of abandoned pages, seen as which slices are registered in which class.
use mimalloc_rs.Prelude.{
  ℕ, zero, suc, ◌<◌, ◌≤◌, ◌≡◌, refl, ap, ◌∙◌, inl, inr, Bool, true, false, ◌&&◌, ◌||◌, arith, ◌==◌,
  if◌then◌else◌, Bool-cases, Option, none, some, some-injective, List, [], ◌∷◌, get_elem?, set,
  subst,
}
use mimalloc_rs.Bitmap.Map.{Bitmap, chunk_count}
use mimalloc_rs.Bitmap.Map.View.{IsBitmap, bit_of}
use mimalloc_rs.Bitmap.Map.Query.{set_n_kept}
use mimalloc_rs.Arena.{Arena, bin_count, zeroed_bitmap}
use mimalloc_rs.Arena.View.{IsArena}
use mimalloc_rs.Arena.Create.{zeroed_bitmap-IsBitmap, zeroed-clear, length-zeroed_chunks}
use mimalloc_rs.Arena.Abandon.{registry, ensure_abandoned, page_abandon}

abbrev pub class_bit : Option Bitmap → ℕ → Bool
class_bit none i = false
class_bit (some m) i = bit_of m i

abbrev listed : Option (List Bitmap) → ℕ → ℕ → Bool
listed none c i = false
listed (some maps) c i = class_bit (get_elem? maps c) i

-- Slice `i` is registered in class `c`.
abbrev pub registered : Arena → ℕ → ℕ → Bool
registered a c i = listed a.abandoned c i

-- A bitmap of a class: it has the chunks of the arena.
abbrev pub IsClass : ℕ → List Bitmap → ℕ → Type 0
IsClass chunks maps c =
    (m : Bitmap) × (get_elem? maps c ≡ some m) × IsBitmap m × (chunk_count m ≡ chunks)

-- A registry that has been mapped has a bitmap for every class.
abbrev pub IsRegistry : Arena → Type 0
IsRegistry a =
    (maps : List Bitmap)
    → a.abandoned ≡ some maps
    → (c : ℕ) → c < bin_count
    → IsClass (chunk_count a.free) maps c

registry-IsClass :
    (chunks bins c : ℕ)
    → 1 ≤ chunks
    → chunks ≤ 512
    → c < bins
    → get_elem? (registry chunks bins) c ≡ some (zeroed_bitmap chunks)
unfolding registry
registry-IsClass chunks zero c pos few lt = absurd (omega arith)
registry-IsClass chunks (suc bins) zero pos few lt = refl
registry-IsClass chunks (suc bins) (suc c) pos few lt =
    registry-IsClass chunks bins c pos few (omega arith)

registry-empty : (chunks bins c i : ℕ) → listed (some (registry chunks bins)) c i ≡ false
unfolding registry
registry-empty chunks zero c i = refl
registry-empty chunks (suc bins) zero i = zeroed-clear chunks i
registry-empty chunks (suc bins) (suc c) i = registry-empty chunks bins c i

-- Another bitmap for one class.
class_set :
    (maps : List Bitmap) (b c : ℕ) (m n : Bitmap)
    → get_elem? maps b ≡ some m
    → get_elem? (set maps b n) c ≡ (if c == b then some n else get_elem? maps c)
class_set [] b c m n e = cc
class_set (x ∷ xs) zero zero m n e = refl
class_set (x ∷ xs) zero (suc c) m n e = let q : (suc c == zero) ≡ false = ground arith in rw q refl
class_set (x ∷ xs) (suc b) zero m n e = let q : (zero == suc b) ≡ false = ground arith in rw q refl
class_set (x ∷ xs) (suc b) (suc c) m n e =
    let q : (suc c == suc b) ≡ (c == b) = ground arith in rw q (class_set xs b c m n e)

-- An arena whose registry has another bitmap for one class.
module _ (a : Arena) (maps : List Bitmap) (b : ℕ) (m n : Bitmap)
    (classes : (c : ℕ) → c < bin_count → IsClass (chunk_count a.free) maps c)
    (at : get_elem? maps b ≡ some m) (is : IsBitmap n)
    (same : chunk_count n ≡ chunk_count a.free) where
  pub put_class-IsRegistry : IsRegistry (record a { abandoned = some (set maps b n) })
  put_class-IsRegistry maps' e c lt =
      let got = class_set maps b c m n at in
      let q = some-injective (set maps b n) maps' e in
      subst (λ z. IsClass (chunk_count a.free) z c) q
        (elim (Bool-cases (c == b)) [
          | inl here ↦ (n, rw (got, here) refl, is, same)
          | inr off ↦ let (k, at_c, ok, size) = classes c lt in (k, rw (got, off) at_c, ok, size)
        ])

  pub put_class-bit :
      (c i : ℕ)
      → registered (record a { abandoned = some (set maps b n) }) c i
        ≡ (if c == b then bit_of n i else class_bit (get_elem? maps c) i)
  put_class-bit c i = elim (Bool-cases (c == b)) [
    | inl here ↦ rw (class_set maps b c m n at, here) refl
    | inr off ↦ rw (class_set maps b c m n at, off) refl
  ]

module _ (granted : Bool) (a : Arena) (idx bin : ℕ) (is : IsArena a) (reg : IsRegistry a)
    (some_bin : bin < bin_count) (inside : idx < a.slice_count) where
  -- A page is registered in a registry that is there.
  register_in :
      (maps : List Bitmap)
      → ensure_abandoned granted a ≡ some (record a { abandoned = some maps }, maps)
      → ((c : ℕ) → c < bin_count → IsClass (chunk_count a.free) maps c)
      → (b : Arena) × (page_abandon granted a idx bin ≡ some b)
        × IsRegistry b
        × ((c i : ℕ) → registered b c i ≡ (listed (some maps) c i || ((c == bin) && (i == idx))))
  unfolding page_abandon
  register_in maps ready classes =
      let (m, at, ok, size) = classes bin some_bin in
      let (n, was, got, ok_n, over, same) =
        set_n_kept m idx 1 ok (omega (arith, inside, is.covers, size)) (omega arith) in
      let size_n : chunk_count n ≡ chunk_count a.free = same ∙ size in
      (
        record a { abandoned = some (set maps bin n) },
        simp (page_abandon, ready) (simp (at, got)),
        put_class-IsRegistry a maps bin m n classes at ok_n size_n,
        λ c i.
            put_class-bit a maps bin m n classes at ok_n size_n c i ∙ elim (Bool-cases (c == bin)) [
              | inl here ↦
                  let q : c ≡ bin = ground arith in
                  let e : class_bit (get_elem? maps c) i ≡ bit_of m i = rw (q, at) refl in
                  rw (here, e) (ground (arith, over i))
              | inr off ↦ rw off (ground arith)
            ],
      )

  -- Registering a page adds it to its class and nothing else, where the registry is mapped or can be.
  pub page_abandon_lem :
      (a.abandoned ≡ none → granted ≡ true)
      → (b : Arena) × (page_abandon granted a idx bin ≡ some b)
        × IsRegistry b
        × ((c i : ℕ) → registered b c i ≡ (registered a c i || ((c == bin) && (i == idx))))
  unfolding ensure_abandoned
  page_abandon_lem mappable = go a.abandoned refl
    where
      go :
          (o : Option (List Bitmap))
          → a.abandoned ≡ o
          → (b : Arena) × (page_abandon granted a idx bin ≡ some b)
            × IsRegistry b
            × ((c i : ℕ) → registered b c i ≡ (registered a c i || ((c == bin) && (i == idx))))
      go (some maps) e =
          let same : a ≡ record a { abandoned = some maps } =
            ap (λ o. record a { abandoned = o }) e in
          let (b, got, ok, now) =
            register_in maps (rw (ensure_abandoned, e) (ap (λ x. some (x, maps)) same))
              (reg maps e) in
          (b, got, ok, λ c i. now c i ∙ rw e refl)
      go none e =
          let maps = registry (chunk_count a.free) bin_count in
          let some_chunk = is.free.some_chunk in
          let few = is.free.few_chunks in
          let (b, got, ok, now) =
            register_in maps (rw (ensure_abandoned, e, mappable e) refl) (λ c lt. (
              zeroed_bitmap (chunk_count a.free),
              registry-IsClass (chunk_count a.free) bin_count c some_chunk few lt,
              zeroed_bitmap-IsBitmap (chunk_count a.free) some_chunk few,
              length-zeroed_chunks (chunk_count a.free),
            )) in
          (
            b,
            got,
            ok,
            λ c i. now c i ∙ rw (e, registry-empty (chunk_count a.free) bin_count c i) refl,
          )
