-- ===== src/Heap/Sizes.antt =====
-- src/heap.rs, what the block sizes are.
use mimalloc_rs.Prelude.{
  ℕ, zero, suc, ◌+◌, ◌*◌, ◌/◌, ◌^◌, max, ◌≤◌, ◌<◌, ◌≡◌, refl, sym, ap, ◌∙◌, ◌⊎◌, inl, inr, true,
  false, arith, ltb, leb, ◌==◌, Bool-cases, List, length, get_or, set, length-set, get_or-set_self,
  get_or-set_ne, subst,
}
use mimalloc_rs.SizeClass.{large_max_obj_size, bin, bin_huge, wsize_from_size, small_bin}
use mimalloc_rs.SizeClass.Bounds.{bin_lem}
use mimalloc_rs.Layout.{align_up}
use mimalloc_rs.Layout.Rounding.{align_up-eq}
use mimalloc_rs.Heap.{
  zeros, bin_count, bin_sizes_step, bin_sizes_loop, bin_sizes, bin_block_size, good_size,
}

-- The table after the sizes of fewer than `v` words.
record IsTable (v : ℕ) (t : List ℕ) : Type 0 where
  pub size : length t ≡ 75
  pub covers : (w : ℕ) → 1 ≤ w → w < v → bin (w * 8) < 73 → w * 8 ≤ get_or t (bin (w * 8)) 0
  pub exact :
      (b : ℕ)
      → (get_or t b 0 ≡ 0) ⊎ ((w : ℕ) × (1 ≤ w) × (get_or t b 0 ≡ w * 8) × (bin (w * 8) ≡ b))

zeros-length : (n : ℕ) → length (zeros n) ≡ n
zeros-length zero = refl
zeros-length (suc n) = ap suc (zeros-length n)

zeros-get_or : (n b : ℕ) → get_or (zeros n) b 0 ≡ 0
zeros-get_or zero b = refl
zeros-get_or (suc n) zero = refl
zeros-get_or (suc n) (suc b) = zeros-get_or n b

start : IsTable 1 (zeros bin_count)
start = record {
  size = zeros-length 75;
  covers = λ w lo hi h. absurd (omega arith);
  exact = λ b. inl (zeros-get_or 75 b);
}

-- A write of the size of `v` words in its own class.
written :
    (v : ℕ) (t : List ℕ)
    → IsTable v t
    → 1 ≤ v
    → bin (v * 8) < 73
    → get_or t (bin (v * 8)) 0 < v * 8
    → IsTable (v + 1) (set t (bin (v * 8)) (v * 8))
written v t is pos low small =
    let b = bin (v * 8) in
    let self : get_or (set t b (v * 8)) b 0 ≡ v * 8 =
      get_or-set_self t b (v * 8) 0 (omega (arith, is.size)) in
    let other : (c : ℕ) → (b == c) ≡ false → get_or (set t b (v * 8)) c 0 ≡ get_or t c 0 =
      λ c ne. get_or-set_ne t b c (v * 8) 0 (λ e. ground arith) in
    record {
      size = length-set t b (v * 8) ∙ is.size;
      covers = λ w lo hi h. elim (Bool-cases (b == bin (w * 8))) [
        | inl e ↦
            let p : b ≡ bin (w * 8) = ground arith in
            let q = ap (λ c. get_or (set t b (v * 8)) c 0) p in omega (arith, self, q)
        | inr ne ↦
            let off : (w == v) ≡ false = apart w ne (Bool-cases (w == v)) in
            rw (other (bin (w * 8)) ne) (is.covers w lo (ground arith) h)
      ];
      exact = λ c. elim (Bool-cases (b == c)) [
        | inl e ↦
            let p : b ≡ c = ground arith in
            let q = ap (λ c. get_or (set t b (v * 8)) c 0) p in inr (v, pos, sym q ∙ self, p)
        | inr ne ↦ rw (other c ne) (is.exact c)
      ];
    }
  where
    apart :
        (w : ℕ)
        → (bin (v * 8) == bin (w * 8)) ≡ false
        → ((w == v) ≡ true) ⊎ ((w == v) ≡ false)
        → (w == v) ≡ false
    apart w ne (inl e) =
        ground (arith, ne, ap (λ z. bin (z * 8)) (let p : w ≡ v = ground arith in p))
    apart w ne (inr e) = e

-- A round that leaves the table.
kept :
    (v : ℕ) (t : List ℕ)
    → IsTable v t
    → (bin (v * 8) < 73 → v * 8 ≤ get_or t (bin (v * 8)) 0)
    → IsTable (v + 1) t
kept v t is enough = record {
  size = is.size;
  covers = λ w lo hi h. elim (Bool-cases (w == v)) [
    | inl e ↦
        let p : w ≡ v = ground arith in
        subst (λ z. bin (z * 8) < 73 → z * 8 ≤ get_or t (bin (z * 8)) 0) (sym p) enough h
    | inr ne ↦ is.covers w lo (ground arith) h
  ];
  exact = is.exact;
}

step : (v : ℕ) (t : List ℕ) → IsTable v t → 1 ≤ v → IsTable (v + 1) (bin_sizes_step v t)
unfolding bin_sizes_step
step v t is pos = elim (Bool-cases (ltb (bin (v * 8)) bin_huge)) [
  | inr h ↦ rw h (kept v t is (λ l. absurd (ground arith)))
  | inl h ↦ elim (Bool-cases (ltb (get_or t (bin (v * 8)) 0) (v * 8))) [
    | inr k ↦ rw (h, k) (kept v t is (λ l. ground arith))
    | inl k ↦ rw (h, k) (written v t is pos (ground arith) (ground arith))
  ]
]

loop :
    (left v : ℕ) (t : List ℕ) → IsTable v t → 1 ≤ v → IsTable (v + left) (bin_sizes_loop left v t)
unfolding bin_sizes_loop
loop zero v t is pos = let e : v ≡ v + 0 = omega arith in subst (λ z. IsTable z t) e is
loop (suc left) v t is pos =
    let e : v + 1 + left ≡ v + suc left = omega arith in
    subst (λ z. IsTable z (bin_sizes_loop left (v + 1) (bin_sizes_step v t))) e
      (loop left (v + 1) (bin_sizes_step v t) (step v t is pos) (omega arith))

bin_sizes-IsTable : IsTable (1 + 65536) bin_sizes
unfolding bin_sizes
bin_sizes-IsTable = loop 65536 1 (zeros bin_count) start (omega arith)

-- A size has the class of its whole words.
words_of : (w : ℕ) → wsize_from_size (w * 8) ≡ w
unfolding wsize_from_size
words_of w = omega arith

-- A size has the class of its whole words.
bin-words : (size : ℕ) → bin (wsize_from_size size * 8) ≡ bin size
unfolding bin
bin-words size = rw (words_of (wsize_from_size size)) refl

words_cover :
    (size : ℕ)
    → (size ≤ wsize_from_size size * 8)
      × (1 ≤ size → 1 ≤ wsize_from_size size)
      × (size ≤ 524288 → wsize_from_size size ≤ 65536)
unfolding wsize_from_size
words_cover size = (omega arith, λ h. omega arith, λ h. omega arith)

-- For a size of the size classes: the blocks of its class are large enough, and are of its class.
pub bin_block_size_lem :
    (size : ℕ)
    → 1 ≤ size
    → size ≤ 524288
    → (size ≤ bin_block_size (bin size))
      × (bin (bin_block_size (bin size)) ≡ bin size)
      × (bin_block_size (bin size) ≤ 524288)
unfolding bin_block_size
bin_block_size_lem size pos small =
    let is = bin_sizes-IsTable in
    let w = wsize_from_size size in
    let words = words_cover size in
    let b = bin-words size in
    let bound : bin (w * 8) < 73 = omega (arith, b, (bin_lem size).3 small) in
    let covered : w * 8 ≤ get_or bin_sizes (bin size) 0 =
      subst (λ z. w * 8 ≤ get_or bin_sizes z 0) b
        (is.covers w (omega (arith, words)) (omega (arith, words)) bound) in
    elim (is.exact (bin size)) [
      | inl e ↦ absurd (omega (arith, words))
      | inr (v, one, e, same) ↦
          let fits : get_or bin_sizes (bin size) 0 ≤ 524288 =
            elim (Bool-cases (leb (v * 8) 524288)) [
              | inl h ↦ ground (arith, e)
              | inr h ↦ absurd (ground (arith, same, (bin_lem size).3 small, (bin_lem (v * 8)).2))
            ] in
          (omega (arith, words), ap bin e ∙ same, fits)
    ]

-- What `good_size` gives for a size that is not too large to round up.
record GoodSize (size good : ℕ) : Type 0 where
  pub enough : size ≤ good
  pub same_bin : bin good ≡ bin size
  pub small : size ≤ 524288 → (good ≤ 524288) × (good ≡ bin_block_size (bin size))
  pub big : 524288 < size → (524288 < good) × (good ≡ (size + 65535) / 65536 * 65536)

one_word : (size : ℕ) → size ≤ 8 → bin size ≡ 1
unfolding bin small_bin wsize_from_size
one_word size h = ground arith

pub at_least_word : (size : ℕ) → bin (max size 8) ≡ bin size
at_least_word size = elim (Bool-cases (leb size 8)) [
  | inl h ↦ one_word (max size 8) (ground arith) ∙ sym (one_word size (ground arith))
  | inr h ↦ let e : max size 8 ≡ size = ground arith in ap bin e
]

good-GoodSize : (size : ℕ) → size + 65536 ≤ 2 ^ 64 → GoodSize size (good_size size)
unfolding good_size
good-GoodSize size fits =
    let s = max size 8 in
    let w = at_least_word size in
    let (class_over, class_under) = (bin_lem s).2 in
    elim (Bool-cases (leb bin_huge (bin s))) [
      | inl h ↦
          let over : 524288 < s = class_over (let b = (bin_lem s).1 in ground arith) in
          let up = align_up-eq s 65536 (omega arith) (omega arith) (omega arith) in
          let e : s ≡ size = omega arith in
          let good = align_up s 65536 in
          let big : 524288 < good = omega (arith, up) in
          rw h (record {
            enough = omega (arith, up);
            same_bin = (bin_lem good).2.1 big ∙ sym (class_under over) ∙ w;
            small = λ l. absurd (omega arith);
            big = λ l. (big, omega (arith, up));
          })
      | inr h ↦
          let under : s ≤ 524288 = elim (Bool-cases (leb s 524288)) [
            | inl k ↦ ground arith
            | inr k ↦ absurd (ground (arith, class_under (ground arith)))
          ] in
          let (enough, same, small) = bin_block_size_lem s (omega arith) under in
          rw h (record {
            enough = omega (arith, enough);
            same_bin = same ∙ w;
            small = λ l. (small, ap bin_block_size w);
            big = λ l. absurd (omega arith);
          })
    ]

-- For a size that does not pass the end of the address space when it is rounded up twice,
-- `good_size` gives at least the size asked for, of the same class; a size of the size classes gets
-- the block size of its class, a larger one the next multiple of a slice; and asking for a good
-- size gives it back.
pub heap_good_size_lem :
    (size : ℕ)
    → size + 131072 ≤ 2 ^ 64
    → (size ≤ good_size size)
      × (bin (good_size size) ≡ bin size)
      × (size ≤ large_max_obj_size → good_size size ≡ bin_block_size (bin size))
      × (large_max_obj_size < size → good_size size ≡ (size + 65535) / 65536 * 65536)
      × (good_size (good_size size) ≡ good_size size)
heap_good_size_lem size fits =
    let g = good-GoodSize size (omega arith) in
    let bound : good_size size + 65536 ≤ 2 ^ 64 = elim (Bool-cases (leb size 524288)) [
      | inl h ↦ let (le, e) = g.small (ground arith) in omega (arith, le)
      | inr h ↦ let (lt, e) = g.big (ground arith) in omega (arith, e)
    ] in
    let again = good-GoodSize (good_size size) bound in
    (
      g.enough,
      g.same_bin,
      λ h. (g.small h).1,
      λ h. (g.big h).1,
      elim (Bool-cases (leb size 524288)) [
        | inl h ↦
            let (le, e) = g.small (ground arith) in
            (again.small le).1 ∙ ap bin_block_size g.same_bin ∙ sym e
        | inr h ↦
            let (lt, e) = g.big (ground arith) in
            let (more, twice) = again.big lt in omega (arith, e, twice)
      ],
    )
