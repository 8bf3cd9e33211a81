-- ===== src/Os.antt =====
-- src/os.rs: reserving, committing, purging and freeing memory over the primitive operations of the
-- platform, which are a parameter: what they answer is a function of the range asked for. The calls
-- that map and unmap memory are recorded; addresses are numbers.
pub mod Trim
pub mod Tests
use mimalloc_rs.Prelude.{
  ℕ, ◌+◌, ◌-◌, ◌/◌, ◌*◌, ◌^◌, max, Bool, true, false, ◌&&◌, ◌||◌, not, Option, none, some, List, [],
  ◌∷◌, ◌++◌, ltb, leb, ◌==◌, if◌then◌else◌,
}
use mimalloc_rs.Layout.{align_up, align_down, is_aligned}
use mimalloc_rs.Options.Integers.{ℤ, is_negative}

pub data MemKind : Type 0 where
  empty : MemKind
  static : MemKind
  meta : MemKind
  os : MemKind
  os_huge : MemKind
  arena : MemKind

-- A null `base` is 0.
pub record MemId : Type 0 where
  pub kind : MemKind
  pub base : ℕ
  pub size : ℕ
  pub is_pinned : Bool
  pub initially_committed : Bool
  pub initially_zero : Bool

-- `MemId::none`.
abbrev pub no_memory : MemId
no_memory = record {
  kind = empty;
  base = 0;
  size = 0;
  is_pinned = false;
  initially_committed = false;
  initially_zero = false;
}

unfoldable pub is_os : MemId → Bool
is_os memid = elim memid.kind [
  | empty ↦ false
  | static ↦ false
  | meta ↦ false
  | os ↦ true
  | os_huge ↦ true
  | arena ↦ false
]

-- What a primitive allocation returns.
pub record PrimAlloc : Type 0 where
  pub addr : ℕ
  pub is_large : Bool
  pub is_zero : Bool

-- The platform, and the options that the layer reads.
pub record System : Type 0 where
  pub page_size : ℕ
  pub alloc_granularity : ℕ
  pub has_partial_free : Bool
  -- Of a size and an alignment, with `commit` and `allow_large`.
  pub prim_alloc : ℕ → ℕ → Bool → Bool → Option PrimAlloc
  pub prim_commit : ℕ → ℕ → Option Bool
  pub clock_now_msecs : ℕ
  pub purge_delay : ℤ
  pub purge_decommits : Bool
  pub arena_purge_delay : ℤ

-- A range that was mapped, or unmapped.
pub data Call : Type 0 where
  mapped : ℕ → ℕ → Call
  unmapped : ℕ → ℕ → Call

module _ (sys : System) where
  unfoldable pub good_alloc_size : ℕ → ℕ
  good_alloc_size size =
      let align =
        if ltb size (512 * 1024)
        then sys.page_size
        else (if ltb size (256 * 1024 * 1024) then 4 * 1024 * 1024 else 65536) in
      align_up size (max align sys.page_size)

  unfoldable pub page_align_conservative : ℕ → ℕ → Option (ℕ × ℕ)
  page_align_conservative addr size =
      let astart = align_up addr sys.page_size in
      let aend = align_down (addr + size) sys.page_size in
      if leb aend astart then none else some (astart, aend - astart)

  -- The over-allocation of `size` bytes, and what is trimmed off.
  unfoldable pub alloc_over : ℕ → ℕ → Bool → List Call × Option (ℕ × MemId)
  alloc_over size alignment commit =
      let over = size + alignment in
      if leb (2 ^ 64 - 1 - alignment) size
      then ([], none)
      else (if sys.has_partial_free
          then elim (sys.prim_alloc over 1 commit false) [
            | none ↦ ([], none)
            | some a ↦
                let aligned = align_up a.addr alignment in
                let pre = aligned - a.addr in
                let post = over - pre - size in
                (
                  mapped a.addr over
                      ∷ ((if ltb 0 pre then unmapped a.addr pre ∷ [] else [])
                          ++ (if ltb 0 post then unmapped (aligned + size) post ∷ [] else [])),
                  some (
                    aligned,
                    record {
                      kind = os;
                      base = aligned;
                      size = size;
                      is_pinned = a.is_large;
                      initially_committed = commit;
                      initially_zero = a.is_zero;
                    },
                  ),
                )
          ]
          else ([], none))

  -- The direct allocation, which falls back on the other if it comes unaligned.
  unfoldable pub alloc_direct : ℕ → ℕ → Bool → Bool → List Call × Option (ℕ × MemId)
  alloc_direct size alignment commit allow_large =
      elim (sys.prim_alloc size alignment commit allow_large) [
        | none ↦ alloc_over size alignment commit
        | some a ↦
            if is_aligned a.addr alignment
            then (
              mapped a.addr size ∷ [],
              some (
                a.addr,
                record {
                  kind = os;
                  base = a.addr;
                  size = size;
                  is_pinned = a.is_large;
                  initially_committed = commit;
                  initially_zero = a.is_zero;
                },
              ),
            )
            else (let (calls, r) = alloc_over size alignment commit in
                (mapped a.addr size ∷ unmapped a.addr size ∷ calls, r))
      ]

  unfoldable pub alloc_aligned : ℕ → ℕ → Bool → Bool → List Call × Option (ℕ × MemId)
  alloc_aligned size alignment commit allow_large =
      let align = max alignment sys.page_size in
      let rounded = align_up size sys.page_size in
      let try_direct = leb align sys.alloc_granularity || leb align (rounded / 4) in
      if size == 0
      then ([], none)
      else (if try_direct
          then alloc_direct rounded align commit (allow_large && commit)
          else alloc_over rounded align commit)

  unfoldable pub alloc : ℕ → Bool → List Call × Option (ℕ × MemId)
  alloc size commit = alloc_aligned size sys.page_size commit false

  unfoldable pub free : MemId → List Call
  free memid =
      if is_os memid && not (memid.base == 0) && ltb 0 memid.size
      then unmapped memid.base memid.size ∷ []
      else []

  unfoldable pub commit : ℕ → ℕ → Option Bool
  commit addr size = elim (page_align_conservative addr size) [
    | none ↦ some true
    | some (p, n) ↦ sys.prim_commit p n
  ]

  -- Whether the range was decommitted; what becomes of its contents is the platform's.
  unfoldable pub purge_ex : Bool → Bool
  purge_ex allow_reset =
      if is_negative sys.purge_delay then false else (if sys.purge_decommits then true else false)
