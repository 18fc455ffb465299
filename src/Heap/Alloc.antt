-- ===== src/Heap/Alloc.antt =====
-- `heap_alloc`, `heap_mark` and `heap_rewind` of system/heap.c.
use memtest86plus.Base.{
  ℕ, zero, suc, ◌+◌, ◌-◌, ◌*◌, ◌/◌, ◌%◌, ◌^◌, ◌≤◌, ◌<◌, ◌≡◌, ◌≢◌, refl, ap, ◌∙◌, ◌⊎◌, inl, inr,
}
use memtest86plus.Base.{
  arith, Bool-cases, ltb, some, length, set, sub64, shr64, get_or-set_self, get_or-set_ne, set-set,
  set-get_or, lt→ltb, true, leb,
}
use native.Mathlib.Decide.{dec_lt}
use memtest86plus.Heap.{lm_1, hm_1}
use memtest86plus.Base.Align.{bit_and-align, align_bounds}
use native.Mathlib.Nat.{pow-suc, one-le-pow, pow-le-pow_right, mul-mod_left}
use memtest86plus.Pmem.Map.{no_segment}
use memtest86plus.Heap.{
  HeapType, Memory, heap_of, segment_of, num_pages, set_end, alloc_page, heap_alloc, heap_mark,
  heap_rewind,
}

-- The heap has a segment of the map, whose end is a page of 64-bit physical memory between the
-- heap's bounds.
pub record IsReady (m : Memory) (id : HeapType) (i : ℕ) : Type 0 where
  pub chosen : (heap_of m id).segment ≡ some i
  pub listed : i < length m.pm_map
  pub above : (heap_of m id).start ≤ (segment_of m i).end
  pub below : (segment_of m i).end ≤ (heap_of m id).end
  pub page : (heap_of m id).end < 2 ^ 52

-- `num_pages` is enough pages, and not one too many.
pub num_pages_bounds :
    (size : ℕ)
    → size < 2 ^ 64 - 4096
    → (size ≤ num_pages size * 4096) × (num_pages size * 4096 < size + 4096)
unfolding num_pages
num_pages_bounds size h = omega arith

power_page : (k : ℕ) → 2 ^ (12 + k) ≡ 4096 * 2 ^ k
power_page zero = refl
power_page (suc k) =
    let next : 12 + suc k ≡ suc (12 + k) = omega arith in
    ap (λ (t : ℕ). 2 ^ t) next ∙ omega (arith, pow-suc 2 (12 + k), pow-suc 2 k, power_page k)

-- With an alignment of `2^(12 + k)` bytes the page is rounded down to a multiple of `2^k`.
alloc_page-eq :
    (end size k : ℕ)
    → end < 2 ^ 52
    → num_pages size ≤ end
    → k ≤ 51
    → alloc_page end size (2 ^ (12 + k)) ≡ (end - num_pages size) / 2 ^ k * 2 ^ k
unfolding alloc_page
alloc_page-eq end size k he fits hk =
    let small : 2 ^ k ≤ 2 ^ 51 = pow-le-pow_right (omega arith) hk in
    let top : sub64 end (num_pages size) ≡ end - num_pages size = omega arith in
    let mask : shr64 (sub64 (2 ^ (12 + k)) 1) 12 ≡ 2 ^ k - 1 =
      omega (arith, power_page k, one-le-pow k 2) in
    rw (top, mask) (bit_and-align k (end - num_pages size) (omega arith) (omega arith))

-- What a successful allocation at `page` gives: the address is aligned; the block reaches from it
-- to the old end of the segment at most, and not below the heap; it is as large as was asked for;
-- the segment now ends where it starts, and no other segment changes.
pub record IsBlock (m m' : Memory) (id : HeapType) (i size alignment page : ℕ) : Type 0 where
  pub aligned : (page * 4096) % alignment ≡ 0
  pub inside : (heap_of m id).start ≤ page
  pub enough : page * 4096 + size ≤ (segment_of m i).end * 4096
  pub new_end : (segment_of m' i).end ≡ page
  pub same_start : (segment_of m' i).start ≡ (segment_of m i).start
  pub others : (j : ℕ) → i ≢ j → segment_of m' j ≡ segment_of m j

heap_of-set_end :
    (m : Memory) (id : HeapType) (i page : ℕ) → heap_of (set_end m i page) id ≡ heap_of m id
heap_of-set_end m lm_1 i page = refl
heap_of-set_end m hm_1 i page = refl

-- Rewinding to where the segment ends already changes nothing.
rewind_to_end :
    (m : Memory) (id : HeapType) (i : ℕ)
    → (heap_of m id).segment ≡ some i
    → heap_rewind m id (segment_of m i).end ≡ m
unfolding heap_rewind
rewind_to_end m id i e = rw e (ground arith)

set_end-set_end :
    (m : Memory) (i page : ℕ)
    → i < length m.pm_map
    → set_end (set_end m i page) i (segment_of m i).end ≡ m
set_end-set_end m i page h =
    let lower = record (segment_of m i) { end = page } in
    let self : segment_of (set_end m i page) i ≡ lower =
      get_or-set_self m.pm_map i lower no_segment h in
    let back : set (set m.pm_map i lower) i
          (record (segment_of (set_end m i page) i) { end = (segment_of m i).end })
        ≡ m.pm_map =
      rw (self, set-set m.pm_map i lower (segment_of m i)) (set-get_or m.pm_map i no_segment) in
    ap (λ ps. record m { pm_map = ps }) back

rewind_of_set_end :
    (m : Memory) (id : HeapType) (i page : ℕ)
    → (heap_of m id).segment ≡ some i
    → i < length m.pm_map
    → (segment_of m i).end ≤ (heap_of m id).end
    → page ≤ (segment_of m i).end
    → heap_rewind (set_end m i page) id (segment_of m i).end ≡ m
unfolding heap_rewind
rewind_of_set_end m id i page e listed below low =
    let lower = record (segment_of m i) { end = page } in
    let self : (segment_of (set_end m i page) i).end ≡ page =
      ap (λ s. s.end) (get_or-set_self m.pm_map i lower no_segment listed) in
    elim (dec_lt page (segment_of m i).end) [
      | yes l ↦
          let higher : ltb (segment_of (set_end m i page) i).end (segment_of m i).end ≡ true =
            rw self (lt→ltb page (segment_of m i).end l) in
          let within : leb (segment_of m i).end (heap_of m id).end ≡ true = ground arith in
          rw (heap_of-set_end m id i page, e, higher, within) (set_end-set_end m i page listed)
      | no g ↦
          let same : page ≡ (segment_of m i).end = omega arith in
          let unchanged : set_end m i (segment_of m i).end ≡ m =
            ap (λ ps. record m { pm_map = ps }) (set-get_or m.pm_map i no_segment) in
          rw (same, unchanged) (unfold heap_rewind in rewind_to_end m id i e)
    ]

module _ {m : Memory} {id : HeapType} {i : ℕ} (v : IsReady m id i) (size k : ℕ)
    (small : size < 2 ^ 64 - 4096) (fits : num_pages size ≤ (segment_of m i).end)
    (hk : k ≤ 51) where
  abbrev page : ℕ
  page = alloc_page (segment_of m i).end size (2 ^ (12 + k))

  page_eq : page ≡ ((segment_of m i).end - num_pages size) / 2 ^ k * 2 ^ k
  page_eq = alloc_page-eq (segment_of m i).end size k (omega (arith, v.below, v.page)) fits hk

  page_aligned : (page * 4096) % 2 ^ (12 + k) ≡ 0
  page_aligned =
      let q = ((segment_of m i).end - num_pages size) / 2 ^ k in
      let whole : page * 4096 ≡ q * 2 ^ (12 + k) =
        omega (arith, page_eq, ap (λ (t : ℕ). q * t) (power_page k)) in
      rw whole (mul-mod_left q (2 ^ (12 + k)))

  set_end-IsBlock :
      (heap_of m id).start ≤ page → IsBlock m (set_end m i page) id i size (2 ^ (12 + k)) page
  set_end-IsBlock high =
      let self =
        get_or-set_self m.pm_map i (record (segment_of m i) { end = page }) no_segment v.listed in
      record {
        aligned = page_aligned;
        inside = high;
        enough = omega (
          arith,
          page_eq,
          align_bounds k ((segment_of m i).end - num_pages size),
          num_pages_bounds size small,
        );
        new_end = ap (λ s. s.end) self;
        same_start = ap (λ s. s.start) self;
        others = λ j ne.
            get_or-set_ne m.pm_map i j (record (segment_of m i) { end = page }) no_segment ne;
      }

  -- For a heap that has a segment, an alignment of a power of two of at least a page, and a size, at
  -- least a page below 2^64, of no more pages than the number of the segment's end page: `heap_alloc`
  -- returns the address of a block, or returns 0 and leaves the map as it was, and then the block
  -- would start below the heap.
  pub heap_alloc_lem :
      let (m', a) = heap_alloc m id size (2 ^ (12 + k)) in
      IsBlock m m' id i size (2 ^ (12 + k)) page × (a ≡ page * 4096)
      ⊎ (page < (heap_of m id).start) × (m' ≡ m) × (a ≡ 0)
  unfolding heap_alloc
  heap_alloc_lem = elim (Bool-cases (ltb page (heap_of m id).start)) [
    | inl low ↦ rw (v.chosen, low) (inr (ground (arith, low), refl, refl))
    | inr high ↦
        rw (v.chosen, high)
          (inl (
            set_end-IsBlock (ground (arith, high)),
            omega (
              arith,
              page_eq,
              align_bounds k ((segment_of m i).end - num_pages size),
              v.below,
              v.page,
            ),
          ))
  ]

  page-le : page ≤ (segment_of m i).end
  page-le = omega (arith, page_eq, align_bounds k ((segment_of m i).end - num_pages size))

  -- A mark taken before an allocation undoes it: rewinding to it restores the whole map, whether the
  -- allocation succeeded or not.
  pub heap_rewind-heap_alloc :
      heap_rewind (heap_alloc m id size (2 ^ (12 + k))).0 id (heap_mark m id) ≡ m
  unfolding heap_alloc heap_mark
  heap_rewind-heap_alloc = elim (Bool-cases (ltb page (heap_of m id).start)) [
    | inl low ↦ rw (v.chosen, low) (rewind_to_end m id i v.chosen)
    | inr high ↦
        rw (v.chosen, high) (rewind_of_set_end m id i page v.chosen v.listed v.below page-le)
  ]
