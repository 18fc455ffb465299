-- ===== src/Heap/Choice.antt =====
-- Which segments `heap_init` of system/heap.c takes for the heaps.
use memtest86plus.Base.{ℕ, zero, suc, ◌+◌, ◌≤◌, ◌<◌, List, ◌≡◌, refl, ◌⊎◌, inl, inr}
use memtest86plus.Base.{
  arith, Bool-cases, leb, leb→le, some, none, length, get_or, shr64, add64, sub64,
}
use memtest86plus.Pmem.Map.{Segment, no_segment}
use memtest86plus.Heap.{
  Heap, Choosing, try_heap, choose, choose_loop, heap_init, no_heap, num_pages, heap_limit,
  low_memory_heap,
}

module _ (program_start program_end : ℕ) (ps : List Segment) where
  -- Heap `h` is taken from segment `i`: it ends where the segment does, below the limit, and it
  -- starts where the segment does, or behind the program where the segment holds that.
  pub record IsTaken (h : Heap) (limit i : ℕ) : Type 0 where
    pub chosen : h.segment ≡ some i
    pub listed : i < length ps
    pub end : h.end ≡ (get_or ps i no_segment).end
    pub limited : h.end ≤ limit
    pub start :
        ((get_or ps i no_segment).start ≤ program_start)
          × (program_end ≤ (get_or ps i no_segment).end)
          × (h.start ≡ program_end)
        ⊎ ((program_start < (get_or ps i no_segment).start)
            ⊎ ((get_or ps i no_segment).end < program_end))
          × (h.start ≡ (get_or ps i no_segment).start)

  -- A heap is taken from some segment, or there is none.
  abbrev pub IsHeap : Heap → ℕ → Type 0
  IsHeap h limit = (h.segment ≡ none) ⊎ ((i : ℕ) × IsTaken h limit i)

  abbrev Chosen : Choosing → Type 0
  Chosen c = IsHeap c.low low_memory_heap × IsHeap c.high heap_limit

  try_heap-IsTaken :
      (i limit : ℕ)
      → i < length ps
      → (get_or ps i no_segment).end ≤ limit
      → IsTaken (try_heap program_start program_end i (get_or ps i no_segment)) limit i
  unfolding try_heap
  try_heap-IsTaken i limit h le = record {
    chosen = refl;
    listed = h;
    end = refl;
    limited = le;
    start = ground arith;
  }

  choose-Chosen :
      (c : Choosing) (i : ℕ)
      → i < length ps
      → (get_or ps i no_segment).end ≤ heap_limit
      → Chosen c
      → Chosen (choose c (try_heap program_start program_end i (get_or ps i no_segment)))
  unfolding choose try_heap
  choose-Chosen c i h le v =
      let t = try_heap program_start program_end i (get_or ps i no_segment) in
      let taken = try_heap-IsTaken i heap_limit h le in
      elim (Bool-cases (leb c.max_segment_size (sub64 t.end t.start))) [
        | inl larger ↦ elim (Bool-cases (leb t.end low_memory_heap)) [
          | inl low ↦
              rw (larger, low)
                (inr (i, try_heap-IsTaken i low_memory_heap h (leb→le _ _ low)), inr (i, taken))
          | inr not_low ↦ rw (larger, not_low) (v.0, inr (i, taken))
        ]
        | inr smaller ↦ rw smaller v
      ]

  choose_loop-Chosen :
      (left i : ℕ) (c : Choosing)
      → i + left ≤ length ps
      → Chosen c
      → Chosen (choose_loop program_start program_end ps left i c)
  unfolding choose_loop
  choose_loop-Chosen zero i c h v = v
  choose_loop-Chosen (suc left) i c h v =
      elim (Bool-cases (leb (get_or ps i no_segment).end heap_limit)) [
        | inl below ↦ rw below (
            choose_loop-Chosen left (i + 1)
              (choose c (try_heap program_start program_end i (get_or ps i no_segment)))
              (omega arith) (choose-Chosen c i (omega arith) (leb→le _ _ below) v))
        | inr above ↦ rw above v
      ]

-- Each heap that `heap_init` chooses is taken from a segment of the map, the low one from a segment
-- that ends at 1 MB or below and the high one from one that ends at 4 GB or below; it ends where
-- the segment ends, and starts behind the program where the segment holds the whole program, else
-- where the segment starts.
pub heap_init-IsHeap :
    (start program_size : ℕ) (ps : List Segment)
    → let first = shr64 start 12 in
      let last = add64 first (num_pages program_size) in
      let m = heap_init start program_size ps in
      IsHeap first last ps m.low low_memory_heap × IsHeap first last ps m.high heap_limit
unfolding heap_init
heap_init-IsHeap start program_size ps =
    choose_loop-Chosen (shr64 start 12) (add64 (shr64 start 12) (num_pages program_size)) ps
      (length ps) 0 (record { max_segment_size = 0; low = no_heap; high = no_heap }) (omega arith)
      (inl refl, inl refl)
