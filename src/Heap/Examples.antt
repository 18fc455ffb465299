-- ===== src/Heap/Examples.antt =====
-- Tests of the model of system/heap.c, and the theorems at concrete inputs.
use memtest86plus.Base.{
  ◌*◌, ◌^◌, ◌≤◌, ◌<◌, List, [], ◌∷◌, ◌≡◌, refl, arith, ◌⊎◌, some, shr64, add64,
}
use memtest86plus.Pmem.Map.{Segment}
use memtest86plus.Heap.{
  Memory, lm_1, num_pages, alloc_page, heap_alloc, heap_init, low_memory_heap, heap_limit,
}
use memtest86plus.Heap.Alloc.{IsReady, IsBlock, heap_alloc_lem}
use memtest86plus.Heap.Choice.{IsHeap, heap_init-IsHeap}

abbrev pm_map : List Segment
pm_map = record { start = 1; end = 0x90 } ∷ record { start = 0x100; end = 0x800 } ∷ []

abbrev memory : Memory
memory = record {
  pm_map = pm_map;
  low = record { segment = some 0; start = 1; end = 0x90 };
  high = record { segment = some 1; start = 0x100; end = 0x800 };
}

-- Two pages, aligned to 16 KB.
alloc_runs : (heap_alloc memory lm_1 0x1800 (2 ^ 14)).1 ≡ 0x8c000
unfolding heap_alloc alloc_page num_pages
alloc_runs = refl

-- A request of one page more than the segment's end page wraps, and is not refused.
oversized_runs : (heap_alloc memory lm_1 0x91000 (2 ^ 12)).1 ≡ 0xffff_ffff_ffff_f000
unfolding heap_alloc alloc_page num_pages
oversized_runs = refl

ready : IsReady memory lm_1 0
ready = record {
  chosen = refl;
  listed = omega arith;
  above = omega arith;
  below = omega arith;
  page = omega arith;
}

two_pages : num_pages 0x1800 ≤ 0x90
unfolding num_pages
two_pages = omega arith

heap_alloc_lem_example :
    let (m, a) = heap_alloc memory lm_1 0x1800 (2 ^ 14) in
    IsBlock memory m lm_1 0 0x1800 (2 ^ 14) (alloc_page 0x90 0x1800 (2 ^ 14))
      × (a ≡ alloc_page 0x90 0x1800 (2 ^ 14) * 4096)
    ⊎ (alloc_page 0x90 0x1800 (2 ^ 14) < 1) × (m ≡ memory) × (a ≡ 0)
heap_alloc_lem_example = heap_alloc_lem ready 0x1800 2 (omega arith) two_pages (omega arith)

heap_init-IsHeap_example :
    let first = shr64 0x100000 12 in
    let last = add64 first (num_pages 0x40000) in
    let m = heap_init 0x100000 0x40000 pm_map in
    IsHeap first last pm_map m.low low_memory_heap × IsHeap first last pm_map m.high heap_limit
heap_init-IsHeap_example = heap_init-IsHeap 0x100000 0x40000 pm_map
