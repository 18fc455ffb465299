-- ===== src/Heap.antt =====
-- system/heap.c, as it is built for x86: two heaps of physical pages, each taken from the top of one
-- segment of the map of usable memory. Pages are allocated downwards by moving the segment's end.
pub mod Alloc
pub mod Choice
mod Examples
use memtest86plus.Base.{
  ℕ, zero, suc, ◌+◌, ◌-◌, ◌*◌, ◌/◌, ◌%◌, ◌^◌, bit_and, Bool, true, false, ◌&&◌, List,
}
use memtest86plus.Base.{Option, none, some, ltb, leb, if◌then◌else◌, length, get_or, set}
use memtest86plus.Base.{add64, sub64, shl64, shr64, not64}
use memtest86plus.Pmem.Map.{Segment, no_segment, page_size}

-- `heap_type_t`
pub data HeapType : Type 0 where
  lm_1 hm_1 : HeapType

-- `heap_t`; a segment of -1 is `none`.
pub record Heap : Type 0 where
  pub segment : Option ℕ
  pub start : ℕ
  pub end : ℕ

-- The heaps and the map of memory that they are taken from.
pub record Memory : Type 0 where
  pub pm_map : List Segment
  pub low : Heap
  pub high : Heap

abbrev pub heap_of : Memory → HeapType → Heap
heap_of m lm_1 = m.low
heap_of m hm_1 = m.high

abbrev pub segment_of : Memory → ℕ → Segment
segment_of m i = get_or m.pm_map i no_segment

pub num_pages : ℕ → ℕ
num_pages size = shr64 (sub64 (add64 size page_size) 1) 12

abbrev pub set_end : Memory → ℕ → ℕ → Memory
set_end m i e = record m { pm_map = set m.pm_map i (record (segment_of m i) { end = e }) }

-- The page at which the allocation would start.
pub alloc_page : ℕ → ℕ → ℕ → ℕ
alloc_page end size alignment =
    bit_and (sub64 end (num_pages size)) (not64 (shr64 (sub64 alignment 1) 12))

-- The functions below return at once from a heap that has no segment.
alloc_in : Memory → ℕ → ℕ → ℕ → Option ℕ → Memory × ℕ
alloc_in m start size alignment none = (m, 0)
alloc_in m start size alignment (some i) =
    let page = alloc_page (segment_of m i).end size alignment in
    if ltb page start then (m, 0) else (set_end m i page, shl64 page 12)

-- The second result is the address, or 0.
pub heap_alloc : Memory → HeapType → ℕ → ℕ → Memory × ℕ
unfolding alloc_in
heap_alloc m id size alignment =
    let heap = heap_of m id in alloc_in m heap.start size alignment heap.segment

mark_in : Memory → Option ℕ → ℕ
mark_in m none = 0
mark_in m (some i) = (segment_of m i).end

pub heap_mark : Memory → HeapType → ℕ
unfolding mark_in
heap_mark m id = mark_in m (heap_of m id).segment

rewind_in : Memory → ℕ → ℕ → Option ℕ → Memory
rewind_in m end mark none = m
rewind_in m end mark (some i) =
    if ltb (segment_of m i).end mark && leb mark end then set_end m i mark else m

pub heap_rewind : Memory → HeapType → ℕ → Memory
unfolding rewind_in
heap_rewind m id mark = rewind_in m (heap_of m id).end mark (heap_of m id).segment

-- `PAGE_C(1,MB)` and `PAGE_C(4,GB)`
abbrev pub low_memory_heap : ℕ
low_memory_heap = 0x100

abbrev pub heap_limit : ℕ
heap_limit = 0x100000

abbrev pub no_heap : Heap
no_heap = record { segment = none; start = 0; end = 0 }

-- The part of segment `i` that a heap may use: not the program, nor what lies below it there.
pub try_heap : ℕ → ℕ → ℕ → Segment → Heap
try_heap program_start program_end i s = record {
  segment = some i;
  start = if leb s.start program_start && leb program_end s.end then program_end else s.start;
  end = s.end;
}

-- The variables of the loop of `heap_init`.
pub record Choosing : Type 0 where
  pub max_segment_size : ℕ
  pub low : Heap
  pub high : Heap

pub choose : Choosing → Heap → Choosing
choose c h =
    let size = sub64 h.end h.start in
    if leb c.max_segment_size size
    then record {
      max_segment_size = size;
      low = if leb h.end low_memory_heap then h else c.low;
      high = h;
    }
    else c

-- The loop at segment `i`, which ends at the first segment that reaches over the limit.
pub choose_loop : ℕ → ℕ → List Segment → ℕ → ℕ → Choosing → Choosing
choose_loop program_start program_end ps zero i c = c
choose_loop program_start program_end ps (suc left) i c =
    let s = get_or ps i no_segment in
    let rest =
      choose_loop program_start program_end ps left (i + 1)
        (choose c (try_heap program_start program_end i s)) in
    if leb s.end heap_limit then rest else c

-- `_start` and the size of the program are set by the linker and the loader.
pub heap_init : ℕ → ℕ → List Segment → Memory
heap_init start program_size ps =
    let program_start = shr64 start 12 in
    let program_end = add64 program_start (num_pages program_size) in
    let c =
      choose_loop program_start program_end ps (length ps) 0
        (record { max_segment_size = 0; low = no_heap; high = no_heap }) in
    record { pm_map = ps; low = c.low; high = c.high }
