-- ===== src/Window.antt =====
-- app/main.c: where the program is loaded, the windows of memory that a test goes through, and the
-- segments of each window; and `smp_narrow_to_proximity_domain` of system/smp.c, which splits them.
pub mod Segments
pub mod Load
pub mod Numa
pub mod Sequence
mod Examples
use memtest86plus.Base.{
  ℕ, zero, suc, ◌+◌, ◌-◌, ◌*◌, ◌/◌, ◌%◌, ◌^◌, Bool, true, false, not, ◌||◌, ◌&&◌, List, [], ◌∷◌,
  ◌++◌, Option, none, some, ltb, leb, ◌==◌, if◌then◌else◌, length, get_or, drop, ◌>>=◌,
}
use memtest86plus.Base.{add64, sub64, shl64, shr64}
use memtest86plus.Pmem.Map.{Segment, no_segment}
use memtest86plus.Chunk.{VmSegment, word_size}
use memtest86plus.Vm.{first_word_mapping, last_word_mapping, map_window, vm_window_size}

-- `MAX_MEM_SEGMENTS`
abbrev pub max_mem_segments : ℕ
max_mem_segments = 128

-- `LOW_LOAD_LIMIT`, 4 MB in bytes
abbrev pub low_load_limit : ℕ
low_load_limit = 0x400000

pub addr_range_is_usable : List Segment → ℕ → ℕ → Bool
addr_range_is_usable [] start size = false
addr_range_is_usable (s ∷ ss) start size =
    (leb (shl64 s.start 12) start && leb (add64 start size) (shl64 s.end 12))
    || addr_range_is_usable ss start size

-- The loop of `set_load_addr`.
pub find_load_addr : List Segment → ℕ → ℕ → ℕ → Option ℕ
find_load_addr [] size lower upper = none
find_load_addr (s ∷ ss) size lower upper =
    let rest = find_load_addr ss size lower upper in
    let start = if ltb (shl64 s.start 12) lower then lower else shl64 s.start 12 in
    if ltb (shl64 s.end 12) (add64 start size)
    then rest
    else if leb upper start
    then none
    else if ltb (add64 start size) lower
    then rest
    else some start

-- `current` is the address `_start` at which the program runs; `none` is a result of `false`.
pub set_load_addr : List Segment → ℕ → ℕ → ℕ → ℕ → Option ℕ
set_load_addr pm_map current size lower upper =
    if leb lower current
      && leb (add64 current size) upper
      && addr_range_is_usable pm_map current size
    then some current
    else find_load_addr pm_map size lower upper

-- `memory_affinity_t`: byte addresses that belong to a proximity domain.
pub record AffinityRange : Type 0 where
  pub proximity_domain_idx : ℕ
  pub start : ℕ
  pub end : ℕ

-- `smp_narrow_to_proximity_domain`: the first part of a range that lies within one domain.
pub narrow : List AffinityRange → ℕ → ℕ → Option AffinityRange
narrow [] start end = none
narrow (r ∷ rs) start end =
    let rest = narrow rs start end in
    if leb r.start start
    then (if ltb start r.end
        then some (record r { start = start; end = if leb end r.end then end else r.end })
        else rest)
    else if ltb end r.start
    then rest
    else some (record r { start = start; end = r.start })

-- The settings that a test run reads: the limits are page numbers, `stages` is that of the test, and
-- `pae` and `lm` are flags of the CPU.
pub record Settings : Type 0 where
  pub pm_limit_lower : ℕ
  pub pm_limit_upper : ℕ
  pub enable_numa : Bool
  pub memory_affinity_ranges : List AffinityRange
  pub stages : ℕ
  pub pae : Bool
  pub lm : Bool

-- `vm_map` up to `vm_map_size`, and `num_mapped_pages`.
pub record VmMap : Type 0 where
  pub segments : List VmSegment
  pub num_mapped_pages : ℕ

abbrev pub no_vm_segment : VmSegment
no_vm_segment = record { pm_base_addr = 0; start = 0; end = 0; proximity_domain_idx = 0 }

abbrev pub no_vm_map : VmMap
no_vm_map = record { segments = []; num_mapped_pages = 0 }

-- A new entry for the pages from `first` up to `end`.
pub add_vm_segment : VmMap → ℕ → ℕ → ℕ → ℕ → VmMap
add_vm_segment vm first end pages domain = record {
  segments =
      vm.segments
      ++ (record {
        pm_base_addr = first;
        start = first_word_mapping first;
        end = last_word_mapping (sub64 end 1) word_size;
        proximity_domain_idx = domain;
      }
          ∷ []);
  num_mapped_pages = add64 vm.num_mapped_pages pages;
}

-- A round of the loop below, with the part that was cut off; `next` is the later rounds.
pub numa_round :
    ℕ → ℕ → VmMap → ℕ → Option AffinityRange → (VmMap → ℕ → Option VmMap) → Option VmMap
numa_round seg_start seg_end vm start none next =
    some (add_vm_segment vm seg_start seg_end (sub64 seg_end seg_start) 0)
numa_round seg_start seg_end vm start (some r) next =
    let vm' =
      add_vm_segment vm (shr64 r.start 12) (shr64 r.end 12) (shr64 (sub64 r.end r.start) 12)
        r.proximity_domain_idx in
    if not (r.start == start) || not (r.end == shl64 seg_end 12) then next vm' r.end else some vm'

-- The loop over the parts of a segment, from the byte address `start`; `none` means that the fuel
-- ran out.
pub numa_loop : List AffinityRange → ℕ → ℕ → ℕ → VmMap → ℕ → Option VmMap
numa_loop ranges seg_start seg_end zero vm start = none
numa_loop ranges seg_start seg_end (suc fuel) vm start =
    if leb max_mem_segments (length vm.segments)
    then some vm
    else numa_round seg_start seg_end vm start (narrow ranges start (shl64 seg_end 12))
        (numa_loop ranges seg_start seg_end fuel)

-- One segment of memory in the window; `old` is the array `vm_map` as it was before, whose domain
-- numbers stay where NUMA is off.
pub setup_segment : Settings → List VmSegment → ℕ → ℕ → VmMap → Segment → Option VmMap
setup_segment g old win_start win_end vm s =
    let seg_start = if leb s.start win_start then win_start else s.start in
    let seg_end = if leb win_end s.end then win_end else s.end in
    if ltb seg_start seg_end && ltb seg_start win_end && ltb win_start seg_end
    then (if g.enable_numa
        then numa_loop g.memory_affinity_ranges seg_start seg_end (max_mem_segments + 1) vm
            (shl64 seg_start 12)
        else some (
            add_vm_segment vm seg_start seg_end (sub64 seg_end seg_start)
              (get_or old (length vm.segments) no_vm_segment).proximity_domain_idx))
    else some vm

pub setup_loop : Settings → List VmSegment → ℕ → ℕ → List Segment → VmMap → Option VmMap
setup_loop g old win_start win_end [] vm = some vm
setup_loop g old win_start win_end (s ∷ ss) vm = do
  vm' ← setup_segment g old win_start win_end vm s
  setup_loop g old win_start win_end ss vm'

pub setup_vm_map : Settings → List VmSegment → List Segment → ℕ → ℕ → Option VmMap
setup_vm_map g old pm_map win_start win_end =
    let start = if ltb win_start g.pm_limit_lower then g.pm_limit_lower else win_start in
    let end = if ltb g.pm_limit_upper win_end then g.pm_limit_upper else win_end in
    if leb end start then some no_vm_map else setup_loop g old start end pm_map no_vm_map

-- The variables of the loop over the windows; `vm_array` is the whole array `vm_map`.
pub record Windows : Type 0 where
  pub window_num : ℕ
  pub window_end : ℕ
  pub mapped_window : ℕ
  pub vm_array : List VmSegment

-- `window_num` of 0 is passed over by a test of several stages, and for a high lower limit.
pub skip_low_window : Settings → ℕ → ℕ
skip_low_window g num =
    if (num == 0) && (ltb 1 g.stages || leb low_load_limit g.pm_limit_lower) then 1 else num

-- The bounds of a window, from its number and the end of the window before.
pub window_bounds : ℕ → ℕ → ℕ × ℕ
window_bounds zero end = (0, shr64 low_load_limit 12)
window_bounds (suc zero) end = (shr64 low_load_limit 12, vm_window_size)
window_bounds (suc (suc num)) end = (end, add64 end vm_window_size)

-- The variables behind a round of the loop.
pub next_windows : Settings → ℕ → ℕ → VmMap → Windows → Windows
next_windows g num end vm w =
    let base = (get_or vm.segments 0 no_vm_segment).pm_base_addr in
    record {
      window_num = suc num;
      window_end = end;
      mapped_window =
          if vm.num_mapped_pages == 0
          then w.mapped_window
          else (map_window g.pae g.lm w.mapped_window base).0;
      vm_array = vm.segments ++ drop (length vm.segments) w.vm_array;
    }

-- A round of the loop from `setup_vm_map` on, where `rest` is the result of the later rounds.
pub finish_round : Settings → ℕ → ℕ → Windows → VmMap → Option (List VmMap) → Option (List VmMap)
finish_round g last end w vm rest =
    let base = (get_or vm.segments 0 no_vm_segment).pm_base_addr in
    if vm.num_mapped_pages == 0
    then (if ltb end last then rest else some [])
    else if not (map_window g.pae g.lm w.mapped_window base).1
    then some []
    else if ltb end last
    then (do later ← rest; some (vm ∷ later))
    else some (vm ∷ [])

-- `test_all_windows` for the master of a run that is no dummy run and is not stopped: the maps that
-- `run_test` is called for, in their order. `last` is the end of the last segment of `pm_map`, and
-- `none` means that the fuel ran out.
pub test_all_windows : Settings → List Segment → ℕ → ℕ → Windows → Option (List VmMap)
test_all_windows g pm_map last zero w = none
test_all_windows g pm_map last (suc fuel) w =
    let num = skip_low_window g w.window_num in
    let (start, end) = window_bounds num w.window_end in
    (do
      vm ← setup_vm_map g w.vm_array pm_map start end
      finish_round g last end w vm
          (test_all_windows g pm_map last fuel (next_windows g num end vm w)))
