-- ===== src/Pmem.antt =====
-- system/pmem.c: the map of usable physical memory. `PmMap` holds the `pm_map_size` entries of the
-- array `pm_map` that are in use.
pub mod Map
pub mod Sanitize
pub mod Sort
pub mod Segments
pub mod Init
mod Examples
use memtest86plus.Base.{ℕ, zero, suc, ◌+◌, ◌-◌, ◌*◌, ◌/◌, ◌%◌, ◌^◌, Bool, true, false, ◌||◌, ◌&&◌}
use memtest86plus.Base.{List, [], ◌∷◌, ◌++◌, Option, none, some, ltb, leb, ◌==◌, if◌then◌else◌}
use Map.{
  E820Entry, Segment, PmMap, e820_ram, e820_acpi, e820_map_size, reserved_mem_start,
  reserved_mem_end, page_size, no_segment,
}
use Sanitize.{sanitize_e820_map}
use memtest86plus.Base.{length, get_or, set, add64, sub64, shr64, replicate, take, ◌>>=◌}

-- The body of the loop of `init_pm_map` up to the new segment; `none` is its `continue`.
pub entry_segment : E820Entry → Option Segment
entry_segment e =
    let start = e.addr in
    let end = add64 start e.size in
    let inside = ltb reserved_mem_start start && ltb start reserved_mem_end in
    if inside && ltb end reserved_mem_end
    then none
    else (let start' = if inside then reserved_mem_end else start in
        let end' =
          if ltb reserved_mem_start end && ltb end reserved_mem_end
          then reserved_mem_start
          else end in
        some (record { start = shr64 (sub64 (add64 start' page_size) 1) 12; end = shr64 end' 12 }))

-- `pm_map[pm_map_size]` is new: it extends the last segment if it begins where that one ends.
pub append_segment : List Segment → Segment → List Segment
append_segment [] s = s ∷ []
append_segment (t ∷ []) s = if s.start == t.end then record t { end = s.end } ∷ [] else t ∷ s ∷ []
append_segment (t ∷ u ∷ ts) s = t ∷ append_segment (u ∷ ts) s

pub add_segment : PmMap → Option Segment → PmMap
add_segment m none = m
add_segment m (some s) = record {
  segments = append_segment m.segments s;
  num_pm_pages = add64 m.num_pm_pages (sub64 s.end s.start);
}

pub add_entry : PmMap → E820Entry → PmMap
add_entry m e =
    if e.type == e820_ram || e.type == e820_acpi then add_segment m (entry_segment e) else m

add_entries : PmMap → List E820Entry → PmMap
add_entries m [] = m
add_entries m (e ∷ es) = add_entries (add_entry m e) es

-- `init_pm_map`, with `num_pm_pages` at 0 as `pmem_init` sets it.
pub init_pm_map : List E820Entry → PmMap
unfolding add_entries
init_pm_map es = add_entries (record { segments = []; num_pm_pages = 0 }) es

-- The inner loop of `sort_pm_map`, at `j`, and the write of the candidate behind it.
pub sink : List Segment → Segment → ℕ → List Segment
sink ps c zero = set ps 0 c
sink ps c (suc j) =
    let rest = sink (set ps (suc j) (get_or ps j no_segment)) c j in
    if ltb c.start (get_or ps j no_segment).start then rest else set ps (suc j) c

-- The outer loop at `i`, with the rounds left.
pub sort_loop : List Segment → ℕ → ℕ → List Segment
sort_loop ps zero i = ps
sort_loop ps (suc left) i = sort_loop (sink ps (get_or ps i no_segment) i) left (i + 1)

pub sort_pm_map : List Segment → List Segment
sort_pm_map ps = sort_loop ps (length ps - 1) 1

-- `pmem_init`: the map of usable memory, from the first `e820_map_size` entries of the BIOS map at
-- most. `none` means that the sort of the change points ran out of fuel.
pub pmem_init : List E820Entry → Option PmMap
pmem_init e820_map = do
  sanitized ← sanitize_e820_map (take e820_map_size e820_map)
  let m = init_pm_map sanitized
  some (record m { segments = sort_pm_map m.segments })
