-- ===== src/Pmem/Sanitize/Examples.antt =====
-- Tests of the model of `sanitize_e820_map` of system/pmem.c, and the theorems at concrete inputs.
use memtest86plus.Base.{ℕ, ◌^◌, ◌≤◌, List, [], ◌∷◌, ◌≡◌, refl, arith, some, length, true, false}
use memtest86plus.Pmem.Map.{E820Entry, e820_map_size}
use memtest86plus.Pmem.Sanitize.{
  ChangePoint, sanitize_e820_map, has_overflow, change_points, precedes, sort_pass, sort_points,
  sort_fuel, last_or, remove_overlap, overlap_type,
}
use memtest86plus.Pmem.Sanitize.{update_overlap, close_slot, open_slot, sweep_step, sweep}
use memtest86plus.Pmem.Sanitize.PointOrder.{IsSortOf, sort_points_total}
use memtest86plus.Pmem.Sanitize.Disjoint.{IsChain, sanitize_disjoint}

abbrev entry : ℕ → ℕ → ℕ → E820Entry
entry a s t = record { addr = a; size = s; type = t }

-- Usable memory with a hole in it that another entry reserves.
abbrev overlapping : List E820Entry
overlapping = entry 0x1000 0x9000 1 ∷ entry 0x4000 0x2000 2 ∷ []

sanitize-overlapping :
    sanitize_e820_map overlapping
    ≡ some (entry 0x1000 0x3000 1 ∷ entry 0x4000 0x2000 2 ∷ entry 0x6000 0x4000 1 ∷ [])
unfolding sanitize_e820_map has_overflow change_points precedes sort_pass sort_points last_or
    remove_overlap overlap_type update_overlap close_slot open_slot sweep_step sweep
sanitize-overlapping = refl

abbrev points : List ChangePoint
points =
    record { entry = 0; start = false; addr = 8 }
    ∷ record { entry = 1; start = true; addr = 8 }
    ∷ []

sort_points_total_example :
    (ps : List ChangePoint) × (sort_points (sort_fuel points) points ≡ some ps) × IsSortOf points ps
sort_points_total_example = sort_points_total points

sanitize_disjoint_example :
    (es : List E820Entry) × (sanitize_e820_map overlapping ≡ some es)
    × IsChain 0 es (2 ^ 64)
    × (length es ≤ e820_map_size)
sanitize_disjoint_example = sanitize_disjoint overlapping (omega arith)
