-- ===== src/Pmem/Examples.antt =====
-- Tests of the model of system/pmem.c, and the theorems at concrete inputs.
use memtest86plus.Base.{
  ℕ, ◌+◌, ◌-◌, ◌%◌, ◌^◌, ◌≤◌, ◌<◌, List, [], ◌∷◌, ◌≡◌, refl, arith, inr, ◌⊎◌, some, length, u64_mod,
}
use memtest86plus.Pmem.Map.{E820Entry, Segment, PmMap}
use memtest86plus.Pmem.{entry_segment, sort_pm_map, sort_loop, sink, pmem_init}
use memtest86plus.Pmem.Segments.{pages, entry_segment_avoids_reserved}
use memtest86plus.Pmem.Sort.{IsSortedTo, SameSegments, sum, sort_pm_map_sorts}
use memtest86plus.Pmem.Init.{held, missing, pmem_init_lem}

abbrev entry : ℕ → ℕ → ℕ → E820Entry
entry a s t = record { addr = a; size = s; type = t }

-- Usable memory with a hole in it that another entry reserves.
abbrev overlapping : List E820Entry
overlapping = entry 0x1000 0x9000 1 ∷ entry 0x4000 0x2000 2 ∷ []

abbrev segment : ℕ → ℕ → Segment
segment s e = record { start = s; end = e }

sort_pm_map_runs :
    sort_pm_map (segment 9 12 ∷ segment 2 5 ∷ segment 7 8 ∷ [])
    ≡ segment 2 5 ∷ segment 7 8 ∷ segment 9 12 ∷ []
unfolding sort_pm_map sort_loop sink
sort_pm_map_runs = refl

pmem_init_lem_example :
    (m : PmMap) × (pmem_init overlapping ≡ some m)
    × IsSortedTo m.segments (length m.segments)
    × (m.num_pm_pages ≡ pages m.segments)
    × ((m.num_pm_pages + sum missing m.segments) % u64_mod ≡ sum held m.segments % u64_mod)
pmem_init_lem_example = pmem_init_lem overlapping (omega arith)

sort_pm_map_sorts_example :
    IsSortedTo (sort_pm_map (segment 9 12 ∷ segment 2 5 ∷ [])) 2
    × (length (sort_pm_map (segment 9 12 ∷ segment 2 5 ∷ [])) ≡ 2)
    × SameSegments (sort_pm_map (segment 9 12 ∷ segment 2 5 ∷ [])) (segment 9 12 ∷ segment 2 5 ∷ [])
sort_pm_map_sorts_example = sort_pm_map_sorts (segment 9 12 ∷ segment 2 5 ∷ [])

low_segment : entry_segment (entry 0x1000 0x9000 1) ≡ some (segment 1 10)
unfolding entry_segment
low_segment = refl

-- An entry that ends too close to 2^64 wraps when its start is rounded up.
wrapped_segment : entry_segment (entry (2 ^ 64 - 100) 50 1) ≡ some (segment 0 (2 ^ 52 - 1))
unfolding entry_segment
wrapped_segment = refl

-- An entry within one page makes a segment that ends before it starts.
inverted_segment : entry_segment (entry 0x1800 0x100 1) ≡ some (segment 2 1)
unfolding entry_segment
inverted_segment = refl

entry_segment_avoids_reserved_example : (4 < 0xa0) ⊎ (0x100 ≤ 4)
entry_segment_avoids_reserved_example =
    entry_segment_avoids_reserved (entry 0x1000 0x9000 1) (segment 1 10) 4 (omega arith)
      (inr (omega arith)) low_segment (omega arith)
