-- ===== src/Window/Examples.antt =====
-- Tests of the model of the windows in app/main.c, and the theorems at concrete inputs.
use memtest86plus.Base.{◌+◌, ◌≤◌, ◌<◌, ◌/◌, ◌≡◌, refl, arith, List, [], ◌∷◌, some, true, false, inr}
use memtest86plus.Pmem.Map.{Segment}
use memtest86plus.Window.{
  AffinityRange, Settings, VmMap, Windows, find_load_addr, set_load_addr, setup_vm_map,
  test_all_windows, addr_range_is_usable,
}
use memtest86plus.Window.Segments.{IsFrame, Shows, setup_vm_map_lem}
use memtest86plus.Window.Load.{IsInside, set_load_addr_lem}
use memtest86plus.Window.Numa.{IsBounded, setup_vm_map-IsBounded}
use memtest86plus.Window.Sequence.{Tests, test_all_windows_lem, first_page}

-- 5 GB of memory: one segment below 640 KB, one up to 3 GB, and one above 4 GB.
abbrev memory : List Segment
memory =
    record { start = 1; end = 0xa0 }
    ∷ record { start = 0x100; end = 0xc0000 }
    ∷ record { start = 0x100000; end = 0x140000 }
    ∷ []

abbrev settings : Settings
settings = record {
  pm_limit_lower = 0;
  pm_limit_upper = 0x140000;
  enable_numa = false;
  memory_affinity_ranges = [];
  stages = 1;
  pae = true;
  lm = true;
}

abbrev ranges : List AffinityRange
ranges =
    record { proximity_domain_idx = 0; start = 0; end = 0x6000_0000 }
    ∷ record { proximity_domain_idx = 1; start = 0x6000_0000; end = 0x1_4000_0000 }
    ∷ []

abbrev numa_settings : Settings
numa_settings = record settings { enable_numa = true; memory_affinity_ranges = ranges }

abbrev at_start : Windows
at_start = record { window_num = 0; window_end = 0; mapped_window = 2; vm_array = [] }

-- The last segment starts so shortly below the upper limit that the program ends above it.
beyond_limit :
    set_load_addr (record { start = 0x3f0; end = 0x800 } ∷ []) 0x800000 0x40000 0x1000 0x400000
    ≡ some 0x3f0000
unfolding set_load_addr find_load_addr addr_range_is_usable
beyond_limit = refl

setup_vm_map_lem_example :
    (vm : VmMap) × (setup_vm_map settings [] memory 0x80000 0xc0000 ≡ some vm)
    × Shows settings memory 0x80000 0xc0000 vm
setup_vm_map_lem_example =
    setup_vm_map_lem settings refl [] memory (omega arith) 0x80000 0xc0000 frame
  where
    frame : IsFrame 0x80000 0xc0000
    frame = (omega arith, omega arith, inr (omega arith, omega arith))

test_all_windows_lem_example :
    (ms : List VmMap) × (test_all_windows settings memory 0x140000 (0x140000 / 0x40000 + 3) at_start
      ≡ some ms)
    × Tests settings memory (first_page settings) 0x140000 ms
test_all_windows_lem_example =
    test_all_windows_lem settings memory 0x140000 refl refl refl (omega arith) (omega arith)
      at_start refl

set_load_addr_lem_example :
    IsInside memory 0x100000 (0x100000 + 0x40000) × (0x1000 ≤ 0x100000) × (0x100000 < 0x400000)
unfolding set_load_addr find_load_addr addr_range_is_usable
set_load_addr_lem_example =
    set_load_addr_lem memory 0x100000 0x40000 0x1000 0x400000 0x100000
      ((omega arith, omega arith, (omega arith, omega arith, (omega arith, omega arith, tt))))
      (omega arith) (omega arith) (omega arith) (omega arith) stays
  where
    stays : set_load_addr memory 0x100000 0x40000 0x1000 0x400000 ≡ some 0x100000
    stays = refl

abbrev first_part : AffinityRange
first_part = record { proximity_domain_idx = 0; start = 0x100000; end = 0x6000_0000 }

setup_vm_map-IsBounded_example :
    (vm : VmMap) × (setup_vm_map numa_settings [] memory 0x40000 0x80000 ≡ some vm) × IsBounded vm
setup_vm_map-IsBounded_example = setup_vm_map-IsBounded numa_settings refl [] memory 0x40000 0x80000
