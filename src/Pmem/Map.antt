-- ===== src/Pmem/Map.antt =====
-- The data of system/pmem.c and boot/bootparams.h: the entries of the BIOS memory map, and the
-- segments of the map of usable memory.
use memtest86plus.Base.{ℕ, ◌^◌, ◌<◌, List, [], ◌∷◌}

-- `e820_type_t`
abbrev pub e820_none : ℕ
e820_none = 0

abbrev pub e820_ram : ℕ
e820_ram = 1

abbrev pub e820_acpi : ℕ
e820_acpi = 3

-- `E820_MAP_SIZE`
abbrev pub e820_map_size : ℕ
e820_map_size = 128

-- `e820_entry_t`
pub record E820Entry : Type 0 where
  pub addr : ℕ
  pub size : ℕ
  pub type : ℕ

-- `pm_map_t`: page numbers, from `start` up to `end` without `end`.
pub record Segment : Type 0 where
  pub start : ℕ
  pub end : ℕ

pub record PmMap : Type 0 where
  pub segments : List Segment
  pub num_pm_pages : ℕ

abbrev pub reserved_mem_start : ℕ
reserved_mem_start = 0x0a0000

abbrev pub reserved_mem_end : ℕ
reserved_mem_end = 0x100000

abbrev pub page_size : ℕ
page_size = 4096

abbrev pub no_segment : Segment
no_segment = record { start = 0; end = 0 }

-- The addresses of the entries are words.
abbrev pub HaveWords : List E820Entry → Type 0
HaveWords [] = Unit {0}
HaveWords (e ∷ es) = (e.addr < 2 ^ 64) × HaveWords es
