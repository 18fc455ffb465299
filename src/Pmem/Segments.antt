-- ===== src/Pmem/Segments.antt =====
-- The segments that `init_pm_map` of system/pmem.c makes of the entries of the BIOS map.
use memtest86plus.Base.{
  ℕ, ◌+◌, ◌-◌, ◌*◌, ◌/◌, ◌%◌, ◌^◌, ◌≤◌, ◌<◌, List, [], ◌∷◌, ◌≡◌, refl, sym, ◌⊎◌, inl, inr,
}
use memtest86plus.Base.{arith, Bool-cases, some, none, ◌==◌, ◌||◌, Option, sub64, add64}
use memtest86plus.Pmem.Map.{
  E820Entry, HaveWords, Segment, PmMap, reserved_mem_start, reserved_mem_end, e820_ram, e820_acpi,
}
use memtest86plus.Pmem.{
  entry_segment, append_segment, add_segment, add_entry, add_entries, init_pm_map,
}

-- A page of a segment.
abbrev pub HasPage : Segment → ℕ → Type 0
HasPage s k = (s.start ≤ k) × (k < s.end)

-- Every page of a segment lies wholly within the entry that the segment comes from, if the entry
-- ends at least a page below 2^64.
pub entry_segment-HasPage :
    (e : E820Entry) (s : Segment) (k : ℕ)
    → e.addr + e.size < 2 ^ 64 - 4096
    → entry_segment e ≡ some s
    → HasPage s k
    → (e.addr ≤ k * 4096) × (k * 4096 + 4096 ≤ e.addr + e.size)
unfolding entry_segment
entry_segment-HasPage e s k h made page = ground arith

-- For an entry that ends at least a page below 2^64: no page of its segment lies between 640 KB and
-- 1024 KB, unless the entry reaches from 640 KB or below up to 1024 KB or above.
pub entry_segment_avoids_reserved :
    (e : E820Entry) (s : Segment) (k : ℕ)
    → e.addr + e.size < 2 ^ 64 - 4096
    → (reserved_mem_start < e.addr) ⊎ (e.addr + e.size < reserved_mem_end)
    → entry_segment e ≡ some s
    → HasPage s k
    → (k < 0xa0) ⊎ (0x100 ≤ k)
unfolding entry_segment
entry_segment_avoids_reserved e s k h apart made page = ground arith

-- An entry that reaches from 640 KB or below up to 1024 KB or above keeps every page between, if it
-- ends at least a page below 2^64.
pub entry_segment_keeps_reserved :
    (e : E820Entry) (k : ℕ)
    → e.addr + e.size < 2 ^ 64 - 4096
    → e.addr ≤ reserved_mem_start
    → reserved_mem_end ≤ e.addr + e.size
    → 0xa0 ≤ k
    → k < 0x100
    → (s : Segment) × (entry_segment e ≡ some s) × HasPage s k
unfolding entry_segment
entry_segment_keeps_reserved e k h low high from to = (
  record { start = (e.addr + 4095) / 4096; end = (e.addr + e.size) / 4096 },
  ground arith,
  omega arith,
)

-- End less start of the segments together, as the machine adds them.
abbrev pub pages : List Segment → ℕ
pages [] = 0
pages (s ∷ ss) = add64 (sub64 s.end s.start) (pages ss)

-- The segments' bounds are 64-bit words.
abbrev pub AreWords : List Segment → Type 0
AreWords [] = Unit {0}
AreWords (s ∷ ss) = (s.start < 2 ^ 64) × (s.end < 2 ^ 64) × AreWords ss

append_segment-AreWords :
    (ss : List Segment) (s : Segment)
    → AreWords ss
    → s.start < 2 ^ 64
    → s.end < 2 ^ 64
    → AreWords (append_segment ss s)
unfolding append_segment
append_segment-AreWords [] s v hs he = (hs, he, tt)
append_segment-AreWords (t ∷ []) s v hs he = ground arith
append_segment-AreWords (t ∷ u ∷ ts) s (vs, ve, v) hs he =
    (vs, ve, append_segment-AreWords (u ∷ ts) s v hs he)

-- Merging a segment into its neighbour keeps that sum.
pages-append_segment :
    (ss : List Segment) (s : Segment)
    → AreWords ss
    → s.start < 2 ^ 64
    → s.end < 2 ^ 64
    → pages (append_segment ss s) ≡ add64 (pages ss) (sub64 s.end s.start)
unfolding append_segment
pages-append_segment [] s v hs he = omega arith
pages-append_segment (t ∷ []) s v hs he = ground arith
pages-append_segment (t ∷ u ∷ ts) s (vs, ve, v) hs he =
    omega (arith, pages-append_segment (u ∷ ts) s v hs he)

-- The bounds are words and `num_pm_pages` is the sum of end less start of the segments, modulo 2^64.
pub record IsCounted (m : PmMap) : Type 0 where
  pub words : AreWords m.segments
  pub counted : m.num_pm_pages ≡ pages m.segments

entry_segment-words :
    (e : E820Entry) (s : Segment)
    → e.addr < 2 ^ 64
    → entry_segment e ≡ some s
    → (s.start < 2 ^ 64) × (s.end < 2 ^ 64)
unfolding entry_segment
entry_segment-words e s h made = ground arith

add_segment-IsCounted :
    (m : PmMap) (e : E820Entry) (o : Option Segment)
    → e.addr < 2 ^ 64
    → entry_segment e ≡ o
    → IsCounted m
    → IsCounted (add_segment m o)
unfolding add_segment
add_segment-IsCounted m e none h made v = v
add_segment-IsCounted m e (some s) h made v =
    let (hs, he) = entry_segment-words e s h made in
    record {
      words = append_segment-AreWords m.segments s v.words hs he;
      counted = rw v.counted (sym (pages-append_segment m.segments s v.words hs he));
    }

add_entry-IsCounted :
    (m : PmMap) (e : E820Entry) → e.addr < 2 ^ 64 → IsCounted m → IsCounted (add_entry m e)
unfolding add_entry
add_entry-IsCounted m e h v = elim (Bool-cases (e.type == e820_ram || e.type == e820_acpi)) [
  | inl usable ↦ rw usable (add_segment-IsCounted m e (entry_segment e) h refl v)
  | inr other ↦ rw other v
]

add_entries-IsCounted :
    (es : List E820Entry) (m : PmMap) → HaveWords es → IsCounted m → IsCounted (add_entries m es)
unfolding add_entries
add_entries-IsCounted [] m h v = v
add_entries-IsCounted (e ∷ es) m (ha, h) v =
    add_entries-IsCounted es (add_entry m e) h (add_entry-IsCounted m e ha v)

-- `init_pm_map` adds up in `num_pm_pages` end less start of its segments, modulo 2^64.
pub init_pm_map-IsCounted : (es : List E820Entry) → HaveWords es → IsCounted (init_pm_map es)
unfolding init_pm_map
init_pm_map-IsCounted es h =
    add_entries-IsCounted es (record { segments = []; num_pm_pages = 0 }) h
      (record { words = tt; counted = refl })

-- An entry below 640 KB or from 1024 KB on that lies strictly within one page makes a segment that
-- ends one page before it starts, so that one page too few is counted.
pub entry_segment_within_page :
    (e : E820Entry)
    → e.addr + e.size < 2 ^ 64 - 4096
    → (e.addr + e.size < reserved_mem_start) ⊎ (reserved_mem_end ≤ e.addr)
    → 0 < e.addr % 4096
    → (e.addr + e.size) / 4096 ≡ e.addr / 4096
    → (s : Segment) × (entry_segment e ≡ some s)
      × (s.end + 1 ≡ s.start)
      × (sub64 s.end s.start ≡ 2 ^ 64 - 1)
unfolding entry_segment
entry_segment_within_page e h outside inner same = (
  record { start = (e.addr + 4095) / 4096; end = (e.addr + e.size) / 4096 },
  ground arith,
  omega arith,
  omega arith,
)
