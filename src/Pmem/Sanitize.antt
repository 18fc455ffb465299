-- ===== src/Pmem/Sanitize.antt =====
-- `sanitize_e820_map` of system/pmem.c: overlapping entries of the BIOS map are resolved by a sweep
-- over the points at which an entry starts or ends. An entry is named by its index in the original
-- map, where the code keeps a pointer to it.
pub mod PointOrder
pub mod Disjoint
mod Examples
use memtest86plus.Base.{ℕ, zero, suc, ◌+◌, ◌-◌, ◌*◌, ◌^◌, Bool, true, false, not, ◌||◌, ◌&&◌, max}
use memtest86plus.Base.{List, [], ◌∷◌, ◌++◌, map, Option, none, some, ltb, leb, ◌==◌, if◌then◌else◌}
use memtest86plus.Base.{length, get_or, take, add64, sub64, ◌>>=◌}
use memtest86plus.Pmem.Map.{E820Entry, e820_none, e820_map_size}

-- `struct change_member`
pub record ChangePoint : Type 0 where
  pub entry : ℕ
  pub start : Bool
  pub addr : ℕ

abbrev pub no_entry : E820Entry
no_entry = record { addr = 0; size = 0; type = 0 }

-- Some entry ends behind the last address.
pub has_overflow : List E820Entry → Bool
has_overflow [] = false
has_overflow (e ∷ es) = ltb (add64 e.addr e.size) e.addr || has_overflow es

-- The start and the end of each entry, from index `i` on.
pub change_points : List E820Entry → ℕ → List ChangePoint
change_points [] i = []
change_points (e ∷ es) i =
    record { entry = i; start = true; addr = e.addr }
    ∷ record { entry = i; start = false; addr = add64 e.addr e.size }
    ∷ change_points es (i + 1)

-- The test of the sort: whether `current` has to stand before `last`.
pub precedes : ChangePoint → ChangePoint → Bool
precedes current last =
    ltb current.addr last.addr || ((current.addr == last.addr) && (current.start && not last.start))

-- One round of the sort over the list, where `last` is `change_point[i-1]`, and whether it swapped.
pub sort_pass : ChangePoint → List ChangePoint → List ChangePoint × Bool
sort_pass last [] = (last ∷ [], false)
sort_pass last (current ∷ points) =
    let before = precedes current last in
    let (sorted, changed) = sort_pass (if before then last else current) points in
    ((if before then current else last) ∷ sorted, before || changed)

abbrev pub sort_round : List ChangePoint → List ChangePoint × Bool
sort_round [] = ([], false)
sort_round (p ∷ ps) = sort_pass p ps

-- `while (still_changing)`; `none` means that the fuel ran out.
pub sort_points : ℕ → List ChangePoint → Option (List ChangePoint)
sort_points zero ps = none
sort_points (suc fuel) ps =
    let (ps', changed) = sort_round ps in
    let rest = sort_points fuel ps' in if changed then rest else some ps'

-- Removal from the list of overlapping entries: each occurrence is overwritten by the last entry,
-- and the list gets one shorter.
pub last_or : ℕ → List ℕ → ℕ
last_or d [] = d
last_or d (x ∷ xs) = last_or x xs

abbrev pub drop_last : List ℕ → List ℕ
drop_last [] = []
drop_last (x ∷ []) = []
drop_last (x ∷ y ∷ xs) = x ∷ drop_last (y ∷ xs)

pub remove_overlap : ℕ → List ℕ → List ℕ
remove_overlap e xs = drop_last (map (λ x. if x == e then last_or e xs else x) xs)

-- The larger type takes precedence.
pub overlap_type : List E820Entry → List ℕ → ℕ → ℕ
overlap_type orig [] t = t
overlap_type orig (i ∷ is) t =
    let u = (get_or orig i no_entry).type in overlap_type orig is (if ltb t u then u else t)

-- The variables of the sweep. `slot` is `new_map[new_map_entries]`, behind the entries that are done.
pub record Sweep : Type 0 where
  pub overlap_list : List ℕ
  pub new_map : List E820Entry
  pub slot : E820Entry
  pub last_addr : ℕ
  pub last_type : ℕ

abbrev pub start_sweep : Sweep
start_sweep = record {
  overlap_list = [];
  new_map = [];
  slot = no_entry;
  last_addr = 0;
  last_type = e820_none;
}

pub update_overlap : List ℕ → ChangePoint → List ℕ
update_overlap xs p = if p.start then xs ++ (p.entry ∷ []) else remove_overlap p.entry xs

-- The end of the entry in `slot`, at address `a`: it is kept if it is not empty.
pub close_slot : Sweep → ℕ → Sweep
close_slot s a =
    let closed = record (s.slot) { size = sub64 a s.last_addr } in
    if s.last_type == e820_none
    then s
    else if closed.size == 0
    then record s { slot = closed }
    else record s { new_map = s.new_map ++ (closed ∷ []); slot = no_entry }

-- The start of an entry of type `t` at address `a`.
pub open_slot : Sweep → ℕ → ℕ → Sweep
open_slot s a t =
    if t == e820_none
    then record s { last_type = t }
    else record s { slot = record (s.slot) { addr = a; type = t }; last_addr = a; last_type = t }

-- The body of the sweep's loop; the second result tells its `break`.
pub sweep_step : List E820Entry → Sweep → ChangePoint → Sweep × Bool
sweep_step orig s p =
    let xs = update_overlap s.overlap_list p in
    let s' = record s { overlap_list = xs } in
    let t = overlap_type orig xs e820_none in
    if t == s'.last_type
    then (s', false)
    else (let c = close_slot s' p.addr in
        if leb e820_map_size (length c.new_map) then (c, true) else (open_slot c p.addr t, false))

pub sweep : List E820Entry → Sweep → List ChangePoint → Sweep
sweep orig s [] = s
sweep orig s (p ∷ ps) =
    let (s', stop) = sweep_step orig s p in let rest = sweep orig s' ps in if stop then s' else rest

-- The fuel that the sort is given: the square of the number of points, and one round more.
abbrev pub sort_fuel : List ChangePoint → ℕ
sort_fuel ps = length ps * length ps + 1

pub sanitize_e820_map : List E820Entry → Option (List E820Entry)
sanitize_e820_map orig = if has_overflow orig then some [] else (do
  points ← sort_points (sort_fuel (change_points orig 0)) (change_points orig 0)
  some (sweep orig start_sweep points).new_map)
