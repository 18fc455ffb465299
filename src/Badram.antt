-- ===== src/Badram.antt =====
-- app/badram.c: the table of faulty addresses behind the BadRAM, memmap and bad-page reports.
-- The table has room for one pattern more than it keeps between calls; the extra one is merged
-- away. The display code is not modelled.

pub mod Combine
pub mod Cost
pub mod Arrays
pub mod Cover
pub mod Cheapest
pub mod Insert
pub mod Report
mod Examples
use memtest86plus.Base.{ℕ, zero, suc, ◌+◌, ◌-◌, ◌/◌, ◌%◌, ◌^◌, ◌*◌, bit_and, bit_or, bit_xor}
use memtest86plus.Base.{Bool, true, false, List, Option, none, some, ltb, leb, ◌==◌, if◌then◌else◌}
use memtest86plus.Base.{◌>>=◌, get_elem?, get_or, set, replicate}
use memtest86plus.Config.{ErrorMode, is_badram}
use memtest86plus.Base.{u64_max, add64, sub64, shl64, shr64, not64, not}

-- `pattern_t`. Outside the BadRAM mode `mask` is the upper address of a range.
pub record Pattern : Type 0 where
  pub addr : ℕ
  pub mask : ℕ

pub record Table : Type 0 where
  pub patterns : List Pattern
  pub num_patterns : ℕ

abbrev pub max_patterns : ℕ
max_patterns = 20

abbrev pub patterns_size : ℕ
patterns_size = max_patterns + 1

abbrev pub default_mask : ℕ
default_mask = shl64 u64_max 3

abbrev pub page_shift : ℕ
page_shift = 12

-- `sizeof(uintptr_t)`
abbrev pub word_size : ℕ
word_size = 8

abbrev pub blank : Pattern
blank = record { addr = 0; mask = 0 }

pub combine_mask : ℕ → ℕ → ℕ → ℕ → ℕ
combine_mask a b c d = bit_and (bit_and b d) (not64 (bit_xor a c))

module _ (mode : ErrorMode) where
  pub combine : Pattern → Pattern → Pattern
  combine p q =
      if is_badram mode
      then (let mask = combine_mask p.addr p.mask q.addr q.mask in
          record { addr = bit_and (bit_or p.addr q.addr) mask; mask = mask })
      else record {
        addr = if ltb p.addr q.addr then p.addr else q.addr;
        mask = if ltb q.mask p.mask then p.mask else q.mask;
      }

-- The loop of `addresses`, with the rounds left and `ctr`.
pub addresses_loop : ℕ → ℕ → ℕ → ℕ
addresses_loop zero ctr mask = ctr
addresses_loop (suc i) ctr mask =
    addresses_loop i (if bit_and mask 1 == 0 then add64 ctr ctr else ctr) (shr64 mask 1)

pub addresses : ℕ → ℕ
addresses mask = addresses_loop 64 1 mask

module _ (mode : ErrorMode) where
  pub combi_cost : Pattern → Pattern → ℕ
  combi_cost p q =
      let c = combine mode p q in
      if is_badram mode
      then sub64 (addresses c.mask) (addresses p.mask)
      else sub64 (sub64 c.mask c.addr) (sub64 p.mask p.addr)

  -- The loop of `cheapest_pair` at index `i`, with its rounds left. `none` is the index -1.
  pub cheapest_loop : List Pattern → ℕ → ℕ → ℕ → Option ℕ → Option ℕ
  cheapest_loop ps zero i min_cost merge_idx = merge_idx
  cheapest_loop ps (suc left) i min_cost merge_idx =
      let cost = combi_cost (get_or ps i blank) (get_or ps (i + 1) blank) in
      cheapest_loop ps left (i + 1) (if leb cost min_cost then cost else min_cost)
        (if leb cost min_cost then some i else merge_idx)

  pub cheapest_pair : Table → Option ℕ
  cheapest_pair t = cheapest_loop t.patterns (t.num_patterns - 1) 0 u64_max none

-- `for (i = idx; i < num_patterns - 2; i++) patterns[i] = patterns[i + 2];`
pub shift_down : List Pattern → ℕ → ℕ → List Pattern
shift_down ps zero i = ps
shift_down ps (suc left) i = shift_down (set ps i (get_or ps (i + 2) blank)) left (i + 1)

pub remove_pair : Table → ℕ → Table
remove_pair t idx =
    let n = t.num_patterns in
    let moved = shift_down t.patterns (n - 2 - idx) idx in
    record { patterns = set (set moved (n - 1) blank) (n - 2) blank; num_patterns = n - 2 }

pub combined_pattern : ErrorMode → Table → ℕ → ℕ → Pattern
combined_pattern mode t idx1 idx2 =
    combine mode (get_or t.patterns idx1 blank) (get_or t.patterns idx2 blank)

-- `for (i = num_patterns - 1; i >= idx; i--) patterns[i + 1] = patterns[i];`, with the rounds
-- left; the round with `left` rounds after it moves index `idx + left`.
pub shift_up : List Pattern → ℕ → ℕ → List Pattern
shift_up ps zero idx = ps
shift_up ps (suc left) idx =
    shift_up (set ps (idx + left + 1) (get_or ps (idx + left) blank)) left idx

pub insert_at : Table → Pattern → ℕ → Table
insert_at t p idx = record {
  patterns = set (shift_up t.patterns (t.num_patterns - idx) idx) idx p;
  num_patterns = t.num_patterns + 1;
}

-- The search loop of `insert_sorted` at index `i`, with the rounds left.
pub find_index : List Pattern → ℕ → ℕ → ℕ → ℕ
find_index ps a zero i = i
find_index ps a (suc left) i =
    let rest = find_index ps a left (i + 1) in if ltb a (get_or ps i blank).addr then i else rest

abbrev pub normalise : ErrorMode → Pattern → Pattern
normalise mode p = if is_badram mode then record p { addr = bit_and p.addr p.mask } else p

pub insert_sorted : ErrorMode → Table → Pattern → Table
insert_sorted mode t p =
    let q = normalise mode p in insert_at t q (find_index t.patterns q.addr t.num_patterns 0)

pub init : Table
init = record { patterns = replicate patterns_size blank; num_patterns = 0 }

-- How the scan of `badram_insert` over the table ends.
pub data Scan : Type 0 where
  covered : Scan
  widened : ℕ → Scan
  unmatched : Scan

pub scan : ErrorMode → List Pattern → Pattern → ℕ → ℕ → Scan
scan mode ps p zero i = unmatched
scan mode ps p (suc left) i =
    let cost = combi_cost mode (get_or ps i blank) p in
    let rest = scan mode ps p left (i + 1) in
    if cost == 0 then covered else if cost == word_size then widened i else rest

-- The forced merge at the end of `badram_insert`. `none` is the index -1 of `cheapest_pair`, with
-- which the code would read before the table.
pub merge_cheapest : ErrorMode → Table → Option Table
merge_cheapest mode t = do
  idx ← cheapest_pair mode t
  some (insert_sorted mode (remove_pair t idx) (combined_pattern mode t idx (idx + 1)))

pub new_pattern : ErrorMode → ℕ → ℕ → Pattern
new_pattern mode page offset =
    let a = add64 (shl64 page page_shift) offset in
    record { addr = a; mask = if is_badram mode then default_mask else a }

-- The rest of `badram_insert`, by how its scan ended: the new table, and whether it changed.
pub insert_outcome : ErrorMode → Table → Pattern → Scan → Option (Table × Bool)
insert_outcome mode t p covered = some (t, false)
insert_outcome mode t p (widened i) =
    let wider = combine mode (get_or t.patterns i blank) p in
    some (record t { patterns = set t.patterns i wider }, true)
insert_outcome mode t p unmatched =
    let t' = insert_sorted mode t p in
    if ltb max_patterns t'.num_patterns
    then (do m ← merge_cheapest mode t'; some (m, true))
    else some (t', true)

-- `badram_insert`
pub insert : ErrorMode → Table → ℕ → ℕ → Option (Table × Bool)
insert mode t page offset =
    let p = new_pattern mode page offset in
    insert_outcome mode t p (scan mode t.patterns p t.num_patterns 0)
