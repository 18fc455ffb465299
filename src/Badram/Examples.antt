-- ===== src/Badram/Examples.antt =====
-- Tests of the model of app/badram.c, and the theorems at concrete inputs.
use memtest86plus.Base.{ℕ, List, [], ◌∷◌, ◌≡◌, refl, arith, inl, get_or, some, ◌>>=◌, Bool, false}
use memtest86plus.Config.{ErrorMode}
use memtest86plus.Badram.{
  Pattern, Table, init, insert, combine, combi_cost, cheapest_pair, new_pattern, max_patterns,
  blank, insert_outcome,
}
use memtest86plus.Badram.{
  scan, combine_mask, addresses, addresses_loop, insert_sorted, find_index, insert_at, shift_up,
}
use memtest86plus.Badram.Combine.{Covers, combine-Covers}
use memtest86plus.Badram.Cover.{IsTable, init-IsTable}
use memtest86plus.Badram.Cheapest.{IsCheapest, cheapest_pair-IsCheapest}
use memtest86plus.Badram.Insert.{Extends, insert_lem}
use memtest86plus.Badram.Report.{insert_all, AllCovered, report_complete}

-- Three words, of which the third merges with the second.
abbrev three_faults : List (ℕ × ℕ)
three_faults = (0, 0x40) ∷ (0, 0x28) ∷ (0, 0) ∷ []

-- The addresses of the first two entries.
abbrev first_two : Table → ℕ × ℕ
first_two t = ((get_or t.patterns 0 blank).addr, (get_or t.patterns 1 blank).addr)

-- The merge in place leaves the table out of the order by address that `insert_sorted` and
-- `cheapest_pair` take for granted.
merge_breaks_order :
    (do t ← insert_all ErrorMode.badram init three_faults; some (first_two t)) ≡ some (0x28, 0)
unfolding insert_all insert insert_outcome scan combi_cost combine combine_mask addresses
    addresses_loop insert_sorted find_index insert_at shift_up new_pattern init
merge_breaks_order = refl

report_complete_example :
    (t : Table) × (insert_all ErrorMode.badram init three_faults ≡ some t)
    × IsTable ErrorMode.badram max_patterns t
    × AllCovered ErrorMode.badram t three_faults
report_complete_example = report_complete ErrorMode.badram three_faults

insert_lem_example :
    (t : Table) × (changed : Bool) × (insert ErrorMode.pages init 5 0x18 ≡ some (t, changed))
    × Extends ErrorMode.pages init (new_pattern ErrorMode.pages 5 0x18) t
    × (changed ≡ false → t ≡ init)
insert_lem_example = insert_lem ErrorMode.pages (init-IsTable ErrorMode.pages) 5 0x18

abbrev word_pattern : ℕ → Pattern
word_pattern a = record { addr = a; mask = 0xffff_ffff_ffff_fff8 }

combine-Covers_example :
    Covers ErrorMode.badram (combine ErrorMode.badram (word_pattern 0x40) (word_pattern 0)) 0x44
combine-Covers_example =
    combine-Covers ErrorMode.badram (word_pattern 0x40) (word_pattern 0) 0x44 (omega arith)
      (inl refl)

same_cost : combi_cost ErrorMode.badram (word_pattern 0x40) (word_pattern 0x40) ≡ 0
unfolding combi_cost combine combine_mask addresses addresses_loop
same_cost = refl

abbrev two_ranges : Table
two_ranges = record {
  patterns = record { addr = 8; mask = 16 } ∷ record { addr = 64; mask = 64 } ∷ [];
  num_patterns = 2;
}

cheapest_pair-IsCheapest_example :
    (m : ℕ) × (cheapest_pair ErrorMode.memmap two_ranges ≡ some m)
    × IsCheapest ErrorMode.memmap two_ranges.patterns 1 m
cheapest_pair-IsCheapest_example =
    cheapest_pair-IsCheapest ErrorMode.memmap two_ranges (omega arith)
