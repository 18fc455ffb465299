-- ===== src/Errors/Collect.antt =====
-- The reports of data errors of app/error.c that do not stop the run: each returns, and the summary, the
-- count and the table of patterns tell of every one.
use memtest86plus.Base.{ℕ, min, bit_xor, List, [], ◌∷◌, ◌≡◌, true, false, leb, length, some}
use memtest86plus.Badram.{Table, max_patterns}
use memtest86plus.Badram.Cover.{IsTable}
use memtest86plus.Badram.Report.{AllCovered}
use memtest86plus.Errors.{
  ErrorSettings, ErrorState, Fault, data_errors, data_error, table_before, note_error, mode_number,
  data_fault, error_limit, settings_for,
}
use memtest86plus.Errors.Summary.{spot, take_in, Summarises}

-- The errors that are taken into account, the last one first.
abbrev pub taken : List Fault → List Fault → List Fault
taken seen [] = seen
taken seen (f ∷ faults) = taken (take_in f seen) faults

-- The pages and offsets of the errors.
abbrev pub spots : List Fault → List (ℕ × ℕ)
spots [] = []
spots (f ∷ faults) = ((spot f).page, (spot f).offset) ∷ spots faults

-- What the reports say of the errors that were taken into account.
pub record Reflects (g : ErrorSettings) (faults : List Fault) (st : ErrorState) : Type 0 where
  pub summary : Summarises faults st.info
  pub count : st.error_count ≡ min error_limit (length faults)
  pub table : IsTable g.error_mode max_patterns (table_before g st)
  pub covered : AllCovered g.error_mode (table_before g st) (spots faults)

module _ (g : ErrorSettings) (go_on : g.continue_on_error ≡ true)
    (collects : leb 3 (mode_number g.error_mode) ≡ true) where
  -- The state after a report, with the table `t`.
  abbrev noted : Fault → Table → ErrorState → ErrorState
  noted f t st = note_error (settings_for g f) data_fault f.addr (bit_xor f.good f.bad) t st

  -- The call of `data_error` for one word in error.
  abbrev Noted : Fault → List Fault → ErrorState → Type 0
  Noted f seen st =
      (st' : ErrorState) × (data_error (settings_for g f) f.addr f.good f.bad true st
        ≡ some (st', false))
      × Reflects g (take_in f seen) st'

  abbrev AllNoted : List Fault → List Fault → ErrorState → Type 0
  AllNoted faults seen st =
      (st' : ErrorState) × (data_errors g st faults ≡ some st') × Reflects g (taken seen faults) st'
