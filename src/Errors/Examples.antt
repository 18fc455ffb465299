-- ===== src/Errors/Examples.antt =====
-- Tests of the model of app/error.c, and its theorems at concrete errors.
use memtest86plus.Base.{ℕ, ◌≡◌, refl, arith, true, false, Option, some, none, List, [], ◌∷◌}
use memtest86plus.Config.{ErrorMode}
use memtest86plus.Badram.{init}
use memtest86plus.Badram.Cover.{IsTable, init-IsTable}
use memtest86plus.Vm.{page_of}
use memtest86plus.Errors.{
  ErrorSettings, ErrorState, Fault, first_info, error_init, data_errors, data_error, common_err,
  uecc_fault, table_before, is_new_header, collect, note_error, stop_on_error, count_error,
  remember, info_for, update_error_info, update_min, update_max, next_run, count_bits,
}
use memtest86plus.Errors.Stop.{Stops, common_err-Stops}

abbrev go_on : ErrorSettings
go_on = record {
  error_mode = ErrorMode.badram;
  continue_on_error = true;
  is_master = true;
  mapped_window = 2;
  test_num = 1;
  ecc_count = 0;
}

abbrev stop : ErrorSettings
stop = record go_on { continue_on_error = false }

abbrev fresh : ErrorState
fresh = record {
  info = first_info;
  error_count = 0;
  error_count_cecc = 0;
  last_error_mode = ErrorMode.none;
  test_errors = 0 ∷ 0 ∷ [];
  patterns = init;
  testpass = 0;
}

abbrev fault : ℕ → ℕ → ℕ → ℕ → Fault
fault window addr good bad = record {
  addr = addr;
  good = good;
  bad = bad;
  window = window;
  test_num = 1;
  is_master = true;
}

abbrev faults : List Fault
faults = fault 2 0x2018 0xff 0xfe ∷ fault 2 0x4e0 0 1 ∷ fault 2 0x1008 0 0x12 ∷ []

-- The same address of the mapping in two windows.
abbrev two_windows : List Fault
two_windows = fault 2 0x4000_0008 0 1 ∷ fault 3 0x4000_0008 0 2 ∷ []

-- The summary and the counts after a run.
abbrev results : Option ErrorState → List ℕ
results none = []
results (some st) =
    st.error_count ∷ st.info.min_addr.page ∷ st.info.min_addr.offset ∷ st.info.max_addr.page
    ∷ st.info.bad_bits ∷ st.info.min_bits ∷ st.info.max_bits ∷ st.info.total_bits ∷ st.test_errors

two_errors :
    results
      (data_errors (record go_on { error_mode = ErrorMode.summary }) (error_init fresh) faults)
    ≡ 2 ∷ 1 ∷ 8 ∷ 2 ∷ 0x13 ∷ 1 ∷ 2 ∷ 3 ∷ 0 ∷ 2 ∷ []
unfolding data_errors data_error common_err error_init collect table_before is_new_header note_error
    stop_on_error count_error remember info_for update_error_info update_min update_max next_run
    count_bits page_of
two_errors = refl

first-IsTable : IsTable ErrorMode.badram 20 (table_before stop fresh)
unfolding table_before is_new_header
first-IsTable = init-IsTable ErrorMode.badram

common_err-Stops_example :
    (st : ErrorState) × (common_err stop uecc_fault 0x2018 0 0 false fresh ≡ some (st, true))
    × Stops fresh st
common_err-Stops_example =
    common_err-Stops stop refl uecc_fault 0x2018 0 0 false fresh refl refl (omega arith)
      first-IsTable
