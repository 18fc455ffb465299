-- ===== src/Errors/Stop.antt =====
-- The default of app/error.c: the first error that is not corrected stops the run.
use memtest86plus.Base.{
  ℕ, ◌+◌, if◌then◌else◌, ◌<◌, ◌≡◌, ◌≢◌, refl, ap, Bool, true, false, Bool-cases, inl, inr, ltb, leb,
  ◌==◌, ==_iff, some, arith, ◌&&◌, bit_and, bit_xor,
}
use memtest86plus.Badram.{Table, max_patterns}
use memtest86plus.Badram.Cover.{IsTable}
use memtest86plus.Badram.Insert.{Inserts, insert_lem}
use memtest86plus.Vm.{page_of}
use memtest86plus.Errors.{
  ErrorType, addr_fault, data_fault, parity_fault, uecc_fault, cecc_fault, new_mode, ErrorSettings,
  ErrorState, error_limit, common_err, collect, table_before, note_error, stop_on_error,
  count_error, remember, mode_number,
}

-- The types of the errors that `error_count` counts.
abbrev pub is_counted : ErrorType → Bool
is_counted cecc_fault = false
is_counted new_mode = false
is_counted _ = true

-- The count with one more error, up to its limit.
abbrev pub counted_up : ℕ → ℕ
counted_up n = if ltb n error_limit then n + 1 else n

counted_up-positive : (n : ℕ) → 0 < counted_up n
counted_up-positive n = ground arith

remember-error_count :
    (type : ErrorType) (a xor : ℕ) (st : ErrorState)
    → (remember type a xor st).error_count ≡ st.error_count
unfolding remember
remember-error_count addr_fault a xor st = refl
remember-error_count data_fault a xor st = refl
remember-error_count parity_fault a xor st = refl
remember-error_count uecc_fault a xor st = refl
remember-error_count cecc_fault a xor st = refl
remember-error_count new_mode a xor st = refl

module _ (g : ErrorSettings) where
  count_error-counted :
      (type : ErrorType) (st : ErrorState)
      → is_counted type ≡ true
      → (count_error g type st).error_count ≡ counted_up st.error_count
  unfolding count_error
  count_error-counted addr_fault st h = refl
  count_error-counted data_fault st h = refl
  count_error-counted parity_fault st h = refl
  count_error-counted uecc_fault st h = refl
  count_error-counted cecc_fault st h = cc
  count_error-counted new_mode st h = cc

  note_error-counted :
      (type : ErrorType) (a xor : ℕ) (t : Table) (st : ErrorState)
      → is_counted type ≡ true
      → (note_error g type a xor t st).error_count ≡ counted_up st.error_count
  unfolding note_error
  note_error-counted type a xor t st h =
      rw (remember-error_count type a xor _) (count_error-counted type _ h)

  -- `badram_insert` returns, if it is called.
  collect-returns :
      (use_for_badram : Bool) (page offset : ℕ) {t : Table}
      → Inserts g.error_mode t page offset
      → (u : Table) × (collect g use_for_badram t page offset ≡ some u)
  unfolding collect
  collect-returns use_for_badram page offset {t} (u, changed, done, extends, same) =
      elim (Bool-cases (leb 3 (mode_number g.error_mode) && use_for_badram)) [
        | inl called ↦ (u, rw (called, done) refl)
        | inr skipped ↦ (t, rw skipped refl)
      ]

common_err-ignored :
    (g : ErrorSettings) (type : ErrorType) (a good bad : ℕ) (use_for_badram : Bool)
    (st : ErrorState)
    → st.testpass ≡ 2
    → common_err (record g { continue_on_error = false }) type a good bad use_for_badram st
      ≡ some (st, false)
unfolding common_err
common_err-ignored g type a good bad use_for_badram st failed =
    let e : (st.testpass == 2) ≡ true = (==_iff _ _).1 failed in rw e refl

-- How the first error ends: the run has the result 2, the error is counted, and no later report
-- changes a thing, whatever its type, the CPU that makes it, the window, the test and the mode.
pub record Stops (st st' : ErrorState) : Type 0 where
  pub failed : st'.testpass ≡ 2
  pub counted : st'.error_count ≡ counted_up st.error_count
  pub ignored :
      (g' : ErrorSettings) (type : ErrorType) (a good bad : ℕ) (use_for_badram : Bool)
      → common_err (record g' { continue_on_error = false }) type a good bad use_for_badram st'
        ≡ some (st', false)

module _ (g : ErrorSettings) (stops : g.continue_on_error ≡ false) where
  stop_on_error-stops :
      (st : ErrorState)
      → g.is_master ≡ true
      → 0 < st.error_count
      → stop_on_error g st ≡ (record st { testpass = 2 }, true)
  unfolding stop_on_error
  stop_on_error-stops st master positive =
      let some_error : ltb 0 st.error_count ≡ true = ground (arith, positive) in
      rw (stops, some_error, master) refl

  -- Where a run stops on the first error and has not stopped yet, a report of an error that is not
  -- corrected, made by the master on a well-formed table of patterns, stops the run: the master stays
  -- in the loop that shows the failure, the result is a failure and the count of errors goes up by one,
  -- unless it is at its limit. Every later report by any CPU, in any window, test and mode, where the run
  -- still stops on the first error, returns and leaves the state as it is.
  pub common_err-Stops :
      (type : ErrorType) (a good bad : ℕ) (use_for_badram : Bool) (st : ErrorState)
      → is_counted type ≡ true
      → g.is_master ≡ true
      → st.testpass ≢ 2
      → IsTable g.error_mode max_patterns (table_before g st)
      → (st' : ErrorState) × (common_err g type a good bad use_for_badram st ≡ some (st', true))
        × Stops st st'
  unfolding common_err
  common_err-Stops type a good bad use_for_badram st counts master runs table =
      let page = page_of g.mapped_window a in
      let offset = bit_and a 0xfff in
      let (t, collected) =
        collect-returns g use_for_badram page offset (insert_lem g.error_mode table page offset) in
      let noted = note_error g type a (bit_xor good bad) t st in
      let counted = note_error-counted g type a (bit_xor good bad) t st counts in
      let positive : 0 < noted.error_count =
        omega (arith, counted, counted_up-positive st.error_count) in
      let not_yet : (st.testpass == 2) ≡ false = ground (arith, runs) in
      (
        record noted { testpass = 2 },
        rw (not_yet, collected) (ap some (stop_on_error-stops noted master positive)),
        record {
          failed = refl;
          counted = counted;
          ignored = λ g' type' a' good' bad' use'.
              common_err-ignored g' type' a' good' bad' use' (record noted { testpass = 2 }) refl;
        },
      )
