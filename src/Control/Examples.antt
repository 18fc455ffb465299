-- ===== src/Control/Examples.antt =====
-- The theorem about a pass of `main` of app/main.c, with the table of the tests as it is at the start.
use memtest86plus.Base.{
  ℕ, zero, suc, ◌≡◌, refl, arith, Bool, true, false, not, ◌&&◌, List, [], ◌∷◌, get_or, length,
}
use memtest86plus.Config.{CpuMode}
use memtest86plus.Control.{
  Control, State, TestPattern, first_test_list, no_test, is_seq, test_of, next_test,
}
use memtest86plus.Control.Pass.{Runs, settled, pass_calls, stage_calls, pass-Runs}

abbrev first_control : Control
first_control = record {
  cpu_mode = CpuMode.par;
  test_list = first_test_list;
  test_sequence = 0 ∷ 1 ∷ 2 ∷ 3 ∷ 4 ∷ 5 ∷ 6 ∷ 7 ∷ 8 ∷ 9 ∷ 10 ∷ 11 ∷ [];
  beyond = 12;
  is_disabled = λ cpu. false;
  num_available_cpus = 4;
}

abbrev pass_start : State
pass_start = record (settled true 0 0 0 0 0) { start_pass = true }

-- Eleven tests are enabled, one of them has two stages and one has twelve.
number_of_calls :
    length (pass_calls first_control 0 0 (0 ∷ 1 ∷ 2 ∷ 3 ∷ 4 ∷ 5 ∷ 6 ∷ 7 ∷ 8 ∷ 9 ∷ 10 ∷ 11 ∷ []))
    ≡ 23
unfolding pass_calls stage_calls
number_of_calls = refl

are_plain : List TestPattern → Bool
are_plain [] = true
are_plain (t ∷ ts) = not (is_seq t.cpu_mode) && are_plain ts

plain_tests :
    (ts : List TestPattern)
    → are_plain ts ≡ true
    → (num : ℕ) → is_seq (get_or ts num no_test).cpu_mode ≡ false
unfolding are_plain
plain_tests [] e num = refl
plain_tests (t ∷ ts) e zero = ground (arith, e)
plain_tests (t ∷ ts) e (suc num) = plain_tests ts (ground (arith, e)) num

first_plain : (num : ℕ) → is_seq (test_of first_control num).cpu_mode ≡ false
unfolding are_plain
first_plain = plain_tests first_test_list refl

pass-Runs_example :
    Runs first_control 1 0 pass_start
      (pass_calls first_control 0 0 (0 ∷ 1 ∷ 2 ∷ 3 ∷ 4 ∷ 5 ∷ 6 ∷ 7 ∷ 8 ∷ 9 ∷ 10 ∷ 11 ∷ []))
      (next_test first_control 1 0 (settled true 0 11 11 0 0))
pass-Runs_example =
    pass-Runs first_control 1 0 0 (1 ∷ 2 ∷ 3 ∷ 4 ∷ 5 ∷ 6 ∷ 7 ∷ 8 ∷ 9 ∷ 10 ∷ 11 ∷ []) pass_start refl
      first_plain refl
      (
        omega arith,
        (
          omega arith,
          (
            omega arith,
            (
              omega arith,
              (
                omega arith,
                (
                  omega arith,
                  (omega arith, (omega arith, (omega arith, (omega arith, (omega arith, tt))))),
                ),
              ),
            ),
          ),
        ),
      )
      refl refl
