-- ===== src/Control.antt =====
-- `main` of app/main.c: the single loop that goes over the passes, the tests and their stages by global
-- variables.
pub mod Pass
mod Examples
use memtest86plus.Base.{
  ℕ, zero, suc, ◌+◌, ◌-◌, ◌%◌, Bool, true, false, ◌&&◌, ◌||◌, not, List, [], ◌∷◌, ◌++◌, Option,
  none, some, ltb, leb, ◌==◌, if◌then◌else◌, get_or, length,
}
use memtest86plus.Config.{CpuMode}
use memtest86plus.Master.{select_next_master}

-- `test_pattern_t`, as far as the loop reads it
pub record TestPattern : Type 0 where
  pub enabled : Bool
  pub cpu_mode : CpuMode
  pub stages : ℕ

-- What the loop reads but does not write. `test_sequence` is the array of that name, and `beyond` is
-- what a read behind its end gives.
pub record Control : Type 0 where
  pub cpu_mode : CpuMode
  pub test_list : List TestPattern
  pub test_sequence : List ℕ
  pub beyond : ℕ
  pub is_disabled : ℕ → Bool
  pub num_available_cpus : ℕ

-- `NUM_TEST_PATTERNS` and `NUM_PASS_TYPES`
abbrev pub num_test_patterns : ℕ
num_test_patterns = 12

abbrev pub num_pass_types : ℕ
num_pass_types = 2

pub record State : Type 0 where
  pub start_run : Bool
  pub start_pass : Bool
  pub start_test : Bool
  pub rerun_test : Bool
  pub dummy_run : Bool
  pub pass_num : ℕ
  pub test_num_index : ℕ
  pub test_num : ℕ
  pub test_stage : ℕ
  pub master_cpu : ℕ

-- A call of `test_all_windows`.
pub record Call : Type 0 where
  pub pass : ℕ
  pub test : ℕ
  pub stage : ℕ
  pub master : ℕ

abbrev pub test_pattern : Bool → CpuMode → ℕ → TestPattern
test_pattern enabled cpu_mode stages = record {
  enabled = enabled;
  cpu_mode = cpu_mode;
  stages = stages;
}

-- `test_list` of tests/tests.c, as it is at the start
abbrev pub first_test_list : List TestPattern
first_test_list =
    test_pattern true CpuMode.one 1
    ∷ test_pattern true CpuMode.one 1
    ∷ test_pattern true CpuMode.one 2
    ∷ test_pattern true CpuMode.par 1
    ∷ test_pattern true CpuMode.par 1
    ∷ test_pattern true CpuMode.par 1
    ∷ test_pattern true CpuMode.par 1
    ∷ test_pattern true CpuMode.par 1
    ∷ test_pattern true CpuMode.par 1
    ∷ test_pattern true CpuMode.par 1
    ∷ test_pattern true CpuMode.par 12
    ∷ test_pattern false CpuMode.one 1
    ∷ []

abbrev pub no_test : TestPattern
no_test = record { enabled = false; cpu_mode = CpuMode.par; stages = 0 }

abbrev pub test_of : Control → ℕ → TestPattern
test_of g num = get_or g.test_list num no_test

abbrev pub sequence_at : Control → ℕ → ℕ
sequence_at g index = get_or g.test_sequence index g.beyond

-- The first part of the loop body, on CPU 0: the start of a run, a pass and a test.
pub begin : Control → State → State
begin g s =
    let run = if s.start_run then record s { pass_num = 0; start_pass = true } else s in
    let pass =
      if run.start_pass
      then record run { test_num_index = 0; test_num = sequence_at g 0; start_test = true }
      else run in
    let test =
      if pass.start_test then record pass { test_stage = 0; rerun_test = true } else pass in
    record test { start_run = false; start_pass = false; start_test = false; rerun_test = false }

-- The loop goes on with a state, or stays in one of its endless loops, which show that the test has
-- passed or failed.
pub data Next : Type 0 where
  running : State → Next
  halted : (passed : Bool) → Next

-- The end of a pass; `max_pass_num` is that variable and `errors` the count of errors.
pub end_pass : ℕ → ℕ → State → Next
end_pass max_pass_num errors s =
    let s' = record s { pass_num = s.pass_num + 1 } in
    let again = record s' { start_pass = true } in
    if s'.dummy_run && (s'.pass_num == num_pass_types)
    then running (record s' { start_run = true; dummy_run = false })
    else if s'.dummy_run
    then running again
    else if errors == 0
    then (if leb max_pass_num s'.pass_num then halted true else running again)
    else halted false

-- The step to the next test.
pub next_test : Control → ℕ → ℕ → State → Next
next_test g max_pass_num errors s =
    let index = s.test_num_index + 1 in
    let s' = record s {
      start_test = true;
      test_num_index = index;
      test_num = sequence_at g index;
    } in
    if ltb s'.test_num num_test_patterns then running s' else end_pass max_pass_num errors s'

abbrev is_seq : CpuMode → Bool
is_seq CpuMode.seq = true
is_seq _ = false

-- Another master takes the test over; the flag tells whether the test is run again if that is not CPU 0.
pub pass_on : Control → ℕ → ℕ → Bool → State → Option ℕ → Option Next
pass_on g max_pass_num errors again s none = none
pass_on g max_pass_num errors again s (some cpu) =
    let s' = record s { master_cpu = cpu } in
    some (
      if again && not (cpu == 0)
      then running (record s' { rerun_test = true })
      else next_test g max_pass_num errors s')

-- The `switch` on `cpu_mode`; `mode` is that of the test.
pub choose_master : Control → ℕ → ℕ → CpuMode → CpuMode → State → Option Next
choose_master g max_pass_num errors CpuMode.par mode s =
    if is_seq mode
    then pass_on g max_pass_num errors true s
        (select_next_master g.is_disabled g.num_available_cpus g.num_available_cpus s.master_cpu)
    else some (next_test g max_pass_num errors s)
choose_master g max_pass_num errors CpuMode.one mode s =
    pass_on g max_pass_num errors false s
      (select_next_master g.is_disabled g.num_available_cpus g.num_available_cpus s.master_cpu)
choose_master g max_pass_num errors CpuMode.seq mode s =
    pass_on g max_pass_num errors true s
      (select_next_master g.is_disabled g.num_available_cpus g.num_available_cpus s.master_cpu)

-- The loop body behind `error_update`.
pub finish_test : Control → ℕ → ℕ → State → Option Next
finish_test g max_pass_num errors s =
    let test = test_of g s.test_num in
    let stage = s.test_stage + 1 in
    if not test.enabled
    then some (next_test g max_pass_num errors s)
    else if ltb stage test.stages
    then some (running (record s { test_stage = stage; rerun_test = true }))
    else choose_master g max_pass_num errors g.cpu_mode test.cpu_mode (record s { test_stage = 0 })

-- The call of `test_all_windows`, unless the test is disabled.
pub calls_of : Control → State → List Call
calls_of g s =
    if (test_of g s.test_num).enabled
    then record {
      pass = s.pass_num;
      test = s.test_num;
      stage = s.test_stage;
      master = s.master_cpu;
    }
      ∷ []
    else []

-- The loop body on CPU 0. `restart` tells whether the configuration has been changed; `none` means that
-- no CPU can become the master.
pub main_step : Control → ℕ → ℕ → Bool → State → List Call × Option Next
main_step g max_pass_num errors restart s =
    let s' = begin g s in
    (
      calls_of g s',
      if restart
          then some (running (record s' { master_cpu = 0; start_run = true; dummy_run = true }))
          else finish_test g max_pass_num errors s',
    )
