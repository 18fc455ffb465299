-- ===== src/Control/Pass.antt =====
-- A pass of `main` of app/main.c: every enabled test is run once in each of its stages, in the order of
-- the sequence.
use memtest86plus.Base.{
  ℕ, zero, suc, ◌+◌, ◌-◌, ◌<◌, ◌≡◌, refl, ap, ◌∙◌, sym, arith, Bool, true, false, Bool-cases, List,
  [], ◌∷◌, ◌++◌, some, ltb, if◌then◌else◌, inl, inr, get_or, length,
}
use mathlib.Core.Path.{subst}
use mathlib.Core.List.{append-nil, append_assoc}
use memtest86plus.Config.{CpuMode}
use memtest86plus.Control.{
  Control, State, Call, Next, running, halted, test_of, sequence_at, begin, next_test,
  choose_master, finish_test, calls_of, main_step, num_test_patterns, is_seq,
}

-- A state leads to another one by some rounds of the loop in which nothing is restarted, with these calls
-- of `test_all_windows`.
pub data Runs (g : Control) (max_pass_num errors : ℕ) : State → List Call → Next → Type 0 where
  here : {s : State} → Runs g max_pass_num errors s [] (running s)
  last :
      {s : State} {calls : List Call} {n : Next}
      → main_step g max_pass_num errors false s ≡ (calls, some n)
      → Runs g max_pass_num errors s calls n
  round :
      {s s' : State} {calls later : List Call} {n : Next}
      → main_step g max_pass_num errors false s ≡ (calls, some (running s'))
      → Runs g max_pass_num errors s' later n
      → Runs g max_pass_num errors s (calls ++ later) n

-- A state in which nothing is about to start.
abbrev pub settled : Bool → ℕ → ℕ → ℕ → ℕ → ℕ → State
settled dummy pass index num stage master = record {
  start_run = false;
  start_pass = false;
  start_test = false;
  rerun_test = false;
  dummy_run = dummy;
  pass_num = pass;
  test_num_index = index;
  test_num = num;
  test_stage = stage;
  master_cpu = master;
}

-- The calls for the stages of a test from `stage` on, `left` and one more.
unfoldable pub stage_calls : ℕ → ℕ → ℕ → ℕ → ℕ → List Call
stage_calls pass num master stage zero =
    record { pass = pass; test = num; stage = stage; master = master } ∷ []
stage_calls pass num master stage (suc left) =
    record { pass = pass; test = num; stage = stage; master = master }
    ∷ stage_calls pass num master (stage + 1) left

-- The calls for a test: one for each of its stages, but one at least, unless it is disabled.
abbrev pub test_calls : Control → ℕ → ℕ → ℕ → List Call
test_calls g pass master num =
    if (test_of g num).enabled
    then stage_calls pass num master 0 ((test_of g num).stages - 1)
    else []

unfoldable pub pass_calls : Control → ℕ → ℕ → List ℕ → List Call
pass_calls g pass master [] = []
pass_calls g pass master (num ∷ nums) =
    test_calls g pass master num ++ pass_calls g pass master nums

abbrev pub last_of : ℕ → List ℕ → ℕ
last_of num [] = num
last_of num (num' ∷ nums) = last_of num' nums

-- The numbers of tests.
abbrev pub AreTests : List ℕ → Type 0
AreTests [] = Unit {0}
AreTests (num ∷ nums) = (num < num_test_patterns) × AreTests nums

module _ (g : Control) (max_pass_num errors : ℕ) where
  Runs-append :
      {s s' : State} {first later : List Call} {m n : Next}
      → Runs g max_pass_num errors s first m
      → m ≡ running s'
      → Runs g max_pass_num errors s' later n
      → Runs g max_pass_num errors s (first ++ later) n
  Runs-append {later = later} {n = n} here e r =
      subst (λ (x : Next). Runs g max_pass_num errors (state_of x) later n) (sym e) r
    where
      state_of : Next → State
      state_of (running x) = x
      state_of (halted passed) = settled false 0 0 0 0 0
  Runs-append {later = later} {n = n} (last {s = s} {calls = calls} step) e r =
      round (rw e at step) r
  Runs-append {later = later} (round {calls = calls} {later = middle} step r) e r' =
      rw (append_assoc calls middle later) (round step (Runs-append r e r'))

  choose_par :
      (mode own : CpuMode) (s : State)
      → own ≡ CpuMode.par
      → is_seq mode ≡ false
      → choose_master g max_pass_num errors own mode s ≡ some (next_test g max_pass_num errors s)
  unfolding choose_master
  choose_par mode own s e plain = rw (e, plain) refl

  -- Behind index `index` the sequence goes on with these tests.
  abbrev Continues : ℕ → List ℕ → Type 0
  Continues index [] = Unit {0}
  Continues index (num ∷ nums) =
      (sequence_at g (index + 1) ≡ num) × (num < num_test_patterns) × Continues (index + 1) nums

  module _ (par : g.cpu_mode ≡ CpuMode.par)
      (plain : (num : ℕ) → is_seq (test_of g num).cpu_mode ≡ false) (dummy : Bool)
      (pass master : ℕ) where
    -- A round in the midst of a test, and its last one.
    stage_round :
        (s : State) (index num stage : ℕ)
        → begin g s ≡ settled dummy pass index num stage master
        → (test_of g num).enabled ≡ true
        → ltb (stage + 1) (test_of g num).stages ≡ true
        → main_step g max_pass_num errors false s ≡ (
          record { pass = pass; test = num; stage = stage; master = master } ∷ [],
          some (
              running
                (record (settled dummy pass index num (stage + 1) master) { rerun_test = true })),
        )
    unfolding main_step calls_of finish_test
    stage_round s index num stage start on more = rw (start, on, more) refl

    last_round :
        (s : State) (index num stage : ℕ)
        → begin g s ≡ settled dummy pass index num stage master
        → (test_of g num).enabled ≡ true
        → ltb (stage + 1) (test_of g num).stages ≡ false
        → main_step g max_pass_num errors false s ≡ (
          record { pass = pass; test = num; stage = stage; master = master } ∷ [],
          some (next_test g max_pass_num errors (settled dummy pass index num 0 master)),
        )
    unfolding main_step calls_of finish_test
    last_round s index num stage start on done =
        rw
          (
            start,
            on,
            done,
            choose_par (test_of g num).cpu_mode g.cpu_mode (settled dummy pass index num 0 master)
                par (plain num),
          )
          refl

    stages-Runs :
        (left : ℕ) (s : State) (index num stage : ℕ)
        → begin g s ≡ settled dummy pass index num stage master
        → (test_of g num).enabled ≡ true
        → (test_of g num).stages - (stage + 1) ≡ left
        → Runs g max_pass_num errors s
            (stage_calls pass num master stage left)
            (next_test g max_pass_num errors (settled dummy pass index num 0 master))
    unfolding stage_calls begin
    stages-Runs zero s index num stage start on e =
        last (last_round s index num stage start on (ground (arith, e)))
    stages-Runs (suc left) s index num stage start on e =
        round (stage_round s index num stage start on (ground (arith, e))) (
          stages-Runs left
            (record (settled dummy pass index num (stage + 1) master) { rerun_test = true }) index
            num (stage + 1) refl on (omega (arith, e)))

    test-Runs :
        (s : State) (index num : ℕ)
        → begin g s ≡ settled dummy pass index num 0 master
        → Runs g max_pass_num errors s
            (test_calls g pass master num)
            (next_test g max_pass_num errors (settled dummy pass index num 0 master))
    unfolding main_step calls_of finish_test
    test-Runs s index num start = elim (Bool-cases (test_of g num).enabled) [
      | inl on ↦
          rw on (stages-Runs ((test_of g num).stages - 1) s index num 0 start on (omega arith))
      | inr off ↦ rw off (last (rw (start, off) refl))
    ]

    -- Where the loop is behind the last test: `next_test` takes the index after it.
    abbrev ends : ℕ → ℕ → Next
    ends index num = next_test g max_pass_num errors (settled dummy pass index num 0 master)

    next_more :
        (index num num' : ℕ)
        → sequence_at g (index + 1) ≡ num'
        → num' < num_test_patterns
        → next_test g max_pass_num errors (settled dummy pass index num 0 master)
          ≡ running (record (settled dummy pass (index + 1) num' 0 master) { start_test = true })
    unfolding next_test
    next_more index num num' e small =
        let go : ltb num' num_test_patterns ≡ true = ground (arith, small) in rw (e, go) refl

    tests-Runs :
        (nums : List ℕ) (s : State) (index num finish : ℕ)
        → begin g s ≡ settled dummy pass index num 0 master
        → Continues index nums
        → finish ≡ index + length nums
        → Runs g max_pass_num errors s
            (pass_calls g pass master (num ∷ nums))
            (ends finish (last_of num nums))
    unfolding pass_calls begin
    tests-Runs [] s index num finish start over e =
        let to : finish ≡ index = omega (arith, e) in
        rw (append-nil (test_calls g pass master num), to) (test-Runs s index num start)
    tests-Runs (num' ∷ nums) s index num finish start (at, small, more) e =
        let s' = record (settled dummy pass (index + 1) num' 0 master) { start_test = true } in
        Runs-append (test-Runs s index num start) (next_more index num num' at small)
          (tests-Runs nums s' (index + 1) num' finish refl more (omega (arith, e)))

  -- What comes behind a test of the sequence.
  seq-Continues :
      (nums : List ℕ) (index : ℕ)
      → ((j : ℕ) → sequence_at g (index + 1 + j) ≡ get_or nums j g.beyond)
      → AreTests nums
      → Continues index nums
  seq-Continues [] index at small = tt
  seq-Continues (num ∷ nums) index at (less, small) = (
    ap (sequence_at g) (omega arith) ∙ at 0,
    less,
    seq-Continues nums (index + 1) (λ j. ap (sequence_at g) (omega arith) ∙ at (suc j)) small,
  )

  -- If the CPUs run in parallel, no test is a sequential one, and every number of the sequence is that of
  -- a test: from the start of a pass the loop calls `test_all_windows` once for each stage of each enabled
  -- test, in the order of the sequence, and for nothing else, and comes to the call of `next_test` behind
  -- the last test of the sequence, whatever lies behind the end of the array.
  pub pass-Runs :
      (num : ℕ) (nums : List ℕ) (s : State)
      → g.cpu_mode ≡ CpuMode.par
      → ((num : ℕ) → is_seq (test_of g num).cpu_mode ≡ false)
      → g.test_sequence ≡ num ∷ nums
      → AreTests nums
      → s.start_run ≡ false
      → s.start_pass ≡ true
      → Runs g max_pass_num errors s (pass_calls g s.pass_num s.master_cpu (num ∷ nums)) (
          next_test g max_pass_num errors
            (settled s.dummy_run s.pass_num (length nums) (last_of num nums) 0 s.master_cpu))
  unfolding begin
  pass-Runs num nums s par plain seq small no_run starts =
      let start : begin g s ≡ settled s.dummy_run s.pass_num 0 num 0 s.master_cpu =
        rw (no_run, starts, seq) refl in
      let at : (j : ℕ) → sequence_at g (0 + 1 + j) ≡ get_or nums j g.beyond =
        λ j. (let to : 0 + 1 + j ≡ suc j = omega arith in rw (seq, to) refl) in
      tests-Runs par plain s.dummy_run s.pass_num s.master_cpu nums s 0 num (length nums) start
        (seq-Continues nums 0 at small) (omega arith)
