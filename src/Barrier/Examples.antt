-- ===== src/Barrier/Examples.antt =====
-- The spin barrier of lib/barrier.c with two of three CPUs: one has passed, the other one has arrived.
use memtest86plus.Base.{ℕ, ◌≤◌, ◌≡◌, refl, arith, Bool, ◌==◌, not}
use memtest86plus.Barrier.{Barrier, Settings, step_at, reset, Reach}
use memtest86plus.Barrier.Passing.{passed-le-arrived}
use memtest86plus.Barrier.Waking.{AllSpin, Reach-awake}

abbrev two_of_three : Settings
two_of_three = record { num_threads = 2; num_available_cpus = 3 }

-- The CPUs 0 and 2.
abbrev joins : ℕ → Bool
joins j = not (j == 1)

abbrev step : Barrier → ℕ → Barrier
step b i = step_at two_of_three b i (b.cpus i).point

-- The CPU 0 arrives and waits, then CPU 2 arrives.
abbrev both_arrived : Barrier
both_arrived = step (step (step (step (step (step (reset two_of_three) 0) 0) 0) 2) 2) 2

-- CPU 2 resets the count and clears the flag of CPU 0, which leaves.
abbrev one_passed : Barrier
one_passed = step (step (step both_arrived 2) 2) 0

passes :
    ((one_passed.cpus 0).passed ≡ 1)
    × ((one_passed.cpus 2).passed ≡ 0)
    × (one_passed.count ≡ 2)
    × ((one_passed.cpus 2).arrived ≡ 1)
unfolding reset step_at native.Mathlib.Decide.ℕ_discrete
passes = (refl, refl, refl, refl)

one_passed-Reach : Reach two_of_three joins one_passed
one_passed-Reach =
    Reach.later
      (Reach.later
        (Reach.later
          (Reach.later
            (Reach.later
              (Reach.later
                (Reach.later
                  (Reach.later (Reach.later Reach.start 0 (omega arith) refl) 0 (omega arith) refl)
                  0 (omega arith) refl)
                2 (omega arith) refl)
              2 (omega arith) refl)
            2 (omega arith) refl)
          2 (omega arith) refl)
        2 (omega arith) refl)
      0 (omega arith) refl

passed-le-arrived_example : (one_passed.cpus 0).passed ≤ (one_passed.cpus 2).arrived
passed-le-arrived_example =
    passed-le-arrived two_of_three joins (omega arith) refl 0 2 one_passed-Reach (omega arith) refl
      (omega arith) refl

Reach-awake_example : ¬ AllSpin two_of_three joins one_passed
Reach-awake_example = Reach-awake two_of_three joins (omega arith) refl one_passed-Reach
