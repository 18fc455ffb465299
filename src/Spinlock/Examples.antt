-- ===== src/Spinlock/Examples.antt =====
-- The spin lock of lib/spinlock.h in a state that two CPUs reach: one holds it, the other one spins.
use memtest86plus.Base.{true}
use memtest86plus.Base.Family.{update}
use memtest86plus.Spinlock.{System, Reach, Step, Call, access, idle, swapping, spinning, holding}
use memtest86plus.Spinlock.Exclusion.{IsExclusive, Reach-IsExclusive}

abbrev held : System
held = record {
  lock = true;
  point =
      update (update (update (update (λ cpu. idle) 0 swapping) 1 swapping) 1 holding) 0 spinning;
}

held-Reach : Reach held
unfolding access native.Mathlib.Decide.ℕ_discrete
held-Reach =
    Reach.later
      (Reach.later
        (Reach.later (Reach.later Reach.start (Step.calls 0 Call.spin_lock))
          (Step.calls 1 Call.spin_lock))
        (Step.accesses 1))
      (Step.accesses 0)

Reach-IsExclusive_example : IsExclusive held
Reach-IsExclusive_example = Reach-IsExclusive held-Reach
