-- ===== src/Spinlock.antt =====
-- lib/spinlock.h: the spin lock, with any number of CPUs that take their steps in any order. The lock is
-- not NULL, and memory is sequentially consistent: the barriers and pauses of the CPU are no steps.
pub mod Exclusion
mod Examples
use memtest86plus.Base.{ℕ, Bool, true, false, ◌≡◌}
use memtest86plus.Base.Family.{update}

-- What a CPU is about to do: nothing with the lock; the swap of `spin_lock`, its read in the inner
-- loop; the swap of `spin_trylock`; the read of `spin_wait`; what the lock protects; the write of
-- `spin_unlock`.
pub data Point : Type 0 where
  idle swapping spinning trying waiting holding unlocking : Point

-- The next access to the lock, if the CPU is at one: the new value of the lock, and where it goes.
pub access : Bool → Point → Bool × Point
access true swapping = (true, spinning)
access false swapping = (true, holding)
access true spinning = (true, spinning)
access false spinning = (false, swapping)
access true trying = (true, idle)
access false trying = (true, holding)
access true waiting = (true, waiting)
access false waiting = (false, idle)
access lock unlocking = (false, idle)
access lock idle = (lock, idle)
access lock holding = (lock, holding)

-- The calls of a client that unlocks only what it has locked.
pub data Call : Point → Point → Type 0 where
  spin_lock : Call idle swapping
  spin_trylock : Call idle trying
  spin_wait : Call idle waiting
  spin_unlock : Call holding unlocking

pub record System : Type 0 where
  pub lock : Bool
  pub point : ℕ → Point

pub data Step (s : System) : System → Type 0 where
  accesses :
      (cpu : ℕ)
      → Step s (record {
        lock = (access s.lock (s.point cpu)).0;
        point = update s.point cpu (access s.lock (s.point cpu)).1;
      })
  calls :
      (cpu : ℕ) {p : Point}
      → Call (s.point cpu) p
      → Step s (record s { point = update s.point cpu p })

-- `spin_unlock` initialises the lock.
abbrev pub first : System
first = record { lock = false; point = λ cpu. idle }

pub data Reach : System → Type 0 where
  start : Reach first
  later : {s t : System} → Reach s → Step s t → Reach t
