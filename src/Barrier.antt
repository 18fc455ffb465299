-- ===== src/Barrier.antt =====
-- lib/barrier.c: the spin barrier, with any number of CPUs that take their steps in any order. Each access
-- to the shared memory is a step, and memory is sequentially consistent. `barrier_halt_wait` is not
-- modelled.
pub mod Count
pub mod Round
pub mod Arrival
pub mod Release
pub mod Passing
pub mod Waking
mod Examples
use memtest86plus.Base.{
  ℕ, zero, suc, ◌+◌, ◌-◌, ◌≤◌, ◌<◌, ◌≡◌, Bool, true, false, if◌then◌else◌, ltb, ◌==◌,
}
use memtest86plus.Base.Family.{update}

-- Where a CPU is in `barrier_spin_wait`: outside; before it sets its flag; before it decrements the
-- count; in the loop that reads its flag; before it resets the count; before it clears the flag of a CPU.
pub data Point : Type 0 where
  outside entering arriving blocked last : Point
  waking : ℕ → Point

-- A CPU, with its flag in `waiting_flags`. How often it has decremented the count and how often it has
-- left the barrier is what the theorems speak of; no step reads it.
pub record Cpu : Type 0 where
  pub point : Point
  pub flag : Bool
  pub arrived : ℕ
  pub passed : ℕ

-- `count`, and the CPUs.
pub record Barrier : Type 0 where
  pub count : ℕ
  pub cpus : ℕ → Cpu

-- The number of the threads that the barrier blocks, and `num_available_cpus`.
pub record Settings : Type 0 where
  pub num_threads : ℕ
  pub num_available_cpus : ℕ

abbrev pub go : Point → Cpu → Cpu
go p c = record c { point = p }

abbrev pub leave : Cpu → Cpu
leave c = record c { point = outside; passed = c.passed + 1 }

abbrev pub arrive : Point → Cpu → Cpu
arrive p c = record c { point = p; arrived = c.arrived + 1 }

abbrev pub set_cpu : Barrier → ℕ → Cpu → Barrier
set_cpu b i c = record b { cpus = update b.cpus i c }

-- The flag of one CPU is cleared.
abbrev pub clear_flag : Barrier → ℕ → Barrier
clear_flag b k = set_cpu b k (record (b.cpus k) { flag = false })

-- The next step of CPU `i`, which is at the point `p`.
pub step_at : Settings → Barrier → ℕ → Point → Barrier
step_at g b i outside =
    if ltb g.num_threads 2
    then set_cpu b i (leave (b.cpus i))
    else set_cpu b i (go entering (b.cpus i))
step_at g b i entering = set_cpu b i (record (b.cpus i) { flag = true; point = arriving })
step_at g b i arriving =
    let count = b.count - 1 in
    if count == 0
    then record (set_cpu b i (arrive last (b.cpus i))) { count = count }
    else record (set_cpu b i (arrive blocked (b.cpus i))) { count = count }
step_at g b i blocked = if (b.cpus i).flag then b else set_cpu b i (leave (b.cpus i))
step_at g b i last = record (set_cpu b i (go (waking 0) (b.cpus i))) { count = g.num_threads }
step_at g b i (waking k) =
    if ltb k g.num_available_cpus
    then (let b' = clear_flag b k in set_cpu b' i (go (waking (k + 1)) (b'.cpus i)))
    else set_cpu b i (leave (b.cpus i))

-- `barrier_reset`, with no CPU in the barrier.
pub reset : Settings → Barrier
reset g = record {
  count = g.num_threads;
  cpus = λ cpu. record { point = outside; flag = false; arrived = 0; passed = 0 };
}

-- The CPUs for which `joins` holds use the barrier, and they take their steps in any order.
pub data Reach (g : Settings) (joins : ℕ → Bool) : Barrier → Type 0 where
  start : Reach g joins (reset g)
  later :
      {b : Barrier}
      → Reach g joins b
      → (i : ℕ) → i < g.num_available_cpus
      → joins i ≡ true
      → Reach g joins (step_at g b i (b.cpus i).point)
