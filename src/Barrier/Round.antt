-- ===== src/Barrier/Round.antt =====
-- The rounds of the spin barrier of lib/barrier.c: in each round every CPU that uses the barrier arrives
-- once and leaves once.
use memtest86plus.Base.{
  ℕ, suc, ◌+◌, ◌≤◌, ◌<◌, ◌≡◌, ◌≢◌, refl, ◌∙◌, ap, arith, Bool, true, false, ◌==◌, ◌&&◌,
  if◌then◌else◌,
}
use memtest86plus.Base.Family.{update_cases}
use memtest86plus.Barrier.{
  Point, outside, entering, arriving, blocked, last, waking, Cpu, Barrier, Settings, set_cpu,
}
use memtest86plus.Barrier.Count.{total, total-same}

-- Whether a CPU has arrived last and has yet to reset the count, or to clear the flags from that of one
-- CPU on.
pub data Phase : Type 0 where
  quiet : Phase
  resetting : ℕ → Phase
  clearing : ℕ → ℕ → Phase

-- A CPU that is released, or was never blocked, in this round.
abbrev pub Moves : Phase → ℕ → Type 0
Moves quiet j = 0 < 1
Moves (resetting w) j = 1 < 0
Moves (clearing w k) j = (w ≢ j) × (j < k)

-- A CPU that is still blocked from the round before.
abbrev pub Holds : Phase → ℕ → Type 0
Holds quiet j = 1 < 0
Holds (resetting w) j = w ≢ j
Holds (clearing w k) j = (w ≢ j) × (k ≤ j)

-- The CPU that releases the others.
abbrev pub Leads : Phase → ℕ → Point → Type 0
Leads quiet j p = 1 < 0
Leads (resetting w) j p = (w ≡ j) × (p ≡ last)
Leads (clearing w k) j p = (w ≡ j) × (p ≡ waking k)

-- What the CPU `j` is doing when each CPU has arrived `round` times, or once more.
pub data Status (round : ℕ) (ph : Phase) (j : ℕ) (c : Cpu) : Type 0 where
  rests :
      c.point ≡ outside → c.arrived ≡ round → c.passed ≡ round → Moves ph j → Status round ph j c
  enters :
      c.point ≡ entering → c.arrived ≡ round → c.passed ≡ round → Moves ph j → Status round ph j c
  arrives :
      c.point ≡ arriving
      → c.flag ≡ true
      → c.arrived ≡ round
      → c.passed ≡ round
      → Moves ph j
      → Status round ph j c
  waits :
      c.point ≡ blocked
      → c.flag ≡ true
      → c.arrived ≡ suc round
      → c.passed ≡ round
      → Moves ph j
      → Status round ph j c
  freed :
      c.point ≡ blocked
      → c.flag ≡ false
      → c.arrived ≡ round
      → suc c.passed ≡ round
      → Moves ph j
      → Status round ph j c
  held :
      c.point ≡ blocked
      → c.flag ≡ true
      → c.arrived ≡ round
      → suc c.passed ≡ round
      → Holds ph j
      → Status round ph j c
  leads : c.arrived ≡ round → suc c.passed ≡ round → Leads ph j c.point → Status round ph j c

-- 1 for a CPU that uses the barrier, and for one that has arrived in the round as well.
abbrev pub member : (ℕ → Bool) → ℕ → ℕ
member joins j = if joins j then 1 else 0

abbrev pub arrival : ℕ → (ℕ → Bool) → ℕ → Cpu → ℕ
arrival round joins j c = if joins j && (c.arrived == suc round) then 1 else 0

-- The count that is left, and the arrivals.
abbrev pub due : Settings → Phase → ℕ
due g quiet = g.num_threads
due g (resetting w) = 0
due g (clearing w k) = g.num_threads

abbrev pub arrivals : ℕ → (ℕ → Bool) → Settings → Barrier → ℕ
arrivals round joins g b = total (λ j. arrival round joins j (b.cpus j)) g.num_available_cpus

-- Arrivals are still missing, unless the count is yet to be reset.
abbrev pub IsOpen : Phase → Barrier → Type 0
IsOpen quiet b = 0 < b.count
IsOpen (resetting w) b = 0 < 1
IsOpen (clearing w k) b = 0 < b.count

-- The CPU that leads uses the barrier.
abbrev pub IsLed : Settings → (ℕ → Bool) → Phase → Type 0
IsLed g joins quiet = 0 < 1
IsLed g joins (resetting w) = (w < g.num_available_cpus) × (joins w ≡ true)
IsLed g joins (clearing w k) = (w < g.num_available_cpus) × (joins w ≡ true)

pub record IsRound (g : Settings) (joins : ℕ → Bool) (round : ℕ) (ph : Phase) (b : Barrier)
    : Type 0 where
  pub status : (j : ℕ) → j < g.num_available_cpus → joins j ≡ true → Status round ph j (b.cpus j)
  pub led : IsLed g joins ph
  pub count : b.count + arrivals round joins g b ≡ due g ph
  pub open_count : IsOpen ph b

module _ {round : ℕ} {j : ℕ} {c : Cpu} where
  -- The same status in another phase.
  pub Status-phase :
      (ph ph' : Phase)
      → (Moves ph j → Moves ph' j)
      → (Holds ph j → Holds ph' j)
      → (Leads ph j c.point → Leads ph' j c.point)
      → Status round ph j c
      → Status round ph' j c
  Status-phase ph ph' m h l (rests p a b x) = rests p a b (m x)
  Status-phase ph ph' m h l (enters p a b x) = enters p a b (m x)
  Status-phase ph ph' m h l (arrives p f a b x) = arrives p f a b (m x)
  Status-phase ph ph' m h l (waits p f a b x) = waits p f a b (m x)
  Status-phase ph ph' m h l (freed p f a b x) = freed p f a b (m x)
  Status-phase ph ph' m h l (held p f a b x) = held p f a b (h x)
  Status-phase ph ph' m h l (leads a b x) = leads a b (l x)

  -- A CPU has left the barrier at most `round` times, and has arrived at least as often.
  pub Status-passed : (ph : Phase) → Status round ph j c → (c.passed ≤ round) × (round ≤ c.arrived)
  Status-passed ph (rests p a b x) = (omega arith, omega arith)
  Status-passed ph (enters p a b x) = (omega arith, omega arith)
  Status-passed ph (arrives p f a b x) = (omega arith, omega arith)
  Status-passed ph (waits p f a b x) = (omega arith, omega arith)
  Status-passed ph (freed p f a b x) = (omega arith, omega arith)
  Status-passed ph (held p f a b x) = (omega arith, omega arith)
  Status-passed ph (leads a b x) = (omega arith, omega arith)

  -- A CPU that has arrived in a round is blocked when the last one, `w`, ends the round.
  pub waits-held :
      (ph : Phase) (w : ℕ)
      → w ≢ j
      → c.arrived ≡ suc round
      → Status round ph j c
      → Status (suc round) (resetting w) j c
  waits-held ph w ne e (rests p a b x) = absurd (omega arith)
  waits-held ph w ne e (enters p a b x) = absurd (omega arith)
  waits-held ph w ne e (arrives p f a b x) = absurd (omega arith)
  waits-held ph w ne e (waits p f a b x) = held p f a (omega arith) ne
  waits-held ph w ne e (freed p f a b x) = absurd (omega arith)
  waits-held ph w ne e (held p f a b x) = absurd (omega arith)
  waits-held ph w ne e (leads a b x) = absurd (omega arith)

-- The new state and its round, after a step.
abbrev pub Next : Settings → (ℕ → Bool) → Barrier → Type 0
Next g joins b = (round : ℕ) × (ph : Phase) × IsRound g joins round ph b

pub arrivals-ext :
    (round : ℕ) (joins : ℕ → Bool) (g : Settings) (b b' : Barrier)
    → ((j : ℕ) → (b'.cpus j).arrived ≡ (b.cpus j).arrived)
    → arrivals round joins g b' ≡ arrivals round joins g b
arrivals-ext round joins g b b' h =
    total-same (λ j. arrival round joins j (b'.cpus j)) (λ j. arrival round joins j (b.cpus j))
      g.num_available_cpus (λ j l. rw (h j) refl)

step-IsOpen : (ph : Phase) (b : Barrier) (i : ℕ) (c : Cpu) → IsOpen ph b → IsOpen ph (set_cpu b i c)
step-IsOpen quiet b i c h = h
step-IsOpen (resetting w) b i c h = h
step-IsOpen (clearing w k) b i c h = h

-- The step of one CPU.
module _ (g : Settings) (joins : ℕ → Bool) {round : ℕ} {ph : Phase} {b : Barrier}
    (r : IsRound g joins round ph b) (i : ℕ) where
  pub arrivals-same :
      (c : Cpu)
      → c.arrived ≡ (b.cpus i).arrived
      → arrivals round joins g (set_cpu b i c) ≡ arrivals round joins g b
  arrivals-same c e =
      arrivals-ext round joins g b (set_cpu b i c)
        (update_cases b.cpus i c (λ j c'. c'.arrived ≡ (b.cpus j).arrived) e (λ j ne. refl))

  -- A step that no count sees.
  pub step-IsRound :
      (c : Cpu)
      → c.arrived ≡ (b.cpus i).arrived
      → Status round ph i c
      → IsRound g joins round ph (set_cpu b i c)
  step-IsRound c e s = record {
    status =
        update_cases b.cpus i c
          (λ j c'. j < g.num_available_cpus → joins j ≡ true → Status round ph j c') (λ l m. s)
          (λ j ne. r.status j);
    led = r.led;
    count = ap (λ n. b.count + n) (arrivals-same c e) ∙ r.count;
    open_count = step-IsOpen ph b i c r.open_count;
  }
