-- ===== src/Barrier/Waking.antt =====
-- No wake-up is lost at the spin barrier of lib/barrier.c.
use memtest86plus.Base.{
  ℕ, suc, ◌≤◌, ◌<◌, ◌≡◌, refl, arith, Bool, true, inl, inr, Bool-cases, ==_iff, ◌==◌,
}
use memtest86plus.Barrier.{blocked, Cpu, Barrier, Settings, Reach}
use memtest86plus.Barrier.Count.{total, total-same}
use memtest86plus.Barrier.Round.{
  Phase, quiet, resetting, clearing, Status, rests, enters, arrives, waits, freed, held, leads,
  member, arrival, IsRound,
}
use memtest86plus.Barrier.Passing.{Reach-Next}

-- The CPU spins on its flag.
pub record Spins (c : Cpu) : Type 0 where
  pub point : c.point ≡ blocked
  pub flag : c.flag ≡ true

module _ {round j : ℕ} {c : Cpu} where
  -- Without a CPU that leads, one that spins has arrived.
  Spins-arrived : Spins c → Status round quiet j c → c.arrived ≡ suc round
  Spins-arrived s (rests p a e m) = let point = s.point in cc
  Spins-arrived s (enters p a e m) = let point = s.point in cc
  Spins-arrived s (arrives p f a e m) = let point = s.point in cc
  Spins-arrived s (waits p f a e m) = a
  Spins-arrived s (freed p f a e m) = let flag = s.flag in cc
  Spins-arrived s (held p f a e h) = absurd (omega arith)
  Spins-arrived s (leads a e led) = absurd (omega arith)

  -- The CPU that leads does not spin.
  resetting-not_Spins : Status round (resetting j) j c → ¬ Spins c
  resetting-not_Spins (rests p a e m) s = omega arith
  resetting-not_Spins (enters p a e m) s = omega arith
  resetting-not_Spins (arrives p f a e m) s = omega arith
  resetting-not_Spins (waits p f a e m) s = omega arith
  resetting-not_Spins (freed p f a e m) s = omega arith
  resetting-not_Spins (held p f a e h) s = h refl
  resetting-not_Spins (leads a e led) s = let point = s.point in let at_last = led.1 in cc

  clearing-not_Spins : {k : ℕ} → Status round (clearing j k) j c → ¬ Spins c
  clearing-not_Spins (rests p a e m) s = m.0 refl
  clearing-not_Spins (enters p a e m) s = m.0 refl
  clearing-not_Spins (arrives p f a e m) s = m.0 refl
  clearing-not_Spins (waits p f a e m) s = m.0 refl
  clearing-not_Spins (freed p f a e m) s = m.0 refl
  clearing-not_Spins (held p f a e h) s = h.0 refl
  clearing-not_Spins (leads a e led) s = let point = s.point in let at_waking = led.1 in cc

-- Every CPU that uses the barrier spins on its flag.
abbrev pub AllSpin : Settings → (ℕ → Bool) → Barrier → Type 0
AllSpin g joins b = (j : ℕ) → j < g.num_available_cpus → joins j ≡ true → Spins (b.cpus j)

module _ (g : Settings) (joins : ℕ → Bool) (several : 2 ≤ g.num_threads)
    (all : total (member joins) g.num_available_cpus ≡ g.num_threads) where
  arrived-member :
      (round j : ℕ) (c : Cpu)
      → (joins j ≡ true → c.arrived ≡ suc round)
      → arrival round joins j c ≡ member joins j
  arrived-member round j c h = elim (Bool-cases (joins j)) [
    | inl e ↦ let here : (c.arrived == suc round) ≡ true = (==_iff _ _).1 (h e) in rw (e, here) refl
    | inr e ↦ rw e refl
  ]

  IsRound-awake :
      {round : ℕ} {b : Barrier} (ph : Phase) → IsRound g joins round ph b → ¬ AllSpin g joins b
  IsRound-awake {round} {b} quiet r spin = omega (
    arith,
    r.count,
    r.open_count,
    all,
    total-same (λ j. arrival round joins j (b.cpus j)) (member joins) g.num_available_cpus
        (λ j l.
          arrived-member round j (b.cpus j) (λ m. Spins-arrived (spin j l m) (r.status j l m))),
  )
  IsRound-awake (resetting w) r spin =
      let (l, m) = r.led in resetting-not_Spins (r.status w l m) (spin w l m)
  IsRound-awake (clearing w k) r spin =
      let (l, m) = r.led in clearing-not_Spins (r.status w l m) (spin w l m)

  -- When the barrier blocks as many CPUs as use it, at least two, then in no state that these reach do
  -- all of them spin on flags that are set: no wake-up is lost, and the barrier does not deadlock.
  pub Reach-awake : {b : Barrier} → Reach g joins b → ¬ AllSpin g joins b
  Reach-awake reached =
      let (round, ph, r) = Reach-Next g joins several all reached in IsRound-awake ph r
