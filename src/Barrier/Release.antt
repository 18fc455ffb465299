-- ===== src/Barrier/Release.antt =====
-- The release of the CPUs at the spin barrier of lib/barrier.c by the one that arrived last.
use memtest86plus.Base.{
  ℕ, suc, ◌+◌, ◌≤◌, ◌<◌, ◌≡◌, ◌≢◌, refl, sym, ◌∙◌, ap, arith, Bool, true, false, ltb, inl, inr,
  Bool-cases,
}
use memtest86plus.Base.Family.{update_cases}
use memtest86plus.Barrier.{
  last, waking, Cpu, Barrier, Settings, set_cpu, go, leave, clear_flag, step_at,
}
use memtest86plus.Barrier.Round.{
  quiet, resetting, clearing, Status, rests, freed, held, leads, Status-phase, IsRound, Next,
  arrivals-same, arrivals-ext, enters, arrives, waits,
}

-- The CPU whose flag is cleared next is one that is still blocked.
cleared-freed :
    {round w k : ℕ} {c : Cpu}
    → w ≢ k
    → Status round (clearing w k) k c
    → Status round (clearing w (k + 1)) k (record c { flag = false })
cleared-freed ne (rests p a b m) = absurd (omega (arith, m.1))
cleared-freed ne (enters p a b m) = absurd (omega (arith, m.1))
cleared-freed ne (arrives p f a b m) = absurd (omega (arith, m.1))
cleared-freed ne (waits p f a b m) = absurd (omega (arith, m.1))
cleared-freed ne (freed p f a b m) = absurd (omega (arith, m.1))
cleared-freed ne (held p f a b h) = freed p refl a b (ne, omega arith)
cleared-freed ne (leads a b led) = absurd (ne led.0)

module _ (g : Settings) (joins : ℕ → Bool) {round : ℕ} {b : Barrier} (i : ℕ)
    (l : i < g.num_available_cpus) (at_round : (b.cpus i).arrived ≡ round)
    (passed : suc (b.cpus i).passed ≡ round) where
  -- The count is reset.
  pub reset-Next :
      (w : ℕ)
      → w ≡ i
      → 2 ≤ g.num_threads
      → IsRound g joins round (resetting w) b
      → Next g joins (step_at g b i last)
  unfolding step_at
  reset-Next w e several r = (
    round,
    clearing w 0,
    record {
      status =
          update_cases b.cpus i (go (waking 0) (b.cpus i))
            (λ j c. j < g.num_available_cpus → joins j ≡ true → Status round (clearing w 0) j c)
            (λ l' m. leads at_round passed (e, refl))
            (λ j ne l' m.
              Status-phase (resetting w) (clearing w 0) (λ x. absurd (omega arith))
                (λ x. (x, omega arith)) (λ x. absurd (ne (sym e ∙ x.0))) (r.status j l' m));
      led = r.led;
      count = omega (arith, r.count, arrivals-same g joins r i (go (waking 0) (b.cpus i)) refl);
      open_count = omega (arith, several);
    },
  )

  module _ (w k : ℕ) (e : w ≡ i) (r : IsRound g joins round (clearing w k) b) where
    abbrev cleared : Barrier
    cleared = clear_flag b k

    cleared-arrived : (j : ℕ) → (cleared.cpus j).arrived ≡ (b.cpus j).arrived
    cleared-arrived j =
        update_cases b.cpus k (record (b.cpus k) { flag = false })
          (λ j c. c.arrived ≡ (b.cpus j).arrived) refl (λ j ne. refl) j

    cleared-passed : (j : ℕ) → (cleared.cpus j).passed ≡ (b.cpus j).passed
    cleared-passed j =
        update_cases b.cpus k (record (b.cpus k) { flag = false })
          (λ j c. c.passed ≡ (b.cpus j).passed) refl (λ j ne. refl) j

    -- The other CPUs, once the flag of `k` is cleared.
    cleared-Status :
        (j : ℕ)
        → i ≢ j
        → j < g.num_available_cpus
        → joins j ≡ true
        → Status round (clearing w (k + 1)) j (cleared.cpus j)
    cleared-Status j =
        update_cases b.cpus k (record (b.cpus k) { flag = false })
          (λ j c.
            i ≢ j
            → j < g.num_available_cpus
            → joins j ≡ true
            → Status round (clearing w (k + 1)) j c)
          (λ ne l' m. cleared-freed (λ e'. ne (sym e ∙ e')) (r.status k l' m))
          (λ j other ne l' m.
            Status-phase (clearing w k) (clearing w (k + 1)) (λ x. (x.0, omega (arith, x.1)))
              (λ x. (x.0, omega (arith, x.1, other))) (λ x. absurd (ne (sym e ∙ x.0)))
              (r.status j l' m))
          j

    clear-IsRound :
        IsRound g joins round
          (clearing w (k + 1))
          (set_cpu cleared i (go (waking (k + 1)) (cleared.cpus i)))
    clear-IsRound = record {
      status =
          update_cases cleared.cpus i (go (waking (k + 1)) (cleared.cpus i))
            (λ j c.
              j < g.num_available_cpus → joins j ≡ true → Status round (clearing w (k + 1)) j c)
            (λ l' m.
              leads (cleared-arrived i ∙ at_round) (ap suc (cleared-passed i) ∙ passed) (e, refl))
            cleared-Status;
      led = r.led;
      count =
          ap (λ n. b.count + n)
            (arrivals-ext round joins g b (set_cpu cleared i (go (waking (k + 1)) (cleared.cpus i)))
              (update_cases cleared.cpus i (go (waking (k + 1)) (cleared.cpus i))
                (λ j c. c.arrived ≡ (b.cpus j).arrived) (cleared-arrived i)
                (λ j ne. cleared-arrived j)))
          ∙ r.count;
      open_count = r.open_count;
    }

    -- All flags are cleared.
    leave-IsRound :
        g.num_available_cpus ≤ k → IsRound g joins round quiet (set_cpu b i (leave (b.cpus i)))
    leave-IsRound done = record {
      status =
          update_cases b.cpus i (leave (b.cpus i))
            (λ j c. j < g.num_available_cpus → joins j ≡ true → Status round quiet j c)
            (λ l' m. rests refl at_round (omega arith) (omega arith))
            (λ j ne l' m.
              Status-phase (clearing w k) quiet (λ x. omega arith)
                (λ x. absurd (omega (arith, x.1))) (λ x. absurd (ne (sym e ∙ x.0)))
                (r.status j l' m));
      led = omega arith;
      count = ap (λ n. b.count + n) (arrivals-same g joins r i (leave (b.cpus i)) refl) ∙ r.count;
      open_count = r.open_count;
    }

    pub waking-Next : Next g joins (step_at g b i (waking k))
    unfolding step_at
    waking-Next = elim (Bool-cases (ltb k g.num_available_cpus)) [
      | inl more ↦ rw more (round, clearing w (k + 1), clear-IsRound)
      | inr done ↦ rw done (round, quiet, leave-IsRound (ground (arith, done)))
    ]
