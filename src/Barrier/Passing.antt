-- ===== src/Barrier/Passing.antt =====
-- What the spin barrier of lib/barrier.c promises: no CPU passes before all have arrived.
use memtest86plus.Base.{
  ℕ, suc, ◌≤◌, ◌<◌, ◌≡◌, refl, ap, arith, Bool, true, false, ltb, if◌then◌else◌,
}
use memtest86plus.Barrier.{
  Point, outside, entering, arriving, Barrier, Settings, set_cpu, go, leave, step_at, reset, Reach,
}
use memtest86plus.Barrier.Count.{total, total-zero}
use memtest86plus.Barrier.Round.{
  Phase, quiet, resetting, clearing, Status, rests, enters, arrives, waits, freed, held, leads,
  Leads, member, IsRound, Next, step-IsRound, Status-passed, arrival,
}
use memtest86plus.Barrier.Arrival.{arriving-Next, arrival-zero}
use memtest86plus.Barrier.Release.{reset-Next, waking-Next}

module _ (g : Settings) (joins : ℕ → Bool) (several : 2 ≤ g.num_threads)
    (all : total (member joins) g.num_available_cpus ≡ g.num_threads) where
  module _ {round : ℕ} {b : Barrier} (i : ℕ) (l : i < g.num_available_cpus)
      (mine : joins i ≡ true) where
    outside-Next :
        (ph : Phase)
        → IsRound g joins round ph b
        → Status round ph i (go entering (b.cpus i))
        → Next g joins (step_at g b i outside)
    unfolding step_at
    outside-Next ph r s =
        let enough : ltb g.num_threads 2 ≡ false = ground (arith, several) in
        rw enough (round, ph, step-IsRound g joins r i (go entering (b.cpus i)) refl s)

    leads-Next :
        (ph : Phase) (p : Point)
        → Leads ph i p
        → (b.cpus i).arrived ≡ round
        → suc (b.cpus i).passed ≡ round
        → IsRound g joins round ph b
        → Next g joins (step_at g b i p)
    leads-Next quiet p led a e r = absurd (omega arith)
    leads-Next (resetting w) p (mine_it_is, at_last) a e r =
        rw at_last (reset-Next g joins i l a e w mine_it_is several r)
    leads-Next (clearing w k) p (mine_it_is, at_waking) a e r =
        rw at_waking (waking-Next g joins i l a e w k mine_it_is r)

    Status-Next :
        {ph : Phase}
        → IsRound g joins round ph b
        → Status round ph i (b.cpus i)
        → Next g joins (step_at g b i (b.cpus i).point)
    unfolding step_at
    Status-Next {ph} r (rests p a e m) = rw p (outside-Next ph r (enters refl a e m))
    Status-Next {ph} r (enters p a e m) = rw p (
      round,
      ph,
      step-IsRound g joins r i (record (b.cpus i) { flag = true; point = arriving }) refl
          (arrives refl refl a e m),
    )
    Status-Next {ph} r (arrives p f a e m) = rw p (arriving-Next g joins all r i l mine f a e m)
    Status-Next {ph} r (waits p f a e m) = rw (p, f) (round, ph, r)
    Status-Next {ph} r (freed p f a e m) =
        rw (p, ap (λ x. if x then b else set_cpu b i (leave (b.cpus i))) f)
          (
            round,
            ph,
            step-IsRound g joins r i (leave (b.cpus i)) refl (rests refl a (omega arith) m),
          )
    Status-Next {ph} r (held p f a e h) = rw (p, f) (round, ph, r)
    Status-Next {ph} r (leads a e led) = leads-Next ph (b.cpus i).point led a e r

  reset-IsRound : IsRound g joins 0 quiet (reset g)
  unfolding reset
  reset-IsRound = record {
    status = λ j l m. rests refl refl refl (omega arith);
    led = omega arith;
    count = omega (
      arith,
      total-zero (λ j. arrival 0 joins j ((reset g).cpus j)) g.num_available_cpus
          (λ j l. arrival-zero 0 joins j ((reset g).cpus j) (λ m. refl)),
    );
    open_count = omega (arith, several);
  }

  pub Reach-Next : {b : Barrier} → Reach g joins b → Next g joins b
  Reach-Next Reach.start = (0, quiet, reset-IsRound)
  Reach-Next (Reach.later {b} before i l m) =
      let (round, ph, r) = Reach-Next before in Status-Next i l m r (r.status i l m)

  -- When the barrier blocks as many CPUs as use it, at least two, then in every state that these reach
  -- from `barrier_reset` by calls of `barrier_spin_wait`, in whatever order they take their steps, no
  -- CPU has passed the barrier more often than any other has arrived at it.
  pub passed-le-arrived :
      {b : Barrier} (i j : ℕ)
      → Reach g joins b
      → i < g.num_available_cpus
      → joins i ≡ true
      → j < g.num_available_cpus
      → joins j ≡ true
      → (b.cpus i).passed ≤ (b.cpus j).arrived
  passed-le-arrived i j reached l m l' m' =
      let (round, ph, r) = Reach-Next reached in
      omega (arith, (Status-passed ph (r.status i l m)).0, (Status-passed ph (r.status j l' m')).1)
