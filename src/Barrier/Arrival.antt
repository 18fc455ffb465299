-- ===== src/Barrier/Arrival.antt =====
-- The arrival of a CPU at the spin barrier of lib/barrier.c: unless it is the last one, it waits.
use memtest86plus.Base.{
  ℕ, suc, ◌+◌, ◌-◌, ◌≤◌, ◌<◌, ◌≡◌, ◌≢◌, refl, ◌∙◌, ap, arith, Bool, true, false, ◌==◌, inl, inr,
  Bool-cases, ==_iff,
}
use memtest86plus.Base.Family.{update, update_self, update_ne, update_cases}
use native.Mathlib.Decide.{ℕ_discrete}
use memtest86plus.Barrier.{
  Point, arriving, blocked, last, Cpu, Barrier, Settings, set_cpu, arrive, step_at,
}
use memtest86plus.Barrier.Count.{total, total-zero, total-one, total-two, total-others}
use memtest86plus.Barrier.Round.{
  Phase, quiet, resetting, clearing, Moves, Status, waits, leads, waits-held, member, arrival,
  arrivals, due, IsOpen, IsRound, Next,
}

module _ (g : Settings) (joins : ℕ → Bool)
    (all : total (member joins) g.num_available_cpus ≡ g.num_threads) where
  module _ {round : ℕ} {ph : Phase} {b : Barrier} (r : IsRound g joins round ph b) where
    abbrev here : ℕ → ℕ
    here j = arrival round joins j (b.cpus j)

    here-le : (j : ℕ) → here j ≤ member joins j
    here-le j = ground arith

    -- One CPU that has not arrived yet is missing in the sum.
    here-less : (j : ℕ) → joins j ≡ true → (b.cpus j).arrived ≢ suc round → here j < member joins j
    here-less j member_of ne =
        let not_here : ((b.cpus j).arrived == suc round) ≡ false = ground (arith, ne) in
        rw (member_of, not_here) (omega arith)

    module _ (i : ℕ) (l : i < g.num_available_cpus) (mine : joins i ≡ true)
        (at_round : (b.cpus i).arrived ≡ round) where
      i_less : here i < member joins i
      i_less = here-less i mine (λ e. omega arith)

      missing : total here g.num_available_cpus + 1 ≤ g.num_threads
      missing = omega (
        arith,
        i_less,
        all,
        total-others here (member joins) i g.num_available_cpus l (λ j m ne. here-le j),
      )

      -- If only this one is missing, all others have arrived.
      others_arrived :
          g.num_threads ≤ total here g.num_available_cpus + 1
          → (j : ℕ) → j < g.num_available_cpus
          → joins j ≡ true
          → i ≢ j
          → (b.cpus j).arrived ≡ suc round
      others_arrived full j m other ne = elim (ℕ_discrete (b.cpus j).arrived (suc round)) [
        | yes e ↦ e
        | no late ↦ absurd (
            omega (
              arith,
              all,
              total-two here (member joins) i j g.num_available_cpus l m ne i_less
                  (here-less j other late) (λ k below. here-le k),
            ))
      ]

      -- The sum after the arrival.
      arrivals-arrive :
          (p : Point) (count : ℕ)
          → arrivals round joins g (record (set_cpu b i (arrive p (b.cpus i))) { count = count })
            ≡ arrivals round joins g b + 1
      arrivals-arrive p count =
          total-one here (λ j. arrival round joins j (update b.cpus i (arrive p (b.cpus i)) j)) i
            g.num_available_cpus l one_more
            (λ j ne. ap (arrival round joins j) (update_ne b.cpus i (arrive p (b.cpus i)) j ne))
        where
          one_more : arrival round joins i (update b.cpus i (arrive p (b.cpus i)) i) ≡ here i + 1
          one_more =
              let arrives_now : ((b.cpus i).arrived + 1 == suc round) ≡ true =
                ground (arith, at_round) in
              let not_yet : ((b.cpus i).arrived == suc round) ≡ false = ground (arith, at_round) in
              rw (update_self b.cpus i (arrive p (b.cpus i)), mine, arrives_now, not_yet) refl

Moves-IsOpen : (ph : Phase) (i : ℕ) (b : Barrier) → Moves ph i → 0 < b.count → IsOpen ph b
Moves-IsOpen quiet i b m h = h
Moves-IsOpen (resetting w) i b m h = absurd (omega arith)
Moves-IsOpen (clearing w k) i b m h = h

Moves-due : (g : Settings) (ph : Phase) (i : ℕ) → Moves ph i → due g ph ≡ g.num_threads
Moves-due g quiet i m = refl
Moves-due g (resetting w) i m = absurd (omega arith)
Moves-due g (clearing w k) i m = refl

-- No CPU has arrived in the next round.
pub arrival-zero :
    (n : ℕ) (joins : ℕ → Bool) (j : ℕ) (c : Cpu)
    → (joins j ≡ true → c.arrived ≡ n)
    → arrival n joins j c ≡ 0
arrival-zero n joins j c h = elim (Bool-cases (joins j)) [
  | inl yes_it_does ↦
      let not_yet : (c.arrived == suc n) ≡ false = ground (arith, h yes_it_does) in
      rw (yes_it_does, not_yet) refl
  | inr e ↦ rw e refl
]

module _ (g : Settings) (joins : ℕ → Bool)
    (all : total (member joins) g.num_available_cpus ≡ g.num_threads) {round : ℕ} {ph : Phase}
    {b : Barrier} (r : IsRound g joins round ph b) (i : ℕ) (l : i < g.num_available_cpus)
    (mine : joins i ≡ true) (flagged : (b.cpus i).flag ≡ true)
    (at_round : (b.cpus i).arrived ≡ round) (passed : (b.cpus i).passed ≡ round)
    (moves : Moves ph i) where
  left_over : b.count + arrivals round joins g b ≡ g.num_threads
  left_over = r.count ∙ Moves-due g ph i moves

  abbrev with_count : ℕ → Point → Barrier
  with_count count p = record (set_cpu b i (arrive p (b.cpus i))) { count = count }

  -- Some are missing: the CPU waits for them.
  not_last :
      (b.count - 1 == 0) ≡ false → IsRound g joins round ph (with_count (b.count - 1) blocked)
  not_last more = record {
    status =
        update_cases b.cpus i (arrive blocked (b.cpus i))
          (λ j c. j < g.num_available_cpus → joins j ≡ true → Status round ph j c)
          (λ l' m. waits refl flagged (omega arith) passed moves) (λ j ne. r.status j);
    led = r.led;
    count = omega (
      arith,
      left_over,
      Moves-due g ph i moves,
      missing g joins all r i l mine at_round,
      arrivals-arrive g joins all r i l mine at_round blocked (b.count - 1),
    );
    open_count = Moves-IsOpen ph i (with_count (b.count - 1) blocked) moves (ground (arith, more));
  }

  -- The last one: all others are blocked, and a new round starts.
  is_last :
      (b.count - 1 == 0) ≡ true
      → IsRound g joins (suc round) (resetting i) (with_count (b.count - 1) last)
  is_last empty =
      let none_left : b.count - 1 ≡ 0 = (==_iff (b.count - 1) 0).0 empty in
      let others = others_arrived g joins all r i l mine at_round (omega (arith, left_over)) in
      record {
        status =
            update_cases b.cpus i (arrive last (b.cpus i))
              (λ j c.
                j < g.num_available_cpus → joins j ≡ true → Status (suc round) (resetting i) j c)
              (λ l' m. leads (omega arith) (omega arith) (refl, refl))
              (λ j ne l' m. waits-held ph i ne (others j l' m ne) (r.status j l' m));
        led = (l, mine);
        count = omega (
          arith,
          total-zero (λ j. arrival (suc round) joins j (update b.cpus i (arrive last (b.cpus i)) j))
              g.num_available_cpus
              (update_cases b.cpus i (arrive last (b.cpus i))
                (λ j c. j < g.num_available_cpus → arrival (suc round) joins j c ≡ 0)
                (λ l'. arrival-zero (suc round) joins i (arrive last (b.cpus i)) (λ m. omega arith))
                (λ j ne l'. arrival-zero (suc round) joins j (b.cpus j) (λ m. others j l' m ne))),
        );
        open_count = omega arith;
      }

  pub arriving-Next : Next g joins (step_at g b i arriving)
  unfolding step_at
  arriving-Next = elim (Bool-cases (b.count - 1 == 0)) [
    | inl empty ↦ rw empty (suc round, resetting i, is_last empty)
    | inr more ↦ rw more (round, ph, not_last more)
  ]
