-- ===== src/Badram/Cheapest.antt =====
-- `cheapest_pair` of app/badram.c picks a cheapest pair of neighbours.
use native.Mathlib.Decide.{dec_lt}
use memtest86plus.Base.{ℕ, zero, suc, ◌+◌, ◌-◌, ◌≤◌, ◌<◌, List, none, some, ◌≡◌, arith}
use memtest86plus.Base.{leb, refl, true, Bool-cases, u64_max, inl, inr, if◌then◌else◌}
use memtest86plus.Config.{ErrorMode}
use memtest86plus.Badram.{Pattern, Table, combi_cost, cheapest_loop, cheapest_pair}
use memtest86plus.Badram.Arrays.{entry}

module _ (mode : ErrorMode) where
  -- The cost of merging entry `i` with the one behind it.
  abbrev pub pair_cost : List Pattern → ℕ → ℕ
  pair_cost ps i = combi_cost mode (entry ps i) (entry ps (i + 1))

  -- `k` is one of the first `n` neighbours, and none of these is cheaper.
  pub record IsCheapest (ps : List Pattern) (n : ℕ) (k : ℕ) : Type 0 where
    pub within : k < n
    pub least : (j : ℕ) → j < n → pair_cost ps k ≤ pair_cost ps j

  pair_cost-le : (ps : List Pattern) (i : ℕ) → pair_cost ps i ≤ u64_max
  unfolding combi_cost
  pair_cost-le ps i = ground arith

  IsCheapest-suc :
      (ps : List Pattern) (i k : ℕ)
      → IsCheapest ps i k
      → IsCheapest ps (i + 1) (if leb (pair_cost ps i) (pair_cost ps k) then i else k)
  IsCheapest-suc ps i k c = elim (Bool-cases (leb (pair_cost ps i) (pair_cost ps k))) [
    | inl new ↦ rw new (record {
      within = omega arith;
      least = λ j h. elim (dec_lt j i) [
        | yes l ↦ ground (arith, new, c.least j l)
        | no g ↦ let last : j ≡ i = omega arith in rw last (omega arith)
      ];
    })
    | inr old ↦ rw old (record {
      within = omega (arith, c.within);
      least = λ j h. elim (dec_lt j i) [
        | yes l ↦ c.least j l
        | no g ↦ let last : j ≡ i = omega arith in rw last (ground (arith, old))
      ];
    })
  ]

  cheapest_loop-IsCheapest :
      (ps : List Pattern) (left i k : ℕ)
      → IsCheapest ps i k
      → (m : ℕ) × (cheapest_loop mode ps left i (pair_cost ps k) (some k) ≡ some m)
        × IsCheapest ps (i + left) m
  unfolding cheapest_loop
  cheapest_loop-IsCheapest ps zero i k c =
      let same : i + 0 ≡ i = omega arith in (k, refl, rw same c)
  cheapest_loop-IsCheapest ps (suc left) i k c =
      let next = IsCheapest-suc ps i k c in
      let count : i + suc left ≡ i + 1 + left = omega arith in
      rw count (elim (Bool-cases (leb (pair_cost ps i) (pair_cost ps k))) [
        | inl new ↦ rw new (cheapest_loop-IsCheapest ps left (i + 1) i (rw new at next))
        | inr old ↦ rw old (cheapest_loop-IsCheapest ps left (i + 1) k (rw old at next))
      ])

  first_round :
      (ps : List Pattern) (left : ℕ)
      → cheapest_loop mode ps (suc left) 0 u64_max none
        ≡ cheapest_loop mode ps left 1 (pair_cost ps 0) (some 0)
  unfolding cheapest_loop
  first_round ps left =
      let first : leb (pair_cost ps 0) u64_max ≡ true = ground (arith, pair_cost-le ps 0) in
      rw first

  -- With two patterns or more `cheapest_pair` returns the index of a pair of neighbours, and no
  -- other pair of neighbours costs less to merge.
  pub cheapest_pair-IsCheapest :
      (t : Table)
      → 2 ≤ t.num_patterns
      → (m : ℕ) × (cheapest_pair mode t ≡ some m) × IsCheapest t.patterns (t.num_patterns - 1) m
  unfolding cheapest_pair
  cheapest_pair-IsCheapest t h =
      let rounds : t.num_patterns - 1 ≡ suc (t.num_patterns - 2) = omega arith in
      let total : suc (t.num_patterns - 2) ≡ 1 + (t.num_patterns - 2) = omega arith in
      rw (rounds, first_round t.patterns (t.num_patterns - 2), total)
        (cheapest_loop-IsCheapest t.patterns (t.num_patterns - 2) 1 0 only)
    where
      only : IsCheapest t.patterns 1 0
      only = record {
        within = omega arith;
        least = λ j k. let zeroth : j ≡ 0 = omega arith in rw zeroth (omega arith);
      }
