-- ===== src/Pmem/Sanitize/PointOrder.antt =====
-- The sort of the change points in system/pmem.c ends, and sorts.
use memtest86plus.Base.{ℕ, zero, suc, ◌+◌, ◌*◌, ◌≤◌, ◌<◌, List, [], ◌∷◌, ◌≡◌, refl, ap, sym, ◌∙◌}
use mathlib.Core.Path.{subst}
use memtest86plus.Base.{arith, Bool, true, false, Bool-cases, inl, inr, some, length}
use memtest86plus.Pmem.Sanitize.{
  ChangePoint, precedes, sort_pass, sort_round, sort_points, sort_fuel,
}

abbrev one_if : Bool → ℕ
one_if true = 1
one_if false = 0

one_if-le : (b : Bool) → one_if b ≤ 1
one_if-le true = omega arith
one_if-le false = omega arith

-- The points of the list that have to stand before `z`.
earlier : ChangePoint → List ChangePoint → ℕ
earlier z [] = 0
earlier z (p ∷ ps) = one_if (precedes p z) + earlier z ps

-- The pairs that stand in the wrong order.
inversions : List ChangePoint → ℕ
inversions [] = 0
inversions (p ∷ ps) = earlier p ps + inversions ps

abbrev pub sum : (ChangePoint → ℕ) → List ChangePoint → ℕ
sum f [] = 0
sum f (p ∷ ps) = f p + sum f ps

-- No point has to stand before the one in front of it.
abbrev pub IsOrdered : List ChangePoint → Type 0
IsOrdered [] = Unit {0}
IsOrdered (p ∷ []) = Unit {0}
IsOrdered (p ∷ q ∷ ps) = (precedes q p ≡ false) × IsOrdered (q ∷ ps)

precedes_asym : (p q : ChangePoint) → precedes p q ≡ true → precedes q p ≡ false
unfolding precedes
precedes_asym p q h = ground arith

sum-sort_pass :
    (f : ChangePoint → ℕ) (ps : List ChangePoint) (x : ChangePoint)
    → sum f (sort_pass x ps).0 ≡ f x + sum f ps
unfolding sort_pass
sum-sort_pass f [] x = refl
sum-sort_pass f (y ∷ ps) x = elim (Bool-cases (precedes y x)) [
  | inl b ↦ rw b (omega (arith, sum-sort_pass f ps x))
  | inr b ↦ rw b (omega (arith, sum-sort_pass f ps y))
]

earlier-eq-sum :
    (z : ChangePoint) (ps : List ChangePoint) → earlier z ps ≡ sum (λ p. one_if (precedes p z)) ps
unfolding earlier
earlier-eq-sum z [] = refl
earlier-eq-sum z (p ∷ ps) = omega (arith, earlier-eq-sum z ps)

earlier-sort_pass :
    (z x : ChangePoint) (ps : List ChangePoint)
    → earlier z (sort_pass x ps).0 ≡ one_if (precedes x z) + earlier z ps
earlier-sort_pass z x ps =
    earlier-eq-sum z (sort_pass x ps).0
    ∙ sum-sort_pass (λ p. one_if (precedes p z)) ps x
    ∙ ap (λ (n : ℕ). one_if (precedes x z) + n) (sym (earlier-eq-sum z ps))

-- A round that swaps takes away an inversion.
inversions-sort_pass :
    (ps : List ChangePoint) (x : ChangePoint)
    → inversions (sort_pass x ps).0 + one_if (sort_pass x ps).1 ≤ inversions (x ∷ ps)
unfolding inversions earlier sort_pass
inversions-sort_pass [] x = omega arith
inversions-sort_pass (y ∷ ps) x = elim (Bool-cases (precedes y x)) [
  | inl b ↦ rw b (
      omega (
        arith,
        earlier-sort_pass y x ps,
        ap one_if (precedes_asym y x b),
        inversions-sort_pass ps x,
      ))
  | inr b ↦ rw b (omega (arith, earlier-sort_pass x y ps, ap one_if b, inversions-sort_pass ps y))
]

-- A round that does not swap leaves an ordered list as it was.
sort_pass_unchanged :
    (ps : List ChangePoint) (x : ChangePoint)
    → (sort_pass x ps).1 ≡ false
    → ((sort_pass x ps).0 ≡ x ∷ ps) × IsOrdered (x ∷ ps)
unfolding sort_pass
sort_pass_unchanged [] x h = (refl, tt)
sort_pass_unchanged (y ∷ ps) x h = elim (Bool-cases (precedes y x)) [
  | inl b ↦ let impossible : true ≡ false = rw b at h in cc
  | inr b ↦
      let (same, ordered) = sort_pass_unchanged ps y (rw b at h) in
      rw b (ap (λ qs. x ∷ qs) same, (refl, ordered))
]

inversions-sort_round :
    (ps : List ChangePoint)
    → inversions (sort_round ps).0 + one_if (sort_round ps).1 ≤ inversions ps
inversions-sort_round [] = unfold inversions in omega arith
inversions-sort_round (p ∷ ps) = inversions-sort_pass ps p

sort_round_unchanged :
    (ps : List ChangePoint) → (sort_round ps).1 ≡ false → ((sort_round ps).0 ≡ ps) × IsOrdered ps
sort_round_unchanged [] h = (refl, tt)
sort_round_unchanged (p ∷ ps) h = sort_pass_unchanged ps p h

sum-sort_round : (f : ChangePoint → ℕ) (ps : List ChangePoint) → sum f (sort_round ps).0 ≡ sum f ps
sum-sort_round f [] = refl
sum-sort_round f (p ∷ ps) = sum-sort_pass f ps p

-- `ps'` is the list `ps` in order: the same points, each as often.
pub record IsSortOf (ps ps' : List ChangePoint) : Type 0 where
  pub ordered : IsOrdered ps'
  pub same : (f : ChangePoint → ℕ) → sum f ps' ≡ sum f ps

sort_points_sorts :
    (fuel : ℕ) (ps : List ChangePoint)
    → inversions ps < fuel
    → (ps' : List ChangePoint) × (sort_points fuel ps ≡ some ps') × IsSortOf ps ps'
unfolding sort_points
sort_points_sorts zero ps h = absurd (omega arith)
sort_points_sorts (suc fuel) ps h = elim (Bool-cases (sort_round ps).1) [
  | inl changed ↦
      let (ps', done, sorted) =
        sort_points_sorts fuel (sort_round ps).0
          (omega (arith, inversions-sort_round ps, ap one_if changed)) in
      (
        ps',
        rw changed done,
        record { ordered = sorted.ordered; same = λ f. sorted.same f ∙ sum-sort_round f ps },
      )
  | inr unchanged ↦ (
    (sort_round ps).0,
    rw unchanged,
    record {
      ordered =
          let (same, ordered) = sort_round_unchanged ps unchanged in
          subst IsOrdered (sym same) ordered;
      same = λ f. sum-sort_round f ps;
    },
  )
]

earlier-le : (z : ChangePoint) (ps : List ChangePoint) → earlier z ps ≤ length ps
unfolding earlier
earlier-le z [] = omega arith
earlier-le z (p ∷ ps) = omega (arith, earlier-le z ps, one_if-le (precedes p z))

inversions-le : (ps : List ChangePoint) → inversions ps ≤ length ps * length ps
unfolding inversions
inversions-le [] = omega arith
inversions-le (p ∷ ps) = omega (arith, earlier-le p ps, inversions-le ps)

-- The bubble sort of the change points ends within the square of their number of rounds and one
-- more, and leaves the same points in order.
pub sort_points_total :
    (ps : List ChangePoint)
    → (ps' : List ChangePoint) × (sort_points (sort_fuel ps) ps ≡ some ps') × IsSortOf ps ps'
sort_points_total ps = sort_points_sorts (sort_fuel ps) ps (omega (arith, inversions-le ps))
