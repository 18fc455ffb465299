-- ===== src/Pmem/Sort.antt =====
-- `sort_pm_map` of system/pmem.c sorts in place.
use native.Mathlib.Decide.{ℕ_discrete}
use memtest86plus.Base.{
  ℕ, zero, suc, ◌+◌, ◌-◌, ◌≤◌, ◌<◌, List, [], ◌∷◌, ◌≡◌, refl, ap, sym, ◌∙◌, ◌≢◌,
}
use memtest86plus.Base.{
  arith, Bool-cases, ltb, inl, inr, length, get_or, set, length-set, get_or-set_self, get_or-set_ne,
}
use memtest86plus.Pmem.Map.{Segment, no_segment}
use memtest86plus.Pmem.{sink, sort_loop, sort_pm_map}

abbrev pub segment : List Segment → ℕ → Segment
segment ps i = get_or ps i no_segment

-- The first `n` segments are in the order of their starts.
abbrev pub IsSortedTo : List Segment → ℕ → Type 0
IsSortedTo ps n = (a b : ℕ) → a < b → b < n → (segment ps a).start ≤ (segment ps b).start

-- A sum over the segments.
abbrev pub sum : (Segment → ℕ) → List Segment → ℕ
sum f [] = 0
sum f (s ∷ ps) = f s + sum f ps

-- The same segments, as often: no sum tells the two lists apart.
abbrev pub SameSegments : List Segment → List Segment → Type 0
SameSegments ps qs = (f : Segment → ℕ) → sum f ps ≡ sum f qs

sum-set :
    (f : Segment → ℕ) (ps : List Segment) (i : ℕ) (s : Segment)
    → i < length ps
    → sum f (set ps i s) + f (segment ps i) ≡ sum f ps + f s
sum-set f [] i s h = absurd (omega arith)
sum-set f (x ∷ ps) zero s h = omega arith
sum-set f (x ∷ ps) (suc i) s h = omega (arith, sum-set f ps i s (omega arith))

length-sink : (ps : List Segment) (c : Segment) (j : ℕ) → length (sink ps c j) ≡ length ps
unfolding sink
length-sink ps c zero = length-set ps 0 c
length-sink ps c (suc j) = elim (Bool-cases (ltb c.start (segment ps j).start)) [
  | inl l ↦
      rw l (length-sink (set ps (suc j) (segment ps j)) c j ∙ length-set ps (suc j) (segment ps j))
  | inr g ↦ rw g (length-set ps (suc j) c)
]

-- `sink` puts the candidate in for the entry at `j`.
sum-sink :
    (f : Segment → ℕ) (ps : List Segment) (c : Segment) (j : ℕ)
    → j < length ps
    → sum f (sink ps c j) + f (segment ps j) ≡ sum f ps + f c
unfolding sink
sum-sink f ps c zero h = sum-set f ps 0 c h
sum-sink f ps c (suc j) h =
    let moved = set ps (suc j) (segment ps j) in
    let same : segment moved j ≡ segment ps j =
      get_or-set_ne ps (suc j) j (segment ps j) no_segment (omega arith) in
    elim (Bool-cases (ltb c.start (segment ps j).start)) [
      | inl l ↦ rw l (
          omega (
            arith,
            sum-sink f moved c j (omega (arith, length-set ps (suc j) (segment ps j))),
            ap f same,
            sum-set f ps (suc j) (segment ps j) h,
          ))
      | inr g ↦ rw g (sum-set f ps (suc j) c h)
    ]

-- Up to `n` the segments are sorted but for the one at `j`, and none behind `j` starts below `k`.
record HasHole (ps : List Segment) (j n k : ℕ) : Type 0 where
  sorted : (a b : ℕ) → a < b → b < n → a ≢ j → b ≢ j → (segment ps a).start ≤ (segment ps b).start
  above : (b : ℕ) → j < b → b < n → k ≤ (segment ps b).start

-- The hole can be filled where the segment before it starts at `k` or below.
fill-IsSortedTo :
    (ps : List Segment) (c : Segment) (j n : ℕ)
    → j < length ps
    → HasHole ps j n c.start
    → ((a : ℕ) → a < j → j < n → (segment ps a).start ≤ c.start)
    → IsSortedTo (set ps j c) n
fill-IsSortedTo ps c j n fits hole below a b l h = elim (ℕ_discrete b j) [
  | yes e ↦
      rw
        (e, get_or-set_self ps j c no_segment fits, get_or-set_ne ps j a c no_segment (omega arith))
        (below a (omega arith) (omega arith))
  | no ne ↦ elim (ℕ_discrete a j) [
    | yes e ↦
        rw
          (
            e,
            get_or-set_self ps j c no_segment fits,
            get_or-set_ne ps j b c no_segment (omega arith),
          )
          (hole.above b (omega arith) h)
    | no ne' ↦
        rw
          (
            get_or-set_ne ps j a c no_segment (omega arith),
            get_or-set_ne ps j b c no_segment (omega arith),
          )
          (hole.sorted a b l h ne' ne)
  ]
]

-- Moving the segment before the hole into it moves the hole down.
HasHole-pred :
    (ps : List Segment) (j n k : ℕ)
    → suc j < length ps
    → suc j < n
    → HasHole ps (suc j) n k
    → k ≤ (segment ps j).start
    → HasHole (set ps (suc j) (segment ps j)) j n k
HasHole-pred ps j n k fits inside hole least = record {
  sorted = λ a b l h na nb. elim (ℕ_discrete b (suc j)) [
    | yes e ↦
        rw
          (
            e,
            get_or-set_self ps (suc j) (segment ps j) no_segment fits,
            get_or-set_ne ps (suc j) a (segment ps j) no_segment (omega arith),
          )
          (hole.sorted a j (omega arith) (omega arith) (omega arith) (omega arith))
    | no ne ↦ elim (ℕ_discrete a (suc j)) [
      | yes e ↦
          rw
            (
              e,
              get_or-set_self ps (suc j) (segment ps j) no_segment fits,
              get_or-set_ne ps (suc j) b (segment ps j) no_segment (omega arith),
            )
            (hole.sorted j b (omega arith) h (omega arith) ne)
      | no ne' ↦
          rw
            (
              get_or-set_ne ps (suc j) a (segment ps j) no_segment (omega arith),
              get_or-set_ne ps (suc j) b (segment ps j) no_segment (omega arith),
            )
            (hole.sorted a b l h ne' ne)
    ]
  ];
  above = λ b l h. elim (ℕ_discrete b (suc j)) [
    | yes e ↦ rw (e, get_or-set_self ps (suc j) (segment ps j) no_segment fits) least
    | no ne ↦
        rw (get_or-set_ne ps (suc j) b (segment ps j) no_segment (omega arith))
          (hole.above b (omega arith) h)
  ];
}

sink-IsSortedTo :
    (ps : List Segment) (c : Segment) (j n : ℕ)
    → j < length ps
    → j < n
    → HasHole ps j n c.start
    → IsSortedTo (sink ps c j) n
unfolding sink
sink-IsSortedTo ps c zero n fits inside hole =
    fill-IsSortedTo ps c 0 n fits hole (λ a l h. absurd (omega arith))
sink-IsSortedTo ps c (suc j) n fits inside hole =
    elim (Bool-cases (ltb c.start (segment ps j).start)) [
      | inl l ↦ rw l (
          sink-IsSortedTo (set ps (suc j) (segment ps j)) c j n
            (omega (arith, length-set ps (suc j) (segment ps j))) (omega arith)
            (HasHole-pred ps j n c.start fits inside hole (ground (arith, l))))
      | inr g ↦ rw g (
          fill-IsSortedTo ps c (suc j) n fits hole (λ a l h. elim (ℕ_discrete a j) [
            | yes e ↦ rw e (ground (arith, g))
            | no ne ↦
                let prior =
                  hole.sorted a j (omega arith) (omega arith) (omega arith) (omega arith) in
                ground (arith, g, prior)
          ]))
    ]

sort_loop-IsSortedTo :
    (left i : ℕ) (ps : List Segment)
    → i + left ≡ length ps
    → 1 ≤ i
    → IsSortedTo ps i
    → IsSortedTo (sort_loop ps left i) (length ps)
unfolding sort_loop
sort_loop-IsSortedTo zero i ps e pos sorted = let all : length ps ≡ i = omega arith in rw all sorted
sort_loop-IsSortedTo (suc left) i ps e pos sorted =
    let c = segment ps i in
    let next = sink ps c i in
    let same : length next ≡ length ps = length-sink ps c i in
    rw (sym same) (
      sort_loop-IsSortedTo left (i + 1) next (omega (arith, same)) (omega arith) (
        sink-IsSortedTo ps c i (i + 1) (omega arith) (omega arith) (record {
          sorted = λ a b l h na nb. sorted a b l (omega arith);
          above = λ b l h. absurd (omega arith);
        })))

length-sort_loop : (left i : ℕ) (ps : List Segment) → length (sort_loop ps left i) ≡ length ps
unfolding sort_loop
length-sort_loop zero i ps = refl
length-sort_loop (suc left) i ps =
    length-sort_loop left (i + 1) (sink ps (segment ps i) i) ∙ length-sink ps (segment ps i) i

sum-sort_loop :
    (f : Segment → ℕ) (left i : ℕ) (ps : List Segment)
    → i + left ≤ length ps
    → sum f (sort_loop ps left i) ≡ sum f ps
unfolding sort_loop
sum-sort_loop f zero i ps h = refl
sum-sort_loop f (suc left) i ps h = omega (
  arith,
  sum-sort_loop f left (i + 1) (sink ps (segment ps i) i)
      (omega (arith, length-sink ps (segment ps i) i)),
  sum-sink f ps (segment ps i) i (omega arith),
)

-- `sort_pm_map` leaves the map sorted by the starts of its segments, with the same segments, each
-- as often as before.
pub sort_pm_map_sorts :
    (ps : List Segment)
    → IsSortedTo (sort_pm_map ps) (length ps)
      × (length (sort_pm_map ps) ≡ length ps)
      × SameSegments (sort_pm_map ps) ps
unfolding sort_pm_map
sort_pm_map_sorts [] =
    ((λ a b l h. absurd (omega arith)), unfold sort_loop in refl, λ f. unfold sort_loop in refl)
sort_pm_map_sorts (s ∷ ps) =
    let rounds : suc (length ps) - 1 ≡ length ps = omega arith in
    rw rounds (
      sort_loop-IsSortedTo (length ps) 1 (s ∷ ps) (omega arith) (omega arith)
          (λ a b l h. absurd (omega arith)),
      length-sort_loop (length ps) 1 (s ∷ ps),
      λ f. sum-sort_loop f (length ps) 1 (s ∷ ps) (omega arith),
    )
