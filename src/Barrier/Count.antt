-- ===== src/Barrier/Count.antt =====
-- Sums over the CPUs.
use memtest86plus.Base.{ℕ, zero, suc, ◌+◌, ◌≤◌, ◌<◌, ◌≡◌, ◌≢◌, refl, ap, arith}
use memtest86plus.Base.Family.{update, update_self, update_ne}
use native.Mathlib.Decide.{ℕ_discrete}

abbrev pub total : (ℕ → ℕ) → ℕ → ℕ
total w zero = 0
total w (suc n) = w n + total w n

pub total-zero : (w : ℕ → ℕ) (n : ℕ) → ((j : ℕ) → j < n → w j ≡ 0) → total w n ≡ 0
total-zero w zero h = refl
total-zero w (suc n) h = omega (arith, h n (omega arith), total-zero w n (λ j l. h j (omega arith)))

pub total-le : (w v : ℕ → ℕ) (n : ℕ) → ((j : ℕ) → j < n → w j ≤ v j) → total w n ≤ total v n
total-le w v zero h = omega arith
total-le w v (suc n) h = omega (arith, h n (omega arith), total-le w v n (λ j l. h j (omega arith)))

-- Two sums differ by at most what one term makes up, if the others are in order.
pub total-others :
    (w v : ℕ → ℕ) (i n : ℕ)
    → i < n
    → ((j : ℕ) → j < n → i ≢ j → w j ≤ v j)
    → total w n + v i ≤ total v n + w i
total-others w v i zero l h = absurd (omega arith)
total-others w v i (suc n) l h = elim (ℕ_discrete i n) [
  | yes e ↦
      omega (arith, ap v e, ap w e, total-le w v n (λ j k. h j (omega arith) (λ e'. omega arith)))
  | no ne ↦
      omega
        (arith, h n (omega arith) ne, total-others w v i n (omega arith) (λ j k. h j (omega arith)))
]

pub total-same : (w v : ℕ → ℕ) (n : ℕ) → ((j : ℕ) → j < n → w j ≡ v j) → total w n ≡ total v n
total-same w v zero h = refl
total-same w v (suc n) h =
    omega (arith, h n (omega arith), total-same w v n (λ j l. h j (omega arith)))

-- One term that grows by one makes the sum grow by one.
pub total-one :
    (w v : ℕ → ℕ) (i n : ℕ)
    → i < n
    → v i ≡ w i + 1
    → ((j : ℕ) → i ≢ j → v j ≡ w j)
    → total v n ≡ total w n + 1
total-one w v i n l one same = omega (
  arith,
  one,
  total-others w v i n l (λ j k ne. omega (arith, same j ne)),
  total-others v w i n l (λ j k ne. omega (arith, same j ne)),
)

-- Two terms that are less make the sum less by two.
pub total-two :
    (w v : ℕ → ℕ) (i j n : ℕ)
    → i < n
    → j < n
    → i ≢ j
    → w i < v i
    → w j < v j
    → ((k : ℕ) → k < n → w k ≤ v k)
    → total w n + 2 ≤ total v n
total-two w v i j n l m ne less_i less_j h =
    let u = update w i (v i) in
    let at_i : u i ≡ v i = update_self w i (v i) in
    let at_j : u j ≡ w j = update_ne w i (v i) j ne in
    omega (
      arith,
      at_i,
      at_j,
      total-others w u i n l (λ k b other. omega (arith, update_ne w i (v i) k other)),
      total-others u v j n m (λ k b other. below k b),
    )
  where
    below : (k : ℕ) → k < n → update w i (v i) k ≤ v k
    below k b = elim (ℕ_discrete i k) [
      | yes e ↦ omega (arith, ap v e, ap (update w i (v i)) e, update_self w i (v i))
      | no other ↦ omega (arith, update_ne w i (v i) k other, h k b)
    ]
