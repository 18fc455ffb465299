-- ===== src/Master/Choice.antt =====
-- `select_next_master` of app/main.c ends, and makes an active CPU the master.
use memtest86plus.Base.{
  ℕ, zero, suc, ◌+◌, ◌-◌, ◌≤◌, ◌<◌, ◌%◌, ◌≡◌, refl, ◌∙◌, ◌⊎◌, inl, inr, arith, Bool, Bool-cases,
  true, false, some, ltb, ap,
}
use native.Mathlib.Nat.{mod-eq_of_lt, mod_self}
use memtest86plus.Master.{select_next_master}

mod_next :
    (m n : ℕ) → m < n → ((m + 1 < n) × ((m + 1) % n ≡ m + 1)) ⊎ ((m + 1 ≡ n) × ((m + 1) % n ≡ 0))
mod_next m n h = elim (Bool-cases (ltb (m + 1) n)) [
  | inl less ↦ (let l : m + 1 < n = ground (arith, less) in inl (l, mod-eq_of_lt l))
  | inr over ↦
      (let e : m + 1 ≡ n = ground (arith, over) in inr (e, ap (λ (k : ℕ). k % n) e ∙ mod_self n))
]

-- CPU `k` comes `d` steps behind CPU `m` in the ring of `n` CPUs.
abbrev IsBehind : ℕ → ℕ → ℕ → ℕ → Type 0
IsBehind n m k d = (1 ≤ d) × ((m + d ≡ k) ⊎ (m + d ≡ k + n))

-- A step is one nearer, and the last step is at `k`.
IsBehind-next :
    (n m k d : ℕ)
    → m < n
    → k < n
    → IsBehind n m k d
    → ((m + 1) % n < n) × (((m + 1) % n ≡ k) ⊎ IsBehind n ((m + 1) % n) k (d - 1))
IsBehind-next n m k d hm hk (one, b) = elim (mod_next m n hm) [
  | inl (less, e) ↦ (
    omega (arith, e),
    elim b [
      | inl at ↦ elim (Bool-cases (ltb 1 d)) [
        | inl more ↦ inr (ground (arith, more), inl (ground (arith, e, more)))
        | inr last ↦ inl (ground (arith, e, last))
      ]
      | inr at ↦ inr (omega arith, inr (omega (arith, e)))
    ],
  )
  | inr (full, e) ↦ (
    omega (arith, e),
    elim b [
      | inl at ↦ absurd (omega arith)
      | inr at ↦ elim (Bool-cases (ltb 1 d)) [
        | inl more ↦ inr (ground (arith, more), inl (ground (arith, e, more)))
        | inr last ↦ inl (ground (arith, e, last))
      ]
    ],
  )
]

module _ (is_disabled : ℕ → Bool) (n : ℕ) where
  -- The CPU that becomes the master.
  abbrev pub IsMaster : ℕ → Type 0
  IsMaster r = (r < n) × (is_disabled r ≡ false)

  select_within :
      (fuel m k d : ℕ)
      → m < n
      → k < n
      → is_disabled k ≡ false
      → IsBehind n m k d
      → d ≤ fuel
      → (r : ℕ) × (select_next_master is_disabled n fuel m ≡ some r) × IsMaster r
  unfolding select_next_master
  select_within zero m k d hm hk active (one, b) enough = absurd (omega arith)
  select_within (suc fuel) m k d hm hk active b enough =
      let next = (m + 1) % n in
      let (within, nearer) = IsBehind-next n m k d hm hk b in
      elim (Bool-cases (is_disabled next)) [
        | inl off ↦ elim nearer [
          | inl here ↦ absurd (disabled_here next here off)
          | inr b' ↦
              (let (r, found, is_master) =
                  select_within fuel next k (d - 1) within hk active b' (omega (arith, b.0)) in
                (r, rw off found, is_master))
        ]
        | inr on ↦ (next, rw on refl, (within, on))
      ]
    where
      disabled_here : (next : ℕ) → next ≡ k → is_disabled next ≡ true → ⊥
      disabled_here next here off = cc

  -- If the master is one of the `n` CPUs and one of them, maybe the master itself, is not disabled:
  -- `select_next_master` ends within `n` rounds, with one of the CPUs that is not disabled.
  pub select_next_master_lem :
      (m k : ℕ)
      → m < n
      → k < n
      → is_disabled k ≡ false
      → (r : ℕ) × (select_next_master is_disabled n n m ≡ some r) × IsMaster r
  select_next_master_lem m k hm hk active = elim (Bool-cases (ltb m k)) [
    | inl ahead ↦
        select_within n m k (k - m) hm hk active
          (ground (arith, ahead), inl (ground (arith, ahead))) (omega arith)
    | inr round ↦
        (let le : k ≤ m = ground (arith, round) in
          select_within n m k (n + k - m) hm hk active (omega arith, inr (omega arith))
            (omega arith))
  ]
