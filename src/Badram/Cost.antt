-- ===== src/Badram/Cost.antt =====
-- `addresses` and `combi_cost` of app/badram.c. The cost is computed with wrap-around (a mask of 64
-- zeros covers 2^64 addresses, which `uint64_t` cannot hold).
use native.Mathlib.Nat.{pow-suc}
use memtest86plus.Base.{ℕ, zero, suc, ◌+◌, ◌-◌, ◌/◌, ◌%◌, ◌^◌, ◌≤◌, ◌<◌, bit_and}
use memtest86plus.Base.{
  ◌≡◌, refl, ap, ◌∙◌, sym, arith, table_holds, table_entry, ◌==◌, ==_iff, Bool-cases, true, ◌||◌,
  not,
}
use memtest86plus.Base.{inl, inr, u64_mod, add64}
use memtest86plus.Base.Bits.{bit, bit_ext, bit_and-one}
use memtest86plus.Config.{ErrorMode}
use memtest86plus.Badram.{Pattern, combine_mask, combine, addresses_loop, addresses, combi_cost}
use memtest86plus.Badram.Combine.{
  Covers, IsPattern, bit-combine_mask, combine_mask-le, combine-Covers,
}

-- The zeros among the `w` low bits.
abbrev pub zeros : ℕ → ℕ → ℕ
zeros zero m = 0
zeros (suc w) m = (1 - m % 2) + zeros w (m / 2)

pub zeros-le : (w m : ℕ) → zeros w m ≤ w
zeros-le zero m = omega arith
zeros-le (suc w) m = omega (arith, zeros-le w (m / 2))

abbrev power : ℕ → ℕ
power k = 2 ^ k % u64_mod

addresses_loop-eq-power :
    (i k mask : ℕ) → addresses_loop i (power k) mask ≡ power (k + zeros i mask)
unfolding addresses_loop
addresses_loop-eq-power zero k mask = ap power (omega arith)
addresses_loop-eq-power (suc i) k mask =
    let double : add64 (power k) (power k) ≡ power (suc k) = omega (arith, pow-suc 2 k) in
    elim (Bool-cases (bit_and mask 1 == 0)) [
      | inl z ↦ rw z (
          ap (λ c. addresses_loop i c (mask / 2)) double
          ∙ addresses_loop-eq-power i (suc k) (mask / 2)
          ∙ ap power (omega (arith, (==_iff (bit_and mask 1) 0).0 z, bit_and-one mask)))
      | inr o ↦
          rw o (
            addresses_loop-eq-power i k (mask / 2) ∙ ap power (ground (arith, o, bit_and-one mask)))
    ]

-- `addresses` counts 2^z addresses for a mask with z zeros, modulo 2^64.
pub addresses-eq-power : (mask : ℕ) → addresses mask ≡ 2 ^ zeros 64 mask % u64_mod
unfolding addresses
addresses-eq-power mask = addresses_loop-eq-power 64 0 mask ∙ ap power (omega arith)

power_table :
    table_holds (λ i. table_holds (λ j. not (power i == power j) || (i == j)) 65) 65 ≡ true
unfolding table_holds
power_table = refl

-- Up to 64 zeros the count determines their number.
power_injective : (i j : ℕ) → i ≤ 64 → j ≤ 64 → power i ≡ power j → i ≡ j
power_injective i j hi hj e =
    let row =
      table_entry (λ k. table_holds (λ j. not (power k == power j) || (k == j)) 65) 65 i
        (omega arith) power_table in
    let cell = table_entry (λ j. not (power i == power j) || (i == j)) 65 j (omega arith) row in
    ground (arith, cell)

-- A mask that is no wider, bit by bit, has as many zeros at least; as many only if it is the same.
zeros_mono : (w m n : ℕ) → ((i : ℕ) → i < w → bit i m ≤ bit i n) → zeros w n ≤ zeros w m
zeros_mono zero m n below = omega arith
zeros_mono (suc w) m n below = omega (
  arith,
  below 0 (omega arith),
  zeros_mono w (m / 2) (n / 2) (λ i h. below (suc i) (omega arith)),
)

zeros_same :
    (w m n : ℕ)
    → ((i : ℕ) → i < w → bit i m ≤ bit i n)
    → zeros w m ≡ zeros w n
    → (i : ℕ) → i < w
    → bit i m ≡ bit i n
zeros_same zero m n below e i h = absurd (omega arith)
zeros_same (suc w) m n below e zero h =
    omega (arith, below 0 h, zeros_mono w (m / 2) (n / 2) (λ i h. below (suc i) (omega arith)))
zeros_same (suc w) m n below e (suc i) h =
    zeros_same w (m / 2) (n / 2) (λ i h. below (suc i) (omega arith))
      (omega (
        arith,
        below 0 (omega arith),
        zeros_mono w (m / 2) (n / 2) (λ i h. below (suc i) (omega arith)),
      ))
      i (omega arith)

-- A combined mask that covers as many addresses as the first mask is the first mask.
mask_of_no_cost :
    (a b c d : ℕ)
    → b < 2 ^ 64
    → addresses (combine_mask a b c d) ≡ addresses b
    → combine_mask a b c d ≡ b
mask_of_no_cost a b c d hb e =
    let m = combine_mask a b c d in
    let below : (i : ℕ) → i < 64 → bit i m ≤ bit i b =
      λ i h. omega (arith, bit-combine_mask i a b c d h) in
    let count : zeros 64 m ≡ zeros 64 b =
      power_injective (zeros 64 m) (zeros 64 b) (zeros-le 64 m) (zeros-le 64 b)
        (sym (addresses-eq-power m) ∙ e ∙ addresses-eq-power b) in
    bit_ext 64 m b (omega (arith, combine_mask-le a b c d)) hb (zeros_same 64 m b below count)

addresses-lt : (m : ℕ) → addresses m < 2 ^ 64
addresses-lt m = omega (arith, addresses-eq-power m)

Covers-of_no_cost :
    (p q : Pattern) (x : ℕ)
    → IsPattern ErrorMode.badram p
    → combine_mask p.addr p.mask q.addr q.mask ≡ p.mask
    → Covers ErrorMode.badram q x
    → Covers ErrorMode.badram p x
unfolding combine
Covers-of_no_cost p q x v e c =
    let both = combine-Covers ErrorMode.badram p q x v (inr c) in
    let own = combine-Covers ErrorMode.badram p q p.addr v (inl refl) in rw e at (both ∙ sym own)

-- At no cost a pattern covers all that the other one covers.
pub combi_cost-zero :
    (mode : ErrorMode) (p q : Pattern) (x : ℕ)
    → IsPattern mode p
    → IsPattern mode q
    → combi_cost mode p q ≡ 0
    → Covers mode q x
    → Covers mode p x
unfolding combi_cost combine
combi_cost-zero ErrorMode.badram p q x v w e c =
    let m = combine_mask p.addr p.mask q.addr q.mask in
    Covers-of_no_cost p q x v
      (mask_of_no_cost p.addr p.mask q.addr q.mask v.1
        (omega (arith, e, addresses-lt m, addresses-lt p.mask)))
      c
combi_cost-zero ErrorMode.none p q x v w e c = ground arith
combi_cost-zero _ p q x v w e c = ground arith
