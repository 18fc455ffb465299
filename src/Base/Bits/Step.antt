-- ===== src/Base/Bits/Step.antt =====
-- The lowest digit of `&`, `|` and `^`: what the native operations are by their definition on
-- binary digits, which goes by a count of digits, with that count dropped.
use Prim.Native.Nat.{ℕ, zero, suc, ◌+◌, ◌*◌, ◌/◌, ◌%◌, ◌≤◌, min, max, digits, differ}
use Prim.Native.Nat.{bit_and, bit_or, bit_xor, bit_and-bitwise, bit_or-bitwise, bit_xor-bitwise}
use mathlib.Core.Path.{◌≡◌, refl, sym, ap, ◌∙◌}
use native.Mathlib.Omega.{arith}

module _ (tail : ℕ → ℕ) (op : ℕ → ℕ → ℕ) where
  -- When the first number has run out, the count does not matter.
  digits-zero : (count d : ℕ) → digits tail op count zero d ≡ tail d
  digits-zero zero d = refl
  digits-zero (suc count) d = refl

  -- Two counts that cover the first number are as good as one another.
  digits_count : (a b c d : ℕ) → c ≤ a → c ≤ b → digits tail op a c d ≡ digits tail op b c d
  digits_count a b zero d h k = digits-zero a d ∙ sym (digits-zero b d)
  digits_count zero b (suc c) d h k = absurd (omega arith)
  digits_count (suc a) zero (suc c) d h k = absurd (omega arith)
  digits_count (suc a) (suc b) (suc c) d h k =
      ap (λ (t : ℕ). t * 2 + op (suc c % 2) (d % 2))
        (digits_count a b (suc c / 2) (d / 2) (omega arith) (omega arith))

  digits_step :
      (c d : ℕ)
      → digits tail op (suc c) (suc c) d
        ≡ digits tail op (suc c / 2) (suc c / 2) (d / 2) * 2 + op (suc c % 2) (d % 2)
  digits_step c d =
      ap (λ (t : ℕ). t * 2 + op (suc c % 2) (d % 2))
        (digits_count c (suc c / 2) (suc c / 2) (d / 2) (omega arith) (omega arith))

pub bit_and_step :
    (word mask : ℕ)
    → bit_and word mask ≡ min (word % 2) (mask % 2) + 2 * bit_and (word / 2) (mask / 2)
bit_and_step zero mask = omega (arith, bit_and-bitwise 0 mask, bit_and-bitwise 0 (mask / 2))
bit_and_step (suc word) mask = omega (
  arith,
  digits_step (λ y. 0) min word mask,
  bit_and-bitwise (suc word) mask,
  bit_and-bitwise (suc word / 2) (mask / 2),
)

pub bit_or_step :
    (word mask : ℕ)
    → bit_or word mask ≡ max (word % 2) (mask % 2) + 2 * bit_or (word / 2) (mask / 2)
bit_or_step zero mask = omega (arith, bit_or-bitwise 0 mask, bit_or-bitwise 0 (mask / 2))
bit_or_step (suc word) mask = omega (
  arith,
  digits_step (λ y. y) max word mask,
  bit_or-bitwise (suc word) mask,
  bit_or-bitwise (suc word / 2) (mask / 2),
)

differ_mod : (a b : ℕ) → a ≤ 1 → b ≤ 1 → differ a b ≡ (a + b) % 2
differ_mod zero zero h k = refl
differ_mod zero (suc b) h k = omega arith
differ_mod (suc a) zero h k = omega arith
differ_mod (suc zero) (suc zero) h k = refl
differ_mod (suc zero) (suc (suc b)) h k = absurd (omega arith)
differ_mod (suc (suc a)) (suc b) h k = absurd (omega arith)

pub bit_xor_step :
    (word mask : ℕ)
    → bit_xor word mask ≡ (word % 2 + mask % 2) % 2 + 2 * bit_xor (word / 2) (mask / 2)
bit_xor_step zero mask = omega (arith, bit_xor-bitwise 0 mask, bit_xor-bitwise 0 (mask / 2))
bit_xor_step (suc word) mask = omega (
  arith,
  digits_step (λ y. y) differ word mask,
  differ_mod (suc word % 2) (mask % 2) (omega arith) (omega arith),
  bit_xor-bitwise (suc word) mask,
  bit_xor-bitwise (suc word / 2) (mask / 2),
)
