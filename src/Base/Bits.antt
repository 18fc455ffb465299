-- ===== src/Base/Bits.antt =====
-- The laws of `&`, `|`, `^` and `~` bit by bit, at every width.
pub mod Step
use Step.{bit_and_step, bit_or_step, bit_xor_step}
use native.Mathlib.Nat.{pow-suc, one-le-pow}
use Prim.Native.Nat.{ℕ, zero, suc, ◌+◌, ◌-◌, ◌*◌, ◌/◌, ◌%◌, ◌^◌, ◌≤◌, ◌<◌, min, max}
use Prim.Native.Nat.{bit_and, bit_or, bit_xor, bit_and-bitwise}
use mathlib.Core.Path.{◌≡◌, refl, ap, ◌∙◌}
use native.Mathlib.Omega.{arith}

-- Bit `i` of a word, as 0 or 1.
abbrev pub bit : ℕ → ℕ → ℕ
bit zero a = a % 2
bit (suc i) a = bit i (a / 2)

-- The exclusive or of two bits.
abbrev pub xor_bit : ℕ → ℕ → ℕ
xor_bit a b = (a + b) % 2

pub bit-le-one : (i a : ℕ) → bit i a ≤ 1
bit-le-one zero a = omega arith
bit-le-one (suc i) a = bit-le-one i (a / 2)

pub bit-bit_and : (i a b : ℕ) → bit i (bit_and a b) ≡ min (bit i a) (bit i b)
bit-bit_and zero a b = omega (arith, bit_and_step a b)
bit-bit_and (suc i) a b =
    let e : bit_and a b / 2 ≡ bit_and (a / 2) (b / 2) = omega (arith, bit_and_step a b) in
    ap (bit i) e ∙ bit-bit_and i (a / 2) (b / 2)

pub bit-bit_or : (i a b : ℕ) → bit i (bit_or a b) ≡ max (bit i a) (bit i b)
bit-bit_or zero a b = omega (arith, bit_or_step a b)
bit-bit_or (suc i) a b =
    let e : bit_or a b / 2 ≡ bit_or (a / 2) (b / 2) = omega (arith, bit_or_step a b) in
    ap (bit i) e ∙ bit-bit_or i (a / 2) (b / 2)

pub bit-bit_xor : (i a b : ℕ) → bit i (bit_xor a b) ≡ xor_bit (bit i a) (bit i b)
bit-bit_xor zero a b = omega (arith, bit_xor_step a b)
bit-bit_xor (suc i) a b =
    let e : bit_xor a b / 2 ≡ bit_xor (a / 2) (b / 2) = omega (arith, bit_xor_step a b) in
    ap (bit i) e ∙ bit-bit_xor i (a / 2) (b / 2)

-- Two numbers of at most `k` bits with the same bits are equal.
pub bit_ext : (k a b : ℕ) → a < 2 ^ k → b < 2 ^ k → ((i : ℕ) → i < k → bit i a ≡ bit i b) → a ≡ b
bit_ext zero a b ha hb same = omega arith
bit_ext (suc k) a b ha hb same =
    let halves : a / 2 ≡ b / 2 =
      bit_ext k (a / 2) (b / 2) (omega (arith, pow-suc 2 k)) (omega (arith, pow-suc 2 k))
        (λ i h. same (suc i) (omega arith)) in
    omega (arith, same 0 (omega arith), halves)

-- The first number runs out of digits.
bit_and_zero_left : (b : ℕ) → bit_and 0 b ≡ 0
bit_and_zero_left b = bit_and-bitwise 0 b

bit_and-le_count : (n a b : ℕ) → a ≤ n → (bit_and a b ≤ b) × (bit_and a b ≤ a)
bit_and-le_count n zero b h = omega (arith, bit_and_zero_left b)
bit_and-le_count zero (suc a) b h = absurd (omega arith)
bit_and-le_count (suc n) (suc a) b h =
    omega (arith, bit_and_step (suc a) b, bit_and-le_count n (suc a / 2) (b / 2) (omega arith))

pub bit_and-le_right : (a b : ℕ) → bit_and a b ≤ b
bit_and-le_right a b = (bit_and-le_count a a b (omega arith)).0

pub bit_and-le_left : (a b : ℕ) → bit_and a b ≤ a
bit_and-le_left a b = (bit_and-le_count a a b (omega arith)).1

pub bit-zero : (i : ℕ) → bit i 0 ≡ 0
bit-zero zero = refl
bit-zero (suc i) = bit-zero i

-- `a | b` needs no more bits than `a` and `b`.
pub bit_or-lt : (k a b : ℕ) → a < 2 ^ k → b < 2 ^ k → bit_or a b < 2 ^ k
bit_or-lt zero a b ha hb =
    let e : a ≡ 0 = omega arith in let f : b ≡ 0 = omega arith in rw (e, f) (omega arith)
bit_or-lt (suc k) a b ha hb = omega (
  arith,
  pow-suc 2 k,
  bit_or_step a b,
  bit_or-lt k (a / 2) (b / 2) (omega (arith, pow-suc 2 k)) (omega (arith, pow-suc 2 k)),
)

pub bit_xor-lt : (k a b : ℕ) → a < 2 ^ k → b < 2 ^ k → bit_xor a b < 2 ^ k
bit_xor-lt zero a b ha hb =
    let e : a ≡ 0 = omega arith in let f : b ≡ 0 = omega arith in rw (e, f) (omega arith)
bit_xor-lt (suc k) a b ha hb = omega (
  arith,
  pow-suc 2 k,
  bit_xor_step a b,
  bit_xor-lt k (a / 2) (b / 2) (omega (arith, pow-suc 2 k)) (omega (arith, pow-suc 2 k)),
)

pub bit_and-one : (word : ℕ) → bit_and word 1 ≡ word % 2
bit_and-one word = omega (arith, bit_and-le_right (word / 2) 0, bit_and_step word 1)

bit_xor-zero_count : (n a : ℕ) → a ≤ n → bit_xor a 0 ≡ a
bit_xor-zero_count n zero h = refl
bit_xor-zero_count zero (suc a) h = absurd (omega arith)
bit_xor-zero_count (suc n) (suc a) h =
    omega (arith, bit_xor_step (suc a) 0, bit_xor-zero_count n (suc a / 2) (omega arith))

pub bit_xor-zero : (a : ℕ) → bit_xor a 0 ≡ a
bit_xor-zero a = bit_xor-zero_count a a (omega arith)
