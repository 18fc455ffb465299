-- ===== src/Base/Align.antt =====
-- Rounding down to a power of two by a mask.
use Prim.Native.Nat.{
  ℕ, zero, suc, ◌+◌, ◌-◌, ◌*◌, ◌/◌, ◌%◌, ◌^◌, ◌≤◌, ◌<◌, bit_and, bit_xor, bit_xor-bitwise,
}
use mathlib.Core.Path.{◌≡◌, refl, ap, ap₂, ◌∙◌}
use native.Mathlib.Omega.{arith}
use native.Mathlib.Nat.{pow-suc, one-le-pow, div-div-eq-div-mul, mul-mod_left}
use memtest86plus.Base.Bits.Step.{bit_and_step, bit_xor_step}

-- `a & (2^w - 1)` is `a`, where `a` fits `w` bits.
pub bit_and_ones : (w a : ℕ) → a < 2 ^ w → bit_and a (2 ^ w - 1) ≡ a
bit_and_ones zero a h = let e : a ≡ 0 = omega arith in rw e refl
bit_and_ones (suc w) a h =
    let half : (2 ^ suc w - 1) / 2 ≡ 2 ^ w - 1 = omega (arith, pow-suc 2 w, one-le-pow w 2) in
    omega (
      arith,
      pow-suc 2 w,
      one-le-pow w 2,
      bit_and_step a (2 ^ suc w - 1),
      ap (λ t. bit_and (a / 2) t) half,
      bit_and_ones w (a / 2) (omega (arith, pow-suc 2 w)),
    )

half_power : (k a : ℕ) → a / 2 / 2 ^ k * 2 ^ k * 2 ≡ a / 2 ^ suc k * 2 ^ suc k
half_power k a =
    let power : 2 * 2 ^ k ≡ 2 ^ suc k = omega (arith, pow-suc 2 k) in
    let quotient : a / 2 / 2 ^ k ≡ a / 2 ^ suc k =
      div-div-eq-div-mul a 2 (2 ^ k) ∙ ap (λ t. a / t) power in
    omega (arith, ap (λ (t : ℕ). t * 2 ^ k * 2) quotient, ap (λ (t : ℕ). a / 2 ^ suc k * t) power)

-- `a & ~(2^k - 1)` in `w` bits is `a` rounded down to a multiple of `2^k`.
round_down_bits :
    (k w a : ℕ)
    → k ≤ w
    → a < 2 ^ w
    → bit_and a (bit_xor (2 ^ k - 1) (2 ^ w - 1)) ≡ a / 2 ^ k * 2 ^ k
round_down_bits zero w a h fits =
    let none : bit_xor 0 (2 ^ w - 1) ≡ 2 ^ w - 1 = bit_xor-bitwise 0 (2 ^ w - 1) in
    omega (arith, ap (λ t. bit_and a t) none, bit_and_ones w a fits)
round_down_bits (suc k) zero a h fits = absurd (omega arith)
round_down_bits (suc k) (suc w) a h fits =
    let low : (2 ^ suc k - 1) / 2 ≡ 2 ^ k - 1 = omega (arith, pow-suc 2 k, one-le-pow k 2) in
    let high : (2 ^ suc w - 1) / 2 ≡ 2 ^ w - 1 = omega (arith, pow-suc 2 w, one-le-pow w 2) in
    let mask = bit_xor (2 ^ suc k - 1) (2 ^ suc w - 1) in
    let halves : mask / 2 ≡ bit_xor (2 ^ k - 1) (2 ^ w - 1) =
      omega (arith, bit_xor_step (2 ^ suc k - 1) (2 ^ suc w - 1), ap₂ bit_xor low high) in
    let last : mask % 2 ≡ 0 = omega (
      arith,
      pow-suc 2 k,
      pow-suc 2 w,
      one-le-pow k 2,
      one-le-pow w 2,
      bit_xor_step (2 ^ suc k - 1) (2 ^ suc w - 1),
    ) in
    omega (
      arith,
      bit_and_step a mask,
      ap (λ t. bit_and (a / 2) t) halves,
      round_down_bits k w (a / 2) (omega arith) (omega (arith, pow-suc 2 w)),
      half_power k a,
      last,
    )

-- The form that the code's masks take: `a & ~(2^k - 1)` in 64 bits.
pub bit_and-align :
    (k a : ℕ)
    → k ≤ 64
    → a < 2 ^ 64
    → bit_and a (bit_xor (2 ^ k - 1) 0xffff_ffff_ffff_ffff) ≡ a / 2 ^ k * 2 ^ k
bit_and-align k a h fits = round_down_bits k 64 a h fits

-- It is at most `a`, a multiple of `2^k`, and less than `2^k` below `a`.
pub align_bounds :
    (k a : ℕ)
    → (a / 2 ^ k * 2 ^ k ≤ a) × ((a / 2 ^ k * 2 ^ k) % 2 ^ k ≡ 0) × (a < a / 2 ^ k * 2 ^ k + 2 ^ k)
align_bounds k a =
    (grind (arith, one-le-pow k 2), mul-mod_left (a / 2 ^ k) (2 ^ k), grind (arith, one-le-pow k 2))
