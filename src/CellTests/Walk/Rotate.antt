-- ===== src/CellTests/Walk/Rotate.antt =====
-- The rotations of the walking pattern of tests/mov_inv_walk1.c undo each other.
use memtest86plus.Base.{
  ℕ, zero, suc, ◌+◌, ◌-◌, ◌*◌, ◌/◌, ◌%◌, ◌^◌, ◌≤◌, ◌<◌, ◌≡◌, ◌⊎◌, inl, inr, refl, ap, arith, bit_or,
  bit_xor, not64, u64_mod,
}
use native.Mathlib.Nat.{pow-suc, one-le-pow}
use memtest86plus.Base.Bits.Step.{bit_or_step, bit_xor_step}
use memtest86plus.CellTests.Walk.{rotate_left, rotate_right}
use Prim.Native.Nat.{bit_or-bitwise}

bit_or_zero : (n y : ℕ) → y ≤ n → bit_or y 0 ≡ y
bit_or_zero n zero h = bit_or-bitwise 0 0
bit_or_zero zero (suc y) h = absurd (omega arith)
bit_or_zero (suc n) (suc y) h =
    omega (arith, bit_or_step (suc y) 0, bit_or_zero n (suc y / 2) (omega arith))

bit_or_top : (k y : ℕ) → y < 2 ^ k → bit_or y (2 ^ k) ≡ y + 2 ^ k
bit_or_top zero y h = let e : y ≡ 0 = omega arith in rw e (bit_or-bitwise 0 1)
bit_or_top (suc k) y h =
    let half : 2 ^ suc k / 2 ≡ 2 ^ k = omega (arith, pow-suc 2 k) in
    omega (
      arith,
      pow-suc 2 k,
      bit_or_step y (2 ^ suc k),
      ap (bit_or (y / 2)) half,
      bit_or_top k (y / 2) (omega (arith, pow-suc 2 k)),
    )

bit_or_bottom : (y b : ℕ) → b ≤ 1 → bit_or (2 * y) b ≡ 2 * y + b
bit_or_bottom y b h =
    let half : 2 * y / 2 ≡ y = omega arith in
    let none_left : b / 2 ≡ 0 = omega arith in
    omega (
      arith,
      bit_or_step (2 * y) b,
      ap (λ a. bit_or a (b / 2)) half,
      ap (bit_or y) none_left,
      bit_or_zero y y (omega arith),
    )

pub rotate_left-eq : (x : ℕ) → x < u64_mod → rotate_left x ≡ 2 * (x % 2 ^ 63) + x / 2 ^ 63
unfolding rotate_left
rotate_left-eq x h =
    let low : x * 2 % u64_mod ≡ 2 * (x % 2 ^ 63) = omega arith in
    rw low (bit_or_bottom (x % 2 ^ 63) (x / 2 ^ 63) (omega arith))

pub rotate_right-eq : (x : ℕ) → x < u64_mod → rotate_right x ≡ x / 2 + (x % 2) * 2 ^ 63
unfolding rotate_right
rotate_right-eq x h = elim (cases x) [
  | inl e ↦
      let high : x * 2 ^ 63 % u64_mod ≡ 0 = omega arith in
      rw high (omega (arith, bit_or_zero (x / 2) (x / 2) (omega arith)))
  | inr e ↦
      let high : x * 2 ^ 63 % u64_mod ≡ 2 ^ 63 = omega arith in
      rw high (omega (arith, bit_or_top 63 (x / 2) (omega arith)))
]
  where
    cases : (y : ℕ) → (y % 2 ≡ 0) ⊎ (y % 2 ≡ 1)
    cases y = omega arith

pub rotate_left-lt : (x : ℕ) → x < u64_mod → rotate_left x < u64_mod
rotate_left-lt x h = omega (arith, rotate_left-eq x h)

not_ones : (w x : ℕ) → x < 2 ^ w → bit_xor x (2 ^ w - 1) ≡ 2 ^ w - 1 - x
not_ones zero x h = let e : x ≡ 0 = omega arith in rw e refl
not_ones (suc w) x h =
    let positive = one-le-pow 2 w in
    let half : (2 ^ suc w - 1) / 2 ≡ 2 ^ w - 1 = omega (arith, pow-suc 2 w) in
    omega (
      arith,
      pow-suc 2 w,
      bit_xor_step x (2 ^ suc w - 1),
      ap (bit_xor (x / 2)) half,
      not_ones w (x / 2) (omega (arith, pow-suc 2 w)),
    )

pub not64-eq : (x : ℕ) → x < u64_mod → not64 x ≡ u64_mod - 1 - x
not64-eq x h = not_ones 64 x h

pub not64-lt : (x : ℕ) → x < u64_mod → not64 x < u64_mod
not64-lt x h = omega (arith, not64-eq x h)

pub not64-not64 : (x : ℕ) → x < u64_mod → not64 (not64 x) ≡ x
not64-not64 x h = omega (arith, not64-eq x h, not64-eq (not64 x) (omega (arith, not64-eq x h)))

-- The complement of a word that is rotated to the left is rotated back.
pub rotate_right-not64 : (x : ℕ) → x < u64_mod → rotate_right (not64 (rotate_left x)) ≡ not64 x
rotate_right-not64 x h =
    let small = rotate_left-lt x h in
    let complement = not64-eq (rotate_left x) small in
    omega (
      arith,
      rotate_left-eq x h,
      complement,
      not64-eq x h,
      rotate_right-eq (not64 (rotate_left x)) (omega (arith, complement)),
    )
