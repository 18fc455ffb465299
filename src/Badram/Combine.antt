-- ===== src/Badram/Combine.antt =====
-- What a pattern stands for, and what `combine` of app/badram.c does to it.
use memtest86plus.Base.{ℕ, ◌-◌, ◌^◌, ◌≤◌, ◌<◌, min, max, bit_and, bit_or, bit_xor}
use memtest86plus.Base.{
  ◌≡◌, refl, ap, ◌∙◌, arith, u64_max, not64, table_holds, table_entry, ◌==◌, ==_iff, true, ◌⊎◌, inl,
  inr, sym,
}
use native.Mathlib.Decide.{dec_lt}
use memtest86plus.Base.Bits.{
  bit, xor_bit, bit-le-one, bit-bit_and, bit-bit_or, bit-bit_xor, bit_ext,
}
use memtest86plus.Base.Bits.{bit_and-le_left, bit_and-le_right}
use memtest86plus.Config.{ErrorMode}
use memtest86plus.Badram.{Pattern, combine_mask, combine}

-- In the BadRAM mode a pattern covers the addresses that agree with it where its mask is 1; else
-- those of its range.
abbrev pub Covers : ErrorMode → Pattern → ℕ → Type 0
Covers ErrorMode.badram p x = bit_and x p.mask ≡ bit_and p.addr p.mask
Covers _ p x = (p.addr ≤ x) × (x ≤ p.mask)

-- The words fit 64 bits, and a range is not empty.
abbrev pub IsPattern : ErrorMode → Pattern → Type 0
IsPattern ErrorMode.badram p = (p.addr < 2 ^ 64) × (p.mask < 2 ^ 64)
IsPattern _ p = (p.addr < 2 ^ 64) × (p.mask < 2 ^ 64) × (p.addr ≤ p.mask)

bit-max_table : table_holds (λ i. bit i u64_max == 1) 64 ≡ true
unfolding table_holds
bit-max_table = refl

pub bit-u64_max : (i : ℕ) → i < 64 → bit i u64_max ≡ 1
bit-u64_max i h = (==_iff _ 1).0 (table_entry (λ i. bit i u64_max == 1) 64 i h bit-max_table)

-- Bit by bit: where the new mask is 1, both masks are and the addresses agree.
pub bit-combine_mask :
    (i a b c d : ℕ)
    → i < 64
    → bit i (combine_mask a b c d) ≡ min (min (bit i b) (bit i d)) (1 - xor_bit (bit i a) (bit i c))
unfolding combine_mask
bit-combine_mask i a b c d h = omega (
  arith,
  bit-bit_and i (bit_and b d) (not64 (bit_xor a c)),
  bit-bit_and i b d,
  bit-bit_xor i (bit_xor a c) u64_max,
  bit-bit_xor i a c,
  bit-u64_max i h,
)

pub combine_mask-le : (a b c d : ℕ) → combine_mask a b c d ≤ b
unfolding combine_mask
combine_mask-le a b c d =
    omega (arith, bit_and-le_left (bit_and b d) (not64 (bit_xor a c)), bit_and-le_left b d)

-- Of bits: a new mask bit of 1 means that both masks have it and the addresses agree.
mask_bit_cases :
    (a b c d m : ℕ)
    → a ≤ 1
    → b ≤ 1
    → c ≤ 1
    → d ≤ 1
    → m ≡ min (min b d) (1 - xor_bit a c)
    → (m ≡ 0) ⊎ ((m ≡ 1) × (b ≡ 1) × (d ≡ 1) × (a ≡ c))
mask_bit_cases a b c d m ha hb hc hd e = elim (dec_lt m 1) [
  | yes l ↦ inl (omega arith)
  | no g ↦ inr (omega arith, omega arith, omega arith, omega arith)
]

agree_bits :
    (x a b c d m : ℕ)
    → a ≤ 1
    → b ≤ 1
    → c ≤ 1
    → d ≤ 1
    → m ≡ min (min b d) (1 - xor_bit a c)
    → (min x b ≡ min a b) ⊎ (min x d ≡ min c d)
    → min x m ≡ min (max a c) m
agree_bits x a b c d m ha hb hc hd e agree = elim (mask_bit_cases a b c d m ha hb hc hd e) [
  | inl z ↦ omega (arith, z)
  | inr f ↦ elim agree [
    | inl g ↦ omega (arith, f.0, f.1, f.2, f.3, g)
    | inr g ↦ omega (arith, f.0, f.1, f.2, f.3, g)
  ]
]

-- Where the new mask is 1 an address with a bit that agrees with one of the two patterns agrees
-- with the new address.
bit-agree :
    (i x a b c d : ℕ)
    → i < 64
    → (min (bit i x) (bit i b) ≡ min (bit i a) (bit i b))
      ⊎ (min (bit i x) (bit i d) ≡ min (bit i c) (bit i d))
    → let m = combine_mask a b c d in
      bit i (bit_and x m) ≡ bit i (bit_and (bit_and (bit_or a c) m) m)
bit-agree i x a b c d h agree =
    let m = combine_mask a b c d in
    let left : bit i (bit_and x m) ≡ min (bit i x) (bit i m) = bit-bit_and i x m in
    let right : bit i (bit_and (bit_and (bit_or a c) m) m)
        ≡ min (max (bit i a) (bit i c)) (bit i m) =
      omega (
        arith,
        bit-bit_and i (bit_and (bit_or a c) m) m,
        bit-bit_and i (bit_or a c) m,
        bit-bit_or i a c,
      ) in
    left
    ∙ agree_bits (bit i x) (bit i a) (bit i b) (bit i c) (bit i d) (bit i m) (bit-le-one i a)
        (bit-le-one i b) (bit-le-one i c) (bit-le-one i d) (bit-combine_mask i a b c d h) agree
    ∙ sym right

bit_agrees :
    (i x a m : ℕ) → bit_and x m ≡ bit_and a m → min (bit i x) (bit i m) ≡ min (bit i a) (bit i m)
bit_agrees i x a m e = omega (arith, ap (bit i) e, bit-bit_and i x m, bit-bit_and i a m)

-- In the BadRAM mode, what either pattern covers the combined one does.
combine_mask_covers :
    (x a b c d : ℕ)
    → b < 2 ^ 64
    → (bit_and x b ≡ bit_and a b) ⊎ (bit_and x d ≡ bit_and c d)
    → let m = combine_mask a b c d in bit_and x m ≡ bit_and (bit_and (bit_or a c) m) m
combine_mask_covers x a b c d hb e =
    let m = combine_mask a b c d in
    bit_ext 64 (bit_and x m) (bit_and (bit_and (bit_or a c) m) m)
      (omega (arith, bit_and-le_right x m, combine_mask-le a b c d))
      (omega (arith, bit_and-le_right (bit_and (bit_or a c) m) m, combine_mask-le a b c d))
      (λ i h.
        bit-agree i x a b c d h
          (elim e [ inl p ↦ inl (bit_agrees i x a b p) | inr p ↦ inr (bit_agrees i x c d p) ]))

-- `combine` covers what either pattern covers.
pub combine-Covers :
    (mode : ErrorMode) (p q : Pattern) (x : ℕ)
    → IsPattern mode p
    → Covers mode p x ⊎ Covers mode q x
    → Covers mode (combine mode p q) x
unfolding combine
combine-Covers ErrorMode.badram p q x v c = combine_mask_covers x p.addr p.mask q.addr q.mask v.1 c
combine-Covers ErrorMode.none p q x v c = ground arith
combine-Covers _ p q x v c = ground arith

-- `combine` gives a pattern of 64-bit words, and a range that is not empty.
pub combine-IsPattern :
    (mode : ErrorMode) (p q : Pattern)
    → IsPattern mode p
    → IsPattern mode q
    → IsPattern mode (combine mode p q)
unfolding combine
combine-IsPattern ErrorMode.badram p q v w =
    let m = combine_mask p.addr p.mask q.addr q.mask in
    omega (
      arith,
      bit_and-le_right (bit_or p.addr q.addr) m,
      combine_mask-le p.addr p.mask q.addr q.mask,
    )
combine-IsPattern ErrorMode.none p q v w = ground arith
combine-IsPattern _ p q v w = ground arith
