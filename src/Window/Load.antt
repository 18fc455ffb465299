-- ===== src/Window/Load.antt =====
-- `set_load_addr` of app/main.c: the addresses that the program is moved to.
use memtest86plus.Base.{
  ℕ, ◌+◌, ◌*◌, ◌^◌, ◌≤◌, ◌<◌, List, [], ◌∷◌, true, ◌&&◌, ◌≡◌, arith, ◌⊎◌, inl, inr, Bool-cases,
  some, ltb, leb, add64, shl64, if◌then◌else◌,
}
use mathlib.Core.Option.{some-injective}
use memtest86plus.Pmem.Map.{Segment}
use memtest86plus.Window.{addr_range_is_usable, find_load_addr, set_load_addr}

-- Every segment ends at an address below 2^63.
abbrev pub HavePages : List Segment → Type 0
HavePages [] = Unit {0}
HavePages (s ∷ ss) = (s.start ≤ s.end) × (s.end < 2 ^ 51) × HavePages ss

-- The bytes from `a` up to `b` lie in one segment.
abbrev pub IsInside : List Segment → ℕ → ℕ → Type 0
IsInside [] a b = ⊥
IsInside (s ∷ ss) a b = ((s.start * 4096 ≤ a) × (b ≤ s.end * 4096)) ⊎ IsInside ss a b

usable-IsInside :
    (ss : List Segment) (a size : ℕ)
    → HavePages ss
    → a < 2 ^ 63
    → size < 2 ^ 63
    → addr_range_is_usable ss a size ≡ true
    → IsInside ss a (a + size)
unfolding addr_range_is_usable
usable-IsInside [] a size pages ha hs e = ground (arith, e)
usable-IsInside (s ∷ ss) a size (le, below, pages) ha hs e =
    elim (Bool-cases (leb (shl64 s.start 12) a && leb (add64 a size) (shl64 s.end 12))) [
      | inl here ↦ inl (ground (arith, here), ground (arith, here))
      | inr away ↦ inr (usable-IsInside ss a size pages ha hs (rw away at e))
    ]

found-IsInside :
    (ss : List Segment) (size lower upper a : ℕ)
    → HavePages ss
    → size < 2 ^ 63
    → lower < 2 ^ 63
    → find_load_addr ss size lower upper ≡ some a
    → IsInside ss a (a + size) × (lower ≤ a) × (a < upper)
unfolding find_load_addr
found-IsInside [] size lower upper a pages hs hl e = ground (arith, e)
found-IsInside (s ∷ ss) size lower upper a (le, below, pages) hs hl e =
    let later = found-IsInside ss size lower upper a pages hs hl in
    let pass : find_load_addr ss size lower upper ≡ some a
        → IsInside (s ∷ ss) a (a + size) × (lower ≤ a) × (a < upper) =
      λ f. (let (i, l, u) = later f in (inr i, l, u)) in
    let start = if ltb (shl64 s.start 12) lower then lower else shl64 s.start 12 in
    elim (Bool-cases (ltb (shl64 s.end 12) (add64 start size))) [
      | inl long ↦ pass (rw long at e)
      | inr fits ↦ elim (Bool-cases (leb upper start)) [
        | inl high ↦ ground (arith, rw (fits, high) at e)
        | inr under ↦ elim (Bool-cases (ltb (add64 start size) lower)) [
          | inl low ↦ pass (rw (fits, under, low) at e)
          | inr ends ↦
              (let found : start ≡ a = some-injective _ _ (rw (fits, under, ends) at e) in
                (
                  inl (ground (arith, found, fits), ground (arith, found, fits)),
                  ground (arith, found),
                  ground (arith, found, under),
                ))
        ]
      ]
    ]

-- If every segment ends below 2^63, and the program is smaller than that and runs below it:
-- `set_load_addr` only returns an address from the lower limit up to the upper limit, at which the
-- program lies within one segment.
pub set_load_addr_lem :
    (pm_map : List Segment) (current size lower upper a : ℕ)
    → HavePages pm_map
    → size < 2 ^ 63
    → current < 2 ^ 63
    → 0 < size
    → lower < 2 ^ 63
    → set_load_addr pm_map current size lower upper ≡ some a
    → IsInside pm_map a (a + size) × (lower ≤ a) × (a < upper)
unfolding set_load_addr
set_load_addr_lem pm_map current size lower upper a pages hs hc some_size hl e =
    elim (Bool-cases (
      leb lower current
      && leb (add64 current size) upper
      && addr_range_is_usable pm_map current size)) [
        | inl stay ↦
            (let here : current ≡ a = some-injective _ _ (rw stay at e) in
              rw⁻¹ here (
                usable-IsInside pm_map current size pages hc hs (ground (arith, stay)),
                ground (arith, stay),
                ground (arith, stay),
              ))
        | inr move ↦ found-IsInside pm_map size lower upper a pages hs hl (rw move at e)
      ]
