-- ===== src/Badram/Arrays.antt =====
-- The loops of app/badram.c that move entries within the array, index by index.
use memtest86plus.Base.{ℕ, zero, suc, ◌+◌, ◌-◌, ◌≤◌, ◌<◌, List, ◌≡◌, refl, arith}
use memtest86plus.Base.{length, get_or, set, length-set, get_or-set_self, get_or-set_ne, ◌∙◌}
use native.Mathlib.Decide.{dec_lt}
use memtest86plus.Badram.{Pattern, Table, blank, shift_up, shift_down, insert_at, remove_pair}

abbrev pub entry : List Pattern → ℕ → Pattern
entry ps i = get_or ps i blank

pub length-shift_up : (left idx : ℕ) (ps : List Pattern) → length (shift_up ps left idx) ≡ length ps
unfolding shift_up
length-shift_up zero idx ps = refl
length-shift_up (suc left) idx ps =
    length-shift_up left idx (set ps (idx + left + 1) (entry ps (idx + left)))
    ∙ length-set ps (idx + left + 1) (entry ps (idx + left))

-- `shift_up` moves the `left` entries from `idx` on one index up, and leaves those below `idx`.
pub entry-shift_up_below :
    (left idx j : ℕ) (ps : List Pattern) → j < idx → entry (shift_up ps left idx) j ≡ entry ps j
unfolding shift_up
entry-shift_up_below zero idx j ps h = refl
entry-shift_up_below (suc left) idx j ps h =
    entry-shift_up_below left idx j (set ps (idx + left + 1) (entry ps (idx + left))) h
    ∙ get_or-set_ne ps (idx + left + 1) j (entry ps (idx + left)) blank (omega arith)

entry-shift_up_above :
    (left idx j : ℕ) (ps : List Pattern)
    → idx + left < j
    → entry (shift_up ps left idx) j ≡ entry ps j
unfolding shift_up
entry-shift_up_above zero idx j ps h = refl
entry-shift_up_above (suc left) idx j ps h =
    entry-shift_up_above left idx j (set ps (idx + left + 1) (entry ps (idx + left))) (omega arith)
    ∙ get_or-set_ne ps (idx + left + 1) j (entry ps (idx + left)) blank (omega arith)

pub entry-shift_up_moved :
    (left idx j : ℕ) (ps : List Pattern)
    → idx ≤ j
    → j < idx + left
    → idx + left < length ps
    → entry (shift_up ps left idx) (j + 1) ≡ entry ps j
unfolding shift_up
entry-shift_up_moved zero idx j ps h k fits = absurd (omega arith)
entry-shift_up_moved (suc left) idx j ps h k fits =
    let moved = set ps (idx + left + 1) (entry ps (idx + left)) in
    elim (dec_lt j (idx + left)) [
      | yes l ↦
          entry-shift_up_moved left idx j moved h l
            (omega (arith, length-set ps (idx + left + 1) (entry ps (idx + left))))
          ∙ get_or-set_ne ps (idx + left + 1) j (entry ps (idx + left)) blank (omega arith)
      | no g ↦
          let last : j ≡ idx + left = omega arith in
          rw last (
            entry-shift_up_above left idx (idx + left + 1) moved (omega arith)
            ∙ get_or-set_self ps (idx + left + 1) (entry ps (idx + left)) blank (omega arith))
    ]

pub length-shift_down : (left i : ℕ) (ps : List Pattern) → length (shift_down ps left i) ≡ length ps
unfolding shift_down
length-shift_down zero i ps = refl
length-shift_down (suc left) i ps =
    length-shift_down left (i + 1) (set ps i (entry ps (i + 2)))
    ∙ length-set ps i (entry ps (i + 2))

entry-shift_down_below :
    (left i j : ℕ) (ps : List Pattern) → j < i → entry (shift_down ps left i) j ≡ entry ps j
unfolding shift_down
entry-shift_down_below zero i j ps h = refl
entry-shift_down_below (suc left) i j ps h =
    entry-shift_down_below left (i + 1) j (set ps i (entry ps (i + 2))) (omega arith)
    ∙ get_or-set_ne ps i j (entry ps (i + 2)) blank (omega arith)

-- `shift_down` moves the `left` entries from `i + 2` on two indices down.
entry-shift_down_moved :
    (left i j : ℕ) (ps : List Pattern)
    → i ≤ j
    → j < i + left
    → i + left ≤ length ps
    → entry (shift_down ps left i) j ≡ entry ps (j + 2)
unfolding shift_down
entry-shift_down_moved zero i j ps h k fits = absurd (omega arith)
entry-shift_down_moved (suc left) i j ps h k fits =
    let moved = set ps i (entry ps (i + 2)) in
    elim (dec_lt i j) [
      | yes l ↦
          entry-shift_down_moved left (i + 1) j moved (omega arith) (omega arith)
            (omega (arith, length-set ps i (entry ps (i + 2))))
          ∙ get_or-set_ne ps i (j + 2) (entry ps (i + 2)) blank (omega arith)
      | no g ↦
          let first : j ≡ i = omega arith in
          rw first (
            entry-shift_down_below left (i + 1) i moved (omega arith)
            ∙ get_or-set_self ps i (entry ps (i + 2)) blank (omega arith))
    ]

-- `insert_at` puts the pattern at `idx` and moves the entries from there on one index up.
module _ (t : Table) (p : Pattern) (idx : ℕ) (within : idx ≤ t.num_patterns)
    (room : t.num_patterns < length t.patterns) where
  abbrev shifted : List Pattern
  shifted = shift_up t.patterns (t.num_patterns - idx) idx

  pub length-insert_at : length (insert_at t p idx).patterns ≡ length t.patterns
  unfolding insert_at
  length-insert_at =
      length-set shifted idx p ∙ length-shift_up (t.num_patterns - idx) idx t.patterns

  pub insert_at_self : entry (insert_at t p idx).patterns idx ≡ p
  unfolding insert_at
  insert_at_self =
      get_or-set_self shifted idx p blank
        (omega (arith, length-shift_up (t.num_patterns - idx) idx t.patterns))

  pub insert_at_below :
      (j : ℕ) → j < idx → entry (insert_at t p idx).patterns j ≡ entry t.patterns j
  unfolding insert_at
  insert_at_below j h =
      get_or-set_ne shifted idx j p blank (omega arith)
      ∙ entry-shift_up_below (t.num_patterns - idx) idx j t.patterns h

  pub insert_at_above :
      (j : ℕ)
      → idx ≤ j
      → j < t.num_patterns
      → entry (insert_at t p idx).patterns (j + 1) ≡ entry t.patterns j
  unfolding insert_at
  insert_at_above j h k =
      get_or-set_ne shifted idx (j + 1) p blank (omega arith)
      ∙ entry-shift_up_moved (t.num_patterns - idx) idx j t.patterns h (omega arith) (omega arith)

-- `remove_pair` closes the gap that the entries at `idx` and `idx + 1` leave.
module _ (t : Table) (idx : ℕ) (within : idx + 2 ≤ t.num_patterns)
    (fits : t.num_patterns ≤ length t.patterns) where
  abbrev closed : List Pattern
  closed = shift_down t.patterns (t.num_patterns - 2 - idx) idx

  pub length-remove_pair : length (remove_pair t idx).patterns ≡ length t.patterns
  unfolding remove_pair
  length-remove_pair =
      length-set (set closed (t.num_patterns - 1) blank) (t.num_patterns - 2) blank
      ∙ length-set closed (t.num_patterns - 1) blank
      ∙ length-shift_down (t.num_patterns - 2 - idx) idx t.patterns

  unblanked :
      (j : ℕ) → j < t.num_patterns - 2 → entry (remove_pair t idx).patterns j ≡ entry closed j
  unfolding remove_pair
  unblanked j h =
      get_or-set_ne (set closed (t.num_patterns - 1) blank) (t.num_patterns - 2) j blank blank
        (omega arith)
      ∙ get_or-set_ne closed (t.num_patterns - 1) j blank blank (omega arith)

  pub remove_pair_below :
      (j : ℕ) → j < idx → entry (remove_pair t idx).patterns j ≡ entry t.patterns j
  remove_pair_below j h =
      unblanked j (omega arith)
      ∙ entry-shift_down_below (t.num_patterns - 2 - idx) idx j t.patterns h

  pub remove_pair_above :
      (j : ℕ)
      → idx ≤ j
      → j + 2 < t.num_patterns
      → entry (remove_pair t idx).patterns j ≡ entry t.patterns (j + 2)
  remove_pair_above j h k =
      unblanked j (omega arith)
      ∙ entry-shift_down_moved (t.num_patterns - 2 - idx) idx j t.patterns h (omega arith)
          (omega arith)
