-- ===== src/CellTests/Walk.antt =====
-- tests/mov_inv_walk1.c: moving inversions with a walking bit. The local variable `pattern` is the
-- `pattern` of the state.
pub mod Rotate
pub mod Cells
pub mod Rounds
use memtest86plus.Base.{
  ℕ, zero, suc, ◌+◌, ◌*◌, ◌/◌, ◌%◌, ◌^◌, Bool, true, false, if◌then◌else◌, List, [], ◌∷◌, ◌++◌,
  Option, bit_or, not64, u64_mod,
}
use memtest86plus.Chunk.{VmSegment}
use memtest86plus.CellTests.Random.{set_pattern, restart}
use memtest86plus.CellTests.{
  Machine, Ram, DataError, TestState, Outcome, next, then_do, write_word, check_word, ranges_up,
  ranges_down,
}

-- `pattern << 1 | pattern >> (TESTWORD_WIDTH - 1)`
unfoldable pub rotate_left : ℕ → ℕ
rotate_left x = bit_or (x * 2 % u64_mod) (x / 2 ^ 63)

-- `pattern >> 1 | pattern << (TESTWORD_WIDTH - 1)`
unfoldable pub rotate_right : ℕ → ℕ
rotate_right x = bit_or (x / 2) (x * 2 ^ 63 % u64_mod)

unfoldable pub walk_fill : ℕ → Ram → Ram
walk_fill p m = let x = m.pattern in set_pattern (rotate_left x) (write_word p x m)

unfoldable pub walk_up : Machine → ℕ → Ram → Ram
walk_up k p m =
    let x = m.pattern in set_pattern (rotate_left x) (write_word p (not64 x) (check_word k p x m))

unfoldable pub walk_down : Machine → ℕ → Ram → Ram
walk_down k p m =
    let x = rotate_right m.pattern in set_pattern x (write_word p (not64 x) (check_word k p x m))

-- The first pattern, for an offset less than 64.
abbrev pub first_pattern : ℕ → Bool → ℕ
first_pattern offset inverse =
    if inverse then not64 (2 ^ offset % u64_mod) else 2 ^ offset % u64_mod

-- `pattern = ~pattern`
abbrev pub complement : TestState → TestState
complement s = restart (not64 s.ram.pattern) s

unfoldable pub walk_rounds : Machine → Option ℕ → ℕ → ℕ → List VmSegment → TestState → Outcome
walk_rounds k cpu zero first vs s = next s
walk_rounds k cpu (suc iterations) first vs s =
    then_do (ranges_up k cpu (walk_up k) vs (restart first s)) (λ s1.
      then_do (ranges_down k cpu (walk_down k) vs (complement s1))
        (walk_rounds k cpu iterations first vs))

unfoldable pub test_mov_inv_walk1 :
    Machine → Option ℕ → ℕ → ℕ → Bool → List VmSegment → TestState → Outcome
test_mov_inv_walk1 k cpu iterations offset inverse vs s =
    let first = first_pattern offset inverse in
    then_do (ranges_up k cpu walk_fill vs (restart first s)) (walk_rounds k cpu iterations first vs)
