-- ===== src/CellTests/Fixed.antt =====
-- tests/mov_inv_fixed.c: moving inversions with two fixed patterns. The fill by `stosq` is the loop
-- that the C code has in its place.
use memtest86plus.Base.{ℕ, zero, suc, ◌+◌, ◌*◌, ◌≡◌, arith, false, List, [], ◌++◌, Option, some}
use memtest86plus.Chunk.{VmSegment}
use memtest86plus.CellTests.{
  Machine, Ram, DataError, TestState, Outcome, next, then_do, write_word, check_word, ranges_up,
  ranges_down,
}
use memtest86plus.CellTests.Ranges.{all_words, all_spans, AreRanges}
use memtest86plus.CellTests.Pass.{fault, all_reports, all_reports_back}
use memtest86plus.CellTests.Cells.{cells, AreOnce}
use memtest86plus.CellTests.Passes.{
  Reports, Reports-then, Reports-end, AreHeld, fill-Reports, invert-Reports, invert_back-Reports,
}

-- `if (actual != expect) data_error(...); write_word(p, value)`
abbrev pub invert_word : Machine → ℕ → ℕ → ℕ → Ram → Ram
invert_word k expect value p m = write_word p value (check_word k p expect m)

-- The loop over the iterations.
pub fixed_rounds : Machine → Option ℕ → ℕ → ℕ → ℕ → List VmSegment → TestState → Outcome
fixed_rounds k cpu zero pattern1 pattern2 vs s = next s
fixed_rounds k cpu (suc iterations) pattern1 pattern2 vs s =
    then_do (ranges_up k cpu (invert_word k pattern1 pattern2) vs s) (λ s'.
      then_do (ranges_down k cpu (invert_word k pattern2 pattern1) vs s')
        (fixed_rounds k cpu iterations pattern1 pattern2 vs))

pub test_mov_inv_fixed : Machine → Option ℕ → ℕ → ℕ → ℕ → List VmSegment → TestState → Outcome
test_mov_inv_fixed k cpu iterations pattern1 pattern2 vs s =
    then_do (ranges_up k cpu (λ p. write_word p pattern1) vs s)
      (fixed_rounds k cpu iterations pattern1 pattern2 vs)

-- The reports of the rounds over the words `ps`.
unfoldable pub fixed_reports : Machine → List ℕ → ℕ → ℕ → ℕ → List DataError
fixed_reports k ps pattern1 pattern2 zero = []
fixed_reports k ps pattern1 pattern2 (suc iterations) =
    all_reports (fault k) (cells (λ p. pattern1) ps)
    ++ (all_reports_back (fault k) (cells (λ p. pattern2) ps)
        ++ fixed_reports k ps pattern1 pattern2 iterations)

module _ (k : Machine) (quiet : (n : ℕ) → k.bail n ≡ false) (cpu : ℕ) (vs : List VmSegment)
    (ranges : AreRanges k (some cpu) vs) (once : AreOnce (all_words k (some cpu) vs))
    (pattern1 pattern2 : ℕ) where
  abbrev ps : List ℕ
  ps = all_words k (some cpu) vs

  abbrev spans : ℕ
  spans = all_spans k (some cpu) vs

  abbrev HoldFirst : (ℕ → ℕ) → Type 0
  HoldFirst = AreHeld (λ p. pattern1) ps

  fixed_rounds-Reports :
      (iterations : ℕ) (s : TestState)
      → HoldFirst s.ram.memory
      → Reports
          (fixed_rounds k (some cpu) iterations pattern1 pattern2 vs s)
          (fixed_reports k ps pattern1 pattern2 iterations)
          (iterations * (spans + spans))
          HoldFirst
          s
  unfolding fixed_rounds fixed_reports
  fixed_rounds-Reports zero s held =
      let none_yet : 0 * (spans + spans) ≡ 0 = omega arith in rw none_yet (Reports-end s held)
  fixed_rounds-Reports (suc iterations) s held =
      let count : suc iterations * (spans + spans)
          ≡ spans + (spans + iterations * (spans + spans)) =
        omega arith in
      rw count (
        Reports-then
          (invert-Reports k quiet cpu vs ranges once (λ p. pattern1) (λ v. pattern2) s held)
          (λ s1 held1.
            Reports-then
              (invert_back-Reports k quiet cpu vs ranges once (λ p. pattern2) (λ v. pattern1) s1
                held1)
              (fixed_rounds-Reports iterations)))

  -- If no run is told to stop, each range of the CPU is empty or made of whole words, and no word occurs
  -- twice in them: the test ends, and in each iteration it reports the words that do not keep the first
  -- pattern, upwards, and then those that do not keep the second one, downwards, and nothing else. Its
  -- ticks are the spans of the ranges, once for the fill and twice per iteration.
  pub test_mov_inv_fixed_lem :
      (iterations : ℕ) (s : TestState)
      → Reports
          (test_mov_inv_fixed k (some cpu) iterations pattern1 pattern2 vs s)
          (fixed_reports k ps pattern1 pattern2 iterations)
          (spans + iterations * (spans + spans))
          HoldFirst
          s
  unfolding test_mov_inv_fixed
  test_mov_inv_fixed_lem iterations s =
      Reports-then (fill-Reports k quiet cpu vs ranges once (λ p. pattern1) s)
        (fixed_rounds-Reports iterations)
