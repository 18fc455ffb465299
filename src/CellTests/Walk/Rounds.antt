-- ===== src/CellTests/Walk/Rounds.antt =====
-- What the walking-bit test of tests/mov_inv_walk1.c reports.
use memtest86plus.Base.{
  ℕ, zero, suc, ◌+◌, ◌*◌, ◌%◌, ◌^◌, ◌≡◌, ◌<◌, refl, ap, ◌∙◌, sym, arith, Bool, true, false, List,
  [], ◌++◌, some, not64, u64_mod,
}
use mathlib.Core.Path.{subst}
use memtest86plus.Chunk.{VmSegment}
use memtest86plus.CellTests.{Machine, Ram, DataError, TestState, ranges_up, ranges_down}
use memtest86plus.CellTests.Loops.{visit, visit_back, finish}
use memtest86plus.CellTests.Ranges.{all_words, all_spans, all_calls, AreRanges, ranges_up-finish}
use memtest86plus.CellTests.Pass.{
  fault, all_reports, all_reports_back, AreReady, IsHeld, write_cell, check_and_write, visit-Passed,
  visit_back-Passed, write-IsVisit, check_and_write-IsVisit,
}
use memtest86plus.CellTests.Cells.{AreOnce}
use memtest86plus.CellTests.Passes.{
  Reports, Reports-then, Reports-after, Reports-end, ranges_up-Reports, ranges_down-Reports,
}
use memtest86plus.CellTests.Random.{
  set_pattern, restart, restart-Reports, silent, write_cell-IsBlind, invert_cell-IsBlind,
}
use memtest86plus.CellTests.Walk.{
  walk_fill, walk_up, walk_down, complement, first_pattern, walk_rounds, test_mov_inv_walk1,
}
use memtest86plus.CellTests.Walk.Rotate.{not64-not64, not64-lt}
use memtest86plus.CellTests.Walk.Cells.{
  walked, last_pattern, visit-walked, visit_back-walked, walked-AreDistinct, walked-AreReady,
  walked-free,
}

-- The reports of the rounds over the words `ps`.
unfoldable pub walk_reports : Machine → List ℕ → ℕ → ℕ → List DataError
walk_reports k ps first zero = []
walk_reports k ps first (suc iterations) =
    all_reports (fault k) (walked (λ x. x) first ps)
    ++ (all_reports_back (fault k) (walked not64 first ps) ++ walk_reports k ps first iterations)

module _ (k : Machine) (quiet : (n : ℕ) → k.bail n ≡ false) (cpu : ℕ) (vs : List VmSegment)
    (ranges : AreRanges k (some cpu) vs) (once : AreOnce (all_words k (some cpu) vs)) where
  abbrev ps : List ℕ
  ps = all_words k (some cpu) vs

  abbrev spans : ℕ
  spans = all_spans k (some cpu) vs

  module _ (first : ℕ) (small : first < u64_mod) where
    abbrev AreIn : (ℕ → ℕ) → (ℕ → ℕ) → Type 0
    AreIn value m = AreReady IsHeld (walked value first ps) m

    fill-Reports :
        (s : TestState)
        → Reports
            (ranges_up k (some cpu) walk_fill vs (restart first s))
            []
            spans
            (AreIn (λ x. x))
            s
    unfolding walk_fill
    fill-Reports s =
        let cs = walked (λ x. x) first ps in
        let m = set_pattern first s.ram in
        let p =
          visit-Passed write-IsVisit cs m (walked-AreDistinct (λ x. x) first ps once)
            (walked-free (λ x. x) first ps m.memory) in
        let e = visit-walked write_cell ps m write_cell-IsBlind in
        restart-Reports first s (
          ranges_up-Reports k quiet cpu vs ranges once walk_fill [] (AreIn (λ x. x))
            (restart first s)
            (rw e (p.errors ∙ ap (λ (l : List DataError). m.errors ++ l) (silent cs)))
            (rw e (
              walked-AreReady (λ x. x) (λ x. x) (λ c. c.1) first ps (visit write_cell cs m).memory
                small (λ a y h. refl) p.holds)))

    -- Upwards, where the pattern ends as `last_pattern` says.
    up-Reports :
        (s : TestState)
        → AreIn (λ x. x) s.ram.memory
        → (r : Reports
            (ranges_up k (some cpu) (walk_up k) vs (restart first s))
            (all_reports (fault k) (walked (λ x. x) first ps))
            spans
            (AreIn not64)
            s)
          × (r.end.ram.pattern ≡ last_pattern first ps)
    unfolding walk_up finish
    up-Reports s held =
        let op = check_and_write k not64 in
        let cs = walked (λ x. x) first ps in
        let m = set_pattern first s.ram in
        let p =
          visit-Passed (check_and_write-IsVisit k not64) cs m
            (walked-AreDistinct (λ x. x) first ps once) held in
        let e = visit-walked op ps m (invert_cell-IsBlind k not64) in
        (
          record {
            end =
                finish (some cpu) (visit (walk_up k) ps) spans (all_calls k (some cpu) vs)
                  (restart first s);
            ends = ranges_up-finish k (some cpu) quiet (walk_up k) vs (restart first s) ranges;
            errors = rw e p.errors;
            counted = refl;
            post = rw e (
                walked-AreReady (λ x. x) not64 (λ c. not64 c.1) first ps (visit op cs m).memory
                  small (λ a y h. refl) p.holds);
          },
          ap (λ (n : Ram). n.pattern) e,
        )

    down-Reports :
        (s : TestState)
        → s.ram.pattern ≡ last_pattern first ps
        → AreIn not64 s.ram.memory
        → Reports
            (ranges_down k (some cpu) (walk_down k) vs (complement s))
            (all_reports_back (fault k) (walked not64 first ps))
            spans
            (AreIn (λ x. x))
            s
    unfolding walk_down
    down-Reports s at_end held =
        let op = check_and_write k not64 in
        let cs = walked not64 first ps in
        let y = not64 s.ram.pattern in
        let m = set_pattern y s.ram in
        let p =
          visit_back-Passed (check_and_write-IsVisit k not64) cs s.ram
            (walked-AreDistinct not64 first ps once) held in
        let e =
          subst
            (λ (x : ℕ).
              visit_back (walk_down k) ps (set_pattern (not64 x) s.ram)
              ≡ set_pattern (not64 first) (visit_back op cs s.ram))
            (sym at_end)
            (visit_back-walked op ps first s.ram (invert_cell-IsBlind k not64) small) in
        restart-Reports y s (
          ranges_down-Reports k quiet cpu vs ranges once (walk_down k)
            (all_reports_back (fault k) cs) (AreIn (λ x. x)) (complement s) (rw e p.errors)
            (rw e (
              walked-AreReady not64 (λ x. x) (λ c. not64 c.1) first ps
                (visit_back op cs s.ram).memory small (λ a x h. not64-not64 x h) p.holds)))

    rounds-Reports :
        (iterations : ℕ) (s : TestState)
        → AreIn (λ x. x) s.ram.memory
        → Reports
            (walk_rounds k (some cpu) iterations first vs s)
            (walk_reports k ps first iterations)
            (iterations * (spans + spans))
            (AreIn (λ x. x))
            s
    unfolding walk_rounds walk_reports
    rounds-Reports zero s held =
        let none_yet : 0 * (spans + spans) ≡ 0 = omega arith in rw none_yet (Reports-end s held)
    rounds-Reports (suc iterations) s held =
        let count : suc iterations * (spans + spans)
            ≡ spans + (spans + iterations * (spans + spans)) =
          omega arith in
        let (up, at_end) = up-Reports s held in
        rw count (
          Reports-after _ up
            (Reports-then (down-Reports up.end at_end up.post) (rounds-Reports iterations)))

  first_pattern-lt : (offset : ℕ) (inverse : Bool) → first_pattern offset inverse < u64_mod
  first_pattern-lt offset true = not64-lt (2 ^ offset % u64_mod) (omega arith)
  first_pattern-lt offset false = omega arith

  -- If no run is told to stop, each range of the CPU is empty or made of whole words, and no word occurs
  -- twice in them: the test ends, and in each iteration it reports the words that do not keep the walking
  -- pattern, upwards, and then those that do not keep its complement, downwards, and nothing else.
  pub test_mov_inv_walk1_lem :
      (iterations offset : ℕ) (inverse : Bool) (s : TestState)
      → Reports
          (test_mov_inv_walk1 k (some cpu) iterations offset inverse vs s)
          (walk_reports k ps (first_pattern offset inverse) iterations)
          (spans + iterations * (spans + spans))
          (AreReady IsHeld (walked (λ x. x) (first_pattern offset inverse) ps))
          s
  unfolding test_mov_inv_walk1
  test_mov_inv_walk1_lem iterations offset inverse s =
      let small = first_pattern-lt offset inverse in
      Reports-then (fill-Reports (first_pattern offset inverse) small s)
        (rounds-Reports (first_pattern offset inverse) small iterations)
