-- ===== src/CellTests/Passes.antt =====
-- The passes of a test over its ranges: how each ends, what it reports and which values it leaves behind.
use memtest86plus.Base.{ℕ, ◌+◌, ◌≡◌, refl, ap, ◌∙◌, sym, arith, false, List, [], ◌++◌, some}
use mathlib.Core.List.{append-nil, append_assoc}
use memtest86plus.Chunk.{VmSegment}
use memtest86plus.CellTests.{
  Machine, Ram, DataError, TestState, Outcome, next, then_do, write_word, check_word, test_span,
  do_tick, ranges_up, ranges_down,
}
use memtest86plus.CellTests.Loops.{visit, visit_back, finish}
use memtest86plus.CellTests.Ranges.{
  all_words, all_spans, all_calls, AreRanges, ranges_up-finish, ranges_down-finish,
}
use memtest86plus.CellTests.Pass.{
  Cell, fault, all_reports, all_reports_back, AreReady, IsHeld, Passed,
}
use memtest86plus.CellTests.Cells.{
  cells, AreOnce, cells-AreReady, fill-Passed, check-Passed, invert-Passed, invert_back-Passed,
}

-- A stretch of code that starts with `s` ends without a `return`, with these reports, so many ticks, and
-- a memory as `Post` says.
pub record Reports (o : Outcome) (reports : List DataError) (ticks : ℕ) (Post : (ℕ → ℕ) → Type 0)
    (s : TestState) : Type 0 where
  pub end : TestState
  pub ends : o ≡ next end
  pub errors : end.ram.errors ≡ s.ram.errors ++ reports
  pub counted : end.ticks ≡ s.ticks + ticks
  pub post : Post end.ram.memory

pub Reports-after :
    {o : Outcome} (rest : TestState → Outcome) {first later : List DataError} {a b : ℕ}
    {Middle Post : (ℕ → ℕ) → Type 0} {s : TestState} (r : Reports o first a Middle s)
    → Reports (rest r.end) later b Post r.end
    → Reports (then_do o rest) (first ++ later) (a + b) Post s
Reports-after rest {first = first} {later = later} {s = s} r r' = record {
  end = r'.end;
  ends = rw r.ends r'.ends;
  errors =
      r'.errors
      ∙ ap (λ (l : List DataError). l ++ later) r.errors
      ∙ append_assoc s.ram.errors first later;
  counted = omega (arith, r.counted, r'.counted);
  post = r'.post;
}

pub Reports-then :
    {o : Outcome} {rest : TestState → Outcome} {first later : List DataError} {a b : ℕ}
    {Middle Post : (ℕ → ℕ) → Type 0} {s : TestState}
    → Reports o first a Middle s
    → ((s' : TestState) → Middle s'.ram.memory → Reports (rest s') later b Post s')
    → Reports (then_do o rest) (first ++ later) (a + b) Post s
Reports-then {rest = rest} r go = Reports-after rest r (go r.end r.post)

pub Reports-end :
    {Post : (ℕ → ℕ) → Type 0} (s : TestState) → Post s.ram.memory → Reports (next s) [] 0 Post s
Reports-end s post = record {
  end = s;
  ends = refl;
  errors = sym (append-nil s.ram.errors);
  counted = omega arith;
  post = post;
}

-- Words that hold these values.
abbrev pub AreHeld : (ℕ → ℕ) → List ℕ → (ℕ → ℕ) → Type 0
AreHeld f ps m = AreReady IsHeld (cells f ps) m

-- A machine on which no test is told to stop, a CPU, and its ranges, with no word twice.
module _ (k : Machine) (quiet : (n : ℕ) → k.bail n ≡ false) (cpu : ℕ) (vs : List VmSegment)
    (ranges : AreRanges k (some cpu) vs) (once : AreOnce (all_words k (some cpu) vs)) where
  abbrev ps : List ℕ
  ps = all_words k (some cpu) vs

  abbrev spans : ℕ
  spans = all_spans k (some cpu) vs

  -- A span without words only takes its tick.
  pub idle-Reports :
      (Post : (ℕ → ℕ) → Type 0) (s : TestState)
      → Post s.ram.memory
      → Reports (test_span k (some cpu) (λ m. m) s) [] 1 Post s
  unfolding test_span do_tick
  idle-Reports Post s post = record {
    end = record s { ticks = s.ticks + 1; ticked = s.ticked + 1 };
    ends = rw (quiet (s.ticked + 1)) refl;
    errors = sym (append-nil s.ram.errors);
    counted = refl;
    post = post;
  }

  -- The words of the ranges are done by a pass with this outcome.
  pub ranges_up-Reports :
      (op : ℕ → Ram → Ram) (reports : List DataError) (Post : (ℕ → ℕ) → Type 0) (s : TestState)
      → (visit op ps s.ram).errors ≡ s.ram.errors ++ reports
      → Post (visit op ps s.ram).memory
      → Reports (ranges_up k (some cpu) op vs s) reports spans Post s
  unfolding finish
  ranges_up-Reports op reports Post s errors post = record {
    end = finish (some cpu) (visit op ps) spans (all_calls k (some cpu) vs) s;
    ends = ranges_up-finish k (some cpu) quiet op vs s ranges;
    errors = errors;
    counted = refl;
    post = post;
  }

  pass_up :
      (op : ℕ → Ram → Ram) {value : Cell → ℕ} {reports : List DataError} (f g : ℕ → ℕ)
      (s : TestState)
      → Passed value reports (cells f ps) s.ram (visit op ps s.ram)
      → ((a : ℕ) → value (a, f a) ≡ g a)
      → Reports (ranges_up k (some cpu) op vs s) reports spans (AreHeld g ps) s
  pass_up op {value} {reports} f g s p e =
      ranges_up-Reports op reports (AreHeld g ps) s p.errors
        (cells-AreReady f g value ps (visit op ps s.ram).memory e p.holds)

  pub ranges_down-Reports :
      (op : ℕ → Ram → Ram) (reports : List DataError) (Post : (ℕ → ℕ) → Type 0) (s : TestState)
      → (visit_back op ps s.ram).errors ≡ s.ram.errors ++ reports
      → Post (visit_back op ps s.ram).memory
      → Reports (ranges_down k (some cpu) op vs s) reports spans Post s
  unfolding finish
  ranges_down-Reports op reports Post s errors post = record {
    end = finish (some cpu) (visit_back op ps) spans (all_calls k (some cpu) vs) s;
    ends = ranges_down-finish k (some cpu) quiet op vs s ranges;
    errors = errors;
    counted = refl;
    post = post;
  }

  pass_down :
      (op : ℕ → Ram → Ram) {value : Cell → ℕ} {reports : List DataError} (f g : ℕ → ℕ)
      (s : TestState)
      → Passed value reports (cells f ps) s.ram (visit_back op ps s.ram)
      → ((a : ℕ) → value (a, f a) ≡ g a)
      → Reports (ranges_down k (some cpu) op vs s) reports spans (AreHeld g ps) s
  pass_down op {value} {reports} f g s p e =
      ranges_down-Reports op reports (AreHeld g ps) s p.errors
        (cells-AreReady f g value ps (visit_back op ps s.ram).memory e p.holds)

  pub fill-Reports :
      (f : ℕ → ℕ) (s : TestState)
      → Reports (ranges_up k (some cpu) (λ p. write_word p (f p)) vs s) [] spans (AreHeld f ps) s
  fill-Reports f s =
      pass_up (λ p. write_word p (f p)) f f s (fill-Passed k ps once s.ram f) (λ a. refl)

  pub check-Reports :
      (f : ℕ → ℕ) (s : TestState)
      → AreHeld f ps s.ram.memory
      → Reports
          (ranges_up k (some cpu) (λ p. check_word k p (f p)) vs s)
          (all_reports (fault k) (cells f ps))
          spans
          (AreHeld f ps)
          s
  check-Reports f s held =
      pass_up (λ p. check_word k p (f p)) f f s (check-Passed k ps once s.ram f held) (λ a. refl)

  module _ (f w : ℕ → ℕ) (s : TestState) (held : AreHeld f ps s.ram.memory) where
    pub invert-Reports :
        Reports
          (ranges_up k (some cpu) (λ p m. write_word p (w (f p)) (check_word k p (f p) m)) vs s)
          (all_reports (fault k) (cells f ps))
          spans
          (AreHeld (λ a. w (f a)) ps)
          s
    invert-Reports =
        pass_up (λ p m. write_word p (w (f p)) (check_word k p (f p) m)) f (λ a. w (f a)) s
          (invert-Passed k ps once s.ram f held w) (λ a. refl)

    pub invert_back-Reports :
        Reports
          (ranges_down k (some cpu) (λ p m. write_word p (w (f p)) (check_word k p (f p) m)) vs s)
          (all_reports_back (fault k) (cells f ps))
          spans
          (AreHeld (λ a. w (f a)) ps)
          s
    invert_back-Reports =
        pass_down (λ p m. write_word p (w (f p)) (check_word k p (f p) m)) f (λ a. w (f a)) s
          (invert_back-Passed k ps once s.ram f held w) (λ a. refl)
