-- ===== src/CellTests/Random.antt =====
-- tests/mov_inv_random.c: moving inversions with a pseudo-random sequence. The local variable
-- `prsg_state` is the `pattern` of the state.
use memtest86plus.Base.{
  ℕ, ◌+◌, ◌*◌, ◌%◌, ◌≡◌, refl, ap, ◌∙◌, sym, false, Bool-cases, List, [], ◌∷◌, ◌++◌, Option, none,
  some, ◌==◌, inl, inr, bit_xor, add64, not64, u64_max, u64_mod,
}
use mathlib.Core.Path.{subst}
use memtest86plus.Base.Bits.{bit_xor-zero}
use memtest86plus.Chunk.{VmSegment, prsg}
use memtest86plus.CellTests.{
  Machine, Ram, DataError, TestState, Outcome, then_do, write_word, check_word, ranges_up,
}
use memtest86plus.CellTests.Loops.{visit}
use memtest86plus.CellTests.Ranges.{all_words, all_spans, AreRanges}
use memtest86plus.CellTests.Pass.{
  Cell, fault, all_reports, AreReady, IsHeld, AreDistinct, IsApart, write_cell, check_and_write,
  visit-Passed, write-IsVisit, check_and_write-IsVisit, no_report,
}
use memtest86plus.CellTests.Cells.{AreOnce, IsNew}
use memtest86plus.CellTests.Passes.{Reports, Reports-then, ranges_up-Reports}

-- The seed, from the time-stamp counter if there is one.
pub random_seed : Option ℕ → ℕ → ℕ
random_seed none pass_num = add64 1 pass_num * 0x8765_4321 % u64_mod
random_seed (some tsc) pass_num = tsc * 0x8765_4321 % u64_mod

abbrev pub set_pattern : ℕ → Ram → Ram
set_pattern x m = record m { pattern = x }

pub fill_random : ℕ → Ram → Ram
fill_random p m = let x = prsg m.pattern in set_pattern x (write_word p x m)

pub invert_random : Machine → ℕ → ℕ → Ram → Ram
invert_random k invert p m =
    let x = prsg m.pattern in
    let expect = bit_xor x invert in
    set_pattern x (write_word p (not64 expect) (check_word k p expect m))

abbrev pub restart : ℕ → TestState → TestState
restart seed s = record s { ram = set_pattern seed s.ram }

-- The two rounds, where `invert` is 0 and then its complement.
pub test_mov_inv_random : Machine → Option ℕ → ℕ → List VmSegment → TestState → Outcome
test_mov_inv_random k cpu seed vs s =
    then_do (ranges_up k cpu fill_random vs (restart seed s)) (λ s1.
      then_do (ranges_up k cpu (invert_random k 0) vs (restart seed s1))
        (λ s2. ranges_up k cpu (invert_random k (not64 0)) vs (restart seed s2)))

-- The words with the values that the sequence gives them, behind the state `x`.
unfoldable pub sequence : (ℕ → ℕ) → ℕ → List ℕ → List Cell
sequence value x [] = []
sequence value x (p ∷ ps) = (p, value (prsg x)) ∷ sequence value (prsg x) ps

-- An operation that leaves the variable `pattern` alone.
abbrev pub IsBlind : (Cell → Ram → Ram) → Type 0
IsBlind op = (c : Cell) (x : ℕ) (m : Ram) → op c (set_pattern x m) ≡ set_pattern x (op c m)

pub visit-blind :
    (op : Cell → Ram → Ram) (cs : List Cell) (x : ℕ) (m : Ram)
    → IsBlind op
    → visit op cs (set_pattern x m) ≡ set_pattern x (visit op cs m)
unfolding visit
visit-blind op [] x m blind = refl
visit-blind op (c ∷ cs) x m blind =
    ap (visit op cs) (blind c x m) ∙ visit-blind op cs x (op c m) blind

last_state : ℕ → List ℕ → ℕ
last_state x [] = x
last_state x (p ∷ ps) = last_state (prsg x) ps

-- Where the state goes along the sequence, the visits are those of the sequence's cells.
visit-sequence :
    (op : Cell → Ram → Ram) (value : ℕ → ℕ) (ps : List ℕ) (m : Ram)
    → IsBlind op
    → visit (λ p n. set_pattern (prsg n.pattern) (op (p, value (prsg n.pattern)) n)) ps m
      ≡ set_pattern (last_state m.pattern ps) (visit op (sequence value m.pattern ps) m)
unfolding visit sequence last_state
visit-sequence op value [] m blind = refl
visit-sequence op value (p ∷ ps) m blind =
    let x = prsg m.pattern in
    let m' = op (p, value x) m in
    visit-sequence op value ps (set_pattern x m') blind
    ∙ ap (set_pattern (last_state x ps)) (visit-blind op (sequence value x ps) x m' blind)

pub write_cell-IsBlind : IsBlind write_cell
unfolding write_word
write_cell-IsBlind c x m = refl

pub invert_cell-IsBlind : (k : Machine) (w : ℕ → ℕ) → IsBlind (check_and_write k w)
unfolding write_word check_word
invert_cell-IsBlind k w c x m = elim (Bool-cases (k.cell c.0 (m.memory c.0) == c.1)) [
  | inl ok ↦ rw ok refl
  | inr bad ↦ rw bad refl
]

sequence-IsApart :
    (value : ℕ → ℕ) (a x : ℕ) (ps : List ℕ) → IsNew a ps → IsApart a (sequence value x ps)
unfolding sequence
sequence-IsApart value a x [] n = tt
sequence-IsApart value a x (p ∷ ps) (n, ns) = (n, sequence-IsApart value a (prsg x) ps ns)

sequence-AreDistinct :
    (value : ℕ → ℕ) (x : ℕ) (ps : List ℕ) → AreOnce ps → AreDistinct (sequence value x ps)
unfolding sequence
sequence-AreDistinct value x [] o = tt
sequence-AreDistinct value x (p ∷ ps) (n, o) =
    (sequence-IsApart value p (prsg x) ps n, sequence-AreDistinct value (prsg x) ps o)

-- What a pass leaves behind is what the next one expects.
sequence-AreReady :
    (f g : ℕ → ℕ) (value : Cell → ℕ) (x : ℕ) (ps : List ℕ) (m : ℕ → ℕ)
    → ((a y : ℕ) → value (a, f y) ≡ g y)
    → AreReady (λ c v. v ≡ value c) (sequence f x ps) m
    → AreReady IsHeld (sequence g x ps) m
unfolding sequence
sequence-AreReady f g value x [] m e h = tt
sequence-AreReady f g value x (p ∷ ps) m e (h, hs) =
    (h ∙ e p (prsg x), sequence-AreReady f g value (prsg x) ps m e hs)

sequence-free :
    (f : ℕ → ℕ) (x : ℕ) (ps : List ℕ) (m : ℕ → ℕ) → AreReady (λ c v. Unit {0}) (sequence f x ps) m
unfolding sequence
sequence-free f x [] m = tt
sequence-free f x (p ∷ ps) m = (tt, sequence-free f (prsg x) ps m)

pub silent : (cs : List Cell) → all_reports no_report cs ≡ []
unfolding all_reports
silent [] = refl
silent (c ∷ cs) = silent cs

pub restart-Reports :
    {o : Outcome} {reports : List DataError} {ticks : ℕ} {Post : (ℕ → ℕ) → Type 0} (seed : ℕ)
    (s : TestState)
    → Reports o reports ticks Post (restart seed s)
    → Reports o reports ticks Post s
restart-Reports seed s r = record {
  end = r.end;
  ends = r.ends;
  errors = r.errors;
  counted = r.counted;
  post = r.post;
}

module _ (k : Machine) (quiet : (n : ℕ) → k.bail n ≡ false) (cpu : ℕ) (vs : List VmSegment)
    (ranges : AreRanges k (some cpu) vs) (once : AreOnce (all_words k (some cpu) vs))
    (seed : ℕ) where
  abbrev ps : List ℕ
  ps = all_words k (some cpu) vs

  abbrev spans : ℕ
  spans = all_spans k (some cpu) vs

  abbrev AreIn : (ℕ → ℕ) → (ℕ → ℕ) → Type 0
  AreIn value m = AreReady IsHeld (sequence value seed ps) m

  fill-Reports :
      (s : TestState)
      → Reports (ranges_up k (some cpu) fill_random vs (restart seed s)) [] spans (AreIn (λ x. x)) s
  unfolding fill_random
  fill-Reports s =
      let cs = sequence (λ x. x) seed ps in
      let m = set_pattern seed s.ram in
      let p =
        visit-Passed write-IsVisit cs m (sequence-AreDistinct (λ x. x) seed ps once)
          (sequence-free (λ x. x) seed ps m.memory) in
      let e = visit-sequence write_cell (λ x. x) ps m write_cell-IsBlind in
      restart-Reports seed s (
        ranges_up-Reports k quiet cpu vs ranges once fill_random [] (AreIn (λ x. x))
          (restart seed s)
          (rw e (p.errors ∙ ap (λ (l : List DataError). m.errors ++ l) (silent cs)))
          (rw e (
            sequence-AreReady (λ x. x) (λ x. x) (λ c. c.1) seed ps (visit write_cell cs m).memory
              (λ a y. refl) p.holds)))

  round-Reports :
      (invert : ℕ) (s : TestState)
      → AreIn (λ x. bit_xor x invert) s.ram.memory
      → Reports
          (ranges_up k (some cpu) (invert_random k invert) vs (restart seed s))
          (all_reports (fault k) (sequence (λ x. bit_xor x invert) seed ps))
          spans
          (AreIn (λ x. not64 (bit_xor x invert)))
          s
  unfolding invert_random
  round-Reports invert s held =
      let value : ℕ → ℕ = λ x. bit_xor x invert in
      let op = check_and_write k (λ v. not64 v) in
      let cs = sequence value seed ps in
      let m = set_pattern seed s.ram in
      let p =
        visit-Passed (check_and_write-IsVisit k (λ v. not64 v)) cs m
          (sequence-AreDistinct value seed ps once) held in
      let e = visit-sequence op value ps m (invert_cell-IsBlind k (λ v. not64 v)) in
      restart-Reports seed s (
        ranges_up-Reports k quiet cpu vs ranges once (invert_random k invert)
          (all_reports (fault k) cs) (AreIn (λ x. not64 (value x))) (restart seed s) (rw e p.errors)
          (rw e (
            sequence-AreReady value (λ x. not64 (value x)) (λ c. not64 c.1) seed ps
              (visit op cs m).memory (λ a y. refl) p.holds)))

  -- If no run is told to stop, each range of the CPU is empty or made of whole words, and no word occurs
  -- twice in them: the test ends, and reports the words that do not keep their word of the
  -- pseudo-random sequence, then those that do not keep its complement, and nothing else.
  pub test_mov_inv_random_lem :
      (s : TestState)
      → Reports
          (test_mov_inv_random k (some cpu) seed vs s)
          (all_reports (fault k) (sequence (λ x. x) seed ps)
            ++ all_reports (fault k) (sequence not64 seed ps))
          (spans + (spans + spans))
          (AreIn (λ x. not64 (not64 x)))
          s
  unfolding test_mov_inv_random
  test_mov_inv_random_lem s =
      let plain : ◌≡◌ {A = ℕ → ℕ} (λ x. bit_xor x 0) (λ x. x) = λ i x. bit_xor-zero x i in
      let all_ones : not64 0 ≡ u64_max = refl in
      Reports-then (fill-Reports s) (λ s1 h1.
        Reports-then
          (subst
            (λ (f : ℕ → ℕ).
              Reports (ranges_up k (some cpu) (invert_random k 0) vs (restart seed s1))
                (all_reports (fault k) (sequence f seed ps)) spans (AreIn (λ x. not64 (f x))) s1)
            plain
            (round-Reports 0 s1 (subst (λ (f : ℕ → ℕ). AreIn f s1.ram.memory) (sym plain) h1)))
          (λ s2 h2. round-Reports u64_max s2 h2))
