-- ===== src/CellTests/OwnAddr.antt =====
-- tests/own_addr.c: each word is filled with its own address and checked. The test goes over whole
-- segments.
use memtest86plus.Base.{
  ℕ, ◌+◌, ◌-◌, ◌*◌, ◌/◌, ◌%◌, ◌^◌, ◌≤◌, ◌<◌, ◌≡◌, refl, arith, false, ltb, leb, ◌==◌, if◌then◌else◌,
  List, [], ◌∷◌, Option, some, add64, u64_mod,
}
use memtest86plus.Chunk.{VmSegment, word_size}
use memtest86plus.Chunk.Share.{calculate_chunk-one}
use memtest86plus.Vm.{vm_window_size, vm_pinned_size, first_word_mapping}
use memtest86plus.CellTests.{
  Machine, Ram, TestState, Outcome, next, returned, then_do, write_word, check_word, spans_up,
  num_spans, range_up, ranges_up,
}
use memtest86plus.CellTests.Ranges.{all_words, all_spans, AreRanges}
use memtest86plus.CellTests.Pass.{fault, all_reports}
use memtest86plus.CellTests.Cells.{cells, AreOnce}
use memtest86plus.CellTests.Passes.{Reports, Reports-then, AreHeld, fill-Reports, check-Reports}

-- The loop over the segments, where `op` is done at each word.
pub segments_up : Machine → Option ℕ → (ℕ → Ram → Ram) → List VmSegment → TestState → Outcome
segments_up k cpu op [] s = next s
segments_up k cpu op (v ∷ vs) s =
    then_do (spans_up k cpu op (num_spans v.start v.end) v.start v.end s) (segments_up k cpu op vs)

pub own_fill : Machine → Option ℕ → List VmSegment → ℕ → TestState → Outcome
own_fill k cpu vs offset s = segments_up k cpu (λ p. write_word p (add64 p offset)) vs s

pub own_check : Machine → Option ℕ → List VmSegment → ℕ → TestState → Outcome
own_check k cpu vs offset s = segments_up k cpu (λ p. check_word k p (add64 p offset)) vs s

pub test_own_addr1 : Machine → Option ℕ → List VmSegment → TestState → Outcome
test_own_addr1 k cpu vs s = then_do (own_fill k cpu vs 0 s) (own_check k cpu vs 0)

-- The offset of `test_own_addr2`; the argument is `vm_map[0].pm_base_addr`.
pub own_offset : ℕ → ℕ
own_offset pm_base_addr =
    let offset = pm_base_addr / vm_window_size * vm_window_size in
    (if leb vm_pinned_size offset then offset - vm_pinned_size else 0) * 4096 % u64_mod

pub test_own_addr2 : Machine → Option ℕ → ℕ → List VmSegment → ℕ → TestState → Outcome
test_own_addr2 k cpu pm_base_addr vs stage s =
    if stage == 0
    then own_fill k cpu vs (own_offset pm_base_addr) s
    else if stage == 1
    then own_check k cpu vs (own_offset pm_base_addr) s
    else next s

-- Within the window of the first segment, the pattern of `test_own_addr2` in a word is the physical
-- address of the word.
pub own_offset-first_word_mapping :
    (base page : ℕ)
    → base / vm_window_size ≡ page / vm_window_size
    → page < 2 ^ 52
    → (r : ℕ) → r < 4096
    → add64 (first_word_mapping page + r) (own_offset base) ≡ page * 4096 + r
unfolding own_offset first_word_mapping
own_offset-first_word_mapping base page same small r h = ground (arith, same, small, h)

-- No segment is empty.
abbrev pub AreFull : List VmSegment → Type 0
AreFull [] = Unit {0}
AreFull (v ∷ vs) = (v.start ≤ v.end) × AreFull vs

then_do-ext :
    (o : Outcome) (f g : TestState → Outcome)
    → ((s : TestState) → f s ≡ g s)
    → then_do o f ≡ then_do o g
then_do-ext (next s) f g e = e s
then_do-ext (returned s) f g e = refl

-- With one active CPU the chunks are the segments.
segments_up-ranges_up :
    (k : Machine) (cpu : Option ℕ) (op : ℕ → Ram → Ram) (vs : List VmSegment) (s : TestState)
    → k.cpus.num_active_cpus ≡ 1
    → AreFull vs
    → segments_up k cpu op vs s ≡ ranges_up k cpu op vs s
unfolding segments_up ranges_up range_up
segments_up-ranges_up k cpu op [] s one full = refl
segments_up-ranges_up k cpu op (v ∷ vs) s one (f, fs) =
    let whole = calculate_chunk-one k.cpus cpu v word_size one in
    let kept : ltb v.end v.start ≡ false = ground (arith, f) in
    rw (whole, kept)
      (then_do-ext (spans_up k cpu op (num_spans v.start v.end) v.start v.end s)
        (segments_up k cpu op vs) (ranges_up k cpu op vs)
        (λ s'. segments_up-ranges_up k cpu op vs s' one fs))

module _ (k : Machine) (quiet : (n : ℕ) → k.bail n ≡ false) (cpu : ℕ) (vs : List VmSegment)
    (ranges : AreRanges k (some cpu) vs) (once : AreOnce (all_words k (some cpu) vs))
    (one : k.cpus.num_active_cpus ≡ 1) (full : AreFull vs) where
  abbrev ps : List ℕ
  ps = all_words k (some cpu) vs

  abbrev spans : ℕ
  spans = all_spans k (some cpu) vs

  own_fill-Reports :
      (offset : ℕ) (s : TestState)
      → Reports (own_fill k (some cpu) vs offset s) [] spans (AreHeld (λ p. add64 p offset) ps) s
  unfolding own_fill
  own_fill-Reports offset s =
      rw (segments_up-ranges_up k (some cpu) (λ p. write_word p (add64 p offset)) vs s one full)
        (fill-Reports k quiet cpu vs ranges once (λ p. add64 p offset) s)

  own_check-Reports :
      (offset : ℕ) (s : TestState)
      → AreHeld (λ p. add64 p offset) ps s.ram.memory
      → Reports
          (own_check k (some cpu) vs offset s)
          (all_reports (fault k) (cells (λ p. add64 p offset) ps))
          spans
          (AreHeld (λ p. add64 p offset) ps)
          s
  unfolding own_check
  own_check-Reports offset s held =
      rw (segments_up-ranges_up k (some cpu) (λ p. check_word k p (add64 p offset)) vs s one full)
        (check-Reports k quiet cpu vs ranges once (λ p. add64 p offset) s held)

  -- If no run is told to stop, one CPU is active, and no segment is empty or overlaps another: the own
  -- address test ends and reports the words that do not keep their own address, and nothing else.
  pub test_own_addr1_lem :
      (s : TestState)
      → Reports
          (test_own_addr1 k (some cpu) vs s)
          (all_reports (fault k) (cells (λ p. add64 p 0) ps))
          (spans + spans)
          (AreHeld (λ p. add64 p 0) ps)
          s
  unfolding test_own_addr1
  test_own_addr1_lem s = Reports-then (own_fill-Reports 0 s) (own_check-Reports 0)

  -- The same of the two stages of the test with the window, where a word has its physical address.
  pub test_own_addr2_lem :
      (base : ℕ) (s : TestState)
      → Reports
          (then_do
            (test_own_addr2 k (some cpu) base vs 0 s)
            (test_own_addr2 k (some cpu) base vs 1))
          (all_reports (fault k) (cells (λ p. add64 p (own_offset base)) ps))
          (spans + spans)
          (AreHeld (λ p. add64 p (own_offset base)) ps)
          s
  unfolding test_own_addr2
  test_own_addr2_lem base s =
      Reports-then (own_fill-Reports (own_offset base) s) (own_check-Reports (own_offset base))
