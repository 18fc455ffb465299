-- ===== src/CellTests/Examples.antt =====
-- Tests of the models of the tests in tests/*.c, and the theorems at a concrete machine: three words in
-- two segments, one of them with a bit that is stuck at 1.
use memtest86plus.Base.{
  ◌+◌, ◌*◌, ◌≡◌, refl, arith, false, List, [], ◌∷◌, ◌++◌, some, none, ◌==◌, if◌then◌else◌, bit_or,
  add64, not64, inr, true,
}
use memtest86plus.Chunk.{VmSegment, Cpus, calculate_chunk}
use memtest86plus.CellTests.{Machine, TestState, then_do}
use memtest86plus.CellTests.Loops.{word_list}
use memtest86plus.CellTests.Ranges.{all_words, all_spans, AreRanges}
use memtest86plus.CellTests.Pass.{AreReady, IsHeld, fault, all_reports, all_reports_back}
use memtest86plus.CellTests.Cells.{cells, AreOnce}
use memtest86plus.CellTests.Passes.{Reports, AreHeld}
use memtest86plus.CellTests.Fixed.{test_mov_inv_fixed, fixed_reports, test_mov_inv_fixed_lem}
use memtest86plus.CellTests.Fade.{fade_pattern, fade_round, test_bit_fade_lem}
use memtest86plus.CellTests.OwnAddr.{test_own_addr2, own_offset, test_own_addr2_lem}
use memtest86plus.CellTests.Random.{test_mov_inv_random, sequence, test_mov_inv_random_lem}
use memtest86plus.CellTests.Walk.{first_pattern, test_mov_inv_walk1, rotate_left, rotate_right}
use memtest86plus.CellTests.Walk.Cells.{walked}
use memtest86plus.CellTests.Walk.Rounds.{walk_reports, test_mov_inv_walk1_lem}

abbrev one_cpu : Cpus
one_cpu = record {
  num_active_cpus = 1;
  enable_numa = false;
  chunk_index = λ cpu. cpu;
  used_cpus_in_proximity_domain = λ d. 1;
  proximity_domain_of = λ cpu. 0;
}

abbrev stuck : Machine
stuck = record {
  cpus = one_cpu;
  cell = λ a v. if a == 0x1008 then bit_or v 4 else v;
  bail = λ n. false;
}

abbrev segments : List VmSegment
segments =
    record { pm_base_addr = 1; start = 0x1000; end = 0x1008; proximity_domain_idx = 0 }
    ∷ record { pm_base_addr = 4; start = 0x4000; end = 0x4000; proximity_domain_idx = 0 }
    ∷ []

abbrev blank : TestState
blank = record { ram = record { memory = λ a. 0; errors = []; pattern = 0 }; ticks = 0; ticked = 0 }

segments-AreRanges : AreRanges stuck (some 0) segments
unfolding calculate_chunk
segments-AreRanges = (inr (1, refl), (inr (0, refl), tt))

segments-AreOnce : AreOnce (all_words stuck (some 0) segments)
unfolding calculate_chunk all_words word_list
segments-AreOnce = ((omega arith, (omega arith, tt)), ((omega arith, tt), (tt, tt)))

-- The stuck bit shows where the pattern has a 0 there.
stuck_reports :
    fixed_reports stuck (all_words stuck (some 0) segments) 0 7 1
    ≡ record { addr = 0x1008; expect = 0; actual = 4 } ∷ []
unfolding calculate_chunk all_words word_list fixed_reports all_reports all_reports_back cells
stuck_reports = refl

test_mov_inv_fixed_lem_example :
    Reports
      (test_mov_inv_fixed stuck (some 0) 2 0 7 segments blank)
      (fixed_reports stuck (all_words stuck (some 0) segments) 0 7 2)
      (all_spans stuck (some 0) segments
        + 2 * (all_spans stuck (some 0) segments + all_spans stuck (some 0) segments))
      (AreHeld (λ p. 0) (all_words stuck (some 0) segments))
      blank
test_mov_inv_fixed_lem_example =
    test_mov_inv_fixed_lem stuck (λ n. refl) 0 segments segments-AreRanges segments-AreOnce 0 7 2
      blank

test_bit_fade_lem_example :
    Reports
      (fade_round stuck (some 0) 3 segments none 2 9 blank)
      (all_reports (fault stuck) (cells (fade_pattern 3 1 2) (all_words stuck (some 0) segments)))
      (all_spans stuck (some 0) segments + (9 + all_spans stuck (some 0) segments))
      (AreHeld (fade_pattern 3 1 2) (all_words stuck (some 0) segments))
      blank
test_bit_fade_lem_example =
    test_bit_fade_lem stuck (λ n. refl) 0 3 segments segments-AreRanges segments-AreOnce none 2 9
      blank

test_own_addr2_lem_example :
    Reports
      (then_do
        (test_own_addr2 stuck (some 0) 1 segments 0 blank)
        (test_own_addr2 stuck (some 0) 1 segments 1))
      (all_reports
        (fault stuck)
        (cells (λ p. add64 p (own_offset 1)) (all_words stuck (some 0) segments)))
      (all_spans stuck (some 0) segments + all_spans stuck (some 0) segments)
      (AreHeld (λ p. add64 p (own_offset 1)) (all_words stuck (some 0) segments))
      blank
test_own_addr2_lem_example =
    test_own_addr2_lem stuck (λ n. refl) 0 segments segments-AreRanges segments-AreOnce refl
      (omega arith, (omega arith, tt)) 1 blank

test_mov_inv_random_lem_example :
    Reports
      (test_mov_inv_random stuck (some 0) 5 segments blank)
      (all_reports (fault stuck) (sequence (λ x. x) 5 (all_words stuck (some 0) segments))
        ++ all_reports (fault stuck) (sequence not64 5 (all_words stuck (some 0) segments)))
      (all_spans stuck (some 0) segments
        + (all_spans stuck (some 0) segments + all_spans stuck (some 0) segments))
      (AreReady IsHeld (sequence (λ x. not64 (not64 x)) 5 (all_words stuck (some 0) segments)))
      blank
test_mov_inv_random_lem_example =
    test_mov_inv_random_lem stuck (λ n. refl) 0 segments segments-AreRanges segments-AreOnce 5 blank

test_mov_inv_walk1_lem_example :
    Reports
      (test_mov_inv_walk1 stuck (some 0) 2 3 true segments blank)
      (walk_reports stuck (all_words stuck (some 0) segments) (first_pattern 3 true) 2)
      (all_spans stuck (some 0) segments
        + 2 * (all_spans stuck (some 0) segments + all_spans stuck (some 0) segments))
      (AreReady IsHeld (walked (λ x. x) (first_pattern 3 true) (all_words stuck (some 0) segments)))
      blank
test_mov_inv_walk1_lem_example =
    test_mov_inv_walk1_lem stuck (λ n. refl) 0 segments segments-AreRanges segments-AreOnce 2 3 true
      blank

-- The pattern walks to the left over the end of the word, and back.
walks : (rotate_left 0x8000_0000_0000_0001 ≡ 3) × (rotate_right 3 ≡ 0x8000_0000_0000_0001)
unfolding rotate_left rotate_right
walks = (refl, refl)
