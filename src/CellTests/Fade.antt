-- ===== src/CellTests/Fade.antt =====
-- tests/bit_fade.c: the words are filled, left alone for some seconds, and checked, in four rounds.
use memtest86plus.Base.{
  ℕ, zero, suc, ◌+◌, ◌-◌, ◌*◌, ◌/◌, ◌%◌, ◌≡◌, arith, Bool, true, false, List, [], Option, none,
  some, leb, ◌==◌, if◌then◌else◌, bit_xor, add64, shr64, u64_mod, u64_max, get_or,
}
use memtest86plus.Chunk.{VmSegment}
use memtest86plus.Vm.{vm_window_size, vm_pinned_size}
use memtest86plus.CellTests.{
  Machine, TestState, Outcome, next, then_do, write_word, check_word, test_span, ranges_up,
}
use memtest86plus.CellTests.Ranges.{all_words, all_spans, AreRanges}
use memtest86plus.CellTests.Pass.{fault, all_reports}
use memtest86plus.CellTests.Cells.{cells, AreOnce}
use memtest86plus.CellTests.Passes.{
  Reports, Reports-then, Reports-end, AreHeld, idle-Reports, fill-Reports, check-Reports,
}

pub fade_mix : ℕ → ℕ
fade_mix x =
    let a = bit_xor x (shr64 x 30) in
    let b = a * 0xbf58_476d_1ce4_e5b9 % u64_mod in
    let c = bit_xor b (shr64 b 27) in
    let d = c * 0x94d0_49bb_1331_11eb % u64_mod in bit_xor d (shr64 d 31)

pub fade_seed : ℕ → ℕ
fade_seed pass_num = fade_mix (add64 1 pass_num * 0x9e37_79b9_7f4a_7c15 % u64_mod)

-- The argument is `vm_map[0].pm_base_addr`.
pub fade_addr_offset : ℕ → ℕ
fade_addr_offset pm_base_addr =
    let offset = pm_base_addr / vm_window_size * vm_window_size in
    let above = if leb vm_pinned_size offset then offset - vm_pinned_size else 0 in
    above * 4096 % u64_mod

-- What a round stores in the word at `p`.
pub fade_pattern : ℕ → ℕ → ℕ → ℕ → ℕ
fade_pattern pass_num pm_base_addr round p =
    let invert = if round % 2 == 1 then u64_max else 0 in
    if leb 2 round
    then bit_xor (fade_mix (bit_xor (add64 p (fade_addr_offset pm_base_addr)) (fade_seed pass_num)))
        invert
    else invert

abbrev no_base : VmSegment
no_base = record { pm_base_addr = 0; start = 0; end = 0; proximity_domain_idx = 0 }

abbrev pub base_of : List VmSegment → ℕ
base_of vs = (get_or vs 0 no_base).pm_base_addr

pub pattern_fill : Machine → Option ℕ → ℕ → List VmSegment → ℕ → TestState → Outcome
pattern_fill k cpu pass_num vs round s =
    ranges_up k cpu (λ p. write_word p (fade_pattern pass_num (base_of vs) round p)) vs s

pub pattern_check : Machine → Option ℕ → ℕ → List VmSegment → ℕ → TestState → Outcome
pattern_check k cpu pass_num vs round s =
    ranges_up k cpu (λ p. check_word k p (fade_pattern pass_num (base_of vs) round p)) vs s

pub fade_delay : Machine → Option ℕ → ℕ → TestState → Outcome
fade_delay k cpu zero s = next s
fade_delay k cpu (suc sleep_secs) s =
    then_do (test_span k cpu (λ m. m) s) (fade_delay k cpu sleep_secs)

abbrev is_last : Option ℕ → ℕ → Bool
is_last none stage = false
is_last (some last_stage) stage = stage == last_stage

-- `last_stage` is the static variable, or `none` for its first value, -1; the call sets it to `stage`.
pub test_bit_fade : Machine → Option ℕ → ℕ → List VmSegment → Option ℕ → ℕ → ℕ → TestState → Outcome
test_bit_fade k cpu pass_num vs last_stage stage sleep_secs s =
    let sleep = fade_delay k cpu sleep_secs s in
    if stage % 3 == 0
    then pattern_fill k cpu pass_num vs (stage / 3) s
    else if stage % 3 == 1
    then (if is_last last_stage stage then next s else sleep)
    else pattern_check k cpu pass_num vs (stage / 3) s

-- The three stages of a round in a window, which start after another stage.
pub fade_round : Machine → Option ℕ → ℕ → List VmSegment → Option ℕ → ℕ → ℕ → TestState → Outcome
fade_round k cpu pass_num vs last_stage round secs s =
    then_do (test_bit_fade k cpu pass_num vs last_stage (round * 3) secs s) (λ s1.
      then_do (test_bit_fade k cpu pass_num vs (some (round * 3)) (round * 3 + 1) secs s1)
        (λ s2. test_bit_fade k cpu pass_num vs (some (round * 3 + 1)) (round * 3 + 2) secs s2))

module _ (k : Machine) (quiet : (n : ℕ) → k.bail n ≡ false) (cpu : ℕ) (pass_num : ℕ)
    (vs : List VmSegment) (ranges : AreRanges k (some cpu) vs)
    (once : AreOnce (all_words k (some cpu) vs)) where
  abbrev spans : ℕ
  spans = all_spans k (some cpu) vs

  fade_delay-Reports :
      (Post : (ℕ → ℕ) → Type 0) (secs : ℕ) (s : TestState)
      → Post s.ram.memory
      → Reports (fade_delay k (some cpu) secs s) [] secs Post s
  unfolding fade_delay
  fade_delay-Reports Post zero s post = Reports-end s post
  fade_delay-Reports Post (suc secs) s post =
      let count : suc secs ≡ 1 + secs = omega arith in
      rw count (
        Reports-then (idle-Reports k quiet cpu vs ranges once Post s post)
          (fade_delay-Reports Post secs))

  abbrev value : ℕ → ℕ → ℕ
  value round = fade_pattern pass_num (base_of vs) round

  -- If no run is told to stop, each range of the CPU is empty or made of whole words, and no word occurs
  -- twice in them: the three stages of a round of `test_bit_fade` end, and the last one reports the words
  -- that do not keep the value of the round at their address, and nothing else. The ticks are the spans
  -- of the ranges, twice, and the seconds of the delay.
  pub test_bit_fade_lem :
      (last_stage : Option ℕ) (round secs : ℕ) (s : TestState)
      → Reports
          (fade_round k (some cpu) pass_num vs last_stage round secs s)
          (all_reports (fault k) (cells (value round) (all_words k (some cpu) vs)))
          (spans + (secs + spans))
          (AreHeld (value round) (all_words k (some cpu) vs))
          s
  unfolding fade_round test_bit_fade pattern_fill pattern_check
  test_bit_fade_lem last_stage round secs s =
      let f = value round in
      let a : (round * 3 % 3 == 0) ≡ true = ground arith in
      let a' : round * 3 / 3 ≡ round = omega arith in
      let b : ((round * 3 + 1) % 3 == 0) ≡ false = ground arith in
      let b' : ((round * 3 + 1) % 3 == 1) ≡ true = ground arith in
      let b'' : (round * 3 + 1 == round * 3) ≡ false = ground arith in
      let c : ((round * 3 + 2) % 3 == 0) ≡ false = ground arith in
      let c' : ((round * 3 + 2) % 3 == 1) ≡ false = ground arith in
      let c'' : (round * 3 + 2) / 3 ≡ round = omega arith in
      rw (a, a', b, b', b'', c, c', c'')
        (Reports-then (fill-Reports k quiet cpu vs ranges once f s) (λ s1 h1.
          Reports-then (fade_delay-Reports (AreHeld f (all_words k (some cpu) vs)) secs s1 h1)
            (check-Reports k quiet cpu vs ranges once f)))
