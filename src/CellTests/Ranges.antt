-- ===== src/CellTests/Ranges.antt =====
-- A test goes over the words of all its ranges once each, upwards or downwards, and a dummy run counts
-- the same number of ticks.
use memtest86plus.Base.{
  ℕ, suc, ◌+◌, ◌*◌, ◌/◌, ◌<◌, ◌≡◌, refl, ap, ◌∙◌, sym, arith, Bool, true, false, List, [], ◌∷◌,
  ◌++◌, Option, ltb, if◌then◌else◌, ◌⊎◌, inl, inr,
}
use memtest86plus.Chunk.{VmSegment, Chunk, word_size}
use memtest86plus.CellTests.{
  Machine, Ram, TestState, next, num_words, num_spans, chunk_of, range_up, range_down, ranges_up,
  ranges_down, spin_size,
}
use memtest86plus.CellTests.Loops.{
  word_list, visit, visit_back, visit-append, visit_back-append, finish, finish_same, finish_ext,
  then_finish, skip_range-finish, spans_up-finish, spans_down-finish,
}

-- A range is empty or made of whole words.
abbrev pub IsRange : Chunk → Type 0
IsRange c = (c.end < c.start) ⊎ ((w : ℕ) × (c.end ≡ c.start + w * word_size))

abbrev is_empty : Chunk → Bool
is_empty c = ltb c.end c.start

abbrev words : Chunk → List ℕ
words c = if is_empty c then [] else word_list (num_words c.start c.end) c.start

abbrev spans : Chunk → ℕ
spans c = if is_empty c then 0 else num_spans c.start c.end

abbrev calls : Chunk → ℕ
calls c = if is_empty c then 1 else num_spans c.start c.end

module _ (k : Machine) (cpu : Option ℕ) where
  -- The words of all ranges, and how many spans and calls of `do_tick` there are.
  unfoldable pub all_words : List VmSegment → List ℕ
  all_words [] = []
  all_words (v ∷ vs) = words (chunk_of k cpu v) ++ all_words vs

  unfoldable pub all_spans : List VmSegment → ℕ
  all_spans [] = 0
  all_spans (v ∷ vs) = spans (chunk_of k cpu v) + all_spans vs

  unfoldable pub all_calls : List VmSegment → ℕ
  all_calls [] = 0
  all_calls (v ∷ vs) = calls (chunk_of k cpu v) + all_calls vs

  abbrev pub AreRanges : List VmSegment → Type 0
  AreRanges [] = Unit {0}
  AreRanges (v ∷ vs) = IsRange (chunk_of k cpu v) × AreRanges vs

  module _ (quiet : (n : ℕ) → k.bail n ≡ false) (op : ℕ → Ram → Ram) where
    range_up-finish :
        (v : VmSegment) (s : TestState)
        → IsRange (chunk_of k cpu v)
        → range_up k cpu op v s
          ≡ next (
              finish cpu
                (visit op (words (chunk_of k cpu v)))
                (spans (chunk_of k cpu v))
                (calls (chunk_of k cpu v))
                s)
    unfolding range_up visit
    range_up-finish v s (inl e) =
        let c = chunk_of k cpu v in
        let skip : is_empty c ≡ true = ground (arith, e) in
        rw skip (skip_range-finish k quiet cpu s)
    range_up-finish v s (inr (w, e)) =
        let c = chunk_of k cpu v in
        let full : is_empty c ≡ false = ground (arith, e) in
        let count : num_words c.start c.end ≡ suc w = omega (arith, e) in
        let number : num_spans c.start c.end ≡ w / spin_size + 1 = omega (arith, e) in
        rw (full, count, number)
          (spans_up-finish k quiet cpu op (w / spin_size + 1) c.start c.end w s e (omega arith))

    range_down-finish :
        (v : VmSegment) (s : TestState)
        → IsRange (chunk_of k cpu v)
        → range_down k cpu op v s
          ≡ next (
              finish cpu
                (visit_back op (words (chunk_of k cpu v)))
                (spans (chunk_of k cpu v))
                (calls (chunk_of k cpu v))
                s)
    unfolding range_down visit_back
    range_down-finish v s (inl e) =
        let c = chunk_of k cpu v in
        let skip : is_empty c ≡ true = ground (arith, e) in
        rw skip (skip_range-finish k quiet cpu s)
    range_down-finish v s (inr (w, e)) =
        let c = chunk_of k cpu v in
        let full : is_empty c ≡ false = ground (arith, e) in
        let count : num_words c.start c.end ≡ suc w = omega (arith, e) in
        let number : num_spans c.start c.end ≡ w / spin_size + 1 = omega (arith, e) in
        rw (full, count, number)
          (spans_down-finish k quiet cpu op (w / spin_size + 1) c.end c.start w s e (omega arith))

    -- If the run is never told to stop and each range is empty or made of whole words, the loop over
    -- the segments does `op` at the words of all ranges, once each and in their order, and `ticks`
    -- grows by the number of spans; a dummy run changes nothing but `ticks`, by the same number.
    pub ranges_up-finish :
        (vs : List VmSegment) (s : TestState)
        → AreRanges vs
        → ranges_up k cpu op vs s
          ≡ next (finish cpu (visit op (all_words vs)) (all_spans vs) (all_calls vs) s)
    unfolding ranges_up all_words all_spans all_calls visit finish
    ranges_up-finish [] s r = ap next (sym (finish_same cpu (visit op []) s refl))
    ranges_up-finish (v ∷ vs) s (r, rs) =
        let c = chunk_of k cpu v in
        then_finish cpu (range_up k cpu op v s) (ranges_up k cpu op vs) (visit op (words c))
          (visit op (all_words vs)) (visit op (words c ++ all_words vs)) (spans c) (calls c)
          (all_spans vs) (all_calls vs) s (range_up-finish v s r)
          (ranges_up-finish vs (finish cpu (visit op (words c)) (spans c) (calls c) s) rs)
          (sym (visit-append op (words c) (all_words vs) s.ram))

    pub ranges_down-finish :
        (vs : List VmSegment) (s : TestState)
        → AreRanges vs
        → ranges_down k cpu op vs s
          ≡ next (finish cpu (visit_back op (all_words vs)) (all_spans vs) (all_calls vs) s)
    unfolding ranges_down all_words all_spans all_calls visit_back finish
    ranges_down-finish [] s r = ap next (sym (finish_same cpu (visit_back op []) s refl))
    ranges_down-finish (v ∷ vs) s (r, rs) =
        let c = chunk_of k cpu v in
        let both = visit_back op (words c ++ all_words vs) in
        then_finish cpu (ranges_down k cpu op vs s) (range_down k cpu op v)
          (visit_back op (all_words vs)) (visit_back op (words c)) both (all_spans vs)
          (all_calls vs) (spans c) (calls c) s (ranges_down-finish vs s rs)
          (range_down-finish v
            (finish cpu (visit_back op (all_words vs)) (all_spans vs) (all_calls vs) s) r)
          (sym (visit_back-append op (words c) (all_words vs) s.ram))
        ∙ ap next (
            finish_ext cpu both both (all_spans vs + spans c) (all_calls vs + calls c)
              (spans c + all_spans vs) (calls c + all_calls vs) s refl (omega arith) (omega arith))
