-- ===== src/CellTests.antt =====
-- The loops that the tests of tests/*.c share: a test goes over the words of each segment of
-- `vm_map`, in spans of `SPIN_SIZE` words, upwards or downwards. Addresses of words are byte addresses.
pub mod Loops
pub mod Ranges
pub mod Pass
pub mod Cells
pub mod Passes
pub mod Fixed
pub mod Fade
pub mod OwnAddr
pub mod Random
pub mod Walk
mod Examples
use memtest86plus.Base.{
  ℕ, zero, suc, ◌+◌, ◌-◌, ◌*◌, ◌/◌, Bool, true, false, List, [], ◌∷◌, ◌++◌, Option, none, some, ltb,
  leb, ◌==◌, if◌then◌else◌, add64, sub64,
}
use memtest86plus.Chunk.{VmSegment, Chunk, Cpus, calculate_chunk, word_size}

-- The hardware: `cell a v` is what a read of the word at `a` returns when `v` was written last, and
-- `bail n` is the flag `bail` after the call number `n` of `do_tick`.
pub record Machine : Type 0 where
  pub cpus : Cpus
  pub cell : ℕ → ℕ → ℕ
  pub bail : ℕ → Bool

-- A call of `data_error`.
pub record DataError : Type 0 where
  pub addr : ℕ
  pub expect : ℕ
  pub actual : ℕ

-- What was written last to each word, the errors that were reported, and the local variable of the
-- test that holds its pattern.
pub record Ram : Type 0 where
  pub memory : ℕ → ℕ
  pub errors : List DataError
  pub pattern : ℕ

-- `ticks` is the local variable of that name, and `ticked` counts the calls of `do_tick`.
pub record TestState : Type 0 where
  pub ram : Ram
  pub ticks : ℕ
  pub ticked : ℕ

-- Where a piece of code ends: at its end, or at a `return` of the test.
pub data Outcome : Type 0 where
  next : TestState → Outcome
  returned : TestState → Outcome

abbrev pub then_do : Outcome → (TestState → Outcome) → Outcome
then_do (next s) f = f s
then_do (returned s) f = returned s

pub write_word : ℕ → ℕ → Ram → Ram
write_word p v m = record m { memory = λ a. if a == p then v else m.memory a }

-- The read of a word, and the report if it is not as expected.
pub check_word : Machine → ℕ → ℕ → Ram → Ram
check_word k p expect m =
    let actual = k.cell p (m.memory p) in
    if actual == expect then m else record m {
      errors = m.errors ++ (record { addr = p; expect = expect; actual = actual } ∷ []);
    }

-- `do_tick` and `BAILOUT`
pub do_tick : Machine → TestState → Outcome
do_tick k s =
    let s' = record s { ticked = s.ticked + 1 } in if k.bail s'.ticked then returned s' else next s'

abbrev pub spin_size : ℕ
spin_size = 0x800_0000

-- `do { op } while (p++ < pe)`, with the rounds left.
pub words_up : (ℕ → Ram → Ram) → ℕ → ℕ → ℕ → Ram → Ram
words_up op zero p pe m = m
words_up op (suc left) p pe m =
    let rest = words_up op left (p + word_size) pe (op p m) in if ltb p pe then rest else op p m

-- `do { op } while (p-- > ps)`
pub words_down : (ℕ → Ram → Ram) → ℕ → ℕ → ℕ → Ram → Ram
words_down op zero p ps m = m
words_down op (suc left) p ps m =
    let rest = words_down op left (p - word_size) ps (op p m) in if ltb ps p then rest else op p m

-- The number of words from `p` up to `pe`, `pe` included.
abbrev pub num_words : ℕ → ℕ → ℕ
num_words p pe = (pe - p) / word_size + 1

-- A span: `ticks++`, and unless it is a dummy run the words, here as the change `f`, and `do_tick`.
pub test_span : Machine → Option ℕ → (Ram → Ram) → TestState → Outcome
test_span k none f s = next (record s { ticks = s.ticks + 1 })
test_span k (some cpu) f s = do_tick k (record s { ram = f s.ram; ticks = s.ticks + 1 })

-- The loop over the spans from `p`, which is `pe` there, up to `end`, with the rounds left.
pub spans_up : Machine → Option ℕ → (ℕ → Ram → Ram) → ℕ → ℕ → ℕ → TestState → Outcome
spans_up k cpu op zero p end s = next s
spans_up k cpu op (suc left) p end s =
    if ltb ((end - p) / word_size) spin_size
    then test_span k cpu (words_up op (num_words p end) p end) s
    else (let pe = p + (spin_size - 1) * word_size in
        then_do (test_span k cpu (words_up op (num_words p pe) p pe) s)
          (spans_up k cpu op left (pe + word_size) end))

-- The loop over the spans from `p` down to `start`.
pub spans_down : Machine → Option ℕ → (ℕ → Ram → Ram) → ℕ → ℕ → ℕ → TestState → Outcome
spans_down k cpu op zero p start s = next s
spans_down k cpu op (suc left) p start s =
    if ltb ((p - start) / word_size) spin_size
    then test_span k cpu (words_down op (num_words start p) p start) s
    else (let ps = p - (spin_size - 1) * word_size in
        then_do (test_span k cpu (words_down op (num_words ps p) p ps) s)
          (spans_down k cpu op left (ps - word_size) start))

-- The number of spans of a range.
abbrev pub num_spans : ℕ → ℕ → ℕ
num_spans start end = (end - start) / word_size / spin_size + 1

-- `SKIP_RANGE(1)`
pub skip_range : Machine → Option ℕ → TestState → Outcome
skip_range k none s = next s
skip_range k (some cpu) s = do_tick k s

abbrev pub chunk_of : Machine → Option ℕ → VmSegment → Chunk
chunk_of k cpu v = calculate_chunk k.cpus cpu v word_size

-- The body of the loop over the segments.
pub range_up : Machine → Option ℕ → (ℕ → Ram → Ram) → VmSegment → TestState → Outcome
range_up k cpu op v s =
    let c = chunk_of k cpu v in
    if ltb c.end c.start
    then skip_range k cpu s
    else spans_up k cpu op (num_spans c.start c.end) c.start c.end s

pub range_down : Machine → Option ℕ → (ℕ → Ram → Ram) → VmSegment → TestState → Outcome
range_down k cpu op v s =
    let c = chunk_of k cpu v in
    if ltb c.end c.start
    then skip_range k cpu s
    else spans_down k cpu op (num_spans c.start c.end) c.end c.start s

-- The loop over the segments, from the first or from the last on.
pub ranges_up : Machine → Option ℕ → (ℕ → Ram → Ram) → List VmSegment → TestState → Outcome
ranges_up k cpu op [] s = next s
ranges_up k cpu op (v ∷ vs) s = then_do (range_up k cpu op v s) (ranges_up k cpu op vs)

pub ranges_down : Machine → Option ℕ → (ℕ → Ram → Ram) → List VmSegment → TestState → Outcome
ranges_down k cpu op [] s = next s
ranges_down k cpu op (v ∷ vs) s = then_do (ranges_down k cpu op vs s) (range_down k cpu op v)
