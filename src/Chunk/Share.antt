-- ===== src/Chunk/Share.antt =====
-- The chunks that `calculate_chunk` of tests/test_helper.c gives the CPUs.
use native.Mathlib.Nat.{one-le-pow, pow-le-pow_right}
use memtest86plus.Base.{
  ℕ, ◌+◌, ◌-◌, ◌*◌, ◌/◌, ◌%◌, ◌^◌, ◌≤◌, ◌<◌, Option, ◌≡◌, refl, arith, true, false, some,
}
use memtest86plus.Base.{◌==◌, add64, sub64}
use memtest86plus.Base.Align.{bit_and-align, align_bounds}
use memtest86plus.Chunk.{
  VmSegment, Cpus, round_down, round_up, segment_bytes, nth_chunk, calculate_chunk,
}

-- `round_down` to a power of two takes off the remainder.
round_down-eq : (k a : ℕ) → k ≤ 63 → a < 2 ^ 64 → round_down a (2 ^ k) ≡ a / 2 ^ k * 2 ^ k
unfolding round_down
round_down-eq k a h fits =
    let small : 2 ^ k ≤ 2 ^ 63 = pow-le-pow_right (omega arith) h in
    let mask : sub64 (2 ^ k) 1 ≡ 2 ^ k - 1 = omega (arith, one-le-pow k 2) in
    rw mask (bit_and-align k a (omega arith) fits)

-- `round_down` gives the largest multiple of a power of two that is not above the value.
pub round_down_bounds :
    (k a : ℕ)
    → k ≤ 63
    → a < 2 ^ 64
    → (round_down a (2 ^ k) ≤ a)
      × (round_down a (2 ^ k) % 2 ^ k ≡ 0)
      × (a < round_down a (2 ^ k) + 2 ^ k)
round_down_bounds k a h fits = rw (round_down-eq k a h fits) (align_bounds k a)

-- `round_up` gives the smallest multiple of a power of two that is not below the value, where the
-- sum does not wrap.
pub round_up_bounds :
    (k a : ℕ)
    → k ≤ 63
    → a + 2 ^ k ≤ 2 ^ 64
    → (a ≤ round_up a (2 ^ k)) × (round_up a (2 ^ k) % 2 ^ k ≡ 0) × (round_up a (2 ^ k) < a + 2 ^ k)
unfolding round_up
round_up_bounds k a h fits =
    let small : 2 ^ k ≤ 2 ^ 63 = pow-le-pow_right (omega arith) h in
    let mask : sub64 (2 ^ k) 1 ≡ 2 ^ k - 1 = omega (arith, one-le-pow k 2) in
    let top : add64 a (2 ^ k - 1) ≡ a + 2 ^ k - 1 = omega (arith, one-le-pow k 2) in
    let (le, whole, near) = align_bounds k (a + 2 ^ k - 1) in
    rw (mask, top, bit_and-align k (a + 2 ^ k - 1) (omega arith) (omega (arith, one-le-pow k 2)))
      (omega (arith, near, one-le-pow k 2), whole, omega (arith, le, one-le-pow k 2))

-- A segment of whole words that ends below 2^63.
pub record IsSegment (s : VmSegment) : Type 0 where
  pub order : s.start ≤ s.end
  pub words : (s.end - s.start) % 8 ≡ 0
  pub below : s.end < 2 ^ 63

segment_bytes-eq : (s : VmSegment) → IsSegment s → segment_bytes s ≡ s.end + 8 - s.start
unfolding segment_bytes
segment_bytes-eq s v = omega arith

-- The chunks of `n` CPUs, with an alignment of a power of two of at least a word: each has the same
-- size, they follow one another from the segment's start, and end within it; what is left over at
-- the end of the segment is less than one alignment for each CPU.
pub record AreShares (s : VmSegment) (n k size : ℕ) : Type 0 where
  pub starts : (i : ℕ) → i < n → (nth_chunk s n i (2 ^ k)).start ≡ s.start + size * i
  pub ends :
      (i : ℕ) → i < n → 8 ≤ size → (nth_chunk s n i (2 ^ k)).end + 8 ≡ s.start + size * i + size
  pub within : s.start + size * n ≤ s.end + 8
  pub left_over : s.end + 8 < s.start + size * n + n * 2 ^ k
  pub whole : size % 2 ^ k ≡ 0

abbrev pub share : VmSegment → ℕ → ℕ → ℕ
share s n k = round_down (segment_bytes s / n) (2 ^ k)

scale : (x y n : ℕ) → x ≤ y → x * n ≤ y * n
scale x y n h = grind arith

share_arith :
    (b n r t q : ℕ)
    → q * n ≤ b
    → b < q * n + n
    → r ≤ q
    → q < r + t
    → (r * n ≤ b) × (b < r * n + n * t)
share_arith b n r t q low high h k =
    let below : r * n ≤ q * n = scale r q n h in
    let above : (q + 1) * n ≤ (r + t) * n = scale (q + 1) (r + t) n (omega arith) in
    (omega (arith, below, low), omega (arith, above, high))

div_facts : (b n : ℕ) → 0 < n → (b / n * n ≤ b) × (b < b / n * n + n)
div_facts b n h = (grind arith, grind arith)

module _ (s : VmSegment) (v : IsSegment s) (n k : ℕ) (some_cpus : 0 < n) (hk : k ≤ 63) where
  bytes : segment_bytes s ≡ s.end + 8 - s.start
  bytes = segment_bytes-eq s v

  quotient-lt : segment_bytes s / n < 2 ^ 64
  quotient-lt =
      let (low, high) = div_facts (segment_bytes s) n some_cpus in
      let scaled : segment_bytes s / n ≤ segment_bytes s / n * n = grind arith in
      omega (arith, low, scaled, bytes, v.below)

  share_facts :
      (share s n k * n ≤ segment_bytes s)
      × (segment_bytes s < share s n k * n + n * 2 ^ k)
      × (share s n k % 2 ^ k ≡ 0)
  share_facts =
      let q = segment_bytes s / n in
      let (low, high) = div_facts (segment_bytes s) n some_cpus in
      let (le, whole, near) = round_down_bounds k q hk quotient-lt in
      let (fits, rest) = share_arith (segment_bytes s) n (share s n k) (2 ^ k) q low high le near in
      (fits, rest, whole)

  share_mono : (i : ℕ) → i < n → share s n k * i + share s n k ≤ share s n k * n
  share_mono i h = grind arith

  nth_chunk-start : (i : ℕ) → i < n → (nth_chunk s n i (2 ^ k)).start ≡ s.start + share s n k * i
  unfolding nth_chunk
  nth_chunk-start i h = omega (arith, share_facts.0, share_mono i h, bytes, v.below, v.order)

  nth_chunk-end :
      (i : ℕ)
      → i < n
      → 8 ≤ share s n k
      → (nth_chunk s n i (2 ^ k)).end + 8 ≡ s.start + share s n k * i + share s n k
  unfolding nth_chunk
  nth_chunk-end i h pos =
      ground (arith, nth_chunk-start i h, share_facts.0, share_mono i h, bytes, v.below, v.order)

  -- `calculate_chunk` shares a segment out: the chunks have one size, follow one another and end
  -- within the segment, and less than one alignment for each CPU is left over at its end.
  pub nth_chunk-AreShares : AreShares s n k (share s n k)
  nth_chunk-AreShares = record {
    starts = nth_chunk-start;
    ends = nth_chunk-end;
    within = omega (arith, share_facts.0, bytes, v.order);
    left_over = omega (arith, share_facts.1, bytes, v.order);
    whole = share_facts.2;
  }

-- With NUMA off and more than one active CPU, for a segment of whole words below 2^63, an alignment of a
-- power of two and a share of at least a word for each CPU: the chunk of a CPU starts behind the chunks
-- of all lower chunk indices, is as large as each of them, and ends within the segment; and from the
-- end of the last chunk on less than one alignment for each CPU is left, which no chunk covers.
pub calculate_chunk_lem :
    (g : Cpus) (s : VmSegment) (cpu k : ℕ)
    → IsSegment s
    → 1 < g.num_active_cpus
    → g.enable_numa ≡ false
    → k ≤ 63
    → g.chunk_index cpu < g.num_active_cpus
    → 8 ≤ share s g.num_active_cpus k
    → let size = share s g.num_active_cpus k in
      let chunk = calculate_chunk g (some cpu) s (2 ^ k) in
      (chunk.start ≡ s.start + size * g.chunk_index cpu)
      × (chunk.end + 8 ≡ chunk.start + size)
      × (chunk.end + 8 ≤ s.start + size * g.num_active_cpus)
      × (s.start + size * g.num_active_cpus ≤ s.end + 8)
      × (s.end + 8 < s.start + size * g.num_active_cpus + g.num_active_cpus * 2 ^ k)
unfolding calculate_chunk
calculate_chunk_lem g s cpu k v many flat hk index large =
    let n = g.num_active_cpus in
    let shares = nth_chunk-AreShares s v n k (omega arith) hk in
    let not_one : (n == 1) ≡ false = ground arith in
    let starts = shares.starts (g.chunk_index cpu) index in
    let ends = shares.ends (g.chunk_index cpu) index large in
    rw (not_one, flat)
      (
        starts,
        omega (arith, starts, ends),
        omega (arith, ends, share_mono s v n k (omega arith) hk (g.chunk_index cpu) index),
        shares.within,
        shares.left_over,
      )

-- A single active CPU is given whole segments.
pub calculate_chunk-one :
    (g : Cpus) (cpu : Option ℕ) (s : VmSegment) (chunk_align : ℕ)
    → g.num_active_cpus ≡ 1
    → calculate_chunk g cpu s chunk_align ≡ record { start = s.start; end = s.end }
unfolding calculate_chunk
calculate_chunk-one g cpu s chunk_align one =
    let single : (g.num_active_cpus == 1) ≡ true = ground (arith, one) in rw single refl
