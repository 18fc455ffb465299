-- ===== src/Badram/Cover.antt =====
-- What the table of app/badram.c covers as a whole, and that `insert_sorted` and `remove_pair`
-- lose nothing but what they take out.
use native.Mathlib.Decide.{dec_lt, ℕ_discrete}
use memtest86plus.Base.{ℕ, zero, suc, ◌+◌, ◌-◌, ◌^◌, ◌≤◌, ◌<◌, bit_and, List, ◌≡◌, refl, sym, ◌∙◌}
use memtest86plus.Base.{arith, ◌⊎◌, inl, inr, length}
use memtest86plus.Base.Bits.{bit-bit_and, bit_ext, bit_and-le_left, bit_and-le_right}
use memtest86plus.Config.{ErrorMode}
use memtest86plus.Badram.{
  Pattern, Table, normalise, find_index, insert_at, insert_sorted, remove_pair, patterns_size, init,
}
use memtest86plus.Badram.Combine.{Covers, IsPattern}
use memtest86plus.Badram.Arrays.{
  entry, length-insert_at, insert_at_self, insert_at_below, insert_at_above,
}
use memtest86plus.Badram.Arrays.{length-remove_pair, remove_pair_below, remove_pair_above}

-- The table has its full size, at most `limit` of its entries are in use, and these are patterns.
pub record IsTable (mode : ErrorMode) (limit : ℕ) (t : Table) : Type 0 where
  pub size : length t.patterns ≡ patterns_size
  pub count : t.num_patterns ≤ limit
  pub valid : (i : ℕ) → i < t.num_patterns → IsPattern mode (entry t.patterns i)

-- Some entry in use covers the address.
abbrev pub IsCovered : ErrorMode → Table → ℕ → Type 0
IsCovered mode t x = (i : ℕ) × (i < t.num_patterns) × Covers mode (entry t.patterns i) x

pub init-IsTable : (mode : ErrorMode) → IsTable mode 20 init
unfolding init
init-IsTable mode = record { size = refl; count = omega arith; valid = λ i h. absurd (omega arith) }

pub find_index-le : (left i a : ℕ) (ps : List Pattern) → find_index ps a left i ≤ i + left
unfolding find_index
find_index-le zero i a ps = omega arith
find_index-le (suc left) i a ps = ground (arith, find_index-le left (i + 1) a ps)

-- Masking twice is masking once.
bit_and-bit_and_self : (a m : ℕ) → m < 2 ^ 64 → bit_and (bit_and a m) m ≡ bit_and a m
bit_and-bit_and_self a m h =
    bit_ext 64 (bit_and (bit_and a m) m) (bit_and a m)
      (omega (arith, bit_and-le_right (bit_and a m) m)) (omega (arith, bit_and-le_right a m))
      (λ i k. omega (arith, bit-bit_and i (bit_and a m) m, bit-bit_and i a m))

pub normalise-Covers :
    (mode : ErrorMode) (p : Pattern) (x : ℕ)
    → IsPattern mode p
    → Covers mode p x
    → Covers mode (normalise mode p) x
normalise-Covers ErrorMode.badram p x v c = c ∙ sym (bit_and-bit_and_self p.addr p.mask v.1)
normalise-Covers ErrorMode.none p x v c = c
normalise-Covers _ p x v c = c

pub normalise-IsPattern :
    (mode : ErrorMode) (p : Pattern) → IsPattern mode p → IsPattern mode (normalise mode p)
normalise-IsPattern ErrorMode.badram p v = omega (arith, bit_and-le_left p.addr p.mask)
normalise-IsPattern ErrorMode.none p v = v
normalise-IsPattern _ p v = v

module _ (mode : ErrorMode) {limit : ℕ} {t : Table} (v : IsTable mode limit t) (p : Pattern)
    (valid : IsPattern mode p) (room : limit < patterns_size) (idx : ℕ)
    (within : idx ≤ t.num_patterns) where
  fits : t.num_patterns < length t.patterns
  fits = omega (arith, v.size, v.count)

  insert_at_valid :
      (i : ℕ) → i < t.num_patterns + 1 → IsPattern mode (entry (insert_at t p idx).patterns i)
  insert_at_valid i h = elim (dec_lt i idx) [
    | yes l ↦ rw (insert_at_below t p idx within fits i l) (v.valid i (omega arith))
    | no g ↦ elim (ℕ_discrete i idx) [
      | yes e ↦ rw (e, insert_at_self t p idx within fits) valid
      | no ne ↦
          let up : i ≡ i - 1 + 1 = omega arith in
          rw (up, insert_at_above t p idx within fits (i - 1) (omega arith) (omega arith))
            (v.valid (i - 1) (omega arith))
    ]
  ]

  pub insert_at-IsTable : IsTable mode (limit + 1) (insert_at t p idx)
  insert_at-IsTable = record {
    size = length-insert_at t p idx within fits ∙ v.size;
    count = unfold insert_at in omega (arith, v.count);
    valid = unfold insert_at in insert_at_valid;
  }

  pub insert_at-keeps : (x : ℕ) → IsCovered mode t x → IsCovered mode (insert_at t p idx) x
  unfolding insert_at
  insert_at-keeps x (i, h, c) = elim (dec_lt i idx) [
    | yes l ↦ (i, omega arith, rw (insert_at_below t p idx within fits i l) c)
    | no g ↦ (i + 1, omega arith, rw (insert_at_above t p idx within fits i (omega arith) h) c)
  ]

  pub insert_at-adds : (x : ℕ) → Covers mode p x → IsCovered mode (insert_at t p idx) x
  unfolding insert_at
  insert_at-adds x c = (idx, omega arith, rw (insert_at_self t p idx within fits) c)

module _ (mode : ErrorMode) {limit : ℕ} {t : Table} (v : IsTable mode limit t) (p : Pattern)
    (valid : IsPattern mode p) (room : limit < patterns_size) where
  open_index : ℕ
  open_index = find_index t.patterns (normalise mode p).addr t.num_patterns 0

  open_index-le : open_index ≤ t.num_patterns
  unfolding open_index
  open_index-le = omega (arith, find_index-le t.num_patterns 0 (normalise mode p).addr t.patterns)

  -- `insert_sorted` adds one entry.
  pub insert_sorted-IsTable : IsTable mode (limit + 1) (insert_sorted mode t p)
  unfolding insert_sorted open_index
  insert_sorted-IsTable =
      insert_at-IsTable mode v (normalise mode p) (normalise-IsPattern mode p valid) room open_index
        open_index-le

  -- `insert_sorted` keeps what was covered.
  pub insert_sorted-keeps : (x : ℕ) → IsCovered mode t x → IsCovered mode (insert_sorted mode t p) x
  unfolding insert_sorted open_index
  insert_sorted-keeps =
      insert_at-keeps mode v (normalise mode p) (normalise-IsPattern mode p valid) room open_index
        open_index-le

  -- `insert_sorted` adds what the pattern covers.
  pub insert_sorted-adds : (x : ℕ) → Covers mode p x → IsCovered mode (insert_sorted mode t p) x
  unfolding insert_sorted open_index
  insert_sorted-adds x c =
      insert_at-adds mode v (normalise mode p) (normalise-IsPattern mode p valid) room open_index
        open_index-le x (normalise-Covers mode p x valid c)

module _ (mode : ErrorMode) {limit : ℕ} {t : Table} (v : IsTable mode limit t) (idx : ℕ)
    (within : idx + 2 ≤ t.num_patterns) (small : limit ≤ patterns_size) where
  in_bounds : t.num_patterns ≤ length t.patterns
  in_bounds = omega (arith, v.size, v.count)

  remove_pair_valid :
      (i : ℕ) → i < t.num_patterns - 2 → IsPattern mode (entry (remove_pair t idx).patterns i)
  remove_pair_valid i h = elim (dec_lt i idx) [
    | yes l ↦ rw (remove_pair_below t idx within in_bounds i l) (v.valid i (omega arith))
    | no g ↦
        rw (remove_pair_above t idx within in_bounds i (omega arith) (omega arith))
          (v.valid (i + 2) (omega arith))
  ]

  pub remove_pair-IsTable : IsTable mode (limit - 2) (remove_pair t idx)
  remove_pair-IsTable = record {
    size = length-remove_pair t idx within in_bounds ∙ v.size;
    count = unfold remove_pair in omega (arith, v.count);
    valid = unfold remove_pair in remove_pair_valid;
  }

  -- What was covered is covered by the rest or by the two entries that are taken out.
  pub remove_pair-keeps :
      (x : ℕ)
      → IsCovered mode t x
      → IsCovered mode (remove_pair t idx) x
        ⊎ (Covers mode (entry t.patterns idx) x ⊎ Covers mode (entry t.patterns (idx + 1)) x)
  unfolding remove_pair
  remove_pair-keeps x (i, h, c) = elim (dec_lt i idx) [
    | yes l ↦ inl (i, omega arith, rw (remove_pair_below t idx within in_bounds i l) c)
    | no g ↦ elim (ℕ_discrete i idx) [
      | yes e ↦ inr (inl (rw e at c))
      | no ne ↦ elim (ℕ_discrete i (idx + 1)) [
        | yes e ↦ inr (inr (rw e at c))
        | no ne' ↦
            let up : i ≡ i - 2 + 2 = omega arith in
            inl (
              i - 2,
              omega arith,
              rw (remove_pair_above t idx within in_bounds (i - 2) (omega arith) (omega arith))
                  (rw up at c),
            )
      ]
    ]
  ]
