-- ===== src/Badram/Insert.antt =====
-- `badram_insert` of app/badram.c: it always returns, keeps the table well formed, and loses no
-- faulty address.
use memtest86plus.Base.{ℕ, zero, suc, ◌+◌, ◌-◌, ◌≤◌, ◌<◌, List, ◌≡◌, refl, sym, ◌∙◌}
use memtest86plus.Base.{
  arith, ◌≢◌, ◌⊎◌, inl, inr, ltb, ==_iff, ◌==◌, Bool, true, false, Bool-cases, some,
}
use memtest86plus.Base.{set, length-set, get_or-set_self, get_or-set_ne}
use native.Mathlib.Decide.{ℕ_discrete}
use memtest86plus.Config.{ErrorMode}
use memtest86plus.Badram.{
  Pattern, Table, blank, patterns_size, max_patterns, word_size, combine, combi_cost,
  combined_pattern,
}
use memtest86plus.Badram.{
  insert_sorted, remove_pair, merge_cheapest, Scan, covered, widened, unmatched, scan, new_pattern,
  insert, insert_outcome,
}
use memtest86plus.Badram.Combine.{Covers, IsPattern, combine-Covers, combine-IsPattern}
use memtest86plus.Badram.Cost.{combi_cost-zero}
use memtest86plus.Badram.Arrays.{entry}
use memtest86plus.Badram.Cover.{
  IsTable, IsCovered, insert_sorted-IsTable, insert_sorted-keeps, insert_sorted-adds,
}
use memtest86plus.Badram.Cover.{remove_pair-IsTable, remove_pair-keeps}
use memtest86plus.Badram.Cheapest.{cheapest_pair-IsCheapest}

-- What `scan` says of the entries with index from `i` to `n - 1`.
abbrev Found : ErrorMode → List Pattern → Pattern → ℕ → Scan → Type 0
Found mode ps p n covered = (k : ℕ) × (k < n) × (combi_cost mode (entry ps k) p ≡ 0)
Found mode ps p n (widened k) = (k < n) × (combi_cost mode (entry ps k) p ≡ word_size)
Found mode ps p n unmatched = Unit {0}

scan-Found :
    (mode : ErrorMode) (ps : List Pattern) (p : Pattern) (left i n : ℕ)
    → i + left ≡ n
    → Found mode ps p n (scan mode ps p left i)
unfolding scan
scan-Found mode ps p zero i n e = tt
scan-Found mode ps p (suc left) i n e =
    let cost = combi_cost mode (entry ps i) p in
    elim (Bool-cases (cost == 0)) [
      | inl z ↦ rw z (i, omega arith, (==_iff cost 0).0 z)
      | inr nz ↦ elim (Bool-cases (cost == word_size)) [
        | inl w ↦ rw (nz, w) (omega arith, (==_iff cost word_size).0 w)
        | inr nw ↦ rw (nz, nw) (scan-Found mode ps p left (i + 1) n (omega arith))
      ]
    ]

-- What a step of the table from `t` to `t'` guarantees: the new table is well formed, covers all
-- that the old one did, and covers what `p` does.
pub record Extends (mode : ErrorMode) (t : Table) (p : Pattern) (t' : Table) : Type 0 where
  pub table : IsTable mode max_patterns t'
  pub keeps : (x : ℕ) → IsCovered mode t x → IsCovered mode t' x
  pub adds : (x : ℕ) → Covers mode p x → IsCovered mode t' x

module _ (mode : ErrorMode) {t : Table} (v : IsTable mode max_patterns t) (p : Pattern)
    (valid : IsPattern mode p) where
  covered-Extends :
      (k : ℕ) → k < t.num_patterns → combi_cost mode (entry t.patterns k) p ≡ 0 → Extends mode t p t
  covered-Extends k h e = record {
    table = v;
    keeps = λ x c. c;
    adds = λ x c. (k, h, combi_cost-zero mode (entry t.patterns k) p x (v.valid k h) valid e c);
  }

  abbrev widen : ℕ → Table
  widen k = record t { patterns = set t.patterns k (combine mode (entry t.patterns k) p) }

  widen-entry :
      (k i : ℕ)
      → k < t.num_patterns
      → (P : Pattern → Type 0) → (i ≡ k → P (combine mode (entry t.patterns k) p))
      → (i ≢ k → P (entry t.patterns i))
      → P (entry (widen k).patterns i)
  widen-entry k i h P same other = elim (ℕ_discrete i k) [
    | yes e ↦
        rw
          (
            e,
            get_or-set_self t.patterns k (combine mode (entry t.patterns k) p) blank
                (omega (arith, v.size, v.count)),
          )
          (same e)
    | no ne ↦
        rw
          (get_or-set_ne t.patterns k i (combine mode (entry t.patterns k) p) blank
            (λ e. ne (sym e)))
          (other ne)
  ]

  widen-Extends : (k : ℕ) → k < t.num_patterns → Extends mode t p (widen k)
  widen-Extends k h =
      let merged = combine mode (entry t.patterns k) p in
      record {
        table = record {
          size = length-set t.patterns k merged ∙ v.size;
          count = v.count;
          valid = λ i l.
              widen-entry k i h (IsPattern mode)
                (λ e. combine-IsPattern mode (entry t.patterns k) p (v.valid k h) valid)
                (λ ne. v.valid i l);
        };
        keeps = λ x (i, l, c). (
          i,
          l,
          widen-entry k i h (λ q. Covers mode q x)
              (λ e. combine-Covers mode (entry t.patterns k) p x (v.valid k h) (inl (rw e at c)))
              (λ ne. c),
        );
        adds = λ x c. (
          k,
          h,
          widen-entry k k h (λ q. Covers mode q x)
              (λ e. combine-Covers mode (entry t.patterns k) p x (v.valid k h) (inr c))
              (λ ne. absurd (ne refl)),
        );
      }

-- The forced merge of a table that holds one pattern too many.
module _ (mode : ErrorMode) {t : Table} (v : IsTable mode patterns_size t)
    (many : 2 ≤ t.num_patterns) where
  abbrev merged : ℕ → Pattern
  merged m = combined_pattern mode t m (m + 1)

  module _ (m : ℕ) (within : m < t.num_patterns - 1) where
    merged-IsPattern : IsPattern mode (merged m)
    unfolding combined_pattern
    merged-IsPattern =
        combine-IsPattern mode (entry t.patterns m) (entry t.patterns (m + 1))
          (v.valid m (omega arith)) (v.valid (m + 1) (omega arith))

    merged-Covers :
        (x : ℕ)
        → Covers mode (entry t.patterns m) x ⊎ Covers mode (entry t.patterns (m + 1)) x
        → Covers mode (merged m) x
    unfolding combined_pattern
    merged-Covers x c =
        combine-Covers mode (entry t.patterns m) (entry t.patterns (m + 1)) x
          (v.valid m (omega arith)) c

    rest-IsTable : IsTable mode 19 (remove_pair t m)
    rest-IsTable = remove_pair-IsTable mode v m (omega arith) (omega arith)

    merged-IsTable : IsTable mode max_patterns (insert_sorted mode (remove_pair t m) (merged m))
    merged-IsTable =
        insert_sorted-IsTable mode rest-IsTable (merged m) merged-IsPattern (omega arith)

    merged-keeps :
        (x : ℕ)
        → IsCovered mode t x
        → IsCovered mode (insert_sorted mode (remove_pair t m) (merged m)) x
    merged-keeps x c = elim (remove_pair-keeps mode v m (omega arith) (omega arith) x c) [
      | inl rest ↦
          insert_sorted-keeps mode rest-IsTable (merged m) merged-IsPattern (omega arith) x rest
      | inr pair ↦
          insert_sorted-adds mode rest-IsTable (merged m) merged-IsPattern (omega arith) x
            (merged-Covers x pair)
    ]

  -- The merge finds a pair, brings the table back to its limit and keeps what was covered.
  pub merge_cheapest_lem :
      (t' : Table) × (merge_cheapest mode t ≡ some t')
      × IsTable mode max_patterns t'
      × ((x : ℕ) → IsCovered mode t x → IsCovered mode t' x)
  unfolding merge_cheapest
  merge_cheapest_lem =
      let (m, found, best) = cheapest_pair-IsCheapest mode t many in
      (
        insert_sorted mode (remove_pair t m) (merged m),
        rw found,
        merged-IsTable m best.within,
        merged-keeps m best.within,
      )

-- The outcome of `badram_insert`: it returns, the new table extends the old one, and a result of
-- `false` leaves the table as it was.
abbrev pub Inserts : ErrorMode → Table → ℕ → ℕ → Type 0
Inserts mode t page offset =
    (t' : Table) × (changed : Bool) × (insert mode t page offset ≡ some (t', changed))
    × Extends mode t (new_pattern mode page offset) t'
    × (changed ≡ false → t' ≡ t)

new_pattern-IsPattern :
    (mode : ErrorMode) (page offset : ℕ) → IsPattern mode (new_pattern mode page offset)
unfolding new_pattern
new_pattern-IsPattern ErrorMode.badram page offset = omega arith
new_pattern-IsPattern ErrorMode.none page offset = omega arith
new_pattern-IsPattern _ page offset = omega arith

module _ (mode : ErrorMode) {t : Table} (v : IsTable mode max_patterns t) (page offset : ℕ) where
  abbrev fresh : Pattern
  fresh = new_pattern mode page offset

  valid : IsPattern mode fresh
  valid = new_pattern-IsPattern mode page offset

  abbrev grown : Table
  grown = insert_sorted mode t fresh

  grown-IsTable : IsTable mode patterns_size grown
  grown-IsTable = insert_sorted-IsTable mode v fresh valid (omega arith)

  -- The outcome of `badram_insert` once the scan has ended with `s`.
  abbrev Ends : Scan → Type 0
  Ends s =
      (t' : Table) × (changed : Bool) × (insert_outcome mode t fresh s ≡ some (t', changed))
      × Extends mode t fresh t'
      × (changed ≡ false → t' ≡ t)

  -- A merged table extends the old one.
  insert_over : ltb max_patterns grown.num_patterns ≡ true → Ends unmatched
  insert_over over = ends (merge_cheapest_lem mode grown-IsTable (ground (arith, over)))
    where
      ends :
          (t' : Table) × (merge_cheapest mode grown ≡ some t')
            × IsTable mode max_patterns t'
            × ((x : ℕ) → IsCovered mode grown x → IsCovered mode t' x)
          → Ends unmatched
      ends (t', made, table, keeps) = (
        t',
        true,
        unfold insert_outcome in rw (over, made),
        record {
          table = table;
          keeps = λ x c. keeps x (insert_sorted-keeps mode v fresh valid (omega arith) x c);
          adds = λ x c. keeps x (insert_sorted-adds mode v fresh valid (omega arith) x c);
        },
        λ no_change. cc,
      )

  insert_within : ltb max_patterns grown.num_patterns ≡ false → Ends unmatched
  insert_within fits = (
    grown,
    true,
    unfold insert_outcome in rw fits,
    record {
      table = record {
        size = grown-IsTable.size;
        count = ground (arith, fits);
        valid = grown-IsTable.valid;
      };
      keeps = insert_sorted-keeps mode v fresh valid (omega arith);
      adds = insert_sorted-adds mode v fresh valid (omega arith);
    },
    λ no_change. cc,
  )

  insert_outcome-Ends : (s : Scan) → Found mode t.patterns fresh t.num_patterns s → Ends s
  unfolding insert_outcome
  insert_outcome-Ends covered (k, h, cost) =
      (t, false, refl, covered-Extends mode v fresh valid k h cost, λ no_change. refl)
  insert_outcome-Ends (widened k) (h, cost) =
      (widen mode v fresh valid k, true, refl, widen-Extends mode v fresh valid k h, λ e. cc)
  insert_outcome-Ends unmatched found = elim (Bool-cases (ltb max_patterns grown.num_patterns)) [
    | inl over ↦ insert_over over
    | inr fits ↦ insert_within fits
  ]

  -- `badram_insert` on a well-formed table always returns; the new table is well formed, covers
  -- every address that the old one covered and every address of the new pattern; and where the
  -- result is `false` the table is unchanged.
  pub insert_lem : Inserts mode t page offset
  unfolding insert
  insert_lem =
      insert_outcome-Ends (scan mode t.patterns fresh t.num_patterns 0)
        (scan-Found mode t.patterns fresh t.num_patterns 0 t.num_patterns (omega arith))
