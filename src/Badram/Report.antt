-- ===== src/Badram/Report.antt =====
-- A whole run of app/badram.c: `badram_init`, then any sequence of calls of `badram_insert`.
use memtest86plus.Base.{ℕ, List, [], ◌∷◌, ◌≡◌, refl, arith, Option, some, ◌>>=◌, add64, shl64}
use memtest86plus.Config.{ErrorMode}
use memtest86plus.Badram.{Table, page_shift, max_patterns, init, new_pattern, insert}
use memtest86plus.Badram.Combine.{Covers}
use memtest86plus.Badram.Cover.{IsTable, IsCovered, init-IsTable}
use memtest86plus.Badram.Insert.{Inserts, insert_lem}

-- The address of a faulty word.
abbrev pub address : ℕ × ℕ → ℕ
address (page, offset) = add64 (shl64 page page_shift) offset

-- The calls in order. `none` is an access out of bounds in one of them.
unfoldable pub insert_all : ErrorMode → Table → List (ℕ × ℕ) → Option Table
insert_all mode t [] = some t
insert_all mode t ((page, offset) ∷ faults) = do
  (t', _) ← insert mode t page offset
  insert_all mode t' faults

-- All the listed addresses are covered.
abbrev pub AllCovered : ErrorMode → Table → List (ℕ × ℕ) → Type 0
AllCovered mode t [] = Unit {0}
AllCovered mode t (f ∷ faults) = IsCovered mode t (address f) × AllCovered mode t faults

pub new_pattern-Covers :
    (mode : ErrorMode) (page offset : ℕ)
    → Covers mode (new_pattern mode page offset) (address (page, offset))
unfolding new_pattern
new_pattern-Covers ErrorMode.badram page offset = refl
new_pattern-Covers ErrorMode.none page offset = omega arith
new_pattern-Covers _ page offset = omega arith

-- What the calls guarantee from the table `t` on.
abbrev Reports : ErrorMode → Table → List (ℕ × ℕ) → Type 0
Reports mode t faults =
    (t' : Table) × (insert_all mode t faults ≡ some t')
    × IsTable mode max_patterns t'
    × ((x : ℕ) → IsCovered mode t x → IsCovered mode t' x)
    × AllCovered mode t' faults

module _ (mode : ErrorMode) where
  Reports-cons :
      (page offset : ℕ) (faults : List (ℕ × ℕ)) {t : Table}
      → Inserts mode t page offset
      → ((u : Table) → IsTable mode max_patterns u → Reports mode u faults)
      → Reports mode t ((page, offset) ∷ faults)
  unfolding insert_all
  Reports-cons page offset faults (u, changed, done, extends, same) rest =
      let (t', finished, table, keeps, all) = rest u extends.table in
      (
        t',
        rw done finished,
        table,
        λ x c. keeps x (extends.keeps x c),
        (
          keeps (address (page, offset))
              (extends.adds (address (page, offset)) (new_pattern-Covers mode page offset)),
          all,
        ),
      )

  insert_all-Reports :
      (faults : List (ℕ × ℕ)) (t : Table) → IsTable mode max_patterns t → Reports mode t faults
  insert_all-Reports [] t v = (t, unfold insert_all in refl, v, λ x c. c, tt)
  insert_all-Reports ((page, offset) ∷ faults) t v =
      Reports-cons page offset faults (insert_lem mode v page offset)
        (λ u w. insert_all-Reports faults u w)

  -- After `badram_init`, every sequence of calls of `badram_insert` returns, leaves a well-formed
  -- table of at most 20 patterns, and the patterns cover every address that was inserted.
  pub report_complete :
      (faults : List (ℕ × ℕ))
      → (t : Table) × (insert_all mode init faults ≡ some t)
        × IsTable mode max_patterns t
        × AllCovered mode t faults
  report_complete faults =
      let (t, done, table, keeps, all) = insert_all-Reports faults init (init-IsTable mode) in
      (t, done, table, all)
