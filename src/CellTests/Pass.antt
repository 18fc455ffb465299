-- ===== src/CellTests/Pass.antt =====
-- A pass over words that are given with the values they should hold: what it reports and what it leaves
-- behind.
use memtest86plus.Base.{
  ℕ, ◌≡◌, ◌≢◌, refl, ap, ◌∙◌, sym, arith, Bool-cases, List, [], ◌∷◌, ◌++◌, ◌==◌, if◌then◌else◌, inl,
  inr,
}
use mathlib.Core.List.{append-nil, append_assoc}
use memtest86plus.CellTests.{Machine, Ram, DataError, write_word, check_word}
use memtest86plus.CellTests.Loops.{visit, visit_back}

-- A word and its value.
abbrev pub Cell : Type 0
Cell = ℕ × ℕ

-- Word `a` is none of these.
abbrev pub IsApart : ℕ → List Cell → Type 0
IsApart a [] = Unit {0}
IsApart a (c ∷ cs) = (a ≢ c.0) × IsApart a cs

-- No word occurs twice.
abbrev pub AreDistinct : List Cell → Type 0
AreDistinct [] = Unit {0}
AreDistinct (c ∷ cs) = IsApart c.0 cs × AreDistinct cs

-- Each cell and what its word holds are as `Ready` says.
abbrev pub AreReady : (Cell → ℕ → Type 0) → List Cell → (ℕ → ℕ) → Type 0
AreReady Ready [] m = Unit {0}
AreReady Ready (c ∷ cs) m = Ready c (m c.0) × AreReady Ready cs m

-- The words hold the values of the cells.
abbrev pub IsHeld : Cell → ℕ → Type 0
IsHeld c v = v ≡ c.1

-- All reports, upwards or downwards.
unfoldable pub all_reports : (Cell → List DataError) → List Cell → List DataError
all_reports report [] = []
all_reports report (c ∷ cs) = report c ++ all_reports report cs

unfoldable pub all_reports_back : (Cell → List DataError) → List Cell → List DataError
all_reports_back report [] = []
all_reports_back report (c ∷ cs) = all_reports_back report cs ++ report c

-- The report of a word that does not keep its value.
abbrev pub fault : Machine → Cell → List DataError
fault k c =
    if k.cell c.0 c.1 == c.1
    then []
    else record { addr = c.0; expect = c.1; actual = k.cell c.0 c.1 } ∷ []

abbrev pub write_cell : Cell → Ram → Ram
write_cell c m = write_word c.0 c.1 m

abbrev pub check_cell : Machine → Cell → Ram → Ram
check_cell k c m = check_word k c.0 c.1 m

abbrev pub check_and_write : Machine → (ℕ → ℕ) → Cell → Ram → Ram
check_and_write k w c m = write_word c.0 (w c.1) (check_word k c.0 c.1 m)

write_word_same : (p v a : ℕ) (m : Ram) → a ≡ p → (write_word p v m).memory a ≡ v
unfolding write_word
write_word_same p v a m e = ground (arith, e)

write_word_other : (p v a : ℕ) (m : Ram) → a ≢ p → (write_word p v m).memory a ≡ m.memory a
unfolding write_word
write_word_other p v a m ne = ground (arith, ne)

check_word-errors :
    (k : Machine) (c : Cell) (m : Ram)
    → m.memory c.0 ≡ c.1
    → (check_word k c.0 c.1 m).errors ≡ m.errors ++ fault k c
unfolding check_word
check_word-errors k (p, v) m e = elim (Bool-cases (k.cell p v == v)) [
  | inl ok ↦ rw (e, ok) (sym (append-nil m.errors))
  | inr bad ↦ rw (e, bad) refl
]

check_word-memory : (k : Machine) (p v : ℕ) (m : Ram) → (check_word k p v m).memory ≡ m.memory
unfolding check_word
check_word-memory k p v m = elim (Bool-cases (k.cell p (m.memory p) == v)) [
  | inl ok ↦ rw ok refl
  | inr bad ↦ rw bad refl
]

-- What a pass has made of `m`: the cells hold the values `value`, and no other word has changed.
pub record Passed (value : Cell → ℕ) (reports : List DataError) (cs : List Cell) (m m' : Ram)
    : Type 0 where
  pub errors : m'.errors ≡ m.errors ++ reports
  pub holds : AreReady (λ c v. v ≡ value c) cs m'.memory
  pub keeps : (a : ℕ) → IsApart a cs → m'.memory a ≡ m.memory a

AreReady-apart :
    (Ready : Cell → ℕ → Type 0) (a : ℕ) (cs : List Cell) (f g : ℕ → ℕ)
    → IsApart a cs
    → ((b : ℕ) → b ≢ a → g b ≡ f b)
    → AreReady Ready cs f
    → AreReady Ready cs g
AreReady-apart Ready a [] f g n same h = tt
AreReady-apart Ready a (c ∷ cs) f g (n, ns) same (h, hs) =
    (rw (same c.0 (λ e. n (sym e))) h, AreReady-apart Ready a cs f g ns same hs)

-- What one visit has to do.
pub record IsVisit (Ready : Cell → ℕ → Type 0) (op : Cell → Ram → Ram) (value : Cell → ℕ)
    (report : Cell → List DataError) : Type 0 where
  pub errors :
      (c : Cell) (m : Ram) → Ready c (m.memory c.0) → (op c m).errors ≡ m.errors ++ report c
  pub here : (c : Cell) (m : Ram) → Ready c (m.memory c.0) → (op c m).memory c.0 ≡ value c
  pub away : (c : Cell) (m : Ram) (a : ℕ) → a ≢ c.0 → (op c m).memory a ≡ m.memory a

module _ {Ready : Cell → ℕ → Type 0} {op : Cell → Ram → Ram} {value : Cell → ℕ}
    {report : Cell → List DataError} (v : IsVisit Ready op value report) where
  pub visit-Passed :
      (cs : List Cell) (m : Ram)
      → AreDistinct cs
      → AreReady Ready cs m.memory
      → Passed value (all_reports report cs) cs m (visit op cs m)
  unfolding visit all_reports
  visit-Passed [] m d r = record {
    errors = sym (append-nil m.errors);
    holds = tt;
    keeps = λ a n. refl;
  }
  visit-Passed (c ∷ cs) m (n, d) (r, rs) =
      let rest =
        visit-Passed cs (op c m) d
          (AreReady-apart Ready c.0 cs m.memory (op c m).memory n (v.away c m) rs) in
      record {
        errors =
            rest.errors
            ∙ ap (λ (l : List DataError). l ++ all_reports report cs) (v.errors c m r)
            ∙ append_assoc m.errors (report c) (all_reports report cs);
        holds = (rest.keeps c.0 n ∙ v.here c m r, rest.holds);
        keeps = λ a (na, ns). rest.keeps a ns ∙ v.away c m a na;
      }

  pub visit_back-Passed :
      (cs : List Cell) (m : Ram)
      → AreDistinct cs
      → AreReady Ready cs m.memory
      → Passed value (all_reports_back report cs) cs m (visit_back op cs m)
  unfolding visit_back all_reports_back
  visit_back-Passed [] m d r = record {
    errors = sym (append-nil m.errors);
    holds = tt;
    keeps = λ a n. refl;
  }
  visit_back-Passed (c ∷ cs) m (n, d) (r, rs) =
      let rest = visit_back-Passed cs m d rs in
      let m' = visit_back op cs m in
      let r' : Ready c (m'.memory c.0) = rw (rest.keeps c.0 n) r in
      record {
        errors =
            v.errors c m' r'
            ∙ ap (λ (l : List DataError). l ++ report c) rest.errors
            ∙ append_assoc m.errors (all_reports_back report cs) (report c);
        holds = (
          v.here c m' r',
          AreReady-apart (λ c v. v ≡ value c) c.0 cs m'.memory (op c m').memory n (v.away c m')
              rest.holds,
        );
        keeps = λ a (na, ns). v.away c m' a na ∙ rest.keeps a ns;
      }

abbrev pub no_report : Cell → List DataError
no_report c = []

pub write-IsVisit : IsVisit (λ c v. Unit {0}) write_cell (λ c. c.1) no_report
unfolding write_word
write-IsVisit = record {
  errors = λ c m r. sym (append-nil m.errors);
  here = λ c m r. write_word_same c.0 c.1 c.0 m refl;
  away = λ c m a n. write_word_other c.0 c.1 a m n;
}

pub check-IsVisit : (k : Machine) → IsVisit IsHeld (check_cell k) (λ c. c.1) (fault k)
check-IsVisit k = record {
  errors = check_word-errors k;
  here = λ c m r. ap (λ (f : ℕ → ℕ). f c.0) (check_word-memory k c.0 c.1 m) ∙ r;
  away = λ c m a n. ap (λ (f : ℕ → ℕ). f a) (check_word-memory k c.0 c.1 m);
}

pub check_and_write-IsVisit :
    (k : Machine) (w : ℕ → ℕ) → IsVisit IsHeld (check_and_write k w) (λ c. w c.1) (fault k)
unfolding write_word
check_and_write-IsVisit k w = record {
  errors = check_word-errors k;
  here = λ c m r. write_word_same c.0 (w c.1) c.0 (check_word k c.0 c.1 m) refl;
  away = λ c m a n.
      write_word_other c.0 (w c.1) a (check_word k c.0 c.1 m) n
      ∙ ap (λ (f : ℕ → ℕ). f a) (check_word-memory k c.0 c.1 m);
}
