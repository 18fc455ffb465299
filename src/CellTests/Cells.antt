-- ===== src/CellTests/Cells.antt =====
-- Passes over addresses whose values are given by a function: the words are filled, checked, or checked
-- and written.
use memtest86plus.Base.{ℕ, ◌≡◌, ◌≢◌, refl, ap, ◌∙◌, List, [], ◌∷◌, ◌++◌}
use memtest86plus.CellTests.{Machine, Ram, DataError, write_word, check_word}
use memtest86plus.CellTests.Loops.{visit, visit_back}
use memtest86plus.CellTests.Pass.{
  Cell, IsApart, AreDistinct, AreReady, IsHeld, all_reports, all_reports_back, fault, write_cell,
  check_cell, check_and_write, Passed, no_report, visit-Passed, visit_back-Passed, write-IsVisit,
  check-IsVisit, check_and_write-IsVisit,
}

-- Cells whose values depend on their addresses.
unfoldable pub cells : (ℕ → ℕ) → List ℕ → List Cell
cells value [] = []
cells value (a ∷ ps) = (a, value a) ∷ cells value ps

abbrev pub IsNew : ℕ → List ℕ → Type 0
IsNew a [] = Unit {0}
IsNew a (b ∷ bs) = (a ≢ b) × IsNew a bs

-- No address occurs twice.
abbrev pub AreOnce : List ℕ → Type 0
AreOnce [] = Unit {0}
AreOnce (a ∷ ps) = IsNew a ps × AreOnce ps

cells-IsApart : (value : ℕ → ℕ) (a : ℕ) (ps : List ℕ) → IsNew a ps → IsApart a (cells value ps)
unfolding cells
cells-IsApart value a [] n = tt
cells-IsApart value a (b ∷ bs) (n, ns) = (n, cells-IsApart value a bs ns)

pub cells-AreDistinct : (value : ℕ → ℕ) (ps : List ℕ) → AreOnce ps → AreDistinct (cells value ps)
unfolding cells
cells-AreDistinct value [] o = tt
cells-AreDistinct value (a ∷ ps) (n, o) = (cells-IsApart value a ps n, cells-AreDistinct value ps o)

-- The values that a pass leaves behind are those that the next one checks.
pub cells-AreReady :
    (f g : ℕ → ℕ) (value : Cell → ℕ) (ps : List ℕ) (m : ℕ → ℕ)
    → ((a : ℕ) → value (a, f a) ≡ g a)
    → AreReady (λ c v. v ≡ value c) (cells f ps) m
    → AreReady IsHeld (cells g ps) m
unfolding cells
cells-AreReady f g value [] m e h = tt
cells-AreReady f g value (a ∷ ps) m e (h, hs) = (h ∙ e a, cells-AreReady f g value ps m e hs)

cells-free : (f : ℕ → ℕ) (ps : List ℕ) (m : ℕ → ℕ) → AreReady (λ c v. Unit {0}) (cells f ps) m
unfolding cells
cells-free f [] m = tt
cells-free f (a ∷ ps) m = (tt, cells-free f ps m)

module _ (f : ℕ → ℕ) (op : Cell → Ram → Ram) where
  visit-cells : (ps : List ℕ) (m : Ram) → visit (λ a. op (a, f a)) ps m ≡ visit op (cells f ps) m
  unfolding visit cells
  visit-cells [] m = refl
  visit-cells (a ∷ ps) m = visit-cells ps (op (a, f a) m)

  visit_back-cells :
      (ps : List ℕ) (m : Ram) → visit_back (λ a. op (a, f a)) ps m ≡ visit_back op (cells f ps) m
  unfolding visit_back cells
  visit_back-cells [] m = refl
  visit_back-cells (a ∷ ps) m = ap (op (a, f a)) (visit_back-cells ps m)

-- The three passes over addresses: each word is written, or checked, or both.
module _ (k : Machine) (ps : List ℕ) (once : AreOnce ps) (m : Ram) where
  pub fill-Passed :
      (f : ℕ → ℕ) → Passed (λ c. c.1) [] (cells f ps) m (visit (λ a. write_word a (f a)) ps m)
  unfolding all_reports
  fill-Passed f =
      let p =
        visit-Passed write-IsVisit (cells f ps) m (cells-AreDistinct f ps once)
          (cells-free f ps m.memory) in
      rw (visit-cells f write_cell ps m) (record {
        errors = p.errors ∙ ap (λ (l : List DataError). m.errors ++ l) (silent (cells f ps));
        holds = p.holds;
        keeps = p.keeps;
      })
    where
      silent : (cs : List Cell) → all_reports no_report cs ≡ []
      silent [] = refl
      silent (c ∷ cs) = silent cs

  module _ (f : ℕ → ℕ) (held : AreReady IsHeld (cells f ps) m.memory) where
    pub check-Passed :
        Passed
          (λ c. c.1)
          (all_reports (fault k) (cells f ps))
          (cells f ps)
          m
          (visit (λ a. check_word k a (f a)) ps m)
    check-Passed =
        rw (visit-cells f (check_cell k) ps m)
          (visit-Passed (check-IsVisit k) (cells f ps) m (cells-AreDistinct f ps once) held)

    module _ (w : ℕ → ℕ) where
      pub invert-Passed :
          Passed
            (λ c. w c.1)
            (all_reports (fault k) (cells f ps))
            (cells f ps)
            m
            (visit (λ a m. write_word a (w (f a)) (check_word k a (f a) m)) ps m)
      invert-Passed = rw (visit-cells f (check_and_write k w) ps m) (
          visit-Passed (check_and_write-IsVisit k w) (cells f ps) m (cells-AreDistinct f ps once)
            held)

      pub invert_back-Passed :
          Passed
            (λ c. w c.1)
            (all_reports_back (fault k) (cells f ps))
            (cells f ps)
            m
            (visit_back (λ a m. write_word a (w (f a)) (check_word k a (f a) m)) ps m)
      invert_back-Passed = rw (visit_back-cells f (check_and_write k w) ps m) (
          visit_back-Passed (check_and_write-IsVisit k w) (cells f ps) m
            (cells-AreDistinct f ps once) held)
