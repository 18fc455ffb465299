-- ===== src/CellTests/Walk/Cells.antt =====
-- The cells of the walking pattern of tests/mov_inv_walk1.c, and the visits that rotate it.
use memtest86plus.Base.{ℕ, ◌≡◌, ◌<◌, refl, ap, ◌∙◌, List, [], ◌∷◌, not64, u64_mod}
use memtest86plus.CellTests.{Ram}
use memtest86plus.CellTests.Loops.{visit, visit_back}
use memtest86plus.CellTests.Pass.{Cell, AreReady, IsHeld, AreDistinct, IsApart}
use memtest86plus.CellTests.Cells.{AreOnce, IsNew}
use memtest86plus.CellTests.Random.{set_pattern, IsBlind, visit-blind}
use memtest86plus.CellTests.Walk.{rotate_left, rotate_right}
use memtest86plus.CellTests.Walk.Rotate.{rotate_left-lt, rotate_right-not64}

-- The words with the values that the pattern gives them, from the pattern `x` on.
unfoldable pub walked : (ℕ → ℕ) → ℕ → List ℕ → List Cell
walked value x [] = []
walked value x (p ∷ ps) = (p, value x) ∷ walked value (rotate_left x) ps

pub last_pattern : ℕ → List ℕ → ℕ
last_pattern x [] = x
last_pattern x (p ∷ ps) = last_pattern (rotate_left x) ps

-- Upwards the pattern is rotated behind each word.
pub visit-walked :
    (op : Cell → Ram → Ram) (ps : List ℕ) (m : Ram)
    → IsBlind op
    → visit (λ p n. set_pattern (rotate_left n.pattern) (op (p, n.pattern) n)) ps m
      ≡ set_pattern (last_pattern m.pattern ps) (visit op (walked (λ x. x) m.pattern ps) m)
unfolding visit walked last_pattern
visit-walked op [] m blind = refl
visit-walked op (p ∷ ps) m blind =
    let x = rotate_left m.pattern in
    let m' = op (p, m.pattern) m in
    visit-walked op ps (set_pattern x m') blind
    ∙ ap (set_pattern (last_pattern x ps)) (visit-blind op (walked (λ y. y) x ps) x m' blind)

-- Downwards the complement is rotated back in front of each word.
pub visit_back-walked :
    (op : Cell → Ram → Ram) (ps : List ℕ) (x : ℕ) (m : Ram)
    → IsBlind op
    → x < u64_mod
    → visit_back
        (λ p n. set_pattern (rotate_right n.pattern) (op (p, rotate_right n.pattern) n))
        ps
        (set_pattern (not64 (last_pattern x ps)) m)
      ≡ set_pattern (not64 x) (visit_back op (walked not64 x ps) m)
unfolding visit_back walked last_pattern
visit_back-walked op [] x m blind h = refl
visit_back-walked op (p ∷ ps) x m blind h =
    let y = rotate_left x in
    let rest = visit_back-walked op ps y m blind (rotate_left-lt x h) in
    let back = rotate_right-not64 x h in
    let m' = visit_back op (walked not64 y ps) m in
    rw (rest, back) (ap (set_pattern (not64 x)) (blind (p, not64 x) (not64 y) m'))

walked-IsApart :
    (value : ℕ → ℕ) (a x : ℕ) (ps : List ℕ) → IsNew a ps → IsApart a (walked value x ps)
unfolding walked
walked-IsApart value a x [] n = tt
walked-IsApart value a x (p ∷ ps) (n, ns) = (n, walked-IsApart value a (rotate_left x) ps ns)

pub walked-AreDistinct :
    (value : ℕ → ℕ) (x : ℕ) (ps : List ℕ) → AreOnce ps → AreDistinct (walked value x ps)
unfolding walked
walked-AreDistinct value x [] o = tt
walked-AreDistinct value x (p ∷ ps) (n, o) =
    (walked-IsApart value p (rotate_left x) ps n, walked-AreDistinct value (rotate_left x) ps o)

-- What a pass leaves behind is what the next one expects.
pub walked-AreReady :
    (f g : ℕ → ℕ) (value : Cell → ℕ) (x : ℕ) (ps : List ℕ) (m : ℕ → ℕ)
    → x < u64_mod
    → ((a y : ℕ) → y < u64_mod → value (a, f y) ≡ g y)
    → AreReady (λ c v. v ≡ value c) (walked f x ps) m
    → AreReady IsHeld (walked g x ps) m
unfolding walked
walked-AreReady f g value x [] m small e h = tt
walked-AreReady f g value x (p ∷ ps) m small e (h, hs) =
    (h ∙ e p x small, walked-AreReady f g value (rotate_left x) ps m (rotate_left-lt x small) e hs)

pub walked-free :
    (f : ℕ → ℕ) (x : ℕ) (ps : List ℕ) (m : ℕ → ℕ) → AreReady (λ c v. Unit {0}) (walked f x ps) m
unfolding walked
walked-free f x [] m = tt
walked-free f x (p ∷ ps) m = (tt, walked-free f (rotate_left x) ps m)
