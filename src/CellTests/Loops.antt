-- ===== src/CellTests/Loops.antt =====
-- The loops of CellTests go over the words of all ranges once each, in their order.
use memtest86plus.Base.{
  ℕ, zero, suc, ◌+◌, ◌-◌, ◌*◌, ◌/◌, ◌≤◌, ◌<◌, ◌≡◌, refl, ap, ◌∙◌, sym, arith, true, false,
  Bool-cases, List, [], ◌∷◌, ◌++◌, Option, none, some, ltb, inl, inr,
}
use memtest86plus.Chunk.{word_size}
use memtest86plus.CellTests.{
  Machine, Ram, TestState, Outcome, next, then_do, do_tick, words_up, words_down, num_words,
  test_span, spans_up, spans_down, skip_range, spin_size,
}

-- The words from `p` on.
unfoldable pub word_list : ℕ → ℕ → List ℕ
word_list zero p = []
word_list (suc n) p = p ∷ word_list n (p + word_size)

-- What is done at each word of a list, in its order or backwards.
unfoldable pub visit {ℓ} : {A : Type ℓ} → (A → Ram → Ram) → List A → Ram → Ram
visit op [] m = m
visit op (p ∷ ps) m = visit op ps (op p m)

unfoldable pub visit_back {ℓ} : {A : Type ℓ} → (A → Ram → Ram) → List A → Ram → Ram
visit_back op [] m = m
visit_back op (p ∷ ps) m = op p (visit_back op ps m)

module _ (op : ℕ → Ram → Ram) where
  pub visit-append :
      (ps qs : List ℕ) (m : Ram) → visit op (ps ++ qs) m ≡ visit op qs (visit op ps m)
  unfolding visit
  visit-append [] qs m = refl
  visit-append (p ∷ ps) qs m = visit-append ps qs (op p m)

  pub visit_back-append :
      (ps qs : List ℕ) (m : Ram)
      → visit_back op (ps ++ qs) m ≡ visit_back op ps (visit_back op qs m)
  unfolding visit_back
  visit_back-append [] qs m = refl
  visit_back-append (p ∷ ps) qs m = ap (op p) (visit_back-append ps qs m)

  word_list-add :
      (a b p : ℕ) → word_list (a + b) p ≡ word_list a p ++ word_list b (p + a * word_size)
  unfolding word_list
  word_list-add zero b p =
      let none_more : 0 + b ≡ b = omega arith in
      let here : p + 0 * word_size ≡ p = omega arith in rw (none_more, here) refl
  word_list-add (suc a) b p =
      let more : suc a + b ≡ suc (a + b) = omega arith in
      let to : p + word_size + a * word_size ≡ p + suc a * word_size = omega arith in
      rw more (
        ap (λ (l : List ℕ). p ∷ l)
          (word_list-add a b (p + word_size)
            ∙ ap (λ (q : ℕ). word_list a (p + word_size) ++ word_list b q) to))

  word_list-last :
      (n p last : ℕ) → last ≡ p + n * word_size → word_list (suc n) p ≡ word_list n p ++ (last ∷ [])
  unfolding word_list
  word_list-last zero p last e = let same : last ≡ p = omega (arith, e) in rw same refl
  word_list-last (suc n) p last e =
      ap (λ (l : List ℕ). p ∷ l) (word_list-last n (p + word_size) last (omega (arith, e)))

  words_up-visit :
      (n p pe : ℕ) (m : Ram)
      → pe ≡ p + n * word_size
      → words_up op (suc n) p pe m ≡ visit op (word_list (suc n) p) m
  unfolding words_up visit word_list
  words_up-visit zero p pe m e = let stop : ltb p pe ≡ false = ground (arith, e) in rw stop refl
  words_up-visit (suc n) p pe m e =
      let go : ltb p pe ≡ true = ground (arith, e) in
      rw go (words_up-visit n (p + word_size) pe (op p m) (omega (arith, e)))

  words_down-visit :
      (n p ps : ℕ) (m : Ram)
      → p ≡ ps + n * word_size
      → words_down op (suc n) p ps m ≡ visit_back op (word_list (suc n) ps) m
  unfolding words_down visit_back word_list
  words_down-visit zero p ps m e =
      let stop : ltb ps p ≡ false = ground (arith, e) in
      let same : p ≡ ps = omega (arith, e) in rw (stop, same) refl
  words_down-visit (suc n) p ps m e =
      let go : ltb ps p ≡ true = ground (arith, e) in
      rw go (
        words_down-visit n (p - word_size) ps (op p m) (omega (arith, e))
        ∙ sym (visit_back-append (word_list (suc n) ps) (p ∷ []) m)
        ∙ ap (λ (l : List ℕ). visit_back op l m) (sym (word_list-last (suc n) ps p e)))

  -- A span and the rest of the range.
  words_up-then :
      (n v p pe : ℕ) (m : Ram)
      → pe ≡ p + n * word_size
      → visit op (word_list (suc v) (pe + word_size)) (words_up op (num_words p pe) p pe m)
        ≡ visit op (word_list (suc n + suc v) p) m
  words_up-then n v p pe m e =
      let count : num_words p pe ≡ suc n = omega (arith, e) in
      let to : pe + word_size ≡ p + suc n * word_size = omega (arith, e) in
      rw (count, to)
        (ap (visit op (word_list (suc v) (p + suc n * word_size))) (words_up-visit n p pe m e)
          ∙ sym (visit-append (word_list (suc n) p) (word_list (suc v) (p + suc n * word_size)) m)
          ∙ ap (λ (l : List ℕ). visit op l m) (sym (word_list-add (suc n) (suc v) p)))

  words_down-then :
      (n v p ps start : ℕ) (m : Ram)
      → p ≡ ps + n * word_size
      → ps ≡ start + suc v * word_size
      → visit_back op (word_list (suc v) start) (words_down op (num_words ps p) p ps m)
        ≡ visit_back op (word_list (suc v + suc n) start) m
  words_down-then n v p ps start m e h =
      let count : num_words ps p ≡ suc n = omega (arith, e) in
      rw count (
        ap (visit_back op (word_list (suc v) start)) (words_down-visit n p ps m e)
        ∙ sym (visit_back-append (word_list (suc v) start) (word_list (suc n) ps) m)
        ∙ ap (λ (q : ℕ). visit_back op (word_list (suc v) start ++ word_list (suc n) q) m) h
        ∙ ap (λ (l : List ℕ). visit_back op l m) (sym (word_list-add (suc v) (suc n) start)))

-- How a stretch of code ends for a CPU, or in a dummy run, that is never told to stop: with its
-- change of the memory, after so many spans and calls of `do_tick`.
unfoldable pub finish : Option ℕ → (Ram → Ram) → ℕ → ℕ → TestState → TestState
finish none f spans calls s = record s { ticks = s.ticks + spans }
finish (some cpu) f spans calls s = record {
  ram = f s.ram;
  ticks = s.ticks + spans;
  ticked = s.ticked + calls;
}

pub finish_twice :
    (cpu : Option ℕ) (f g : Ram → Ram) (a b c d : ℕ) (s : TestState)
    → finish cpu g c d (finish cpu f a b s) ≡ finish cpu (λ m. g (f m)) (a + c) (b + d) s
unfolding finish
finish_twice none f g a b c d s = ap (λ (t : ℕ). record s { ticks = t }) (omega arith)
finish_twice (some cpu) f g a b c d s =
    let first : s.ticks + a + c ≡ s.ticks + (a + c) = omega arith in
    let second : s.ticked + b + d ≡ s.ticked + (b + d) = omega arith in rw (first, second) refl

pub finish_ext :
    (cpu : Option ℕ) (f g : Ram → Ram) (a b c d : ℕ) (s : TestState)
    → f s.ram ≡ g s.ram
    → a ≡ c
    → b ≡ d
    → finish cpu f a b s ≡ finish cpu g c d s
unfolding finish
finish_ext none f g a b c d s e h i = rw h refl
finish_ext (some cpu) f g a b c d s e h i = rw (e, h, i) refl

pub finish_same :
    (cpu : Option ℕ) (f : Ram → Ram) (s : TestState) → f s.ram ≡ s.ram → finish cpu f 0 0 s ≡ s
unfolding finish
finish_same none f s e = ap (λ (t : ℕ). record s { ticks = t }) (omega arith)
finish_same (some cpu) f s e =
    let ticks : s.ticks + 0 ≡ s.ticks = omega arith in
    let ticked : s.ticked + 0 ≡ s.ticked = omega arith in rw (e, ticks, ticked) refl

-- A stretch of code, and the rest behind it.
pub then_finish :
    (cpu : Option ℕ) (r : Outcome) (rest : TestState → Outcome) (f g h : Ram → Ram) (a b c d : ℕ)
    (s : TestState)
    → r ≡ next (finish cpu f a b s)
    → rest (finish cpu f a b s) ≡ next (finish cpu g c d (finish cpu f a b s))
    → g (f s.ram) ≡ h s.ram
    → then_do r rest ≡ next (finish cpu h (a + c) (b + d) s)
then_finish cpu r rest f g h a b c d s first later same = rw first (
    later
    ∙ ap next (
        finish_twice cpu f g a b c d s
        ∙ finish_ext cpu (λ m. g (f m)) h (a + c) (b + d) (a + c) (b + d) s same refl refl))

module _ (k : Machine) (quiet : (n : ℕ) → k.bail n ≡ false) where
  test_span-finish :
      (cpu : Option ℕ) (f : Ram → Ram) (s : TestState)
      → test_span k cpu f s ≡ next (finish cpu f 1 1 s)
  unfolding test_span do_tick finish
  test_span-finish none f s = refl
  test_span-finish (some cpu) f s = rw (quiet (s.ticked + 1)) refl

  pub skip_range-finish :
      (cpu : Option ℕ) (s : TestState) → skip_range k cpu s ≡ next (finish cpu (λ m. m) 0 1 s)
  unfolding skip_range do_tick finish
  skip_range-finish none s = ap (λ (t : ℕ). next (record s { ticks = t })) (omega arith)
  skip_range-finish (some cpu) s =
      let same : s.ticks + 0 ≡ s.ticks = omega arith in rw (quiet (s.ticked + 1), same) refl

  module _ (cpu : Option ℕ) (op : ℕ → Ram → Ram) where
    -- The spans cover a range of `w + 1` words.
    pub spans_up-finish :
        (left p end w : ℕ) (s : TestState)
        → end ≡ p + w * word_size
        → w / spin_size < left
        → spans_up k cpu op left p end s
          ≡ next (
              finish cpu (visit op (word_list (suc w) p)) (w / spin_size + 1) (w / spin_size + 1) s)
    unfolding spans_up
    spans_up-finish zero p end w s e h = absurd (omega arith)
    spans_up-finish (suc left) p end w s e h =
        let words : (end - p) / word_size ≡ w = omega (arith, e) in
        elim (Bool-cases (ltb ((end - p) / word_size) spin_size)) [
          | inl last ↦
              (let count : num_words p end ≡ suc w = omega (arith, words) in
                let one : 1 ≡ w / spin_size + 1 = ground (arith, words, last) in
                rw last (
                  test_span-finish cpu (words_up op (num_words p end) p end) s
                  ∙ ap next (
                      finish_ext cpu (words_up op (num_words p end) p end)
                        (visit op (word_list (suc w) p)) 1 1 (w / spin_size + 1) (w / spin_size + 1)
                        s (rw count (words_up-visit op w p end s.ram e)) one one)))
          | inr more ↦
              (let pe = p + (spin_size - 1) * word_size in
                let far : spin_size ≤ w = ground (arith, words, more) in
                let ends : end ≡ pe + word_size + (w - spin_size) * word_size =
                  omega (arith, e, far) in
                let count : num_words p pe ≡ spin_size = omega arith in
                let split : suc w ≡ spin_size + suc (w - spin_size) = omega (arith, far) in
                let spans : 1 + ((w - spin_size) / spin_size + 1) ≡ w / spin_size + 1 =
                  omega (arith, far) in
                let f = words_up op (num_words p pe) p pe in
                let g = visit op (word_list (suc (w - spin_size)) (pe + word_size)) in
                let same : g (f s.ram) ≡ visit op (word_list (suc w) p) s.ram =
                  words_up-then op (spin_size - 1) (w - spin_size) p pe s.ram refl
                  ∙ ap (λ (n : ℕ). visit op (word_list n p) s.ram) (sym split) in
                rw more (
                  then_finish cpu (test_span k cpu f s)
                    (spans_up k cpu op left (pe + word_size) end) f g
                    (visit op (word_list (suc w) p)) 1 1 ((w - spin_size) / spin_size + 1)
                    ((w - spin_size) / spin_size + 1) s (test_span-finish cpu f s)
                    (spans_up-finish left (pe + word_size) end (w - spin_size) (finish cpu f 1 1 s)
                      ends (omega (arith, h, far)))
                    same
                  ∙ ap (λ (n : ℕ). next (finish cpu (visit op (word_list (suc w) p)) n n s)) spans))
        ]

    -- The spans downwards cover it too.
    pub spans_down-finish :
        (left p start w : ℕ) (s : TestState)
        → p ≡ start + w * word_size
        → w / spin_size < left
        → spans_down k cpu op left p start s
          ≡ next (
              finish cpu
                (visit_back op (word_list (suc w) start))
                (w / spin_size + 1)
                (w / spin_size + 1)
                s)
    unfolding spans_down
    spans_down-finish zero p start w s e h = absurd (omega arith)
    spans_down-finish (suc left) p start w s e h =
        let words : (p - start) / word_size ≡ w = omega (arith, e) in
        elim (Bool-cases (ltb ((p - start) / word_size) spin_size)) [
          | inl last ↦
              (let count : num_words start p ≡ suc w = omega (arith, words) in
                let one : 1 ≡ w / spin_size + 1 = ground (arith, words, last) in
                rw last (
                  test_span-finish cpu (words_down op (num_words start p) p start) s
                  ∙ ap next (
                      finish_ext cpu (words_down op (num_words start p) p start)
                        (visit_back op (word_list (suc w) start)) 1 1 (w / spin_size + 1)
                        (w / spin_size + 1) s (rw count (words_down-visit op w p start s.ram e)) one
                        one)))
          | inr more ↦
              (let ps = p - (spin_size - 1) * word_size in
                let far : spin_size ≤ w = ground (arith, words, more) in
                let ends : ps - word_size ≡ start + (w - spin_size) * word_size =
                  omega (arith, e, far) in
                let count : num_words ps p ≡ spin_size = omega arith in
                let split : suc w ≡ suc (w - spin_size) + spin_size = omega (arith, far) in
                let spans : 1 + ((w - spin_size) / spin_size + 1) ≡ w / spin_size + 1 =
                  omega (arith, far) in
                let f = words_down op (num_words ps p) p ps in
                let g = visit_back op (word_list (suc (w - spin_size)) start) in
                let same : g (f s.ram) ≡ visit_back op (word_list (suc w) start) s.ram =
                  words_down-then op (spin_size - 1) (w - spin_size) p ps start s.ram
                    (omega (arith, e, far)) (omega (arith, e, far))
                  ∙ ap (λ (n : ℕ). visit_back op (word_list n start) s.ram) (sym split) in
                rw more (
                  then_finish cpu (test_span k cpu f s)
                    (spans_down k cpu op left (ps - word_size) start) f g
                    (visit_back op (word_list (suc w) start)) 1 1 ((w - spin_size) / spin_size + 1)
                    ((w - spin_size) / spin_size + 1) s (test_span-finish cpu f s)
                    (spans_down-finish left (ps - word_size) start (w - spin_size)
                      (finish cpu f 1 1 s) ends (omega (arith, h, far)))
                    same
                  ∙ ap
                      (λ (n : ℕ). next (finish cpu (visit_back op (word_list (suc w) start)) n n s))
                      spans))
        ]
