-- ===== src/Pmem/Sanitize/Disjoint.antt =====
-- The map that `sanitize_e820_map` of system/pmem.c makes has no overlaps and fits its array.
use memtest86plus.Base.{ℕ, ◌+◌, ◌^◌, ◌≤◌, ◌<◌, List, [], ◌∷◌, ◌++◌, ◌≡◌, ◌≢◌, refl, sym, ◌∙◌}
use memtest86plus.Base.{
  arith, Bool, true, false, Bool-cases, inl, inr, some, length, length-append, if◌then◌else◌, ltb,
  leb, ◌==◌, sub64,
}
use memtest86plus.Pmem.Map.{E820Entry, HaveWords, e820_none, e820_map_size}
use memtest86plus.Pmem.Sanitize.{
  ChangePoint, precedes, change_points, Sweep, start_sweep, has_overflow,
}
use memtest86plus.Pmem.Sanitize.{
  update_overlap, overlap_type, close_slot, open_slot, sweep_step, sweep, sanitize_e820_map,
}
use memtest86plus.Pmem.Sanitize.PointOrder.{IsOrdered, sum, sort_points_total}

-- The entries are in order from `lo` up to `hi`, apart from one another, not empty and of a type.
abbrev pub IsChain : ℕ → List E820Entry → ℕ → Type 0
IsChain lo [] hi = lo ≤ hi
IsChain lo (e ∷ es) hi =
    (lo ≤ e.addr) × (0 < e.size) × (e.type ≢ e820_none) × IsChain (e.addr + e.size) es hi

IsChain-le :
    (lo : ℕ) (es : List E820Entry) (hi hi' : ℕ) → hi ≤ hi' → IsChain lo es hi → IsChain lo es hi'
IsChain-le lo [] hi hi' h c = omega arith
IsChain-le lo (e ∷ es) hi hi' h (a, b, t, c) = (a, b, t, IsChain-le (e.addr + e.size) es hi hi' h c)

IsChain-append :
    (lo : ℕ) (es : List E820Entry) (e : E820Entry)
    → 0 < e.size
    → e.type ≢ e820_none
    → IsChain lo es e.addr
    → IsChain lo (es ++ (e ∷ [])) (e.addr + e.size)
IsChain-append lo [] e p t c = (c, p, t, omega arith)
IsChain-append lo (d ∷ es) e p t (a, b, u, c) =
    (a, b, u, IsChain-append (d.addr + d.size) es e p t c)

-- Between two points: the map so far ends by `cur`, the address of the last point; the entry in
-- `slot`, if there is one, starts where the map so far has ended.
record IsSwept (s : Sweep) (cur : ℕ) : Type 0 where
  chain : IsChain 0 s.new_map cur
  open_chain : s.last_type ≢ e820_none → IsChain 0 s.new_map s.last_addr
  open_addr : s.last_type ≢ e820_none → (s.slot.addr ≡ s.last_addr) × (s.last_addr ≤ cur)
  open_type : s.last_type ≢ e820_none → s.slot.type ≡ s.last_type
  room : length s.new_map < e820_map_size

abbrev closed : Sweep → ℕ → E820Entry
closed s a = record (s.slot) { size = sub64 a s.last_addr }

closed-IsChain :
    (s : Sweep) (cur a : ℕ)
    → IsSwept s cur
    → cur ≤ a
    → a < 2 ^ 64
    → s.last_type ≢ e820_none
    → sub64 a s.last_addr ≢ 0
    → IsChain 0 (s.new_map ++ (closed s a ∷ [])) a
closed-IsChain s cur a v h fits typed long =
    let (same, early) = v.open_addr typed in
    let total : s.slot.addr + sub64 a s.last_addr ≡ a = omega (arith, same) in
    let nonzero : s.slot.type ≢ e820_none = λ e. typed (sym (v.open_type typed) ∙ e) in
    let whole =
      IsChain-append 0 s.new_map (closed s a) (omega arith) nonzero
        (rw same (v.open_chain typed)) in
    rw total at whole

-- Closing the slot at `a` ends the map by `a`.
close_slot-IsChain :
    (s : Sweep) (cur a : ℕ)
    → IsSwept s cur
    → cur ≤ a
    → a < 2 ^ 64
    → IsChain 0 (close_slot s a).new_map a × (length (close_slot s a).new_map ≤ e820_map_size)
unfolding close_slot
close_slot-IsChain s cur a v h fits = elim (Bool-cases (s.last_type == e820_none)) [
  | inl idle ↦ rw idle (IsChain-le 0 s.new_map cur a h v.chain, omega (arith, v.room))
  | inr live ↦
      let typed : s.last_type ≢ e820_none = ground (arith, live) in
      elim (Bool-cases (sub64 a s.last_addr == 0)) [
        | inl empty ↦
            let end : a ≡ s.last_addr = ground (arith, empty, v.open_addr typed) in
            rw (live, empty)
              (
                IsChain-le 0 s.new_map s.last_addr a (omega arith) (v.open_chain typed),
                omega (arith, v.room),
              )
        | inr long ↦
            rw (live, long)
              (
                closed-IsChain s cur a v h fits typed (ground (arith, long)),
                omega (
                  arith,
                  v.room,
                  length-append s.new_map (record (s.slot) { size = sub64 a s.last_addr } ∷ []),
                ),
              )
      ]
]

open_slot-IsSwept :
    (s : Sweep) (a t : ℕ)
    → IsChain 0 s.new_map a
    → length s.new_map < e820_map_size
    → IsSwept (open_slot s a t) a
unfolding open_slot
open_slot-IsSwept s a t chain room = elim (Bool-cases (t == e820_none)) [
  | inl idle ↦
      let zero : t ≡ 0 = ground (arith, idle) in
      rw idle (record {
        chain = chain;
        open_chain = λ h. absurd (h zero);
        open_addr = λ h. absurd (h zero);
        open_type = λ h. absurd (h zero);
        room = room;
      })
  | inr live ↦ rw live (record {
    chain = chain;
    open_chain = λ h. chain;
    open_addr = λ h. (refl, omega arith);
    open_type = λ h. refl;
    room = room;
  })
]

-- What a step of the sweep leaves: the map ends by the point; if the step breaks off the map is
-- full, else the sweep goes on.
Stepped : Sweep × Bool → ℕ → Type 0
Stepped (s, true) a = IsChain 0 s.new_map a × (length s.new_map ≤ e820_map_size)
Stepped (s, false) a = IsSwept s a

sweep_step-Stepped :
    (orig : List E820Entry) (s : Sweep) (p : ChangePoint) (cur : ℕ)
    → IsSwept s cur
    → cur ≤ p.addr
    → p.addr < 2 ^ 64
    → Stepped (sweep_step orig s p) p.addr
unfolding sweep_step Stepped
sweep_step-Stepped orig s p cur v h fits =
    let xs = update_overlap s.overlap_list p in
    let s' : Sweep = record s { overlap_list = xs } in
    let t = overlap_type orig xs e820_none in
    let v' : IsSwept s' cur = record {
      chain = v.chain;
      open_chain = v.open_chain;
      open_addr = v.open_addr;
      open_type = v.open_type;
      room = v.room;
    } in
    let (chain, count) = close_slot-IsChain s' cur p.addr v' h fits in
    elim (Bool-cases (t == s.last_type)) [
      | inl same ↦ rw same (record {
        chain = IsChain-le 0 s.new_map cur p.addr h v.chain;
        open_chain = v.open_chain;
        open_addr = λ l. ((v.open_addr l).0, omega (arith, v.open_addr l));
        open_type = v.open_type;
        room = v.room;
      })
      | inr change ↦ elim (Bool-cases (leb e820_map_size (length (close_slot s' p.addr).new_map))) [
        | inl full ↦ rw (change, full) (chain, count)
        | inr free ↦
            rw (change, free)
              (open_slot-IsSwept (close_slot s' p.addr) p.addr t chain (ground (arith, free)))
      ]
    ]

-- The addresses of the points do not fall, start at `cur` or above and are words.
abbrev AreAbove : ℕ → List ChangePoint → Type 0
AreAbove cur [] = Unit {0}
AreAbove cur (p ∷ ps) = (cur ≤ p.addr) × (p.addr < 2 ^ 64) × AreAbove p.addr ps

IsSwept-of_step : (r : Sweep × Bool) (a : ℕ) → Stepped r a → r.1 ≡ false → IsSwept r.0 a
unfolding Stepped
IsSwept-of_step (s, true) a v e = cc
IsSwept-of_step (s, false) a v e = v

IsChain-of_break :
    (r : Sweep × Bool) (a : ℕ)
    → Stepped r a
    → r.1 ≡ true
    → IsChain 0 r.0.new_map a × (length r.0.new_map ≤ e820_map_size)
unfolding Stepped
IsChain-of_break (s, true) a v e = v
IsChain-of_break (s, false) a v e = cc

sweep-IsChain :
    (orig : List E820Entry) (ps : List ChangePoint) (s : Sweep) (cur : ℕ)
    → IsSwept s cur
    → cur ≤ 2 ^ 64
    → AreAbove cur ps
    → IsChain 0 (sweep orig s ps).new_map (2 ^ 64)
      × (length (sweep orig s ps).new_map ≤ e820_map_size)
unfolding sweep
sweep-IsChain orig [] s cur v h above =
    (IsChain-le 0 s.new_map cur (2 ^ 64) h v.chain, omega (arith, v.room))
sweep-IsChain orig (p ∷ ps) s cur v h (le, fits, above) =
    let r = sweep_step orig s p in
    let stepped = sweep_step-Stepped orig s p cur v le fits in
    elim (Bool-cases r.1) [
      | inl stop ↦
          let (chain, count) = IsChain-of_break r p.addr stepped stop in
          rw stop (IsChain-le 0 r.0.new_map p.addr (2 ^ 64) (omega arith) chain, count)
      | inr on ↦ rw on (
          sweep-IsChain orig ps r.0 p.addr (IsSwept-of_step r p.addr stepped on) (omega arith)
            above)
    ]

-- 1 for a point whose address is not a word.
beyond : ChangePoint → ℕ
beyond p = if ltb p.addr (2 ^ 64) then 0 else 1

word_of_beyond : (p : ChangePoint) → beyond p ≡ 0 → p.addr < 2 ^ 64
unfolding beyond
word_of_beyond p h = ground arith

le_of_precedes : (p q : ChangePoint) → precedes q p ≡ false → p.addr ≤ q.addr
unfolding precedes
le_of_precedes p q h = ground arith

AreAbove-of_ordered :
    (cur : ℕ) (p : ChangePoint) (ps : List ChangePoint)
    → cur ≤ p.addr
    → IsOrdered (p ∷ ps)
    → sum beyond (p ∷ ps) ≡ 0
    → AreAbove cur (p ∷ ps)
AreAbove-of_ordered cur p [] h o z = (h, word_of_beyond p (omega arith), tt)
AreAbove-of_ordered cur p (q ∷ ps) h (o, os) z = (
  h,
  word_of_beyond p (omega arith),
  AreAbove-of_ordered p.addr q ps (le_of_precedes p q o) os (omega arith),
)

AreAbove-zero : (ps : List ChangePoint) → IsOrdered ps → sum beyond ps ≡ 0 → AreAbove 0 ps
AreAbove-zero [] o z = tt
AreAbove-zero (p ∷ ps) o z = AreAbove-of_ordered 0 p ps (omega arith) o z

beyond-change_points :
    (es : List E820Entry) (i : ℕ) → HaveWords es → sum beyond (change_points es i) ≡ 0
unfolding change_points beyond
beyond-change_points [] i h = refl
beyond-change_points (e ∷ es) i (w, h) = ground (arith, beyond-change_points es (i + 1) h)

start_sweep-IsSwept : IsSwept start_sweep 0
start_sweep-IsSwept = record {
  chain = omega arith;
  open_chain = λ h. absurd (h refl);
  open_addr = λ h. absurd (h refl);
  open_type = λ h. absurd (h refl);
  room = omega arith;
}

-- `sanitize_e820_map` always returns; the entries of its map are in order of address, none is empty
-- and none overlaps the next; all lie below 2^64, and the map fits its array of 128 entries.
pub sanitize_disjoint :
    (orig : List E820Entry)
    → HaveWords orig
    → (es : List E820Entry) × (sanitize_e820_map orig ≡ some es)
      × IsChain 0 es (2 ^ 64)
      × (length es ≤ e820_map_size)
unfolding sanitize_e820_map
sanitize_disjoint orig words = elim (Bool-cases (has_overflow orig)) [
  | inl over ↦ ([], rw over, omega arith, omega arith)
  | inr fine ↦
      let (ps, done, sorted) = sort_points_total (change_points orig 0) in
      let (chain, count) = sweep-IsChain orig ps start_sweep 0 start_sweep-IsSwept (omega arith) (
        AreAbove-zero ps sorted.ordered (sorted.same beyond ∙ beyond-change_points orig 0 words)) in
      ((sweep orig start_sweep ps).new_map, rw (fine, done), chain, count)
]
