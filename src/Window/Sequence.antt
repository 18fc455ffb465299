-- ===== src/Window/Sequence.antt =====
-- `test_all_windows` of app/main.c: the windows follow one another without a gap, and between them
-- they show every usable page within the limits.
use memtest86plus.Base.{
  ℕ, zero, suc, ◌+◌, ◌-◌, ◌*◌, ◌/◌, ◌%◌, ◌^◌, ◌≤◌, ◌<◌, List, [], ◌∷◌, true, false, ◌||◌, ==_iff,
  ◌≡◌, refl, ◌∙◌, arith, ◌⊎◌, inl, inr, Bool-cases, Option, some, length, ltb, leb, ◌==◌,
  if◌then◌else◌, get_or, ap,
}
use memtest86plus.Pmem.Map.{Segment}
use memtest86plus.Chunk.{VmSegment}
use memtest86plus.Vm.Mapping.{map_window-maps}
use memtest86plus.Window.{
  Settings, VmMap, Windows, no_vm_segment, low_load_limit, skip_low_window, window_bounds,
  setup_vm_map, test_all_windows, finish_round, next_windows,
}
use memtest86plus.Window.Segments.{AreMapped, AreUsable, IsFrame, Shows, setup_vm_map_lem}

-- The pages that one of the tested maps shows.
abbrev pub AreTested : List VmMap → ℕ → Type 0
AreTested [] p = ⊥
AreTested (m ∷ ms) p = AreMapped m.segments p ⊎ AreTested ms p

-- The window with this number starts at page `from` if the one before ended at `end`.
abbrev StartsAt : ℕ → ℕ → ℕ → Type 0
StartsAt zero end from = from ≡ 0
StartsAt (suc zero) end from = from ≡ 0x400
StartsAt (suc (suc num)) end from = (from ≡ end) × (0x40000 ≤ end) × (end % 0x40000 ≡ 0)

window_bounds-IsFrame :
    (num end from : ℕ)
    → StartsAt num end from
    → from ≤ 2 ^ 51
    → ((window_bounds num end).0 ≡ from)
      × IsFrame from (window_bounds num end).1
      × StartsAt (suc num) (window_bounds num end).1 (window_bounds num end).1
unfolding window_bounds
window_bounds-IsFrame zero end from s h =
    (omega arith, (omega arith, omega arith, inl (omega arith)), refl)
window_bounds-IsFrame (suc zero) end from s h =
    (omega arith, (omega arith, omega arith, inl (omega arith)), (refl, omega arith, refl))
window_bounds-IsFrame (suc (suc num)) end from (s, l, m) h =
    (omega arith, (omega arith, omega arith, ground arith), (refl, omega arith, omega arith))

-- The fuel is enough to go from page `from` to page `last`.
abbrev IsEnough : ℕ → ℕ → ℕ → ℕ → Type 0
IsEnough num from fuel last = (1 ≤ fuel) × (last + (2 - num) * 0x40000 ≤ from + fuel * 0x40000)

window_bounds-IsEnough :
    (num end from fuel last : ℕ)
    → StartsAt num end from
    → from ≤ 2 ^ 51
    → last + (2 - num) * 0x40000 ≤ from + suc fuel * 0x40000
    → (window_bounds num end).1 < last
    → IsEnough (suc num) (window_bounds num end).1 fuel last
unfolding window_bounds
window_bounds-IsEnough zero end from fuel last s l h more = (omega arith, omega arith)
window_bounds-IsEnough (suc zero) end from fuel last s l h more = (omega arith, omega arith)
window_bounds-IsEnough (suc (suc num)) end from fuel last (s, a, m) l h more =
    (omega arith, omega arith)

skip_low_window-suc : (g : Settings) (num : ℕ) → skip_low_window g (suc num) ≡ suc num
unfolding skip_low_window
skip_low_window-suc g num = ground arith

-- The first page that a test goes to: multi-stage tests never use the lowest window.
abbrev pub first_page : Settings → ℕ
first_page g = if ltb 1 g.stages || leb low_load_limit g.pm_limit_lower then 0x400 else 0

-- What the loop does from page `from` on.
pub record Tests (g : Settings) (pm_map : List Segment) (from last : ℕ) (ms : List VmMap)
    : Type 0 where
  pub sound :
      (p : ℕ)
      → AreTested ms p
      → (from ≤ p) × (g.pm_limit_lower ≤ p) × (p < g.pm_limit_upper) × AreUsable pm_map p
  pub complete :
      (p : ℕ)
      → from ≤ p
      → p < last
      → g.pm_limit_lower ≤ p
      → p < g.pm_limit_upper
      → AreUsable pm_map p
      → AreTested ms p

-- The maps that a window adds: none if it shows no page.
abbrev with_map : VmMap → List VmMap → List VmMap
with_map vm ms = if vm.num_mapped_pages == 0 then ms else vm ∷ ms

module _ (g : Settings) (pm_map : List Segment) (last : ℕ) where
  module _ (from end : ℕ) (vm : VmMap) (shows : Shows g pm_map from end vm) where
    no_pages : vm.num_mapped_pages ≡ 0 → (p : ℕ) → AreMapped vm.segments p → ⊥
    no_pages e p m = none_of vm.segments (omega (arith, shows.counted)) m
      where
        none_of : (vs : List VmSegment) → length vs ≤ 0 → AreMapped vs p → ⊥
        none_of [] h a = a
        none_of (v ∷ vs) h a = absurd (omega arith)

    tested_split :
        (ms : List VmMap) (p : ℕ)
        → AreTested (with_map vm ms) p
        → AreMapped vm.segments p ⊎ AreTested ms p
    tested_split ms p t = elim (Bool-cases (vm.num_mapped_pages == 0)) [
      | inl e ↦ inr (rw e at t)
      | inr e ↦ rw e at t
    ]

    tested_join :
        (ms : List VmMap) (p : ℕ)
        → AreMapped vm.segments p ⊎ AreTested ms p
        → AreTested (with_map vm ms) p
    tested_join ms p t = elim (Bool-cases (vm.num_mapped_pages == 0)) [
      | inl e ↦ rw e (elim t [
        | inl m ↦ absurd (no_pages ((==_iff vm.num_mapped_pages 0).0 e) p m)
        | inr a ↦ a
      ])
      | inr e ↦ rw e t
    ]

    last_window : last ≤ end → Tests g pm_map from last (with_map vm [])
    last_window h = record {
      sound = λ p t. elim (tested_split [] p t) [
        | inl m ↦ (let (a, b, c, d, u) = (shows.pages p).0 m in (a, c, d, u))
        | inr never ↦ absurd never
      ];
      complete =
          λ p a b c d u. tested_join [] p (inl ((shows.pages p).1 (a, omega arith, c, d, u)));
    }

    more_windows :
        (ms : List VmMap)
        → from ≤ end
        → Tests g pm_map end last ms
        → Tests g pm_map from last (with_map vm ms)
    more_windows ms le later = record {
      sound = λ p t. elim (tested_split ms p t) [
        | inl m ↦ (let (a, b, c, d, u) = (shows.pages p).0 m in (a, c, d, u))
        | inr n ↦ (let (a, c, d, u) = later.sound p n in (omega arith, c, d, u))
      ];
      complete = λ p a b c d u. tested_join ms p (elim (Bool-cases (ltb p end)) [
        | inl before ↦ inl ((shows.pages p).1 (a, ground (arith, before), c, d, u))
        | inr behind ↦ inr (later.complete p (ground (arith, behind)) b c d u)
      ]);
    }

  -- A round of the loop, by whether it is the last one.
  module _ (pae : g.pae ≡ true) (lm : g.lm ≡ true) (end : ℕ) (w : Windows) (vm : VmMap) where
    abbrev base : ℕ
    base = (get_or vm.segments 0 no_vm_segment).pm_base_addr

    last_round :
        (rest : Option (List VmMap))
        → ltb end last ≡ false
        → finish_round g last end w vm rest ≡ some (with_map vm [])
    unfolding finish_round
    last_round rest over = elim (Bool-cases (vm.num_mapped_pages == 0)) [
      | inl z ↦ rw (z, over) refl
      | inr nz ↦ rw (pae, lm, nz, map_window-maps w.mapped_window base, over) refl
    ]

    inner_round :
        (ms : List VmMap)
        → ltb end last ≡ true
        → finish_round g last end w vm (some ms) ≡ some (with_map vm ms)
    unfolding finish_round
    inner_round ms more = elim (Bool-cases (vm.num_mapped_pages == 0)) [
      | inl z ↦ rw (z, more) refl
      | inr nz ↦ rw (pae, lm, nz, map_window-maps w.mapped_window base, more) refl
    ]

  -- The loop from its next round on.
  one_round :
      (fuel num from end : ℕ) (w : Windows) (vm : VmMap)
      → skip_low_window g w.window_num ≡ num
      → window_bounds num w.window_end ≡ (from, end)
      → setup_vm_map g w.vm_array pm_map from end ≡ some vm
      → test_all_windows g pm_map last (suc fuel) w
        ≡ finish_round g last end w vm
            (test_all_windows g pm_map last fuel (next_windows g num end vm w))
  unfolding test_all_windows
  one_round fuel num from end w vm number bounds done = rw (number, bounds, done) refl

  module _ (numa_off : g.enable_numa ≡ false) (pae : g.pae ≡ true) (lm : g.lm ≡ true)
      (few : length pm_map ≤ 128) (memory : last ≤ 2 ^ 51) where
    windows_from :
        (fuel num from : ℕ) (w : Windows)
        → skip_low_window g w.window_num ≡ num
        → StartsAt num w.window_end from
        → IsEnough num from fuel last
        → from ≤ 2 ^ 51
        → (ms : List VmMap) × (test_all_windows g pm_map last fuel w ≡ some ms)
          × Tests g pm_map from last ms
    unfolding next_windows
    windows_from zero num from w number starts (some_fuel, enough) low = absurd (omega arith)
    windows_from (suc fuel) num from w number starts (some_fuel, enough) low =
        let (first, frame, next) = window_bounds-IsFrame num w.window_end from starts low in
        let end = (window_bounds num w.window_end).1 in
        let bounds : window_bounds num w.window_end ≡ (from, end) =
          ap (λ (s : ℕ). (s, end)) first in
        let (vm, done, shows) = setup_vm_map_lem g numa_off w.vm_array pm_map few from end frame in
        elim (Bool-cases (ltb end last)) [
          | inl more ↦
              (let (ms, rest, later) =
                  windows_from fuel (suc num) end (next_windows g num end vm w)
                    (skip_low_window-suc g num) next
                    (window_bounds-IsEnough num w.window_end from fuel last starts low enough
                      (ground (arith, more)))
                    (ground (arith, more)) in
                (
                  with_map vm ms,
                  one_round fuel num from end w vm number bounds done
                      ∙ ap (finish_round g last end w vm) rest
                      ∙ inner_round pae lm end w vm ms more,
                  more_windows from end vm shows ms (omega (arith, frame.0)) later,
                ))
          | inr over ↦ (
            with_map vm [],
            one_round fuel num from end w vm number bounds done
                ∙ last_round pae lm end w vm
                    (test_all_windows g pm_map last fuel (next_windows g num end vm w)) over,
            last_window from end vm shows (ground (arith, over)),
          )
        ]

    -- With NUMA off, on a CPU with PAE and long mode, from window 0 and with a round for each GB of
    -- memory and three more as fuel: `test_all_windows` returns. Every usable page within the limits
    -- is in a map that is tested, from the first page of the test up to the end of the last segment,
    -- and the tested maps have no page that is not usable or not within the limits.
    pub test_all_windows_lem :
        (w : Windows)
        → w.window_num ≡ 0
        → (ms : List VmMap) × (test_all_windows g pm_map last (last / 0x40000 + 3) w ≡ some ms)
          × Tests g pm_map (first_page g) last ms
    unfolding skip_low_window
    test_all_windows_lem w zeroth =
        elim (Bool-cases (ltb 1 g.stages || leb low_load_limit g.pm_limit_lower)) [
          | inl skip ↦ rw skip (
              windows_from (last / 0x40000 + 3) 1 0x400 w (rw (zeroth, skip) refl) refl
                (omega arith, omega arith) (omega arith))
          | inr keep ↦ rw keep (
              windows_from (last / 0x40000 + 3) 0 0 w (rw (zeroth, keep) refl) refl
                (omega arith, omega arith) (omega arith))
        ]
