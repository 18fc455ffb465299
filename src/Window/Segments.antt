-- ===== src/Window/Segments.antt =====
-- `setup_vm_map` of app/main.c with NUMA off: the pages that it maps.
use memtest86plus.Base.{
  ℕ, ◌+◌, ◌-◌, ◌*◌, ◌/◌, ◌^◌, ◌≤◌, ◌<◌, List, [], ◌∷◌, ◌++◌, Bool, true, false, ◌&&◌, ◌≡◌, refl,
  arith, ◌⊎◌, inl, inr, ◌↔◌, Bool-cases, some, length, length-append, ltb, leb, sub64,
  if◌then◌else◌, get_or,
}
use memtest86plus.Pmem.Map.{Segment}
use memtest86plus.Chunk.{VmSegment, word_size}
use memtest86plus.Vm.{first_word_mapping, last_word_mapping}
use memtest86plus.Window.{
  Settings, VmMap, no_vm_segment, no_vm_map, add_vm_segment, setup_segment, setup_loop,
  setup_vm_map,
}

-- The pages from `a` up to `b` that the window shows at once: all below 2 GB, or all within one GB.
abbrev pub IsFrame : ℕ → ℕ → Type 0
IsFrame a b =
    (a < b) × (b ≤ 2 ^ 52) × ((b ≤ 0x80000) ⊎ ((0x80000 ≤ a) × (a / 0x40000 ≡ (b - 1) / 0x40000)))

-- The physical pages that a virtual segment shows.
abbrev pub HasPage : VmSegment → ℕ → Type 0
HasPage v p =
    (v.pm_base_addr ≤ p) × (p * 4096 + v.start < v.pm_base_addr * 4096 + v.end + word_size)

abbrev pub AreMapped : List VmSegment → ℕ → Type 0
AreMapped [] p = ⊥
AreMapped (v ∷ vs) p = HasPage v p ⊎ AreMapped vs p

-- The pages of the map of usable memory.
abbrev pub AreUsable : List Segment → ℕ → Type 0
AreUsable [] p = ⊥
AreUsable (s ∷ ss) p = ((s.start ≤ p) × (p < s.end)) ⊎ AreUsable ss p

mapped_split :
    (vs ws : List VmSegment) (p : ℕ) → AreMapped (vs ++ ws) p → AreMapped vs p ⊎ AreMapped ws p
mapped_split [] ws p m = inr m
mapped_split (v ∷ vs) ws p (inl h) = inl (inl h)
mapped_split (v ∷ vs) ws p (inr m) = elim (mapped_split vs ws p m) [
  | inl a ↦ inl (inr a)
  | inr b ↦ inr b
]

mapped_left : (vs ws : List VmSegment) (p : ℕ) → AreMapped vs p → AreMapped (vs ++ ws) p
mapped_left [] ws p m = absurd m
mapped_left (v ∷ vs) ws p (inl h) = inl h
mapped_left (v ∷ vs) ws p (inr m) = inr (mapped_left vs ws p m)

mapped_right : (vs ws : List VmSegment) (p : ℕ) → AreMapped ws p → AreMapped (vs ++ ws) p
mapped_right [] ws p m = m
mapped_right (v ∷ vs) ws p m = inr (mapped_right vs ws p m)

-- A segment that lies within a frame shows its own pages.
frame_extent :
    (a b : ℕ)
    → IsFrame a b
    → last_word_mapping (sub64 b 1) word_size + word_size ≡ first_word_mapping a + (b - a) * 4096
unfolding last_word_mapping first_word_mapping
frame_extent a b (h, k, inl low) = ground arith
frame_extent a b (h, k, inr (high, same)) = ground arith

within-IsFrame : (a b c d : ℕ) → IsFrame a b → a ≤ c → c < d → d ≤ b → IsFrame c d
within-IsFrame a b c d (h, k, inl low) ac cd db = (cd, omega arith, inl (omega arith))
within-IsFrame a b c d (h, k, inr (high, same)) ac cd db =
    (cd, omega arith, inr (omega arith, omega arith))

-- What the loop has done when it has gone from `vm` over the segments `ss` to `vm'`.
pub record Maps (start end : ℕ) (ss : List Segment) (vm vm' : VmMap) : Type 0 where
  pub sound :
      (p : ℕ)
      → AreMapped vm'.segments p
      → AreMapped vm.segments p ⊎ ((start ≤ p) × (p < end) × AreUsable ss p)
  pub keeps : (p : ℕ) → AreMapped vm.segments p → AreMapped vm'.segments p
  pub complete : (p : ℕ) → start ≤ p → p < end → AreUsable ss p → AreMapped vm'.segments p
  pub size : length vm'.segments ≤ length vm.segments + length ss
  pub most : vm'.num_mapped_pages ≤ vm.num_mapped_pages + length ss * 2 ^ 52
  pub least : length vm'.segments + vm.num_mapped_pages ≤ vm'.num_mapped_pages + length vm.segments

module _ (g : Settings) (numa_off : g.enable_numa ≡ false) (old : List VmSegment) (start end : ℕ)
    (frame : IsFrame start end) where
  abbrev clip_start : Segment → ℕ
  clip_start s = if leb s.start start then start else s.start

  abbrev clip_end : Segment → ℕ
  clip_end s = if leb end s.end then end else s.end

  abbrev is_shown : Segment → Bool
  is_shown s = ltb (clip_start s) (clip_end s) && ltb (clip_start s) end && ltb start (clip_end s)

  abbrev domain : VmMap → ℕ
  domain vm = (get_or old (length vm.segments) no_vm_segment).proximity_domain_idx

  abbrev shown : VmMap → Segment → VmMap
  shown vm s =
      add_vm_segment vm (clip_start s) (clip_end s) (sub64 (clip_end s) (clip_start s)) (domain vm)

  abbrev shown_segment : VmMap → Segment → VmSegment
  shown_segment vm s = record {
    pm_base_addr = clip_start s;
    start = first_word_mapping (clip_start s);
    end = last_word_mapping (sub64 (clip_end s) 1) word_size;
    proximity_domain_idx = domain vm;
  }

  clipped-IsFrame : (s : Segment) → is_shown s ≡ true → IsFrame (clip_start s) (clip_end s)
  clipped-IsFrame s h =
      within-IsFrame start end (clip_start s) (clip_end s) frame (ground arith) (ground arith)
        (ground arith)

  shown_pages :
      (vm : VmMap) (s : Segment) (p : ℕ)
      → is_shown s ≡ true
      → HasPage (shown_segment vm s) p ↔ ((clip_start s ≤ p) × (p < clip_end s))
  shown_pages vm s p h =
      let e = frame_extent (clip_start s) (clip_end s) (clipped-IsFrame s h) in
      let (less, below, kind) = clipped-IsFrame s h in
      (λ q. omega (arith, e, less, q), λ q. omega (arith, e, less, q))

  usable_shown :
      (s : Segment) (p : ℕ)
      → start ≤ p
      → p < end
      → AreUsable (s ∷ []) p
      → (is_shown s ≡ true) × (clip_start s ≤ p) × (p < clip_end s)
  usable_shown s p l u (inl (a, b)) = (ground arith, ground arith, ground arith)
  usable_shown s p l u (inr never) = absurd never

  shown_usable :
      (s : Segment) (p : ℕ)
      → clip_start s ≤ p
      → p < clip_end s
      → (start ≤ p) × (p < end) × AreUsable (s ∷ []) p
  shown_usable s p l u = (ground arith, ground arith, inl (ground arith, ground arith))

  shown_sound :
      (vm : VmMap) (s : Segment) (p : ℕ)
      → is_shown s ≡ true
      → AreMapped vm.segments p ⊎ AreMapped (shown_segment vm s ∷ []) p
      → AreMapped vm.segments p ⊎ ((start ≤ p) × (p < end) × AreUsable (s ∷ []) p)
  shown_sound vm s p h (inl m) = inl m
  shown_sound vm s p h (inr (inr never)) = absurd never
  shown_sound vm s p h (inr (inl q)) =
      let (l, u) = (shown_pages vm s p h).0 q in inr (shown_usable s p l u)

  shown-Maps :
      (vm : VmMap) (s : Segment)
      → is_shown s ≡ true
      → vm.num_mapped_pages ≤ 2 ^ 60
      → Maps start end (s ∷ []) vm (shown vm s)
  unfolding add_vm_segment
  shown-Maps vm s h few =
      let (less, below, fr) = clipped-IsFrame s h in
      record {
        sound =
            λ p m. shown_sound vm s p h (mapped_split vm.segments (shown_segment vm s ∷ []) p m);
        keeps = λ p m. mapped_left vm.segments (shown_segment vm s ∷ []) p m;
        complete = λ p l u a.
            mapped_right vm.segments (shown_segment vm s ∷ []) p
              (let (t, a, b) = usable_shown s p l u a in inl ((shown_pages vm s p h).1 (a, b)));
        size = omega (arith, length-append vm.segments (shown_segment vm s ∷ []));
        most = omega (arith, less, below, few);
        least =
            omega (arith, length-append vm.segments (shown_segment vm s ∷ []), less, below, few);
      }

  hidden-Maps : (vm : VmMap) (s : Segment) → is_shown s ≡ false → Maps start end (s ∷ []) vm vm
  hidden-Maps vm s h = record {
    sound = λ p m. inl m;
    keeps = λ p m. m;
    complete = λ p l u a. (let (t, x, y) = usable_shown s p l u a in absurd (ground (arith, t, h)));
    size = omega arith;
    most = omega arith;
    least = omega arith;
  }

  Maps-trans :
      (s : Segment) (ss : List Segment) (u v w : VmMap)
      → Maps start end (s ∷ []) u v
      → Maps start end ss v w
      → Maps start end (s ∷ ss) u w
  Maps-trans s ss u v w a b = record {
    sound = λ p m. elim (b.sound p m) [
      | inl n ↦ elim (a.sound p n) [
        | inl k ↦ inl k
        | inr (l, h, inl k) ↦ inr (l, h, inl k)
        | inr (l, h, inr never) ↦ absurd never
      ]
      | inr (l, h, k) ↦ inr (l, h, inr k)
    ];
    keeps = λ p m. b.keeps p (a.keeps p m);
    complete = λ p l h k. elim k [
      | inl here ↦ b.keeps p (a.complete p l h (inl here))
      | inr there ↦ b.complete p l h there
    ];
    size = omega (arith, a.size, b.size);
    most = omega (arith, a.most, b.most);
    least = omega (arith, a.least, b.least);
  }

  setup_segment-Maps :
      (vm : VmMap) (s : Segment)
      → vm.num_mapped_pages ≤ 2 ^ 60
      → (vm' : VmMap) × (setup_segment g old start end vm s ≡ some vm')
        × Maps start end (s ∷ []) vm vm'
  unfolding setup_segment
  setup_segment-Maps vm s few = elim (Bool-cases (is_shown s)) [
    | inl on ↦ (shown vm s, rw (on, numa_off) refl, shown-Maps vm s on few)
    | inr off ↦ (vm, rw off refl, hidden-Maps vm s off)
  ]

  setup_loop-Maps :
      (ss : List Segment) (vm : VmMap)
      → vm.num_mapped_pages + length ss * 2 ^ 52 ≤ 2 ^ 60
      → (vm' : VmMap) × (setup_loop g old start end ss vm ≡ some vm') × Maps start end ss vm vm'
  unfolding setup_loop
  setup_loop-Maps [] vm few = (
    vm,
    refl,
    record {
      sound = λ p m. inl m;
      keeps = λ p m. m;
      complete = λ p l h never. absurd never;
      size = omega arith;
      most = omega arith;
      least = omega arith;
    },
  )
  setup_loop-Maps (s ∷ ss) vm few =
      let (v, first, a) = setup_segment-Maps vm s (omega (arith, few)) in
      let (w, later, b) = setup_loop-Maps ss v (omega (arith, few, a.most)) in
      (w, rw first later, Maps-trans s ss vm v w a b)

-- A page that the window should show: in the window, within the limits and usable.
abbrev pub IsWanted : Settings → List Segment → ℕ → ℕ → ℕ → Type 0
IsWanted g pm_map start end p =
    (start ≤ p) × (p < end) × (g.pm_limit_lower ≤ p) × (p < g.pm_limit_upper) × AreUsable pm_map p

-- What `setup_vm_map` makes of a window.
pub record Shows (g : Settings) (pm_map : List Segment) (start end : ℕ) (vm : VmMap) : Type 0 where
  pub pages : (p : ℕ) → AreMapped vm.segments p ↔ IsWanted g pm_map start end p
  pub size : length vm.segments ≤ length pm_map
  pub counted : length vm.segments ≤ vm.num_mapped_pages

module _ (g : Settings) (numa_off : g.enable_numa ≡ false) (old : List VmSegment)
    (pm_map : List Segment) (few : length pm_map ≤ 128) (start end : ℕ)
    (frame : IsFrame start end) where
  abbrev lower : ℕ
  lower = if ltb start g.pm_limit_lower then g.pm_limit_lower else start

  abbrev upper : ℕ
  upper = if ltb g.pm_limit_upper end then g.pm_limit_upper else end

  limits_lem :
      (p : ℕ)
      → ((start ≤ p) × (p < end) × (g.pm_limit_lower ≤ p) × (p < g.pm_limit_upper))
        ↔ ((lower ≤ p) × (p < upper))
  limits_lem p = ground arith

  empty-Shows : leb upper lower ≡ true → Shows g pm_map start end no_vm_map
  empty-Shows h = record {
    pages = λ p. (
      λ m. absurd m,
      λ (a, b, c, d, u).
          (let (x, y) = (limits_lem p).0 (a, b, c, d) in absurd (ground (arith, x, y, h))),
    );
    size = omega arith;
    counted = omega arith;
  }

  loop-Shows : (vm : VmMap) → Maps lower upper pm_map no_vm_map vm → Shows g pm_map start end vm
  loop-Shows vm m = record {
    pages = λ p. (
      λ q. elim (m.sound p q) [
        | inl never ↦ absurd never
        | inr (x, y, u) ↦ (let (a, b, c, d) = (limits_lem p).1 (x, y) in (a, b, c, d, u))
      ],
      λ (a, b, c, d, u). (let (x, y) = (limits_lem p).0 (a, b, c, d) in m.complete p x y u),
    );
    size = omega (arith, m.size);
    counted = omega (arith, m.least);
  }

  -- With NUMA off, and for a window that is all below 2 GB or all within one GB: `setup_vm_map`
  -- returns, its segments show exactly the usable pages of the window that are within the limits,
  -- they are no more than the segments of memory, and no page is counted only if there is no
  -- segment.
  pub setup_vm_map_lem :
      (vm : VmMap) × (setup_vm_map g old pm_map start end ≡ some vm) × Shows g pm_map start end vm
  unfolding setup_vm_map
  setup_vm_map_lem = elim (Bool-cases (leb upper lower)) [
    | inl outside ↦ (no_vm_map, rw outside refl, empty-Shows outside)
    | inr room ↦
        (let inner =
            within-IsFrame start end lower upper frame (ground arith) (ground (arith, room))
              (ground arith) in
          let (vm, done, m) =
            setup_loop-Maps g numa_off old lower upper inner pm_map no_vm_map (omega arith) in
          (vm, rw room done, loop-Shows vm m))
  ]
