-- ===== src/Window/Numa.antt =====
-- How `setup_vm_map` of app/main.c divides a segment by proximity domain, with
-- `smp_narrow_to_proximity_domain` of system/smp.c.
use memtest86plus.Base.{
  ℕ, zero, suc, ◌+◌, ◌≤◌, ◌<◌, List, [], ◌∷◌, true, not, ◌&&◌, ◌||◌, ◌≡◌, refl, sym, ap, arith, inl,
  inr, Bool-cases, Option, some, none, ltb, leb, ◌==◌, sub64, shl64, shr64, if◌then◌else◌, length,
  length-append,
}
use mathlib.Core.Option.{some-injective}
use memtest86plus.Pmem.Map.{Segment}
use memtest86plus.Chunk.{VmSegment}
use memtest86plus.Window.{
  AffinityRange, narrow, Settings, VmMap, max_mem_segments, add_vm_segment, numa_round, numa_loop,
  setup_segment, setup_loop, setup_vm_map, no_vm_map,
}

cut_lem :
    (s r : AffinityRange) (start end x : ℕ)
    → start < x
    → x ≤ end
    → some (record s { start = start; end = x }) ≡ some r
    → (r.start ≡ start) × (start < r.end) × (r.end ≤ end)
cut_lem s r start end x l h e =
    let same = some-injective _ _ e in
    let to : x ≡ r.end = ap (λ (q : AffinityRange). q.end) same in
    (sym (ap (λ (q : AffinityRange). q.start) same), omega (arith, to), omega (arith, to))

-- The part that is cut off starts where the range does, is not empty, and does not go beyond the
-- end of the range.
pub narrow_lem :
    (rs : List AffinityRange) (start end : ℕ) (r : AffinityRange)
    → start < end
    → narrow rs start end ≡ some r
    → (r.start ≡ start) × (start < r.end) × (r.end ≤ end)
unfolding narrow
narrow_lem [] start end r h e = ground (arith, e)
narrow_lem (s ∷ rs) start end r h e = elim (Bool-cases (leb s.start start)) [
  | inl behind ↦ elim (Bool-cases (ltb start s.end)) [
    | inl before ↦
        cut_lem s r start end (if leb end s.end then end else s.end) (ground (arith, before))
          (ground arith) (rw (behind, before) at e)
    | inr past ↦ narrow_lem rs start end r h (rw (behind, past) at e)
  ]
  | inr under ↦ elim (Bool-cases (ltb end s.start)) [
    | inl apart ↦ narrow_lem rs start end r h (rw (under, apart) at e)
    | inr near ↦
        cut_lem s r start end s.start (ground (arith, under)) (ground (arith, near))
          (rw (under, near) at e)
  ]
]

length-add_vm_segment :
    (vm : VmMap) (first end pages domain : ℕ)
    → length (add_vm_segment vm first end pages domain).segments ≡ length vm.segments + 1
unfolding add_vm_segment
length-add_vm_segment vm first end pages domain = length-append vm.segments _

-- The array `vm_map` does not overflow.
abbrev pub IsBounded : VmMap → Type 0
IsBounded vm = length vm.segments ≤ max_mem_segments

-- A round adds one entry, and all is well if the later rounds keep the bound.
numa_round-IsBounded :
    (seg_start seg_end start : ℕ) (vm : VmMap) (part : Option AffinityRange)
    (next : VmMap → ℕ → Option VmMap)
    → length vm.segments < max_mem_segments
    → ((v : VmMap) (a : ℕ)
        → IsBounded v
        → length v.segments ≡ length vm.segments + 1
        → (w : VmMap) × (next v a ≡ some w) × IsBounded w)
    → (w : VmMap) × (numa_round seg_start seg_end vm start part next ≡ some w) × IsBounded w
unfolding numa_round
numa_round-IsBounded seg_start seg_end start vm none next room later =
    let pages = sub64 seg_end seg_start in
    (
      add_vm_segment vm seg_start seg_end pages 0,
      refl,
      omega (arith, length-add_vm_segment vm seg_start seg_end pages 0),
    )
numa_round-IsBounded seg_start seg_end start vm (some r) next room later =
    let pages = shr64 (sub64 r.end r.start) 12 in
    let v = add_vm_segment vm (shr64 r.start 12) (shr64 r.end 12) pages r.proximity_domain_idx in
    let one =
      length-add_vm_segment vm (shr64 r.start 12) (shr64 r.end 12) pages r.proximity_domain_idx in
    let b : IsBounded v = omega (arith, one) in
    let (w, rest, bounded) = later v r.end b one in
    elim (Bool-cases (not (r.start == start) || not (r.end == shl64 seg_end 12))) [
      | inl again ↦ (w, rw again rest, bounded)
      | inr whole ↦ (v, rw whole refl, b)
    ]

-- There is room for 128 entries, so the loop ends.
numa_loop-IsBounded :
    (ranges : List AffinityRange) (seg_start seg_end fuel : ℕ) (vm : VmMap) (start : ℕ)
    → IsBounded vm
    → max_mem_segments < fuel + length vm.segments
    → (vm' : VmMap) × (numa_loop ranges seg_start seg_end fuel vm start ≡ some vm') × IsBounded vm'
unfolding numa_loop
numa_loop-IsBounded ranges seg_start seg_end zero vm start b h = absurd (omega arith)
numa_loop-IsBounded ranges seg_start seg_end (suc fuel) vm start b h =
    elim (Bool-cases (leb max_mem_segments (length vm.segments))) [
      | inl full ↦ (vm, rw full refl, b)
      | inr room ↦
          (let (w, done, bounded) =
              numa_round-IsBounded seg_start seg_end start vm
                (narrow ranges start (shl64 seg_end 12)) (numa_loop ranges seg_start seg_end fuel)
                (ground (arith, room))
                (λ v a c one.
                  numa_loop-IsBounded ranges seg_start seg_end fuel v a c (omega arith)) in
            (w, rw room done, bounded))
    ]

module _ (g : Settings) (numa_on : g.enable_numa ≡ true) (old : List VmSegment) where
  setup_segment-IsBounded :
      (win_start win_end : ℕ) (vm : VmMap) (s : Segment)
      → IsBounded vm
      → (vm' : VmMap) × (setup_segment g old win_start win_end vm s ≡ some vm') × IsBounded vm'
  unfolding setup_segment
  setup_segment-IsBounded win_start win_end vm s b =
      let a = if leb s.start win_start then win_start else s.start in
      let e = if leb win_end s.end then win_end else s.end in
      let (w, done, bounded) =
        numa_loop-IsBounded g.memory_affinity_ranges a e (max_mem_segments + 1) vm (shl64 a 12) b
          (omega arith) in
      elim (Bool-cases (ltb a e && ltb a win_end && ltb win_start e)) [
        | inl on ↦ (w, rw (on, numa_on) done, bounded)
        | inr off ↦ (vm, rw off refl, b)
      ]

  setup_loop-IsBounded :
      (win_start win_end : ℕ) (ss : List Segment) (vm : VmMap)
      → IsBounded vm
      → (vm' : VmMap) × (setup_loop g old win_start win_end ss vm ≡ some vm') × IsBounded vm'
  unfolding setup_loop
  setup_loop-IsBounded win_start win_end [] vm b = (vm, refl, b)
  setup_loop-IsBounded win_start win_end (s ∷ ss) vm b =
      let (v, first, c) = setup_segment-IsBounded win_start win_end vm s b in
      let (w, later, d) = setup_loop-IsBounded win_start win_end ss v c in (w, rw first later, d)

  -- With NUMA on, whatever the affinity ranges are: `setup_vm_map` returns, and has written no more
  -- than the 128 entries of `vm_map`.
  pub setup_vm_map-IsBounded :
      (pm_map : List Segment) (win_start win_end : ℕ)
      → (vm : VmMap) × (setup_vm_map g old pm_map win_start win_end ≡ some vm) × IsBounded vm
  unfolding setup_vm_map
  setup_vm_map-IsBounded pm_map win_start win_end =
      let a = if ltb win_start g.pm_limit_lower then g.pm_limit_lower else win_start in
      let e = if ltb g.pm_limit_upper win_end then g.pm_limit_upper else win_end in
      let (w, done, b) = setup_loop-IsBounded a e pm_map no_vm_map (omega arith) in
      elim (Bool-cases (leb e a)) [
        | inl outside ↦ (no_vm_map, rw outside refl, omega arith)
        | inr room ↦ (w, rw room done, b)
      ]
