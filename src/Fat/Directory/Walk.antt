-- ===== src/Fat/Directory/Walk.antt =====
-- The walk over the root directory of a FAT16 volume in system/fat32.c: a file whose entry is written where
-- the search for a free entry ends is found there, when there was no such file before.
use memtest86plus.Base.{
  ℕ, zero, suc, ◌+◌, ◌/◌, ◌^◌, ◌≤◌, ◌<◌, ◌≡◌, ◌≢◌, ◌⊎◌, inl, inr, refl, sym, ◌∙◌, ap, arith, false,
  ◌==◌, Option, none, some, add32,
}
use mathlib.Core.Path.{subst}
use memtest86plus.Base.Bytes.{Bytes}
use memtest86plus.Fat.{Fs, Device, Store, pure, fail, counted}
use memtest86plus.Fat.Copies.{IsSound, msd_read_lem}
use memtest86plus.Fat.Directory.{
  Visit, next, stop, or_next, scan_sector, walk_sectors, walk_root, visit_free, visit_file,
  dir_entry_size, find_free_dir_entry, entry_of_file, find_file,
}
use memtest86plus.Fat.Directory.Search.{
  IsEntryOf, Misses, stop-injective, scan_sector-found, scan_sector-passes,
}

module _ {A : Type 0} where
  Visit-cases : (v : Visit A) → (v ≡ next) ⊎ ((a : A) × (v ≡ stop a))
  Visit-cases next = inl refl
  Visit-cases (stop a) = inr (a, refl)

  -- What the walk over the sectors finds on a disk.
  unfoldable pub walk : Fs → (ℕ → Bytes) → (Bytes → ℕ → Visit A) → ℕ → ℕ → ℕ → Visit (ℕ × A)
  walk fs disk visit lba zero i = next
  walk fs disk visit lba (suc left) i =
      or_next
        (scan_sector (visit (disk (add32 fs.partition_lba (add32 lba i))))
          (fs.bytes_per_sector / dir_entry_size) 0)
        (λ a. stop (add32 lba i, a)) (walk fs disk visit lba left (i + 1))

  pub walk-ext :
      (fs : Fs) (a b : ℕ → Bytes) (visit : Bytes → ℕ → Visit A) (lba left i : ℕ)
      → fs.partition_lba + lba + i + left < 2 ^ 32
      → ((x : ℕ) → fs.partition_lba + lba ≤ x → x < fs.partition_lba + lba + i + left → b x ≡ a x)
      → walk fs b visit lba left i ≡ walk fs a visit lba left i
  unfolding walk
  walk-ext fs a b visit lba zero i high same = refl
  walk-ext fs a b visit lba (suc left) i high same =
      rw
        (
          same (add32 fs.partition_lba (add32 lba i)) (omega arith) (omega arith),
          walk-ext fs a b visit lba left (i + 1) (omega arith)
              (λ x low l. same x low (omega arith)),
        )
        refl

  walk_sectors-walk :
      (d : Device)
      → IsSound d
      → (fs : Fs) (visit : Bytes → ℕ → Visit A) (lba left i : ℕ) (s : Store)
      → (s' : Store) × (walk_sectors d fs visit lba left i s
          ≡ (some (walk fs s.disk visit lba left i), s'))
        × (s'.disk ≡ s.disk)
  unfolding walk_sectors walk
  walk_sectors-walk d sound fs visit lba zero i s = (s, refl, refl)
  walk_sectors-walk d sound fs visit lba (suc left) i s =
      let place = add32 fs.partition_lba (add32 lba i) in
      let (s', done, same) = walk_sectors-walk d sound fs visit lba left (i + 1) (counted s) in
      elim (Visit-cases
        (scan_sector (visit (s.disk place)) (fs.bytes_per_sector / dir_entry_size) 0)) [
          | inl e ↦ (s', rw (msd_read_lem d sound place s, e) done, same)
          | inr (a, e) ↦ (counted s, rw (msd_read_lem d sound place s, e) refl, refl)
        ]

abbrev pub MissesAll : Visit (ℕ × Option (Bytes × ℕ)) → Type 0
MissesAll next = Unit {0}
MissesAll (stop (lba, none)) = Unit {0}
MissesAll (stop (lba, some place)) = ⊥

Misses-sector :
    (v : Visit (Option (Bytes × ℕ))) (lba : ℕ) (rest : Visit (ℕ × Option (Bytes × ℕ)))
    → MissesAll (or_next v (λ a. stop (lba, a)) rest)
    → Misses v
Misses-sector next lba rest h = tt
Misses-sector (stop none) lba rest h = tt
Misses-sector (stop (some place)) lba rest h = h

module _ (fs : Fs) (name : Bytes) (D D' : ℕ → Bytes) (at_lba off : ℕ) where
  abbrev pub target : ℕ
  target = add32 fs.partition_lba at_lba

  pub walk-bounds :
      (lba left i : ℕ)
      → lba + i + left < 2 ^ 32
      → walk fs D visit_free lba left i ≡ stop (at_lba, off)
      → (lba + i ≤ at_lba) × (at_lba < lba + i + left)
  unfolding walk
  walk-bounds lba zero i high h = absurd (cc h)
  walk-bounds lba (suc left) i high h =
      let b = D (add32 fs.partition_lba (add32 lba i)) in
      elim (Visit-cases (scan_sector (visit_free b) (fs.bytes_per_sector / dir_entry_size) 0)) [
        | inl e ↦
            let rest : walk fs D visit_free lba left (i + 1) ≡ stop (at_lba, off) = rw e at h in
            let (low, below) = walk-bounds lba left (i + 1) (omega arith) rest in
            (omega arith, omega arith)
        | inr (a, e) ↦
            let here : ◌≡◌ {A = Visit (ℕ × ℕ)} (stop (add32 lba i, a)) (stop (at_lba, off)) =
              rw e at h in
            let place : add32 lba i ≡ at_lba = ap (λ (p : ℕ × ℕ). p.0) (stop-injective here) in
            (omega arith, omega arith)
      ]

  module _ (e : IsEntryOf name (D' target) off)
      (same : (k : ℕ) → k < off → D' target k ≡ D target k)
      (others : (x : ℕ) → x ≢ target → D' x ≡ D x) where
    pub walk-found :
        (lba left i : ℕ)
        → fs.partition_lba + lba + i + left < 2 ^ 32
        → walk fs D visit_free lba left i ≡ stop (at_lba, off)
        → MissesAll (walk fs D (visit_file name) lba left i)
        → walk fs D' (visit_file name) lba left i ≡ stop (at_lba, some (D' target, off))
    unfolding walk
    walk-found lba zero i high h misses = absurd (cc h)
    walk-found lba (suc left) i high h misses =
        let n = fs.bytes_per_sector / dir_entry_size in
        let place = add32 fs.partition_lba (add32 lba i) in
        let b = D place in
        let missed =
          Misses-sector (scan_sector (visit_file name b) n 0) (add32 lba i)
            (walk fs D (visit_file name) lba left (i + 1)) misses in
        elim (Visit-cases (scan_sector (visit_free b) n 0)) [
          | inl full ↦
              let rest : walk fs D visit_free lba left (i + 1) ≡ stop (at_lba, off) =
                rw full at h in
              let (low, below) = walk-bounds lba left (i + 1) (omega arith) rest in
              let passed = scan_sector-passes name b n 0 full missed in
              let same_here : D' place ≡ b = others place (λ at_target. omega (arith, at_target)) in
              let misses' : MissesAll (walk fs D (visit_file name) lba left (i + 1)) =
                rw passed at misses in
              rw (same_here, passed) (walk-found lba left (i + 1) (omega arith) rest misses')
          | inr (a, free) ↦
              let here : ◌≡◌ {A = Visit (ℕ × ℕ)} (stop (add32 lba i, a)) (stop (at_lba, off)) =
                rw free at h in
              let at_target : add32 lba i ≡ at_lba =
                ap (λ (p : ℕ × ℕ). p.0) (stop-injective here) in
              let at_off : a ≡ off = ap (λ (p : ℕ × ℕ). p.1) (stop-injective here) in
              let free' =
                subst (λ l. scan_sector (visit_free (D (add32 fs.partition_lba l))) n 0 ≡ stop a)
                  at_target free
                ∙ ap stop at_off in
              let missed' =
                subst
                  (λ l. Misses (scan_sector (visit_file name (D (add32 fs.partition_lba l))) n 0))
                  at_target missed in
              let found =
                scan_sector-found name (D target) (D' target) off e same n 0 free' missed' in
              subst
                (λ l.
                  or_next (scan_sector (visit_file name (D' (add32 fs.partition_lba l))) n 0)
                    (λ (a' : Option (Bytes × ℕ)). stop (l, a'))
                    (walk fs D' (visit_file name) lba left (i + 1))
                  ≡ stop (at_lba, some (D' target, off)))
                (sym at_target)
                (ap
                  (λ (v : Visit (Option (Bytes × ℕ))).
                    or_next v (λ (a' : Option (Bytes × ℕ)). stop (at_lba, a'))
                      (walk fs D' (visit_file name) lba left (i + 1)))
                  found)
        ]

place_of-stop :
    (v : Visit (ℕ × ℕ)) (p : ℕ × ℕ) (s s' : Store)
    → or_next v (λ (q : ℕ × ℕ). pure q) fail s ≡ (some p, s')
    → v ≡ stop p
place_of-stop next p s s' h = cc h
place_of-stop (stop q) p s s' h =
    let at_p : some q ≡ some p = ap (λ (r : Option (ℕ × ℕ) × Store). r.0) h in cc at_p

entry_of_file-MissesAll :
    (v : Visit (ℕ × Option (Bytes × ℕ))) (s : Store) → (entry_of_file v s).0 ≡ none → MissesAll v
entry_of_file-MissesAll next s h = tt
entry_of_file-MissesAll (stop (lba, none)) s h = tt
entry_of_file-MissesAll (stop (lba, some place)) s h = cc h

module _ (d : Device) (sound : IsSound d) (fs : Fs) (fat16 : fs.fat_type ≡ 16) where
  -- The walk over the root directory of FAT16.
  abbrev pub root : {A : Type 0} → (ℕ → Bytes) → (Bytes → ℕ → Visit A) → Visit (ℕ × A)
  root disk visit = walk fs disk visit fs.root_dir_lba fs.root_dir_sectors 0

  pub walk_root-root :
      {A : Type 0} (visit : Bytes → ℕ → Visit A) (s : Store)
      → (s' : Store) × (walk_root d fs visit s ≡ (some (root s.disk visit), s'))
        × (s'.disk ≡ s.disk)
  unfolding walk_root
  walk_root-root visit s =
      let not32 : (fs.fat_type == 32) ≡ false = ground (arith, fat16) in
      rw not32 (walk_sectors-walk d sound fs visit fs.root_dir_lba fs.root_dir_sectors 0 s)

  pub find_free_dir_entry-root :
      (lba off : ℕ) (s s' : Store)
      → find_free_dir_entry d fs s ≡ (some (lba, off), s')
      → root s.disk visit_free ≡ stop (lba, off)
  unfolding find_free_dir_entry
  find_free_dir_entry-root lba off s s' h =
      let (s1, walked, same) = walk_root-root visit_free s in
      place_of-stop (root s.disk visit_free) (lba, off) s1 s' (rw walked at h)

  pub find_file-misses :
      (name : Bytes) (s : Store)
      → (find_file d fs name s).0 ≡ none
      → MissesAll (root s.disk (visit_file name))
  unfolding find_file
  find_file-misses name s h =
      let (s1, walked, same) = walk_root-root (visit_file name) s in
      entry_of_file-MissesAll (root s.disk (visit_file name)) s1 (rw walked at h)

  pub find_file-found :
      (name : Bytes) (s : Store) (lba off : ℕ) (b : Bytes)
      → root s.disk (visit_file name) ≡ stop (lba, some (b, off))
      → (s' : Store) × (find_file d fs name s ≡ (some (lba, (b, off)), s')) × (s'.disk ≡ s.disk)
  unfolding find_file
  find_file-found name s lba off b h =
      let (s1, walked, same) = walk_root-root (visit_file name) s in (s1, rw (walked, h) refl, same)
