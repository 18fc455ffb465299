-- ===== src/Fat/Names/Unused.antt =====
-- The name that `fat32_next_filename` of system/fat32.c gives is not the name of a file.
use memtest86plus.Base.{
  ℕ, zero, suc, ◌+◌, ◌/◌, ◌%◌, ◌≤◌, ◌<◌, ◌≡◌, inl, inr, refl, ◌∙◌, ap, arith, Bool, true, false,
  Bool-cases, ◌&&◌, not, ◌==◌, ==_iff, if◌then◌else◌, Option, none, add32, bit_and,
}
use memtest86plus.Base.Bytes.{Bytes}
use memtest86plus.Fat.{Fs, Device, Store, counted}
use memtest86plus.Fat.Copies.{IsSound, msd_read_lem}
use memtest86plus.Fat.Directory.{
  Visit, next, stop, scan_sector, visit_file, same_bytes, dir_entry_size,
}
use memtest86plus.Fat.Directory.Walk.{walk, MissesAll}
use memtest86plus.Fat.File.NewEntry.{same_bytes-true}
use memtest86plus.Fat.Names.{
  Used, bytes_of, prefix, extension, mark, check_dir_entry, note_sector, unless_done, note_sectors,
  name_of,
}

same_bytes-elim :
    (n : ℕ) (a b : Bytes) (start start' j : ℕ)
    → same_bytes n a start b start' ≡ true
    → j < n
    → a (start + j) ≡ b (start' + j)
unfolding same_bytes
same_bytes-elim zero a b start start' j e h = absurd (omega (arith, h))
same_bytes-elim (suc n) a b start start' zero e h =
    let first : (a start == b start') ≡ true = ground (arith, e) in
    let equal : a start ≡ b start' = (==_iff _ _).0 first in
    ap a (omega arith) ∙ equal ∙ ap b (omega arith)
same_bytes-elim (suc n) a b start start' (suc j) e h =
    ap a (omega arith)
    ∙ same_bytes-elim n a b (start + 1) (start' + 1) j (ground (arith, e)) (omega (arith, h))
    ∙ ap b (omega arith)

-- A number that is used stays so.
mark-keeps : (used : Used) (tens ones n : ℕ) → used n ≡ true → mark used tens ones n ≡ true
mark-keeps used tens ones n h = ground (arith, h)

check_dir_entry-keeps :
    (b : Bytes) (off : ℕ) (used : Used) (n : ℕ)
    → used n ≡ true
    → check_dir_entry b off used n ≡ true
unfolding check_dir_entry
check_dir_entry-keeps b off used n h =
    elim (Bool-cases
      (same_bytes 6 b off (bytes_of prefix) 0 && same_bytes 3 b (off + 8) (bytes_of extension) 0)) [
        | inl e ↦ rw e (mark-keeps used (b (off + 6)) (b (off + 7)) n h)
        | inr e ↦ rw e h
      ]

mark-number :
    (used : Used) (n : ℕ) → 1 ≤ n → n ≤ 99 → mark used (48 + n / 10) (48 + n % 10) n ≡ true
mark-number used n low high = ground (arith, low, high)

prefix-letter : (n j : ℕ) → j < 6 → name_of n j ≡ bytes_of prefix j
prefix-letter n zero h = refl
prefix-letter n (suc zero) h = refl
prefix-letter n (suc (suc zero)) h = refl
prefix-letter n (suc (suc (suc zero))) h = refl
prefix-letter n (suc (suc (suc (suc zero)))) h = refl
prefix-letter n (suc (suc (suc (suc (suc zero))))) h = refl
prefix-letter n (suc (suc (suc (suc (suc (suc j)))))) h = absurd (omega (arith, h))

extension-letter : (n j : ℕ) → j < 3 → name_of n (8 + j) ≡ bytes_of extension j
extension-letter n zero h = refl
extension-letter n (suc zero) h = refl
extension-letter n (suc (suc zero)) h = refl
extension-letter n (suc (suc (suc j))) h = absurd (omega (arith, h))

module _ (n : ℕ) (low : 1 ≤ n) (high : n ≤ 99) where
  -- The entry of a file with the name marks its number.
  check_dir_entry-marks :
      (b : Bytes) (off : ℕ) (used : Used)
      → same_bytes 11 b off (name_of n) 0 ≡ true
      → check_dir_entry b off used n ≡ true
  unfolding check_dir_entry
  check_dir_entry-marks b off used h =
      let letter : (j : ℕ) → j < 11 → b (off + j) ≡ name_of n j =
        λ j l. same_bytes-elim 11 b (name_of n) off 0 j h l ∙ ap (name_of n) (omega arith) in
      let tens : b (off + 6) ≡ 48 + n / 10 = letter 6 (omega arith) in
      let ones : b (off + 7) ≡ 48 + n % 10 = letter 7 (omega arith) in
      let front : same_bytes 6 b off (bytes_of prefix) 0 ≡ true =
        same_bytes-true 6 b (bytes_of prefix) off 0 (λ j l.
          letter j (omega (arith, l)) ∙ prefix-letter n j l ∙ ap (bytes_of prefix) (omega arith)) in
      let back : same_bytes 3 b (off + 8) (bytes_of extension) 0 ≡ true =
        same_bytes-true 3 b (bytes_of extension) (off + 8) 0 (λ j l.
          ap b (omega arith)
          ∙ letter (8 + j) (omega (arith, l))
          ∙ extension-letter n j l
          ∙ ap (bytes_of extension) (omega arith)) in
      rw (front, back, tens, ones) (mark-number used n low high)

  note_sector-keeps :
      (b : Bytes) (left off : ℕ) (used : Used)
      → used n ≡ true
      → (note_sector b left off used).1 n ≡ true
  unfolding note_sector
  note_sector-keeps b zero off used h = h
  note_sector-keeps b (suc left) off used h = elim (Bool-cases (b off == 0)) [
    | inl e ↦ rw e h
    | inr e ↦ elim (Bool-cases (b off == 0xe5)) [
      | inl free ↦ rw (e, free) (note_sector-keeps b left (off + dir_entry_size) used h)
      | inr kept ↦
          rw (e, kept)
            (note_sector-keeps b left (off + dir_entry_size) (check_dir_entry b off used)
              (check_dir_entry-keeps b off used n h))
    ]
  ]

  abbrev pub verdict : Bool → Visit (Option (Bytes × ℕ))
  verdict done = if done then stop none else next

  -- In a sector that leaves the number unused, there is no file with the name.
  note_sector-lem :
      (b : Bytes) (left off : ℕ) (used : Used)
      → (note_sector b left off used).1 n ≡ false
      → scan_sector (visit_file (name_of n) b) left off ≡ verdict (note_sector b left off used).0
  unfolding note_sector scan_sector
  note_sector-lem b zero off used h = refl
  note_sector-lem b (suc left) off used h = elim (Bool-cases (b off == 0)) [
    | inl e ↦ rw e refl
    | inr e ↦ elim (Bool-cases (b off == 0xe5)) [
      | inl free ↦
          rw (e, free) (note_sector-lem b left (off + dir_entry_size) used (rw (e, free) at h))
      | inr kept ↦
          let used' = check_dir_entry b off used in
          let h' : (note_sector b left (off + dir_entry_size) used').1 n ≡ false =
            rw (e, kept) at h in
          let rest = note_sector-lem b left (off + dir_entry_size) used' h' in
          elim (Bool-cases (not (bit_and (b (off + 11)) 0x18 == 0))) [
            | inl special ↦ rw (e, kept, special) rest
            | inr plain ↦ elim (Bool-cases (same_bytes 11 b off (name_of n) 0)) [
              | inl same ↦
                  let marked =
                    note_sector-keeps b left (off + dir_entry_size) used'
                      (check_dir_entry-marks b off used same) in
                  absurd (cc)
              | inr other ↦ rw (e, kept, plain, other) rest
            ]
          ]
    ]
  ]

  module _ (d : Device) (sound : IsSound d) (fs : Fs) where
    -- The sectors keep a number that is used, and the disk.
    note_sectors-keeps :
        (lba left i : ℕ) (used : Used) (s : Store)
        → used n ≡ true
        → (note_sectors d fs lba left i used s).0.1 n ≡ true
    unfolding note_sectors
    note_sectors-keeps lba zero i used s h = h
    note_sectors-keeps lba (suc left) i used s h =
        let place = add32 fs.partition_lba (add32 lba i) in
        let b = s.disk place in
        let m = fs.bytes_per_sector / dir_entry_size in
        rw (msd_read_lem d sound place s) (
          after (note_sector b m 0 used) (note_sector-keeps b m 0 used h)
            (λ used' h'. note_sectors-keeps lba left (i + 1) used' (counted s) h'))
      where
        after :
            (r : Bool × Used)
            → r.1 n ≡ true
            → ((used' : Used)
                → used' n ≡ true
                → (note_sectors d fs lba left (i + 1) used' (counted s)).0.1 n ≡ true)
            → (unless_done r
                  (λ used'. note_sectors d fs lba left (i + 1) used' (counted s))
                  (counted s)).0.1
                n
              ≡ true
        after (true, used') h' rest = h'
        after (false, used') h' rest = rest used' h'

    pub note_sectors-disk :
        (lba left i : ℕ) (used : Used) (s : Store)
        → (note_sectors d fs lba left i used s).1.disk ≡ s.disk
    unfolding note_sectors
    note_sectors-disk lba zero i used s = refl
    note_sectors-disk lba (suc left) i used s =
        let place = add32 fs.partition_lba (add32 lba i) in
        rw (msd_read_lem d sound place s) (
          after (note_sector (s.disk place) (fs.bytes_per_sector / dir_entry_size) 0 used)
            (λ used'. note_sectors-disk lba left (i + 1) used' (counted s)))
      where
        after :
            (r : Bool × Used)
            → ((used' : Used)
                → (note_sectors d fs lba left (i + 1) used' (counted s)).1.disk ≡ s.disk)
            → (unless_done r
                (λ used'. note_sectors d fs lba left (i + 1) used' (counted s))
                (counted s)).1.disk
              ≡ s.disk
        after (true, used') rest = refl
        after (false, used') rest = rest used'

    -- In sectors that leave the number unused, there is no file with the name.
    pub note_sectors-MissesAll :
        (lba left i : ℕ) (used : Used) (s : Store)
        → (note_sectors d fs lba left i used s).0.1 n ≡ false
        → MissesAll (walk fs s.disk (visit_file (name_of n)) lba left i)
    unfolding note_sectors walk
    note_sectors-MissesAll lba zero i used s h = tt
    note_sectors-MissesAll lba (suc left) i used s h =
        let place = add32 fs.partition_lba (add32 lba i) in
        let b = s.disk place in
        let m = fs.bytes_per_sector / dir_entry_size in
        after (note_sector b m 0 used) refl (rw (msd_read_lem d sound place s) at h)
          (λ used' h'. note_sectors-MissesAll lba left (i + 1) used' (counted s) h')
      where
        after :
            (r : Bool × Used)
            → note_sector
                (s.disk (add32 fs.partition_lba (add32 lba i)))
                (fs.bytes_per_sector / dir_entry_size)
                0
                used
              ≡ r
            → (unless_done r
                  (λ used'. note_sectors d fs lba left (i + 1) used' (counted s))
                  (counted s)).0.1
                n
              ≡ false
            → ((used' : Used)
                → (note_sectors d fs lba left (i + 1) used' (counted s)).0.1 n ≡ false
                → MissesAll (walk fs s.disk (visit_file (name_of n)) lba left (i + 1)))
            → MissesAll (walk fs s.disk (visit_file (name_of n)) lba (suc left) i)
        after (true, used') e h' rest =
            let unused = ap (λ (r : Bool × Used). r.1 n) e ∙ h' in
            let ends : scan_sector
                  (visit_file (name_of n) (s.disk (add32 fs.partition_lba (add32 lba i))))
                  (fs.bytes_per_sector / dir_entry_size) 0
                ≡ stop none =
              note_sector-lem (s.disk (add32 fs.partition_lba (add32 lba i)))
                (fs.bytes_per_sector / dir_entry_size) 0 used unused
              ∙ ap (λ (r : Bool × Used). verdict r.0) e in
            rw ends tt
        after (false, used') e h' rest = elim (Bool-cases (used' n)) [
          | inl marked ↦
              let kept = note_sectors-keeps lba left (i + 1) used' (counted s) marked in absurd (cc)
          | inr still ↦
              let unused = ap (λ (r : Bool × Used). r.1 n) e ∙ still in
              let goes_on : scan_sector
                    (visit_file (name_of n) (s.disk (add32 fs.partition_lba (add32 lba i))))
                    (fs.bytes_per_sector / dir_entry_size) 0
                  ≡ next =
                note_sector-lem (s.disk (add32 fs.partition_lba (add32 lba i)))
                  (fs.bytes_per_sector / dir_entry_size) 0 used unused
                ∙ ap (λ (r : Bool × Used). verdict r.0) e in
              rw goes_on (rest used' h')
        ]
