-- ===== src/Fat/Directory/Search.antt =====
-- The searches in a sector of the root directory of system/fat32.c: for a free entry, and for a file.
use memtest86plus.Base.{
  ℕ, zero, suc, ◌+◌, ◌≤◌, ◌<◌, ◌≡◌, ◌≢◌, inl, inr, refl, ap, arith, Bool, true, false, Bool-cases,
  if◌then◌else◌, ◌||◌, not, ◌==◌, bit_and, Option, none, some,
}
use memtest86plus.Base.Bytes.{Bytes}
use memtest86plus.Fat.Directory.{
  Visit, next, stop, or_next, scan_sector, visit_free, visit_file, same_bytes, dir_entry_size,
}

-- The entry at the offset has the name of the file, and is neither free nor a directory or a label.
pub record IsEntryOf (name b : Bytes) (off : ℕ) : Type 0 where
  pub in_use : b off ≢ 0
  pub kept : b off ≢ 0xe5
  pub plain : bit_and (b (off + 11)) 0x18 ≡ 0
  pub same : same_bytes 11 b off name 0 ≡ true

-- A visit does not find the file.
abbrev pub Misses : Visit (Option (Bytes × ℕ)) → Type 0
Misses next = Unit {0}
Misses (stop none) = Unit {0}
Misses (stop (some place)) = ⊥

abbrev stop_of : {A : Type 0} → A → Visit A → A
stop_of n next = n
stop_of n (stop a) = a

pub stop-injective : {A : Type 0} {a b : A} → stop a ≡ stop b → a ≡ b
stop-injective {a = a} e = ap (stop_of a) e

abbrev verdict : {A : Type 0} → Bool → Bool → Bool → Bool → A → Visit (Option A)
verdict ends unused special same a =
    if ends
    then stop none
    else if unused
    then next
    else if special
    then next
    else if same
    then stop (some a)
    else next

verdict-next :
    {A : Type 0} (ends unused special same : Bool) (a b : A)
    → verdict ends unused special same a ≡ next
    → verdict ends unused special same b ≡ next
verdict-next true unused special same a b e = cc e
verdict-next false true special same a b e = refl
verdict-next false false true same a b e = refl
verdict-next false false false true a b e = cc e
verdict-next false false false false a b e = refl

module _ (name : Bytes) where
  visit_file-IsEntryOf :
      (b : Bytes) (off : ℕ) → IsEntryOf name b off → visit_file name b off ≡ stop (some (b, off))
  visit_file-IsEntryOf b off e = ground (arith, e.in_use, e.kept, e.plain, e.same)

  -- What the search for a free entry passes over.
  visit_free-next :
      (b : Bytes) (off : ℕ)
      → visit_free b off ≡ next
      → ((b off == 0) ≡ false) × ((b off == 0xe5) ≡ false)
  visit_free-next b off h = elim (Bool-cases (b off == 0)) [
    | inl e ↦ let ends : stop off ≡ next = rw e at h in cc ends
    | inr e ↦ elim (Bool-cases (b off == 0xe5)) [
      | inl e' ↦ let ends : stop off ≡ next = rw (e, e') at h in cc ends
      | inr e' ↦ (e, e')
    ]
  ]

  -- It does not end the search for the file.
  visit_file-in_use :
      (b : Bytes) (off : ℕ) (rest : Visit (Option (Bytes × ℕ)))
      → visit_free b off ≡ next
      → Misses (or_next (visit_file name b off) stop rest)
      → visit_file name b off ≡ next
  visit_file-in_use b off rest used misses =
      let (e, e') = visit_free-next b off used in
      elim (Bool-cases (not (bit_and (b (off + 11)) 0x18 == 0))) [
        | inl special ↦ rw (e, e', special) refl
        | inr plain ↦ elim (Bool-cases (same_bytes 11 b off name 0)) [
          | inl same ↦ let found : ⊥ = rw (e, e', plain, same) at misses in absurd found
          | inr other ↦ rw (e, e', plain, other) refl
        ]
      ]

  same_bytes-ext :
      (n : ℕ) (b b' : Bytes) (start start' : ℕ)
      → ((k : ℕ) → k < start + n → b' k ≡ b k)
      → same_bytes n b' start name start' ≡ same_bytes n b start name start'
  unfolding same_bytes
  same_bytes-ext zero b b' start start' same = refl
  same_bytes-ext (suc n) b b' start start' same =
      rw
        (
          same start (omega arith),
          same_bytes-ext n b b' (start + 1) (start' + 1) (λ k h. same k (omega arith)),
        )
        refl

  -- The visit reads the bytes of its entry.
  visit_file-ext :
      (b b' : Bytes) (off : ℕ)
      → ((k : ℕ) → k < off + dir_entry_size → b' k ≡ b k)
      → visit_file name b off ≡ next
      → visit_file name b' off ≡ next
  visit_file-ext b b' off same e =
      let compared = same_bytes-ext 11 b b' off 0 (λ k h. same k (omega arith)) in
      let first = same off (omega arith) in
      let attributes = same (off + 11) (omega arith) in
      rw (first, attributes, compared)
        (verdict-next (b off == 0) (b off == 0xe5) (not (bit_and (b (off + 11)) 0x18 == 0))
          (same_bytes 11 b off name 0) (b, off) (b', off) e)

  module _ (b b' : Bytes) (found : ℕ) (e : IsEntryOf name b' found)
      (same : (k : ℕ) → k < found → b' k ≡ b k) where
    scan_sector-ge : (left off : ℕ) → scan_sector (visit_free b) left off ≡ stop found → off ≤ found
    unfolding scan_sector
    scan_sector-ge zero off h = absurd (cc h)
    scan_sector-ge (suc left) off h = elim (Bool-cases ((b off == 0) || (b off == 0xe5))) [
      | inl free ↦
          let ends : stop off ≡ stop found = rw free at h in omega (arith, stop-injective ends)
      | inr used ↦
          let rest : scan_sector (visit_free b) left (off + dir_entry_size) ≡ stop found =
            rw used at h in
          omega (arith, scan_sector-ge left (off + dir_entry_size) rest)
    ]

    -- In a sector.
    pub scan_sector-found :
        (left off : ℕ)
        → scan_sector (visit_free b) left off ≡ stop found
        → Misses (scan_sector (visit_file name b) left off)
        → scan_sector (visit_file name b') left off ≡ stop (some (b', found))
    unfolding scan_sector
    scan_sector-found zero off h misses = absurd (cc h)
    scan_sector-found (suc left) off h misses =
        elim (Bool-cases ((b off == 0) || (b off == 0xe5))) [
          | inl free ↦
              let ends : stop off ≡ stop found = rw free at h in
              let here : off ≡ found = stop-injective ends in
              rw (here, visit_file-IsEntryOf b' found e) refl
          | inr used ↦
              let used' : visit_free b off ≡ next = rw used refl in
              let rest : scan_sector (visit_free b) left (off + dir_entry_size) ≡ stop found =
                rw used at h in
              let passed =
                visit_file-in_use b off
                  (scan_sector (visit_file name b) left (off + dir_entry_size)) used' misses in
              let behind = scan_sector-ge left (off + dir_entry_size) rest in
              let passed' =
                visit_file-ext b b' off (λ k l. same k (omega (arith, l, behind))) passed in
              let misses' : Misses (scan_sector (visit_file name b) left (off + dir_entry_size)) =
                rw passed at misses in
              rw passed' (scan_sector-found left (off + dir_entry_size) rest misses')
        ]

  -- A sector without a free entry and without the file.
  pub scan_sector-passes :
      (b : Bytes) (left off : ℕ)
      → scan_sector (visit_free b) left off ≡ next
      → Misses (scan_sector (visit_file name b) left off)
      → scan_sector (visit_file name b) left off ≡ next
  unfolding scan_sector
  scan_sector-passes b zero off h misses = refl
  scan_sector-passes b (suc left) off h misses =
      elim (Bool-cases ((b off == 0) || (b off == 0xe5))) [
        | inl free ↦ let ends : stop off ≡ next = rw free at h in cc ends
        | inr used ↦
            let used' : visit_free b off ≡ next = rw used refl in
            let rest : scan_sector (visit_free b) left (off + dir_entry_size) ≡ next =
              rw used at h in
            let passed =
              visit_file-in_use b off (scan_sector (visit_file name b) left (off + dir_entry_size))
                used' misses in
            let misses' : Misses (scan_sector (visit_file name b) left (off + dir_entry_size)) =
              rw passed at misses in
            rw passed (scan_sector-passes b left (off + dir_entry_size) rest misses')
      ]
