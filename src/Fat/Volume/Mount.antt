-- ===== src/Fat/Volume/Mount.antt =====
-- What `fat32_mount` of system/fat32.c mounts, on any device.
use memtest86plus.Base.{
  ℕ, zero, suc, ◌+◌, ◌*◌, ◌/◌, ◌%◌, ◌≡◌, ◌⊎◌, inl, inr, refl, Bool-cases, ◌||◌, not, ltb, ◌==◌,
  if◌then◌else◌, Option, none, some, Option-cases, add64, u64_mod, u32_mod,
}
use mathlib.Core.Path.{subst}
use memtest86plus.Base.Bytes.{Bytes, get_le}
use memtest86plus.Fat.{Fs, Device, Store, Io, fail, proceed, ◌>>=◌, counted, msd_read}
use memtest86plus.Fat.Volume.{
  parse_fat_bpb, reads_as, has_signature, is_gpt, is_fat_partition, gpt_signature, or_else, attempt,
  try_partition, mbr_loop, Loaded, load, skips_entry, gpt_entry, gpt_loop, mount_gpt, fat32_mount,
}

-- A file system that is found is what a boot sector of the disk says; the disk stays as it is.
abbrev pub IsFound : ℕ → (ℕ → Bytes) → Option Fs × Store → Type 0
IsFound block_size disk (none, s) = s.disk ≡ disk
IsFound block_size disk (some fs, s) =
    (s.disk ≡ disk) × (lba : ℕ) × (parse_fat_bpb block_size lba (disk lba) ≡ some fs)

msd_read-cases :
    (d : Device) (lba : ℕ) (s : Store)
    → (msd_read d lba s ≡ (none, counted s)) ⊎ (msd_read d lba s ≡ (some (s.disk lba), counted s))
unfolding msd_read
msd_read-cases d lba s = elim (Bool-cases (d.fails s.transfers)) [
  | inl e ↦ inl (rw e refl)
  | inr e ↦ inr (rw e refl)
]

module _ (d : Device) (block_size : ℕ) (disk : ℕ → Bytes) where
  abbrev Found : Option Fs × Store → Type 0
  Found = IsFound block_size disk

  parse-Found :
      (lba : ℕ) (s : Store) (rest : Io Fs)
      → s.disk ≡ disk
      → Found (rest s)
      → Found (or_else (parse_fat_bpb block_size lba (s.disk lba)) rest s)
  parse-Found lba s rest same found =
      elim (Option-cases (parse_fat_bpb block_size lba (s.disk lba))) [
        | inl e ↦ rw e found
        | inr (fs, e) ↦ rw e (
          same,
          lba,
          subst (λ (disk' : ℕ → Bytes). parse_fat_bpb block_size lba (disk' lba) ≡ some fs) same e,
        )
      ]

  mbr_loop-Found :
      (left i : ℕ) (b : Bytes) (s : Store)
      → s.disk ≡ disk
      → Found (mbr_loop d block_size left i b s)
  unfolding mbr_loop
  mbr_loop-Found zero i b s same = same
  mbr_loop-Found (suc left) i b s same =
      let part_lba = get_le 4 b (446 + i * 16 + 8) in
      elim (Bool-cases (not (is_fat_partition (b (446 + i * 16 + 4))) || (part_lba == 0))) [
        | inl skipped ↦ rw skipped (mbr_loop-Found left (i + 1) b s same)
        | inr tried ↦ elim (msd_read-cases d part_lba s) [
          | inl failed ↦
              rw (tried, failed) (mbr_loop-Found left (i + 1) (d.torn s.transfers) (counted s) same)
          | inr read ↦
              rw (tried, read)
                (parse-Found part_lba (counted s)
                  (mbr_loop d block_size left (i + 1) (s.disk part_lba)) same
                  (mbr_loop-Found left (i + 1) (s.disk part_lba) (counted s) same))
        ]
      ]

  attempt-Found :
      (r : Option Fs × Store) (rest : Io Fs)
      → Found r
      → ((s : Store) → s.disk ≡ disk → Found (rest s))
      → Found (attempt r rest)
  attempt-Found (none, s) rest same found = found s same
  attempt-Found (some fs, s) rest is_found found = is_found

  try_partition-Found :
      (lba : ℕ) (s : Store) → s.disk ≡ disk → Found (try_partition d block_size lba s)
  unfolding try_partition
  try_partition-Found lba s same = elim (msd_read-cases d lba s) [
    | inl failed ↦ rw failed same
    | inr read ↦ rw read (parse-Found lba (counted s) fail same same)
  ]

  -- The read of the sector of an entry keeps the disk.
  load-Found :
      (sector : ℕ) (loaded : Loaded) (s : Store) (f : Bytes → Io Fs)
      → s.disk ≡ disk
      → ((b : Bytes) (s' : Store) → s'.disk ≡ disk → Found (f b s'))
      → Found (proceed (load d sector loaded s) f)
  load-Found sector none s f same found = elim (msd_read-cases d sector s) [
    | inl failed ↦ rw failed same
    | inr read ↦ rw read (found (s.disk sector) (counted s) same)
  ]
  load-Found sector (some (loaded_sector, b)) s f same found =
      elim (Bool-cases (sector == loaded_sector)) [
        | inl e ↦ rw e (found b s same)
        | inr e ↦ elim (msd_read-cases d sector s) [
          | inl failed ↦ rw (e, failed) same
          | inr read ↦ rw (e, read) (found (s.disk sector) (counted s) same)
        ]
      ]

  gpt_loop-Found :
      (entry_lba entry_size left i : ℕ) (loaded : Loaded) (s : Store)
      → s.disk ≡ disk
      → Found (gpt_loop d block_size entry_lba entry_size left i loaded s)
  unfolding gpt_loop
  gpt_loop-Found entry_lba entry_size zero i loaded s same = same
  gpt_loop-Found entry_lba entry_size (suc left) i loaded s same =
      let byte_off = i * entry_size % u64_mod in
      let sector = add64 entry_lba (byte_off / block_size) % u32_mod in
      let offset = byte_off % block_size in
      elim (Bool-cases (ltb block_size (offset + 40))) [
        | inl outside ↦ rw outside (gpt_loop-Found entry_lba entry_size left (i + 1) loaded s same)
        | inr inside ↦ rw inside (
            load-Found sector loaded s
              (gpt_entry d block_size sector offset
                (gpt_loop d block_size entry_lba entry_size left (i + 1)))
              same
              (λ b s' same'. elim (Bool-cases (skips_entry b offset)) [
                | inl skipped ↦
                    rw skipped
                      (gpt_loop-Found entry_lba entry_size left (i + 1) (some (sector, b)) s' same')
                | inr tried ↦ rw tried (
                    attempt-Found (try_partition d block_size (get_le 8 b (offset + 32)) s')
                      (gpt_loop d block_size entry_lba entry_size left (i + 1) none)
                      (try_partition-Found (get_le 8 b (offset + 32)) s' same')
                      (λ s2 same2. gpt_loop-Found entry_lba entry_size left (i + 1) none s2 same2))
              ]))
      ]

  mount_gpt-Found : (s : Store) → s.disk ≡ disk → Found (mount_gpt d block_size s)
  unfolding mount_gpt
  mount_gpt-Found s same = elim (msd_read-cases d 1 s) [
    | inl failed ↦ rw failed same
    | inr read ↦
        let b = s.disk 1 in
        let entry_size = get_le 4 b 84 in
        let entry_count = get_le 4 b 80 in
        elim (Bool-cases
          (not (reads_as b 0 gpt_signature) || ltb entry_size 128 || (entry_count == 0))) [
            | inl bad ↦ rw (read, bad) same
            | inr good ↦
                rw (read, good)
                  (gpt_loop-Found (get_le 8 b 72) entry_size entry_count 0 none (counted s) same)
          ]
  ]

  table-Found : (s : Store) → s.disk ≡ disk → Found ((msd_read d 0 >>= mbr_loop d block_size 4 0) s)
  table-Found s same = elim (msd_read-cases d 0 s) [
    | inl failed ↦ rw failed same
    | inr read ↦ rw read (mbr_loop-Found 4 0 (s.disk 0) (counted s) same)
  ]

  partitions-Found :
      (b : Bytes) (s : Store)
      → s.disk ≡ disk
      → Found (
          (if not (has_signature b)
              then fail
              else if is_gpt b
              then mount_gpt d block_size
              else (msd_read d 0 >>= mbr_loop d block_size 4 0))
            s)
  partitions-Found b s same = elim (Bool-cases (has_signature b)) [
    | inr unsigned ↦ rw unsigned same
    | inl signed ↦ elim (Bool-cases (is_gpt b)) [
      | inl gpt ↦ rw (signed, gpt) (mount_gpt-Found s same)
      | inr mbr ↦ rw (signed, mbr) (table-Found s same)
    ]
  ]

-- On any device, whichever of its transfers fail, `fat32_mount` leaves the disk as it is, and a file
-- system that it mounts is the one that some boot sector of the disk describes and that passes the checks
-- of `parse_fat_bpb`.
pub fat32_mount-IsFound :
    (d : Device) (block_size : ℕ) (s : Store)
    → IsFound block_size s.disk (fat32_mount d block_size s)
unfolding fat32_mount
fat32_mount-IsFound d block_size s = elim (msd_read-cases d 0 s) [
  | inl failed ↦ rw failed refl
  | inr read ↦ rw read (
      parse-Found d block_size s.disk 0 (counted s)
        (if not (has_signature (s.disk 0))
          then fail
          else if is_gpt (s.disk 0)
          then mount_gpt d block_size
          else (msd_read d 0 >>= mbr_loop d block_size 4 0))
        refl (partitions-Found d block_size s.disk (s.disk 0) (counted s) refl))
]
