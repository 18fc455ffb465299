-- ===== src/Fat/Names.antt =====
-- The names of the reports: `fat32_next_filename` of system/fat32.c.
pub mod Unused
pub mod Report
use memtest86plus.Base.{
  ℕ, zero, suc, ◌+◌, ◌-◌, ◌*◌, ◌/◌, ◌%◌, Bool, true, false, ◌&&◌, leb, ◌==◌, if◌then◌else◌, Option,
  none, some, add32, List, [], ◌∷◌,
}
use memtest86plus.Base.Family.{update}
use memtest86plus.Base.Bytes.{Bytes}
use memtest86plus.Fat.{
  Fs, Device, Store, Io, is_valid_cluster, cluster_to_lba, read_sector, fat_read_entry,
}
use memtest86plus.Fat.Directory.{dir_entry_size, same_bytes}
use memtest86plus.Fat.File.{handle}

-- The numbers that are used.
abbrev pub Used : Type 0
Used = ℕ → Bool

abbrev pub bytes_of : List ℕ → Bytes
bytes_of [] i = 0
bytes_of (x ∷ xs) zero = x
bytes_of (x ∷ xs) (suc i) = bytes_of xs i

-- "MT86P_" and "TXT"
abbrev pub prefix : List ℕ
prefix = 77 ∷ 84 ∷ 56 ∷ 54 ∷ 80 ∷ 95 ∷ []

abbrev pub extension : List ℕ
extension = 84 ∷ 88 ∷ 84 ∷ []

-- The number of the two digits is marked. A byte below '0' gives a negative digit.
abbrev pub mark : Used → ℕ → ℕ → Used
mark used tens ones =
    if (leb 48 tens && leb tens 57) && (leb 48 ones && leb ones 57)
    then (let num = (tens - 48) * 10 + (ones - 48) in
        if leb 1 num && leb num 99 then update used num true else used)
    else used

unfoldable pub check_dir_entry : Bytes → ℕ → Used → Used
check_dir_entry b off used =
    if same_bytes 6 b off (bytes_of prefix) 0 && same_bytes 3 b (off + 8) (bytes_of extension) 0
    then mark used (b (off + 6)) (b (off + 7))
    else used

-- The entries of a sector from the offset `off` on, with the rounds left: whether the directory ends there.
unfoldable pub note_sector : Bytes → ℕ → ℕ → Used → Bool × Used
note_sector b zero off used = (false, used)
note_sector b (suc left) off used =
    if b off == 0
    then (true, used)
    else note_sector b left (off + dir_entry_size)
        (if b off == 0xe5 then used else check_dir_entry b off used)

-- What follows a loop: nothing, where the directory ends.
abbrev pub unless_done :
    (Bool × Used) → (Used → (Bool × Used) × Store) → Store → (Bool × Used) × Store
unless_done (true, used) rest s = ((true, used), s)
unless_done (false, used) rest s = rest used

-- The sectors from `lba + i` on. A read that fails ends the loop.
unfoldable pub note_sectors : Device → Fs → ℕ → ℕ → ℕ → Used → Store → (Bool × Used) × Store
note_sectors d fs lba zero i used s = ((false, used), s)
note_sectors d fs lba (suc left) i used s =
    handle (read_sector d fs (add32 lba i) s) (λ s'. ((false, used), s'))
      (λ b s'.
        unless_done (note_sector b (fs.bytes_per_sector / dir_entry_size) 0 used)
          (λ used'. note_sectors d fs lba left (i + 1) used' s') s')

-- The clusters of the chain from `cluster` on.
unfoldable pub note_chain : Device → Fs → ℕ → ℕ → Used → Store → (Bool × Used) × Store
note_chain d fs zero cluster used s = ((false, used), s)
note_chain d fs (suc left) cluster used s =
    if is_valid_cluster fs cluster
    then (let (noted, s1) =
          note_sectors d fs (cluster_to_lba fs cluster) fs.sectors_per_cluster 0 used s in
        unless_done noted
          (λ used'.
            let (link, s2) = fat_read_entry d fs cluster s1 in note_chain d fs left link used' s2)
          s1)
    else ((false, used), s)

unfoldable pub note_root : Device → Fs → Store → (Bool × Used) × Store
note_root d fs s =
    let none_used : Used = λ n. false in
    if fs.fat_type == 32
    then note_chain d fs fs.max_cluster fs.root_cluster none_used s
    else note_sectors d fs fs.root_dir_lba fs.root_dir_sectors 0 none_used s

-- The first number from `n` on that is not used, with the numbers left.
unfoldable pub first_unused : Used → ℕ → ℕ → Option ℕ
first_unused used zero n = none
first_unused used (suc left) n =
    let rest = first_unused used left (n + 1) in if used n then rest else some n

abbrev pub name_of : ℕ → Bytes
name_of n =
    bytes_of (77 ∷ 84 ∷ 56 ∷ 54 ∷ 80 ∷ 95 ∷ (48 + n / 10) ∷ (48 + n % 10) ∷ 84 ∷ 88 ∷ 84 ∷ [])

abbrev pub named : Option ℕ → Option Bytes
named none = none
named (some n) = some (name_of n)

unfoldable pub fat32_next_filename : Device → Fs → Io Bytes
fat32_next_filename d fs s =
    let ((done, used), s') = note_root d fs s in (named (first_unused used 99 1), s')
