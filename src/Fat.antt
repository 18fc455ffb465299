-- ===== src/Fat.antt =====
-- system/fat32.c: the FAT16 and FAT32 file systems that reports are written to. Here are the context, the
-- sectors of the disk and the file allocation table.
pub mod Layout
pub mod Copies
pub mod Entry
pub mod Alloc
pub mod Chain
pub mod Directory
pub mod File
pub mod Names
pub mod Volume
mod Examples
use memtest86plus.Base.{
  ℕ, zero, suc, ◌+◌, ◌-◌, ◌*◌, ◌/◌, ◌%◌, bit_and, bit_or, Bool, true, false, ◌&&◌, ltb, leb, ◌==◌,
  if◌then◌else◌, Option, none, some, add32, sub32, mul32,
}
use memtest86plus.Base.Family.{update}
use memtest86plus.Base.Bytes.{Bytes, get_le, put_le}

-- `fat32_fs_t`, with the block size of its device. The sector buffer is the value that a read returns.
pub record Fs : Type 0 where
  pub block_size : ℕ
  pub partition_lba : ℕ
  pub bytes_per_sector : ℕ
  pub sectors_per_cluster : ℕ
  pub reserved_sectors : ℕ
  pub num_fats : ℕ
  pub fat_type : ℕ
  pub sectors_per_fat : ℕ
  pub root_cluster : ℕ
  pub root_dir_lba : ℕ
  pub root_dir_sectors : ℕ
  pub max_cluster : ℕ
  pub fat_start_lba : ℕ
  pub data_start_lba : ℕ

-- The storage device: which of its transfers fail, and what such a transfer leaves in the sector, for a
-- write, or in the buffer, for a read.
pub record Device : Type 0 where
  pub fails : ℕ → Bool
  pub torn : ℕ → Bytes

-- The sectors of the disk, and the number of the transfers so far.
pub record Store : Type 0 where
  pub disk : ℕ → Bytes
  pub transfers : ℕ

-- A fallible operation on the disk. What was written stays written when it fails.
abbrev pub Io : Type 0 → Type 0
Io A = Store → Option A × Store

module _ {A : Type 0} where
  abbrev pub pure : A → Io A
  pure a s = (some a, s)

  abbrev pub fail : Io A
  fail s = (none, s)

  -- An operation whose failure gives a value in its place.
  abbrev pub otherwise : A → Option A × Store → A × Store
  otherwise a (none, s) = (a, s)
  otherwise a (some b, s) = (b, s)

abbrev pub proceed : {A B : Type 0} → Option A × Store → (A → Io B) → Option B × Store
proceed (none, s) f = (none, s)
proceed (some a, s) f = f a s

infixl 5 ◌>>=◌ ◌>>◌
abbrev pub ◌>>=◌ : {A B : Type 0} → Io A → (A → Io B) → Io B
◌>>=◌ m f s = proceed (m s) f

abbrev pub ◌>>◌ : {B : Type 0} → Io (Unit {0}) → Io B → Io B
m >> k = m >>= λ _. k

abbrev pub counted : Store → Store
counted s = record s { transfers = s.transfers + 1 }

abbrev pub stored : Store → ℕ → Bytes → Store
stored s lba b = record s { disk = update s.disk lba b; transfers = s.transfers + 1 }

-- `msd_read_sectors` and `msd_write_sectors`, for one sector.
pub msd_read : Device → ℕ → Io Bytes
msd_read d lba s = if d.fails s.transfers then (none, counted s) else (some (s.disk lba), counted s)

pub msd_write : Device → ℕ → Bytes → Io (Unit {0})
msd_write d lba b s =
    if d.fails s.transfers
    then (none, stored s lba (d.torn s.transfers))
    else (some tt, stored s lba b)

abbrev pub eoc_value : Fs → ℕ
eoc_value fs = if fs.fat_type == 16 then 0xffff else 0x0fff_ffff

abbrev pub is_valid_cluster : Fs → ℕ → Bool
is_valid_cluster fs cluster = leb 2 cluster && ltb cluster fs.max_cluster

abbrev pub cluster_to_lba : Fs → ℕ → ℕ
cluster_to_lba fs cluster = add32 fs.data_start_lba (mul32 (sub32 cluster 2) fs.sectors_per_cluster)

abbrev pub read_sector : Device → Fs → ℕ → Io Bytes
read_sector d fs lba = msd_read d (add32 fs.partition_lba lba)

abbrev pub write_sector : Device → Fs → ℕ → Bytes → Io (Unit {0})
write_sector d fs lba b = msd_write d (add32 fs.partition_lba lba) b

-- The read of the `width` bytes at an offset of the first copy of the table.
pub read_value : Device → Fs → ℕ → ℕ → Io ℕ
read_value d fs width offset =
    read_sector d fs (add32 fs.fat_start_lba (offset / fs.bytes_per_sector)) >>= λ b.
    pure (get_le width b (offset % fs.bytes_per_sector))

pub fat_read_entry : Device → Fs → ℕ → Store → ℕ × Store
fat_read_entry d fs cluster s =
    if fs.fat_type == 32
    then otherwise 0x0fff_ffff
        ((read_value d fs 4 (mul32 cluster 4) >>= λ v. pure (bit_and v 0x0fff_ffff)) s)
    else otherwise 0xffff (read_value d fs 2 (mul32 cluster 2) s)

-- The loop over the copies of the table at copy `fat`, with the rounds left. `merge` gives the new value
-- of the entry from the old one.
pub write_copies : Device → Fs → ℕ → ℕ → (ℕ → ℕ) → ℕ → ℕ → Io (Unit {0})
write_copies d fs width offset merge zero fat = pure tt
write_copies d fs width offset merge (suc left) fat =
    let sector =
      add32 (add32 fs.fat_start_lba (mul32 fat fs.sectors_per_fat))
        (offset / fs.bytes_per_sector) in
    let at = offset % fs.bytes_per_sector in
    read_sector d fs sector >>= λ b.
    (write_sector d fs sector (put_le width (merge (get_le width b at)) b at)
      >> write_copies d fs width offset merge left (fat + 1))

-- The new value of an entry: FAT32 keeps the upper 4 bits of the old one.
abbrev pub merge_entry : Fs → ℕ → ℕ → ℕ
merge_entry fs value existing =
    if fs.fat_type == 32
    then bit_or (bit_and existing 0xf000_0000) (bit_and value 0x0fff_ffff)
    else value % 0x1_0000

pub fat_write_entry : Device → Fs → ℕ → ℕ → Io (Unit {0})
fat_write_entry d fs cluster value =
    if fs.fat_type == 32
    then write_copies d fs 4 (mul32 cluster 4) (merge_entry fs value) fs.num_fats 0
    else write_copies d fs 2 (mul32 cluster 2) (merge_entry fs value) fs.num_fats 0

-- The scan of `fat_alloc_cluster` at `cluster`, with the rounds left. A failure is the result 0.
pub alloc_loop : Device → Fs → ℕ → ℕ → Io ℕ
alloc_loop d fs zero cluster s = (none, s)
alloc_loop d fs (suc left) cluster s =
    let (entry, s') = fat_read_entry d fs cluster s in
    let rest = alloc_loop d fs left (cluster + 1) s' in
    if entry == 0 then (fat_write_entry d fs cluster (eoc_value fs) >> pure cluster) s' else rest

pub fat_alloc_cluster : Device → Fs → Io ℕ
fat_alloc_cluster d fs = alloc_loop d fs (fs.max_cluster - 2) 2

abbrev pub unless_failed : Option (Unit {0}) × Store → (Store → Store) → Store
unless_failed (none, s) f = s
unless_failed (some t, s) f = f s

-- The loop of `fat_free_chain`, with the rounds left.
pub free_loop : Device → Fs → ℕ → ℕ → Store → Store
free_loop d fs zero cluster s = s
free_loop d fs (suc left) cluster s =
    let (next, s') = fat_read_entry d fs cluster s in
    let rest = unless_failed (fat_write_entry d fs cluster 0 s') (free_loop d fs left next) in
    if is_valid_cluster fs cluster then rest else s

pub fat_free_chain : Device → Fs → ℕ → Store → Store
fat_free_chain d fs first_cluster = free_loop d fs fs.max_cluster first_cluster
