-- ===== src/Fat/Volume.antt =====
-- `parse_fat_bpb` and `fat32_mount` of system/fat32.c.
pub mod Bounds
pub mod Mount
use memtest86plus.Base.{
  ℕ, zero, suc, ◌+◌, ◌-◌, ◌*◌, ◌/◌, ◌%◌, ◌^◌, bit_and, Bool, true, false, ◌&&◌, ◌||◌, not, ltb, leb,
  ◌==◌, if◌then◌else◌, Option, none, some, add32, sub32, mul32, add64, u64_mod, u32_mod, List, [],
  ◌∷◌,
}
use memtest86plus.Base.Bytes.{Bytes, get_le}
use memtest86plus.Fat.{Fs, Device, Store, Io, pure, fail, proceed, ◌>>=◌, otherwise, msd_read}
use memtest86plus.Fat.Directory.{dir_entry_size}

-- Fields of the boot sector.
abbrev pub root_entry_count : Bytes → ℕ
root_entry_count b = get_le 2 b 17

abbrev pub sectors_per_fat_of : Bytes → ℕ
sectors_per_fat_of b = if get_le 2 b 22 == 0 then get_le 4 b 36 else get_le 2 b 22

abbrev pub total_sectors : Bytes → ℕ
total_sectors b = if get_le 2 b 19 == 0 then get_le 4 b 32 else get_le 2 b 19

abbrev pub root_dir_sectors_of : Bytes → ℕ
root_dir_sectors_of b =
    add32 (root_entry_count b * dir_entry_size) (get_le 2 b 11 - 1) / get_le 2 b 11 % 0x1_0000

abbrev pub root_dir_lba_of : Bytes → ℕ
root_dir_lba_of b = add32 (get_le 2 b 14) (mul32 (b 16) (sectors_per_fat_of b))

abbrev pub data_start_of : Bytes → ℕ
data_start_of b = add32 (root_dir_lba_of b) (root_dir_sectors_of b)

abbrev pub count_clusters : Bytes → ℕ
count_clusters b = sub32 (total_sectors b) (data_start_of b) / b 13

abbrev pub fat_type_of : Bytes → ℕ
fat_type_of b = if ltb (count_clusters b) 65525 then 16 else 32

abbrev pub has_signature : Bytes → Bool
has_signature b = (b 510 == 0x55) && (b 511 == 0xaa)

-- The checks of `parse_fat_bpb`, in their order.
unfoldable pub is_fat_bpb : ℕ → Bytes → Bool
is_fat_bpb block_size b =
    has_signature b
    && not ((get_le 2 b 11 == 0) || (b 13 == 0))
    && (get_le 2 b 11 == block_size)
    && not (sectors_per_fat_of b == 0)
    && not (total_sectors b == 0)
    && ltb (data_start_of b) (total_sectors b)
    && leb 4085 (count_clusters b)
    && (if fat_type_of b == 32 then root_entry_count b == 0 else not (root_entry_count b == 0))

-- The context that it fills in.
unfoldable pub context : ℕ → ℕ → Bytes → Fs
context block_size partition_lba b = record {
  block_size = block_size;
  partition_lba = partition_lba;
  bytes_per_sector = get_le 2 b 11;
  sectors_per_cluster = b 13;
  reserved_sectors = get_le 2 b 14;
  num_fats = b 16;
  fat_type = fat_type_of b;
  sectors_per_fat = sectors_per_fat_of b;
  root_cluster = if fat_type_of b == 32 then get_le 4 b 44 else 0;
  root_dir_lba = root_dir_lba_of b;
  root_dir_sectors = root_dir_sectors_of b;
  max_cluster = add32 (count_clusters b) 2;
  fat_start_lba = get_le 2 b 14;
  data_start_lba = data_start_of b;
}

unfoldable pub parse_fat_bpb : ℕ → ℕ → Bytes → Option Fs
parse_fat_bpb block_size partition_lba b =
    if is_fat_bpb block_size b then some (context block_size partition_lba b) else none

-- The bytes from `at` on are those of the list.
abbrev pub reads_as : Bytes → ℕ → List ℕ → Bool
reads_as b at [] = true
reads_as b at (x ∷ xs) = (b at == x) && reads_as b (at + 1) xs

abbrev pub gpt_signature : List ℕ
gpt_signature = 0x45 ∷ 0x46 ∷ 0x49 ∷ 0x20 ∷ 0x50 ∷ 0x41 ∷ 0x52 ∷ 0x54 ∷ []

abbrev pub gpt_basic_data_guid : List ℕ
gpt_basic_data_guid =
    0xa2 ∷ 0xa0 ∷ 0xd0 ∷ 0xeb ∷ 0xe5 ∷ 0xb9 ∷ 0x33 ∷ 0x44 ∷ 0x87 ∷ 0xc0 ∷ 0x68 ∷ 0xb6 ∷ 0xb7 ∷ 0x26
    ∷ 0x99 ∷ 0xc7 ∷ []

abbrev pub is_fat_partition : ℕ → Bool
is_fat_partition type =
    (type == 0x04) || (type == 0x06) || (type == 0x0e) || (type == 0x0b) || (type == 0x0c)

abbrev pub is_gpt : Bytes → Bool
is_gpt b = (b 450 == 0xee) || (b 466 == 0xee) || (b 482 == 0xee) || (b 498 == 0xee)

-- What follows the attempt to mount one partition: the next ones, if it fails.
abbrev pub or_else : {A : Type 0} → Option A → Io A → Io A
or_else none rest = rest
or_else (some a) rest = pure a

abbrev pub attempt : {A : Type 0} → Option A × Store → Io A → Option A × Store
attempt (r, s) rest = or_else r rest s

-- The read of the boot sector of a partition, and its parse.
pub try_partition : Device → ℕ → ℕ → Io Fs
try_partition d block_size lba =
    msd_read d lba >>= λ b. or_else (parse_fat_bpb block_size lba b) fail

-- After the read of a boot sector into the buffer: the parse, or the next entries with what is now in it.
abbrev pub mbr_tried : ℕ → ℕ → Bytes → Option Bytes × Store → (Bytes → Io Fs) → Option Fs × Store
mbr_tried block_size lba torn (none, s) rest = rest torn s
mbr_tried block_size lba torn (some b, s) rest = or_else (parse_fat_bpb block_size lba b) (rest b) s

-- The scan of the 4 entries of the partition table, at entry `i`, with the buffer. The boot sector of a
-- partition is read into the same buffer, so that the entries behind it are read from there.
pub mbr_loop : Device → ℕ → ℕ → ℕ → Bytes → Io Fs
mbr_loop d block_size zero i b s = (none, s)
mbr_loop d block_size (suc left) i b s =
    let entry = 446 + i * 16 in
    let part_lba = get_le 4 b (entry + 8) in
    let rest = mbr_loop d block_size left (i + 1) in
    if not (is_fat_partition (b (entry + 4))) || (part_lba == 0)
    then rest b s
    else mbr_tried block_size part_lba (d.torn s.transfers) (msd_read d part_lba s) rest

-- A sector of the table of partitions that is in the buffer: its number, and what is in it.
abbrev pub Loaded : Type 0
Loaded = Option (ℕ × Bytes)

-- The sector is read, unless it is in the buffer.
abbrev pub load : Device → ℕ → Loaded → Io Bytes
load d sector none s = msd_read d sector s
load d sector (some (loaded_sector, b)) s =
    if sector == loaded_sector then (some b, s) else msd_read d sector s

-- The entry is of another kind, or its partition has no first sector that can be read.
abbrev pub skips_entry : Bytes → ℕ → Bool
skips_entry b offset =
    let start_lba = get_le 8 b (offset + 32) in
    not (reads_as b offset gpt_basic_data_guid) || (start_lba == 0) || ltb 0xffff_ffff start_lba

-- What is done with an entry, and with the entries behind it. The read of a boot sector takes the buffer.
abbrev pub gpt_entry : Device → ℕ → ℕ → ℕ → (Loaded → Io Fs) → Bytes → Io Fs
gpt_entry d block_size sector offset rest b s =
    if skips_entry b offset
    then rest (some (sector, b)) s
    else attempt (try_partition d block_size (get_le 8 b (offset + 32)) s) (rest none)

-- The scan of the entries of a GUID partition table, at entry `i`.
pub gpt_loop : Device → ℕ → ℕ → ℕ → ℕ → ℕ → Loaded → Io Fs
gpt_loop d block_size entry_lba entry_size zero i loaded s = (none, s)
gpt_loop d block_size entry_lba entry_size (suc left) i loaded s =
    let byte_off = i * entry_size % u64_mod in
    let sector = add64 entry_lba (byte_off / block_size) % u32_mod in
    let offset = byte_off % block_size in
    let rest = gpt_loop d block_size entry_lba entry_size left (i + 1) in
    if ltb block_size (offset + 40)
    then rest loaded s
    else proceed (load d sector loaded s) (gpt_entry d block_size sector offset rest)

pub mount_gpt : Device → ℕ → Io Fs
mount_gpt d block_size = msd_read d 1 >>= λ b.
    let entry_size = get_le 4 b 84 in
    let entry_count = get_le 4 b 80 in
    if not (reads_as b 0 gpt_signature) || ltb entry_size 128 || (entry_count == 0)
    then fail
    else gpt_loop d block_size (get_le 8 b 72) entry_size entry_count 0 none

pub fat32_mount : Device → ℕ → Io Fs
fat32_mount d block_size = msd_read d 0 >>= λ b. or_else (parse_fat_bpb block_size 0 b) (
    if not (has_signature b)
    then fail
    else if is_gpt b
    then mount_gpt d block_size
    else (msd_read d 0 >>= mbr_loop d block_size 4 0))
