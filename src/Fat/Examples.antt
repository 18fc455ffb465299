-- ===== src/Fat/Examples.antt =====
-- Tests of the model of system/fat32.c, and its theorems at small volumes.
use memtest86plus.Base.{
  ℕ, ◌+◌, ◌-◌, ◌≤◌, ltb, ◌≡◌, refl, arith, true, false, Option, some, none, ◌==◌, ◌||◌,
  if◌then◌else◌,
}
use memtest86plus.Base.Bytes.{Bytes, get_le, put_le}
use memtest86plus.Fat.{
  Fs, Device, Store, is_valid_cluster, cluster_to_lba, msd_read, msd_write, read_value,
  fat_read_entry, write_copies, fat_write_entry, alloc_loop, fat_alloc_cluster,
}
use memtest86plus.Fat.Layout.{IsLayout}
use memtest86plus.Fat.Entry.{Sets, fat_write_entry_lem, entry}
use memtest86plus.Fat.Alloc.{Allocates, fat_alloc_cluster_lem}
use memtest86plus.Fat.Directory.{
  scan_sector, walk_sectors, walk_root, find_free_dir_entry, find_file, same_bytes,
  find_file_dir_entry,
}
use memtest86plus.Fat.File.{
  alloc_clusters, clusters_for, write_cluster, write_data, write_contents, fat32_write_file,
  clear_bytes, copy_bytes, with_entry, read_cluster, read_data, fat32_read_file,
}
use memtest86plus.Fat.File.Undo.{SameTable, fat32_write_file-undoes}
use memtest86plus.Fat.File.Contents.{Agree}
use memtest86plus.Fat.File.Whole.{fat32_read_file-fat32_write_file}
use memtest86plus.Fat.Names.{
  check_dir_entry, note_sector, note_sectors, note_root, first_unused, name_of, fat32_next_filename,
}
use memtest86plus.Fat.Names.Report.{fat32_next_filename-unused}
use memtest86plus.Fat.Volume.{is_fat_bpb, context, parse_fat_bpb, fat32_mount, total_sectors}
use memtest86plus.Fat.Volume.Bounds.{
  AreBytes, IsRoomy, parse_fat_bpb_bounds, parse_fat_bpb-IsLayout,
}
use memtest86plus.Fat.Volume.Mount.{IsFound, fat32_mount-IsFound}

abbrev sound : Device
sound = record { fails = λ n. false; torn = λ n i. 0 }

-- A volume with sectors of 64 bytes: two copies of the table in the sectors 1 and 2, the root directory in
-- sector 3, and four clusters of a sector each behind it.
abbrev small : Fs
small = record {
  block_size = 64;
  partition_lba = 0;
  bytes_per_sector = 64;
  sectors_per_cluster = 1;
  reserved_sectors = 1;
  num_fats = 2;
  fat_type = 16;
  sectors_per_fat = 1;
  root_cluster = 0;
  root_dir_lba = 3;
  root_dir_sectors = 1;
  max_cluster = 6;
  fat_start_lba = 1;
  data_start_lba = 4;
}

-- The same without a root directory.
abbrev rootless : Fs
rootless = record small { root_dir_sectors = 0 }

small-IsLayout : IsLayout small
small-IsLayout = omega arith

rootless-IsLayout : IsLayout rootless
rootless-IsLayout = omega arith

abbrev blank : Store
blank = record { disk = λ lba i. 0; transfers = 0 }

-- The name and the contents of a file of 100 bytes.
abbrev name : Bytes
name i = 65 + i

abbrev content : Bytes
content i = i + 1

abbrev written : Store
written = (fat32_write_file sound small name content 100 blank).1

abbrev first_of : Option ℕ → ℕ
first_of none = 0
first_of (some n) = n

-- The file takes the clusters 2 and 3, and is read back as it was written; the next byte of the buffer is
-- left alone.
abbrev read_back : Option (Bytes × ℕ)
read_back = (fat32_read_file sound small name (λ i. 0) 200 written).0

abbrev byte_of : Option (Bytes × ℕ) → ℕ → ℕ
byte_of none i = 0
byte_of (some (b, size)) i = b i

round_trip :
    (entry small written.disk 2 ≡ 3)
    × (entry small written.disk 3 ≡ 0xffff)
    × (byte_of read_back 0 ≡ 1)
    × (byte_of read_back 99 ≡ 100)
    × (byte_of read_back 100 ≡ 0)
unfolding fat32_write_file alloc_clusters fat_alloc_cluster alloc_loop fat_read_entry read_value
    msd_read msd_write fat_write_entry write_copies write_contents write_data write_cluster
    find_free_dir_entry walk_root walk_sectors scan_sector with_entry clear_bytes copy_bytes
    fat32_read_file find_file_dir_entry find_file same_bytes read_data read_cluster get_le put_le
    native.Mathlib.Decide.ℕ_discrete
round_trip = (refl, refl, refl, refl, refl)

abbrev allocated : Store
allocated = (alloc_clusters sound small (clusters_for small 100) 0 0 blank).1

missing : (find_file_dir_entry sound small name blank).0 ≡ none
unfolding find_file_dir_entry find_file walk_root walk_sectors scan_sector msd_read
missing = refl

writes : fat32_write_file sound small name content 100 blank ≡ (true, written)
unfolding fat32_write_file alloc_clusters fat_alloc_cluster alloc_loop fat_read_entry read_value
    msd_read msd_write fat_write_entry write_copies write_contents write_data write_cluster
    find_free_dir_entry walk_root walk_sectors scan_sector with_entry clear_bytes copy_bytes get_le
    put_le native.Mathlib.Decide.ℕ_discrete
writes = refl

fat32_read_file-fat32_write_file_example :
    (out : Bytes) × (s : Store) × (fat32_read_file sound small name (λ i. 0) 200 written
      ≡ (some (out, 100), s))
    × Agree content out 100
fat32_read_file-fat32_write_file_example =
    fat32_read_file-fat32_write_file sound (λ n. refl) small-IsLayout (omega arith) (omega arith)
      refl name (omega arith) (omega arith) content 100 (omega arith) (λ i. 0) 200 blank written
      (omega arith) missing writes

abbrev after_search : Store
after_search = (fat32_next_filename sound small blank).1

first_report : fat32_next_filename sound small blank ≡ (some (name_of 1), after_search)
unfolding fat32_next_filename note_root note_sectors note_sector first_unused msd_read
first_report = refl

fat32_next_filename-unused_example :
    ((n : ℕ) × (1 ≤ n) × (n ≤ 99) × (name_of n ≡ name_of 1))
    × (after_search.disk ≡ blank.disk)
    × ((find_file_dir_entry sound small (name_of 1) after_search).0 ≡ none)
fat32_next_filename-unused_example =
    fat32_next_filename-unused sound (λ n. refl) small refl blank after_search (name_of 1)
      first_report

-- With the numbers 1 and 3 used, the next report has the number 2.
abbrev two_reports : Store
two_reports = record {
  disk = λ lba i. if lba == 3 then (if ltb i 32 then name_of 1 i else name_of 3 (i - 32)) else 0;
  transfers = 0;
}

second_report : (fat32_next_filename sound small two_reports).0 ≡ some (name_of 2)
unfolding fat32_next_filename note_root note_sectors note_sector check_dir_entry same_bytes
    first_unused msd_read native.Mathlib.Decide.ℕ_discrete
second_report = refl

no_room : (fat32_write_file sound rootless name content 100 blank).0 ≡ false
unfolding fat32_write_file alloc_clusters fat_alloc_cluster alloc_loop fat_read_entry read_value
    msd_read msd_write fat_write_entry write_copies write_contents write_data write_cluster
    find_free_dir_entry walk_root walk_sectors get_le put_le native.Mathlib.Decide.ℕ_discrete
no_room = refl

fat32_write_file-undoes_example :
    SameTable rootless blank.disk (fat32_write_file sound rootless name content 100 blank).1.disk
fat32_write_file-undoes_example =
    fat32_write_file-undoes sound (λ n. refl) rootless-IsLayout name content 100 blank (omega arith)
      no_room

fat_write_entry_lem_example :
    (s : Store) × (fat_write_entry sound small 3 5 blank ≡ (some tt, s))
    × Sets small 3 5 blank.disk s.disk
fat_write_entry_lem_example =
    fat_write_entry_lem sound (λ n. refl) small small-IsLayout 3 5 blank (omega arith) (omega arith)

fat_alloc_cluster_lem_example : Allocates small 2 blank.disk (fat_alloc_cluster sound small blank)
fat_alloc_cluster_lem_example =
    fat_alloc_cluster_lem sound (λ n. refl) small-IsLayout blank (omega arith)

-- The boot sector of a FAT16 volume of 5000 sectors.
abbrev boot : Bytes
boot i =
    if i == 12
    then 2
    else if i == 13
    then 1
    else if i == 14
    then 1
    else if i == 16
    then 1
    else if i == 17
    then 16
    else if i == 19
    then 0x88
    else if i == 20
    then 0x13
    else if i == 22
    then 20
    else if i == 510
    then 0x55
    else if i == 511
    then 0xaa
    else 0

boot-AreBytes : AreBytes boot
boot-AreBytes i = ground arith

boot_parses : parse_fat_bpb 512 7 boot ≡ some (context 512 7 boot)
unfolding parse_fat_bpb is_fat_bpb get_le
boot_parses = refl

boot_cluster : is_valid_cluster (context 512 7 boot) 2 ≡ true
unfolding context get_le
boot_cluster = refl

-- No reserved sectors, one table of 0xffffffff sectors and a root directory of 512 entries.
abbrev wide_boot : Bytes
wide_boot i =
    if (i == 14) || (i == 17) || (i == 22)
    then 0
    else if i == 18
    then 2
    else if (i == 36) || (i == 37) || (i == 38) || (i == 39)
    then 0xff
    else boot i

-- The start of its data area wraps, and the volume is accepted.
wide_boot_parses :
    (parse_fat_bpb 512 7 wide_boot ≡ some (context 512 7 wide_boot))
    × ((context 512 7 wide_boot).root_dir_lba ≡ 0xffff_ffff)
    × ((context 512 7 wide_boot).data_start_lba ≡ 31)
unfolding parse_fat_bpb is_fat_bpb context get_le
wide_boot_parses = (refl, refl, refl)

boot-IsRoomy : IsRoomy 7 boot
unfolding get_le
boot-IsRoomy = omega arith

parse_fat_bpb_bounds_example :
    ((context 512 7 boot).data_start_lba ≤ cluster_to_lba (context 512 7 boot) 2)
    × (cluster_to_lba (context 512 7 boot) 2 + (context 512 7 boot).sectors_per_cluster
        ≤ total_sectors boot)
parse_fat_bpb_bounds_example =
    parse_fat_bpb_bounds 512 7 boot (context 512 7 boot) 2 boot-AreBytes boot_parses boot_cluster

parse_fat_bpb-IsLayout_example : IsLayout (context 512 7 boot)
parse_fat_bpb-IsLayout_example =
    parse_fat_bpb-IsLayout 512 7 boot (context 512 7 boot) boot-AreBytes boot-IsRoomy boot_parses

abbrev one_volume : Store
one_volume = record { disk = λ lba. boot; transfers = 0 }

fat32_mount-IsFound_example : IsFound 512 one_volume.disk (fat32_mount sound 512 one_volume)
fat32_mount-IsFound_example = fat32_mount-IsFound sound 512 one_volume
