-- ===== src/Fat/Directory.antt =====
-- The root directory in system/fat32.c. Its four loops over the entries, which differ in what they do with
-- an entry, are one walk with an argument for that.
pub mod ReadOnly
pub mod Search
pub mod Walk
use memtest86plus.Base.{
  ℕ, zero, suc, ◌+◌, ◌-◌, ◌*◌, ◌/◌, ◌%◌, bit_and, Bool, true, false, ◌&&◌, ◌||◌, not, ltb, leb,
  ◌==◌, if◌then◌else◌, Option, none, some, add32,
}
use memtest86plus.Base.Family.{update}
use memtest86plus.Base.Bytes.{Bytes, get_le}
use memtest86plus.Fat.{
  Fs, Device, Store, Io, pure, fail, proceed, ◌>>=◌, ◌>>◌, is_valid_cluster, cluster_to_lba,
  read_sector, write_sector, fat_read_entry, fat_free_chain,
}

abbrev pub dir_entry_size : ℕ
dir_entry_size = 32

-- What a loop does with an entry: it goes on, or ends with a value.
pub data Visit (A : Type 0) : Type 0 where
  next : Visit A
  stop : A → Visit A

abbrev pub or_next : {A B : Type 0} → Visit A → (A → B) → B → B
or_next next f rest = rest
or_next (stop a) f rest = f a

module _ {A : Type 0} where
  -- The entries of a sector from the offset `off` on, with the rounds left.
  unfoldable pub scan_sector : (ℕ → Visit A) → ℕ → ℕ → Visit A
  scan_sector visit zero off = next
  scan_sector visit (suc left) off =
      or_next (visit off) stop (scan_sector visit left (off + dir_entry_size))

  module _ (d : Device) (fs : Fs) (visit : Bytes → ℕ → Visit A) where
    -- The sectors from `lba + i` on. The result has the sector at which the walk has ended.
    unfoldable pub walk_sectors : ℕ → ℕ → ℕ → Io (Visit (ℕ × A))
    walk_sectors lba zero i = pure next
    walk_sectors lba (suc left) i = read_sector d fs (add32 lba i) >>= λ b.
        or_next (scan_sector (visit b) (fs.bytes_per_sector / dir_entry_size) 0)
          (λ a. pure (stop (add32 lba i, a))) (walk_sectors lba left (i + 1))

    -- The clusters of the chain from `cluster` on.
    pub walk_chain : ℕ → ℕ → Io (Visit (ℕ × A))
    walk_chain zero cluster = pure next
    walk_chain (suc left) cluster =
        if is_valid_cluster fs cluster
        then (walk_sectors (cluster_to_lba fs cluster) fs.sectors_per_cluster 0 >>= λ r.
            or_next r (λ a. pure (stop a))
              (λ s. let (link, s') = fat_read_entry d fs cluster s in walk_chain left link s'))
        else pure next

    unfoldable pub walk_root : Io (Visit (ℕ × A))
    walk_root =
        if fs.fat_type == 32
        then walk_chain fs.max_cluster fs.root_cluster
        else walk_sectors fs.root_dir_lba fs.root_dir_sectors 0

abbrev pub visit_free : Bytes → ℕ → Visit ℕ
visit_free b off = if (b off == 0) || (b off == 0xe5) then stop off else next

-- The sector and the offset of a free entry.
unfoldable pub find_free_dir_entry : Device → Fs → Io (ℕ × ℕ)
find_free_dir_entry d fs =
    walk_root d fs visit_free >>= λ r. or_next r (λ (place : ℕ × ℕ). pure place) fail

-- `memcmp(...) == 0`, for the first `n` bytes of a name
unfoldable pub same_bytes : ℕ → Bytes → ℕ → Bytes → ℕ → Bool
same_bytes zero a at b at' = true
same_bytes (suc n) a at b at' = (a at == b at') && same_bytes n a (at + 1) b (at' + 1)

abbrev pub first_cluster_of : Bytes → ℕ → ℕ
first_cluster_of b off =
    b (off + 26) + b (off + 27) * 0x100 + b (off + 20) * 0x1_0000 + b (off + 21) * 0x100_0000

-- The entry of a file by its name: `none` ends the directory.
abbrev pub visit_file : Bytes → Bytes → ℕ → Visit (Option (Bytes × ℕ))
visit_file name b off =
    if b off == 0
    then stop none
    else if b off == 0xe5
    then next
    else if not (bit_and (b (off + 11)) 0x18 == 0)
    then next
    else if same_bytes 11 b off name 0
    then stop (some (b, off))
    else next

-- The sector of the file's entry, what is in it, and the offset.
abbrev pub entry_of_file : Visit (ℕ × Option (Bytes × ℕ)) → Io (ℕ × (Bytes × ℕ))
entry_of_file next = fail
entry_of_file (stop (lba, none)) = fail
entry_of_file (stop (lba, some place)) = pure (lba, place)

unfoldable pub find_file : Device → Fs → Bytes → Io (ℕ × (Bytes × ℕ))
find_file d fs name = walk_root d fs (visit_file name) >>= entry_of_file

-- The first cluster and the size.
unfoldable pub find_file_dir_entry : Device → Fs → Bytes → Io (ℕ × ℕ)
find_file_dir_entry d fs name =
    find_file d fs name >>= λ (lba, (b, off)). pure (first_cluster_of b off, get_le 4 b (off + 28))

pub fat32_delete_file : Device → Fs → Bytes → Io (Unit {0})
fat32_delete_file d fs name = find_file d fs name >>= λ (lba, (b, off)).
    (write_sector d fs lba (update b off 0xe5) >>= λ done s.
    let first = first_cluster_of b off in
    (some tt, if first == 0 then s else fat_free_chain d fs first s))
