-- ===== src/Fat/File.antt =====
-- The files of system/fat32.c.
pub mod Grow
pub mod Undo
pub mod Contents
pub mod Chained
pub mod RoundTrip
pub mod NewEntry
pub mod Success
pub mod Whole
use memtest86plus.Base.{
  ℕ, zero, suc, ◌+◌, ◌-◌, ◌*◌, ◌/◌, ◌%◌, ◌^◌, Bool, true, false, ◌&&◌, not, ltb, leb, ◌==◌,
  if◌then◌else◌, Option, none, some, add32, sub32, mul32,
}
use memtest86plus.Base.Family.{update}
use memtest86plus.Base.Bytes.{Bytes, put_le}
use memtest86plus.Fat.{
  Fs, Device, Store, Io, pure, fail, proceed, ◌>>=◌, ◌>>◌, is_valid_cluster, cluster_to_lba,
  read_sector, write_sector, fat_read_entry, fat_write_entry, fat_alloc_cluster, fat_free_chain,
}
use memtest86plus.Fat.Directory.{dir_entry_size, find_free_dir_entry, find_file_dir_entry}

-- What follows an operation, for a failure and for a result.
abbrev pub handle : {A B : Type 0} → Option A × Store → (Store → B) → (A → Store → B) → B
handle (none, s) failed done = failed s
handle (some a, s) failed done = done a s

-- The new cluster becomes the successor of the one before it.
abbrev pub link_to : Device → Fs → ℕ → ℕ → Io (Unit {0})
link_to d fs prev cluster = if prev == 0 then pure tt else fat_write_entry d fs prev cluster

-- The loop of `fat32_write_file` that allocates the clusters, with the rounds left: whether it succeeds,
-- and `first_cluster`.
unfoldable pub alloc_clusters : Device → Fs → ℕ → ℕ → ℕ → Store → (Bool × ℕ) × Store
alloc_clusters d fs zero first prev s = ((true, first), s)
alloc_clusters d fs (suc left) first prev s =
    handle (fat_alloc_cluster d fs s) (λ s'. ((false, first), s'))
      (λ cluster s'.
        let first' = if first == 0 then cluster else first in
        handle (link_to d fs prev cluster s') (λ s''. ((false, first'), s''))
          (λ done s''. alloc_clusters d fs left first' cluster s''))

-- The sector buffer with the bytes of the file from `pos` on, and zeros behind its end.
abbrev pub filled : Bytes → ℕ → ℕ → Bytes
filled content pos n i = if ltb i n then content (pos + i) else 0

-- The loop over the sectors of a cluster, at sector `i`: the new position, and what remains.
unfoldable pub write_cluster : Device → Fs → Bytes → ℕ → ℕ → ℕ → ℕ → ℕ → Io (ℕ × ℕ)
write_cluster d fs content lba zero i pos remaining = pure (pos, remaining)
write_cluster d fs content lba (suc left) i pos remaining =
    if remaining == 0
    then pure (pos, remaining)
    else (let n = if ltb remaining fs.bytes_per_sector then remaining else fs.bytes_per_sector in
        write_sector d fs (add32 lba i) (filled content pos n)
        >> write_cluster d fs content lba left (i + 1) (pos + n) (remaining - n))

-- The loop over the clusters of the file, with the rounds left: what remains. A round writes at least one
-- byte, so that the size of the file is enough rounds.
unfoldable pub write_data : Device → Fs → Bytes → ℕ → ℕ → ℕ → ℕ → Io ℕ
write_data d fs content zero cluster pos remaining = pure remaining
write_data d fs content (suc left) cluster pos remaining =
    if ltb 0 remaining && is_valid_cluster fs cluster
    then (write_cluster d fs content (cluster_to_lba fs cluster) fs.sectors_per_cluster 0 pos
          remaining
        >>= λ (pos', remaining') s.
            (let (link, s') = fat_read_entry d fs cluster s in
              write_data d fs content left link pos' remaining' s'))
    else pure remaining

-- `memset(b + at, 0, n)`
unfoldable pub clear_bytes : ℕ → Bytes → ℕ → Bytes
clear_bytes zero b at = b
clear_bytes (suc n) b at = clear_bytes n (update b at 0) (at + 1)

-- `memcpy(b + at, name + from, n)`
unfoldable pub copy_bytes : ℕ → Bytes → ℕ → Bytes → ℕ → Bytes
copy_bytes zero name from b at = b
copy_bytes (suc n) name from b at = copy_bytes n name (from + 1) (update b at (name from)) (at + 1)

-- The sector with the new entry at the offset `off`.
unfoldable pub with_entry : Bytes → ℕ → Bytes → ℕ → ℕ → Bytes
with_entry b off name first size =
    let named = copy_bytes 11 name 0 (clear_bytes dir_entry_size b off) off in
    let attributes = update named (off + 11) 0x20 in
    let high =
      update (update attributes (off + 20) (first / 0x1_0000 % 0x100)) (off + 21)
        (first / 0x100_0000 % 0x100) in
    let low = update (update high (off + 26) (first % 0x100)) (off + 27) (first / 0x100 % 0x100) in
    put_le 4 size low (off + 28)

-- The part of `fat32_write_file` behind the allocation.
unfoldable pub write_contents : Device → Fs → Bytes → Bytes → ℕ → ℕ → Io (Unit {0})
write_contents d fs name content size first =
    write_data d fs content size first 0 size >>= λ remaining.
    if not (remaining == 0)
    then fail
    else (find_free_dir_entry d fs >>= λ (lba, off).
        (read_sector d fs lba >>= λ b. write_sector d fs lba (with_entry b off name first size)))

-- The label `fail`: the clusters of the file are given back.
abbrev pub give_back : Device → Fs → ℕ → Store → Bool × Store
give_back d fs first s = (false, if first == 0 then s else fat_free_chain d fs first s)

-- The number of clusters that a file of this size takes.
abbrev pub clusters_for : Fs → ℕ → ℕ
clusters_for fs size =
    let cluster_size = mul32 fs.sectors_per_cluster fs.bytes_per_sector in
    sub32 (add32 size cluster_size) 1 / cluster_size

abbrev pub after_alloc : Device → Fs → Bytes → Bytes → ℕ → (Bool × ℕ) × Store → Bool × Store
after_alloc d fs name content size ((false, first), s) = give_back d fs first s
after_alloc d fs name content size ((true, first), s) =
    handle (write_contents d fs name content size first s) (give_back d fs first)
      (λ done s'. (true, s'))

unfoldable pub fat32_write_file : Device → Fs → Bytes → Bytes → ℕ → Store → Bool × Store
fat32_write_file d fs name content size s =
    if size == 0
    then (false, s)
    else after_alloc d fs name content size (alloc_clusters d fs (clusters_for fs size) 0 0 s)

-- The loop of `fat32_read_file` over the sectors of a cluster: the buffer `out`, the position in it, and
-- what remains.
unfoldable pub read_cluster : Device → Fs → ℕ → ℕ → ℕ → Bytes → ℕ → ℕ → Io (Bytes × (ℕ × ℕ))
read_cluster d fs lba zero i out pos remaining = pure (out, (pos, remaining))
read_cluster d fs lba (suc left) i out pos remaining =
    if remaining == 0
    then pure (out, (pos, remaining))
    else (let n = if ltb remaining fs.bytes_per_sector then remaining else fs.bytes_per_sector in
        read_sector d fs (add32 lba i) >>= λ b.
        read_cluster d fs lba left (i + 1) (copy_bytes n b 0 out pos) (pos + n) (remaining - n))

unfoldable pub read_data : Device → Fs → ℕ → ℕ → Bytes → ℕ → ℕ → Io Bytes
read_data d fs zero cluster out pos remaining = pure out
read_data d fs (suc left) cluster out pos remaining =
    if ltb 0 remaining && is_valid_cluster fs cluster
    then (read_cluster d fs (cluster_to_lba fs cluster) fs.sectors_per_cluster 0 out pos remaining
        >>= λ (out', (pos', remaining')) s.
            (let (link, s') = fat_read_entry d fs cluster s in
              read_data d fs left link out' pos' remaining' s'))
    else pure out

-- The buffer and the size of the file. The buffer is not NULL.
unfoldable pub fat32_read_file : Device → Fs → Bytes → Bytes → ℕ → Io (Bytes × ℕ)
fat32_read_file d fs name out max_size = find_file_dir_entry d fs name >>= λ (first, size).
    if size == 0
    then pure (out, size)
    else if max_size == 0
    then fail
    else (let remaining = if ltb max_size size then max_size else size in
        read_data d fs remaining first out 0 remaining >>= λ out'. pure (out', size))
