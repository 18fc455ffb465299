-- ===== src/Fat/Volume/Bounds.antt =====
-- What the checks of `parse_fat_bpb` in system/fat32.c guarantee.
use memtest86plus.Base.{
  ℕ, suc, ◌+◌, ◌-◌, ◌*◌, ◌^◌, ◌≤◌, ◌<◌, ◌≡◌, ◌≢◌, inl, inr, arith, true, Bool-cases, ◌==◌,
  if◌then◌else◌, some, none, add32, sub32,
}
use native.Mathlib.Nat.{mul-le-mul_right, suc-mul, div-mul-le_self}
use mathlib.Core.Path.{subst}
use memtest86plus.Base.Bytes.{Bytes, get_le, get_le-lt}
use memtest86plus.Fat.{Fs, is_valid_cluster, cluster_to_lba}
use memtest86plus.Fat.Layout.{IsLayout}
use memtest86plus.Fat.Volume.{
  sectors_per_fat_of, total_sectors, root_dir_sectors_of, data_start_of, count_clusters,
  fat_type_of, is_fat_bpb, context, parse_fat_bpb,
}

abbrev pub AreBytes : Bytes → Type 0
AreBytes b = (i : ℕ) → b i < 256

-- The checks that the bounds rest on.
pub record IsChecked (b : Bytes) : Type 0 where
  pub sector_bytes : get_le 2 b 11 ≢ 0
  pub sectors_per_cluster : b 13 ≢ 0
  pub data_start : data_start_of b < total_sectors b
  pub clusters : 4085 ≤ count_clusters b

is_fat_bpb-IsChecked : (block_size : ℕ) (b : Bytes) → is_fat_bpb block_size b ≡ true → IsChecked b
unfolding is_fat_bpb
is_fat_bpb-IsChecked block_size b h = record {
  sector_bytes = ground (arith, h);
  sectors_per_cluster = ground (arith, h);
  data_start = ground (arith, h);
  clusters = ground (arith, h);
}

total_sectors-lt : (b : Bytes) → AreBytes b → total_sectors b < 2 ^ 32
total_sectors-lt b bytes = ground (arith, get_le-lt 2 b 19 bytes, get_le-lt 4 b 32 bytes)

-- The sectors of a cluster of the volume that is counted.
module _ (b : Bytes) (bytes : AreBytes b) (ok : IsChecked b) where
  clusters_fit : count_clusters b * b 13 ≤ total_sectors b - data_start_of b
  clusters_fit =
      let total = total_sectors-lt b bytes in
      let no_wrap : sub32 (total_sectors b) (data_start_of b) ≡ total_sectors b - data_start_of b =
        omega (arith, ok.data_start) in
      rw no_wrap (div-mul-le_self (total_sectors b - data_start_of b) (b 13))

  -- Each valid cluster lies between the start of the data and the end of the volume.
  cluster-inside :
      (block_size partition_lba c : ℕ)
      → is_valid_cluster (context block_size partition_lba b) c ≡ true
      → (data_start_of b ≤ cluster_to_lba (context block_size partition_lba b) c)
        × (cluster_to_lba (context block_size partition_lba b) c + b 13 ≤ total_sectors b)
  unfolding context
  cluster-inside block_size partition_lba c valid =
      let total = total_sectors-lt b bytes in
      let per_cluster : 1 ≤ b 13 = omega (arith, ok.sectors_per_cluster) in
      let (low, high) : (2 ≤ c) × (c < add32 (count_clusters b) 2) =
        (ground (arith, valid), ground (arith, valid)) in
      let within : suc (c - 2) ≤ count_clusters b = omega arith in
      let index : sub32 c 2 ≡ c - 2 = omega arith in
      let inside : suc (c - 2) * b 13 ≤ count_clusters b * b 13 = mul-le-mul_right (b 13) within in
      let size = suc-mul (c - 2) (b 13) in
      rw index
        (omega (arith, clusters_fit, ok.data_start), omega (arith, clusters_fit, ok.data_start))

-- The context comes from a boot sector that passes the checks.
parsed :
    (block_size partition_lba : ℕ) (b : Bytes) (fs : Fs)
    → parse_fat_bpb block_size partition_lba b ≡ some fs
    → (context block_size partition_lba b ≡ fs) × IsChecked b
unfolding parse_fat_bpb
parsed block_size partition_lba b fs h = elim (Bool-cases (is_fat_bpb block_size b)) [
  | inl ok ↦
      let e : some (context block_size partition_lba b) ≡ some fs = rw ok at h in
      (cc e, is_fat_bpb-IsChecked block_size b ok)
  | inr bad ↦ let e : none ≡ some fs = rw bad at h in cc e
]

-- Whatever boot sector `parse_fat_bpb` accepts, every sector of each valid cluster lies at or behind
-- `data_start_lba`, which is computed in 32 bits and may have wrapped, and before the end of the volume.
pub parse_fat_bpb_bounds :
    (block_size partition_lba : ℕ) (b : Bytes) (fs : Fs) (c : ℕ)
    → AreBytes b
    → parse_fat_bpb block_size partition_lba b ≡ some fs
    → is_valid_cluster fs c ≡ true
    → (fs.data_start_lba ≤ cluster_to_lba fs c)
      × (cluster_to_lba fs c + fs.sectors_per_cluster ≤ total_sectors b)
unfolding context
parse_fat_bpb_bounds block_size partition_lba b fs c bytes h valid =
    let (e, ok) = parsed block_size partition_lba b fs h in
    subst
      (λ (g : Fs).
        is_valid_cluster g c ≡ true
        → (g.data_start_lba ≤ cluster_to_lba g c)
          × (cluster_to_lba g c + g.sectors_per_cluster ≤ total_sectors b))
      e (cluster-inside b bytes ok block_size partition_lba c) valid

-- What `parse_fat_bpb` does not check: the table has copies, with room for an entry of each cluster, and
-- the areas of the volume are not so large that their sizes wrap.
pub record IsRoomy (partition_lba : ℕ) (b : Bytes) : Type 0 where
  pub copies : 0 < b 16
  pub clusters : count_clusters b + 2 ≤ 0x0fff_fff7
  pub room :
      (count_clusters b + 2) * (if fat_type_of b == 32 then 4 else 2)
      ≤ sectors_per_fat_of b * get_le 2 b 11
  pub areas : get_le 2 b 14 + b 16 * sectors_per_fat_of b + root_dir_sectors_of b < 2 ^ 32
  pub disk_end : partition_lba + total_sectors b + b 13 + b 13 < 2 ^ 32

-- With that, the volume is as sound as the operations on it need it.
pub parse_fat_bpb-IsLayout :
    (block_size partition_lba : ℕ) (b : Bytes) (fs : Fs)
    → AreBytes b
    → IsRoomy partition_lba b
    → parse_fat_bpb block_size partition_lba b ≡ some fs
    → IsLayout fs
unfolding context
parse_fat_bpb-IsLayout block_size partition_lba b fs bytes roomy h =
    let (e, ok) = parsed block_size partition_lba b fs h in
    let max : add32 (count_clusters b) 2 ≡ count_clusters b + 2 = omega (arith, roomy.clusters) in
    let clusters = suc-mul (suc (count_clusters b)) (b 13) in
    let clusters' = suc-mul (count_clusters b) (b 13) in
    subst IsLayout e (record {
      kind = ground arith;
      sector_bytes = omega (arith, ok.sector_bytes);
      copies = roomy.copies;
      clusters = omega (arith, roomy.clusters);
      fat16_clusters = λ not32. ground (arith, not32);
      room = rw max roomy.room;
      table_end = omega (arith, roomy.areas);
      root_end = omega (arith, roomy.areas);
      data_end = rw max (
          omega
            (arith, clusters, clusters', clusters_fit b bytes ok, ok.data_start, roomy.disk_end));
    })
