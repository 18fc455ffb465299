-- ===== src/Fat/Layout.antt =====
-- Where the file allocation table of system/fat32.c lies on the disk.
use memtest86plus.Base.{
  ℕ, suc, ◌+◌, ◌*◌, ◌/◌, ◌%◌, ◌^◌, ◌≤◌, ◌<◌, ◌≡◌, ◌≢◌, ◌⊎◌, inl, inr, sym, ap, arith, if◌then◌else◌,
  ◌==◌, add32, mul32,
}
use native.Mathlib.Nat.{mul-le-mul_right, suc-mul, div-add-mod, div-lt_iff_lt-mul}
use native.Mathlib.Decide.{dec_lt}
use memtest86plus.Fat.{Fs}

-- The bytes of an entry of the table.
abbrev pub width : Fs → ℕ
width fs = if fs.fat_type == 32 then 4 else 2

-- What a sound volume guarantees: the copies of the table have room for an entry of each cluster, and the
-- table, the root directory and the data follow one another within 2^32 sectors of the disk.
pub record IsLayout (fs : Fs) : Type 0 where
  pub kind : (fs.fat_type ≡ 16) ⊎ (fs.fat_type ≡ 32)
  pub sector_bytes : 0 < fs.bytes_per_sector
  pub copies : 0 < fs.num_fats
  pub clusters : fs.max_cluster ≤ 0x0fff_fff7
  pub fat16_clusters : fs.fat_type ≢ 32 → fs.max_cluster ≤ 0xffff
  pub room : fs.max_cluster * width fs ≤ fs.sectors_per_fat * fs.bytes_per_sector
  pub table_end : fs.fat_start_lba + fs.num_fats * fs.sectors_per_fat ≤ fs.root_dir_lba
  pub root_end : fs.root_dir_lba + fs.root_dir_sectors ≤ fs.data_start_lba
  pub data_end :
      fs.partition_lba + fs.data_start_lba + fs.max_cluster * fs.sectors_per_cluster < 2 ^ 32

-- The byte of an entry in its copy of the table, by its sector there and its place in the sector.
abbrev pub row : Fs → ℕ → ℕ
row fs cluster = mul32 cluster (width fs) / fs.bytes_per_sector

abbrev pub place : Fs → ℕ → ℕ
place fs cluster = mul32 cluster (width fs) % fs.bytes_per_sector

-- The sector of a row of a copy, on the disk.
abbrev pub copy_sector : Fs → ℕ → ℕ → ℕ
copy_sector fs fat r =
    add32 fs.partition_lba (add32 (add32 fs.fat_start_lba (mul32 fat fs.sectors_per_fat)) r)

-- The same for the first copy, as it is read.
abbrev pub home : Fs → ℕ → ℕ
home fs r = add32 fs.partition_lba (add32 fs.fat_start_lba r)

-- Within a row the offsets are as far apart as in the table.
one_before : (bps w a b : ℕ) → a / bps ≡ b / bps → a + w ≤ b → a % bps + w ≤ b % bps
one_before bps w a b e h =
    omega (arith, h, div-add-mod a bps, div-add-mod b bps, ap (λ q. bps * q) e)

module _ {fs : Fs} (v : IsLayout fs) where
  width-cases : (width fs ≡ 4) ⊎ (width fs ≡ 2)
  width-cases = ground arith

  no_wrap : (c : ℕ) → c < fs.max_cluster → mul32 c (width fs) ≡ c * width fs
  no_wrap c h =
      let clusters = v.clusters in
      elim width-cases [ inl e ↦ rw e (omega arith) | inr e ↦ rw e (omega arith) ]

  pub row-lt : (c : ℕ) → c < fs.max_cluster → row fs c < fs.sectors_per_fat
  row-lt c h =
      let positive : 0 < width fs = ground arith in
      rw (no_wrap c h) (
        (div-lt_iff_lt-mul v.sector_bytes).1
          (omega (arith, v.room, positive, suc-mul c (width fs), mul-le-mul_right (width fs) h)))

  -- Entries of different clusters do not overlap.
  pub places_apart :
      (c c' : ℕ)
      → c < fs.max_cluster
      → c' < fs.max_cluster
      → c ≢ c'
      → row fs c ≡ row fs c'
      → (place fs c + width fs ≤ place fs c') ⊎ (place fs c' + width fs ≤ place fs c)
  places_apart c c' h h' ne e =
      let start = no_wrap c h in
      let start' = no_wrap c' h' in
      elim (dec_lt c c') [
        | yes before ↦ inl (
            one_before fs.bytes_per_sector (width fs) (mul32 c (width fs)) (mul32 c' (width fs)) e (
              omega
                (arith, start, start', suc-mul c (width fs), mul-le-mul_right (width fs) before)))
        | no behind ↦
            let before : c' < c = omega arith in
            inr (
              one_before fs.bytes_per_sector (width fs) (mul32 c' (width fs)) (mul32 c (width fs))
                (sym e)
                (omega (
                  arith,
                  start,
                  start',
                  suc-mul c' (width fs),
                  mul-le-mul_right (width fs) before,
                )))
      ]

  pub copy_sector-eq :
      (fat r : ℕ)
      → fat < fs.num_fats
      → r < fs.sectors_per_fat
      → (copy_sector fs fat r ≡ fs.partition_lba + fs.fat_start_lba + fat * fs.sectors_per_fat + r)
        × (fs.fat_start_lba + fat * fs.sectors_per_fat + r < fs.root_dir_lba)
  copy_sector-eq fat r h k =
      let copies : suc fat * fs.sectors_per_fat ≤ fs.num_fats * fs.sectors_per_fat =
        mul-le-mul_right fs.sectors_per_fat h in
      let one_more : suc fat * fs.sectors_per_fat ≡ fs.sectors_per_fat + fat * fs.sectors_per_fat =
        omega (arith, suc-mul fat fs.sectors_per_fat) in
      let before : fs.fat_start_lba + fat * fs.sectors_per_fat + r < fs.root_dir_lba =
        omega (arith, v.table_end) in
      (omega (arith, v.root_end, v.data_end), before)

  -- A later copy of the table lies behind the first one.
  pub copy_apart :
      (fat r r' : ℕ)
      → 0 < fat
      → fat < fs.num_fats
      → r < fs.sectors_per_fat
      → r' < fs.sectors_per_fat
      → copy_sector fs 0 r' ≢ copy_sector fs fat r
  copy_apart fat r r' positive h k k' e = omega (
    arith,
    e,
    (copy_sector-eq fat r h k).0,
    (copy_sector-eq 0 r' v.copies k').0,
    mul-le-mul_right fs.sectors_per_fat positive,
  )
