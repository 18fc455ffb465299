-- ===== src/Fat/File/Chained.antt =====
-- The loops over the clusters of a file in system/fat32.c, along a chain.
use memtest86plus.Base.{
  ℕ, zero, suc, ◌+◌, ◌-◌, ◌*◌, ◌≤◌, ◌<◌, ◌≡◌, inl, refl, sym, ◌∙◌, ap, arith, true, some, sub32,
  ◌&&◌, ltb, List, [], ◌∷◌, length,
}
use mathlib.Core.Path.{subst}
use native.Mathlib.Nat.{mul-le-mul_right, suc-mul}
use memtest86plus.Base.Bytes.{Bytes}
use memtest86plus.Fat.{Fs, Device, Store, counted, is_valid_cluster, cluster_to_lba}
use memtest86plus.Fat.Layout.{IsLayout, row, home, row-lt, copy_sector-eq}
use memtest86plus.Fat.Copies.{IsSound}
use memtest86plus.Fat.Entry.{entry, entry-ext, home-eq, fat_read_entry_lem}
use memtest86plus.Fat.Chain.{Leads, Leads-bounds, last-IsOn}
use memtest86plus.Fat.File.{write_data, read_data}
use memtest86plus.Fat.File.Undo.{cluster_bounds}
use memtest86plus.Fat.File.Contents.{
  taken, SectorsHold, SectorsHold-ext, Agree, write_cluster_lem, read_cluster_lem,
}

-- The bytes of the contents from `pos` on, as many as remain, stand in the clusters from `c` on that
-- follow one another in the table.
pub data Holds (fs : Fs) (content : Bytes) (table : ℕ → ℕ) (disk : ℕ → Bytes)
    : ℕ → ℕ → ℕ → Type 0 where
  finished : (c pos : ℕ) → Holds fs content table disk c pos 0
  more :
      (c pos r : ℕ)
      → is_valid_cluster fs c ≡ true
      → SectorsHold fs content disk (cluster_to_lba fs c) fs.sectors_per_cluster 0 pos (suc r)
      → Holds fs content table disk
          (table c)
          (pos + taken fs fs.sectors_per_cluster (suc r))
          (suc r - taken fs fs.sectors_per_cluster (suc r))
      → Holds fs content table disk c pos (suc r)

module _ (d : Device) (sound : IsSound d) {fs : Fs} (v : IsLayout fs)
    (positive : 0 < fs.sectors_per_cluster) (content : Bytes) (table : ℕ → ℕ) where
  -- The disk has this table.
  abbrev pub HasTable : (ℕ → Bytes) → Type 0
  HasTable disk = (x : ℕ) → x < fs.max_cluster → entry fs disk x ≡ table x

  taken-positive : (r : ℕ) → 0 < taken fs fs.sectors_per_cluster (suc r)
  taken-positive r = ground (arith, v.sector_bytes, mul-le-mul_right fs.bytes_per_sector positive)

  taken-le : (r : ℕ) → taken fs fs.sectors_per_cluster r ≤ r
  taken-le r = ground arith

  -- The clusters behind the first one are enough for what remains.
  taken-fits :
      (n r : ℕ)
      → suc r ≤ suc n * (fs.sectors_per_cluster * fs.bytes_per_sector)
      → suc r - taken fs fs.sectors_per_cluster (suc r)
        ≤ n * (fs.sectors_per_cluster * fs.bytes_per_sector)
  taken-fits n r h = ground (arith, h, suc-mul n (fs.sectors_per_cluster * fs.bytes_per_sector))

  write_data-none :
      (left c pos : ℕ) (s : Store) → write_data d fs content left c pos 0 s ≡ (some 0, s)
  unfolding write_data
  write_data-none zero c pos s = refl
  write_data-none (suc left) c pos s = refl

  pub cluster_to_lba-eq :
      (c : ℕ)
      → 2 ≤ c
      → c < fs.max_cluster
      → cluster_to_lba fs c ≡ fs.data_start_lba + (c - 2) * fs.sectors_per_cluster
  cluster_to_lba-eq c low high =
      let index : sub32 c 2 ≡ c - 2 = omega (arith, v.clusters) in
      let in_area : (c - 2) * fs.sectors_per_cluster ≤ fs.max_cluster * fs.sectors_per_cluster =
        mul-le-mul_right fs.sectors_per_cluster (omega arith) in
      rw index (omega (arith, v.data_end))

  pub Holds-ext :
      (a b : ℕ → Bytes) (c pos remaining : ℕ)
      → ((x : ℕ) → fs.partition_lba + fs.data_start_lba ≤ x → b x ≡ a x)
      → Holds fs content table a c pos remaining
      → Holds fs content table b c pos remaining
  Holds-ext a b c pos zero same hold = finished c pos
  Holds-ext a b c pos (suc r) same (more _ _ _ valid hold rest) =
      let (low, high) : (2 ≤ c) × (c < fs.max_cluster) =
        (ground (arith, valid), ground (arith, valid)) in
      let start = cluster_to_lba-eq c low high in
      more c pos r valid
        (SectorsHold-ext fs content a b (cluster_to_lba fs c) fs.sectors_per_cluster 0 pos (suc r)
          (λ x le l. same x (omega (arith, le, start))) hold)
        (Holds-ext a b (table c) (pos + taken fs fs.sectors_per_cluster (suc r))
          (suc r - taken fs fs.sectors_per_cluster (suc r)) same rest)

  -- A cluster lies behind those before it.
  ascending :
      (c c' : ℕ)
      → 2 ≤ c
      → c < c'
      → c' < fs.max_cluster
      → cluster_to_lba fs c + fs.sectors_per_cluster ≤ cluster_to_lba fs c'
  ascending c c' low up below =
      let apart : suc (c - 2) * fs.sectors_per_cluster ≤ (c' - 2) * fs.sectors_per_cluster =
        mul-le-mul_right fs.sectors_per_cluster (omega arith) in
      omega (
        arith,
        cluster_to_lba-eq c low (omega arith),
        cluster_to_lba-eq c' (omega arith) below,
        suc-mul (c - 2) fs.sectors_per_cluster,
      )

  -- A disk that is the same in front of a cluster has the same table.
  pub HasTable-before :
      (a b : ℕ → Bytes) (c : ℕ)
      → is_valid_cluster fs c ≡ true
      → ((x : ℕ) → x < fs.partition_lba + cluster_to_lba fs c → b x ≡ a x)
      → HasTable a
      → HasTable b
  HasTable-before a b c valid same has x h =
      let mine = row-lt v x h in
      let (at_home, inside) = copy_sector-eq v 0 (row fs x) v.copies mine in
      let (low, high) = cluster_bounds d sound v c valid in
      entry-ext fs b a x
        (same (home fs (row fs x)) (omega (arith, home-eq v (row fs x) mine, at_home, inside)))
      ∙ has x h

  -- What the loop over the clusters leaves behind: all of the contents, and the disk in front of a bound
  -- as it was.
  abbrev pub Written : ℕ → ℕ → ℕ → ℕ → ℕ → Store → Type 0
  Written bound left c pos remaining s =
      (s' : Store) × (write_data d fs content left c pos remaining s ≡ (some 0, s'))
      × Holds fs content table s'.disk c pos remaining
      × ((x : ℕ) → x < bound → s'.disk x ≡ s.disk x)

  Written-none : (bound left c pos : ℕ) (s : Store) → Written bound left c pos 0 s
  Written-none bound left c pos s = (s, write_data-none left c pos s, finished c pos, λ x h. refl)

  -- A cluster's first sector on the disk.
  abbrev pub sector : ℕ → ℕ
  sector c = fs.partition_lba + cluster_to_lba fs c

  -- A round of the loop, when the rest is written behind the cluster.
  Written-more :
      (left c pos r : ℕ) (s : Store)
      → 2 ≤ c
      → c < fs.max_cluster
      → HasTable s.disk
      → ((s1 : Store)
          → HasTable s1.disk
          → Written
              (sector c + fs.sectors_per_cluster)
              left
              (table c)
              (pos + taken fs fs.sectors_per_cluster (suc r))
              (suc r - taken fs fs.sectors_per_cluster (suc r))
              s1)
      → Written (sector c) (suc left) c pos (suc r) s
  unfolding write_data
  Written-more left c pos r s low high has others =
      let valid : is_valid_cluster fs c ≡ true = ground arith in
      let go_on : (ltb 0 (suc r) && is_valid_cluster fs c) ≡ true = ground (arith, valid) in
      let (behind, inside) = cluster_bounds d sound v c valid in
      let (s1, done, hold, same) =
        write_cluster_lem fs content d sound (cluster_to_lba fs c) fs.sectors_per_cluster 0 pos
          (suc r) s (omega (arith, inside)) in
      let has1 =
        HasTable-before s.disk s1.disk c valid (λ x h. same x (inl (omega (arith, h)))) has in
      let (s2, done', hold', same') = others (counted s1) has1 in
      (
        s2,
        rw (go_on, done, fat_read_entry_lem d sound fs c s1, has1 c high) done',
        more c pos r valid
            (SectorsHold-ext fs content s1.disk s2.disk (cluster_to_lba fs c) fs.sectors_per_cluster
              0 pos (suc r) (λ x le l. same' x (omega (arith, l))) hold)
            hold',
        λ x h. same' x (omega (arith, h)) ∙ same x (inl (omega (arith, h))),
      )

  pub write_data_lem :
      (xs : List ℕ) (last left c pos remaining : ℕ) (s : Store)
      → Leads table c xs last
      → 2 ≤ c
      → last < fs.max_cluster
      → HasTable s.disk
      → remaining ≤ suc (length xs) * (fs.sectors_per_cluster * fs.bytes_per_sector)
      → remaining ≤ left
      → Written (sector c) left c pos remaining s
  write_data_lem xs last left c pos zero s leads low high has fit enough =
      Written-none (sector c) left c pos s
  write_data_lem xs last zero c pos (suc r) s leads low high has fit enough =
      absurd (omega (arith, enough))
  write_data_lem [] last (suc left) c pos (suc r) s leads low high has fit enough =
      Written-more left c pos r s low (omega (arith, leads)) has (λ s1 has1.
        let all : suc r - taken fs fs.sectors_per_cluster (suc r) ≡ 0 =
          omega (arith, taken-fits 0 r fit) in
        rw all (
          Written-none (sector c + fs.sectors_per_cluster) left (table c)
            (pos + taken fs fs.sectors_per_cluster (suc r)) s1))
  write_data_lem (x ∷ xs) last (suc left) c pos (suc r) s (e, up, leads) low high has fit enough =
      let (above, below) = Leads-bounds table (table x) xs last last leads (last-IsOn xs last) in
      Written-more left c pos r s low (omega (arith, e)) has (λ s1 has1.
        let at_x : table c ≡ table x = ap table e in
        let (s2, done, hold, same) =
          write_data_lem xs last left (table c) (pos + taken fs fs.sectors_per_cluster (suc r))
            (suc r - taken fs fs.sectors_per_cluster (suc r)) s1
            (subst (λ t. Leads table t xs last) (sym at_x) leads) (omega (arith, e, at_x)) high has1
            (taken-fits (suc (length xs)) r fit) (omega (arith, enough, taken-positive r)) in
        (
          s2,
          done,
          hold,
          λ y h. same y (
              omega (
                arith,
                h,
                ascending c (table c) low (omega (arith, e, at_x)) (omega (arith, at_x)),
              )),
        ))

  -- The loop of `fat32_read_file` leaves the contents in the buffer.
  pub read_data_lem :
      (left c pos remaining : ℕ) (out : Bytes) (s : Store)
      → Holds fs content table s.disk c pos remaining
      → HasTable s.disk
      → remaining ≤ left
      → Agree content out pos
      → (out' : Bytes) × (s' : Store) × (read_data d fs left c out pos remaining s
          ≡ (some out', s'))
        × Agree content out' (pos + remaining)
  unfolding read_data
  read_data_lem zero c pos zero out s hold has enough agree =
      (out, s, refl, λ k h. agree k (omega (arith, h)))
  read_data_lem (suc left) c pos zero out s hold has enough agree =
      (out, s, refl, λ k h. agree k (omega (arith, h)))
  read_data_lem zero c pos (suc r) out s hold has enough agree = absurd (omega (arith, enough))
  read_data_lem (suc left) c pos (suc r) out s (more _ _ _ valid hold rest) has enough agree =
      let go_on : (ltb 0 (suc r) && is_valid_cluster fs c) ≡ true = ground (arith, valid) in
      let (behind, inside) = cluster_bounds d sound v c valid in
      let (out1, s1, done, same, agree1) =
        read_cluster_lem fs content d sound (cluster_to_lba fs c) fs.sectors_per_cluster 0 out pos
          (suc r) s (omega (arith, inside)) hold agree in
      let has1 : HasTable s1.disk =
        λ x h. ap (λ (disk : ℕ → Bytes). entry fs disk x) same ∙ has x h in
      let (low, high) : (2 ≤ c) × (c < fs.max_cluster) =
        (ground (arith, valid), ground (arith, valid)) in
      let n = taken fs fs.sectors_per_cluster (suc r) in
      let rest1 =
        subst (λ disk. Holds fs content table disk (table c) (pos + n) (suc r - n)) (sym same)
          rest in
      let (out2, s2, done', agree2) =
        read_data_lem left (table c) (pos + n) (suc r - n) out1 (counted s1) rest1 has1
          (omega (arith, enough, taken-positive r)) agree1 in
      (
        out2,
        s2,
        rw (go_on, done, fat_read_entry_lem d sound fs c s1, has1 c high) done',
        λ k h. agree2 k (omega (arith, h, taken-le (suc r))),
      )
