-- ===== src/Fat/File/RoundTrip.antt =====
-- The data of a file in system/fat32.c: what `fat32_write_file` writes along a chain of clusters is what
-- `fat32_read_file` reads along it.
use memtest86plus.Base.{
  ℕ, suc, ◌+◌, ◌-◌, ◌*◌, ◌/◌, ◌^◌, ◌≤◌, ◌<◌, ◌≡◌, refl, sym, ◌∙◌, ap, arith, Bool, true, some,
  add32, sub32, mul32, length,
}
use mathlib.Core.Path.{subst}
use native.Mathlib.Nat.{mul-le-mul_right, div-add-mod, mod-lt, mul_comm}
use native.Mathlib.Decide.{dec_lt}
use memtest86plus.Base.Bytes.{Bytes}
use memtest86plus.Fat.{Fs, Device, Store, is_valid_cluster, cluster_to_lba}
use memtest86plus.Fat.Layout.{IsLayout}
use memtest86plus.Fat.Copies.{IsSound}
use memtest86plus.Fat.Entry.{entry}
use memtest86plus.Fat.Chain.{Leads-bounds, last-IsOn}
use memtest86plus.Fat.File.{alloc_clusters, clusters_for, write_data, read_data}
use memtest86plus.Fat.File.Grow.{IsGrown, Grows, gives_up, completes, alloc_clusters_lem}
use memtest86plus.Fat.File.Contents.{Agree}
use memtest86plus.Fat.File.Chained.{Holds, write_data_lem, read_data_lem}

module _ (fs : Fs) (sector_bytes : 0 < fs.bytes_per_sector) (positive : 0 < fs.sectors_per_cluster)
    (size : ℕ) (some_bytes : 0 < size)
    (fits : size + fs.sectors_per_cluster * fs.bytes_per_sector < 2 ^ 32) where
  abbrev cluster_bytes : ℕ
  cluster_bytes = fs.sectors_per_cluster * fs.bytes_per_sector

  cluster_bytes-positive : 0 < cluster_bytes
  cluster_bytes-positive =
      omega (arith, sector_bytes, mul-le-mul_right fs.bytes_per_sector positive)

  -- The clusters have room for the file.
  pub clusters_for-fits : size ≤ clusters_for fs size * cluster_bytes
  clusters_for-fits =
      let no_wrap : mul32 fs.sectors_per_cluster fs.bytes_per_sector ≡ cluster_bytes =
        omega arith in
      let dividend : sub32 (add32 size cluster_bytes) 1 ≡ size + cluster_bytes - 1 = omega arith in
      rw (no_wrap, dividend)
        (omega (
          arith,
          div-add-mod (size + cluster_bytes - 1) cluster_bytes,
          mul_comm cluster_bytes ((size + cluster_bytes - 1) / cluster_bytes),
          mod-lt (size + cluster_bytes - 1) cluster_bytes-positive,
        ))

  clusters_for-positive : 0 < clusters_for fs size
  clusters_for-positive =
      let room = clusters_for-fits in
      elim (dec_lt 0 (clusters_for fs size)) [
        | yes h ↦ h
        | no h ↦
            let none_left : clusters_for fs size ≡ 0 = omega (arith, h) in
            let nothing = ap (λ n. n * cluster_bytes) none_left in
            absurd (omega (arith, room, nothing, some_bytes))
      ]

module _ (d : Device) (sound : IsSound d) {fs : Fs} (v : IsLayout fs)
    (some_clusters : 2 ≤ fs.max_cluster) (positive : 0 < fs.sectors_per_cluster) where
  -- On the clusters that a loop has allocated, the contents are written.
  pub Grows-written :
      (content : Bytes) (size n first : ℕ) (s1 : Store) (T : ℕ → ℕ) (r : (Bool × ℕ) × Store)
      → r ≡ ((true, first), s1)
      → Grows fs T n r
      → size ≤ n * (fs.sectors_per_cluster * fs.bytes_per_sector)
      → (s2 : Store) × (write_data d fs content size first 0 size s1 ≡ (some 0, s2))
        × Holds fs content (entry fs s1.disk) s2.disk first 0 size
        × ((x : ℕ) → x < fs.partition_lba + cluster_to_lba fs first → s2.disk x ≡ s1.disk x)
        × (is_valid_cluster fs first ≡ true)
  Grows-written content size n first s1 T r e (gives_up f s' e' held) room = absurd (cc)
  Grows-written content size n first s1 T r e (completes f xs last s' e' grown count) room =
      let same_first : f ≡ first = ap (λ (p : (Bool × ℕ) × Store). p.0.1) (sym e' ∙ e) in
      let same_store : s' ≡ s1 = ap (λ (p : (Bool × ℕ) × Store). p.1) (sym e' ∙ e) in
      let grown1 : IsGrown fs T s1.disk first xs last =
        subst (λ (t : Store). IsGrown fs T t.disk first xs last) same_store
          (subst (λ x. IsGrown fs T s'.disk x xs last) same_first grown) in
      let (above, below) =
        Leads-bounds (entry fs s1.disk) first xs last last grown1.leads (last-IsOn xs last) in
      let valid : is_valid_cluster fs first ≡ true = ground (arith, grown1.from, grown1.within) in
      let one_more : length xs + 1 ≡ suc (length xs) = omega arith in
      let (s2, done, hold, same) =
        write_data_lem d sound v positive content (entry fs s1.disk) xs last size first 0 size s1
          grown1.leads grown1.from grown1.within (λ x h. refl)
          (subst (λ k. size ≤ k * (fs.sectors_per_cluster * fs.bytes_per_sector))
            (sym count ∙ one_more) room)
          (omega arith) in
      (s2, done, hold, same, valid)

  -- What a disk holds behind the first byte is read from it.
  pub Holds-read :
      (content out : Bytes) (size first : ℕ) (T : ℕ → ℕ) (s : Store)
      → Holds fs content T s.disk first 0 size
      → ((x : ℕ) → x < fs.max_cluster → entry fs s.disk x ≡ T x)
      → (out' : Bytes) × (s' : Store) × (read_data d fs size first out 0 size s ≡ (some out', s'))
        × Agree content out' size
  Holds-read content out size first T s hold has =
      let (out', s', done, agree) =
        read_data_lem d sound v positive content T size first 0 size out s hold has (omega arith)
          (λ k h. absurd (omega (arith, h))) in
      (out', s', done, λ k h. agree k (omega (arith, h)))

  -- The clusters of a file, for the whole loop.
  pub alloc_clusters-Grows :
      (size : ℕ) (s : Store)
      → 0 < size
      → size + fs.sectors_per_cluster * fs.bytes_per_sector < 2 ^ 32
      → Grows fs
          (entry fs s.disk)
          (clusters_for fs size)
          (alloc_clusters d fs (clusters_for fs size) 0 0 s)
  alloc_clusters-Grows size s some_bytes fits =
      let some_rounds : clusters_for fs size ≡ suc (clusters_for fs size - 1) =
        omega (arith, clusters_for-positive fs v.sector_bytes positive size some_bytes fits) in
      subst (λ n. Grows fs (entry fs s.disk) (clusters_for fs size) (alloc_clusters d fs n 0 0 s))
        (sym some_rounds)
        (alloc_clusters_lem d sound v (entry fs s.disk) some_clusters (clusters_for fs size)
          (clusters_for fs size - 1) s (λ x h. refl) (sym some_rounds))
