-- ===== src/Fat/File/Whole.antt =====
-- A file that `fat32_write_file` of system/fat32.c has written to a FAT16 volume, and `fat32_read_file`.
use memtest86plus.Base.{
  ℕ, ◌+◌, ◌*◌, ◌^◌, ◌≤◌, ◌<◌, ◌≡◌, ◌≢◌, inl, inr, refl, sym, ◌∙◌, ap, arith, Bool, true, false,
  Bool-cases, if◌then◌else◌, ◌==◌, ltb, none, some, add32,
}
use mathlib.Core.Path.{subst}
use memtest86plus.Base.Family.{update_self, update_ne}
use memtest86plus.Base.Bytes.{Bytes, get_le}
use memtest86plus.Fat.{Fs, Device, Store, counted}
use memtest86plus.Fat.Layout.{IsLayout}
use memtest86plus.Fat.Copies.{IsSound}
use memtest86plus.Fat.Entry.{entry}
use memtest86plus.Fat.Directory.{
  visit_file, first_cluster_of, find_file_dir_entry, find_free_dir_entry,
}
use memtest86plus.Fat.Directory.Search.{IsEntryOf}
use memtest86plus.Fat.Directory.Walk.{
  MissesAll, walk, walk-ext, walk-bounds, walk-found, find_free_dir_entry-root, find_file-misses,
  find_file-found,
}
use memtest86plus.Fat.File.{
  alloc_clusters, clusters_for, with_entry, after_alloc, fat32_write_file, fat32_read_file,
}
use memtest86plus.Fat.File.Undo.{stored-SameTable}
use memtest86plus.Fat.File.Contents.{Agree}
use memtest86plus.Fat.File.NewEntry.{
  with_entry-below, with_entry-first, with_entry-size, with_entry-IsEntryOf,
}
use memtest86plus.Fat.File.Chained.{Holds, Holds-ext, HasTable-before, cluster_to_lba-eq}
use memtest86plus.Fat.File.RoundTrip.{
  Holds-read, clusters_for-fits, Grows-written, alloc_clusters-Grows,
}
use memtest86plus.Fat.File.Success.{
  with_file, alloc_clusters-beyond, find_file-none, write_contents-entry, after_alloc-done,
}

module _ (d : Device) (sound : IsSound d) {fs : Fs} (v : IsLayout fs) (fat16 : fs.fat_type ≡ 16)
    (name : Bytes) (in_use : name 0 ≢ 0) (kept : name 0 ≢ 0xe5) (size first : ℕ) where
  -- The search for the file ends at its entry.
  entry-found :
      (s s2 s3 : Store) (lba off : ℕ)
      → first < 2 ^ 32
      → size < 2 ^ 32
      → ((x : ℕ)
          → fs.partition_lba + fs.root_dir_lba ≤ x
          → x < fs.partition_lba + fs.data_start_lba
          → s2.disk x ≡ s.disk x)
      → (find_file_dir_entry d fs name s).0 ≡ none
      → find_free_dir_entry d fs s2 ≡ (some (lba, off), s3)
      → s3.disk ≡ s2.disk
      → (fs.root_dir_lba ≤ lba)
        × (lba < fs.root_dir_lba + fs.root_dir_sectors)
        × ((s5 : Store) × (find_file_dir_entry d fs name (with_file fs name size first s3 lba off)
              ≡ (some (first, size), s5))
            × (s5.disk ≡ (with_file fs name size first s3 lba off).disk))
  unfolding find_file_dir_entry
  entry-found s s2 s3 lba off small_first small_size same missing searched same3 =
      let s4 = with_file fs name size first s3 lba off in
      let place = add32 fs.partition_lba lba in
      let free = find_free_dir_entry-root d sound fs fat16 lba off s2 s3 searched in
      let (low, below) =
        walk-bounds fs name s2.disk s4.disk lba off fs.root_dir_lba fs.root_dir_sectors 0
          (omega (arith, v.root_end, v.data_end)) free in
      let missed = find_file-misses d sound fs fat16 name s (find_file-none d fs name s missing) in
      let same_walk =
        walk-ext fs s.disk s2.disk (visit_file name) fs.root_dir_lba fs.root_dir_sectors 0
          (omega (arith, v.root_end, v.data_end))
          (λ x h l. same x h (omega (arith, l, v.root_end))) in
      let missed2 : MissesAll
          (walk fs s2.disk (visit_file name) fs.root_dir_lba fs.root_dir_sectors 0) =
        subst MissesAll (sym same_walk) missed in
      let b' = with_entry (s3.disk place) off name first size in
      let new : s4.disk place ≡ b' = update_self s3.disk place b' in
      let at_entry : IsEntryOf name (s4.disk place) off =
        subst (λ (b : Bytes). IsEntryOf name b off) (sym new)
          (with_entry-IsEntryOf (s3.disk place) off name first size in_use kept) in
      let walked =
        walk-found fs name s2.disk s4.disk lba off at_entry
          (λ k h.
            ap (λ (b : Bytes). b k) new
            ∙ with_entry-below (s3.disk place) off name first size k h
            ∙ ap (λ (disk : ℕ → Bytes). disk place k) same3)
          (λ x ne.
            update_ne s3.disk place b' x (λ e. ne (sym e))
            ∙ ap (λ (disk : ℕ → Bytes). disk x) same3)
          fs.root_dir_lba fs.root_dir_sectors 0 (omega (arith, v.root_end, v.data_end)) free
          missed2 in
      let (s5, done, same5) =
        find_file-found d sound fs fat16 name s4 lba off (s4.disk place) walked in
      let first_read : first_cluster_of (s4.disk place) off ≡ first =
        ap (λ (b : Bytes). first_cluster_of b off) new
        ∙ with_entry-first (s3.disk place) off name first size small_first in
      let size_read : get_le 4 (s4.disk place) (off + 28) ≡ size =
        ap (λ (b : Bytes). get_le 4 b (off + 28)) new
        ∙ with_entry-size (s3.disk place) off name first size small_size in
      (omega (arith, low), omega (arith, below), (s5, rw (done, first_read, size_read) refl, same5))

module _ (d : Device) (sound : IsSound d) {fs : Fs} (v : IsLayout fs)
    (some_clusters : 2 ≤ fs.max_cluster) (positive : 0 < fs.sectors_per_cluster)
    (fat16 : fs.fat_type ≡ 16) (name : Bytes) (in_use : name 0 ≢ 0) (kept : name 0 ≢ 0xe5)
    (content : Bytes) (size : ℕ)
    (fits : size + fs.sectors_per_cluster * fs.bytes_per_sector < 2 ^ 32) where
  write_file-size :
      (s s4 : Store)
      → fat32_write_file d fs name content size s ≡ (true, s4)
      → (0 < size)
        × (after_alloc d fs name content size (alloc_clusters d fs (clusters_for fs size) 0 0 s)
            ≡ (true, s4))
  unfolding fat32_write_file
  write_file-size s s4 h = elim (Bool-cases (size == 0)) [
    | inl e ↦ let failed : (false, s) ≡ (true, s4) = rw e at h in cc failed
    | inr e ↦ (ground (arith, e), rw e at h)
  ]

  -- The entry leads to the contents.
  read_file-entry :
      (out : Bytes) (max_size first : ℕ) (T : ℕ → ℕ) (s4 s5 : Store)
      → 0 < size
      → size ≤ max_size
      → find_file_dir_entry d fs name s4 ≡ (some (first, size), s5)
      → s5.disk ≡ s4.disk
      → Holds fs content T s4.disk first 0 size
      → ((x : ℕ) → x < fs.max_cluster → entry fs s4.disk x ≡ T x)
      → (out' : Bytes) × (s6 : Store) × (fat32_read_file d fs name out max_size s4
          ≡ (some (out', size), s6))
        × Agree content out' size
  unfolding fat32_read_file
  read_file-entry out max_size first T s4 s5 some_bytes room found_it same hold has =
      let full : (size == 0) ≡ false = ground (arith, some_bytes) in
      let a_buffer : (max_size == 0) ≡ false = ground (arith, some_bytes, room) in
      let all : (if ltb max_size size then max_size else size) ≡ size = ground (arith, room) in
      let hold5 =
        subst (λ (disk : ℕ → Bytes). Holds fs content T disk first 0 size) (sym same) hold in
      let (out', s6, done, agree) =
        Holds-read d sound v some_clusters positive content out size first T s5 hold5
          (λ x h. ap (λ (disk : ℕ → Bytes). entry fs disk x) same ∙ has x h) in
      (out', s6, rw (found_it, full, a_buffer, all, done) refl, agree)

  -- On a sound FAT16 volume and a device that does not fail, for a name that does not start with the byte
  -- of a free entry and that the root directory does not have yet: when `fat32_write_file` succeeds,
  -- `fat32_read_file` with a buffer of at least that size then succeeds, and gives the size and the
  -- contents of the file.
  pub fat32_read_file-fat32_write_file :
      (out : Bytes) (max_size : ℕ) (s s4 : Store)
      → size ≤ max_size
      → (find_file_dir_entry d fs name s).0 ≡ none
      → fat32_write_file d fs name content size s ≡ (true, s4)
      → (out' : Bytes) × (s5 : Store) × (fat32_read_file d fs name out max_size s4
          ≡ (some (out', size), s5))
        × Agree content out' size
  fat32_read_file-fat32_write_file out max_size s s4 room missing h =
      let (some_bytes, after) = write_file-size s s4 h in
      let n = clusters_for fs size in
      let (first, s1, allocated, written) =
        after_alloc-done d fs name content size (alloc_clusters d fs n 0 0 s) s4 after in
      let (s2, done, hold, same2, valid) =
        Grows-written d sound v some_clusters positive content size n first s1 (entry fs s.disk)
          (alloc_clusters d fs n 0 0 s) allocated
          (alloc_clusters-Grows d sound v some_clusters positive size s some_bytes fits)
          (clusters_for-fits fs v.sector_bytes positive size some_bytes fits) in
      let (lba, off, s3, searched, same3, at_s4) =
        write_contents-entry d sound fs name content size first s1 s2 s4 done written in
      let (from, within) : (2 ≤ first) × (first < fs.max_cluster) =
        (ground (arith, valid), ground (arith, valid)) in
      let T = entry fs s1.disk in
      let start = cluster_to_lba-eq d sound v positive content T first from within in
      let (low, below, (s5, found_it, same5)) =
        entry-found d sound v fat16 name in_use kept size first s s2 s3 lba off
          (omega (arith, within, v.clusters)) (omega (arith, fits))
          (λ x le l.
            same2 x (omega (arith, l, start))
            ∙ ap (λ (r : (Bool × ℕ) × Store). r.1.disk x) (sym allocated)
            ∙ alloc_clusters-beyond d sound v some_clusters n 0 0 s (omega (arith, some_clusters)) x
                le)
          missing searched same3 in
      let place = add32 fs.partition_lba lba in
      let b = with_entry (s3.disk place) off name first size in
      subst
        (λ (t : Store).
          (out' : Bytes) × (s6 : Store) × (fat32_read_file d fs name out max_size t
            ≡ (some (out', size), s6))
          × Agree content out' size)
        at_s4
        (read_file-entry out max_size first T (with_file fs name size first s3 lba off) s5
          some_bytes room found_it same5
          (Holds-ext d sound v positive content T s2.disk
            (with_file fs name size first s3 lba off).disk first 0 size
            (λ x le.
              update_ne s3.disk place b x (λ e. omega (arith, e, le, below, v.root_end, v.data_end))
              ∙ ap (λ (disk : ℕ → Bytes). disk x) same3)
            hold)
          (λ x l.
            stored-SameTable d sound v lba b (counted s3) low
              (omega (arith, below, v.root_end, v.data_end)) x l
            ∙ ap (λ (disk : ℕ → Bytes). entry fs disk x) same3
            ∙ HasTable-before d sound v positive content T s1.disk s2.disk first valid same2
                (λ y k. refl) x l))
