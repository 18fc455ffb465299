-- ===== src/Fat/File/Success.antt =====
-- What a successful run of `fat32_write_file` in system/fat32.c has done.
use memtest86plus.Base.{
  ℕ, zero, suc, ◌+◌, ◌≤◌, ◌<◌, ◌≡◌, inl, inr, refl, ◌∙◌, ap, Bool, true, false, Bool-cases,
  if◌then◌else◌, ◌==◌, Option, none, some, add32,
}
use memtest86plus.Base.Bytes.{Bytes, get_le}
use memtest86plus.Fat.{
  Fs, Device, Store, pure, proceed, ◌>>=◌, counted, stored, read_sector, write_sector,
}
use memtest86plus.Fat.Layout.{IsLayout}
use memtest86plus.Fat.Copies.{IsSound, msd_read_lem, msd_write_lem}
use memtest86plus.Fat.Entry.{entry, fat_write_entry_lem}
use memtest86plus.Fat.Alloc.{found, full, fat_alloc_cluster_lem}
use memtest86plus.Fat.Directory.{
  first_cluster_of, find_file, find_file_dir_entry, find_free_dir_entry,
}
use memtest86plus.Fat.Directory.ReadOnly.{find_free_dir_entry-reads}
use memtest86plus.Fat.Directory.Walk.{}
use memtest86plus.Fat.File.{
  handle, alloc_clusters, write_data, write_contents, with_entry, give_back, after_alloc,
}
use memtest86plus.Fat.File.Grow.{cluster-Fits}
use memtest86plus.Fat.File.NewEntry.{}
use memtest86plus.Fat.File.RoundTrip.{}

module _ (d : Device) (sound : IsSound d) {fs : Fs} (v : IsLayout fs)
    (some_clusters : 2 ≤ fs.max_cluster) where
  -- The allocation changes nothing from the root directory on.
  pub alloc_clusters-beyond :
      (left first prev : ℕ) (s : Store)
      → prev < fs.max_cluster
      → (x : ℕ) → fs.partition_lba + fs.root_dir_lba ≤ x
      → (alloc_clusters d fs left first prev s).1.disk x ≡ s.disk x
  unfolding alloc_clusters
  alloc_clusters-beyond zero first prev s low x h = refl
  alloc_clusters-beyond (suc left) first prev s low x h =
      elim (fat_alloc_cluster_lem d sound v s some_clusters) [
        | found n s1 done from high z before sets ↦
            let first' = if first == 0 then n else first in
            elim (Bool-cases (prev == 0)) [
              | inl e ↦
                  rw (done, e) (alloc_clusters-beyond left first' n s1 high x h ∙ sets.beyond x h)
              | inr e ↦
                  let (s2, linked, link) =
                    fat_write_entry_lem d sound fs v prev n s1 low
                      (cluster-Fits d sound v (entry fs s.disk) some_clusters 0 n high) in
                  rw (done, e, linked)
                    (alloc_clusters-beyond left first' n s2 high x h
                      ∙ link.beyond x h
                      ∙ sets.beyond x h)
            ]
        | full s1 done same taken ↦ rw done (ap (λ (disk : ℕ → Bytes). disk x) same)
      ]

pub find_file-none :
    (d : Device) (fs : Fs) (name : Bytes) (s : Store)
    → (find_file_dir_entry d fs name s).0 ≡ none
    → (find_file d fs name s).0 ≡ none
unfolding find_file_dir_entry
find_file-none d fs name s h = through (find_file d fs name s) h
  where
    through :
        (r : Option (ℕ × (Bytes × ℕ)) × Store)
        → (proceed {B = ℕ × ℕ} r (λ ((lba, (b, off)) : ℕ × (Bytes × ℕ)).
            pure (first_cluster_of b off, get_le 4 b (off + 28)))).0
          ≡ none
        → r.0 ≡ none
    through (none, s') h = refl
    through (some place, s') h = cc h

-- The store behind the write of the entry.
abbrev pub with_file : Fs → Bytes → ℕ → ℕ → Store → ℕ → ℕ → Store
with_file fs name size first s lba off =
    let place = add32 fs.partition_lba lba in
    stored (counted s) place (with_entry (s.disk place) off name first size)

module _ (d : Device) (sound : IsSound d) (fs : Fs) (name content : Bytes) (size first : ℕ) where
  -- A write that succeeds has put the entry where the search for a free one ends.
  pub write_contents-entry :
      (s1 s2 s4 : Store)
      → write_data d fs content size first 0 size s1 ≡ (some 0, s2)
      → handle
          (write_contents d fs name content size first s1)
          (give_back d fs first)
          (λ done s'. (true, s'))
        ≡ (true, s4)
      → (lba : ℕ) × (off : ℕ) × (s3 : Store) × (find_free_dir_entry d fs s2 ≡ (some (lba, off), s3))
        × (s3.disk ≡ s2.disk)
        × (with_file fs name size first s3 lba off ≡ s4)
  unfolding write_contents
  write_contents-entry s1 s2 s4 written h =
      let (r, s3, searched, same) = find_free_dir_entry-reads d sound fs s2 in
      after r s3 searched same (rw (written, searched) at h)
    where
      after :
          (r : Option (ℕ × ℕ)) (s3 : Store)
          → find_free_dir_entry d fs s2 ≡ (r, s3)
          → s3.disk ≡ s2.disk
          → handle
              (proceed
                (r, s3)
                (λ ((lba, off) : ℕ × ℕ). read_sector d fs lba >>= λ b.
                  write_sector d fs lba (with_entry b off name first size)))
              (give_back d fs first)
              (λ done s'. (true, s'))
            ≡ (true, s4)
          → (lba : ℕ) × (off : ℕ) × (s3 : Store) × (find_free_dir_entry d fs s2
              ≡ (some (lba, off), s3))
            × (s3.disk ≡ s2.disk)
            × (with_file fs name size first s3 lba off ≡ s4)
      after none s3 searched same h = cc h
      after (some (lba, off)) s3 searched same h =
          let place = add32 fs.partition_lba lba in
          let result : (true, with_file fs name size first s3 lba off) ≡ (true, s4) =
            rw
              (
                msd_read_lem d sound place s3,
                msd_write_lem d sound place (with_entry (s3.disk place) off name first size)
                    (counted s3),
              )
              at h in
          (lba, off, s3, searched, same, ap (λ (p : Bool × Store). p.1) result)

-- The clusters that a successful write has got.
pub after_alloc-done :
    (d : Device) (fs : Fs) (name content : Bytes) (size : ℕ) (r : (Bool × ℕ) × Store) (s4 : Store)
    → after_alloc d fs name content size r ≡ (true, s4)
    → (first : ℕ) × (s1 : Store) × (r ≡ ((true, first), s1))
      × (handle
            (write_contents d fs name content size first s1)
            (give_back d fs first)
            (λ done s'. (true, s'))
          ≡ (true, s4))
after_alloc-done d fs name content size ((false, first), s1) s4 h = cc h
after_alloc-done d fs name content size ((true, first), s1) s4 h = (first, s1, refl, h)
