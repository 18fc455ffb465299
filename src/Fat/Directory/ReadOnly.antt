-- ===== src/Fat/Directory/ReadOnly.antt =====
-- The walks over the root directory of system/fat32.c only read.
use memtest86plus.Base.{
  ℕ, zero, suc, ◌+◌, ◌/◌, ◌≡◌, refl, ◌∙◌, Bool-cases, inl, inr, ◌==◌, Option, none, some, add32,
}
use memtest86plus.Base.Bytes.{Bytes}
use memtest86plus.Fat.{
  Fs, Device, Store, Io, pure, fail, counted, is_valid_cluster, cluster_to_lba, fat_read_entry,
}
use memtest86plus.Fat.Copies.{IsSound, msd_read_lem}
use memtest86plus.Fat.Entry.{entry, fat_read_entry_lem}
use memtest86plus.Fat.Directory.{
  Visit, next, stop, or_next, scan_sector, walk_sectors, walk_chain, walk_root, visit_free,
  dir_entry_size, find_free_dir_entry,
}

-- The operation succeeds, and the disk stays as it is.
abbrev pub Reads : {A : Type 0} → Option A × Store → Store → Type 0
Reads {A} r s = (a : A) × (s' : Store) × (r ≡ (some a, s')) × (s'.disk ≡ s.disk)

module _ (d : Device) (sound : IsSound d) (fs : Fs) {A : Type 0} (visit : Bytes → ℕ → Visit A) where
  walk_sectors-Reads : (lba left i : ℕ) (s : Store) → Reads (walk_sectors d fs visit lba left i s) s
  unfolding walk_sectors
  walk_sectors-Reads lba zero i s = (next, s, refl, refl)
  walk_sectors-Reads lba (suc left) i s =
      let b = s.disk (add32 fs.partition_lba (add32 lba i)) in
      rw (msd_read_lem d sound (add32 fs.partition_lba (add32 lba i)) s) (
        after (scan_sector (visit b) (fs.bytes_per_sector / dir_entry_size) 0)
          (walk_sectors d fs visit lba left (i + 1))
          (walk_sectors-Reads lba left (i + 1) (counted s)))
    where
      after :
          (r : Visit A) (m : Io (Visit (ℕ × A)))
          → Reads (m (counted s)) (counted s)
          → Reads (or_next r (λ (a : A). pure (stop (add32 lba i, a))) m (counted s)) s
      after next m rest = rest
      after (stop a) m rest = (stop (add32 lba i, a), counted s, refl, refl)

  walk_chain-Reads : (left cluster : ℕ) (s : Store) → Reads (walk_chain d fs visit left cluster s) s
  unfolding walk_chain
  walk_chain-Reads zero cluster s = (next, s, refl, refl)
  walk_chain-Reads (suc left) cluster s = elim (Bool-cases (is_valid_cluster fs cluster)) [
    | inl valid ↦
        let (r, s1, walked, same) =
          walk_sectors-Reads (cluster_to_lba fs cluster) fs.sectors_per_cluster 0 s in
        rw (valid, walked) (after r s1 same (λ c t. walk_chain-Reads left c t))
    | inr e ↦ rw e (next, s, refl, refl)
  ]
    where
      after :
          (r : Visit (ℕ × A)) (s1 : Store)
          → s1.disk ≡ s.disk
          → ((c : ℕ) (t : Store) → Reads (walk_chain d fs visit left c t) t)
          → Reads
              (or_next r
                (λ (a : ℕ × A). pure (stop a))
                (λ s.
                  let (link, s') = fat_read_entry d fs cluster s in
                  walk_chain d fs visit left link s')
                s1)
              s
      after (stop a) s1 same rest = (stop a, s1, refl, same)
      after next s1 same rest =
          let link = entry fs s1.disk cluster in
          let (r, s2, walked, same') = rest link (counted s1) in
          rw (fat_read_entry_lem d sound fs cluster s1) (r, s2, walked, same' ∙ same)

  pub walk_root-Reads : (s : Store) → Reads (walk_root d fs visit s) s
  unfolding walk_root
  walk_root-Reads s = elim (Bool-cases (fs.fat_type == 32)) [
    | inl e ↦ rw e (walk_chain-Reads fs.max_cluster fs.root_cluster s)
    | inr e ↦ rw e (walk_sectors-Reads fs.root_dir_lba fs.root_dir_sectors 0 s)
  ]

-- The search for a free entry may fail, but changes nothing.
pub find_free_dir_entry-reads :
    (d : Device)
    → IsSound d
    → (fs : Fs) (s : Store)
    → (r : Option (ℕ × ℕ)) × (s' : Store) × (find_free_dir_entry d fs s ≡ (r, s'))
      × (s'.disk ≡ s.disk)
unfolding find_free_dir_entry
find_free_dir_entry-reads d sound fs s =
    let (r, s', walked, same) = walk_root-Reads d sound fs visit_free s in
    rw walked (after r s' same)
  where
    after :
        (r : Visit (ℕ × ℕ)) (s1 : Store)
        → s1.disk ≡ s.disk
        → (r' : Option (ℕ × ℕ)) × (s' : Store) × (or_next r (λ (place : ℕ × ℕ). pure place) fail s1
            ≡ (r', s'))
          × (s'.disk ≡ s.disk)
    after next s1 same = (none, s1, refl, same)
    after (stop place) s1 same = (some place, s1, refl, same)
