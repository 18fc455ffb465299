-- ===== src/Fat/Names/Report.antt =====
-- Saving a report in system/fat32.c: the name that `fat32_next_filename` gives, and a file of that name.
use memtest86plus.Base.{
  ℕ, zero, suc, ◌+◌, ◌≤◌, ◌<◌, ◌≡◌, inl, inr, refl, sym, ◌∙◌, ap, arith, false, Bool-cases, ◌==◌,
  Option, none, some,
}
use mathlib.Core.Path.{subst}
use memtest86plus.Base.Bytes.{Bytes, get_le}
use memtest86plus.Fat.{Fs, Device, Store, pure, proceed}
use memtest86plus.Fat.Copies.{IsSound}
use memtest86plus.Fat.Directory.{
  Visit, next, stop, visit_file, entry_of_file, first_cluster_of, find_file, find_file_dir_entry,
}
use memtest86plus.Fat.Directory.Walk.{walk, MissesAll, walk_root-root}
use memtest86plus.Fat.Names.{
  Used, note_sectors, note_root, first_unused, name_of, named, fat32_next_filename,
}
use memtest86plus.Fat.Names.Unused.{note_sectors-disk, note_sectors-MissesAll}

first_unused-lem :
    (used : Used) (left n k : ℕ)
    → first_unused used left n ≡ some k
    → (used k ≡ false) × (n ≤ k) × (k < n + left)
unfolding first_unused
first_unused-lem used zero n k h = cc h
first_unused-lem used (suc left) n k h = elim (Bool-cases (used n)) [
  | inl marked ↦
      let rest : first_unused used left (n + 1) ≡ some k = rw marked at h in
      let (unused, low, high) = first_unused-lem used left (n + 1) k rest in
      (unused, omega arith, omega arith)
  | inr unused ↦
      let here : some n ≡ some k = rw unused at h in
      let at_k : n ≡ k = cc here in (ap used (sym at_k) ∙ unused, omega arith, omega arith)
]

named-some :
    (r : Option ℕ) (name : Bytes)
    → named r ≡ some name
    → (k : ℕ) × (r ≡ some k) × (name_of k ≡ name)
named-some none name h = cc h
named-some (some k) name h = (k, refl, cc h)

entry_of_file-none :
    (v : Visit (ℕ × Option (Bytes × ℕ))) (s : Store) → MissesAll v → (entry_of_file v s).0 ≡ none
entry_of_file-none next s h = refl
entry_of_file-none (stop (lba, none)) s h = refl
entry_of_file-none (stop (lba, some place)) s h = absurd h

proceed-none :
    {A B : Type 0} (r : Option A × Store) (f : A → Store → Option B × Store)
    → r.0 ≡ none
    → (proceed r f).0 ≡ none
proceed-none (none, s) f h = refl
proceed-none (some a, s) f h = cc h

module _ (d : Device) (sound : IsSound d) (fs : Fs) (fat16 : fs.fat_type ≡ 16) where
  find_file_dir_entry-none :
      (name : Bytes) (s : Store)
      → MissesAll (walk fs s.disk (visit_file name) fs.root_dir_lba fs.root_dir_sectors 0)
      → (find_file_dir_entry d fs name s).0 ≡ none
  unfolding find_file_dir_entry find_file
  find_file_dir_entry-none name s misses =
      let (s1, walked, same) = walk_root-root d sound fs fat16 (visit_file name) s in
      proceed-none (find_file d fs name s)
        (λ ((lba, (b, off)) : ℕ × (Bytes × ℕ)).
          pure (first_cluster_of b off, get_le 4 b (off + 28)))
        (rw walked (
          entry_of_file-none
            (walk fs s.disk (visit_file name) fs.root_dir_lba fs.root_dir_sectors 0) s1 misses))

  -- On a FAT16 volume and a device that does not fail, a name that `fat32_next_filename` gives is a report's
  -- name for a number from 1 to 99, and the root directory, which it leaves as it is, has no file of that
  -- name.
  pub fat32_next_filename-unused :
      (s s' : Store) (name : Bytes)
      → fat32_next_filename d fs s ≡ (some name, s')
      → ((n : ℕ) × (1 ≤ n) × (n ≤ 99) × (name_of n ≡ name))
        × (s'.disk ≡ s.disk)
        × ((find_file_dir_entry d fs name s').0 ≡ none)
  unfolding fat32_next_filename note_root
  fat32_next_filename-unused s s' name h =
      let not32 : (fs.fat_type == 32) ≡ false = ground (arith, fat16) in
      let none_used : Used = λ n. false in
      let noted = note_sectors d fs fs.root_dir_lba fs.root_dir_sectors 0 none_used s in
      let run : (named (first_unused noted.0.1 99 1), noted.1) ≡ (some name, s') = rw not32 at h in
      let (n, numbered, at_name) =
        named-some (first_unused noted.0.1 99 1) name
          (ap (λ (r : Option Bytes × Store). r.0) run) in
      let at_s' : noted.1 ≡ s' = ap (λ (r : Option Bytes × Store). r.1) run in
      let (unused, low, high) = first_unused-lem noted.0.1 99 1 n numbered in
      let same : s'.disk ≡ s.disk =
        ap (λ (t : Store). t.disk) (sym at_s')
        ∙ note_sectors-disk n low (omega arith) d sound fs fs.root_dir_lba fs.root_dir_sectors 0
            none_used s in
      let misses =
        note_sectors-MissesAll n low (omega arith) d sound fs fs.root_dir_lba fs.root_dir_sectors 0
          none_used s unused in
      (
        (n, low, omega (arith, high), at_name),
        same,
        find_file_dir_entry-none name s' (
            subst
              (λ (disk : ℕ → Bytes).
                MissesAll (walk fs disk (visit_file name) fs.root_dir_lba fs.root_dir_sectors 0))
              (sym same)
              (subst
                (λ (x : Bytes).
                  MissesAll (walk fs s.disk (visit_file x) fs.root_dir_lba fs.root_dir_sectors 0))
                at_name misses)),
      )
