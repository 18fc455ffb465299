-- ===== src/Fat/File/Undo.antt =====
-- `fat32_write_file` of system/fat32.c on a device that does not fail: when it fails, the clusters that it
-- has allocated are free again.
use memtest86plus.Base.{
  ℕ, zero, suc, ◌+◌, ◌-◌, ◌*◌, ◌^◌, ◌≤◌, ◌<◌, ◌≡◌, inl, inr, refl, sym, ◌∙◌, ap, arith, Bool, true,
  false, Bool-cases, if◌then◌else◌, ◌==◌, ==_iff, Option, none, some, add32, sub32, ◌&&◌, ltb, List,
}
use native.Mathlib.Nat.{mul-le-mul_right, suc-mul}
use memtest86plus.Base.Family.{update, update_ne}
use memtest86plus.Base.Bytes.{Bytes}
use memtest86plus.Fat.{
  Fs, Device, Store, proceed, ◌>>=◌, counted, stored, is_valid_cluster, cluster_to_lba, read_sector,
  write_sector, fat_free_chain,
}
use memtest86plus.Fat.Layout.{IsLayout, row, home, row-lt, copy_sector-eq}
use memtest86plus.Fat.Copies.{IsSound, msd_read_lem, msd_write_lem}
use memtest86plus.Fat.Entry.{entry, entry-ext, home-eq, fat_read_entry_lem}
use memtest86plus.Fat.Chain.{free_loop_lem, Leads-ext}
use memtest86plus.Fat.Directory.ReadOnly.{find_free_dir_entry-reads}
use memtest86plus.Fat.File.{
  with_entry, alloc_clusters, write_cluster, write_data, write_contents, filled, give_back,
  clusters_for, after_alloc, fat32_write_file,
}
use memtest86plus.Fat.File.Grow.{
  IsGrown, IsHeld, nothing, chain, Grows, gives_up, completes, alloc_clusters_lem,
}

-- The table is the same on both disks.
abbrev pub SameTable : Fs → (ℕ → Bytes) → (ℕ → Bytes) → Type 0
SameTable fs a b = (x : ℕ) → x < fs.max_cluster → entry fs b x ≡ entry fs a x

module _ (d : Device) (sound : IsSound d) {fs : Fs} (v : IsLayout fs) where
  -- A write behind the table.
  pub stored-SameTable :
      (lba : ℕ) (b : Bytes) (s : Store)
      → fs.root_dir_lba ≤ lba
      → fs.partition_lba + lba < 2 ^ 32
      → SameTable fs s.disk (stored s (add32 fs.partition_lba lba) b).disk
  stored-SameTable lba b s low high x h =
      let mine = row-lt v x h in
      let (at_home, inside) = copy_sector-eq v 0 (row fs x) v.copies mine in
      entry-ext fs (update s.disk (add32 fs.partition_lba lba) b) s.disk x (
        update_ne s.disk (add32 fs.partition_lba lba) b (home fs (row fs x))
          (λ e. omega (arith, e, home-eq v (row fs x) mine, at_home, inside)))

  -- The operation succeeds, and leaves the table as it is.
  abbrev Leaves : {A : Type 0} → Option A × Store → Store → Type 0
  Leaves {A} r s = (a : A) × (s' : Store) × (r ≡ (some a, s')) × SameTable fs s.disk s'.disk

  write_cluster-Leaves :
      (content : Bytes) (lba left i pos remaining : ℕ) (s : Store)
      → fs.root_dir_lba ≤ lba
      → fs.partition_lba + lba + i + left < 2 ^ 32
      → Leaves (write_cluster d fs content lba left i pos remaining s) s
  unfolding write_cluster
  write_cluster-Leaves content lba zero i pos remaining s low high =
      ((pos, remaining), s, refl, λ x h. refl)
  write_cluster-Leaves content lba (suc left) i pos remaining s low high =
      elim (Bool-cases (remaining == 0)) [
        | inl e ↦ rw e ((pos, remaining), s, refl, λ x h. refl)
        | inr e ↦
            let n = if ltb remaining fs.bytes_per_sector then remaining else fs.bytes_per_sector in
            let at = add32 fs.partition_lba (add32 lba i) in
            let b = filled content pos n in
            let s1 = stored s at b in
            let (r, s', done, same) =
              write_cluster-Leaves content lba left (i + 1) (pos + n) (remaining - n) s1 low
                (omega arith) in
            let first = stored-SameTable (add32 lba i) b s (omega arith) (omega arith) in
            (r, s', rw (e, msd_write_lem d sound at b s) done, λ x h. same x h ∙ first x h)
      ]

  -- The sectors of a cluster lie in the data area.
  pub cluster_bounds :
      (c : ℕ)
      → is_valid_cluster fs c ≡ true
      → (fs.root_dir_lba ≤ cluster_to_lba fs c)
        × (fs.partition_lba + cluster_to_lba fs c + fs.sectors_per_cluster < 2 ^ 32)
  cluster_bounds c valid =
      let (low, high) : (2 ≤ c) × (c < fs.max_cluster) =
        (ground (arith, valid), ground (arith, valid)) in
      let index : sub32 c 2 ≡ c - 2 = omega (arith, v.clusters) in
      let in_area : suc (c - 2) * fs.sectors_per_cluster ≤ fs.max_cluster * fs.sectors_per_cluster =
        mul-le-mul_right fs.sectors_per_cluster (omega arith) in
      let size = suc-mul (c - 2) fs.sectors_per_cluster in
      rw index (omega (arith, v.root_end, v.data_end), omega (arith, v.data_end))

  write_data-Leaves :
      (content : Bytes) (left c pos remaining : ℕ) (s : Store)
      → Leaves (write_data d fs content left c pos remaining s) s
  unfolding write_data
  write_data-Leaves content zero c pos remaining s = (remaining, s, refl, λ x h. refl)
  write_data-Leaves content (suc left) c pos remaining s =
      elim (Bool-cases (ltb 0 remaining && is_valid_cluster fs c)) [
        | inl go_on ↦
            let valid : is_valid_cluster fs c ≡ true = ground (arith, go_on) in
            let (low, high) = cluster_bounds c valid in
            let (r, s1, written, same) =
              write_cluster-Leaves content (cluster_to_lba fs c) fs.sectors_per_cluster 0 pos
                remaining s low (omega arith) in
            let (rest, s2, done, same') =
              write_data-Leaves content left (entry fs s1.disk c) r.0 r.1 (counted s1) in
            (
              rest,
              s2,
              rw (go_on, written, fat_read_entry_lem d sound fs c s1) done,
              λ x h. same' x h ∙ same x h,
            )
        | inr e ↦ rw e (remaining, s, refl, λ x h. refl)
      ]

  -- A write of the contents that fails leaves the table as it is.
  data Contents (s : Store) (r : Option (Unit {0}) × Store) : Type 0 where
    failed : (s' : Store) → r ≡ (none, s') → SameTable fs s.disk s'.disk → Contents s r
    written : (s' : Store) → r ≡ (some tt, s') → Contents s r

  write_contents-Contents :
      (name content : Bytes) (size first : ℕ) (s : Store)
      → Contents s (write_contents d fs name content size first s)
  unfolding write_contents
  write_contents-Contents name content size first s =
      let (remaining, s1, done, same) = write_data-Leaves content size first 0 size s in
      let (r, s2, searched, same') = find_free_dir_entry-reads d sound fs s1 in
      elim (Bool-cases (remaining == 0)) [
        | inl e ↦
            rw (done, e, searched)
              (after r s2 (λ x h. ap (λ (disk : ℕ → Bytes). entry fs disk x) same' ∙ same x h))
        | inr e ↦ failed s1 (rw (done, e) refl) same
      ]
    where
      after :
          (r : Option (ℕ × ℕ)) (s2 : Store)
          → SameTable fs s.disk s2.disk
          → Contents s (
              proceed
                (r, s2)
                (λ ((lba, off) : ℕ × ℕ). read_sector d fs lba >>= λ b.
                  write_sector d fs lba (with_entry b off name first size)))
      after none s2 same = failed s2 refl same
      after (some (lba, off)) s2 same =
          let at = add32 fs.partition_lba lba in
          written (stored (counted s2) at (with_entry (s2.disk at) off name first size)) (
            rw
              (
                msd_read_lem d sound at s2,
                msd_write_lem d sound at (with_entry (s2.disk at) off name first size) (counted s2),
              )
              refl)

  give_back_lem :
      (T : ℕ → ℕ) (first : ℕ) (s : Store)
      → IsHeld fs T s.disk first
      → (x : ℕ) → x < fs.max_cluster
      → entry fs (give_back d fs first s).1.disk x ≡ T x
  unfolding fat_free_chain
  give_back_lem T first s (nothing e same) x h =
      let none_yet : (first == 0) ≡ true = (==_iff _ _).1 e in rw none_yet (same x h)
  give_back_lem T first s (chain xs last r) x h =
      let has_first : (first == 0) ≡ false = ground (arith, r.from) in
      rw has_first (
        free_loop_lem d sound v T fs.max_cluster first xs last s (omega (arith, r.short, r.within))
          r.from r.within r.leads r.end r.zeros r.agree x h)

  -- What is held is still held when the table is the same.
  IsGrown-same :
      (T : ℕ → ℕ) (a b : ℕ → Bytes) (first : ℕ) (xs : List ℕ) (last : ℕ)
      → SameTable fs a b
      → IsGrown fs T a first xs last
      → IsGrown fs T b first xs last
  IsGrown-same T a b first xs last same r = record {
    leads =
        Leads-ext (entry fs a) (entry fs b) first xs last
          (λ x low less. same x (omega (arith, r.within))) r.leads;
    end = same last r.within ∙ r.end;
    from = r.from;
    within = r.within;
    zeros = r.zeros;
    agree = λ x h. elim (r.agree x h) [ inl e ↦ inl (same x h ∙ e) | inr on ↦ inr on ];
    below = λ x low high z. r.below x low high (sym (same x (omega (arith, r.within))) ∙ z);
    short = r.short;
  }

  IsHeld-same :
      (T : ℕ → ℕ) (a b : ℕ → Bytes) (first : ℕ)
      → SameTable fs a b
      → IsHeld fs T a first
      → IsHeld fs T b first
  IsHeld-same T a b first same (nothing e agree) = nothing e (λ x h. same x h ∙ agree x h)
  IsHeld-same T a b first same (chain xs last r) =
      chain xs last (IsGrown-same T a b first xs last same r)

  -- A run of `fat32_write_file` that fails leaves the table as it was.
  abbrev IsUndone : Store → Bool × Store → Type 0
  IsUndone s (done, s') = done ≡ false → SameTable fs s.disk s'.disk

  contents-IsUndone :
      (name content : Bytes) (size first : ℕ) (s s1 : Store)
      → IsHeld fs (entry fs s.disk) s1.disk first
      → IsUndone s (after_alloc d fs name content size ((true, first), s1))
  contents-IsUndone name content size first s s1 held =
      elim (write_contents-Contents name content size first s1) [
        | failed s2 e same ↦ rw e (λ result x h.
            give_back_lem (entry fs s.disk) first s2
              (IsHeld-same (entry fs s.disk) s1.disk s2.disk first same held) x h)
        | written s2 e ↦ rw e (λ result. cc)
      ]

  after_alloc-IsUndone :
      (name content : Bytes) (size total : ℕ) (s : Store) (r : (Bool × ℕ) × Store)
      → Grows fs (entry fs s.disk) total r
      → IsUndone s (after_alloc d fs name content size r)
  after_alloc-IsUndone name content size total s r (gives_up first s1 e held) =
      rw e (λ result x h. give_back_lem (entry fs s.disk) first s1 held x h)
  after_alloc-IsUndone name content size total s r (completes first xs last s1 e grown count) =
      rw e (contents-IsUndone name content size first s s1 (chain xs last grown))

  file-IsUndone :
      (name content : Bytes) (size : ℕ) (s : Store) (n : ℕ)
      → 2 ≤ fs.max_cluster
      → IsUndone s (after_alloc d fs name content size (alloc_clusters d fs n 0 0 s))
  unfolding alloc_clusters
  file-IsUndone name content size s zero enough =
      contents-IsUndone name content size 0 s s (nothing refl (λ x h. refl))
  file-IsUndone name content size s (suc n) enough =
      after_alloc-IsUndone name content size (suc n) s (alloc_clusters d fs (suc n) 0 0 s)
        (alloc_clusters_lem d sound v (entry fs s.disk) enough (suc n) n s (λ x h. refl) refl)

  whole-IsUndone :
      (name content : Bytes) (size : ℕ) (s : Store)
      → 2 ≤ fs.max_cluster
      → IsUndone s (fat32_write_file d fs name content size s)
  unfolding fat32_write_file
  whole-IsUndone name content size s enough = elim (Bool-cases (size == 0)) [
    | inl empty ↦ rw empty (λ result x h. refl)
    | inr full ↦ rw full (file-IsUndone name content size s (clusters_for fs size) enough)
  ]

  -- On a sound volume and a device that does not fail: when `fat32_write_file` fails, because the disk or
  -- the root directory is full or for any other reason, every entry of the table is as it was before.
  pub fat32_write_file-undoes :
      (name content : Bytes) (size : ℕ) (s : Store)
      → 2 ≤ fs.max_cluster
      → (fat32_write_file d fs name content size s).0 ≡ false
      → SameTable fs s.disk (fat32_write_file d fs name content size s).1.disk
  fat32_write_file-undoes name content size s enough = whole-IsUndone name content size s enough
