-- ===== src/Fat/Alloc.antt =====
-- `fat_alloc_cluster` of system/fat32.c on a device that does not fail.
use memtest86plus.Base.{
  ℕ, zero, suc, ◌+◌, ◌-◌, ◌≤◌, ◌<◌, ◌≡◌, ◌≢◌, inl, inr, refl, ◌∙◌, ap, arith, Bool-cases, ◌==◌,
  ==_iff, Option, none, some,
}
use native.Mathlib.Decide.{ℕ_discrete}
use memtest86plus.Base.Bytes.{Bytes}
use memtest86plus.Fat.{Fs, Device, Store, eoc_value, counted, alloc_loop, fat_alloc_cluster}
use memtest86plus.Fat.Layout.{IsLayout}
use memtest86plus.Fat.Copies.{IsSound}
use memtest86plus.Fat.Entry.{entry, Sets, Fits, fat_read_entry_lem, fat_write_entry_lem}

-- How the scan from the cluster `from` on ends.
pub data Allocates (fs : Fs) (from : ℕ) (before : ℕ → Bytes) (r : Option ℕ × Store) : Type 0 where
  found :
      (c : ℕ) (s' : Store)
      → r ≡ (some c, s')
      → from ≤ c
      → c < fs.max_cluster
      → entry fs before c ≡ 0
      → ((x : ℕ) → from ≤ x → x < c → entry fs before x ≢ 0)
      → Sets fs c (eoc_value fs) before s'.disk
      → Allocates fs from before r
  full :
      (s' : Store)
      → r ≡ (none, s')
      → s'.disk ≡ before
      → ((x : ℕ) → from ≤ x → x < fs.max_cluster → entry fs before x ≢ 0)
      → Allocates fs from before r

pub eoc_value-Fits : {fs : Fs} → IsLayout fs → Fits fs (eoc_value fs)
eoc_value-Fits v = ground (arith, v.kind)

module _ (fs : Fs) (from : ℕ) (before : ℕ → Bytes) (taken : entry fs before from ≢ 0) where
  skipped :
      (n : ℕ)
      → ((x : ℕ) → from + 1 ≤ x → x < n → entry fs before x ≢ 0)
      → (x : ℕ) → from ≤ x
      → x < n
      → entry fs before x ≢ 0
  skipped n h x le l = elim (ℕ_discrete from x) [
    | yes e ↦ λ z. taken (ap (entry fs before) e ∙ z)
    | no ne ↦ h x (omega arith) l
  ]

  Allocates-next :
      {r : Option ℕ × Store} → Allocates fs (from + 1) before r → Allocates fs from before r
  Allocates-next (found c s' e le l z others sets) =
      found c s' e (omega arith) l z (skipped c others) sets
  Allocates-next (full s' e same others) = full s' e same (skipped fs.max_cluster others)

module _ (d : Device) (sound : IsSound d) {fs : Fs} (v : IsLayout fs) where
  alloc_loop_lem :
      (left cluster : ℕ) (s : Store)
      → cluster + left ≡ fs.max_cluster
      → Allocates fs cluster s.disk (alloc_loop d fs left cluster s)
  unfolding alloc_loop
  alloc_loop_lem zero cluster s e = full s refl refl (λ x le l. absurd (omega arith))
  alloc_loop_lem (suc left) cluster s e = elim (Bool-cases (entry fs s.disk cluster == 0)) [
    | inl free ↦
        let z : entry fs s.disk cluster ≡ 0 = (==_iff _ _).0 free in
        let (s', done, sets) =
          fat_write_entry_lem d sound fs v cluster (eoc_value fs) (counted s) (omega arith)
            (eoc_value-Fits v) in
        found cluster s' (rw (fat_read_entry_lem d sound fs cluster s, free, done) refl)
          (omega arith) (omega arith) z (λ x le l. absurd (omega arith)) sets
    | inr taken ↦
        rw (fat_read_entry_lem d sound fs cluster s, taken)
          (Allocates-next fs cluster s.disk (ground (arith, taken))
            (alloc_loop_lem left (cluster + 1) (counted s) (omega arith)))
  ]

  -- On a sound volume with at least the two reserved clusters, and on a device that does not fail:
  -- `fat_alloc_cluster` returns the first free cluster and marks it as the end of a chain, with no other
  -- change of the table; where no cluster is free, it fails and changes nothing.
  pub fat_alloc_cluster_lem :
      (s : Store) → 2 ≤ fs.max_cluster → Allocates fs 2 s.disk (fat_alloc_cluster d fs s)
  unfolding fat_alloc_cluster
  fat_alloc_cluster_lem s some_clusters = alloc_loop_lem (fs.max_cluster - 2) 2 s (omega arith)
