-- ===== src/Fat/Copies.antt =====
-- The transfers of a device that does not fail, and the loop over the copies of the table.
use memtest86plus.Base.{
  ℕ, zero, suc, ◌+◌, ◌/◌, ◌%◌, ◌≤◌, ◌<◌, ◌≡◌, ◌≢◌, refl, sym, ◌∙◌, arith, false, some,
}
use memtest86plus.Base.Family.{update_self, update_ne}
use memtest86plus.Base.Bytes.{Bytes, get_le, put_le}
use memtest86plus.Fat.{Fs, Device, Store, counted, stored, msd_read, msd_write, write_copies}
use memtest86plus.Fat.Layout.{copy_sector}

-- No transfer fails.
abbrev pub IsSound : Device → Type 0
IsSound d = (n : ℕ) → d.fails n ≡ false

module _ (d : Device) (sound : IsSound d) where
  pub msd_read_lem : (lba : ℕ) (s : Store) → msd_read d lba s ≡ (some (s.disk lba), counted s)
  unfolding msd_read
  msd_read_lem lba s = rw (sound s.transfers) refl

  pub msd_write_lem :
      (lba : ℕ) (b : Bytes) (s : Store) → msd_write d lba b s ≡ (some tt, stored s lba b)
  unfolding msd_write
  msd_write_lem lba b s = rw (sound s.transfers) refl

  module _ (fs : Fs) (w offset : ℕ) (merge : ℕ → ℕ) where
    abbrev sector : ℕ → ℕ
    sector fat = copy_sector fs fat (offset / fs.bytes_per_sector)

    abbrev at : ℕ
    at = offset % fs.bytes_per_sector

    abbrev pub merged : Bytes → Bytes
    merged b = put_le w (merge (get_le w b at)) b at

    -- The disk after one copy is written.
    abbrev pub after_copy : ℕ → Store → Store
    after_copy fat s = stored (counted s) (sector fat) (merged (s.disk (sector fat)))

    write_copies-suc :
        (left fat : ℕ) (s : Store)
        → write_copies d fs w offset merge (suc left) fat s
          ≡ write_copies d fs w offset merge left (fat + 1) (after_copy fat s)
    unfolding write_copies
    write_copies-suc left fat s =
        rw
          (
            msd_read_lem (sector fat) s,
            msd_write_lem (sector fat) (merged (s.disk (sector fat))) (counted s),
          )
          refl

    -- The loop ends, and changes none but the sectors of its copies.
    pub write_copies_lem :
        (left fat : ℕ) (s : Store)
        → (s' : Store) × (write_copies d fs w offset merge left fat s ≡ (some tt, s'))
          × ((x : ℕ) → ((k : ℕ) → fat ≤ k → k < fat + left → x ≢ sector k) → s'.disk x ≡ s.disk x)
    write_copies_lem zero fat s = (s, unfold write_copies in refl, λ x apart. refl)
    write_copies_lem (suc left) fat s =
        let (s', done, same) = write_copies_lem left (fat + 1) (after_copy fat s) in
        (
          s',
          write_copies-suc left fat s ∙ done,
          λ x apart.
              same x (λ k le l. apart k (omega arith) (omega arith))
              ∙ update_ne s.disk (sector fat) (merged (s.disk (sector fat))) x
                  (λ e. apart fat (omega arith) (omega arith) (sym e)),
        )

    -- The first copy holds the new value.
    pub write_copies-first :
        (left : ℕ) (s : Store)
        → ((k : ℕ) → 0 < k → k < suc left → sector 0 ≢ sector k)
        → (s' : Store) × (write_copies d fs w offset merge (suc left) 0 s ≡ (some tt, s'))
          × (s'.disk (sector 0) ≡ merged (s.disk (sector 0)))
          × ((x : ℕ) → ((k : ℕ) → k < suc left → x ≢ sector k) → s'.disk x ≡ s.disk x)
    write_copies-first left s apart =
        let (s', done, same) = write_copies_lem left 1 (after_copy 0 s) in
        (
          s',
          write_copies-suc left 0 s ∙ done,
          same (sector 0) (λ k le l. apart k le (omega arith))
              ∙ update_self s.disk (sector 0) (merged (s.disk (sector 0))),
          λ x others.
              same x (λ k le l. others k (omega arith))
              ∙ update_ne s.disk (sector 0) (merged (s.disk (sector 0))) x
                  (λ e. others 0 (omega arith) (sym e)),
        )
