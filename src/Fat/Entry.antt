-- ===== src/Fat/Entry.antt =====
-- The entries of the file allocation table: `fat_read_entry` and `fat_write_entry` of system/fat32.c on a
-- device that does not fail.
use memtest86plus.Base.{
  ℕ, suc, ◌+◌, ◌-◌, ◌^◌, ◌≤◌, ◌<◌, ◌≡◌, ◌≢◌, inl, inr, refl, sym, ◌∙◌, ap, min, arith, Bool-cases,
  if◌then◌else◌, ◌==◌, ==_iff, mul32, bit_and, bit_or, some, table_entry, table_holds,
}
use native.Mathlib.Decide.{ℕ_discrete}
use memtest86plus.Base.Bits.{bit, bit-bit_and, bit-bit_or, bit_ext, bit_or-lt, bit_and-le_right}
use memtest86plus.Base.Align.{bit_and_ones}
use memtest86plus.Base.Bytes.{
  Bytes, get_le, put_le, get_le-put_le, get_le-put_le_apart, get_le-put_le_behind,
}
use memtest86plus.Fat.{
  Fs, Device, Store, counted, merge_entry, read_value, fat_read_entry, fat_write_entry,
  write_copies, Io,
}
use memtest86plus.Fat.Layout.{
  IsLayout, width, row, place, home, copy_sector, row-lt, places_apart, copy_sector-eq, copy_apart,
}
use memtest86plus.Fat.Copies.{IsSound, msd_read_lem, write_copies-first}

-- The upper and the lower bits of an entry share none.
masks_apart : (i : ℕ) → i < 32 → min (bit i 0xf000_0000) (bit i 0x0fff_ffff) ≡ 0
masks_apart i h = (==_iff _ _).0 (
    table_entry (λ i. min (bit i 0xf000_0000) (bit i 0x0fff_ffff) == 0) 32 i h
      (unfold table_holds in refl))

merge_lt : (old v : ℕ) → bit_or (bit_and old 0xf000_0000) (bit_and v 0x0fff_ffff) < 2 ^ 32
merge_lt old v =
    bit_or-lt 32 (bit_and old 0xf000_0000) (bit_and v 0x0fff_ffff)
      (omega (arith, bit_and-le_right old 0xf000_0000))
      (omega (arith, bit_and-le_right v 0x0fff_ffff))

-- The lower bits of a merged entry are those of the value.
merge_low :
    (old v : ℕ)
    → v < 2 ^ 28
    → bit_and (bit_or (bit_and old 0xf000_0000) (bit_and v 0x0fff_ffff)) 0x0fff_ffff ≡ v
merge_low old v h =
    let m = bit_or (bit_and old 0xf000_0000) (bit_and v 0x0fff_ffff) in
    let low : bit_and v 0x0fff_ffff ≡ v = bit_and_ones 28 v h in
    bit_ext 32 (bit_and m 0x0fff_ffff) (bit_and v 0x0fff_ffff)
      (omega (arith, bit_and-le_right m 0x0fff_ffff))
      (omega (arith, bit_and-le_right v 0x0fff_ffff))
      (λ i l. omega (
        arith,
        bit-bit_and i m 0x0fff_ffff,
        bit-bit_or i (bit_and old 0xf000_0000) (bit_and v 0x0fff_ffff),
        bit-bit_and i old 0xf000_0000,
        bit-bit_and i v 0x0fff_ffff,
        masks_apart i l,
      ))
    ∙ low

-- The entry of a cluster, as it is read from a disk.
abbrev pub raw : Fs → (ℕ → Bytes) → ℕ → ℕ
raw fs disk cluster = get_le (width fs) (disk (home fs (row fs cluster))) (place fs cluster)

abbrev pub decode : Fs → ℕ → ℕ
decode fs r = if fs.fat_type == 32 then bit_and r 0x0fff_ffff else r

abbrev pub entry : Fs → (ℕ → Bytes) → ℕ → ℕ
entry fs disk cluster = decode fs (raw fs disk cluster)

pub entry-ext :
    (fs : Fs) (a b : ℕ → Bytes) (c : ℕ)
    → a (home fs (row fs c)) ≡ b (home fs (row fs c))
    → entry fs a c ≡ entry fs b c
entry-ext fs a b c e = ap (λ (bytes : Bytes). decode fs (get_le (width fs) bytes (place fs c))) e

-- The values that an entry can hold.
abbrev pub Fits : Fs → ℕ → Type 0
Fits fs v = v < (if fs.fat_type == 32 then 2 ^ 28 else 2 ^ 16)

-- The step of the disk that sets the entry of one cluster: all other entries stay as they are, and so does
-- everything from the root directory on.
pub record Sets (fs : Fs) (cluster v : ℕ) (before after : ℕ → Bytes) : Type 0 where
  pub new : entry fs after cluster ≡ v
  pub others : (c : ℕ) → c < fs.max_cluster → c ≢ cluster → entry fs after c ≡ entry fs before c
  pub beyond : (x : ℕ) → fs.partition_lba + fs.root_dir_lba ≤ x → after x ≡ before x

decode-merge :
    (fs : Fs) (old value : ℕ)
    → Fits fs value
    → (decode fs (merge_entry fs value old) ≡ value) × (merge_entry fs value old < 256 ^ width fs)
decode-merge fs old value h = elim (Bool-cases (fs.fat_type == 32)) [
  | inl e ↦ rw e (merge_low old value (rw e at h), merge_lt old value)
  | inr e ↦ let small : value < 2 ^ 16 = rw e at h in rw e (omega arith, omega arith)
]

module _ {fs : Fs} (v : IsLayout fs) where
  pub home-eq : (r : ℕ) → r < fs.sectors_per_fat → home fs r ≡ copy_sector fs 0 r
  home-eq r h = omega arith

  module _ (a b : ℕ → Bytes) (c value : ℕ) (h : c < fs.max_cluster) (fits : Fits fs value)
      (at_home : b (home fs (row fs c))
        ≡ put_le
            (width fs)
            (merge_entry fs value (raw fs a c))
            (a (home fs (row fs c)))
            (place fs c))
      (same : (x : ℕ)
        → ((k : ℕ) → k < fs.num_fats → x ≢ copy_sector fs k (row fs c))
        → b x ≡ a x) where
    written-new : entry fs b c ≡ value
    written-new =
        let (decoded, small) = decode-merge fs (raw fs a c) value fits in
        ap (λ (bytes : Bytes). decode fs (get_le (width fs) bytes (place fs c))) at_home
        ∙ ap (decode fs) (
            get_le-put_le (width fs) (merge_entry fs value (raw fs a c)) (a (home fs (row fs c)))
              (place fs c) small)
        ∙ decoded

    -- Another entry in the same sector.
    written-beside :
        (c' : ℕ)
        → c' < fs.max_cluster
        → c' ≢ c
        → row fs c' ≡ row fs c
        → get_le (width fs) (b (home fs (row fs c))) (place fs c')
          ≡ get_le (width fs) (a (home fs (row fs c))) (place fs c')
    written-beside c' h' ne e =
        let m = merge_entry fs value (raw fs a c) in
        let before = a (home fs (row fs c)) in
        ap (λ (bytes : Bytes). get_le (width fs) bytes (place fs c')) at_home
        ∙ elim (places_apart v c' c h' h ne e) [
          | inl low ↦
              get_le-put_le_apart (width fs) (width fs) m before (place fs c) (place fs c') low
          | inr high ↦
              get_le-put_le_behind (width fs) (width fs) m before (place fs c) (place fs c') high
        ]

    -- Another sector of the first copy.
    written-elsewhere :
        (r : ℕ) → r < fs.sectors_per_fat → r ≢ row fs c → b (home fs r) ≡ a (home fs r)
    written-elsewhere r k ne =
        let mine = row-lt v c h in
        same (home fs r) (λ fat l e. elim (ℕ_discrete fat 0) [
          | yes first ↦ ne (
              omega (
                arith,
                e,
                home-eq r k,
                ap (λ n. copy_sector fs n (row fs c)) first,
                (copy_sector-eq v 0 r v.copies k).0,
                (copy_sector-eq v 0 (row fs c) v.copies mine).0,
              ))
          | no later ↦ copy_apart v fat (row fs c) r (omega arith) l mine k (sym (home-eq r k) ∙ e)
        ])

    written-others : (c' : ℕ) → c' < fs.max_cluster → c' ≢ c → entry fs b c' ≡ entry fs a c'
    written-others c' h' ne = ap (decode fs) (elim (ℕ_discrete (row fs c') (row fs c)) [
      | yes e ↦
          ap (λ r. get_le (width fs) (b (home fs r)) (place fs c')) e
          ∙ written-beside c' h' ne e
          ∙ ap (λ r. get_le (width fs) (a (home fs r)) (place fs c')) (sym e)
      | no apart ↦
          ap (λ (bytes : Bytes). get_le (width fs) bytes (place fs c'))
            (written-elsewhere (row fs c') (row-lt v c' h') apart)
    ])

    written-Sets : Sets fs c value a b
    written-Sets = record {
      new = written-new;
      others = written-others;
      beyond = λ x behind. same x (λ k l e.
          let (at_copy, inside) = copy_sector-eq v k (row fs c) l (row-lt v c h) in
          omega (arith, e, at_copy, inside, behind));
    }

module _ (d : Device) (sound : IsSound d) (fs : Fs) where
  -- A read gives the entry and leaves the disk alone.
  pub fat_read_entry_lem :
      (c : ℕ) (s : Store) → fat_read_entry d fs c s ≡ (entry fs s.disk c, counted s)
  unfolding fat_read_entry read_value
  fat_read_entry_lem c s = elim (Bool-cases (fs.fat_type == 32)) [
    | inl e ↦ rw (e, msd_read_lem d sound) refl
    | inr e ↦ rw (e, msd_read_lem d sound) refl
  ]

  fat_write_entry-copies :
      (c value : ℕ)
      → fat_write_entry d fs c value
        ≡ write_copies d fs (width fs) (mul32 c (width fs)) (merge_entry fs value) fs.num_fats 0
  unfolding fat_write_entry
  fat_write_entry-copies c value = elim (Bool-cases (fs.fat_type == 32)) [
    | inl e ↦ rw e refl
    | inr e ↦ rw e refl
  ]

  -- On a sound volume and a device that does not fail, the write of an entry succeeds. The entry then
  -- holds the value, in FAT32 without its upper 4 bits; no other entry of the table and nothing from the
  -- root directory on has changed.
  pub fat_write_entry_lem :
      IsLayout fs
      → (c value : ℕ) (s : Store) → c < fs.max_cluster
      → Fits fs value
      → (s' : Store) × (fat_write_entry d fs c value s ≡ (some tt, s'))
        × Sets fs c value s.disk s'.disk
  fat_write_entry_lem v c value s h fits =
      let w = width fs in
      let offset = mul32 c w in
      let merge = merge_entry fs value in
      let n = fs.num_fats - 1 in
      let mine = row-lt v c h in
      let some_copies : fs.num_fats ≡ suc n = omega (arith, v.copies) in
      let (s', done, first, same) =
        write_copies-first d sound fs w offset merge n s
          (λ k positive l. copy_apart v k (row fs c) (row fs c) positive (omega arith) mine mine) in
      let at_home = home-eq v (row fs c) mine in
      (
        s',
        ap (λ (run : Io (Unit {0})). run s) (fat_write_entry-copies c value)
            ∙ ap (λ k. write_copies d fs w offset merge k 0 s) some_copies
            ∙ done,
        written-Sets v s.disk s'.disk c value h fits (rw at_home first)
            (λ x apart. same x (λ k l. apart k (omega arith))),
      )
