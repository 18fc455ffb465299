-- ===== src/Fat/File/Contents.antt =====
-- The sectors of a cluster in system/fat32.c: what `fat32_write_file` writes to them is what
-- `fat32_read_file` reads.
use memtest86plus.Base.{
  ℕ, zero, suc, ◌+◌, ◌-◌, ◌*◌, ◌^◌, ◌≤◌, ◌<◌, ◌≡◌, ◌⊎◌, inl, inr, refl, sym, ◌∙◌, ap, arith,
  Bool-cases, if◌then◌else◌, ◌==◌, ==_iff, some, add32, ltb,
}
use mathlib.Core.Path.{subst}
use native.Mathlib.Nat.{suc-mul}
use native.Mathlib.Decide.{dec_lt}
use memtest86plus.Base.Family.{update, update_self, update_ne}
use memtest86plus.Base.Bytes.{Bytes}
use memtest86plus.Fat.{Fs, Device, Store, counted, stored}
use memtest86plus.Fat.Copies.{IsSound, msd_read_lem, msd_write_lem}
use memtest86plus.Fat.File.{write_cluster, filled, copy_bytes, read_cluster}

-- The bytes of the next sector.
abbrev pub part : Fs → ℕ → ℕ
part fs remaining = if ltb remaining fs.bytes_per_sector then remaining else fs.bytes_per_sector

-- The bytes of the next `left` sectors.
abbrev pub taken : Fs → ℕ → ℕ → ℕ
taken fs left remaining =
    if ltb remaining (left * fs.bytes_per_sector) then remaining else left * fs.bytes_per_sector

-- The bytes of the contents from `pos` on, as many as remain, stand in the sectors from `lba + i` on.
abbrev pub SectorsHold : Fs → Bytes → (ℕ → Bytes) → ℕ → ℕ → ℕ → ℕ → ℕ → Type 0
SectorsHold fs content disk lba zero i pos remaining = Unit {0}
SectorsHold fs content disk lba (suc left) i pos remaining =
    ((j : ℕ) → j < part fs remaining → disk (fs.partition_lba + lba + i) j ≡ content (pos + j))
    × SectorsHold fs content disk lba left (i + 1) (pos + part fs remaining)
        (remaining - part fs remaining)

-- The position and what remains, behind them.
abbrev pub after : Fs → ℕ → ℕ → ℕ → ℕ × ℕ
after fs left pos remaining = (pos + taken fs left remaining, remaining - taken fs left remaining)

-- The first bytes are those of the contents.
abbrev pub Agree : Bytes → Bytes → ℕ → Type 0
Agree content out pos = (k : ℕ) → k < pos → out k ≡ content k

update_at : (f : ℕ → Bytes) (i : ℕ) (b : Bytes) (x : ℕ) → i ≡ x → update f i b x ≡ b
update_at f i b x e = rw (sym e) (update_self f i b)

pub copy_bytes-outside :
    (n : ℕ) (name : Bytes) (from : ℕ) (b : Bytes) (start k : ℕ)
    → (k < start) ⊎ (start + n ≤ k)
    → copy_bytes n name from b start k ≡ b k
unfolding copy_bytes
copy_bytes-outside zero name from b start k h = refl
copy_bytes-outside (suc n) name from b start k h =
    copy_bytes-outside n name (from + 1) (update b start (name from)) (start + 1) k
      (elim h [ inl low ↦ inl (omega arith) | inr high ↦ inr (omega arith) ])
    ∙ update_ne b start (name from) k
        (λ e. elim h [ inl low ↦ omega arith | inr high ↦ omega arith ])

pub copy_bytes-within :
    (n : ℕ) (name : Bytes) (from : ℕ) (b : Bytes) (start j : ℕ)
    → j < n
    → copy_bytes n name from b start (start + j) ≡ name (from + j)
unfolding copy_bytes
copy_bytes-within zero name from b start j h = absurd (omega arith)
copy_bytes-within (suc n) name from b start zero h =
    let there : start + 0 ≡ start = omega arith in
    let from_there : from + 0 ≡ from = omega arith in
    rw (there, from_there)
      (copy_bytes-outside n name (from + 1) (update b start (name from)) (start + 1) start
          (inl (omega arith))
        ∙ update_self b start (name from))
copy_bytes-within (suc n) name from b start (suc j) h =
    let there : start + suc j ≡ start + 1 + j = omega arith in
    let from_there : from + suc j ≡ from + 1 + j = omega arith in
    rw (there, from_there)
      (copy_bytes-within n name (from + 1) (update b start (name from)) (start + 1) j (omega arith))

module _ (fs : Fs) (content : Bytes) where
  -- A disk with the same sectors holds the same.
  pub SectorsHold-ext :
      (a b : ℕ → Bytes) (lba left i pos remaining : ℕ)
      → ((x : ℕ)
          → fs.partition_lba + lba + i ≤ x
          → x < fs.partition_lba + lba + i + left
          → b x ≡ a x)
      → SectorsHold fs content a lba left i pos remaining
      → SectorsHold fs content b lba left i pos remaining
  SectorsHold-ext a b lba zero i pos remaining same h = h
  SectorsHold-ext a b lba (suc left) i pos remaining same (here, rest) = (
    λ j l.
        ap (λ (bytes : Bytes). bytes j)
          (same (fs.partition_lba + lba + i) (omega arith) (omega arith))
        ∙ here j l,
    SectorsHold-ext a b lba left (i + 1) (pos + part fs remaining) (remaining - part fs remaining)
        (λ x low high. same x (omega arith) (omega arith)) rest,
  )

  -- Nothing is held by any sectors.
  SectorsHold-zero :
      (disk : ℕ → Bytes) (lba left i pos : ℕ) → SectorsHold fs content disk lba left i pos 0
  SectorsHold-zero disk lba zero i pos = tt
  SectorsHold-zero disk lba (suc left) i pos =
      let none_left : part fs 0 ≡ 0 = ground arith in
      let nothing : 0 - part fs 0 ≡ 0 = omega (arith, none_left) in
      (
        λ j l. absurd (omega (arith, none_left)),
        rw nothing (SectorsHold-zero disk lba left (i + 1) (pos + part fs 0)),
      )

  taken-zero : (left : ℕ) → taken fs left 0 ≡ 0
  taken-zero left = ground arith

  taken-suc :
      (left remaining : ℕ)
      → taken fs (suc left) remaining
        ≡ part fs remaining + taken fs left (remaining - part fs remaining)
  taken-suc left remaining = ground (arith, suc-mul left fs.bytes_per_sector)

  behind :
      (left pos remaining : ℕ)
      → after fs left (pos + part fs remaining) (remaining - part fs remaining)
        ≡ after fs (suc left) pos remaining
  behind left pos remaining =
      let first = part fs remaining in
      let others = taken fs left (remaining - first) in
      let moved : pos + first + others ≡ pos + (first + others) = omega arith in
      let rest : remaining - first - others ≡ remaining - (first + others) = omega arith in
      rw (taken-suc left remaining, moved, rest) refl

  after-zero : (left pos : ℕ) → after fs left pos 0 ≡ (pos, 0)
  after-zero left pos = let moved : pos + 0 ≡ pos = omega arith in rw (taken-zero left, moved) refl

  taken-all : (left remaining : ℕ) → remaining ≡ 0 → taken fs left remaining ≡ 0
  taken-all left remaining e = ground (arith, e)

  taken-none : (remaining : ℕ) → taken fs 0 remaining ≡ 0
  taken-none remaining = ground arith

  all_read :
      (left pos remaining : ℕ) → remaining ≡ 0 → after fs left pos remaining ≡ (pos, remaining)
  all_read left pos remaining e = rw e (after-zero left pos)

  at_end : (pos remaining : ℕ) → after fs 0 pos remaining ≡ (pos, remaining)
  at_end pos remaining =
      let none_left : taken fs 0 remaining ≡ 0 = ground arith in
      let moved : pos + 0 ≡ pos = omega arith in
      let rest : remaining - 0 ≡ remaining = omega arith in rw (none_left, moved, rest) refl

  Agree-copy :
      (n : ℕ) (b out : Bytes) (pos : ℕ)
      → ((j : ℕ) → j < n → b j ≡ content (pos + j))
      → Agree content out pos
      → Agree content (copy_bytes n b 0 out pos) (pos + n)
  Agree-copy n b out pos new old k l = elim (dec_lt k pos) [
    | yes low ↦ copy_bytes-outside n b 0 out pos k (inl low) ∙ old k low
    | no high ↦
        let there : k ≡ pos + (k - pos) = omega arith in
        subst (λ i. copy_bytes n b 0 out pos i ≡ content i) (sym there)
          (copy_bytes-within n b 0 out pos (k - pos) (omega arith)
            ∙ subst (λ i. b i ≡ content (pos + (k - pos))) (omega arith)
                (new (k - pos) (omega arith)))
  ]

  filled-in : (pos n j : ℕ) → j < n → filled content pos n j ≡ content (pos + j)
  filled-in pos n j l = ground (arith, l)

  module _ (d : Device) (sound : IsSound d) where
    -- What the loop over the sectors leaves behind.
    pub write_cluster_lem :
        (lba left i pos remaining : ℕ) (s : Store)
        → fs.partition_lba + lba + i + left < 2 ^ 32
        → (s' : Store) × (write_cluster d fs content lba left i pos remaining s
            ≡ (some (after fs left pos remaining), s'))
          × SectorsHold fs content s'.disk lba left i pos remaining
          × ((x : ℕ)
              → (x < fs.partition_lba + lba + i) ⊎ (fs.partition_lba + lba + i + left ≤ x)
              → s'.disk x ≡ s.disk x)
    unfolding write_cluster
    write_cluster_lem lba zero i pos remaining s high =
        (s, rw (at_end pos remaining) refl, tt, λ x out. refl)
    write_cluster_lem lba (suc left) i pos remaining s high = elim (Bool-cases (remaining == 0)) [
      | inl e ↦
          let none_left : remaining ≡ 0 = (==_iff _ _).0 e in
          (
            s,
            rw e (
                ap (λ (p : ℕ × ℕ). (some p, s))
                  (sym (all_read (suc left) pos remaining none_left))),
            rw none_left (SectorsHold-zero s.disk lba (suc left) i pos),
            λ x out. refl,
          )
      | inr e ↦
          let n = part fs remaining in
          let start = add32 fs.partition_lba (add32 lba i) in
          let b = filled content pos n in
          let no_wrap : start ≡ fs.partition_lba + lba + i = omega arith in
          let (s', done, hold, same) =
            write_cluster_lem lba left (i + 1) (pos + n) (remaining - n) (stored s start b)
              (omega arith) in
          (
            s',
            rw (e, msd_write_lem d sound start b s)
                (done ∙ ap (λ (p : ℕ × ℕ). (some p, s')) (behind left pos remaining)),
            (
              λ j l.
                  ap (λ (bytes : Bytes). bytes j)
                    (same (fs.partition_lba + lba + i) (inl (omega arith))
                      ∙ update_at s.disk start b (fs.partition_lba + lba + i) no_wrap)
                  ∙ filled-in pos n j l,
              hold,
            ),
            λ x out.
                same x (elim out [ inl low ↦ inl (omega arith) | inr up ↦ inr (omega arith) ])
                ∙ update_ne s.disk start b x (λ at_x. elim out [
                  | inl low ↦ omega (arith, no_wrap)
                  | inr up ↦ omega (arith, no_wrap)
                ]),
          )
    ]

    -- The loop that reads them leaves their bytes behind those read before.
    pub read_cluster_lem :
        (lba left i : ℕ) (out : Bytes) (pos remaining : ℕ) (s : Store)
        → fs.partition_lba + lba + i + left < 2 ^ 32
        → SectorsHold fs content s.disk lba left i pos remaining
        → Agree content out pos
        → (out' : Bytes) × (s' : Store) × (read_cluster d fs lba left i out pos remaining s
            ≡ (some (out', after fs left pos remaining), s'))
          × (s'.disk ≡ s.disk)
          × Agree content out' (pos + taken fs left remaining)
    unfolding read_cluster
    read_cluster_lem lba zero i out pos remaining s high hold agree = (
      out,
      s,
      rw (at_end pos remaining) refl,
      refl,
      λ k l. agree k (omega (arith, l, taken-none remaining)),
    )
    read_cluster_lem lba (suc left) i out pos remaining s high (here, hold) agree =
        elim (Bool-cases (remaining == 0)) [
          | inl e ↦
              let none_left : remaining ≡ 0 = (==_iff _ _).0 e in
              (
                out,
                s,
                rw e (
                    ap (λ (p : ℕ × ℕ). (some (out, p), s))
                      (sym (all_read (suc left) pos remaining none_left))),
                refl,
                λ k l. agree k (omega (arith, l, taken-all (suc left) remaining none_left)),
              )
          | inr e ↦
              let n = part fs remaining in
              let start = add32 fs.partition_lba (add32 lba i) in
              let b = s.disk start in
              let no_wrap : start ≡ fs.partition_lba + lba + i = omega arith in
              let (out', s', done, same, agree') =
                read_cluster_lem lba left (i + 1) (copy_bytes n b 0 out pos) (pos + n)
                  (remaining - n) (counted s) (omega arith) hold
                  (Agree-copy n b out pos (λ j l. ap (λ (x : ℕ). s.disk x j) no_wrap ∙ here j l)
                    agree) in
              (
                out',
                s',
                rw (e, msd_read_lem d sound start s)
                    (done ∙ ap (λ (p : ℕ × ℕ). (some (out', p), s')) (behind left pos remaining)),
                same,
                λ k l. agree' k (omega (arith, l, taken-suc left remaining)),
              )
        ]
