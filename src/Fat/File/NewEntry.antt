-- ===== src/Fat/File/NewEntry.antt =====
-- The directory entry that `fat32_write_file` of system/fat32.c writes, and what its sector holds then.
use memtest86plus.Base.{
  ℕ, zero, suc, ◌+◌, ◌/◌, ◌%◌, ◌^◌, ◌<◌, ◌≡◌, ◌≢◌, inl, refl, sym, ◌∙◌, ap, arith, true, ◌==◌,
  ==_iff,
}
use memtest86plus.Base.Family.{update, update_ne}
use memtest86plus.Base.Bytes.{Bytes, get_le, put_le-below, get_le-put_le}
use memtest86plus.Fat.Directory.{dir_entry_size, same_bytes, first_cluster_of}
use memtest86plus.Fat.Directory.Search.{IsEntryOf}
use memtest86plus.Fat.File.{with_entry, clear_bytes, copy_bytes}
use memtest86plus.Fat.File.Contents.{copy_bytes-within, copy_bytes-outside}

clear_bytes-below : (n : ℕ) (b : Bytes) (start k : ℕ) → k < start → clear_bytes n b start k ≡ b k
unfolding clear_bytes
clear_bytes-below zero b start k h = refl
clear_bytes-below (suc n) b start k h =
    clear_bytes-below n (update b start 0) (start + 1) k (omega arith)
    ∙ update_ne b start 0 k (λ e. omega arith)

pub same_bytes-true :
    (n : ℕ) (a b : Bytes) (start start' : ℕ)
    → ((j : ℕ) → j < n → a (start + j) ≡ b (start' + j))
    → same_bytes n a start b start' ≡ true
unfolding same_bytes
same_bytes-true zero a b start start' h = refl
same_bytes-true (suc n) a b start start' h =
    let first : a start ≡ b start' = ap a (omega arith) ∙ h 0 (omega arith) ∙ ap b (omega arith) in
    let equal : (a start == b start') ≡ true = (==_iff _ _).1 first in
    rw (equal) (
      same_bytes-true n a b (start + 1) (start' + 1)
        (λ j l. ap a (omega arith) ∙ h (suc j) (omega arith) ∙ ap b (omega arith)))

module _ (b : Bytes) (off : ℕ) (name : Bytes) (first size : ℕ) where
  abbrev named : Bytes
  named = copy_bytes 11 name 0 (clear_bytes dir_entry_size b off) off

  -- The fields between the name and the size.
  fields : Bytes
  fields =
      update
        (update
          (update (update (update named (off + 11) 0x20) (off + 20) (first / 0x1_0000 % 0x100))
            (off + 21) (first / 0x100_0000 % 0x100))
          (off + 26) (first % 0x100))
        (off + 27) (first / 0x100 % 0x100)

  with_entry-fields : (k : ℕ) → k < off + 28 → with_entry b off name first size k ≡ fields k
  unfolding with_entry fields
  with_entry-fields k h = put_le-below 4 size fields (off + 28) k h

  fields-name : (k : ℕ) → k < off + 11 → fields k ≡ named k
  unfolding fields
  fields-name k h = ground arith

  fields-attributes : fields (off + 11) ≡ 0x20
  unfolding fields
  fields-attributes = ground arith

  pub with_entry-below : (k : ℕ) → k < off → with_entry b off name first size k ≡ b k
  with_entry-below k h =
      with_entry-fields k (omega arith)
      ∙ fields-name k (omega arith)
      ∙ copy_bytes-outside 11 name 0 (clear_bytes dir_entry_size b off) off k (inl h)
      ∙ clear_bytes-below dir_entry_size b off k h

  pub with_entry-name : (j : ℕ) → j < 11 → with_entry b off name first size (off + j) ≡ name j
  with_entry-name j h =
      with_entry-fields (off + j) (omega arith)
      ∙ fields-name (off + j) (omega arith)
      ∙ copy_bytes-within 11 name 0 (clear_bytes dir_entry_size b off) off j h
      ∙ ap name (omega arith)

  pub with_entry-attributes : with_entry b off name first size (off + 11) ≡ 0x20
  with_entry-attributes = with_entry-fields (off + 11) (omega arith) ∙ fields-attributes

  with_entry-number :
      (k v : ℕ) → k < 28 → fields (off + k) ≡ v → with_entry b off name first size (off + k) ≡ v
  with_entry-number k v h e = with_entry-fields (off + k) (omega arith) ∙ e

  pub with_entry-first :
      first < 2 ^ 32 → first_cluster_of (with_entry b off name first size) off ≡ first
  with_entry-first h = omega (
    arith,
    with_entry-number 26 (first % 0x100) (omega arith) (unfold fields in ground arith),
    with_entry-number 27 (first / 0x100 % 0x100) (omega arith) (unfold fields in ground arith),
    with_entry-number 20 (first / 0x1_0000 % 0x100) (omega arith) (unfold fields in ground arith),
    with_entry-number 21 (first / 0x100_0000 % 0x100) (omega arith) (unfold fields in ground arith),
  )

  pub with_entry-size :
      size < 2 ^ 32 → get_le 4 (with_entry b off name first size) (off + 28) ≡ size
  unfolding with_entry fields
  with_entry-size h = get_le-put_le 4 size fields (off + 28) h

  -- It is the entry of the file.
  pub with_entry-IsEntryOf :
      name 0 ≢ 0 → name 0 ≢ 0xe5 → IsEntryOf name (with_entry b off name first size) off
  with_entry-IsEntryOf in_use kept =
      let start : with_entry b off name first size off ≡ name 0 =
        ap (with_entry b off name first size) (omega arith) ∙ with_entry-name 0 (omega arith) in
      record {
        in_use = λ e. in_use (sym start ∙ e);
        kept = λ e. kept (sym start ∙ e);
        plain = rw with_entry-attributes refl;
        same =
            same_bytes-true 11 (with_entry b off name first size) name off 0
              (λ j h. with_entry-name j h ∙ ap name (omega arith));
      }
