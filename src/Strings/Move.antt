-- ===== src/Strings/Move.antt =====
-- `memmove` and `memset` of lib/string.c.
use memtest86plus.Base.{
  ℕ, zero, suc, ◌+◌, ◌-◌, ◌≤◌, ◌<◌, ◌%◌, ◌≡◌, refl, ap, ◌∙◌, ◌⊎◌, inl, inr, arith, Bool-cases, true,
  ltb, ◌==◌, ==_iff,
}
use memtest86plus.Strings.{store, copy_up, copy_down, memmove, memset}

store_same : (m : ℕ → ℕ) (a v x : ℕ) → x ≡ a → store m a v x ≡ v
store_same m a v x e = ground (arith, e)

store_other : (m : ℕ → ℕ) (a v x : ℕ) → (x < a) ⊎ (a < x) → store m a v x ≡ m x
store_other m a v x (inl l) = ground (arith, l)
store_other m a v x (inr l) = ground (arith, l)

copy_up_outside :
    (m : ℕ → ℕ) (d s left i x : ℕ) → (x < d + i) ⊎ (d + i + left ≤ x) → copy_up m d s left i x ≡ m x
unfolding copy_up
copy_up_outside m d s zero i x o = refl
copy_up_outside m d s (suc left) i x (inl l) =
    copy_up_outside (store m (d + i) (m (s + i))) d s left (i + 1) x (inl (omega arith))
    ∙ store_other m (d + i) (m (s + i)) x (inl l)
copy_up_outside m d s (suc left) i x (inr l) =
    copy_up_outside (store m (d + i) (m (s + i))) d s left (i + 1) x (inr (omega arith))
    ∙ store_other m (d + i) (m (s + i)) x (inr (omega arith))

copy_up_inside :
    (m : ℕ → ℕ) (d s left i k : ℕ)
    → d < s
    → i ≤ k
    → k < i + left
    → copy_up m d s left i (d + k) ≡ m (s + k)
unfolding copy_up
copy_up_inside m d s zero i k h l u = absurd (omega arith)
copy_up_inside m d s (suc left) i k h l u = elim (Bool-cases (k == i)) [
  | inl e ↦
      (let same : k ≡ i = (==_iff k i).0 e in
        copy_up_outside (store m (d + i) (m (s + i))) d s left (i + 1) (d + k) (inl (omega arith))
        ∙ store_same m (d + i) (m (s + i)) (d + k) (omega arith)
        ∙ ap (λ (j : ℕ). m (s + j)) (omega arith))
  | inr ne ↦
      copy_up_inside (store m (d + i) (m (s + i))) d s left (i + 1) k h (ground (arith, ne))
        (omega arith)
      ∙ store_other m (d + i) (m (s + i)) (s + k) (inr (omega arith))
]

copy_down_outside : (m : ℕ → ℕ) (d s i x : ℕ) → (x < d) ⊎ (d + i ≤ x) → copy_down m d s i x ≡ m x
unfolding copy_down
copy_down_outside m d s zero x o = refl
copy_down_outside m d s (suc i) x (inl l) =
    copy_down_outside (store m (d + i) (m (s + i))) d s i x (inl l)
    ∙ store_other m (d + i) (m (s + i)) x (inl (omega arith))
copy_down_outside m d s (suc i) x (inr l) =
    copy_down_outside (store m (d + i) (m (s + i))) d s i x (inr (omega arith))
    ∙ store_other m (d + i) (m (s + i)) x (inr (omega arith))

copy_down_inside : (m : ℕ → ℕ) (d s i k : ℕ) → s < d → k < i → copy_down m d s i (d + k) ≡ m (s + k)
unfolding copy_down
copy_down_inside m d s zero k h u = absurd (omega arith)
copy_down_inside m d s (suc i) k h u = elim (Bool-cases (k == i)) [
  | inl e ↦
      (let same : k ≡ i = (==_iff k i).0 e in
        copy_down_outside (store m (d + i) (m (s + i))) d s i (d + k) (inr (omega arith))
        ∙ store_same m (d + i) (m (s + i)) (d + k) (omega arith)
        ∙ ap (λ (j : ℕ). m (s + j)) (omega arith))
  | inr ne ↦
      copy_down_inside (store m (d + i) (m (s + i))) d s i k h (ground (arith, ne))
      ∙ store_other m (d + i) (m (s + i)) (s + k) (inl (omega arith))
]

-- `memmove` puts the bytes that the source block held before into the destination block, also where
-- the blocks overlap, and changes nothing else.
pub memmove_lem :
    (m : ℕ → ℕ) (dest src n : ℕ)
    → ((k : ℕ) → k < n → memmove m dest src n (dest + k) ≡ m (src + k))
      × ((x : ℕ) → (x < dest) ⊎ (dest + n ≤ x) → memmove m dest src n x ≡ m x)
unfolding memmove
memmove_lem m dest src zero = (λ k h. absurd (omega arith), λ x o. refl)
memmove_lem m dest src (suc n) =
    let some_bytes : ltb 0 (suc n) ≡ true = ground arith in
    elim (Bool-cases (ltb dest src)) [
      | inl below ↦
          rw (some_bytes, below)
            (
              λ k h.
                  copy_up_inside m dest src (suc n) 0 k (ground (arith, below)) (omega arith)
                    (omega arith),
              λ x o.
                  copy_up_outside m dest src (suc n) 0 x
                    (elim o [ inl l ↦ inl (omega arith) | inr l ↦ inr (omega arith) ]),
            )
      | inr from ↦ elim (Bool-cases (ltb src dest)) [
        | inl above ↦
            rw (some_bytes, from, above)
              (
                λ k h. copy_down_inside m dest src (suc n) k (ground (arith, above)) h,
                λ x o. copy_down_outside m dest src (suc n) x o,
              )
        | inr to ↦
            rw (some_bytes, from, to)
              (λ k h. ap (λ (a : ℕ). m (a + k)) (ground (arith, from, to)), λ x o. refl)
      ]
    ]

-- `memset` fills the block with the lowest byte of the value and changes nothing else.
pub memset_lem :
    (m : ℕ → ℕ) (ptr val len : ℕ)
    → ((k : ℕ) → k < len → memset m ptr val len (ptr + k) ≡ val % 256)
      × ((x : ℕ) → (x < ptr) ⊎ (ptr + len ≤ x) → memset m ptr val len x ≡ m x)
unfolding memset
memset_lem m ptr val zero = (λ k h. absurd (omega arith), λ x o. refl)
memset_lem m ptr val (suc len) =
    let (inside, outside) = memset_lem (store m ptr (val % 256)) (ptr + 1) val len in
    (
      λ k h. elim (Bool-cases (k == 0)) [
        | inl e ↦
            (let none_yet : k ≡ 0 = (==_iff k 0).0 e in
              outside (ptr + k) (inl (omega arith))
              ∙ store_same m ptr (val % 256) (ptr + k) (omega arith))
        | inr ne ↦
            (let later : (ptr + 1) + (k - 1) ≡ ptr + k = ground (arith, ne) in
              let filled = inside (k - 1) (ground (arith, ne)) in rw later at filled)
      ],
      λ x o. elim o [
        | inl l ↦ outside x (inl (omega arith)) ∙ store_other m ptr (val % 256) x (inl l)
        | inr l ↦
            outside x (inr (omega arith)) ∙ store_other m ptr (val % 256) x (inr (omega arith))
      ],
    )
