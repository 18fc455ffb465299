-- ===== src/Fat/Chain.antt =====
-- Chains of clusters in the file allocation table, and `fat_free_chain` of system/fat32.c.
use memtest86plus.Base.{
  ℕ, zero, suc, ◌≤◌, ◌<◌, ◌≡◌, ◌⊎◌, inl, inr, refl, sym, ◌∙◌, ap, arith, List, [], ◌∷◌, ◌++◌,
  length, true, false,
}
use native.Mathlib.Decide.{ℕ_discrete}
use memtest86plus.Base.Bytes.{Bytes}
use memtest86plus.Fat.{Fs, Device, Store, eoc_value, counted, is_valid_cluster, free_loop}
use memtest86plus.Fat.Layout.{IsLayout}
use memtest86plus.Fat.Copies.{IsSound}
use memtest86plus.Fat.Entry.{entry, Sets, fat_read_entry_lem, fat_write_entry_lem}

-- In a table, the clusters of the list follow one another from `c` on, in ascending order, and lead to
-- the cluster `last`.
abbrev pub Leads : (ℕ → ℕ) → ℕ → List ℕ → ℕ → Type 0
Leads table c [] last = c ≡ last
Leads table c (x ∷ xs) last = (c ≡ x) × (x < table x) × Leads table (table x) xs last

-- The cluster is one of the list, or the last one.
abbrev pub IsOn : List ℕ → ℕ → ℕ → Type 0
IsOn [] last y = y ≡ last
IsOn (x ∷ xs) last y = (y ≡ x) ⊎ IsOn xs last y

pub last-IsOn : (xs : List ℕ) (last : ℕ) → IsOn xs last last
last-IsOn [] last = refl
last-IsOn (x ∷ xs) last = inr (last-IsOn xs last)

pub Leads-bounds :
    (table : ℕ → ℕ) (c : ℕ) (xs : List ℕ) (last y : ℕ)
    → Leads table c xs last
    → IsOn xs last y
    → (c ≤ y) × (y ≤ last)
Leads-bounds table c [] last y l on = (omega arith, omega arith)
Leads-bounds table c (x ∷ xs) last y (e, up, l) (inl at) =
    let (low, high) = Leads-bounds table (table x) xs last last l (last-IsOn xs last) in
    (omega arith, omega arith)
Leads-bounds table c (x ∷ xs) last y (e, up, l) (inr on) =
    let (low, high) = Leads-bounds table (table x) xs last y l on in (omega arith, high)

-- A table that agrees on the clusters of the list has the same chain.
pub Leads-ext :
    (t u : ℕ → ℕ) (c : ℕ) (xs : List ℕ) (last : ℕ)
    → ((x : ℕ) → c ≤ x → x < last → u x ≡ t x)
    → Leads t c xs last
    → Leads u c xs last
Leads-ext t u c [] last same l = l
Leads-ext t u c (x ∷ xs) last same (e, up, l) =
    let (low, high) = Leads-bounds t (t x) xs last last l (last-IsOn xs last) in
    let at_x : u x ≡ t x = same x (omega arith) (omega arith) in
    (
      e,
      omega arith,
      rw at_x (Leads-ext t u (t x) xs last (λ y le less. same y (omega arith) less) l),
    )

pub Leads-snoc :
    (t : ℕ → ℕ) (c : ℕ) (xs : List ℕ) (last new : ℕ)
    → Leads t c xs last
    → t last ≡ new
    → last < new
    → Leads t c (xs ++ (last ∷ [])) new
Leads-snoc t c [] last new l e up = (l, omega arith, e)
Leads-snoc t c (x ∷ xs) last new (e', up', l) e up =
    (e', up', Leads-snoc t (t x) xs last new l e up)

pub IsOn-snoc :
    (xs : List ℕ) (last new y : ℕ) → IsOn xs last y ⊎ (y ≡ new) → IsOn (xs ++ (last ∷ [])) new y
IsOn-snoc [] last new y h = h
IsOn-snoc (x ∷ xs) last new y (inl (inl e)) = inl e
IsOn-snoc (x ∷ xs) last new y (inl (inr on)) = inr (IsOn-snoc xs last new y (inl on))
IsOn-snoc (x ∷ xs) last new y (inr e) = inr (IsOn-snoc xs last new y (inr e))

pub IsOn-snoc_cases :
    (xs : List ℕ) (last new y : ℕ) → IsOn (xs ++ (last ∷ [])) new y → IsOn xs last y ⊎ (y ≡ new)
IsOn-snoc_cases [] last new y h = h
IsOn-snoc_cases (x ∷ xs) last new y (inl e) = inl (inl e)
IsOn-snoc_cases (x ∷ xs) last new y (inr on) = elim (IsOn-snoc_cases xs last new y on) [
  | inl old ↦ inl (inr old)
  | inr e ↦ inr e
]

pub eoc_value-invalid : {fs : Fs} → IsLayout fs → is_valid_cluster fs (eoc_value fs) ≡ false
eoc_value-invalid v = ground (arith, v.kind, v.clusters, v.fat16_clusters)

module _ (d : Device) (sound : IsSound d) {fs : Fs} (v : IsLayout fs) (T : ℕ → ℕ) where
  free_loop-invalid :
      (left c : ℕ) (s : Store) → is_valid_cluster fs c ≡ false → free_loop d fs left c s ≡ s
  unfolding free_loop
  free_loop-invalid zero c s h = refl
  free_loop-invalid (suc left) c s h = rw h refl

  -- One round: the entry of the cluster is cleared.
  free_loop-suc :
      (left c : ℕ) (s : Store)
      → 2 ≤ c
      → c < fs.max_cluster
      → (s' : Store) × (free_loop d fs (suc left) c s ≡ free_loop d fs left (entry fs s.disk c) s')
        × Sets fs c 0 s.disk s'.disk
  unfolding free_loop
  free_loop-suc left c s low high =
      let (s', done, sets) = fat_write_entry_lem d sound fs v c 0 (counted s) high (ground arith) in
      let valid : is_valid_cluster fs c ≡ true = ground arith in
      (s', rw (fat_read_entry_lem d sound fs c s, done, valid) refl, sets)

  rest-Leads :
      (a b : ℕ → Bytes) {c next last : ℕ} (xs : List ℕ)
      → Sets fs c 0 a b
      → c < next
      → last < fs.max_cluster
      → entry fs a c ≡ next
      → Leads (entry fs a) next xs last
      → Leads (entry fs b) (entry fs a c) xs last
  rest-Leads a b {c} {next} {last} xs sets up high e l = rw e (
      Leads-ext (entry fs a) (entry fs b) next xs last
        (λ x low less. sets.others x (omega arith) (λ e'. omega arith)) l)

  rest_agrees :
      (a b : ℕ → Bytes) {c y : ℕ} (last : ℕ) (ys : List ℕ)
      → Sets fs c 0 a b
      → c ≡ y
      → T c ≡ 0
      → ((x : ℕ) → x < fs.max_cluster → (entry fs a x ≡ T x) ⊎ IsOn (y ∷ ys) last x)
      → (x : ℕ) → x < fs.max_cluster
      → (entry fs b x ≡ T x) ⊎ IsOn ys last x
  rest_agrees a b {c} last ys sets e z agree x h = elim (ℕ_discrete x c) [
    | yes at ↦ inl (ap (entry fs b) at ∙ sets.new ∙ sym z ∙ ap T (sym at))
    | no other ↦ elim (agree x h) [
      | inl same ↦ inl (sets.others x h other ∙ same)
      | inr on ↦ elim on [ inl at_y ↦ absurd (other (at_y ∙ sym e)) | inr later ↦ inr later ]
    ]
  ]

  -- The clusters of a chain that the table had marked as free are free again, and the table is what it
  -- was.
  pub free_loop_lem :
      (left c : ℕ) (xs : List ℕ) (last : ℕ) (s : Store)
      → length xs < left
      → 2 ≤ c
      → last < fs.max_cluster
      → Leads (entry fs s.disk) c xs last
      → entry fs s.disk last ≡ eoc_value fs
      → ((x : ℕ) → IsOn xs last x → T x ≡ 0)
      → ((x : ℕ) → x < fs.max_cluster → (entry fs s.disk x ≡ T x) ⊎ IsOn xs last x)
      → (x : ℕ) → x < fs.max_cluster
      → entry fs (free_loop d fs left c s).disk x ≡ T x
  free_loop_lem zero c xs last s enough low high l e zeros agree x h = absurd (omega arith)
  free_loop_lem (suc left) c [] last s enough low high l e zeros agree x h =
      let (s', done, sets) = free_loop-suc left c s low (omega arith) in
      let e' : entry fs s.disk c ≡ eoc_value fs = ap (entry fs s.disk) l ∙ e in
      let end : is_valid_cluster fs (entry fs s.disk c) ≡ false =
        ap (is_valid_cluster fs) e' ∙ eoc_value-invalid v in
      ap (λ (t : Store). entry fs t.disk x)
        (done ∙ free_loop-invalid left (entry fs s.disk c) s' end)
      ∙ elim (ℕ_discrete x c) [
        | yes at ↦ ap (entry fs s'.disk) at ∙ sets.new ∙ sym (zeros x (at ∙ l))
        | no other ↦
            sets.others x h other
            ∙ elim (agree x h) [ inl same ↦ same | inr on ↦ absurd (other (on ∙ sym l)) ]
      ]
  free_loop_lem (suc left) c (y ∷ ys) last s enough low high (at_y, up, l) e zeros agree x h =
      let T' = entry fs s.disk in
      let (above, below) = Leads-bounds T' (T' y) ys last last l (last-IsOn ys last) in
      let (s', done, sets) = free_loop-suc left c s low (omega arith) in
      ap (λ (t : Store). entry fs t.disk x) done
      ∙ free_loop_lem left (T' c) ys last s' (omega arith)
          (omega (arith, ap (entry fs s.disk) at_y)) high
          (rest-Leads s.disk s'.disk ys sets (omega arith) high (ap (entry fs s.disk) at_y) l)
          (sets.others last high (λ e'. omega arith) ∙ e) (λ z on. zeros z (inr on))
          (rest_agrees s.disk s'.disk last ys sets at_y (zeros c (inl at_y)) agree) x h
