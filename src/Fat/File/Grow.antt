-- ===== src/Fat/File/Grow.antt =====
-- The allocation of the clusters of a file by `fat32_write_file` of system/fat32.c.
use memtest86plus.Base.{
  ℕ, zero, suc, ◌+◌, ◌≤◌, ◌<◌, ◌≡◌, ◌≢◌, ◌⊎◌, inl, inr, refl, sym, ◌∙◌, ap, arith, List, [], ◌∷◌,
  ◌++◌, length, length-append, Bool, true, false, ◌==◌,
}
use native.Mathlib.Decide.{ℕ_discrete, dec_lt}
use mathlib.Core.Path.{subst}
use memtest86plus.Base.Bytes.{Bytes}
use memtest86plus.Fat.{Fs, Device, Store, eoc_value}
use memtest86plus.Fat.Layout.{IsLayout}
use memtest86plus.Fat.Copies.{IsSound}
use memtest86plus.Fat.Entry.{entry, Sets, Fits, fat_write_entry_lem}
use memtest86plus.Fat.Alloc.{found, full, fat_alloc_cluster_lem}
use memtest86plus.Fat.Chain.{
  Leads, IsOn, Leads-bounds, Leads-ext, Leads-snoc, IsOn-snoc, IsOn-snoc_cases, last-IsOn,
}
use memtest86plus.Fat.File.{alloc_clusters}

-- The clusters that are allocated so far form a chain; the table `T` of the start had them free, and is
-- otherwise as it was. The scan for a free cluster always finds one behind them.
pub record IsGrown (fs : Fs) (T : ℕ → ℕ) (disk : ℕ → Bytes) (first : ℕ) (xs : List ℕ) (last : ℕ)
    : Type 0 where
  pub leads : Leads (entry fs disk) first xs last
  pub end : entry fs disk last ≡ eoc_value fs
  pub from : 2 ≤ first
  pub within : last < fs.max_cluster
  pub zeros : (x : ℕ) → IsOn xs last x → T x ≡ 0
  pub agree : (x : ℕ) → x < fs.max_cluster → (entry fs disk x ≡ T x) ⊎ IsOn xs last x
  pub below : (x : ℕ) → 2 ≤ x → x ≤ last → entry fs disk x ≢ 0
  pub short : length xs + 2 ≤ last

module _ {fs : Fs} (v : IsLayout fs) (T : ℕ → ℕ) where
  eoc_value-ne : eoc_value fs ≢ 0
  eoc_value-ne = ground (arith, v.kind)

  module _ (a b : ℕ → Bytes) (n : ℕ) (sets : Sets fs n (eoc_value fs) a b) (low : 2 ≤ n)
      (high : n < fs.max_cluster) (is_free : entry fs a n ≡ 0)
      (none_before : (x : ℕ) → 2 ≤ x → x < n → entry fs a x ≢ 0) where
    -- The first cluster.
    first-IsGrown : ((x : ℕ) → x < fs.max_cluster → entry fs a x ≡ T x) → IsGrown fs T b n [] n
    first-IsGrown same = record {
      leads = refl;
      end = sets.new;
      from = low;
      within = high;
      zeros = λ x on. ap T on ∙ sym (same n high) ∙ is_free;
      agree = λ x h. elim (ℕ_discrete x n) [
        | yes e ↦ inr e
        | no ne ↦ inl (sets.others x h ne ∙ same x h)
      ];
      below = λ x l h z. elim (ℕ_discrete x n) [
        | yes e ↦ eoc_value-ne (sym sets.new ∙ ap (entry fs b) (sym e) ∙ z)
        | no ne ↦ none_before x l (omega arith) (sym (sets.others x (omega arith) ne) ∙ z)
      ];
      short = omega arith;
    }

    module _ (c : ℕ → Bytes) (first : ℕ) (xs : List ℕ) (last : ℕ) (r : IsGrown fs T a first xs last)
        (link : Sets fs last n b c) where
      last-lt : last < n
      last-lt = elim (dec_lt last n) [
        | yes h ↦ h
        | no h ↦ absurd (r.below n low (omega arith) is_free)
      ]

      -- The entries of the other clusters are what they were.
      kept : (x : ℕ) → x < fs.max_cluster → x ≢ n → x ≢ last → entry fs c x ≡ entry fs a x
      kept x h ne ne' = link.others x h ne' ∙ sets.others x h ne

      new_end : entry fs c n ≡ eoc_value fs
      new_end = let up = last-lt in link.others n high (λ e. omega arith) ∙ sets.new

      -- The cluster follows the last one.
      next-IsGrown : IsGrown fs T c first (xs ++ (last ∷ [])) n
      next-IsGrown =
          let up = last-lt in
          record {
            leads =
                Leads-snoc (entry fs c) first xs last n
                  (Leads-ext (entry fs a) (entry fs c) first xs last
                    (λ x l h.
                      kept x (omega (arith, r.within)) (λ e. omega arith) (λ e. omega arith))
                    r.leads)
                  link.new up;
            end = new_end;
            from = r.from;
            within = high;
            zeros = λ x on. elim (IsOn-snoc_cases xs last n x on) [
              | inl old ↦ r.zeros x old
              | inr e ↦ ap T e ∙ zero_at_n
            ];
            agree = λ x h. elim (ℕ_discrete x n) [
              | yes e ↦ inr (IsOn-snoc xs last n x (inr e))
              | no ne ↦ elim (ℕ_discrete x last) [
                | yes e ↦
                    inr (
                      IsOn-snoc xs last n x
                        (inl (subst (IsOn xs last) (sym e) (last-IsOn xs last))))
                | no ne' ↦ elim (r.agree x h) [
                  | inl same ↦ inl (kept x h ne ne' ∙ same)
                  | inr on ↦ inr (IsOn-snoc xs last n x (inl on))
                ]
              ]
            ];
            below = λ x l h z. elim (ℕ_discrete x n) [
              | yes e ↦ eoc_value-ne (sym new_end ∙ ap (entry fs c) (sym e) ∙ z)
              | no ne ↦ elim (ℕ_discrete x last) [
                | yes e ↦ let z' : n ≡ 0 = sym link.new ∙ ap (entry fs c) (sym e) ∙ z in omega arith
                | no ne' ↦ none_before x l (omega arith) (sym (kept x (omega arith) ne ne') ∙ z)
              ]
            ];
            short = omega (arith, r.short, length-append xs (last ∷ []));
          }
        where
          zero_at_n : T n ≡ 0
          zero_at_n = elim (r.agree n high) [
            | inl same ↦ sym same ∙ is_free
            | inr on ↦
                let bounds = Leads-bounds (entry fs a) first xs last n r.leads on in
                let up = last-lt in absurd (omega (arith, bounds.1))
          ]

-- The clusters that a loop has allocated: none yet, or a chain.
pub data IsHeld (fs : Fs) (T : ℕ → ℕ) (disk : ℕ → Bytes) (first : ℕ) : Type 0 where
  nothing :
      first ≡ 0 → ((x : ℕ) → x < fs.max_cluster → entry fs disk x ≡ T x) → IsHeld fs T disk first
  chain : (xs : List ℕ) (last : ℕ) → IsGrown fs T disk first xs last → IsHeld fs T disk first

-- How the loop ends: it gives up with what it holds, or has a chain of the given length.
pub data Grows (fs : Fs) (T : ℕ → ℕ) (total : ℕ) (r : (Bool × ℕ) × Store) : Type 0 where
  gives_up :
      (first : ℕ) (s' : Store)
      → r ≡ ((false, first), s')
      → IsHeld fs T s'.disk first
      → Grows fs T total r
  completes :
      (first : ℕ) (xs : List ℕ) (last : ℕ) (s' : Store)
      → r ≡ ((true, first), s')
      → IsGrown fs T s'.disk first xs last
      → length xs + 1 ≡ total
      → Grows fs T total r

module _ (d : Device) (sound : IsSound d) {fs : Fs} (v : IsLayout fs) (T : ℕ → ℕ)
    (some_clusters : 2 ≤ fs.max_cluster) (total : ℕ) where
  pub cluster-Fits : (n : ℕ) → n < fs.max_cluster → Fits fs n
  cluster-Fits n h = ground (arith, v.kind, v.clusters, v.fat16_clusters)

  -- The loop behind the first cluster.
  alloc_more :
      (left first : ℕ) (xs : List ℕ) (last : ℕ) (s : Store)
      → IsGrown fs T s.disk first xs last
      → length xs + 1 + left ≡ total
      → Grows fs T total (alloc_clusters d fs left first last s)
  unfolding alloc_clusters
  alloc_more zero first xs last s r e = completes first xs last s refl r (omega arith)
  alloc_more (suc left) first xs last s r e =
      elim (fat_alloc_cluster_lem d sound v s some_clusters) [
        | found n s1 done low high z before sets ↦
            let (s2, linked, link) =
              fat_write_entry_lem d sound fs v last n s1 r.within (cluster-Fits n high) in
            let has_prev : (last == 0) ≡ false = ground (arith, r.short) in
            let has_first : (first == 0) ≡ false = ground (arith, r.from) in
            let next =
              next-IsGrown v T s.disk s1.disk n sets low high z before s2.disk first xs last r
                link in
            rw (done, has_first, has_prev, linked)
              (alloc_more left first (xs ++ (last ∷ [])) n s2 next
                (omega (arith, e, length-append xs (last ∷ []))))
        | full s1 done same taken ↦ gives_up first s1 (rw done refl) (
            chain xs last
              (subst (λ (disk : ℕ → Bytes). IsGrown fs T disk first xs last) (sym same) r))
      ]

  -- All of it, for a file of at least one cluster.
  pub alloc_clusters_lem :
      (left : ℕ) (s : Store)
      → ((x : ℕ) → x < fs.max_cluster → entry fs s.disk x ≡ T x)
      → suc left ≡ total
      → Grows fs T total (alloc_clusters d fs (suc left) 0 0 s)
  unfolding alloc_clusters
  alloc_clusters_lem left s same e = elim (fat_alloc_cluster_lem d sound v s some_clusters) [
    | found n s1 done low high z before sets ↦ rw done (
        alloc_more left n [] n s1 (first-IsGrown v T s.disk s1.disk n sets low high z before same)
          (omega (arith, e)))
    | full s1 done same' taken ↦
        gives_up 0 s1 (rw done refl)
          (nothing refl (λ x h. ap (λ (disk : ℕ → Bytes). entry fs disk x) same' ∙ same x h))
  ]
