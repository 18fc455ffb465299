-- ===== src/Strings/Search/First.antt =====
-- `strstr` of lib/string.c finds the first place of a string in another one.
use memtest86plus.Base.{
  ℕ, zero, suc, ◌+◌, ◌-◌, ◌≤◌, ◌<◌, ◌≡◌, ◌≢◌, refl, sym, ◌∙◌, ap, arith, ltb, ◌==◌, ==_iff, Option,
  none, some, inl, inr, Bool-cases, true, false,
}
use memtest86plus.Strings.Search.{
  memcmp_loop, memcmp, strlen_loop, strlen, strstr_round, strstr_loop, strstr,
}
use native.Mathlib.Decide.{ℕ_discrete}

-- The bytes from `s` on are a string of length `n`.
pub record IsString (m : ℕ → ℕ) (s n : ℕ) : Type 0 where
  pub within : (i : ℕ) → i < n → m (s + i) ≢ 0
  pub end : m (s + n) ≡ 0

-- What a result of `memcmp` says of the bytes with index from `i` to `n - 1`.
abbrev Compared : (ℕ → ℕ) → ℕ → ℕ → ℕ → ℕ → Option (ℕ × ℕ) → Type 0
Compared m s1 s2 i n none = (j : ℕ) → i ≤ j → j < n → m (s1 + j) ≡ m (s2 + j)
Compared m s1 s2 i n (some differ) = (j : ℕ) × (j < n) × (m (s1 + j) ≢ m (s2 + j))

module _ (m : ℕ → ℕ) (s1 s2 n : ℕ) where
  Compared-later :
      (i : ℕ) (r : Option (ℕ × ℕ))
      → m (s1 + i) ≡ m (s2 + i)
      → Compared m s1 s2 (i + 1) n r
      → Compared m s1 s2 i n r
  Compared-later i none e h = λ j le l. elim (ℕ_discrete i j) [
    | yes same ↦ sym (ap (λ k. m (s1 + k)) same) ∙ e ∙ ap (λ k. m (s2 + k)) same
    | no ne ↦ h j (omega arith) l
  ]
  Compared-later i (some differ) e h = h

  memcmp_loop-Compared :
      (left i : ℕ) → i + left ≡ n → Compared m s1 s2 i n (memcmp_loop m s1 s2 left i)
  unfolding memcmp_loop
  memcmp_loop-Compared zero i e = λ j le l. absurd (omega arith)
  memcmp_loop-Compared (suc left) i e = elim (Bool-cases (m (s1 + i) == m (s2 + i))) [
    | inl same ↦ rw same (
        Compared-later i (memcmp_loop m s1 s2 left (i + 1)) ((==_iff _ _).0 same)
          (memcmp_loop-Compared left (i + 1) (omega arith)))
    | inr differ ↦ rw differ (i, omega arith, ground (arith, differ))
  ]

-- `strlen` returns the length of a string, if the fuel is more than that.
strlen_loop_lem :
    (m : ℕ → ℕ) (s n fuel len : ℕ)
    → IsString m s n
    → len ≤ n
    → n < len + fuel
    → strlen_loop m s fuel len ≡ some n
unfolding strlen_loop
strlen_loop_lem m s n zero len h le enough = absurd (omega arith)
strlen_loop_lem m s n (suc fuel) len h le enough = elim (ℕ_discrete len n) [
  | yes e ↦
      let at_end : (m (s + len) == 0) ≡ true = (==_iff _ _).1 (ap (λ k. m (s + k)) e ∙ h.end) in
      rw at_end (ap some e)
  | no ne ↦
      let inside : (m (s + len) == 0) ≡ false = ground (arith, h.within len (omega arith)) in
      rw inside (strlen_loop_lem m s n fuel (len + 1) h (omega arith) (omega arith))
]

module _ (m : ℕ → ℕ) (haystack needle needle_len : ℕ) where
  -- The needle stands at this index.
  abbrev pub StandsAt : ℕ → Type 0
  StandsAt idx = (j : ℕ) → j < needle_len → m (haystack + idx + j) ≡ m (needle + j)

  -- What a result of `strstr` says of the indices from `idx` to `n - 1`: it is the first place of the
  -- needle, or NULL if there is none.
  abbrev pub IsFirst : ℕ → ℕ → Option ℕ → Type 0
  IsFirst idx n none = (k : ℕ) → idx ≤ k → k < n → ¬ StandsAt k
  IsFirst idx n (some found) =
      (k : ℕ) × (found ≡ haystack + k)
      × (k < n)
      × StandsAt k
      × ((k' : ℕ) → idx ≤ k' → k' < k → ¬ StandsAt k')

  IsFirst-round :
      (idx n : ℕ) (r : Option (ℕ × ℕ)) (rest : Option ℕ)
      → idx < n
      → Compared m (haystack + idx) needle 0 needle_len r
      → IsFirst (idx + 1) n rest
      → IsFirst idx n (strstr_round r (haystack + idx) rest)
  IsFirst-round idx n none rest l same later =
      (idx, refl, l, λ j k. same j (omega arith) k, λ k' le less. absurd (omega arith))
  IsFirst-round idx n (some differ) none l (j, below, ne) later = λ k le less.
      elim (ℕ_discrete idx k) [
        | yes e ↦ λ stands. ne (ap (λ k. m (haystack + k + j)) e ∙ stands j below)
        | no other ↦ later k (omega arith) less
      ]
  IsFirst-round idx n (some differ) (some found) l (j, below, ne)
        (k, at_k, less, stands, none_before) =
      (
        k,
        at_k,
        less,
        stands,
        λ k' le before. elim (ℕ_discrete idx k') [
          | yes e ↦ λ there. ne (ap (λ k. m (haystack + k + j)) e ∙ there j below)
          | no other ↦ none_before k' (omega arith) before
        ],
      )

  strstr_loop-IsFirst :
      (left idx n : ℕ)
      → idx + left ≡ n
      → IsFirst idx n (strstr_loop m haystack needle needle_len left idx)
  unfolding strstr_loop memcmp
  strstr_loop-IsFirst zero idx n e = λ k le less. absurd (omega arith)
  strstr_loop-IsFirst (suc left) idx n e =
      IsFirst-round idx n (memcmp m (haystack + idx) needle needle_len)
        (strstr_loop m haystack needle needle_len left (idx + 1)) (omega arith)
        (memcmp_loop-Compared m (haystack + idx) needle needle_len needle_len 0 (omega arith))
        (strstr_loop-IsFirst left (idx + 1) n (omega arith))

-- For two strings whose lengths are less than the fuel, `strstr` returns, with the first place of the
-- needle in the haystack at which it fits before the end, or with NULL if there is none.
pub strstr_lem :
    (m : ℕ → ℕ) (fuel haystack haystack_len needle needle_len : ℕ)
    → IsString m haystack haystack_len
    → IsString m needle needle_len
    → haystack_len < fuel
    → needle_len < fuel
    → (r : Option ℕ) × (strstr m fuel haystack needle ≡ some r)
      × IsFirst m haystack needle needle_len 0 (haystack_len + 1 - needle_len) r
unfolding strstr strlen
strstr_lem m fuel haystack haystack_len needle needle_len h d enough enough' =
    let e = strlen_loop_lem m haystack haystack_len fuel 0 h (omega arith) (omega arith) in
    let e' = strlen_loop_lem m needle needle_len fuel 0 d (omega arith) (omega arith) in
    elim (Bool-cases (ltb haystack_len needle_len)) [
      | inl longer ↦ (none, rw (e, e', longer) refl, λ k le less. ground (arith, longer))
      | inr fits ↦ (
        strstr_loop m haystack needle needle_len (haystack_len - needle_len + 1) 0,
        rw (e, e', fits) refl,
        strstr_loop-IsFirst m haystack needle needle_len (haystack_len - needle_len + 1) 0
            (haystack_len + 1 - needle_len) (ground (arith, fits)),
      )
    ]
