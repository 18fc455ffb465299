-- ===== src/Base/Family.antt =====
-- Values by CPU number: the update of one.
use Prim.Native.Nat.{ℕ}
use mathlib.Core.Path.{◌≡◌, subst}
use mathlib.Core.Logic.{ite, ◌≢◌}
use native.Mathlib.Decide.{ℕ_discrete}
use native.Mathlib.Omega.{arith}

abbrev pub update {ℓ} : {A : Type ℓ} → (ℕ → A) → ℕ → A → ℕ → A
update values cpu new other = ite (ℕ_discrete cpu other) new (values other)

module _ {ℓ} {A : Type ℓ} (f : ℕ → A) (i : ℕ) (a : A) where
  pub update_self : update f i a i ≡ a
  update_self = ground arith

  pub update_ne : (j : ℕ) → i ≢ j → update f i a j ≡ f j
  update_ne j h = ground arith

  -- A claim on the updated values, from the claims on the new value and on the others.
  pub update_cases {ℓ'} :
      (P : ℕ → A → Type ℓ') → P i a → ((j : ℕ) → i ≢ j → P j (f j)) → (j : ℕ) → P j (update f i a j)
  update_cases P new old j = elim (ℕ_discrete i j) as (λ d. P j (ite d a (f j))) [
    | yes e ↦ subst (λ k. P k a) e new
    | no ne ↦ old j ne
  ]
