-- ===== src/Spinlock/Exclusion.antt =====
-- Mutual exclusion of the spin lock of lib/spinlock.h.
use memtest86plus.Base.{ℕ, Bool, true, false, ◌≡◌, ◌≢◌, refl, sym, ◌∙◌, ap}
use memtest86plus.Spinlock.{
  Point, idle, swapping, spinning, trying, waiting, holding, unlocking, access, Call, System, Step,
  Reach,
}
use memtest86plus.Base.Family.{update, update_self, update_ne, update_cases}
use native.Mathlib.Decide.{ℕ_discrete}

-- The CPU has locked the lock and has not unlocked it yet.
abbrev pub owns : Point → Bool
owns holding = true
owns unlocking = true
owns _ = false

-- Either the lock is free and no CPU owns it, or it is locked and one CPU owns it, no other.
pub data IsExclusive (s : System) : Type 0 where
  free : s.lock ≡ false → ((cpu : ℕ) → owns (s.point cpu) ≡ false) → IsExclusive s
  taken :
      (owner : ℕ)
      → s.lock ≡ true
      → owns (s.point owner) ≡ true
      → ((cpu : ℕ) → owner ≢ cpu → owns (s.point cpu) ≡ false)
      → IsExclusive s

-- What a step of a CPU does to the lock and to its owner.
data Effect (lock : Bool) (p : Point) (lock' : Bool) (p' : Point) : Type 0 where
  keeps : lock' ≡ lock → owns p' ≡ owns p → Effect lock p lock' p'
  acquires : lock ≡ false → lock' ≡ true → owns p' ≡ true → Effect lock p lock' p'
  releases : owns p ≡ true → lock' ≡ false → owns p' ≡ false → Effect lock p lock' p'

access-Effect : (lock : Bool) (p : Point) → Effect lock p (access lock p).0 (access lock p).1
unfolding access
access-Effect true swapping = keeps refl refl
access-Effect false swapping = acquires refl refl refl
access-Effect true spinning = keeps refl refl
access-Effect false spinning = keeps refl refl
access-Effect true trying = keeps refl refl
access-Effect false trying = acquires refl refl refl
access-Effect true waiting = keeps refl refl
access-Effect false waiting = keeps refl refl
access-Effect true unlocking = releases refl refl refl
access-Effect false unlocking = releases refl refl refl
access-Effect true idle = keeps refl refl
access-Effect false idle = keeps refl refl
access-Effect true holding = keeps refl refl
access-Effect false holding = keeps refl refl

Call-owns : {p q : Point} → Call p q → owns q ≡ owns p
Call-owns Call.spin_lock = refl
Call-owns Call.spin_trylock = refl
Call-owns Call.spin_wait = refl
Call-owns Call.spin_unlock = refl

module _ (s : System) (cpu : ℕ) (lock' : Bool) (p' : Point) where
  abbrev next : System
  next = record { lock = lock'; point = update s.point cpu p' }

  same_owners : owns p' ≡ owns (s.point cpu) → (j : ℕ) → owns (next.point j) ≡ owns (s.point j)
  same_owners e = update_cases s.point cpu p' (λ j p. owns p ≡ owns (s.point j)) e (λ j ne. refl)

  no_owner :
      owns p' ≡ false
      → ((j : ℕ) → cpu ≢ j → owns (s.point j) ≡ false)
      → (j : ℕ) → owns (next.point j) ≡ false
  no_owner e others = update_cases s.point cpu p' (λ j p. owns p ≡ false) e others

  -- The CPU that releases the lock is the owner.
  released :
      (owner : ℕ)
      → owns (s.point cpu) ≡ true
      → ((j : ℕ) → owner ≢ j → owns (s.point j) ≡ false)
      → (j : ℕ) → cpu ≢ j
      → owns (s.point j) ≡ false
  released owner mine others j ne = elim (ℕ_discrete owner cpu) [
    | yes e ↦ others j (λ e'. ne (sym e ∙ e'))
    | no ne' ↦ let lost = others cpu ne' in cc
  ]

  next-IsExclusive : Effect s.lock (s.point cpu) lock' p' → IsExclusive s → IsExclusive next
  next-IsExclusive (keeps l e) (free unlocked none_owns) =
      free (l ∙ unlocked) (λ j. same_owners e j ∙ none_owns j)
  next-IsExclusive (keeps l e) (taken owner locked owned others) =
      taken owner (l ∙ locked) (same_owners e owner ∙ owned) (λ j ne. same_owners e j ∙ others j ne)
  next-IsExclusive (acquires was l e) (free unlocked none_owns) =
      taken cpu l (ap owns (update_self s.point cpu p') ∙ e)
        (λ j ne. ap owns (update_ne s.point cpu p' j ne) ∙ none_owns j)
  next-IsExclusive (acquires was l e) (taken owner locked owned others) = cc
  next-IsExclusive (releases mine l e) (free unlocked none_owns) = let lost = none_owns cpu in cc
  next-IsExclusive (releases mine l e) (taken owner locked owned others) =
      free l (no_owner e (released owner mine others))

Step-IsExclusive : {s t : System} → Step s t → IsExclusive s → IsExclusive t
Step-IsExclusive {s} (Step.accesses cpu) v =
    next-IsExclusive s cpu (access s.lock (s.point cpu)).0 (access s.lock (s.point cpu)).1
      (access-Effect s.lock (s.point cpu)) v
Step-IsExclusive {s} (Step.calls cpu {p} call) v =
    next-IsExclusive s cpu s.lock p (keeps refl (Call-owns call)) v

-- In every state that any number of CPUs reach from the unlocked lock, in whatever order they take their
-- steps, either the lock is free and no CPU owns it, or it is locked and exactly one CPU owns it.
pub Reach-IsExclusive : {s : System} → Reach s → IsExclusive s
Reach-IsExclusive Reach.start = free refl (λ cpu. refl)
Reach-IsExclusive (Reach.later before step) = Step-IsExclusive step (Reach-IsExclusive before)
