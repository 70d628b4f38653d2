-- ===== src/Atomic/Exclusion.antt =====
-- Mutual exclusion of the spin lock of core/src/atomic.rs.
use mathlib.Core.Path.{subst}
use llfree_rs.Base.{ℕ, ◌==◌, ◌≡◌, refl, sym, Bool, true, false, List, [], ◌∷◌, inl, inr, Bool-cases}
use llfree_rs.Atomic.Spin.{
  new, try_lock, unlock, Shared, Event, attempt, pause, access, release, step, run, IsExclusive,
}

freed :
    {A : Type 0} (v : A) (e : Event A)
    → IsExclusive (step e (record { spin = record { lock = false; value = v }; guards = [] }))
unfolding step try_lock unlock
freed v (attempt c) = inr (c, refl, refl)
freed v (pause c) = inl (refl, refl)
freed v (access c f) = inl (refl, refl)
freed v (release c) = inl (refl, refl)

taken :
    {A : Type 0} (v : A) (g : ℕ) (e : Event A)
    → IsExclusive (step e (record { spin = record { lock = true; value = v }; guards = g ∷ [] }))
unfolding step try_lock unlock
taken v g (attempt c) = inr (g, refl, refl)
taken v g (pause c) = inr (g, refl, refl)
taken v g (access c f) = elim (Bool-cases (c == g)) [
  | inl e ↦ rw e (inr (g, refl, refl))
  | inr e ↦ rw e (inr (g, refl, refl))
]
taken v g (release c) = elim (Bool-cases (c == g)) [
  | inl e ↦ rw e (inl (refl, refl))
  | inr e ↦ rw e (inr (g, refl, refl))
]

shape :
    {A : Type 0} (s : Shared A) {b : Bool} {gs : List ℕ}
    → s.spin.lock ≡ b
    → s.guards ≡ gs
    → record { spin = record { lock = b; value = s.spin.value }; guards = gs } ≡ s
shape s l g = sym (rw (l, g) refl)

step-IsExclusive :
    {A : Type 0} (e : Event A) (s : Shared A) → IsExclusive s → IsExclusive (step e s)
step-IsExclusive e s (inl (l, g)) =
    subst (λ t. IsExclusive (step e t)) (shape s l g) (freed s.spin.value e)
step-IsExclusive e s (inr (c, l, g)) =
    subst (λ t. IsExclusive (step e t)) (shape s l g) (taken s.spin.value c e)

run-keeps :
    {A : Type 0} (es : List (Event A)) (s : Shared A) → IsExclusive s → IsExclusive (run es s)
unfolding run
run-keeps [] s h = h
run-keeps (e ∷ es) s h = run-keeps es (step e s) (step-IsExclusive e s h)

-- Whatever cores do with a new lock, in whatever order, the lock is free and no core has a guard,
-- or it is taken and exactly one core has the only guard.
pub run-IsExclusive :
    {A : Type 0} (es : List (Event A)) (v : A)
    → IsExclusive (run es (record { spin = new v; guards = [] }))
run-IsExclusive es v = run-keeps es _ (inl (refl, refl))
