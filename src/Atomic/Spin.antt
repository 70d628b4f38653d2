-- ===== src/Atomic/Spin.antt =====
-- core/src/atomic.rs: the spin lock, shared by cores that try to take it, give up or wait, and
-- drop their guards, in any order.
use llfree_rs.Base.{
  ℕ, ◌==◌, ◌≡◌, Bool, true, false, List, [], ◌∷◌, ok, err, if◌then◌else◌, ◌⊎◌, ◌||◌,
}
use llfree_rs.Atomic.{compare_exchange}

pub record Spin (A : Type 0) : Type 0 where
  pub lock : Bool
  pub value : A

abbrev pub new : {A : Type 0} → A → Spin A
new v = record { lock = false; value = v }

abbrev same : Bool → Bool → Bool
same true b = b
same false true = false
same false false = true

-- Whether a guard is given out, and the lock afterwards.
unfoldable pub try_lock : {A : Type 0} → Spin A → Bool × Spin A
try_lock s =
    let (r, lock') = compare_exchange same false true s.lock in
    (elim r [ ok _ ↦ true | err _ ↦ false ], record s { lock = lock' })

-- The drop of a guard.
unfoldable pub unlock : {A : Type 0} → Spin A → Spin A
unlock s = record s { lock = false }

-- The lock and the cores that hold a guard.
pub record Shared (A : Type 0) : Type 0 where
  pub spin : Spin A
  pub guards : List ℕ

-- `attempt c`: core c tries to take the lock, in `try_lock` or in a round of `lock`. `pause c`: a
-- weak exchange of `lock` fails with no reason. `access c f`: core c changes the value through its
-- guard. `release c`: core c drops its guard.
pub data Event (A : Type 0) : Type 0 where
  attempt : ℕ → Event A
  pause : ℕ → Event A
  access : ℕ → (A → A) → Event A
  release : ℕ → Event A

abbrev pub holds : ℕ → List ℕ → Bool
holds c [] = false
holds c (g ∷ gs) = c == g || holds c gs

abbrev remove : ℕ → List ℕ → List ℕ
remove c [] = []
remove c (g ∷ gs) = if c == g then gs else g ∷ remove c gs

-- An access or a release needs a guard; without one there is no such step.
unfoldable pub step : {A : Type 0} → Event A → Shared A → Shared A
unfolding try_lock unlock
step (attempt c) s =
    let (got, spin') = try_lock s.spin in
    record { spin = spin'; guards = if got then c ∷ s.guards else s.guards }
step (pause c) s = s
step (access c f) s =
    if holds c s.guards
    then record s { spin = record { lock = s.spin.lock; value = f s.spin.value } }
    else s
step (release c) s =
    if holds c s.guards then record { spin = unlock s.spin; guards = remove c s.guards } else s

unfoldable pub run : {A : Type 0} → List (Event A) → Shared A → Shared A
unfolding step
run [] s = s
run (e ∷ es) s = run es (step e s)

-- The lock is free and no core has a guard, or it is taken and one core has the only guard.
abbrev pub IsExclusive : {A : Type 0} → Shared A → Type 0
IsExclusive s =
    ((s.spin.lock ≡ false) × (s.guards ≡ []))
    ⊎ ((c : ℕ) × (s.spin.lock ≡ true) × (s.guards ≡ c ∷ []))
