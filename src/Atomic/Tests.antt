-- ===== src/Atomic/Tests.antt =====
-- Two cores at a spin lock.
use llfree_rs.Base.{ℕ, ◌+◌, ◌≡◌, refl, List, [], ◌∷◌}
use llfree_rs.Atomic.Spin.{new, Shared, Event, attempt, pause, access, release, run, IsExclusive}
use llfree_rs.Atomic.Exclusion.{run-IsExclusive}

abbrev two_cores : List (Event ℕ)
two_cores =
    attempt 1
    ∷ attempt 2
    ∷ access 1 (λ n. n + 1)
    ∷ access 2 (λ n. n + 10)
    ∷ release 2
    ∷ release 1
    ∷ pause 2
    ∷ attempt 2
    ∷ access 2 (λ n. n + 10)
    ∷ []

abbrev fresh : Shared ℕ
fresh = record { spin = new 5; guards = [] }

access_test : (run two_cores fresh).spin.value ≡ 16
unfolding run
access_test = refl

run-IsExclusive_example : IsExclusive (run two_cores fresh)
run-IsExclusive_example = run-IsExclusive two_cores 5
