-- ===== src/Atomic.antt =====
-- core/src/atomic.rs: the operations of one atomic cell, run alone. Each takes the value that the
-- cell holds and gives its result and the value that the cell holds afterwards. Memory orderings
-- have no counterpart, and a weak exchange may also fail where the strong one succeeds.
pub mod Spin
pub mod Exclusion
mod Tests
use llfree_rs.Base.{◌≡◌, ap, Bool, Option, none, some, Result, ok, err, if◌then◌else◌}

module _ {A : Type 0} where
  abbrev pub fetch_update : (A → Option A) → A → Result A A × A
  fetch_update f v = elim (f v) [ some w ↦ (ok v, w) | none ↦ (err v, v) ]

  -- `same` is the equality of the underlying integers.
  abbrev pub compare_exchange : (A → A → Bool) → A → A → A → Result A A × A
  compare_exchange same current new v = if same v current then (ok v, new) else (err v, v)

  abbrev pub swap : A → A → A × A
  swap new v = (v, new)

  pub fetch_update-some : (f : A → Option A) (v w : A) → f v ≡ some w → fetch_update f v ≡ (ok v, w)
  fetch_update-some f v w e = ap (λ o. elim o [ some x ↦ (ok v, x) | none ↦ (err v, v) ]) e

  pub fetch_update-none : (f : A → Option A) (v : A) → f v ≡ none → fetch_update f v ≡ (err v, v)
  fetch_update-none f v e = ap (λ o. elim o [ some x ↦ (ok v, x) | none ↦ (err v, v) ]) e
