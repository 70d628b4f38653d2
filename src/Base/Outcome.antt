-- ===== src/Base/Outcome.antt =====
-- Runs of the code: a run returns a value or panics (a failed `assert!`, `expect` or `unwrap`, an
-- index out of bounds, an arithmetic overflow). The build has overflow checks on and debug
-- assertions off.
use Prim.Native.Nat.{ℕ, zero, suc, ◌<◌, ◌-◌}
use native.Mathlib.Omega.{arith}
use mathlib.Core.Path.{◌≡◌, refl, ap}
use mathlib.Core.Bool.{Bool, true, false}
use mathlib.Core.Option.{Option, none, some}
use mathlib.Core.List.{List, [], ◌∷◌}
use llfree_rs.Base.Lists.{get_elem?, get_or, length}
use llfree_rs.Base.Tests.{if◌then◌else◌, ltb}

pub data Run {ℓ} (A : Type ℓ) : Type ℓ where
  returns : A → Run A
  panics : Run A

infixl 5 ◌>>=◌ ◌>>◌
abbrev pub ◌>>=◌ {ℓ κ} : {A : Type ℓ} {B : Type κ} → Run A → (A → Run B) → Run B
returns a >>= f = f a
panics >>= f = panics

abbrev pub ◌>>◌ {ℓ} : {B : Type ℓ} → Run (Unit {0}) → Run B → Run B
m >> k = m >>= λ _. k

pub bind-returns {ℓ κ} :
    {A : Type ℓ} {B : Type κ} {m : Run A} {a : A} (f : A → Run B) → m ≡ returns a → (m >>= f) ≡ f a
bind-returns f e = ap (λ r. r >>= f) e

-- `assert!`.
abbrev pub assert : Bool → Run (Unit {0})
assert true = returns tt
assert false = panics

-- `unwrap` and `expect` of an option.
abbrev pub unwrap {ℓ} : {A : Type ℓ} → Option A → Run A
unwrap none = panics
unwrap (some a) = returns a

-- `xs[i]`.
abbrev pub index {ℓ} : {A : Type ℓ} → List A → ℕ → Run A
index xs i = unwrap (get_elem? xs i)

pub index-get_or {ℓ} :
    {A : Type ℓ} (a : A) (xs : List A) (i : ℕ)
    → i < length xs
    → index xs i ≡ returns (get_or xs i a)
index-get_or a [] i h = absurd (omega arith)
index-get_or a (x ∷ xs) zero h = refl
index-get_or a (x ∷ xs) (suc i) h = index-get_or a xs i (omega arith)

-- `a - b` on unsigned numbers.
pub bind-panics {ℓ κ} :
    {A : Type ℓ} {B : Type κ} {m : Run A} (f : A → Run B) → m ≡ panics → (m >>= f) ≡ panics
bind-panics f e = ap (λ r. r >>= f) e

abbrev pub checked_sub : ℕ → ℕ → Run ℕ
checked_sub a b = if ltb a b then panics else returns (a - b)

-- Rust's `Result`.
pub data Result (A E : Type 0) : Type 0 where
  ok : A → Result A E
  err : E → Result A E
