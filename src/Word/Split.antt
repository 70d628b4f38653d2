-- ===== src/Word/Split.antt =====
-- The bit operations on numbers that are split at a bit, and their bounds.
use Prim.Native.Nat.{bit_and-bitwise}
use native.Mathlib.Nat.{pow-suc}
use llfree_rs.Base.{
  ℕ, zero, suc, ◌+◌, ◌*◌, ◌/◌, ◌^◌, ◌≤◌, ◌<◌, bit_and, bit_or, ◌≡◌, refl, ap, arith,
}
use llfree_rs.Word.Bits.{bit_or_step, bit_and_step}

pub two-pow-suc : (k : ℕ) → 2 ^ suc k ≡ 2 * 2 ^ k
two-pow-suc k = omega (arith, pow-suc 2 k)

pub two-pow-suc-mul : (k x : ℕ) → 2 ^ suc k * x ≡ 2 * (2 ^ k * x)
two-pow-suc-mul k x = omega (arith, ap (λ (t : ℕ). t * x) (two-pow-suc k))

pub suc-add : (a b : ℕ) → suc a + b ≡ suc (a + b)
suc-add a b = omega arith

pub two-pow-add : (a b : ℕ) → 2 ^ (a + b) ≡ 2 ^ a * 2 ^ b
two-pow-add zero b = ground arith
two-pow-add (suc a) b = omega (
  arith,
  ap (λ (t : ℕ). 2 ^ t) (suc-add a b),
  two-pow-suc (a + b),
  two-pow-suc-mul a (2 ^ b),
  two-pow-add a b,
)

pub zero-bit_and : (b : ℕ) → bit_and 0 b ≡ 0
zero-bit_and b = bit_and-bitwise 0 b

pub bit_and-le : (n a b : ℕ) → a ≤ n → (bit_and a b ≤ a) × (bit_and a b ≤ b)
bit_and-le n zero b h = omega (arith, zero-bit_and b)
bit_and-le zero (suc a) b h = absurd (omega arith)
bit_and-le (suc n) (suc a) b h =
    omega (arith, bit_and_step (suc a) b, bit_and-le n (suc a / 2) (b / 2) (omega arith))

bit_or-zero_fuel : (n a : ℕ) → a ≤ n → bit_or a 0 ≡ a
bit_or-zero_fuel n zero h = refl
bit_or-zero_fuel zero (suc a) h = absurd (omega arith)
bit_or-zero_fuel (suc n) (suc a) h =
    omega (arith, bit_or_step (suc a) 0, bit_or-zero_fuel n (suc a / 2) (omega arith))

pub bit_or-zero : (a : ℕ) → bit_or a 0 ≡ a
bit_or-zero a = bit_or-zero_fuel a a (omega arith)

zero-bit_or_fuel : (n a : ℕ) → a ≤ n → bit_or 0 a ≡ a
zero-bit_or_fuel n zero h = refl
zero-bit_or_fuel zero (suc a) h = absurd (omega arith)
zero-bit_or_fuel (suc n) (suc a) h =
    omega (arith, bit_or_step 0 (suc a), zero-bit_or_fuel n (suc a / 2) (omega arith))

pub zero-bit_or : (a : ℕ) → bit_or 0 a ≡ a
zero-bit_or a = zero-bit_or_fuel a a (omega arith)

bit_and-self_fuel : (n a : ℕ) → a ≤ n → bit_and a a ≡ a
bit_and-self_fuel n zero h = refl
bit_and-self_fuel zero (suc a) h = absurd (omega arith)
bit_and-self_fuel (suc n) (suc a) h =
    omega (arith, bit_and_step (suc a) (suc a), bit_and-self_fuel n (suc a / 2) (omega arith))

pub bit_and_self : (a : ℕ) → bit_and a a ≡ a
bit_and_self a = bit_and-self_fuel a a (omega arith)

module _ (x y : ℕ) where
  pub bit_and_split :
      (k a b : ℕ)
      → a < 2 ^ k
      → b < 2 ^ k
      → bit_and (a + 2 ^ k * x) (b + 2 ^ k * y) ≡ bit_and a b + 2 ^ k * bit_and x y
  bit_and_split zero zero zero p q = ground arith
  bit_and_split zero (suc a) b p q = absurd (omega arith)
  bit_and_split zero zero (suc b) p q = absurd (omega arith)
  bit_and_split (suc k) a b p q = ground (
    arith,
    bit_and_step (a + 2 ^ suc k * x) (b + 2 ^ suc k * y),
    bit_and_step a b,
    two-pow-suc k,
    two-pow-suc-mul k x,
    two-pow-suc-mul k y,
    two-pow-suc-mul k (bit_and x y),
    bit_and_split k (a / 2) (b / 2),
  )

  pub bit_or_split :
      (k a b : ℕ)
      → a < 2 ^ k
      → b < 2 ^ k
      → bit_or (a + 2 ^ k * x) (b + 2 ^ k * y) ≡ bit_or a b + 2 ^ k * bit_or x y
  bit_or_split zero zero zero p q = ground arith
  bit_or_split zero (suc a) b p q = absurd (omega arith)
  bit_or_split zero zero (suc b) p q = absurd (omega arith)
  bit_or_split (suc k) a b p q = ground (
    arith,
    bit_or_step (a + 2 ^ suc k * x) (b + 2 ^ suc k * y),
    bit_or_step a b,
    two-pow-suc k,
    two-pow-suc-mul k x,
    two-pow-suc-mul k y,
    two-pow-suc-mul k (bit_or x y),
    bit_or_split k (a / 2) (b / 2),
  )

-- What stands above the other operand does not count.
pub bit_and_high : (k x y : ℕ) → y < 2 ^ k → bit_and (x + 2 ^ k) y ≡ bit_and x y
bit_and_high zero x zero h = omega (arith, bit_and-le (x + 2 ^ 0) (x + 2 ^ 0) 0, bit_and-le x x 0)
bit_and_high zero x (suc y) h = absurd (omega arith)
bit_and_high (suc k) x y h = ground (
  arith,
  bit_and_step (x + 2 ^ suc k) y,
  bit_and_step x y,
  two-pow-suc k,
  bit_and_high k (x / 2) (y / 2),
)
