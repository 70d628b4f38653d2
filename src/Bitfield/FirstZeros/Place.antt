-- ===== src/Bitfield/FirstZeros/Place.antt =====
-- The offsets that `first_zeros_aligned` computes by trailing ones, orders 0 and 1, against the
-- plain search for a zero digit.
use mathlib.Core.Option
use llfree_rs.Base.{
  ℕ, zero, suc, ◌+◌, ◌*◌, ◌/◌, ◌%◌, max, bit_or, ◌≡◌, ap, ◌∙◌, Option, none, some, arith,
}
use llfree_rs.Word.{low_ones}
use llfree_rs.Word.Bits.{bit_or_step}
use llfree_rs.Word.Digits.{first_zero_digit}

-- The offset of digit `q` of `n` bits, or the end of the `m` digits.
abbrev pub place : ℕ → ℕ → Option ℕ → ℕ
place n m none = m * n
place n m (some q) = q * n

pub place-suc : (n m : ℕ) (o : Option ℕ) → place n (suc m) (Option.map suc o) ≡ n + place n m o
place-suc n m none = omega arith
place-suc n m (some q) = omega arith

pub low_ones-place : (m v : ℕ) → low_ones m v ≡ place 1 m (first_zero_digit 1 m v)
unfolding low_ones first_zero_digit
low_ones-place zero v = omega arith
low_ones-place (suc m) v =
    ground (arith, low_ones-place m (v / 2), place-suc 1 m (first_zero_digit 1 m (v / 2)))

-- Ones in the upper bit of each of `m` pairs.
abbrev pub pair_mask : ℕ → ℕ
pair_mask zero = 0
pair_mask (suc m) = 2 + 4 * pair_mask m

abbrev pub pairs : ℕ → ℕ → ℕ
pairs m v = bit_or (bit_or v (v / 2)) (pair_mask m)

pairs_step :
    (m v : ℕ)
    → (pairs (suc m) v % 2 ≡ max (v % 2) (v / 2 % 2))
      × (pairs (suc m) v / 2 % 2 ≡ 1)
      × (pairs (suc m) v / 2 / 2 ≡ pairs m (v / 4))
pairs_step m v = ground (
  arith,
  bit_or_step (bit_or v (v / 2)) (pair_mask (suc m)),
  bit_or_step v (v / 2),
  bit_or_step (bit_or (v / 2) (v / 2 / 2)) (1 + 2 * pair_mask m),
  bit_or_step (v / 2) (v / 2 / 2),
)

pub pairs-place : (m v : ℕ) → low_ones (m * 2) (pairs m v) ≡ place 2 m (first_zero_digit 2 m v)
unfolding low_ones first_zero_digit
pairs-place zero v = omega arith
pairs-place (suc m) v =
    let e : suc m * 2 ≡ suc (suc (m * 2)) = omega arith in
    ap (λ (t : ℕ). low_ones t (pairs (suc m) v)) e
    ∙ ground
        (arith, pairs_step m v, pairs-place m (v / 4), place-suc 2 m (first_zero_digit 2 m (v / 4)))
