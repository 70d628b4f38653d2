-- ===== src/Word/Bits.antt =====
-- The recursion behind the native bit operations, one binary digit at a time.
use Prim.Native.Nat.{digits, bitwise, bit_and-bitwise, bit_or-bitwise}
use llfree_rs.Base.{
  ℕ, zero, suc, ◌+◌, ◌*◌, ◌/◌, ◌%◌, ◌≤◌, min, max, bit_and, bit_or, ◌≡◌, refl, sym, ◌∙◌, ap, arith,
}

module _ (rest : ℕ → ℕ) (op : ℕ → ℕ → ℕ) where
  no_digits : (k y : ℕ) → digits rest op k 0 y ≡ rest y
  no_digits zero y = refl
  no_digits (suc k) y = refl

  -- The result is the same with any two amounts of fuel that are enough for the first number.
  enough : (x y k l : ℕ) → x ≤ k → x ≤ l → digits rest op k x y ≡ digits rest op l x y
  enough zero y k l _ _ = no_digits k y ∙ sym (no_digits l y)
  enough (suc x) y zero l h _ = absurd (omega arith)
  enough (suc x) y (suc k) zero _ h = absurd (omega arith)
  enough (suc x) y (suc k) (suc l) h h' =
      ap (λ (t : ℕ). t * 2 + op (suc x % 2) (y % 2))
        (enough (suc x / 2) (y / 2) k l (omega arith) (omega arith))

  lowest_digit :
      (x y : ℕ)
      → digits rest op x (suc x / 2) (y / 2) * 2 + op (suc x % 2) (y % 2)
        ≡ bitwise rest op (suc x / 2) (y / 2) * 2 + op (suc x % 2) (y % 2)
  lowest_digit x y =
      let top : suc x / 2 ≤ suc x / 2 = omega arith in
      ap (λ (t : ℕ). t * 2 + op (suc x % 2) (y % 2))
        (enough (suc x / 2) (y / 2) x (suc x / 2) (omega arith) top)

pub bit_and_step : (v w : ℕ) → bit_and v w ≡ bit_and (v / 2) (w / 2) * 2 + min (v % 2) (w % 2)
bit_and_step zero w = simp bit_and-bitwise (omega arith)
bit_and_step (suc v) w = simp bit_and-bitwise (lowest_digit (λ _. 0) min v w)

pub bit_or_step : (v w : ℕ) → bit_or v w ≡ bit_or (v / 2) (w / 2) * 2 + max (v % 2) (w % 2)
bit_or_step zero w = simp bit_or-bitwise (omega arith)
bit_or_step (suc v) w = simp bit_or-bitwise (lowest_digit (λ d. d) max v w)
