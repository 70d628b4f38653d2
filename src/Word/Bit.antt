-- ===== src/Word/Bit.antt =====
-- The bits of a word, and the change of a block of equal bits.
use native.Mathlib.Nat.{one-le-pow}
use llfree_rs.Base.{
  ℕ, zero, suc, ◌+◌, ◌-◌, ◌*◌, ◌/◌, ◌%◌, ◌^◌, ◌≤◌, ◌<◌, ◌≡◌, refl, ap, sym, ◌∙◌, ◌⊎◌, inl, inr,
  Bool, true, false, not, if◌then◌else◌, arith,
}
use llfree_rs.Word.{ones}
use llfree_rs.Word.Split.{two-pow-suc, two-pow-suc-mul, suc-add}

unfoldable pub bit : ℕ → ℕ → ℕ
bit w zero = w % 2
bit w (suc j) = bit (w / 2) j

pub bit-lt : (w j : ℕ) → bit w j < 2
unfolding bit
bit-lt w zero = omega arith
bit-lt w (suc j) = bit-lt (w / 2) j

pub bit-split_low : (s x y j : ℕ) → j < s → bit (x + 2 ^ s * y) j ≡ bit x j
unfolding bit
bit-split_low zero x y j h = absurd (omega arith)
bit-split_low (suc s) x y zero h = omega (arith, two-pow-suc-mul s y)
bit-split_low (suc s) x y (suc j) h =
    let e : (x + 2 ^ suc s * y) / 2 ≡ x / 2 + 2 ^ s * y = omega (arith, two-pow-suc-mul s y) in
    ap (λ (t : ℕ). bit t j) e ∙ bit-split_low s (x / 2) y j (omega arith)

pub bit-split_high : (s x y j : ℕ) → x < 2 ^ s → bit (x + 2 ^ s * y) (s + j) ≡ bit y j
unfolding bit
bit-split_high zero x y j h =
    let e : x + 2 ^ 0 * y ≡ y = omega arith in
    let f : 0 + j ≡ j = omega arith in ap (λ (t : ℕ). bit t (0 + j)) e ∙ ap (bit y) f
bit-split_high (suc s) x y j h =
    let e : (x + 2 ^ suc s * y) / 2 ≡ x / 2 + 2 ^ s * y = omega (arith, two-pow-suc-mul s y) in
    ap (bit (x + 2 ^ suc s * y)) (suc-add s j)
    ∙ ap (λ (t : ℕ). bit t (s + j)) e
    ∙ bit-split_high s (x / 2) y j (omega (arith, two-pow-suc s))

abbrev pub bit_of : Bool → ℕ
bit_of v = if v then 1 else 0

-- `n` bits that are all `v`.
unfoldable pub block : Bool → ℕ → ℕ
block v n = if v then 2 ^ n - 1 else 0

pub block-lt : (v : Bool) (n : ℕ) → block v n < 2 ^ n
unfolding block
block-lt true n = omega (arith, one-le-pow n 2 (omega arith))
block-lt false n = one-le-pow n 2 (omega arith)

pub bit-zero : (j : ℕ) → bit 0 j ≡ 0
unfolding bit
bit-zero zero = refl
bit-zero (suc j) = bit-zero j

bit-block : (v : Bool) (n j : ℕ) → j < n → bit (block v n) j ≡ bit_of v
unfolding bit block
bit-block false n j h = bit-zero j
bit-block true zero j h = absurd (omega arith)
bit-block true (suc n) zero h = omega (arith, two-pow-suc n, one-le-pow n 2 (omega arith))
bit-block true (suc n) (suc j) h =
    let e : (2 ^ suc n - 1) / 2 ≡ 2 ^ n - 1 = omega (arith, two-pow-suc n) in
    ap (λ (t : ℕ). bit t j) e ∙ bit-block true n j (omega arith)

-- The `n` bits from `s` on turn to `v`, and all others stay.
pub record Flips (s n : ℕ) (v : Bool) (w w' : ℕ) : Type 0 where
  pub before : (j : ℕ) → j < n → bit w (s + j) ≡ bit_of (not v)
  pub after : (j : ℕ) → j < n → bit w' (s + j) ≡ bit_of v
  pub outside : (j : ℕ) → (j < s) ⊎ (s + n ≤ j) → bit w' j ≡ bit w j

module _ (n s low high : ℕ) (h : low < 2 ^ s) where
  -- The word with the block `v` between its low and its high part.
  abbrev pub around : Bool → ℕ
  around v = low + 2 ^ s * (block v n + 2 ^ n * high)

  pub bit-around : (v : Bool) (j : ℕ) → j < n → bit (around v) (s + j) ≡ bit_of v
  bit-around v j lt =
      bit-split_high s low (block v n + 2 ^ n * high) j h
      ∙ bit-split_low n (block v n) high j lt
      ∙ bit-block v n j lt

  around_high : (v : Bool) (j : ℕ) → bit (around v) (s + (n + j)) ≡ bit high j
  around_high v j =
      bit-split_high s low (block v n + 2 ^ n * high) (n + j) h
      ∙ bit-split_high n (block v n) high j (block-lt v n)

  pub around-Flips : (v : Bool) → Flips s n v (around (not v)) (around v)
  around-Flips v = record {
    before = bit-around (not v);
    after = bit-around v;
    outside = λ j c. elim c [
      | inl lt ↦
          bit-split_low s low (block v n + 2 ^ n * high) j lt
          ∙ sym (bit-split_low s low (block (not v) n + 2 ^ n * high) j lt)
      | inr ge ↦
          let e : j ≡ s + (n + (j - s - n)) = omega arith in
          ap (bit (around v)) e
          ∙ around_high v (j - s - n)
          ∙ sym (around_high (not v) (j - s - n))
          ∙ ap (bit (around (not v))) (sym e)
    ];
  }

-- The ones of a word are the sum of its bits.
unfoldable pub sum_below : ℕ → (ℕ → ℕ) → ℕ
sum_below zero f = 0
sum_below (suc n) f = f 0 + sum_below n (λ j. f (suc j))

pub ones-sum : (n w : ℕ) → ones n w ≡ sum_below n (bit w)
unfolding ones sum_below bit
ones-sum zero w = refl
ones-sum (suc n) w = omega (arith, ones-sum n (w / 2))
