-- ===== src/Bitfield/FirstZeros/Reference.antt =====
-- `first_zeros_aligned` computes the plain search for the first zero digit of 2 ^ order bits.
use mathlib.Core.Option
use native.Mathlib.Nat.{mul-le-mul_right, mod-eq_of_lt, pow-le-pow_right, one-le-pow}
use native.Mathlib.Decide.{dec_lt}
use llfree_rs.Base.{
  ℕ, zero, suc, ◌+◌, ◌-◌, ◌*◌, ◌/◌, ◌^◌, ◌≤◌, ◌<◌, bit_and, bit_or, ◌≡◌, refl, ap, sym, ◌∙◌, inl,
  inr, Option, some, returns, arith, Option-cases,
}
use llfree_rs.Word.{shl, not64, wrapping_sub, trailing_zeros, low_zeros}
use llfree_rs.Word.Split.{bit_and_high, two-pow-add}
use llfree_rs.Word.Digits.{
  first_zero_digit, fill_digit, first_zero_digit-IsZeroDigit, bit_or-fill_digit,
}
use llfree_rs.Bitfield.FirstZeros.{first_zeros_aligned, block_at, zero_digits}
use llfree_rs.Bitfield.FirstZeros.Place.{place, low_ones-place, pairs-place}
use llfree_rs.Bitfield.FirstZeros.Trick.{hits, digit_mask, digit_mask-lt, hits-place}

-- The first aligned block of `n` zero bits among `m` blocks: the word with the block set, and the
-- block's offset.
abbrev pub reference : ℕ → ℕ → ℕ → Option (ℕ × ℕ)
reference n m v = Option.map (λ q. (fill_digit n q v, q * n)) (first_zero_digit n m v)

-- The mask of a block within the word does not wrap.
pub block_fits : (n q : ℕ) → suc q * n ≤ 64 → shl (2 ^ n - 1) (q * n) ≡ (2 ^ n - 1) * 2 ^ (q * n)
block_fits n q h =
    let e : n + q * n ≡ suc q * n = omega arith in
    let w : 2 ^ n - 1 + 1 ≡ 2 ^ n = omega (arith, one-le-pow n 2 (omega arith)) in
    mod-eq_of_lt (
      omega (
        arith,
        two-pow-add n (q * n),
        ap (λ (t : ℕ). 2 ^ t) e,
        ap (λ (t : ℕ). t * 2 ^ (q * n)) w,
        pow-le-pow_right {n = 2} (omega arith) h,
        one-le-pow n 2 (omega arith),
        one-le-pow (q * n) 2 (omega arith),
      ))

block_at-reference :
    (n m v off : ℕ)
    → m * n ≡ 64
    → 0 < n
    → off ≡ place n m (first_zero_digit n m v)
    → block_at v (2 ^ n - 1) off ≡ reference n m v
block_at-reference n m v off e pos h = elim (Option-cases (first_zero_digit n m v)) [
  | inl f ↦ let o : off ≡ 64 = h ∙ ap (place n m) f ∙ e in rw (f, o) refl
  | inr (q, f) ↦
      let o : off ≡ q * n = h ∙ ap (place n m) f in
      let d = first_zero_digit-IsZeroDigit n m v q f in
      let fits : suc q * n ≤ 64 = omega (arith, mul-le-mul_right n d.0) in
      rw (f, o) (ground (arith, block_fits n q fits, bit_or-fill_digit n q v d.1))
]

-- The wrap of the difference is above every bit of the complement.
no_wrap :
    (v m : ℕ)
    → v < 2 ^ 64
    → m < 2 ^ 64
    → bit_and (wrapping_sub v m) (not64 v) ≡ bit_and (v + 2 ^ 64 - m) (2 ^ 64 - 1 - v)
no_wrap v m h k = elim (dec_lt v m) [
  | yes lt ↦
      let e : wrapping_sub v m ≡ v + 2 ^ 64 - m = omega arith in
      ap (λ (t : ℕ). bit_and t (not64 v)) e
  | no ge ↦
      let e : wrapping_sub v m ≡ v - m = omega arith in
      let f : v - m + 2 ^ 64 ≡ v + 2 ^ 64 - m = omega arith in
      ap (λ (t : ℕ). bit_and t (not64 v)) e
      ∙ sym (bit_and_high 64 (v - m) (not64 v) (omega arith))
      ∙ ap (λ (t : ℕ). bit_and t (not64 v)) f
]

zero_digits-hits :
    (s m v : ℕ) → v < 2 ^ 64 → m * suc s ≡ 64 → zero_digits v (digit_mask (suc s) m) s ≡ hits s m v
zero_digits-hits s m v h e =
    let p : 2 ^ (m * suc s) ≡ 2 ^ 64 = ap (λ (t : ℕ). 2 ^ t) e in
    let m_lt : digit_mask (suc s) m < 2 ^ 64 = omega (arith, digit_mask-lt s m) in
    ap (λ (t : ℕ). bit_and (t / 2 ^ s) (digit_mask (suc s) m))
      (no_wrap v (digit_mask (suc s) m) h m_lt
        ∙ ap (λ (t : ℕ). bit_and (v + t - digit_mask (suc s) m) (t - 1 - v)) (sym p))

-- The reference at each order.
abbrev pub Computes : ℕ → ℕ → Type 0
Computes order v = first_zeros_aligned v order ≡ returns (reference (2 ^ order) (2 ^ (6 - order)) v)

by_borrow :
    (s m v : ℕ)
    → v < 2 ^ 64
    → m * suc s ≡ 64
    → block_at v (2 ^ suc s - 1) (trailing_zeros (zero_digits v (digit_mask (suc s) m) s))
      ≡ reference (suc s) m v
by_borrow s m v h e = block_at-reference (suc s) m v _ e (omega arith) (
    ap trailing_zeros (zero_digits-hits s m v h e)
    ∙ ap (λ (t : ℕ). low_zeros t (hits s m v)) (sym e)
    ∙ hits-place s m v (omega (arith, ap (λ (t : ℕ). 2 ^ t) e)))

single : (v : ℕ) → Computes 0 v
unfolding first_zeros_aligned
single v = ap returns (block_at-reference 1 64 v _ refl (omega arith) (low_ones-place 64 v))

double : (v : ℕ) → Computes 1 v
unfolding first_zeros_aligned
double v = ap returns (block_at-reference 2 32 v _ refl (omega arith) (pairs-place 32 v))

nibble : (v : ℕ) → v < 2 ^ 64 → Computes 2 v
unfolding first_zeros_aligned
nibble v h = ap returns (by_borrow 3 16 v h refl)

byte : (v : ℕ) → v < 2 ^ 64 → Computes 3 v
unfolding first_zeros_aligned
byte v h = ap returns (by_borrow 7 8 v h refl)

half_word : (v : ℕ) → v < 2 ^ 64 → Computes 4 v
unfolding first_zeros_aligned
half_word v h = ap returns (by_borrow 15 4 v h refl)

digit_32 :
    (v q : ℕ)
    → first_zero_digit 32 2 v ≡ some q
    → q < 2
    → bit_or v ((2 ^ 32 - 1) * 2 ^ (q * 32)) ≡ fill_digit 32 q v
digit_32 v q e h = bit_or-fill_digit 32 q v (first_zero_digit-IsZeroDigit 32 2 v q e).1

word : (v : ℕ) → v < 2 ^ 64 → Computes 5 v
unfolding first_zeros_aligned first_zero_digit
word v h = ground (arith, digit_32 v 0, digit_32 v 1)

whole : (v : ℕ) → v < 2 ^ 64 → Computes 6 v
unfolding first_zeros_aligned first_zero_digit
whole v h = ground arith

-- On every 64-bit word and for every order up to 6, the bit tricks find what the plain search for
-- the first aligned block of 2 ^ order zero bits finds: the same offset, the word with that block
-- set, and nothing where there is no such block.
pub first_zeros_aligned-reference :
    (order v : ℕ)
    → order ≤ 6
    → v < 2 ^ 64
    → first_zeros_aligned v order ≡ returns (reference (2 ^ order) (2 ^ (6 - order)) v)
first_zeros_aligned-reference zero v h k = single v
first_zeros_aligned-reference (suc zero) v h k = double v
first_zeros_aligned-reference (suc (suc zero)) v h k = nibble v k
first_zeros_aligned-reference (suc (suc (suc zero))) v h k = byte v k
first_zeros_aligned-reference (suc (suc (suc (suc zero)))) v h k = half_word v k
first_zeros_aligned-reference (suc (suc (suc (suc (suc zero))))) v h k = word v k
first_zeros_aligned-reference (suc (suc (suc (suc (suc (suc zero)))))) v h k = whole v k
first_zeros_aligned-reference (suc (suc (suc (suc (suc (suc (suc n))))))) v h k =
    absurd (omega arith)
