-- ===== src/Bitfield/FirstZeros/Trick.antt =====
-- The search for a zero digit by a borrow: `(v - mask) & !v`, orders 2 to 4, at any digit of two
-- bits or more and any number of digits.
use native.Mathlib.Nat.{
  mod-add-div, mod-lt, one-le-pow, mul-le-mul_left, add-mul-div_left, div-lt_iff_lt-mul,
  div-eq_of_lt, div-eq_of_lt-le,
}
use mathlib.Core.Path.{ap₂}
use llfree_rs.Base.{
  ℕ, zero, suc, ◌+◌, ◌-◌, ◌*◌, ◌/◌, ◌%◌, ◌^◌, ◌<◌, bit_and, ◌≡◌, refl, ap, sym, ◌∙◌, inl, inr, ◌==◌,
  arith, Bool-cases,
}
use llfree_rs.Word.{low_zeros}
use llfree_rs.Word.Bits.{bit_and_step}
use llfree_rs.Word.Split.{
  two-pow-suc, two-pow-suc-mul, two-pow-add, suc-add, bit_and_split, bit_and-le, bit_and_self,
}
use llfree_rs.Word.Digits.{first_zero_digit}
use llfree_rs.Bitfield.FirstZeros.Place.{place, place-suc}

-- A one at the bottom of each of `m` digits of `k` bits.
abbrev pub digit_mask : ℕ → ℕ → ℕ
digit_mask k zero = 0
digit_mask k (suc m) = 1 + 2 ^ k * digit_mask k m

-- The zero digits of `suc s` bits, without a wrap.
abbrev pub hits : ℕ → ℕ → ℕ → ℕ
hits s m v =
    bit_and (bit_and (v + 2 ^ (m * suc s) - digit_mask (suc s) m) (2 ^ (m * suc s) - 1 - v) / 2 ^ s)
      (digit_mask (suc s) m)

two-pow-suc_digit : (k m : ℕ) → 2 ^ (suc m * k) ≡ 2 ^ k * 2 ^ (m * k)
two-pow-suc_digit k m =
    let e : suc m * k ≡ k + m * k = omega arith in ap (λ (t : ℕ). 2 ^ t) e ∙ two-pow-add k (m * k)

pub digit_mask-lt : (s m : ℕ) → digit_mask (suc s) m < 2 ^ (m * suc s)
digit_mask-lt s zero = one-le-pow (0 * suc s) 2 (omega arith)
digit_mask-lt s (suc m) = omega (
  arith,
  two-pow-suc_digit (suc s) m,
  mul-le-mul_left (2 ^ suc s) (digit_mask-lt s m),
  two-pow-suc s,
  one-le-pow s 2 (omega arith),
)

bit_and_shift : (s y m : ℕ) → bit_and y (2 ^ s * m) ≡ 2 ^ s * bit_and (y / 2 ^ s) m
bit_and_shift s y m =
    let pos : 0 < 2 ^ s = one-le-pow s 2 (omega arith) in
    let e : y ≡ y % 2 ^ s + 2 ^ s * (y / 2 ^ s) = omega (arith, mod-add-div y (2 ^ s)) in
    let f : 2 ^ s * m ≡ 0 + 2 ^ s * m = omega arith in
    ap (λ (t : ℕ). bit_and t (2 ^ s * m)) e
    ∙ ap (bit_and (y % 2 ^ s + 2 ^ s * (y / 2 ^ s))) f
    ∙ bit_and_split (y / 2 ^ s) m s (y % 2 ^ s) 0 (mod-lt y pos) pos
    ∙ omega (arith, bit_and-le (y % 2 ^ s) (y % 2 ^ s) 0)

-- A digit that is not zero lends nothing: its test bit is 0.
no_borrow : (s c : ℕ) → 0 < c → c < 2 ^ suc s → bit_and (c - 1) (2 ^ suc s - 1 - c) < 2 ^ s
no_borrow s c h k =
    omega (arith, two-pow-suc s, bit_and-le (c - 1) (c - 1) (2 ^ suc s - 1 - c) (omega arith))

mask_even : (s a m : ℕ) → bit_and (2 * a) (1 + 2 ^ suc s * m) ≡ 2 ^ suc s * bit_and (a / 2 ^ s) m
mask_even s a m =
    let e : 2 * a / 2 ≡ a = omega arith in
    let f : (1 + 2 ^ suc s * m) / 2 ≡ 2 ^ s * m = omega (arith, two-pow-suc-mul s m) in
    bit_and_step (2 * a) (1 + 2 ^ suc s * m)
    ∙ omega (
      arith,
      ap (λ (t : ℕ). bit_and t ((1 + 2 ^ suc s * m) / 2)) e,
      ap (bit_and a) f,
      bit_and_shift s a m,
      two-pow-suc-mul s (bit_and (a / 2 ^ s) m),
    )

-- The difference and the complement, digit by digit.
module _ (s m c u : ℕ) (c_lt : c < 2 ^ suc s) (u_lt : u < 2 ^ (m * suc s)) where
  abbrev rest : ℕ
  rest = u + 2 ^ (m * suc s) - digit_mask (suc s) m

  complement :
      2 ^ (suc m * suc s) - 1 - (c + 2 ^ suc s * u)
      ≡ 2 ^ suc s - 1 - c + 2 ^ suc s * (2 ^ (m * suc s) - 1 - u)
  complement =
      let e : 2 ^ (m * suc s) - 1 - u + u + 1 ≡ 2 ^ (m * suc s) = omega arith in
      omega (arith, two-pow-suc_digit (suc s) m, ap (λ (t : ℕ). 2 ^ suc s * t) e)

  difference :
      0 < c
      → c + 2 ^ suc s * u + 2 ^ (suc m * suc s) - digit_mask (suc s) (suc m)
        ≡ c - 1 + 2 ^ suc s * rest
  difference h =
      let e : rest + digit_mask (suc s) m ≡ u + 2 ^ (m * suc s) =
        omega (arith, digit_mask-lt s m) in
      omega (arith, two-pow-suc_digit (suc s) m, ap (λ (t : ℕ). 2 ^ suc s * t) e)

  difference_zero :
      c ≡ 0
      → c + 2 ^ suc s * u + 2 ^ (suc m * suc s) - digit_mask (suc s) (suc m)
        ≡ 2 ^ suc s - 1 + 2 ^ suc s * (rest - 1)
  difference_zero h =
      let e : rest - 1 + 1 + digit_mask (suc s) m ≡ u + 2 ^ (m * suc s) =
        omega (arith, digit_mask-lt s m) in
      omega (
        arith,
        two-pow-suc_digit (suc s) m,
        ap (λ (t : ℕ). 2 ^ suc s * t) e,
        one-le-pow (suc s) 2 (omega arith),
      )

  halve : (t a : ℕ) → (t + 2 ^ suc s * a) / 2 ^ s ≡ t / 2 ^ s + 2 * a
  halve t a =
      let e : t + 2 ^ suc s * a ≡ t + 2 ^ s * (2 * a) = omega (arith, two-pow-suc-mul s a) in
      ap (λ (x : ℕ). x / 2 ^ s) e ∙ add-mul-div_left t (2 * a) (one-le-pow s 2 (omega arith))

  hits-suc : 0 < c → hits s (suc m) (c + 2 ^ suc s * u) ≡ 2 ^ suc s * hits s m u
  hits-suc h =
      let t = bit_and (c - 1) (2 ^ suc s - 1 - c) in
      let a = bit_and rest (2 ^ (m * suc s) - 1 - u) in
      let eA : bit_and (c + 2 ^ suc s * u + 2 ^ (suc m * suc s) - digit_mask (suc s) (suc m))
            (2 ^ (suc m * suc s) - 1 - (c + 2 ^ suc s * u))
          ≡ t + 2 ^ suc s * a =
        ap₂ bit_and (difference h) complement
        ∙ bit_and_split rest (2 ^ (m * suc s) - 1 - u) (suc s) (c - 1) (2 ^ suc s - 1 - c)
            (omega arith) (omega arith) in
      let eD : t / 2 ^ s + 2 * a ≡ 2 * a = omega (arith, div-eq_of_lt (no_borrow s c h c_lt)) in
      ap (λ (x : ℕ). bit_and (x / 2 ^ s) (digit_mask (suc s) (suc m))) eA
      ∙ ap (λ (x : ℕ). bit_and x (digit_mask (suc s) (suc m))) (halve t a ∙ eD)
      ∙ mask_even s a (digit_mask (suc s) m)

  hits-odd : c ≡ 0 → hits s (suc m) (c + 2 ^ suc s * u) % 2 ≡ 1
  hits-odd h =
      let a = bit_and (rest - 1) (2 ^ (m * suc s) - 1 - u) in
      let eA : bit_and (c + 2 ^ suc s * u + 2 ^ (suc m * suc s) - digit_mask (suc s) (suc m))
            (2 ^ (suc m * suc s) - 1 - (c + 2 ^ suc s * u))
          ≡ 2 ^ suc s - 1 + 2 ^ suc s * a =
        ap₂ bit_and (difference_zero h) (complement ∙ no_digit h)
        ∙ bit_and_split (rest - 1) (2 ^ (m * suc s) - 1 - u) (suc s) (2 ^ suc s - 1) (2 ^ suc s - 1)
            (omega (arith, one-le-pow (suc s) 2 (omega arith)))
            (omega (arith, one-le-pow (suc s) 2 (omega arith)))
        ∙ ap (λ (x : ℕ). x + 2 ^ suc s * a) (bit_and_self (2 ^ suc s - 1)) in
      let eD : (2 ^ suc s - 1) / 2 ^ s ≡ 1 = top_bit in
      omega (
        arith,
        bit_and_step
            (bit_and (c + 2 ^ suc s * u + 2 ^ (suc m * suc s) - digit_mask (suc s) (suc m))
                (2 ^ (suc m * suc s) - 1 - (c + 2 ^ suc s * u))
              / 2 ^ s)
            (digit_mask (suc s) (suc m)),
        ap (λ (x : ℕ). x / 2 ^ s) eA,
        halve (2 ^ suc s - 1) a,
        two-pow-suc-mul s (digit_mask (suc s) m),
      )
    where
      no_digit :
          c ≡ 0
          → 2 ^ suc s - 1 - c + 2 ^ suc s * (2 ^ (m * suc s) - 1 - u)
            ≡ 2 ^ suc s - 1 + 2 ^ suc s * (2 ^ (m * suc s) - 1 - u)
      no_digit z = omega arith

      top_bit : (2 ^ suc s - 1) / 2 ^ s ≡ 1
      top_bit =
          div-eq_of_lt-le {k = 1} (2 ^ s)
            (omega (arith, two-pow-suc s, one-le-pow s 2 (omega arith)))
            (omega (arith, two-pow-suc s, one-le-pow s 2 (omega arith)))

low_zeros_shift : (k f y : ℕ) → low_zeros (k + f) (2 ^ k * y) ≡ k + low_zeros f y
unfolding low_zeros
low_zeros_shift zero f y =
    let e : 0 + f ≡ f = omega arith in
    let d : 2 ^ 0 * y ≡ y = omega arith in
    ap (λ (t : ℕ). low_zeros t (2 ^ 0 * y)) e ∙ ap (low_zeros f) d ∙ omega arith
low_zeros_shift (suc k) f y =
    let d : 2 ^ suc k * y / 2 ≡ 2 ^ k * y = omega (arith, two-pow-suc-mul k y) in
    ap (λ (t : ℕ). low_zeros t (2 ^ suc k * y)) (suc-add k f)
    ∙ ground (arith, two-pow-suc-mul k y, ap (low_zeros (k + f)) d, low_zeros_shift k f y)

low_zeros_odd : (n w : ℕ) → w % 2 ≡ 1 → low_zeros n w ≡ 0
unfolding low_zeros
low_zeros_odd zero w h = refl
low_zeros_odd (suc n) w h = ground arith

-- The trailing zeros end at the first zero digit.
pub hits-place :
    (s m v : ℕ)
    → v < 2 ^ (m * suc s)
    → low_zeros (m * suc s) (hits s m v) ≡ place (suc s) m (first_zero_digit (suc s) m v)
unfolding first_zero_digit low_zeros
hits-place s zero v h =
    let e : 0 * suc s ≡ 0 = omega arith in ap (λ (t : ℕ). low_zeros t (hits s 0 v)) e ∙ sym e
hits-place s (suc m) v h =
    let e : v ≡ v % 2 ^ suc s + 2 ^ suc s * (v / 2 ^ suc s) =
      omega (arith, mod-add-div v (2 ^ suc s)) in
    let c_lt : v % 2 ^ suc s < 2 ^ suc s = mod-lt v (one-le-pow (suc s) 2 (omega arith)) in
    let u_lt : v / 2 ^ suc s < 2 ^ (m * suc s) =
      (div-lt_iff_lt-mul (one-le-pow (suc s) 2 (omega arith))).1
        (omega (arith, two-pow-suc_digit (suc s) m)) in
    let fuel : suc m * suc s ≡ suc s + m * suc s = omega arith in
    elim (Bool-cases (v % 2 ^ suc s == 0)) [
      | inl z ↦ rw z (
          low_zeros_odd (suc m * suc s) (hits s (suc m) v) (
            ap (λ (t : ℕ). hits s (suc m) t % 2) e
            ∙ hits-odd s m (v % 2 ^ suc s) (v / 2 ^ suc s) c_lt u_lt (ground arith))
          ∙ omega arith)
      | inr nz ↦ rw nz (
          ap (low_zeros (suc m * suc s)) (
            ap (hits s (suc m)) e
            ∙ hits-suc s m (v % 2 ^ suc s) (v / 2 ^ suc s) c_lt u_lt (ground arith))
          ∙ ap (λ (t : ℕ). low_zeros t (2 ^ suc s * hits s m (v / 2 ^ suc s))) fuel
          ∙ low_zeros_shift (suc s) (m * suc s) (hits s m (v / 2 ^ suc s))
          ∙ ap (◌+◌ (suc s)) (hits-place s m (v / 2 ^ suc s) u_lt)
          ∙ sym (place-suc (suc s) m (first_zero_digit (suc s) m (v / 2 ^ suc s))))
    ]
