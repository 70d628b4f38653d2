-- ===== src/Word/Digits.antt =====
-- A word as digits of `n` bits, the lowest first: the plain search for a zero digit, which the
-- bit tricks of core/src/bitfield.rs are compared with.
use llfree_rs.Base.{
  ℕ, zero, suc, ◌+◌, ◌-◌, ◌*◌, ◌/◌, ◌%◌, ◌^◌, ◌≤◌, ◌<◌, bit_or, ◌≡◌, refl, ap, ◌∙◌, inl, inr,
  Option, none, some, ◌==◌, if◌then◌else◌, arith, Bool-cases, Option-cases,
}
use mathlib.Core.Option
use mathlib.Core.Path.{ap₂}
use native.Mathlib.Nat.{mod-add-div, mod-lt, zero-mul, one-le-pow, mul-le-mul_left}
use llfree_rs.Word.Split.{
  two-pow-add, two-pow-suc, two-pow-suc-mul, suc-add, bit_or_split, bit_or-zero, zero-bit_or,
}
use llfree_rs.Word.{ones}

-- The first of the `m` lowest digits that is zero, by its place.
unfoldable pub first_zero_digit : ℕ → ℕ → ℕ → Option ℕ
first_zero_digit n zero v = none
first_zero_digit n (suc m) v =
    if v % 2 ^ n == 0 then some 0 else Option.map suc (first_zero_digit n m (v / 2 ^ n))

-- Digit `q` of `v` is zero.
pub record IsZeroDigit (n q v : ℕ) : Type 0 where
  pub low : ℕ
  pub high : ℕ
  pub low_lt : low < 2 ^ (q * n)
  pub splits : v ≡ low + 2 ^ (q * n) * (2 ^ n * high)

-- The word with ones in digit `q`, where that digit is zero.
abbrev pub fill_digit : ℕ → ℕ → ℕ → ℕ
fill_digit n q v = v + (2 ^ n - 1) * 2 ^ (q * n)

two-pow-suc-digit : (n q : ℕ) → 2 ^ (suc q * n) ≡ 2 ^ n * 2 ^ (q * n)
two-pow-suc-digit n q = ap (λ (t : ℕ). 2 ^ t) (omega arith) ∙ two-pow-add n (q * n)

IsZeroDigit-zero : (n v : ℕ) → v % 2 ^ n ≡ 0 → IsZeroDigit n 0 v
IsZeroDigit-zero n v h =
    let e : 2 ^ (0 * n) ≡ 1 = ap (λ (t : ℕ). 2 ^ t) (zero-mul n) in
    record {
      low = 0;
      high = v / 2 ^ n;
      low_lt = omega arith;
      splits = omega (arith, ap (λ (t : ℕ). t * (2 ^ n * (v / 2 ^ n))) e, mod-add-div v (2 ^ n));
    }

IsZeroDigit-suc : (n q v : ℕ) → IsZeroDigit n q (v / 2 ^ n) → IsZeroDigit n (suc q) v
IsZeroDigit-suc n q v d = record {
  low = v % 2 ^ n + 2 ^ n * d.low;
  high = d.high;
  low_lt = omega (
    arith,
    two-pow-suc-digit n q,
    mul-le-mul_left (2 ^ n) d.low_lt,
    mod-lt v (one-le-pow n 2 (omega arith)),
  );
  splits = omega (
    arith,
    ap (λ (t : ℕ). t * (2 ^ n * d.high)) (two-pow-suc-digit n q),
    ap (λ (t : ℕ). 2 ^ n * t) d.splits,
    mod-add-div v (2 ^ n),
  );
}

-- The search finds a zero digit among the first `m`.
pub first_zero_digit-IsZeroDigit :
    (n m v q : ℕ) → first_zero_digit n m v ≡ some q → (q < m) × IsZeroDigit n q v
unfolding first_zero_digit
first_zero_digit-IsZeroDigit n zero v q h = cc
first_zero_digit-IsZeroDigit n (suc m) v q h = elim (Bool-cases (v % 2 ^ n == 0)) [
  | inl z ↦
      let e : 0 ≡ q = ground arith in (omega arith, rw (← e) (IsZeroDigit-zero n v (ground arith)))
  | inr nz ↦ elim (Option-cases (first_zero_digit n m (v / 2 ^ n))) [
    | inl e ↦ absurd (ground arith)
    | inr (p, e) ↦
        let s : suc p ≡ q = ground arith in
        let rest = first_zero_digit-IsZeroDigit n m (v / 2 ^ n) p e in
        (omega arith, rw (← s) (IsZeroDigit-suc n p v rest.1))
  ]
]

bit_or-low_ones : (n h : ℕ) → bit_or (2 ^ n * h) (2 ^ n - 1) ≡ 2 ^ n * h + (2 ^ n - 1)
bit_or-low_ones n h =
    ap₂ {A = ℕ} {B = ℕ} {C = ℕ} bit_or (omega arith) (omega arith)
    ∙ bit_or_split h 0 n 0 (2 ^ n - 1) (one-le-pow n 2 (omega arith))
        (omega (arith, one-le-pow n 2 (omega arith)))
    ∙ omega (arith, zero-bit_or (2 ^ n - 1), ap (λ (t : ℕ). 2 ^ n * t) (bit_or-zero h))

bit_or-ones_at :
    (n s low h : ℕ)
    → low < 2 ^ s
    → bit_or (low + 2 ^ s * (2 ^ n * h)) ((2 ^ n - 1) * 2 ^ s)
      ≡ low + 2 ^ s * (2 ^ n * h) + (2 ^ n - 1) * 2 ^ s
bit_or-ones_at n s low h lt =
    let e : (2 ^ n - 1) * 2 ^ s ≡ 0 + 2 ^ s * (2 ^ n - 1) = omega arith in
    ap (λ (t : ℕ). bit_or (low + 2 ^ s * (2 ^ n * h)) t) e
    ∙ bit_or_split (2 ^ n * h) (2 ^ n - 1) s low 0 lt (one-le-pow s 2 (omega arith))
    ∙ omega (arith, bit_or-zero low, ap (λ (t : ℕ). 2 ^ s * t) (bit_or-low_ones n h))

-- Where the digit is zero, `|` with its mask adds the mask.
pub bit_or-fill_digit :
    (n q v : ℕ) → IsZeroDigit n q v → bit_or v ((2 ^ n - 1) * 2 ^ (q * n)) ≡ fill_digit n q v
bit_or-fill_digit n q v d = rw d.splits (bit_or-ones_at n (q * n) d.low d.high d.low_lt)

-- The ones in the low `a` bits and in the rest.
ones-split : (a b x y : ℕ) → x < 2 ^ a → ones (a + b) (x + 2 ^ a * y) ≡ ones a x + ones b y
unfolding ones
ones-split zero b x y h =
    let e : 0 + b ≡ b = omega arith in
    let f : x + 2 ^ 0 * y ≡ y = omega arith in
    ap (λ (t : ℕ). ones t (x + 2 ^ 0 * y)) e ∙ ap (ones b) f ∙ omega arith
ones-split (suc a) b x y h =
    let e : (x + 2 ^ suc a * y) / 2 ≡ x / 2 + 2 ^ a * y = omega (arith, two-pow-suc-mul a y) in
    let r : (x + 2 ^ suc a * y) % 2 ≡ x % 2 = omega (arith, two-pow-suc-mul a y) in
    ap (λ (t : ℕ). ones t (x + 2 ^ suc a * y)) (suc-add a b)
    ∙ ap₂ {A = ℕ} {B = ℕ} {C = ℕ} ◌+◌ r (ap (ones (a + b)) e)
    ∙ omega (arith, ones-split a b (x / 2) y (omega (arith, two-pow-suc a)), two-pow-suc a)

ones-zero : (n : ℕ) → ones n 0 ≡ 0
unfolding ones
ones-zero zero = refl
ones-zero (suc n) = omega (arith, ones-zero n)

ones-all : (n : ℕ) → ones n (2 ^ n - 1) ≡ n
unfolding ones
ones-all zero = refl
ones-all (suc n) =
    let e : (2 ^ suc n - 1) / 2 ≡ 2 ^ n - 1 = omega (arith, two-pow-suc n) in
    omega (arith, ap (ones n) e, ones-all n, two-pow-suc n, one-le-pow n 2 (omega arith))

ones-split₃ :
    (n s r low a high : ℕ)
    → low < 2 ^ s
    → a < 2 ^ n
    → ones (s + (n + r)) (low + 2 ^ s * (a + 2 ^ n * high)) ≡ ones s low + (ones n a + ones r high)
ones-split₃ n s r low a high h k =
    omega (arith, ones-split s (n + r) low (a + 2 ^ n * high) h, ones-split n r a high k)

-- Filling a zero digit of `n` bits within the low `m` bits sets `n` more of them.
pub ones-fill_digit :
    (n q m v : ℕ) → suc q * n ≤ m → IsZeroDigit n q v → ones m (fill_digit n q v) ≡ ones m v + n
ones-fill_digit n q m v fits d =
    let r = m - suc q * n in
    let em : m ≡ q * n + (n + r) = omega arith in
    let ev : v ≡ d.low + 2 ^ (q * n) * (0 + 2 ^ n * d.high) = omega (arith, d.splits) in
    let ef : fill_digit n q v ≡ d.low + 2 ^ (q * n) * (2 ^ n - 1 + 2 ^ n * d.high) =
      omega (arith, d.splits) in
    let pos : 0 < 2 ^ n = one-le-pow n 2 (omega arith) in
    omega (
      arith,
      ap (λ (t : ℕ). ones t v) em,
      ap (λ (t : ℕ). ones t (fill_digit n q v)) em,
      ap (ones (q * n + (n + r))) ev,
      ap (ones (q * n + (n + r))) ef,
      ones-split₃ n (q * n) r d.low 0 d.high d.low_lt pos,
      ones-split₃ n (q * n) r d.low (2 ^ n - 1) d.high d.low_lt (omega arith),
      ones-zero n,
      ones-all n,
    )
