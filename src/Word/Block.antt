-- ===== src/Word/Block.antt =====
-- A block of a word as a number between the bits below and above it, and the masks of the block.
use native.Mathlib.Nat.{
  one-le-pow, mod-add-div, mod-lt, mod-eq_of_lt, mul-le-mul_left, div-eq_of_lt-le,
  div-lt_iff_lt-mul,
}
use mathlib.Core.Path.{ap₂}
use llfree_rs.Base.{
  ℕ, zero, suc, ◌+◌, ◌-◌, ◌*◌, ◌/◌, ◌%◌, ◌^◌, ◌≤◌, ◌<◌, ◌≡◌, refl, ap, sym, ◌∙◌, Bool, true, false,
  bit_and, bit_or, arith,
}
use llfree_rs.Word.{shl, shr, u64_max, not64}
use llfree_rs.Word.Bits.{bit_and_step, bit_or_step}
use llfree_rs.Word.Split.{
  two-pow-suc, two-pow-add, bit_and_split, bit_or_split, bit_and-le, bit_or-zero,
}
use llfree_rs.Word.Bit.{bit, bit_of, block, block-lt, around}

abbrev pub low : ℕ → ℕ → ℕ
low s w = w % 2 ^ s

abbrev pub middle : ℕ → ℕ → ℕ → ℕ
middle n s w = w / 2 ^ s % 2 ^ n

abbrev pub high : ℕ → ℕ → ℕ → ℕ
high n s w = w / 2 ^ s / 2 ^ n

pub parts : (n s w : ℕ) → w ≡ low s w + 2 ^ s * (middle n s w + 2 ^ n * high n s w)
parts n s w =
    omega
      (arith, mod-add-div w (2 ^ s), ap (λ (t : ℕ). 2 ^ s * t) (mod-add-div (w / 2 ^ s) (2 ^ n)))

pub low-lt : (s w : ℕ) → low s w < 2 ^ s
low-lt s w = mod-lt w (one-le-pow s 2 (omega arith))

pub middle-lt : (n s w : ℕ) → middle n s w < 2 ^ n
middle-lt n s w = mod-lt (w / 2 ^ s) (one-le-pow n 2 (omega arith))

-- Bits that are all `v` make the block of `v`.
pub bits-block :
    (v : Bool) (n a : ℕ) → a < 2 ^ n → ((j : ℕ) → j < n → bit a j ≡ bit_of v) → a ≡ block v n
unfolding bit block
bits-block true zero a h bits = omega arith
bits-block false zero a h bits = omega arith
bits-block true (suc n) a h bits = omega (
  arith,
  two-pow-suc n,
  one-le-pow n 2 (omega arith),
  bits 0 (omega arith),
  bits-block true n (a / 2) (omega (arith, two-pow-suc n)) (λ j lt. bits (suc j) (omega arith)),
)
bits-block false (suc n) a h bits = omega (
  arith,
  two-pow-suc n,
  bits 0 (omega arith),
  bits-block false n (a / 2) (omega (arith, two-pow-suc n)) (λ j lt. bits (suc j) (omega arith)),
)

bit_and-ones : (n a : ℕ) → a < 2 ^ n → bit_and a (2 ^ n - 1) ≡ a
bit_and-ones zero zero h = refl
bit_and-ones zero (suc a) h = absurd (omega arith)
bit_and-ones (suc n) a h =
    let e : (2 ^ suc n - 1) / 2 ≡ 2 ^ n - 1 = omega (arith, two-pow-suc n) in
    omega (
      arith,
      bit_and_step a (2 ^ suc n - 1),
      ap (bit_and (a / 2)) e,
      two-pow-suc n,
      one-le-pow n 2 (omega arith),
      bit_and-ones n (a / 2) (omega (arith, two-pow-suc n)),
    )

bit_or-ones : (n a : ℕ) → a < 2 ^ n → bit_or a (2 ^ n - 1) ≡ 2 ^ n - 1
bit_or-ones zero zero h = refl
bit_or-ones zero (suc a) h = absurd (omega arith)
bit_or-ones (suc n) a h =
    let e : (2 ^ suc n - 1) / 2 ≡ 2 ^ n - 1 = omega (arith, two-pow-suc n) in
    omega (
      arith,
      bit_or_step a (2 ^ suc n - 1),
      ap (bit_or (a / 2)) e,
      two-pow-suc n,
      one-le-pow n 2 (omega arith),
      bit_or-ones n (a / 2) (omega (arith, two-pow-suc n)),
    )

bit_and-zero : (a : ℕ) → bit_and a 0 ≡ 0
bit_and-zero a = omega (arith, bit_and-le a a 0 (omega arith))

-- The mask of the `n` bits from `s` on, as the code writes it.
abbrev pub mask : ℕ → ℕ → ℕ
mask n s = shl (shr u64_max (64 - n)) s

module _ (n s : ℕ) (fits : s + n ≤ 64) where
  pub word_size : 2 ^ s * (2 ^ n * 2 ^ (64 - s - n)) ≡ 2 ^ 64
  word_size =
      let e : s + (n + (64 - s - n)) ≡ 64 = omega arith in
      omega (
        arith,
        two-pow-add s (n + (64 - s - n)),
        ap (λ (t : ℕ). 2 ^ s * t) (two-pow-add n (64 - s - n)),
        ap (λ (t : ℕ). 2 ^ t) e,
      )

  shr-max : shr u64_max (64 - n) ≡ 2 ^ n - 1
  shr-max =
      let e : n + (64 - n) ≡ 64 = omega arith in
      let q : 2 ^ n * 2 ^ (64 - n) ≡ 2 ^ 64 =
        sym (two-pow-add n (64 - n)) ∙ ap (λ (t : ℕ). 2 ^ t) e in
      let w : 2 ^ n - 1 + 1 ≡ 2 ^ n = omega (arith, one-le-pow n 2 (omega arith)) in
      let pos : 0 < 2 ^ (64 - n) = one-le-pow (64 - n) 2 (omega arith) in
      let wq : (2 ^ n - 1 + 1) * 2 ^ (64 - n) ≡ 2 ^ 64 = ap (λ (t : ℕ). t * 2 ^ (64 - n)) w ∙ q in
      div-eq_of_lt-le {k = 2 ^ n - 1} (2 ^ (64 - n)) (omega arith) (omega arith)

  pub mask-eq : mask n s ≡ 0 + 2 ^ s * (2 ^ n - 1 + 2 ^ n * 0)
  mask-eq =
      let w : 2 ^ n - 1 + 1 ≡ 2 ^ n = omega (arith, one-le-pow n 2 (omega arith)) in
      let lt : (2 ^ n - 1) * 2 ^ s < 2 ^ 64 = omega (
        arith,
        word_size,
        ap (λ (t : ℕ). t * 2 ^ s) w,
        one-le-pow s 2 (omega arith),
        mul-le-mul_left (2 ^ s * 2 ^ n) (one-le-pow (64 - s - n) 2 (omega arith)),
      ) in
      ap (λ (t : ℕ). shl t s) shr-max ∙ mod-eq_of_lt lt ∙ omega arith

  complement-eq : not64 (mask n s) ≡ 2 ^ s - 1 + 2 ^ s * (0 + 2 ^ n * (2 ^ (64 - s - n) - 1))
  complement-eq =
      let w : 2 ^ n - 1 + 1 ≡ 2 ^ n = omega (arith, one-le-pow n 2 (omega arith)) in
      let r : 2 ^ (64 - s - n) - 1 + 1 ≡ 2 ^ (64 - s - n) =
        omega (arith, one-le-pow (64 - s - n) 2 (omega arith)) in
      omega (
        arith,
        mask-eq,
        word_size,
        one-le-pow s 2 (omega arith),
        ap (λ (t : ℕ). 2 ^ s * t) w,
        ap (λ (t : ℕ). 2 ^ s * (2 ^ n * t)) r,
      )

  module _ (w : ℕ) (w_lt : w < 2 ^ 64) where
    pub high-lt : high n s w < 2 ^ (64 - s - n)
    high-lt =
        (div-lt_iff_lt-mul (one-le-pow n 2 (omega arith))).1
          ((div-lt_iff_lt-mul (one-le-pow s 2 (omega arith))).1 (omega (arith, word_size)))

    pub bit_and-mask : bit_and w (mask n s) ≡ 2 ^ s * middle n s w
    bit_and-mask =
        ap₂ bit_and (parts n s w) mask-eq
        ∙ bit_and_split (middle n s w + 2 ^ n * high n s w) (2 ^ n - 1 + 2 ^ n * 0) s (low s w) 0
            (low-lt s w) (one-le-pow s 2 (omega arith))
        ∙ omega (arith, bit_and-zero (low s w), ap (λ (t : ℕ). 2 ^ s * t) inner)
      where
        inner : bit_and (middle n s w + 2 ^ n * high n s w) (2 ^ n - 1 + 2 ^ n * 0) ≡ middle n s w
        inner =
            bit_and_split (high n s w) 0 n (middle n s w) (2 ^ n - 1) (middle-lt n s w)
              (omega (arith, one-le-pow n 2 (omega arith)))
            ∙ omega (
              arith,
              bit_and-ones n (middle n s w) (middle-lt n s w),
              ap (λ (t : ℕ). 2 ^ n * t) (bit_and-zero (high n s w)),
            )

    pub bit_and-complement :
        bit_and w (not64 (mask n s)) ≡ low s w + 2 ^ s * (0 + 2 ^ n * high n s w)
    bit_and-complement =
        ap₂ bit_and (parts n s w) complement-eq
        ∙ bit_and_split (middle n s w + 2 ^ n * high n s w) (0 + 2 ^ n * (2 ^ (64 - s - n) - 1)) s
            (low s w) (2 ^ s - 1) (low-lt s w) (omega (arith, one-le-pow s 2 (omega arith)))
        ∙ ap₂ (λ (x y : ℕ). x + 2 ^ s * y) (bit_and-ones s (low s w) (low-lt s w)) inner
      where
        inner :
            bit_and (middle n s w + 2 ^ n * high n s w) (0 + 2 ^ n * (2 ^ (64 - s - n) - 1))
            ≡ 0 + 2 ^ n * high n s w
        inner =
            bit_and_split (high n s w) (2 ^ (64 - s - n) - 1) n (middle n s w) 0 (middle-lt n s w)
              (one-le-pow n 2 (omega arith))
            ∙ ap₂ (λ (x y : ℕ). x + 2 ^ n * y) (bit_and-zero (middle n s w))
                (bit_and-ones (64 - s - n) (high n s w) high-lt)

    pub bit_or-mask : bit_or w (mask n s) ≡ low s w + 2 ^ s * (2 ^ n - 1 + 2 ^ n * high n s w)
    bit_or-mask =
        ap₂ bit_or (parts n s w) mask-eq
        ∙ bit_or_split (middle n s w + 2 ^ n * high n s w) (2 ^ n - 1 + 2 ^ n * 0) s (low s w) 0
            (low-lt s w) (one-le-pow s 2 (omega arith))
        ∙ ap₂ (λ (x y : ℕ). x + 2 ^ s * y) (bit_or-zero (low s w)) inner
      where
        inner :
            bit_or (middle n s w + 2 ^ n * high n s w) (2 ^ n - 1 + 2 ^ n * 0)
            ≡ 2 ^ n - 1 + 2 ^ n * high n s w
        inner =
            bit_or_split (high n s w) 0 n (middle n s w) (2 ^ n - 1) (middle-lt n s w)
              (omega (arith, one-le-pow n 2 (omega arith)))
            ∙ ap₂ (λ (x y : ℕ). x + 2 ^ n * y) (bit_or-ones n (middle n s w) (middle-lt n s w))
                (bit_or-zero (high n s w))

    -- The word with another block is a word.
    pub around-lt : (v : Bool) → around n s (low s w) (high n s w) (low-lt s w) v < 2 ^ 64
    around-lt v = omega (
      arith,
      low-lt s w,
      word_size,
      mul-le-mul_left (2 ^ s) (block-lt v n),
      mul-le-mul_left (2 ^ s * 2 ^ n) high-lt,
    )
