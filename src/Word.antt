-- ===== src/Word.antt =====
-- The operations of `u64` that core/src/bitfield.rs uses, on numbers below 2 ^ 64.
pub mod Bits
pub mod Split
pub mod Digits
pub mod Bit
pub mod Sums
pub mod Block
use llfree_rs.Base.{
  ℕ, zero, suc, ◌+◌, ◌-◌, ◌*◌, ◌/◌, ◌%◌, ◌^◌, bit_and, bit_or, ◌==◌, if◌then◌else◌,
}

abbrev pub u64_max : ℕ
u64_max = 2 ^ 64 - 1

-- `x << k`, `x >> k` and `!x`.
abbrev pub shl : ℕ → ℕ → ℕ
shl x k = x * 2 ^ k % 2 ^ 64

abbrev pub shr : ℕ → ℕ → ℕ
shr x k = x / 2 ^ k

abbrev pub not64 : ℕ → ℕ
not64 x = u64_max - x

abbrev pub wrapping_sub : ℕ → ℕ → ℕ
wrapping_sub x y = (x + 2 ^ 64 - y) % 2 ^ 64

-- The ones below the lowest zero, within `n` bits.
unfoldable pub low_ones : ℕ → ℕ → ℕ
low_ones zero w = 0
low_ones (suc n) w = if w % 2 == 1 then suc (low_ones n (w / 2)) else 0

unfoldable pub low_zeros : ℕ → ℕ → ℕ
low_zeros zero w = 0
low_zeros (suc n) w = if w % 2 == 0 then suc (low_zeros n (w / 2)) else 0

unfoldable pub ones : ℕ → ℕ → ℕ
ones zero w = 0
ones (suc n) w = w % 2 + ones n (w / 2)

abbrev pub trailing_ones : ℕ → ℕ
trailing_ones w = low_ones 64 w

abbrev pub trailing_zeros : ℕ → ℕ
trailing_zeros w = low_zeros 64 w

abbrev pub count_zeros : ℕ → ℕ
count_zeros w = 64 - ones 64 w
