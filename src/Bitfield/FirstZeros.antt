-- ===== src/Bitfield/FirstZeros.antt =====
-- `first_zeros_aligned` of core/src/bitfield.rs.
pub mod Place
pub mod Trick
pub mod Reference
use llfree_rs.Base.{
  ℕ, zero, suc, ◌+◌, ◌-◌, ◌*◌, ◌/◌, ◌%◌, ◌^◌, bit_and, bit_or, Option, none, some, ltb, ◌==◌,
  if◌then◌else◌, Run, returns, panics,
}
use llfree_rs.Word.{u64_max, shl, shr, not64, wrapping_sub, trailing_ones, trailing_zeros}
use llfree_rs.Word

-- `(off < u64::BITS).then(|| (v | (block << off), off))`.
abbrev pub block_at : ℕ → ℕ → ℕ → Option (ℕ × ℕ)
block_at v block off = if ltb off 64 then some (bit_or v (shl block off), off) else none

-- The zero digits of 2 ^ (s + 1) values each: `mask` has a one at the bottom of each digit.
abbrev pub zero_digits : ℕ → ℕ → ℕ → ℕ
zero_digits v mask s = bit_and (shr (bit_and (wrapping_sub v mask) (not64 v)) s) mask

unfoldable pub first_zeros_aligned : ℕ → ℕ → Run (Option (ℕ × ℕ))
unfolding Word.low_ones Word.low_zeros
first_zeros_aligned v zero = returns (block_at v 0b1 (trailing_ones v))
first_zeros_aligned v (suc zero) =
    returns (block_at v 0b11 (trailing_ones (bit_or (bit_or v (shr v 1)) 0xaaaa_aaaa_aaaa_aaaa)))
first_zeros_aligned v (suc (suc zero)) =
    returns (block_at v 0b1111 (trailing_zeros (zero_digits v 0x1111_1111_1111_1111 3)))
first_zeros_aligned v (suc (suc (suc zero))) =
    returns (block_at v 0xff (trailing_zeros (zero_digits v 0x0101_0101_0101_0101 7)))
first_zeros_aligned v (suc (suc (suc (suc zero)))) =
    returns (block_at v 0xffff (trailing_zeros (zero_digits v 0x0001_0001_0001_0001 15)))
first_zeros_aligned v (suc (suc (suc (suc (suc zero))))) =
    let mask : ℕ = 0xffff_ffff in
    returns (
      if v % 2 ^ 32 == 0
      then some (bit_or v mask, 0)
      else if shr v 32 == 0
      then some (bit_or v (shl mask 32), 32)
      else none)
first_zeros_aligned v (suc (suc (suc (suc (suc (suc zero)))))) =
    returns (if v == 0 then some (u64_max, 0) else none)
first_zeros_aligned v (suc (suc (suc (suc (suc (suc (suc _))))))) = panics
