-- ===== src/Util.antt =====
-- core/src/util.rs: alignment, slice sizes and bounded waiting.
pub mod Random
pub mod Shuffle
mod Tests
use llfree_rs.Base.{ℕ, zero, suc, ◌+◌, ◌-◌, ◌*◌, ◌/◌, Bool, true, false, if◌then◌else◌}

-- `usize::div_ceil` and `usize::next_multiple_of`.
abbrev pub div_ceil : ℕ → ℕ → ℕ
div_ceil v d = (v + d - 1) / d

abbrev pub align_up : ℕ → ℕ → ℕ
align_up v align = div_ceil v align * align

abbrev pub align_down : ℕ → ℕ → ℕ
align_down v align = v / align * align

-- `size_of_slice` of a type of the given size and alignment.
abbrev pub size_of_slice : ℕ → ℕ → ℕ → ℕ
size_of_slice size align len = len * align_up size align

-- `cond i` is what the condition says in the poll with `i` polls left after it.
unfoldable pub spin_wait : ℕ → (ℕ → Bool) → Bool
spin_wait zero cond = false
spin_wait (suc n) cond = if cond n then true else spin_wait n cond

-- `b as usize`.
abbrev pub count_if : Bool → ℕ
count_if b = if b then 1 else 0
