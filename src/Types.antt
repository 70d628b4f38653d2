-- ===== src/Types.antt =====
-- core/src/lib.rs: the constants, errors, flags and initialisation modes of the crate.
use llfree_rs.Base.{ℕ, ◌+◌, ◌*◌, ◌^◌, Bool, false, Result}

abbrev pub huge_order : ℕ
huge_order = 9

abbrev pub huge_frames : ℕ
huge_frames = 2 ^ huge_order

abbrev pub max_order : ℕ
max_order = huge_order + 1

abbrev pub tree_huge : ℕ
tree_huge = 8

abbrev pub tree_frames : ℕ
tree_frames = tree_huge * 2 ^ huge_order

abbrev pub retries : ℕ
retries = 4

pub data Error : Type 0 where
  memory retry address initialization : Error

-- `crate::Result`.
abbrev pub Res : Type 0 → Type 0
Res A = Result A Error

pub data Init : Type 0 where
  free_all alloc_all : Init
  recover : Bool → Init

-- The `order` field has 8 bits.
pub record Flags : Type 0 where
  pub order : ℕ
  pub movable : Bool

-- `Flags::o`.
abbrev pub o : ℕ → Flags
o order = record { order = order; movable = false }
