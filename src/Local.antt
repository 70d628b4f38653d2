-- ===== src/Local.antt =====
-- core/src/local.rs, and `Kind` of core/src/trees.rs. Counters and frame numbers are taken to fit
-- their bit fields: 45, 15 and 4 bits.
pub mod Frees
mod Tests
use llfree_rs.Base.{ℕ, ◌+◌, Bool, true, false, Option, none, leb, ◌==◌, if◌then◌else◌}
use llfree_rs.Types.{Flags, huge_order}

pub data Kind : Type 0 where
  huge movable fixed : Kind

abbrev pub kind_code : Kind → ℕ
kind_code huge = 0
kind_code movable = 1
kind_code fixed = 2

abbrev pub same_kind : Kind → Kind → Bool
same_kind a b = kind_code a == kind_code b

-- `Kind::from(Flags)`.
abbrev pub kind_of : Flags → Kind
kind_of flags =
    if leb huge_order flags.order then huge else if flags.movable then movable else fixed

pub record LocalTree : Type 0 where
  pub frame : ℕ
  pub free : ℕ
  pub huge : ℕ

-- The array `preferred` has one entry for each kind.
pub record Local : Type 0 where
  pub huge_tree : Option LocalTree
  pub movable_tree : Option LocalTree
  pub fixed_tree : Option LocalTree
  pub last_idx : ℕ
  pub last_frees : ℕ

-- `Local::default`.
abbrev pub empty : Local
empty = record {
  huge_tree = none;
  movable_tree = none;
  fixed_tree = none;
  last_idx = 0;
  last_frees = 0;
}

abbrev pub preferred : Kind → Local → Option LocalTree
preferred huge l = l.huge_tree
preferred movable l = l.movable_tree
preferred fixed l = l.fixed_tree

-- A write through `preferred_mut`.
abbrev pub with_preferred : Kind → Option LocalTree → Local → Local
with_preferred huge t l = record l { huge_tree = t }
with_preferred movable t l = record l { movable_tree = t }
with_preferred fixed t l = record l { fixed_tree = t }

-- `Local::F`.
abbrev pub frees_limit : ℕ
frees_limit = 4

unfoldable pub frees_push : ℕ → Local → Bool × Local
frees_push tree_idx l =
    if l.last_idx == tree_idx
    then if leb frees_limit l.last_frees
      then (true, l)
      else (false, record l { last_frees = l.last_frees + 1 })
    else (false, record l { last_idx = tree_idx; last_frees = 0 })
