-- ===== src/LlFree/Types.antt =====
-- core/src/llfree.rs: the allocator as data. `locals` is the array of the core-local data.
use llfree_rs.Base.{ℕ, Option, List, set, Run, returns, ◌>>=◌, index}
use llfree_rs.Lower.{Lower}
use llfree_rs.Trees.Entry.{Tree}
use llfree_rs.Local.{Kind, LocalTree, Local, with_preferred}

pub record LlFree : Type 0 where
  pub locals : List Local
  pub lower : Lower
  pub trees : List Tree

abbrev pub with_trees : List Tree → LlFree → LlFree
with_trees ts s = record s { trees = ts }

-- The local data of a core, and a write to one preferred tree there.
abbrev pub set_local : ℕ → Local → LlFree → LlFree
set_local core l s = record s { locals = set s.locals core l }

abbrev pub set_preferred : ℕ → Kind → Option LocalTree → LlFree → Run LlFree
set_preferred core kind t s = do
  l ← index s.locals core
  returns (set_local core (with_preferred kind t l) s)
