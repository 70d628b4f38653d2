-- ===== src/LlFree/Query.antt =====
-- core/src/llfree.rs: the counters of the allocator, and `validate`.
use llfree_rs.Base.{
  ℕ, ◌+◌, ◌*◌, ◌/◌, Bool, false, Option, none, some, List, [], ◌∷◌, leb, ltb, ◌==◌, if◌then◌else◌,
  Run, returns, ◌>>=◌, ◌>>◌, index, assert, checked_sub, suc,
}
use llfree_rs.Types.{max_order, tree_frames}
use llfree_rs.Lower
use llfree_rs.Lower.{Lower}
use llfree_rs.Trees
use llfree_rs.Trees.Entry.{Tree}
use llfree_rs.Local.{Local, LocalTree}
use llfree_rs.LlFree.Types.{LlFree}

abbrev pub frees_of : Option LocalTree → ℕ
frees_of none = 0
frees_of (some t) = t.free

abbrev pub huges_of : Option LocalTree → ℕ
huges_of none = 0
huges_of (some t) = t.huge

-- The sum over the preferred trees of one core.
abbrev pub local_free : Local → ℕ
local_free l = frees_of l.fixed_tree + frees_of l.movable_tree + frees_of l.huge_tree

abbrev pub local_huge : Local → ℕ
local_huge l = huges_of l.fixed_tree + huges_of l.movable_tree + huges_of l.huge_tree

module _ (busy : ℕ → Bool) where
  -- The cores from `c` on whose lock can be had.
  unfoldable pub locals_sum : (Local → ℕ) → ℕ → List Local → ℕ
  locals_sum f c [] = 0
  locals_sum f c (l ∷ ls) = (if busy c then 0 else f l) + locals_sum f (suc c) ls

  unfoldable pub free_frames : LlFree → ℕ
  unfolding locals_sum Trees.free_frames
  free_frames s = Trees.free_frames s.trees + locals_sum local_free 0 s.locals

  unfoldable pub free_huge : LlFree → ℕ
  unfolding locals_sum Trees.free_huge
  free_huge s = Trees.free_huge s.trees + locals_sum local_huge 0 s.locals

  unfoldable pub allocated_frames : LlFree → Run ℕ
  unfolding free_frames
  allocated_frames s = checked_sub s.lower.len (free_frames s)

  -- The first preferred tree that is tree `i`, in the order of the code.
  abbrev pub tree_free : ℕ → Option LocalTree → Option ℕ → Option ℕ
  tree_free i none other = other
  tree_free i (some t) other = if t.frame / tree_frames == i then some t.free else other

  unfoldable pub find_local : ℕ → ℕ → List Local → Option ℕ
  find_local i c [] = none
  find_local i c (l ∷ ls) =
      let rest = find_local i (suc c) ls in
      if busy c
      then rest
      else tree_free i l.fixed_tree (tree_free i l.movable_tree (tree_free i l.huge_tree rest))

  unfoldable pub free_at : ℕ → ℕ → LlFree → Run ℕ
  unfolding find_local Lower.Query.free_at
  free_at frame order s =
      if order == tree_frames
      then (do
        global ← index s.trees (frame / tree_frames)
        returns (
            if global.reserved
            then elim (find_local (frame / tree_frames) 0 s.locals) [
              | some n ↦ global.free + n
              | none ↦ global.free
            ]
            else global.free))
      else if leb order max_order
      then Lower.Query.free_at frame order s.lower
      else returns 0

unfoldable pub is_free : ℕ → ℕ → LlFree → Run Bool
unfolding Lower.Query.is_free
is_free frame order s =
    if ltb frame s.lower.len then Lower.Query.is_free frame order s.lower else returns false

-- The unreserved trees from tree `i` on agree with the lower allocator; the result counts the
-- reserved ones.
unfoldable pub validate_trees : ℕ → List Tree → Lower → Run ℕ
unfolding Lower.Query.free_in_tree
validate_trees i [] l = returns 0
validate_trees i (t ∷ ts) l =
    if t.reserved then (do n ← validate_trees (i + 1) ts l; returns (n + 1)) else do
      (free, huge) ← Lower.Query.free_in_tree (i * tree_frames) l
      assert (t.free == free)
      assert (t.huge == huge)
      validate_trees (i + 1) ts l

-- A preferred tree and its global entry make up the counters of the lower allocator.
unfoldable pub validate_preferred : Option LocalTree → LlFree → Run ℕ
unfolding Lower.Query.free_in_tree
validate_preferred none s = returns 0
validate_preferred (some t) s = do
  global ← index s.trees (t.frame / tree_frames)
  (free, huge) ← Lower.Query.free_in_tree t.frame s.lower
  assert (t.free + global.free == free)
  assert (t.huge + global.huge == huge)
  returns 1

unfoldable pub validate_locals : List Local → LlFree → Run ℕ
unfolding validate_preferred
validate_locals [] s = returns 0
validate_locals (l ∷ ls) s = do
  a ← validate_preferred l.movable_tree s
  b ← validate_preferred l.fixed_tree s
  c ← validate_preferred l.huge_tree s
  rest ← validate_locals ls s
  returns (a + b + c + rest)

-- `validate`, where no other core runs: it returns if and only if all assertions hold.
unfoldable pub validate : LlFree → Run (Unit {0})
unfolding validate_trees validate_locals free_frames free_huge Lower.Query.tables_free
    Lower.Query.tables_huge
validate s = do
  assert (free_frames (λ _. false) s == Lower.Query.free_frames s.lower)
  assert (free_huge (λ _. false) s == Lower.Query.free_huge s.lower)
  reserved ← validate_trees 0 s.trees s.lower
  preferred ← validate_locals s.locals s
  assert (reserved == preferred)
