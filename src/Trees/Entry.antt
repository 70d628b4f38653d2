-- ===== src/Trees/Entry.antt =====
-- `Tree` of core/src/trees.rs: the counters of one tree. They are taken to fit their bit fields of
-- 13 and 4 bits, as the assertions of the code make sure.
use llfree_rs.Base.{
  ℕ, ◌+◌, Bool, true, false, ◌&&◌, ◌||◌, not, Option, none, some, leb, ltb, ◌==◌, if◌then◌else◌,
  Run, returns, ◌>>=◌, ◌>>◌, assert,
}
use llfree_rs.Types.{tree_frames, tree_huge}
use llfree_rs.Local.{Kind, same_kind}

pub record Tree : Type 0 where
  pub free : ℕ
  pub huge : ℕ
  pub reserved : Bool
  pub kind : Kind

-- `Tree::with`.
unfoldable pub with_counters : ℕ → ℕ → Bool → Kind → Run Tree
with_counters free huge reserved kind = do
  assert (leb free tree_frames && leb huge tree_huge)
  returns (record { free = free; huge = huge; reserved = reserved; kind = kind })

unfoldable pub inc : ℕ → ℕ → Tree → Run Tree
inc free huge t = do
  assert (leb (t.free + free) tree_frames && leb (t.huge + huge) tree_huge)
  returns (record t { free = t.free + free; huge = t.huge + huge })

-- The range has the inclusive ends `low` and `high`; `with` cannot fail here.
unfoldable pub reserve : ℕ → ℕ → ℕ → Kind → Tree → Option Tree
reserve low high min_huge kind t =
    if not t.reserved
      && (leb low t.free && leb t.free high)
      && leb min_huge t.huge
      && (same_kind kind t.kind || t.free == tree_frames)
    then some (record { free = 0; huge = 0; reserved = true; kind = kind })
    else none

unfoldable pub unreserve_add : ℕ → ℕ → Kind → Tree → Run (Option Tree)
unfolding with_counters
unreserve_add free huge kind t =
    if t.reserved
    then (do t' ← with_counters (t.free + free) (t.huge + huge) false kind; returns (some t'))
    else returns none

unfoldable pub sync_steal : ℕ → ℕ → Tree → Option Tree
sync_steal min min_huge t =
    if t.reserved && ltb min t.free && leb min_huge t.huge
    then some (record t { free = 0; huge = 0 })
    else none
