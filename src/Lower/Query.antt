-- ===== src/Lower/Query.antt =====
-- core/src/lower.rs: the operations that only read.
pub mod Totals
pub mod Free
pub mod Trees
pub mod Blocks
mod Tests
use llfree_rs.Base.{
  ℕ, ◌+◌, ◌/◌, ◌%◌, ◌^◌, Bool, true, false, ◌||◌, List, [], ◌∷◌, ltb, ◌==◌, if◌then◌else◌, Run,
  returns, ◌>>=◌, ◌>>◌, index, assert,
}
use llfree_rs.Types.{huge_order, huge_frames, max_order, tree_frames}
use llfree_rs.Util.{count_if}
use llfree_rs.Bitfield
use llfree_rs.Lower.Entry.{free, all}
use llfree_rs.Lower.Types.{
  Lower, Table, bitfield_len, bitfield_order, load_entry, load_pair, child_index,
}

-- The sums over a table of the free frames and of the free huge frames.
unfoldable pub table_free : Table → ℕ
table_free [] = 0
table_free (e ∷ es) = free e + table_free es

unfoldable pub table_huge : Table → ℕ
table_huge [] = 0
table_huge (e ∷ es) = count_if (free e == huge_frames) + table_huge es

unfoldable pub free_in_tree : ℕ → Lower → Run (ℕ × ℕ)
unfolding table_free table_huge
free_in_tree start l = do
  assert (ltb start l.len)
  table ← index l.children (start / tree_frames)
  returns (table_free table, table_huge table)

unfoldable pub is_free : ℕ → ℕ → Lower → Run Bool
unfolding Bitfield.is_zero
is_free frame order l =
    if ltb max_order order || ltb l.len (frame + 2 ^ order)
    then returns false
    else if ltb bitfield_order order
    then (do
      p ← load_pair (frame / tree_frames) (child_index frame / 2) l
      returns (all (λ e. free e == bitfield_len) p))
    else do
      e ← load_entry (frame / tree_frames) (child_index frame) l
      if ltb (free e) (2 ^ order)
          then returns false
          else if free e == bitfield_len
          then returns true
          else (do
            b ← index l.bitfields (frame / bitfield_len)
            Bitfield.is_zero (frame % bitfield_len) order b)

-- `for_each_huge_frame` as the sums of `free_frames` and `free_huge`.
unfoldable pub tables_free : List Table → ℕ
unfolding table_free
tables_free [] = 0
tables_free (t ∷ ts) = table_free t + tables_free ts

unfoldable pub tables_huge : List Table → ℕ
unfolding table_huge
tables_huge [] = 0
tables_huge (t ∷ ts) = table_huge t + tables_huge ts

abbrev pub free_frames : Lower → ℕ
free_frames l = tables_free l.children

abbrev pub free_huge : Lower → ℕ
free_huge l = tables_huge l.children

unfoldable pub free_at : ℕ → ℕ → Lower → Run ℕ
unfolding is_free
free_at frame order l =
    if order == 0
    then (do b ← is_free frame 0 l; returns (count_if b))
    else if order == huge_order
    then (do e ← load_entry (frame / tree_frames) (child_index frame) l; returns (free e))
    else returns 0
