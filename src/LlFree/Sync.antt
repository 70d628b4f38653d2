-- ===== src/LlFree/Sync.antt =====
-- `sync_with_global` of core/src/llfree.rs: the counters of a preferred tree and of the tree array.
use llfree_rs.Base.{
  ℕ, ◌+◌, ◌-◌, ◌/◌, ◌^◌, ◌≤◌, ◌<◌, ◌≡◌, refl, ◌⊎◌, inl, inr, true, false, length, returns,
  bind-returns, arith,
}
use llfree_rs.Types.{huge_frames, tree_frames}
use llfree_rs.Trees
use llfree_rs.Trees.Cases.{tree_at, emptied, Replaces}
use llfree_rs.Trees.Totals.{Conserves, sync-Conserves}
use llfree_rs.Local.{LocalTree}
use llfree_rs.LlFree.{LlFree, with_trees, sync_with_global}

-- Where the preferred tree lies in the array, `sync_with_global` moves all free frames and huge frames
-- of its entry to it, and changes no other entry, no core-local data and nothing in the lower
-- allocator, so that the totals are conserved, if the entry is reserved, has more free frames than
-- the preferred tree lacks to 256, and the huge frames that it lacks for the order. Otherwise it
-- reports a failure and changes nothing. It never panics.
pub sync_with_global-Conserves :
    (tree : LocalTree) (order : ℕ) (s : LlFree)
    → tree.frame / tree_frames < length s.trees
    → let g = tree_at s.trees (tree.frame / tree_frames) in
      let min = Trees.min_free - tree.free in
      let min_huge = 2 ^ order / huge_frames - tree.huge in
      ((t : LocalTree) × (s' : LlFree) × (sync_with_global tree order s ≡ returns (true, t, s'))
        × ((g.reserved ≡ true) × (min < g.free) × (min_huge ≤ g.huge))
        × ((t.frame ≡ tree.frame) × (t.free ≡ tree.free + g.free) × (t.huge ≡ tree.huge + g.huge))
        × Replaces (tree.frame / tree_frames) (emptied g) s.trees s'.trees
        × (s'.locals ≡ s.locals)
        × (s'.lower ≡ s.lower)
        × Conserves s.trees tree.free tree.huge s'.trees t.free t.huge)
      ⊎ ((sync_with_global tree order s ≡ returns (false, tree, s))
          × ((g.reserved ≡ false) ⊎ ((g.free ≤ min) ⊎ (g.huge < min_huge))))
unfolding sync_with_global
sync_with_global-Conserves tree order s lt =
    let g = tree_at s.trees (tree.frame / tree_frames) in
    elim (sync-Conserves (tree.frame / tree_frames) (Trees.min_free - tree.free)
      (2 ^ order / huge_frames - tree.huge) s.trees lt) [
        | inl (ts, e, enough, r, c) ↦ inl (
          record tree { free = tree.free + g.free; huge = tree.huge + g.huge },
          with_trees ts s,
          bind-returns _ e,
          enough,
          (refl, refl, refl),
          r,
          refl,
          refl,
          (omega (arith, c.0), omega (arith, c.1)),
        )
        | inr (e, why) ↦ inr (bind-returns _ e, why)
      ]
