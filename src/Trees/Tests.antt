-- ===== src/Trees/Tests.antt =====
-- Runs of the tree array of core/src/trees.rs on three trees, the second of them reserved.
use llfree_rs.Base.{
  ◌+◌, ◌<◌, ◌≤◌, ◌≡◌, ◌⊎◌, refl, true, false, none, some, List, [], ◌∷◌, returns, arith,
}
use llfree_rs.Local.{movable, fixed}
use llfree_rs.Trees.{sync, unreserve, inc_or_reserve, min_free}
use llfree_rs.Trees.Cases.{tree_at, emptied, Replaces}
use llfree_rs.Trees.Entry.{Tree}
use llfree_rs.Trees.Totals.{
  Conserves, sync-Conserves, unreserve-Conserves, inc_or_reserve-Conserves,
}

abbrev three : List Tree
three =
    record { free = 4096; huge = 8; reserved = false; kind = fixed }
    ∷ record { free = 300; huge = 0; reserved = true; kind = movable }
    ∷ record { free = 1000; huge = 1; reserved = false; kind = fixed }
    ∷ []

sync-Conserves_example :
    ((ts : List Tree) × (sync 1 10 0 three ≡ returns (some (tree_at three 1), ts))
      × ((true ≡ true) × (10 < 300) × (0 ≤ 0))
      × Replaces 1 (emptied (tree_at three 1)) three ts
      × Conserves three 0 0 ts 300 0)
    ⊎ ((sync 1 10 0 three ≡ returns (none, three)) × ((true ≡ false) ⊎ ((300 ≤ 10) ⊎ (0 < 0))))
sync-Conserves_example = sync-Conserves 1 10 0 three (omega arith)

unreserve-Conserves_example :
    (ts : List Tree) × (unreserve 1 700 1 movable three ≡ returns ts)
    × Conserves three 700 1 ts 0 0
    × ((tree_at ts 1).reserved ≡ false)
unreserve-Conserves_example =
    unreserve-Conserves 1 700 1 movable three (omega arith) refl (omega arith) (omega arith)

inc_or_reserve-Conserves_example :
    ((ts : List Tree) × (inc_or_reserve 2 64 0 true three ≡ returns (none, ts))
      × ((true ≡ false) ⊎ ((false ≡ true) ⊎ (1000 + 64 ≤ min_free)))
      × Replaces 2
          (record { free = 1000 + 64; huge = 1 + 0; reserved = false; kind = fixed })
          three
          ts
      × Conserves three 64 0 ts 0 0)
    ⊎ ((ts : List Tree) × (inc_or_reserve 2 64 0 true three ≡ returns (some (tree_at three 2), ts))
        × ((true ≡ true) × (false ≡ false) × (min_free < 1000 + 64))
        × Replaces 2 (record { free = 0; huge = 0; reserved = true; kind = fixed }) three ts
        × Conserves three 64 0 ts (1000 + 64) (1 + 0))
inc_or_reserve-Conserves_example =
    inc_or_reserve-Conserves 2 64 0 true three (omega arith) (omega arith) (omega arith)
