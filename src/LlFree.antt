-- ===== src/LlFree.antt =====
-- core/src/llfree.rs: the upper allocator. One call runs at a time; `busy c` says that another core
-- holds the lock of the local data of `c` during the call, so that `try_lock` fails there.
pub mod Types
pub mod Setup
pub mod Query
pub mod Sync
pub mod Balance
mod Tests
use llfree_rs.Base.{
  ℕ, zero, suc, ◌+◌, ◌-◌, ◌*◌, ◌/◌, ◌%◌, ◌^◌, max, Bool, true, false, ◌&&◌, ◌||◌, not, Option, none,
  some, List, [], ◌∷◌, length, set, ltb, leb, ◌==◌, if◌then◌else◌, Run, returns, panics, ◌>>=◌,
  ◌>>◌, index, assert, checked_sub, Result, ok, err,
}
use llfree_rs.Types.{
  huge_order, huge_frames, max_order, tree_frames, retries, Error, memory, retry, address,
  initialization, Res, Flags,
}
use llfree_rs.Util.{count_if}
use llfree_rs.Lower.{Lower}
use llfree_rs.Lower
use llfree_rs.Trees
use llfree_rs.Trees.Entry.{Tree}
use llfree_rs.Local.{
  Kind, huge, movable, fixed, same_kind, kind_of, LocalTree, Local, preferred, with_preferred,
  frees_push,
}
pub use Types.{LlFree, with_trees, set_local, set_preferred}

-- The huge frames that an allocation or a free of the order counts for.
abbrev pub huge_count : Bool → ℕ → ℕ
huge_count h order = max (count_if h) (2 ^ order / huge_frames)

-- Whether the global counter was large enough, and the local tree with it.
unfoldable pub sync_with_global : LocalTree → ℕ → LlFree → Run (Bool × LocalTree × LlFree)
unfolding Trees.sync
sync_with_global tree order s =
    let min = Trees.min_free - tree.free in
    let min_huge = 2 ^ order / huge_frames - tree.huge in
    do
      (global, ts) ← Trees.sync (tree.frame / tree_frames) min min_huge s.trees
      elim global [
        | none ↦ returns (false, tree, s)
        | some g ↦ returns (
          true,
          record tree { free = tree.free + g.free; huge = tree.huge + g.huge },
          with_trees ts s,
        )
      ]

unfoldable pub lower_get : LocalTree → Flags → LlFree → Run (Res LocalTree × LlFree)
unfolding sync_with_global Lower.get
lower_get tree flags s = do
  (got, l) ← Lower.get tree.frame flags s.lower
  elim got [
    | err e ↦ returns (err e, record s { lower = l })
    | ok (frame, h) ↦ do
      free ← checked_sub tree.free (2 ^ flags.order)
      let t : LocalTree = record { frame = frame; free = free; huge = tree.huge }
      let used = huge_count h flags.order
      (t', s') ←
          (if ltb tree.huge used
            then (do
              (synced, t', s') ← sync_with_global t flags.order (record s { lower = l })
              assert synced
              returns (t', s'))
            else returns (t, record s { lower = l }))
      huge' ← checked_sub t'.huge used
      returns (ok (record t' { huge = huge' }), s')
  ]

-- `swap_reserved`: the old tree is given back to the global array.
unfoldable pub swap_reserved : ℕ → Kind → Option LocalTree → LlFree → Run LlFree
unfolding Trees.unreserve
swap_reserved core kind new s = do
  l ← index s.locals core
  s' ← set_preferred core kind new s
  elim (preferred kind l) [
    | none ↦ returns s'
    | some tree ↦ do
      ts ← Trees.unreserve (tree.frame / tree_frames) tree.free tree.huge kind s'.trees
      returns (with_trees ts s')
  ]

module _ (busy : ℕ → Bool) where
  -- Whether a local tree has enough frames and huge frames for an allocation.
  abbrev large_enough : Flags → LocalTree → Bool
  large_enough flags t = leb (2 ^ flags.order) t.free && leb (2 ^ flags.order / huge_frames) t.huge

  -- Round `i` of `steal_tree`, with `n` rounds left.
  unfoldable pub steal_from : ℕ → ℕ → ℕ → Flags → LlFree → Run (Res LocalTree × LlFree)
  unfolding lower_get
  steal_from zero i core flags s = returns (err memory, s)
  steal_from (suc n) i core flags s =
      let target = (core + i) % length s.locals in
      do
        l ← index s.locals target
        elim (if busy target then none else preferred (kind_of flags) l) [
          | none ↦ steal_from n (i + 1) core flags s
          | some tree ↦ elim (large_enough flags tree) [
            | false ↦ steal_from n (i + 1) core flags s
            | true ↦ do
              (got, s') ← lower_get tree flags s
              elim got [
                | err _ ↦ steal_from n (i + 1) core flags s'
                | ok new ↦ do
                  assert (new.frame / tree_frames == tree.frame / tree_frames)
                  s'' ← set_preferred target (kind_of flags) none s'
                  returns (ok new, s'')
              ]
          ]
        ]

  unfoldable pub steal_tree : ℕ → Flags → LlFree → Run (Res LocalTree × LlFree)
  unfolding steal_from
  steal_tree core flags s = steal_from (length s.locals - 1) 1 core flags s

  unfoldable pub reserve_and_get : ℕ → Flags → LlFree → Run (Res ℕ × LlFree)
  unfolding steal_tree lower_get swap_reserved Trees.reserve_tree
  reserve_and_get core flags s =
      let cores = length s.locals in
      do
        l ← index s.locals core
        let start : ℕ = elim (preferred (kind_of flags) l) [
          | some tree ↦ tree.frame / tree_frames
          | none ↦ length s.trees / cores * core
        ]
        (got, s') ← Trees.reserve_tree (λ r. r.trees) with_trees lower_get cores start flags s
        elim got [
          | ok new ↦ do
            s'' ← swap_reserved core (kind_of flags) (some new) s'
            returns (ok new.frame, s'')
          | err memory ↦ do
            (stolen, s'') ← steal_tree core flags s'
            elim stolen [
              | err e ↦ returns (err e, s'')
              | ok new ↦ do
                s''' ← swap_reserved core (kind_of flags) (some new) s''
                returns (ok new.frame, s''')
            ]
          | err e ↦ returns (err e, s')
        ]

  unfoldable pub get_inner : ℕ → Flags → LlFree → Run (Res ℕ × LlFree)
  unfolding reserve_and_get lower_get sync_with_global
  get_inner core flags s = do
    l ← index s.locals core
    elim (preferred (kind_of flags) l) [
      | none ↦ reserve_and_get core flags s
      | some tree ↦ elim (large_enough flags tree) [
        | true ↦ do
          (got, s') ← lower_get tree flags s
          elim got [
            | ok new ↦ do
              assert (new.frame / tree_frames == tree.frame / tree_frames)
              s'' ← set_preferred core (kind_of flags) (some new) s'
              returns (ok new.frame, s'')
            | err memory ↦ reserve_and_get core flags s'
            | err e ↦ returns (err e, s')
          ]
        | false ↦ do
          (synced, tree', s') ← sync_with_global tree flags.order s
          s'' ← set_preferred core (kind_of flags) (some tree') s'
          if synced then returns (err retry, s'') else reserve_and_get core flags s''
      ]
    ]

  -- At most `n` rounds of `get_inner`.
  unfoldable pub get_rounds : ℕ → ℕ → Flags → LlFree → Run (Res ℕ × LlFree)
  unfolding get_inner
  get_rounds zero core flags s = returns (err memory, s)
  get_rounds (suc n) core flags s = do
    (got, s') ← get_inner core flags s
    elim got [
      | ok frame ↦ returns (ok frame, s')
      | err retry ↦ get_rounds n core flags s'
      | err e ↦ returns (err e, s')
    ]

  unfoldable pub get : ℕ → Flags → LlFree → Run (Res ℕ × LlFree)
  unfolding get_rounds
  get core flags s =
      if ltb max_order flags.order
      then returns (err memory, s)
      else get_rounds retries (core % length s.locals) flags s

  -- `drain`, for one kind after the other.
  unfoldable pub drain : ℕ → LlFree → Run (Res (Unit {0}) × LlFree)
  unfolding swap_reserved
  drain core s =
      let c = core % length s.locals in
      do
        l ← index s.locals c
        if busy c then returns (ok tt, s) else (do
          s1 ← swap_reserved c fixed none s
          s2 ← swap_reserved c movable none s1
          s3 ← swap_reserved c huge none s2
          returns (ok tt, s3))

-- Whether the preferred tree of the kind is tree `i`; then it takes the frames.
abbrev owns : ℕ → Option LocalTree → Bool
owns i none = false
owns i (some t) = t.frame / tree_frames == i

abbrev add_frames : ℕ → ℕ → Option LocalTree → Option LocalTree
add_frames n h none = none
add_frames n h (some t) = some (record t { free = t.free + n; huge = t.huge + h })

-- The update of the counters at the end of `put`, where no own tree took the frames.
unfoldable pub put_global : ℕ → ℕ → ℕ → ℕ → Flags → Bool → LlFree → Run (Res (Unit {0}) × LlFree)
unfolding swap_reserved Trees.inc_or_reserve
put_global core i num_frames h flags may_reserve s = do
  (reserved, ts) ← Trees.inc_or_reserve i num_frames h may_reserve s.trees
  elim reserved [
    | none ↦ returns (ok tt, with_trees ts s)
    | some tree ↦ do
      let entry : LocalTree = record {
        frame = i * tree_frames;
        free = tree.free + num_frames;
        huge = tree.huge + h;
      }
      let kind : Kind =
          kind_of (record { order = flags.order; movable = same_kind tree.kind movable })
      s' ← swap_reserved core kind (some entry) (with_trees ts s)
      returns (ok tt, s')
  ]

-- The update of the counters after the lower allocator freed the frames.
unfoldable pub put_counters : ℕ → ℕ → ℕ → Flags → LlFree → Run (Res (Unit {0}) × LlFree)
unfolding put_global frees_push
put_counters core i h flags s = do
  l0 ← index s.locals core
  let l : Local = (frees_push i l0).1
  let may_reserve : Bool = (frees_push i l0).0
  let n : ℕ = 2 ^ flags.order
  let add : Kind → LlFree =
      λ k. set_local core (with_preferred k (add_frames n h (preferred k l)) l) s
  if leb huge_order flags.order
      then if owns i (preferred huge l)
        then returns (ok tt, add huge)
        else put_global core i n h flags may_reserve (set_local core l s)
      else if owns i (preferred movable l)
      then returns (ok tt, add movable)
      else if owns i (preferred fixed l)
      then returns (ok tt, add fixed)
      else put_global core i n h flags may_reserve (set_local core l s)

unfoldable pub put : ℕ → ℕ → Flags → LlFree → Run (Res (Unit {0}) × LlFree)
unfolding put_counters Lower.put
put core frame flags0 s =
    let flags : Flags = record flags0 { movable = false } in
    if leb s.lower.len frame then returns (err memory, s) else do
      (freed, l) ← Lower.put frame flags s.lower
      elim freed [
        | err e ↦ returns (err e, record s { lower = l })
        | ok h ↦
            put_counters (core % length s.locals) (frame / tree_frames) (huge_count h flags.order)
              flags (record s { lower = l })
      ]
