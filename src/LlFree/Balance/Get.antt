-- ===== src/LlFree/Balance/Get.antt =====
-- `lower_get` of core/src/llfree.rs, with `sync_with_global`.
use native.Mathlib.Decide.{ℕ_discrete, dec_lt}
use mathlib.Core.Path.{subst}
use mathlib.Core.Logic.{◌≢◌}
use llfree_rs.Base.{
  ℕ, ◌+◌, ◌-◌, ◌*◌, ◌/◌, ◌^◌, ◌≤◌, ◌<◌, ◌≡◌, refl, ap, sym, ◌∙◌, ◌⊎◌, inl, inr, Bool, true, false,
  some, max, List, length, get_or-set_self, get_or-set_ne, length-set, set, lt→ltb, ge→ltb, ◌==◌,
  Run, returns, panics, bind-returns, bind-panics, set-get_or, ok, err, arith,
}
use llfree_rs.Types.{Flags, Res, memory}
use llfree_rs.Util.{count_if}
use llfree_rs.Lower.{Lower}
use llfree_rs.Lower
use llfree_rs.Lower.Entry
use llfree_rs.Lower.Frames.{IsValid, entry_at}
use llfree_rs.Lower.Blocks.{Allocated, NoBlockIn}
use llfree_rs.Lower.GetMax.Loop.{get-Gets}
use llfree_rs.Lower.Query.Blocks.{allocated-counters, block_in_tree}
use llfree_rs.Lower.Query.Trees.{tree_free, tree_huge, tree_free-elsewhere, tree_huge-elsewhere}
use llfree_rs.Trees
use llfree_rs.Trees.Entry.{Tree}
use llfree_rs.Trees.Cases.{tree_at, no_tree, emptied, sync-cases}
use llfree_rs.Local.{LocalTree}
use llfree_rs.LlFree.{LlFree, lower_get, sync_with_global, huge_count}
use llfree_rs.LlFree.Balance.{at, at_self, at_ne, in_slot, frees, huges}

-- What an allocation in a tree that somebody has may take for granted: the tree is reserved, the
-- counter of the owner has the frames, and the two counters have all its free huge frames.
pub record IsReady (tree : LocalTree) (order : ℕ) (s : LlFree) : Type 0 where
  pub valid : IsValid s.lower
  pub in_range : tree.frame / 4096 < length s.lower.children
  pub inside : tree.frame / 4096 < length s.trees
  pub reserved : (tree_at s.trees (tree.frame / 4096)).reserved ≡ true
  pub enough : 2 ^ order ≤ tree.free
  pub whole :
      tree_huge s.lower (tree.frame / 4096) ≤ (tree_at s.trees (tree.frame / 4096)).huge + tree.huge

-- The tree of the owner is `new` after it was `tree`; the counters of array and owner changed in total
-- as the lower allocator did.
pub record Moves (tree new : LocalTree) (s s' : LlFree) : Type 0 where
  pub same_tree : new.frame / 4096 ≡ tree.frame / 4096
  pub same_locals : s'.locals ≡ s.locals
  pub same_length : length s'.trees ≡ length s.trees
  pub same_owners : (t : ℕ) → (tree_at s'.trees t).reserved ≡ (tree_at s.trees t).reserved
  pub frames :
      (t : ℕ)
      → (tree_at s'.trees t).free + in_slot frees (some new) t + tree_free s.lower t
        ≡ (tree_at s.trees t).free + in_slot frees (some tree) t + tree_free s'.lower t
  pub huge_frames :
      (t : ℕ)
      → (tree_at s'.trees t).huge + in_slot huges (some new) t + tree_huge s.lower t
        ≡ (tree_at s.trees t).huge + in_slot huges (some tree) t + tree_huge s'.lower t

-- Some reserved tree has huge frames in the array, which its owner does not count.
abbrev pub IsSplit : List Tree → Type 0
IsSplit ts = (t : ℕ) × ((tree_at ts t).reserved ≡ true) × (1 ≤ (tree_at ts t).huge)

-- The allocation succeeds, there is no free block, or the assertion on the global counter fails: the
-- block needs a huge frame that the array has and the owner does not, and the array has no more frames than the
-- owner lacks to 256.
abbrev pub Outcome : LocalTree → Flags → LlFree → Run (Res LocalTree × LlFree) → Type 0
Outcome tree flags s out =
    ((new : LocalTree) × (s' : LlFree) × (out ≡ returns (ok new, s'))
      × Allocated tree.frame flags.order new.frame s.lower s'.lower
      × Moves tree new s s')
    ⊎ (((out ≡ returns (err memory, s)) × NoBlockIn tree.frame flags.order s.lower)
        ⊎ ((out ≡ panics)
            × (tree.huge < max 1 (2 ^ flags.order / 512))
            × ((tree_at s.trees (tree.frame / 4096)).free ≤ 256 - (tree.free - 2 ^ flags.order))
            × (1 ≤ (tree_at s.trees (tree.frame / 4096)).huge)))

module _ (tree : LocalTree) (flags : Flags) (s : LlFree) (le : flags.order ≤ 10)
    (ready : IsReady tree flags.order s) where
  abbrev i : ℕ
  i = tree.frame / 4096

  abbrev n : ℕ
  n = 2 ^ flags.order

  -- The lower allocator handed out the block at `frame`.
  module _ (frame : ℕ) (h : Bool) (l : Lower)
      (run : Lower.get tree.frame flags s.lower ≡ returns (ok (frame, h), l))
      (a : Allocated tree.frame flags.order frame s.lower l)
      (says : h ≡ (Entry.free (entry_at s.lower (frame / 512)) == 512)) where
    abbrev used : ℕ
    used = huge_count h flags.order

    counters :
        (tree_free s.lower (frame / 4096) ≡ tree_free l (frame / 4096) + n)
        × (tree_huge s.lower (frame / 4096) ≡ tree_huge l (frame / 4096) + used)
    counters =
        allocated-counters frame flags.order le a.aligned s.lower l ready.valid a.within h a.changes
          says

    -- The owner's tree after it took the counters of the entry, or without them.
    moves :
        (f g : ℕ) (z : Tree)
        → z.reserved ≡ (tree_at s.trees i).reserved
        → z.free + f + n ≡ (tree_at s.trees i).free + tree.free
        → z.huge + g + used ≡ (tree_at s.trees i).huge + tree.huge
        → Moves tree
            (record { frame = frame; free = f; huge = g })
            s
            (record s { lower = l; trees = set s.trees i z })
    moves f g z same p q = record {
      same_tree = a.in_tree;
      same_locals = refl;
      same_length = length-set s.trees i z;
      same_owners = λ t. owner t (ℕ_discrete i t);
      frames = λ t. free_at t (ℕ_discrete i t);
      huge_frames = λ t. huge_at t (ℕ_discrete i t);
    }
      where
        here : tree_at (set s.trees i z) i ≡ z
        here = get_or-set_self no_tree s.trees i z ready.inside

        there : (t : ℕ) → i ≢ t → tree_at (set s.trees i z) t ≡ tree_at s.trees t
        there t ne = get_or-set_ne no_tree s.trees i t z ne

        in_tree : frame + n ≤ (frame / 4096 + 1) * 4096
        in_tree = block_in_tree frame flags.order le a.aligned

        owner :
            (t : ℕ)
            → Dec (i ≡ t)
            → (tree_at (set s.trees i z) t).reserved ≡ (tree_at s.trees t).reserved
        owner t (no ne) = ap (λ (x : Tree). x.reserved) (there t ne)
        owner t (yes e) =
            subst (λ (t : ℕ). (tree_at (set s.trees i z) t).reserved ≡ (tree_at s.trees t).reserved)
              e (ap (λ (x : Tree). x.reserved) here ∙ same)

        free_at :
            (t : ℕ)
            → Dec (i ≡ t)
            → (tree_at (set s.trees i z) t).free + at (frame / 4096) f t + tree_free s.lower t
              ≡ (tree_at s.trees t).free + at i tree.free t + tree_free l t
        free_at t (no ne) = omega (
          arith,
          ap (λ (x : Tree). x.free) (there t ne),
          at_ne (frame / 4096) f t (λ e. ne (sym a.in_tree ∙ e)),
          at_ne i tree.free t ne,
          tree_free-elsewhere frame n true s.lower l ready.valid a.changes in_tree t
              (λ e. ne (sym a.in_tree ∙ sym e)),
        )
        free_at t (yes e) =
            subst
              (λ (t : ℕ).
                (tree_at (set s.trees i z) t).free + at (frame / 4096) f t + tree_free s.lower t
                ≡ (tree_at s.trees t).free + at i tree.free t + tree_free l t)
              (a.in_tree ∙ e)
              (omega (
                arith,
                p,
                ap (λ (t : ℕ). (tree_at (set s.trees i z) t).free) a.in_tree,
                ap (λ (t : ℕ). (tree_at s.trees t).free) a.in_tree,
                ap (λ (x : Tree). x.free) here,
                at_self (frame / 4096) f,
                ap (at i tree.free) a.in_tree,
                at_self i tree.free,
                counters.0,
              ))

        huge_at :
            (t : ℕ)
            → Dec (i ≡ t)
            → (tree_at (set s.trees i z) t).huge + at (frame / 4096) g t + tree_huge s.lower t
              ≡ (tree_at s.trees t).huge + at i tree.huge t + tree_huge l t
        huge_at t (no ne) = omega (
          arith,
          ap (λ (x : Tree). x.huge) (there t ne),
          at_ne (frame / 4096) g t (λ e. ne (sym a.in_tree ∙ e)),
          at_ne i tree.huge t ne,
          tree_huge-elsewhere frame n true s.lower l ready.valid a.changes in_tree t
              (λ e. ne (sym a.in_tree ∙ sym e)),
        )
        huge_at t (yes e) =
            subst
              (λ (t : ℕ).
                (tree_at (set s.trees i z) t).huge + at (frame / 4096) g t + tree_huge s.lower t
                ≡ (tree_at s.trees t).huge + at i tree.huge t + tree_huge l t)
              (a.in_tree ∙ e)
              (omega (
                arith,
                q,
                ap (λ (t : ℕ). (tree_at (set s.trees i z) t).huge) a.in_tree,
                ap (λ (t : ℕ). (tree_at s.trees t).huge) a.in_tree,
                ap (λ (x : Tree). x.huge) here,
                at_self (frame / 4096) g,
                ap (at i tree.huge) a.in_tree,
                at_self i tree.huge,
                counters.1,
              ))

    -- The owner has the huge frames, and the array stays.
    own_frames : used ≤ tree.huge → Outcome tree flags s (lower_get tree flags s)
    unfolding lower_get
    own_frames fits =
        let new : LocalTree = record {
          frame = frame;
          free = tree.free - n;
          huge = tree.huge - used;
        } in
        inl (
          new,
          record s { lower = l },
          bind-returns _ run
              ∙ rw (ge→ltb tree.free n ready.enough, ge→ltb tree.huge used fits)
                  (rw (ge→ltb tree.huge used fits) refl),
          a,
          subst (λ (ts : List Tree). Moves tree new s (record s { lower = l; trees = ts }))
              (set-get_or no_tree s.trees i)
              (moves (tree.free - n) (tree.huge - used) (tree_at s.trees i) refl
                (omega (arith, ready.enough)) (omega (arith, fits))),
        )

    -- The owner takes the counters of the array first, where these have enough frames.
    synced : tree.huge < used → Outcome tree flags s (lower_get tree flags s)
    unfolding lower_get sync_with_global
    synced short =
        let left : LocalTree = record { frame = frame; free = tree.free - n; huge = tree.huge } in
        let g = tree_at s.trees i in
        let all : used ≤ g.huge + tree.huge =
          omega (arith, counters.1, ready.whole, ap (tree_huge s.lower) a.in_tree) in
        let calls = λ (j : ℕ). Trees.sync j (256 - (tree.free - n)) (n / 512 - tree.huge) s.trees in
        elim (sync-cases i (256 - (tree.free - n)) (n / 512 - tree.huge) s.trees ready.inside) [
          | inl (e, _) ↦
              let new : LocalTree = record {
                frame = frame;
                free = tree.free - n + g.free;
                huge = tree.huge + g.huge - used;
              } in
              inl (
                new,
                record s { lower = l; trees = set s.trees i (emptied g) },
                bind-returns _ run
                    ∙ rw (ge→ltb tree.free n ready.enough, lt→ltb tree.huge used short)
                        (bind-returns _ (bind-returns _ (bind-returns _ (ap calls a.in_tree ∙ e)))
                          ∙ rw (ge→ltb (tree.huge + g.huge) used (omega (arith, all))) refl),
                a,
                moves (tree.free - n + g.free) (tree.huge + g.huge - used) (emptied g) refl
                    (omega (arith, ready.enough)) (omega (arith, all)),
              )
          | inr (e, why) ↦ inr (
              inr (
                bind-returns _ run
                    ∙ rw (ge→ltb tree.free n ready.enough, lt→ltb tree.huge used short)
                        (bind-panics _ (bind-returns _ (bind-returns _ (ap calls a.in_tree ∙ e)))),
                omega (arith, short, used_le h),
                few_frames (omega (arith, all)) why,
                omega (arith, all, short),
              ))
        ]
      where
        -- The sync can fail for its number of frames only.
        few_frames :
            n / 512 ≤ (tree_at s.trees i).huge + tree.huge
            → ((tree_at s.trees i).reserved ≡ false)
              ⊎ (((tree_at s.trees i).free ≤ 256 - (tree.free - n))
                  ⊎ ((tree_at s.trees i).huge < n / 512 - tree.huge))
            → (tree_at s.trees i).free ≤ 256 - (tree.free - n)
        few_frames all (inl r) = absurd (omega (arith, ap count_if (sym ready.reserved ∙ r)))
        few_frames all (inr (inl few)) = few
        few_frames all (inr (inr less)) = absurd (omega (arith, all, less))

        used_le : (b : Bool) → huge_count b flags.order ≤ max 1 (n / 512)
        used_le true = omega arith
        used_le false = omega arith

  -- In a tree that somebody has, with books in order, `lower_get` allocates a free block of the tree
  -- and the counters change as the lower allocator does; or it reports no memory where the tree has no
  -- free block, and changes nothing; or its assertion fails, and this only where the owner has too
  -- few huge frames, the array has some, and it has no more frames than what the owner has left lacks to
  -- 256.
  pub lower_get-Outcome : Outcome tree flags s (lower_get tree flags s)
  unfolding lower_get
  lower_get-Outcome = elim (get-Gets tree.frame flags s.lower ready.valid ready.in_range le) [
    | inr (r, none_free) ↦ inr (inl (bind-returns _ r, none_free))
    | inl (frame, h, l, r, a, says) ↦ elim (dec_lt tree.huge (huge_count h flags.order)) [
      | yes short ↦ synced frame h l r a says short
      | no fits ↦ own_frames frame h l r a says (omega arith)
    ]
  ]
