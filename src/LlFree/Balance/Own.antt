-- ===== src/LlFree/Balance/Own.antt =====
-- `get` of core/src/llfree.rs in the preferred tree of the core.
use native.Mathlib.Nat.{mod-lt}
use llfree_rs.Base.{
  ℕ, ◌+◌, ◌-◌, ◌*◌, ◌/◌, ◌%◌, ◌^◌, ◌≤◌, ◌<◌, ◌≡◌, refl, ap, ◌∙◌, ◌⊎◌, inl, inr, Bool, true, none,
  some, length, get_or, index-get_or, leb, le→leb, ge→ltb, ==_iff, ◌&&◌, Run, returns, panics,
  bind-returns, bind-panics, ok, arith,
}
use llfree_rs.Types.{Flags, Res}
use llfree_rs.Lower.Blocks.{Allocated, NoBlockIn}
use llfree_rs.Lower.Frames.{taken}
use llfree_rs.Trees.Cases.{tree_at}
use llfree_rs.Local.{Kind, LocalTree, empty, preferred, with_preferred, kind_of}
use llfree_rs.LlFree.{LlFree, set_local, reserve_and_get, get_inner, get_rounds, get}
use llfree_rs.LlFree.Balance.{Holding, nothing, set_preferred-eq}
use llfree_rs.LlFree.Balance.Get.{lower_get-Outcome}
use llfree_rs.LlFree.Balance.Slots.{slot-IsReady, slot-Balanced}

-- A block of the preferred tree is handed out with the books in order.
abbrev pub Serves : LocalTree → ℕ → LlFree → Run (Res ℕ × LlFree) → Type 0
Serves tree order s out =
    (frame : ℕ) × (s' : LlFree) × (out ≡ returns (ok frame, s'))
    × Holding none s'
    × Allocated tree.frame order frame s.lower s'.lower

-- The assertion of `lower_get` fails: the core counts no huge frame, the array counts some in the
-- tree, and has no more frames there than the core lacks to 256. This is for blocks below a huge frame only.
abbrev pub Fails : LocalTree → ℕ → LlFree → Run (Res ℕ × LlFree) → Type 0
Fails tree order s out =
    (out ≡ panics)
    × (2 ^ order < 512)
    × (tree.huge ≡ 0)
    × ((tree_at s.trees (tree.frame / 4096)).free ≤ 256 - (tree.free - 2 ^ order))
    × (1 ≤ (tree_at s.trees (tree.frame / 4096)).huge)

module _ (busy : ℕ → Bool) (core : ℕ) (flags : Flags) (le : flags.order ≤ 10) (s : LlFree)
    (lt : core < length s.locals) (b : Holding none s) (tree : LocalTree)
    (mine : preferred (kind_of flags) (get_or s.locals core empty) ≡ some tree)
    (frames : 2 ^ flags.order ≤ tree.free) (huges : 2 ^ flags.order / 512 ≤ tree.huge) where
  abbrev kind : Kind
  kind = kind_of flags

  enough : (leb (2 ^ flags.order) tree.free && leb (2 ^ flags.order / 512) tree.huge) ≡ true
  enough = rw (le→leb _ _ frames, le→leb _ _ huges) refl

  -- Where the tree has no block, the search for another tree begins.
  pub get_inner-preferred :
      Serves tree flags.order s (get_inner busy core flags s)
      ⊎ (((get_inner busy core flags s ≡ reserve_and_get busy core flags s)
            × NoBlockIn tree.frame flags.order s.lower)
          ⊎ Fails tree flags.order s (get_inner busy core flags s))
  unfolding get_inner
  get_inner-preferred =
      let read = index-get_or empty s.locals core lt in
      elim (lower_get-Outcome tree flags s le
        (slot-IsReady s b core lt kind tree mine flags.order frames)) [
          | inl (new, s', r, a, m) ↦
              let l' = get_or s'.locals core empty in
              inl (
                new.frame,
                set_local core (with_preferred kind (some new) l') s',
                bind-returns _ read
                    ∙ rw (mine, enough)
                        (bind-returns _ r
                          ∙ rw ((==_iff (new.frame / 4096) (tree.frame / 4096)).1 m.same_tree) (
                              bind-returns _ (
                                set_preferred-eq core kind (some new) s'
                                  (omega (arith, lt, ap length m.same_locals))))),
                slot-Balanced s b core lt kind tree mine nothing nothing nothing new s' (some new) m
                    a.changes.valid a.changes.same_range a.changes.same_length (λ t. omega arith)
                    (λ t. omega arith) (λ t. omega arith),
                record {
                  in_tree = a.in_tree;
                  aligned = a.aligned;
                  within = a.within;
                  changes = a.changes;
                  marked = a.marked;
                },
              )
          | inr (inl (r, none_free)) ↦
              inr (inl (bind-returns _ read ∙ rw (mine, enough) (bind-returns _ r), none_free))
          | inr (inr (r, few, low, some_huge)) ↦ inr (
              inr (
                bind-returns _ read ∙ rw (mine, enough) (bind-panics _ r),
                omega (arith, few, huges),
                omega (arith, few, huges),
                low,
                some_huge,
              ))
        ]

-- With the books in order, where the preferred tree of the core for the kind of allocation counts
-- 2 ^ order free frames and the huge frames for the order, and has a free aligned block of that
-- size below the end of the bitfields, for an order up to 10, an allocation does not report an
-- error: it hands out an aligned block of this tree, exactly its frames turn from free to allocated,
-- its huge frames are marked from order 9 on, and the books stay in order. Only for a block below
-- a huge frame may it panic instead, and this only where the core counts no huge frame of the
-- tree, while the array counts some, and counts no more free frames of it than the core lacks to
-- 256 after the allocation.
pub get-preferred :
    (busy : ℕ → Bool) (core : ℕ) (flags : Flags) (s : LlFree) (tree : LocalTree) (block : ℕ)
    → flags.order ≤ 10
    → 0 < length s.locals
    → Holding none s
    → preferred (kind_of flags) (get_or s.locals (core % length s.locals) empty) ≡ some tree
    → 2 ^ flags.order ≤ tree.free
    → 2 ^ flags.order / 512 ≤ tree.huge
    → block / 4096 ≡ tree.frame / 4096
    → block % 2 ^ flags.order ≡ 0
    → block + 2 ^ flags.order ≤ length s.lower.bitfields * 512
    → ((j : ℕ) → j < 2 ^ flags.order → taken s.lower (block + j) ≡ 0)
    → Serves tree flags.order s (get busy core flags s)
      ⊎ Fails tree flags.order s (get busy core flags s)
unfolding get get_rounds
get-preferred busy core flags s tree block le pos b mine frames huges here aligned within free =
    rw (ge→ltb 10 flags.order le)
      (elim (get_inner-preferred busy (core % length s.locals) flags le s (mod-lt core pos) b tree
        mine frames huges) [
          | inl (frame, s', r, b', a) ↦ inl (frame, s', bind-returns _ r, b', a)
          | inr (inl (_, none_free)) ↦ absurd (none_free block here aligned within free)
          | inr (inr (r, small, no_huge, low, some_huge)) ↦
              inr (bind-panics _ r, small, no_huge, low, some_huge)
        ])
