-- ===== src/LlFree/Balance/Put.antt =====
-- `put` of core/src/llfree.rs.
use native.Mathlib.Nat.{mod-lt, one-le-pow}
use mathlib.Core.Path.{subst}
use native.Mathlib.Decide.{ℕ_discrete}
use llfree_rs.Base.{
  ℕ, ◌+◌, ◌*◌, ◌/◌, ◌%◌, ◌^◌, ◌≤◌, ◌<◌, ◌≡◌, sym, ◌∙◌, ◌⊎◌, inl, inr, Bool, false, none, length,
  gt→leb, ◌==◌, returns, bind-returns, ok, err, arith,
}
use llfree_rs.Types.{Flags, address}
use llfree_rs.Lower.Frames.{Changes, entry_at}
use llfree_rs.Lower.PutSmall.{AllTaken, Marked}
use llfree_rs.Lower.Put.Whole.{put-Puts}
use llfree_rs.Lower.Query.Blocks.{freed-counters, block_in_tree}
use llfree_rs.Lower.Query.Trees.{tree_free, tree_huge, tree_free-elsewhere, tree_huge-elsewhere}
use llfree_rs.Lower.{Lower}
use llfree_rs.Lower.Entry
use llfree_rs.Trees.Cases.{tree_at}
use llfree_rs.LlFree.{LlFree, put, huge_count}
use llfree_rs.LlFree.Balance.{
  Balanced, Holding, at, at_self, at_ne, in_locals, frees, huges, nothing,
}
use llfree_rs.LlFree.Balance.Freed.{put_counters-Holding}

-- After a free in the lower allocator, the frames of the block are in hand.
freed-Balanced :
    (frame : ℕ) (flags : Flags) (s : LlFree) (l' : Lower) (fr : Bool)
    → Holding none s
    → flags.order ≤ 10
    → frame % 2 ^ flags.order ≡ 0
    → frame + 2 ^ flags.order ≤ length s.lower.bitfields * 512
    → Changes frame (2 ^ flags.order) false s.lower l'
    → fr ≡ (Entry.free (entry_at l' (frame / 512)) == 512)
    → Balanced
        (at (frame / 4096) (2 ^ flags.order))
        (at (frame / 4096) (huge_count fr flags.order))
        nothing
        (record s { lower = l' })
freed-Balanced frame flags s l' fr b le aligned within c says = record {
  valid = c.valid;
  range = omega (arith, b.range, c.same_range, c.same_length);
  covered = omega (arith, b.covered, c.same_length);
  free_balance = λ t. frames t (ℕ_discrete (frame / 4096) t);
  huge_balance = λ t. whole t (ℕ_discrete (frame / 4096) t);
  owners = b.owners;
}
  where
    n : ℕ
    n = 2 ^ flags.order

    h : ℕ
    h = huge_count fr flags.order

    in_tree : frame + n ≤ (frame / 4096 + 1) * 4096
    in_tree = block_in_tree frame flags.order le aligned

    counts :
        (tree_free l' (frame / 4096) ≡ tree_free s.lower (frame / 4096) + n)
        × (tree_huge l' (frame / 4096) ≡ tree_huge s.lower (frame / 4096) + h)
    counts = freed-counters frame flags.order le aligned s.lower l' b.valid within fr c says

    frames :
        (t : ℕ)
        → Dec (frame / 4096 ≡ t)
        → (tree_at s.trees t).free + in_locals frees s.locals t + at (frame / 4096) n t
          ≡ tree_free l' t
    frames t (no ne) = omega (
      arith,
      b.free_balance t,
      at_ne (frame / 4096) n t ne,
      tree_free-elsewhere frame n false s.lower l' b.valid c in_tree t (λ e. ne (sym e)),
    )
    frames t (yes e) =
        subst
          (λ (t : ℕ).
            (tree_at s.trees t).free + in_locals frees s.locals t + at (frame / 4096) n t
            ≡ tree_free l' t)
          e (omega (arith, b.free_balance (frame / 4096), at_self (frame / 4096) n, counts.0))

    whole :
        (t : ℕ)
        → Dec (frame / 4096 ≡ t)
        → (tree_at s.trees t).huge + in_locals huges s.locals t + at (frame / 4096) h t
          ≡ tree_huge l' t
    whole t (no ne) = omega (
      arith,
      b.huge_balance t,
      at_ne (frame / 4096) h t ne,
      tree_huge-elsewhere frame n false s.lower l' b.valid c in_tree t (λ e. ne (sym e)),
    )
    whole t (yes e) =
        subst
          (λ (t : ℕ).
            (tree_at s.trees t).huge + in_locals huges s.locals t + at (frame / 4096) h t
            ≡ tree_huge l' t)
          e (omega (arith, b.huge_balance (frame / 4096), at_self (frame / 4096) h, counts.1))

-- With the books in order, a free of an aligned block of 2 ^ order frames in the range, for an order
-- up to 10, never panics: either it succeeds, exactly these frames turn from allocated to free and
-- the books are in order again, whichever of the cores has the tree; or it reports a wrong address,
-- all is as before, and some frame of the block is free already or, from order 9 on, some huge frame
-- of the block is not marked as allocated in whole.
pub put-Holding :
    (core frame : ℕ) (flags : Flags) (s : LlFree)
    → Holding none s
    → 0 < length s.locals
    → flags.order ≤ 10
    → frame % 2 ^ flags.order ≡ 0
    → frame + 2 ^ flags.order ≤ s.lower.len
    → ((s' : LlFree) × (put core frame flags s ≡ returns (ok tt, s'))
        × Changes frame (2 ^ flags.order) false s.lower s'.lower
        × Holding none s')
      ⊎ ((put core frame flags s ≡ returns (err address, s))
          × (flags.order < 9 → ¬ AllTaken frame (2 ^ flags.order) s.lower)
          × (9 ≤ flags.order → ¬ Marked frame (2 ^ flags.order) s.lower))
unfolding put
put-Holding core frame flags s b pos le aligned inside =
    let within : frame + 2 ^ flags.order ≤ length s.lower.bitfields * 512 =
      omega (arith, inside, b.range) in
    let in_range = gt→leb s.lower.len frame (omega (arith, inside, one-le-pow flags.order 2)) in
    elim (put-Puts frame (record flags { movable = false }) s.lower b.valid le aligned within) [
      | inr (r, refused) ↦ inr (rw in_range (bind-returns _ r), refused.0, refused.1)
      | inl (fr, l', r, c, says) ↦
          let (s', q, b', e) =
            put_counters-Holding (core % length s.locals) (frame / 4096) (huge_count fr flags.order)
              (record flags { movable = false }) (record s { lower = l' })
              (freed-Balanced frame (record flags { movable = false }) s l' fr b le aligned within c
                says)
              (mod-lt core pos)
              (omega (arith, inside, b.range, b.covered, one-le-pow flags.order 2)) in
          inl (
            s',
            rw in_range (bind-returns _ r ∙ q),
            subst (Changes frame (2 ^ flags.order) false s.lower) (sym e) c,
            b',
          )
    ]
