-- ===== src/LlFree/Balance.antt =====
-- The books of core/src/llfree.rs: for each tree, the entry of the array and the preferred trees of
-- the cores have together the frames that the lower allocator counts, and a tree is reserved
-- where exactly one preferred tree is in it.
pub mod Swap
pub mod Drain
pub mod Freed
pub mod Put
pub mod New
pub mod Get
pub mod Hand
pub mod Reserve
pub mod Slots
pub mod Found
pub mod Range
pub mod Own
pub mod Alloc
pub mod Totals
mod Tests
use native.Mathlib.Decide.{ℕ_discrete, dec_lt}
use mathlib.Core.Logic.{◌≢◌}
use mathlib.Core.Path.{subst}
use llfree_rs.Base.{
  ℕ, zero, suc, ◌+◌, ◌-◌, ◌*◌, ◌/◌, ◌≤◌, ◌<◌, ◌≡◌, refl, ap, sym, ◌∙◌, Bool, true, false, Option,
  none, some, List, [], ◌∷◌, length, get_or, get_or-set_self, set, length-set, index-get_or, ◌==◌,
  ==_iff, ne→false, if◌then◌else◌, Run, returns, bind-returns, inl, inr, Bool-cases, get_or-beyond,
  get_or-set_ne, arith,
}
use llfree_rs.Util.{count_if}
use llfree_rs.Word.Bit.{sum_below}
use llfree_rs.Lower.{Lower}
use llfree_rs.Lower.Entry.{HugeEntry, free}
use llfree_rs.Lower.Fields.{count-small}
use llfree_rs.Lower.Counts.{huge-true, huge-false}
use llfree_rs.Lower.Frames.{IsValid, entry_at, field_at}
use llfree_rs.Lower.Query.Trees.{tree_free, tree_huge, whole_at}
use llfree_rs.Trees.Cases.{tree_at, no_tree}
use llfree_rs.Trees.Entry.{Tree}
use llfree_rs.Local.{Kind, huge, movable, fixed, LocalTree, Local, empty, preferred, with_preferred}
use llfree_rs.LlFree.Types.{LlFree, set_local, set_preferred, with_trees}

-- `n` in tree `i`, and nothing in the others.
abbrev pub at : ℕ → ℕ → ℕ → ℕ
at i n t = if i == t then n else 0

abbrev pub nothing : ℕ → ℕ
nothing t = 0

pub at_self : (i n : ℕ) → at i n i ≡ n
at_self i n = rw ((==_iff i i).1 refl) refl

pub at_add : (i m n t : ℕ) → at i (m + n) t ≡ at i m t + at i n t
at_add i m n t = elim (Bool-cases (i == t)) [ inl e ↦ rw e refl | inr e ↦ rw e refl ]

pub at_ne : (i n t : ℕ) → i ≢ t → at i n t ≡ 0
at_ne i n t ne = rw (ne→false i t ne) refl

-- The share of a preferred tree in tree `t`: its frames, its huge frames, or itself.
abbrev pub in_slot : (LocalTree → ℕ) → Option LocalTree → ℕ → ℕ
in_slot m none t = 0
in_slot m (some x) t = at (x.frame / 4096) (m x) t

abbrev pub frees : LocalTree → ℕ
frees x = x.free

abbrev pub huges : LocalTree → ℕ
huges x = x.huge

abbrev pub one : LocalTree → ℕ
one x = 1

abbrev pub in_local : (LocalTree → ℕ) → Local → ℕ → ℕ
in_local m l t = in_slot m l.huge_tree t + in_slot m l.movable_tree t + in_slot m l.fixed_tree t

unfoldable pub in_locals : (LocalTree → ℕ) → List Local → ℕ → ℕ
in_locals m [] t = 0
in_locals m (l ∷ ls) t = in_local m l t + in_locals m ls t

-- The books, where `F` frames, `H` huge frames and `O` trees are neither in the array nor with a
-- core, but in hand.
pub record Balanced (F H O : ℕ → ℕ) (s : LlFree) : Type 0 where
  pub valid : IsValid s.lower
  pub range : s.lower.len ≤ length s.lower.bitfields * 512
  pub covered : length s.lower.bitfields ≤ length s.trees * 8
  pub free_balance :
      (t : ℕ) → (tree_at s.trees t).free + in_locals frees s.locals t + F t ≡ tree_free s.lower t
  pub huge_balance :
      (t : ℕ) → (tree_at s.trees t).huge + in_locals huges s.locals t + H t ≡ tree_huge s.lower t
  pub owners : (t : ℕ) → in_locals one s.locals t + O t ≡ count_if (tree_at s.trees t).reserved

local_at : List Local → ℕ → Local
local_at ls c = get_or ls c empty

pub in_local-with :
    (m : LocalTree → ℕ) (k : Kind) (x : Option LocalTree) (l : Local) (t : ℕ)
    → in_local m (with_preferred k x l) t + in_slot m (preferred k l) t
      ≡ in_local m l t + in_slot m x t
in_local-with m huge x l t = omega arith
in_local-with m movable x l t = omega arith
in_local-with m fixed x l t = omega arith

pub in_locals-set :
    (m : LocalTree → ℕ) (ls : List Local) (c : ℕ) (l : Local) (t : ℕ)
    → c < length ls
    → in_locals m (set ls c l) t + in_local m (get_or ls c empty) t
      ≡ in_locals m ls t + in_local m l t
unfolding in_locals
in_locals-set m [] c l t lt = absurd (omega arith)
in_locals-set m (x ∷ ls) zero l t lt = omega arith
in_locals-set m (x ∷ ls) (suc c) l t lt = omega (arith, in_locals-set m ls c l t (omega arith))

pub set_preferred-eq :
    (c : ℕ) (k : Kind) (x : Option LocalTree) (s : LlFree)
    → c < length s.locals
    → set_preferred c k x s ≡ returns (set_local c (with_preferred k x (get_or s.locals c empty)) s)
set_preferred-eq c k x s lt = bind-returns _ (index-get_or empty s.locals c lt)

sum_below-le : (n c : ℕ) (f : ℕ → ℕ) → ((j : ℕ) → j < n → f j ≤ c) → sum_below n f ≤ n * c
unfolding sum_below
sum_below-le zero c f h = omega arith
sum_below-le (suc n) c f h =
    omega (
      arith,
      h 0 (omega arith),
      sum_below-le n c (λ j. f (suc j)) (λ j lt. h (suc j) (omega arith)),
    )

-- No tree has more frames than its size.
pub tree_free-le : (l : Lower) → IsValid l → (t : ℕ) → tree_free l t ≤ 4096
tree_free-le l v t =
    sum_below-le 8 512 (λ i. free (entry_at l (t * 8 + i))) (λ i lt. small (t * 8 + i))
  where
    small : (h : ℕ) → free (entry_at l h) ≤ 512
    small h = elim (dec_lt h (length l.bitfields)) [
      | no ge ↦
          rw (huge-false (entry_at l h) (omega (arith, v.beyond h (omega arith))))
            (omega (arith, v.beyond h (omega arith)))
      | yes lt ↦ elim (count-small (entry_at l h) (field_at l h) (v.fields h lt)) [
        | inl marked ↦ rw (huge-true (entry_at l h) marked) (omega arith)
        | inr le ↦ rw (huge-false (entry_at l h) le) le
      ]
    ]

pub tree_huge-le : (l : Lower) (t : ℕ) → tree_huge l t ≤ 8
tree_huge-le l t =
    sum_below-le 8 1 (λ i. whole_at l (t * 8 + i))
      (λ i lt. at_most (free (entry_at l (t * 8 + i)) == 512))
  where
    at_most : (b : Bool) → count_if b ≤ 1
    at_most true = omega arith
    at_most false = omega arith

module _ (F H O F' H' O' : ℕ → ℕ) (s : LlFree) (b : Balanced F H O s) where
  -- The books where one entry of the array changes.
  pub set_tree-Balanced :
      (i : ℕ) (x : Tree)
      → i < length s.trees
      → x.free + F' i ≡ (tree_at s.trees i).free + F i
      → x.huge + H' i ≡ (tree_at s.trees i).huge + H i
      → O' i + count_if (tree_at s.trees i).reserved ≡ O i + count_if x.reserved
      → ((t : ℕ) → i ≢ t → (F' t ≡ F t) × (H' t ≡ H t) × (O' t ≡ O t))
      → Balanced F' H' O' (with_trees (set s.trees i x) s)
  set_tree-Balanced i x lt f h o others = record {
    valid = b.valid;
    range = b.range;
    covered = omega (arith, length-set s.trees i x, b.covered);
    free_balance = λ t. frames t (ℕ_discrete i t);
    huge_balance = λ t. whole t (ℕ_discrete i t);
    owners = λ t. owner t (ℕ_discrete i t);
  }
    where
      here : tree_at (set s.trees i x) i ≡ x
      here = get_or-set_self no_tree s.trees i x lt

      there : (t : ℕ) → i ≢ t → tree_at (set s.trees i x) t ≡ tree_at s.trees t
      there t ne = get_or-set_ne no_tree s.trees i t x ne

      frames :
          (t : ℕ)
          → Dec (i ≡ t)
          → (tree_at (set s.trees i x) t).free + in_locals frees s.locals t + F' t
            ≡ tree_free s.lower t
      frames t (no ne) =
          omega (arith, ap (λ (y : Tree). y.free) (there t ne), (others t ne).0, b.free_balance t)
      frames t (yes e) =
          subst
            (λ (t : ℕ).
              (tree_at (set s.trees i x) t).free + in_locals frees s.locals t + F' t
              ≡ tree_free s.lower t)
            e (omega (arith, ap (λ (y : Tree). y.free) here, f, b.free_balance i))

      whole :
          (t : ℕ)
          → Dec (i ≡ t)
          → (tree_at (set s.trees i x) t).huge + in_locals huges s.locals t + H' t
            ≡ tree_huge s.lower t
      whole t (no ne) =
          omega (arith, ap (λ (y : Tree). y.huge) (there t ne), (others t ne).1, b.huge_balance t)
      whole t (yes e) =
          subst
            (λ (t : ℕ).
              (tree_at (set s.trees i x) t).huge + in_locals huges s.locals t + H' t
              ≡ tree_huge s.lower t)
            e (omega (arith, ap (λ (y : Tree). y.huge) here, h, b.huge_balance i))

      owner :
          (t : ℕ)
          → Dec (i ≡ t)
          → in_locals one s.locals t + O' t ≡ count_if (tree_at (set s.trees i x) t).reserved
      owner t (no ne) =
          omega (
            arith,
            ap (λ (y : Tree). count_if y.reserved) (there t ne),
            (others t ne).2,
            b.owners t,
          )
      owner t (yes e) =
          subst
            (λ (t : ℕ).
              in_locals one s.locals t + O' t ≡ count_if (tree_at (set s.trees i x) t).reserved)
            e (omega (arith, ap (λ (y : Tree). count_if y.reserved) here, o, b.owners i))

  -- The books where the data of one core changes.
  pub set_local-Balanced :
      (c : ℕ) (l : Local)
      → c < length s.locals
      → ((t : ℕ) → in_local frees l t + F' t ≡ in_local frees (get_or s.locals c empty) t + F t)
      → ((t : ℕ) → in_local huges l t + H' t ≡ in_local huges (get_or s.locals c empty) t + H t)
      → ((t : ℕ) → in_local one l t + O' t ≡ in_local one (get_or s.locals c empty) t + O t)
      → Balanced F' H' O' (set_local c l s)
  set_local-Balanced c l lt f h o = record {
    valid = b.valid;
    range = b.range;
    covered = b.covered;
    free_balance = λ t. omega (arith, in_locals-set frees s.locals c l t lt, f t, b.free_balance t);
    huge_balance = λ t. omega (arith, in_locals-set huges s.locals c l t lt, h t, b.huge_balance t);
    owners = λ t. omega (arith, in_locals-set one s.locals c l t lt, o t, b.owners t);
  }

-- The books with one reserved tree in hand, if any.
abbrev pub Holding : Option LocalTree → LlFree → Type 0
Holding x s = Balanced (in_slot frees x) (in_slot huges x) (in_slot one x) s

-- A tree that someone has is reserved, and in the array.
pub owned-reserved :
    (F H O : ℕ → ℕ) (s : LlFree) (t : ℕ)
    → Balanced F H O s
    → 1 ≤ in_locals one s.locals t + O t
    → ((tree_at s.trees t).reserved ≡ true) × (t < length s.trees)
owned-reserved F H O s t b pos = (reserved, inside)
  where
    reserved : (tree_at s.trees t).reserved ≡ true
    reserved = elim (Bool-cases (tree_at s.trees t).reserved) [
      | inl r ↦ r
      | inr r ↦ absurd (omega (arith, pos, b.owners t, ap count_if r))
    ]

    inside : t < length s.trees
    inside = elim (dec_lt t (length s.trees)) [
      | yes lt ↦ lt
      | no ge ↦ absurd (
          omega (
            arith,
            pos,
            b.owners t,
            ap (λ (y : Tree). count_if y.reserved) (get_or-beyond s.trees t no_tree (omega arith)),
          ))
    ]
