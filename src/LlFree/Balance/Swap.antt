-- ===== src/LlFree/Balance/Swap.antt =====
-- `swap_reserved` of core/src/llfree.rs keeps the books.
use mathlib.Core.Path.{subst}
use llfree_rs.Base.{
  sym, ℕ, ◌+◌, ◌/◌, ◌≤◌, ◌<◌, ◌≡◌, refl, ap, ◌∙◌, true, false, Option, none, some, List, length,
  get_or, set, index-get_or, le→leb, returns, bind-returns, arith,
}
use llfree_rs.Util.{count_if}
use llfree_rs.Trees
use llfree_rs.Trees.Entry.{Tree, unreserve_add, with_counters}
use llfree_rs.Trees.Cases.{tree_at, no_tree}
use llfree_rs.Local.{Kind, LocalTree, empty, preferred, with_preferred}
use llfree_rs.LlFree.{LlFree, set_local, with_trees, swap_reserved}
use llfree_rs.LlFree.Balance.{
  Holding, at_self, at_ne, in_slot, in_local-with, set_preferred-eq, set_local-Balanced,
  set_tree-Balanced, owned-reserved, tree_free-le, tree_huge-le, frees, huges, one, nothing,
}

pub unreserve-eq :
    (i free huge : ℕ) (kind : Kind) (ts : List Tree)
    → i < length ts
    → (tree_at ts i).reserved ≡ true
    → (tree_at ts i).free + free ≤ 4096
    → (tree_at ts i).huge + huge ≤ 8
    → Trees.unreserve i free huge kind ts
      ≡ returns (
          set ts i (record {
            free = (tree_at ts i).free + free;
            huge = (tree_at ts i).huge + huge;
            reserved = false;
            kind = kind;
          }))
unfolding Trees.unreserve unreserve_add with_counters
unreserve-eq i free huge kind ts lt reserved f h =
    bind-returns _ (index-get_or no_tree ts i lt) ∙ rw (reserved, le→leb _ _ f, le→leb _ _ h) refl

-- The new preferred tree was in hand, and the old one is given back to the array.
pub swap_reserved-Holding :
    (c : ℕ) (k : Kind) (new : Option LocalTree) (s : LlFree)
    → c < length s.locals
    → Holding new s
    → (s' : LlFree) × (swap_reserved c k new s ≡ returns s')
      × Holding none s'
      × (s'.lower ≡ s.lower)
      × (s'.locals ≡ set s.locals c (with_preferred k new (get_or s.locals c empty)))
unfolding swap_reserved
swap_reserved-Holding c k new s lt b = by_old old refl
  where
    old : Option LocalTree
    old = preferred k (get_or s.locals c empty)

    s1 : LlFree
    s1 = set_local c (with_preferred k new (get_or s.locals c empty)) s

    held : Holding old s1
    held =
        set_local-Balanced (in_slot frees new) (in_slot huges new) (in_slot one new)
          (in_slot frees old) (in_slot huges old) (in_slot one old) s b c
          (with_preferred k new (get_or s.locals c empty)) lt
          (λ t. in_local-with frees k new (get_or s.locals c empty) t)
          (λ t. in_local-with huges k new (get_or s.locals c empty) t)
          (λ t. in_local-with one k new (get_or s.locals c empty) t)

    by_old :
        (x : Option LocalTree)
        → old ≡ x
        → (s' : LlFree) × (swap_reserved c k new s ≡ returns s')
          × Holding none s'
          × (s'.lower ≡ s.lower)
          × (s'.locals ≡ set s.locals c (with_preferred k new (get_or s.locals c empty)))
    by_old none e = (
      s1,
      bind-returns _ (index-get_or empty s.locals c lt)
          ∙ bind-returns _ (set_preferred-eq c k new s lt)
          ∙ rw e refl,
      subst (λ (x : Option LocalTree). Holding x s1) e held,
      refl,
      refl,
    )
    by_old (some tree) e =
        let i = tree.frame / 4096 in
        let h : Holding (some tree) s1 = subst (λ (x : Option LocalTree). Holding x s1) e held in
        let (reserved, inside) =
          owned-reserved (in_slot frees (some tree)) (in_slot huges (some tree))
            (in_slot one (some tree)) s1 i h (omega (arith, at_self i 1)) in
        let f : (tree_at s.trees i).free + tree.free ≤ 4096 =
          omega (arith, h.free_balance i, at_self i tree.free, tree_free-le s.lower h.valid i) in
        let g : (tree_at s.trees i).huge + tree.huge ≤ 8 =
          omega (arith, h.huge_balance i, at_self i tree.huge, tree_huge-le s.lower i) in
        let x : Tree = record {
          free = (tree_at s.trees i).free + tree.free;
          huge = (tree_at s.trees i).huge + tree.huge;
          reserved = false;
          kind = k;
        } in
        (
          with_trees (set s.trees i x) s1,
          bind-returns _ (index-get_or empty s.locals c lt)
              ∙ bind-returns _ (set_preferred-eq c k new s lt)
              ∙ rw e (
                  bind-returns _
                    (unreserve-eq i tree.free tree.huge k s.trees inside reserved f g)),
          set_tree-Balanced (in_slot frees (some tree)) (in_slot huges (some tree))
              (in_slot one (some tree)) nothing nothing nothing s1 h i x inside
              (omega (arith, at_self i tree.free)) (omega (arith, at_self i tree.huge))
              (omega (arith, at_self i 1, ap count_if reserved))
              (λ t ne.
                (sym (at_ne i tree.free t ne), sym (at_ne i tree.huge t ne), sym (at_ne i 1 t ne))),
          refl,
          refl,
        )
