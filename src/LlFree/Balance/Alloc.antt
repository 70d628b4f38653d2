-- ===== src/LlFree/Balance/Alloc.antt =====
-- `get` of core/src/llfree.rs.
use native.Mathlib.Nat.{mod-lt}
use native.Mathlib.Decide.{ℕ_discrete}
use mathlib.Core.Logic.{◌≢◌}
use mathlib.Core.Path.{subst}
use llfree_rs.Base.{
  index, ℕ, zero, suc, ◌+◌, ◌-◌, ◌/◌, ◌%◌, ◌^◌, ◌≤◌, ◌<◌, ◌≡◌, refl, ap, sym, ◌∙◌, inl, inr, Bool,
  true, false, Bool-cases, Option, none, some, length, get_or, get_or-set_self, get_or-set_ne,
  length-set, set, index-get_or, leb, ge→ltb, ◌&&◌, returns, bind-returns, bind-panics, err, arith,
}
use llfree_rs.Types.{Flags, retry}
use llfree_rs.Lower.{Lower}
use llfree_rs.Lower.Frames.{Changes}
use llfree_rs.Trees.Entry.{Tree}
use llfree_rs.Trees.Cases.{tree_at, no_tree, sync-cases}
use llfree_rs.Local.{Kind, LocalTree, empty, preferred, with_preferred, kind_of}
use llfree_rs.LlFree.{LlFree, set_local, with_trees, sync_with_global, get_inner, get_rounds, get}
use llfree_rs.Lower.Query.Trees.{tree_free, tree_huge}
use llfree_rs.LlFree.Balance.{
  at, at_self, at_ne, in_locals-set, owned-reserved, Holding, nothing, in_slot, set_local-Balanced,
  set_preferred-eq, in_local-with, frees, huges, one,
}
use llfree_rs.LlFree.Balance.Get.{IsSplit, Moves}
use llfree_rs.LlFree.Balance.Slots.{slot-IsReady, slot-Balanced, enough_frames, enough_huges}
use llfree_rs.LlFree.Balance.Own.{get_inner-preferred}
use llfree_rs.LlFree.Balance.Found.{Keeps, Gets, Claims, Gets-from, reserve_and_get-Gets}
use llfree_rs.LlFree.Balance.Range.{IsCapped, Allocates, Claims-Allocates}

module _ (busy : ℕ → Bool) (core : ℕ) (flags : Flags) (le : flags.order ≤ 10) where
  abbrev kind : Kind
  kind = kind_of flags

  -- The preferred tree of the core, with enough frames or without.
  module _ (s : LlFree) (lt : core < length s.locals) (some_tree : 0 < length s.trees)
      (b : Holding none s) (tree : LocalTree)
      (mine : preferred kind (get_or s.locals core empty) ≡ some tree) where
    read : index s.locals core ≡ returns (get_or s.locals core empty)
    read = index-get_or empty s.locals core lt

    own_tree :
        (leb (2 ^ flags.order) tree.free && leb (2 ^ flags.order / 512) tree.huge) ≡ true
        → Gets flags.order s (get_inner busy core flags s)
    own_tree enough =
        let frames = enough_frames flags tree enough in
        elim (get_inner-preferred busy core flags le s lt b tree mine frames
          (enough_huges flags tree enough)) [
            | inl (frame, s', r, b', a) ↦ inl (
              frame,
              s',
              r,
              b',
              record { aligned = a.aligned; within = a.within; changes = a.changes },
            )
            | inr (inl (r, _)) ↦
                subst (Gets flags.order s) (sym r)
                  (reserve_and_get-Gets busy core flags le s lt some_tree b)
            | inr (inr (r, _, _, _, p)) ↦ inr (
                inr (
                  inr (
                    r,
                    (
                      tree.frame / 4096,
                      (slot-IsReady s b core lt kind tree mine flags.order frames).reserved,
                      p,
                    ),
                  )))
          ]

    abbrev i : ℕ
    i = tree.frame / 4096

    share :
        (w : LocalTree → ℕ) (t : ℕ)
        → in_slot w (preferred kind (get_or s.locals core empty)) t ≡ in_slot w (some tree) t
    share w t = ap (λ (x : Option LocalTree). in_slot w x t) mine

    inside : i < length s.trees
    inside =
        let l = get_or s.locals core empty in
        (owned-reserved nothing nothing nothing s i b (
          omega (
            arith,
            in_locals-set one s.locals core (with_preferred kind none l) i lt,
            in_local-with one kind none l i,
            share one i,
            at_self i 1,
          ))).1

    -- The counters of the array move to the core.
    abbrev g : Tree
    g = tree_at s.trees i

    abbrev full : LocalTree
    full = record tree { free = tree.free + g.free; huge = tree.huge + g.huge }

    abbrev emptied : Tree
    emptied = record g { free = 0; huge = 0 }

    synced-Moves : Moves tree full s (with_trees (set s.trees i emptied) s)
    synced-Moves = record {
      same_tree = refl;
      same_locals = refl;
      same_length = length-set s.trees i emptied;
      same_owners = λ t. owner t (ℕ_discrete i t);
      frames = λ t. free_at t (ℕ_discrete i t);
      huge_frames = λ t. huge_at t (ℕ_discrete i t);
    }
      where
        here : tree_at (set s.trees i emptied) i ≡ emptied
        here = get_or-set_self no_tree s.trees i emptied inside

        there : (t : ℕ) → i ≢ t → tree_at (set s.trees i emptied) t ≡ tree_at s.trees t
        there t ne = get_or-set_ne no_tree s.trees i t emptied ne

        owner :
            (t : ℕ)
            → Dec (i ≡ t)
            → (tree_at (set s.trees i emptied) t).reserved ≡ (tree_at s.trees t).reserved
        owner t (no ne) = ap (λ (x : Tree). x.reserved) (there t ne)
        owner t (yes e) =
            subst
              (λ (t : ℕ).
                (tree_at (set s.trees i emptied) t).reserved ≡ (tree_at s.trees t).reserved)
              e (ap (λ (x : Tree). x.reserved) here)

        free_at :
            (t : ℕ)
            → Dec (i ≡ t)
            → (tree_at (set s.trees i emptied) t).free + at i full.free t + tree_free s.lower t
              ≡ (tree_at s.trees t).free + at i tree.free t + tree_free s.lower t
        free_at t (no ne) = omega (
          arith,
          ap (λ (x : Tree). x.free) (there t ne),
          at_ne i full.free t ne,
          at_ne i tree.free t ne,
        )
        free_at t (yes e) =
            subst
              (λ (t : ℕ).
                (tree_at (set s.trees i emptied) t).free + at i full.free t + tree_free s.lower t
                ≡ (tree_at s.trees t).free + at i tree.free t + tree_free s.lower t)
              e
              (omega
                (arith, ap (λ (x : Tree). x.free) here, at_self i full.free, at_self i tree.free))

        huge_at :
            (t : ℕ)
            → Dec (i ≡ t)
            → (tree_at (set s.trees i emptied) t).huge + at i full.huge t + tree_huge s.lower t
              ≡ (tree_at s.trees t).huge + at i tree.huge t + tree_huge s.lower t
        huge_at t (no ne) = omega (
          arith,
          ap (λ (x : Tree). x.huge) (there t ne),
          at_ne i full.huge t ne,
          at_ne i tree.huge t ne,
        )
        huge_at t (yes e) =
            subst
              (λ (t : ℕ).
                (tree_at (set s.trees i emptied) t).huge + at i full.huge t + tree_huge s.lower t
                ≡ (tree_at s.trees t).huge + at i tree.huge t + tree_huge s.lower t)
              e
              (omega
                (arith, ap (λ (x : Tree). x.huge) here, at_self i full.huge, at_self i tree.huge))

    unchanged :
        Holding none
          (set_local core (with_preferred kind (some tree) (get_or s.locals core empty)) s)
    unchanged =
        let l = get_or s.locals core empty in
        set_local-Balanced nothing nothing nothing nothing nothing nothing s b core
          (with_preferred kind (some tree) l) lt
          (λ t. omega (arith, in_local-with frees kind (some tree) l t, share frees t))
          (λ t. omega (arith, in_local-with huges kind (some tree) l t, share huges t))
          (λ t. omega (arith, in_local-with one kind (some tree) l t, share one t))

    still-IsSplit : (split : IsSplit (set s.trees i emptied)) → Dec (i ≡ split.0) → IsSplit s.trees
    still-IsSplit (u, r, p) (yes e) =
        let none_left : (tree_at (set s.trees i emptied) u).huge ≡ 0 =
          ap (λ (k : ℕ). (tree_at (set s.trees i emptied) k).huge) (sym e)
          ∙ ap (λ (y : Tree). y.huge) (get_or-set_self no_tree s.trees i emptied inside) in
        absurd (omega (arith, p, none_left))
    still-IsSplit (u, r, p) (no ne) =
        let same : tree_at (set s.trees i emptied) u ≡ tree_at s.trees u =
          get_or-set_ne no_tree s.trees i u emptied ne in
        (
          u,
          sym (ap (λ (y : Tree). y.reserved) same) ∙ r,
          omega (arith, p, ap (λ (y : Tree). y.huge) same),
        )

    short_tree :
        (leb (2 ^ flags.order) tree.free && leb (2 ^ flags.order / 512) tree.huge) ≡ false
        → Gets flags.order s (get_inner busy core flags s)
    unfolding get_inner sync_with_global
    short_tree few =
        let l = get_or s.locals core empty in
        elim (sync-cases i (256 - tree.free) (2 ^ flags.order / 512 - tree.huge) s.trees inside) [
          | inl (e, _) ↦
              let s' : LlFree = with_trees (set s.trees i emptied) s in
              inr (
                inr (
                  inl (
                    set_local core (with_preferred kind (some full) l) s',
                    bind-returns _ read
                        ∙ rw (mine, few)
                            (bind-returns _ (bind-returns _ e)
                              ∙ bind-returns _ (set_preferred-eq core kind (some full) s' lt)),
                    (
                      slot-Balanced s b core lt kind tree mine nothing nothing nothing full s'
                          (some full) synced-Moves b.valid refl refl (λ t. omega arith)
                          (λ t. omega arith) (λ t. omega arith),
                      refl,
                      length-set s.locals core (with_preferred kind (some full) l),
                      length-set s.trees i emptied,
                      λ split. still-IsSplit split (ℕ_discrete i split.0),
                    ),
                  )))
          | inr (e, _) ↦
              let t : LlFree = set_local core (with_preferred kind (some tree) l) s in
              let size = length-set s.locals core (with_preferred kind (some tree) l) in
              subst (Gets flags.order s)
                (sym (
                  bind-returns _ read
                  ∙ rw (mine, few)
                      (bind-returns _ (bind-returns _ e)
                        ∙ bind-returns _ (set_preferred-eq core kind (some tree) s lt))))
                (Gets-from flags.order s t _ (unchanged, refl, size, refl, λ x. x)
                  (reserve_and_get-Gets busy core flags le t (omega (arith, lt, size)) some_tree
                    unchanged))
        ]

  get_inner-Gets :
      (s : LlFree)
      → core < length s.locals
      → 0 < length s.trees
      → Holding none s
      → Gets flags.order s (get_inner busy core flags s)
  unfolding get_inner
  get_inner-Gets s lt some_tree b = by_slot (preferred kind (get_or s.locals core empty)) refl
    where
      by_slot :
          (x : Option LocalTree)
          → preferred kind (get_or s.locals core empty) ≡ x
          → Gets flags.order s (get_inner busy core flags s)
      by_slot none e =
          subst (Gets flags.order s)
            (sym (bind-returns _ (index-get_or empty s.locals core lt) ∙ rw e refl))
            (reserve_and_get-Gets busy core flags le s lt some_tree b)
      by_slot (some tree) e =
          elim (Bool-cases
            (leb (2 ^ flags.order) tree.free && leb (2 ^ flags.order / 512) tree.huge)) [
              | inl enough ↦ own_tree s lt some_tree b tree e enough
              | inr few ↦ short_tree s lt some_tree b tree e few
            ]

  get_rounds-Claims :
      (n : ℕ) (s : LlFree)
      → core < length s.locals
      → 0 < length s.trees
      → Holding none s
      → Claims flags.order s (get_rounds busy n core flags s)
  unfolding get_rounds
  get_rounds-Claims zero s lt some_tree b = inr (inl (s, refl, b, refl))
  get_rounds-Claims (suc n) s lt some_tree b = elim (get_inner-Gets s lt some_tree b) [
    | inl (frame, s', r, b', h) ↦ inl (frame, s', bind-returns _ r, b', h)
    | inr (inl (s', r, (b', l, _, _, _))) ↦ inr (inl (s', bind-returns _ r, b', l))
    | inr (inr (inl (s', r, k))) ↦
        again s' r k
          (get_rounds-Claims n s' (omega (arith, lt, k.2)) (omega (arith, some_tree, k.3)) k.0)
    | inr (inr (inr (r, x))) ↦ inr (inr (bind-panics _ r, x))
  ]
    where
      again :
          (s' : LlFree)
          → get_inner busy core flags s ≡ returns (err retry, s')
          → Keeps s s'
          → Claims flags.order s' (get_rounds busy n core flags s')
          → Claims flags.order s (get_rounds busy (suc n) core flags s)
      again s' r k (inl (frame, t, e, b', h)) = inl (
        frame,
        t,
        bind-returns _ r ∙ e,
        b',
        record {
          aligned = h.aligned;
          within = omega (arith, h.within, ap (λ (x : Lower). length x.bitfields) k.1);
          changes =
              subst (λ (x : Lower). Changes frame (2 ^ flags.order) true x t.lower) k.1 h.changes;
        },
      )
      again s' r k (inr (inl (t, e, b', l))) = inr (inl (t, bind-returns _ r ∙ e, b', l ∙ k.1))
      again s' r k (inr (inr (e, x))) = inr (inr (bind-returns _ r ∙ e, k.4 x))

-- With the books in order, and where all frames of the bitfields from the end of the range on are
-- allocated, an allocation of 2 ^ order frames, for an order up to 10, hands out an aligned block
-- of that size in whole below the end of the range, all of its frames free before and allocated
-- now, with every other frame as before, the books in order, and the frames from the end of the range on still
-- allocated; or it reports no memory, leaves the lower allocator as it is and the books in order; or
-- it panics, and this only where the array counts huge frames of a reserved tree.
pub get-Allocates :
    (busy : ℕ → Bool) (core : ℕ) (flags : Flags) (s : LlFree)
    → flags.order ≤ 10
    → 0 < length s.locals
    → 0 < length s.trees
    → Holding none s
    → IsCapped s.lower
    → Allocates flags.order s (get busy core flags s)
unfolding get
get-Allocates busy core flags s le pos some_tree b capped = rw (ge→ltb 10 flags.order le) (
    Claims-Allocates flags.order s _ capped
      (get_rounds-Claims busy (core % length s.locals) flags le 4 s (mod-lt core pos) some_tree b))
