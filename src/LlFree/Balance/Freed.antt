-- ===== src/LlFree/Balance/Freed.antt =====
-- The end of `put` in core/src/llfree.rs: the counters take the frames.
use mathlib.Core.Path.{subst}
use llfree_rs.Base.{
  ℕ, ◌+◌, ◌*◌, ◌/◌, ◌^◌, ◌≤◌, ◌<◌, ◌≡◌, refl, ap, sym, ◌∙◌, inl, inr, Bool, true, Bool-cases,
  Option, none, some, length, get_or, leb, ◌==◌, ==_iff, set, length-set, index-get_or, returns,
  bind-returns, ok, arith,
}
use llfree_rs.Types.{Flags}
use llfree_rs.Util.{count_if}
use llfree_rs.Trees.Entry.{Tree}
use llfree_rs.Trees.Cases.{tree_at, inc_or_reserve-cases}
use llfree_rs.Local.{
  Kind, huge, movable, fixed, same_kind, kind_of, LocalTree, Local, empty, preferred,
  with_preferred, frees_push,
}
use llfree_rs.LlFree.{LlFree, set_local, with_trees, put_counters, put_global, owns, add_frames}
use llfree_rs.LlFree.Balance.{
  Balanced, Holding, at, at_self, at_ne, at_add, in_slot, in_local, in_local-with,
  set_local-Balanced, set_tree-Balanced, tree_free-le, tree_huge-le, frees, huges, one, nothing,
}
use llfree_rs.LlFree.Balance.Swap.{swap_reserved-Holding}

-- `frees_push` changes no preferred tree.
frees_push-preferred :
    (i : ℕ) (l : Local) (k : Kind) → preferred k (frees_push i l).1 ≡ preferred k l
unfolding frees_push
frees_push-preferred i l k = elim (Bool-cases (l.last_idx == i)) [
  | inr other ↦ rw other (same k)
  | inl here ↦ elim (Bool-cases (leb 4 l.last_frees)) [
    | inl many ↦ rw (here, many) refl
    | inr few ↦ rw (here, few) (same' k)
  ]
]
  where
    same : (k : Kind) → preferred k (record l { last_idx = i; last_frees = 0 }) ≡ preferred k l
    same huge = refl
    same movable = refl
    same fixed = refl

    same' : (k : Kind) → preferred k (record l { last_frees = l.last_frees + 1 }) ≡ preferred k l
    same' huge = refl
    same' movable = refl
    same' fixed = refl

frees_push-in_local :
    (m : LocalTree → ℕ) (i : ℕ) (l : Local) (t : ℕ)
    → in_local m (frees_push i l).1 t ≡ in_local m l t
frees_push-in_local m i l t = omega (
  arith,
  ap (λ (x : Option LocalTree). in_slot m x t) (frees_push-preferred i l huge),
  ap (λ (x : Option LocalTree). in_slot m x t) (frees_push-preferred i l movable),
  ap (λ (x : Option LocalTree). in_slot m x t) (frees_push-preferred i l fixed),
)

module _ (i n h : ℕ) (s : LlFree) (b : Balanced (at i n) (at i h) nothing s) where
  room : (((tree_at s.trees i).free + n ≤ 4096) × ((tree_at s.trees i).huge + h ≤ 8))
  room = (
    omega (arith, b.free_balance i, at_self i n, tree_free-le s.lower b.valid i),
    omega (arith, b.huge_balance i, at_self i h, tree_huge-le s.lower i),
  )

  -- The array takes the frames, or the tree moves to the core.
  put_global-Holding :
      (core : ℕ) (flags : Flags) (may_reserve : Bool)
      → core < length s.locals
      → i < length s.trees
      → (s' : LlFree) × (put_global core i n h flags may_reserve s ≡ returns (ok tt, s'))
        × Holding none s'
        × (s'.lower ≡ s.lower)
  unfolding put_global
  put_global-Holding core flags may_reserve lt inside =
      elim (inc_or_reserve-cases i n h may_reserve s.trees inside room.0 room.1) [
        | inl (r, _) ↦ (
          with_trees
              (set s.trees i (record (tree_at s.trees i) {
                free = (tree_at s.trees i).free + n;
                huge = (tree_at s.trees i).huge + h;
              }))
              s,
          bind-returns _ r,
          set_tree-Balanced (at i n) (at i h) nothing nothing nothing nothing s b i
              (record (tree_at s.trees i) {
                free = (tree_at s.trees i).free + n;
                huge = (tree_at s.trees i).huge + h;
              })
              inside (omega (arith, at_self i n)) (omega (arith, at_self i h)) refl
              (λ t ne. (sym (at_ne i n t ne), sym (at_ne i h t ne), refl)),
          refl,
        )
        | inr (r, (_, free_tree, _)) ↦
            let tree = tree_at s.trees i in
            let empty_tree : Tree = record tree { free = 0; huge = 0; reserved = true } in
            let s1 : LlFree = with_trees (set s.trees i empty_tree) s in
            let entry : LocalTree = record {
              frame = i * 4096;
              free = tree.free + n;
              huge = tree.huge + h;
            } in
            let place : i ≡ i * 4096 / 4096 = omega arith in
            let taken : Balanced (at i entry.free) (at i entry.huge) (at i 1) s1 =
              set_tree-Balanced (at i n) (at i h) nothing (at i entry.free) (at i entry.huge)
                (at i 1) s b i empty_tree inside (omega (arith, at_self i n, at_self i entry.free))
                (omega (arith, at_self i h, at_self i entry.huge))
                (omega (arith, at_self i 1, ap count_if free_tree))
                (λ t ne. (
                  at_ne i entry.free t ne ∙ sym (at_ne i n t ne),
                  at_ne i entry.huge t ne ∙ sym (at_ne i h t ne),
                  at_ne i 1 t ne,
                )) in
            let held : Holding (some entry) s1 =
              subst (λ (j : ℕ). Balanced (at j entry.free) (at j entry.huge) (at j 1) s1) place
                taken in
            let (s', q, b', l, _) =
              swap_reserved-Holding core
                (kind_of (record { order = flags.order; movable = same_kind tree.kind movable }))
                (some entry) s1 lt held in
            (s', bind-returns _ r ∙ bind-returns _ q, b', l)
      ]

  -- A preferred tree in tree `i` takes the frames.
  added :
      (x : Option LocalTree)
      → owns i x ≡ true
      → (t : ℕ)
      → (in_slot frees (add_frames n h x) t ≡ in_slot frees x t + at i n t)
        × (in_slot huges (add_frames n h x) t ≡ in_slot huges x t + at i h t)
        × (in_slot one (add_frames n h x) t ≡ in_slot one x t)
  added none e t = absurd (omega (arith, ap count_if e))
  added (some y) e t =
      let j = y.frame / 4096 in
      let same : j ≡ i = (==_iff j i).0 e in
      (
        at_add j y.free n t ∙ ap (λ (a : ℕ). at j y.free t + at a n t) same,
        at_add j y.huge h t ∙ ap (λ (a : ℕ). at j y.huge t + at a h t) same,
        refl,
      )

  module _ (core : ℕ) (lt : core < length s.locals) where
    abbrev l0 : Local
    l0 = get_or s.locals core empty

    abbrev pushed : Local
    pushed = (frees_push i l0).1

    add-Holding :
        (k : Kind)
        → owns i (preferred k pushed) ≡ true
        → Holding none
            (set_local core (with_preferred k (add_frames n h (preferred k pushed)) pushed) s)
    add-Holding k e =
        let x = preferred k pushed in
        set_local-Balanced (at i n) (at i h) nothing nothing nothing nothing s b core
          (with_preferred k (add_frames n h x) pushed) lt
          (λ t. omega (
            arith,
            in_local-with frees k (add_frames n h x) pushed t,
            (added x e t).0,
            frees_push-in_local frees i l0 t,
          ))
          (λ t. omega (
            arith,
            in_local-with huges k (add_frames n h x) pushed t,
            (added x e t).1,
            frees_push-in_local huges i l0 t,
          ))
          (λ t. omega (
            arith,
            in_local-with one k (add_frames n h x) pushed t,
            (added x e t).2,
            frees_push-in_local one i l0 t,
          ))

    pushed-Balanced : Balanced (at i n) (at i h) nothing (set_local core pushed s)
    pushed-Balanced =
        set_local-Balanced (at i n) (at i h) nothing (at i n) (at i h) nothing s b core pushed lt
          (λ t. omega (arith, frees_push-in_local frees i l0 t))
          (λ t. omega (arith, frees_push-in_local huges i l0 t))
          (λ t. omega (arith, frees_push-in_local one i l0 t))

-- The end of `put`: the counters take the frames, whoever has the tree.
pub put_counters-Holding :
    (core i h : ℕ) (flags : Flags) (s : LlFree)
    → Balanced (at i (2 ^ flags.order)) (at i h) nothing s
    → core < length s.locals
    → i < length s.trees
    → (s' : LlFree) × (put_counters core i h flags s ≡ returns (ok tt, s'))
      × Holding none s'
      × (s'.lower ≡ s.lower)
unfolding put_counters
put_counters-Holding core i h flags s b lt inside =
    let read = index-get_or empty s.locals core lt in
    elim (Bool-cases (leb 9 flags.order)) [
      | inl large ↦ elim (Bool-cases (owns i (preferred huge l))) [
        | inl mine ↦ (
          added_to huge,
          bind-returns _ read ∙ rw (large, mine) refl,
          add-Holding i n h s b core lt huge mine,
          refl,
        )
        | inr other ↦
            let (s', r, b', e) = global in (s', bind-returns _ read ∙ rw (large, other) r, b', e)
      ]
      | inr small ↦ elim (Bool-cases (owns i (preferred movable l))) [
        | inl mine ↦ (
          added_to movable,
          bind-returns _ read ∙ rw (small, mine) refl,
          add-Holding i n h s b core lt movable mine,
          refl,
        )
        | inr other ↦ elim (Bool-cases (owns i (preferred fixed l))) [
          | inl mine ↦ (
            added_to fixed,
            bind-returns _ read ∙ rw (small, other, mine) refl,
            add-Holding i n h s b core lt fixed mine,
            refl,
          )
          | inr neither ↦
              let (s', r, b', e) = global in
              (s', bind-returns _ read ∙ rw (small, other, neither) r, b', e)
        ]
      ]
    ]
  where
    n : ℕ
    n = 2 ^ flags.order

    l : Local
    l = (frees_push i (get_or s.locals core empty)).1

    added_to : Kind → LlFree
    added_to k = set_local core (with_preferred k (add_frames n h (preferred k l)) l) s

    global :
        (s' : LlFree) × (put_global core i n h flags
            (frees_push i (get_or s.locals core empty)).0
            (set_local core l s)
          ≡ returns (ok tt, s'))
        × Holding none s'
        × (s'.lower ≡ s.lower)
    global =
        put_global-Holding i n h (set_local core l s) (pushed-Balanced i n h s b core lt) core flags
          (frees_push i (get_or s.locals core empty)).0
          (omega (arith, lt, length-set s.locals core l)) inside
