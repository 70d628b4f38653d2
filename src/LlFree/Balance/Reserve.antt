-- ===== src/LlFree/Balance/Reserve.antt =====
-- The search for a tree in core/src/trees.rs with `lower_get` of core/src/llfree.rs.
use native.Mathlib.Decide.{ℕ_discrete}
use native.Mathlib.Nat.{mod-lt}
use mathlib.Core.Path.{subst}
use llfree_rs.Base.{
  ℕ, zero, suc, ◌+◌, ◌-◌, ◌*◌, ◌/◌, ◌%◌, ◌^◌, ◌≤◌, ◌<◌, ◌≡◌, refl, ap, sym, ◌∙◌, ◌⊎◌, inl, inr,
  true, false, Bool-cases, none, some, max, min, length, get_or-set_self, get_or-set_ne, length-set,
  set, index-get_or, leb, leb→le, ◌==◌, ◌&&◌, ◌||◌, not, Run, returns, bind-returns, bind-panics,
  arith,
}
use llfree_rs.Types.{Flags, Res}
use llfree_rs.Util.{count_if}
use llfree_rs.Atomic.{fetch_update-some, fetch_update-none}
use llfree_rs.Lower.{Lower}
use llfree_rs.Lower.Frames.{Changes}
use llfree_rs.Trees
use llfree_rs.Trees.Entry.{Tree, reserve}
use llfree_rs.Trees.Cases.{tree_at, no_tree}
use llfree_rs.Local.{Kind, LocalTree, same_kind, kind_of}
use llfree_rs.LlFree.{LlFree, with_trees, lower_get}
use llfree_rs.LlFree.Balance.{
  Balanced, Holding, at, at_self, at_ne, nothing, set_tree-Balanced, tree_free-le, tree_huge-le,
}
use llfree_rs.LlFree.Balance.Swap.{unreserve-eq}
use llfree_rs.LlFree.Balance.Get.{IsSplit}
use llfree_rs.LlFree.Balance.Hand.{Search, lower_get-held}

-- `reserve` takes an unreserved tree whose free frames are in the range.
reserve-cases :
    (low high min_huge : ℕ) (kind : Kind) (t : Tree)
    → ((reserve low high min_huge kind t
          ≡ some (record { free = 0; huge = 0; reserved = true; kind = kind }))
        × (t.reserved ≡ false)
        × (low ≤ t.free))
      ⊎ (reserve low high min_huge kind t ≡ none)
unfolding reserve
reserve-cases low high min_huge kind t = elim (Bool-cases t.reserved) [
  | inl r ↦ inr (rw r refl)
  | inr r ↦ elim (Bool-cases (leb low t.free)) [
    | inr less ↦ inr (rw (r, less) refl)
    | inl more ↦
        elim (Bool-cases (
          (not t.reserved && (leb low t.free && leb t.free high) && leb min_huge t.huge)
          && (same_kind kind t.kind || t.free == 4096))) [
            | inl c ↦ inl (rw c refl, r, leb→le low t.free more)
            | inr c ↦ inr (rw c refl)
          ]
  ]
]

-- A search that starts in a state with the same lower allocator and as many cores.
pub Search-from :
    (order : ℕ) (s t : LlFree) (out : Run (Res LocalTree × LlFree))
    → t.lower ≡ s.lower
    → length t.locals ≡ length s.locals
    → length t.trees ≡ length s.trees
    → (IsSplit t.trees → IsSplit s.trees)
    → Search order t out
    → Search order s out
Search-from order s t out l ls len p (inl (new, s', r, b, h, e)) = inl (
  new,
  s',
  r,
  b,
  record {
    aligned = h.aligned;
    within = omega (arith, h.within, ap (λ (x : Lower). length x.bitfields) l);
    changes = subst (λ (x : Lower). Changes new.frame (2 ^ order) true x s'.lower) l h.changes;
  },
  e ∙ ls,
)
Search-from order s t out l ls len p (inr (inl (s', r, b, e, f, g, q))) =
    inr (inl (s', r, b, e ∙ l, f ∙ ls, g ∙ len, λ x. p (q x)))
Search-from order s t out l ls len p (inr (inr (r, x))) = inr (inr (r, p x))

probe-lt : (len start i : ℕ) → 0 < len → Trees.probe len start i < len
unfolding Trees.probe
probe-lt len start i pos = elim (Bool-cases (i % 2 == 0)) [
  | inl even ↦ rw even (mod-lt (start + len + i / 2) pos)
  | inr odd ↦ rw odd (mod-lt ((start + len + 2 ^ 64 - (i + 2 - 1) / 2) % 2 ^ 64) pos)
]

-- An unreserved tree moves to the caller.
module _ (s : LlFree) (b : Holding none s) (j : ℕ) (inside : j < length s.trees) (kind : Kind)
    (free_tree : (tree_at s.trees j).reserved ≡ false) where
  abbrev t : Tree
  t = tree_at s.trees j

  abbrev reserved_tree : Tree
  reserved_tree = record { free = 0; huge = 0; reserved = true; kind = kind }

  abbrev s1 : LlFree
  s1 = with_trees (set s.trees j reserved_tree) s

  abbrev tree : LocalTree
  tree = record { frame = j * 4096; free = t.free; huge = t.huge }

  taken-Balanced : Balanced (at j t.free) (at j t.huge) (at j 1) s1
  taken-Balanced =
      set_tree-Balanced nothing nothing nothing (at j t.free) (at j t.huge) (at j 1) s b j
        reserved_tree inside (omega (arith, at_self j t.free)) (omega (arith, at_self j t.huge))
        (omega (arith, at_self j 1, ap count_if free_tree))
        (λ k ne. (at_ne j t.free k ne, at_ne j t.huge k ne, at_ne j 1 k ne))

  taken-Holding : Holding (some tree) s1
  taken-Holding =
      let place : j ≡ j * 4096 / 4096 = omega arith in
      subst (λ (k : ℕ). Balanced (at k t.free) (at k t.huge) (at k 1) s1) place taken-Balanced

  here : tree_at s1.trees j ≡ reserved_tree
  here = get_or-set_self no_tree s.trees j reserved_tree inside

  -- It goes back where the allocation fails.
  back :
      (s2 : LlFree) × (Trees.unreserve j t.free t.huge kind s1.trees ≡ returns s2.trees)
      × Holding none s2
      × (s2.lower ≡ s.lower)
      × (length s2.locals ≡ length s.locals)
      × (length s2.trees ≡ length s.trees)
      × (IsSplit s2.trees → IsSplit s.trees)
      × (with_trees s2.trees s1 ≡ s2)
  back =
      let inside1 : j < length s1.trees =
        omega (arith, inside, length-set s.trees j reserved_tree) in
      let z = tree_at s1.trees j in
      let f0 : z.free ≡ 0 = ap (λ (x : Tree). x.free) here in
      let h0 : z.huge ≡ 0 = ap (λ (x : Tree). x.huge) here in
      let r0 : z.reserved ≡ true = ap (λ (x : Tree). x.reserved) here in
      let x : Tree = record {
        free = z.free + t.free;
        huge = z.huge + t.huge;
        reserved = false;
        kind = kind;
      } in
      let f : z.free + t.free ≤ 4096 =
        omega (arith, f0, b.free_balance j, tree_free-le s.lower b.valid j) in
      let h : z.huge + t.huge ≤ 8 = omega (arith, h0, b.huge_balance j, tree_huge-le s.lower j) in
      (
        with_trees (set s1.trees j x) s1,
        unreserve-eq j t.free t.huge kind s1.trees inside1 r0 f h,
        set_tree-Balanced (at j t.free) (at j t.huge) (at j 1) nothing nothing nothing s1
            taken-Balanced j x inside1 (omega (arith, at_self j t.free))
            (omega (arith, at_self j t.huge)) (omega (arith, at_self j 1, ap count_if r0))
            (λ k ne. (sym (at_ne j t.free k ne), sym (at_ne j t.huge k ne), sym (at_ne j 1 k ne))),
        refl,
        refl,
        omega (arith, length-set s1.trees j x, length-set s.trees j reserved_tree),
        λ split. kept x inside1 refl split (ℕ_discrete j split.0),
        refl,
      )
    where
      kept :
          (x : Tree)
          → j < length s1.trees
          → x.reserved ≡ false
          → (split : IsSplit (set s1.trees j x)) → Dec (j ≡ split.0)
          → IsSplit s.trees
      kept x lt open_tree (u, r, p) (yes e) =
          let one_is_zero : true ≡ false =
            sym (subst (λ (k : ℕ). (tree_at (set s1.trees j x) k).reserved ≡ true) (sym e) r)
            ∙ ap (λ (y : Tree). y.reserved) (get_or-set_self no_tree s1.trees j x lt)
            ∙ open_tree in
          absurd (omega (arith, ap count_if one_is_zero))
      kept x lt open_tree (u, r, p) (no ne) =
          let same : tree_at (set s1.trees j x) u ≡ tree_at s.trees u =
            get_or-set_ne no_tree s1.trees j u x ne
            ∙ get_or-set_ne no_tree s.trees j u reserved_tree ne in
          (
            u,
            sym (ap (λ (y : Tree). y.reserved) same) ∙ r,
            omega (arith, p, ap (λ (y : Tree). y.huge) same),
          )

-- The search of the rounds that are left, for at least as many frames as the block has.
rounds-Search :
    (n i start : ℕ) (flags : Flags) (low high : ℕ) (s : LlFree)
    → flags.order ≤ 10
    → 2 ^ flags.order ≤ low
    → 0 < length s.trees
    → Holding none s
    → Search flags.order s (
        Trees.reserve_rounds
          (λ (r : LlFree). r.trees)
          with_trees
          lower_get
          n
          i
          start
          flags
          low
          high
          s)
unfolding Trees.reserve_rounds
rounds-Search zero i start flags low high s le large pos b =
    inr (inl (s, refl, b, refl, refl, refl, λ x. x))
rounds-Search (suc n) i start flags low high s le large pos b =
    let j = Trees.probe (length s.trees) start i in
    let inside : j < length s.trees = probe-lt (length s.trees) start i pos in
    let kind = kind_of flags in
    let take = reserve low high (2 ^ flags.order / 512) kind in
    let read = index-get_or no_tree s.trees j inside in
    elim (reserve-cases low high (2 ^ flags.order / 512) kind (tree_at s.trees j)) [
      | inr e ↦
          subst (Search flags.order s)
            (sym (bind-returns _ read ∙ rw (fetch_update-none take (tree_at s.trees j) e) refl))
            (rounds-Search n (i + 1) start flags low high s le large pos b)
      | inl (e, free_tree, more) ↦
          let z = reserved_tree s b j inside kind free_tree in
          let x = tree s b j inside kind free_tree in
          let m = s1 s b j inside kind free_tree in
          let reserved_now = fetch_update-some take (tree_at s.trees j) z e in
          elim (lower_get-held x flags m le (omega (arith, more, large))
            (taken-Holding s b j inside kind free_tree)) [
              | inl (new, s', r, b', h, same) ↦ inl (
                new,
                s',
                bind-returns _ read ∙ rw reserved_now (rw reserved_now (bind-returns _ r)),
                b',
                record { aligned = h.aligned; within = h.within; changes = h.changes },
                same,
              )
              | inr (inl r) ↦
                  let (s2, u, b2, l, ls, len, split, eta) = back s b j inside kind free_tree in
                  subst (Search flags.order s)
                    (sym (
                      bind-returns _ read
                      ∙ rw reserved_now (
                          rw reserved_now (
                            bind-returns _ r
                            ∙ bind-returns _ u
                            ∙ ap
                                (λ (q : LlFree).
                                  Trees.reserve_rounds (λ (r : LlFree). r.trees) with_trees
                                    lower_get n (i + 1) start flags low high q)
                                eta))))
                    (Search-from flags.order s s2 _ l ls len split (
                      rounds-Search n (i + 1) start flags low high s2 le large
                        (omega (arith, pos, len)) b2))
              -- The array has none of its huge frames.
              | inr (inr (_, p)) ↦
                  let place : j * 4096 / 4096 ≡ j = omega arith in
                  absurd (
                    omega (
                      arith,
                      p,
                      ap (λ (k : ℕ). (tree_at m.trees k).huge) place,
                      ap (λ (y : Tree). y.huge) (here s b j inside kind free_tree),
                    ))
            ]
    ]

-- The next search where the first finds no memory.
or_next-Search :
    (order : ℕ) (s : LlFree) (next : LlFree → Run (Res LocalTree × LlFree))
    (r : Run (Res LocalTree × LlFree))
    → Search order s r
    → ((t : LlFree) → Holding none t → length t.trees ≡ length s.trees → Search order t (next t))
    → Search order s (Trees.or_next (λ (r : LlFree). r.trees) with_trees lower_get next r)
or_next-Search order s next r (inl (new, s', e, b, h, same)) later =
    inl (new, s', bind-returns _ e, b, h, same)
or_next-Search order s next r (inr (inl (s', e, b, l, ls, len, p))) later =
    subst (Search order s) (sym (bind-returns _ e))
      (Search-from order s s' (next s') l ls len p (later s' b len))
or_next-Search order s next r (inr (inr (e, p))) later = inr (inr (bind-panics _ e, p))

-- All four passes over the array.
pub reserve_tree-Search :
    (cores start : ℕ) (flags : Flags) (s : LlFree)
    → flags.order ≤ 10
    → 0 < length s.trees
    → Holding none s
    → Search flags.order s
        (Trees.reserve_tree (λ (r : LlFree). r.trees) with_trees lower_get cores start flags s)
unfolding Trees.reserve_tree Trees.reserve_matching
reserve_tree-Search cores start flags s le pos b =
    let n = length s.trees in
    let first = start / 16 * 16 in
    let near = min (max (n / cores / 4) 4) 32 in
    let pass =
      λ (offset len low high : ℕ) (t : LlFree) (b : Holding none t) (e : length t.trees ≡ n).
        rounds-Search (len - offset) offset first flags (max (2 ^ flags.order) low) high t le
          (omega arith) (omega (arith, pos, e)) b in
    or_next-Search flags.order s _ _ (pass 1 near (4096 / 16) (4096 / 2) s b refl) (λ s1 b1 e1.
      or_next-Search flags.order s1 _ _ (pass 1 (2 * near) (4096 / 64) (4096 - 4096 / 16) s1 b1 e1)
        (λ s2 b2 e2.
          or_next-Search flags.order s2 _ _ (pass 1 n 0 (4096 - 1) s2 b2 (e2 ∙ e1))
            (λ s3 b3 e3. pass 0 n 0 4096 s3 b3 (e3 ∙ e2 ∙ e1))))
