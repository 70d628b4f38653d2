-- ===== src/Lower/Query/Blocks.antt =====
-- The counters of a tree of core/src/lower.rs before and after a free of a block in it.
use native.Mathlib.Nat.{one-le-pow, mul-le-mul_right}
use native.Mathlib.Decide.{ℕ_discrete}
use llfree_rs.Base.{
  ℕ, ◌+◌, ◌-◌, ◌*◌, ◌/◌, ◌%◌, ◌^◌, ◌≤◌, ◌<◌, ◌≡◌, refl, ap, sym, ◌∙◌, ◌⊎◌, inl, inr, Bool, true,
  false, length, max, ◌==◌, ==_iff, Bool-cases, arith,
}
use llfree_rs.Util.{count_if}
use llfree_rs.Word.Split.{two-pow-add}
use llfree_rs.Lower.Entry.{free}
use llfree_rs.Lower.Types.{Lower}
use llfree_rs.Lower.Frames.{IsValid, Changes, entry_at, taken}
use llfree_rs.Lower.Blocks.{block_in_huge}
use llfree_rs.Lower.Query.Totals.{free-whole}
use llfree_rs.Lower.Query.Free.{full_free, full_count}
use llfree_rs.Lower.Query.Trees.{tree_free, tree_huge, whole_at, tree_free-here, tree_huge-here}

module _ (l : Lower) (v : IsValid l) (h : ℕ) (inside : h < length l.bitfields) where
  pub not_whole : (x : ℕ) → x < 512 → taken l (h * 512 + x) ≡ 1 → whole_at l h ≡ 0
  not_whole x lt one = elim (Bool-cases (free (entry_at l h) == 512)) [
    | inr part ↦ rw part refl
    | inl all ↦
        let full = (==_iff (free (entry_at l h)) 512).0 all in
        absurd (omega (arith, one, full_free l v h inside (full_count l h full) x lt))
  ]

  pub is_whole : ((j : ℕ) → j < 512 → taken l (h * 512 + j) ≡ 0) → whole_at l h ≡ 1
  is_whole all =
      rw ((==_iff (free (entry_at l h)) 512).1 (free-whole l h (v.fields h inside) all)) refl

-- An aligned block of at most 1024 frames.
module _ (frame order : ℕ) (le : order ≤ 10) (aligned : frame % 2 ^ order ≡ 0) where
  small_block : order ≤ 9 → frame % 512 + 2 ^ order ≤ 512
  small_block small = (block_in_huge order frame small aligned).1

  pair_block : order ≡ 10 → (frame % 1024 ≡ 0) × (2 ^ order ≡ 1024)
  pair_block ten = (ap (λ (o : ℕ). frame % 2 ^ o) (sym ten) ∙ aligned, ap (λ (o : ℕ). 2 ^ o) ten)

  pub block_in_tree : frame + 2 ^ order ≤ (frame / 4096 + 1) * 4096
  block_in_tree = elim (ℕ_discrete order 10) [
    | yes ten ↦ let (al, size) = pair_block ten in omega (arith, al, size)
    | no ne ↦ omega (arith, small_block (omega (arith, ne)))
  ]

  -- The huge frames of the block, and what a change of them counts for.
  abbrev Huges : ℕ → Type 0
  Huges m =
      (0 < m)
      × (frame + 2 ^ order ≤ (frame / 512 + m) * 512)
      × ((frame / 512 + m) * 512 ≤ (frame / 4096 + 1) * 4096)
      × (((m ≡ 1) × (2 ^ order / 512 ≡ 0)) ⊎ ((2 ^ order ≡ m * 512) × (frame % 512 ≡ 0)))

  block-Huges : (m : ℕ) × Huges m
  block-Huges = elim (ℕ_discrete order 10) [
    | yes ten ↦
        let (al, size) = pair_block ten in
        (
          2,
          (
            omega arith,
            omega (arith, al, size),
            omega (arith, al, size),
            inr (omega (arith, size), omega (arith, al)),
          ),
        )
    | no not_ten ↦ elim (ℕ_discrete order 9) [
      | yes nine ↦
          let size : 2 ^ order ≡ 512 = ap (λ (o : ℕ). 2 ^ o) nine in
          let al = small_block (omega (arith, nine)) in
          (
            1,
            (
              omega arith,
              omega (arith, al),
              omega arith,
              inr (omega (arith, size), omega (arith, al, size)),
            ),
          )
      | no not_nine ↦
          let al = small_block (omega (arith, not_ten, not_nine)) in
          let lt = below (omega (arith, not_ten, not_nine)) in
          (1, (omega arith, omega (arith, al), omega arith, inl (refl, omega (arith, lt))))
    ]
  ]
    where
      below : order < 9 → 2 ^ order < 512
      below lt =
          let parts : 8 ≡ 8 - order + order = omega arith in
          omega (
            arith,
            ap (λ (t : ℕ). 2 ^ t) parts,
            two-pow-add (8 - order) order,
            mul-le-mul_right (2 ^ order) (one-le-pow (8 - order) 2 (omega arith)),
          )

  abbrev h : ℕ
  h = frame / 512

  abbrev IsSplit : ℕ → Type 0
  IsSplit m = ((m ≡ 1) × (2 ^ order / 512 ≡ 0)) ⊎ ((2 ^ order ≡ m * 512) × (frame % 512 ≡ 0))

  module _ (l : Lower) (v : IsValid l) (within : frame + 2 ^ order ≤ length l.bitfields * 512) where
    -- The huge frames of an allocated block are not free in whole, and from order 9 on those of a free
    -- block are.
    taken_not_whole :
        ((j : ℕ) → j < 2 ^ order → taken l (frame + j) ≡ 1)
        → (m : ℕ) → IsSplit m
        → (i : ℕ) → i < m
        → whole_at l (h + i) ≡ 0
    taken_not_whole all m (inl (single, _)) i lt =
        let at : (h + i) * 512 + frame % 512 ≡ frame + 0 = omega (arith, single) in
        not_whole l v (h + i) (omega (arith, single, one-le-pow order 2)) (frame % 512)
          (omega arith) (ap (taken l) at ∙ all 0 (one-le-pow order 2 (omega arith)))
    taken_not_whole all m (inr (size, start)) i lt =
        let at : (h + i) * 512 + 0 ≡ frame + i * 512 = omega (arith, start) in
        not_whole l v (h + i) (omega (arith, size, start)) 0 (omega arith)
          (ap (taken l) at ∙ all (i * 512) (omega (arith, size)))

    free_whole :
        ((j : ℕ) → j < 2 ^ order → taken l (frame + j) ≡ 0)
        → (m : ℕ) → 2 ^ order ≡ m * 512
        → frame % 512 ≡ 0
        → (i : ℕ) → i < m
        → whole_at l (h + i) ≡ 1
    free_whole all m size start i lt = is_whole l v (h + i) (omega (arith, size, start)) (λ j j_lt.
        let at : (h + i) * 512 + j ≡ frame + (i * 512 + j) = omega (arith, start) in
        ap (taken l) at ∙ all (i * 512 + j) (omega (arith, size)))

    -- Where the block is free, each of its huge frames counts as `fr` says of the first.
    free_counts :
        (fr : Bool)
        → fr ≡ (free (entry_at l h) == 512)
        → ((j : ℕ) → j < 2 ^ order → taken l (frame + j) ≡ 0)
        → (m : ℕ) → 0 < m
        → IsSplit m
        → (((i : ℕ) → i < m → whole_at l (h + i) ≡ count_if fr)
            × (m * count_if fr ≡ max (count_if fr) (2 ^ order / 512)))
    free_counts fr says all m pos (inl (single, none)) = (
      λ i lt.
          let at : h + i ≡ h = omega (arith, single) in ap (whole_at l) at ∙ ap count_if (sym says),
      omega (arith, none, ap (λ (k : ℕ). k * count_if fr) single),
    )
    free_counts fr says all m pos (inr (size, start)) =
        let first : h + 0 ≡ h = omega arith in
        let yes_whole : count_if fr ≡ 1 =
          ap count_if says ∙ ap (whole_at l) (sym first) ∙ free_whole all m size start 0 pos in
        (
          λ i lt. free_whole all m size start i lt ∙ sym yes_whole,
          omega (arith, yes_whole, size, pos, ap (λ (k : ℕ). m * k) yes_whole),
        )

  module _ (l l' : Lower) (v : IsValid l) (within : frame + 2 ^ order ≤ length l.bitfields * 512)
      (fr : Bool) where
    -- After a free, the counters of the tree have the frames of the block more, and the huge frames
    -- that are free in whole now.
    pub freed-counters :
        Changes frame (2 ^ order) false l l'
        → fr ≡ (free (entry_at l' (frame / 512)) == 512)
        → (tree_free l' (frame / 4096) ≡ tree_free l (frame / 4096) + 2 ^ order)
          × (tree_huge l' (frame / 4096)
              ≡ tree_huge l (frame / 4096) + max (count_if fr) (2 ^ order / 512))
    freed-counters c says =
        let (m, (pos, covers, inside, kind)) = block-Huges in
        let (after, size) =
          free_counts l' c.valid (omega (arith, within, c.same_length)) fr says c.after m pos
            kind in
        (
          omega (arith, tree_free-here frame (2 ^ order) false l l' v c block_in_tree within),
          omega (
            arith,
            size,
            tree_huge-here frame (2 ^ order) false l l' v c block_in_tree m 0 (count_if fr) pos
                covers inside (taken_not_whole l v within c.before m kind) after,
          ),
        )

    -- After an allocation, they have these less.
    pub allocated-counters :
        Changes frame (2 ^ order) true l l'
        → fr ≡ (free (entry_at l (frame / 512)) == 512)
        → (tree_free l (frame / 4096) ≡ tree_free l' (frame / 4096) + 2 ^ order)
          × (tree_huge l (frame / 4096)
              ≡ tree_huge l' (frame / 4096) + max (count_if fr) (2 ^ order / 512))
    allocated-counters c says =
        let (m, (pos, covers, inside, kind)) = block-Huges in
        let (before, size) = free_counts l v within fr says c.before m pos kind in
        (
          omega (arith, tree_free-here frame (2 ^ order) true l l' v c block_in_tree within),
          omega (
            arith,
            size,
            tree_huge-here frame (2 ^ order) true l l' v c block_in_tree m (count_if fr) 0 pos
                covers inside before
                (taken_not_whole l' c.valid (omega (arith, within, c.same_length)) c.after m kind),
          ),
        )
