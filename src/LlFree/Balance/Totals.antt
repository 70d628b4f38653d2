-- ===== src/LlFree/Balance/Totals.antt =====
-- `free_frames` of core/src/llfree.rs while no lock is held elsewhere.
use llfree_rs.Base.{
  ℕ, zero, suc, ◌+◌, ◌-◌, ◌*◌, ◌/◌, ◌≤◌, ◌<◌, ◌≡◌, refl, ap, ◌∙◌, Bool, false, Option, none, some,
  List, [], ◌∷◌, length, arith,
}
use llfree_rs.Word.Bit.{sum_below}
use llfree_rs.Word.Sums.{sum_below-ext, sum_below-add, sum_below-const, sum_below-block}
use llfree_rs.Lower.{Lower}
use llfree_rs.Lower
use llfree_rs.Lower.Entry
use llfree_rs.Lower.Entry.{new}
use llfree_rs.Lower.Counts.{huge-false}
use llfree_rs.Lower.Frames.{IsValid, entry_at}
use llfree_rs.Lower.Query.Totals.{tables_free-sum, sum_below-mul}
use llfree_rs.Lower.Query.Trees.{tree_free}
use llfree_rs.Trees
use llfree_rs.Trees.Entry.{Tree}
use llfree_rs.Trees.Cases.{tree_at}
use llfree_rs.Local.{LocalTree, Local}
use llfree_rs.LlFree.{LlFree}
use llfree_rs.LlFree.Query.{free_frames, locals_sum, local_free, frees_of}
use llfree_rs.LlFree.Balance.{
  Holding, at, at_self, at_ne, in_slot, in_local, in_locals, frees, one, owned-reserved, nothing,
}

-- No core holds a lock.
abbrev pub idle : ℕ → Bool
idle c = false

trees_free-sum :
    (ts : List Tree) → Trees.free_frames ts ≡ sum_below (length ts) (λ t. (tree_at ts t).free)
unfolding Trees.free_frames sum_below
trees_free-sum [] = refl
trees_free-sum (x ∷ ts) = ap (λ (n : ℕ). x.free + n) (trees_free-sum ts)

sum_below-at : (n i m : ℕ) → i < n → sum_below n (at i m) ≡ m
sum_below-at n i m lt =
    let parts : n ≡ i + (1 + (n - i - 1)) = omega arith in
    omega (
      arith,
      ap (λ (k : ℕ). sum_below k (at i m)) parts,
      ap (λ (k : ℕ). sum_below k nothing) parts,
      sum_below-const n 0 nothing (λ j lt. refl),
      sum_below-block i 1 (n - i - 1) 0 m nothing (at i m) (λ j lt. refl)
          (λ j lt. let here : i + j ≡ i = omega arith in ap (at i m) here ∙ at_self i m)
          (λ j side. at_ne i m j (λ e. omega (arith, e, side))),
    )

sum_below-plus :
    (n : ℕ) (f g : ℕ → ℕ) → sum_below n (λ t. f t + g t) ≡ sum_below n f + sum_below n g
unfolding sum_below
sum_below-plus zero f g = refl
sum_below-plus (suc n) f g = omega (arith, sum_below-plus n (λ j. f (suc j)) (λ j. g (suc j)))

-- A preferred tree in the array has all its frames there.
slot-sum :
    (n : ℕ) (x : Option LocalTree)
    → ((t : ℕ) → 1 ≤ in_slot one x t → t < n)
    → sum_below n (in_slot frees x) ≡ frees_of x
slot-sum n none inside = sum_below-const n 0 (in_slot frees none) (λ j lt. refl) ∙ omega arith
slot-sum n (some x) inside =
    sum_below-at n (x.frame / 4096) x.free
      (inside (x.frame / 4096) (omega (arith, at_self (x.frame / 4096) 1)))

locals-sum :
    (n c : ℕ) (ls : List Local)
    → ((t : ℕ) → 1 ≤ in_locals one ls t → t < n)
    → sum_below n (in_locals frees ls) ≡ locals_sum idle local_free c ls
unfolding in_locals locals_sum
locals-sum n c [] inside = sum_below-const n 0 (in_locals frees []) (λ j lt. refl) ∙ omega arith
locals-sum n c (l ∷ ls) inside =
    let a = in_slot frees l.huge_tree in
    let b = in_slot frees l.movable_tree in
    let d = in_slot frees l.fixed_tree in
    omega (
      arith,
      sum_below-plus n (in_local frees l) (in_locals frees ls),
      sum_below-plus n (λ t. a t + b t) d,
      sum_below-plus n a b,
      slot-sum n l.huge_tree (λ t pos. inside t (omega arith)),
      slot-sum n l.movable_tree (λ t pos. inside t (omega arith)),
      slot-sum n l.fixed_tree (λ t pos. inside t (omega arith)),
      locals-sum n (suc c) ls (λ t pos. inside t (omega arith)),
    )

-- Any number of trees that covers the bitfields has all free frames of the lower allocator.
entries-sum :
    (l : Lower) (n : ℕ)
    → IsValid l
    → length l.bitfields ≤ n * 8
    → sum_below (n * 8) (λ h. Entry.free (entry_at l h))
      ≡ sum_below (length l.bitfields) (λ h. Entry.free (entry_at l h))
entries-sum l n v covered =
    let f : ℕ → ℕ = λ h. Entry.free (entry_at l h) in
    let m = length l.bitfields in
    let r = n * 8 - m in
    let parts : n * 8 ≡ m + r = omega arith in
    omega (
      arith,
      ap (λ (k : ℕ). sum_below k f) parts,
      sum_below-add m r f,
      sum_below-const r 0 (λ h. f (m + h))
          (λ h lt.
            rw (huge-false (entry_at l (m + h)) (omega (arith, v.beyond (m + h) (omega arith))))
              (v.beyond (m + h) (omega arith))),
    )

-- With the books in order and no lock held elsewhere, `free_frames`, which adds up the tree array and
-- the preferred trees of the cores, is that of the lower allocator.
pub free_frames-lower :
    (s : LlFree) → Holding none s → free_frames idle s ≡ Lower.Query.free_frames s.lower
unfolding free_frames
free_frames-lower s b =
    let n = length s.trees in
    let l = s.lower in
    let f : ℕ → ℕ = λ h. Entry.free (entry_at l h) in
    omega (
      arith,
      trees_free-sum s.trees,
      locals-sum n 0 s.locals inside,
      sum_below-plus n (λ t. (tree_at s.trees t).free) (in_locals frees s.locals),
      sum_below-ext n (λ t. (tree_at s.trees t).free + in_locals frees s.locals t) (tree_free l)
          (λ t lt. omega (arith, b.free_balance t)),
      sum_below-mul n 8 f,
      entries-sum l n b.valid b.covered,
      entries-sum l (length l.children) b.valid b.valid.covered,
      tables_free-sum l.children b.valid.tables,
    )
  where
    inside : (t : ℕ) → 1 ≤ in_locals one s.locals t → t < length s.trees
    inside t pos = (owned-reserved nothing nothing nothing s t b (omega (arith, pos))).1
