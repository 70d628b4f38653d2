-- ===== src/Trees/Totals.antt =====
-- The counters of core/src/trees.rs in total: what leaves or enters the array is what the caller
-- takes or gives.
use llfree_rs.Base.{
  ℕ, zero, suc, ◌+◌, ◌≤◌, ◌<◌, ◌≡◌, refl, ap, ◌∙◌, ◌⊎◌, inl, inr, Bool, true, false, ◌&&◌, none,
  some, List, [], ◌∷◌, length, get_or-set_self, set, index-get_or, leb, le→leb, returns,
  bind-returns, arith,
}
use llfree_rs.Local.{Kind}
use llfree_rs.Trees.Cases.{
  tree_at, no_tree, emptied, Replaces, set-Replaces, sync-cases, inc_or_reserve-cases,
}
use llfree_rs.Trees.Entry.{Tree, with_counters, unreserve_add}
use llfree_rs.Trees.{free_frames, free_huge, sync, unreserve, inc_or_reserve, min_free}

free_frames-set :
    (ts : List Tree) (i : ℕ) (t : Tree)
    → i < length ts
    → free_frames (set ts i t) + (tree_at ts i).free ≡ free_frames ts + t.free
unfolding free_frames
free_frames-set [] i t lt = absurd (omega arith)
free_frames-set (x ∷ ts) zero t lt = omega arith
free_frames-set (x ∷ ts) (suc i) t lt = omega (arith, free_frames-set ts i t (omega arith))

free_huge-set :
    (ts : List Tree) (i : ℕ) (t : Tree)
    → i < length ts
    → free_huge (set ts i t) + (tree_at ts i).huge ≡ free_huge ts + t.huge
unfolding free_huge
free_huge-set [] i t lt = absurd (omega arith)
free_huge-set (x ∷ ts) zero t lt = omega arith
free_huge-set (x ∷ ts) (suc i) t lt = omega (arith, free_huge-set ts i t (omega arith))

-- The array `ts'` with the frames `f` and the huge frames `h` has as many as `ts`.
abbrev pub Conserves : List Tree → ℕ → ℕ → List Tree → ℕ → ℕ → Type 0
Conserves ts f h ts' f' h' =
    (free_frames ts' + f' ≡ free_frames ts + f) × (free_huge ts' + h' ≡ free_huge ts + h)

set-Conserves :
    (ts : List Tree) (i f h f' h' : ℕ) (t : Tree)
    → i < length ts
    → t.free + f' ≡ (tree_at ts i).free + f
    → t.huge + h' ≡ (tree_at ts i).huge + h
    → Conserves ts f h (set ts i t) f' h'
set-Conserves ts i f h f' h' t lt p q =
    (omega (arith, free_frames-set ts i t lt, p), omega (arith, free_huge-set ts i t lt, q))

-- `sync` of a tree in range, if the tree is reserved and has more than `min` free frames and at least
-- `min_huge` huge frames, returns its entry and sets the two counters in it to zero, with all other
-- entries as before, so that no frame is lost or made. Otherwise it returns nothing and changes
-- nothing.
pub sync-Conserves :
    (i min min_huge : ℕ) (ts : List Tree)
    → i < length ts
    → ((ts' : List Tree) × (sync i min min_huge ts ≡ returns (some (tree_at ts i), ts'))
        × (((tree_at ts i).reserved ≡ true)
            × (min < (tree_at ts i).free)
            × (min_huge ≤ (tree_at ts i).huge))
        × Replaces i (emptied (tree_at ts i)) ts ts'
        × Conserves ts 0 0 ts' (tree_at ts i).free (tree_at ts i).huge)
      ⊎ ((sync i min min_huge ts ≡ returns (none, ts))
          × (((tree_at ts i).reserved ≡ false)
              ⊎ (((tree_at ts i).free ≤ min) ⊎ ((tree_at ts i).huge < min_huge))))
sync-Conserves i min min_huge ts lt =
    let t = tree_at ts i in
    elim (sync-cases i min min_huge ts lt) [
      | inr refused ↦ inr refused
      | inl (e, enough) ↦ inl (
        set ts i (emptied t),
        e,
        enough,
        set-Replaces i (emptied t) ts lt,
        set-Conserves ts i 0 0 t.free t.huge (emptied t) lt (omega arith) (omega arith),
      )
    ]

within : (a b : ℕ) → a ≤ 4096 → b ≤ 8 → (leb a 4096 && leb b 8) ≡ true
within a b p q = rw (le→leb a 4096 p, le→leb b 8 q) refl

-- `unreserve` of a reserved tree in range, where the sums do not exceed the size of a tree, gives
-- the caller's free frames and huge frames to the array and ends the reservation.
pub unreserve-Conserves :
    (i free huge : ℕ) (kind : Kind) (ts : List Tree)
    → i < length ts
    → (tree_at ts i).reserved ≡ true
    → (tree_at ts i).free + free ≤ 4096
    → (tree_at ts i).huge + huge ≤ 8
    → (ts' : List Tree) × (unreserve i free huge kind ts ≡ returns ts')
      × Conserves ts free huge ts' 0 0
      × ((tree_at ts' i).reserved ≡ false)
unfolding unreserve unreserve_add with_counters
unreserve-Conserves i free huge kind ts lt reserved f h =
    let t = tree_at ts i in
    let read = index-get_or no_tree ts i lt in
    let t' : Tree = record {
      free = t.free + free;
      huge = t.huge + huge;
      reserved = false;
      kind = kind;
    } in
    (
      set ts i t',
      bind-returns _ read ∙ rw (reserved, within (t.free + free) (t.huge + huge) f h) refl,
      set-Conserves ts i free huge 0 0 t' lt (omega arith) (omega arith),
      ap (λ (x : Tree). x.reserved) (get_or-set_self no_tree ts i t' lt),
    )

-- `inc_or_reserve` of a tree in range, where the sums do not exceed the size of a tree, adds the freed
-- frames and huge frames to its entry, or takes the tree in full: it returns the entry as it was, so that
-- the caller has its frames and the freed ones, while the entry counts none and is reserved. It
-- does the second exactly if it may reserve, the tree is not reserved and has more than 256 frames
-- with the freed ones. All other entries stay, and no frame is lost or made.
pub inc_or_reserve-Conserves :
    (i free huge : ℕ) (may_reserve : Bool) (ts : List Tree)
    → i < length ts
    → (tree_at ts i).free + free ≤ 4096
    → (tree_at ts i).huge + huge ≤ 8
    → ((ts' : List Tree) × (inc_or_reserve i free huge may_reserve ts ≡ returns (none, ts'))
        × ((may_reserve ≡ false)
            ⊎ (((tree_at ts i).reserved ≡ true) ⊎ ((tree_at ts i).free + free ≤ min_free)))
        × Replaces i
            (record (tree_at ts i) {
              free = (tree_at ts i).free + free;
              huge = (tree_at ts i).huge + huge;
            })
            ts
            ts'
        × Conserves ts free huge ts' 0 0)
      ⊎ ((ts' : List Tree) × (inc_or_reserve i free huge may_reserve ts
            ≡ returns (some (tree_at ts i), ts'))
          × ((may_reserve ≡ true)
              × ((tree_at ts i).reserved ≡ false)
              × (min_free < (tree_at ts i).free + free))
          × Replaces i (record (tree_at ts i) { free = 0; huge = 0; reserved = true }) ts ts'
          × Conserves ts free huge ts' ((tree_at ts i).free + free) ((tree_at ts i).huge + huge))
inc_or_reserve-Conserves i free huge may_reserve ts lt f h =
    let t = tree_at ts i in
    let v : Tree = record t { free = t.free + free; huge = t.huge + huge } in
    let taken : Tree = record t { free = 0; huge = 0; reserved = true } in
    elim (inc_or_reserve-cases i free huge may_reserve ts lt f h) [
      | inl (e, why) ↦ inl (
        set ts i v,
        e,
        why,
        set-Replaces i v ts lt,
        set-Conserves ts i free huge 0 0 v lt (omega arith) (omega arith),
      )
      | inr (e, why) ↦ inr (
        set ts i taken,
        e,
        why,
        set-Replaces i taken ts lt,
        set-Conserves ts i free huge (t.free + free) (t.huge + huge) taken lt (omega arith)
            (omega arith),
      )
    ]
