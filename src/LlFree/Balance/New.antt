-- ===== src/LlFree/Balance/New.antt =====
-- `new` of core/src/llfree.rs, with `Trees::new` of core/src/trees.rs.
use mathlib.Core.Path.{ap₂}
use native.Mathlib.Decide.{dec_lt}
use mathlib.Core.Logic.{◌≢◌}
use llfree_rs.Base.{
  ℕ, zero, suc, ◌+◌, ◌*◌, ◌/◌, ◌%◌, ◌≤◌, ◌<◌, ◌≡◌, refl, ap, sym, ◌∙◌, Bool, true, false, ◌&&◌,
  none, List, [], ◌∷◌, length, get_or-beyond, index-get_or, replicate, leb, leb→le, le→leb, not,
  length-replicate, lt→ltb, ltb, ◌==◌, ==_iff, if◌then◌else◌, min, Run, returns, bind-returns, ok,
  arith,
}
use llfree_rs.Types.{Init, free_all, alloc_all, recover}
use llfree_rs.Util.{div_ceil, size_of_slice, count_if}
use llfree_rs.Word.Sums.{sum_below-const}
use llfree_rs.Lower.{Lower}
use llfree_rs.Lower
use llfree_rs.Lower.Entry
use llfree_rs.Lower.Counts.{huge-false}
use llfree_rs.Lower.Frames.{IsValid, entry_at}
use llfree_rs.Lower.Query.{free_in_tree}
use llfree_rs.Lower.Query.Trees.{tree_free, tree_huge, whole_at, table_free-tree, table_huge-tree}
use llfree_rs.Lower.Setup.Free.{IsCut}
use llfree_rs.Lower.Setup.Start.{view, new-Started}
use llfree_rs.Trees
use llfree_rs.Trees.Entry.{Tree, with_counters}
use llfree_rs.Trees.Cases.{tree_at, no_tree}
use llfree_rs.Local.{LocalTree, fixed, empty}
use llfree_rs.LlFree.{LlFree}
use llfree_rs.LlFree.Setup.{MetaSize, MetaData, overlap, lower_buffer, valid, metadata_size, new}
use llfree_rs.LlFree.Balance.{Holding, in_locals, tree_free-le, tree_huge-le, frees, huges, one}

-- The entry of a tree that nobody has.
abbrev entry_of : Lower → ℕ → Tree
entry_of l t = record { free = tree_free l t; huge = tree_huge l t; reserved = false; kind = fixed }

module _ (l : Lower) (v : IsValid l) where
  free_in_tree-eq :
      (t : ℕ)
      → t < length l.children
      → t * 4096 < l.len
      → free_in_tree (t * 4096) l ≡ returns (tree_free l t, tree_huge l t)
  unfolding free_in_tree
  free_in_tree-eq t lt inside =
      let place : t * 4096 / 4096 ≡ t = omega arith in
      rw (lt→ltb _ _ inside, place)
        (bind-returns _ (index-get_or [] l.children t lt)
          ∙ ap₂ both (table_free-tree l t (v.tables t lt)) (table_huge-tree l t (v.tables t lt)))
    where
      both : ℕ → ℕ → Run (ℕ × ℕ)
      both x y = returns (x, y)

  new_entries-eq :
      (n i : ℕ)
      → i + n ≤ length l.children
      → ((k : ℕ) → k < n → (i + k) * 4096 < l.len)
      → (ts : List Tree) × (Trees.new_entries n i (λ start. free_in_tree start l) ≡ returns ts)
        × (length ts ≡ n)
        × ((k : ℕ) → k < n → tree_at ts k ≡ entry_of l (i + k))
  unfolding Trees.new_entries with_counters
  new_entries-eq zero i fits inside = ([], refl, refl, λ k lt. absurd (omega arith))
  new_entries-eq (suc n) i fits inside =
      let (ts, r, size, all) =
        new_entries-eq n (i + 1) (omega arith)
          (λ k lt. omega (arith, inside (suc k) (omega arith))) in
      (
        entry_of l i ∷ ts,
        bind-returns _ (free_in_tree-eq i (omega arith) (omega (arith, inside 0 (omega arith))))
            ∙ rw (le→leb _ _ (tree_free-le l v i), le→leb _ _ (tree_huge-le l i))
                (bind-returns _ r),
        omega (arith, size),
        λ k lt. entries ts all k lt,
      )
    where
      entries :
          (ts : List Tree)
          → ((k : ℕ) → k < n → tree_at ts k ≡ entry_of l (i + 1 + k))
          → (k : ℕ) → k < suc n
          → tree_at (entry_of l i ∷ ts) k ≡ entry_of l (i + k)
      entries ts all zero lt = ap (entry_of l) (omega arith)
      entries ts all (suc k) lt = all k (omega arith) ∙ ap (entry_of l) (omega arith)

  -- Trees behind the bitfields have nothing.
  pub none_beyond : (t : ℕ) → length l.bitfields ≤ t * 8 → (tree_free l t ≡ 0) × (tree_huge l t ≡ 0)
  none_beyond t ge = (
    sum_below-const 8 0 (λ i. Entry.free (entry_at l (t * 8 + i)))
        (λ i lt. no_free (t * 8 + i) (omega arith)),
    sum_below-const 8 0 (λ i. whole_at l (t * 8 + i))
        (λ i lt. ap (λ (x : ℕ). count_if (x == 512)) (no_free (t * 8 + i) (omega arith))),
  )
    where
      no_free : (h : ℕ) → length l.bitfields ≤ h → Entry.free (entry_at l h) ≡ 0
      no_free h le = rw (huge-false (entry_at l h) (omega (arith, v.beyond h le))) (v.beyond h le)

in_locals-empty : (m : LocalTree → ℕ) (n t : ℕ) → in_locals m (replicate n empty) t ≡ 0
unfolding in_locals
in_locals-empty m zero t = refl
in_locals-empty m (suc n) t = omega (arith, in_locals-empty m n t)

-- The books of a new allocator.
fresh-Holding :
    (l : Lower) (cores : ℕ) (ts : List Tree)
    → IsValid l
    → l.len ≤ length l.bitfields * 512
    → length l.bitfields ≤ length ts * 8
    → ((k : ℕ) → k < length ts → tree_at ts k ≡ entry_of l k)
    → Holding none (record { locals = replicate cores empty; lower = l; trees = ts })
fresh-Holding l cores ts v range covered all = record {
  valid = v;
  range = range;
  covered = covered;
  free_balance = λ t. omega (arith, frames t (dec_lt t (length ts)), in_locals-empty frees cores t);
  huge_balance = λ t. omega (arith, whole t (dec_lt t (length ts)), in_locals-empty huges cores t);
  owners = λ t. omega (arith, free t (dec_lt t (length ts)), in_locals-empty one cores t);
}
  where
    behind : (t : ℕ) → length ts ≤ t → tree_at ts t ≡ no_tree
    behind t ge = get_or-beyond ts t no_tree ge

    frames : (t : ℕ) → Dec (t < length ts) → (tree_at ts t).free ≡ tree_free l t
    frames t (yes lt) = ap (λ (x : Tree). x.free) (all t lt)
    frames t (no ge) =
        ap (λ (x : Tree). x.free) (behind t (omega arith)) ∙ sym (none_beyond l v t (omega arith)).0

    whole : (t : ℕ) → Dec (t < length ts) → (tree_at ts t).huge ≡ tree_huge l t
    whole t (yes lt) = ap (λ (x : Tree). x.huge) (all t lt)
    whole t (no ge) =
        ap (λ (x : Tree). x.huge) (behind t (omega arith)) ∙ sym (none_beyond l v t (omega arith)).1

    free : (t : ℕ) → Dec (t < length ts) → count_if (tree_at ts t).reserved ≡ 0
    free t (yes lt) = ap (λ (x : Tree). count_if x.reserved) (all t lt)
    free t (no ge) = ap (λ (x : Tree). count_if x.reserved) (behind t (omega arith))

-- `Trees::new` over a valid lower allocator.
trees-new :
    (l : Lower)
    → IsValid l
    → 0 < l.len
    → div_ceil l.len 512 ≤ length l.bitfields
    → (ts : List Tree) × (Trees.new l.len (λ start. free_in_tree start l) ≡ returns ts)
      × (length ts ≡ div_ceil l.len 4096)
      × ((k : ℕ) → k < length ts → tree_at ts k ≡ entry_of l k)
unfolding Trees.new
trees-new l v pos enough =
    let (ts, r, size, all) =
      new_entries-eq l v (div_ceil l.len 4096) 0 (omega (arith, enough, v.covered))
        (λ k lt. omega arith) in
    (ts, r, size, λ k lt. all k (omega (arith, size)) ∙ ap (entry_of l) (omega arith))

-- A conjunction of two tests.
pub both : (a b : Bool) → (a && b) ≡ true → (a ≡ true) × (b ≡ true)
both false b e = absurd (omega (arith, ap count_if e))
both true b e = (refl, e)

-- The third and the sixth of nine tests.
third_and_sixth :
    (a b c d e f g h i : Bool)
    → (a && b && c && d && e && f && g && h && i) ≡ true
    → (c ≡ true) × (f ≡ true)
third_and_sixth a b c d e f g h i p =
    let q : (a && b && c && d && e && f && g && h) ≡ true = (both _ i p).0 in
    let r : (a && b && c && d && e && f && g) ≡ true = (both _ h q).0 in
    let s : (a && b && c && d && e && f) ≡ true = (both _ g r).0 in
    let t : (a && b && c && d && e) ≡ true = (both _ f s).0 in
    let u : (a && b && c && d) ≡ true = (both _ e t).0 in
    let v : (a && b && c) ≡ true = (both _ d u).0 in ((both _ c v).1, (both _ f s).1)

-- What the check of the buffers says of that of the lower allocator.
valid-lower :
    (m : MetaSize) (d : MetaData)
    → valid m d ≡ true
    → (m.lower ≤ d.lower.bytes) × (d.lower.address % 64 ≡ 0)
unfolding valid
valid-lower m d e =
    let (c, f) =
      third_and_sixth (leb m.local d.local.bytes) (leb m.trees d.trees.bytes)
        (leb m.lower d.lower.bytes) (d.local.start % 64 == 0) (d.trees.start % 64 == 0)
        (d.lower.address % 64 == 0) (not (overlap d.local d.trees))
        (not (overlap d.trees (lower_buffer d))) (not (overlap (lower_buffer d) d.local)) e in
    (leb→le m.lower d.lower.bytes c, (==_iff (d.lower.address % 64) 0).0 f)

-- The sizes that `metadata_size` gives, for at least one frame.
abbrev pub needed : ℕ → ℕ → ℕ → MetaSize
needed local_size cores frames = record {
  local = size_of_slice local_size 64 (if cores == 0 then 1 else min cores (div_ceil frames 4096));
  trees = Trees.metadata_size frames;
  lower = Lower.Setup.metadata_size frames;
}

module _ (frames : ℕ) (meta : MetaData) (cut : IsCut (view frames meta.lower)) where
  -- The lower allocator starts in a valid state.
  lower-new :
      (init : Init)
      → init ≢ recover false
      → (init ≡ recover true → length meta.lower.bitfields ≡ length meta.lower.children * 8)
      → Lower.Setup.metadata_size frames ≤ meta.lower.bytes
      → meta.lower.address % 64 ≡ 0
      → (l : Lower) × (Lower.Setup.new frames init meta.lower ≡ returns (ok l))
        × IsValid l
        × (l.len ≡ frames)
        × (length l.bitfields ≡ div_ceil frames 512)
  lower-new free_all dirty covered enough aligned =
      let (l, r, f) = new-Started frames free_all meta.lower cut enough aligned covered in
      (l, r, f.valid, f.same_range, f.same_length ∙ cut.bitfields)
  lower-new alloc_all dirty covered enough aligned =
      let (l, r, f) = new-Started frames alloc_all meta.lower cut enough aligned covered in
      (l, r, f.valid, f.same_range, f.same_length ∙ cut.bitfields)
  lower-new (recover true) dirty covered enough aligned =
      let (l, r, f) = new-Started frames (recover true) meta.lower cut enough aligned covered in
      (l, r, f.valid, f.same_range, f.same_length ∙ cut.bitfields)
  lower-new (recover false) dirty covered enough aligned = absurd (dirty refl)

-- Over buffers that pass the checks, `new` gives, for at least one frame and unless it takes over the
-- state of a clean shutdown, an allocator with its books in order, over the lower allocator that
-- `Lower::new` makes; recovery needs a bitfield for each entry. For at least one core, there is core-local data.
pub new-Holding :
    (local_size cores frames : ℕ) (init : Init) (meta : MetaData)
    → IsCut (view frames meta.lower)
    → valid (needed local_size cores frames) meta ≡ true
    → init ≢ recover false
    → (init ≡ recover true → length meta.lower.bitfields ≡ length meta.lower.children * 8)
    → (s : LlFree) × (new local_size cores frames init meta ≡ returns (ok s))
      × Holding none s
      × (Lower.Setup.new frames init meta.lower ≡ returns (ok s.lower))
      × (s.lower.len ≡ frames)
      × (0 < cores → 0 < length s.locals)
unfolding new metadata_size
new-Holding local_size cores frames init meta cut checked dirty covered =
    let (enough, aligned) = valid-lower (needed local_size cores frames) meta checked in
    let (l, r, v, range, size) = lower-new frames meta cut init dirty covered enough aligned in
    let (ts, q, count, all) =
      trees-new l v (omega (arith, range, cut.some_frame)) (omega (arith, size, range)) in
    let some_tree : 1 ≤ div_ceil frames 4096 = omega (arith, cut.some_frame) in
    let n = if ltb frames (4096 * cores) then div_ceil frames 4096 else cores in
    let trees : Trees.new frames (λ start. free_in_tree start l) ≡ returns ts =
      ap (λ (x : ℕ). Trees.new x (λ start. free_in_tree start l)) (sym range) ∙ q in
    (
      record { locals = replicate n empty; lower = l; trees = ts },
      rw (le→leb 1 _ some_tree, checked) (bind-returns _ r ∙ bind-returns _ trees),
      fresh-Holding l n ts v (omega (arith, range, size)) (omega (arith, size, count, range)) all,
      r,
      range,
      λ pos.
          omega
            (arith, length-replicate n empty, some_core some_tree pos (ltb frames (4096 * cores))),
    )
  where
    some_core :
        (a : 1 ≤ div_ceil frames 4096)
        → 0 < cores
        → (b : Bool) → 0 < (if b then div_ceil frames 4096 else cores)
    some_core a pos true = a
    some_core a pos false = pos
