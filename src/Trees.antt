-- ===== src/Trees.antt =====
-- core/src/trees.rs: the array of tree entries and the search for a tree to reserve.
pub mod Entry
pub mod Cases
pub mod Totals
mod Tests
use llfree_rs.Base.{
  ℕ, zero, suc, ◌+◌, ◌-◌, ◌*◌, ◌/◌, ◌%◌, ◌^◌, min, max, Bool, true, false, ◌&&◌, not, Option, none,
  some, List, [], ◌∷◌, length, set, ltb, ◌==◌, if◌then◌else◌, Run, returns, panics, ◌>>=◌, index,
  unwrap, Result, ok, err,
}
use llfree_rs.Types.{
  tree_frames, huge_frames, Error, memory, retry, address, initialization, Res, Flags,
}
use llfree_rs.Util.{div_ceil, align_up, align_down, size_of_slice}
use llfree_rs.Atomic.{fetch_update}
use llfree_rs.Local.{Kind, fixed, kind_of, LocalTree}
use Entry.{Tree, with_counters, inc, reserve, unreserve_add, sync_steal}

-- `Trees::MIN_FREE`.
abbrev pub min_free : ℕ
min_free = tree_frames / 16

unfoldable pub metadata_size : ℕ → ℕ
metadata_size frames = align_up (size_of_slice 4 4 (div_ceil frames tree_frames)) 64

-- The entries from tree `i` on, with `n` left.
unfoldable pub new_entries : ℕ → ℕ → (ℕ → Run (ℕ × ℕ)) → Run (List Tree)
unfolding with_counters
new_entries zero i free_in_tree = returns []
new_entries (suc n) i free_in_tree = do
  (frames, huge) ← free_in_tree (i * tree_frames)
  t ← with_counters frames huge false fixed
  rest ← new_entries n (i + 1) free_in_tree
  returns (t ∷ rest)

-- `Trees::new`, where the buffer is long enough.
unfoldable pub new : ℕ → (ℕ → Run (ℕ × ℕ)) → Run (List Tree)
unfolding new_entries
new frames free_in_tree = new_entries (div_ceil frames tree_frames) 0 free_in_tree

-- `Trees::free_frames` and `Trees::free_huge`.
unfoldable pub free_frames : List Tree → ℕ
free_frames [] = 0
free_frames (t ∷ ts) = t.free + free_frames ts

unfoldable pub free_huge : List Tree → ℕ
free_huge [] = 0
free_huge (t ∷ ts) = t.huge + free_huge ts

-- `Trees::free`.
unfoldable pub free : List Tree → ℕ
free [] = 0
free (t ∷ ts) = (if t.free == tree_frames then 1 else 0) + free ts

-- The entry before the update is the result.
unfoldable pub sync : ℕ → ℕ → ℕ → List Tree → Run (Option Tree × List Tree)
unfolding sync_steal
sync i min min_huge ts = do
  t ← index ts i
  elim (sync_steal min min_huge t) [
    | none ↦ returns (none, ts)
    | some t' ↦ returns (some t, set ts i t')
  ]

unfoldable pub inc_or_reserve : ℕ → ℕ → ℕ → Bool → List Tree → Run (Option Tree × List Tree)
unfolding inc
inc_or_reserve i free huge may_reserve ts = do
  t ← index ts i
  v ← inc free huge t
  if may_reserve && not v.reserved && ltb min_free v.free
      then returns (some t, set ts i (record v { free = 0; huge = 0; reserved = true }))
      else returns (none, set ts i v)

unfoldable pub unreserve : ℕ → ℕ → ℕ → Kind → List Tree → Run (List Tree)
unfolding unreserve_add
unreserve i free huge kind ts = do
  t ← index ts i
  v ← unreserve_add free huge kind t
  t' ← unwrap v
  returns (set ts i t')

-- The tree that round `i` looks at: `i / 2` after `start`, or `i.div_ceil(2)` before it. The sum
-- of `isize` is cast to `usize`, which wraps below 0.
unfoldable pub probe : ℕ → ℕ → ℕ → ℕ
probe len start i =
    if i % 2 == 0
    then (start + len + i / 2) % len
    else (start + len + 2 ^ 64 - div_ceil i 2) % 2 ^ 64 % len

-- The search works on a state `S` that holds the trees; `get_lower` allocates in it.
module _ {S : Type 0} (trees : S → List Tree) (with_trees : List Tree → S → S)
    (get_lower : LocalTree → Flags → S → Run (Res LocalTree × S)) where
  -- Round `i`, with `n` rounds left, for the inclusive range from `low` to `high`.
  unfoldable pub reserve_rounds : ℕ → ℕ → ℕ → Flags → ℕ → ℕ → S → Run (Res LocalTree × S)
  unfolding reserve unreserve probe
  reserve_rounds zero i start flags low high s = returns (err memory, s)
  reserve_rounds (suc n) i start flags low high s =
      let j = probe (length (trees s)) start i in
      let take = reserve low high (2 ^ flags.order / huge_frames) (kind_of flags) in
      do
        t ← index (trees s) j
        elim (fetch_update take t).0 [
          | err _ ↦ reserve_rounds n (i + 1) start flags low high s
          | ok entry ↦ do
            let tree : LocalTree = record {
              frame = j * tree_frames;
              free = entry.free;
              huge = entry.huge;
            }
            (got, s') ←
                get_lower tree flags (with_trees (set (trees s) j (fetch_update take t).1) s)
            elim got [
              | ok new_tree ↦ returns (ok new_tree, s')
              | err memory ↦ do
                ts ← unreserve j entry.free entry.huge (kind_of flags) (trees s')
                reserve_rounds n (i + 1) start flags low high (with_trees ts s')
              | err e ↦ returns (err e, s')
            ]
        ]

  unfoldable pub reserve_matching : ℕ → Flags → ℕ → ℕ → ℕ → ℕ → S → Run (Res LocalTree × S)
  unfolding reserve_rounds
  reserve_matching start flags offset len low high s =
      reserve_rounds (len - offset) offset start flags (max (2 ^ flags.order) low) high s

  -- `Err(Error::Memory) => {}` and `r => return r`.
  abbrev pub or_next :
      (S → Run (Res LocalTree × S)) → Run (Res LocalTree × S) → Run (Res LocalTree × S)
  or_next next r = r >>= λ out. elim out.0 [
    | ok t ↦ returns out
    | err memory ↦ next out.1
    | err retry ↦ returns out
    | err address ↦ returns out
    | err initialization ↦ returns out
  ]

  -- A cache line has 16 entries.
  unfoldable pub reserve_tree : ℕ → ℕ → Flags → S → Run (Res LocalTree × S)
  unfolding reserve_matching
  reserve_tree cores start flags s =
      let len = length (trees s) in
      let first = align_down start 16 in
      let near = min (max (len / cores / 4) 4) 32 in
      or_next
        (λ s1.
          or_next
            (λ s2.
              or_next (λ s3. reserve_matching first flags 0 len 0 tree_frames s3)
                (reserve_matching first flags 1 len 0 (tree_frames - 1) s2))
            (reserve_matching first flags 1 (2 * near) (tree_frames / 64)
              (tree_frames - tree_frames / 16) s1))
        (reserve_matching first flags 1 near (tree_frames / 16) (tree_frames / 2) s)
