-- ===== src/LlFree/Balance/Tests.antt =====
-- One tree and one core, with all frames allocated at the start, or with 4000 free frames, which end
-- within the last bitfield.
use mathlib.Core.Path.{subst}
use llfree_rs.Base.{
  ap, sym, ℕ, zero, suc, ◌%◌, ◌<◌, ◌≤◌, ◌≡◌, ◌⊎◌, refl, [], ◌∷◌, true, false, none, some, ◌+◌,
  length, get_or, replicate, get_or-replicate, returns, ok, err, arith,
}
use llfree_rs.Types.{free_all, alloc_all, address, o}
use llfree_rs.Bitfield.Bits.{IsWords, bit_at}
use llfree_rs.Word.Bit.{bit, sum_below}
use llfree_rs.Lower
use llfree_rs.Lower.Entry.{new_free}
use llfree_rs.Lower.Frames.{Changes, taken}
use llfree_rs.Lower.PutSmall.{AllTaken, Marked}
use llfree_rs.Lower.Sample.{clear, clear-IsField, free_tree, free_tree-IsValid}
use llfree_rs.Lower.Query.Trees.{tree_free, tree_huge}
use llfree_rs.Trees.Cases.{tree_at}
use llfree_rs.Util.{count_if}
use llfree_rs.Lower.Setup.{metadata_size}
use llfree_rs.Lower.Setup.Free.{IsCut}
use llfree_rs.Lower.Setup.Start.{view}
use llfree_rs.Trees
use llfree_rs.Local.{Kind, fixed, LocalTree, preferred, empty}
use llfree_rs.LlFree.{LlFree, get, put, drain}
use llfree_rs.LlFree.Query.{free_frames}
use llfree_rs.LlFree.Setup.{MetaData, new, valid}
use llfree_rs.LlFree.Balance.{Holding, in_locals, in_slot, frees, huges, one, at_ne}
use llfree_rs.LlFree.Balance.Own.{Serves, Fails, get-preferred}
use llfree_rs.LlFree.Balance.New.{new-Holding, none_beyond}
use llfree_rs.LlFree.Balance.Range.{IsCapped, new-IsCapped, Allocates}
use llfree_rs.LlFree.Balance.Alloc.{get-Allocates}
use llfree_rs.LlFree.Balance.Put.{put-Holding}
use llfree_rs.LlFree.Balance.Drain.{drain-Holding}
use llfree_rs.LlFree.Balance.Totals.{idle, free_frames-lower}

abbrev buffers : MetaData
buffers = record {
  local = record { start = 0x1000; bytes = 128 };
  trees = record { start = 0x2000; bytes = 64 };
  lower = record {
    address = 0x4000;
    bytes = 576;
    bitfields = replicate 8 clear;
    children = replicate 8 (new_free 9) ∷ [];
  };
}

buffers-IsCut : IsCut (view 4096 buffers.lower)
buffers-IsCut = record {
  some_frame = omega arith;
  tables = refl;
  table_sizes = tables;
  bitfields = refl;
  fields = record { sizes = sizes; words = words };
}
  where
    tables : (t : ℕ) → t < 1 → length (get_or buffers.lower.children t []) ≡ 8
    tables zero lt = refl
    tables (suc t) lt = absurd (omega arith)

    sizes : (h : ℕ) → h < 8 → length (get_or buffers.lower.bitfields h []) ≡ 8
    sizes h lt = ap length (get_or-replicate 8 h clear [] lt)

    words : (h : ℕ) → h < 8 → IsWords (get_or buffers.lower.bitfields h [])
    words h lt = subst IsWords (sym (get_or-replicate 8 h clear [] lt)) clear-IsField.words

-- The core-local data take 128 bytes.
new-Holding_example :
    (s : LlFree) × (new 128 1 4096 alloc_all buffers ≡ returns (ok s))
    × Holding none s
    × (Lower.Setup.new 4096 alloc_all buffers.lower ≡ returns (ok s.lower))
    × (s.lower.len ≡ 4096)
    × (0 < 1 → 0 < length s.locals)
unfolding valid metadata_size Trees.metadata_size
new-Holding_example =
    new-Holding 128 1 4096 alloc_all buffers buffers-IsCut refl (λ e. cc) (λ e. cc)

-- The state that it is about, with its books.
abbrev started : (s : LlFree) × Holding none s × (s.lower.len ≡ 4096) × (0 < length s.locals)
unfolding valid metadata_size Trees.metadata_size
started =
    let (s, _, b, _, len, cores) =
      new-Holding 128 1 4096 alloc_all buffers buffers-IsCut refl (λ e. cc) (λ e. cc) in
    (s, b, len, cores (omega arith))

put-Holding_example :
    ((s' : LlFree) × (put 0 512 (o 9) started.0 ≡ returns (ok tt, s'))
      × Changes 512 512 false (started.0).lower s'.lower
      × Holding none s')
    ⊎ ((put 0 512 (o 9) started.0 ≡ returns (err address, started.0))
        × (9 < 9 → ¬ AllTaken 512 512 (started.0).lower)
        × (9 ≤ 9 → ¬ Marked 512 512 (started.0).lower))
put-Holding_example =
    put-Holding 0 512 (o 9) started.0 started.1 started.3 (omega arith) (omega arith)
      (omega (arith, started.2))

drain-Holding_example :
    (s' : LlFree) × (drain idle 0 started.0 ≡ returns (ok tt, s'))
    × Holding none s'
    × (s'.lower ≡ (started.0).lower)
    × (false ≡ true → s' ≡ started.0)
    × (false ≡ false
        → (k : Kind) → preferred k (get_or s'.locals (0 % length (started.0).locals) empty) ≡ none)
drain-Holding_example = drain-Holding idle 0 started.0 started.3 started.1

free_frames-lower_example : free_frames idle started.0 ≡ Lower.Query.free_frames (started.0).lower
free_frames-lower_example = free_frames-lower started.0 started.1

shorter-IsCut : IsCut (view 4000 buffers.lower)
shorter-IsCut = record {
  some_frame = omega arith;
  tables = refl;
  table_sizes = buffers-IsCut.table_sizes;
  bitfields = refl;
  fields = buffers-IsCut.fields;
}

-- The last 96 frames of the bitfields are beyond the range.
abbrev shorter :
    (s : LlFree) × Holding none s × IsCapped s.lower × (0 < length s.locals) × (0 < length s.trees)
unfolding valid metadata_size Trees.metadata_size
shorter =
    let (s, _, b, low, len, cores) =
      new-Holding 128 1 4000 free_all buffers shorter-IsCut refl (λ e. cc) (λ e. cc) in
    (
      s,
      b,
      new-IsCapped 4000 free_all buffers.lower s.lower shorter-IsCut (omega arith) refl
          (λ crashed e. cc) low,
      cores (omega arith),
      omega (arith, b.covered, b.range, len),
    )

get-Allocates_example : Allocates 9 shorter.0 (get idle 0 (o 9) shorter.0)
get-Allocates_example =
    get-Allocates idle 0 (o 9) shorter.0 (omega arith) shorter.3 shorter.4 shorter.1 shorter.2

-- A core that has the only tree, with all its frames.
abbrev mine : LocalTree
mine = record { frame = 0; free = 4096; huge = 8 }

abbrev owned : LlFree
owned = record {
  locals = record empty { fixed_tree = some mine } ∷ [];
  lower = free_tree;
  trees = record { free = 0; huge = 0; reserved = true; kind = fixed } ∷ [];
}

owned-Holding : Holding none owned
unfolding in_locals sum_below
owned-Holding = record {
  valid = free_tree-IsValid;
  range = omega arith;
  covered = omega arith;
  free_balance = frames;
  huge_balance = whole;
  owners = owner;
}
  where
    frames :
        (t : ℕ)
        → (tree_at owned.trees t).free + in_locals frees owned.locals t + in_slot frees none t
          ≡ tree_free owned.lower t
    frames zero = refl
    frames (suc t) = omega (
      arith,
      at_ne 0 4096 (suc t) (λ e. omega (arith, e)),
      (none_beyond free_tree free_tree-IsValid (suc t) (omega arith)).0,
    )

    whole :
        (t : ℕ)
        → (tree_at owned.trees t).huge + in_locals huges owned.locals t + in_slot huges none t
          ≡ tree_huge owned.lower t
    whole zero = refl
    whole (suc t) = omega (
      arith,
      at_ne 0 8 (suc t) (λ e. omega (arith, e)),
      (none_beyond free_tree free_tree-IsValid (suc t) (omega arith)).1,
    )

    owner :
        (t : ℕ)
        → in_locals one owned.locals t + in_slot one none t
          ≡ count_if (tree_at owned.trees t).reserved
    owner zero = refl
    owner (suc t) = omega (arith, at_ne 0 1 (suc t) (λ e. omega (arith, e)))

pair_free : (j : ℕ) → j < 2 → taken free_tree (4 + j) ≡ 0
unfolding taken bit_at bit
pair_free zero lt = refl
pair_free (suc zero) lt = refl
pair_free (suc (suc j)) lt = absurd (omega arith)

get-preferred_example :
    Serves mine 1 owned (get idle 0 (o 1) owned) ⊎ Fails mine 1 owned (get idle 0 (o 1) owned)
get-preferred_example =
    get-preferred idle 0 (o 1) owned mine 4 (omega arith) (omega arith) owned-Holding refl
      (omega arith) (omega arith) refl refl (omega arith) pair_free
