-- ===== src/LlFree/Tests.antt =====
-- Runs of the whole allocator on two trees and two cores.
use llfree_rs.Base.{
  ℕ, ◌+◌, ◌-◌, ◌<◌, ◌≤◌, ◌≡◌, ◌⊎◌, refl, true, [], ◌∷◌, arith, Bool, false, replicate, zero, suc,
  Run, returns, panics, ◌>>=◌, ok, err,
}
use llfree_rs.Types.{o, free_all}
use llfree_rs.Lower.Entry.{new_free}
use llfree_rs.LlFree.{LlFree, get, put, sync_with_global}
use llfree_rs.LlFree.Sync.{sync_with_global-Conserves}
use llfree_rs.Trees.Cases.{Replaces}
use llfree_rs.Trees.Totals.{Conserves}
use llfree_rs.Local.{LocalTree, fixed}
use llfree_rs.LlFree.Setup.{new, MetaData}
use llfree_rs.LlFree.Query.{validate}

abbrev buffers : MetaData
buffers = record {
  local = record { start = 0x1000; bytes = 256 };
  trees = record { start = 0x2000; bytes = 64 };
  lower = record {
    address = 0x4000;
    bytes = 1152;
    bitfields = replicate 16 (replicate 8 0);
    children = replicate 2 (replicate 8 (new_free 0));
  };
}

abbrev idle : ℕ → Bool
idle c = false

abbrev state {ℓ} : {A : Type ℓ} → Run (A × LlFree) → Run LlFree
state m = m >>= λ r. returns r.1

abbrev start : Run LlFree
start = new 128 2 8192 free_all buffers >>= λ r. elim r [ ok s ↦ returns s | err e ↦ panics ]

gets : ℕ → ℕ → ℕ → LlFree → Run LlFree
gets zero core order s = returns s
gets (suc n) core order s = state (get idle core (o order) s) >>= λ s'. gets n core order s'

halves_freed : Run LlFree
halves_freed =
    start >>= gets 16 0 8 >>= λ s. state (put 0 0 (o 8) s) >>= λ s. state (put 1 256 (o 8) s)

next_alloc : Run LlFree
next_alloc = halves_freed >>= λ s. state (get idle 0 (o 8) s)

validated : Run (Unit {0})
validated = start >>= gets 3 0 8 >>= gets 4 1 9 >>= gets 2 1 10 >>= validate

-- The totals agree after allocations of three orders on two cores.
validate_test : validated ≡ returns tt
unfolding new get put validate validated gets
validate_test = refl

-- Two frees of half a huge frame on two cores, and an allocation of that order.
split_counters_test : next_alloc ≡ panics
unfolding new get put next_alloc halves_freed gets
split_counters_test = refl

-- A tree that is taken, with frames that another core freed in the array.
abbrev taken : LlFree
taken = record {
  locals = [];
  lower = record { len = 4096; bitfields = []; children = [] };
  trees = record { free = 600; huge = 1; reserved = true; kind = fixed } ∷ [];
}

abbrev mine : LocalTree
mine = record { frame = 128; free = 40; huge = 0 }

sync_with_global-Conserves_example :
    ((t : LocalTree) × (s' : LlFree) × (sync_with_global mine 9 taken ≡ returns (true, t, s'))
      × ((true ≡ true) × (256 - 40 < 600) × (1 - 0 ≤ 1))
      × ((t.frame ≡ 128) × (t.free ≡ 40 + 600) × (t.huge ≡ 0 + 1))
      × Replaces 0
          (record { free = 0; huge = 0; reserved = true; kind = fixed })
          taken.trees
          s'.trees
      × (s'.locals ≡ taken.locals)
      × (s'.lower ≡ taken.lower)
      × Conserves taken.trees 40 0 s'.trees t.free t.huge)
    ⊎ ((sync_with_global mine 9 taken ≡ returns (false, mine, taken))
        × ((true ≡ false) ⊎ ((600 ≤ 256 - 40) ⊎ (1 < 1 - 0))))
sync_with_global-Conserves_example = sync_with_global-Conserves mine 9 taken (omega arith)
