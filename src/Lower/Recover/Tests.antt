-- ===== src/Lower/Recover/Tests.antt =====
-- Recovery of a tree of 4096 frames, and of one with a table that is not full.
use llfree_rs.Base.{
  ℕ, zero, suc, ◌<◌, ◌≡◌, refl, [], ◌∷◌, length, get_or, replicate, returns, panics, arith,
}
use llfree_rs.Bitfield.Bits.{IsWords}
use llfree_rs.Lower.{Lower}
use llfree_rs.Lower.Entry.{new_free}
use llfree_rs.Lower.Frames.{field_at}
use llfree_rs.Lower.Sample.{clear, free_tree, free_tree-IsValid}
use llfree_rs.Lower.Setup.{recover_all}
use llfree_rs.Lower.Recover.Whole.{IsShaped, Recovers, recover_all-Recovers}
use llfree_rs.Lower.Recover.Panics.{recover_all-panics}

-- Wrong counters everywhere.
abbrev crashed : Lower
crashed = record free_tree { children = replicate 8 (new_free 7) ∷ [] }

crashed-IsShaped : IsShaped crashed
crashed-IsShaped = record {
  tables = tables;
  covered = refl;
  sizes = λ h lt. free_tree_fields h lt;
  words = λ h lt. words h lt;
}
  where
    tables : (t : ℕ) → t < 1 → length (get_or crashed.children t []) ≡ 8
    tables zero lt = refl
    tables (suc t) lt = absurd (omega arith)

    free_tree_fields : (h : ℕ) → h < 8 → length (field_at crashed h) ≡ 8
    free_tree_fields h lt = (free_tree-IsValid.fields h lt).size

    words : (h : ℕ) → h < 8 → IsWords (field_at crashed h)
    words h lt = (free_tree-IsValid.fields h lt).words

recover_all-Recovers_example : (l : Lower) × (recover_all crashed ≡ returns l) × Recovers crashed l
recover_all-Recovers_example = recover_all-Recovers crashed crashed-IsShaped

-- Three huge frames only.
abbrev short : Lower
short = record {
  len = 1536;
  bitfields = replicate 3 clear;
  children = replicate 8 (new_free 512) ∷ [];
}

short_tables : (t : ℕ) → t < 1 → length (get_or short.children t []) ≡ 8
short_tables zero lt = refl
short_tables (suc t) lt = absurd (omega arith)

recover_all-panics_example : recover_all short ≡ panics
recover_all-panics_example = recover_all-panics short short_tables (omega arith)
