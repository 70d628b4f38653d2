-- ===== src/Lower/Sample.antt =====
-- A tree of 4096 free frames in the lower allocator of core/src/lower.rs, for the tests.
use llfree_rs.Base.{
  ◌-◌, ℕ, zero, suc, ◌/◌, ◌%◌, ◌≤◌, ◌<◌, ◌≡◌, refl, ap, sym, ◌∙◌, inr, [], ◌∷◌, length, get_or,
  get_or-replicate, replicate, arith,
}
use mathlib.Core.Path.{subst₂}
use llfree_rs.Bitfield.{Bitfield, count_zeros}
use llfree_rs.Word
use llfree_rs.Lower.{Lower}
use llfree_rs.Lower.Entry.{new, new_huge, new_free}
use llfree_rs.Lower.Frames.{with_field, with_field-IsValid, IsValid, IsField, entry_at, field_at}
use llfree_rs.Lower.Fields.{mark-IsField}

abbrev pub clear : Bitfield
clear = replicate 8 0

abbrev pub free_tree : Lower
free_tree = record {
  len = 4096;
  bitfields = replicate 8 clear;
  children = replicate 8 (new_free 512) ∷ [];
}

pub clear-IsField : IsField (new_free 512) clear
unfolding count_zeros Word.ones
clear-IsField = record {
  size = refl;
  words = (
    omega arith,
    (
      omega arith,
      (omega arith, (omega arith, (omega arith, (omega arith, (omega arith, (omega arith, tt)))))),
    ),
  );
  agrees = inr refl;
}

pub free_tree-IsValid : IsValid free_tree
free_tree-IsValid = record {
  tables = tables;
  covered = omega arith;
  fields = λ h lt. fields h lt;
  beyond = λ h ge. beyond h ge;
}
  where
    tables : (t : ℕ) → t < 1 → length (get_or free_tree.children t []) ≡ 8
    tables zero lt = refl
    tables (suc t) lt = absurd (omega arith)

    fields : (h : ℕ) → h < 8 → IsField (entry_at free_tree h) (field_at free_tree h)
    fields h lt =
        let table : h / 8 ≡ 0 = omega arith in
        subst₂ IsField
          (sym (
            ap (λ (t : ℕ). get_or (get_or free_tree.children t []) (h % 8) new) table
            ∙ get_or-replicate 8 (h % 8) (new_free 512) new (omega arith)))
          (sym (get_or-replicate 8 h clear [] lt)) clear-IsField

    beyond : (h : ℕ) → 8 ≤ h → (entry_at free_tree h).count ≡ 0
    beyond h ge =
        let table : h / 8 ≡ suc (h / 8 - 1) = omega arith in
        ap (λ (t : ℕ). (get_or (get_or free_tree.children t []) (h % 8) new).count) table

-- The same tree with its first huge frame allocated.
abbrev pub huge_tree : Lower
huge_tree = with_field 0 new_huge clear free_tree

pub huge_tree-IsValid : IsValid huge_tree
huge_tree-IsValid =
    with_field-IsValid free_tree free_tree-IsValid 0 new_huge clear (omega arith)
      (mark-IsField (new_free 512) clear clear-IsField refl)
