-- ===== src/Lower/GetMax.antt =====
-- `get_max` of core/src/lower.rs: allocations of two huge frames at once.
pub mod Loop
use native.Mathlib.Decide.{ℕ_discrete}
use mathlib.Core.Logic.{◌≢◌}
use mathlib.Core.Path.{subst, subst₂, ap₂}
use llfree_rs.Base.{
  ℕ, zero, suc, ◌+◌, ◌*◌, ◌/◌, ◌%◌, ◌^◌, ◌≤◌, ◌<◌, ◌≡◌, refl, ap, sym, ◌∙◌, ◌⊎◌, inl, inr, Bool,
  true, Option, Option-cases, some, none, length, Run, returns, ◌>>=◌, bind-returns, ok, err, arith,
}
use llfree_rs.Types.{Res, memory}
use llfree_rs.Atomic.{fetch_update, fetch_update-some}
use llfree_rs.Bitfield.{Bitfield}
use llfree_rs.Bitfield.Search.{round_of}
use llfree_rs.Lower.{get_max_from, get_max}
use llfree_rs.Lower.Entry.{HugeEntry, HugePair, new_huge, u16_max, mark_huge, map_pair, pair}
use llfree_rs.Lower.Types.{Lower, child_index, load_entry, store_entry, load_pair, store_pair}
use llfree_rs.Lower.Frames.{
  IsValid, IsField, FieldChanges, Changes, Changes-trans, taken, entry_at, field_at,
  entry_at-with_ne, entry_at-with_self, field_at-with_ne, with_field, with_field-IsValid,
  with_field-Changes,
}
use llfree_rs.Lower.Blocks.{NoFree, NoBlockIn, Allocated, taken-at}
use llfree_rs.Lower.Access.{
  InTable, valid-InTable, load_entry-eq, store_entry-eq, with_field-InTable_near,
}
use llfree_rs.Lower.Counts.{mark_huge-eq, mark_huge-none}
use llfree_rs.Lower.Fields.{mark-IsField, mark-FieldChanges}
use llfree_rs.Lower.GetHuge.{partial-NoFree, full-inside}

-- Both entries are marked, or none.
pub map_pair-both :
    (f : HugeEntry → Option HugeEntry) (a b c d : HugeEntry)
    → f a ≡ some c
    → f b ≡ some d
    → map_pair f (pair a b) ≡ some (pair c d)
unfolding map_pair
map_pair-both f a b c d p q = rw (map_pair, p, q) refl

pub map_pair-first :
    (f : HugeEntry → Option HugeEntry) (a b : HugeEntry) → f a ≡ none → map_pair f (pair a b) ≡ none
unfolding map_pair
map_pair-first f a b p = rw (map_pair, p) refl

pub map_pair-second :
    (f : HugeEntry → Option HugeEntry) (a b : HugeEntry) → f b ≡ none → map_pair f (pair a b) ≡ none
unfolding map_pair
map_pair-second f a b q = elim (Option-cases (f a)) [
  | inl p ↦ rw (map_pair, p) refl
  | inr (c, p) ↦ rw (map_pair, p, q) refl
]

-- The two entries of pair `i` of a table, read and written.
module _ (l : Lower) (v : IsValid l) (t i : ℕ) (lt : t < length l.children) (small : i < 4) where
  abbrev pub first : ℕ
  first = t * 8 + 2 * i

  in_first : InTable first l
  in_first = valid-InTable first l v (omega arith)

  in_second : InTable (suc first) l
  in_second = valid-InTable (suc first) l v (omega arith)

  load_at :
      (h x : ℕ) → InTable h l → h / 8 ≡ t → h % 8 ≡ x → load_entry t x l ≡ returns (entry_at l h)
  load_at h x in_table p q =
      ap₂ (λ (y z : ℕ). load_entry y z l) (sym p) (sym q) ∙ load_entry-eq h l in_table

  pub load_pair-eq : load_pair t i l ≡ returns (pair (entry_at l first) (entry_at l (suc first)))
  load_pair-eq =
      bind-returns _ (load_at first (2 * i) in_first (omega arith) (omega arith))
      ∙ bind-returns _ (load_at (suc first) (2 * i + 1) in_second (omega arith) (omega arith))

  store_at :
      (h x : ℕ) (e : HugeEntry) (m : Lower)
      → InTable h m
      → h / 8 ≡ t
      → h % 8 ≡ x
      → store_entry t x e m ≡ returns (with_field h e (field_at m h) m)
  store_at h x e m in_table p q =
      ap₂ (λ (y z : ℕ). store_entry y z e m) (sym p) (sym q) ∙ store_entry-eq h e m in_table

  module _ (a b : HugeEntry) where
    abbrev pub half : Lower
    half = with_field first a (field_at l first) l

    abbrev pub stored_pair : Lower
    stored_pair = with_field (suc first) b (field_at l (suc first)) half

    half-InTable : InTable (suc first) half
    half-InTable =
        with_field-InTable_near first (suc first) a (field_at l first) l (omega arith) (omega arith)
          (omega (arith, v.tables (first / 8) (omega arith)))

    pub store_pair-eq : store_pair t i (pair a b) l ≡ returns stored_pair
    store_pair-eq =
        bind-returns _ (store_at first (2 * i) a l in_first (omega arith) (omega arith))
        ∙ store_at (suc first) (2 * i + 1) b half half-InTable (omega arith) (omega arith)
        ∙ ap (λ (c : Bitfield). returns (with_field (suc first) b c half))
            (field_at-with_ne l first (suc first) a (field_at l first) (λ e. omega (arith, e)))

  -- Both huge frames change in whole.
  module _ (a b : HugeEntry) (w : Bool) (inside : suc first < length l.bitfields)
      (fa : IsField a (field_at l first)) (fb : IsField b (field_at l (suc first)))
      (ca : FieldChanges 0 512 w (entry_at l first) (field_at l first) a (field_at l first))
      (cb : FieldChanges 0 512 w
        (entry_at l (suc first))
        (field_at l (suc first))
        b
        (field_at l (suc first))) where
    half-Changes : Changes (first * 512) 512 w l (half a b)
    half-Changes =
        let at : first * 512 + 0 ≡ first * 512 = omega arith in
        subst (λ (x : ℕ). Changes x 512 w l (half a b)) at
          (with_field-Changes l v first 0 512 w a (field_at l first) (omega (arith, inside))
            (omega arith) (omega arith) fa ca)

    pub pair-Changes : Changes (first * 512) 1024 w l (stored_pair a b)
    pair-Changes =
        let m = half a b in
        let at : suc first * 512 + 0 ≡ first * 512 + 512 = omega arith in
        let other : first ≢ suc first = λ e. omega (arith, e) in
        let same_entry : entry_at m (suc first) ≡ entry_at l (suc first) =
          entry_at-with_ne l first (suc first) a (field_at l first) in_first.0 other in
        let same_field : field_at m (suc first) ≡ field_at l (suc first) =
          field_at-with_ne l first (suc first) a (field_at l first) other in
        Changes-trans (first * 512) 512 512 w l m (stored_pair a b) (omega arith) half-Changes (
          subst (λ (x : ℕ). Changes x 512 w m (stored_pair a b)) at
            (with_field-Changes m half-Changes.valid (suc first) 0 512 w b (field_at l (suc first))
              (omega (arith, half-Changes.same_length, inside)) (omega arith) (omega arith) fb
              (subst₂
                (λ (x : HugeEntry) (y : Bitfield).
                  FieldChanges 0 512 w x y b (field_at l (suc first)))
                (sym same_entry) (sym same_field) cb)))

  -- Both huge frames are free: they are allocated together.
  module _ (full : (entry_at l first).count ≡ 512)
      (full' : (entry_at l (suc first)).count ≡ 512) where
    marked-Changes : Changes (first * 512) 1024 true l (stored_pair new_huge new_huge)
    marked-Changes =
        let f = v.fields first (full-inside l v first full) in
        let f' = v.fields (suc first) (full-inside l v (suc first) full') in
        pair-Changes new_huge new_huge true (full-inside l v (suc first) full')
          (mark-IsField (entry_at l first) (field_at l first) f full)
          (mark-IsField (entry_at l (suc first)) (field_at l (suc first)) f' full')
          (mark-FieldChanges (entry_at l first) (field_at l first) f full)
          (mark-FieldChanges (entry_at l (suc first)) (field_at l (suc first)) f' full')

    pair_marked :
        (h : ℕ)
        → (first ≡ h) ⊎ (suc first ≡ h)
        → (entry_at (stored_pair new_huge new_huge) h).count ≡ u16_max
    pair_marked h (inl same) =
        let m = stored_pair new_huge new_huge in
        ap (λ (x : ℕ). (entry_at m x).count) (sym same)
        ∙ ap (λ (x : HugeEntry). x.count)
            (entry_at-with_ne (half new_huge new_huge) (suc first) first new_huge
                (field_at l (suc first)) (half-InTable new_huge new_huge).0 (λ e. omega (arith, e))
              ∙ entry_at-with_self l v first new_huge (field_at l first) in_first.0)
    pair_marked h (inr same) =
        let m = stored_pair new_huge new_huge in
        let f = v.fields first (full-inside l v first full) in
        let w =
          with_field-IsValid l v first new_huge (field_at l first) (full-inside l v first full)
            (mark-IsField (entry_at l first) (field_at l first) f full) in
        ap (λ (x : ℕ). (entry_at m x).count) (sym same)
        ∙ ap (λ (x : HugeEntry). x.count)
            (entry_at-with_self (half new_huge new_huge) w (suc first) new_huge
              (field_at l (suc first)) (half-InTable new_huge new_huge).0)

    pub pair-Allocated :
        (start : ℕ)
        → start / 4096 ≡ t
        → Allocated start 10 (first * 512) l (stored_pair new_huge new_huge)
    pair-Allocated start same = record {
      in_tree = omega (arith, same);
      aligned = omega arith;
      within = omega (arith, full-inside l v (suc first) full');
      changes = marked-Changes;
      marked = λ _ h from to. pair_marked h (omega arith);
    }

  -- The pair is not free: some frame of its block is allocated.
  abbrev pub NoPair : Type 0
  NoPair = first + 2 ≤ length l.bitfields → ¬ ((j : ℕ) → j < 1024 → taken l (first * 512 + j) ≡ 0)

  half_taken :
      (h : ℕ) (x : ℕ)
      → h * 512 ≡ first * 512 + x
      → x + 512 ≤ 1024
      → h < length l.bitfields
      → NoFree 9 l h
      → ¬ ((j : ℕ) → j < 1024 → taken l (first * 512 + j) ≡ 0)
  half_taken h x at fits inside miss zeros = miss inside 0 refl (omega arith) λ j lt.
      let place : h * 512 + (0 + j) ≡ first * 512 + (x + j) = omega arith in
      sym (taken-at l h (0 + j) (omega arith)) ∙ ap (taken l) place ∙ zeros (x + j) (omega arith)

  pub first-NoPair : (entry_at l first).count ≢ 512 → NoPair
  first-NoPair ne inside =
      half_taken first 0 (omega arith) (omega arith) (omega arith) (partial-NoFree l v first ne)

  pub second-NoPair : (entry_at l (suc first)).count ≢ 512 → NoPair
  second-NoPair ne inside =
      half_taken (suc first) 512 (omega arith) (omega arith) (omega arith)
        (partial-NoFree l v (suc first) ne)
