-- ===== src/Lower/GetHuge.antt =====
-- `get_huge` of core/src/lower.rs: allocations of a whole huge frame.
use native.Mathlib.Decide.{ℕ_discrete, dec_lt}
use mathlib.Core.Logic.{◌≢◌}
use mathlib.Core.Path.{subst, ap₂}
use llfree_rs.Base.{
  ℕ, zero, suc, ◌+◌, ◌*◌, ◌/◌, ◌%◌, ◌≤◌, ◌<◌, ◌≡◌, refl, ap, sym, ◌∙◌, ◌⊎◌, inl, inr, true, length,
  Run, returns, bind-returns, ok, err, arith,
}
use llfree_rs.Types.{Res, memory}
use llfree_rs.Atomic.{fetch_update, fetch_update-some}
use llfree_rs.Lower.{get_huge_from, get_huge}
use llfree_rs.Lower.Entry.{HugeEntry, new_huge, u16_max, mark_huge}
use llfree_rs.Lower.Types.{Lower, child_index, load_entry, store_entry}
use llfree_rs.Lower.Frames.{
  IsValid, IsField, entry_at, field_at, with_field, with_field-Changes, entry_at-with_self,
}
use llfree_rs.Lower.Blocks.{NoFree, NoFree-NoBlockIn, NoBlockIn, Allocated}
use llfree_rs.Lower.Access.{InTable, valid-InTable, load_entry-eq, store_entry-eq}
use llfree_rs.Lower.Counts.{mark_huge-eq, mark_huge-none}
use llfree_rs.Lower.Fields.{
  count-small, count-Agrees, zeros-le, small_taken, huge_taken, mark-IsField, mark-FieldChanges,
}
use llfree_rs.Lower.GetSmall.Loop.{huge_at, all_rounds}

-- A huge frame whose counter is below 512 has an allocated frame.
pub partial-NoFree : (l : Lower) → IsValid l → (h : ℕ) → (entry_at l h).count ≢ 512 → NoFree 9 l h
partial-NoFree l v h ne inside off aligned fits zeros =
    of_count (count-small (entry_at l h) (field_at l h) f)
  where
    f : IsField (entry_at l h) (field_at l h)
    f = v.fields h inside

    of_count : ((entry_at l h).count ≡ u16_max) ⊎ ((entry_at l h).count ≤ 512) → ⊥
    of_count (inl marked) =
        let one : suc zero ≡ zero =
          sym (huge_taken (entry_at l h) (field_at l h) f (off + 0) marked)
          ∙ zeros 0 (omega arith) in
        omega (arith, one)
    of_count (inr small) =
        let enough : 512 ≤ _ = zeros-le off 512 (field_at l h) f.size fits (λ j lt.
          sym (small_taken (entry_at l h) (field_at l h) f (off + j) small) ∙ zeros j lt) in
        ne (omega (arith, enough, small, count-Agrees (entry_at l h) (field_at l h) f.agrees small))

-- Only entries with a bitfield can be full.
pub full-inside :
    (l : Lower) → IsValid l → (h : ℕ) → (entry_at l h).count ≡ 512 → h < length l.bitfields
full-inside l v h full = elim (dec_lt h (length l.bitfields)) [
  | yes inside ↦ inside
  | no ge ↦ absurd (omega (arith, v.beyond h (omega arith), full))
]

module _ (start : ℕ) (l : Lower) (v : IsValid l) (lt : start / 4096 < length l.children) where
  abbrev Loop : Run (Res ℕ × Lower) → (ℕ → Type 0) → Type 0
  Loop out Range =
      ((frame : ℕ) × (l' : Lower) × (out ≡ returns (ok frame, l')) × Allocated start 9 frame l l')
      ⊎ ((out ≡ returns (err memory, l)) × ((k : ℕ) → Range k → NoFree 9 l (huge_at start k)))

  get_huge_from-Loop : (n j : ℕ) → Loop (get_huge_from n j start l) (λ k. (j ≤ k) × (k < j + n))
  unfolding get_huge_from
  get_huge_from-Loop zero j = inr (refl, λ k (p, q). absurd (omega arith))
  get_huge_from-Loop (suc n) j = elim (ℕ_discrete (entry_at l h).count 512) [
    | yes full ↦ inl (
      start / 4096 * 4096 + (child_index start + j) % 8 * 512,
      with_field h new_huge (field_at l h) l,
      bind-returns _ load ∙ rw (mark_huge-eq (entry_at l h) full) (bind-returns _ (store full)),
      allocated full,
    )
    | no ne ↦
        let here = bind-returns _ load ∙ rw (mark_huge-none (entry_at l h) ne) refl in
        elim (get_huge_from-Loop n (j + 1)) [
          | inl (frame, l', s, a) ↦ inl (frame, l', here ∙ s, a)
          | inr (s, later) ↦
              inr (
                here ∙ s,
                λ k (p, q). either (partial-NoFree l v h ne) later k p q (ℕ_discrete j k),
              )
        ]
  ]
    where
      h : ℕ
      h = huge_at start j

      in_table : InTable h l
      in_table = valid-InTable h l v (omega arith)

      table : h / 8 ≡ start / 4096
      table = omega arith

      entry : h % 8 ≡ (child_index start + j) % 8
      entry = omega arith

      load : load_entry (start / 4096) ((child_index start + j) % 8) l ≡ returns (entry_at l h)
      load =
          ap₂ (λ (t i : ℕ). load_entry t i l) (sym table) (sym entry) ∙ load_entry-eq h l in_table

      store :
          (entry_at l h).count ≡ 512
          → store_entry
              (start / 4096)
              ((child_index start + j) % 8)
              (fetch_update (mark_huge 512) (entry_at l h)).1
              l
            ≡ returns (with_field h new_huge (field_at l h) l)
      store full =
          ap₂ (λ (t i : ℕ). store_entry t i (fetch_update (mark_huge 512) (entry_at l h)).1 l)
            (sym table) (sym entry)
          ∙ ap (λ (x : HugeEntry). store_entry (h / 8) (h % 8) x l)
              (ap (λ u. u.1)
                (fetch_update-some (mark_huge 512) (entry_at l h) new_huge
                  (mark_huge-eq (entry_at l h) full)))
          ∙ store_entry-eq h new_huge l in_table

      allocated :
          (entry_at l h).count ≡ 512
          → Allocated start 9
              (start / 4096 * 4096 + (child_index start + j) % 8 * 512)
              l
              (with_field h new_huge (field_at l h) l)
      allocated full =
          let inside = full-inside l v h full in
          let f = v.fields h inside in
          let at : start / 4096 * 4096 + (child_index start + j) % 8 * 512 ≡ h * 512 + 0 =
            omega arith in
          subst (λ x. Allocated start 9 x l (with_field h new_huge (field_at l h) l)) (sym at)
            (record {
              in_tree = omega arith;
              aligned = omega arith;
              within = omega (arith, inside);
              changes =
                  with_field-Changes l v h 0 512 true new_huge (field_at l h) inside (omega arith)
                    (omega arith) (mark-IsField (entry_at l h) (field_at l h) f full)
                    (mark-FieldChanges (entry_at l h) (field_at l h) f full);
              marked = λ _ k from to.
                  let same : h ≡ k = omega arith in
                  ap (λ (x : ℕ). (entry_at (with_field h new_huge (field_at l h) l) x).count)
                    (sym same)
                  ∙ ap (λ (x : HugeEntry). x.count)
                      (entry_at-with_self l v h new_huge (field_at l h) in_table.0);
            })

      either :
          NoFree 9 l h
          → ((k : ℕ) → (j + 1 ≤ k) × (k < j + 1 + n) → NoFree 9 l (huge_at start k))
          → (k : ℕ) → j ≤ k
          → k < j + suc n
          → Dec (j ≡ k)
          → NoFree 9 l (huge_at start k)
      either miss later k p q (yes same) = subst (λ (t : ℕ). NoFree 9 l (huge_at start t)) same miss
      either miss later k p q (no ne) = later k (omega arith, omega arith)

  pub get_huge-cases :
      ((frame : ℕ) × (l' : Lower) × (get_huge start l ≡ returns (ok frame, l'))
        × Allocated start 9 frame l l')
      ⊎ ((get_huge start l ≡ returns (err memory, l)) × NoBlockIn start 9 l)
  unfolding get_huge
  get_huge-cases = elim (get_huge_from-Loop 8 0) [
    | inl found ↦ inl found
    | inr (r, misses) ↦ inr (
      r,
      NoFree-NoBlockIn start 9 l (omega arith)
          (all_rounds start (NoFree 9 l) λ k k_lt. misses k (omega arith, omega arith)),
    )
  ]
