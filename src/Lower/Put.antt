-- ===== src/Lower/Put.antt =====
-- `put` of core/src/lower.rs for all orders: frees in an allocated huge frame, of whole huge frames
-- and of pairs.
pub mod Whole
use native.Mathlib.Decide.{ℕ_discrete}
use mathlib.Core.Logic.{◌≢◌}
use mathlib.Core.Path.{subst, subst₂, ap₂}
use llfree_rs.Base.{
  ℕ, zero, suc, ◌+◌, ◌-◌, ◌*◌, ◌/◌, ◌%◌, ◌^◌, ◌≤◌, ◌<◌, ◌≡◌, refl, ap, sym, ◌∙◌, ◌⊎◌, inl, inr,
  Bool, true, false, some, none, [], length, length-set, Run, returns, panics, index, index-get_or,
  ◌>>=◌, bind-returns, ok, err, ◌==◌, ==_iff, if◌then◌else◌, arith,
}
use llfree_rs.Types.{Res, Error, address}
use llfree_rs.Bitfield.{Bitfield, len, count_zeros, toggle}
use llfree_rs.Bitfield.Bits.{Flips, bit_at}
use llfree_rs.Bitfield.Toggle.{Toggled}
use llfree_rs.Bitfield.Toggle.Entries.{toggle-Toggled}
use llfree_rs.Lower.{put_small, partial_put_huge}
use llfree_rs.Lower.Entry.{HugeEntry, u16_max, same}
use llfree_rs.Lower.Entry
use llfree_rs.Lower.Types.{Lower, child_index, load_entry, store_entry, store_bitfield}
use llfree_rs.Lower.Frames.{
  IsValid, IsField, Changes, entry_at, field_at, taken, taken_in, with_field, with_field-Changes,
  with_field-IsValid, entry_at-with_self,
}
use llfree_rs.Lower.Blocks.{taken-at, block_in_huge}
use llfree_rs.Lower.Access.{InTable, valid-InTable, load_entry-eq, store_entry-store_bitfield}
use llfree_rs.Lower.Fields.{all_zero, huge_zeros, huge_taken, split-IsField, split-FieldChanges}
use llfree_rs.Lower.PutSmall.{AllTaken, Puts, put_small-Puts}

-- A state with the same frames before a change.
Changes-after :
    (off x n : ℕ) (w v : Bool) (a b c : Lower)
    → x ≡ off / 512 * 512
    → Changes x 0 w a b
    → Changes off n v b c
    → Changes off n v a c
Changes-after off x n w v a b c at p q = record {
  valid = q.valid;
  same_length = q.same_length ∙ p.same_length;
  same_range = q.same_range ∙ p.same_range;
  before = λ j k. sym (p.outside (off + j) (omega arith)) ∙ q.before j k;
  after = q.after;
  outside = λ f side. q.outside f side ∙ p.outside f (omega arith);
  entries = λ k ne side.
      q.entries k ne side ∙ p.entries k (λ e. ne (omega (arith, e, at))) (omega (arith, ne, at));
}

module _ (frame order : ℕ) (l : Lower) (v : IsValid l) (o_lt : order < 9)
    (aligned : frame % 2 ^ order ≡ 0) (inside : frame / 512 < length l.bitfields)
    (marked : (entry_at l (frame / 512)).count ≡ u16_max) where
  abbrev h : ℕ
  h = frame / 512

  f : IsField (entry_at l h) (field_at l h)
  f = v.fields h inside

  in_table : InTable h l
  in_table = valid-InTable h l v (omega (arith, v.covered))

  table : h / 8 ≡ frame / 4096
  table = omega arith

  load : load_entry (frame / 4096) (child_index frame) l ≡ returns (entry_at l h)
  load = ap (λ (t : ℕ). load_entry t (h % 8) l) (sym table) ∙ load_entry-eq h l in_table

  -- The bitfield of an allocated huge frame is empty, so that all its bits can be set.
  fills :
      (b' : Bitfield) × (toggle 0 9 false (field_at l h) ≡ returns (ok tt, b'))
      × Flips 0 512 true (field_at l h) b'
  fills = elim (toggle-Toggled 0 9 false (field_at l h) refl (omega (arith, f.size)) f.words) [
    | inl done ↦ done
    | inr (er, r, differs) ↦ absurd (
        differs λ j lt.
          all_zero (field_at l h) f.size (huge_zeros (entry_at l h) (field_at l h) f marked) (0 + j)
            (omega arith))
  ]

  -- The state after the split.
  abbrev split : Bitfield → Lower
  split b' = with_field h Entry.new b' l

  store :
      (b' : Bitfield)
      → store_entry (frame / 4096) (child_index frame) Entry.new (store_bitfield h b' l)
        ≡ returns (split b')
  store b' =
      ap (λ (t : ℕ). store_entry t (h % 8) Entry.new (store_bitfield h b' l)) (sym table)
      ∙ store_entry-store_bitfield h Entry.new b' l in_table

  split-Changes :
      (b' : Bitfield)
      → Flips 0 512 true (field_at l h) b'
      → Changes (h * 512 + 0) 0 true l (split b')
  split-Changes b' flips =
      with_field-Changes l v h 0 0 true Entry.new b' inside (omega arith) (omega arith)
        (split-IsField (entry_at l h) (field_at l h) f marked b' flips)
        (split-FieldChanges (entry_at l h) (field_at l h) f marked b' flips)

  run :
      (b' : Bitfield)
      → toggle 0 9 false (field_at l h) ≡ returns (ok tt, b')
      → partial_put_huge (entry_at l h) frame order l ≡ put_small frame order (split b')
  unfolding partial_put_huge
  run b' r =
      bind-returns _ (index-get_or [] l.bitfields h inside)
      ∙ bind-returns _ r
      ∙ bind-returns _ load
      ∙ rw ((==_iff (entry_at l h).count (entry_at l h).count).1 refl) (bind-returns _ (store b'))

  pub partial_put_huge-Puts : Puts frame order l (partial_put_huge (entry_at l h) frame order l)
  partial_put_huge-Puts =
      let (b', r, flips) = fills in
      let c = split-Changes b' flips in
      let small : (entry_at (split b') h).count ≤ 512 = omega (
        arith,
        ap (λ (e : HugeEntry). e.count) (entry_at-with_self l v h Entry.new b' in_table.0),
      ) in
      let in_split : frame / 512 < length (split b').bitfields = omega (arith, c.same_length) in
      elim (put_small-Puts frame order (split b') c.valid o_lt aligned in_split small) [
        | inl (fr, l', s, changes, says) ↦ inl (
          fr,
          l',
          run b' r ∙ s,
          Changes-after frame (h * 512 + 0) (2 ^ order) true false l (split b') l' (omega arith) c
              changes,
          says,
        )
        | inr (_, refused) ↦ absurd (refused.0 o_lt (taken_all c))
      ]
    where
      taken_all : {m : Lower} → Changes (h * 512 + 0) 0 true l m → AllTaken frame (2 ^ order) m
      taken_all c j lt =
          let off = frame % 512 in
          let fits = (block_in_huge order frame (omega arith) aligned).1 in
          let at : frame + j ≡ h * 512 + (off + j) = omega arith in
          c.outside (frame + j) (omega arith)
          ∙ ap (taken l) at
          ∙ taken-at l h (off + j) (omega (arith, fits))
          ∙ huge_taken (entry_at l h) (field_at l h) f (off + j) marked
