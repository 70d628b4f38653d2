-- ===== src/Lower/Setup/Reserve.antt =====
-- The state that `reserve_all` of core/src/lower.rs leaves.
use native.Mathlib.Decide.{dec_lt}
use llfree_rs.Base.{
  ℕ, suc, ◌*◌, ◌/◌, ◌%◌, ◌≤◌, ◌<◌, ◌≡◌, refl, ap, sym, ◌∙◌, inl, inr, true, false, List, [], ◌∷◌,
  length, get_or, get_or-beyond, lt→ltb, ge→ltb, returns, bind-returns, arith,
}
use llfree_rs.Word.{ones}
use llfree_rs.Bitfield.{Bitfield, fill, count_zeros}
use llfree_rs.Bitfield.Bits.{IsWords}
use llfree_rs.Lower.Entry.{HugeEntry, new, new_free, new_huge}
use llfree_rs.Lower.Types.{Lower, Table}
use llfree_rs.Lower.Fields.{all_one}
use llfree_rs.Lower.Frames.{IsField, entry_at, field_at, taken, taken_in}
use llfree_rs.Lower.Recover.{fill-false}
use llfree_rs.Lower.Setup.{reserve_all}
use llfree_rs.Lower.Setup.Free.{IsCut, Fresh}
use llfree_rs.Lower.Setup.ReserveTables.{
  reserved_entry, TablesReserved, reserve_tables-Reserved, FieldsReserved,
  reserve_bitfields-Reserved,
}

fill-true :
    (b : Bitfield)
    → (IsWords (fill true b)) × (length (fill true b) ≡ length b) × (count_zeros (fill true b) ≡ 0)
unfolding fill count_zeros ones
fill-true [] = (tt, refl, refl)
fill-true (w ∷ b) =
    let (ws, len, zeros) = fill-true b in ((omega arith, ws), ap suc len, omega (arith, zeros))

-- A huge frame that is allocated in whole.
pub record IsFullField (e : HugeEntry) (b : Bitfield) : Type 0 where
  pub field : IsField e b
  pub taken : (j : ℕ) → j < 512 → taken_in e b j ≡ 1

huge-IsFullField : (b : Bitfield) → length b ≡ 8 → IsFullField new_huge (fill false b)
huge-IsFullField b size =
    let (ws, len, zeros) = fill-false b in
    record {
      field = record {
        size = len ∙ size;
        words = ws;
        agrees = inl (refl, omega (arith, zeros, size));
      };
      taken = λ j lt. refl;
    }

small-IsFullField : (b : Bitfield) → length b ≡ 8 → IsFullField (new_free 0) (fill true b)
small-IsFullField b size =
    let (ws, len, zeros) = fill-true b in
    record {
      field = record { size = len ∙ size; words = ws; agrees = inr (sym zeros) };
      taken = λ j lt. all_one (fill true b) (len ∙ size) zeros j lt;
    }

module _ (l : Lower) (cut : IsCut l) (ts : List Table) (bs : List Bitfield)
    (tr : TablesReserved 0 l.len l.children ts)
    (fr : FieldsReserved (l.len / 512) l.bitfields bs) where
  l' : Lower
  l' = record l { bitfields = bs; children = ts }

  entry-eq : (h : ℕ) → h < length l.children * 8 → entry_at l' h ≡ reserved_entry l.len h
  unfolding l'
  entry-eq h lt = tr.entries h lt ∙ ap (reserved_entry l.len) (omega arith)

  field-IsFull : (h : ℕ) → h < length l.bitfields → IsFullField (entry_at l' h) (field_at l' h)
  unfolding l'
  field-IsFull h lt = elim (dec_lt h (l.len / 512)) [
    | yes whole ↦
        rw (entry-eq h in_tables, lt→ltb h (l.len / 512) whole, fr.full h whole)
          (huge-IsFullField (get_or l.bitfields h []) (cut.fields.sizes h lt))
    | no last ↦
        rw (entry-eq h in_tables, ge→ltb h (l.len / 512) (omega arith), fr.rest h (omega arith) lt)
          (small-IsFullField (get_or l.bitfields h []) (cut.fields.sizes h lt))
  ]
    where
      in_tables : h < length l.children * 8
      in_tables = omega (arith, cut.tables, cut.bitfields)

  full_frame : (f : ℕ) → f < length l.bitfields * 512 → taken l' f ≡ 1
  unfolding taken
  full_frame f lt = (field-IsFull (f / 512) (omega arith)).taken (f % 512) (omega arith)

  reserved : Fresh true l l'
  unfolding l'
  reserved = record {
    valid = record {
      tables = λ t lt. tr.sizes t (omega (arith, tr.same_count));
      covered = omega (arith, fr.same_length, tr.same_count, cut.tables, cut.bitfields);
      fields = λ h lt. (field-IsFull h (omega (arith, fr.same_length))).field;
      beyond = λ h ge. beyond h (omega (arith, fr.same_length)) (dec_lt h (length l.children * 8));
    };
    same_range = refl;
    same_length = fr.same_length;
    inside = λ f lt. full_frame f (omega (arith, cut.bitfields));
    behind = λ f ge lt. full_frame f lt;
  }
    where
      beyond :
          (h : ℕ)
          → length l.bitfields ≤ h
          → Dec (h < length l.children * 8)
          → (entry_at l' h).count ≡ 0
      beyond h ge (yes lt) =
          rw (entry-eq h lt, ge→ltb h (l.len / 512) (omega (arith, cut.bitfields))) refl
      beyond h ge (no past) =
          ap (λ (t : Table). (get_or t (h % 8) new).count)
            (get_or-beyond ts (h / 8) [] (omega (arith, tr.same_count)))

-- Whatever the metadata held, `reserve_all` leaves a valid state in which every frame is allocated.
pub reserve_all-Fresh :
    (l : Lower) → IsCut l → (l' : Lower) × (reserve_all l ≡ returns l') × Fresh true l l'
unfolding reserve_all l'
reserve_all-Fresh l cut =
    let (ts, r, tr) =
      reserve_tables-Reserved 0 l.len l.children (omega (arith, cut.tables, cut.some_frame))
        (omega (arith, cut.tables, cut.some_frame)) (omega (arith, cut.tables)) cut.table_sizes in
    let (bs, r', fr) =
      reserve_bitfields-Reserved (l.len / 512) l.bitfields (omega (arith, cut.bitfields)) in
    (l' l cut ts bs tr fr, bind-returns _ r ∙ bind-returns _ r', reserved l cut ts bs tr fr)
