-- ===== src/Lower/Setup/Free.antt =====
-- The state that `free_all` of core/src/lower.rs leaves.
use native.Mathlib.Decide.{dec_lt}
use mathlib.Core.Path.{subst₂}
use llfree_rs.Base.{
  ℕ, ◌-◌, ◌*◌, ◌/◌, ◌%◌, ◌≤◌, ◌<◌, ◌≡◌, refl, ap, sym, ◌∙◌, inr, Bool, false, min, List, [], length,
  get_or, get_or-beyond, returns, bind-returns, arith,
}
use llfree_rs.Util.{div_ceil}
use llfree_rs.Word.Bit.{bit_of}
use llfree_rs.Bitfield.{Bitfield, fill}
use llfree_rs.Lower.Entry.{HugeEntry, new, new_free}
use llfree_rs.Lower.Types.{Lower, Table}
use llfree_rs.Lower.Counts.{new_free-count}
use llfree_rs.Lower.Fields.{all_zero, small_taken}
use llfree_rs.Lower.Frames.{IsValid, IsField, entry_at, field_at, taken}
use llfree_rs.Lower.Recover.{fill-false}
use llfree_rs.Lower.Setup.{free_all_frames}
use llfree_rs.Lower.Setup.FreeTables.{free_entry, TablesFree, free_tables-Free}
use llfree_rs.Lower.Setup.FreeFields.{
  IsPartial, AreFields, FieldsFree, free_bitfields-Free, partial-count_zeros,
}

-- The metadata has tables and bitfields as `new` cuts them out of its buffer, for at least one
-- frame; nothing is said of what they hold.
pub record IsCut (l : Lower) : Type 0 where
  pub some_frame : 0 < l.len
  pub tables : length l.children ≡ div_ceil l.len 4096
  pub table_sizes : (t : ℕ) → t < length l.children → length (get_or l.children t []) ≡ 8
  pub bitfields : length l.bitfields ≡ div_ceil l.len 512
  pub fields : AreFields l.bitfields

-- The frames of the range are all allocated (`v` is `true`) or all free, and those of the last
-- bitfield behind the range are allocated, so that nobody gets them.
pub record Fresh (v : Bool) (l l' : Lower) : Type 0 where
  pub valid : IsValid l'
  pub same_range : l'.len ≡ l.len
  pub same_length : length l'.bitfields ≡ length l.bitfields
  pub inside : (f : ℕ) → f < l.len → taken l' f ≡ bit_of v
  pub behind : (f : ℕ) → l.len ≤ f → f < length l.bitfields * 512 → taken l' f ≡ 1

-- A huge frame of which the first frames are free.
pub record IsFreeField (free : ℕ) (e : HugeEntry) (b : Bitfield) : Type 0 where
  pub field : IsField e b
  pub small : e.count ≤ 512
  pub partial : IsPartial free b

free-IsFreeField : (b : Bitfield) → length b ≡ 8 → IsFreeField 512 (new_free 512) (fill false b)
free-IsFreeField b size =
    let (ws, len, zeros) = fill-false b in
    record {
      field = record { size = len ∙ size; words = ws; agrees = inr (omega (arith, zeros, size)) };
      small = omega arith;
      partial = record {
        size = len ∙ size;
        words = ws;
        free = λ j lt. all_zero (fill false b) (len ∙ size) (omega (arith, zeros, size)) j lt;
        taken = λ j ge lt. absurd (omega arith);
      };
    }

partial-IsFreeField :
    (free : ℕ) (b : Bitfield) → free ≤ 512 → IsPartial free b → IsFreeField free (new_free free) b
partial-IsFreeField free b le p = record {
  field = record {
    size = p.size;
    words = p.words;
    agrees = inr (new_free-count free le ∙ sym (partial-count_zeros free b le p));
  };
  small = omega (arith, new_free-count free le);
  partial = p;
}

module _ (l : Lower) (cut : IsCut l) (ts : List Table) (bs : List Bitfield)
    (tf : TablesFree 0 l.len l.children ts)
    (ff : FieldsFree (l.len / 512) (l.len - l.len / 512 * 512) l.bitfields bs) where
  l' : Lower
  l' = record l { bitfields = bs; children = ts }

  entry-eq : (h : ℕ) → h < length l.children * 8 → entry_at l' h ≡ free_entry l.len h
  unfolding l'
  entry-eq h lt = tf.entries h lt ∙ ap (free_entry l.len) (omega arith)

  field-IsFree :
      (h : ℕ)
      → h < length l.bitfields
      → IsFreeField (min (l.len - h * 512) 512) (entry_at l' h) (field_at l' h)
  unfolding l'
  field-IsFree h lt = elim (dec_lt h (l.len / 512)) [
    | yes whole ↦
        let all : min (l.len - h * 512) 512 ≡ 512 = omega arith in
        rw (entry-eq h in_tables, ff.full h whole, all)
          (free-IsFreeField (get_or l.bitfields h []) (cut.fields.sizes h lt))
    | no last ↦
        let at : l.len / 512 ≡ h = omega (arith, cut.bitfields) in
        let some_free : l.len - l.len / 512 * 512 ≡ min (l.len - h * 512) 512 = omega arith in
        rw (entry-eq h in_tables) (
          partial-IsFreeField (min (l.len - h * 512) 512) (get_or bs h []) (omega arith) (
            subst₂ (λ (n k : ℕ). IsPartial n (get_or bs k [])) some_free at
              (ff.partial (omega (arith, cut.bitfields)))))
  ]
    where
      in_tables : h < length l.children * 8
      in_tables = omega (arith, cut.tables, cut.bitfields)

  freed : Fresh false l l'
  unfolding l' taken
  freed = record {
    valid = record {
      tables = λ t lt. tf.sizes t (omega (arith, tf.same_count));
      covered = omega (arith, ff.same_length, tf.same_count, cut.tables, cut.bitfields);
      fields = λ h lt. (field-IsFree h (omega (arith, ff.same_length))).field;
      beyond = λ h ge. beyond h (omega (arith, ff.same_length)) (dec_lt h (length l.children * 8));
    };
    same_range = refl;
    same_length = ff.same_length;
    inside = λ f lt.
        let in_field : f / 512 < length l.bitfields = omega (arith, cut.bitfields) in
        let r = field-IsFree (f / 512) in_field in
        small_taken (entry_at l' (f / 512)) (field_at l' (f / 512)) r.field (f % 512) r.small
        ∙ r.partial.free (f % 512) (omega arith);
    behind = λ f ge lt.
        let in_field : f / 512 < length l.bitfields = omega arith in
        let r = field-IsFree (f / 512) in_field in
        small_taken (entry_at l' (f / 512)) (field_at l' (f / 512)) r.field (f % 512) r.small
        ∙ r.partial.taken (f % 512) (omega arith) (omega arith);
  }
    where
      beyond :
          (h : ℕ)
          → length l.bitfields ≤ h
          → Dec (h < length l.children * 8)
          → (entry_at l' h).count ≡ 0
      beyond h ge (yes lt) =
          let none : min (l.len - h * 512) 512 ≡ 0 = omega (arith, cut.bitfields) in
          ap (λ (e : HugeEntry). e.count) (entry-eq h lt) ∙ ap (λ (n : ℕ). (new_free n).count) none
      beyond h ge (no past) =
          ap (λ (t : Table). (get_or t (h % 8) new).count)
            (get_or-beyond ts (h / 8) [] (omega (arith, tf.same_count)))

-- Whatever the metadata held, `free_all` leaves a valid state in which exactly the frames of the
-- range are free.
pub free_all_frames-Fresh :
    (l : Lower) → IsCut l → (l' : Lower) × (free_all_frames l ≡ returns l') × Fresh false l l'
unfolding free_all_frames l'
free_all_frames-Fresh l cut =
    let (ts, r, tf) =
      free_tables-Free 0 l.len l.children (omega (arith, cut.tables, cut.some_frame))
        (omega (arith, cut.tables, cut.some_frame)) cut.table_sizes in
    let (bs, r', ff) =
      free_bitfields-Free (l.len / 512) (l.len - l.len / 512 * 512) l.bitfields
        (omega (arith, cut.bitfields)) (omega arith) cut.fields in
    (l' l cut ts bs tf ff, bind-returns _ r ∙ bind-returns _ r', freed l cut ts bs tf ff)
