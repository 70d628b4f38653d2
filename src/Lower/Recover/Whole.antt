-- ===== src/Lower/Recover/Whole.antt =====
-- `recover` of core/src/lower.rs as a whole.
use native.Mathlib.Decide.{dec_lt, ℕ_discrete}
use mathlib.Core.Path.{subst, ap₂}
use llfree_rs.Base.{
  ℕ, ◌+◌, ◌*◌, ◌/◌, ◌%◌, ◌≤◌, ◌<◌, ◌≡◌, refl, ap, sym, ◌∙◌, List, [], length, get_or, get_or-beyond,
  returns, bind-returns, arith, Bool, ne→false, if◌then◌else◌,
}
use llfree_rs.Bitfield.{Bitfield}
use llfree_rs.Bitfield.Bits.{IsWords, bit_at}
use llfree_rs.Lower.Entry.{HugeEntry, new, u16_max}
use llfree_rs.Lower.Types.{Lower, Table}
use llfree_rs.Lower.Frames.{IsValid, entry_at, field_at, taken, taken_in}
use llfree_rs.Lower.Counts.{huge-true, huge-false, count_zeros-le}
use llfree_rs.Lower.Recover.{Recovered, recover_entry-Recovered}
use llfree_rs.Lower.Setup.{recover_entry, recover_all}
use llfree_rs.Lower.Recover.Tables.{TablesRecovered, recover_tables-Recovered}

-- The metadata has eight entries in each table, eight words in each bitfield, and a bitfield for
-- each entry; nothing is said of what they hold.
pub record IsShaped (l : Lower) : Type 0 where
  pub tables : (t : ℕ) → t < length l.children → length (get_or l.children t []) ≡ 8
  pub covered : length l.bitfields ≡ length l.children * 8
  pub sizes : (h : ℕ) → h < length l.bitfields → length (field_at l h) ≡ 8
  pub words : (h : ℕ) → h < length l.bitfields → IsWords (field_at l h)

-- The repaired state, which has the frames of `l`.
pub record Recovers (l l' : Lower) : Type 0 where
  pub valid : IsValid l'
  pub same_range : l'.len ≡ l.len
  pub same_length : length l'.bitfields ≡ length l.bitfields
  pub frames : (f : ℕ) → taken l' f ≡ taken l f

Recovered-taken :
    (e : HugeEntry) (b : Bitfield) (r : HugeEntry × Bitfield)
    → length b ≡ 8
    → Recovered e b r
    → (j : ℕ) → taken_in r.0 r.1 j ≡ taken_in e b j
Recovered-taken e b r size rec j = elim (ℕ_discrete e.count u16_max) [
  | yes marked ↦
      let same : r.0 ≡ e = rec.keeps_huge marked in
      ap (λ (x : HugeEntry). taken_in x r.1 j) same
      ∙ ap (λ (c : Bool). if c then 1 else bit_at r.1 j) (huge-true e marked)
      ∙ ap (λ (c : Bool). if c then 1 else bit_at b j) (sym (huge-true e marked))
  | no small ↦
      ap (λ (c : Bool). if c then 1 else bit_at r.1 j)
        (huge-false r.0 (omega (arith, rec.counts small, count_zeros-le b size)))
      ∙ ap (λ (x : Bitfield). bit_at x j) (rec.keeps_bits small)
      ∙ ap (λ (c : Bool). if c then 1 else bit_at b j) (sym (ne→false e.count u16_max small))
]

module _ (l : Lower) (s : IsShaped l) (ts : List Table) (bs : List Bitfield)
    (r : TablesRecovered 0 l.children l.bitfields ts bs) where
  l' : Lower
  l' = record l { bitfields = bs; children = ts }

  at_eq :
      (h : ℕ)
      → h < length l.bitfields
      → (entry_at l' h, field_at l' h) ≡ recover_entry (entry_at l h) (field_at l h)
  unfolding l'
  at_eq h lt =
      let shift : 0 * 8 + h ≡ h = omega arith in
      rw shift at (r.entries h (omega (arith, s.covered)))

  repaired :
      (h : ℕ)
      → h < length l.bitfields
      → Recovered (entry_at l h) (field_at l h) (entry_at l' h, field_at l' h)
  unfolding l'
  repaired h lt =
      subst (Recovered (entry_at l h) (field_at l h)) (sym (at_eq h lt))
        (recover_entry-Recovered (entry_at l h) (field_at l h) (s.sizes h lt) (s.words h lt))

  unchanged_beyond :
      (h : ℕ)
      → length l.bitfields ≤ h
      → (entry_at l' h ≡ entry_at l h) × (field_at l' h ≡ field_at l h)
  unfolding l'
  unchanged_beyond h ge = (
    ap (λ (t : Table). get_or t (h % 8) new)
          (get_or-beyond ts (h / 8) [] (omega (arith, r.same_count, s.covered)))
        ∙ sym (
            ap (λ (t : Table). get_or t (h % 8) new)
              (get_or-beyond l.children (h / 8) [] (omega (arith, s.covered)))),
    get_or-beyond bs h [] (omega (arith, r.same_length)) ∙ sym (get_or-beyond l.bitfields h [] ge),
  )

  recovered : Recovers l l'
  unfolding l' taken
  recovered = record {
    valid = record {
      tables = λ t lt. r.sizes t (omega (arith, r.same_count));
      covered = omega (arith, r.same_length, r.same_count, s.covered);
      fields = λ h lt. (repaired h (omega (arith, r.same_length))).field;
      beyond = λ h ge. beyond h (omega (arith, r.same_length));
    };
    same_range = refl;
    same_length = r.same_length;
    frames = λ f. frames f (dec_lt (f / 512) (length l.bitfields));
  }
    where
      beyond : (h : ℕ) → length l.bitfields ≤ h → (entry_at l' h).count ≡ 0
      beyond h ge =
          ap (λ (t : Table). (get_or t (h % 8) new).count)
            (get_or-beyond ts (h / 8) [] (omega (arith, r.same_count, s.covered)))

      frames :
          (f : ℕ)
          → Dec (f / 512 < length l.bitfields)
          → taken_in (entry_at l' (f / 512)) (field_at l' (f / 512)) (f % 512)
            ≡ taken_in (entry_at l (f / 512)) (field_at l (f / 512)) (f % 512)
      frames f (yes lt) =
          Recovered-taken (entry_at l (f / 512)) (field_at l (f / 512))
            (entry_at l' (f / 512), field_at l' (f / 512)) (s.sizes (f / 512) lt)
            (repaired (f / 512) lt) (f % 512)
      frames f (no ge) =
          let (e, b) = unchanged_beyond (f / 512) (omega arith) in
          ap₂ (λ (x : HugeEntry) (y : Bitfield). taken_in x y (f % 512)) e b

-- Where each entry has a bitfield, `recover` repairs whatever a crash left in them: it panics
-- nowhere, every entry agrees with its bitfield afterwards, so that the state is valid, and every
-- frame is as free or as allocated as before.
pub recover_all-Recovers :
    (l : Lower) → IsShaped l → (l' : Lower) × (recover_all l ≡ returns l') × Recovers l l'
unfolding recover_all l'
recover_all-Recovers l s =
    let (ts, bs, run, r) =
      recover_tables-Recovered 0 l.children l.bitfields s.tables (omega (arith, s.covered)) in
    (l' l s ts bs r, bind-returns _ run, recovered l s ts bs r)
