-- ===== src/Lower/GetSmall.antt =====
-- `get_small` of core/src/lower.rs: allocations within one huge frame.
pub mod Loop
use native.Mathlib.Decide.{ℕ_discrete, dec_le, dec_lt}
use native.Mathlib.Nat.{one-le-pow, mod-add-div, mul-mod_left}
use mathlib.Core.Logic.{◌≢◌}
use mathlib.Core.Path.{subst, subst₂, ap₂}
use llfree_rs.Base.{
  ℕ, zero, suc, ◌+◌, ◌-◌, ◌*◌, ◌/◌, ◌%◌, ◌^◌, ◌≤◌, ◌<◌, ◌≡◌, refl, ap, sym, ◌∙◌, ◌⊎◌, inl, inr,
  Bool, true, false, Option, none, some, length, get_or, set, Run, returns, index, ◌>>=◌,
  bind-returns, ok, err, ◌==◌, if◌then◌else◌, arith,
}
use llfree_rs.Types.{Res, Error, memory}
use llfree_rs.Atomic.{fetch_update, fetch_update-some}
use llfree_rs.Word.Bit.{bit_of}
use llfree_rs.Word.Split.{two-pow-add}
use llfree_rs.Bitfield.{Bitfield, len, count_zeros, set_first_zeros}
use llfree_rs.Bitfield.Bits.{IsWords, bit_at, Flips}
use llfree_rs.Bitfield.Search.{Found, IsFound, NoBlock}
use llfree_rs.Bitfield.Search.Entries.{set_first_zeros-Found}
use llfree_rs.Lower.{small_attempt, get_small_from, get_small}
use llfree_rs.Lower.Entry.{HugeEntry, u16_max, dec, inc}
use llfree_rs.Lower.Entry
use llfree_rs.Lower.Types.{Lower, load_entry, store_entry, store_bitfield, child_index}
use llfree_rs.Lower.Frames.{
  IsField, IsValid, Changes, FieldChanges, entry_at, field_at, taken_in, with_field,
  with_field-Changes, entry_at-with_self,
}
use llfree_rs.Lower.Blocks.{NoFree, Allocated}
use llfree_rs.Lower.Access.{
  InTable, valid-InTable, load_entry-eq, store_entry-eq, index_field-with_field,
  store_bitfield-with_field, field_at-with_self, with_field-with_field, with_field-same,
  with_field-InTable,
}
use llfree_rs.Lower.Counts.{dec-eq, dec-small, dec-huge, inc-eq}
use llfree_rs.Lower.Fields.{
  zeros-le, count-Agrees, count-small, huge_taken, small_taken, flips-IsField, flips-FieldChanges,
}

module _ (h bf_e order : ℕ) (l : Lower) (v : IsValid l) (in_table : InTable h l) (start : bf_e < 8)
    (o_lt : order < 9) where
  attempt_miss :
      dec (2 ^ order) (entry_at l h) ≡ none
      → small_attempt (h / 8) (h % 8) h bf_e order l ≡ returns (none, l)
  unfolding small_attempt
  attempt_miss r = bind-returns _ (load_entry-eq h l in_table) ∙ rw r refl

  module _ (c : HugeEntry) (r : dec (2 ^ order) (entry_at l h) ≡ some c)
      (lt : h < length l.bitfields) where
    stored :
        store_entry (h / 8) (h % 8) (fetch_update (dec (2 ^ order)) (entry_at l h)).1 l
        ≡ returns (with_field h c (field_at l h) l)
    stored =
        ap (λ (x : HugeEntry). store_entry (h / 8) (h % 8) x l)
          (ap (λ u. u.1) (fetch_update-some (dec (2 ^ order)) (entry_at l h) c r))
        ∙ store_entry-eq h c l in_table

    attempt_hit :
        (off : ℕ) (b' : Bitfield)
        → set_first_zeros bf_e order (field_at l h) ≡ returns (ok off, b')
        → small_attempt (h / 8) (h % 8) h bf_e order l
          ≡ returns (some (h * 512 + off, Entry.free (entry_at l h) == 512), with_field h c b' l)
    unfolding small_attempt
    attempt_hit off b' found =
        bind-returns _ (load_entry-eq h l in_table)
        ∙ rw r (
            bind-returns _ stored
            ∙ bind-returns _ (index_field-with_field h c (field_at l h) l lt)
            ∙ bind-returns _ found
            ∙ ap
                (λ (s : Lower). returns (some (h * 512 + off, Entry.free (entry_at l h) == 512), s))
                (store_bitfield-with_field h c (field_at l h) b' l))

    -- The counter is put back where the bitfield has no block.
    attempt_undo :
        inc 512 (2 ^ order) c ≡ some (entry_at l h)
        → set_first_zeros bf_e order (field_at l h) ≡ returns (err memory, field_at l h)
        → small_attempt (h / 8) (h % 8) h bf_e order l ≡ returns (none, l)
    unfolding small_attempt
    attempt_undo back none_found =
        bind-returns _ (load_entry-eq h l in_table)
        ∙ rw r (
            bind-returns _ stored
            ∙ bind-returns _ (index_field-with_field h c (field_at l h) l lt)
            ∙ bind-returns _ none_found
            ∙ bind-returns _ (
                load_entry-eq h l1 (with_field-InTable h c (field_at l h) l in_table)
                ∙ ap (λ (x : HugeEntry). returns x) here)
            ∙ rw back (bind-returns _ restored))
      where
        l1 : Lower
        l1 = with_field h c (field_at l h) l

        here : entry_at l1 h ≡ c
        here = entry_at-with_self l v h c (field_at l h) in_table.0

        restored :
            store_entry
              (h / 8)
              (h % 8)
              (fetch_update (inc 512 (2 ^ order)) c).1
              (store_bitfield h (field_at l h) l1)
            ≡ returns l
        restored =
            ap₂ (store_entry (h / 8) (h % 8))
              (ap (λ u. u.1) (fetch_update-some (inc 512 (2 ^ order)) c (entry_at l h) back))
              (store_bitfield-with_field h c (field_at l h) (field_at l h) l)
            ∙ store_entry-eq h (entry_at l h) l1 (with_field-InTable h c (field_at l h) l in_table)
            ∙ ap (λ (s : Lower). returns s)
                (ap (λ (x : Bitfield). with_field h (entry_at l h) x l1)
                    (field_at-with_self h c (field_at l h) l lt)
                  ∙ with_field-with_field h c (entry_at l h) (field_at l h) (field_at l h) l
                      in_table
                  ∙ with_field-same h l)

-- One attempt allocates in the huge frame, or finds no block there and changes nothing.
abbrev pub Attempted : ℕ → ℕ → ℕ → Lower → Type 0
Attempted h bf_e order l =
    ((frame : ℕ) × (fr : Bool) × (l' : Lower) × (small_attempt (h / 8) (h % 8) h bf_e order l
        ≡ returns (some (frame, fr), l'))
      × Allocated (h * 512) order frame l l'
      × (fr ≡ (Entry.free (entry_at l (frame / 512)) == 512)))
    ⊎ ((small_attempt (h / 8) (h % 8) h bf_e order l ≡ returns (none, l)) × NoFree order l h)

module _ (h bf_e order : ℕ) (l : Lower) (v : IsValid l) (in_table : InTable h l) (start : bf_e < 8)
    (o_lt : order < 9) where
  n_pos : 1 ≤ 2 ^ order
  n_pos = one-le-pow order 2 (omega arith)

  -- Behind the last bitfield no entry has a free frame.
  attempt_beyond : length l.bitfields ≤ h → Attempted h bf_e order l
  attempt_beyond ge =
      let empty = v.beyond h ge in
      inr (
        attempt_miss h bf_e order l v in_table start o_lt (
            dec-small (2 ^ order) (entry_at l h) (omega (arith, empty))
              (omega (arith, empty, n_pos))),
        λ inside. absurd (omega arith),
      )

  module _ (inside : h < length l.bitfields) where
    field : IsField (entry_at l h) (field_at l h)
    field = v.fields h inside

    attempt_huge : (entry_at l h).count ≡ u16_max → Attempted h bf_e order l
    attempt_huge marked = inr (
      attempt_miss h bf_e order l v in_table start o_lt
          (dec-huge (2 ^ order) (entry_at l h) marked),
      λ _ off _ _ zeros.
          let one : 1 ≡ 0 =
            sym (huge_taken (entry_at l h) (field_at l h) field (off + 0) marked) ∙ zeros 0 n_pos in
          absurd (omega arith),
    )

    module _ (small : (entry_at l h).count ≤ 512) where
      bits :
          (off : ℕ)
          → ((j : ℕ) → j < 2 ^ order → taken_in (entry_at l h) (field_at l h) (off + j) ≡ 0)
          → (j : ℕ) → j < 2 ^ order
          → bit_at (field_at l h) (off + j) ≡ 0
      bits off zeros j lt =
          sym (small_taken (entry_at l h) (field_at l h) field (off + j) small) ∙ zeros j lt

      attempt_full : (entry_at l h).count < 2 ^ order → Attempted h bf_e order l
      attempt_full full = inr (
        attempt_miss h bf_e order l v in_table start o_lt
            (dec-small (2 ^ order) (entry_at l h) small full),
        λ _ off _ fits zeros. absurd (
            omega (
              arith,
              count-Agrees (entry_at l h) (field_at l h) field.agrees small,
              zeros-le off (2 ^ order) (field_at l h) field.size fits (bits off zeros),
              full,
            )),
      )

      whole : 512 ≡ 2 ^ (9 - order) * 2 ^ order
      whole =
          let o : 9 ≡ 9 - order + order = omega arith in
          ap (λ (t : ℕ). 2 ^ t) o ∙ two-pow-add (9 - order) order

      in_parts : (order ≤ 6) ⊎ (length (field_at l h) % 2 ^ (order - 6) ≡ 0)
      in_parts = elim (dec_le order 6) [
        | yes le ↦ inl le
        | no gt ↦ inr (two_orders gt (ℕ_discrete order 7))
      ]
        where
          two_orders : ¬ (order ≤ 6) → Dec (order ≡ 7) → length (field_at l h) % 2 ^ (order - 6) ≡ 0
          two_orders gt (yes seven) =
              let e : order - 6 ≡ 1 = omega arith in
              ap (λ (t : ℕ). length (field_at l h) % 2 ^ t) e ∙ omega (arith, field.size)
          two_orders gt (no ne) =
              let e : order - 6 ≡ 2 = omega arith in
              ap (λ (t : ℕ). length (field_at l h) % 2 ^ t) e ∙ omega (arith, field.size)

      attempt_search : 2 ^ order ≤ (entry_at l h).count → Attempted h bf_e order l
      attempt_search enough =
          elim (set_first_zeros-Found bf_e order (field_at l h) in_parts field.words
            (omega (arith, field.size))) [
              | inl (off, b', found, at) ↦ inl (
                h * 512 + off,
                Entry.free (entry_at l h) == 512,
                with_field h c b' l,
                attempt_hit h bf_e order l v in_table start o_lt c takes inside off b' found,
                allocated off b' at,
                says off at,
              )
              | inr (r, no_block) ↦ inr (
                attempt_undo h bf_e order l v in_table start o_lt c takes inside gives r,
                λ _ off al fits zeros. no_block off al (omega (arith, field.size)) (bits off zeros),
              )
            ]
        where
          c : HugeEntry
          c = record { count = (entry_at l h).count - 2 ^ order }

          takes : dec (2 ^ order) (entry_at l h) ≡ some c
          takes = dec-eq (2 ^ order) (entry_at l h) small enough

          gives : inc 512 (2 ^ order) c ≡ some (entry_at l h)
          gives =
              let same_count : (entry_at l h).count - 2 ^ order + 2 ^ order ≡ (entry_at l h).count =
                omega arith in
              inc-eq (2 ^ order) c (omega arith)
              ∙ ap (λ (x : ℕ). some (record { count = x })) same_count

          says :
              {b' : Bitfield} (off : ℕ)
              → IsFound order off (field_at l h) b'
              → (Entry.free (entry_at l h) == 512)
                ≡ (Entry.free (entry_at l ((h * 512 + off) / 512)) == 512)
          says off at =
              let place : h ≡ (h * 512 + off) / 512 = omega (arith, at.within, field.size, n_pos) in
              ap (λ (x : ℕ). Entry.free (entry_at l x) == 512) place

          allocated :
              (off : ℕ) (b' : Bitfield)
              → IsFound order off (field_at l h) b'
              → Allocated (h * 512) order (h * 512 + off) l (with_field h c b' l)
          allocated off b' at =
              let fits : off + 2 ^ order ≤ 512 = omega (arith, at.within, field.size) in
              let parts : h * 512 + off ≡ (h * 2 ^ (9 - order) + off / 2 ^ order) * 2 ^ order =
                omega
                  (arith, mod-add-div off (2 ^ order), at.aligned, ap (λ (t : ℕ). h * t) whole) in
              let counts : c.count + 2 ^ order * 1 ≡ (entry_at l h).count + 2 ^ order * 0 =
                omega arith in
              record {
                in_tree = omega (arith, fits, n_pos);
                aligned =
                    ap (λ (t : ℕ). t % 2 ^ order) parts
                    ∙ mul-mod_left (h * 2 ^ (9 - order) + off / 2 ^ order) (2 ^ order);
                within = omega (arith, fits);
                changes =
                    with_field-Changes l v h off (2 ^ order) true c b' inside fits
                      (omega (arith, fits, n_pos))
                      (flips-IsField (entry_at l h) (field_at l h) field off (2 ^ order) c.count
                        true b' small fits at.flips counts)
                      (flips-FieldChanges (entry_at l h) (field_at l h) field off (2 ^ order)
                        c.count true b' small fits at.flips counts);
                marked = λ ge. absurd (omega arith);
              }

  pub small_attempt-Attempted : Attempted h bf_e order l
  small_attempt-Attempted = elim (dec_lt h (length l.bitfields)) [
    | no ge ↦ attempt_beyond (omega arith)
    | yes inside ↦ elim (count-small (entry_at l h) (field_at l h) (field inside)) [
      | inl marked ↦ attempt_huge inside marked
      | inr small ↦ elim (dec_le (2 ^ order) (entry_at l h).count) [
        | yes enough ↦ attempt_search inside small enough
        | no full ↦ attempt_full inside small (omega arith)
      ]
    ]
  ]
