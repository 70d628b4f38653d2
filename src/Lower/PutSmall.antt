-- ===== src/Lower/PutSmall.antt =====
-- `put_small` of core/src/lower.rs: frees within one huge frame.
use mathlib.Core.Path.{subst, ap₂}
use llfree_rs.Base.{
  ℕ, refl, ◌+◌, ◌*◌, ◌/◌, ◌%◌, ◌^◌, ◌≤◌, ◌<◌, ◌≡◌, ap, sym, ◌∙◌, ◌⊎◌, inl, inr, Bool, true, false,
  some, [], length, Run, returns, index-get_or, bind-returns, ok, err, ◌==◌, arith,
}
use llfree_rs.Types.{Res, address}
use llfree_rs.Atomic.{fetch_update, fetch_update-some}
use llfree_rs.Bitfield.{Bitfield}
use llfree_rs.Bitfield.Bits.{Flips, bit_at, count_zeros-Flips}
use llfree_rs.Bitfield.Toggle.Entries.{toggle-Toggled}
use llfree_rs.Lower.{put_small}
use llfree_rs.Lower.Entry.{HugeEntry, inc, u16_max}
use llfree_rs.Lower.Entry
use llfree_rs.Lower.Types.{Lower, child_index, load_entry, store_entry, store_bitfield}
use llfree_rs.Lower.Frames.{
  IsValid, IsField, Changes, entry_at, field_at, taken, with_field, with_field-Changes,
  entry_at-with_self,
}
use llfree_rs.Lower.Blocks.{taken-at, block_in_huge}
use llfree_rs.Lower.Access.{
  InTable, valid-InTable, load_entry-eq, store_entry-store_bitfield, store_bitfield-same,
}
use llfree_rs.Lower.Counts.{count_zeros-le, inc-eq, huge-false}
use llfree_rs.Lower.Fields.{ones-le, count-Agrees, small_taken, flips-IsField, flips-FieldChanges}

abbrev pub AllTaken : ℕ → ℕ → Lower → Type 0
AllTaken frame n l = (j : ℕ) → j < n → taken l (frame + j) ≡ 1

-- The entries of the huge frames of the block are marked as allocated in whole.
abbrev pub Marked : ℕ → ℕ → Lower → Type 0
Marked frame n l =
    (h : ℕ) → frame ≤ h * 512 → h * 512 + 512 ≤ frame + n → (entry_at l h).count ≡ u16_max

-- A free of the block, which says whether its huge frame is free in whole now, or a refusal that
-- changes nothing.
abbrev pub Puts : ℕ → ℕ → Lower → Run (Res Bool × Lower) → Type 0
Puts frame order l out =
    ((fr : Bool) × (l' : Lower) × (out ≡ returns (ok fr, l'))
      × Changes frame (2 ^ order) false l l'
      × (fr ≡ (Entry.free (entry_at l' (frame / 512)) == 512)))
    ⊎ ((out ≡ returns (err address, l))
        × ((order < 9 → ¬ AllTaken frame (2 ^ order) l)
            × (9 ≤ order → ¬ Marked frame (2 ^ order) l)))

module _ (frame order : ℕ) (l : Lower) (v : IsValid l) (o_lt : order < 9)
    (aligned : frame % 2 ^ order ≡ 0) (inside : frame / 512 < length l.bitfields) where
  abbrev h : ℕ
  h = frame / 512

  f : IsField (entry_at l h) (field_at l h)
  f = v.fields h inside

  in_table : InTable h l
  in_table = valid-InTable h l v (omega (arith, v.covered))

  table : h / 8 ≡ frame / 4096
  table = omega arith

  load : load_entry (frame / 4096) (child_index frame) l ≡ returns (entry_at l h)
  load = ap (λ (t : ℕ). load_entry t (h % 8) l) (sym table) ∙ load_entry-eq h l in_table

  abbrev off : ℕ
  off = frame % 512

  place : h * 512 + off ≡ frame
  place = omega arith

  block : (off % 2 ^ order ≡ 0) × (off + 2 ^ order ≤ 512)
  block = block_in_huge order frame (omega arith) aligned

  bits :
      (entry_at l h).count ≤ 512
      → AllTaken frame (2 ^ order) l
      → (j : ℕ) → j < 2 ^ order
      → bit_at (field_at l h) (off + j) ≡ 1
  bits small all j lt =
      let at : frame + j ≡ h * 512 + (off + j) = omega arith in
      sym (small_taken (entry_at l h) (field_at l h) f (off + j) small)
      ∙ sym (taken-at l h (off + j) (omega (arith, block.1)))
      ∙ ap (taken l) (sym at)
      ∙ all j lt

  -- Where the counter leaves no room, some frame is free.
  pub room :
      (entry_at l h).count ≤ 512
      → AllTaken frame (2 ^ order) l
      → (entry_at l h).count + 2 ^ order ≤ 512
  room small all = omega (
    arith,
    count-Agrees (entry_at l h) (field_at l h) f.agrees small,
    ones-le off (2 ^ order) (field_at l h) f.size block.1 (bits small all),
  )

  pub put_small-Puts : (entry_at l h).count ≤ 512 → Puts frame order l (put_small frame order l)
  unfolding put_small
  put_small-Puts small =
      elim (toggle-Toggled off order true (field_at l h) block.0 (omega (arith, block.1, f.size))
        f.words) [
          | inr (er, r, differs) ↦ inr (
            bind-returns _ (index-get_or [] l.bitfields h inside)
                ∙ bind-returns _ r
                ∙ ap (λ (x : Lower). returns (err address, x)) (store_bitfield-same h l),
            (λ _ all. differs (bits small all), λ ge. absurd (omega arith)),
          )
          | inl (b', r, flips) ↦ inl (
            Entry.free (entry_at l h) + 2 ^ order == 512,
            with_field h (more b') b' l,
            bind-returns _ (index-get_or [] l.bitfields h inside)
                ∙ bind-returns _ r
                ∙ bind-returns _ load
                ∙ rw (gives b' flips) (bind-returns _ (store b' flips)),
            changes b' flips,
            says b' flips,
          )
        ]
    where
      more : Bitfield → HugeEntry
      more b' = record { count = (entry_at l h).count + 2 ^ order }

      counts :
          (b' : Bitfield)
          → Flips off (2 ^ order) false (field_at l h) b'
          → (entry_at l h).count + 2 ^ order ≤ 512
      counts b' flips = omega (
        arith,
        count-Agrees (entry_at l h) (field_at l h) f.agrees small,
        count_zeros-le b' (flips.same_length ∙ f.size),
        count_zeros-Flips off (2 ^ order) false (field_at l h) b' (omega (arith, block.1, f.size))
            flips,
      )

      gives :
          (b' : Bitfield)
          → Flips off (2 ^ order) false (field_at l h) b'
          → inc 512 (2 ^ order) (entry_at l h) ≡ some (more b')
      gives b' flips = inc-eq (2 ^ order) (entry_at l h) (counts b' flips)

      store :
          (b' : Bitfield)
          → Flips off (2 ^ order) false (field_at l h) b'
          → store_entry
              (frame / 4096)
              (child_index frame)
              (fetch_update (inc 512 (2 ^ order)) (entry_at l h)).1
              (store_bitfield h b' l)
            ≡ returns (with_field h (more b') b' l)
      store b' flips =
          ap₂ (λ (t : ℕ) (x : HugeEntry). store_entry t (h % 8) x (store_bitfield h b' l))
            (sym table)
            (ap (λ u. u.1)
              (fetch_update-some (inc 512 (2 ^ order)) (entry_at l h) (more b') (gives b' flips)))
          ∙ store_entry-store_bitfield h (more b') b' l in_table

      says :
          (b' : Bitfield)
          → Flips off (2 ^ order) false (field_at l h) b'
          → (Entry.free (entry_at l h) + 2 ^ order == 512)
            ≡ (Entry.free (entry_at (with_field h (more b') b' l) h) == 512)
      says b' flips =
          rw
            (
              huge-false (entry_at l h) small,
              entry_at-with_self l v h (more b') b' in_table.0,
              huge-false (more b') (counts b' flips),
            )
            refl

      changes :
          (b' : Bitfield)
          → Flips off (2 ^ order) false (field_at l h) b'
          → Changes frame (2 ^ order) false l (with_field h (more b') b' l)
      changes b' flips =
          let total : (more b').count + 2 ^ order * 0 ≡ (entry_at l h).count + 2 ^ order * 1 =
            omega arith in
          subst (λ (x : ℕ). Changes x (2 ^ order) false l (with_field h (more b') b' l)) place
            (with_field-Changes l v h off (2 ^ order) false (more b') b' inside block.1
              (omega arith)
              (flips-IsField (entry_at l h) (field_at l h) f off (2 ^ order) (more b').count false
                b' small block.1 flips total)
              (flips-FieldChanges (entry_at l h) (field_at l h) f off (2 ^ order) (more b').count
                false b' small block.1 flips total))
