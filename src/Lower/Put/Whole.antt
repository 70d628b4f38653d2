-- ===== src/Lower/Put/Whole.antt =====
-- `put` of core/src/lower.rs: whole huge frames, pairs, and all orders.
use native.Mathlib.Nat.{one-le-pow}
use native.Mathlib.Decide.{ℕ_discrete, dec_le}
use mathlib.Core.Logic.{◌≢◌}
use mathlib.Core.Path.{subst}
use llfree_rs.Base.{
  ge→ltb, ℕ, suc, ◌+◌, ◌-◌, ◌*◌, ◌/◌, ◌%◌, ◌^◌, ◌≤◌, ◌<◌, ◌≡◌, refl, ap, sym, ◌∙◌, inl, inr, Bool,
  true, false, length, leb, le→leb, gt→leb, Run, returns, ◌>>=◌, bind-returns, checked_sub, ok, err,
  ◌==◌, ==_iff, ne→false, if◌then◌else◌, arith,
}
use llfree_rs.Types.{Res, Flags, address}
use llfree_rs.Lower.{put, put_small, put_huge, put_max, partial_put_huge, whole}
use llfree_rs.Lower.Entry.{HugeEntry, HugePair, u16_max, new_free, new_huge, pair, huge, same_pair}
use llfree_rs.Lower.Entry
use llfree_rs.Lower.Types.{Lower, child_index, load_entry, store_entry, load_pair}
use llfree_rs.Lower.Frames.{
  IsValid, IsField, Changes, entry_at, field_at, with_field, with_field-Changes, entry_at-with_self,
  taken,
}
use llfree_rs.Lower.Blocks.{block_in_huge}
use llfree_rs.Lower.Access.{load_frame-eq, InTable, valid-InTable, load_entry-eq, store_entry-eq}
use llfree_rs.Lower.Fields.{count-small, unmark-IsField, unmark-FieldChanges}
use llfree_rs.Lower.Counts.{huge-true, huge-false}
use llfree_rs.Lower.PutSmall.{room, Puts, put_small-Puts}
use llfree_rs.Lower.Query.Totals.{free-whole}
use llfree_rs.Lower.Put.{partial_put_huge-Puts}
use llfree_rs.Lower.GetMax.{first, stored_pair, load_pair-eq, store_pair-eq, pair-Changes}

module _ (frame : ℕ) (l : Lower) (v : IsValid l) where
  module _ (aligned : frame % 512 ≡ 0) (inside : frame / 512 < length l.bitfields) where
    abbrev h : ℕ
    h = frame / 512

    f : IsField (entry_at l h) (field_at l h)
    f = v.fields h inside

    in_table : InTable h l
    in_table = valid-InTable h l v (omega (arith, v.covered))

    table : h / 8 ≡ frame / 4096
    table = omega arith

    load : load_entry (frame / 4096) (child_index frame) l ≡ returns (entry_at l h)
    load = ap (λ (t : ℕ). load_entry t (h % 8) l) (sym table) ∙ load_entry-eq h l in_table

    store :
        store_entry (frame / 4096) (child_index frame) (new_free 512) l
        ≡ returns (with_field h (new_free 512) (field_at l h) l)
    store =
        ap (λ (t : ℕ). store_entry t (h % 8) (new_free 512) l) (sym table)
        ∙ store_entry-eq h (new_free 512) l in_table

    put_huge-Puts : Puts frame 9 l (put_huge frame l)
    unfolding put_huge
    put_huge-Puts = elim (ℕ_discrete (entry_at l h).count u16_max) [
      | yes marked ↦
          let at : h * 512 + 0 ≡ frame = omega (arith, aligned) in
          inl (
            true,
            with_field h (new_free 512) (field_at l h) l,
            bind-returns _ load
                ∙ rw ((==_iff (entry_at l h).count u16_max).1 marked) (bind-returns _ store),
            subst (λ (x : ℕ). Changes x 512 false l (with_field h (new_free 512) (field_at l h) l))
                at
                (with_field-Changes l v h 0 512 false (new_free 512) (field_at l h) inside
                  (omega arith) (omega arith)
                  (unmark-IsField (entry_at l h) (field_at l h) f marked)
                  (unmark-FieldChanges (entry_at l h) (field_at l h) f marked)),
            rw (entry_at-with_self l v h (new_free 512) (field_at l h) in_table.0) refl,
          )
      | no ne ↦ inr (
        bind-returns _ load ∙ rw (ne→false (entry_at l h).count u16_max ne) refl,
        (
          λ small. absurd (omega arith),
          λ _ marked. ne (marked h (omega (arith, aligned)) (omega (arith, aligned))),
        ),
      )
    ]

  module _ (aligned : frame % 1024 ≡ 0) (inside : frame + 1024 ≤ length l.bitfields * 512) where
    abbrev t : ℕ
    t = frame / 4096

    abbrev i : ℕ
    i = child_index frame / 2

    lt : t < length l.children
    lt = omega (arith, v.covered)

    small : i < 4
    small = omega arith

    abbrev one : ℕ
    one = first l v t i lt small

    at : one * 512 ≡ frame
    at = omega (arith, aligned)

    load_both : load_pair t i l ≡ returns (pair (entry_at l one) (entry_at l (suc one)))
    load_both = load_pair-eq l v t i lt small

    abbrev freed : Lower
    freed = stored_pair l v t i lt small (new_free 512) (new_free 512)

    first_refuses : (entry_at l one).count ≢ u16_max → put_max frame l ≡ returns (err address, l)
    unfolding put_max
    first_refuses ne =
        bind-returns _ load_both ∙ rw (ne→false (entry_at l one).count u16_max ne) refl

    second_refuses :
        (entry_at l one).count ≡ u16_max
        → (entry_at l (suc one)).count ≢ u16_max
        → put_max frame l ≡ returns (err address, l)
    unfolding put_max
    second_refuses p ne =
        bind-returns _ load_both
        ∙ rw
            (
              (==_iff (entry_at l one).count u16_max).1 p,
              ne→false (entry_at l (suc one)).count u16_max ne,
            )
            refl

    frees :
        (entry_at l one).count ≡ u16_max
        → (entry_at l (suc one)).count ≡ u16_max
        → put_max frame l ≡ returns (ok tt, freed)
    unfolding put_max
    frees p q =
        bind-returns _ load_both
        ∙ rw
            (
              (==_iff (entry_at l one).count u16_max).1 p,
              (==_iff (entry_at l (suc one)).count u16_max).1 q,
            )
            (bind-returns _ (store_pair-eq l v t i lt small (new_free 512) (new_free 512)))

    first_free :
        Changes frame 1024 false l freed → true ≡ (Entry.free (entry_at freed (frame / 512)) == 512)
    first_free c =
        let here : frame / 512 * 512 ≡ frame = omega (arith, aligned) in
        let count : Entry.free (entry_at freed (frame / 512)) ≡ 512 =
          free-whole freed (frame / 512)
            (c.valid.fields (frame / 512) (omega (arith, c.same_length)))
            (λ j lt. ap (λ (x : ℕ). taken freed (x + j)) here ∙ c.after j (omega arith)) in
        sym ((==_iff (Entry.free (entry_at freed (frame / 512))) 512).1 count)

    put_max-Puts : Puts frame 10 l (put_max frame l >>= λ r. returns (whole r))
    put_max-Puts = elim (ℕ_discrete (entry_at l one).count u16_max) [
      | no ne ↦ inr (
        bind-returns _ (first_refuses ne),
        (
          λ o_lt. absurd (omega arith),
          λ _ marked. ne (marked one (omega (arith, at)) (omega (arith, at))),
        ),
      )
      | yes p ↦ elim (ℕ_discrete (entry_at l (suc one)).count u16_max) [
        | no ne ↦ inr (
          bind-returns _ (second_refuses p ne),
          (
            λ o_lt. absurd (omega arith),
            λ _ marked. ne (marked (suc one) (omega (arith, at)) (omega (arith, at))),
          ),
        )
        | yes q ↦
            let in_one : one < length l.bitfields = omega (arith, at) in
            let in_other : suc one < length l.bitfields = omega (arith, at) in
            let f = v.fields one in_one in
            let f' = v.fields (suc one) in_other in
            let c : Changes frame 1024 false l freed =
              subst (λ (x : ℕ). Changes x 1024 false l freed) at
                (pair-Changes l v t i lt small (new_free 512) (new_free 512) false in_other
                  (unmark-IsField (entry_at l one) (field_at l one) f p)
                  (unmark-IsField (entry_at l (suc one)) (field_at l (suc one)) f' q)
                  (unmark-FieldChanges (entry_at l one) (field_at l one) f p)
                  (unmark-FieldChanges (entry_at l (suc one)) (field_at l (suc one)) f' q)) in
            inl (true, freed, bind-returns _ (frees p q), c, first_free c)
      ]
    ]

-- In a valid state, a free of an aligned block of 2 ^ order frames below the end of the bitfields,
-- for an order up to 10, either turns exactly these frames from allocated to free, leaves a valid
-- state and says whether the first huge frame of the block is free in whole now, or reports a wrong
-- address and changes nothing. The second happens, for orders below 9, only where some frame of the
-- block is free already, and for orders 9 and 10 only where some huge frame of the block is not
-- marked as allocated in whole. It never panics, also where an allocated huge frame has to be
-- split.
pub put-Puts :
    (frame : ℕ) (flags : Flags) (l : Lower)
    → IsValid l
    → flags.order ≤ 10
    → frame % 2 ^ flags.order ≡ 0
    → frame + 2 ^ flags.order ≤ length l.bitfields * 512
    → Puts frame flags.order l (put frame flags l)
unfolding put
put-Puts frame flags l v le aligned inside =
    by_order (ℕ_discrete flags.order 10) (ℕ_discrete flags.order 9)
  where
    small_put : Lower → HugeEntry → Run (Res Bool × Lower)
    small_put m old =
        if huge old
        then partial_put_huge old frame flags.order m
        else (checked_sub 512 (2 ^ flags.order) >>= λ most.
            if leb (Entry.free old) most
            then put_small frame flags.order m
            else returns (err address, m))

    within : frame / 512 < length l.bitfields
    within = omega (arith, inside, one-le-pow flags.order 2)

    room_left : flags.order < 9 → 2 ^ flags.order ≤ 512
    room_left o_lt = omega (arith, (block_in_huge flags.order frame (omega arith) aligned).1)

    small_order :
        flags.order < 9
        → Puts frame flags.order l (load_entry (frame / 4096) (child_index frame) l >>= small_put l)
    small_order o_lt =
        let e = entry_at l (frame / 512) in
        let load = load_frame-eq frame l v within in
        elim (count-small e (field_at l (frame / 512)) (v.fields (frame / 512) within)) [
          | inl marked ↦
              let run : (load_entry (frame / 4096) (child_index frame) l >>= small_put l)
                  ≡ partial_put_huge e frame flags.order l =
                bind-returns (small_put l) load ∙ rw (huge-true e marked) refl in
              subst (Puts frame flags.order l) (sym run)
                (partial_put_huge-Puts frame flags.order l v o_lt aligned within marked)
          | inr small ↦
              let run : (load_entry (frame / 4096) (child_index frame) l >>= small_put l) ≡ (
                  if leb e.count (512 - 2 ^ flags.order)
                  then put_small frame flags.order l
                  else returns (err address, l)) =
                bind-returns (small_put l) load
                ∙ rw (huge-false e small, ge→ltb 512 (2 ^ flags.order) (room_left o_lt)) refl in
              elim (dec_le e.count (512 - 2 ^ flags.order)) [
                | yes fits ↦
                    subst (Puts frame flags.order l)
                      (sym (run ∙ rw (le→leb e.count (512 - 2 ^ flags.order) fits) refl))
                      (put_small-Puts frame flags.order l v o_lt aligned within small)
                | no full ↦ inr (
                  run ∙ rw (gt→leb e.count (512 - 2 ^ flags.order) (omega arith)) refl,
                  (
                    λ _ all.
                        full
                          (omega (arith, room frame flags.order l v o_lt aligned within small all)),
                    λ ge. absurd (omega arith),
                  ),
                )
              ]
        ]

    by_order :
        Dec (flags.order ≡ 10)
        → Dec (flags.order ≡ 9)
        → Puts frame flags.order l (
            if flags.order == 10
            then put_max frame l >>= (λ r. returns (whole r))
            else if flags.order == 9
            then put_huge frame l
            else load_entry (frame / 4096) (child_index frame) l >>= small_put l)
    by_order (yes ten) _ = rw ((==_iff flags.order 10).1 ten) (
        subst (λ o. Puts frame o l (put_max frame l >>= (λ r. returns (whole r)))) (sym ten)
          (put_max-Puts frame l v (ap (λ (o : ℕ). frame % 2 ^ o) (sym ten) ∙ aligned)
            (omega (arith, inside, ap (λ (o : ℕ). 2 ^ o) ten))))
    by_order (no not_ten) (yes nine) =
        rw (ne→false flags.order 10 not_ten, (==_iff flags.order 9).1 nine)
          (subst (λ o. Puts frame o l (put_huge frame l)) (sym nine)
            (put_huge-Puts frame l v (ap (λ (o : ℕ). frame % 2 ^ o) (sym nine) ∙ aligned)
              (omega (arith, inside, ap (λ (o : ℕ). 2 ^ o) nine))))
    by_order (no not_ten) (no not_nine) =
        rw (ne→false flags.order 10 not_ten, ne→false flags.order 9 not_nine)
          (small_order (omega (arith, not_ten, not_nine)))
