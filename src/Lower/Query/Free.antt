-- ===== src/Lower/Query/Free.antt =====
-- `is_free` and `free_at` of core/src/lower.rs.
use native.Mathlib.Nat.{one-le-pow}
use native.Mathlib.Decide.{ℕ_discrete, dec_lt}
use mathlib.Core.Logic.{◌≢◌}
use mathlib.Core.Path.{subst}
use llfree_rs.Base.{
  ℕ, zero, suc, ◌+◌, ◌-◌, ◌*◌, ◌/◌, ◌%◌, ◌^◌, ◌≤◌, ◌<◌, ◌≡◌, refl, ap, sym, ◌∙◌, ◌⊎◌, inl, inr,
  Bool, true, false, [], length, index, index-get_or, ◌>>=◌, ◌==◌, ==_iff, ne→false, ltb, lt→ltb,
  ge→ltb, if◌then◌else◌, Run, returns, bind-returns, arith, ◌&&◌,
}
use llfree_rs.Word.Bit.{sum_below}
use llfree_rs.Word.Sums.{sum_below-ext}
use llfree_rs.Bitfield.{Bitfield, count_zeros}
use llfree_rs.Bitfield
use llfree_rs.Bitfield.Zero.{is_zero-Answers}
use llfree_rs.Lower.Entry.{HugeEntry, u16_max, free}
use llfree_rs.Lower.Types.{Lower, child_index}
use llfree_rs.Lower.Frames.{IsValid, IsField, entry_at, field_at, taken, taken_in}
use llfree_rs.Lower.Access.{load_frame-eq}
use llfree_rs.Lower.Blocks.{taken-at, block_in_huge}
use llfree_rs.Lower.Counts.{huge-true, huge-false}
use llfree_rs.Lower.Fields.{all_zero, zeros-le, count-Agrees, count-small, small_taken, huge_taken}
use llfree_rs.Lower.GetMax.{first, load_pair-eq, first-NoPair, second-NoPair}
use llfree_rs.Lower.Query.{is_free, free_at}
use llfree_rs.Lower.Query.Totals.{free-sum}

abbrev pub AllFree : ℕ → ℕ → Lower → Type 0
AllFree frame n l = (j : ℕ) → j < n → taken l (frame + j) ≡ 0

-- The answer, and what it says of the frames.
abbrev pub Tells : ℕ → ℕ → Lower → Run Bool → Type 0
Tells frame n l out =
    ((out ≡ returns true) × AllFree frame n l) ⊎ ((out ≡ returns false) × ¬ AllFree frame n l)

-- An entry with 512 free frames is no allocated huge frame.
pub full_count : (l : Lower) (h : ℕ) → free (entry_at l h) ≡ 512 → (entry_at l h).count ≡ 512
full_count l h full = elim (ℕ_discrete (entry_at l h).count u16_max) [
  | yes marked ↦
      let none : free (entry_at l h) ≡ 0 = rw (huge-true (entry_at l h) marked) refl in
      absurd (omega (arith, none, full))
  | no ne ↦
      let same : free (entry_at l h) ≡ (entry_at l h).count =
        rw (ne→false (entry_at l h).count u16_max ne) refl in
      sym same ∙ full
]

module _ (l : Lower) (v : IsValid l) where
  -- A huge frame whose entry counts 512 is free in whole.
  pub full_free :
      (h : ℕ)
      → h < length l.bitfields
      → (entry_at l h).count ≡ 512
      → (x : ℕ) → x < 512
      → taken l (h * 512 + x) ≡ 0
  full_free h inside full x lt =
      let f = v.fields h inside in
      taken-at l h x lt
      ∙ small_taken (entry_at l h) (field_at l h) f x (omega arith)
      ∙ all_zero (field_at l h) f.size
          (sym (count-Agrees (entry_at l h) (field_at l h) f.agrees (omega arith)) ∙ full) x lt

  module _ (frame order : ℕ) (aligned : frame % 2 ^ order ≡ 0) (le : order ≤ 9)
      (inside : frame / 512 < length l.bitfields) where
    h : ℕ
    h = frame / 512

    e : HugeEntry
    e = entry_at l h

    b : Bitfield
    b = field_at l h

    f : IsField e b
    unfolding e b h
    f = v.fields h inside

    off : ℕ
    off = frame % 512

    block : (off % 2 ^ order ≡ 0) × (off + 2 ^ order ≤ 512)
    unfolding off
    block = block_in_huge order frame le aligned

    some_frame : 1 ≤ 2 ^ order
    some_frame = one-le-pow order 2 (omega arith)

    in_field : (j : ℕ) → j < 2 ^ order → taken l (frame + j) ≡ taken_in e b (off + j)
    unfolding e b h off
    in_field j lt =
        let at : frame + j ≡ frame / 512 * 512 + (frame % 512 + j) = omega arith in
        ap (taken l) at ∙ taken-at l (frame / 512) (frame % 512 + j) (omega (arith, block.1))

    -- What `is_free` does once it has the entry.
    abbrev test : HugeEntry → Run Bool
    test x =
        if ltb (free x) (2 ^ order)
        then returns false
        else if free x == 512
        then returns true
        else (index l.bitfields (frame / 512) >>= λ c. Bitfield.is_zero (frame % 512) order c)

    few : free e < 2 ^ order → ¬ AllFree frame (2 ^ order) l
    few lt all = elim (count-small e b f) [
      | inl marked ↦
          let one : suc zero ≡ zero =
            sym (huge_taken e b f (off + 0) marked)
            ∙ sym (in_field 0 (omega (arith, some_frame)))
            ∙ all 0 (omega (arith, some_frame)) in
          omega (arith, one)
      | inr small ↦
          let enough : 2 ^ order ≤ _ = zeros-le off (2 ^ order) b f.size block.1 (λ j j_lt.
            sym (small_taken e b f (off + j) small) ∙ sym (in_field j j_lt) ∙ all j j_lt) in
          let same : free e ≡ e.count = rw (huge-false e small) refl in
          omega (arith, enough, same, count-Agrees e b f.agrees small)
    ]

    small_entry : 2 ^ order ≤ free e → (e.count ≤ 512) × (free e ≡ e.count)
    small_entry ge = elim (count-small e b f) [
      | inl marked ↦
          let none : free e ≡ 0 = rw (huge-true e marked) refl in
          absurd (omega (arith, none, some_frame))
      | inr small ↦ (small, rw (huge-false e small) refl)
    ]

    read :
        (index l.bitfields (frame / 512) >>= λ c. Bitfield.is_zero (frame % 512) order c)
        ≡ Bitfield.is_zero off order b
    unfolding off b h
    read = bind-returns _ (index-get_or [] l.bitfields (frame / 512) inside)

    test-Tells : Tells frame (2 ^ order) l (test e)
    test-Tells = elim (dec_lt (free e) (2 ^ order)) [
      | yes lt ↦ inr (rw (lt→ltb (free e) (2 ^ order) lt) refl, few lt)
      | no ge ↦
          let (small, same) = small_entry (omega arith) in
          elim (ℕ_discrete (free e) 512) [
            | yes full ↦ inl (
              rw (ge→ltb (free e) (2 ^ order) (omega arith), (==_iff (free e) 512).1 full) refl,
              λ j lt.
                  in_field j lt
                  ∙ small_taken e b f (off + j) small
                  ∙ all_zero b f.size (sym (count-Agrees e b f.agrees small) ∙ sym same ∙ full)
                      (off + j) (omega (arith, block.1)),
            )
            | no ne ↦
                let run : test e ≡ Bitfield.is_zero off order b =
                  rw (ge→ltb (free e) (2 ^ order) (omega arith), ne→false (free e) 512 ne) read in
                elim (is_zero-Answers off order b block.0 (omega (arith, block.1, f.size))
                  f.words) [
                    | inl (r, all) ↦ inl (
                      run ∙ r,
                      λ j lt. in_field j lt ∙ small_taken e b f (off + j) small ∙ all j lt,
                    )
                    | inr (r, some_bit) ↦ inr (
                      run ∙ r,
                      λ all. some_bit λ j lt.
                          sym (small_taken e b f (off + j) small) ∙ sym (in_field j lt) ∙ all j lt,
                    )
                  ]
          ]
    ]

    small-Tells : frame + 2 ^ order ≤ l.len → Tells frame (2 ^ order) l (is_free frame order l)
    unfolding is_free e h
    small-Tells within =
        let low : ltb 10 order ≡ false = ge→ltb 10 order (omega arith) in
        let known : ltb l.len (frame + 2 ^ order) ≡ false =
          ge→ltb l.len (frame + 2 ^ order) within in
        let whole : ltb 9 order ≡ false = ge→ltb 9 order le in
        let run : is_free frame order l ≡ test (entry_at l (frame / 512)) =
          rw (is_free, low, known, whole) (bind-returns _ (load_frame-eq frame l v inside)) in
        subst (Tells frame (2 ^ order) l) (sym run) test-Tells

  -- Two huge frames.
  module _ (frame : ℕ) (aligned : frame % 1024 ≡ 0)
      (inside : frame + 1024 ≤ length l.bitfields * 512) (within : frame + 1024 ≤ l.len) where
    abbrev t : ℕ
    t = frame / 4096

    abbrev i : ℕ
    i = child_index frame / 2

    lt : t < length l.children
    lt = omega (arith, v.covered)

    half : i < 4
    half = omega arith

    abbrev one : ℕ
    one = first l v t i lt half

    at : one * 512 ≡ frame
    at = omega (arith, aligned)

    abbrev both : Run Bool
    both = returns (free (entry_at l one) == 512 && free (entry_at l (suc one)) == 512)

    run : is_free frame 10 l ≡ both
    unfolding is_free
    run =
        let known : ltb l.len (frame + 1024) ≡ false = ge→ltb l.len (frame + 1024) within in
        rw (is_free, known) (bind-returns _ (load_pair-eq l v t i lt half))

    partial : (h : ℕ) → free (entry_at l h) ≢ 512 → (entry_at l h).count ≢ 512
    partial h ne full =
        let same : free (entry_at l h) ≡ (entry_at l h).count =
          rw (huge-false (entry_at l h) (omega arith)) refl in
        ne (same ∙ full)

    no_pair :
        (first l v t i lt half + 2 ≤ length l.bitfields → ¬ AllFree (one * 512) 1024 l)
        → ¬ AllFree frame 1024 l
    no_pair miss all =
        miss (omega (arith, at)) (λ j j_lt. ap (λ (x : ℕ). taken l (x + j)) at ∙ all j j_lt)

    pair-Tells : Tells frame 1024 l (is_free frame 10 l)
    pair-Tells = elim (ℕ_discrete (free (entry_at l one)) 512) [
      | no ne ↦ inr (
        run ∙ rw (ne→false (free (entry_at l one)) 512 ne) refl,
        no_pair (first-NoPair l v t i lt half (partial one ne)),
      )
      | yes p ↦ elim (ℕ_discrete (free (entry_at l (suc one))) 512) [
        | no ne ↦ inr (
          run
              ∙ rw
                  (
                    (==_iff (free (entry_at l one)) 512).1 p,
                    ne→false (free (entry_at l (suc one))) 512 ne,
                  )
                  refl,
          no_pair (second-NoPair l v t i lt half (partial (suc one) ne)),
        )
        | yes q ↦ inl (
          run
              ∙ rw
                  (
                    (==_iff (free (entry_at l one)) 512).1 p,
                    (==_iff (free (entry_at l (suc one))) 512).1 q,
                  )
                  refl,
          λ j j_lt. all_free p q j j_lt (dec_lt j 512),
        )
      ]
    ]
      where
        all_free :
            free (entry_at l one) ≡ 512
            → free (entry_at l (suc one)) ≡ 512
            → (j : ℕ) → j < 1024
            → Dec (j < 512)
            → taken l (frame + j) ≡ 0
        all_free p q j j_lt (yes near) =
            ap (λ (x : ℕ). taken l (x + j)) (sym at)
            ∙ full_free one (omega (arith, at)) (full_count l one p) j near
        all_free p q j j_lt (no far) =
            let place : frame + j ≡ suc one * 512 + (j - 512) = omega (arith, at) in
            ap (taken l) place
            ∙ full_free (suc one) (omega (arith, at)) (full_count l (suc one) q) (j - 512)
                (omega arith)

-- In a valid state, for an order up to 10 and an aligned block within the range, `is_free` says
-- whether all frames of the block are free.
pub is_free-Tells :
    (frame order : ℕ) (l : Lower)
    → IsValid l
    → l.len ≤ length l.bitfields * 512
    → order ≤ 10
    → frame % 2 ^ order ≡ 0
    → frame + 2 ^ order ≤ l.len
    → Tells frame (2 ^ order) l (is_free frame order l)
is_free-Tells frame order l v range le aligned within = elim (ℕ_discrete order 10) [
  | no ne ↦
      small-Tells l v frame order aligned (omega (arith, ne)) (omega (arith, one-le-pow order 2))
        within
  | yes ten ↦
      subst (λ (o : ℕ). Tells frame (2 ^ o) l (is_free frame o l)) (sym ten)
        (pair-Tells l v frame (ap (λ (o : ℕ). frame % 2 ^ o) (sym ten) ∙ aligned)
          (omega (arith, ap (λ (o : ℕ). 2 ^ o) ten)) (omega (arith, ap (λ (o : ℕ). 2 ^ o) ten)))
]

-- `free_at` for a huge frame below the end of the bitfields is the number of its free frames.
pub free_at-sum :
    (frame : ℕ) (l : Lower)
    → IsValid l
    → frame / 512 < length l.bitfields
    → free_at frame 9 l ≡ returns (sum_below 512 (λ j. 1 - taken l (frame / 512 * 512 + j)))
unfolding free_at
free_at-sum frame l v inside =
    let h = frame / 512 in
    bind-returns _ (load_frame-eq frame l v inside)
    ∙ ap (λ (n : ℕ). returns n)
        (free-sum (entry_at l h) (field_at l h) (v.fields h inside)
          ∙ sum_below-ext 512 (λ j. 1 - taken_in (entry_at l h) (field_at l h) j)
              (λ j. 1 - taken l (h * 512 + j))
              (λ j lt. ap (λ (x : ℕ). 1 - x) (sym (taken-at l h j lt))))
