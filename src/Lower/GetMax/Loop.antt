-- ===== src/Lower/GetMax/Loop.antt =====
-- The loop of `get_max` over the pairs of a table, and `get` for all orders, core/src/lower.rs.
use native.Mathlib.Decide.{ℕ_discrete}
use mathlib.Core.Path.{subst}
use llfree_rs.Base.{
  ℕ, zero, suc, ◌+◌, ◌*◌, ◌^◌, ◌/◌, ◌%◌, ◌≤◌, ◌<◌, ◌≡◌, refl, ap, sym, ◌∙◌, ◌⊎◌, inl, inr, true,
  some, none, length, Run, returns, ◌>>=◌, bind-returns, ok, err, ◌==◌, ==_iff, ne→false,
  if◌then◌else◌, arith,
}
use llfree_rs.Types.{Res, Flags, memory}
use llfree_rs.Atomic.{fetch_update-some}
use llfree_rs.Bitfield.Search.{round_of}
use llfree_rs.Lower.{get_max_from, get_max, get_huge, get_small, get, fragmented}
use llfree_rs.Lower.Query.Totals.{free-whole}
use llfree_rs.Lower.Entry
use llfree_rs.Lower.Entry.{HugePair, new_huge, mark_huge, map_pair, pair}
use llfree_rs.Lower.Types.{Lower, child_index, load_pair, store_pair}
use llfree_rs.Lower.Frames.{IsValid, entry_at, taken}
use llfree_rs.Lower.Blocks.{NoBlockIn, Allocated, Gets}
use llfree_rs.Lower.Counts.{mark_huge-eq, mark_huge-none}
use llfree_rs.Lower.GetSmall.Loop.{get_small-Gets}
use llfree_rs.Lower.GetHuge.{get_huge-cases}
use llfree_rs.Lower.GetMax.{
  map_pair-both, map_pair-first, map_pair-second, first, stored_pair, load_pair-eq, store_pair-eq,
  pair-Allocated, NoPair, first-NoPair, second-NoPair,
}

module _ (start : ℕ) (l : Lower) (v : IsValid l) (lt : start / 4096 < length l.children) where
  abbrev t : ℕ
  t = start / 4096

  -- The pair that round `k` looks at.
  abbrev pair_at : ℕ → ℕ
  pair_at k = (child_index start / 2 + k) % 4

  pair_at-lt : (k : ℕ) → pair_at k < 4
  pair_at-lt k = omega arith

  abbrev Missed : ℕ → Type 0
  Missed k = NoPair l v t (pair_at k) lt (pair_at-lt k)

  abbrev Loop : Run (Res ℕ × Lower) → (ℕ → Type 0) → Type 0
  Loop out Range =
      ((frame : ℕ) × (l' : Lower) × (out ≡ returns (ok frame, l')) × Allocated start 10 frame l l')
      ⊎ ((out ≡ returns (err memory, l)) × ((k : ℕ) → Range k → Missed k))

  -- One round.
  module _ (n j : ℕ) where
    abbrev here : ℕ
    here = first l v t (pair_at j) lt (pair_at-lt j)

    load : load_pair t (pair_at j) l ≡ returns (pair (entry_at l here) (entry_at l (suc here)))
    load = load_pair-eq l v t (pair_at j) lt (pair_at-lt j)

    abbrev Round : Type 0
    Round =
        ((frame : ℕ) × (l' : Lower) × (get_max_from (suc n) j start l ≡ returns (ok frame, l'))
          × Allocated start 10 frame l l')
        ⊎ ((get_max_from (suc n) j start l ≡ get_max_from n (j + 1) start l) × Missed j)

    round_miss :
        map_pair (mark_huge 512) (pair (entry_at l here) (entry_at l (suc here))) ≡ none
        → get_max_from (suc n) j start l ≡ get_max_from n (j + 1) start l
    unfolding get_max_from
    round_miss r = bind-returns _ load ∙ rw r refl

    round_hit :
        (entry_at l here).count ≡ 512
        → (entry_at l (suc here)).count ≡ 512
        → get_max_from (suc n) j start l
          ≡ returns (
            ok (t * 4096 + 2 * pair_at j * 512),
            stored_pair l v t (pair_at j) lt (pair_at-lt j) new_huge new_huge,
          )
    unfolding get_max_from
    round_hit p q =
        let both : map_pair (mark_huge 512) (pair (entry_at l here) (entry_at l (suc here)))
            ≡ some (pair new_huge new_huge) =
          map_pair-both (mark_huge 512) (entry_at l here) (entry_at l (suc here)) new_huge new_huge
            (mark_huge-eq (entry_at l here) p) (mark_huge-eq (entry_at l (suc here)) q) in
        bind-returns _ load
        ∙ rw both (
            bind-returns _ (
              ap (λ (x : HugePair). store_pair t (pair_at j) x l)
                (ap (λ u. u.1)
                  (fetch_update-some (map_pair (mark_huge 512))
                    (pair (entry_at l here) (entry_at l (suc here))) (pair new_huge new_huge) both))
              ∙ store_pair-eq l v t (pair_at j) lt (pair_at-lt j) new_huge new_huge))

    round : Round
    round = elim (ℕ_discrete (entry_at l here).count 512) [
      | no ne ↦ inr (
        round_miss (map_pair-first _ _ _ (mark_huge-none (entry_at l here) ne)),
        first-NoPair l v t (pair_at j) lt (pair_at-lt j) ne,
      )
      | yes p ↦ elim (ℕ_discrete (entry_at l (suc here)).count 512) [
        | no ne ↦ inr (
          round_miss (map_pair-second _ _ _ (mark_huge-none (entry_at l (suc here)) ne)),
          second-NoPair l v t (pair_at j) lt (pair_at-lt j) ne,
        )
        | yes q ↦
            let at : here * 512 ≡ t * 4096 + 2 * pair_at j * 512 = omega arith in
            inl (
              t * 4096 + 2 * pair_at j * 512,
              stored_pair l v t (pair_at j) lt (pair_at-lt j) new_huge new_huge,
              round_hit p q,
              subst
                  (λ x.
                    Allocated start 10 x l
                      (stored_pair l v t (pair_at j) lt (pair_at-lt j) new_huge new_huge))
                  at (pair-Allocated l v t (pair_at j) lt (pair_at-lt j) p q start refl),
            )
      ]
    ]

  get_max_from-Loop : (n j : ℕ) → Loop (get_max_from n j start l) (λ k. (j ≤ k) × (k < j + n))
  unfolding get_max_from
  get_max_from-Loop zero j = inr (refl, λ k (p, q). absurd (omega arith))
  get_max_from-Loop (suc n) j = elim (round n j) [
    | inl found ↦ inl found
    | inr (r, miss) ↦ elim (get_max_from-Loop n (j + 1)) [
      | inl (frame, l', s, a) ↦ inl (frame, l', r ∙ s, a)
      | inr (s, later) ↦ inr (r ∙ s, λ k (p, q). either n j miss later k p q (ℕ_discrete j k))
    ]
  ]
    where
      either :
          (n j : ℕ)
          → Missed j
          → ((k : ℕ) → (j + 1 ≤ k) × (k < j + 1 + n) → Missed k)
          → (k : ℕ) → j ≤ k
          → k < j + suc n
          → Dec (j ≡ k)
          → Missed k
      either n j miss later k p q (yes same) = subst Missed same miss
      either n j miss later k p q (no ne) = later k (omega arith, omega arith)

  misses-NoBlockIn : ((k : ℕ) → k < 4 → Missed k) → NoBlockIn start 10 l
  misses-NoBlockIn misses frame in_tree aligned within zeros =
      let (k, k_lt, e) =
        round_of (child_index start / 2) (frame / 512 % 8 / 2) 4 (omega arith) (omega arith) in
      let swap : pair_at k ≡ (k + child_index start / 2) % 4 = omega arith in
      let at : first l v t (pair_at k) lt (pair_at-lt k) * 512 ≡ frame =
        omega (arith, e, swap, in_tree, aligned) in
      misses k k_lt (omega (arith, at, within))
        λ j lt_n. ap (λ (x : ℕ). taken l (x + j)) at ∙ zeros j lt_n

  pub get_max-cases :
      ((frame : ℕ) × (l' : Lower) × (get_max start l ≡ returns (ok frame, l'))
        × Allocated start 10 frame l l')
      ⊎ ((get_max start l ≡ returns (err memory, l)) × NoBlockIn start 10 l)
  unfolding get_max
  get_max-cases = elim (get_max_from-Loop 4 0) [
    | inl found ↦ inl found
    | inr (r, misses) ↦ inr (r, misses-NoBlockIn λ k k_lt. misses k (omega arith, omega arith))
  ]

-- In a valid state and for an order up to 10, an allocation in the tree of `start` either returns
-- an aligned block of 2 ^ order frames of that tree, all of them free before and allocated now,
-- with every other frame as before and the state valid again, marks its huge frames from order 9
-- on, and says whether its first huge frame was free in whole; or it reports no memory, the state
-- is as before, and the tree has no free aligned block of that size. It never panics.
pub get-Gets :
    (start : ℕ) (flags : Flags) (l : Lower)
    → IsValid l
    → start / 4096 < length l.children
    → flags.order ≤ 10
    → Gets start flags.order l (get start flags l)
unfolding get
get-Gets start flags l v lt le = by_order (ℕ_discrete flags.order 10) (ℕ_discrete flags.order 9)
  where
    first_whole :
        {order frame : ℕ} {l' : Lower}
        → Allocated start order frame l l'
        → 512 ≤ 2 ^ order
        → frame % 512 ≡ 0
        → true ≡ (Entry.free (entry_at l (frame / 512)) == 512)
    first_whole {frame = frame} a large start_at =
        let h = frame / 512 in
        let here : h * 512 ≡ frame = omega (arith, start_at) in
        let count : Entry.free (entry_at l h) ≡ 512 =
          free-whole l h (v.fields h (omega (arith, a.within, large))) (λ j j_lt.
            ap (λ (x : ℕ). taken l (x + j)) here ∙ a.changes.before j (omega (arith, large))) in
        sym ((==_iff (Entry.free (entry_at l h)) 512).1 count)

    by_order :
        Dec (flags.order ≡ 10)
        → Dec (flags.order ≡ 9)
        → Gets start flags.order l (
            if flags.order == 10
            then get_max start l >>= (λ r. returns (fragmented r))
            else if flags.order == 9
            then get_huge start l >>= (λ r. returns (fragmented r))
            else get_small start flags.order l)
    by_order (yes ten) _ = rw ((==_iff flags.order 10).1 ten) (
        subst (λ o. Gets start o l (get_max start l >>= (λ r. returns (fragmented r)))) (sym ten)
          (elim (get_max-cases start l v lt) [
            | inl (frame, l', r, a) ↦ inl (
              frame,
              true,
              l',
              bind-returns _ r,
              a,
              first_whole a (omega arith) (omega (arith, a.aligned)),
            )
            | inr (r, no_block) ↦ inr (bind-returns _ r, no_block)
          ]))
    by_order (no not_ten) (yes nine) =
        rw (ne→false flags.order 10 not_ten, (==_iff flags.order 9).1 nine)
          (subst (λ o. Gets start o l (get_huge start l >>= (λ r. returns (fragmented r))))
            (sym nine)
            (elim (get_huge-cases start l v lt) [
              | inl (frame, l', r, a) ↦ inl (
                frame,
                true,
                l',
                bind-returns _ r,
                a,
                first_whole a (omega arith) (omega (arith, a.aligned)),
              )
              | inr (r, no_block) ↦ inr (bind-returns _ r, no_block)
            ]))
    by_order (no not_ten) (no not_nine) =
        rw (ne→false flags.order 10 not_ten, ne→false flags.order 9 not_nine)
          (get_small-Gets start flags.order l v lt (omega (arith, not_ten, not_nine)))
