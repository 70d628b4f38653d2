-- ===== src/LlFree/Balance/Drain.antt =====
-- `drain` of core/src/llfree.rs.
use native.Mathlib.Nat.{mod-lt}
use mathlib.Core.Logic.{◌≢◌}
use llfree_rs.Base.{
  inl, inr, sym, ℕ, ◌%◌, ◌<◌, ◌≡◌, refl, ap, ◌∙◌, Bool, true, false, Bool-cases, none, List, length,
  get_or, get_or-set_self, set, length-set, index-get_or, returns, bind-returns, ok, arith,
}
use llfree_rs.Util.{count_if}
use llfree_rs.Local.{Kind, huge, movable, fixed, Local, empty, preferred, with_preferred}
use llfree_rs.LlFree.{LlFree, drain}
use llfree_rs.LlFree.Balance.{Holding}
use llfree_rs.LlFree.Balance.Swap.{swap_reserved-Holding}

-- With the books in order, `drain` never panics and keeps them and the lower allocator. If another
-- core holds the lock of the core's data, it changes nothing, and otherwise the core has no preferred
-- tree afterwards.
pub drain-Holding :
    (busy : ℕ → Bool) (core : ℕ) (s : LlFree)
    → 0 < length s.locals
    → Holding none s
    → (s' : LlFree) × (drain busy core s ≡ returns (ok tt, s'))
      × Holding none s'
      × (s'.lower ≡ s.lower)
      × (busy (core % length s.locals) ≡ true → s' ≡ s)
      × (busy (core % length s.locals) ≡ false
          → (k : Kind) → preferred k (get_or s'.locals (core % length s.locals) empty) ≡ none)
unfolding drain
drain-Holding busy core s pos b =
    let lt : c < length s.locals = mod-lt core pos in
    elim (Bool-cases (busy c)) [
      | inl locked ↦ (
        s,
        bind-returns _ (index-get_or empty s.locals c lt) ∙ rw locked refl,
        b,
        refl,
        λ _. refl,
        λ unlocked. absurd (true-false (sym locked ∙ unlocked)),
      )
      | inr unlocked ↦
          let (s1, r1, b1, l1, e1) = swap_reserved-Holding c fixed none s lt b in
          let lt1 = swapped-lt s s1 fixed lt e1 in
          let (s2, r2, b2, l2, e2) = swap_reserved-Holding c movable none s1 lt1 b1 in
          let lt2 = swapped-lt s1 s2 movable lt1 e2 in
          let (s3, r3, b3, l3, e3) = swap_reserved-Holding c huge none s2 lt2 b2 in
          (
            s3,
            bind-returns _ (index-get_or empty s.locals c lt)
                ∙ rw unlocked (bind-returns _ r1 ∙ bind-returns _ r2 ∙ bind-returns _ r3),
            b3,
            l3 ∙ l2 ∙ l1,
            λ locked. absurd (true-false (sym locked ∙ unlocked)),
            λ _ k.
                ap (preferred k) (
                  swapped s2 s3 huge lt2 e3
                  ∙ ap (with_preferred huge none) (
                      swapped s1 s2 movable lt1 e2
                      ∙ ap (with_preferred movable none) (swapped s s1 fixed lt e1)))
                ∙ cleared k (local_of s),
          )
    ]
  where
    c : ℕ
    c = core % length s.locals

    local_of : LlFree → Local
    local_of x = get_or x.locals c empty

    swapped-lt :
        (x y : LlFree) (k : Kind)
        → c < length x.locals
        → y.locals ≡ set x.locals c (with_preferred k none (local_of x))
        → c < length y.locals
    swapped-lt x y k lt e =
        omega (arith, lt, ap length e, length-set x.locals c (with_preferred k none (local_of x)))

    swapped :
        (x y : LlFree) (k : Kind)
        → c < length x.locals
        → y.locals ≡ set x.locals c (with_preferred k none (local_of x))
        → local_of y ≡ with_preferred k none (local_of x)
    swapped x y k lt e =
        ap (λ (ls : List Local). get_or ls c empty) e
        ∙ get_or-set_self empty x.locals c (with_preferred k none (local_of x)) lt

    cleared :
        (k : Kind) (l : Local)
        → preferred k
            (with_preferred huge none (with_preferred movable none (with_preferred fixed none l)))
          ≡ none
    cleared huge l = refl
    cleared movable l = refl
    cleared fixed l = refl

    true-false : true ≢ false
    true-false e = omega (arith, ap count_if e)
