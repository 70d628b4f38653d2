-- ===== src/LlFree/Balance/Found.antt =====
-- What `get` of core/src/llfree.rs promises, and `reserve_and_get`.
use mathlib.Core.Path.{subst}
use llfree_rs.Base.{
  ℕ, ◌-◌, ◌*◌, ◌/◌, ◌^◌, ◌≤◌, ◌<◌, ◌≡◌, ap, sym, ◌∙◌, ◌⊎◌, inl, inr, Bool, true, none, some, length,
  get_or, index-get_or, Run, returns, panics, bind-returns, bind-panics, ok, err, arith,
}
use llfree_rs.Types.{Flags, Res, memory, retry}
use llfree_rs.Lower.{Lower}
use llfree_rs.Lower.Frames.{Changes}
use llfree_rs.Local.{Kind, empty, preferred, kind_of}
use llfree_rs.LlFree.{LlFree, steal_tree, reserve_and_get}
use llfree_rs.LlFree.Balance.{Holding}
use llfree_rs.LlFree.Balance.Swap.{swap_reserved-Holding}
use llfree_rs.LlFree.Balance.Get.{IsSplit}
use llfree_rs.LlFree.Balance.Hand.{Handed}
use llfree_rs.LlFree.Balance.Reserve.{reserve_tree-Search}
use llfree_rs.LlFree.Balance.Slots.{steal_from-Search}

-- A state with the same lower allocator and books in order.
abbrev pub Keeps : LlFree → LlFree → Type 0
Keeps s s' =
    Holding none s'
    × (s'.lower ≡ s.lower)
    × (length s'.locals ≡ length s.locals)
    × (length s'.trees ≡ length s.trees)
    × (IsSplit s'.trees → IsSplit s.trees)

-- A block is handed out with the books in order, or nothing is allocated, or an assertion fails.
abbrev pub Gets : ℕ → LlFree → Run (Res ℕ × LlFree) → Type 0
Gets order s out =
    ((frame : ℕ) × (s' : LlFree) × (out ≡ returns (ok frame, s'))
      × Holding none s'
      × Handed order frame s s')
    ⊎ (((s' : LlFree) × (out ≡ returns (err memory, s')) × Keeps s s')
        ⊎ (((s' : LlFree) × (out ≡ returns (err retry, s')) × Keeps s s')
            ⊎ ((out ≡ panics) × IsSplit s.trees)))

-- A block is handed out, or there is no memory, or an assertion fails; `retry` stays within `get`.
abbrev pub Claims : ℕ → LlFree → Run (Res ℕ × LlFree) → Type 0
Claims order s out =
    ((frame : ℕ) × (s' : LlFree) × (out ≡ returns (ok frame, s'))
      × Holding none s'
      × Handed order frame s s')
    ⊎ (((s' : LlFree) × (out ≡ returns (err memory, s')) × Holding none s' × (s'.lower ≡ s.lower))
        ⊎ ((out ≡ panics) × IsSplit s.trees))

pub Gets-from :
    (order : ℕ) (s t : LlFree) (out : Run (Res ℕ × LlFree))
    → Keeps s t
    → Gets order t out
    → Gets order s out
Gets-from order s t out (_, l, ls, len, p) (inl (frame, s', r, b, h)) = inl (
  frame,
  s',
  r,
  b,
  record {
    aligned = h.aligned;
    within = omega (arith, h.within, ap (λ (x : Lower). length x.bitfields) l);
    changes = subst (λ (x : Lower). Changes frame (2 ^ order) true x s'.lower) l h.changes;
  },
)
Gets-from order s t out (_, l, ls, len, p) (inr (inl (s', r, (b, e, f, g, q)))) =
    inr (inl (s', r, (b, e ∙ l, f ∙ ls, g ∙ len, λ x. p (q x))))
Gets-from order s t out (_, l, ls, len, p) (inr (inr (inl (s', r, (b, e, f, g, q))))) =
    inr (inr (inl (s', r, (b, e ∙ l, f ∙ ls, g ∙ len, λ x. p (q x)))))
Gets-from order s t out (_, l, ls, len, p) (inr (inr (inr (r, x)))) = inr (inr (inr (r, p x)))

-- `swap_reserved` leaves the lower allocator.
pub Handed-swap :
    (order frame : ℕ) (s s' t : LlFree)
    → t.lower ≡ s'.lower
    → Handed order frame s s'
    → Handed order frame s t
Handed-swap order frame s s' t l h = record {
  aligned = h.aligned;
  within = h.within;
  changes = subst (λ (x : Lower). Changes frame (2 ^ order) true s.lower x) (sym l) h.changes;
}

module _ (busy : ℕ → Bool) (core : ℕ) (flags : Flags) (le : flags.order ≤ 10) where
  abbrev kind : Kind
  kind = kind_of flags

  pub reserve_and_get-Gets :
      (s : LlFree)
      → core < length s.locals
      → 0 < length s.trees
      → Holding none s
      → Gets flags.order s (reserve_and_get busy core flags s)
  unfolding reserve_and_get steal_tree
  reserve_and_get-Gets s lt some_tree b =
      let l = get_or s.locals core empty in
      let read = index-get_or empty s.locals core lt in
      let start : ℕ = elim (preferred kind l) [
        | some tree ↦ tree.frame / 4096
        | none ↦ length s.trees / length s.locals * core
      ] in
      elim (reserve_tree-Search (length s.locals) start flags s le some_tree b) [
        | inl (new, s', r, b', h, len) ↦
            let (t, q, b'', same, _) =
              swap_reserved-Holding core kind (some new) s' (omega (arith, lt, len)) b' in
            inl (
              new.frame,
              t,
              bind-returns _ read ∙ bind-returns _ r ∙ bind-returns _ q,
              b'',
              Handed-swap flags.order new.frame s s' t same h,
            )
        | inr (inl (s', r, b', low, ls, ts, p)) ↦
            elim (steal_from-Search busy (length s'.locals - 1) 1 core flags s' le
              (omega (arith, lt, ls)) b') [
                | inl (new, s2, r2, b2, h, len) ↦
                    let (t, q, b'', same, _) =
                      swap_reserved-Holding core kind (some new) s2 (omega (arith, lt, len, ls))
                        b2 in
                    Gets-from flags.order s s' _ (b', low, ls, ts, p)
                      (inl (
                        new.frame,
                        t,
                        bind-returns _ read
                            ∙ bind-returns _ r
                            ∙ bind-returns _ r2
                            ∙ bind-returns _ q,
                        b'',
                        Handed-swap flags.order new.frame s' s2 t same h,
                      ))
                | inr (inl (s2, r2, b2, low2, ls2, ts2, p2)) ↦ inr (
                    inl (
                      s2,
                      bind-returns _ read ∙ bind-returns _ r ∙ bind-returns _ r2,
                      (b2, low2 ∙ low, ls2 ∙ ls, ts2 ∙ ts, λ x. p (p2 x)),
                    ))
                | inr (inr (r2, x)) ↦
                    inr (inr (inr (bind-returns _ read ∙ bind-returns _ r ∙ bind-panics _ r2, p x)))
              ]
        | inr (inr (r, x)) ↦ inr (inr (inr (bind-returns _ read ∙ bind-panics _ r, x)))
      ]
