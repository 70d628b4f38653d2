-- ===== src/Local/Frees.antt =====
-- The put-reserve heuristic of core/src/local.rs over a row of frees in one tree.

use native.Mathlib.Decide.{dec_le}
use mathlib.Core.Path.{subst}
use llfree_rs.Base.{
  ℕ, zero, suc, ◌+◌, ◌≤◌, ◌<◌, ◌≡◌, refl, ap, sym, ◌∙◌, ◌≢◌, Bool, true, false, leb, le→leb, gt→leb,
  ==_iff, ne→false, min, arith,
}
use llfree_rs.Local.{Local, frees_push}

-- The state after `n` frees in the tree.
unfoldable pub pushed : ℕ → ℕ → Local → Local
unfolding frees_push
pushed zero i l = l
pushed (suc n) i l = (frees_push i (pushed n i l)).1

other_tree :
    (i : ℕ) (l : Local)
    → l.last_idx ≢ i
    → frees_push i l ≡ (false, record l { last_idx = i; last_frees = 0 })
unfolding frees_push
other_tree i l h = rw (ne→false l.last_idx i h) refl

below_limit :
    (i : ℕ) (l : Local)
    → l.last_idx ≡ i
    → l.last_frees < 4
    → frees_push i l ≡ (false, record l { last_frees = l.last_frees + 1 })
unfolding frees_push
below_limit i l h lt = rw ((==_iff l.last_idx i).1 h, gt→leb 4 l.last_frees lt) refl

at_limit : (i : ℕ) (l : Local) → l.last_idx ≡ i → 4 ≤ l.last_frees → frees_push i l ≡ (true, l)
unfolding frees_push
at_limit i l h ge = rw ((==_iff l.last_idx i).1 h, le→leb 4 l.last_frees ge) refl

abbrev Counted : ℕ → ℕ → Local → Type 0
Counted i n l = (l.last_idx ≡ i) × (l.last_frees ≡ min n 4)

pushed-Counted : (n i : ℕ) (l : Local) → l.last_idx ≢ i → Counted i n (pushed (suc n) i l)
unfolding pushed
pushed-Counted zero i l ne =
    subst (λ (r : Bool × Local). Counted i 0 r.1) (sym (other_tree i l ne)) (refl, refl)
pushed-Counted (suc n) i l ne =
    let (idx, frees) = pushed-Counted n i l ne in
    let m = pushed (suc n) i l in
    elim (dec_le 4 m.last_frees) [
      | yes ge ↦
          subst (λ (r : Bool × Local). Counted i (suc n) r.1) (sym (at_limit i m idx ge))
            (idx, omega (arith, frees))
      | no lt ↦
          subst (λ (r : Bool × Local). Counted i (suc n) r.1)
            (sym (below_limit i m idx (omega (arith, lt)))) (idx, omega (arith, frees, lt))
    ]

-- After a free in another tree, a row of frees in one tree asks for its reservation from the sixth
-- free on, and not before: the `n + 2`-nd free answers whether `n` has reached the limit of 4.
pub frees_push-limit :
    (n i : ℕ) (l : Local) → l.last_idx ≢ i → (frees_push i (pushed (suc n) i l)).0 ≡ leb 4 n
frees_push-limit n i l ne =
    let (idx, frees) = pushed-Counted n i l ne in
    let m = pushed (suc n) i l in
    elim (dec_le 4 n) [
      | yes ge ↦ ap (λ r. r.0) (at_limit i m idx (omega (arith, frees))) ∙ sym (le→leb 4 n ge)
      | no lt ↦
          ap (λ r. r.0) (below_limit i m idx (omega (arith, frees, lt)))
          ∙ sym (gt→leb 4 n (omega (arith, lt)))
    ]
