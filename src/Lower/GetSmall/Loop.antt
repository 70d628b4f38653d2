-- ===== src/Lower/GetSmall/Loop.antt =====
-- The loop of `get_small` over the entries of a table, core/src/lower.rs.
use native.Mathlib.Decide.{ℕ_discrete}
use mathlib.Core.Path.{subst, ap₂}
use llfree_rs.Base.{
  ℕ, zero, suc, ◌+◌, ◌*◌, ◌/◌, ◌%◌, ◌≤◌, ◌<◌, ◌≡◌, refl, ap, ◌∙◌, ◌⊎◌, inl, inr, Bool, true, false,
  Option, none, some, length, Run, returns, ◌>>=◌, bind-returns, ok, err, ◌==◌, if◌then◌else◌,
  arith,
}
use llfree_rs.Types.{Res, memory}
use llfree_rs.Lower.{small_attempt, get_small_from, get_small}
use llfree_rs.Lower.Types.{Lower, child_index}
use llfree_rs.Lower.Entry
use llfree_rs.Lower.Frames.{IsValid, entry_at}
use llfree_rs.Lower.Blocks.{NoFree, NoFree-NoBlockIn, Allocated, Gets}
use llfree_rs.Lower.Access.{valid-InTable}
use llfree_rs.Lower.GetSmall.{Attempted, small_attempt-Attempted}
use llfree_rs.Bitfield.Search.{round_of}

-- The huge frame that round `k` looks at.
abbrev pub huge_at : ℕ → ℕ → ℕ
huge_at start k = start / 4096 * 8 + (k + child_index start) % 8

module _ (start order : ℕ) (l : Lower) (v : IsValid l) (lt : start / 4096 < length l.children)
    (o_lt : order < 9) where
  -- The runs of the loop.
  abbrev Loop : Run (Res (ℕ × Bool) × Lower) → (ℕ → Type 0) → Type 0
  Loop out Range =
      ((frame : ℕ) × (fr : Bool) × (l' : Lower) × (out ≡ returns (ok (frame, fr), l'))
        × Allocated start order frame l l'
        × (fr ≡ (Entry.free (entry_at l (frame / 512)) == 512)))
      ⊎ ((out ≡ returns (err memory, l)) × ((k : ℕ) → Range k → NoFree order l (huge_at start k)))

  get_small_from-Loop :
      (n j : ℕ) → Loop (get_small_from n j start order l) (λ k. (j ≤ k) × (k < j + n))
  unfolding get_small_from
  get_small_from-Loop zero j = inr (refl, λ k (p, q). absurd (omega arith))
  get_small_from-Loop (suc n) j = elim attempt [
    | inl (frame, fr, l', r, a, says) ↦ inl (
      frame,
      fr,
      l',
      step ∙ bind-returns _ r,
      record {
        in_tree = omega (arith, a.in_tree);
        aligned = a.aligned;
        within = a.within;
        changes = a.changes;
        marked = a.marked;
      },
      says,
    )
    | inr (r, miss) ↦ elim (get_small_from-Loop n (j + 1)) [
      | inl (frame, fr, l', s, a, says) ↦ inl (frame, fr, l', step ∙ bind-returns _ r ∙ s, a, says)
      | inr (s, later) ↦
          inr (step ∙ bind-returns _ r ∙ s, λ k (p, q). either miss later k p q (ℕ_discrete j k))
    ]
  ]
    where
      h : ℕ
      h = huge_at start j

      bf_e : ℕ
      bf_e = if j == 0 then start / 64 % 8 else 0

      bf_e_lt : (c : Bool) → (if c then start / 64 % 8 else 0) < 8
      bf_e_lt true = omega arith
      bf_e_lt false = omega arith

      next : Option (ℕ × Bool) × Lower → Run (Res (ℕ × Bool) × Lower)
      next r = elim r.0 [
        | some x ↦ returns (ok x, r.1)
        | none ↦ get_small_from n (j + 1) start order r.1
      ]

      attempt : Attempted h bf_e order l
      attempt =
          small_attempt-Attempted h bf_e order l v (valid-InTable h l v (omega arith))
            (bf_e_lt (j == 0)) o_lt

      step :
          get_small_from (suc n) j start order l
          ≡ (small_attempt (h / 8) (h % 8) h bf_e order l >>= next)
      step =
          let table : start / 4096 ≡ h / 8 = omega arith in
          let entry : (j + child_index start) % 8 ≡ h % 8 = omega arith in
          let field : start / 512 / 8 * 8 + (j + child_index start) % 8 ≡ h = omega arith in
          ap
            (λ (t : ℕ).
              small_attempt t ((j + child_index start) % 8)
                (start / 512 / 8 * 8 + (j + child_index start) % 8) bf_e order l
              >>= next)
            table
          ∙ ap₂ (λ (i b : ℕ). small_attempt (h / 8) i b bf_e order l >>= next) entry field

      either :
          NoFree order l h
          → ((k : ℕ) → (j + 1 ≤ k) × (k < j + 1 + n) → NoFree order l (huge_at start k))
          → (k : ℕ) → j ≤ k
          → k < j + suc n
          → Dec (j ≡ k)
          → NoFree order l (huge_at start k)
      either miss later k p q (yes same) =
          subst (λ (t : ℕ). NoFree order l (huge_at start t)) same miss
      either miss later k p q (no ne) = later k (omega arith, omega arith)

-- Every huge frame of the tree has its round.
pub all_rounds :
    (start : ℕ) (P : ℕ → Type 0)
    → ((k : ℕ) → k < 8 → P (huge_at start k))
    → (h : ℕ) → h / 8 ≡ start / 4096
    → P h
all_rounds start P each h same =
    let (k, lt, e) = round_of (child_index start) (h % 8) 8 (omega arith) (omega arith) in
    let at : huge_at start k ≡ h = omega (arith, e, same) in subst P at (each k lt)

pub get_small-Gets :
    (start order : ℕ) (l : Lower)
    → IsValid l
    → start / 4096 < length l.children
    → order < 9
    → Gets start order l (get_small start order l)
unfolding get_small
get_small-Gets start order l v lt o_lt = elim (get_small_from-Loop start order l v lt o_lt 8 0) [
  | inl found ↦ inl found
  | inr (r, misses) ↦ inr (
    r,
    NoFree-NoBlockIn start order l (omega arith)
        (all_rounds start (NoFree order l) λ k k_lt. misses k (omega arith, omega arith)),
  )
]
