-- ===== src/Trees/Cases.antt =====
-- The branches of `sync` and `inc_or_reserve` in core/src/trees.rs, with what leads to each.
use mathlib.Core.Logic.{◌≢◌}
use llfree_rs.Base.{
  ℕ, ◌+◌, ◌≤◌, ◌<◌, ◌≡◌, refl, ◌∙◌, ◌⊎◌, inl, inr, Bool, true, false, none, some, Bool-cases, List,
  length, length-set, get_or, get_or-set_self, get_or-set_ne, set, index-get_or, le→leb, gt→leb,
  lt→ltb, ge→ltb, returns, bind-returns, arith,
}
use native.Mathlib.Decide.{dec_le, dec_lt}
use llfree_rs.Local.{fixed}
use llfree_rs.Trees.Entry.{Tree, inc, sync_steal}
use llfree_rs.Trees.{sync, inc_or_reserve, min_free}

-- The tree of an index out of range.
abbrev pub no_tree : Tree
no_tree = record { free = 0; huge = 0; reserved = false; kind = fixed }

abbrev pub tree_at : List Tree → ℕ → Tree
tree_at ts i = get_or ts i no_tree

-- The tree entry after its counters moved to the caller.
abbrev pub emptied : Tree → Tree
emptied t = record t { free = 0; huge = 0 }

-- Entry `i` is `x` now, and all others stay.
pub record Replaces (i : ℕ) (x : Tree) (ts ts' : List Tree) : Type 0 where
  pub same_length : length ts' ≡ length ts
  pub here : tree_at ts' i ≡ x
  pub elsewhere : (k : ℕ) → i ≢ k → tree_at ts' k ≡ tree_at ts k

pub set-Replaces :
    (i : ℕ) (x : Tree) (ts : List Tree) → i < length ts → Replaces i x ts (set ts i x)
set-Replaces i x ts lt = record {
  same_length = length-set ts i x;
  here = get_or-set_self no_tree ts i x lt;
  elsewhere = λ k ne. get_or-set_ne no_tree ts i k x ne;
}

pub sync-cases :
    (i min min_huge : ℕ) (ts : List Tree)
    → i < length ts
    → ((sync i min min_huge ts ≡ returns (some (tree_at ts i), set ts i (emptied (tree_at ts i))))
        × (((tree_at ts i).reserved ≡ true)
            × (min < (tree_at ts i).free)
            × (min_huge ≤ (tree_at ts i).huge)))
      ⊎ ((sync i min min_huge ts ≡ returns (none, ts))
          × (((tree_at ts i).reserved ≡ false)
              ⊎ (((tree_at ts i).free ≤ min) ⊎ ((tree_at ts i).huge < min_huge))))
unfolding sync sync_steal
sync-cases i min min_huge ts lt =
    let t = tree_at ts i in
    let read = index-get_or no_tree ts i lt in
    elim (Bool-cases t.reserved) [
      | inr r ↦ inr (bind-returns _ read ∙ rw r refl, inl r)
      | inl r ↦ elim (dec_lt min t.free) [
        | no few ↦ inr (
          bind-returns _ read ∙ rw (r, ge→ltb min t.free (omega arith)) refl,
          inr (inl (omega arith)),
        )
        | yes more ↦ elim (dec_le min_huge t.huge) [
          | no few ↦ inr (
            bind-returns _ read
                ∙ rw (r, lt→ltb min t.free more, gt→leb min_huge t.huge (omega arith)) refl,
            inr (inr (omega arith)),
          )
          | yes enough ↦ inl (
            bind-returns _ read
                ∙ rw (r, lt→ltb min t.free more, le→leb min_huge t.huge enough) refl,
            (r, more, enough),
          )
        ]
      ]
    ]

pub inc_or_reserve-cases :
    (i n h : ℕ) (may_reserve : Bool) (ts : List Tree)
    → i < length ts
    → (tree_at ts i).free + n ≤ 4096
    → (tree_at ts i).huge + h ≤ 8
    → ((inc_or_reserve i n h may_reserve ts
          ≡ returns (
            none,
            set ts i (record (tree_at ts i) {
              free = (tree_at ts i).free + n;
              huge = (tree_at ts i).huge + h;
            }),
          ))
        × ((may_reserve ≡ false)
            ⊎ (((tree_at ts i).reserved ≡ true) ⊎ ((tree_at ts i).free + n ≤ min_free))))
      ⊎ ((inc_or_reserve i n h may_reserve ts
            ≡ returns (
              some (tree_at ts i),
              set ts i (record (tree_at ts i) { free = 0; huge = 0; reserved = true }),
            ))
          × ((may_reserve ≡ true)
              × ((tree_at ts i).reserved ≡ false)
              × (min_free < (tree_at ts i).free + n)))
unfolding inc_or_reserve inc
inc_or_reserve-cases i n h may_reserve ts lt f g =
    let t = tree_at ts i in
    let read = index-get_or no_tree ts i lt in
    let fits = le→leb (t.free + n) 4096 f in
    let fits' = le→leb (t.huge + h) 8 g in
    elim (Bool-cases may_reserve) [
      | inr never ↦ inl (bind-returns _ read ∙ rw (fits, fits', never) refl, inl never)
      | inl may ↦ elim (Bool-cases t.reserved) [
        | inl r ↦ inl (bind-returns _ read ∙ rw (fits, fits', may, r) refl, inr (inl r))
        | inr r ↦ elim (dec_lt min_free (t.free + n)) [
          | no few ↦ inl (
            bind-returns _ read
                ∙ rw (fits, fits', may, r, ge→ltb min_free (t.free + n) (omega arith)) refl,
            inr (inr (omega arith)),
          )
          | yes more ↦ inr (
            bind-returns _ read ∙ rw (fits, fits', may, r, lt→ltb min_free (t.free + n) more) refl,
            (may, r, more),
          )
        ]
      ]
    ]
