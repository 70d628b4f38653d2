-- ===== src/LlFree/Balance/Hand.antt =====
-- `lower_get` of core/src/llfree.rs with a tree in hand, and what a search for a block promises.
use native.Mathlib.Decide.{ℕ_discrete, dec_lt}
use native.Mathlib.Nat.{one-le-pow}
use llfree_rs.Base.{
  ℕ, ◌+◌, ◌*◌, ◌/◌, ◌%◌, ◌^◌, ◌≤◌, ◌<◌, ◌≡◌, refl, ap, ◌⊎◌, inl, inr, true, Option, none, some,
  List, [], ◌∷◌, length, Run, returns, panics, ok, err, arith,
}
use llfree_rs.Types.{Flags, Res, memory}
use llfree_rs.Util.{count_if}
use llfree_rs.Lower.Frames.{Changes}
use llfree_rs.Trees.Cases.{tree_at}
use llfree_rs.Local.{LocalTree, Local}
use llfree_rs.LlFree.{LlFree, lower_get}
use llfree_rs.LlFree.Balance.{
  Holding, at, at_self, at_ne, in_slot, in_locals, frees, huges, one, owned-reserved,
}
use llfree_rs.LlFree.Balance.New.{none_beyond}
use llfree_rs.LlFree.Balance.Get.{IsReady, IsSplit, Moves, lower_get-Outcome}

-- Where no core has tree `t`, they have no share of it.
in_locals-none :
    (m : LocalTree → ℕ) (ls : List Local) (t : ℕ) → in_locals one ls t ≡ 0 → in_locals m ls t ≡ 0
unfolding in_locals
in_locals-none m [] t e = refl
in_locals-none m (l ∷ ls) t e = omega (
  arith,
  slot l.huge_tree (omega (arith, e)),
  slot l.movable_tree (omega (arith, e)),
  slot l.fixed_tree (omega (arith, e)),
  in_locals-none m ls t (omega (arith, e)),
)
  where
    slot : (x : Option LocalTree) → in_slot one x t ≡ 0 → in_slot m x t ≡ 0
    slot none z = refl
    slot (some x) z = elim (ℕ_discrete (x.frame / 4096) t) [
      | no ne ↦ at_ne (x.frame / 4096) (m x) t ne
      | yes here ↦
          absurd (omega (arith, z, at_self (x.frame / 4096) 1, ap (at (x.frame / 4096) 1) here))
    ]

-- A reserved tree in hand is ready for an allocation.
pub Holding-IsReady :
    (tree : LocalTree) (order : ℕ) (s : LlFree)
    → Holding (some tree) s
    → 2 ^ order ≤ tree.free
    → IsReady tree order s
Holding-IsReady tree order s b enough =
    let i = tree.frame / 4096 in
    let (reserved, inside) =
      owned-reserved (in_slot frees (some tree)) (in_slot huges (some tree))
        (in_slot one (some tree)) s i b (omega (arith, at_self i 1)) in
    let none_else : in_locals one s.locals i ≡ 0 =
      omega (arith, b.owners i, at_self i 1, ap count_if reserved) in
    record {
      valid = b.valid;
      in_range = in_range (dec_lt i (length s.lower.children));
      inside = inside;
      reserved = reserved;
      enough = enough;
      whole =
          omega (
            arith,
            b.huge_balance i,
            at_self i tree.huge,
            in_locals-none huges s.locals i none_else,
          );
    }
  where
    in_range :
        Dec (tree.frame / 4096 < length s.lower.children)
        → tree.frame / 4096 < length s.lower.children
    in_range (yes lt) = lt
    in_range (no ge) =
        let i = tree.frame / 4096 in
        absurd (
          omega (
            arith,
            b.free_balance i,
            at_self i tree.free,
            enough,
            one-le-pow order 2,
            (none_beyond s.lower b.valid i (omega (arith, b.valid.covered))).0,
          ))

-- Where an allocation moves the counters of a tree in hand, the books stay in order.
pub Moves-Holding :
    (tree new : LocalTree) (s s' : LlFree) (off n : ℕ)
    → Holding (some tree) s
    → Changes off n true s.lower s'.lower
    → Moves tree new s s'
    → Holding (some new) s'
Moves-Holding tree new s s' off n b c m = record {
  valid = c.valid;
  range = omega (arith, b.range, c.same_range, c.same_length);
  covered = omega (arith, b.covered, c.same_length, m.same_length);
  free_balance = λ t. omega (
    arith,
    b.free_balance t,
    m.frames t,
    ap (λ (ls : List Local). in_locals frees ls t) m.same_locals,
  );
  huge_balance = λ t. omega (
    arith,
    b.huge_balance t,
    m.huge_frames t,
    ap (λ (ls : List Local). in_locals huges ls t) m.same_locals,
  );
  owners = λ t. omega (
    arith,
    b.owners t,
    ap count_if (m.same_owners t),
    ap (λ (ls : List Local). in_locals one ls t) m.same_locals,
    ap (λ (j : ℕ). at j 1 t) m.same_tree,
  );
}

-- A block was handed out: it is aligned and in whole below the end of the bitfields, and was free and is allocated.
pub record Handed (order frame : ℕ) (s s' : LlFree) : Type 0 where
  pub aligned : frame % 2 ^ order ≡ 0
  pub within : frame + 2 ^ order ≤ length s.lower.bitfields * 512
  pub changes : Changes frame (2 ^ order) true s.lower s'.lower

-- A search for a block returns a tree that has it, with the books in order but for this tree, or reports
-- no memory and leaves the lower allocator as it is, with the books in order; or the assertion of
-- `lower_get` fails, where a reserved tree is split. No core comes or goes.
abbrev pub Search : ℕ → LlFree → Run (Res LocalTree × LlFree) → Type 0
Search order s out =
    ((new : LocalTree) × (s' : LlFree) × (out ≡ returns (ok new, s'))
      × Holding (some new) s'
      × Handed order new.frame s s'
      × (length s'.locals ≡ length s.locals))
    ⊎ (((s' : LlFree) × (out ≡ returns (err memory, s'))
          × Holding none s'
          × (s'.lower ≡ s.lower)
          × (length s'.locals ≡ length s.locals)
          × (length s'.trees ≡ length s.trees)
          × (IsSplit s'.trees → IsSplit s.trees))
        ⊎ ((out ≡ panics) × IsSplit s.trees))

-- `lower_get` with the tree in hand.
pub lower_get-held :
    (tree : LocalTree) (flags : Flags) (s : LlFree)
    → flags.order ≤ 10
    → 2 ^ flags.order ≤ tree.free
    → Holding (some tree) s
    → ((new : LocalTree) × (s' : LlFree) × (lower_get tree flags s ≡ returns (ok new, s'))
        × Holding (some new) s'
        × Handed flags.order new.frame s s'
        × (length s'.locals ≡ length s.locals))
      ⊎ ((lower_get tree flags s ≡ returns (err memory, s))
          ⊎ ((lower_get tree flags s ≡ panics) × (1 ≤ (tree_at s.trees (tree.frame / 4096)).huge)))
lower_get-held tree flags s le enough b =
    elim (lower_get-Outcome tree flags s le (Holding-IsReady tree flags.order s b enough)) [
      | inl (new, s', r, a, m) ↦ inl (
        new,
        s',
        r,
        Moves-Holding tree new s s' new.frame (2 ^ flags.order) b a.changes m,
        record { aligned = a.aligned; within = a.within; changes = a.changes },
        ap length m.same_locals,
      )
      | inr (inl (r, _)) ↦ inr (inl r)
      | inr (inr (r, _, _, p)) ↦ inr (inr (r, p))
    ]
