-- ===== src/LlFree/Balance/Slots.antt =====
-- Allocations in the preferred tree of a core, core/src/llfree.rs: by the core, or as `steal_tree`.
use native.Mathlib.Nat.{mod-lt}
use mathlib.Core.Path.{subst}
use llfree_rs.Base.{
  ℕ, zero, suc, ◌+◌, ◌/◌, ◌%◌, ◌^◌, ◌≤◌, ◌<◌, ◌≡◌, refl, ap, sym, ◌∙◌, inl, inr, Bool, true, false,
  Bool-cases, Option, none, some, List, length, get_or, length-set, set, index-get_or, leb, leb→le,
  ==_iff, ◌&&◌, bind-returns, bind-panics, arith,
}
use llfree_rs.Types.{Flags}
use llfree_rs.Lower.Frames.{IsValid}
use llfree_rs.Util.{count_if}
use llfree_rs.Local.{Kind, LocalTree, Local, empty, preferred, with_preferred, kind_of}
use llfree_rs.LlFree.{LlFree, set_local, steal_from}
use llfree_rs.LlFree.Balance.{
  Balanced, Holding, at, in_slot, in_locals, in_local-with, in_locals-set, frees, huges, one,
  nothing, set_local-Balanced, set_preferred-eq,
}
use llfree_rs.LlFree.Balance.New.{both}
use llfree_rs.LlFree.Balance.Get.{IsReady, Moves, lower_get-Outcome}
use llfree_rs.LlFree.Balance.Hand.{Holding-IsReady, Search}

module _ (s : LlFree) (b : Holding none s) (c : ℕ) (lt : c < length s.locals) (k : Kind)
    (tree : LocalTree) (mine : preferred k (get_or s.locals c empty) ≡ some tree) where
  -- The preferred tree of a core is ready for an allocation.
  pub slot-IsReady : (order : ℕ) → 2 ^ order ≤ tree.free → IsReady tree order s
  slot-IsReady order enough =
      let l = get_or s.locals c empty in
      let share =
        λ (m : LocalTree → ℕ) (t : ℕ). ap (λ (x : Option LocalTree). in_slot m x t) mine in
      let out : Holding (some tree) (set_local c (with_preferred k none l) s) =
        set_local-Balanced nothing nothing nothing (in_slot frees (some tree))
          (in_slot huges (some tree)) (in_slot one (some tree)) s b c (with_preferred k none l) lt
          (λ t. omega (arith, in_local-with frees k none l t, share frees t))
          (λ t. omega (arith, in_local-with huges k none l t, share huges t))
          (λ t. omega (arith, in_local-with one k none l t, share one t)) in
      let r = Holding-IsReady tree order (set_local c (with_preferred k none l) s) out enough in
      record {
        valid = r.valid;
        in_range = r.in_range;
        inside = r.inside;
        reserved = r.reserved;
        enough = r.enough;
        whole = r.whole;
      }

  -- The books after the counters of this tree moved and `x` took its place.
  pub slot-Balanced :
      (F H O : ℕ → ℕ) (new : LocalTree) (s' : LlFree) (x : Option LocalTree)
      → Moves tree new s s'
      → IsValid s'.lower
      → s'.lower.len ≡ s.lower.len
      → length s'.lower.bitfields ≡ length s.lower.bitfields
      → ((t : ℕ) → in_slot frees x t + F t ≡ in_slot frees (some new) t)
      → ((t : ℕ) → in_slot huges x t + H t ≡ in_slot huges (some new) t)
      → ((t : ℕ) → in_slot one x t + O t ≡ in_slot one (some new) t)
      → Balanced F H O (set_local c (with_preferred k x (get_or s'.locals c empty)) s')
  slot-Balanced F H O new s' x m v range size f h o = record {
    valid = v;
    range = omega (arith, b.range, range, size);
    covered = omega (arith, b.covered, size, m.same_length);
    free_balance = λ t. omega (arith, share frees t, f t, b.free_balance t, m.frames t);
    huge_balance = λ t. omega (arith, share huges t, h t, b.huge_balance t, m.huge_frames t);
    owners = λ t. omega (
      arith,
      share one t,
      o t,
      b.owners t,
      ap count_if (m.same_owners t),
      ap (λ (j : ℕ). at j 1 t) m.same_tree,
    );
  }
    where
      share :
          (w : LocalTree → ℕ) (t : ℕ)
          → in_locals w (set s'.locals c (with_preferred k x (get_or s'.locals c empty))) t
              + in_slot w (some tree) t
            ≡ in_locals w s.locals t + in_slot w x t
      share w t =
          let l = get_or s'.locals c empty in
          let same : preferred k l ≡ some tree =
            ap (λ (ls : List Local). preferred k (get_or ls c empty)) m.same_locals ∙ mine in
          omega (
            arith,
            in_locals-set w s'.locals c (with_preferred k x l) t
                (omega (arith, lt, ap length m.same_locals)),
            in_local-with w k x l t,
            ap (λ (ls : List Local). in_locals w ls t) m.same_locals,
            ap (λ (y : Option LocalTree). in_slot w y t) same,
          )

pub enough_frames :
    (flags : Flags) (tree : LocalTree)
    → (leb (2 ^ flags.order) tree.free && leb (2 ^ flags.order / 512) tree.huge) ≡ true
    → 2 ^ flags.order ≤ tree.free
enough_frames flags tree e =
    leb→le (2 ^ flags.order) tree.free
      (both (leb (2 ^ flags.order) tree.free) (leb (2 ^ flags.order / 512) tree.huge) e).0

pub enough_huges :
    (flags : Flags) (tree : LocalTree)
    → (leb (2 ^ flags.order) tree.free && leb (2 ^ flags.order / 512) tree.huge) ≡ true
    → 2 ^ flags.order / 512 ≤ tree.huge
enough_huges flags tree e =
    leb→le (2 ^ flags.order / 512) tree.huge
      (both (leb (2 ^ flags.order) tree.free) (leb (2 ^ flags.order / 512) tree.huge) e).1

-- The search in the trees of the cores.
pub steal_from-Search :
    (busy : ℕ → Bool) (n i core : ℕ) (flags : Flags) (s : LlFree)
    → flags.order ≤ 10
    → 0 < length s.locals
    → Holding none s
    → Search flags.order s (steal_from busy n i core flags s)
unfolding steal_from
steal_from-Search busy zero i core flags s le pos b =
    inr (inl (s, refl, b, refl, refl, refl, λ x. x))
steal_from-Search busy (suc n) i core flags s le pos b =
    let c = (core + i) % length s.locals in
    let lt : c < length s.locals = mod-lt (core + i) pos in
    let read = index-get_or empty s.locals c lt in
    let next = steal_from-Search busy n (i + 1) core flags s le pos b in
    elim (Bool-cases (busy c)) [
      | inl locked ↦ subst (Search flags.order s) (sym (bind-returns _ read ∙ rw locked refl)) next
      | inr free ↦ by_slot (preferred (kind_of flags) (get_or s.locals c empty)) refl free next
    ]
  where
    c : ℕ
    c = (core + i) % length s.locals

    lt : c < length s.locals
    lt = mod-lt (core + i) pos

    kind : Kind
    kind = kind_of flags

    by_slot :
        (x : Option LocalTree)
        → preferred kind (get_or s.locals c empty) ≡ x
        → busy c ≡ false
        → Search flags.order s (steal_from busy n (i + 1) core flags s)
        → Search flags.order s (steal_from busy (suc n) i core flags s)
    by_slot none e free next =
        subst (Search flags.order s)
          (sym (bind-returns _ (index-get_or empty s.locals c lt) ∙ rw (free, e) refl)) next
    by_slot (some tree) e free next =
        elim (Bool-cases
          (leb (2 ^ flags.order) tree.free && leb (2 ^ flags.order / 512) tree.huge)) [
            | inr few ↦
                subst (Search flags.order s)
                  (sym (bind-returns _ (index-get_or empty s.locals c lt) ∙ rw (free, e, few) refl))
                  next
            | inl enough ↦
                elim (lower_get-Outcome tree flags s le (
                  slot-IsReady s b c lt kind tree e flags.order
                    (enough_frames flags tree enough))) [
                      | inl (new, s', r, a, m) ↦
                          let l' = get_or s'.locals c empty in
                          inl (
                            new,
                            set_local c (with_preferred kind none l') s',
                            bind-returns _ (index-get_or empty s.locals c lt)
                                ∙ rw (free, e, enough)
                                    (bind-returns _ r
                                      ∙ rw
                                          ((==_iff (new.frame / 4096) (tree.frame / 4096)).1
                                            m.same_tree)
                                          (bind-returns _ (
                                            set_preferred-eq c kind none s'
                                              (omega (arith, lt, ap length m.same_locals))))),
                            slot-Balanced s b c lt kind tree e (in_slot frees (some new))
                                (in_slot huges (some new)) (in_slot one (some new)) new s' none m
                                a.changes.valid a.changes.same_range a.changes.same_length
                                (λ t. omega arith) (λ t. omega arith) (λ t. omega arith),
                            record { aligned = a.aligned; within = a.within; changes = a.changes },
                            length-set s'.locals c (with_preferred kind none l')
                                ∙ ap length m.same_locals,
                          )
                      | inr (inl (r, _)) ↦
                          subst (Search flags.order s)
                            (sym (
                              bind-returns _ (index-get_or empty s.locals c lt)
                              ∙ rw (free, e, enough) (bind-returns _ r)))
                            next
                      | inr (inr (r, _, _, p)) ↦ inr (
                          inr (
                            bind-returns _ (index-get_or empty s.locals c lt)
                                ∙ rw (free, e, enough) (bind-panics _ r),
                            (
                              tree.frame / 4096,
                              (slot-IsReady s b c lt kind tree e flags.order
                                  (enough_frames flags tree enough)).reserved,
                              p,
                            ),
                          ))
                    ]
          ]
