-- ===== src/Lower/Clients/Safety.antt =====
-- What the clients of the lower allocator of core/src/lower.rs can rely on.
use native.Mathlib.Decide.{dec_lt}
use native.Mathlib.Nat.{one-le-pow}
use mathlib.Core.Path.{subst}
use llfree_rs.Base.{
  ℕ, ◌+◌, ◌-◌, ◌/◌, ◌^◌, ◌≤◌, ◌<◌, ◌≡◌, refl, ap, sym, ◌∙◌, inl, inr, Bool, true, false, some, List,
  [], ◌∷◌, length, get_elem?, returns, ok, arith, bind-returns, Option-cases,
}
use llfree_rs.Types.{o}
use llfree_rs.Lower.{Lower, put}
use llfree_rs.Lower.Frames.{IsValid, Changes, taken}
use llfree_rs.Lower.Blocks.{Allocated}
use llfree_rs.Lower.GetMax.Loop.{get-Gets}
use llfree_rs.Lower.Put.Whole.{put-Puts}
use llfree_rs.Lower.Query.Totals.{free_frames-Changes}
use llfree_rs.Lower.Clients.{
  held_frames, Block, System, Call, allocate, release, remove, step, run, holders, Legal, All,
}
use llfree_rs.Lower.Clients.Held.{
  Owned, Accounts, taken-lt, covers-inside, Changes-covers, All-get, All-remove, holders-remove,
  held_frames-remove, All-kept,
}

module _ (base : Lower) (s : System) (a : Accounts base s) where
  -- A block that is held is allocated, and nobody else holds a frame of it.
  held-taken :
      (i : ℕ) (b : Block)
      → get_elem? s.held i ≡ some b
      → (f : ℕ) → b.frame ≤ f
      → f < b.frame + 2 ^ b.order
      → (taken s.lower f ≡ 1) × (holders (remove i s.held) f ≡ 0)
  held-taken i b e f p q =
      let one = covers-inside b f p q in
      let sum = holders-remove s.held i f e in
      (
        omega (arith, one, sum, a.frames f, taken-lt s.lower f),
        omega (arith, one, sum, a.frames f, taken-lt s.lower f),
      )

  -- So the allocator takes it back.
  pub put-held :
      (i : ℕ) (b : Block)
      → get_elem? s.held i ≡ some b
      → (fr : Bool) × (l : Lower) × (put b.frame (o b.order) s.lower ≡ returns (ok fr, l))
        × Changes b.frame (2 ^ b.order) false s.lower l
  put-held i b e =
      let w = All-get (Owned s.lower) s.held i e a.owned in
      elim (put-Puts b.frame (o b.order) s.lower a.valid w.small w.aligned w.within) [
        | inl (fr, l, r, c, _) ↦ (fr, l, r, c)
        | inr (_, refused) ↦ elim (dec_lt b.order 9) [
          | yes lt ↦ absurd (
              refused.0 lt λ j j_lt. (held-taken i b e (b.frame + j) (omega arith) (omega arith)).0)
          | no ge ↦ absurd (refused.1 (omega arith) (w.marked (omega arith)))
        ]
      ]

  release-Accounts :
      (i : ℕ) (b : Block) (l : Lower)
      → get_elem? s.held i ≡ some b
      → Changes b.frame (2 ^ b.order) false s.lower l
      → Accounts base (record { lower = l; held = remove i s.held })
  release-Accounts i b l e c = record {
    valid = c.valid;
    same_length = c.same_length ∙ a.same_length;
    owned =
        All-kept b.frame (2 ^ b.order) false s.lower l (one-le-pow b.order 2 (omega arith)) c
          (remove i s.held) (All-remove (Owned s.lower) s.held i a.owned)
          (λ f p q. (held-taken i b e f p q).1);
    frames = λ f.
        omega
          (arith, a.frames f, holders-remove s.held i f e, Changes-covers b false s.lower l c f);
    counts = omega (
      arith,
      a.counts,
      held_frames-remove s.held i e,
      free_frames-Changes b.frame (2 ^ b.order) false s.lower l a.valid
          (All-get (Owned s.lower) s.held i e a.owned).within c,
    );
  }

  allocate-Accounts :
      (start order frame : ℕ) (l : Lower)
      → order ≤ 10
      → Allocated start order frame s.lower l
      → Accounts base
          (record { lower = l; held = record { frame = frame; order = order } ∷ s.held })
  unfolding holders held_frames
  allocate-Accounts start order frame l le m =
      let b : Block = record { frame = frame; order = order } in
      let c = m.changes in
      record {
        valid = c.valid;
        same_length = c.same_length ∙ a.same_length;
        owned = (
          record {
            small = le;
            aligned = m.aligned;
            within = omega (arith, m.within, c.same_length);
            marked = m.marked;
          },
          All-kept frame (2 ^ order) true s.lower l (one-le-pow order 2 (omega arith)) c s.held
              a.owned
              (λ f p q.
                let at : frame + (f - frame) ≡ f = omega arith in
                let zero_at : taken s.lower f ≡ 0 =
                  ap (taken s.lower) (sym at) ∙ c.before (f - frame) (omega arith) in
                omega (arith, zero_at, a.frames f)),
        );
        frames = λ f. omega (arith, a.frames f, Changes-covers b true s.lower l c f);
        counts = omega (
          arith,
          a.counts,
          free_frames-Changes frame (2 ^ order) true s.lower l a.valid m.within c,
        );
      }

  -- Each call runs to its end and keeps the account.
  step-Accounts :
      (c : Call) → Legal base c → (t : System) × (step c s ≡ returns t) × Accounts base t
  unfolding step
  step-Accounts (allocate start order) legal =
      let in_range : start / 4096 < length s.lower.children =
        omega (arith, legal.0, a.same_length, a.valid.covered) in
      elim (get-Gets start (o order) s.lower a.valid in_range legal.1) [
        | inl (frame, fr, l, e, m, _) ↦ (
          record { lower = l; held = record { frame = frame; order = order } ∷ s.held },
          bind-returns _ e,
          allocate-Accounts start order frame l legal.1 m,
        )
        | inr (e, _) ↦ (s, bind-returns _ e, a)
      ]
  step-Accounts (release i) legal = elim (Option-cases (get_elem? s.held i)) [
    | inl nothing ↦ (s, rw (step, nothing) refl, a)
    | inr (b, e) ↦
        let (fr, l, r, c) = put-held i b e in
        (
          record { lower = l; held = remove i s.held },
          rw (step, e) (bind-returns _ r),
          release-Accounts i b l e c,
        )
  ]

initial : (base : Lower) → IsValid base → Accounts base (record { lower = base; held = [] })
unfolding holders held_frames
initial base v = record {
  valid = v;
  same_length = refl;
  owned = tt;
  frames = λ f. omega arith;
  counts = omega arith;
}

run-keeps :
    (base : Lower) (cs : List Call) (s : System)
    → All (Legal base) cs
    → Accounts base s
    → (t : System) × (run cs s ≡ returns t) × Accounts base t
unfolding run
run-keeps base [] s legal a = (s, refl, a)
run-keeps base (c ∷ cs) s legal a =
    let (t, e, b) = step-Accounts base s a c legal.0 in
    let (u, r, d) = run-keeps base cs t legal.1 b in (u, bind-returns _ e ∙ r, d)

-- From a valid state, clients that allocate blocks in trees of the allocator, for orders up to 10,
-- and free blocks that they hold, in any order, never make it panic. At the end the state is valid
-- and exactly the frames of the held blocks are allocated in addition to those at the start: no
-- frame is in two held blocks or in one that was allocated at the start, and none is lost. The
-- frames that `free_frames` counts and those of the held blocks make up the count at the start.
pub run-Accounts :
    (base : Lower) (cs : List Call)
    → IsValid base
    → All (Legal base) cs
    → (s : System) × (run cs (record { lower = base; held = [] }) ≡ returns s)
      × Accounts base s
      × ((f : ℕ) → taken base f + holders s.held f ≤ 1)
run-Accounts base cs v legal =
    let (s, r, a) = run-keeps base cs (record { lower = base; held = [] }) legal (initial base v) in
    (s, r, a, λ f. omega (arith, a.frames f, taken-lt s.lower f))

-- After any such calls, a free of a block that is held succeeds and frees exactly its frames, for
-- every order.
pub run-put :
    (base : Lower) (cs : List Call) (s : System) (i : ℕ) (b : Block)
    → IsValid base
    → All (Legal base) cs
    → run cs (record { lower = base; held = [] }) ≡ returns s
    → get_elem? s.held i ≡ some b
    → (fr : Bool) × (l : Lower) × (put b.frame (o b.order) s.lower ≡ returns (ok fr, l))
      × Changes b.frame (2 ^ b.order) false s.lower l
run-put base cs s i b v legal r e =
    let (t, r', a) =
      run-keeps base cs (record { lower = base; held = [] }) legal (initial base v) in
    let same : t ≡ s = cc in put-held base s (subst (Accounts base) same a) i b e
