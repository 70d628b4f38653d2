-- ===== src/LlFree/Balance/Range.antt =====
-- The range of the lower allocator in `get` of core/src/llfree.rs: the last bitfield may reach beyond
-- the end of the range, and its frames there are allocated from the start.
use mathlib.Core.Logic.{◌≢◌}
use mathlib.Core.Path.{subst}
use native.Mathlib.Decide.{dec_le}
use native.Mathlib.Nat.{one-le-pow}
use llfree_rs.Base.{
  ℕ, ◌+◌, ◌-◌, ◌*◌, ◌%◌, ◌^◌, ◌≤◌, ◌<◌, ◌≡◌, ◌∙◌, ◌⊎◌, inl, inr, true, none, Run, returns, panics,
  ok, err, arith, Bool, refl, false, length,
}
use llfree_rs.Types.{Res, Init, free_all, alloc_all, recover, memory}
use llfree_rs.Lower.{Lower}
use llfree_rs.Lower.Frames.{Changes, taken}
use llfree_rs.Lower.Setup.{Primary, metadata_size, new}
use llfree_rs.Lower.Setup.Free.{IsCut, Fresh}
use llfree_rs.Lower.Setup.Start.{view, new-Started}
use llfree_rs.LlFree.{LlFree}
use llfree_rs.LlFree.Balance.{Holding}
use llfree_rs.LlFree.Balance.Get.{IsSplit}
use llfree_rs.LlFree.Balance.Hand.{Handed}
use llfree_rs.LlFree.Balance.Found.{Claims}

-- All frames of the bitfields from the end of the range on are allocated.
abbrev pub IsCapped : Lower → Type 0
IsCapped l = (f : ℕ) → l.len ≤ f → f < length l.bitfields * 512 → taken l f ≡ 1

Fresh-IsCapped : (v : Bool) (l l' : Lower) → Fresh v l l' → IsCapped l'
Fresh-IsCapped v l l' fresh f ge lt =
    fresh.behind f (omega (arith, fresh.same_range)) (omega (arith, fresh.same_length))

-- `free_all` and `alloc_all` start so.
pub new-IsCapped :
    (frames : ℕ) (init : Init) (primary : Primary) (l : Lower)
    → IsCut (view frames primary)
    → metadata_size frames ≤ primary.bytes
    → primary.address % 64 ≡ 0
    → ((crashed : Bool) → init ≢ recover crashed)
    → new frames init primary ≡ returns (ok l)
    → IsCapped l
new-IsCapped frames free_all primary l cut enough aligned fresh e =
    let (l', r, f) = new-Started frames free_all primary cut enough aligned (λ z. cc) in
    let same : l' ≡ l = cc in subst IsCapped same (Fresh-IsCapped false (view frames primary) l' f)
new-IsCapped frames alloc_all primary l cut enough aligned fresh e =
    let (l', r, f) = new-Started frames alloc_all primary cut enough aligned (λ z. cc) in
    let same : l' ≡ l = cc in subst IsCapped same (Fresh-IsCapped true (view frames primary) l' f)
new-IsCapped frames (recover crashed) primary l cut enough aligned fresh e =
    absurd (fresh crashed refl)

-- A block that was free lies in the range.
pub Changes-in_range :
    (off n : ℕ) (l l' : Lower)
    → 1 ≤ n
    → off + n ≤ length l.bitfields * 512
    → IsCapped l
    → Changes off n true l l'
    → off + n ≤ l.len
Changes-in_range off n l l' pos within capped c = elim (dec_le (off + n) l.len) [
  | yes le ↦ le
  | no gt ↦ absurd (
      omega
        (arith, capped (off + (n - 1)) (omega arith) (omega arith), c.before (n - 1) (omega arith)))
]

-- A change within the range leaves the frames behind it.
pub Changes-IsCapped :
    (off n : ℕ) (v : Bool) (l l' : Lower)
    → off + n ≤ l.len
    → IsCapped l
    → Changes off n v l l'
    → IsCapped l'
Changes-IsCapped off n v l l' le capped c f ge lt =
    c.outside f (inr (omega (arith, c.same_range)))
    ∙ capped f (omega (arith, c.same_range)) (omega (arith, c.same_length))

-- A block was handed out: it is aligned and in whole below the end of the range, it was free and is
-- allocated, and the frames from the end of the range on still are.
pub record Received (order frame : ℕ) (s s' : LlFree) : Type 0 where
  pub aligned : frame % 2 ^ order ≡ 0
  pub in_range : frame + 2 ^ order ≤ s.lower.len
  pub changes : Changes frame (2 ^ order) true s.lower s'.lower
  pub capped : IsCapped s'.lower

Handed-Received :
    (order frame : ℕ) (s s' : LlFree)
    → IsCapped s.lower
    → Handed order frame s s'
    → Received order frame s s'
Handed-Received order frame s s' capped h =
    let le =
      Changes-in_range frame (2 ^ order) s.lower s'.lower (one-le-pow order 2 (omega arith))
        h.within capped h.changes in
    record {
      aligned = h.aligned;
      in_range = le;
      changes = h.changes;
      capped = Changes-IsCapped frame (2 ^ order) true s.lower s'.lower le capped h.changes;
    }

-- A block of the range is handed out with the books in order, or nothing is allocated, or an
-- assertion fails.
abbrev pub Allocates : ℕ → LlFree → Run (Res ℕ × LlFree) → Type 0
Allocates order s out =
    ((frame : ℕ) × (s' : LlFree) × (out ≡ returns (ok frame, s'))
      × Holding none s'
      × Received order frame s s')
    ⊎ (((s' : LlFree) × (out ≡ returns (err memory, s')) × Holding none s' × (s'.lower ≡ s.lower))
        ⊎ ((out ≡ panics) × IsSplit s.trees))

pub Claims-Allocates :
    (order : ℕ) (s : LlFree) (out : Run (Res ℕ × LlFree))
    → IsCapped s.lower
    → Claims order s out
    → Allocates order s out
Claims-Allocates order s out capped (inl (frame, s', r, b, h)) =
    inl (frame, s', r, b, Handed-Received order frame s s' capped h)
Claims-Allocates order s out capped (inr rest) = inr rest
