-- ===== src/Lower/Clients.antt =====
-- Clients of the lower allocator of core/src/lower.rs: they allocate blocks, hold them, and free
-- blocks that they hold, in any order. One call runs at a time.
pub mod Held
pub mod Safety
mod Tests
use llfree_rs.Base.{
  ℕ, zero, suc, ◌+◌, ◌*◌, ◌^◌, ◌≤◌, ◌<◌, ◌&&◌, leb, ltb, if◌then◌else◌, Option, none, some, List,
  [], ◌∷◌, length, get_elem?, Run, returns, ◌>>=◌, ok, err,
}
use llfree_rs.Types.{o}
use llfree_rs.Lower.{Lower, get, put}

-- The frames `frame` to `frame + 2 ^ order - 1`.
pub record Block : Type 0 where
  pub frame : ℕ
  pub order : ℕ

pub record System : Type 0 where
  pub lower : Lower
  pub held : List Block

-- `allocate start order`: an allocation in the tree of `start`. `release i`: a free of the `i`-th
-- block that is held.
pub data Call : Type 0 where
  allocate : ℕ → ℕ → Call
  release : ℕ → Call

abbrev pub remove : ℕ → List Block → List Block
remove i [] = []
remove zero (b ∷ bs) = bs
remove (suc i) (b ∷ bs) = b ∷ remove i bs

unfoldable pub step : Call → System → Run System
step (allocate start order) s = do
  (got, l) ← get start (o order) s.lower
  elim got [
    | ok (frame, _) ↦
        returns (record { lower = l; held = record { frame = frame; order = order } ∷ s.held })
    | err _ ↦ returns (record s { lower = l })
  ]
step (release i) s = elim (get_elem? s.held i) [
  | none ↦ returns s
  | some b ↦ do
    (done, l) ← put b.frame (o b.order) s.lower
    elim done [
      | ok _ ↦ returns (record { lower = l; held = remove i s.held })
      | err _ ↦ returns (record s { lower = l })
    ]
]

unfoldable pub run : List Call → System → Run System
unfolding step
run [] s = returns s
run (c ∷ cs) s = step c s >>= λ t. run cs t

abbrev pub covers : Block → ℕ → ℕ
covers b f = if leb b.frame f && ltb f (b.frame + 2 ^ b.order) then 1 else 0

-- How many of the blocks have the frame `f`.
unfoldable pub holders : List Block → ℕ → ℕ
holders [] f = 0
holders (b ∷ bs) f = covers b f + holders bs f

-- The frames of the blocks in total.
unfoldable pub held_frames : List Block → ℕ
held_frames [] = 0
held_frames (b ∷ bs) = 2 ^ b.order + held_frames bs

-- The calls name a tree of the allocator and an order that it has.
abbrev pub Legal : Lower → Call → Type 0
Legal l (allocate start order) = (start < length l.bitfields * 512) × (order ≤ 10)
Legal l (release i) = Unit {0}

abbrev pub All {ℓ κ} : {A : Type ℓ} → (A → Type κ) → List A → Type κ
All P [] = Unit
All P (x ∷ xs) = P x × All P xs
