-- ===== src/Lower/Clients/Held.antt =====
-- The blocks that clients of the lower allocator of core/src/lower.rs hold, across a call.
use native.Mathlib.Decide.{dec_lt, dec_le}
use mathlib.Core.Logic.{◌≢◌}
use mathlib.Core.Path.{subst}
use llfree_rs.Base.{
  ℕ, zero, suc, ◌+◌, ◌-◌, ◌*◌, ◌/◌, ◌%◌, ◌^◌, ◌≤◌, ◌<◌, ◌≡◌, ap, sym, ◌∙◌, ◌⊎◌, inl, inr, Bool,
  true, false, not, if◌then◌else◌, some, List, [], ◌∷◌, length, get_elem?, arith,
}
use llfree_rs.Word.Bit.{bit_of}
use llfree_rs.Bitfield.Bits.{bit_at}
use llfree_rs.Lower.{Lower}
use llfree_rs.Lower.Frames.{IsValid, Changes, entry_at, field_at, taken}
use llfree_rs.Lower.Fields.{bit_at-lt}
use llfree_rs.Lower.Query.{free_frames}
use llfree_rs.Lower.Entry.{HugeEntry, huge}
use llfree_rs.Lower.PutSmall.{Marked}
use llfree_rs.Lower.Clients.{held_frames, Block, System, remove, covers, holders, All}

-- A held block, which the allocator takes back as a whole.
pub record Owned (l : Lower) (b : Block) : Type 0 where
  pub small : b.order ≤ 10
  pub aligned : b.frame % 2 ^ b.order ≡ 0
  pub within : b.frame + 2 ^ b.order ≤ length l.bitfields * 512
  pub marked : 9 ≤ b.order → Marked b.frame (2 ^ b.order) l

-- Compared to the state `base`, exactly the frames of the held blocks are allocated in addition, and
-- the counters have that many fewer.
pub record Accounts (base : Lower) (s : System) : Type 0 where
  pub valid : IsValid s.lower
  pub same_length : length s.lower.bitfields ≡ length base.bitfields
  pub owned : All (Owned s.lower) s.held
  pub frames : (f : ℕ) → taken s.lower f ≡ taken base f + holders s.held f
  pub counts : free_frames s.lower + held_frames s.held ≡ free_frames base

pub taken-lt : (l : Lower) (f : ℕ) → taken l f < 2
unfolding taken
taken-lt l f =
    elim (huge (entry_at l (f / 512)))
      as (λ c. (if c then 1 else bit_at (field_at l (f / 512)) (f % 512)) < 2) [
        | true ↦ omega arith
        | false ↦ bit_at-lt (field_at l (f / 512)) (f % 512)
      ]

pub covers-inside : (b : Block) (f : ℕ) → b.frame ≤ f → f < b.frame + 2 ^ b.order → covers b f ≡ 1
covers-inside b f h k = ground arith

covers-outside : (b : Block) (f : ℕ) → (f < b.frame) ⊎ (b.frame + 2 ^ b.order ≤ f) → covers b f ≡ 0
covers-outside b f (inl h) = ground arith
covers-outside b f (inr h) = ground arith

-- A block that changes as a whole.
pub Changes-covers :
    (b : Block) (v : Bool) (l l' : Lower)
    → Changes b.frame (2 ^ b.order) v l l'
    → (f : ℕ) → taken l' f + covers b f * bit_of (not v) ≡ taken l f + covers b f * bit_of v
Changes-covers b v l l' c f = elim (dec_lt f b.frame) [
  | yes lt ↦ rw (covers-outside b f (inl lt), c.outside f (inl lt)) (omega arith)
  | no ge ↦ elim (dec_le (b.frame + 2 ^ b.order) f) [
    | yes past ↦ rw (covers-outside b f (inr past), c.outside f (inr past)) (omega arith)
    | no inside ↦
        let j = f - b.frame in
        let at : b.frame + j ≡ f = omega arith in
        let one = covers-inside b f (omega arith) (omega arith) in
        let p : taken l f ≡ bit_of (not v) = ap (taken l) (sym at) ∙ c.before j (omega arith) in
        let q : taken l' f ≡ bit_of v = ap (taken l') (sym at) ∙ c.after j (omega arith) in
        rw (one, p, q) (omega arith)
  ]
]

pub All-get {ℓ κ} :
    {A : Type ℓ} (P : A → Type κ) (xs : List A) (i : ℕ) {x : A}
    → get_elem? xs i ≡ some x
    → All P xs
    → P x
All-get P [] i e all = cc
All-get P (y ∷ xs) zero e all = let same : y ≡ _ = cc in subst P same all.0
All-get P (y ∷ xs) (suc i) e all = All-get P xs i e all.1

pub All-remove {κ} : (P : Block → Type κ) (bs : List Block) (i : ℕ) → All P bs → All P (remove i bs)
All-remove P [] i all = tt
All-remove P (b ∷ bs) zero all = all.1
All-remove P (b ∷ bs) (suc i) all = (all.0, All-remove P bs i all.1)

pub holders-remove :
    (bs : List Block) (i : ℕ) {b : Block} (f : ℕ)
    → get_elem? bs i ≡ some b
    → holders (remove i bs) f + covers b f ≡ holders bs f
unfolding holders
holders-remove [] i f e = cc
holders-remove (c ∷ bs) zero {b} f e =
    let same : c ≡ b = cc in rw (ap (λ (x : Block). covers x f) same) (omega arith)
holders-remove (c ∷ bs) (suc i) f e = omega (arith, holders-remove bs i f e)

pub held_frames-remove :
    (bs : List Block) (i : ℕ) {b : Block}
    → get_elem? bs i ≡ some b
    → held_frames (remove i bs) + 2 ^ b.order ≡ held_frames bs
unfolding held_frames
held_frames-remove [] i e = cc
held_frames-remove (c ∷ bs) zero {b} e =
    let same : c ≡ b = cc in rw (ap (λ (x : Block). 2 ^ x.order) same) (omega arith)
held_frames-remove (c ∷ bs) (suc i) e = omega (arith, held_frames-remove bs i e)

-- A change of other frames keeps the marks of a block.
module _ (off n : ℕ) (v : Bool) (l l' : Lower) (pos : 0 < n) (c : Changes off n v l l') where
  Owned-kept :
      (b : Block) → Owned l b → ((f : ℕ) → off ≤ f → f < off + n → covers b f ≡ 0) → Owned l' b
  Owned-kept b w apart = record {
    small = w.small;
    aligned = w.aligned;
    within = omega (arith, w.within, c.same_length);
    marked = λ large k from to.
        ap (λ (e : HugeEntry). e.count) (c.entries k (away k from to) (side k from to))
        ∙ w.marked large k from to;
  }
    where
      off_apart : ¬ ((b.frame ≤ off) × (off < b.frame + 2 ^ b.order))
      off_apart (p, q) =
          omega (arith, apart off (omega arith) (omega arith), covers-inside b off p q)

      away : (k : ℕ) → b.frame ≤ k * 512 → k * 512 + 512 ≤ b.frame + 2 ^ b.order → k ≢ off / 512
      away k from to e = off_apart (omega (arith, e), omega (arith, e))

      side :
          (k : ℕ)
          → b.frame ≤ k * 512
          → k * 512 + 512 ≤ b.frame + 2 ^ b.order
          → (k * 512 + 512 ≤ off) ⊎ (off + n ≤ k * 512)
      side k from to = elim (dec_le (k * 512 + 512) off) [
        | yes before ↦ inl before
        | no ge ↦ elim (dec_le (off + n) (k * 512)) [
          | yes after ↦ inr after
          | no lt ↦ elim (dec_le off (k * 512)) [
            | yes le ↦ absurd (
                omega (
                  arith,
                  apart (k * 512) le (omega arith),
                  covers-inside b (k * 512) from (omega arith),
                ))
            | no gt ↦ absurd (off_apart (omega arith, omega arith))
          ]
        ]
      ]

  pub All-kept :
      (bs : List Block)
      → All (Owned l) bs
      → ((f : ℕ) → off ≤ f → f < off + n → holders bs f ≡ 0)
      → All (Owned l') bs
  unfolding holders
  All-kept [] all apart = tt
  All-kept (b ∷ bs) all apart = (
    Owned-kept b all.0 (λ f p q. omega (arith, apart f p q)),
    All-kept bs all.1 (λ f p q. omega (arith, apart f p q)),
  )
