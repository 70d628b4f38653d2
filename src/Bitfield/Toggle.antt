-- ===== src/Bitfield/Toggle.antt =====
-- `toggle` of core/src/bitfield.rs: it flips an aligned block of 2 ^ order equal bits, or leaves the
-- bitfield as it was.
pub mod Entries
use native.Mathlib.Nat.{one-le-pow, mul-le-mul_left, mul-le-mul_right, mod-add-div}
use native.Mathlib.Decide.{ℕ_discrete}
use mathlib.Core.Logic.{◌≢◌}
use mathlib.Core.Path.{fun_ext, subst₂, subst, ap₂}
use llfree_rs.Base.{
  index-get_or, ℕ, zero, suc, ◌+◌, ◌-◌, ◌*◌, ◌/◌, ◌%◌, ◌^◌, ◌≤◌, ◌<◌, ◌≡◌, refl, ap, sym, ◌∙◌, ◌⊎◌,
  inl, inr, Bool, true, false, not, List, [], ◌∷◌, length, get_or, set, Option, none, some, Run,
  returns, index, ◌>>=◌, ==_iff, Result, ok, err, ◌==◌, ltb, leb, if◌then◌else◌, arith, bit_and,
  bit_or, lt→ltb, assert, ne→false, Bool-cases,
}
use llfree_rs.Types.{Res, Error, address, retry}
use llfree_rs.Word.{not64}
use llfree_rs.Word.Bit.{bit, bit-split_low, bit_of, block, around, around-Flips}
use llfree_rs.Word.Block.{
  low, middle, high, parts, low-lt, middle-lt, bits-block, mask, mask-eq, bit_and-mask,
  bit_and-complement, bit_or-mask, around-lt,
}
use llfree_rs.Word
use llfree_rs.Bitfield.{
  Bitfield, len, toggle, toggle_masked, toggle_small, toggle_int, toggle_entries, lane, with_lane,
}
use llfree_rs.Bitfield.Bits.{Flips, IsWords, bit_at, set-Flips, get_or-IsWords}
use llfree_rs.Bitfield.Search.{block_place, bit-div}

-- The `n` bits from `off` on are all `v`.
abbrev pub AllBits : ℕ → ℕ → Bool → Bitfield → Type 0
AllBits off n v d = (j : ℕ) → j < n → bit_at d (off + j) ≡ bit_of v

abbrev pub Toggled : ℕ → ℕ → Bool → Bitfield → Run (Res (Unit {0}) × Bitfield) → Type 0
Toggled off n e d out =
    ((d' : Bitfield) × (out ≡ returns (ok tt, d')) × Flips off n (not e) d d')
    ⊎ ((er : Error) × (out ≡ returns (err er, d)) × ¬ AllBits off n e d)

twice : (b : Bool) → not (not b) ≡ b
twice true = refl
twice false = refl

-- One word `w` with its block of `n` bits from `s` on.
module _ (n s : ℕ) (fits : s + n ≤ 64) (w : ℕ) (w_lt : w < 2 ^ 64) where
  -- The word with the block `v`.
  abbrev pub with_block : Bool → ℕ
  with_block v = around n s (low s w) (high n s w) (low-lt s w) v

  pub masked_flip :
      (e : Bool)
      → middle n s w ≡ block e n
      → toggle_masked (mask n s) e w ≡ some (with_block (not e))
  unfolding toggle_masked block
  masked_flip true h =
      let same : bit_and w (mask n s) ≡ mask n s =
        omega
          (arith, bit_and-mask n s fits w w_lt, mask-eq n s fits, ap (λ (t : ℕ). 2 ^ s * t) h) in
      rw ((==_iff _ _).1 same) (ap some (bit_and-complement n s fits w w_lt))
  masked_flip false h =
      let none_set : bit_and w (mask n s) ≡ 0 =
        omega (arith, bit_and-mask n s fits w w_lt, ap (λ (t : ℕ). 2 ^ s * t) h) in
      rw ((==_iff _ _).1 none_set) (ap some (bit_or-mask n s fits w w_lt))

  pub masked_keep : (e : Bool) → middle n s w ≢ block e n → toggle_masked (mask n s) e w ≡ none
  unfolding toggle_masked block
  masked_keep true h = ground (
    arith,
    bit_and-mask n s fits w w_lt,
    mask-eq n s fits,
    middle-lt n s w,
    mul-le-mul_left (2 ^ s) (less h),
    one-le-pow s 2,
  )
    where
      less : middle n s w ≢ 2 ^ n - 1 → suc (middle n s w) ≤ 2 ^ n - 1
      less ne = omega (arith, middle-lt n s w)
  masked_keep false h =
      ground (arith, bit_and-mask n s fits w w_lt, mul-le-mul_left (2 ^ s) (more h), one-le-pow s 2)
    where
      more : middle n s w ≢ 0 → 1 ≤ middle n s w
      more ne = omega arith

  pub with_lane-eq : (e : Bool) → with_lane n s (block e n) w ≡ with_block e
  with_lane-eq e = omega (arith, parts n s w)

  pub with_block-Flips :
      (e : Bool) → middle n s w ≡ block e n → Word.Bit.Flips s n (not e) w (with_block (not e))
  with_block-Flips e h =
      subst (λ t. Word.Bit.Flips s n (not e) t (with_block (not e))) back
        (around-Flips n s (low s w) (high n s w) (low-lt s w) (not e))
    where
      back : with_block (not (not e)) ≡ w
      back =
          ap with_block (twice e)
          ∙ ap (λ (t : ℕ). low s w + 2 ^ s * (t + 2 ^ n * high n s w)) (sym h)
          ∙ sym (parts n s w)

pub bit-mod : (n x j : ℕ) → j < n → bit (x % 2 ^ n) j ≡ bit x j
bit-mod n x j h =
    let e : x % 2 ^ n + 2 ^ n * (x / 2 ^ n) ≡ x = mod-add-div x (2 ^ n) in
    sym (bit-split_low n (x % 2 ^ n) (x / 2 ^ n) j h) ∙ ap (λ (t : ℕ). bit t j) e

pub at_word :
    (k s j : ℕ) (d : Bitfield) → s + j < 64 → bit_at d (k * 64 + s + j) ≡ bit (get_or d k 0) (s + j)
unfolding bit_at
at_word k s j d h =
    let e : (k * 64 + s + j) / 64 ≡ k = omega arith in
    let r : (k * 64 + s + j) % 64 ≡ s + j = omega arith in
    ap₂ (λ (x y : ℕ). bit (get_or d x 0) y) e r

-- The block in entry `k` of a bitfield.
module _ (n k s : ℕ) (d : Bitfield) (fits : s + n ≤ 64) (lt : k < length d) (ws : IsWords d) where
  abbrev word : ℕ
  word = get_or d k 0

  pub flip_in_word :
      (e : Bool)
      → middle n s word ≡ block e n
      → Flips
          (k * 64 + s)
          n
          (not e)
          d
          (set d k (with_block n s fits word (get_or-IsWords d k ws) (not e)))
  flip_in_word e h =
      let w_lt = get_or-IsWords d k ws in
      set-Flips d k s n (with_block n s fits word w_lt (not e)) (not e) lt fits
        (around-lt n s fits word w_lt (not e)) (with_block-Flips n s fits word w_lt e h)

  pub no_block_in_word : (e : Bool) → middle n s word ≢ block e n → ¬ AllBits (k * 64 + s) n e d
  no_block_in_word e ne all = ne (
      bits-block e n (middle n s word) (middle-lt n s word) λ j h.
        bit-mod n (word / 2 ^ s) j h
        ∙ bit-div s word j
        ∙ sym (at_word k s j d (omega arith))
        ∙ all j h)

abbrev stored : ℕ → Bitfield → Error → Option ℕ → Run (Res (Unit {0}) × Bitfield)
stored k d er (some w') = returns (ok tt, set d k w')
stored k d er none = returns (err er, d)

-- An update of the word `k`, by the integer of `n` bits at the bit offset `s`.
module _ (n k s : ℕ) (d : Bitfield) (fits : s + n ≤ 64) (lt : k < length d) (ws : IsWords d) where
  stored-Toggled :
      (e : Bool) (er : Error) (f : ℕ → Option ℕ)
      → (middle n s (get_or d k 0) ≡ block e n
          → f (get_or d k 0)
            ≡ some (with_block n s fits (get_or d k 0) (get_or-IsWords d k ws) (not e)))
      → (middle n s (get_or d k 0) ≢ block e n → f (get_or d k 0) ≡ none)
      → Toggled (k * 64 + s) n e d (index d k >>= λ w. stored k d er (f w))
  stored-Toggled e er f flip keep =
      let w = get_or d k 0 in
      let w_lt = get_or-IsWords d k ws in
      let run : (index d k >>= λ x. stored k d er (f x)) ≡ stored k d er (f w) =
        ap (λ (r : Run ℕ). r >>= λ x. stored k d er (f x)) (index-get_or 0 d k lt) in
      elim (ℕ_discrete (middle n s w) (block e n)) [
        | yes h ↦ inl (
          set d k (with_block n s fits w w_lt (not e)),
          run ∙ ap (stored k d er) (flip h),
          flip_in_word n k s d fits lt ws e h,
        )
        | no h ↦
            inr (er, run ∙ ap (stored k d er) (keep h), no_block_in_word n k s d fits lt ws e h)
      ]

-- Orders up to 2: a masked update of one word.
pub small-Toggled :
    (order i : ℕ) (e : Bool) (d : Bitfield)
    → i % 64 + 2 ^ order ≤ 64
    → i / 64 < length d
    → IsWords d
    → Toggled i (2 ^ order) e d (toggle_small i order e d)
unfolding toggle_small
small-Toggled order i e d fits lt ws =
    let place : i / 64 * 64 + i % 64 ≡ i = omega arith in
    let n = 2 ^ order in
    let w_lt = get_or-IsWords d (i / 64) ws in
    let run : toggle_small i order e d ≡ (
        index d (i / 64) >>= λ w. stored (i / 64) d address (toggle_masked (mask n (i % 64)) e w)) =
      ap (λ (f : ℕ → Run (Res (Unit {0}) × Bitfield)). index d (i / 64) >>= f)
        (fun_ext λ w. both (toggle_masked (mask n (i % 64)) e w)) in
    subst₂ (λ t out. Toggled t n e d out) place (sym run)
      (stored-Toggled n (i / 64) (i % 64) d fits lt ws e address (toggle_masked (mask n (i % 64)) e)
        (masked_flip n (i % 64) fits (get_or d (i / 64) 0) w_lt e)
        (masked_keep n (i % 64) fits (get_or d (i / 64) 0) w_lt e))
  where
    both :
        (o : Option ℕ)
        → (elim o [
          | some w' ↦ returns (ok tt, set d (i / 64) w')
          | none ↦ returns (err address, d)
        ])
          ≡ stored (i / 64) d address o
    both none = refl
    both (some w') = refl

-- The new word of `toggle_int`, at the integer of `n` bits at the bit offset `s`.
abbrev int_word : ℕ → ℕ → Bool → ℕ → Option ℕ
int_word n s e w =
    if lane n s w == block e n then some (with_lane n s (2 ^ n - 1 - block e n) w) else none

abbrev int_at : ℕ → ℕ → Bool → Bitfield → Run (Res (Unit {0}) × Bitfield)
int_at n x e d = index d (x / 64) >>= λ w.
    if lane n (x % 64) w == block e n
    then returns (ok tt, set d (x / 64) (with_lane n (x % 64) (2 ^ n - 1 - block e n) w))
    else returns (err retry, d)

int_at-eq :
    (n i : ℕ) (e : Bool) (d : Bitfield)
    → i / n * n ≡ i
    → i < len d
    → toggle_int n i e d
      ≡ (index d (i / 64) >>= λ w. stored (i / 64) d retry (int_word n (i % 64) e w))
unfolding toggle_int block
int_at-eq n i e d aligned lt =
    ap (λ (b : Bool). assert b >>= λ _. int_at n (i / n * n) e d) (lt→ltb i (len d) lt)
    ∙ ap (λ (x : ℕ). int_at n x e d) aligned
    ∙ ap (λ (f : ℕ → Run (Res (Unit {0}) × Bitfield)). index d (i / 64) >>= f)
        (fun_ext λ w. both (lane n (i % 64) w == block e n) w)
  where
    both :
        (b : Bool) (w : ℕ)
        → (if b
            then returns (ok tt, set d (i / 64) (with_lane n (i % 64) (2 ^ n - 1 - block e n) w))
            else returns (err retry, d))
          ≡ stored
              (i / 64)
              d
              retry
              (if b then some (with_lane n (i % 64) (2 ^ n - 1 - block e n) w) else none)
    both true w = refl
    both false w = refl

block-not : (e : Bool) (n : ℕ) → 2 ^ n - 1 - block e n ≡ block (not e) n
unfolding block
block-not true n = omega arith
block-not false n = omega arith

-- Orders 3 to 6: an update of an integer of `n` bits.
pub int-Toggled :
    (n i : ℕ) (e : Bool) (d : Bitfield)
    → i / n * n ≡ i
    → i % 64 + n ≤ 64
    → i < len d
    → IsWords d
    → Toggled i n e d (toggle_int n i e d)
int-Toggled n i e d aligned fits lt ws =
    let place : i / 64 * 64 + i % 64 ≡ i = omega arith in
    let w = get_or d (i / 64) 0 in
    let w_lt = get_or-IsWords d (i / 64) ws in
    subst₂ (λ t out. Toggled t n e d out) place (sym (int_at-eq n i e d aligned lt))
      (stored-Toggled n (i / 64) (i % 64) d fits (omega arith) ws e retry (int_word n (i % 64) e)
        (λ h. rw ((==_iff _ _).1 h) (
          ap some (
            ap (λ (v : ℕ). with_lane n (i % 64) v w) (block-not e n)
            ∙ with_lane-eq n (i % 64) fits w w_lt (not e))))
        (λ h. rw (ne→false _ _ h) refl))
