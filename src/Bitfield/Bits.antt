-- ===== src/Bitfield/Bits.antt =====
-- A bitfield as a sequence of bits, and the change of a block of equal bits.
use mathlib.Core.Path.{ap₂}
use native.Mathlib.Decide.{ℕ_discrete, dec_lt}
use llfree_rs.Base.{
  ℕ, zero, suc, ◌+◌, ◌-◌, ◌*◌, ◌/◌, ◌%◌, ◌^◌, ◌≤◌, ◌<◌, ◌≡◌, refl, ap, sym, ◌∙◌, ◌⊎◌, inl, inr,
  Bool, true, false, not, [], ◌∷◌, length, get_or, set, length-set, get_or-set_self, get_or-set_ne,
  arith,
}
use llfree_rs.Word.Bit.{bit, bit-lt, bit_of, sum_below, ones-sum}
use llfree_rs.Word.Sums.{sum_below-ext, sum_below-add, sum_below-block}
use llfree_rs.Word.{ones}
use llfree_rs.Word
use llfree_rs.Bitfield.{Bitfield, len, count_zeros}

unfoldable pub bit_at : Bitfield → ℕ → ℕ
bit_at d j = bit (get_or d (j / 64) 0) (j % 64)

-- Each entry is a 64-bit word.
abbrev pub IsWords : Bitfield → Type 0
IsWords [] = Unit {0}
IsWords (w ∷ d) = (w < 2 ^ 64) × IsWords d

-- The `n` bits from `off` on turn to `v`, and all others stay.
pub record Flips (off n : ℕ) (v : Bool) (d d' : Bitfield) : Type 0 where
  pub same_length : length d' ≡ length d
  pub words : IsWords d → IsWords d'
  pub before : (j : ℕ) → j < n → bit_at d (off + j) ≡ bit_of (not v)
  pub after : (j : ℕ) → j < n → bit_at d' (off + j) ≡ bit_of v
  pub outside : (j : ℕ) → (j < off) ⊎ (off + n ≤ j) → bit_at d' j ≡ bit_at d j

pub set-IsWords : (d : Bitfield) (i v : ℕ) → v < 2 ^ 64 → IsWords d → IsWords (set d i v)
set-IsWords [] i v h k = tt
set-IsWords (w ∷ d) zero v h k = (h, k.1)
set-IsWords (w ∷ d) (suc i) v h k = (k.0, set-IsWords d i v h k.1)

pub get_or-IsWords : (d : Bitfield) (i : ℕ) → IsWords d → get_or d i 0 < 2 ^ 64
get_or-IsWords [] i k = omega arith
get_or-IsWords (w ∷ d) zero k = k.0
get_or-IsWords (w ∷ d) (suc i) k = get_or-IsWords d i k.1

-- A change within one word.
pub set-Flips :
    (d : Bitfield) (i s n w' : ℕ) (v : Bool)
    → i < length d
    → s + n ≤ 64
    → w' < 2 ^ 64
    → Word.Bit.Flips s n v (get_or d i 0) w'
    → Flips (i * 64 + s) n v d (set d i w')
unfolding bit_at
set-Flips d i s n w' v h fits lt f = record {
  same_length = length-set d i w';
  words = set-IsWords d i w' lt;
  before = λ j k. at_word d j k ∙ f.before j k;
  after = λ j k.
      at_word (set d i w') j k
      ∙ ap (λ (t : ℕ). bit t (s + j)) (get_or-set_self 0 d i w' h)
      ∙ f.after j k;
  outside = λ j c. outside j c (ℕ_discrete i (j / 64));
}
  where
    at_word :
        (b : Bitfield) (j : ℕ)
        → j < n
        → bit (get_or b ((i * 64 + s + j) / 64) 0) ((i * 64 + s + j) % 64)
          ≡ bit (get_or b i 0) (s + j)
    at_word b j k =
        let e : (i * 64 + s + j) / 64 ≡ i = omega arith in
        let r : (i * 64 + s + j) % 64 ≡ s + j = omega arith in rw (e, r) refl

    outside :
        (j : ℕ)
        → (j < i * 64 + s) ⊎ (i * 64 + s + n ≤ j)
        → Dec (i ≡ j / 64)
        → bit (get_or (set d i w') (j / 64) 0) (j % 64) ≡ bit (get_or d (j / 64) 0) (j % 64)
    outside j c (no ne) = ap (λ (t : ℕ). bit t (j % 64)) (get_or-set_ne 0 d i (j / 64) w' ne)
    outside j c (yes e) = rw (← e) (
        ap (λ (t : ℕ). bit t (j % 64)) (get_or-set_self 0 d i w' h)
        ∙ f.outside (j % 64) (omega arith))

-- Two changes of adjacent blocks.
pub Flips-trans :
    (off n m : ℕ) (v : Bool) (a b c : Bitfield)
    → Flips off n v a b
    → Flips (off + n) m v b c
    → Flips off (n + m) v a c
Flips-trans off n m v a b c p q = record {
  same_length = q.same_length ∙ p.same_length;
  words = λ k. q.words (p.words k);
  before = λ j k. before j k (dec_lt j n);
  after = λ j k. after j k (dec_lt j n);
  outside = λ j k. q.outside j (omega arith) ∙ p.outside j (omega arith);
}
  where
    before : (j : ℕ) → j < n + m → Dec (j < n) → bit_at a (off + j) ≡ bit_of (not v)
    before j k (yes lt) = p.before j lt
    before j k (no ge) =
        let e : off + j ≡ off + n + (j - n) = omega arith in
        sym (p.outside (off + j) (inr (omega arith)))
        ∙ ap (bit_at b) e
        ∙ q.before (j - n) (omega arith)

    after : (j : ℕ) → j < n + m → Dec (j < n) → bit_at c (off + j) ≡ bit_of v
    after j k (yes lt) = q.outside (off + j) (inl (omega arith)) ∙ p.after j lt
    after j k (no ge) =
        let e : off + j ≡ off + n + (j - n) = omega arith in
        ap (bit_at c) e ∙ q.after (j - n) (omega arith)

pub Flips-nil : (off : ℕ) (v : Bool) (d : Bitfield) → Flips off 0 v d d
Flips-nil off v d = record {
  same_length = refl;
  words = λ k. k;
  before = λ j k. absurd (omega arith);
  after = λ j k. absurd (omega arith);
  outside = λ j k. refl;
}

-- Undoing a change.
pub Flips-sym :
    (off n : ℕ) (v : Bool) (a b : Bitfield)
    → IsWords a
    → Flips off n v a b
    → Flips off n (not v) b a
Flips-sym off n v a b w p = record {
  same_length = sym p.same_length;
  words = λ _. w;
  before = λ j k. p.after j k ∙ ap bit_of (twice v);
  after = λ j k. p.before j k;
  outside = λ j k. sym (p.outside j k);
}
  where
    twice : (b : Bool) → b ≡ not (not b)
    twice true = refl
    twice false = refl

bit_at-cons : (w : ℕ) (d : Bitfield) (j : ℕ) → bit_at (w ∷ d) (64 + j) ≡ bit_at d j
unfolding bit_at
bit_at-cons w d j =
    let e : (64 + j) / 64 ≡ suc (j / 64) = omega arith in
    let r : (64 + j) % 64 ≡ j % 64 = omega arith in rw (e, r) refl

bit_at-head : (w : ℕ) (d : Bitfield) (j : ℕ) → j < 64 → bit_at (w ∷ d) j ≡ bit w j
unfolding bit_at
bit_at-head w d j h =
    let e : j / 64 ≡ 0 = omega arith in let r : j % 64 ≡ j = omega arith in rw (e, r) refl

ones-le : (n w : ℕ) → ones n w ≤ n
unfolding ones
ones-le zero w = omega arith
ones-le (suc n) w = omega (arith, ones-le n (w / 2))

pub count_zeros-cons : (w : ℕ) (d : Bitfield) → count_zeros (w ∷ d) ≡ 64 - ones 64 w + count_zeros d
unfolding count_zeros
count_zeros-cons w d = refl

sum-head :
    (w : ℕ) (d : Bitfield)
    → sum_below (len (w ∷ d)) (bit_at (w ∷ d)) ≡ ones 64 w + sum_below (len d) (bit_at d)
sum-head w d =
    let e : len (w ∷ d) ≡ 64 + len d = omega arith in
    ap (λ (t : ℕ). sum_below t (bit_at (w ∷ d))) e
    ∙ sum_below-add 64 (len d) (bit_at (w ∷ d))
    ∙ ap₂ ◌+◌ (sum_below-ext 64 (bit_at (w ∷ d)) (bit w) (bit_at-head w d) ∙ sym (ones-sum 64 w))
        (sum_below-ext (len d) (λ j. bit_at (w ∷ d) (64 + j)) (bit_at d) (λ j _. bit_at-cons w d j))

sum-nil : count_zeros [] + sum_below (len []) (bit_at []) ≡ len []
unfolding count_zeros sum_below
sum-nil = refl

-- The zeros and the set bits make up the bitfield.
pub count_zeros-sum : (d : Bitfield) → count_zeros d + sum_below (len d) (bit_at d) ≡ len d
count_zeros-sum [] = sum-nil
count_zeros-sum (w ∷ d) =
    omega (arith, count_zeros-sum d, count_zeros-cons w d, sum-head w d, ones-le 64 w)

-- Where the `n` bits from `off` on, within the bitfield, turn to `v` from the other value and all
-- other bits stay, the number of zeros changes by exactly `n`.
pub count_zeros-Flips :
    (off n : ℕ) (v : Bool) (d d' : Bitfield)
    → off + n ≤ len d
    → Flips off n v d d'
    → count_zeros d' + n * bit_of v ≡ count_zeros d + n * bit_of (not v)
count_zeros-Flips off n v d d' fits f =
    let r = len d - off - n in
    let e : len d ≡ off + (n + r) = omega arith in
    let l : len d' ≡ len d = omega (arith, f.same_length) in
    omega (
      arith,
      count_zeros-sum d,
      count_zeros-sum d',
      ap (λ (t : ℕ). sum_below t (bit_at d)) e,
      ap (λ (t : ℕ). sum_below t (bit_at d')) (l ∙ e),
      sum_below-block off n r (bit_of (not v)) (bit_of v) (bit_at d) (bit_at d') f.before f.after
          f.outside,
    )
