-- ===== src/Lower/Fields.antt =====
-- The changes of one huge frame, its entry and its bitfield, that the operations of
-- core/src/lower.rs make.
use native.Mathlib.Decide.{ℕ_discrete}
use llfree_rs.Base.{
  ℕ, zero, suc, ◌+◌, ◌-◌, ◌*◌, ◌≤◌, ◌<◌, ◌≡◌, refl, ap, sym, ◌∙◌, ◌⊎◌, inl, inr, Bool, true, false,
  not, length, if◌then◌else◌, arith,
}
use llfree_rs.Word.Bit.{bit-lt, bit_of, sum_below}
use llfree_rs.Word.Sums.{sum_below-add, sum_below-const}
use llfree_rs.Bitfield.{Bitfield, len, count_zeros}
use llfree_rs.Bitfield.Bits.{bit_at, Flips, count_zeros-sum, count_zeros-Flips}
use llfree_rs.Lower.Entry.{new, HugeEntry, new_huge, new_free, u16_max}
use llfree_rs.Lower.Frames.{IsField, Agrees, FieldChanges, taken_in}
use llfree_rs.Lower.Counts.{count_zeros-le, huge-false, huge-true}

sum_below-zero : (n : ℕ) (f : ℕ → ℕ) → sum_below n f ≡ 0 → (j : ℕ) → j < n → f j ≡ 0
unfolding sum_below
sum_below-zero zero f h j lt = absurd (omega arith)
sum_below-zero (suc n) f h zero lt = omega arith
sum_below-zero (suc n) f h (suc j) lt =
    sum_below-zero n (λ k. f (suc k)) (omega arith) j (omega arith)

-- A bitfield with 512 zeros has no set bit.
pub all_zero :
    (b : Bitfield) → length b ≡ 8 → count_zeros b ≡ 512 → (j : ℕ) → j < 512 → bit_at b j ≡ 0
all_zero b size h j lt =
    sum_below-zero (len b) (bit_at b) (omega (arith, count_zeros-sum b)) j (omega arith)

sum_below-le : (n : ℕ) (f : ℕ → ℕ) → ((j : ℕ) → f j < 2) → sum_below n f ≤ n
unfolding sum_below
sum_below-le zero f h = omega arith
sum_below-le (suc n) f h = omega (arith, h 0, sum_below-le n (λ k. f (suc k)) (λ k. h (suc k)))

pub bit_at-lt : (b : Bitfield) (j : ℕ) → bit_at b j < 2
unfolding bit_at
bit_at-lt b j = bit-lt _ _

-- A block without a set bit is counted.
pub zeros-le :
    (off n : ℕ) (b : Bitfield)
    → length b ≡ 8
    → off + n ≤ 512
    → ((j : ℕ) → j < n → bit_at b (off + j) ≡ 0)
    → n ≤ count_zeros b
zeros-le off n b size fits zeros =
    let r = 512 - off - n in
    let parts : len b ≡ off + (n + r) = omega (arith, size) in
    omega (
      arith,
      size,
      count_zeros-sum b,
      ap (λ (t : ℕ). sum_below t (bit_at b)) parts,
      sum_below-add off (n + r) (bit_at b),
      sum_below-add n r (λ j. bit_at b (off + j)),
      sum_below-le off (bit_at b) (bit_at-lt b),
      sum_below-const n 0 (λ j. bit_at b (off + j)) zeros,
      sum_below-le r (λ j. bit_at b (off + (n + j))) (λ j. bit_at-lt b (off + (n + j))),
    )

-- A bitfield without a zero has all bits set.
pub all_one : (b : Bitfield) → length b ≡ 8 → count_zeros b ≡ 0 → (j : ℕ) → j < 512 → bit_at b j ≡ 1
all_one b size h j lt = elim (ℕ_discrete (bit_at b j) 1) [
  | yes one ↦ one
  | no ne ↦ absurd (
      omega (
        arith,
        h,
        zeros-le j 1 b size (omega arith) λ k k_lt.
            let at : j + k ≡ j = omega arith in ap (bit_at b) at ∙ omega (arith, bit_at-lt b j, ne),
      ))
]

-- A block of set bits is not counted.
pub ones-le :
    (off n : ℕ) (b : Bitfield)
    → length b ≡ 8
    → off + n ≤ 512
    → ((j : ℕ) → j < n → bit_at b (off + j) ≡ 1)
    → count_zeros b + n ≤ 512
ones-le off n b size fits set_bits =
    let r = 512 - off - n in
    let parts : len b ≡ off + (n + r) = omega (arith, size) in
    omega (
      arith,
      size,
      count_zeros-sum b,
      ap (λ (t : ℕ). sum_below t (bit_at b)) parts,
      sum_below-add off (n + r) (bit_at b),
      sum_below-add n r (λ j. bit_at b (off + j)),
      sum_below-const n 1 (λ j. bit_at b (off + j)) set_bits,
    )

-- An entry that is not huge counts the zeros.
pub count-Agrees :
    (e : HugeEntry) (b : Bitfield) → Agrees e b → e.count ≤ 512 → e.count ≡ count_zeros b
count-Agrees e b (inl (h, _)) le = absurd (omega arith)
count-Agrees e b (inr h) le = h

pub count-small :
    (e : HugeEntry) (b : Bitfield) → IsField e b → (e.count ≡ u16_max) ⊎ (e.count ≤ 512)
count-small e b f = elim f.agrees [
  | inl (h, _) ↦ inl h
  | inr h ↦ inr (omega (arith, count_zeros-le b f.size))
]

module _ (e : HugeEntry) (b : Bitfield) (f : IsField e b) where
  pub small_taken : (j : ℕ) → e.count ≤ 512 → taken_in e b j ≡ bit_at b j
  small_taken j le = ap (λ (c : Bool). if c then 1 else bit_at b j) (huge-false e le)

  pub huge_taken : (j : ℕ) → e.count ≡ u16_max → taken_in e b j ≡ 1
  huge_taken j h = ap (λ (c : Bool). if c then 1 else bit_at b j) (huge-true e h)

  -- A block of the bitfield changes, and the counter with it.
  module _ (off n c : ℕ) (v : Bool) (b' : Bitfield) (small : e.count ≤ 512) (fits : off + n ≤ 512)
      (flips : Flips off n v b b') (count : c + n * bit_of v ≡ e.count + n * bit_of (not v)) where
    size' : length b' ≡ 8
    size' = flips.same_length ∙ f.size

    count' : c ≡ count_zeros b'
    count' = omega (
      arith,
      count,
      count-Agrees e b f.agrees small,
      count_zeros-Flips off n v b b' (omega (arith, f.size)) flips,
    )

    pub flips-IsField : IsField (record { count = c }) b'
    flips-IsField = record { size = size'; words = flips.words f.words; agrees = inr count' }

    pub flips-FieldChanges : FieldChanges off n v e b (record { count = c }) b'
    flips-FieldChanges = record {
      before = λ j k. small_taken (off + j) small ∙ flips.before j k;
      after = λ j k. new_taken (off + j) ∙ flips.after j k;
      outside = λ j _ side. new_taken j ∙ flips.outside j side ∙ sym (small_taken j small);
    }
      where
        new_taken : (j : ℕ) → taken_in (record { count = c }) b' j ≡ bit_at b' j
        new_taken j =
            let le : c ≤ 512 = omega (arith, count', count_zeros-le b' size') in
            ap (λ (x : Bool). if x then 1 else bit_at b' j) (huge-false (record { count = c }) le)

  -- A free huge frame is allocated at once.
  module _ (empty : e.count ≡ 512) where
    zeros : count_zeros b ≡ 512
    zeros = sym (count-Agrees e b f.agrees (omega arith)) ∙ empty

    pub mark-IsField : IsField new_huge b
    mark-IsField = record { size = f.size; words = f.words; agrees = inl (refl, zeros) }

    pub mark-FieldChanges : FieldChanges 0 512 true e b new_huge b
    mark-FieldChanges = record {
      before =
          λ j k. small_taken (0 + j) (omega arith) ∙ all_zero b f.size zeros (0 + j) (omega arith);
      after = λ j k. refl;
      outside = λ j lt side. absurd (omega arith);
    }

  -- An allocated huge frame is freed at once.
  module _ (marked : e.count ≡ u16_max) where
    pub huge_zeros : count_zeros b ≡ 512
    huge_zeros = elim f.agrees [
      | inl (_, z) ↦ z
      | inr s ↦ absurd (omega (arith, count_zeros-le b f.size, s))
    ]

    pub unmark-IsField : IsField (new_free 512) b
    unmark-IsField = record { size = f.size; words = f.words; agrees = inr (sym huge_zeros) }

    pub unmark-FieldChanges : FieldChanges 0 512 false e b (new_free 512) b
    unmark-FieldChanges = record {
      before = λ j k. huge_taken (0 + j) marked;
      after = λ j k. all_zero b f.size huge_zeros (0 + j) (omega arith);
      outside = λ j lt side. absurd (omega arith);
    }

  -- An allocated huge frame is split: all its bits are set instead.
  module _ (marked : e.count ≡ u16_max) (b' : Bitfield) (flips : Flips 0 512 true b b') where
    split_size : length b' ≡ 8
    split_size = flips.same_length ∙ f.size

    pub split-IsField : IsField new b'
    split-IsField =
        let counts : count_zeros b' + 512 * 1 ≡ count_zeros b + 512 * 0 =
          count_zeros-Flips 0 512 true b b' (omega (arith, f.size)) flips in
        record {
          size = split_size;
          words = flips.words f.words;
          agrees = inr (omega (arith, counts, huge_zeros marked));
        }

    pub split-FieldChanges : FieldChanges 0 0 true e b new b'
    split-FieldChanges = record {
      before = λ j k. absurd (omega arith);
      after = λ j k. absurd (omega arith);
      outside = λ j lt _.
          let at : j ≡ 0 + j = omega arith in
          ap (bit_at b') at ∙ flips.after j lt ∙ sym (huge_taken j marked);
    }
