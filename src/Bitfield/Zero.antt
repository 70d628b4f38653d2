-- ===== src/Bitfield/Zero.antt =====
-- `is_zero` of core/src/bitfield.rs.
use native.Mathlib.Nat.{one-le-pow, mod-add-div, mul-le-mul_left}
use native.Mathlib.Decide.{ℕ_discrete, dec_le}
use mathlib.Core.Logic.{◌≢◌}
use mathlib.Core.Path.{subst}
use llfree_rs.Base.{
  ℕ, ◌+◌, ◌-◌, ◌*◌, ◌/◌, ◌%◌, ◌^◌, ◌≤◌, ◌<◌, ◌≡◌, ap, sym, ◌∙◌, ◌⊎◌, inl, inr, Bool, true, false,
  bit_and, length, index, ◌>>=◌, get_or, index-get_or, ◌==◌, ==_iff, ne→false, lt→ltb, ge→ltb, Run,
  returns, bind-returns, arith,
}
use llfree_rs.Word.Bit.{bit, bit-zero}
use llfree_rs.Word.Split.{two-pow-add}
use llfree_rs.Word.Block.{middle, mask, bit_and-mask}
use llfree_rs.Bitfield.{Bitfield, len, entries_zero, is_zero}
use llfree_rs.Bitfield.Bits.{IsWords, bit_at, get_or-IsWords}
use llfree_rs.Bitfield.Search.{block_place, bit-div}
use llfree_rs.Bitfield.Search.Entries.{AllZero, entries_zero-eq}
use llfree_rs.Bitfield.Toggle.{AllBits, at_word, bit-mod, no_block_in_word}
use llfree_rs.Bitfield.Toggle.Entries.{middle-word}

-- The answer, and what it says of the bits.
abbrev pub Answers : ℕ → ℕ → Bitfield → Run Bool → Type 0
Answers i n d out =
    ((out ≡ returns true) × AllBits i n false d) ⊎ ((out ≡ returns false) × ¬ AllBits i n false d)

-- A block of `n` bits in entry `k`.
module _ (n k s : ℕ) (d : Bitfield) (fits : s + n ≤ 64) (lt : k < length d) (ws : IsWords d) where
  abbrev w : ℕ
  w = get_or d k 0

  clear : middle n s w ≡ 0 → AllBits (k * 64 + s) n false d
  clear h j j_lt =
      at_word k s j d (omega arith)
      ∙ sym (bit-div s w j)
      ∙ sym (bit-mod n (w / 2 ^ s) j j_lt)
      ∙ ap (λ (x : ℕ). bit x j) h
      ∙ bit-zero j

  not_clear : middle n s w ≢ 0 → ¬ AllBits (k * 64 + s) n false d
  unfolding llfree_rs.Word.Bit.block
  not_clear ne = no_block_in_word n k s d fits lt ws false ne

  masked : bit_and w (mask n s) ≡ 2 ^ s * middle n s w
  masked = bit_and-mask n s fits w (get_or-IsWords d k ws)

  word-Answers : Answers (k * 64 + s) n d (returns (bit_and w (mask n s) == 0))
  word-Answers = elim (ℕ_discrete (middle n s w) 0) [
    | yes h ↦
        let none : bit_and w (mask n s) ≡ 0 = omega (arith, masked, ap (λ (t : ℕ). 2 ^ s * t) h) in
        inl (ap (λ (b : Bool). returns b) ((==_iff _ 0).1 none), clear h)
    | no ne ↦
        let some_bit : bit_and w (mask n s) ≢ 0 = λ e.
          omega (
            arith,
            masked,
            e,
            one-le-pow s 2 (omega arith),
            mul-le-mul_left (2 ^ s) (positive ne),
          ) in
        inr (ap (λ (b : Bool). returns b) (ne→false _ 0 some_bit), not_clear ne)
  ]
    where
      positive : middle n s w ≢ 0 → 1 ≤ middle n s w
      positive ne = omega (arith, ne)

-- The entries from `k` on.
entries-Answers :
    (n k : ℕ) (d : Bitfield)
    → k + n ≤ length d
    → IsWords d
    → Answers (k * 64) (n * 64) d (entries_zero n k d)
entries-Answers n k d fits ws = elim (entries_zero-eq n k d fits) [
  | inl (r, all) ↦ inl (r, λ j lt. zeros all j lt)
  | inr (r, (j, p, q, ne)) ↦ inr (r, λ bits. no_entry j p q ne bits)
]
  where
    zeros : AllZero k n d → AllBits (k * 64) (n * 64) false d
    zeros all j lt =
        let at : k * 64 + j ≡ (k + j / 64) * 64 + 0 + j % 64 = omega arith in
        ap (bit_at d) at
        ∙ clear 64 (k + j / 64) 0 d (omega arith) (omega arith) ws
            (middle-word (get_or d (k + j / 64) 0) (get_or-IsWords d (k + j / 64) ws)
              ∙ all (k + j / 64) (omega arith) (omega arith))
            (j % 64) (omega arith)

    no_entry : (j : ℕ) → k ≤ j → j < k + n → get_or d j 0 ≢ 0 → ¬ AllBits (k * 64) (n * 64) false d
    no_entry j p q ne all =
        not_clear 64 j 0 d (omega arith) (omega arith) ws
          (λ h. ne (sym (middle-word (get_or d j 0) (get_or-IsWords d j ws)) ∙ h))
          λ b lt.
            let at : j * 64 + 0 + b ≡ k * 64 + ((j - k) * 64 + b) = omega arith in
            ap (bit_at d) at ∙ all ((j - k) * 64 + b) (omega arith)

-- For every aligned block of 2 ^ order bits within the bitfield, `is_zero` says whether all its
-- bits are zero.
pub is_zero-Answers :
    (i order : ℕ) (d : Bitfield)
    → i % 2 ^ order ≡ 0
    → i + 2 ^ order ≤ len d
    → IsWords d
    → Answers i (2 ^ order) d (is_zero i order d)
unfolding is_zero
is_zero-Answers i order d aligned within ws = elim (dec_le order 6) [
  | yes small ↦
      let n = 2 ^ order in
      let (k, q, place, q_lt, fits) = block_place order i small aligned in
      let room : i % 64 + n ≤ 64 = omega arith in
      let at : i / 64 * 64 + i % 64 ≡ i = omega arith in
      let test : ℕ → Run Bool = λ x. returns (bit_and x (mask n (i % 64)) == 0) in
      let inside : i / 64 < length d = omega (arith, one-le-pow order 2) in
      rw (ge→ltb 64 n (omega arith)) (
        subst (λ (x : ℕ). Answers x n d (index d (i / 64) >>= test)) at
          (subst (Answers (i / 64 * 64 + i % 64) n d)
            (sym (bind-returns test (index-get_or 0 d (i / 64) inside)))
            (word-Answers n (i / 64) (i % 64) d room inside ws)))
  | no large ↦
      let n = 2 ^ (order - 6) in
      let o : order ≡ order - 6 + 6 = omega arith in
      let size : 2 ^ order ≡ n * 64 = ap (λ (t : ℕ). 2 ^ t) o ∙ two-pow-add (order - 6) 6 in
      let whole : i ≡ i / 2 ^ order * 2 ^ order =
        omega (arith, mod-add-div i (2 ^ order), aligned) in
      let place : i / 64 * 64 ≡ i = omega (arith, whole, ap (λ (t : ℕ). i / 2 ^ order * t) size) in
      let more : 2 ≤ n = two-le (order - 6) (omega arith) in
      let count : (i + 2 ^ order) / 64 - i / 64 ≡ n = omega arith in
      rw (lt→ltb 64 (2 ^ order) (omega arith), count)
        (subst (λ (x : ℕ). Answers i x d (entries_zero n (i / 64) d)) (sym size)
          (subst (λ (x : ℕ). Answers x (n * 64) d (entries_zero n (i / 64) d)) place
            (entries-Answers n (i / 64) d (omega arith) ws)))
]
  where
    two-le : (k : ℕ) → 0 < k → 2 ≤ 2 ^ k
    two-le k pos =
        let e : k ≡ k - 1 + 1 = omega arith in
        omega (arith, ap (λ (t : ℕ). 2 ^ t) e, two-pow-add (k - 1) 1, one-le-pow (k - 1) 2)
