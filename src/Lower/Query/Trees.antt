-- ===== src/Lower/Query/Trees.antt =====
-- The counters of the tables of core/src/lower.rs, one tree at a time, and how an allocation or a
-- free changes them.
use native.Mathlib.Decide.{dec_lt}
use mathlib.Core.Logic.{◌≢◌}
use llfree_rs.Base.{
  ℕ, ◌+◌, ◌-◌, ◌*◌, ◌/◌, ◌%◌, ◌≤◌, ◌<◌, ◌≡◌, refl, ap, sym, ◌∙◌, ◌⊎◌, inl, inr, Bool, true, false,
  not, [], ◌∷◌, length, get_or, min, ◌==◌, arith,
}
use llfree_rs.Util.{count_if}
use llfree_rs.Word.Bit.{bit_of, sum_below}
use llfree_rs.Word.Sums.{sum_below-ext, sum_below-add, sum_below-const, sum_below-block}
use llfree_rs.Lower.Entry.{HugeEntry, new, free}
use llfree_rs.Lower.Types.{Lower, Table}
use llfree_rs.Lower.Counts.{huge-false}
use llfree_rs.Lower.Frames.{IsValid, Changes, entry_at, field_at, taken, taken_in}
use llfree_rs.Lower.Blocks.{taken-at}
use llfree_rs.Lower.Query.{table_free, table_huge}
use llfree_rs.Lower.Query.Totals.{table_free-sum, free-sum, sum_below-mul}

-- The free frames and the free huge frames of tree `t`, by its eight entries.
abbrev pub tree_free : Lower → ℕ → ℕ
tree_free l t = sum_below 8 (λ i. free (entry_at l (t * 8 + i)))

-- 1 for a huge frame that is free in whole.
abbrev pub whole_at : Lower → ℕ → ℕ
whole_at l h = count_if (free (entry_at l h) == 512)

abbrev pub tree_huge : Lower → ℕ → ℕ
tree_huge l t = sum_below 8 (λ i. whole_at l (t * 8 + i))

table_huge-sum :
    (es : Table)
    → table_huge es ≡ sum_below (length es) (λ i. count_if (free (get_or es i new) == 512))
unfolding table_huge sum_below
table_huge-sum [] = refl
table_huge-sum (e ∷ es) = ap (λ (t : ℕ). count_if (free e == 512) + t) (table_huge-sum es)

module _ (l : Lower) (t : ℕ) (size : length (get_or l.children t []) ≡ 8) where
  entry-at : (i : ℕ) → i < 8 → get_or (get_or l.children t []) i new ≡ entry_at l (t * 8 + i)
  entry-at i lt =
      let d : (t * 8 + i) / 8 ≡ t = omega arith in
      let m : (t * 8 + i) % 8 ≡ i = omega arith in rw (d, m) refl

  pub table_free-tree : table_free (get_or l.children t []) ≡ tree_free l t
  table_free-tree =
      table_free-sum (get_or l.children t [])
      ∙ ap (λ (n : ℕ). sum_below n (λ i. free (get_or (get_or l.children t []) i new))) size
      ∙ sum_below-ext 8 (λ i. free (get_or (get_or l.children t []) i new))
          (λ i. free (entry_at l (t * 8 + i))) (λ i lt. ap free (entry-at i lt))

  pub table_huge-tree : table_huge (get_or l.children t []) ≡ tree_huge l t
  table_huge-tree =
      table_huge-sum (get_or l.children t [])
      ∙ ap
          (λ (n : ℕ).
            sum_below n (λ i. count_if (free (get_or (get_or l.children t []) i new) == 512)))
          size
      ∙ sum_below-ext 8 (λ i. count_if (free (get_or (get_or l.children t []) i new) == 512))
          (λ i. whole_at l (t * 8 + i))
          (λ i lt. ap (λ (e : HugeEntry). count_if (free e == 512)) (entry-at i lt))

module _ (l : Lower) (v : IsValid l) where
  -- The huge frames of the tree that have a bitfield.
  abbrev span : ℕ → ℕ
  span t = min 8 (length l.bitfields - t * 8)

  -- The counters of the tree are the number of its free frames.
  pub tree_free-sum :
      (t : ℕ) → tree_free l t ≡ sum_below (span t * 512) (λ j. 1 - taken l (t * 4096 + j))
  tree_free-sum t =
      let n = span t in
      let r = 8 - n in
      let parts : 8 ≡ n + r = omega arith in
      let f : ℕ → ℕ = λ i. free (entry_at l (t * 8 + i)) in
      ap (λ (m : ℕ). sum_below m f) parts
      ∙ sum_below-add n r f
      ∙ omega (
        arith,
        sum_below-const r 0 (λ i. f (n + i)) (λ i lt. none_free (t * 8 + (n + i)) (omega arith)),
        sum_below-ext n f (λ i. sum_below 512 (λ j. 1 - taken l (t * 4096 + (i * 512 + j))))
            (λ i lt. frames i (omega arith)),
        sum_below-mul n 512 (λ j. 1 - taken l (t * 4096 + j)),
      )
    where
      none_free : (h : ℕ) → length l.bitfields ≤ h → free (entry_at l h) ≡ 0
      none_free h ge = rw (huge-false (entry_at l h) (omega (arith, v.beyond h ge))) (v.beyond h ge)

      frames :
          (i : ℕ)
          → t * 8 + i < length l.bitfields
          → free (entry_at l (t * 8 + i))
            ≡ sum_below 512 (λ j. 1 - taken l (t * 4096 + (i * 512 + j)))
      frames i lt =
          let h = t * 8 + i in
          free-sum (entry_at l h) (field_at l h) (v.fields h lt)
          ∙ sum_below-ext 512 (λ j. 1 - taken_in (entry_at l h) (field_at l h) j)
              (λ j. 1 - taken l (t * 4096 + (i * 512 + j)))
              (λ j j_lt.
                let at : h * 512 + j ≡ t * 4096 + (i * 512 + j) = omega arith in
                ap (λ (x : ℕ). 1 - x) (sym (taken-at l h j j_lt) ∙ ap (taken l) at))

-- The block of frames lies in one tree below the end of the bitfields.
module _ (off n : ℕ) (v : Bool) (l l' : Lower) (valid : IsValid l) (c : Changes off n v l l')
    (in_tree : off + n ≤ (off / 4096 + 1) * 4096) where
  -- The entries of other trees stay.
  elsewhere :
      (t : ℕ) → t ≢ off / 4096 → (i : ℕ) → i < 8 → entry_at l' (t * 8 + i) ≡ entry_at l (t * 8 + i)
  elsewhere t ne i lt =
      c.entries (t * 8 + i) (λ same. ne (omega (arith, same))) (apart (dec_lt t (off / 4096)))
    where
      apart : Dec (t < off / 4096) → ((t * 8 + i) * 512 + 512 ≤ off) ⊎ (off + n ≤ (t * 8 + i) * 512)
      apart (yes before) = inl (omega arith)
      apart (no after) = inr (omega (arith, ne))

  pub tree_free-elsewhere : (t : ℕ) → t ≢ off / 4096 → tree_free l' t ≡ tree_free l t
  tree_free-elsewhere t ne =
      sum_below-ext 8 (λ i. free (entry_at l' (t * 8 + i))) (λ i. free (entry_at l (t * 8 + i)))
        (λ i lt. ap free (elsewhere t ne i lt))

  pub tree_huge-elsewhere : (t : ℕ) → t ≢ off / 4096 → tree_huge l' t ≡ tree_huge l t
  tree_huge-elsewhere t ne =
      sum_below-ext 8 (λ i. whole_at l' (t * 8 + i)) (λ i. whole_at l (t * 8 + i))
        (λ i lt. ap (λ (e : HugeEntry). count_if (free e == 512)) (elsewhere t ne i lt))

  -- In its own tree the block is counted.
  pub tree_free-here :
      off + n ≤ length l.bitfields * 512
      → tree_free l' (off / 4096) + n * bit_of v ≡ tree_free l (off / 4096) + n * bit_of (not v)
  tree_free-here fits =
      let t = off / 4096 in
      let a = off - t * 4096 in
      let m = span l valid t in
      let r = m * 512 - a - n in
      let parts : m * 512 ≡ a + (n + r) = omega arith in
      let same : span l' c.valid t ≡ m = ap (λ (x : ℕ). min 8 (x - t * 8)) c.same_length in
      omega (
        arith,
        tree_free-sum l valid t,
        tree_free-sum l' c.valid t,
        ap (λ (x : ℕ). sum_below (x * 512) (λ j. 1 - taken l' (t * 4096 + j))) same,
        ap (λ (x : ℕ). sum_below x (λ j. 1 - taken l (t * 4096 + j))) parts,
        ap (λ (x : ℕ). sum_below x (λ j. 1 - taken l' (t * 4096 + j))) parts,
        sum_below-block a n r (bit_of v) (bit_of (not v)) (λ j. 1 - taken l (t * 4096 + j))
            (λ j. 1 - taken l' (t * 4096 + j))
            (λ j lt.
              let at : t * 4096 + (a + j) ≡ off + j = omega arith in
              ap (λ (x : ℕ). 1 - taken l x) at ∙ ap (λ (x : ℕ). 1 - x) (c.before j lt) ∙ flip v)
            (λ j lt.
              let at : t * 4096 + (a + j) ≡ off + j = omega arith in
              ap (λ (x : ℕ). 1 - taken l' x) at ∙ ap (λ (x : ℕ). 1 - x) (c.after j lt) ∙ flip' v)
            (λ j side. ap (λ (x : ℕ). 1 - x) (c.outside (t * 4096 + j) (omega arith))),
      )
    where
      flip : (w : Bool) → 1 - bit_of (not w) ≡ bit_of w
      flip true = refl
      flip false = refl

      flip' : (w : Bool) → 1 - bit_of w ≡ bit_of (not w)
      flip' true = refl
      flip' false = refl

  -- The `m` huge frames of the block turn from `x` to `y`.
  pub tree_huge-here :
      (m x y : ℕ)
      → 0 < m
      → off + n ≤ (off / 512 + m) * 512
      → (off / 512 + m) * 512 ≤ (off / 4096 + 1) * 4096
      → ((i : ℕ) → i < m → whole_at l (off / 512 + i) ≡ x)
      → ((i : ℕ) → i < m → whole_at l' (off / 512 + i) ≡ y)
      → tree_huge l' (off / 4096) + m * x ≡ tree_huge l (off / 4096) + m * y
  tree_huge-here m x y pos covers inside before after =
      let t = off / 4096 in
      let a = off / 512 - t * 8 in
      let r = 8 - a - m in
      let parts : 8 ≡ a + (m + r) = omega arith in
      omega (
        arith,
        ap (λ (k : ℕ). sum_below k (λ i. whole_at l (t * 8 + i))) parts,
        ap (λ (k : ℕ). sum_below k (λ i. whole_at l' (t * 8 + i))) parts,
        sum_below-block a m r x y (λ i. whole_at l (t * 8 + i)) (λ i. whole_at l' (t * 8 + i))
            (λ i lt.
              let at : t * 8 + (a + i) ≡ off / 512 + i = omega arith in
              ap (whole_at l) at ∙ before i lt)
            (λ i lt.
              let at : t * 8 + (a + i) ≡ off / 512 + i = omega arith in
              ap (whole_at l') at ∙ after i lt)
            (λ i side.
              ap (λ (e : HugeEntry). count_if (free e == 512))
                (c.entries (t * 8 + i) (λ same. outer i side (omega (arith, same)))
                  (apart i side))),
      )
    where
      outer :
          (i : ℕ)
          → (i < off / 512 - off / 4096 * 8) ⊎ (off / 512 - off / 4096 * 8 + m ≤ i)
          → off / 4096 * 8 + i ≢ off / 512
      outer i side same = omega (arith, side, same)

      apart :
          (i : ℕ)
          → (i < off / 512 - off / 4096 * 8) ⊎ (off / 512 - off / 4096 * 8 + m ≤ i)
          → ((off / 4096 * 8 + i) * 512 + 512 ≤ off) ⊎ (off + n ≤ (off / 4096 * 8 + i) * 512)
      apart i (inl lt) = inl (omega arith)
      apart i (inr ge) = inr (omega arith)
