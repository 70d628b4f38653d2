-- ===== src/Lower/Query/Totals.antt =====
-- `free_frames` of core/src/lower.rs counts the free frames.
use llfree_rs.Base.{
  ℕ, zero, suc, ◌+◌, ◌-◌, ◌*◌, ◌/◌, ◌%◌, ◌≤◌, ◌<◌, ◌≡◌, refl, ap, sym, ◌∙◌, inl, inr, Bool, true,
  false, not, List, [], ◌∷◌, length, get_or, arith,
}
use llfree_rs.Word.Bit.{bit_of, sum_below}
use llfree_rs.Word.Sums.{sum_below-ext, sum_below-add, sum_below-const, sum_below-block}
use llfree_rs.Bitfield.{Bitfield, len}
use llfree_rs.Bitfield.Bits.{bit_at, count_zeros-sum}
use llfree_rs.Lower.Entry.{HugeEntry, new, free}
use llfree_rs.Lower.Types.{Lower, Table}
use llfree_rs.Lower.Counts.{huge-true, huge-false}
use llfree_rs.Lower.Fields.{count-small, count-Agrees, bit_at-lt}
use llfree_rs.Lower.Frames.{IsValid, IsField, Changes, entry_at, field_at, taken, taken_in}
use llfree_rs.Lower.Blocks.{taken-at}
use llfree_rs.Lower.Query.{table_free, tables_free, free_frames}

pub table_free-sum :
    (es : Table) → table_free es ≡ sum_below (length es) (λ i. free (get_or es i new))
unfolding table_free sum_below
table_free-sum [] = refl
table_free-sum (e ∷ es) = ap (λ (t : ℕ). free e + t) (table_free-sum es)

pub tables_free-sum :
    (ts : List Table)
    → ((t : ℕ) → t < length ts → length (get_or ts t []) ≡ 8)
    → tables_free ts
      ≡ sum_below (length ts * 8) (λ h. free (get_or (get_or ts (h / 8) []) (h % 8) new))
unfolding tables_free sum_below
tables_free-sum [] sizes = refl
tables_free-sum (t ∷ ts) sizes =
    let f : ℕ → ℕ = λ h. free (get_or (get_or (t ∷ ts) (h / 8) []) (h % 8) new) in
    omega (
      arith,
      table_free-sum t,
      ap (λ (n : ℕ). sum_below n (λ i. free (get_or t i new))) (sizes 0 (omega arith)),
      tables_free-sum ts (λ k lt. sizes (suc k) (omega arith)),
      sum_below-add 8 (length ts * 8) f,
      sum_below-ext 8 f (λ i. free (get_or t i new))
          (λ h lt.
            let d : h / 8 ≡ 0 = omega arith in let m : h % 8 ≡ h = omega arith in rw (d, m) refl),
      sum_below-ext (length ts * 8) (λ h. f (8 + h))
          (λ h. free (get_or (get_or ts (h / 8) []) (h % 8) new))
          (λ h lt.
            let d : (8 + h) / 8 ≡ suc (h / 8) = omega arith in
            let m : (8 + h) % 8 ≡ h % 8 = omega arith in rw (d, m) refl),
      ap (λ (n : ℕ). sum_below n f) (total (length ts)),
    )
  where
    total : (n : ℕ) → suc n * 8 ≡ 8 + n * 8
    total n = omega arith

pub sum_below-mul :
    (n k : ℕ) (f : ℕ → ℕ)
    → sum_below (n * k) f ≡ sum_below n (λ h. sum_below k (λ j. f (h * k + j)))
unfolding sum_below
sum_below-mul zero k f = let none : 0 * k ≡ 0 = omega arith in ap (λ (m : ℕ). sum_below m f) none
sum_below-mul (suc n) k f =
    let parts : suc n * k ≡ k + n * k = omega arith in
    ap (λ (m : ℕ). sum_below m f) parts
    ∙ omega (
      arith,
      sum_below-add k (n * k) f,
      sum_below-ext k f (λ j. f (0 * k + j)) (λ j lt. ap f (omega arith)),
      sum_below-mul n k (λ j. f (k + j)),
      sum_below-ext n (λ h. sum_below k (λ j. f (k + (h * k + j))))
          (λ h. sum_below k (λ j. f (suc h * k + j)))
          (λ h lt.
            sum_below-ext k (λ j. f (k + (h * k + j))) (λ j. f (suc h * k + j))
              (λ j j_lt. ap f (omega arith))),
    )

sum_below-not :
    (n : ℕ) (f : ℕ → ℕ) → ((j : ℕ) → f j < 2) → sum_below n (λ j. 1 - f j) + sum_below n f ≡ n
unfolding sum_below
sum_below-not zero f h = refl
sum_below-not (suc n) f h = omega (arith, h 0, sum_below-not n (λ j. f (suc j)) (λ j. h (suc j)))

-- An entry counts the free frames of its huge frame.
pub free-sum :
    (e : HugeEntry) (b : Bitfield) → IsField e b → free e ≡ sum_below 512 (λ j. 1 - taken_in e b j)
free-sum e b f = elim (count-small e b f) [
  | inl marked ↦ rw (huge-true e marked) (sym (sum_below-const 512 0 (λ j. 1 - 1) (λ j lt. refl)))
  | inr small ↦ rw (huge-false e small) (
      omega (
        arith,
        f.size,
        count-Agrees e b f.agrees small,
        count_zeros-sum b,
        ap (λ (n : ℕ). sum_below n (bit_at b)) (whole f.size),
        sum_below-not 512 (bit_at b) (bit_at-lt b),
      ))
]
  where
    whole : length b ≡ 8 → len b ≡ 512
    whole size = omega (arith, size)

-- A huge frame of free frames has all 512 of them in its counter.
pub free-whole :
    (l : Lower) (h : ℕ)
    → IsField (entry_at l h) (field_at l h)
    → ((j : ℕ) → j < 512 → taken l (h * 512 + j) ≡ 0)
    → free (entry_at l h) ≡ 512
free-whole l h f all =
    free-sum (entry_at l h) (field_at l h) f
    ∙ sum_below-const 512 1 (λ j. 1 - taken_in (entry_at l h) (field_at l h) j)
        (λ j lt. omega (arith, taken-at l h j lt, all j lt))

-- In a valid state, `free_frames` is the number of free frames of all bitfields, although it reads
-- the counters only.
pub free_frames-sum :
    (l : Lower)
    → IsValid l
    → free_frames l ≡ sum_below (length l.bitfields * 512) (λ f. 1 - taken l f)
free_frames-sum l v =
    let n = length l.bitfields in
    let r = length l.children * 8 - n in
    let all : length l.children * 8 ≡ n + r = omega (arith, v.covered) in
    let counts : ℕ → ℕ = λ h. free (entry_at l h) in
    tables_free-sum l.children v.tables
    ∙ ap (λ (m : ℕ). sum_below m counts) all
    ∙ sum_below-add n r counts
    ∙ omega (
      arith,
      sum_below-const r 0 (λ h. counts (n + h))
          (λ h lt.
            rw (huge-false (entry_at l (n + h)) (omega (arith, v.beyond (n + h) (omega arith))))
              (v.beyond (n + h) (omega arith))),
      sum_below-ext n counts (λ h. sum_below 512 (λ j. 1 - taken l (h * 512 + j)))
          (λ h lt.
            free-sum (entry_at l h) (field_at l h) (v.fields h lt)
            ∙ sum_below-ext 512 (λ j. 1 - taken_in (entry_at l h) (field_at l h) j)
                (λ j. 1 - taken l (h * 512 + j))
                (λ j j_lt. ap (λ (t : ℕ). 1 - t) (sym (taken-at l h j j_lt)))),
      sum_below-mul n 512 (λ f. 1 - taken l f),
    )

-- A change of `n` frames changes the count by `n`.
pub free_frames-Changes :
    (off n : ℕ) (v : Bool) (l l' : Lower)
    → IsValid l
    → off + n ≤ length l.bitfields * 512
    → Changes off n v l l'
    → free_frames l' + n * bit_of v ≡ free_frames l + n * bit_of (not v)
free_frames-Changes off n v l l' valid fits c =
    let total = length l.bitfields * 512 in
    let r = total - off - n in
    let parts : total ≡ off + (n + r) = omega arith in
    omega (
      arith,
      free_frames-sum l valid,
      free_frames-sum l' c.valid,
      ap (λ (m : ℕ). sum_below (m * 512) (λ f. 1 - taken l' f)) c.same_length,
      ap (λ (m : ℕ). sum_below m (λ f. 1 - taken l f)) parts,
      ap (λ (m : ℕ). sum_below m (λ f. 1 - taken l' f)) parts,
      sum_below-block off n r (bit_of v) (bit_of (not v)) (λ f. 1 - taken l f) (λ f. 1 - taken l' f)
          (λ j lt. ap (λ (t : ℕ). 1 - t) (c.before j lt) ∙ flip v)
          (λ j lt. ap (λ (t : ℕ). 1 - t) (c.after j lt) ∙ flip' v)
          (λ j side. ap (λ (t : ℕ). 1 - t) (c.outside j side)),
    )
  where
    flip : (w : Bool) → 1 - bit_of (not w) ≡ bit_of w
    flip true = refl
    flip false = refl

    flip' : (w : Bool) → 1 - bit_of w ≡ bit_of (not w)
    flip' true = refl
    flip' false = refl
