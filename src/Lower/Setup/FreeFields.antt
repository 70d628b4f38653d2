-- ===== src/Lower/Setup/FreeFields.antt =====
-- The bitfields that `free_all` of core/src/lower.rs writes.
use llfree_rs.Base.{
  ℕ, zero, suc, ◌+◌, ◌-◌, ◌≤◌, ◌<◌, ◌≡◌, refl, ap, sym, ◌∙◌, inl, true, false, List, [], ◌∷◌, map,
  length, length-map, get_or, returns, bind-returns, arith,
}
use llfree_rs.Bitfield.{Bitfield, fill, set, len, count_zeros}
use llfree_rs.Bitfield.Bits.{IsWords, bit_at, count_zeros-sum}
use llfree_rs.Word.Bit.{sum_below}
use llfree_rs.Word.Sums.{sum_below-add, sum_below-const}
use llfree_rs.Bitfield.Range.{set-Sets}
use llfree_rs.Lower.Setup.{free_bitfields}

-- The bitfield of a huge frame with `end` free frames before the others.
pub record IsPartial (end : ℕ) (b : Bitfield) : Type 0 where
  pub size : length b ≡ 8
  pub words : IsWords b
  pub free : (j : ℕ) → j < end → bit_at b j ≡ 0
  pub taken : (j : ℕ) → end ≤ j → j < 512 → bit_at b j ≡ 1

-- Each bitfield of the list has eight words.
pub record AreFields (bs : List Bitfield) : Type 0 where
  pub sizes : (h : ℕ) → h < length bs → length (get_or bs h []) ≡ 8
  pub words : (h : ℕ) → h < length bs → IsWords (get_or bs h [])

pub AreFields-tail : (b : Bitfield) (bs : List Bitfield) → AreFields (b ∷ bs) → AreFields bs
AreFields-tail b bs a = record {
  sizes = λ h lt. a.sizes (suc h) (omega arith);
  words = λ h lt. a.words (suc h) (omega arith);
}

pub record FieldsFree (included end : ℕ) (bs bs' : List Bitfield) : Type 0 where
  pub same_length : length bs' ≡ length bs
  pub full : (h : ℕ) → h < included → get_or bs' h [] ≡ fill false (get_or bs h [])
  pub partial : included < length bs → IsPartial end (get_or bs' included [])

last_field :
    (end : ℕ) (b : Bitfield)
    → end ≤ 512
    → length b ≡ 8
    → IsWords b
    → (b1 : Bitfield) × (b2 : Bitfield) × (set 0 end false b ≡ returns b1)
      × (set end 512 true b1 ≡ returns b2)
      × IsPartial end b2
last_field end b le size ws =
    let (b1, r, c) = set-Sets 0 end false b (omega arith) (omega arith) ws in
    let (b2, r', c') = set-Sets end 512 true b1 le (omega (arith, c.same_length)) c.words in
    (
      b1,
      b2,
      r,
      r',
      record {
        size = c'.same_length ∙ c.same_length ∙ size;
        words = c'.words;
        free = λ j lt.
            let at : 0 + j ≡ j = omega arith in
            c'.outside j (inl lt) ∙ ap (bit_at b1) (sym at) ∙ c.after j (omega arith);
        taken = λ j ge lt.
            let at : end + (j - end) ≡ j = omega arith in
            ap (bit_at b2) (sym at) ∙ c'.after (j - end) (omega arith);
      },
    )

pub free_bitfields-Free :
    (included end : ℕ) (bs : List Bitfield)
    → included ≤ length bs
    → end ≤ 512
    → AreFields bs
    → (bs' : List Bitfield) × (free_bitfields included end bs ≡ returns bs')
      × FieldsFree included end bs bs'
unfolding free_bitfields
free_bitfields-Free zero end [] le e_le a = (
  [],
  refl,
  record {
    same_length = refl;
    full = λ h lt. absurd (omega arith);
    partial = λ lt. absurd (omega arith);
  },
)
free_bitfields-Free zero end (b ∷ bs) le e_le a =
    let (b1, b2, r, r', p) =
      last_field end b e_le (a.sizes 0 (omega arith)) (a.words 0 (omega arith)) in
    (
      b2 ∷ map (fill true) bs,
      bind-returns _ r ∙ bind-returns _ r',
      record {
        same_length = ap suc (length-map bs (fill true));
        full = λ h lt. absurd (omega arith);
        partial = λ _. p;
      },
    )
free_bitfields-Free (suc included) end [] le e_le a = absurd (omega arith)
free_bitfields-Free (suc included) end (b ∷ bs) le e_le a =
    let (rest, r, f) =
      free_bitfields-Free included end bs (omega arith) e_le (AreFields-tail b bs a) in
    (
      fill false b ∷ rest,
      bind-returns _ r,
      record {
        same_length = ap suc f.same_length;
        full = λ h lt. full rest f h lt;
        partial = λ lt. f.partial (omega arith);
      },
    )
  where
    full :
        (rest : List Bitfield)
        → FieldsFree included end bs rest
        → (h : ℕ) → h < suc included
        → get_or (fill false b ∷ rest) h [] ≡ fill false (get_or (b ∷ bs) h [])
    full rest f zero lt = refl
    full rest f (suc h) lt = f.full h (omega arith)

-- Its zeros are the free frames.
pub partial-count_zeros :
    (end : ℕ) (b : Bitfield) → end ≤ 512 → IsPartial end b → count_zeros b ≡ end
partial-count_zeros end b le p =
    let parts : len b ≡ end + (512 - end) = omega (arith, p.size) in
    omega (
      arith,
      p.size,
      count_zeros-sum b,
      ap (λ (t : ℕ). sum_below t (bit_at b)) parts,
      sum_below-add end (512 - end) (bit_at b),
      sum_below-const end 0 (bit_at b) p.free,
      sum_below-const (512 - end) 1 (λ j. bit_at b (end + j))
          (λ j lt. p.taken (end + j) (omega arith) (omega arith)),
    )
