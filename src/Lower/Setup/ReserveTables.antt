-- ===== src/Lower/Setup/ReserveTables.antt =====
-- The counters and bitfields that `reserve_all` of core/src/lower.rs writes.
use native.Mathlib.Decide.{dec_lt}
use llfree_rs.Base.{
  ℕ, zero, suc, ◌+◌, ◌-◌, ◌*◌, ◌/◌, ◌%◌, ◌≤◌, ◌<◌, ◌≡◌, refl, ap, ◌∙◌, true, false, List, [], ◌∷◌,
  map, length, length-map, get_or, ltb, lt→ltb, ge→ltb, if◌then◌else◌, returns, bind-returns, arith,
}
use llfree_rs.Bitfield.{Bitfield, fill}
use llfree_rs.Lower.Entry.{HugeEntry, new, new_free, new_huge}
use llfree_rs.Lower.Types.{Table}
use llfree_rs.Lower.Setup.{reserve_entries, reserve_tables, reserve_bitfields}
use llfree_rs.Lower.Setup.FreeTables.{get_or-map_const}

-- The entry of the huge frame `h`: a huge frame within the range is allocated as such, and one at
-- its end by small frames.
abbrev pub reserved_entry : ℕ → ℕ → HugeEntry
reserved_entry frames h = if ltb h (frames / 512) then new_huge else new_free 0

pub record Reserves (n : ℕ) (es es' : Table) : Type 0 where
  pub same_size : length es' ≡ length es
  pub marked : (i : ℕ) → i < n → get_or es' i new ≡ new_huge
  pub empty : (i : ℕ) → n ≤ i → i < length es → get_or es' i new ≡ new_free 0

reserve_entries-Reserves :
    (n : ℕ) (es : Table)
    → n ≤ length es
    → (es' : Table) × (reserve_entries n es ≡ returns es') × Reserves n es es'
unfolding reserve_entries
reserve_entries-Reserves zero es le = (
  map (λ _. new_free 0) es,
  refl,
  record {
    same_size = length-map es (λ _. new_free 0);
    marked = λ i lt. absurd (omega arith);
    empty = λ i ge lt. get_or-map_const (new_free 0) es i new lt;
  },
)
reserve_entries-Reserves (suc n) [] le = absurd (omega arith)
reserve_entries-Reserves (suc n) (e ∷ es) le =
    let (rest, r, c) = reserve_entries-Reserves n es (omega arith) in
    (
      new_huge ∷ rest,
      bind-returns _ r,
      record {
        same_size = ap suc c.same_size;
        marked = λ i lt. marked rest c i lt;
        empty = λ i ge lt. empty rest c i ge lt;
      },
    )
  where
    marked :
        (rest : Table)
        → Reserves n es rest
        → (i : ℕ) → i < suc n
        → get_or (new_huge ∷ rest) i new ≡ new_huge
    marked rest c zero lt = refl
    marked rest c (suc i) lt = c.marked i (omega arith)

    empty :
        (rest : Table)
        → Reserves n es rest
        → (i : ℕ) → suc n ≤ i
        → i < suc (length es)
        → get_or (new_huge ∷ rest) i new ≡ new_free 0
    empty rest c zero ge lt = absurd (omega arith)
    empty rest c (suc i) ge lt = c.empty i (omega arith) (omega arith)

-- The tables from the `n`-th on.
pub record TablesReserved (n frames : ℕ) (ts ts' : List Table) : Type 0 where
  pub same_count : length ts' ≡ length ts
  pub sizes : (t : ℕ) → t < length ts → length (get_or ts' t []) ≡ 8
  pub entries :
      (h : ℕ)
      → h < length ts * 8
      → get_or (get_or ts' (h / 8) []) (h % 8) new ≡ reserved_entry frames (n * 8 + h)

pub reserve_tables-Reserved :
    (n frames : ℕ) (ts : List Table)
    → 0 < length ts
    → (n + length ts - 1) * 4096 ≤ frames
    → frames ≤ (n + length ts) * 4096
    → ((t : ℕ) → t < length ts → length (get_or ts t []) ≡ 8)
    → (ts' : List Table) × (reserve_tables n frames ts ≡ returns ts')
      × TablesReserved n frames ts ts'
unfolding reserve_tables
reserve_tables-Reserved n frames [] pos full most sizes = absurd (omega arith)
reserve_tables-Reserved n frames (t ∷ []) pos full most sizes =
    let size8 = sizes 0 (omega arith) in
    let (last, r, c) = reserve_entries-Reserves (frames / 512 - n * 8) t (omega (arith, size8)) in
    (
      last ∷ [],
      rw (ge→ltb (frames / 512) (n * 8) (omega arith)) (bind-returns _ r),
      record {
        same_count = refl;
        sizes = λ k lt. size last c k lt;
        entries = λ h lt. entry last c h lt (dec_lt h (frames / 512 - n * 8));
      },
    )
  where
    size :
        (last : Table)
        → Reserves (frames / 512 - n * 8) t last
        → (k : ℕ) → k < 1
        → length (get_or (last ∷ []) k []) ≡ 8
    size last c zero lt = c.same_size ∙ sizes 0 lt
    size last c (suc k) lt = absurd (omega arith)

    entry :
        (last : Table)
        → Reserves (frames / 512 - n * 8) t last
        → (h : ℕ) → h < 8
        → Dec (h < frames / 512 - n * 8)
        → get_or (get_or (last ∷ []) (h / 8) []) (h % 8) new ≡ reserved_entry frames (n * 8 + h)
    entry last c h lt (yes near) =
        let d : h / 8 ≡ 0 = omega arith in
        let m : h % 8 ≡ h = omega arith in
        rw (d, m, lt→ltb (n * 8 + h) (frames / 512) (omega arith)) (c.marked h near)
    entry last c h lt (no far) =
        let d : h / 8 ≡ 0 = omega arith in
        let m : h % 8 ≡ h = omega arith in
        rw (d, m, ge→ltb (n * 8 + h) (frames / 512) (omega arith))
          (c.empty h (omega arith) (omega (arith, sizes 0 (omega arith))))
reserve_tables-Reserved n frames (t ∷ t' ∷ ts) pos full most sizes =
    let (rest, r, f) =
      reserve_tables-Reserved (n + 1) frames (t' ∷ ts) (omega arith) (omega arith) (omega arith)
        (λ k lt. sizes (suc k) (omega arith)) in
    (
      map (λ _. new_huge) t ∷ rest,
      bind-returns _ r,
      record {
        same_count = ap suc f.same_count;
        sizes = λ k lt. size rest f k lt;
        entries = λ h lt. entry rest f h lt (dec_lt h 8);
      },
    )
  where
    head : Table
    head = map (λ _. new_huge) t

    size :
        (rest : List Table)
        → TablesReserved (n + 1) frames (t' ∷ ts) rest
        → (k : ℕ) → k < suc (suc (length ts))
        → length (get_or (head ∷ rest) k []) ≡ 8
    size rest f zero lt = length-map t (λ _. new_huge) ∙ sizes 0 (omega arith)
    size rest f (suc k) lt = f.sizes k (omega arith)

    entry :
        (rest : List Table)
        → TablesReserved (n + 1) frames (t' ∷ ts) rest
        → (h : ℕ) → h < suc (suc (length ts)) * 8
        → Dec (h < 8)
        → get_or (get_or (head ∷ rest) (h / 8) []) (h % 8) new ≡ reserved_entry frames (n * 8 + h)
    entry rest f h lt (yes near) =
        let d : h / 8 ≡ 0 = omega arith in
        let m : h % 8 ≡ h = omega arith in
        rw (d, m, lt→ltb (n * 8 + h) (frames / 512) (omega arith))
          (get_or-map_const new_huge t h new (omega (arith, sizes 0 (omega arith))))
    entry rest f h lt (no far) =
        let k = h - 8 in
        let d : h / 8 ≡ suc (k / 8) = omega arith in
        let m : h % 8 ≡ k % 8 = omega arith in
        let at : n * 8 + h ≡ (n + 1) * 8 + k = omega arith in
        rw (d, m, at) (f.entries k (omega arith))

pub record FieldsReserved (included : ℕ) (bs bs' : List Bitfield) : Type 0 where
  pub same_length : length bs' ≡ length bs
  pub full : (h : ℕ) → h < included → get_or bs' h [] ≡ fill false (get_or bs h [])
  pub rest : (h : ℕ) → included ≤ h → h < length bs → get_or bs' h [] ≡ fill true (get_or bs h [])

filled :
    (bs : List Bitfield) (h : ℕ)
    → h < length bs
    → get_or (map (fill true) bs) h [] ≡ fill true (get_or bs h [])
filled [] h lt = absurd (omega arith)
filled (b ∷ bs) zero lt = refl
filled (b ∷ bs) (suc h) lt = filled bs h (omega arith)

pub reserve_bitfields-Reserved :
    (included : ℕ) (bs : List Bitfield)
    → included ≤ length bs
    → (bs' : List Bitfield) × (reserve_bitfields included bs ≡ returns bs')
      × FieldsReserved included bs bs'
unfolding reserve_bitfields
reserve_bitfields-Reserved zero bs le = (
  map (fill true) bs,
  refl,
  record {
    same_length = length-map bs (fill true);
    full = λ h lt. absurd (omega arith);
    rest = λ h ge lt. filled bs h lt;
  },
)
reserve_bitfields-Reserved (suc included) [] le = absurd (omega arith)
reserve_bitfields-Reserved (suc included) (b ∷ bs) le =
    let (more, r, f) = reserve_bitfields-Reserved included bs (omega arith) in
    (
      fill false b ∷ more,
      bind-returns _ r,
      record {
        same_length = ap suc f.same_length;
        full = λ h lt. full more f h lt;
        rest = λ h ge lt. rest more f h ge lt;
      },
    )
  where
    full :
        (more : List Bitfield)
        → FieldsReserved included bs more
        → (h : ℕ) → h < suc included
        → get_or (fill false b ∷ more) h [] ≡ fill false (get_or (b ∷ bs) h [])
    full more f zero lt = refl
    full more f (suc h) lt = f.full h (omega arith)

    rest :
        (more : List Bitfield)
        → FieldsReserved included bs more
        → (h : ℕ) → suc included ≤ h
        → h < suc (length bs)
        → get_or (fill false b ∷ more) h [] ≡ fill true (get_or (b ∷ bs) h [])
    rest more f zero ge lt = absurd (omega arith)
    rest more f (suc h) ge lt = f.rest h (omega arith) (omega arith)
