-- ===== src/Lower/Recover/Tables.antt =====
-- `recover` of core/src/lower.rs over the tables and their bitfields.
use native.Mathlib.Decide.{dec_lt}
use llfree_rs.Base.{
  ℕ, zero, suc, ◌+◌, ◌-◌, ◌*◌, ◌/◌, ◌%◌, ◌≤◌, ◌<◌, ◌≡◌, refl, ap, ◌∙◌, inl, inr, List, [], ◌∷◌,
  length, get_or, returns, bind-returns, arith,
}
use llfree_rs.Bitfield.{Bitfield}
use llfree_rs.Lower.Entry.{new}
use llfree_rs.Lower.Types.{Table}
use llfree_rs.Lower.Setup.{recover_entry, recover_tables}
use llfree_rs.Lower.Recover.All.{TableRecovered, recover_table-Recovered}

-- The repaired tables `ts'`, where the bitfields of the first one start at `i * 8`.
pub record TablesRecovered (i : ℕ) (ts : List Table) (bs : List Bitfield) (ts' : List Table)
    (bs' : List Bitfield) : Type 0 where
  pub same_count : length ts' ≡ length ts
  pub same_length : length bs' ≡ length bs
  pub sizes : (t : ℕ) → t < length ts → length (get_or ts' t []) ≡ 8
  pub entries :
      (h : ℕ)
      → h < length ts * 8
      → (get_or (get_or ts' (h / 8) []) (h % 8) new, get_or bs' (i * 8 + h) [])
        ≡ recover_entry (get_or (get_or ts (h / 8) []) (h % 8) new) (get_or bs (i * 8 + h) [])
  pub before : (k : ℕ) → k < i * 8 → get_or bs' k [] ≡ get_or bs k []

TablesRecovered-cons :
    (i : ℕ) (t : Table) (ts : List Table) (bs : List Bitfield) (t' : Table) (bs1 : List Bitfield)
    (ts' : List Table) (bs' : List Bitfield)
    → length t ≡ 8
    → TableRecovered (i * 8) t bs t' bs1
    → TablesRecovered (i + 1) ts bs1 ts' bs'
    → TablesRecovered i (t ∷ ts) bs (t' ∷ ts') bs'
TablesRecovered-cons i t ts bs t' bs1 ts' bs' size r rr = record {
  same_count = ap suc rr.same_count;
  same_length = rr.same_length ∙ r.same_length;
  sizes = sizes;
  entries = λ h lt. entries h lt (dec_lt h 8);
  before = λ k lt. rr.before k (omega arith) ∙ r.outside k (inl lt);
}
  where
    sizes : (k : ℕ) → k < suc (length ts) → length (get_or (t' ∷ ts') k []) ≡ 8
    sizes zero lt = r.same_size ∙ size
    sizes (suc k) lt = rr.sizes k (omega arith)

    entries :
        (h : ℕ)
        → h < suc (length ts) * 8
        → Dec (h < 8)
        → (get_or (get_or (t' ∷ ts') (h / 8) []) (h % 8) new, get_or bs' (i * 8 + h) [])
          ≡ recover_entry
              (get_or (get_or (t ∷ ts) (h / 8) []) (h % 8) new)
              (get_or bs (i * 8 + h) [])
    entries h lt (yes near) =
        let d : h / 8 ≡ 0 = omega arith in
        let m : h % 8 ≡ h = omega arith in
        rw (d, m)
          (ap (λ (b : Bitfield). (get_or t' h new, b)) (rr.before (i * 8 + h) (omega arith))
            ∙ r.entries h (omega arith))
    entries h lt (no far) =
        let k = h - 8 in
        let d : h / 8 ≡ suc (k / 8) = omega arith in
        let m : h % 8 ≡ k % 8 = omega arith in
        let at : i * 8 + h ≡ (i + 1) * 8 + k = omega arith in
        rw (d, m, at)
          (rr.entries k (omega arith)
            ∙ ap (recover_entry (get_or (get_or ts (k / 8) []) (k % 8) new))
                (r.outside ((i + 1) * 8 + k) (inr (omega arith))))

pub recover_tables-Recovered :
    (i : ℕ) (ts : List Table) (bs : List Bitfield)
    → ((t : ℕ) → t < length ts → length (get_or ts t []) ≡ 8)
    → (i + length ts) * 8 ≤ length bs
    → (ts' : List Table) × (bs' : List Bitfield) × (recover_tables i ts bs ≡ returns (ts', bs'))
      × TablesRecovered i ts bs ts' bs'
unfolding recover_tables
recover_tables-Recovered i [] bs sizes le = (
  [],
  bs,
  refl,
  record {
    same_count = refl;
    same_length = refl;
    sizes = λ t lt. absurd (omega arith);
    entries = λ h lt. absurd (omega arith);
    before = λ k lt. refl;
  },
)
recover_tables-Recovered i (t ∷ ts) bs sizes le =
    let size = sizes 0 (omega arith) in
    let (t', bs1, run, r) = recover_table-Recovered (i * 8) t bs (omega (arith, size)) in
    let (ts', bs', run', rr) =
      recover_tables-Recovered (i + 1) ts bs1 (λ k lt. sizes (suc k) (omega arith))
        (omega (arith, r.same_length)) in
    (
      t' ∷ ts',
      bs',
      bind-returns _ run ∙ bind-returns _ run',
      TablesRecovered-cons i t ts bs t' bs1 ts' bs' size r rr,
    )
