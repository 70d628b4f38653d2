-- ===== src/Lower/Recover/All.antt =====
-- `recover` of core/src/lower.rs over all tables: the repair of each entry with its bitfield.
use llfree_rs.Base.{
  ℕ, zero, suc, ◌+◌, ◌≤◌, ◌<◌, ◌≡◌, refl, ap, ◌∙◌, ◌⊎◌, inl, List, [], ◌∷◌, length, get_or, set,
  length-set, get_or-set_self, get_or-set_ne, index-get_or, returns, bind-returns, arith,
}
use llfree_rs.Bitfield.{Bitfield}
use llfree_rs.Lower.Entry.{HugeEntry, new}
use llfree_rs.Lower.Types.{Table}
use llfree_rs.Lower.Setup.{recover_entry, recover_table}

-- The repaired table `es'`, where the bitfield of its entry `j` is the one at `bi + j`.
pub record TableRecovered (bi : ℕ) (es : Table) (bs : List Bitfield) (es' : Table)
    (bs' : List Bitfield) : Type 0 where
  pub same_size : length es' ≡ length es
  pub same_length : length bs' ≡ length bs
  pub entries :
      (j : ℕ)
      → j < length es
      → (get_or es' j new, get_or bs' (bi + j) [])
        ≡ recover_entry (get_or es j new) (get_or bs (bi + j) [])
  pub outside : (k : ℕ) → (k < bi) ⊎ (bi + length es ≤ k) → get_or bs' k [] ≡ get_or bs k []

pub recover_table-Recovered :
    (bi : ℕ) (es : Table) (bs : List Bitfield)
    → bi + length es ≤ length bs
    → (es' : Table) × (bs' : List Bitfield) × (recover_table bi es bs ≡ returns (es', bs'))
      × TableRecovered bi es bs es' bs'
unfolding recover_table
recover_table-Recovered bi [] bs le = (
  [],
  bs,
  refl,
  record {
    same_size = refl;
    same_length = refl;
    entries = λ j lt. absurd (omega arith);
    outside = λ k side. refl;
  },
)
recover_table-Recovered bi (e ∷ es) bs le =
    let (es', bs', run, r) = recover_table-Recovered (bi + 1) es bs1 (omega (arith, len1)) in
    (
      fixed.0 ∷ es',
      bs',
      bind-returns _ (index-get_or [] bs bi (omega arith)) ∙ bind-returns _ run,
      record {
        same_size = ap suc r.same_size;
        same_length = r.same_length ∙ len1;
        entries = λ j lt. entries es' bs' r j lt;
        outside = λ k side.
            r.outside k (omega arith) ∙ get_or-set_ne [] bs bi k fixed.1 (λ s. omega (arith, s));
      },
    )
  where
    fixed : HugeEntry × Bitfield
    fixed = recover_entry e (get_or bs bi [])

    bs1 : List Bitfield
    bs1 = set bs bi fixed.1

    len1 : length bs1 ≡ length bs
    len1 = length-set bs bi fixed.1

    entries :
        (es' : Table) (bs' : List Bitfield)
        → TableRecovered (bi + 1) es bs1 es' bs'
        → (j : ℕ) → j < suc (length es)
        → (get_or (fixed.0 ∷ es') j new, get_or bs' (bi + j) [])
          ≡ recover_entry (get_or (e ∷ es) j new) (get_or bs (bi + j) [])
    entries es' bs' r zero lt =
        let at : bi + 0 ≡ bi = omega arith in
        rw at (
          ap (λ (c : Bitfield). (fixed.0, c))
            (r.outside bi (inl (omega arith)) ∙ get_or-set_self [] bs bi fixed.1 (omega arith)))
    entries es' bs' r (suc j) lt =
        let at : bi + suc j ≡ bi + 1 + j = omega arith in
        rw at (
          r.entries j (omega arith)
          ∙ ap (recover_entry (get_or es j new))
              (get_or-set_ne [] bs bi (bi + 1 + j) fixed.1 (λ s. omega (arith, s))))
