-- ===== src/Lower/Recover/Panics.antt =====
-- Where `recover` of core/src/lower.rs reads a bitfield that there is not.
use native.Mathlib.Decide.{dec_lt}
use llfree_rs.Base.{
  bind-panics, ℕ, zero, suc, ◌+◌, ◌*◌, ◌≤◌, ◌<◌, ◌≡◌, refl, ◌∙◌, List, [], ◌∷◌, length, get_or,
  panics, bind-returns, index, index-get_or, set, length-set, arith,
}
use llfree_rs.Bitfield.{Bitfield}
use llfree_rs.Lower.Types.{Lower, Table}
use llfree_rs.Lower.Setup.{recover_entry, recover_table, recover_tables, recover_all}
use llfree_rs.Lower.Recover.All.{recover_table-Recovered}

index-panics {ℓ} : {A : Type ℓ} (xs : List A) (i : ℕ) → length xs ≤ i → index xs i ≡ panics
index-panics [] i h = refl
index-panics (x ∷ xs) zero h = absurd (omega arith)
index-panics (x ∷ xs) (suc i) h = index-panics xs i (omega arith)

recover_table-panics :
    (bi : ℕ) (es : Table) (bs : List Bitfield)
    → length bs < bi + length es
    → bi ≤ length bs
    → recover_table bi es bs ≡ panics
unfolding recover_table
recover_table-panics bi [] bs lt le = absurd (omega arith)
recover_table-panics bi (e ∷ es) bs lt le = elim (dec_lt bi (length bs)) [
  | no ge ↦ bind-panics _ (index-panics bs bi (omega arith))
  | yes inside ↦
      let c = (recover_entry e (get_or bs bi [])).1 in
      bind-returns _ (index-get_or [] bs bi inside)
      ∙ bind-panics _ (
          recover_table-panics (bi + 1) es (set bs bi c) (omega (arith, length-set bs bi c))
            (omega (arith, length-set bs bi c)))
]

recover_tables-panics :
    (i : ℕ) (ts : List Table) (bs : List Bitfield)
    → ((t : ℕ) → t < length ts → length (get_or ts t []) ≡ 8)
    → length bs < (i + length ts) * 8
    → i * 8 ≤ length bs
    → recover_tables i ts bs ≡ panics
unfolding recover_tables
recover_tables-panics i [] bs sizes lt le = absurd (omega arith)
recover_tables-panics i (t ∷ ts) bs sizes lt le =
    let size = sizes 0 (omega arith) in
    elim (dec_lt (length bs) ((i + 1) * 8)) [
      | yes short ↦ bind-panics _ (recover_table-panics (i * 8) t bs (omega (arith, size)) le)
      | no enough ↦
          let (t', bs1, run, r) = recover_table-Recovered (i * 8) t bs (omega (arith, size)) in
          bind-returns _ run
          ∙ bind-panics _ (
              recover_tables-panics (i + 1) ts bs1 (λ k k_lt. sizes (suc k) (omega arith))
                (omega (arith, r.same_length)) (omega (arith, r.same_length)))
    ]

-- Where the last table has entries without a bitfield, that is, where the number of bitfields is
-- no multiple of eight, `recover` panics, whatever the metadata holds.
pub recover_all-panics :
    (l : Lower)
    → ((t : ℕ) → t < length l.children → length (get_or l.children t []) ≡ 8)
    → length l.bitfields < length l.children * 8
    → recover_all l ≡ panics
unfolding recover_all
recover_all-panics l sizes short =
    bind-panics _ (recover_tables-panics 0 l.children l.bitfields sizes (omega arith) (omega arith))
