-- ===== src/Lower/Recover.antt =====
-- The repair of one huge frame by `recover` of core/src/lower.rs.
pub mod All
pub mod Tables
pub mod Whole
pub mod Panics
mod Tests
use native.Mathlib.Decide.{ℕ_discrete}
use mathlib.Core.Logic.{◌≢◌}
use llfree_rs.Base.{
  suc, ◌*◌, ◌≡◌, refl, ap, ◌∙◌, inl, inr, false, [], ◌∷◌, length, ==_iff, ne→false, arith,
}
use llfree_rs.Bitfield.{Bitfield, count_zeros, fill}
use llfree_rs.Bitfield.Bits.{IsWords}
use llfree_rs.Word.{ones}
use llfree_rs.Lower.Entry.{HugeEntry, u16_max}
use llfree_rs.Lower.Frames.{IsField}
use llfree_rs.Lower.Setup.{recover_entry}
use llfree_rs.Lower.Counts.{new_free-count, count_zeros-le}

-- After the repair, entry and bitfield agree; a huge allocation stays one, and any other entry
-- keeps its bitfield.
pub record Recovered (e : HugeEntry) (b : Bitfield) (r : HugeEntry × Bitfield) : Type 0 where
  pub field : IsField r.0 r.1
  pub keeps_huge : e.count ≡ u16_max → r.0 ≡ e
  pub keeps_bits : e.count ≢ u16_max → r.1 ≡ b
  pub counts : e.count ≢ u16_max → r.0.count ≡ count_zeros b

pub fill-false :
    (b : Bitfield)
    → (IsWords (fill false b))
      × (length (fill false b) ≡ length b)
      × (count_zeros (fill false b) ≡ length b * 64)
unfolding fill count_zeros ones
fill-false [] = (tt, refl, refl)
fill-false (w ∷ b) =
    let (ws, len, zeros) = fill-false b in ((omega arith, ws), ap suc len, omega (arith, zeros))

-- Whatever a crash left in an entry and in its bitfield of eight words, `recover` makes the two
-- agree: an entry marked as huge stays so and its bitfield is empty, and any other entry counts
-- the zeros of its bitfield, which stays as it was.
pub recover_entry-Recovered :
    (e : HugeEntry) (b : Bitfield) → length b ≡ 8 → IsWords b → Recovered e b (recover_entry e b)
unfolding recover_entry
recover_entry-Recovered e b size words = elim (ℕ_discrete e.count u16_max) [
  | yes marked ↦ elim (ℕ_discrete (count_zeros b) 512) [
    | yes empty ↦
        rw ((==_iff e.count u16_max).1 marked, (==_iff (count_zeros b) 512).1 empty)
          (record {
            field = record { size = size; words = words; agrees = inl (marked, empty) };
            keeps_huge = λ _. refl;
            keeps_bits = λ ne. absurd (ne marked);
            counts = λ ne. absurd (ne marked);
          })
    | no ne ↦
        let (ws, len, zeros) = fill-false b in
        rw ((==_iff e.count u16_max).1 marked, ne→false (count_zeros b) 512 ne)
          (record {
            field = record {
              size = len ∙ size;
              words = ws;
              agrees = inl (marked, omega (arith, zeros, size));
            };
            keeps_huge = λ _. refl;
            keeps_bits = λ ne. absurd (ne marked);
            counts = λ ne. absurd (ne marked);
          })
  ]
  | no small ↦ elim (ℕ_discrete e.count (count_zeros b)) [
    | yes same ↦
        rw (ne→false e.count u16_max small, (==_iff e.count (count_zeros b)).1 same)
          (record {
            field = record { size = size; words = words; agrees = inr same };
            keeps_huge = λ marked. absurd (small marked);
            keeps_bits = λ _. refl;
            counts = λ _. same;
          })
    | no ne ↦
        rw (ne→false e.count u16_max small, ne→false e.count (count_zeros b) ne)
          (record {
            field = record {
              size = size;
              words = words;
              agrees = inr (new_free-count (count_zeros b) (count_zeros-le b size));
            };
            keeps_huge = λ marked. absurd (small marked);
            keeps_bits = λ _. refl;
            counts = λ _. new_free-count (count_zeros b) (count_zeros-le b size);
          })
  ]
]
