-- ===== src/Lower/Blocks.antt =====
-- What an allocation of the lower allocator of core/src/lower.rs promises.
use native.Mathlib.Nat.{mod-mod_of_dvd, dvd-mul_left, one-le-pow, mod-add-div, mul-le-mul_right}
use mathlib.Core.Path.{ap₂}
use llfree_rs.Types.{Res, memory}
use llfree_rs.Base.{
  Bool, ◌⊎◌, Run, returns, ok, err, ℕ, ◌+◌, ◌-◌, ◌*◌, ◌/◌, ◌%◌, ◌^◌, ◌≤◌, ◌<◌, ◌≡◌, ap, sym, ◌∙◌,
  true, length, ◌==◌, arith,
}
use llfree_rs.Word.Split.{two-pow-add}
use native.Mathlib.Decide.{dec_lt}
use llfree_rs.Lower.Types.{Lower}
use llfree_rs.Lower.Entry.{u16_max}
use llfree_rs.Lower.Entry
use llfree_rs.Lower.Frames.{Changes, entry_at, field_at, taken_in, taken}

-- The frames of a new allocation: an aligned block in the tree of `start`, in whole below the end
-- of the bitfields, that was free and is now allocated, while all other frames are as before. From
-- order 9 on, its huge frames are marked as allocated in whole.
pub record Allocated (start order frame : ℕ) (l l' : Lower) : Type 0 where
  pub in_tree : frame / 4096 ≡ start / 4096
  pub aligned : frame % 2 ^ order ≡ 0
  pub within : frame + 2 ^ order ≤ length l.bitfields * 512
  pub changes : Changes frame (2 ^ order) true l l'
  pub marked :
      9 ≤ order
      → (h : ℕ) → frame ≤ h * 512
      → h * 512 + 512 ≤ frame + 2 ^ order
      → (entry_at l' h).count ≡ u16_max

-- No aligned block of 2 ^ order frames in the tree of `start` is free.
abbrev pub NoBlockIn : ℕ → ℕ → Lower → Type 0
NoBlockIn start order l =
    (frame : ℕ)
    → frame / 4096 ≡ start / 4096
    → frame % 2 ^ order ≡ 0
    → frame + 2 ^ order ≤ length l.bitfields * 512
    → ¬ ((j : ℕ) → j < 2 ^ order → taken l (frame + j) ≡ 0)

-- The same for the huge frame `h`.
abbrev pub NoFree : ℕ → Lower → ℕ → Type 0
NoFree order l h =
    h < length l.bitfields
    → (off : ℕ) → off % 2 ^ order ≡ 0
    → off + 2 ^ order ≤ 512
    → ¬ ((j : ℕ) → j < 2 ^ order → taken_in (entry_at l h) (field_at l h) (off + j) ≡ 0)

pub taken-at :
    (l : Lower) (h x : ℕ)
    → x < 512
    → taken l (h * 512 + x) ≡ taken_in (entry_at l h) (field_at l h) x
unfolding taken
taken-at l h x lt =
    let d : (h * 512 + x) / 512 ≡ h = omega arith in
    let r : (h * 512 + x) % 512 ≡ x = omega arith in
    ap₂ (λ (y z : ℕ). taken_in (entry_at l y) (field_at l y) z) d r

-- An aligned offset leaves room for the block in a size that it divides.
pub block_fits : (n m x : ℕ) → 1 ≤ n → x % n ≡ 0 → x < m * n → x + n ≤ m * n
block_fits n m x pos aligned lt = elim (dec_lt (x / n) m) [
  | yes q_lt ↦ omega (arith, mod-add-div x n, aligned, mul-le-mul_right n q_lt)
  | no ge ↦
      let past : m * n ≤ x / n * n = mul-le-mul_right n (omega arith) in
      absurd (omega (arith, mod-add-div x n, aligned, past))
]

-- Orders up to 9: a block lies within one huge frame.
pub block_in_huge :
    (order frame : ℕ)
    → order ≤ 9
    → frame % 2 ^ order ≡ 0
    → (frame % 512 % 2 ^ order ≡ 0) × (frame % 512 + 2 ^ order ≤ 512)
block_in_huge order frame le aligned =
    let n = 2 ^ order in
    let o : 9 ≡ 9 - order + order = omega arith in
    let parts : 512 ≡ 2 ^ (9 - order) * n =
      ap (λ (t : ℕ). 2 ^ t) o ∙ two-pow-add (9 - order) order in
    let al : frame % 512 % n ≡ 0 =
      ap (λ (t : ℕ). frame % t % n) parts
      ∙ mod-mod_of_dvd n frame (dvd-mul_left n (2 ^ (9 - order)))
      ∙ aligned in
    (
      al,
      omega (
        arith,
        parts,
        block_fits n (2 ^ (9 - order)) (frame % 512) (one-le-pow order 2 (omega arith)) al
            (omega (arith, parts)),
      ),
    )

pub NoFree-NoBlockIn :
    (start order : ℕ) (l : Lower)
    → order ≤ 9
    → ((h : ℕ) → h / 8 ≡ start / 4096 → NoFree order l h)
    → NoBlockIn start order l
NoFree-NoBlockIn start order l le miss frame in_tree aligned within zeros =
    let (al, fits) = block_in_huge order frame le aligned in
    miss (frame / 512) (omega (arith, in_tree)) (omega (arith, one-le-pow order 2)) (frame % 512) al
      fits
      λ j lt.
        let at : frame + j ≡ frame / 512 * 512 + (frame % 512 + j) = omega arith in
        sym (taken-at l (frame / 512) (frame % 512 + j) (omega arith))
        ∙ ap (taken l) (sym at)
        ∙ zeros j lt

-- An allocation succeeds in one of the free blocks, and says whether its huge frame was free in
-- whole, or there is none.
abbrev pub Gets : ℕ → ℕ → Lower → Run (Res (ℕ × Bool) × Lower) → Type 0
Gets start order l out =
    ((frame : ℕ) × (fr : Bool) × (l' : Lower) × (out ≡ returns (ok (frame, fr), l'))
      × Allocated start order frame l l'
      × (fr ≡ (Entry.free (entry_at l (frame / 512)) == 512)))
    ⊎ ((out ≡ returns (err memory, l)) × NoBlockIn start order l)
