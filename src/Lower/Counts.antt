-- ===== src/Lower/Counts.antt =====
-- The counters of `HugeEntry` in core/src/lower.rs: when `dec`, `inc` and `mark_huge` succeed, and
-- what an entry that agrees with its bitfield says of the frames.
use mathlib.Core.Logic.{◌≢◌}
use native.Mathlib.Decide.{ℕ_discrete}
use native.Mathlib.Nat.{mod-eq_of_lt}
use llfree_rs.Base.{
  ℕ, ◌+◌, ◌-◌, ◌≤◌, ◌<◌, ◌≡◌, refl, ap, true, false, none, some, length, ==_iff, ne→false, le→leb,
  gt→leb, arith,
}
use llfree_rs.Bitfield.{Bitfield, count_zeros}
use llfree_rs.Bitfield.Bits.{count_zeros-sum}
use llfree_rs.Lower.Entry.{HugeEntry, new_huge, new_free, huge, u16_max, dec, inc, mark_huge}

pub count_zeros-le : (b : Bitfield) → length b ≡ 8 → count_zeros b ≤ 512
count_zeros-le b h = omega (arith, count_zeros-sum b)

pub huge-false : (e : HugeEntry) → e.count ≤ 512 → huge e ≡ false
huge-false e h = ne→false e.count u16_max (λ s. omega (arith, s))

pub huge-true : (e : HugeEntry) → e.count ≡ u16_max → huge e ≡ true
huge-true e h = (==_iff e.count u16_max).1 h

pub new_free-count : (n : ℕ) → n ≤ 512 → (new_free n).count ≡ n
new_free-count n h = mod-eq_of_lt (omega arith)

-- `dec` takes frames that the entry has, and fails otherwise.
pub dec-eq :
    (n : ℕ) (e : HugeEntry)
    → e.count ≤ 512
    → n ≤ e.count
    → dec n e ≡ some (record { count = e.count - n })
unfolding dec
dec-eq n e le h =
    rw (huge-false e le, le→leb n e.count h)
      (ap (λ (c : ℕ). some (record { count = c })) (new_free-count (e.count - n) (omega arith)))

pub dec-small : (n : ℕ) (e : HugeEntry) → e.count ≤ 512 → e.count < n → dec n e ≡ none
unfolding dec
dec-small n e le h = rw (huge-false e le, gt→leb n e.count h) refl

pub dec-huge : (n : ℕ) (e : HugeEntry) → e.count ≡ u16_max → dec n e ≡ none
unfolding dec
dec-huge n e h = rw (huge-true e h) refl

pub inc-eq :
    (n : ℕ) (e : HugeEntry)
    → e.count + n ≤ 512
    → inc 512 n e ≡ some (record { count = e.count + n })
unfolding inc
inc-eq n e le =
    rw (huge-false e (omega arith), le→leb e.count (512 - n) (omega arith))
      (ap (λ (c : ℕ). some (record { count = c })) (new_free-count (e.count + n) le))

pub mark_huge-eq : (e : HugeEntry) → e.count ≡ 512 → mark_huge 512 e ≡ some new_huge
unfolding mark_huge
mark_huge-eq e h = rw (huge-false e (omega arith), (==_iff e.count 512).1 h) refl

pub mark_huge-none : (e : HugeEntry) → e.count ≢ 512 → mark_huge 512 e ≡ none
unfolding mark_huge
mark_huge-none e h = elim (ℕ_discrete e.count u16_max) [
  | yes s ↦ rw (huge-true e s) refl
  | no ne ↦ rw (ne→false e.count u16_max ne, ne→false e.count 512 h) refl
]
