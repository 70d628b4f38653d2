-- ===== src/Lower/Entry.antt =====
-- `HugeEntry` and `HugePair` of core/src/lower.rs. `count` is the 16-bit field; the callers of
-- `inc` pass a number of frames below the span.
use llfree_rs.Base.{
  ℕ, ◌+◌, ◌-◌, ◌%◌, ◌^◌, Bool, ◌&&◌, not, Option, none, some, leb, ◌==◌, if◌then◌else◌,
}

pub record HugeEntry : Type 0 where
  pub count : ℕ

abbrev pub u16_max : ℕ
u16_max = 2 ^ 16 - 1

-- `HugeEntry::new`.
abbrev pub new : HugeEntry
new = record { count = 0 }

abbrev pub new_huge : HugeEntry
new_huge = record { count = u16_max }

-- The cast to `u16` wraps.
abbrev pub new_free : ℕ → HugeEntry
new_free free = record { count = free % 2 ^ 16 }

abbrev pub huge : HugeEntry → Bool
huge e = e.count == u16_max

abbrev pub free : HugeEntry → ℕ
free e = if huge e then 0 else e.count

-- The equality of the entries as integers.
abbrev pub same : HugeEntry → HugeEntry → Bool
same a b = a.count == b.count

unfoldable pub mark_huge : ℕ → HugeEntry → Option HugeEntry
mark_huge span e = if free e == span then some new_huge else none

unfoldable pub dec : ℕ → HugeEntry → Option HugeEntry
dec num_frames e =
    if not (huge e) && leb num_frames (free e) then some (new_free (free e - num_frames)) else none

unfoldable pub inc : ℕ → ℕ → HugeEntry → Option HugeEntry
inc span num_frames e =
    if not (huge e) && leb (free e) (span - num_frames)
    then some (new_free (free e + num_frames))
    else none

pub record HugePair : Type 0 where
  pub first : HugeEntry
  pub second : HugeEntry

abbrev pub pair : HugeEntry → HugeEntry → HugePair
pair a b = record { first = a; second = b }

unfoldable pub map_pair : (HugeEntry → Option HugeEntry) → HugePair → Option HugePair
map_pair f p = elim (f p.first) [
  | none ↦ none
  | some a ↦ elim (f p.second) [ none ↦ none | some b ↦ some (pair a b) ]
]

abbrev pub all : (HugeEntry → Bool) → HugePair → Bool
all f p = f p.first && f p.second

abbrev pub same_pair : HugePair → HugePair → Bool
same_pair p q = same p.first q.first && same p.second q.second
