-- ===== src/Lower.antt =====
-- core/src/lower.rs: the lower allocator. `bitfields` and `children` are the two arrays in the
-- persistent metadata: a bitfield of 512 bits for each huge frame, and a table of 8 entries for
-- each tree.
pub mod Entry
pub mod Types
pub mod Setup
pub mod Query
pub mod Frames
pub mod Access
pub mod Counts
pub mod Fields
pub mod Blocks
pub mod GetSmall
pub mod GetHuge
pub mod GetMax
pub mod PutSmall
pub mod Put
pub mod Recover
pub mod Clients
pub mod Sample
mod Tests
use llfree_rs.Base.{
  ℕ, zero, suc, ◌+◌, ◌-◌, ◌*◌, ◌/◌, ◌%◌, ◌^◌, Bool, true, false, not, Option, none, some, List, set,
  leb, ◌==◌, if◌then◌else◌, Run, returns, panics, ◌>>=◌, index, checked_sub, Result, ok, err,
}
use llfree_rs.Types.{
  huge_order, max_order, tree_huge, tree_frames, retries, Error, memory, address, Res, Flags,
}
use llfree_rs.Util.{align_down, spin_wait}
use llfree_rs.Atomic.{fetch_update, compare_exchange}
use llfree_rs.Bitfield.{Bitfield}
use llfree_rs.Bitfield
use Entry.{HugeEntry, HugePair, mark_huge, dec, inc, map_pair, pair, same, same_pair}
use Entry
pub use Types.{
  Lower, Table, bitfield_len, bitfield_entries, bitfield_order, load_entry, store_entry,
  store_bitfield, load_pair, store_pair, child_index,
}

-- The body of the loop of `get_small` for entry `i` of table `ti`, with the bitfield `bf_i` from
-- its entry `bf_e` on; `none` where the loop goes on.
unfoldable pub small_attempt : ℕ → ℕ → ℕ → ℕ → ℕ → Lower → Run (Option (ℕ × Bool) × Lower)
unfolding dec inc Bitfield.set_first_zeros
small_attempt ti i bf_i bf_e order l = do
  e ← load_entry ti i l
  elim (fetch_update (dec (2 ^ order)) e).0 [
    | err _ ↦ returns (none, l)
    | ok child ↦ do
      l' ← store_entry ti i (fetch_update (dec (2 ^ order)) e).1 l
      bf ← index l'.bitfields bf_i
      (found, bf') ← Bitfield.set_first_zeros bf_e order bf
      elim found [
        | ok offset ↦ returns (
          some (bf_i * bitfield_len + offset, Entry.free child == bitfield_len),
          store_bitfield bf_i bf' l',
        )
        | err _ ↦ do
          e' ← load_entry ti i l'
          elim (fetch_update (inc bitfield_len (2 ^ order)) e').0 [
            | err _ ↦ panics
            | ok _ ↦ do
              l'' ←
                  store_entry ti i (fetch_update (inc bitfield_len (2 ^ order)) e').1
                    (store_bitfield bf_i bf' l')
              returns (none, l'')
          ]
      ]
  ]

-- The loop of `get_small` from round `j` on, with `n` rounds left.
unfoldable pub get_small_from : ℕ → ℕ → ℕ → ℕ → Lower → Run (Res (ℕ × Bool) × Lower)
unfolding small_attempt
get_small_from zero j start order l = returns (err memory, l)
get_small_from (suc n) j start order l =
    let i = (j + child_index start) % tree_huge in
    let bf_i = align_down (start / bitfield_len) tree_huge + i in
    let bf_e = if j == 0 then start / Bitfield.entry_bits % bitfield_entries else 0 in
    do
      (found, l') ← small_attempt (start / tree_frames) i bf_i bf_e order l
      elim found [ some r ↦ returns (ok r, l') | none ↦ get_small_from n (j + 1) start order l' ]

unfoldable pub get_small : ℕ → ℕ → Lower → Run (Res (ℕ × Bool) × Lower)
unfolding get_small_from
get_small start order l = get_small_from tree_huge 0 start order l

unfoldable pub get_huge_from : ℕ → ℕ → ℕ → Lower → Run (Res ℕ × Lower)
unfolding mark_huge
get_huge_from zero j start l = returns (err memory, l)
get_huge_from (suc n) j start l =
    let ti = start / tree_frames in
    let i = (child_index start + j) % tree_huge in
    do
      e ← load_entry ti i l
      elim (fetch_update (mark_huge bitfield_len) e).0 [
        | ok _ ↦ do
          l' ← store_entry ti i (fetch_update (mark_huge bitfield_len) e).1 l
          returns (ok (align_down start tree_frames + i * bitfield_len), l')
        | err _ ↦ get_huge_from n (j + 1) start l
      ]

unfoldable pub get_huge : ℕ → Lower → Run (Res ℕ × Lower)
unfolding get_huge_from
get_huge start l = get_huge_from tree_huge 0 start l

unfoldable pub get_max_from : ℕ → ℕ → ℕ → Lower → Run (Res ℕ × Lower)
unfolding mark_huge map_pair
get_max_from zero j start l = returns (err memory, l)
get_max_from (suc n) j start l =
    let ti = start / tree_frames in
    let i = (child_index start / 2 + j) % (tree_huge / 2) in
    do
      p ← load_pair ti i l
      elim (fetch_update (map_pair (mark_huge bitfield_len)) p).0 [
        | ok _ ↦ do
          l' ← store_pair ti i (fetch_update (map_pair (mark_huge bitfield_len)) p).1 l
          returns (ok (align_down start tree_frames + 2 * i * bitfield_len), l')
        | err _ ↦ get_max_from n (j + 1) start l
      ]

unfoldable pub get_max : ℕ → Lower → Run (Res ℕ × Lower)
unfolding get_max_from
get_max start l = get_max_from (tree_huge / 2) 0 start l

-- `.map(|f| (f, true))` on the result.
abbrev pub fragmented : Res ℕ × Lower → Res (ℕ × Bool) × Lower
fragmented (ok f, l) = (ok (f, true), l)
fragmented (err e, l) = (err e, l)

unfoldable pub get : ℕ → Flags → Lower → Run (Res (ℕ × Bool) × Lower)
unfolding get_small get_huge get_max
get start flags l =
    if flags.order == max_order
    then get_max start l >>= (λ r. returns (fragmented r))
    else if flags.order == huge_order
    then get_huge start l >>= (λ r. returns (fragmented r))
    else get_small start flags.order l

unfoldable pub put_small : ℕ → ℕ → Lower → Run (Res Bool × Lower)
unfolding inc Bitfield.toggle
put_small frame order l =
    let bi = frame / bitfield_len in
    let ti = frame / tree_frames in
    let i = child_index frame in
    do
      bf ← index l.bitfields bi
      (toggled, bf') ← Bitfield.toggle (frame % bitfield_len) order true bf
      elim toggled [
        | err _ ↦ returns (err address, store_bitfield bi bf' l)
        | ok _ ↦ do
          e ← load_entry ti i l
          elim (fetch_update (inc bitfield_len (2 ^ order)) e).0 [
            | err _ ↦ panics
            | ok old ↦ do
              l' ←
                  store_entry ti i (fetch_update (inc bitfield_len (2 ^ order)) e).1
                    (store_bitfield bi bf' l)
              returns (ok (Entry.free old + 2 ^ order == bitfield_len), l')
          ]
      ]

unfoldable pub put_max : ℕ → Lower → Run (Res (Unit {0}) × Lower)
put_max frame l =
    let ti = frame / tree_frames in
    let i = child_index frame / 2 in
    let full = pair Entry.new_huge Entry.new_huge in
    let empty = pair (Entry.new_free bitfield_len) (Entry.new_free bitfield_len) in
    do
      p ← load_pair ti i l
      elim (compare_exchange same_pair full empty p).0 [
        | err _ ↦ returns (err address, l)
        | ok _ ↦ do l' ← store_pair ti i empty l; returns (ok tt, l')
      ]

-- `put` of a whole huge frame.
unfoldable pub put_huge : ℕ → Lower → Run (Res Bool × Lower)
put_huge frame l =
    let ti = frame / tree_frames in
    let i = child_index frame in
    do
      e ← load_entry ti i l
      elim (compare_exchange same Entry.new_huge (Entry.new_free bitfield_len) e).0 [
        | err _ ↦ returns (err address, l)
        | ok _ ↦ do l' ← store_entry ti i (Entry.new_free bitfield_len) l; returns (ok true, l')
      ]

-- Nobody else runs, so that every poll of `spin_wait` sees the same entry.
unfoldable pub partial_put_huge : HugeEntry → ℕ → ℕ → Lower → Run (Res Bool × Lower)
unfolding put_small Bitfield.toggle spin_wait
partial_put_huge old frame order l =
    let bi = frame / bitfield_len in
    let ti = frame / tree_frames in
    let i = child_index frame in
    do
      bf ← index l.bitfields bi
      (toggled, bf') ← Bitfield.toggle 0 bitfield_order false bf
      e ← load_entry ti i l
      elim toggled [
        | ok _ ↦
            if same e old
            then (do
              l' ← store_entry ti i Entry.new (store_bitfield bi bf' l)
              put_small frame order l')
            else panics
        | err _ ↦
            if spin_wait retries (λ _. not (Entry.huge e))
            then put_small frame order (store_bitfield bi bf' l)
            else panics
      ]

-- `.map(|_| true)` on the result.
abbrev pub whole : Res (Unit {0}) × Lower → Res Bool × Lower
whole (ok _, l) = (ok true, l)
whole (err e, l) = (err e, l)

unfoldable pub put : ℕ → Flags → Lower → Run (Res Bool × Lower)
unfolding put_small put_max put_huge partial_put_huge
put frame flags l =
    if flags.order == max_order
    then put_max frame l >>= (λ r. returns (whole r))
    else if flags.order == huge_order
    then put_huge frame l
    else do
      old ← load_entry (frame / tree_frames) (child_index frame) l
      if Entry.huge old then partial_put_huge old frame flags.order l else (do
        most ← checked_sub bitfield_len (2 ^ flags.order)
        if leb (Entry.free old) most
            then put_small frame flags.order l
            else returns (err address, l))
