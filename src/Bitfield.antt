-- ===== src/Bitfield.antt =====
-- core/src/bitfield.rs: `Bitfield<N>` as the list of its N words. The words are read by smaller
-- integers as on a little-endian machine.
pub mod FirstZeros
pub mod Bits
pub mod Search
pub mod Toggle
pub mod Range
pub mod Zero
mod Tests
use llfree_rs.Base.{
  ℕ, zero, suc, ◌+◌, ◌-◌, ◌*◌, ◌/◌, ◌%◌, ◌^◌, min, bit_and, bit_or, Bool, true, false, ◌&&◌, Option,
  none, some, List, [], ◌∷◌, map, length, leb, ltb, ◌==◌, if◌then◌else◌, Run, returns, panics,
  ◌>>=◌, ◌>>◌, assert, index, Result, ok, err,
}
use llfree_rs.Base.{set as set_elem}
use llfree_rs.Types.{Error, memory, retry, address, Res}
use llfree_rs.Word.{u64_max, shl, shr, not64}
use llfree_rs.Word
use FirstZeros.{first_zeros_aligned}

abbrev pub Bitfield : Type 0
Bitfield = List ℕ

abbrev pub entry_bits : ℕ
entry_bits = 64

abbrev pub len : Bitfield → ℕ
len d = length d * entry_bits

-- `set` from entry `ei` on, with `n` entries left; no subtraction goes below 0 there.
unfoldable pub set_entries : ℕ → ℕ → ℕ → ℕ → Bool → Bitfield → Run Bitfield
set_entries zero ei start end v d = returns d
set_entries (suc n) ei start end v d =
    let bit_off = ei * entry_bits in
    let bit_start = start - bit_off in
    let bit_end = min (end - bit_off) entry_bits in
    let bits = bit_end - bit_start in
    let byte = shl (shr u64_max (entry_bits - bits)) bit_start in
    do
      w ← index d ei
      set_entries n (ei + 1) start end v
          (set_elem d ei (if v then bit_or w byte else bit_and w (not64 byte)))

unfoldable pub set : ℕ → ℕ → Bool → Bitfield → Run Bitfield
unfolding set_entries
set start end v d = do
  assert (leb start end && leb end (len d))
  if start == end
      then returns d
      else set_entries ((end - 1) / entry_bits + 1 - start / entry_bits) (start / entry_bits) start
          end v d

unfoldable pub get_entry : ℕ → Bitfield → Run ℕ
get_entry i d = index d i

-- The update of one entry, orders 0 to 2.
unfoldable pub toggle_masked : ℕ → Bool → ℕ → Option ℕ
toggle_masked mask expected e =
    if expected
    then if bit_and e mask == mask then some (bit_and e (not64 mask)) else none
    else if bit_and e mask == 0
    then some (bit_or e mask)
    else none

unfoldable pub toggle_small : ℕ → ℕ → Bool → Bitfield → Run (Res (Unit {0}) × Bitfield)
unfolding toggle_masked
toggle_small i order expected d =
    let mask = shl (shr u64_max (entry_bits - 2 ^ order)) (i % entry_bits) in
    let di = i / entry_bits in
    do
      w ← index d di
      elim (toggle_masked mask expected w) [
        | some w' ↦ returns (ok tt, set_elem d di w')
        | none ↦ returns (err address, d)
      ]

-- The integer of `k` bits at the bit offset `off` of a word, and the word with another one there.
abbrev pub lane : ℕ → ℕ → ℕ → ℕ
lane k off w = w / 2 ^ off % 2 ^ k

abbrev pub with_lane : ℕ → ℕ → ℕ → ℕ → ℕ
with_lane k off v w = w - lane k off w * 2 ^ off + v * 2 ^ off

-- `toggle_int` at the integer type of `k` bits.
unfoldable pub toggle_int : ℕ → ℕ → Bool → Bitfield → Run (Res (Unit {0}) × Bitfield)
toggle_int k i e d =
    let idx = i / k in
    let di = idx * k / entry_bits in
    let off = idx * k % entry_bits in
    let val = if e then 2 ^ k - 1 else 0 in
    do
      assert (ltb i (len d))
      w ← index d di
      if lane k off w == val
          then returns (ok tt, set_elem d di (with_lane k off (2 ^ k - 1 - val) w))
          else returns (err retry, d)

-- Set the entries `di + n - 1` down to `di` back from `!expected` to `expected`.
unfoldable pub undo_toggle : ℕ → ℕ → ℕ → Bitfield → Run Bitfield
undo_toggle zero di expected d = returns d
undo_toggle (suc n) di expected d = do
  w ← index d (di + n)
  if w == not64 expected then undo_toggle n di expected (set_elem d (di + n) expected) else panics

-- The entries `i` to `i + n - 1`, where those from `di` to `i - 1` are done.
unfoldable pub toggle_entries : ℕ → ℕ → ℕ → ℕ → Bitfield → Run (Res (Unit {0}) × Bitfield)
unfolding undo_toggle
toggle_entries zero i di expected d = returns (ok tt, d)
toggle_entries (suc n) i di expected d = do
  w ← index d i
  if w == expected
      then toggle_entries n (i + 1) di expected (set_elem d i (not64 expected))
      else do d' ← undo_toggle (i - di) di expected d; returns (err address, d')

unfoldable pub toggle : ℕ → ℕ → Bool → Bitfield → Run (Res (Unit {0}) × Bitfield)
unfolding toggle_small toggle_int toggle_entries
toggle i order expected d =
    if leb order 2
    then toggle_small i order expected d
    else if leb order 6
    then toggle_int (2 ^ order) i expected d
    else toggle_entries (2 ^ order / entry_bits) (i / entry_bits) (i / entry_bits)
        (if expected then u64_max else 0) d

-- Whether the entries `i` to `i + n - 1` are zero, up to the first that is not.
unfoldable pub entries_zero : ℕ → ℕ → Bitfield → Run Bool
entries_zero zero i d = returns true
entries_zero (suc n) i d = do
  w ← index d i
  if w == 0 then entries_zero n (i + 1) d else returns false

unfoldable pub is_zero : ℕ → ℕ → Bitfield → Run Bool
unfolding entries_zero
is_zero i order d =
    let num_bits = 2 ^ order in
    let entry_i = i / entry_bits in
    if ltb entry_bits num_bits
    then entries_zero ((i + num_bits) / entry_bits - entry_i) entry_i d
    else do
      w ← index d entry_i
      returns (bit_and w (shl (shr u64_max (entry_bits - num_bits)) (i % entry_bits)) == 0)

-- The search of `set_first_zeros` in round `j`, with `n` rounds left.
unfoldable pub search_entries : ℕ → ℕ → ℕ → ℕ → Bitfield → Run (Res ℕ × Bitfield)
unfolding first_zeros_aligned
search_entries zero j start_entry order d = returns (err memory, d)
search_entries (suc n) j start_entry order d =
    let i = (j + start_entry) % length d in
    do
      w ← index d i
      found ← first_zeros_aligned w order
      elim found [
        | some (val, offset) ↦ returns (ok (i * entry_bits + offset), set_elem d i val)
        | none ↦ search_entries n (j + 1) start_entry order d
      ]

-- Set the entries `base + n - 1` down to `base` back from all ones to 0.
unfoldable pub undo_claim : ℕ → ℕ → Bitfield → Run Bitfield
undo_claim zero base d = returns d
undo_claim (suc n) base d = do
  w ← index d (base + n)
  if w == u64_max then undo_claim n base (set_elem d (base + n) 0) else panics

-- Set the entries `base + j` to `base + j + n - 1` from 0 to all ones, or undo and leave the loop.
unfoldable pub claim_entries : ℕ → ℕ → ℕ → Bitfield → Run Bitfield
unfolding undo_claim
claim_entries zero j base d = returns d
claim_entries (suc n) j base d = do
  w ← index d (base + j)
  if w == 0
      then claim_entries n (j + 1) base (set_elem d (base + j) u64_max)
      else undo_claim j base d

-- The chunks of `num_entries` entries from chunk `i` on, with at most `n` chunks left.
unfoldable pub search_chunks : ℕ → ℕ → ℕ → Bitfield → Run (Res ℕ × Bitfield)
unfolding entries_zero claim_entries
search_chunks zero i num_entries d = returns (err memory, d)
search_chunks (suc n) i num_entries d =
    let base = i * num_entries in
    let size = min num_entries (length d - base) in
    do
      free ← entries_zero size base d
      if free
          then (claim_entries size 0 base d >>= λ d'.
              returns (ok (i * num_entries * entry_bits), d'))
          else search_chunks n (i + 1) num_entries d

-- `chunks` yields a shorter chunk at the end where the size does not divide the length.
unfoldable pub set_first_zero_entries : ℕ → Bitfield → Run (Res ℕ × Bitfield)
unfolding search_chunks
set_first_zero_entries order d =
    let num_entries = 2 ^ (order - 6) in
    search_chunks ((length d + num_entries - 1) / num_entries) 0 num_entries d

unfoldable pub set_first_zeros : ℕ → ℕ → Bitfield → Run (Res ℕ × Bitfield)
unfolding set_first_zero_entries search_entries
set_first_zeros start_entry order d =
    if ltb 6 order
    then set_first_zero_entries order d
    else search_entries (length d) 0 start_entry order d

unfoldable pub fill : Bool → Bitfield → Bitfield
fill v d = map (λ _. if v then u64_max else 0) d

unfoldable pub count_zeros : Bitfield → ℕ
unfolding Word.ones
count_zeros [] = 0
count_zeros (w ∷ d) = Word.count_zeros w + count_zeros d
