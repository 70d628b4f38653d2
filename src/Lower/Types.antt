-- ===== src/Lower/Types.antt =====
-- core/src/lower.rs: the allocator as data, and access to its entries.
use llfree_rs.Base.{ℕ, ◌+◌, ◌*◌, ◌/◌, ◌%◌, List, set, Run, returns, ◌>>=◌, index}
use llfree_rs.Types.{tree_huge}
use llfree_rs.Bitfield.{Bitfield}
use llfree_rs.Lower.Entry.{HugeEntry, HugePair, pair}

-- `Bitfield::LEN`, `Bitfield::ENTRIES` and `Bitfield::ORDER` of `Bitfield<8>`.
abbrev pub bitfield_len : ℕ
bitfield_len = 512

abbrev pub bitfield_entries : ℕ
bitfield_entries = 8

abbrev pub bitfield_order : ℕ
bitfield_order = 9

abbrev pub Table : Type 0
Table = List HugeEntry

pub record Lower : Type 0 where
  pub len : ℕ
  pub bitfields : List Bitfield
  pub children : List Table

-- `children[ti][i]`: its value, and the state with another one.
abbrev pub load_entry : ℕ → ℕ → Lower → Run HugeEntry
load_entry ti i l = do table ← index l.children ti; index table i

abbrev pub store_entry : ℕ → ℕ → HugeEntry → Lower → Run Lower
store_entry ti i e l = do
  table ← index l.children ti
  returns (record l { children = set l.children ti (set table i e) })

abbrev pub store_bitfield : ℕ → Bitfield → Lower → Lower
store_bitfield bi b l = record l { bitfields = set l.bitfields bi b }

-- `table_pair(frame)[p]`: the entries `2 * p` and `2 * p + 1`.
abbrev pub load_pair : ℕ → ℕ → Lower → Run HugePair
load_pair ti p l = do
  a ← load_entry ti (2 * p) l
  b ← load_entry ti (2 * p + 1) l
  returns (pair a b)

abbrev pub store_pair : ℕ → ℕ → HugePair → Lower → Run Lower
store_pair ti p hp l = do
  l' ← store_entry ti (2 * p) hp.first l
  store_entry ti (2 * p + 1) hp.second l'

abbrev pub child_index : ℕ → ℕ
child_index frame = frame / bitfield_len % tree_huge
