-- ===== src/Lower/Setup.antt =====
-- core/src/lower.rs: the metadata sizes, `new` with its three ways to initialise, and `recover`.
pub mod FreeTables
pub mod FreeFields
pub mod Free
pub mod ReserveTables
pub mod Reserve
pub mod Start
mod Tests
use llfree_rs.Base.{
  ℕ, zero, suc, ◌+◌, ◌-◌, ◌*◌, ◌/◌, ◌%◌, min, true, false, ◌||◌, not, List, [], ◌∷◌, map, set, ltb,
  ◌==◌, if◌then◌else◌, Run, returns, panics, ◌>>=◌, index, checked_sub, ok, err,
}
use llfree_rs.Types.{
  tree_huge, tree_frames, initialization, Res, Init, free_all, alloc_all, recover,
}
use llfree_rs.Util.{div_ceil, size_of_slice}
use llfree_rs.Bitfield.{Bitfield}
use llfree_rs.Bitfield
use llfree_rs.Lower.Entry.{HugeEntry, new_free, new_huge, huge, free}
use llfree_rs.Lower.Types.{Lower, Table, bitfield_len}

pub record Metadata : Type 0 where
  pub bitfield_len : ℕ
  pub bitfield_size : ℕ
  pub table_len : ℕ
  pub table_size : ℕ

-- A bitfield has 8 words of 8 bytes; a table of 8 entries of 2 bytes is padded to a cache line.
unfoldable pub metadata : ℕ → Metadata
metadata frames = record {
  bitfield_len = div_ceil frames bitfield_len;
  bitfield_size = size_of_slice 64 8 (div_ceil frames bitfield_len);
  table_len = div_ceil frames tree_frames;
  table_size = size_of_slice 64 64 (div_ceil frames tree_frames);
}

unfoldable pub metadata_size : ℕ → ℕ
unfolding metadata
metadata_size frames = (metadata frames).bitfield_size + (metadata frames).table_size

-- The buffer given to `new`: its address and length, and what its bytes say as the two arrays.
pub record Primary : Type 0 where
  pub address : ℕ
  pub bytes : ℕ
  pub bitfields : List Bitfield
  pub children : List Table

-- The last table: the entry for the frames from `start` on, and those behind it.
unfoldable pub free_entries : ℕ → ℕ → Table → Table
free_entries frames start [] = []
free_entries frames start (e ∷ es) =
    new_free (min (frames - start) bitfield_len) ∷ free_entries frames (start + bitfield_len) es

-- The tables from the `n`-th on; there is no last one to split off from an empty slice.
unfoldable pub free_tables : ℕ → ℕ → List Table → Run (List Table)
unfolding free_entries
free_tables n frames [] = panics
free_tables n frames (t ∷ []) = returns (free_entries frames (n * tree_frames) t ∷ [])
free_tables n frames (t ∷ t' ∷ ts) = do
  rest ← free_tables (n + 1) frames (t' ∷ ts)
  returns (map (λ _. new_free bitfield_len) t ∷ rest)

-- `included` bitfields are within the range, and the next one has `end` frames of it.
unfoldable pub free_bitfields : ℕ → ℕ → List Bitfield → Run (List Bitfield)
unfolding Bitfield.set Bitfield.fill
free_bitfields zero end [] = returns []
free_bitfields zero end (b ∷ bs) = do
  b' ← Bitfield.set 0 end false b
  last ← Bitfield.set end bitfield_len true b'
  returns (last ∷ map (Bitfield.fill true) bs)
free_bitfields (suc included) end [] = panics
free_bitfields (suc included) end (b ∷ bs) = do
  rest ← free_bitfields included end bs
  returns (Bitfield.fill false b ∷ rest)

unfoldable pub free_all_frames : Lower → Run Lower
unfolding free_tables free_bitfields
free_all_frames l = do
  tables ← free_tables 0 l.len l.children
  fields ←
      free_bitfields (l.len / bitfield_len) (l.len - l.len / bitfield_len * bitfield_len)
        l.bitfields
  returns (record l { bitfields = fields; children = tables })

-- `split_at(n)`, with the entries before the split huge and the others without a free frame.
unfoldable pub reserve_entries : ℕ → Table → Run Table
reserve_entries zero es = returns (map (λ _. new_free 0) es)
reserve_entries (suc n) [] = panics
reserve_entries (suc n) (e ∷ es) = do rest ← reserve_entries n es; returns (new_huge ∷ rest)

unfoldable pub reserve_tables : ℕ → ℕ → List Table → Run (List Table)
unfolding reserve_entries
reserve_tables n frames [] = panics
reserve_tables n frames (t ∷ []) = do
  last_i ← checked_sub (frames / bitfield_len) (n * tree_huge)
  last ← reserve_entries last_i t
  returns (last ∷ [])
reserve_tables n frames (t ∷ t' ∷ ts) = do
  rest ← reserve_tables (n + 1) frames (t' ∷ ts)
  returns (map (λ _. new_huge) t ∷ rest)

unfoldable pub reserve_bitfields : ℕ → List Bitfield → Run (List Bitfield)
unfolding Bitfield.fill
reserve_bitfields zero bs = returns (map (Bitfield.fill true) bs)
reserve_bitfields (suc included) [] = panics
reserve_bitfields (suc included) (b ∷ bs) = do
  rest ← reserve_bitfields included bs
  returns (Bitfield.fill false b ∷ rest)

unfoldable pub reserve_all : Lower → Run Lower
unfolding reserve_tables reserve_bitfields
reserve_all l = do
  tables ← reserve_tables 0 l.len l.children
  fields ← reserve_bitfields (l.len / bitfield_len) l.bitfields
  returns (record l { bitfields = fields; children = tables })

-- One entry and its bitfield: a huge entry has an empty bitfield, any other counts its zeros.
unfoldable pub recover_entry : HugeEntry → Bitfield → HugeEntry × Bitfield
unfolding Bitfield.count_zeros Bitfield.fill
recover_entry e b =
    if huge e
    then if Bitfield.count_zeros b == bitfield_len then (e, b) else (e, Bitfield.fill false b)
    else if free e == Bitfield.count_zeros b
    then (e, b)
    else (new_free (Bitfield.count_zeros b), b)

-- The entries of a table, where `bi` is the index of the first one's bitfield.
unfoldable pub recover_table : ℕ → Table → List Bitfield → Run (Table × List Bitfield)
unfolding recover_entry
recover_table bi [] bs = returns ([], bs)
recover_table bi (e ∷ es) bs = do
  b ← index bs bi
  (es', bs') ← recover_table (bi + 1) es (set bs bi (recover_entry e b).1)
  returns ((recover_entry e b).0 ∷ es', bs')

unfoldable pub recover_tables : ℕ → List Table → List Bitfield → Run (List Table × List Bitfield)
unfolding recover_table
recover_tables i [] bs = returns ([], bs)
recover_tables i (t ∷ ts) bs = do
  (t', bs') ← recover_table (i * tree_huge) t bs
  (ts', bs'') ← recover_tables (i + 1) ts bs'
  returns (t' ∷ ts', bs'')

unfoldable pub recover_all : Lower → Run Lower
unfolding recover_tables
recover_all l = do
  (tables, fields) ← recover_tables 0 l.children l.bitfields
  returns (record l { bitfields = fields; children = tables })

abbrev as_result : Run Lower → Run (Res Lower)
as_result m = m >>= λ l. returns (ok l)

unfoldable pub new : ℕ → Init → Primary → Run (Res Lower)
unfolding metadata free_all_frames reserve_all recover_all
new frames init primary =
    let m = metadata frames in
    let alloc : Lower = record {
      len = frames;
      bitfields = primary.bitfields;
      children = primary.children;
    } in
    if ltb primary.bytes (m.bitfield_size + m.table_size) || not (primary.address % 64 == 0)
    then returns (err initialization)
    else elim init [
      | free_all ↦ as_result (free_all_frames alloc)
      | alloc_all ↦ as_result (reserve_all alloc)
      | recover false ↦ returns (ok alloc)
      | recover true ↦ as_result (recover_all alloc)
    ]
