-- ===== src/LlFree/Setup.antt =====
-- core/src/llfree.rs and `MetaData` of core/src/lib.rs: `new` and the checks of its buffers. The
-- size of the core-local data is that of `Align<SpinMutex<Local>>`, a parameter here.
use llfree_rs.Base.{
  ℕ, ◌+◌, ◌-◌, ◌*◌, ◌%◌, Bool, ◌&&◌, ◌||◌, not, replicate, leb, ltb, ◌==◌, if◌then◌else◌, min, Run,
  returns, ◌>>=◌, ◌>>◌, assert, ok, err,
}
use llfree_rs.Types.{tree_frames, Res, Init}
use llfree_rs.Util.{div_ceil, size_of_slice}
use llfree_rs.Lower.{Lower}
use llfree_rs.Lower.Setup.{Primary}
use llfree_rs.Lower
use llfree_rs.Trees
use llfree_rs.Local.{empty}
use llfree_rs.LlFree.Types.{LlFree}

pub record MetaSize : Type 0 where
  pub local : ℕ
  pub trees : ℕ
  pub lower : ℕ

-- A buffer: its address and its length in bytes.
pub record Buffer : Type 0 where
  pub start : ℕ
  pub bytes : ℕ

pub record MetaData : Type 0 where
  pub local : Buffer
  pub trees : Buffer
  pub lower : Primary

abbrev pub lower_buffer : MetaData → Buffer
lower_buffer m = record { start = m.lower.address; bytes = m.lower.bytes }

abbrev pub contains : Buffer → ℕ → Bool
contains a p = leb a.start p && ltb p (a.start + a.bytes)

-- `overlap`: whether an end of one range lies in the other.
unfoldable pub overlap : Buffer → Buffer → Bool
overlap a b =
    contains a b.start
    || contains a (b.start + b.bytes - 1)
    || contains b a.start
    || contains b (a.start + a.bytes - 1)

-- `MetaData::valid`.
unfoldable pub valid : MetaSize → MetaData → Bool
unfolding overlap
valid m d =
    leb m.local d.local.bytes
    && leb m.trees d.trees.bytes
    && leb m.lower d.lower.bytes
    && d.local.start % 64 == 0
    && d.trees.start % 64 == 0
    && d.lower.address % 64 == 0
    && not (overlap d.local d.trees)
    && not (overlap d.trees (lower_buffer d))
    && not (overlap (lower_buffer d) d.local)

module _ (local_size : ℕ) where
  -- `clamp` panics where its lower bound is above the upper one.
  unfoldable pub metadata_size : ℕ → ℕ → Run MetaSize
  unfolding Trees.metadata_size Lower.Setup.metadata_size
  metadata_size cores frames = do
    assert (leb 1 (div_ceil frames tree_frames))
    returns (record {
      local =
          size_of_slice local_size 64
            (if cores == 0 then 1 else min cores (div_ceil frames tree_frames));
      trees = Trees.metadata_size frames;
      lower = Lower.Setup.metadata_size frames;
    })

  unfoldable pub new : ℕ → ℕ → Init → MetaData → Run (Res LlFree)
  unfolding metadata_size valid Lower.Setup.new Trees.new Lower.Query.free_in_tree
  new cores frames init meta = do
    m ← metadata_size cores frames
    assert (valid m meta)
    lower ← Lower.Setup.new frames init meta.lower
    elim lower [
      | err e ↦ returns (err e)
      | ok l ↦ do
        ts ← Trees.new frames (λ start. Lower.Query.free_in_tree start l)
        returns (
            ok (record {
              locals =
                  replicate
                    (if ltb frames (tree_frames * cores)
                      then div_ceil frames tree_frames
                      else cores)
                    empty;
              lower = l;
              trees = ts;
            }))
    ]
