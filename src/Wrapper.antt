-- ===== src/Wrapper.antt =====
-- core/src/wrapper.rs: `ZoneAlloc`, which shifts the frames by an offset, and `NvmAlloc`, which
-- keeps its state at the end of the memory that it manages. Both work on any allocator; the trait
-- `Alloc` of core/src/lib.rs is the record of its operations.
pub mod Zone
mod Tests
use llfree_rs.Base.{
  ℕ, ◌+◌, ◌-◌, ◌*◌, ◌/◌, ◌%◌, ◌^◌, Bool, true, false, ◌||◌, not, leb, ltb, ◌==◌, if◌then◌else◌, Run,
  returns, panics, ◌>>=◌, checked_sub, Result, ok, err,
}
use llfree_rs.Types.{
  Error, memory, address, initialization, Res, Init, free_all, recover, Flags, max_order,
}
use llfree_rs.Util.{div_ceil}
use llfree_rs.Atomic.{swap}
use llfree_rs.Word.{u64_max}
use llfree_rs.Lower.Setup.{Primary}
use llfree_rs.LlFree.Setup.{MetaSize, MetaData, Buffer}

-- The trait `Alloc`, for an allocator with the state `S`, less `name`, `metadata` and the methods
-- that the wrappers leave to their default.
pub record Alloc (S : Type 0) : Type 0 where
  pub metadata_size : ℕ → ℕ → Run MetaSize
  pub new : ℕ → ℕ → Init → MetaData → Run (Res S)
  pub get : ℕ → Flags → S → Run (Res ℕ × S)
  pub put : ℕ → ℕ → Flags → S → Run (Res (Unit {0}) × S)
  pub frames : S → ℕ
  pub cores : S → ℕ
  pub free_frames : S → ℕ
  pub free_huge : S → ℕ
  pub is_free : ℕ → ℕ → S → Run Bool
  pub free_at : ℕ → ℕ → S → Run ℕ
  pub drain : ℕ → S → Run (Res (Unit {0}) × S)

-- `a + b` on `usize`.
abbrev pub checked_add : ℕ → ℕ → Run ℕ
checked_add a b = if ltb u64_max (a + b) then panics else returns (a + b)

-- `Frame::SIZE`.
abbrev pub frame_size : ℕ
frame_size = 4096

pub record ZoneAlloc (S : Type 0) : Type 0 where
  pub alloc : S
  pub offset : ℕ

abbrev pub zone : {S : Type 0} → S → ℕ → ZoneAlloc S
zone s offset = record { alloc = s; offset = offset }

-- `Meta`, the last page of the memory.
pub record Meta : Type 0 where
  pub magic : ℕ
  pub frames : ℕ
  pub crashed : Bool

abbrev pub magic_number : ℕ
magic_number = 0xdead_beef

pub record NvmAlloc (S : Type 0) : Type 0 where
  pub alloc : ZoneAlloc S
  pub meta : Meta

-- How `NvmAlloc::create` starts: what it makes of the last page, for `n` frames before it.
unfoldable pub start_mode : Bool → ℕ → Meta → Res Init × Meta
start_mode true n m =
    let m' : Meta = record m { crashed = (swap true m.crashed).1 } in
    if not (m.magic == magic_number) || not (m.frames == n)
    then (err initialization, m')
    else (ok (recover (swap true m.crashed).0), m')
start_mode false n m = (ok free_all, record { magic = magic_number; frames = n; crashed = true })

module _ {S : Type 0} (a : Alloc S) where
  unfoldable pub zone_create : ℕ → ℕ → ℕ → Init → MetaData → Run (Res (ZoneAlloc S))
  zone_create cores offset frames init meta =
      if not (offset % 2 ^ max_order == 0) then returns (err initialization) else (do
        s ← a.new cores frames init meta
        elim s [ ok s' ↦ returns (ok (zone s' offset)) | err e ↦ returns (err e) ])

  unfoldable pub zone_get : ℕ → Flags → ZoneAlloc S → Run (Res ℕ × ZoneAlloc S)
  zone_get core flags z = do
    (got, s) ← a.get core flags z.alloc
    elim got [
      | ok f ↦ do frame ← checked_add f z.offset; returns (ok frame, zone s z.offset)
      | err e ↦ returns (err e, zone s z.offset)
    ]

  unfoldable pub zone_put : ℕ → ℕ → Flags → ZoneAlloc S → Run (Res (Unit {0}) × ZoneAlloc S)
  zone_put core frame flags z = if ltb frame z.offset then returns (err address, z) else (do
    (done, s) ← a.put core (frame - z.offset) flags z.alloc
    returns (done, zone s z.offset))

  unfoldable pub zone_is_free : ℕ → ℕ → ZoneAlloc S → Run Bool
  zone_is_free frame order z =
      if ltb frame z.offset then returns false else a.is_free (frame - z.offset) order z.alloc

  unfoldable pub zone_free_at : ℕ → ℕ → ZoneAlloc S → Run ℕ
  zone_free_at frame order z =
      if ltb frame z.offset then returns 0 else a.free_at (frame - z.offset) order z.alloc

  unfoldable pub zone_drain : ℕ → ZoneAlloc S → Run (Res (Unit {0}) × ZoneAlloc S)
  zone_drain core z = do (done, s) ← a.drain core z.alloc; returns (done, zone s z.offset)

  -- The memory has `len` frames from the address `start` on, and `meta` in its last page; `region`
  -- says what the bytes at an address hold for the lower allocator.
  unfoldable pub nvm_create :
      ℕ → ℕ → ℕ → Meta → (ℕ → ℕ → Primary) → Bool → Buffer → Buffer → Run (Res (NvmAlloc S) × Meta)
  unfolding zone_create start_mode
  nvm_create cores start len meta region recovering local trees = do
    m ← a.metadata_size cores len
    if ltb (len * frame_size) (m.lower + frame_size)
          || not (start % (frame_size * 2 ^ max_order) == 0)
        then returns (err initialization, meta)
        else if len == 0
        then returns (err memory, meta)
        else let (mode, meta') = start_mode recovering (len - 1) meta in
          elim mode [
            | err e ↦ returns (err e, meta')
            | ok init ↦ do
              n ← checked_sub (len - 1) (div_ceil m.lower frame_size)
              let metadata : MetaData = record {
                local = local;
                trees = trees;
                lower = region (start + n * frame_size) m.lower;
              }
              z ← zone_create cores (start / frame_size) n init metadata
              elim z [
                | err e ↦ returns (err e, meta')
                | ok z' ↦ returns (ok (record { alloc = z'; meta = meta' }), meta')
              ]
          ]

  unfoldable pub nvm_get : ℕ → Flags → NvmAlloc S → Run (Res ℕ × NvmAlloc S)
  unfolding zone_get
  nvm_get core flags v = do
    (got, z) ← zone_get core flags v.alloc
    returns (got, record v { alloc = z })

  unfoldable pub nvm_put : ℕ → ℕ → Flags → NvmAlloc S → Run (Res (Unit {0}) × NvmAlloc S)
  unfolding zone_put
  nvm_put core frame flags v = do
    (done, z) ← zone_put core frame flags v.alloc
    returns (done, record v { alloc = z })

-- `drop`: the page as the allocator leaves it at a shutdown.
unfoldable pub dropped : Meta → Meta
dropped m = record m { crashed = false }
