-- ===== src/Lower/Setup/Start.antt =====
-- `new` of core/src/lower.rs, for each way to initialise.
use llfree_rs.Base.{
  ℕ, ◌*◌, ◌%◌, ◌≤◌, ◌≡◌, refl, true, false, length, ge→ltb, ==_iff, Run, returns, bind-returns, ok,
}
use llfree_rs.Types.{Res, Init, free_all, alloc_all, recover}
use llfree_rs.Lower.Types.{Lower}
use llfree_rs.Lower.Setup.{Primary, metadata_size, new}
use llfree_rs.Lower.Setup.Free.{IsCut, Fresh, free_all_frames-Fresh}
use llfree_rs.Lower.Setup.Reserve.{reserve_all-Fresh}
use llfree_rs.Lower.Recover.Whole.{IsShaped, Recovers, recover_all-Recovers}

-- The two arrays in the buffer, before any of them is written.
abbrev pub view : ℕ → Primary → Lower
view frames primary = record {
  len = frames;
  bitfields = primary.bitfields;
  children = primary.children;
}

-- What the state is for each way to initialise.
abbrev pub Started : Lower → Init → Run (Res Lower) → Type 0
Started l free_all out = (l' : Lower) × (out ≡ returns (ok l')) × Fresh false l l'
Started l alloc_all out = (l' : Lower) × (out ≡ returns (ok l')) × Fresh true l l'
Started l (recover false) out = out ≡ returns (ok l)
Started l (recover true) out = (l' : Lower) × (out ≡ returns (ok l')) × Recovers l l'

-- In a buffer that is long enough and aligned to a cache line, `new` gives, for at least one
-- frame and whatever the buffer holds: with `free_all`, a valid state in which exactly the frames
-- of the range are free; with `alloc_all`, one in which all are allocated; after a clean
-- shutdown, the state as it is; and after a crash, where each entry has a bitfield, a valid state
-- with the frames that the bitfields and the marks of huge frames show.
pub new-Started :
    (frames : ℕ) (init : Init) (primary : Primary)
    → IsCut (view frames primary)
    → metadata_size frames ≤ primary.bytes
    → primary.address % 64 ≡ 0
    → (init ≡ recover true → length primary.bitfields ≡ length primary.children * 8)
    → Started (view frames primary) init (new frames init primary)
unfolding new metadata_size
new-Started frames free_all primary cut enough aligned covered =
    let (l', r, f) = free_all_frames-Fresh (view frames primary) cut in
    (
      l',
      rw (new, ge→ltb _ _ enough, (==_iff (primary.address % 64) 0).1 aligned) (bind-returns _ r),
      f,
    )
new-Started frames alloc_all primary cut enough aligned covered =
    let (l', r, f) = reserve_all-Fresh (view frames primary) cut in
    (
      l',
      rw (new, ge→ltb _ _ enough, (==_iff (primary.address % 64) 0).1 aligned) (bind-returns _ r),
      f,
    )
new-Started frames (recover false) primary cut enough aligned covered =
    rw (new, ge→ltb _ _ enough, (==_iff (primary.address % 64) 0).1 aligned) refl
new-Started frames (recover true) primary cut enough aligned covered =
    let shaped : IsShaped (view frames primary) = record {
      tables = cut.table_sizes;
      covered = covered refl;
      sizes = cut.fields.sizes;
      words = cut.fields.words;
    } in
    let (l', r, f) = recover_all-Recovers (view frames primary) shaped in
    (
      l',
      rw (new, ge→ltb _ _ enough, (==_iff (primary.address % 64) 0).1 aligned) (bind-returns _ r),
      f,
    )
