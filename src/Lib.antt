-- ===== src/Lib.antt =====
-- LLFree: a page-frame allocator for many cores.
--
-- The allocator has two levels. The lower allocator (core/src/lower.rs) owns the frames: one
-- bitfield of 512 bits for each huge frame, and one table of 8 counters for each tree of 4096
-- frames. The upper allocator (core/src/llfree.rs) chooses the tree: it keeps an array of tree
-- counters (core/src/trees.rs) and, for each core, a preferred tree for each kind of allocation
-- (core/src/local.rs), and calls the lower allocator within the chosen tree.
--
-- Base holds shared names, lists over the native numbers, Boolean tests and `Run`, the outcome of
-- code that may panic. Word models machine words: shifts, complements and wrap-around of u64, bits,
-- digits and blocks of bits. Types, Util and Atomic are core/src/lib.rs, util.rs and atomic.rs;
-- Util.Random is the generator WyRand, and Atomic.Spin the spin lock, whose steps by any number of
-- cores come in any order. Bitfield is core/src/bitfield.rs, a list of words; FirstZeros below it
-- is `first_zeros_aligned`. Lower is core/src/lower.rs, with Entry (HugeEntry, HugePair), Types
-- (the state), Setup (new, free_all, reserve_all, recover) and Query (is_free and the counters);
-- Lower.Clients is the interface as its callers use it, a list of calls by any number of owners.
-- Local and Trees are core/src/local.rs and core/src/trees.rs; LlFree is core/src/llfree.rs, with
-- Types (the state), Setup (metadata_size, new) and Query (free_frames, free_at, validate); its books,
-- the agreement of the counters in the array, at the cores and in the lower allocator, are
-- LlFree.Balance. Trees.Cases has the branches of `sync` and `inc_or_reserve`, which the upper
-- allocator and the totals share; LlFree.Balance.Own is an allocation in the preferred tree, and
-- LlFree.Balance.Range has the frames of the last bitfield that are beyond the range. Wrapper is
-- core/src/wrapper.rs, the zone and the persistent allocator over a record of the operations of the
-- trait Alloc. A function of the source has the definition of the same name; loops with an
-- early exit have a helper with the number of rounds left, which is the length of the loop's range,
-- so that no round is missing.
--
-- A state-changing operation takes the state and returns its result with the new state, or panics:
-- a failed assertion, a failed expect, an index out of bounds or an overflow (the build has
-- overflow checks on, and debug assertions off). Other than at the spin lock, one operation runs at
-- a time: an atomic update sees the value that it replaces, and spin_wait polls an unchanging
-- entry. Locks that other cores hold during a call are a parameter of the upper allocator. The
-- size in bytes of a core's data with its lock is a parameter too, since the lock is a library's.
--
-- Not modelled: interleavings of cores within an operation of the allocator, memory orderings,
-- memory mapping, threads, the C allocator and the benchmarks, which are system calls, foreign code
-- or measuring code; printing and logging have no effect on the state.
mod Base
pub mod Types
pub mod Util
pub mod Word
pub mod Atomic
pub mod Bitfield
pub mod Lower
pub mod Local
pub mod Trees
pub mod LlFree
pub mod Wrapper
