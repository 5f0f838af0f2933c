-- ===== src/Lib.antt =====
-- The tiered cache of pkg/: an in-memory cache (L0), an SSD cache over shards of the Badger database
-- (L1), cold storage behind sinks (L2), a write-ahead log with checkpoints and recovery, the
-- configuration, and the cache of the program, which joins them.
--
-- Parts, and where they are modelled:
--
--   Base, Base/*       what the modules share: Boolean tests on numbers (Tests), lists (Lists), byte
--                      strings (Str), 64-bit words, FNV hashes, CRC32, panics and results (Word),
--                      int64 values (Int), float64 by its bits (Floats), decimal and hexadecimal
--                      text (Decimal), Go maps as association lists (Assoc).
--   Common, Common/*   pkg/common/errors.go and consts.go: tiers, error values and their text, whether
--                      an error may be retried, cache entries and their expiry, constants.
--   Config, Config/*   pkg/config/config.go: the records, DefaultConfig (Default), Validate
--                      (Validate) and the ranges that it is to ensure (Valid), Load, LoadOrDefault
--                      and Save (Load). Machine is DefaultConfig on machines of all sizes.
--   L0, L0/*           pkg/l0/l0_cache.go. State has L0Cache, shard and New; Clock the ring of the
--                      clock algorithm (evictOne, addToClock, the search of Demote); Ops the calls
--                      Get, Set, Delete, GetOrSet and Demote; Queries those that only read. Shard
--                      says when a shard and a cache are well formed. Spec is what the calls promise,
--                      as steps of a map from keys to values over time, and what refines it.
--   L0/Snapshot        pkg/l0/snapshot.go. Write is the file that WriteSnapshot writes, Restore its
--                      readers ReadSnapshot and RestoreFromSnapshot, Folder the folder of snapshots,
--                      Calls WriteSnapshot with each of its failures, and snapshot, Close and Restore
--                      of pkg/l0/l0_cache.go.
--   L1, L1/*           pkg/l1/l1_badger.go. Badger is the interface of the database, with what its
--                      documentation says of transactions; State has L1Cache and its calls; Reads
--                      and Whole say what a caller can read after each; Open is New, Iterate the
--                      iterator with EvictCandidates and Stats.
--   Replay, Replay/*   pkg/replay/recovery.go. Entry has WALEntry and its checksum, with JSON as an
--                      interface (Codec); Frame the records of the log; Log the scan replayWAL;
--                      Manager the RecoveryManager with its files; Pool the goroutines of Recover.
--   L2, L2/*           pkg/l2/retry.go: the retry and dead letter queues (Queue), IsRetryable and its
--                      search of a text (Contains), RetryConfig and its backoff (Backoff).
--                      pkg/l2/sinks.go: the sink manager (Sinks).
--   Tiered, Tiered/*   pkg/tieredcache/tieredcache.go. State has TieredCache and its calls, with the
--                      promotions that Get starts as a list of goroutines that wait; Tiering is
--                      performTiering; Start has New, Initialize with the recovery, and Close; PreWarm
--                      is preWarmL0, Figures is Stats.
--
-- How the parts meet. Tiered/Start takes the ranges of Config/Valid to the constructors of L0 and L1,
-- and the entries that Replay/Manager recovers to their calls; Tiered/State and Tiered/Tiering call
-- L0/Ops, L1/State and the sinks' answers in the order of the code. Each tier brings its
-- well-formedness (L0/Shard, L1/Reads), which Tiered/Moved joins.
--
-- How the code is read. A call that holds a lock is one step, a function from the state to the state
-- and the result, with the time as an argument. Code that can panic, or a loop on fuel, gives a
-- `Run`; a call that returns a value and an error gives a `Result`; a call that returns an error only
-- gives a `GoError`, where nil is a constructor. uint64 counters wrap at 2 ^ 64. An int that the code
-- lets grow by uint64 arithmetic is its 64-bit pattern. A Go map is an association list with each key
-- once. Text is a list of bytes. The workers of Recover interleave in any order (Replay/Pool); so do
-- a promotion and the calls between it and its Get (Tiered/Updates), and the goroutines of a write to
-- the sinks end in any order (L2/Sinks).
--
-- Fuel. The eviction loop of Set has one round more than the shard has entries, since each round that
-- goes on deletes one. The scan of the log has one round more than the file has bytes, since each
-- round that goes on reads eight at least; the loop of RestoreFromSnapshot likewise, since each of
-- its rounds reads four. A loop over the iterator of L1, that of preWarmL0 too, has one round more
-- than there are items.
--
-- Parameters. Badger, its transactions and its iterators (L1/Badger, L1/Iterate), the opening of
-- databases (L1/Open), JSON on log entries (Replay/Entry) and on snapshot entries (L0/Snapshot), YAML
-- (Config/Load), the text of a float (Config/Validate), products with a float (L2/Backoff), the sinks'
-- answers, the outcome of calls of the system, times, the memory in use (Tiered/PreWarm), the order in which the
-- workers of Recover apply the entries and whether one waits for ever (Schedule in Tiered/Start;
-- Replay/Pool/Room has what it takes to wait), and the comparison of the usage ratio with its
-- threshold, which is in floating point. The Sample and Tests modules have an instance of each
-- interface.
--
-- Not modelled: what is computed in floating point (UsageRatio, GetMaxCapacityBytes, the hit rate),
-- the timers and loops of the background workers (what they call is modelled), WALReader, which
-- nothing calls, and the programs of cmd/, which generate load, read signals and print. Directories
-- and files that cannot be opened or synced, and cancelled contexts, are left out of the replay
-- model. No two calls of one tier run at the same moment.
pub mod Base
pub mod Common
pub mod Config
pub mod L0
pub mod Replay
pub mod L1
pub mod Tiered
pub mod L2
