-- ===== src/Lib.antt =====
-- RedOpt: a verification library for the modified Redis server of this repository, whose new
-- eviction policy allkeys-lru-histogram scores keys by the histogram of their last accesses.
--
-- The modelled program is redis-source-code-modifications/src: evict.c (eviction), object.c and
-- db.c (objects, key space, expiry, commands), lengths and strings of rdb.c, the numeric parameters of
-- config.c, with the constants of server.h.
--
-- Parts and files:
-- - Server: the fields of `struct redisServer` that the code reads, the policy bits and constants.
-- - Clock: getLRUClock, LRU_CLOCK, estimateObjectIdleTime, LFUGetTimeInMinutes, LFUTimeElapsed
--   (evict.c). Clock/Wrap: the clocks across their wrap-around.
-- - Object: redisObject as words of memory, createObject, initOrUpdateObjectt,
--   initObjectLRUOrLFU, the reference counts (object.c), updateLRUHistogram (db.c).
--   Object/History: the access history. Object/Idle: objectSetLRUOrLFU. Object/Strings: string
--   objects, from createStringObject to tryObjectEncoding, getDecodedObject and equalStringObjects
--   (object.c); string2ll and ll2string are a parameter. Object/Strings/Encode, /Compare, /Fresh:
--   their encodings. Object/Strings/Parse: getLongFromObjectOrReply and kin.
-- - Lfu: LFULogIncr, LFUDecrAndReturn (evict.c), updateLFU (db.c).
-- - Double: C doubles, a parameter with the laws that the code relies on.
-- - Histogram: calculateStatistics, defineWindowBoundaries, estimateObjectEvictionScore (evict.c).
--   Histogram/Range, /Total, /Score: the ages, the reads, the scores.
-- - Pool: the pool of sixteen entries, each with a buffer of 255 bytes that moves with it, and the
--   insertion of a candidate that both populate functions share (evict.c). Pool/Spec: the abstract
--   pool, a sorted list of at most sixteen candidates. Pool/Shape: the invariant. Pool/Room,
--   /Place, /Insert: the refinement. Pool/Order, /Best: the order of the candidates.
-- - Populate: evictionPoolPopulate and evictionPoolPopulateLRUHistogram, over the samples that
--   dictGetSomeKeys returned. Populate/Refine: against the bounded insertion.
-- - Memory: freeMemoryGetNotCountedMemory, getMaxmemoryState, overMaxmemoryAfterAlloc,
--   evictionTimeLimitUs (evict.c).
-- - Evict: the choice of the key to evict in performEvictions. Evict/Scan, /Best: what it chooses.
--   Evict/Cycle: performEvictions with its helpers and evictionTimeProc; the allocator, the clocks,
--   the sampling and the other threads are a parameter, `Outside`. Its loops run on fuel, and a loop
--   that is not at its end is told apart from every result; for allkeys-random the number of keys is
--   enough fuel, for the policies that use the pool none is given, since a round may find no key.
--   Evict/Cycle/Delete, /Random, /Metrics: the choice, the removal, the result. Evict/Cycle/Shrink, /Refills, /Picks,
--   /Effect: what each part does to the state. Evict/Cycle/Returns: the fuel that is enough.
-- - Dict: the dictionary of dict.h, a parameter. Db: lookupKey, dbAddInternal, dbSetValue, setKey,
--   dbGenericDelete, getExpire, setExpire, expireIfNeeded (db.c). Db/Lookup, Db/Write. Db/Calls: the
--   calls around them, dbRandomKey. Db/Flush: emptyDbStructure, dbTotalServerKeyCount; emptyDbAsync is
--   a parameter.
--   Db/Master, /Set: the lookup for a write, and setKey. Db/Timed: values and times together.
--   Db/Commands: DEL, UNLINK, EXISTS, RENAME, MOVE, the options of FLUSHDB (db.c), with /Delete,
--   /Rename, /Move and /Steps, a step relation on databases.
-- - Rdb: rdbSaveLen, rdbLoadLenByRef and kin (rdb.c), over a stream that is a parameter.
--   Rdb/RoundTrip. Rdb/Strings: rdbSaveRawString, rdbGenericLoadStringObject and what they call;
--   LZF is a parameter. Rdb/Strings/Integers, /Loads, /Compressed: the three forms.
-- - Config: numericConfigSet and numericConfigGet (config.c). Config/Parse, /Numeric, /RoundTrip.
-- - Base: shared names, lists and tests. Tests: instances of the parameters and concrete inputs.
--
-- How state is modelled: operations take the state and return it; `Option` is a failed assertion,
-- a panic or a read outside an array. Numbers are unbounded naturals with the wrap-around of the
-- C types written out. What C leaves uninitialised is a parameter: `left_over`, the `pcounter` of
-- evictionPoolPopulateLRUHistogram, and `garbage`, the memory of a new object. The client of evictionPoolPopulate* is the loop of performEvictions; lookupKey
-- calls expireIfNeeded, which deletes by dbGenericDelete; setKey goes through dbAddInternal and
-- dbSetValue, and a new value gets its history from initObjectLRUOrLFU.
--
-- Not modelled: what printf prints, but for the reads of the pool, latency monitoring, clients, SCAN and the extraction of keys, cluster slots,
-- values other than strings, RDB files and replication, the other parameters of config.c, and the
-- Java services.
pub mod Base
pub mod Server
pub mod Double
pub mod Clock
pub mod Object
pub mod Histogram
pub mod Lfu
pub mod Pool
pub mod Populate
pub mod Rdb
pub mod Memory
pub mod Dict
pub mod Config
pub mod Db
pub mod Evict
pub mod Tests
