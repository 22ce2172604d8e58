-- ===== src/Lib.antt =====
-- coreinit-nx: the system library of the Wii U over Horizon, for recompiled games.
--
-- A game calls the functions of `include/coreinit`; the library keeps its own object for each structure
-- of the game, found by the structure's address in a handle table, and changes it, where the object has
-- a lock, under that. The models follow that: a component's state is a record, each call is a function on it,
-- and an exported call finds the record in the table (`with_host`) and changes it there.
--
--   Base          shared names, list lemmas, bits, and integers over the native numbers
--   Handles       source/internal/handle_table.hpp: `get` is `get`, `erase` is `erase`; writing through
--                 the pointer that `get` returns is `store`
--   Align         the alignment helpers of source/memexpheap.cpp and source/memfrmheap.cpp
--   ExpHeap       source/memexpheap.cpp: `alloc` and `free` are the bodies of MEMAllocFromExpHeapEx and
--                 MEMFreeToExpHeap, `choose` is the search, `carve` and `splice` the split, `coalesce` the
--                 merge; ExpHeap/Api has the exported calls, ExpHeap/BaseHeaps the base heaps and
--                 ExpHeap/DefaultHeap source/memdefaultheap.cpp
--   FrmHeap       source/memfrmheap.cpp, in the same way
--   MessageQueue  source/messagequeue.cpp: one `Section` of the lock at a time
--   Semaphore     source/semaphore.cpp
--   Event         source/event.cpp
--   Mutex         source/mutex.cpp, source/cond.cpp and source/internal/mutex_internal.hpp;
--                 Mutex/Monitor has runs of threads over one mutex and condition
--   Alarm         source/alarm.cpp: the calls on the map of alarms, and one turn of `schedulerLoop`;
--                 Alarm/Scheduler has runs of both, with the thread's start and end and the shutdown
--   LockedCache   source/lockedcache.cpp: the budget and the blocks
--   Memory        source/memory.cpp and source/cache.cpp, and the DMA copies of source/lockedcache.cpp
--   Thread        source/thread.cpp: one thread, with what Horizon answers as arguments; Thread/Api has the
--                 exported calls, Thread/Trampoline the end of a thread, Thread/Cycle the steps of its life
--   Driver        source/driver.cpp
--   Dynload       source/dynload.cpp and source/symbol_registry.cpp, whose table is Dynload/Exports
--   Atomic64      source/atomic64.cpp
--   UserConfig    source/userconfig.cpp
--   Time          source/time.cpp and OSGetSystemInfo of source/systeminfo.cpp: `days_from_civil` and
--                 `civil_from_days` are `daysFromCivil` and `civilFromDays`, in parts by era and year
--   Filesystem    source/filesystem.cpp: Filesystem/Files, Filesystem/Dirs and Filesystem/Async have the
--                 calls, Filesystem/Calls runs of them by several clients, Filesystem/Errors the
--                 two tables of codes
--   Spinlock      source/spinlock.cpp
--   Debug         source/debug.cpp: what reaches the sink and the handler; Debug/Panic has the texts
--   Misc          source/misc.cpp
--   Mcp           source/mcp.cpp
--   Ghs           source/ghs.cpp: the pool of file locks, over Mutex and Spinlock
--
-- In each component the module `Tests` holds runs of the code on concrete inputs.
--
-- Concurrency. A lock makes what a call does between taking and giving it up one step. A call that waits
-- on a condition variable gives up the lock and starts its test anew when it is woken, so a run of the
-- program is a sequence of such steps by any threads, in any order. The calls on heaps and on the record
-- of a thread take no lock, nor do `FSReadFile`, `FSRemove`, `FSRename`, `FSGetLastError` and the `record` of an
-- error in source/filesystem.cpp, nor `__ghs_flock_destroy`; their models are of calls that do not overlap.
-- `coreinitNxAlarmShutdown` gives up its lock twice and is three steps, with those of the alarm thread and of
-- other calls in between.
--
-- Numbers. Addresses are 64-bit and sizes 32-bit, and each sum, difference and cast of these keeps its
-- wrap-around. The signed counts of semaphores and threads and the ticks of alarms, whose overflow C++
-- leaves undefined, are integers, and so are times and days; what is stated of the counts of semaphores and
-- of calendar times has hypotheses under which they stay in their range. Every loop of the source is structural
-- recursion over a list, but the wait for a spin lock with a deadline, which takes fuel: one turn more than
-- it takes the counter to reach the deadline is enough.
--
-- Parameters. The C library is, for the file system, a record of the calls on streams, directories and
-- paths over a world of its own (`Host`), of which nothing is assumed. The mutex of libnx is a record of its
-- operations and of the laws that its documentation gives (`KernelMutex`, `MutexLaws`). The reading of a
-- clock and the address that `aligned_alloc` gives are arguments. Memory is a record of reads, `memmove`, `memcpy` and `memset` with what the C library
-- documents of them (`Memory`, `IsLawful`), `memcpy` of ranges that do not overlap. The heaps know only
-- ranges of it; a range that an allocation clears is part of its answer. What a game's thread or callback
-- does is an argument, or further steps of a run; the linker's addresses are a function of the names.
--
-- Not modelled: what `vsnprintf` makes of a format and the default sink and handler of the debug output, the
-- error number of newlib, OSGetStackPointer, and the calls that only answer a constant, only call the
-- system once (a yield, a barrier) or do nothing.
pub mod Alarm
pub mod Align
pub mod Atomic64
pub mod Base
pub mod Debug
pub mod Driver
pub mod Dynload
pub mod Event
pub mod ExpHeap
pub mod Filesystem
pub mod FrmHeap
pub mod Ghs
pub mod Handles
pub mod LockedCache
pub mod Mcp
pub mod Memory
pub mod MessageQueue
pub mod Misc
pub mod Mutex
pub mod Semaphore
pub mod Spinlock
pub mod Thread
pub mod Time
pub mod UserConfig
