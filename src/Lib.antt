-- ===== src/Lib.antt =====
-- The RFIT runtime of tpfaas: functions F that run under resource limits R, whose requests become
-- instances I that threads T run; and parts of Faabric, the runtime under faasm/ that the build
-- includes: its scheduler and executors, its state and the deltas of its snapshots; and the storage of
-- Faasm.
--
-- How the parts interact. `F::registerF` makes a function and finds or makes the `R` of its limits.
-- `I::make_request` makes an instance of a request. For a concurrent function (a limit above 1) the
-- instance goes into the function's global queue and takes a free place; where there is none, the
-- count of places is raised by the limit less one and a thread is called. For any other function
-- a thread is called with the instance itself. `T::get_T_for_I` wakes an idle thread of the `R` or
-- starts a new one. A thread loops through `getInstance` and `task_done`: it takes an instance from
-- its local map, pulls more from the queue when the map is at most half full, and leaves the
-- function when it finds none, to sleep in the idle queue of its `R`.
--
-- Faabric's scheduler takes batches of messages, queues them for faaslets on this host or sends them
-- to other hosts, and counts what is in flight. A state value is a block of memory with a copy in
-- Redis, from which it is pulled and to which its dirty parts are pushed. A delta describes a new
-- block of memory as changes to an old one. An executor takes a request to bind from the scheduler's
-- bind queue, then calls from the queue of its function, and tells the scheduler and Redis of each that
-- is finished; a pool of threads with tokens makes the executors. The storage of faasm gives a function
-- numbers for file descriptors with rights, over the files of the host and shared files.
--
-- The files, and the code that each models:
--   Base                    Boolean tests, lists, signed integers, results that fail
--   Wavm, Wavm/Assoc        the interface of WAVM's HashMap and Hash, and a map that meets it
--   Utils                   Queue: include/utils/queue.h; Timing, Config and Logging: the files of
--                           src/utils of that name
--   Rfit/Function           include/RFIT/F/function.h, src/RFIT/F/function.cpp (one F); its children
--                           are about `tryGetMultiI`, `scaleCap` and `tryScaleDownCap`
--   Rfit/Resource           include/RFIT/R/resource.h and the constructors in src/RFIT/R/resource.cpp
--   Rfit/Task               include/RFIT/T/task.h, and src/RFIT/T/task.cpp as far as a method works
--                           on one thread and its function; Contents, Taking, Fetch, Leave and
--                           Stealing are about where the instances go and when a thread can leave
--   Rfit/World              the memory of the process. Threads: the idle queue and the busy map of
--                           an R (src/RFIT/R/resource.cpp). Registry: the two caches (`getUniqueR`,
--                           `registerF`, `getF`). Requests: src/RFIT/I/instance.cpp, `get_T_for_I`,
--                           the constructor of T, `bind_os_thread`, src/utils/sync.cpp. Search:
--                           `getInstance` and `task_done` of src/RFIT/T/task.cpp. The others are
--                           about them:
--                           Registration, Binding, Serving, OwnQueue, and Moves, Direct and Life on
--                           the way of a request to a function that is not concurrent
--   Rfit/System             make_request and any number of threads on one concurrent function, as
--                           steps: each use of a lock, and each fetch, is one step. Totals,
--                           Invariant, Steps, Reachable and Range are about what every step keeps; Safety,
--                           Returns and Races are about the states that are reached
--   Main                    main.cpp, its two programs; Keeping, Served and Requests are about the one
--                           without FCGI_ENABLE
--   Faabric/Bytes, Delta    faasm/faabric/src/util/bytes.cpp and delta.cpp with their headers; Apply is
--                           `applyDelta`; Xor, Commands, Regions, Encoded, RoundTrip and Pages are
--                           about what a delta does
--   Faabric/Maps            strings as keys, and maps and sets over them
--   Faabric/Scheduler       faasm/faabric/src/scheduler/Scheduler.cpp: its state, the counts and the
--                           notices; Calls is `callFunctions`; Kept and Counts are about the counts,
--                           Running, Places and Lost about where messages go;
--                           Results holds the results of calls, Flush the start and flushing
--   Faabric/Executor        faasm/faabric/src/executor/FaabricExecutor.cpp; Messages and Effects are
--                           about one message, Runs, Failed, Ends and Bound about `run`, Batch
--                           about `callFunctions` and an executor together
--   Faabric/TokenPool       the TokenPool of faasm/faabric/src/util/queue.cpp, and the threads of
--                           src/executor/FaabricPool.cpp, which Steps is about
--   Faabric/Memory          faasm/faabric/src/util/memory.cpp
--   Faabric/State           faasm/faabric/src/state/StateKeyValue.cpp over RedisStateKeyValue.cpp;
--                           Dirty, Lost and Chunks are about it
--   Faasm/Host, Bits        what the storage takes from outside; `&` and `|` on words
--   Faasm/SharedFiles       faasm/src/storage/SharedFiles.cpp; Again is about a second call
--   Faasm/FileDescriptor    faasm/src/storage/FileDescriptor.cpp: opening, flags and modes (Modes is about
--                           them). Paths: the operations on paths, `stat` and `readLink`. Dirents: the
--                           directory iterator and `copyDirentsToWasiBuffer`, which Rounds, Pages and
--                           Listing are about
--   Faasm/FileSystem        faasm/src/storage/FileSystem.cpp; Opened, Rights and Numbers are about the
--                           descriptors that a function opens and duplicates
--   Tests                   runs, and the theorems at concrete inputs
--
-- How state corresponds. An object is a record of its fields, a pointer is a number with 0 for
-- `nullptr`, and the memory is a function from addresses to records for each class. An instance is
-- the only object that is deleted, and `live` says whether it may still be read. WAVM_ASSERT and
-- `addOrFail` are faults of the result type, and so is the use of a null pointer or of a deleted
-- instance where the model reads it. A `Uptr` is a number below 2^64 where its value is converted
-- to an `Iptr` (`to_iptr`, `0 - limit`), and limits are taken up to 2^63; the count of free places
-- is an integer, and a sum in `scaleCap` that is no `Iptr` is a fault.
--
-- Loops run over the sequences they are given or over the number of rounds that the code computes
-- before, so that no fuel is needed. `getInstance` is modelled from its start or its wake up to its
-- return or to `thread_sleep`, which is one pass of its `goto`. The accepted requests of main are
-- a list, which may be of any length.
--
-- In Faabric, a C++ exception, a failing assertion and an access out of bounds are faults too. A
-- lock is held over a whole operation, so that an operation is a function of the state. A fault ends
-- what is modelled of an operation: what it changed before is part of the result only where the
-- definition returns it. The loop of
-- `applyDelta` takes as many rounds as there are bytes, which is enough since each round reads one;
-- its depth bounds how deep compressed commands stand in compressed commands, and what
-- `serializeDelta` writes needs no more than 2. The loop over pages takes as many rounds as the new
-- data has bytes, which is enough for pages of one byte or more. `int32` counts are natural numbers,
-- with subtraction cut off at 0 where the code takes the maximum with 0. Sets are lists in the order
-- in which they are gone through. A `size_t` has no bound but where the code converts it or where
-- `applyDelta` adds a size that it has read.
--
-- The run of an executor takes a number of rounds, and one more than the messages that are queued on
-- its host is enough; an exception that leaves it is a fault, and so is a wait without a timeout. The
-- loop of `copyDirentsToWasiBuffer` takes two rounds more than the buffer has bytes, which is enough
-- since each but the last copies a header. Bits of flags and rights are those of unsigned numbers.
--
-- Parameters: WAVM's HashMap (with its documented behaviour as laws) and Hash, the results of
-- `pthread_create`, what uninitialised memory holds, whether STEAL_INSTANCE is built in, Faabric's
-- `getEnvVar`, `strtol`, and whether a log file can be opened; zstd, the Redis string of a value, the
-- size of a page, the resources that other hosts answer with, the hosts that Redis knows, the
-- snapshots that are registered, protobuf, the lists in Redis, and which queues drain in time; the
-- hooks of an executor, which may change the scheduler and Redis; the constants of WASI and Linux, the
-- operating system, boost's paths, the
-- loader of shared files, and the layout of a directory entry in a buffer. The
-- results on Rfit/System take hashes of distinct instances to be distinct, as `Hash<Uptr>` of
-- distinct addresses that no two live requests share, one caller of make_request at a time, and a
-- build without STEAL_INSTANCE.
--
-- Not modelled: the clock and the timers, what the logger writes, the HTTP endpoint, the test
-- functions and the FastCGI calls of main.cpp (input and output), contexts and stacks
-- (ucontext). Of faasm/: the protection of state pages and their mapping into other memories,
-- appended values, in-memory state, execution graphs, snapshots, MPI, the servers of a pool, the clients
-- of Redis, gRPC and HTTP, and the WebAssembly modules of faasm/src with their system interface.
pub mod Base
pub mod Wavm
pub mod Utils
pub mod Rfit
pub mod Main
pub mod Faabric
pub mod Faasm
mod Tests
