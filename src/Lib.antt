-- ===== src/Lib.antt =====
-- libcopp is a library of stackful coroutines in C++ with tasks on top: allocators give a coroutine
-- its stack, a context switches to it and back, and a manager keeps the tasks that run in coroutines
-- and times them out. Locks and atomics serve all of them.
--
-- Each module is about the files it names here, paths from the repository's root. A definition has
-- the name of the function or type that it models; a method takes its object and returns it.
--
-- Base: names, Boolean tests, lists and sums that the other modules share.
-- Errno: include/libcopp/utils/errno.h.
-- Stack: src/libcopp/stack and include/libcopp/stack.
--   Context: stack_context, and the interface of an allocator, which the pool is built on.
--   Traits: stack_traits_posix.cpp; the answers of the system are a record.
--   Memory, Malloc: the allocators over a fixed buffer and over malloc, the latter a parameter.
--   Pool: stack_pool.h. Ends, Accounts, Gc, Reuse and History are its theorems. The list of free
--     stacks is a list from front to back. gc_loop has the length of that list as fuel.
-- Lock: include/libcopp/utils.
--   Atomic: atomic_int_type.h, on a word of a given width.
--   SpinLock: spin_lock.h. Exclusion has threads whose accesses interleave in any order; a thread in
--     lock is in its loop, one access a step, so no fuel is needed.
--   LockHolder: lock_holder.h, over any actions.
-- Coroutine: src/libcopp/coroutine/coroutine_context.cpp and its headers.
--   Flags, Layout: the flags, and the places that create finds for the parts on the stack.
--   Switch: create, start, yield and the end of a runner for the coroutines of one thread. A machine
--     context says which frame goes on when it is jumped to. Nested is the order of the coroutines
--     that run, Entering, Leaving and Runs what the calls make of it. The loop at the head of start
--     tries at most twice when no other thread changes the status, so its fuel of 3 does not run out.
-- Task: include/libcotask/task.h with src/libcotask/impl/task_impl.cpp. The threads that call one
--   task are a list of places; Accesses has what each access does, and Threads lets them
--   interleave. Phases, Steps, Closing and Ended have the invariant and its theorems, Alone what a
--   call does that no other disturbs. A loop is a sequence of accesses and needs no fuel; Alone
--   gives the number of accesses that is enough.
-- TaskManager: include/libcotask/task_manager.h, the managers of stackful and of C++20 tasks.
--   Timers: the times, the timers and their ordered set. Times are natural numbers.
--   Table: the map from ids to tasks.
--   Manager: the operations. Tasks are an interface, TaskOps, whose calls may change the manager, as
--     the lock is free meanwhile. Invariant, Freed, Timing, Operations, Expiry, FirstTick and
--     Deadlines are its theorems. tick has fuel for its loop: one more than the number of timers is
--     enough for tasks that add no timer when they are killed.
--     WithTasks fills TaskOps with the tasks of Task, each call undisturbed by other threads. What a
--     coroutine, on_finished and the next tasks call is not followed there.
--     Futures is the manager of C++20 tasks, by the interface FutureOps, on the same table and timers;
--     Agreement compares it with the stackful one, Starting has theorems of its own. Its
--     tick has the same fuel.
-- Future: include/libcopp/future/storage.h and poller.h. Void, Small and Heap are the three kinds of
--   storage that a poller has; Marks, Holds and Agreement say what is the same about them.
-- IntrusivePtr: include/libcopp/utils/intrusive_ptr.h. The store has the pointers, the counters and
--   which objects are deleted; Programs are sequences of the operations.
-- StdCoroutine: the coroutines of the compiler, which are a parameter.
--   Callers: promise_caller_manager in src/libcopp/coroutine/std_coroutine_common.cpp. Variant is the
--     build with std::variant, Pair the one without it; Sets is what both promise.
--   Promise: promise_base_type in the same file; Waiting is about its resume_waiting.
--     Tasks: include/libcotask/task_promise.h, the contexts and promises of tasks; Lifetime is how
--     they end, Futures the variables that hold them, Running start and kill, Awaitable the wait for
--     one. A record, TaskRuntime, has what runs and destroys coroutines. The loop of force_finish has
--     fuel: as many rounds as the coroutine needs to end are enough, and one round is enough for the
--     loop of kill. Statuses, Forward, Once, Histories and Ending follow the status of a promise,
--     Counts, Vacant and Assigning the counters of futures, Finishing the end of the last one, and
--     Results what a wait gives. What a coroutine does when it is resumed is any function of the
--     world that meets the hypotheses of a theorem.
--     Callables: include/libcopp/coroutine/callable_promise.h, the coroutines that are called, with
--     their promises and awaitables; Futures is their futures, with fuel for the loops of kill, where
--     one round is enough, and of the destructor, which needs one more than the coroutine does.
--     Finishing is about these, Awaiting about what a wait gives, and Actions fills the interface of
--     Some.
--   Some: the wait for some of several futures in include/libcopp/coroutine/callable_promise.h, cut
--     where its coroutine waits; Scan is about the futures that it finds ready. What the futures do
--     is a record, SomeActions.
-- Uint64IdAllocator: src/libcopp/utils/uint64_id_allocator.cpp. Threads interleave their loads
--   of the sequence, their looks at the clock and their compare-exchanges. Unique has its theorems.
--
-- Sizes are natural numbers below 2 ^ 64, with the wrap of size_t written out.
--
-- Not modelled: the creation, destruction and await_task of stackful tasks, results and futures, the
-- promises of generators, the adaptors of then(), and the container of coroutines,
-- which the modelled parts do not call or take as an interface; fibers, segmented stacks and variants for
-- other targets; exceptions; the assembly of the machine contexts; memory orders weaker than one
-- access at a time; and, where threads interleave on a task, the accesses between the change of the
-- status of its coroutine and the jump: an entry and a yield of the coroutine are one access each.
pub mod Base
pub mod Errno
pub mod Stack
pub mod Lock
pub mod Coroutine
pub mod Task
pub mod TaskManager
pub mod Uint64IdAllocator
pub mod Future
pub mod IntrusivePtr
pub mod StdCoroutine
