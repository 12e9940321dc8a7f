-- ===== src/Lib.antt =====
-- aiq: a queue of intrusive nodes that many threads enqueue to without a lock, and that the holder of
-- its lock removes from.
--
-- The parts of the program and the files that model them:
--   QueueState.antt  src/queue/state.rs: the word kept in `Queue::tail`, a state or a pointer to the
--                    last node, and its codings for `()`, `usize` and `*mut T`.
--   Store.antt       src/node.rs (`NodeLink`, `RawNodeState`) and the fields of `Queue` in
--                    src/queue.rs: the shared memory, and what other threads do to it at once.
--   Cmd.antt         atomic accesses as commands, with the moves of other threads between them.
--   Queue.antt       src/queue.rs: `enqueue`, `get_next`, `wait_for_next`, `dequeue`, `pop`, `remove`,
--                    `remove_with_prev` and what `Dequeue` and `Pop` do when they are dropped.
--                    Queue/States.antt: the operations on the state.
--   Drain.antt       src/queue/drain.rs: `Drain::new`, the drop of a node and that of the drain; in
--                    Drain/Unlocked.antt `execute_unlocked` and `for_each`.
--   Node.antt        src/node.rs: the life of a node, `Node::drop`, `Node::state` and the methods of
--                    `NodeUnqueued`, `NodeQueued` and `NodeDequeued`.
--   Semaphore.antt   examples/semaphore.rs: permits, the waiters they are released to and
--                    `SemaphorePermit`, one operation at a time; in Semaphore/Cancel.antt
--                    `Acquire::cancel`, in Semaphore/Owned.antt the owned permits, in
--                    Semaphore/Futures.antt `Acquire` and what makes one, in Semaphore/System.antt any
--                    number of them one after another.
--   WaitQueue.antt   src/wait_queue.rs: the notify operations, `close`, and the polls of `Wait`,
--                    `WaitIf` and `WaitUntil`, one operation at a time; in WaitQueue/Dropping.antt the
--                    making and the end of a `Wait`, in WaitQueue/Wakers.antt `WakerList`.
--   Notify.antt      examples/notify.rs: `Notify` and its futures, one operation at a time; in
--                    Notify/System.antt any number of them one after another.
--   Parker.antt      src/sync/std.rs: `StdParker`, whose machine src/sync/pthread.rs repeats.
--   AtomicParker.antt src/sync/atomic_wait.rs: `AtomicParker`, over a futex that is a parameter.
--   Handoff.antt     src/queue.rs: `wait_for_next` and the end of `enqueue` for a parker that blocks, on
--                    x86_64, over the parker of Parker.antt.
--   LazyBox.antt     src/sync/pthread.rs: `LazyBox`.
--   Pthread.antt     src/sync/pthread.rs: `RawMutex::init` and `PthreadMutex`, over the calls of libc.
--   Spin.antt        src/sync/spin.rs: `SpinMutex`.
--   Tests.antt       runs of the theorems at concrete queues.
--
-- Store/Shape.antt has the invariant: the list of the nodes in the queue, where their `next` may be
-- unwritten for an enqueue under way, but all `prev` are written. Queue/Contract.antt has what the
-- removals promise, Queue/Moments.antt the invariants at each line of `remove_with_prev`.
--
-- Bounds and fuel. An address is a number below 2 ^ 64 that 4 divides. The schedule of the other
-- threads is an arbitrary finite list with a batch of moves for each access; after it they rest. A
-- loop that waits for a link that nobody writes ends as `blocked`, which the theorems tell apart from
-- a result. The loop of `enqueue` has fuel for one round per batch and per spurious failure, and one
-- more: without a change of the tail an exchange that does not fail spuriously succeeds. The loop of
-- `Drain::drain` and that of `Drain::for_each` have fuel as an argument, and the theorems tell how much
-- is enough.
--
-- A drain that lets go of the lock links its nodes to a ring with its sentinel, from which the holders of
-- the lock remove nodes as from the queue. What they do until the drain has the lock again is an
-- argument of `execute_unlocked`, of which the theorems ask that it keeps the ring, but for nodes that
-- it removes and marks. For `for_each` the helper also keeps a list of the nodes that they removed, by
-- which the theorem tells that no other node goes without a visit. Drain/Removal.antt has the removal of queue.rs at such a ring.
--
-- A thread that does not hold the lock yet first takes it: what its holders do in the meantime is the
-- argument `lock` of Node.antt and Queue/States.antt. The semaphore, the wait queue and `Notify` see the
-- queue as a state or a list of waiters, which is what the operations of Queue.antt leave to them;
-- overflow in the semaphore is checked as in a debug build. The parker and the spin lock are step
-- relations over the places of their threads, of which there are any number, but one that parks.
--
-- The closures that the code passes on (to `fetch_update_state`, `enqueue`, `for_each`) are functions
-- without effects, but for the helper of `for_each`, which is passed along.
--
-- Memory is sequentially consistent, and the lock of a queue is held by one thread at a time. Not
-- modelled: `parked_next` of other targets than x86_64, the wrappers over mutexes of other libraries,
-- the data of nodes, the destructor of a mutex whose `RawMutex::init` unwinds, and the shims of
-- src/loom.rs and src/unsafe_pinned.rs. The sequences of Semaphore/System.antt leave out the owned
-- permits, first polls that ask for 2 ^ 31 permits or more, and adding or forgetting more than
-- `max_permits`: with the first the code makes permits, with the second it can lose them.
mod Prelude
pub mod QueueState
pub mod Node
pub mod Notify
pub mod Parker
pub mod Semaphore
pub mod Spin
pub mod Store
pub mod WaitQueue
pub mod Cmd
pub mod Drain
pub mod LazyBox
pub mod Pthread
pub mod AtomicParker
pub mod Handoff
pub mod Queue
pub mod Tests
