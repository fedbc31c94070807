-- ===== src/Lib.antt =====
-- cynthia: an asynchronous runtime. This library models the parts that keep its tasks, locks and
-- buffers consistent, as code that runs, and proves what they promise.
--
-- The parts and their files (paths from the repository's root):
--   Task      cynthia/src/runtime/task: the life of one task. Task.Word has the flags of the state
--             word (state.rs), Task.Cell the allocation with its header (header.rs), Task.Raw the
--             functions of RawTask (raw.rs) and the destructor of Runnable (runnable.rs), Task.Handle
--             those of Task (task.rs), and Task.System lets the threads that hold the Runnable, the
--             wakers and the handle take their steps in any order.
--   Blocking  cynthia/src/runtime/blocking/blocking.rs: Blocking.Pipe, the ring of bytes between a
--             blocking reader or writer and a task, and Blocking.Pool, the pool of threads.
--   Event     cynthia/src/platform/event/listener.rs: the listeners that wait for an event. Event has the
--             operations of List and of a listener, Event.System their steps in any order.
--   Parking   cynthia/src/platform/parking/parking.rs: a thread that parks and those that unpark it.
--   Sleeper   cynthia/src/platform/waker/sleeper.rs: the workers of the executor that sleep.
--   Executor  cynthia/src/runtime/executor.rs: the shared queue with its tickers, which sleep in a
--             Sleeper, the flag `notified`, and the threads that schedule.
--   Steal     cynthia/src/runtime/executor.rs: how a runner searches the queues, and what it steals.
--   Stream    cynthia/src/future/stream.rs: Stream is what is polled; Stream.Adapters are the adapters
--             of one stream and Stream.Futures the futures over one, each as what its loop (Stream.Loop)
--             does with an item; Stream.Pairs are those with a state of their own, and of two streams.
--   Future    cynthia/src/future/future.rs: the futures of two futures. Future.Pairs says when they are
--             ready, Future.Tries what becomes of an error.
--   ReadBuf   cynthia/src/utils/read_buf.rs: a buffer filled step by step over uninitialized memory.
--   Queue     cynthia/src/platform/queue: Queue.Single, the queue of one slot (single.rs), Queue.Bounded,
--             that of fixed capacity (bounded.rs), and Queue.Fifo, what every queue promises; Queue.Single.Refine
--             and Queue.Bounded.Refine say how far these two do.
--   Channel   cynthia/src/platform/channel/channel.rs: the tasks that send and those that receive over a
--             queue and two events. Channel.Side has the loop that both run, Channel.Flow what the
--             users see.
--   Rander    cynthia/src/utils/rander.rs: the random numbers, from the generator to the integers in a
--             range and the shuffling of a slice.
--   BytePool  cynthia/src/platform/byte_pool: the pool of blocks of bytes, and its Vecs; BytePool.Fresh has
--             the buffers that clients hold beside it.
--   Colo      cynthia/src/utils/colo.rs: the slab that the executor and the reactor keep their wakers
--             in.
--   Lock      cynthia/src/platform/lock: Lock.Mutex, Lock.RwLock (with a Lock.Mutex inside),
--             Lock.Semaphore and Lock.Barrier, each for any number of tasks.
--   Base      what they share: tests, lists, machine words, and machines with the states they reach.
--
-- How the code is read:
--   A piece of code that threads run at the same time is a machine: its state, and one action for
--   each atomic access with the private work around it. Whoever may act next does. `can` says who may:
--   a thread that holds a waker, a guard or the Runnable. The states reached in any order of actions
--   are `Reach`, and what holds of them holds whatever the scheduling.
--   A loop round a compare-exchange is one step, the exchange that succeeds, with the last value read;
--   in the queues each round of such a loop is a step, whether it succeeds or not. The loads of a round
--   of Queue.Bounded are taken at one moment there; Queue.Bounded.Loads is about rounds whose loads and
--   exchange are made at different moments, while other threads go on. A round that goes round, or whose
--   exchange fails, for whatever reason, changes nothing.
--   The orderings of atomics are taken as sequentially consistent. Header::take and Task::poll_task
--   run as one step each, Header::register as two.
--   Fields that the code does not have count what the tasks hold: wakers, guards, waiting tasks,
--   notifications sent. They are written where the code hands one out or gives one up, and no step
--   reads them but to see who may act.
--   An abort of the process, a panic and an index out of bounds are `none`.
--   Numbers are natural; a usize has 64 bits, and where the code can wrap round, % 2 ^ 64 is written.
--   Loops on fuel: `set_detached` has two rounds, since a round that does not end it closes the task,
--   and `grow_pool` as many as there are threads left up to 500, where it stops.
--   The count of a stream's items and of the rounds is natural, where the code has a usize: they are the
--   same for less than 2 ^ 64 items.
--   `schedule` of a task does not make the waker that raw.rs clones and drops round the call of a schedule
--   function with data; cloning and dropping a waker are steps of their own.
--   A stream is a parameter: any type with a `poll_next` and a bound on the polls before it ends. The
--   loop of an adapter or a future runs on fuel, one round more than its stream has polls left, which
--   is enough since each item takes one. What a stream gives is the list of its items from poll to
--   poll until it ends.
--   A future is its function `poll`, any function; what it does once it was ready is not assumed.
--   Drawing a random number below another one may take any number of draws: it runs on fuel, and the
--   number of draws that it takes is known from the draws.
--   The masks of Queue.Bounded are / and % by `mark_bit`, which may be any number above the capacity;
--   what is proved of it holds while the words of head and tail are two laps below 2 ^ 64.
--   The queue of a channel is Queue.Fifo; that a queue of one slot may answer Full while a pop is taking
--   its value out is left out there. An event of a channel is what it promises: notify(1) reaches a
--   listener, any of them, unless one
--   is notified already, and a listener that is dropped after it was notified passes that on.
--   What Read and Write do in a pipe, and what the wakers of a task are, is left to the caller: any
--   bytes, any amounts, and a test `will_wake` on the numbers of wakers.
--
-- Not modelled: the orderings of atomics weaker than sequential consistency; the clock that decides
-- when a task starves for a mutex; condition variables, and the listeners inside the locks (whoever
-- waits for a lock may wake at any time); the values that locks guard; the layout of a task in memory;
-- the pointers between the entries of the list of listeners, which is taken as its entries in order;
-- other threads that use the queues during a search; streams that never end; system calls (epoll,
-- kqueue, wepoll, files, sockets, processes); Unbounded of platform/queue; the streams of a
-- channel; the timers of the reactor; the procedural macros.
pub mod Base
pub mod Blocking
pub mod BytePool
pub mod Channel
pub mod Colo
pub mod Event
pub mod Executor
pub mod Future
pub mod Lock
pub mod Parking
pub mod Queue
pub mod Rander
pub mod ReadBuf
pub mod Sleeper
pub mod Steal
pub mod Stream
pub mod Task
