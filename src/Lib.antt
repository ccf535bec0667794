-- ===== src/Lib.antt =====
-- fiberize: cooperative tasks that exchange events and move between threads. This library models the
-- parts of fiberize that decide what happens to a task and to an event; paths are given from the root
-- of the repository.
--
-- How the parts interact. A task (fiberize/include/fiberize/detail/task.hpp) has a mailbox of events
-- and a map from event paths to handlers. Whoever sends to it puts an event into its mailbox and
-- resumes it; a scheduler takes it out of a queue, executes it, and suspends it or lets it listen
-- again. The task processes its events in the code of context.cpp, which runs the closures of its
-- handlers. A mutex suspends and resumes tasks through the same two calls, and so do an operation of
-- libuv and a timer when they are done. A task with a thread of its own has a scheduler that suspends
-- the thread.
--
-- Which file models what:
--   Base        what the modules share: tests, lists, words, sums over the schedulers;
--   Deque       fiberize/include/fiberize/detail/lazydeque.hpp, with its iterators; View sees a deque
--               as a list, Laws its iteration, Refinement the contract;
--   Identity    fiberize/include/fiberize/path.hpp and fiberize/src/fiberize/path.cpp: the comparison
--               of identifiers and paths, and the generator of identifiers (`operator ==`, `generate`);
--   Mailbox     fiberize/src/fiberize/mailbox.cpp: `enqueue`, `dequeue`, `clear`, the destructor;
--   Handlers    fiberize/include/fiberize/handler.hpp and the collection of handlers of
--               fiberize/src/fiberize/context.cpp (`collectGarbage`); References has the operations of
--               `HandlerRef` on a store;
--   Task        fiberize/include/fiberize/detail/task.hpp;
--   Context     fiberize/src/fiberize/context.cpp: `dispatchEvent`, `process`, `processUntil`, `bind`;
--   Scheduling  fiberize/src/fiberize/detail/multitaskscheduler.cpp and `resume` of
--               fiberize/src/fiberize/context.cpp: one function per critical section; Steps has their
--               interleavings by several schedulers, Invariant to Reachable what holds in all of them,
--               Exclusion and Pins what follows, and Choice the search for the next task (`dequeue`,
--               `steal`, `choosePriority`);
--   Lifetime    `Scheduler::kill` of fiberize/src/fiberize/scheduler.cpp with `Task::grab` and
--               `Task::drop`;
--   Stash       the stacks that the schedulers keep (`stashGet`, `stashPut`, `stashClear`); Accounts has
--               where the stacks of several schedulers are;
--   Waiting     the ticket queue that fiberize/src/fiberize/mutex.cpp and
--               fiberize/src/fiberize/condition.cpp share;
--   Mutex       fiberize/src/fiberize/mutex.cpp: `lock`, `try_lock`, `unlock`, with the same division;
--               `unlock_call` adds the resume after the critical section, for any choice of the tasks
--               that have been deleted by then;
--   Condition   fiberize/src/fiberize/condition.cpp: `await`, `signal`, `signalAll`; Steps has the
--               interleavings;
--   Promise     fiberize/include/fiberize/promise.hpp: `complete` and `await`;
--   Results     fiberize/include/fiberize/result.hpp: the storage of a `Result` and its assignments;
--               Nothing has `Result<void>`;
--   Bodies      fiberize/include/fiberize/detail/tasktraits.hpp: what a fiber, an actor and a future
--               run around the closure of the user, and the rounds that a scheduler gives to a task;
--   Delivery    `FiberRef::send` over fiberize/src/fiberize/detail/localfiberref.cpp and
--               devnullfiberref.cpp; Steps has the schedulers with senders and receivers, Attended and
--               Order what holds in all states;
--   Pinning     fiberize/src/fiberize/scopedpin.cpp;
--   Threads     fiberize/src/fiberize/detail/singletaskscheduler.cpp, with the two ways in which a
--               thread becomes a task (`runTaskAsOSThread`, `FiberSystem::fiberize`);
--   Building    fiberize/include/fiberize/builder-inl.hpp: `run` and `run_`, with the runners of
--               fiberize/src/fiberize/detail/runner.cpp;
--   Events      fiberize/include/fiberize/event.hpp and event-inl.hpp: the comparison of events, and
--               `await`;
--   Requests    fiberize/include/fiberize/io/detail/libuvwrapper.hpp: `execute` in its three modes;
--               Shapes has the steps of an operation, Lifetime how long its environment lives;
--   Sleeping    fiberize/src/fiberize/io/sleep.cpp with the handle environments of libuvwrapper.hpp;
--   Calculator  fiberize/examples/calculator/main.cpp: lexer, parser and recovery; Grammar has the
--               expressions and how they are written;
--   Samples     test data of the examples, which stand in a module Examples of each part.
--
-- State is passed explicitly; undefined behaviour is the result `none` or `undefined`, an exception the
-- result `threw`. An address is a number, a map is an association list or a function, and a machine
-- word is a natural number with its wrap-around written out. Code of the user, the closures of
-- handlers, is a parameter that changes the task and a memory of its own. A spinlock makes the code
-- that holds it one step; the code between two critical sections touches only its own scheduler and one
-- queue. A task that a thread has marked as scheduled and not pushed yet stands in a list of its own,
-- so other steps come between. The schedulers are any number `n`.
--
-- Fuel. `process` and the loops that wake tasks up run on fuel: the number of pending events and one,
-- and the length of the queue and one, are enough, as the theorems say. `processUntil` has a bound on
-- its suspensions besides, and `await` of an event the same two bounds. The deque's loops over
-- iterators take one round more than the length.
--
-- libuv is a parameter: the code that starting an operation returns, the request as the loop hands it
-- to the callback, and when the loop calls back and closes a handle, which it does once each for what
-- was started. That a call without a callback returns the result of the request is a hypothesis. The
-- fuel of the calculator is the size of the expression that it reads.
--
-- Left out of the scheduling model: the streak counter, which only picks the queue that is tried first,
-- while the steps allow either; input and output polls; stopping the system. Not modelled: the loop of
-- a thread of its own after the run of its task, the templates that bind the arguments of a closure,
-- the start and stop of the schedulers of a system, the resume of a task that was deleted after a
-- condition had woken it, and the instances of the wrapper of libuv for files. Hash functions and
-- printing are left to the libraries that they call.
pub mod Base
pub mod Deque
pub mod Identity
pub mod Mailbox
pub mod Handlers
pub mod Task
pub mod Context
pub mod Scheduling
pub mod Lifetime
pub mod Stash
pub mod Waiting
pub mod Mutex
pub mod Condition
pub mod Promise
pub mod Results
pub mod Bodies
pub mod Delivery
pub mod Pinning
pub mod Threads
pub mod Building
pub mod Events
pub mod Requests
pub mod Sleeping
pub mod Calculator
pub mod Samples
pub mod Examples
