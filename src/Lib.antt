-- ===== src/Lib.antt =====
-- Verification of the programs of this repository, which are separate from each other:
--
-- * Pintos/Scheduler_changes/thread.c and thread.h, a scheduler with two queues: the modules Scheduler.
--   The static variables are the record Scheduler.Kernel, with the pages of memory as a map from an
--   address to a thread; each function of thread.c is the function of that name. Scheduler/Invariant
--   says which kernels are valid; Next, Switch, Calls, Wake, Aging and Tick prove what the functions do
--   to one. Steps puts the calls into any order, with what interrupts do between them; Waiting and Turn
--   prove how long a thread waits in them, and Boot is how the threads start, before the first of these
--   steps.
-- * Pintos/Added_Signals/signal.c and signal.h, and thread.c and thread.h beside them: Sig and Sigset
--   are the signals and their sets, an `int8_t` as its bit pattern; Signals has `Signal`, `kill`,
--   `sigprocmask`, `setlifetime` and `get_thread`; Signals/SigList is the list of pending signals;
--   Signals/Handle is `handleSignals` with the handlers, the test of the lifetime at the end of
--   `thread_schedule_tail`, and the loop of `thread_exit` over the other threads; Signals/Switch is the
--   rest of thread.c, where a thread that is switched to may exit at once. Signals/Posting,
--   Handle/Delivery, Receive, Outcome, Lifetime, Exit, Quiet and Orphans, and Switch/Create, Peace,
--   Arrive, Turn, Death, Chain and Calls prove what they do.
-- * Multithread_server_client/A.c and B.c, a client and a server of tickets: the modules Booking. A
--   system is the semaphores, the shared queue and the places of the two loops and of the threads; a
--   run is any interleaving of their steps. Booking/Invariant, Queue and Runs prove what holds in all
--   of them. Setup is what client and server do before their loops, and the handler of SIGINT.
-- * Querying and updation/X.c and Y.c, student records in shared memory: the modules Students. The
--   shared segment is the list of its entries, `load` and `save` are the two parts of X, and
--   `count_records`, `search` and `update` those of Y. Students/Table, Query, Update and Edit prove
--   what they do, the last for both programs one after the other. Students/Mutex has them as processes
--   with their semaphore, X and any number of Ys, and its children prove what holds in all their runs.
--   Setup is what they do before their loops, and clean.c.
-- * Command_interrupter/shell.c, a shell: the modules Shell. Lines cuts a line into its words, and says
--   what then stands in memory; Builtin is the loop of `main` with the builtin commands, each a
--   function of its name, Console what they work with, and Transfer the loop of `cp`. Shell itself is
--   for a line that is not a builtin command, from its words to the program that is run: `parse` fills
--   `arg`, `inputnum` and `background`; `act` decides between `pipeline`, `redirect` and `plain`.
--   Shell/Parse, Redirect, TwoFiles, Pipe and Background prove what happens to such a line; Lines/Log,
--   Builtin/Rounds, Session and Copies, and Console/Mode what happens to the others and to a session.
-- * Copy_using _pipes/fcopy.c, a copy of a file by two processes: the modules Copy. A system is the
--   rest of the file, the two pipes, the new file and the places of the two loops; a run is any
--   interleaving of their steps. Copy/Phases, Chunks, Turns and Runs prove what holds in all of them.
--
-- Conventions. A function that may stop at a failed ASSERT or reach memory where no thread stands
-- returns an Option, and `none` is that fault. Integers of fixed width are natural numbers, as bit
-- patterns, with the wrap written out; the clock, the counts of ticks and of children and
-- `global_count` are numbers without a bound. The lists of lib/kernel/list.h are sequences; a walk
-- that removes the element it stands at goes on behind it, as the removed element keeps its links.
-- What `palloc_get_page`, `malloc` and `rand` return are arguments. A function that disables
-- interrupts is one step. A section between the locking and unlocking of a mutex is one step, and a
-- wait on a condition ends by a signal, or without one, as the system may do it. Loops walk a list;
-- `schedule` of Signals takes fuel, for the threads that exit one after the other, of which there
-- are at most as many as the queue holds, and so does the loop of `cp`.
--
-- `switch_threads` changes which thread is current. `thread_yield` is modelled up to the switch:
-- its last line, which sets the interrupt level, runs when the thread is chosen again. The lock of
-- `allocate_tid`, stack frames, statistics and the printing of the scheduler are not modelled, nor
-- is the code under USERPROG, nor are the functions that only say that they are not yet
-- implemented. The semaphores of synch.c, which the start of the threads uses, are arguments of
-- Scheduler.Boot. Kernels are not followed through the functions that threads run, but any order of
-- calls is a run. The call of `thread_exit` at the end of `handleSignals` is the Boolean of its
-- result, and Signals.Switch.schedule makes it. Of the Signals kernel the idle loop,
-- `kernel_thread`, the getters and the statistics are not modelled. The client's test that the
-- server lives is not modelled.
--
-- In Students a `float` is a type that the functions take, and `cgpa` is what the user enters for
-- each entry; a file is the list of its records, with a flag for the newline at its end. The loops
-- over the segment take the number of entries up to its end, behind which no entry stands; what a Y
-- does once it has accessed one there is not modelled: a run has no further step of it. Names of 20
-- bytes and more, and input that is not a number, are not modelled. In Shell the calls of the
-- system are the record Os on a state of their own; `execvp`, `open` and `fork` of a program are
-- the record of what is run. The loop of `cp` takes a round for each byte of the file and one more,
-- which are enough as each round reads a byte at least. What `arg` holds before a line, and what a
-- `getcwd` that fails leaves, are fields of Os too. The loop that is to run the programs of a
-- pipeline takes one round of fuel, which is enough as it makes none. A line of 100 bytes and more
-- overruns its buffer, and is a fault; what `ctime` and `perror` print is left to the system.
-- run.c, which starts the shell, is not modelled. In Copy a step of the child takes how many bytes
-- its write stores; the opening of the files and reads that fail are not modelled.
pub mod Prelude
pub mod Scheduler
pub mod Sig
pub mod Sigset
pub mod Signals
pub mod Booking
pub mod Students
pub mod Shell
pub mod Copy
