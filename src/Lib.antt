-- ===== src/Lib.antt =====
-- sysfail injects failures and delays into the system calls of its own process. The kernel's
-- syscall user dispatch turns each syscall of an enabled thread into a SIGSYS, whose handler
-- decides by the plan what the thread sees. A monitor finds the threads of the process; a session
-- enables and disables them by signals.
--
-- The files, and what they model (paths from the repository's root):
--
-- Prelude      shared names; integers with the conversions to `int` and through `uint64_t`, maps as
--              association lists, membership.
-- Doubles      `double` without NaN, as a strict weak order with an addition: a parameter.
-- Host         the random engine, its distributions and the kernel behind the `syscall`
--              instruction: a parameter, with the documented ranges as its laws. `World` is one
--              thread's view of them, with a trace of what it did.
-- Regs         the registers of a signal context, indexed by the REG_* constants.
-- Syscall      src/syscall.cc, and `continue_syscall` of src/session.cc.
-- `Plan`       include/sysfail.hh, `ActiveOutcome` and `ActivePlan` of src/session.cc.
--              Plan/Table and Plan/Choice are about the table of cumulative weights, Plan/Lookup
--              about finding an outcome.
-- Inject       `ActiveSession::fail_maybe` of src/session.cc, as a function of a syscall's registers
--              and the world; `none` is undefined behaviour. Inject/Parts, Inject/Effect and
--              Inject/Handled are about every plan, Inject/Certain and Inject/Limits about extreme probabilities,
--              Inject/Bounds about delays and definedness.
-- Signal       the answers to a queued signal in src/signal.cc; Signal/Queue has the `siginfo_t` and
--              the syscall of `_send_signal`. Signal/Table and Signal/Unmask are about the signal
--              table: `enable_handler`, and the constructor of ActiveSession.
-- Session      the thread table of src/session.hh and src/session.cc: `thd_enable`, `thd_disable`,
--              the handlers of SIG_ENABLE and SIG_DISABLE, `~Session`. An action is a function of
--              the process into a result and a process; an `acquire` at 0 is the result `blocked`.
--              Session/Protocol and Session/Effects are about the semaphores, Session/Threads about
--              live threads and threads that are gone, Session/Self about a thread's own calls,
--              Session/Own about these against the calls of others, Session/Invariant and
--              Session/Teardown about sequences of calls, Session/Steady about threads that get
--              their signals throughout, as are Track/Steady and Open/Steady. Session/Frame
--              compares processes that differ in the kernel's dispatch alone, as do Track/Frame and
--              Open/Frame. Session/Handshake has the calls step by step against the thread that
--              they signal, its handlers, its traps and its exit, as a step relation; its child
--              modules are about what always holds, progress, what goes wrong, the calls as single
--              steps, and the whole table, in which calls for different threads interleave too.
-- ThdMon       src/thdmon.cc: a scan over a listing of the task directory, which returns the calls
--              of the handler. The listing is of ids; ThdMon/Names reads them from the names.
--              ThdMon/Scan and ThdMon/Calls are about one scan, ThdMon/Rounds and ThdMon/Rescan
--              about the poller's scans and about rescans, ThdMon/Wrap about rounds beyond the
--              range of the generation. ThdMon/Threads has the threads of the monitor with what
--              they share, as a step relation over program counters; ThdMon/Exclusion,
--              ThdMon/Construct and ThdMon/Destroy are about it.
-- Track        `thd_track`, `initialize` and `discover_threads` of src/session.cc over the monitor of
--              src/thdmon.cc. A scan's calls of its handler run after it. Track/Scans is about one
--              scan, Track/Rounds and Track/Start about the poller's life, Track/Discover about the
--              two strategies, Track/Follow about rounds and rescans on an open session, and
--              Track/Race about `~Session` while the poller makes its rounds, as a step relation.
-- Regex        the regular expressions that src/map.cc uses, decided by derivatives; Regex/Sound has
--              their languages, Regex/Classes those of the usual pieces.
-- Map          src/map.cc: the text of /proc/<pid>/maps, as bytes. Map/Lines and Map/Inode are about
--              one line, Map/Paths about the patterns, Map/Text about the whole file.
-- Open         the constructor of Session in src/session.cc, with the map, the signals and the
--              monitor in the order of the code. Open/Requests has the methods of Session on an open
--              session and a view of it for its users, Open/Refines compares each of them with it,
--              Open/Lifecycle sequences of them, with rounds of the poller and the destructor, and
--              Open/Isolation what they mean for the syscalls of the threads. Open/Second has a
--              Session that is constructed while another one is open: its table is a new one, and what
--              the kernel dispatches stays. Open/Lock has the methods of several threads and the
--              destructor under the Session's lock, without a poller, as a step relation, which
--              ends where two scans meet; Open/Lock/Safety and Open/Lock/Ending are about it.
-- Log          src/log.cc, over `vsnprintf` as a parameter.
-- Restore      src/restore.S: the instructions, over registers and a memory of aligned words.
-- Dispatch     `handle_sigsys`, `disarm`, `rearm` and `reenable_sysfail` of src/session.cc. The write of
--              a thread's filter in `disarm` is an event of the world, among the calls of the kernel.
--              Dispatch/Kernel has the kernel's syscall user dispatch, as a parameter with its
--              documented behaviour, and with it what becomes of a thread's syscall.
-- InvPred      src/inv_pred.cc.
-- CWrapper     src/cwrapper.cc and include/sysfail.h: accessors and the conversion of a plan.
--              CWrapper/Start is about `sysfail_start` and the life of the session it returns,
--              CWrapper/Fails about what a node of the C plan means for the syscalls in it.
-- Tests        runs of the definitions and the theorems at concrete inputs.
--
-- The loops of the code run over maps and lists, and are recursions on these: there is no fuel. A
-- generation of the monitor wraps at 2^32, as `uint32_t` does. Hash maps are association lists in
-- which `insert` leaves a present key alone; what is stated of them does not depend on the order,
-- but for the order of the events of one scan, of which only membership is stated.
--
-- But for Session/Handshake, a thread's syscalls stand between the requests: while one of them is
-- handled, which may take the filter of its thread to ALLOW and back, no request runs on this thread.
--
-- But for Open/Lock, requests of an open session run one after another, each with the kernel's answers
-- at its time. A method that is called after `stop`, on a null pointer, or that waits for the lock
-- while the destructor has it, is not modelled.
--
-- Not modelled: the length of the poller's wait, which ends at any time, the messages of errors, and
-- src/go. Calls that hold an entry's lock are single steps, but for those of Session/Handshake. A
-- user's predicates are pure functions. NaN is no `double` here. What sigaction(2), vsnprintf and the
-- kernel's listing of threads give are parameters.
--
-- The syscall that `sleep` makes itself, by way of libc, traps like any other of an enabled thread;
-- it is taken to be let through, as one that the plan does not list is. The minus of the least `int` is
-- undefined in C++, and `none` here.
pub mod Prelude
pub mod Doubles
pub mod Regs
pub mod Host
pub mod Syscall
pub mod Plan
pub mod Inject
pub mod Signal
pub mod Session
pub mod ThdMon
pub mod Map
pub mod Track
pub mod Restore
pub mod Log
pub mod Open
pub mod Regex
pub mod Dispatch
pub mod InvPred
pub mod CWrapper
pub mod Tests
