-- ===== src/Lib.antt =====
-- Verification library of qoraal, a framework of services for embedded applications in C: lists and
-- other data structures (src/common, include/qoraal/common), and above them the services (src/svc)
-- that run an application's work on a pool of threads and watch over it.
--
-- `Base` holds what the components share: Boolean tests on numbers, and the lists of addresses that
-- the pointer structures stand for. A C structure is named by its address, a number, and a store
-- is a function from addresses; 0 is NULL where the code compares with it. Machine integers are
-- natural numbers with the wrap-around written out.
--
-- `Lists` models include/qoraal/common/lists.h and lists_inline.h, the intrusive lists. `Lists.Stack`
-- is the one-way list (`stack_*`), `Lists.Linked` the list with a tail pointer (`linked_*`),
-- `Lists.Fifo` the queue (`fifo_*`), each over a store of next pointers that may hold other lists as
-- well. Their `Refine` modules relate them to a list of distinct addresses. A walk over a list is a
-- loop on fuel; one round for each element and one for the end is enough, and `Refine` starts with
-- that.
--
-- `Tasks` models src/svc/svc_tasks.c, the pool of threads. `Tasks` has the state (`Pool`) and the
-- expiry of the timer (`svc_tasks_task_event`), `Tasks.Schedule` has `svc_tasks_schedule`,
-- `Tasks.Run` what a thread of the pool does with a task (`svc_tasks_service_task`,
-- `svc_tasks_complete`), `Tasks.Threads` the threads themselves and their start and stop, `Tasks.Wait`
-- the waits for a task, `Tasks.Cancel` has `svc_tasks_cancel` and `task_ready_cancel`. The wait polls
-- on fuel, and more than the ticks of its time-out is enough; a thread's loop needs a step more than
-- there are tasks in its queue.
-- `Tasks.Invariant` says when a pool is well-formed, `Tasks.Moves` and `Tasks.Validity` that the
-- operations keep it so; `Tasks.Order` is about the order of the scheduled tasks by their deadlines,
-- with `Tasks.Order.Release` about an expiry and `Tasks.Order.Place` about where a new task goes. The
-- pool stands on `Lists` by way of the lists of members, which the refinements
-- justify as long as no task is linked twice.
--
-- `Wdt` models src/svc/svc_wdt.c, the software watchdog: the handlers and `svc_wdt_process` in
-- `Wdt`, and in `Wdt.Callback` the task that runs the passes (`svc_wdt_task_cb`), which is a task of
-- the pool. `Wdt.Age` tells what the bits of a handler remember, `Wdt.History` what follows from a
-- sequence of calls that registers no handler twice, and `Wdt.Callback.OnTime` when the hardware is kicked. The platform's kick and
-- the tick frequency are parameters (`Platform`).
--
-- `Dictionary` models src/common/dictionary.c, a hash table: install, replace, look-up and removal
-- over the interface `Keys`, which `Dictionary.Kinds` fills with strings, arrays of words and, for
-- pointers of 32 bits, short numbers: with pointers of 64 bits the value of a short key lies in its
-- key, which the model of an entry as a key and a value excludes. `Dictionary.Chain` has the loops
-- along a chain, `Dictionary.Contents` and `Dictionary.Replace` the table as a map,
-- `Dictionary.Iterate` the iterators, with `Dictionary.Visit` about what they visit, and
-- `Dictionary.Clear` the removal of all entries. What an allocation gives is an argument, and a write
-- past the end of a block gives no result. The iterators' loops end with more fuel than there are
-- entries.
--
-- `Rtc` models src/common/rtclib.c, dates and times of day: `Rtc.Clock` is about the times
-- (`rtc_localtime`, `rtc_time_add`, `rtc_seconds_diff`) and `Rtc.Calendar` about the day numbers
-- (`rtc_get_jday`, `rtc_get_gdate`, `rtc_mktime`).
--
-- `Cbuffer` models src/common/cbuffer.c, a queue of blocks in a circular buffer: the pointers of the
-- buffer (`cbuffer_alloc`, `cbuffer_free`) and the ring of items (`cqueue_*`). `Cbuffer.Layout` and
-- `Cbuffer.Release` say where the items lie, `Cbuffer.Ring` how they are linked, and `Cbuffer.Refine`,
-- `Cbuffer.Dequeue` and `Cbuffer.Walk` relate the whole to the list of its items. `Cbuffer.Validate`
-- is the check of a buffer that outlives a reset (`cqueue_validate`), with `Cbuffer.Inside` and
-- `Cbuffer.Traverse` for its theorems in `Cbuffer.Valid` and `Cbuffer.Returns`; the fuel of its loops
-- is enough if it is above the words of the buffer.
--
-- `Mlog` models the logs in memory, src/common/mlog.c, which stand on `Cbuffer`: the append of a
-- message in `Mlog`, with `Mlog.Append` about the old messages that make room for it (the tries are
-- the code's ten), the set-up of the logs in `Mlog.Setup`, with `Mlog.Restart` about what an earlier
-- run left, and the look-up of messages and the iterators in `Mlog.Iterate`, with `Mlog.Newest` about
-- what they find. The two logs have their memory each. More fuel than messages is enough.
--
-- `Logger` models src/svc/svc_logger.c: the filters in `Logger`, with `Logger.Filters` about the one
-- that the channels make; the making of a message in `Logger.Create`; the functions that log one, its
-- count and the callback in `Logger.Post`, with `Logger.Dispatch` about the way of a message to a
-- channel, and `Logger.Steps` about the counter and the blocks of the heap. It calls
-- `Mlog` for its set-up (`Logger.Start`) and notes what it hands to it.
--
-- `Mlock` models src/os_mlock.c, a recursive mutex that raises the priority of its owner, as the steps
-- of any threads; `Mlock.Exclusion` is about who is in it.
--
-- `Threads` models src/svc/svc_threads.c, the registry of threads: `Threads.Registry` is about their
-- creation and end, `Threads.Reap` about the loop that joins the ended ones and tells of them.
--
-- `Events` models src/svc/svc_events.c, the dispatch of events to listeners: their registration and
-- the passes of `svc_events_thread` in `Events`, the order of the calls in `Events.Order`, over the
-- bits of a word in `Events.Bits`. A pass is a loop on fuel; one round for each bit of the word and
-- one more is enough.
--
-- `Strsub` models src/common/strsub.c, the replacement of words between tokens: the parser
-- (`strsub_parse`) as a state machine over callbacks in `Strsub`, and the callback that fills a buffer
-- (`strsub_cb`) with what uses it in `Strsub.Buffer`. `Strsub.Keeps` says what a parse leaves of the
-- state of its callbacks, `Strsub.Bounds` where it writes, `Strsub.Plain` what becomes of text without
-- tokens. A signed offset of 2 ^ 31 or more, which the language leaves undefined, wraps at 2 ^ 32.
--
-- `Shell` models src/svc/svc_shell.c, the command shell: `Shell.Split` the split of a line into words
-- (`svc_shell_cmd_split`), `Shell.Script` the scripts (`svc_shell_script_run`), `Shell.Commands` the
-- lists of commands and the run of one (`svc_shell_cmd_run`), `Shell.Scan` the numbers and
-- `Shell.Output` the output in pieces. `Shell.Words`, `Shell.Lines`, `Shell.Errors`, `Shell.Install` and
-- `Shell.Pieces` are about them, in this order. The loop over the lines of a script is on fuel; one
-- round for each line is enough.
--
-- `Services` models src/svc/svc_services.c, the services of an application and their life cycle: the
-- start and the stop in `Services` (`svc_service_start`, `svc_service_stop`, `_service_thread`), the
-- operations on all services in `Services.Control`, what is told by handle in `Services.Listing`.
-- `Services.Start` and `Services.Stop` say what a caller may expect, `Services.LifeCycle` what comes
-- of it when the service's thread enters or ends, `Services.Halt` is about the halt. The loops over
-- the list of services are structural, on the number of services left, which `svc_service_services_init`
-- alone sets; its own loop and that of the broadcast are on fuel.
--
-- The OS port is a parameter: `Tasks.Env` gives each reading of the tick counter, and what a callback
-- does to the pool, which covers what other threads do while it runs without the mutex. The OS
-- port's mutex is not modelled; an operation is what runs while it is held, and the calls around that.
--
-- Not modelled: the watchdog of the pool's threads; the OS ports (src/os.c, src/os_posix.c and
-- src/os_zephyr.c), the file systems (src/qfs*.c), the formatted output of the shell, its help and
-- the commands in src/qshell, which are input and output; the waits for the logger's queue; and the
-- dumps of memory, which the library has not reached yet.
pub mod Base
pub mod Cbuffer
pub mod Dictionary
pub mod Events
pub mod Lists
pub mod Logger
pub mod Mlock
pub mod Mlog
pub mod Rtc
pub mod Services
pub mod Shell
pub mod Strsub
pub mod Tasks
pub mod Threads
pub mod Wdt
