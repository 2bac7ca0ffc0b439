-- ===== src/Lib.antt =====
-- A model of dispatcherd, a service that takes task messages from brokers and runs them on a pool
-- of worker subprocesses, and theorems about it.
--
-- The parts of the program, the files that model them, and how they interact:
--
--   * Json.antt, Json/Equality.antt: the values of Python's json.loads with Python's == and truth
--     test on them. Task messages are dicts of these.
--   * Message.antt: a message (dispatcherd/registry.py, get_async_body) as the service passes it
--     on: a dict object with an identity, which `is` and `list.remove` look at, and its items.
--   * Wakeup.antt: NextWakeupRunner of dispatcherd/service/next_wakeup_runner.py. The pool kicks
--     the runner of the task timeouts. Wakeup/Waits holds its background task, with the changes of
--     the objects and the time as steps; Pool/Timeouts makes the workers its objects.
--   * Worker.antt, Worker/Stop.antt: PoolWorker of dispatcherd/service/pool.py with its
--     ProcessProxy (dispatcherd/service/process.py), and `stop`. A worker records what was put on
--     its message queue and the signals sent to it.
--   * Workers.antt, Workers/Tasks.antt: WorkerData of pool.py, an ordered dict as a list of
--     workers in the order of their insertion, and the tasks that its workers run.
--   * Queuer.antt: dispatcherd/service/queuer.py: the tasks that wait for a free worker.
--   * Blocker.antt, Blocker/: dispatcherd/service/blocker.py: the tasks that are held back or
--     dropped as duplicates. Outcome describes process_task, Release describes
--     pop_unblocked_messages.
--   * Pool.antt: WorkerPool of pool.py: its state, dispatch_task, drain_queue, process_finished.
--     Its children hold read_results_forever (Results), scale_workers (Scaling),
--     manage_new_workers and manage_old_workers (Management), the invariant (Invariant,
--     Exclusive), what happens to tasks (Tasks, Conserve, Drain, Finish), histories of the whole
--     pool (History), and the fate of two duplicates that are held together (Starvation). Shutdown
--     holds stop_workers, shutdown and cancel_worker.
--   * Dispatcher.antt, Dispatcher/: DispatcherMain of dispatcherd/service/main.py, which owns the
--     pool: process_message (Routing), run_control_action (Actions), shutdown (Shutdown), the
--     main loop over the producers (Main, with Main/Recycling).
--   * Control.antt, Control/: dispatcherd/service/control_tasks.py, on the dispatcher's state.
--   * Producers.antt, Producers/: dispatcherd/producers/scheduled.py and on_start.py, which submit
--     tasks to the dispatcher.
--   * AsyncTasks.antt: dispatcherd/service/asyncio_tasks.py, with which the main loop watches the
--     tasks of its producers.
--   * Registry.antt, Registry/: dispatcherd/registry.py, the task methods and the body of a
--     submission.
--   * Publish.antt, Publish/: dispatcherd/publish.py, and the registration and publishing of a task
--     in dispatcherd/registry.py.
--   * Brokered.antt, Brokered/: BrokeredProducer of dispatcherd/producers/brokered.py, over what
--     dispatcherd/protocols.py asks of a broker, which both brokers fill.
--   * PgNotify.antt, PgNotify/: dispatcherd/brokers/pg_notify.py. Soundness is about the
--     constructor; Notify holds the messages, the self check and the loop of aprocess_notify, with
--     the producer in Serving, the broker that it refines in Immediate, and any series of calls in
--     Calls.
--   * Socket.antt, Socket/: dispatcherd/brokers/socket.py. extract_json (Extract), the server with
--     its clients (Server), and the synchronous client (Receive).
--   * ControlClient.antt, ControlClient/: dispatcherd/control.py, which sends control messages
--     through a broker and reads the replies.
--   * Config.antt, Config/ and Factories.antt, Factories/: dispatcherd/config.py, and the names and
--     keyword arguments that dispatcherd/factories.py and get_broker of
--     dispatcherd/brokers/__init__.py build the objects with.
--   * Utils.antt, Utils/: the dotted names of dispatcherd/utils.py.
--   * TaskWorker.antt, TaskWorker/: dispatcherd/worker/task.py, the loop of a worker subprocess.
--     The pool meets it through the messages that it reads and the reports that it puts.
--
-- Conventions. A method that changes its object is a function from the old state to the new one;
-- the clock reading that it takes is an argument `now`. Clock readings, timeouts and delays are
-- counted in ticks, as natural numbers, in a unit in which each of them is a whole number; a
-- timeout that is no number counts as zero. A coroutine that awaits only the management lock and
-- puts on queues is one step: no body under that lock suspends, so the lock is always free when it
-- is asked for, and the single event loop lets no other coroutine change the lists in between.
-- Loops that await something else (the management task, the results loop) are modelled one round
-- at a time, and a history is any sequence of such rounds. What a subprocess does is an argument:
-- the pid that it gets or the failure to start, whether it is alive, whether its exit message
-- arrives. Loops are structural recursions on the lists that the code iterates over; the three
-- looks of `stop` are the number three. Three loops run on fuel: that of control_tasks.py over a
-- list that it removes from, whose fuel is the length of the list, which never grows;
-- perform_work, whose callbacks nest in the message, with its nesting depth as fuel; and
-- extract_json, which goes on by a character at least, with the length of the text as fuel.
--
-- The pg_notify broker is met at its awaits: each call takes what the server does there as an
-- argument, and a series of events or calls is a list. The socket server is a relation of steps, one
-- for each stretch of a task between two awaits, and a run is any series of them.
-- So is the background task of a runner, whose sleep of 0.1 s is a number of ticks that is given.
--
-- Code from elsewhere is an argument: json.loads, json.dumps and raw_decode, str.lower, psycopg with
-- its server, the text of a uuid, the answer of aio_tasks, eval, the import of a module, what a
-- callable queue returns, and the callable of a task with the state of the process that it runs in.
--
-- Not modelled: the logging; the asyncio machinery under the coroutines; the subprocess and its
-- signal handlers; files and sockets; the command line; the schema of the settings; the numbers of
-- JSON that are negative or fractional.
pub mod Base
pub mod AsyncTasks
pub mod Blocker
pub mod Brokered
pub mod Config
pub mod Control
pub mod ControlClient
pub mod Dispatcher
pub mod Factories
pub mod Json
pub mod Message
pub mod PgNotify
pub mod Pool
pub mod Producers
pub mod Publish
pub mod Queuer
pub mod Registry
pub mod Samples
pub mod Socket
pub mod TaskWorker
pub mod Utils
pub mod Wakeup
pub mod Worker
pub mod Workers
