-- ===== src/Lib.antt =====
-- pyxxl: an executor of XXL-JOB tasks. An admin sends triggers; the executor runs at most one
-- trigger of a job at a time, by the block strategy queues, refuses or replaces the others, and
-- reports how each accepted trigger ended by a callback.
--
-- The files and the code they are about:
--   Base.antt, Base/: tests, lists, Python's dictionaries behind laws on `get`.
--   Model.antt, Model/Payload.antt: pyxxl/model/enums.py, pyxxl/model/run_data.py.
--   Config/: pyxxl/config/executor.py. Texts.antt has the operations of Python's `str` on lists of code
--     points, Url.antt `urlparse` and `geturl` as Python has them up to 3.12, without the checks of
--     hosts; Address.antt the addresses of admins, with `_normalize_admin_urls` of
--     pyxxl/protocol/admin_client.py; Settings.antt `ExecutorConfig` and its `__post_init__`. Plain,
--     Paths, Written, Normal, Kept and Complete are proofs.
--   Setup.antt: `setup_logging` of pyxxl/utils.py with its calls by the configuration and by
--     pyxxl/app/runner.py, over the loggers of the process; Setup/Once.antt and
--     Setup/Kept.antt hold which calls count.
--   Context.antt: pyxxl/context/runtime.py.
--   Runtime/Executor/State.antt, Tasks.antt, Jobs.antt: pyxxl/runtime/executor.py and
--     pyxxl/runtime/models.py. `Executor` is what the object keeps: `tasks`, `queue`,
--     `_job_log_ids`, `_cover_replacements` under the code's names; `objects` holds the `XXLTask`
--     objects by their number, so that `current_task is finish_task` is an equality of numbers.
--     Each method is the function of its name.
--   Runtime/Executor/Events.antt: the executor under an event loop, as a run over events.
--   Runtime/Executor/Spec.antt: what the executor promises for one job, without objects,
--     dictionaries and sets of log ids.
--   The other files of Runtime/Executor/ are proofs, named for what they prove; Promises.antt
--     holds the statements for callers, Progress.antt when a busy job can go on and Draining.antt that
--     it does, Reports.antt and Tally.antt which hooks are called, Examples.antt runs. Hooks.antt is
--     about the hooks of pyxxl/monitoring/prometheus.py, which read the context of
--     pyxxl/context/runtime.py.
--   Runtime/Metrics.antt: `metrics` of pyxxl/monitoring/prometheus.py, by the calls that it makes of the
--     Prometheus client for a state of the executor.
--   Runtime/Callbacks/State.antt, Worker.antt: pyxxl/runtime/callbacks.py. `Manager` is what
--     `CallbackManager` keeps: `queue` is `_queue`, `in_flight` the request that the worker has
--     taken, `retry_tasks` the requests of `_retry_tasks`, `store` the files by path.
--   The other files of Runtime/Callbacks/ are proofs, with Promises.antt and Examples.antt as above.
--   Runtime/System.antt: the executor and its manager as one state. What an event adds to `pushed` of
--     `Executor` is given to `enqueue` of the manager. Runtime/System/Delivery.antt follows an accepted
--     trigger to the admin, Closing.antt says what becomes of reports after the manager was closed.
--   Runtime/Handlers/Registry.antt: `HandlerInfo.__post_init__` and `JobHandler.register` of
--     pyxxl/runtime/handlers.py, `normalize_handler_mode` of pyxxl/runtime/process.py;
--     Runtime/Handlers/Runnable.antt holds what the registry keeps. Runtime/Handlers/Ladder.antt is
--     `_stop_process` of handlers.py, by what the process answers at each look. Process.antt is
--     `HandlerInfo.start` with the child process of `_start_process` and `process_handler_entry` of
--     process.py; Running.antt holds how such a handler ends.
--   Protocol/Admin.antt: pyxxl/protocol/admin_client.py, `_post_once` and `_post`;
--     Protocol/Failover.antt holds what `_post` returns.
--   Protocol/Server.antt: pyxxl/protocol/server.py, the endpoints over the executor and the log;
--     Protocol/Serving.antt holds what they answer, Protocol/Examples.antt runs.
--   Logs/Store.antt: `DiskLog.get_logs` of pyxxl/logger/disk.py, `RedisHandler.emit` and
--     `RedisLog.get_logs` of pyxxl/logger/redis.py; Logs/Paging.antt and Logs/Following.antt hold what
--     the pages show, Logs/Examples.antt runs. Logs/Expiry.antt is the removal of old files by
--     `expired_once` and `expired_loop`, Logs/Failing.antt a read while Redis may raise an error.
--     Logs/Loggers.antt is the task loggers: `new_logger` of pyxxl/logger/__init__.py, `get_logger`,
--     `after_running` and the handlers of pyxxl/logger/common.py, disk.py and redis.py. Handled,
--     Isolation, Written and Lifetime are proofs, LifetimeExamples runs. Runtime/TaskLog.antt is what
--     `_run` of executor.py writes to the log of its task, Runtime/ChildLog.antt what it and
--     `process_handler_entry` of pyxxl/runtime/process.py write when a child process runs the handler:
--     the child has loggers of its own, and shares the files.
--   App/: pyxxl/app/runner.py. Backends.antt chooses where logs are kept, for the executor and for its
--     child processes (pyxxl/runtime/process.py); Runner.antt is the start of the application, the
--     client that it makes and its `_register_task`, Cleanup.antt its cleanup with `shutdown`,
--     `graceful_close` and `stop_callback_manager` of executor.py; Shutdown.antt and Outcome.antt hold
--     what these leave behind.
--
-- How the code is read. A function is a stretch of code that the event loop runs without a switch.
-- The locks of a job are never waited for, since no critical section suspends: the callback queue
-- has no bound, and `put` is called on a queue that is not full. How `handler.start` ends (a result,
-- a cancellation, a timeout, an exception) is an `Outcome` that an event brings; the handler
-- registry is a test on names; the clock is an argument, that of an end is what `_run` read before
-- it called the handler; `new_logger` is taken not to raise in `_run`. A message that the code
-- formats is a constructor of `Message` with the format's arguments. `drops` is the done callback of
-- a task that was cancelled before its first step, with the cleanup it schedules. The jobs of a
-- shutdown are cancelled in the order of a list, each with the events that fall before it. In the
-- callback manager the admin's answer to a request, the waking of a retry and the end of a wait of
-- `stop` are events; `stop` after its wait is taken as one stretch, so reports that arrive while it
-- awaits the cancelled tasks are not interleaved with it; a path of the store is a number, of which
-- `uuid4` gives a new one; `writable` says on which paths writes and deletions succeed; a file that
-- loads is the request whose JSON text it holds. A log is the list of its lines; a handler on the
-- logger of a log id writes to the file or the key of this id, for which get_logger made it. The
-- text of a `Message` is what the code's format makes of its arguments. Each wait of the cleanup,
-- those inside `shutdown` included, has the events that fall into it as an argument; whether a task
-- that `shutdown` awaits raises is another. A configuration is given with the settings from the
-- environment already in their places; in Setup.antt it is given as it is before and behind that.
-- The hook for failures is taken not to raise, except in Runtime/Executor/Hooks.antt. The time of a
-- child process is counted in looks of its parent.
--
-- Loops are recursions on a list, or on the number of rounds that the code gives them. Two take fuel:
-- the parent's waiting for a child process takes the number of its rounds, which is enough when the
-- child dies within it; the digits of a number `n` take `n + 1` steps, of which each divides by ten.
--
-- Not modelled, since they are I/O, threads or calls of libraries: the environment and `.env` files;
-- the thread pool; the formatting of log records (a parameter, as are the lines that `readline` finds
-- in what one record adds) and the records of the executor's own log; the sessions of the admin
-- client and the payloads of its requests; the web framework; the daemon; the counters and the text
-- of the page of metrics; which context a coroutine or a thread gets.
mod Base
pub mod Model
pub mod Config
pub mod Setup
pub mod Context
pub mod Runtime
pub mod App
pub mod Protocol
pub mod Logs
