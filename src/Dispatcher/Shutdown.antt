-- ===== src/Dispatcher/Shutdown.antt =====
-- `DispatcherMain.shutdown` of dispatcherd/service/main.py, after the producers are shut down.
use dispatcher_fork.Base.{ℕ, true, [], map}
use dispatcher_fork.Pool.Shutdown
use dispatcher_fork.Pool.Shutdown.{Endings, shutdown_runner}
use dispatcher_fork.Dispatcher.{Dispatcher, wakeup_of}

-- The runner keeps the old set of capsules, which is abandoned here; its background task ends at
-- the next wakeup, since it is told to shut down.
pub shutdown : ℕ → Endings → Dispatcher → Dispatcher
shutdown now e d = record d {
  shutting_down = true;
  delayed_runner = shutdown_runner (map wakeup_of d.delayed_messages) d.delayed_runner;
  delayed_messages = [];
  pool = Shutdown.shutdown now e d.pool;
  exit_event = true;
}
