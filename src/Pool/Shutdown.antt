-- ===== src/Pool/Shutdown.antt =====
-- `stop_workers`, `force_shutdown`, `shutdown` and `cancel_worker` of dispatcherd/service/pool.py.
pub mod Stopped
use dispatcher_fork.Base.{
  ℕ, Bool, true, false, not, ◌&&◌, ◌||◌, Option, none, some, List, map, is_some, if◌then◌else◌,
  ◌==◌,
}
use dispatcher_fork.Worker.{
  Worker, Signal, kill, is_busy, set_time, cancel, send_signal, counts_for_capacity, signal_stop,
  next_wakeup,
}
use dispatcher_fork.Worker.Stop.{Ending, stop}
use dispatcher_fork.Wakeup.{Runner, kick, Callbacks}
use dispatcher_fork.Workers.{get_by_id, modify}
use dispatcher_fork.Blocker
use dispatcher_fork.Pool.{Pool, set_management_event}

-- `cancel_worker`, the callback of the timeout runner.
unfoldable pub cancel_worker : Worker → Worker
cancel_worker w = if not (is_busy w) || not (set_time w.started_at) then w else cancel w

-- What the processes of the workers do while they are stopped: each one's ending, whether it is
-- alive at the last check, and its ending where it has to be stopped a second time.
pub record Endings : Type 0 where
  pub first : ℕ → Ending
  pub found_alive : ℕ → Bool
  pub second : ℕ → Ending

-- What `stop_workers` does with a worker. `asyncio.gather` runs the `stop` of each worker by
-- itself, and no two of them touch one worker.
abbrev pub stop_counted : ℕ → Endings → Worker → Worker
stop_counted now e w =
    if counts_for_capacity w then stop now (e.first w.worker_id) (signal_stop now w) else w

abbrev pub stop_alive : ℕ → Endings → Worker → Worker
stop_alive now e w = if e.found_alive w.worker_id then stop now (e.second w.worker_id) w else w

pub stop_workers : ℕ → Endings → List Worker → List Worker
stop_workers now e ws = map (stop_alive now e) (map (stop_counted now e) ws)

-- `if worker.process.pid and worker.process.is_alive(): worker.process.kill()`
abbrev has_pid : Option ℕ → Bool
has_pid none = false
has_pid (some pid) = not (pid == 0)

pub force_kill : (ℕ → Bool) → List Worker → List Worker
force_kill is_alive ws =
    map
      (λ (w : Worker).
        if has_pid w.process.pid && is_alive w.worker_id then send_signal kill w else w)
      ws

-- `NextWakeupRunner.shutdown` of the timeout runner.
pub shutdown_runner : List (Option ℕ) → Runner → Runner
shutdown_runner ts r = kick ts (record r { shutting_down = true })

-- `shutdown` up to the wait for the results task. The management task is over by then, since it
-- was told to end and waited for.
pub shutdown : ℕ → Endings → Pool → Pool
unfolding stop_workers shutdown_runner
shutdown now e p =
    let told = set_management_event (record p { shutting_down = true }) in
    record told {
      timeout_runner = shutdown_runner (map next_wakeup p.workers) p.timeout_runner;
      blocker = Blocker.shutdown p.blocker;
      workers = stop_workers now e p.workers;
    }

-- The objects of the timeout runner are the workers, and `cancel_worker` is its callback.
abbrev pub timeout_callbacks : Callbacks Pool ℕ
timeout_callbacks = record {
  next_wakeup = λ i p. elim (get_by_id i p.workers) [ none ↦ none | some w ↦ next_wakeup w ];
  process_object = λ i p. (false, record p { workers = modify i cancel_worker p.workers });
}
