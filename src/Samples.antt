-- ===== src/Samples.antt =====
-- Messages, workers and a pool for the tests.
use dispatcher_fork.Base.{ℕ, String, false, true, none, some, [], ◌∷◌}
use dispatcher_fork.Json.{str, field, end}
use dispatcher_fork.Message.{Message}
use dispatcher_fork.Worker.{Worker, Status, ready}
use dispatcher_fork.Wakeup.{new_runner}
use dispatcher_fork.Dispatcher.{Dispatcher, new_capsule}
use dispatcher_fork.Pool.{Pool}

-- A submission of a task with a value for `on_duplicate`.
abbrev pub submission : ℕ → String → String → Message
submission ident task on_duplicate = record {
  ident = ident;
  body = field "task" (str task) (field "on_duplicate" (str on_duplicate) end);
}

abbrev pub worker_with : ℕ → Status → Message → Worker
worker_with i status m = record {
  worker_id = i;
  process = record { pid = some 100; message_queue = []; signals = [] };
  current_task = some m;
  created_at = 1;
  started_at = some 2;
  stopping_at = none;
  retired_at = none;
  is_active_cancel = false;
  finished_count = 0;
  status = status;
  exit_msg_event = false;
}

abbrev pub free_worker : ℕ → Worker
free_worker i = record (worker_with i ready (submission 0 "" "")) {
  current_task = none;
  started_at = none;
}

abbrev pub sleep : ℕ → Message
sleep ident = submission ident "sleep" "serial"

abbrev pub ping : ℕ → Message
ping ident = submission ident "ping" "discard"

-- Worker 0 runs a serial task, worker 1 is free, one task waits for a worker and two are held.
abbrev pub busy_pool : Pool
busy_pool = record {
  min_workers = 1;
  max_workers = 4;
  scaledown_wait = 15;
  worker_stop_wait = 30;
  worker_removal_wait = 30;
  events = record {
    queue_cleared = false;
    work_cleared = false;
    management_event = false;
    workers_ready = true;
  };
  workers = worker_with 0 ready (sleep 1) ∷ free_worker 1 ∷ [];
  next_worker_id = 2;
  shutting_down = false;
  finished_count = 3;
  canceled_count = 0;
  timeout_runner = new_runner;
  last_used_by_ct = [];
  queuer = record { queued_messages = ping 2 ∷ [] };
  blocker = record {
    blocked_messages = sleep 3 ∷ sleep 4 ∷ [];
    discard_count = 0;
    shutting_down = false;
  };
}

-- A dispatcher with a task that is delayed and two that wait for a worker.
abbrev pub busy_dispatcher : Dispatcher
busy_dispatcher = record {
  delayed_messages = new_capsule 0 3 10 (ping 7) ∷ [];
  received_count = 8;
  control_count = 0;
  shutting_down = false;
  pool = record busy_pool { queuer = record { queued_messages = ping 2 ∷ sleep 5 ∷ [] } };
  node_id = "node";
  delayed_runner = new_runner;
  exit_event = false;
}
