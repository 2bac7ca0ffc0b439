-- ===== src/Worker.antt =====
-- `PoolWorker` of dispatcherd/service/pool.py: one worker subprocess as the main process sees it.
pub mod Stop
mod Tests
use dispatcher_fork.Base.{
  ℕ, zero, suc, ◌+◌, ◌-◌, ◌≡◌, refl, Bool, true, false, not, ◌&&◌, ◌||◌, Option, none, some, List,
  [], ◌∷◌, ◌++◌, arith, ◌==◌, if◌then◌else◌, is_some, String,
}
use dispatcher_fork.Json.{Value, null, bool, num, str, Fields, field, end, get, get_or, truthy}
use dispatcher_fork.Message.{Message, holds_items}

pub data Status : Type 0 where
  initialized spawned starting ready stopping exited error retired : Status

-- What the pool puts on a worker's message queue, and the signals that it sends.
pub data Packet : Type 0 where
  work : Message → Packet
  stop_request : Packet

pub data Signal : Type 0 where
  usr1 kill : Signal

-- `ProcessProxy` of dispatcherd/service/process.py as the main process uses it. `pid` is none
-- until the process is started; `message_queue` and `signals` record what was sent, oldest first.
pub record Process : Type 0 where
  pub pid : Option ℕ
  pub message_queue : List Packet
  pub signals : List Signal

pub record Worker : Type 0 where
  pub worker_id : ℕ
  pub process : Process
  pub current_task : Option Message
  pub created_at : ℕ
  pub started_at : Option ℕ
  pub stopping_at : Option ℕ
  pub retired_at : Option ℕ
  pub is_active_cancel : Bool
  pub finished_count : ℕ
  pub status : Status
  pub exit_msg_event : Bool

-- `ProcessManager.create_process`: no subprocess yet.
abbrev pub create_process : Process
create_process = record { pid = none; message_queue = []; signals = [] }

-- `PoolWorker.__init__`
unfoldable pub new_worker : ℕ → Process → ℕ → Worker
new_worker worker_id process now = record {
  worker_id = worker_id;
  process = process;
  current_task = none;
  created_at = now;
  started_at = none;
  stopping_at = none;
  retired_at = none;
  is_active_cancel = false;
  finished_count = 0;
  status = initialized;
  exit_msg_event = false;
}

-- `bool(self.current_task)`
abbrev pub has_task : Option Message → Bool
has_task none = false
has_task (some m) = holds_items m

unfoldable pub is_busy : Worker → Bool
is_busy w = has_task w.current_task

abbrev is_ready_status : Status → Bool
is_ready_status ready = true
is_ready_status _ = false

pub is_ready : Worker → Bool
is_ready w = is_ready_status w.status

-- `counts_for_capacity`
abbrev capacity_status : Status → Bool
capacity_status initialized = true
capacity_status spawned = true
capacity_status starting = true
capacity_status ready = true
capacity_status _ = false

unfoldable pub counts_for_capacity : Worker → Bool
counts_for_capacity w = capacity_status w.status

-- `inactive`
abbrev inactive_status : Status → Bool
inactive_status exited = true
inactive_status error = true
inactive_status initialized = true
inactive_status _ = false

pub inactive : Worker → Bool
inactive w = inactive_status w.status

abbrev is_initialized : Status → Bool
is_initialized initialized = true
is_initialized _ = false

-- `start`. The argument is the pid of the subprocess, or none where `process.start` raised.
unfoldable pub start : Option ℕ → Worker → Worker
start launched w =
    if is_initialized w.status
    then elim launched [
      | none ↦ record w { status = error }
      | some pid ↦ record w { status = starting; process = record (w.process) { pid = some pid } }
    ]
    else w

-- `self.process.message_queue.put(packet)`
send : Packet → Worker → Worker
send packet w = record w {
  process = record (w.process) { message_queue = w.process.message_queue ++ packet ∷ [] };
}

-- `os.kill(self.process.pid, …)` and `self.process.kill()`
pub send_signal : Signal → Worker → Worker
send_signal signal w = record w {
  process = record (w.process) { signals = w.process.signals ++ signal ∷ [] };
}

unfoldable pub start_task : Message → ℕ → Worker → Worker
unfolding send
start_task m now w = record (send (work m) w) { current_task = some m; started_at = some now }

unfoldable pub cancel : Worker → Worker
unfolding send_signal
cancel w =
    if is_some w.process.pid
    then send_signal usr1 (record w { is_active_cancel = true })
    else record w { is_active_cancel = true }

pub cancel-fields :
    (w : Worker) → ((cancel w).worker_id ≡ w.worker_id) × ((cancel w).current_task ≡ w.current_task)
unfolding cancel send_signal
cancel-fields w = (ground arith, ground arith)

unfoldable pub signal_stop : ℕ → Worker → Worker
unfolding send cancel is_busy
signal_stop now w =
    let sent = send stop_request w in
    let canceled = if is_busy sent then cancel sent else sent in
    record canceled { status = stopping; stopping_at = some now }

unfoldable pub mark_finished_task : Worker → Worker
mark_finished_task w = record w {
  current_task = none;
  started_at = none;
  is_active_cancel = false;
  finished_count = w.finished_count + 1;
}

-- A clock value in a message: a timeout or a delay.
unfoldable pub seconds : Value → ℕ
seconds (num n) = n
seconds (bool b) = if b then 1 else 0
seconds _ = 0

-- `self.started_at`, which is false at the clock reading zero too.
abbrev pub set_time : Option ℕ → Bool
set_time none = false
set_time (some t) = not (t == 0)

-- `next_wakeup` past the test for an active cancel.
timeout_at : Option Message → Option ℕ → Option ℕ
timeout_at none t = none
timeout_at (some m) none = none
timeout_at (some m) (some t) =
    if holds_items m && truthy (get "timeout" m.body) && set_time (some t)
    then some (t + seconds (get "timeout" m.body))
    else none

unfoldable pub next_wakeup : Worker → Option ℕ
unfolding timeout_at
next_wakeup w = if w.is_active_cancel then none else timeout_at w.current_task w.started_at

status_text : Status → String
status_text initialized = "initialized"
status_text spawned = "spawned"
status_text starting = "starting"
status_text ready = "ready"
status_text stopping = "stopping"
status_text exited = "exited"
status_text error = "error"
status_text retired = "retired"

-- An item of the current task, or None where there is no such task.
task_item : String → Value → Option Message → Value
task_item key default none = null
task_item key default (some m) = if holds_items m then get_or key default m.body else null

abbrev pid_value : Option ℕ → Value
pid_value none = null
pid_value (some pid) = num pid

-- `get_data`
pub get_data : ℕ → Worker → Fields
unfolding status_text task_item
get_data now w =
    let age = field "age" (num (now - w.created_at)) end in
    let active = field "active_cancel" (bool w.is_active_cancel) age in
    let uuid =
      field "current_task_uuid" (task_item "uuid" (str "<unknown>") w.current_task) active in
    let task = field "current_task" (task_item "task" null w.current_task) uuid in
    let finished = field "finished_count" (num w.finished_count) task in
    let status = field "status" (str (status_text w.status)) finished in
    field "worker_id" (num w.worker_id) (field "pid" (pid_value w.process.pid) status)
