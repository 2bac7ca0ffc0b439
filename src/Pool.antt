-- ===== src/Pool.antt =====
-- `WorkerPool` of dispatcherd/service/pool.py: its state, and the operations that move tasks:
-- dispatch, drain and finish. No coroutine waits for anything else while it holds the management
-- lock, so each of these runs in one go, and is a function on the state.
pub mod Tasks
pub mod Dispatch
pub mod Started
pub mod Conserve
pub mod Exclusive
pub mod Invariant
pub mod Unblock
pub mod Drain
pub mod Finish
pub mod Results
pub mod Scaling
pub mod Management
pub mod History
pub mod Starvation
pub mod Shutdown
pub mod Timeouts
mod Tests
use dispatcher_fork.Base.{
  ℕ, zero, suc, ◌+◌, ◌-◌, ◌≡◌, refl, Bool, true, false, not, ◌&&◌, ◌||◌, Option, none, some, List,
  [], ◌∷◌, ◌++◌, map, arith, ltb, ◌==◌, if◌then◌else◌, length, all, count as count_if, is_some,
}
use dispatcher_fork.Json.{Value, str, Fields, contains, get, equal, truthy}
use dispatcher_fork.Message.{Message, holds_items, remove}
use dispatcher_fork.Worker.{Worker, is_busy, start_task, mark_finished_task, next_wakeup}
use dispatcher_fork.Wakeup.{Runner, kick}
use dispatcher_fork.Workers.{modify, get_by_id}
use dispatcher_fork.Queuer
use dispatcher_fork.Queuer.{Queuer, get_free_worker, get_worker_or_process_task}
use dispatcher_fork.Blocker
use dispatcher_fork.Blocker.{Blocker, process_task, pop_unblocked_messages}

-- `PoolEvents`: which of the asyncio events are set.
pub record PoolEvents : Type 0 where
  pub queue_cleared : Bool
  pub work_cleared : Bool
  pub management_event : Bool
  pub workers_ready : Bool

pub record Pool : Type 0 where
  pub min_workers : ℕ
  pub max_workers : ℕ
  pub scaledown_wait : ℕ
  pub worker_stop_wait : ℕ
  pub worker_removal_wait : ℕ
  pub events : PoolEvents
  pub workers : List Worker
  pub next_worker_id : ℕ
  pub shutting_down : Bool
  pub finished_count : ℕ
  pub canceled_count : ℕ
  pub timeout_runner : Runner
  pub last_used_by_ct : List (ℕ × Option ℕ)
  pub queuer : Queuer
  pub blocker : Blocker

-- `self.last_used_by_ct[ct] = time`
pub put_last_used : ℕ → Option ℕ → List (ℕ × Option ℕ) → List (ℕ × Option ℕ)
put_last_used ct t [] = (ct, t) ∷ []
put_last_used ct t ((k, u) ∷ d) = if k == ct then (k, t) ∷ d else (k, u) ∷ put_last_used ct t d

pub get_running_count : Pool → ℕ
get_running_count p = count_if is_busy p.workers

pub processed_count : Pool → ℕ
processed_count p = p.finished_count + p.canceled_count + p.blocker.discard_count

pub received_count : Pool → ℕ
unfolding processed_count
received_count p =
    processed_count p + Queuer.count p.queuer + Blocker.count p.blocker + count_if is_busy p.workers

pub active_task_ct : Pool → ℕ
unfolding get_running_count
active_task_ct p = get_running_count p + Queuer.count p.queuer

abbrev pub set_management_event : Pool → Pool
set_management_event p = record p { events = record (p.events) { management_event = true } }

abbrev set_queue_cleared : Pool → Pool
set_queue_cleared p = record p { events = record (p.events) { queue_cleared = true } }

-- `if 'timeout' in message: await self.timeout_runner.kick()`
pub kick_timeout : Fields → Pool → Pool
kick_timeout message p =
    if contains "timeout" message
    then record p { timeout_runner = kick (map next_wakeup p.workers) p.timeout_runner }
    else p

pub post_task_start : Message → Pool → Pool
unfolding kick_timeout get_running_count
post_task_start m p =
    let p' = kick_timeout m.body p in
    record p' { last_used_by_ct = put_last_used (get_running_count p') none p'.last_used_by_ct }

-- The end of `dispatch_task`: the task is started on the worker, or the manager is told that the
-- task waits for capacity.
hand_out : ℕ → Message → Option Worker → Pool → Pool
unfolding post_task_start
hand_out now m none p = set_management_event p
hand_out now m (some w) p =
    post_task_start m (record p { workers = modify w.worker_id (start_task m now) p.workers })

assign : ℕ → Message → Pool → Pool
unfolding hand_out
assign now m p =
    let (worker, q) = get_worker_or_process_task p.workers m p.queuer in
    hand_out now m worker (record p { queuer = q })

-- `dispatch_task` after the blocker. `if unblocked_task` is false for an empty dict too.
pub place : ℕ → Option Message → Pool → Pool
unfolding assign
place now none p = p
place now (some m) p = if holds_items m then assign now m p else p

pub dispatch_task : ℕ → Message → Pool → Pool
unfolding place
dispatch_task now m p =
    let (unblocked, b) = process_task p.workers m p.blocker in
    place now unblocked (record p { blocker = b })

-- The first step of `drain_queue`: unblocked messages join those that wait for capacity.
pub unblock : Pool → Pool
unblock p =
    let (released, b) = pop_unblocked_messages p.workers p.blocker in
    record p {
      queuer = record { queued_messages = p.queuer.queued_messages ++ released };
      blocker = b;
    }

-- `self.queuer.queued_messages.remove(message)`
abbrev pub unqueue : Message → Pool → Pool
unqueue m p = record p { queuer = record { queued_messages = remove m p.queuer.queued_messages } }

-- The loop of `drain_queue` over a copy of the queued messages, with its early return.
drain_loop : ℕ → List Message → Bool → Pool → Pool
drain_loop now [] processed p = if processed then set_queue_cleared p else p
drain_loop now (m ∷ ms) processed p =
    let rest = drain_loop now ms true (dispatch_task now m (unqueue m p)) in
    if not (is_some (get_free_worker p.workers)) || p.shutting_down then p else rest

pub drain_queue : ℕ → Pool → Pool
unfolding drain_loop unblock
drain_queue now p = let p' = unblock p in drain_loop now p'.queuer.queued_messages false p'

-- `result == '<cancel>'`, where `result` stays None unless the message has a true result.
abbrev pub is_cancel_result : Fields → Bool
is_cancel_result message =
    truthy (get "result" message) && equal (get "result" message) (str "<cancel>")

-- The worker is no longer busy, and the task is counted as canceled or as finished.
pub tally : Worker → Fields → Pool → Pool
tally w message p =
    let freed = record p { workers = modify w.worker_id mark_finished_task p.workers } in
    if w.is_active_cancel && is_cancel_result message
    then record freed { canceled_count = p.canceled_count + 1 }
    else record freed { finished_count = p.finished_count + 1 }

abbrev pub has_no_task : Worker → Bool
has_no_task w = not (is_some w.current_task)

abbrev is_nil : List Message → Bool
is_nil [] = true
is_nil (_ ∷ _) = false

pub note_cleared : Pool → Pool
note_cleared p =
    if is_nil p.queuer.queued_messages && all has_no_task p.workers
    then record p { events = record (p.events) { work_cleared = true } }
    else p

-- `self.last_used_by_ct[running_ct] = time.monotonic()`
pub mark_used : ℕ → Pool → Pool
mark_used now p = record p {
  last_used_by_ct = put_last_used (get_running_count p) (some now) p.last_used_by_ct;
}

pub process_finished : ℕ → Worker → Fields → Pool → Pool
process_finished now w message p =
    kick_timeout message (note_cleared (tally w message (mark_used now p)))
