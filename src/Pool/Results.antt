-- ===== src/Pool/Results.antt =====
-- `read_results_forever` of dispatcherd/service/pool.py: one round of its loop.
pub mod Invariant
use dispatcher_fork.Base.{
  ℕ, ◌≡◌, refl, Bool, true, false, not, ◌&&◌, Option, none, some, List, all, str_eq, String,
  if◌then◌else◌,
}
use dispatcher_fork.Json.{Fields}
use dispatcher_fork.Worker.{Worker, Status, ready, exited, is_ready, inactive}
use dispatcher_fork.Workers.{get_by_id, modify}
use dispatcher_fork.Pool.{Pool, set_management_event, drain_queue, process_finished}

-- What the finished queue holds: the pool's own stop message, or a worker's report with its
-- "worker" and "event" items.
pub data Report : Type 0 where
  stop_message : Report
  report : ℕ → String → Fields → Report

-- The loop goes on, the method returns, or `get_by_id` raises KeyError out of it.
pub data Loop : Type 0 where
  next : Pool → Loop
  returned : Pool → Loop
  key_error : Pool → Loop

abbrev pub pool_of : Loop → Pool
pool_of (next p) = p
pool_of (returned p) = p
pool_of (key_error p) = p

abbrev pub set_ready : Worker → Worker
set_ready w = record w { status = ready }

abbrev pub set_exited : Worker → Worker
set_exited w = record w { status = exited; exit_msg_event = true }

-- `if all(worker.status == 'ready' for worker in self.workers): self.events.workers_ready.set()`
unfoldable pub note_ready : Pool → Pool
note_ready p =
    if all is_ready p.workers
    then record p { events = record (p.events) { workers_ready = true } }
    else p

unfoldable pub on_ready : ℕ → ℕ → Pool → Pool
on_ready now i p =
    drain_queue now (note_ready (record p { workers = modify i set_ready p.workers }))

unfoldable pub on_shutdown : ℕ → Pool → Loop
on_shutdown i p =
    let p' = record p { workers = modify i set_exited p.workers } in
    if p.shutting_down
    then (if all inactive p'.workers then returned p' else next p')
    else next (set_management_event p')

unfoldable pub on_done : ℕ → Worker → Fields → Pool → Pool
on_done now w message p = drain_queue now (process_finished now w message p)

unfoldable pub on_event : ℕ → Worker → String → Fields → Pool → Loop
on_event now w event message p =
    if str_eq event "ready"
    then next (on_ready now w.worker_id p)
    else if str_eq event "shutdown"
    then on_shutdown w.worker_id p
    else if str_eq event "done"
    then next (on_done now w message p)
    else next p

unfoldable pub handle_result : ℕ → Report → Pool → Loop
handle_result now stop_message p = if p.shutting_down then returned p else next p
handle_result now (report i event message) p = elim (get_by_id i p.workers) [
  | none ↦ key_error p
  | some w ↦ on_event now w event message p
]
