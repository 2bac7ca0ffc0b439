-- ===== src/Pool/Management.antt =====
-- `manage_new_workers` and `manage_old_workers` of dispatcherd/service/pool.py. Both wait inside
-- their loops, so each round is a function of its own, on the pool as it finds it.
pub mod Invariant
pub mod Deaths
pub mod Untouched
pub mod Rounds
use dispatcher_fork.Base.{
  ℕ, zero, suc, ◌+◌, ◌≡◌, refl, Bool, true, false, not, ◌&&◌, ◌||◌, Option, none, some, List, [],
  ◌∷◌, ◌++◌, ltb, ◌==◌, if◌then◌else◌,
}
use dispatcher_fork.Worker.{
  Worker, Status, initialized, spawned, starting, ready, stopping, exited, error, retired, start,
  is_busy,
}
use dispatcher_fork.Worker.Stop.{Ending, stop}
use dispatcher_fork.Workers.{get_by_id, remove_by_id, modify, contains}
use dispatcher_fork.Pool.{Pool, drain_queue}

abbrev needs_start : Status → Bool
needs_start initialized = true
needs_start _ = false

-- One round of `manage_new_workers`, for the worker with this id. The second argument is what
-- `process.start` comes to: a pid, or none where it raises.
pub manage_new_worker : ℕ → Option ℕ → ℕ → Pool → Pool
manage_new_worker now launched i p = elim (get_by_id i p.workers) [
  | none ↦ p
  | some w ↦
      if needs_start w.status
      then drain_queue now (record p { workers = modify i (start launched) p.workers })
      else p
]

-- What is known of a worker's process in one round of `manage_old_workers`.
pub record Sight : Type 0 where
  pub alive : Bool
  pub ending : Ending

abbrev may_die : Status → Bool
may_die retired = false
may_die error = false
may_die exited = false
may_die initialized = false
may_die spawned = false
may_die _ = true

-- The worker has died unexpectedly.
pub has_died : Sight → Worker → Bool
has_died s w = may_die w.status && not s.alive

unfoldable pub mark_died : ℕ → Worker → Worker
mark_died now w = record w {
  is_active_cancel = if is_busy w then false else w.is_active_cancel;
  status = error;
  retired_at = some now;
}

-- `self.canceled_count += 1` for a task that was running.
pub count_death : ℕ → Worker → Pool → Pool
count_death now w p = record p {
  workers = modify w.worker_id (mark_died now) p.workers;
  canceled_count = if is_busy w then p.canceled_count + 1 else p.canceled_count;
}

-- `t and (time.monotonic() - t) > wait`
abbrev pub overdue : ℕ → ℕ → Option ℕ → Bool
overdue now wait none = false
overdue now wait (some t) = if t == 0 then false else ltb (t + wait) now

-- What is to be done with a worker, once its death has been looked at.
pub data Verdict : Type 0 where
  stop_now remove leave : Verdict

verdict_of : Status → Bool → Bool → Verdict
verdict_of exited late over = stop_now
verdict_of stopping late over = if late then stop_now else leave
verdict_of retired late over = if over then remove else leave
verdict_of error late over = if over then remove else leave
verdict_of _ late over = leave

pub verdict : ℕ → Worker → Pool → Verdict
unfolding verdict_of
verdict now w p =
    verdict_of w.status (overdue now p.worker_stop_wait w.stopping_at)
      (overdue now p.worker_removal_wait w.retired_at)

-- The ids of `remove_ids` are collected in the order of the workers.
judge : ℕ → Sight → ℕ → Worker → List ℕ × Pool → List ℕ × Pool
judge now s i w (ids, p) = elim (verdict now w p) [
  | stop_now ↦ (ids, record p { workers = modify i (stop now s.ending) p.workers })
  | remove ↦ (ids ++ i ∷ [], p)
  | leave ↦ (ids, p)
]

-- The second half of a round, on the worker as the first half left it.
judge_again : ℕ → Sight → ℕ → List ℕ × Pool → List ℕ × Pool
judge_again now s i (ids, p) = elim (get_by_id i p.workers) [
  | none ↦ (ids, p)
  | some w ↦ judge now s i w (ids, p)
]

-- One round of the loop over the workers.
pub manage_old_worker : ℕ → Sight → ℕ → List ℕ × Pool → List ℕ × Pool
manage_old_worker now s i (ids, p) = elim (get_by_id i p.workers) [
  | none ↦ (ids, p)
  | some w ↦ judge_again now s i (ids, if has_died s w then count_death now w p else p)
]

-- `if worker_id in self.workers: self.workers.remove_by_id(worker_id)`
pub remove_workers : List ℕ → Pool → Pool
remove_workers [] p = p
remove_workers (i ∷ ids) p =
    remove_workers ids
      (if contains i p.workers then record p { workers = remove_by_id i p.workers } else p)
