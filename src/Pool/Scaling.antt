-- ===== src/Pool/Scaling.antt =====
-- `up`, `should_scale_down` and `scale_workers` of dispatcherd/service/pool.py.
pub mod Bounds
pub mod Untouched
pub mod Invariant
use dispatcher_fork.Base.{
  ℕ, zero, suc, ◌+◌, ◌-◌, ◌≡◌, refl, Bool, true, false, not, ◌&&◌, ◌||◌, Option, none, some, List,
  [], ◌∷◌, ltb, ◌==◌, if◌then◌else◌, select, length, find?,
}
use dispatcher_fork.Worker.{Worker, new_worker, create_process, counts_for_capacity, signal_stop}
use dispatcher_fork.Workers.{add_worker, modify}
use dispatcher_fork.Pool.{Pool, active_task_ct, has_no_task}

pub up : ℕ → Pool → Pool
up now p = record p {
  workers = add_worker (new_worker p.next_worker_id create_process now) p.workers;
  next_worker_id = p.next_worker_id + 1;
}

-- `for _ in range(n): await self.up()`
pub ups : ℕ → ℕ → Pool → Pool
ups zero now p = p
ups (suc n) now p = ups n now (up now p)

-- `self.last_used_by_ct.get(ct)`, None for a missing count too.
pub last_used : ℕ → List (ℕ × Option ℕ) → Option ℕ
last_used ct [] = none
last_used ct ((k, t) ∷ d) = if k == ct then t else last_used ct d

abbrev pub available_workers : Pool → List Worker
available_workers p = select counts_for_capacity p.workers

-- `time.monotonic() - last_used > self.scaledown_wait`, for a last use that is not zero.
abbrev waited_past : ℕ → ℕ → Option ℕ → Bool
waited_past now wait none = false
waited_past now wait (some t) = if t == 0 then false else ltb (t + wait) now

pub should_scale_down : ℕ → Pool → Bool
should_scale_down now p =
    waited_past now p.scaledown_wait (last_used (length (available_workers p)) p.last_used_by_ct)

-- The loop over the available workers, which stops the first one with no task.
pub stop_idle : ℕ → Pool → Pool
stop_idle now p = elim (find? has_no_task (available_workers p)) [
  | none ↦ p
  | some w ↦ record p { workers = modify w.worker_id (signal_stop now) p.workers }
]

pub scale_workers : ℕ → Pool → Pool
scale_workers now p =
    let worker_ct = length (available_workers p) in
    if ltb worker_ct p.min_workers
    then ups (p.min_workers - worker_ct) now p
    else if ltb worker_ct (active_task_ct p)
    then (if ltb worker_ct p.max_workers then up now p else p)
    else if ltb p.min_workers worker_ct
    then (if should_scale_down now p then stop_idle now p else p)
    else p
