-- ===== src/Wakeup/Tests.antt =====
-- The runner at concrete objects: one without a wakeup, and two with one.
use dispatcher_fork.Base.{refl, [], ◌∷◌, inl}
use dispatcher_fork.Wakeup.{
  process_wakeups, kick, wake, mk_new_task, next_time, wakeup_loop, consider, visit, due_time,
  sooner,
}
use dispatcher_fork.Wakeup.Waits.{Loop, new_loop, kick_loop, round, Reach, here, next, runs}
use dispatcher_fork.Wakeup.Waits.Watched.{Watched, Reach-Watched}
use dispatcher_fork.Pool.{Pool}
use dispatcher_fork.Pool.Timeouts.{worker_ids, timeout_callbacks-Later}
use dispatcher_fork.Json.{num, str, field, end, truthy, find, get}
use dispatcher_fork.Message.{holds_items}
use dispatcher_fork.Worker.{ready, next_wakeup, seconds}
use dispatcher_fork.Pool.Shutdown.{timeout_callbacks}
use dispatcher_fork.Samples.{busy_pool, worker_with}

-- A pool whose worker 5 runs a task with a timeout: its runner is kicked, and looks.
abbrev timed_pool : Pool
timed_pool = record busy_pool {
  workers =
      worker_with 5 ready
        (record { ident = 9; body = field "task" (str "sleep") (field "timeout" (num 3) end) })
      ∷ [];
}

abbrev kicked : Loop Pool
kicked = kick_loop timeout_callbacks worker_ids 1 (new_loop timed_pool)

abbrev looked : Loop Pool
looked = round timeout_callbacks worker_ids 1 kicked

looked-Reach : Reach timeout_callbacks worker_ids 1 kicked looked
unfolding kick_loop kick wake mk_new_task next_time process_wakeups wakeup_loop consider visit
    due_time sooner next_wakeup truthy find get holds_items seconds
looked-Reach = next here (runs refl refl)

Reach-Watched_example : Watched timeout_callbacks worker_ids 1 looked 5
unfolding round kick_loop kick wake mk_new_task next_time process_wakeups wakeup_loop consider visit
    due_time sooner next_wakeup truthy find get holds_items seconds
Reach-Watched_example =
    Reach-Watched timeout_callbacks worker_ids 1 (λ i p. timeout_callbacks-Later 1 i p) timed_pool
      looked 5 5 looked-Reach refl (inl refl) refl
