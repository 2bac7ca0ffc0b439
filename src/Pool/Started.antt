-- ===== src/Pool/Started.antt =====
-- What starting a task makes of a free worker.
use dispatcher_fork.Base.{ℕ, ◌≡◌, refl, true, some, [], ◌∷◌, arith}
use dispatcher_fork.Message.{Message}
use dispatcher_fork.Worker.{Worker, start_task, is_busy}
use dispatcher_fork.Queuer.{task_of, is_free}
use dispatcher_fork.Pool.Tasks.{HoldsItems}

pub start_task-fields :
    (m : Message) (now : ℕ) (w : Worker)
    → ((start_task m now w).worker_id ≡ w.worker_id)
      × ((start_task m now w).current_task ≡ some m)
      × ((start_task m now w).status ≡ w.status)
unfolding start_task
start_task-fields m now w = (refl, refl, refl)

pub task_of-busy : (m : Message) → HoldsItems m → task_of (some m) ≡ m ∷ []
task_of-busy m h = rw h

pub task_of-free : (w : Worker) → is_free w ≡ true → task_of w.current_task ≡ []
unfolding is_free is_busy
task_of-free w h = ground arith
