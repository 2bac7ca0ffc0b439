-- ===== src/Pool/Management/Rounds.antt =====
-- `manage_workers` of dispatcherd/service/pool.py: one round of the management task, with no other
-- coroutine in between.
use dispatcher_fork.Base.{ℕ, false, Option, List, [], ◌∷◌, map}
use dispatcher_fork.Worker.{Worker}
use dispatcher_fork.Pool.{Pool}
use dispatcher_fork.Pool.Invariant.{IsValid}
use dispatcher_fork.Pool.Drain.{IsValid-events}
use dispatcher_fork.Pool.Scaling.{scale_workers}
use dispatcher_fork.Pool.Scaling.Invariant.{scale_workers-Kept}
use dispatcher_fork.Pool.Management.{Sight, manage_new_worker, manage_old_worker, remove_workers}
use dispatcher_fork.Pool.Management.Invariant.{
  manage_new_worker-IsValid, manage_old_worker-IsValid, remove_workers-IsValid,
}

abbrev worker_ids : Pool → List ℕ
worker_ids p = map (λ (w : Worker). w.worker_id) p.workers

-- The loop over the workers, by their ids; `launched` tells what the start of each one comes to.
pub start_all : ℕ → (ℕ → Option ℕ) → List ℕ → Pool → Pool
start_all now launched [] p = p
start_all now launched (i ∷ is) p =
    start_all now launched is (manage_new_worker now (launched i) i p)

pub manage_new_workers : ℕ → (ℕ → Option ℕ) → Pool → Pool
unfolding start_all
manage_new_workers now launched p = start_all now launched (worker_ids p) p

pub look_at_all : ℕ → (ℕ → Sight) → List ℕ → List ℕ × Pool → List ℕ × Pool
look_at_all now sights [] (ids, p) = (ids, p)
look_at_all now sights (i ∷ is) (ids, p) =
    look_at_all now sights is (manage_old_worker now (sights i) i (ids, p))

pub manage_old_workers : ℕ → (ℕ → Sight) → Pool → Pool
unfolding look_at_all
manage_old_workers now sights p =
    let (ids, p') = look_at_all now sights (worker_ids p) ([], p) in remove_workers ids p'

-- One round of the loop of `manage_workers`, with the wait for the event at its end.
pub manage_round : ℕ → (ℕ → Option ℕ) → (ℕ → Sight) → Pool → Pool
unfolding manage_new_workers manage_old_workers
manage_round now launched sights p =
    let p' =
      manage_old_workers now sights (manage_new_workers now launched (scale_workers now p)) in
    record p' { events = record (p'.events) { management_event = false } }

start_all-IsValid :
    (now : ℕ) (launched : ℕ → Option ℕ) (is : List ℕ) (p : Pool)
    → IsValid p
    → IsValid (start_all now launched is p)
unfolding start_all
start_all-IsValid now launched [] p v = v
start_all-IsValid now launched (i ∷ is) p v =
    start_all-IsValid now launched is _ (manage_new_worker-IsValid now (launched i) i p v)

look_at_all-IsValid :
    (now : ℕ) (sights : ℕ → Sight) (is ids : List ℕ) (p : Pool)
    → IsValid p
    → IsValid (look_at_all now sights is (ids, p)).1
unfolding look_at_all
look_at_all-IsValid now sights [] ids p v = v
look_at_all-IsValid now sights (i ∷ is) ids p v =
    look_at_all-IsValid now sights is _ _ (manage_old_worker-IsValid now (sights i) i ids p v)

-- A whole round of the management task, with no other coroutine in between (scaling, the start
-- of new workers, the look at all old ones, the removal of those that are gone), keeps the
-- invariant of a valid pool, whatever the processes do.
pub manage_round-IsValid :
    (now : ℕ) (launched : ℕ → Option ℕ) (sights : ℕ → Sight) (p : Pool)
    → IsValid p
    → IsValid (manage_round now launched sights p)
unfolding manage_round
manage_round-IsValid now launched sights p v =
    let scaled = scale_workers now p in
    let v' =
      start_all-IsValid now launched (worker_ids scaled) scaled (scale_workers-Kept now p v).0 in
    let started = start_all now launched (worker_ids scaled) scaled in
    let looked = look_at_all now sights (worker_ids started) ([], started) in
    let v'' = look_at_all-IsValid now sights (worker_ids started) [] started v' in
    IsValid-events (remove_workers looked.0 looked.1) _
      (remove_workers-IsValid looked.0 looked.1 v'')
