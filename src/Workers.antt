-- ===== src/Workers.antt =====
-- `WorkerData` of dispatcherd/service/pool.py: the workers by id, in the order of the dict.
pub mod Tasks
use dispatcher_fork.Base.{
  ℕ, ◌≡◌, refl, Bool, true, false, Option, none, some, List, [], ◌∷◌, arith, ◌==◌, if◌then◌else◌,
  any, find?, drop_first,
}
use dispatcher_fork.Worker.{Worker}

abbrev pub has_id : ℕ → Worker → Bool
has_id i w = w.worker_id == i

-- `__contains__`
unfoldable pub contains : ℕ → List Worker → Bool
contains i = any (has_id i)

-- `add_worker`: `self.workers[worker.worker_id] = worker`
unfoldable pub add_worker : Worker → List Worker → List Worker
add_worker w [] = w ∷ []
add_worker w (v ∷ ws) = if v.worker_id == w.worker_id then w ∷ ws else v ∷ add_worker w ws

-- `get_by_id`; none is a KeyError.
abbrev pub get_by_id : ℕ → List Worker → Option Worker
get_by_id i = find? (has_id i)

-- `remove_by_id` of an id that is there.
abbrev pub remove_by_id : ℕ → List Worker → List Worker
remove_by_id i = drop_first (has_id i)

-- What a method of the worker object with this id does to it.
abbrev pub modify : ℕ → (Worker → Worker) → List Worker → List Worker
modify i f [] = []
modify i f (w ∷ ws) = if w.worker_id == i then f w ∷ ws else w ∷ modify i f ws
