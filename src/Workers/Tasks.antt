-- ===== src/Workers/Tasks.antt =====
-- Counting workers and running tasks while one worker changes.
use dispatcher_fork.Base.{
  ℕ, suc, ◌+◌, ◌≤◌, ◌<◌, ◌≡◌, refl, Bool, true, false, none, some, List, [], ◌∷◌, ◌++◌, arith, ◌==◌,
  if◌then◌else◌, count, count-append, All, length, select, find?, Bool-cases, inl, inr,
}
use dispatcher_fork.Message.{Message}
use dispatcher_fork.Worker.{Worker, is_busy}
use dispatcher_fork.Queuer.{is_free, get_free_worker, task_of, running_tasks}
use dispatcher_fork.Workers.{get_by_id, modify, add_worker}

-- The ids rise along the list, from the given bound on, as `next_worker_id` gave them out.
abbrev pub Rising : ℕ → List Worker → Type 0
Rising n [] = Unit {0}
Rising n (w ∷ ws) = (n ≤ w.worker_id) × Rising (suc w.worker_id) ws

pub count-modify :
    (p : Worker → Bool) (i : ℕ) (f : Worker → Worker) (w : Worker) (ws : List Worker)
    → get_by_id i ws ≡ some w
    → count p (modify i f ws) + count p (w ∷ []) ≡ count p ws + count p (f w ∷ [])
count-modify p i f w [] h = ground arith
count-modify p i f w (x ∷ ws) h = ground (arith, count-modify p i f w ws)

pub running_tasks-modify :
    (q : Message → Bool) (i : ℕ) (f : Worker → Worker) (w : Worker) (ws : List Worker)
    → get_by_id i ws ≡ some w
    → count q (running_tasks (modify i f ws)) + count q (task_of w.current_task)
      ≡ count q (running_tasks ws) + count q (task_of (f w).current_task)
unfolding running_tasks
running_tasks-modify q i f w [] h = ground arith
running_tasks-modify q i f w (x ∷ ws) h = ground (
  arith,
  running_tasks-modify q i f w ws,
  count-append q (task_of x.current_task) (running_tasks ws),
  count-append q (task_of x.current_task) (running_tasks (modify i f ws)),
  count-append q (task_of (f x).current_task) (running_tasks ws),
)

pub modify-Rising :
    (n i : ℕ) (f : Worker → Worker) (ws : List Worker)
    → ((w : Worker) → (f w).worker_id ≡ w.worker_id)
    → Rising n ws
    → Rising n (modify i f ws)
modify-Rising n i f [] k h = tt
modify-Rising n i f (w ∷ ws) k h = ground (arith, k w, modify-Rising (suc w.worker_id) i f ws k h.1)

get_free_worker-above :
    (n : ℕ) (w : Worker) (ws : List Worker)
    → Rising n ws
    → get_free_worker ws ≡ some w
    → n ≤ w.worker_id
get_free_worker-above n w [] h e = absurd (ground arith)
get_free_worker-above n w (x ∷ ws) h e =
    ground (arith, get_free_worker-above (suc x.worker_id) w ws h.1)

-- A free worker is found under its id, is free and is ready.
pub get_by_id-free :
    (n : ℕ) (w : Worker) (ws : List Worker)
    → Rising n ws
    → get_free_worker ws ≡ some w
    → (get_by_id w.worker_id ws ≡ some w) × (is_free w ≡ true)
get_by_id-free n w [] h e = absurd (ground arith)
get_by_id-free n w (x ∷ ws) h e = ground (
  arith,
  get_free_worker-above (suc x.worker_id) w ws h.1,
  get_by_id-free (suc x.worker_id) w ws h.1,
)

-- `received_count` counts the busy workers, `running_tasks` lists their tasks.
pub length-running_tasks : (ws : List Worker) → length (running_tasks ws) ≡ count is_busy ws
unfolding running_tasks is_busy
length-running_tasks [] = refl
length-running_tasks (w ∷ ws) = ground (arith, length-running_tasks ws)

pub modify-All {κ} :
    (P : Worker → Type κ) (i : ℕ) (f : Worker → Worker) (ws : List Worker)
    → ((w : Worker) → P w → P (f w))
    → All P ws
    → All P (modify i f ws)
modify-All P i f [] k h = tt
modify-All P i f (w ∷ ws) k h =
    elim (w.worker_id == i) as (λ b. All P (if b then f w ∷ ws else w ∷ modify i f ws)) [
      | true ↦ (k w h.0, h.1)
      | false ↦ (h.0, modify-All P i f ws k h.1)
    ]

pub running_tasks-modify_same :
    (i : ℕ) (f : Worker → Worker) (ws : List Worker)
    → ((w : Worker) → (f w).current_task ≡ w.current_task)
    → running_tasks (modify i f ws) ≡ running_tasks ws
unfolding running_tasks
running_tasks-modify_same i f [] k = refl
running_tasks-modify_same i f (w ∷ ws) k = ground (arith, k w, running_tasks-modify_same i f ws k)

pub found_id : (i : ℕ) (w : Worker) (ws : List Worker) → get_by_id i ws ≡ some w → w.worker_id ≡ i
found_id i w [] h = absurd (ground arith)
found_id i w (x ∷ ws) h = ground (arith, found_id i w ws)

find-select_above :
    (p q : Worker → Bool) (n : ℕ) (w : Worker) (ws : List Worker)
    → Rising n ws
    → find? q (select p ws) ≡ some w
    → n ≤ w.worker_id
find-select_above p q n w [] r h = absurd (ground arith)
find-select_above p q n w (x ∷ ws) r h =
    ground (arith, find-select_above p q (suc x.worker_id) w ws r.1)

-- A worker that is found among some of the workers is the one of its id.
pub get_by_id-find_select :
    (p q : Worker → Bool) (n : ℕ) (w : Worker) (ws : List Worker)
    → Rising n ws
    → find? q (select p ws) ≡ some w
    → (get_by_id w.worker_id ws ≡ some w) × (p w ≡ true) × (q w ≡ true)
get_by_id-find_select p q n w [] r h = absurd (ground arith)
get_by_id-find_select p q n w (x ∷ ws) r h = elim (Bool-cases (p x)) [
  | inl px ↦ ground (
    arith,
    find-select_above p q (suc x.worker_id) w ws r.1,
    get_by_id-find_select p q (suc x.worker_id) w ws r.1,
  )
  | inr nx ↦ ground (
    arith,
    find-select_above p q (suc x.worker_id) w ws r.1,
    get_by_id-find_select p q (suc x.worker_id) w ws r.1,
  )
]

-- A new id goes to the end of the dict.
pub add_worker-new :
    (w : Worker) (ws : List Worker)
    → All (λ v. v.worker_id < w.worker_id) ws
    → add_worker w ws ≡ ws ++ w ∷ []
unfolding add_worker
add_worker-new w [] h = refl
add_worker-new w (v ∷ ws) h = ground (arith, add_worker-new w ws h.1)

pub Rising-append :
    (n : ℕ) (w : Worker) (ws : List Worker)
    → n ≤ w.worker_id
    → All (λ v. v.worker_id < w.worker_id) ws
    → Rising n ws
    → Rising n (ws ++ w ∷ [])
Rising-append n w [] h a r = (h, tt)
Rising-append n w (v ∷ ws) h a r = (r.0, Rising-append (suc v.worker_id) w ws a.0 a.1 r.1)

pub running_tasks-append_idle :
    (w : Worker) (ws : List Worker)
    → w.current_task ≡ none
    → running_tasks (ws ++ w ∷ []) ≡ running_tasks ws
unfolding running_tasks
running_tasks-append_idle w [] h = rw h
running_tasks-append_idle w (v ∷ ws) h = rw (running_tasks-append_idle w ws h)
