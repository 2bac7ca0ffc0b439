-- ===== src/Control/Requests.antt =====
-- What the control actions `running` and `cancel` find and change.
use dispatcher_fork.Base.{
  ℕ, suc, ◌≡◌, refl, Bool, true, false, not, ◌&&◌, none, some, List, [], ◌∷◌, ◌++◌, map, arith,
  select, length, if◌then◌else◌, All, In, ==_refl,
}
use dispatcher_fork.Json.{Fields}
use dispatcher_fork.Message.{Message, holds_items, is_or_equals}
use dispatcher_fork.Worker
use dispatcher_fork.Worker.{Worker}
use dispatcher_fork.Dispatcher.{Capsule, Dispatcher}
use dispatcher_fork.Control.{
  worker, blocked, queued, delayed, Found, task_filter_match, visit_worker, visit_workers,
  visit_capsules, find_tasks, running, cancel,
}
use dispatcher_fork.Control.Waiting.{
  numbered, walk-numbered, walk-passed, walk-step, visit_capsules-select,
}

abbrev pub matching : Fields → Message → Bool
matching msg_data m = task_filter_match m.body msg_data

-- The worker runs a task that the request asks for.
abbrev pub is_wanted : (Message → Bool) → Worker → Bool
is_wanted matches w = elim w.current_task [ none ↦ false | some m ↦ holds_items m && matches m ]

abbrev pub on_workers : (Message → Bool) → List Worker → Found
on_workers matches [] = []
on_workers matches (w ∷ ws) =
    let rest = on_workers matches ws in
    elim w.current_task [
      | none ↦ rest
      | some m ↦ if holds_items m && matches m then (worker w.worker_id, m) ∷ rest else rest
    ]

-- The tasks that match a request: the running ones by worker, the others by their places.
abbrev pub listing : Fields → Dispatcher → Found
listing msg_data d =
    on_workers (matching msg_data) d.pool.workers
    ++ (numbered blocked (matching msg_data) 0 d.pool.blocker.blocked_messages
        ++ (numbered queued (matching msg_data) 0 d.pool.queuer.queued_messages
            ++ numbered delayed (matching msg_data) 0
                (map (λ (c : Capsule). c.message) d.delayed_messages)))

visit_workers-read :
    (matches : Message → Bool) (ws : List Worker)
    → visit_workers false matches ws ≡ (on_workers matches ws, ws)
unfolding visit_workers visit_worker
visit_workers-read matches [] = refl
visit_workers-read matches (w ∷ ws) = ground (arith, visit_workers-read matches ws)

visit_capsules-read :
    (matches : Message → Bool) (i : ℕ) (cs : List Capsule)
    → visit_capsules false matches i cs
      ≡ (numbered delayed matches i (map (λ (c : Capsule). c.message) cs), cs)
unfolding visit_capsules
visit_capsules-read matches i [] = refl
visit_capsules-read matches i (c ∷ cs) = ground (arith, visit_capsules-read matches (suc i) cs)

visit_workers-cancel :
    (matches : Message → Bool) (ws : List Worker)
    → (visit_workers true matches ws).1
      ≡ map (λ w. if is_wanted matches w then Worker.cancel w else w) ws
unfolding visit_workers visit_worker
visit_workers-cancel matches [] = refl
visit_workers-cancel matches (w ∷ ws) = ground (arith, visit_workers-cancel matches ws)

-- The action running changes nothing and lists exactly the tasks that match the request: the
-- running ones by worker, the held, queued and delayed ones by their places.
pub running-listing :
    (msg_data : Fields) (d : Dispatcher) → running msg_data d ≡ (listing msg_data d, d)
unfolding running find_tasks
running-listing msg_data d =
    let q = matching msg_data in
    rw
      (
        visit_workers-read q d.pool.workers,
        walk-numbered blocked q 0 d.pool.blocker.blocked_messages d.pool.blocker.blocked_messages
            refl,
        walk-numbered queued q 0 d.pool.queuer.queued_messages d.pool.queuer.queued_messages refl,
        visit_capsules-read q 0 d.delayed_messages,
      )
      refl

-- The action cancel sends a cancel to exactly the workers whose task matches the request, and
-- drops exactly the matching delayed messages.
pub cancel-workers :
    (msg_data : Fields) (d : Dispatcher)
    → ((cancel msg_data d).1.pool.workers
        ≡ map (λ w. if is_wanted (matching msg_data) w then Worker.cancel w else w) d.pool.workers)
      × ((cancel msg_data d).1.delayed_messages
          ≡ select (λ c. not (matching msg_data c.message)) d.delayed_messages)
unfolding cancel find_tasks
cancel-workers msg_data d = (
  visit_workers-cancel (matching msg_data) d.pool.workers,
  visit_capsules-select (matching msg_data) 0 d.delayed_messages,
)

-- When the first two messages of the queue match a request to cancel, and no later one equals
-- the second, the second stays in the queue.
pub cancel-skips :
    (msg_data : Fields) (d : Dispatcher) (a b : Message) (ms : List Message)
    → d.pool.queuer.queued_messages ≡ a ∷ b ∷ ms
    → matching msg_data a ≡ true
    → matching msg_data b ≡ true
    → All (λ m. is_or_equals m b ≡ false) ms
    → In b (cancel msg_data d).1.pool.queuer.queued_messages
unfolding cancel find_tasks is_or_equals
cancel-skips msg_data d a b ms e hit hit' apart =
    rw
      (
        e,
        walk-step queued true (matching msg_data) (suc (length ms)) 0 a (a ∷ b ∷ ms) refl,
        hit,
        ==_refl a.ident,
      )
      (walk-passed queued true (matching msg_data) (suc (length ms)) 0 b ms apart)

-- Neither action touches the counts, the node id, or the counts of the pool.
abbrev pub SameCounts : Dispatcher → Dispatcher → Type 0
SameCounts d d' =
    (d'.control_count ≡ d.control_count)
    × (d'.received_count ≡ d.received_count)
    × (d'.node_id ≡ d.node_id)

pub running-SameCounts : (msg_data : Fields) (d : Dispatcher) → SameCounts d (running msg_data d).1
unfolding running find_tasks
running-SameCounts msg_data d = (refl, refl, refl)

pub cancel-SameCounts : (msg_data : Fields) (d : Dispatcher) → SameCounts d (cancel msg_data d).1
unfolding cancel find_tasks
cancel-SameCounts msg_data d = (refl, refl, refl)
