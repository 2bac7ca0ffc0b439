-- ===== src/Control.antt =====
-- dispatcherd/service/control_tasks.py: what a control message can ask of the service.
pub mod Waiting
pub mod Requests
pub mod Validity
mod Tests
use dispatcher_fork.Base.{
  ℕ, zero, suc, ◌≡◌, Bool, true, false, not, ◌&&◌, ◌||◌, Option, none, some, List, [], ◌∷◌, ◌++◌,
  map, String, if◌then◌else◌, select, length, get_elem?, any, all,
}
use dispatcher_fork.Json.{Value, Fields, end, get, equal, truthy}
use dispatcher_fork.Message.{Message, holds_items, remove}
use dispatcher_fork.Worker
use dispatcher_fork.Worker.{Worker, has_task, is_busy}
use dispatcher_fork.Pool.{Pool}
use dispatcher_fork.Dispatcher.{Capsule, Dispatcher}

-- One of the keys of `filterables`: a true value of the request has to be the task's.
abbrev filter_key : Fields → Fields → String → Bool
filter_key pool_task msg_data key =
    not (truthy (get key msg_data)) || equal (get key pool_task) (get key msg_data)

unfoldable pub task_filter_match : Fields → Fields → Bool
task_filter_match pool_task msg_data =
    all (filter_key pool_task msg_data) ("task" ∷ "args" ∷ "kwargs" ∷ "uuid" ∷ [])

-- The key of a found task: `worker-{id}`, `blocked-{i}`, `queued-{i}` or `delayed-{i}`.
pub data Place : Type 0 where
  worker blocked queued delayed : ℕ → Place

abbrev pub Found : Type 0
Found = List (Place × Message)

module _ (cancel : Bool) (matches : Message → Bool) where
  -- `worker.current_task`, where it is true and matches.
  abbrev found_on : Option Message → Option Message
  found_on none = none
  found_on (some m) = if holds_items m && matches m then some m else none

  -- The loop over the workers.
  pub visit_worker : Worker → Option Message × Worker
  visit_worker w = elim (found_on w.current_task) [
    | none ↦ (none, w)
    | some m ↦ (some m, if cancel then Worker.cancel w else w)
  ]

  pub visit_workers : List Worker → Found × List Worker
  visit_workers [] = ([], [])
  visit_workers (w ∷ ws) =
      let (hit, w') = visit_worker w in
      let (hits, ws') = visit_workers ws in
      (elim hit [ none ↦ hits | some m ↦ (worker w.worker_id, m) ∷ hits ], w' ∷ ws')

  -- The loops over the blocker and the queuer. `enumerate` walks the very list that `remove_task`
  -- changes: each round looks at the place `i` of the list as it then is. The fuel is the length
  -- of the list at the start, and the list never grows.
  pub walk : (ℕ → Place) → ℕ → ℕ → List Message → Found × List Message
  walk place zero i ms = ([], ms)
  walk place (suc fuel) i ms = elim (get_elem? i ms) [
    | none ↦ ([], ms)
    | some m ↦
        let left = if matches m && cancel then remove m ms else ms in
        let (hits, ms') = walk place fuel (suc i) left in
        (if matches m then (place i, m) ∷ hits else hits, ms')
  ]

  -- The loop over a copy of the delayed messages. A capsule that is canceled leaves the set.
  pub visit_capsules : ℕ → List Capsule → Found × List Capsule
  visit_capsules i [] = ([], [])
  visit_capsules i (c ∷ cs) =
      let (hits, cs') = visit_capsules (suc i) cs in
      (
        if matches c.message then (delayed i, c.message) ∷ hits else hits,
        if matches c.message && cancel then cs' else c ∷ cs',
      )

-- `_find_tasks`
pub find_tasks : Bool → Fields → Dispatcher → Found × Dispatcher
unfolding walk visit_workers visit_capsules
find_tasks cancel msg_data d =
    let matches = λ (m : Message). task_filter_match m.body msg_data in
    let p = d.pool in
    let (on_workers, ws) = visit_workers cancel matches p.workers in
    let held = p.blocker.blocked_messages in
    let (in_blocker, bs) = walk cancel matches blocked (length held) 0 held in
    let waiting = p.queuer.queued_messages in
    let (in_queuer, qs) = walk cancel matches queued (length waiting) 0 waiting in
    let (in_delay, cs) = visit_capsules cancel matches 0 d.delayed_messages in
    (
      on_workers ++ (in_blocker ++ (in_queuer ++ in_delay)),
      record d {
        delayed_messages = cs;
        pool = record p {
          workers = ws;
          blocker = record (p.blocker) { blocked_messages = bs };
          queuer = record { queued_messages = qs };
        };
      },
    )

pub running : Fields → Dispatcher → Found × Dispatcher
running msg_data d = find_tasks false msg_data d

unfoldable pub cancel : Fields → Dispatcher → Found × Dispatcher
cancel msg_data d = find_tasks true msg_data d
