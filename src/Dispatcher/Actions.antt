-- ===== src/Dispatcher/Actions.antt =====
-- `run_control_action` of dispatcherd/service/main.py: what a control message does and answers.
pub mod Replies
use dispatcher_fork.Base.{
  ℕ, ◌+◌, ◌≡◌, Bool, true, false, not, ◌&&◌, ◌||◌, Option, none, some, List, [], ◌∷◌, ◌++◌, any,
  map, String, str_eq, if◌then◌else◌, ◌==◌, concat, decimal, starts_with, has_text,
}
use dispatcher_fork.Json.{
  Value, null, bool, num, str, array, object, Items, nil, cons, Fields, end, field, contains, get,
  put, truthy, equal,
}
use dispatcher_fork.Message.{Message}
use dispatcher_fork.Worker.{Worker, is_busy, get_data}
use dispatcher_fork.Pool.{dispatch_task}
use dispatcher_fork.Dispatcher.{Capsule, Dispatcher, create_delayed_task, without}
use dispatcher_fork.Control.{Place, worker, blocked, queued, delayed, Found, running, cancel}

-- The channel and the content of a reply, where there is one.
abbrev pub Reply : Type 0
Reply = Option (Value × Fields)

-- The method returns, or an exception leaves it, with the state that it finds.
pub data Answer : Type 0 where
  handled : Reply → Dispatcher → Answer
  raised : Dispatcher → Answer

-- The coroutines of control_tasks.py, and the other attributes of that module whose names do not
-- begin with an underscore: to call one of these with a dispatcher is a TypeError.
abbrev pub methods : List String
methods = "running" ∷ "cancel" ∷ "alive" ∷ "aio_tasks" ∷ "workers" ∷ []

abbrev pub other_attributes : List String
other_attributes =
    "asyncio" ∷ "io" ∷ "logging" ∷ "logger" ∷ "DispatcherMain" ∷ "task_filter_match" ∷ []

-- `(not hasattr(control_tasks, action)) or action.startswith('_')`
abbrev pub is_unknown : String → Bool
is_unknown action =
    not (any (str_eq action) (methods ++ other_attributes)) || starts_with action "_"

place_key : Place → String
place_key (worker i) = concat "worker-" (decimal i)
place_key (blocked i) = concat "blocked-" (decimal i)
place_key (queued i) = concat "queued-" (decimal i)
place_key (delayed i) = concat "delayed-" (decimal i)

pub found_fields : Found → Fields
unfolding place_key
found_fields [] = end
found_fields ((place, m) ∷ hits) = field (place_key place) (object m.body) (found_fields hits)

-- The control method `workers`.
pub workers_fields : ℕ → List Worker → Fields
workers_fields now [] = end
workers_fields now (w ∷ ws) =
    field (concat "worker-" (decimal w.worker_id)) (object (get_data now w)) (workers_fields now ws)

abbrev is_empty {ℓ} : {A : Type ℓ} → List A → Bool
is_empty [] = true
is_empty (_ ∷ _) = false

-- There is a task that `task_filter_match` is called for.
abbrev pub has_candidates : Dispatcher → Bool
has_candidates d =
    any is_busy d.pool.workers
    || not (is_empty d.pool.blocker.blocked_messages)
    || not (is_empty d.pool.queuer.queued_messages)
    || not (is_empty d.delayed_messages)

-- `running` and `cancel` with the value of `control_data`; none is an AttributeError, which a
-- value without `get` raises at the first task.
find_action :
    (Fields → Dispatcher → Found × Dispatcher) → Value → Dispatcher → Option (Fields × Dispatcher)
find_action act null d = let (hits, d') = act end d in some (found_fields hits, d')
find_action act (object fs) d = let (hits, d') = act fs d in some (found_fields hits, d')
find_action act _ d = if has_candidates d then none else some (end, d)

-- The end of `run_control_action`.
pub reply_with : Value → Fields → Dispatcher → Answer
reply_with reply_to return_data d =
    let content = put "node_id" (str d.node_id) return_data in
    handled (if truthy reply_to then some (reply_to, content) else none)
      (record d { control_count = d.control_count + 1 })

abbrev pub no_method : String → Value → Fields
no_method action reply_to =
    if truthy reply_to then field "error" (str (concat "No control method " action)) end else end

-- `aio` is what `aio_tasks` answers to a value of `control_data`, none where it raises.
module _ (aio : Value → Option Fields) where
  -- `await method(dispatcher=self, data=control_data)`
  pub call_action : ℕ → String → Value → Dispatcher → Option (Fields × Dispatcher)
  unfolding find_action
  call_action now action control_data d =
      if str_eq action "running"
      then find_action running control_data d
      else if str_eq action "cancel"
      then find_action cancel control_data d
      else if str_eq action "alive"
      then some (end, d)
      else if str_eq action "aio_tasks"
      then elim (aio control_data) [ none ↦ none | some fs ↦ some (fs, d) ]
      else if str_eq action "workers"
      then some (workers_fields now d.pool.workers, d)
      else none

  -- `run_control_action`; `hasattr` raises for a name that is no text.
  pub run_control_action : ℕ → Value → Value → Value → Dispatcher → Answer
  unfolding call_action reply_with
  run_control_action now (str action) control_data reply_to d =
      if is_unknown action
      then reply_with reply_to (no_method action reply_to) d
      else elim (call_action now action control_data d) [
        | none ↦ raised d
        | some (return_data, d') ↦ reply_with reply_to return_data d'
      ]
  run_control_action now _ control_data reply_to d = raised d
