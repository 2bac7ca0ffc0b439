-- ===== src/AsyncTasks.antt =====
-- dispatcherd/service/asyncio_tasks.py: what becomes of a task of the event loop, and the wait
-- for the first of several events.
use dispatcher_fork.Base.{
  ℕ, suc, Bool, true, false, Option, none, some, List, [], ◌∷◌, Result, ok, raises,
}

-- A task runs, or it has returned, was canceled, or ended with an exception.
pub data TaskState : Type 0 where
  running returned canceled failed : TaskState

-- `task.done()`
abbrev pub is_done : TaskState → Bool
is_done running = false
is_done returned = true
is_done canceled = true
is_done failed = true

-- `exit_event.set()`, where there is an event.
abbrev pub set_event : Option Bool → Option Bool
set_event none = none
set_event (some _) = some true

-- `done_callback`, once the task is done: the exception of the task is raised again, and the event
-- set; to be canceled is no failure.
unfoldable pub done_callback : TaskState → Option Bool → Result (Unit {0}) (Unit {0}) × Option Bool
done_callback failed exit_event = (raises tt, set_event exit_event)
done_callback _ exit_event = (ok tt, exit_event)

-- `ensure_fatal`, but for the callback that it adds: a task that is done is looked at at once.
-- `except Exception` lets the exception of a canceled task pass without the event.
unfoldable pub ensure_fatal : TaskState → Option Bool → Result (Unit {0}) (Unit {0}) × Option Bool
ensure_fatal running exit_event = (ok tt, exit_event)
ensure_fatal returned exit_event = (ok tt, exit_event)
ensure_fatal canceled exit_event = (raises tt, exit_event)
ensure_fatal failed exit_event = (raises tt, set_event exit_event)

-- The answer of `wait_for_any` when some of the events are set: the place of the first one. none
-- stands for going on to wait.
unfoldable pub wait_for_any : List Bool → Option ℕ
wait_for_any [] = none
wait_for_any (event ∷ events) = elim event [
  | true ↦ some 0
  | false ↦ elim (wait_for_any events) [ none ↦ none | some i ↦ some (suc i) ]
]
