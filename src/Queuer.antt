-- ===== src/Queuer.antt =====
-- dispatcherd/service/queuer.py: messages that wait for a free worker. The workers that a `Queuer`
-- keeps a reference to are an argument of its methods.
use dispatcher_fork.Base.{
  ℕ, Bool, not, ◌&&◌, Option, none, some, List, [], ◌∷◌, ◌++◌, length, any, find?, if◌then◌else◌,
}
use dispatcher_fork.Message.{Message, is_or_equals, remove}
use dispatcher_fork.Worker.{Worker, has_task, is_busy, is_ready}

pub record Queuer : Type 0 where
  pub queued_messages : List Message

abbrev pub new_queuer : Queuer
new_queuer = record { queued_messages = [] }

unfoldable pub count : Queuer → ℕ
count q = length q.queued_messages

-- `(not candidate_worker.current_task) and candidate_worker.is_ready()`
unfoldable pub is_free : Worker → Bool
is_free w = not (is_busy w) && is_ready w

abbrev pub get_free_worker : List Worker → Option Worker
get_free_worker = find? is_free

-- The item that a worker adds to `running_tasks`.
abbrev pub task_of : Option Message → List Message
task_of none = []
task_of (some m) = if has_task (some m) then m ∷ [] else []

unfoldable pub running_tasks : List Worker → List Message
running_tasks [] = []
running_tasks (w ∷ ws) = task_of w.current_task ++ running_tasks ws

-- `remove_task`; none is a ValueError.
pub remove_task : Message → Queuer → Option Queuer
remove_task m q =
    if any (is_or_equals m) q.queued_messages
    then some (record { queued_messages = remove m q.queued_messages })
    else none

-- Either a worker to place the task on, or the task is queued.
unfoldable pub get_worker_or_process_task : List Worker → Message → Queuer → Option Worker × Queuer
get_worker_or_process_task ws m q = elim (get_free_worker ws) [
  | some w ↦ (some w, q)
  | none ↦ (none, record { queued_messages = q.queued_messages ++ m ∷ [] })
]
