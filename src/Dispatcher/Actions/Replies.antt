-- ===== src/Dispatcher/Actions/Replies.antt =====
-- What `run_control_action` answers, and what it leaves alone.
use dispatcher_fork.Base.{◌+◌, ◌≡◌, ◌⊎◌, true, false, none, some, Option}
use dispatcher_fork.Json.{Value, Fields, str, truthy, find}
use dispatcher_fork.Dispatcher.{Dispatcher}
use dispatcher_fork.Control.Requests.{SameCounts}
use dispatcher_fork.Dispatcher.Actions.{Answer, handled, raised, Reply}

-- What an action returns, if it returns, and a dispatcher with the same counts.
abbrev Kept : Dispatcher → Option (Fields × Dispatcher) → Type 0
Kept d none = Unit {0}
Kept d (some (fs, d')) = SameCounts d d'

-- The reply, if one is asked for, goes to `reply_to` and names the node.
pub record Answered (reply_to : Value) (d : Dispatcher) (r : Reply) (d' : Dispatcher) : Type 0 where
  pub counted : d'.control_count ≡ d.control_count + 1
  pub received : d'.received_count ≡ d.received_count
  pub reply :
      ((truthy reply_to ≡ false) × (r ≡ none))
      ⊎ ((truthy reply_to ≡ true)
          × ((content : Fields) × (r ≡ some (reply_to, content))
              × (find "node_id" content ≡ some (str d.node_id))))

pub data Outcome (reply_to : Value) (d : Dispatcher) : Answer → Type 0 where
  failed : {a : Answer} → a ≡ raised d → Outcome reply_to d a
  answered :
      {a : Answer} (r : Reply) (d' : Dispatcher)
      → a ≡ handled r d'
      → Answered reply_to d r d'
      → Outcome reply_to d a
