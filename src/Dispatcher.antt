-- ===== src/Dispatcher.antt =====
-- `DispatcherMain` and `DelayCapsule` of dispatcherd/service/main.py: the state of the main
-- object, and the tasks that it delays.
pub mod Actions
pub mod Routing
pub mod Main
pub mod Shutdown
mod Tests
use dispatcher_fork.Base.{
  ℕ, ◌+◌, ◌≡◌, Bool, true, false, not, Option, none, some, List, [], ◌∷◌, ◌++◌, map, ◌==◌, String,
  if◌then◌else◌, select,
}
use dispatcher_fork.Json.{get}
use dispatcher_fork.Message.{Message}
use dispatcher_fork.Worker.{seconds}
use dispatcher_fork.Wakeup.{Runner, new_runner, kick}
use dispatcher_fork.Pool.{Pool}

-- `capsule_id` is the identity of the capsule object.
pub record Capsule : Type 0 where
  pub capsule_id : ℕ
  pub has_ran : Bool
  pub received_at : ℕ
  pub delay : ℕ
  pub message : Message

abbrev pub new_capsule : ℕ → ℕ → ℕ → Message → Capsule
new_capsule capsule_id now delay m = record {
  capsule_id = capsule_id;
  has_ran = false;
  received_at = now;
  delay = delay;
  message = m;
}

-- `DelayCapsule.next_wakeup`
abbrev pub wakeup_of : Capsule → Option ℕ
wakeup_of c = if c.has_ran then none else some (c.received_at + c.delay)

pub record Dispatcher : Type 0 where
  pub delayed_messages : List Capsule
  pub received_count : ℕ
  pub control_count : ℕ
  pub shutting_down : Bool
  pub pool : Pool
  pub node_id : String
  pub delayed_runner : Runner
  pub exit_event : Bool

-- `DispatcherMain.__init__`, with a node id that is given or made up.
abbrev pub new_dispatcher : Pool → String → Dispatcher
new_dispatcher pool node_id = record {
  delayed_messages = [];
  received_count = 0;
  control_count = 0;
  shutting_down = false;
  pool = pool;
  node_id = node_id;
  delayed_runner = new_runner;
  exit_event = false;
}

abbrev pub receive_signal : Dispatcher → Dispatcher
receive_signal d = record d { exit_event = true }

-- `create_delayed_task`; the capsule is a new object.
unfoldable pub create_delayed_task : ℕ → ℕ → Message → Dispatcher → Dispatcher
create_delayed_task now capsule_id m d =
    let held =
      d.delayed_messages ++ new_capsule capsule_id now (seconds (get "delay" m.body)) m ∷ [] in
    record d {
      delayed_messages = held;
      delayed_runner = kick (map wakeup_of held) d.delayed_runner;
    }

-- `delayed_messages.remove(capsule)`, which looks at identities only.
abbrev pub without : ℕ → List Capsule → List Capsule
without i = select (λ c. not (c.capsule_id == i))
