-- ===== src/Publish.antt =====
-- dispatcherd/publish.py, and the publishing half of `DispatcherMethod` in dispatcherd/registry.py:
-- the decorator of a task, and how a call of the task is submitted.
pub mod Delivery
pub mod Decorated
pub mod Submitted
mod Tests
use dispatcher_fork.Base.{
  ℕ, ◌≡◌, Bool, true, false, not, Option, none, some, List, [], ◌∷◌, String, str_eq, ◌==◌,
  if◌then◌else◌, Result, ok, raises,
}
use dispatcher_fork.Json.{Value, null, array, object, Items, Fields, end, field}
use dispatcher_fork.Utils.{serialize_task}
use dispatcher_fork.Config.{Settings}
use dispatcher_fork.Factories.{get_publisher_from_settings}
use dispatcher_fork.Registry.{
  Method, Queue, no_queue, named, computed, Registry, reopen, register, Submission, get_async_body,
}

-- A function or a class, or an object that has no qualified name.
pub record Callable : Type 0 where
  pub identity : ℕ
  pub module_name : String
  pub qualname : Option String

-- `DispatcherMethod.__init__`; none is InvalidMethod.
abbrev pub new_method : Callable → Queue → Bool → Fields → Option Method
new_method fn queue bind submission_defaults = elim fn.qualname [
  | none ↦ none
  | some name ↦ some (record {
    fn = fn.identity;
    path = serialize_task fn.module_name name;
    queue = queue;
    bind = bind;
    submission_defaults = submission_defaults;
  })
]

-- `register` of a callable: a callable without a qualified name leaves it with an exception, when
-- the registration has been opened again.
abbrev pub registered : Option Method → Registry → Result (Unit {0}) Method × Registry
registered none r = (raises tt, reopen r)
registered (some m) r = (ok m, register m r)

-- `DispatcherDecorator`; None stands for an option that is not given.
pub record Decorator : Type 0 where
  pub bind : Bool
  pub queue : Queue
  pub on_duplicate : Value
  pub timeout : Value

abbrev pub task_defaults : Decorator → Fields
task_defaults d = field "on_duplicate" d.on_duplicate (field "timeout" d.timeout end)

-- The registry, and the methods whose apply_async and delay the callables carry, by identity.
pub record Tasks : Type 0 where
  pub registry : Registry
  pub glued : ℕ → Option Method

abbrev pub glue : ℕ → Method → (ℕ → Option Method) → ℕ → Option Method
glue i m glued j = if i == j then some m else glued j

abbrev pub attached :
    Callable → Tasks → Result (Unit {0}) Method × Registry → Result (Unit {0}) Callable × Tasks
attached fn p (ok m, r) = (ok fn, record { registry = r; glued = glue fn.identity m p.glued })
attached fn p (raises _, r) = (raises tt, record p { registry = r })

-- `DispatcherDecorator.__call__`
unfoldable pub decorate : Decorator → Callable → Tasks → Result (Unit {0}) Callable × Tasks
unfolding register
decorate d fn p =
    attached fn p (registered (new_method fn d.queue d.bind (task_defaults d)) p.registry)

-- `bool(queue)`
abbrev pub has_queue : Queue → Bool
has_queue no_queue = false
has_queue (named s) = not (str_eq s "")
has_queue (computed i) = true

-- The channel of a queue; `call` gives what a callable returns.
abbrev pub channel_of : (ℕ → Option String) → Queue → Option String
channel_of call no_queue = none
channel_of call (named s) = some s
channel_of call (computed i) = call i

-- Why a submission is not published: the settings name no broker, or the broker raises.
pub data Unpublished (E : Type 0) : Type 0 where
  no_broker : Unpublished E
  of_broker : E → Unpublished E

abbrev pub answered : {E S A : Type 0} → A → Result E (Unit {0}) × S → Result (Unpublished E) A × S
answered a (ok _, s) = (ok a, s)
answered a (raises e, s) = (raises (of_broker e), s)

-- `publish_message` is that of the broker with the given name and arguments.
module _ {E S : Type 0} (dumps : Value → String) (call : ℕ → Option String)
    (publish_message : String × Fields → Option String → String → S → Result E (Unit {0}) × S) where
  -- `apply_async`
  unfoldable pub apply_async :
      ℕ
      → String
      → Settings
      → Method
      → Queue
      → Submission
      → S
      → Result (Unpublished E) (Fields × Option String) × S
  unfolding get_async_body get_publisher_from_settings
  apply_async now fresh settings m queue submission s =
      let channel = channel_of call (if has_queue queue then queue else m.queue) in
      let obj = get_async_body now fresh m submission in
      elim (get_publisher_from_settings none settings end) [
        | none ↦ (raises no_broker, s)
        | some broker ↦
            answered (obj, channel) (publish_message broker channel (dumps (object obj)) s)
      ]

  -- `delay`
  pub delay :
      ℕ
      → String
      → Settings
      → Method
      → Items
      → Fields
      → S
      → Result (Unpublished E) (Fields × Option String) × S
  unfolding apply_async
  delay now fresh settings m args kwargs = apply_async now fresh settings m no_queue (record {
    args = array args;
    kwargs = object kwargs;
    uuid = null;
    bind = null;
    on_duplicate = null;
    timeout = null;
    delay = null;
  })
