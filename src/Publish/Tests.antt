-- ===== src/Publish/Tests.antt =====
-- A decorated task with a timeout, submitted to a broker that takes every text.
use dispatcher_fork.Base.{
  ℕ, ◌≡◌, refl, false, Option, none, some, List, [], ◌∷◌, ◌++◌, String, str_eq, if◌then◌else◌,
  Result, ok,
}
use dispatcher_fork.Json.{Value, null, num, str, object, Fields, field, end, find}
use dispatcher_fork.Message.{Message}
use dispatcher_fork.Samples.{busy_dispatcher}
use dispatcher_fork.Utils.{serialize_task}
use dispatcher_fork.Config.{Settings}
use dispatcher_fork.Factories.{get_publisher_from_settings}
use dispatcher_fork.Dispatcher.Routing.{text, process_message}
use dispatcher_fork.Registry.{Method, no_queue, named, new_registry, Submission, get_async_body}
use dispatcher_fork.Publish.{
  Callable, Tasks, Decorator, decorate, channel_of, task_defaults, apply_async,
}
use dispatcher_fork.Publish.Delivery.{Delivered, submitted_to}
use dispatcher_fork.Publish.Submitted.{Published, apply_async-Submitted}

abbrev sleep_function : Callable
sleep_function = record { identity = 4; module_name = "tests"; qualname = some "sleep" }

abbrev with_timeout : Decorator
with_timeout = record { bind = false; queue = named "tasks"; on_duplicate = null; timeout = num 9 }

abbrev no_tasks : Tasks
no_tasks = record { registry = new_registry; glued = λ i. none }

abbrev sleep_method : Method
sleep_method = record {
  fn = 4;
  path = serialize_task "tests" "sleep";
  queue = named "tasks";
  bind = false;
  submission_defaults = task_defaults with_timeout;
}

abbrev submission : Submission
submission = record {
  args = null;
  kwargs = null;
  uuid = null;
  bind = null;
  on_duplicate = str "serial";
  timeout = null;
  delay = null;
}

abbrev settings : Settings
settings = record {
  brokers = object (field "socket" (object end) end);
  producers = object end;
  service = end;
  publish = object end;
}

abbrev sleep_body : Fields
sleep_body = get_async_body 7 "new" sleep_method submission

-- One text stands for the submission, every other is no JSON.
abbrev dump : Value → String
dump v = "{sleep}"

abbrev load : String → Option Value
load s = if str_eq s "{sleep}" then some (object sleep_body) else none

abbrev uncalled : ℕ → Option String
uncalled i = none

-- A broker whose state is the list of the texts that it was given.
abbrev record_text :
    String × Fields → Option String → String → List String → Result ℕ (Unit {0}) × List String
record_text broker channel message sent = (ok tt, sent ++ message ∷ [])

carried : (decorate with_timeout sleep_function no_tasks).1.glued 4 ≡ some sleep_method
unfolding decorate
carried = refl

returns :
    apply_async dump uncalled record_text 7 "new" settings sleep_method no_queue submission []
    ≡ (ok (sleep_body, some "tasks"), "{sleep}" ∷ [])
unfolding apply_async get_publisher_from_settings find
returns = refl

apply_async-Submitted_example :
    Published dump uncalled record_text settings (some "tasks") "{sleep}" [] ("{sleep}" ∷ [])
    × (some "tasks" ≡ channel_of uncalled (named "tasks"))
    × ((received : Message) × Delivered
          (serialize_task "tests" "sleep")
          "new"
          with_timeout
          submission
          received
        × (process_message
              (λ v. none)
              load
              20
              1
              2
              none
              (some "tasks")
              (text "{sleep}")
              busy_dispatcher
            ≡ submitted_to 20 2 submission received busy_dispatcher))
apply_async-Submitted_example =
    apply_async-Submitted dump uncalled record_text settings load with_timeout sleep_function
      "sleep" no_tasks sleep_method 7 "new" no_queue submission sleep_body (some "tasks") []
      ("{sleep}" ∷ []) (λ v. none) 20 1 2 none (some "tasks") busy_dispatcher refl carried returns
      refl
