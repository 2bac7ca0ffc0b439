-- ===== src/ControlClient/Tests.antt =====
-- The control client at a broker that takes every message, and at one without channels.
use dispatcher_fork.Base.{
  ℕ, ◌+◌, ◌≡◌, refl, Option, none, some, List, [], ◌∷◌, ◌++◌, String, map, take, arith, str_eq,
  if◌then◌else◌, ok, Method,
}
use dispatcher_fork.Json.{Value, null, str, object, Fields}
use dispatcher_fork.Samples.{busy_dispatcher}
use dispatcher_fork.Dispatcher.Actions.{run_control_action}
use dispatcher_fork.Dispatcher.Routing.{text, process_message}
use dispatcher_fork.PgNotify.Samples.{server, bare_broker, bare_broker-IsSound}
use dispatcher_fork.PgNotify.Notify.{apublish_message}
use dispatcher_fork.ControlClient.{create_message, message_fields, acontrol_with_reply, acontrol}
use dispatcher_fork.ControlClient.Requests.{process_message-create_message}
use dispatcher_fork.ControlClient.Answers.{reported, acontrol_with_reply-take}
use dispatcher_fork.ControlClient.Unaddressed.{closed, SentNothing, acontrol-SentNothing}

abbrev request : Fields
request = message_fields "alive" (some "reply_to_a") none

-- One text stands for the request, every other is no JSON.
abbrev dump : Value → String
dump v = "{alive}"

abbrev load : String → Option Value
load s = if str_eq s "{alive}" then some (object request) else none

process_message-create_message_example :
    process_message
      (λ v. none)
      load
      7
      1
      2
      none
      (some "tasks")
      (text (create_message dump load "alive" (some "reply_to_a") none))
      busy_dispatcher
    ≡ run_control_action
        (λ v. none)
        7
        (str "alive")
        null
        (str "reply_to_a")
        (record busy_dispatcher { received_count = 8 + 1 })
process_message-create_message_example =
    process_message-create_message (λ v. none) 7 2 none dump load 1 (some "tasks") "alive"
      (some "reply_to_a") none busy_dispatcher refl

abbrev request_text : String
request_text = create_message dump load "alive" (some "reply_to_a") none

-- A broker whose state is the list of the texts that it was given.
abbrev record_text : Option String → String → Method ℕ (List String) (Unit {0})
record_text c m sent = (ok tt, sent ++ m ∷ [])

acontrol_with_reply-take_example :
    acontrol_with_reply dump load record_text
      (λ b. b)
      none
      "reply_to_a"
      "alive"
      1
      none
      ("{alive}" ∷ "later" ∷ [])
      []
    ≡ (ok (map (reported load) (take 1 ("{alive}" ∷ "later" ∷ []))), request_text ∷ [])
acontrol_with_reply-take_example =
    acontrol_with_reply-take dump load record_text (λ b. b) none "reply_to_a" "alive" 1 none
      ("{alive}" ∷ "later" ∷ []) [] (omega arith)

acontrol-SentNothing_example : SentNothing bare_broker (
    acontrol dump load (apublish_message server) (closed 9) (some "tasks") "alive" none bare_broker)
acontrol-SentNothing_example =
    acontrol-SentNothing server dump load 9 (some "tasks") "alive" none bare_broker
      bare_broker-IsSound refl refl refl
