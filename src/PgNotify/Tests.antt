-- ===== src/PgNotify/Tests.antt =====
-- A pg_notify broker in use: two channels, one connection for each side, and its theorems there.
use dispatcher_fork.Base.{
  ℕ, ◌-◌, ◌≡◌, refl, true, none, some, List, [], ◌∷◌, String, ltb, ok, raises, Method,
}
use dispatcher_fork.Json.{str, Fields, end, field, find}
use dispatcher_fork.Brokered.{Origin, Service, Answer, new_producer}
use dispatcher_fork.PgNotify.{Database, Error, Broker, Settings, new_broker, self_check_lost}
use dispatcher_fork.PgNotify.Samples.{server, broker_at_rest, broker_at_rest-IsSound}
use dispatcher_fork.PgNotify.Soundness.{Built, new_broker-Built}
use dispatcher_fork.PgNotify.Notify.{
  on_quiet, verify_self_check, apublish_message, publish_message, mentions,
}
use dispatcher_fork.PgNotify.Notify.Serving.{Event, received, quiet, serve}
use dispatcher_fork.PgNotify.Notify.Immediate.{
  IsListening, KeepsListening, serve_at_once, serve-serve_at_once,
}
use dispatcher_fork.PgNotify.Notify.SelfCheck.{checking, verdict, on_quiet-cycle}
use dispatcher_fork.PgNotify.Notify.Calls.{
  Call, publish, apublish, begin, timed_out, end_async, end_sync,
}
use dispatcher_fork.PgNotify.Notify.Publishing.{Published, publish_message-Published}

abbrev given : Settings
given = record {
  config = some (field "dbname" (str "tasks") end);
  async_connection_factory = none;
  sync_connection_factory = none;
  sync_connection = none;
  async_connection = none;
  channels = "tasks" ∷ "broadcast" ∷ [];
  default_publish_channel = some "tasks";
  max_connection_idle_seconds = some 30;
  max_self_check_message_age_seconds = some 2;
}

abbrev listening_broker : Broker
listening_broker = record broker_at_rest { notify_loop_active = true }

abbrev listening_is : IsListening listening_broker
listening_is = record { active = refl; clear = refl }

new_broker-Built_example : Built given (new_broker "a" "b" 5 given)
new_broker-Built_example = new_broker-Built "a" "b" 5 given

abbrev session : List (Database × Call)
session =
    (server, begin)
    ∷ (server, apublish none "reply")
    ∷ (server, timed_out 40)
    ∷ (server, publish (some "other") "task")
    ∷ (server, end_sync)
    ∷ (server, end_async 50)
    ∷ []

publish_message-Published_example :
    Published none "{}" broker_at_rest (publish_message server none "{}" broker_at_rest)
    × Published none "{}" broker_at_rest (apublish_message server none "{}" broker_at_rest)
publish_message-Published_example =
    publish_message-Published server none "{}" broker_at_rest broker_at_rest-IsSound refl

-- The dispatcher answers each message on the channel "replies", with its text.
abbrev echo : Origin → String → Method Error (Service Broker ℕ) Answer
echo o payload s = (ok (some "replies", some payload), s)

abbrev echo_keeps :
    (o : Origin) (payload : String) (s : Service Broker ℕ)
    → IsListening s.broker
    → KeepsListening (echo o payload s)
echo_keeps o payload s h = h

abbrev service : Service Broker ℕ
service = record { producer = new_producer; broker = listening_broker; dispatcher = 0 }

abbrev traffic : List Event
traffic = received "tasks" "one" ∷ received "tasks" "two" ∷ quiet 40 ∷ received "tasks" "three" ∷ []

serve-serve_at_once_example :
    serve server (λ v. "check") echo traffic service
    ≡ serve_at_once (λ v. "check") echo traffic service
serve-serve_at_once_example =
    serve-serve_at_once server (λ v. "check") echo (λ c m. refl) echo_keeps traffic service
      listening_is

-- A message with the id of the broker.
abbrev own_message : Fields
own_message = field "task" (str "lambda: \"broker_a\"") end

own_message-mentions : mentions "broker_a" (find "task" own_message) ≡ some true
unfolding mentions find
own_message-mentions = refl

on_quiet-cycle_example :
    (on_quiet server (λ v. "check") 40 listening_broker
      ≡ (ok tt, checking (λ v. "check") 40 listening_broker))
    × (on_quiet server (λ v. "check") 41 (checking (λ v. "check") 40 listening_broker)
        ≡ (raises self_check_lost, checking (λ v. "check") 40 listening_broker))
    × (verify_self_check 41 own_message (checking (λ v. "check") 40 listening_broker)
        ≡ verdict true (ltb (41 - 40) 2) (checking (λ v. "check") 40 listening_broker))
on_quiet-cycle_example =
    on_quiet-cycle server (λ v. "check") (λ c m. refl) 40 41 2 true own_message listening_broker
      listening_is refl refl own_message-mentions
