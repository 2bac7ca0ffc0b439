-- ===== src/PgNotify/Notify/Calls.antt =====
-- Any series of calls of the methods of the pg_notify broker.
use dispatcher_fork.Base.{ℕ, Option, List, [], ◌∷◌, String}
use dispatcher_fork.Json.{Value, Fields}
use dispatcher_fork.PgNotify.{Database, Broker, aget_connection, get_connection, aclose, close}
use dispatcher_fork.PgNotify.Notify.{
  apublish_message, publish_message, on_quiet, after_yield, begin_listening, verify_self_check,
}

-- A call of one of the methods.
pub data Call : Type 0 where
  connect aconnect begin yielded end_sync : Call
  publish apublish : Option String → String → Call
  verify : ℕ → Fields → Call
  timed_out end_async : ℕ → Call

-- The broker after a call that returned or raised. Every call meets its own server.
pub perform : (Value → String) → Database → Call → Broker → Broker
perform dumps db connect b = (get_connection db b).1
perform dumps db aconnect b = (aget_connection db b).1
perform dumps db begin b = (begin_listening db b).1
perform dumps db yielded b = (after_yield db b).1
perform dumps db end_sync b = (close b).1
perform dumps db (publish c m) b = (publish_message db c m b).1
perform dumps db (apublish c m) b = (apublish_message db c m b).1
perform dumps db (verify now message) b = (verify_self_check now message b).1
perform dumps db (timed_out now) b = (on_quiet db dumps now b).1
perform dumps db (end_async now) b = (aclose now b).1

pub perform_all : (Value → String) → List (Database × Call) → Broker → Broker
unfolding perform
perform_all dumps [] b = b
perform_all dumps ((db, call) ∷ calls) b = perform_all dumps calls (perform dumps db call b)
