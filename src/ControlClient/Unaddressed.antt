-- ===== src/ControlClient/Unaddressed.antt =====
-- Fire-and-forget control messages over the pg_notify broker.
use dispatcher_fork.Base.{ℕ, ◌≡◌, false, Option, none, [], String, arith, Result, ok, raises}
use dispatcher_fork.Json.{Value, Fields}
use dispatcher_fork.PgNotify.{Database, Error, Broker, aclose}
use dispatcher_fork.PgNotify.Soundness.{IsSound}
use dispatcher_fork.PgNotify.Notify.{apublish_message}
use dispatcher_fork.PgNotify.Notify.Publishing.{chosen, Published, publish_message-Published}
use dispatcher_fork.ControlClient.{create_message, Failure, closing, acontrol}

-- `aclose`, whose result is the broker.
abbrev pub closed : ℕ → Broker → Broker
closed now b = (aclose now b).1

-- The call raised, and the server got nothing.
abbrev pub SentNothing : Broker → Result (Failure Error) (Unit {0}) × Broker → Type 0
SentNothing b (ok _, b') = ⊥
SentNothing b (raises _, b') = b'.sent ≡ b.sent

module _ (db : Database) (dumps : Value → String) (loads : String → Option Value) (now : ℕ)
    (queuename : Option String) where
  closing-SentNothing :
      (m : String) (b : Broker) (r : Result Error (Unit {0}) × Broker)
      → chosen none b.default_publish_channel b.user_channels ≡ none
      → Published none m b r
      → SentNothing b (closing dumps loads (apublish_message db) (closed now) queuename ok r)
  unfolding aclose
  closing-SentNothing m b (ok a, b') h p = absurd (ground (arith, h, p.1))
  closing-SentNothing m b (raises e, b') h p = p.0

  -- Over a sound pg_notify broker that has no channels of the user's, as acontrol builds it, and
  -- no default channel, acontrol raises and sends nothing, also where the Control has a queue.
  pub acontrol-SentNothing :
      (command : String) (send_data : Option Fields) (b : Broker)
      → IsSound b
      → b.notify_loop_active ≡ false
      → b.user_channels ≡ []
      → b.default_publish_channel ≡ none
      → SentNothing b
          (acontrol dumps loads (apublish_message db) (closed now) queuename command send_data b)
  unfolding acontrol
  acontrol-SentNothing command send_data b h out alone plain =
      closing-SentNothing (create_message dumps loads command none send_data) b _
        (ground (arith, alone, plain))
        (publish_message-Published db none (create_message dumps loads command none send_data) b h
          out).1
