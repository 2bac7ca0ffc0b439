-- ===== src/PgNotify/Notify/SelfCheck.antt =====
-- One cycle of the self check: a timeout sends it, and a message, or another timeout, ends it.
use dispatcher_fork.Base.{
  ℕ, ◌-◌, ◌≡◌, refl, Bool, true, false, Option, some, arith, String, ltb, if◌then◌else◌, Result, ok,
  raises, ◌∙◌,
}
use dispatcher_fork.Json.{Value, object, Fields, find}
use dispatcher_fork.PgNotify.{
  Database, Error, self_check_lost, self_check_late, Broker, idle, in_progress,
}
use dispatcher_fork.PgNotify.Notify.{
  on_quiet, verify_self_check, mentions, self_check_fields, initiate_self_check, check_age, judge,
}
use dispatcher_fork.PgNotify.Notify.Immediate.{IsListening, post, check_at_once, on_quiet-at_once}

-- The broker behind a self check that it sent at `sent_at`.
abbrev pub checking : (Value → String) → ℕ → Broker → Broker
checking dumps sent_at b =
    record (post (some b.self_check_channel) (dumps (object (self_check_fields b.broker_id))) b) {
      self_check_status = in_progress;
      last_self_check_message_time = sent_at;
    }

-- What a message does to a broker: one that names the broker ends the check, in time or late.
abbrev pub verdict : Bool → Bool → Broker → Result Error (Unit {0}) × Broker
verdict false in_time b = (ok tt, b)
verdict true in_time b =
    (if in_time then ok tt else raises self_check_late, record b { self_check_status = idle })

module _ (db : Database) (dumps : Value → String)
    (accepts : (c : Option String) (m : String) → db.accepts c m ≡ true) where
  on_quiet-idle :
      (sent_at : ℕ) (b : Broker)
      → IsListening b
      → b.self_check_status ≡ idle
      → on_quiet db dumps sent_at b ≡ (ok tt, checking dumps sent_at b)
  unfolding check_at_once
  on_quiet-idle sent_at b h e = on_quiet-at_once db accepts dumps sent_at b h ∙ ground (arith, e)

  on_quiet-lost :
      (now : ℕ) (b : Broker)
      → b.self_check_status ≡ in_progress
      → on_quiet db dumps now b ≡ (raises self_check_lost, b)
  unfolding on_quiet initiate_self_check
  on_quiet-lost now b e = ground (arith, e)

  verify_self_check-verdict :
      (now age : ℕ) (own : Bool) (message : Fields) (b : Broker)
      → b.max_self_check_message_age_seconds ≡ some age
      → mentions b.broker_id (find "task" message) ≡ some own
      → verify_self_check now message b
        ≡ verdict own (ltb (now - b.last_self_check_message_time) age) b
  unfolding verify_self_check judge check_age
  verify_self_check-verdict now age false message b limit named = ground (arith, limit, named)
  verify_self_check-verdict now age true message b limit named = ground (arith, limit, named)

  -- A timeout in an idle listening broker, if the server takes every notification, sends its
  -- self check once. From then on another timeout raises and changes nothing; a message that
  -- does not name the broker changes nothing; and one that names it makes the broker idle again,
  -- and raises unless it came within the bound on the age.
  pub on_quiet-cycle :
      (sent_at now age : ℕ) (own : Bool) (message : Fields) (b : Broker)
      → IsListening b
      → b.self_check_status ≡ idle
      → b.max_self_check_message_age_seconds ≡ some age
      → mentions b.broker_id (find "task" message) ≡ some own
      → (on_quiet db dumps sent_at b ≡ (ok tt, checking dumps sent_at b))
        × (on_quiet db dumps now (checking dumps sent_at b)
            ≡ (raises self_check_lost, checking dumps sent_at b))
        × (verify_self_check now message (checking dumps sent_at b)
            ≡ verdict own (ltb (now - sent_at) age) (checking dumps sent_at b))
  on_quiet-cycle sent_at now age own message b h e limit named = (
    on_quiet-idle sent_at b h e,
    on_quiet-lost now (checking dumps sent_at b) refl,
    verify_self_check-verdict now age own message (checking dumps sent_at b) limit named,
  )
