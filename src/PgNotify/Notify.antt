-- ===== src/PgNotify/Notify.antt =====
-- Messages of dispatcherd/brokers/pg_notify.py: publishing, the self check, and the loop of
-- `aprocess_notify`, which has to leave the listening before it can send.
pub mod Serving
pub mod Immediate
pub mod SelfCheck
pub mod Kept
pub mod Publishing
pub mod Calls
use dispatcher_fork.Base.{
  ℕ, ◌-◌, ◌+◌, ◌≡◌, Bool, true, false, not, ◌&&◌, ◌||◌, Option, none, some, List, [], ◌∷◌, ◌++◌,
  String, concat, has_text, ltb, all, if◌then◌else◌, Result, ok, raises, Method, and_then, ◌>>=◌,
  return, raise, modify, is_some,
}
use dispatcher_fork.Json.{
  Value, null, bool, num, str, array, object, Fields, end, field, find, contains, get, has_item,
}
use dispatcher_fork.PgNotify.{
  Database, Status, idle, in_progress, Error, self_check_lost, self_check_late, outside, Outgoing,
  Broker, get_publish_channel, aget_connection, get_connection,
}

-- What the self check sends to its channel; `dumps` is `json.dumps`.
abbrev pub self_check_fields : String → Fields
self_check_fields broker_id =
    field "self_check" (bool true)
      (field "task" (str (concat "lambda: \"" (concat broker_id "\""))) end)

abbrev pub is_in_progress : Status → Bool
is_in_progress idle = false
is_in_progress in_progress = true

-- `self.broker_id in message['task']`; none is an exception.
unfoldable pub mentions : String → Option Value → Option Bool
mentions id (some (str s)) = some (has_text id s)
mentions id (some (array vs)) = some (has_item id vs)
mentions id (some (object fs)) = some (contains id fs)
mentions id _ = none

-- The end of `verify_self_check`: the age of the message is compared with its bound.
check_age : Option ℕ → ℕ → Method Error Broker (Unit {0})
check_age none delta b = (raises outside, b)
check_age (some age) delta b = if ltb delta age then (ok tt, b) else (raises self_check_late, b)

-- Whether the message names the broker decides.
judge : Option Bool → ℕ → Method Error Broker (Unit {0})
unfolding check_age
judge none delta b = (raises outside, b)
judge (some false) delta b = (ok tt, b)
judge (some true) delta b =
    check_age b.max_self_check_message_age_seconds delta (record b { self_check_status = idle })

-- `verify_self_check`; the clock never runs backwards.
pub verify_self_check : ℕ → Fields → Method Error Broker (Unit {0})
unfolding mentions judge
verify_self_check now message b =
    judge (mentions b.broker_id (find "task" message)) (now - b.last_self_check_message_time) b

module _ (db : Database) where
  -- `apublish_message_from_cursor`, and the query of `publish_message`
  pub apublish_message_from_cursor : Option String → String → Method Error Broker (Unit {0})
  apublish_message_from_cursor channel message b =
      if db.accepts channel message
      then (ok tt, record b { sent = b.sent ++ (channel, message) ∷ [] })
      else (raises outside, b)

  abbrev publish_channel : Option String → Method Error Broker String
  publish_channel channel b = (get_publish_channel channel b, b)

  -- `apublish_message`
  pub apublish_message : Option String → String → Method Error Broker (Unit {0})
  unfolding apublish_message_from_cursor
  apublish_message channel message b =
      if b.notify_loop_active
      then (ok tt, record b { notify_queue = b.notify_queue ++ (channel, message) ∷ [] })
      else (do
        _ ← aget_connection db
        c ← publish_channel channel
        apublish_message_from_cursor (some c) message)
          b

  -- `publish_message`
  pub publish_message : Option String → String → Method Error Broker (Unit {0})
  unfolding apublish_message_from_cursor
  publish_message channel message = do
    _ ← get_connection db
    c ← publish_channel channel
    apublish_message_from_cursor (some c) message

  -- `for reply_to, reply_message in self.notify_queue`
  pub send_all : List Outgoing → Method Error Broker (Unit {0})
  unfolding apublish_message_from_cursor
  send_all [] = return tt
  send_all ((channel, message) ∷ rest) = do
    _ ← apublish_message_from_cursor channel message
    send_all rest

  -- The end of a round of `while True`, and the beginning of the next one.
  pub leave_loop : Method Error Broker (Unit {0})
  unfolding send_all
  leave_loop b =
      (do
        _ ← send_all b.notify_queue
        modify (λ (b' : Broker). record b' { notify_queue = []; notify_loop_active = true }))
        (record b { notify_loop_active = false })

  module _ (dumps : Value → String) where
    -- `initiate_self_check`, with the clock after the message was published.
    pub initiate_self_check : ℕ → Method Error Broker (Unit {0})
    unfolding apublish_message
    initiate_self_check now b =
        if is_in_progress b.self_check_status
        then (raises self_check_lost, b)
        else (do
          _ ←
              apublish_message (some b.self_check_channel)
                (dumps (object (self_check_fields b.broker_id)))
          modify (λ (b' : Broker). record b' {
            self_check_status = in_progress;
            last_self_check_message_time = now;
          }))
            b

    -- The `else` of the listening, when no notification came before the timeout.
    pub on_quiet : ℕ → Method Error Broker (Unit {0})
    unfolding initiate_self_check leave_loop
    on_quiet now = do _ ← initiate_self_check now; leave_loop

  abbrev is_waiting : List Outgoing → Bool
  is_waiting [] = false
  is_waiting (_ ∷ _) = true

  -- `if self.notify_queue: break`, after the consumer has returned.
  pub after_yield : Method Error Broker (Unit {0})
  unfolding leave_loop
  after_yield b = if is_waiting b.notify_queue then leave_loop b else (ok tt, b)

-- The beginning of `aprocess_notify`: what it listens to, and the entry into the loop.
pub begin_listening : Database → Method Error Broker (List String)
begin_listening db = do
  _ ← aget_connection db
  λ b.
      if all db.hears b.channels
      then (ok b.channels, record b { notify_loop_active = true })
      else (raises outside, b)
