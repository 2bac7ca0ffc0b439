-- ===== src/Dispatcher/Routing.antt =====
-- `process_message`, `process_message_internal` and `process_delayed_task` of
-- dispatcherd/service/main.py: where each message goes.
pub mod Messages
use dispatcher_fork.Base.{
  ℕ, ◌+◌, ◌≡◌, Bool, true, false, not, ◌&&◌, ◌||◌, Option, none, some, List, [], ◌∷◌, ◌++◌, any,
  map, String, str_eq, if◌then◌else◌, ◌==◌, concat, decimal, starts_with, has_text,
}
use dispatcher_fork.Json.{
  Value, null, bool, num, str, array, object, Items, nil, cons, Fields, end, field, contains, get,
  put, truthy, equal, has_item,
}
use dispatcher_fork.Message.{Message}
use dispatcher_fork.Worker.{Worker, is_busy, get_data}
use dispatcher_fork.Pool.{dispatch_task}
use dispatcher_fork.Dispatcher.{Capsule, Dispatcher, create_delayed_task, without}
use dispatcher_fork.Control.{Place, worker, blocked, queued, delayed, Found, running, cancel}
use dispatcher_fork.Dispatcher.Actions.{Answer, handled, raised, run_control_action}

-- What a producer hands to `process_message`.
pub data Payload : Type 0 where
  text : String → Payload
  dict : Message → Payload
  unprocessable : Payload

-- `if 'uuid' not in message: message['uuid'] = f'internal-{self.received_count}'`
unfoldable pub with_uuid : ℕ → Message → Message
with_uuid received_count m =
    if contains "uuid" m.body
    then m
    else record m { body = put "uuid" (str (concat "internal-" (decimal received_count))) m.body }

-- `bool(channel)`
abbrev pub set_channel : Option String → Bool
set_channel none = false
set_channel (some c) = not (str_eq c "")

-- `if channel: message['channel'] = channel`
unfoldable pub with_channel : Option String → Message → Message
with_channel none m = m
with_channel (some c) m =
    if str_eq c "" then m else record m { body = put "channel" (str c) m.body }

-- `verify_self_check` of a brokered producer, which may raise; none for another producer.
abbrev pub Check : Type 0
Check = Option (Value → Bool)

abbrev pub check_fails : Check → Value → Bool
check_fails none v = false
check_fails (some fails) v = fails v

-- The body for any other value. It always ends with an exception: at the first `in`, at an
-- assignment to an item, or at last where an item or `get` is asked for.
process_keys : (String → Bool) → Bool → Option String → Dispatcher → Answer
process_keys has fails channel d =
    if (has "self_check" && fails) || (not (has "uuid") || set_channel channel)
    then raised d
    else raised (record d { received_count = d.received_count + 1 })

abbrev pub mark_ran : Capsule → Dispatcher → Dispatcher
mark_ran c d = record d {
  delayed_messages =
      map (λ x. if x.capsule_id == c.capsule_id then record x { has_ran = true } else x)
        d.delayed_messages;
}

module _ (aio : Value → Option Fields) where
  unfoldable pub process_message_internal : ℕ → Message → Dispatcher → Answer
  process_message_internal now m d =
      if contains "control" m.body
      then run_control_action aio now (get "control" m.body) (get "control_data" m.body)
          (get "reply_to" m.body) d
      else handled none (record d { pool = dispatch_task now m d.pool })

  -- The body of `process_message` for a dict.
  unfoldable pub process_dict : ℕ → ℕ → Check → Option String → Message → Dispatcher → Answer
  unfolding process_message_internal with_uuid with_channel
  process_dict now capsule_id check channel m d =
      let m' = with_channel channel (with_uuid d.received_count m) in
      let d' = record d { received_count = d.received_count + 1 } in
      if contains "self_check" m.body && check_fails check (object m.body)
      then raised d
      else if contains "delay" m'.body
      then handled none (create_delayed_task now capsule_id m' d')
      else process_message_internal now m' d'

  unfoldable pub process_value : ℕ → ℕ → ℕ → Check → Option String → Value → Dispatcher → Answer
  unfolding process_dict process_keys has_item
  process_value now ident capsule_id check channel (object fs) d =
      process_dict now capsule_id check channel (record { ident = ident; body = fs }) d
  process_value now ident capsule_id check channel (array vs) d =
      process_keys (λ key. has_item key vs) (check_fails check (array vs)) channel d
  process_value now ident capsule_id check channel (str s) d =
      process_keys (λ key. has_text key s) (check_fails check (str s)) channel d
  process_value now ident capsule_id check channel _ d = raised d

  -- `process_delayed_task`, for a capsule that is among the delayed messages.
  pub process_delayed_task : ℕ → Capsule → Dispatcher → Answer
  unfolding process_message_internal
  process_delayed_task now c d = elim (process_message_internal now c.message (mark_ran c d)) [
    | handled reply d' ↦
        handled none (record d' { delayed_messages = without c.capsule_id d'.delayed_messages })
    | raised d' ↦ raised d'
  ]

  -- `loads` is `json.loads`, none where it raises.
  -- `process_message`. `ident` and `capsule_id` are the identities of the dict and of the capsule
  -- that it may make.
  unfoldable pub process_message :
      (String → Option Value) → ℕ → ℕ → ℕ → Check → Option String → Payload → Dispatcher → Answer
  unfolding process_value process_dict
  process_message loads now ident capsule_id check channel (text s) d = elim (loads s) [
    | none ↦
        process_dict now capsule_id check channel
          (record { ident = ident; body = field "task" (str s) end }) d
    | some v ↦ process_value now ident capsule_id check channel v d
  ]
  process_message loads now ident capsule_id check channel (dict m) d =
      process_dict now capsule_id check channel m d
  process_message loads now ident capsule_id check channel unprocessable d = handled none d
