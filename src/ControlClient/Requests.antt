-- ===== src/ControlClient/Requests.antt =====
-- What the service makes of a message that the control client created.
use dispatcher_fork.Base.{ℕ, ◌+◌, ◌≡◌, Option, none, some, String, str_eq, if◌then◌else◌, arith}
use dispatcher_fork.Json.{Value, null, str, object, Fields, end, field, contains, find, get, put}
use dispatcher_fork.Dispatcher.{Dispatcher}
use dispatcher_fork.Dispatcher.Actions.{run_control_action}
use dispatcher_fork.Dispatcher.Routing.{
  Check, text, process_message, process_value, process_dict, process_message_internal, with_uuid,
  with_channel,
}
use dispatcher_fork.ControlClient.{create_message, message_fields}

-- The data and the reply channel as the service finds them.
abbrev pub data_value : Option Fields → Value
data_value none = null
data_value (some end) = null
data_value (some (field k v fs)) = object (field k v fs)

abbrev pub reply_value : Option String → Value
reply_value none = null
reply_value (some s) = if str_eq s "" then null else str s

module _ (aio : Value → Option Fields) (now capsule_id : ℕ) (check : Check) where
  -- A dict whose items are those of a control message.
  routed :
      (i : ℕ) (channel : Option String) (command : String) (reply_to : Option String)
      (send_data : Option Fields) (d : Dispatcher)
      → process_dict aio now capsule_id check channel
          (record { ident = i; body = message_fields command reply_to send_data })
          d
        ≡ run_control_action aio now
            (str command)
            (data_value send_data)
            (reply_value reply_to)
            (record d { received_count = d.received_count + 1 })
  unfolding process_dict process_message_internal with_uuid with_channel message_fields contains
      find get put
  routed i (some c) command (some r) (some (field k v fs)) d = ground arith
  routed i channel command reply_to send_data d = ground arith

  -- A message that the control client creates, sent as text and read again, makes the service
  -- run the control action of its command, with its data and its reply channel where they are
  -- given and true and None otherwise, whatever channel it came on; apart from that it counts as
  -- one more received message. The JSON of its dict is read back as it was written.
  pub process_message-create_message :
      (dumps : Value → String) (loads : String → Option Value) (i : ℕ) (channel : Option String)
      (command : String) (reply_to : Option String) (send_data : Option Fields) (d : Dispatcher)
      → loads (dumps (object (message_fields command reply_to send_data)))
        ≡ some (object (message_fields command reply_to send_data))
      → process_message aio loads now i capsule_id check channel
          (text (create_message dumps loads command reply_to send_data))
          d
        ≡ run_control_action aio now
            (str command)
            (data_value send_data)
            (reply_value reply_to)
            (record d { received_count = d.received_count + 1 })
  unfolding process_message process_value create_message
  process_message-create_message dumps loads i channel command reply_to send_data d reads =
      rw (reads, process_message) (routed i channel command reply_to send_data d)
