-- ===== src/ControlClient.antt =====
-- dispatcherd/control.py: the sender of control messages. The broker that it builds for each call
-- is a parameter, as are `json.dumps` and `json.loads`.
pub mod Requests
pub mod Answers
pub mod Unaddressed
mod Tests
use dispatcher_fork.Base.{
  ℕ, ◌+◌, ◌≡◌, Bool, true, false, not, Option, none, some, List, [], ◌∷◌, ◌++◌, String, str_eq, map,
  length, leb, concat, if◌then◌else◌, Result, ok, raises, Method,
}
use dispatcher_fork.Json.{Value, str, object, Fields, end, field}

-- `Control.generate_reply_queue_name`, from the text of a uuid with `_` for `-`.
abbrev pub reply_queue_name : String → String
reply_queue_name uuid = concat "reply_to_" uuid

-- `if send_data: …` and `if reply_to: …`
abbrev pub with_data : Option Fields → Fields
with_data none = end
with_data (some end) = end
with_data (some (field k v fs)) = field "control_data" (object (field k v fs)) end

abbrev pub with_reply_to : Option String → Fields → Fields
with_reply_to none fs = fs
with_reply_to (some reply_to) fs =
    if str_eq reply_to "" then fs else field "reply_to" (str reply_to) fs

-- What `create_message` serializes.
pub message_fields : String → Option String → Option Fields → Fields
message_fields command reply_to send_data =
    field "control" (str command) (with_reply_to reply_to (with_data send_data))

-- The loop of `listen_for_replies` over the payloads that come before the timeout: the replies
-- received, and whether it returned.
pub listen_for_replies : ℕ → List String → List String → List String × Bool
listen_for_replies expected_replies received_replies [] = (received_replies, false)
listen_for_replies expected_replies received_replies (payload ∷ payloads) =
    let received = received_replies ++ payload ∷ [] in
    let rest = listen_for_replies expected_replies received payloads in
    if leb expected_replies (length received) then (received, true) else rest

-- What ends a call with an exception: the broker, or a reply that is no JSON.
pub data Failure (E : Type 0) : Type 0 where
  of_broker : E → Failure E
  bad_reply : Failure E

module _ (dumps : Value → String) (loads : String → Option Value) where
  pub create_message : String → Option String → Option Fields → String
  unfolding message_fields
  create_message command reply_to send_data =
      dumps (object (message_fields command reply_to send_data))

  pub parse_reply : String → Value
  parse_reply payload = elim (loads payload) [
    | some v ↦ v
    | none ↦ object (field "error" (str "JSON parse error") (field "original" (str payload) end))
  ]

  -- `parse_replies`
  pub parse_replies : List String → List Value
  unfolding parse_reply
  parse_replies received_replies = map parse_reply received_replies

  -- `json.loads` of each reply, which raises at the first that is no JSON.
  pub load_all : {E : Type 0} → List String → Result (Failure E) (List Value)
  load_all [] = ok []
  load_all (payload ∷ payloads) = elim (loads payload) [
    | none ↦ raises bad_reply
    | some v ↦ elim (load_all payloads) [ raises e ↦ raises e | ok vs ↦ ok (v ∷ vs) ]
  ]

  -- A broker: `publish` and `close` stand for its methods of either kind, those of asyncio or the
  -- others.
  module _ {E B : Type 0} (publish : Option String → String → Method E B (Unit {0})) (close : B → B)
      (queuename : Option String) where
    -- A call with the broker that always closes it.
    abbrev pub closing :
        {A C : Type 0} → (A → Result (Failure E) C) → Result E A × B → Result (Failure E) C × B
    closing f (ok a, b) = (f a, close b)
    closing f (raises e, b) = (raises (of_broker e), close b)

    -- `acontrol_with_reply`, with the payloads that come in time after the message was sent.
    pub acontrol_with_reply :
        String → String → ℕ → Option Fields → List String → B → Result (Failure E) (List Value) × B
    unfolding create_message parse_replies listen_for_replies
    acontrol_with_reply reply_queue command expected_replies send_data payloads b =
        closing (λ _. ok (parse_replies (listen_for_replies expected_replies [] payloads).0))
          (publish queuename (create_message command (some reply_queue) send_data) b)

    -- `control_with_reply`, with the payloads that `process_notify` yields.
    pub control_with_reply :
        String → String → Option Fields → List String → B → Result (Failure E) (List Value) × B
    unfolding create_message load_all
    control_with_reply reply_queue command send_data payloads b =
        closing (λ _. load_all payloads)
          (publish queuename (create_message command (some reply_queue) send_data) b)

    -- `acontrol`: its broker is given no channel.
    pub acontrol : String → Option Fields → B → Result (Failure E) (Unit {0}) × B
    unfolding create_message
    acontrol command send_data b =
        closing ok (publish none (create_message command none send_data) b)

    -- `control`
    pub control : String → Option Fields → B → Result (Failure E) (Unit {0}) × B
    unfolding create_message
    control command send_data b =
        closing ok (publish queuename (create_message command none send_data) b)
