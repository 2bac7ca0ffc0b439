-- ===== src/PgNotify/Notify/Kept.antt =====
-- Each method of the pg_notify broker keeps it sound, also where it raises.
use dispatcher_fork.Base.{
  ℕ, ◌-◌, Bool, true, false, Option, none, some, List, [], ◌∷◌, ◌++◌, String, arith, all, ltb,
  if◌then◌else◌, Result, ok, raises, Bool-cases, inl, inr, Method, and_then,
}
use dispatcher_fork.Json.{Value, Fields, find, object}
use dispatcher_fork.PgNotify.{
  Database, Error, Side, Broker, Outgoing, open_connection, side_connection, close_side,
  is_unusable, aget_connection, get_connection, aclose, close, Status, in_progress, idle,
  self_check_late, self_check_lost,
}
use dispatcher_fork.PgNotify.Soundness.{HasSource, IsSound}
use dispatcher_fork.PgNotify.Notify.{
  apublish_message_from_cursor, apublish_message, publish_message, send_all, leave_loop,
  initiate_self_check, on_quiet, after_yield, begin_listening, verify_self_check, check_age, judge,
  mentions, is_in_progress, publish_channel, self_check_fields,
}

-- The fields that the messages change.
abbrev pub moved : List Outgoing → List Outgoing → Status → ℕ → Bool → Broker → Broker
moved sent queue status time active b = record b {
  sent = sent;
  notify_queue = queue;
  self_check_status = status;
  last_self_check_message_time = time;
  notify_loop_active = active;
}

moved-IsSound :
    (sent queue : List Outgoing) (status : Status) (time : ℕ) (active : Bool) (b : Broker)
    → IsSound b
    → IsSound (moved sent queue status time active b)
moved-IsSound sent queue status time active b h = record {
  announced = h.announced;
  ages = h.ages;
  async_source = h.async_source;
  sync_source = h.sync_source;
}

if-IsSound :
    {A : Type 0} (t : Bool) (x y : Result Error A × Broker)
    → IsSound x.1
    → IsSound y.1
    → IsSound (if t then x else y).1
if-IsSound true x y h k = h
if-IsSound false x y h k = k

then-IsSound :
    {A B : Type 0} (x : Result Error A × Broker) (f : A → Method Error Broker B)
    → IsSound x.1
    → ((a : A) (b : Broker) → IsSound b → IsSound (f a b).1)
    → IsSound (and_then x f).1
then-IsSound (ok a, b) f h k = k a b h
then-IsSound (raises e, b) f h k = h

module _ (db : Database) where
  open_connection-HasSource :
      (config : Fields) (side : Side)
      → HasSource config side
      → HasSource config (open_connection db config side).1
  unfolding open_connection
  open_connection-HasSource config side h = record {
    some_source = ground (arith, h.some_source);
    owned = ground (arith, h.owned);
  }

  side_connection-HasSource :
      (config : Fields) (side : Side)
      → HasSource config side
      → HasSource config (side_connection db config side).1
  unfolding side_connection
  side_connection-HasSource config side h = elim (Bool-cases (is_unusable db side.connection)) [
    | inl e ↦ rw (e, side_connection) (open_connection-HasSource config side h)
    | inr e ↦ rw (e, side_connection) h
  ]

  pub aget_connection-IsSound : (b : Broker) → IsSound b → IsSound (aget_connection db b).1
  unfolding aget_connection
  aget_connection-IsSound b h = record {
    announced = h.announced;
    ages = h.ages;
    async_source = side_connection-HasSource b.config b.async_side h.async_source;
    sync_source = h.sync_source;
  }

  pub get_connection-IsSound : (b : Broker) → IsSound b → IsSound (get_connection db b).1
  unfolding get_connection
  get_connection-IsSound b h = record {
    announced = h.announced;
    ages = h.ages;
    async_source = h.async_source;
    sync_source = side_connection-HasSource b.config b.sync_side h.sync_source;
  }

  cursor-IsSound :
      (c : Option String) (m : String) (b : Broker)
      → IsSound b
      → IsSound (apublish_message_from_cursor db c m b).1
  unfolding apublish_message_from_cursor
  cursor-IsSound c m b h =
      if-IsSound (db.accepts c m) (ok tt, record b { sent = b.sent ++ (c, m) ∷ [] }) _
        (moved-IsSound (b.sent ++ (c, m) ∷ []) b.notify_queue b.self_check_status
          b.last_self_check_message_time b.notify_loop_active b h)
        h

  channel-IsSound :
      (c : Option String) (m : String) (b : Broker)
      → IsSound b
      → IsSound
          (and_then (publish_channel db c b) (λ d. apublish_message_from_cursor db (some d) m)).1
  channel-IsSound c m b h =
      then-IsSound (publish_channel db c b) (λ d. apublish_message_from_cursor db (some d) m) h
        (λ d. cursor-IsSound (some d) m)

  pub publish_message-IsSound :
      (c : Option String) (m : String) (b : Broker)
      → IsSound b
      → IsSound (publish_message db c m b).1
  unfolding publish_message
  publish_message-IsSound c m b h =
      then-IsSound (get_connection db b) _ (get_connection-IsSound b h) (λ _. channel-IsSound c m)

  pub apublish_message-IsSound :
      (c : Option String) (m : String) (b : Broker)
      → IsSound b
      → IsSound (apublish_message db c m b).1
  unfolding apublish_message
  apublish_message-IsSound c m b h =
      if-IsSound b.notify_loop_active
        (ok tt, record b { notify_queue = b.notify_queue ++ (c, m) ∷ [] }) _
        (moved-IsSound b.sent (b.notify_queue ++ (c, m) ∷ []) b.self_check_status
          b.last_self_check_message_time b.notify_loop_active b h)
        (then-IsSound (aget_connection db b) _ (aget_connection-IsSound b h)
          (λ _. channel-IsSound c m))

  send_all-IsSound : (out : List Outgoing) (b : Broker) → IsSound b → IsSound (send_all db out b).1
  unfolding send_all
  send_all-IsSound [] b h = h
  send_all-IsSound ((c, m) ∷ rest) b h =
      then-IsSound (apublish_message_from_cursor db c m b) _ (cursor-IsSound c m b h)
        (λ _. send_all-IsSound rest)

  leave_loop-IsSound : (b : Broker) → IsSound b → IsSound (leave_loop db b).1
  unfolding leave_loop
  leave_loop-IsSound b h =
      then-IsSound (send_all db b.notify_queue (record b { notify_loop_active = false })) _
        (send_all-IsSound b.notify_queue (record b { notify_loop_active = false })
          (moved-IsSound b.sent b.notify_queue b.self_check_status b.last_self_check_message_time
            false b h))
        (λ _ b' h'.
          moved-IsSound b'.sent [] b'.self_check_status b'.last_self_check_message_time true b' h')

  pub after_yield-IsSound : (b : Broker) → IsSound b → IsSound (after_yield db b).1
  unfolding after_yield
  after_yield-IsSound b h = if-IsSound _ (leave_loop db b) (ok tt, b) (leave_loop-IsSound b h) h

  initiate_self_check-IsSound :
      (dumps : Value → String) (now : ℕ) (b : Broker)
      → IsSound b
      → IsSound (initiate_self_check db dumps now b).1
  unfolding initiate_self_check
  initiate_self_check-IsSound dumps now b h =
      let c = some b.self_check_channel in
      let m = dumps (object (self_check_fields b.broker_id)) in
      if-IsSound (is_in_progress b.self_check_status) (raises self_check_lost, b) _ h
        (then-IsSound (apublish_message db c m b) _ (apublish_message-IsSound c m b h) (λ _ b' h'.
          moved-IsSound b'.sent b'.notify_queue in_progress now b'.notify_loop_active b' h'))

  pub on_quiet-IsSound :
      (dumps : Value → String) (now : ℕ) (b : Broker)
      → IsSound b
      → IsSound (on_quiet db dumps now b).1
  unfolding on_quiet
  on_quiet-IsSound dumps now b h =
      then-IsSound (initiate_self_check db dumps now b) (λ _. leave_loop db)
        (initiate_self_check-IsSound dumps now b h) (λ _. leave_loop-IsSound)

  pub begin_listening-IsSound : (b : Broker) → IsSound b → IsSound (begin_listening db b).1
  unfolding begin_listening
  begin_listening-IsSound b h =
      then-IsSound (aget_connection db b) _ (aget_connection-IsSound b h) (λ _ b' h'.
        if-IsSound (all db.hears b'.channels) _ _
          (moved-IsSound b'.sent b'.notify_queue b'.self_check_status
            b'.last_self_check_message_time true b' h')
          h')

close_side-HasSource :
    (config : Fields) (side : Side) → HasSource config side → HasSource config (close_side side).1
unfolding close_side
close_side-HasSource config side h = record {
  some_source = ground (arith, h.some_source, h.owned);
  owned = ground (arith, h.owned);
}

pub aclose-IsSound : (now : ℕ) (b : Broker) → IsSound b → IsSound (aclose now b).1
unfolding aclose
aclose-IsSound now b h = record {
  announced = h.announced;
  ages = h.ages;
  async_source = close_side-HasSource b.config b.async_side h.async_source;
  sync_source = h.sync_source;
}

pub close-IsSound : (b : Broker) → IsSound b → IsSound (close b).1
unfolding close
close-IsSound b h = record {
  announced = h.announced;
  ages = h.ages;
  async_source = h.async_source;
  sync_source = close_side-HasSource b.config b.sync_side h.sync_source;
}

check_age-IsSound :
    (o : Option ℕ) (delta : ℕ) (b : Broker) → IsSound b → IsSound (check_age o delta b).1
unfolding check_age
check_age-IsSound none delta b h = h
check_age-IsSound (some age) delta b h =
    if-IsSound (ltb delta age) (ok tt, b) (raises self_check_late, b) h h

judge-IsSound : (o : Option Bool) (delta : ℕ) (b : Broker) → IsSound b → IsSound (judge o delta b).1
unfolding judge
judge-IsSound none delta b h = h
judge-IsSound (some false) delta b h = h
judge-IsSound (some true) delta b h =
    check_age-IsSound b.max_self_check_message_age_seconds delta _ (
      moved-IsSound b.sent b.notify_queue idle b.last_self_check_message_time b.notify_loop_active b
        h)

pub verify_self_check-IsSound :
    (now : ℕ) (message : Fields) (b : Broker)
    → IsSound b
    → IsSound (verify_self_check now message b).1
unfolding verify_self_check
verify_self_check-IsSound now message b h =
    judge-IsSound (mentions b.broker_id (find "task" message))
      (now - b.last_self_check_message_time) b h
