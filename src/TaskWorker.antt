-- ===== src/TaskWorker.antt =====
-- dispatcherd/worker/task.py: what runs in a worker subprocess.
pub mod Depth
pub mod Protocol
mod Tests
use dispatcher_fork.Base.{
  ℕ, zero, suc, max, ◌≡◌, Bool, true, false, ◌&&◌, ◌||◌, Option, none, some, List, [], ◌∷◌, String,
  str_eq, if◌then◌else◌, is_some,
}
use dispatcher_fork.Json.{
  Value, null, bool, num, str, array, object, Items, nil, cons, Fields, end, field, get, get_or,
  put, truthy,
}

-- What `run_callable` comes to: the value that the callable returns, or another object that is no
-- JSON value; "<cancel>" after a cancel signal; or an exception of the task or of its look-up.
pub data Call : Type 0 where
  returned : Value → Call
  returned_object : Call
  canceled : Call
  failed : Call

-- `raw_result`: the value that is returned or stands for the cancel, an exception, or any other
-- object.
pub data Raw : Type 0 where
  value : Value → Raw
  exception : Raw
  opaque : Raw

abbrev pub raw_of : Call → Raw
raw_of (returned v) = value v
raw_of returned_object = opaque
raw_of canceled = value (str "<cancel>")
raw_of failed = exception

abbrev pub has_failed : Call → Bool
has_failed failed = true
has_failed _ = false

-- `get_uuid`
abbrev pub get_uuid : Fields → Value
get_uuid message = get_or "uuid" (str "<unknown>") message

-- How deeply lists and dicts nest, not counting what stands under a key "uuid".
mutual
  pub depth : Value → ℕ
  depth (array vs) = suc (depth_items vs)
  depth (object fs) = suc (depth_fields fs)
  depth _ = zero

  pub depth_items : Items → ℕ
  depth_items nil = zero
  depth_items (cons v vs) = max (depth v) (depth_items vs)

  pub depth_fields : Fields → ℕ
  depth_fields end = zero
  depth_fields (field k v fs) =
      let rest = depth_fields fs in if str_eq k "uuid" then rest else max (depth v) rest

-- What a `for` loop over `message.get(key, []) or []` iterates over. A text or a dict gives
-- texts, to which `callback['uuid'] = …` is a TypeError, and so is the loop over a number.
pub data Callbacks : Type 0 where
  listed : Items → Callbacks
  type_error : Callbacks

abbrev callbacks_of : Value → Callbacks
callbacks_of (array vs) = listed vs
callbacks_of v = if truthy v then type_error else listed nil

pub callbacks_at : String → Fields → Callbacks
callbacks_at key message = callbacks_of (get key message)

-- `call` runs the callable of a message in the state of the Python process.
module _ {S : Type 0} (call : Fields → S → Call × S) where
  -- One of the loops of `perform_work` over callbacks; false where an exception leaves it.
  pub each : (Fields → S → Option Raw × S) → Value → Items → S → Bool × S
  each perform uuid nil s = (true, s)
  each perform uuid (cons (object fs) vs) s =
      let (result, s') = perform (put "uuid" uuid fs) s in
      let rest = each perform uuid vs s' in if is_some result then rest else (false, s')
  each perform uuid (cons _ vs) s = (false, s)

  pub run_callbacks : (Fields → S → Option Raw × S) → Value → Callbacks → S → Bool × S
  unfolding each
  run_callbacks perform uuid (listed vs) s = each perform uuid vs s
  run_callbacks perform uuid type_error s = (false, s)

  -- `perform_work` on fuel; none where an exception leaves it.
  pub perform_fueled : ℕ → Fields → S → Option Raw × S
  unfolding run_callbacks callbacks_at
  perform_fueled zero message s = (none, s)
  perform_fueled (suc fuel) message s =
      let (outcome, s') = call message s in
      let errbacks = if has_failed outcome then callbacks_at "errbacks" message else listed nil in
      let (errbacks_ran, s'') =
        run_callbacks (perform_fueled fuel) (get_uuid message) errbacks s' in
      let (callbacks_ran, s''') =
        run_callbacks (perform_fueled fuel) (get_uuid message) (callbacks_at "callbacks" message)
          s'' in
      if errbacks_ran
      then (if callbacks_ran then (some (raw_of outcome), s''') else (none, s'''))
      else (none, s'')

  -- `perform_work`. A callback nests less deeply than the message that it stands in.
  pub perform_work : Fields → S → Option Raw × S
  unfolding perform_fueled
  perform_work message s = perform_fueled (suc (depth_fields message)) message s

-- `type(raw_result) in (type(None), list, dict, int, str)`: a bool is not among them.
abbrev pub result_of : Raw → Value
result_of (value (bool b)) = null
result_of (value v) = v
result_of exception = null
result_of opaque = null

pub get_finished_message : ℕ → Raw → Fields → ℕ → ℕ → Fields
get_finished_message worker_id raw_result message time_started time_finish =
    let times =
      field "time_started" (num time_started) (field "time_finish" (num time_finish) end) in
    let result = field "result" (result_of raw_result) (field "uuid" (get_uuid message) times) in
    field "worker" (num worker_id) (field "event" (str "done") result)

pub get_ready_message : ℕ → Fields
get_ready_message worker_id = field "worker" (num worker_id) (field "event" (str "ready") end)

pub get_shutdown_message : ℕ → Fields
get_shutdown_message worker_id = field "worker" (num worker_id) (field "event" (str "shutdown") end)

-- What `message_queue.get()` gives: a dict, a text, or one of its exceptions: the signal that
-- cancels a task, an empty queue, or any other.
pub data Arrival : Type 0 where
  message : Fields → Arrival
  text : String → Arrival
  cancel_signal : Arrival
  queue_empty : Arrival
  broken : Arrival

-- One round of the loop: whether the parent has gone or an exit signal came, and what arrives,
-- with the times at the start and at the end of the task.
pub record Round : Type 0 where
  pub should_exit : Bool
  pub arrival : Arrival
  pub time_started : ℕ
  pub time_finish : ℕ

-- What a message asks of the loop.
pub data Order : Type 0 where
  perform : Fields → Order
  go_on : Order
  leave : Order
  crash : Order

-- Whether the loop goes on after the rounds, has come to its end, or was left by an exception.
pub data End : Type 0 where
  in_loop at_end by_crash : End

-- What the loop puts on the finished queue, and how it ends.
pub record Sent : Type 0 where
  pub reports : List Fields
  pub how : End

-- `lower` is `str.lower`, and `loads` is `json.loads`, none where it raises.
module _ (lower : String → String) (loads : String → Option Value) where
  -- A message that is neither a dict nor JSON for one crashes the loop: `perform_work` catches
  -- what `message['task']` raises, but not what `message.get` does.
  order_of_value : Value → Order
  order_of_value (object fs) = perform fs
  order_of_value _ = crash

  pub order_of : Arrival → Order
  unfolding order_of_value
  order_of (message fs) = perform fs
  order_of (text s) =
      if str_eq (lower s) "stop"
      then leave
      else elim (loads s) [ none ↦ leave | some v ↦ order_of_value v ]
  order_of cancel_signal = go_on
  order_of queue_empty = go_on
  order_of broken = leave

  -- The loop, over the rounds that the process lives
  -- through.
  pub work_rounds : {S : Type 0} → (Fields → S → Call × S) → ℕ → List Round → S → Sent
  unfolding order_of perform_work
  work_rounds call worker_id [] s = record { reports = []; how = in_loop }
  work_rounds call worker_id (r ∷ rs) s =
      let shutdown : Sent = record {
        reports = get_shutdown_message worker_id ∷ [];
        how = at_end;
      } in
      if r.should_exit then shutdown else elim (order_of r.arrival) [
        | leave ↦ shutdown
        | crash ↦ record { reports = []; how = by_crash }
        | go_on ↦ work_rounds call worker_id rs s
        | perform fs ↦
            let (result, s') = perform_work call fs s in
            let rest = work_rounds call worker_id rs s' in
            elim result [
              | none ↦ record { reports = []; how = by_crash }
              | some raw ↦ record {
                reports =
                    get_finished_message worker_id raw fs r.time_started r.time_finish
                    ∷ rest.reports;
                how = rest.how;
              }
            ]
      ]

  -- `work_loop`
  pub work_loop : {S : Type 0} → (Fields → S → Call × S) → ℕ → List Round → S → Sent
  unfolding work_rounds
  work_loop call worker_id rs s =
      let sent = work_rounds call worker_id rs s in
      record { reports = get_ready_message worker_id ∷ sent.reports; how = sent.how }
