-- ===== src/Brokered.antt =====
-- dispatcherd/producers/brokered.py over what dispatcherd/protocols.py asks of a broker: the
-- messages of a broker go to the dispatcher, and its answers back through the broker.
pub mod Posting
use dispatcher_fork.Base.{
  ℕ, ◌+◌, ◌≡◌, Bool, true, false, not, ◌&&◌, Option, none, some, List, [], ◌∷◌, ◌++◌, String,
  str_eq, if◌then◌else◌, Result, ok, raises, Method, and_then, ◌>>=◌,
}
use dispatcher_fork.AsyncTasks.{TaskState, running, returned, canceled, failed, is_done}

-- Where a message came from: a connected client, by its number, or a channel, by its name.
pub data Origin : Type 0 where
  client : ℕ → Origin
  channel : String → Origin

-- The methods of a broker that its producer calls, with what it relies on: in a state in which
-- the broker listens to the origin, a reply is taken, and is the next one for its destination;
-- the outbox of a destination holds what was sent to it and what waits to be sent, in order.
pub record Protocol (E S Destination : Type 0) : Type 0 where
  pub apublish_message : Option String → Origin → String → Method E S (Unit {0})
  pub aclose : ℕ → S → S
  pub listens_to : S → Origin → Bool
  pub destination : Option String → Origin → Destination
  pub outbox : S → Destination → List String
  pub posts :
      (s : S) (c : Option String) (o : Origin) (m : String)
      → listens_to s o ≡ true
      → (s' : S) × (apublish_message c o m s ≡ (ok tt, s'))
        × (outbox s' (destination c o) ≡ outbox s (destination c o) ++ m ∷ [])

-- `self.production_task and self.production_task.done()`
abbrev pub has_ended : Option TaskState → Bool
has_ended none = false
has_ended (some t) = is_done t

-- To await the task raises its exception.
abbrev pub has_failed : Option TaskState → Bool
has_failed none = false
has_failed (some running) = false
has_failed (some returned) = false
has_failed (some canceled) = false
has_failed (some failed) = true

-- `events` is flattened into `ready_event` and `recycle_event`.
pub record Producer : Type 0 where
  pub production_task : Option TaskState
  pub has_dispatcher : Bool
  pub produced_count : ℕ
  pub ready_event : Bool
  pub recycle_event : Bool

-- `BrokeredProducer.__init__` with that of the base class.
abbrev pub new_producer : Producer
new_producer = record {
  production_task = none;
  has_dispatcher = false;
  produced_count = 0;
  ready_event = false;
  recycle_event = false;
}

-- The producer, its broker and the dispatcher that it feeds.
pub record Service (S D : Type 0) : Type 0 where
  pub producer : Producer
  pub broker : S
  pub dispatcher : D

-- `start_producing`: a new task runs `produce_forever`.
unfoldable pub start_producing : Producer → Producer
start_producing p = record p { production_task = some running }

-- `self.dispatcher = dispatcher`, at the beginning of `produce_forever`.
pub begin_production : Producer → Producer
begin_production p = record p { has_dispatcher = true }

-- `connected_callback`, of which the dispatcher's part does nothing.
pub connected_callback : Producer → Producer
connected_callback p = record p { ready_event = true }

abbrev pub Answer : Type 0
Answer = Option String × Option String

abbrev pub is_text : Option String → Bool
is_text none = false
is_text (some s) = not (str_eq s "")

abbrev pub text_of : Option String → String
text_of none = ""
text_of (some s) = s

abbrev pub name_of : Origin → (ℕ → String) → String
name_of (client i) show = show i
name_of (channel c) show = c

module _ {E S Destination D : Type 0} (broker : Protocol E S Destination) where
  abbrev pub on_broker : {A : Type 0} → Method E S A → Method E (Service S D) A
  on_broker m s = let (r, b) = m s.broker in (r, record s { broker = b })

  -- `notify`
  unfoldable pub notify : Option String → Origin → String → Method E (Service S D) (Unit {0})
  notify c o m = on_broker (broker.apublish_message c o m)

  -- `if reply_to and reply_payload`
  unfoldable pub answer : Origin → Answer → Method E (Service S D) (Unit {0})
  unfolding notify
  answer o (reply_to, reply_payload) s =
      if is_text reply_to && is_text reply_payload
      then notify reply_to o (text_of reply_payload) s
      else (ok tt, s)

  -- `process` is `dispatcher.process_message`, which may call the broker for a self check.
  module _ (process : Origin → String → Method E (Service S D) Answer) where
    -- The body of the loop of `produce_forever`, for one message of the broker.
    unfoldable pub produce : Origin → String → Method E (Service S D) (Unit {0})
    unfolding answer
    produce o payload s =
        let p = s.producer in
        let counted = record s { producer = record p { produced_count = p.produced_count + 1 } } in
        and_then (process o payload counted) (answer o)

  -- `shutdown`: to await a canceled task ends quietly, one that failed raises its exception.
  unfoldable pub shutdown : ℕ → Service S D → Result (Unit {0}) (Unit {0}) × Service S D
  shutdown now s = if has_failed s.producer.production_task then (raises tt, s) else (
    ok tt,
    record s {
      producer = record (s.producer) { production_task = none };
      broker = broker.aclose now s.broker;
    },
  )

  -- `recycle`, from where its event is set; it raises when it is called while the production
  -- runs, and when no production has ever begun.
  unfoldable pub recycle : ℕ → Service S D → Result (Unit {0}) (Unit {0}) × Service S D
  unfolding shutdown start_producing
  recycle now s =
      let cleared = record (s.producer) { recycle_event = false } in
      if has_ended s.producer.production_task
      then (let forgotten = record s { producer = record cleared { production_task = none } } in
          and_then (shutdown now forgotten) (λ _ closed.
            if closed.producer.has_dispatcher
            then (ok tt, record closed { producer = start_producing closed.producer })
            else (raises tt, closed)))
      else (raises tt, record s { producer = cleared })
