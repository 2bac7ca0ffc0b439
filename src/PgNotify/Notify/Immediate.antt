-- ===== src/PgNotify/Notify/Immediate.antt =====
-- The listening broker, which queues what is published, leaves the loop to send it and enters
-- again, against one that could send at any time.
use dispatcher_fork.Base.{
  ℕ, ◌≡◌, refl, true, Option, some, List, [], ◌∷◌, ◌++◌, String, arith, if◌then◌else◌, Result, ok,
  raises, Method, and_then, ◌>>=◌, return, Bool-cases, inl, inr, ◌&&◌, ◌+◌,
}
use dispatcher_fork.Json.{Value, object}
use dispatcher_fork.Brokered.{
  Origin, channel, Protocol, Service, Answer, produce, on_broker, notify, answer, is_text, text_of,
}
use dispatcher_fork.PgNotify.{Database, Error, self_check_lost, Broker, in_progress, aclose}
use dispatcher_fork.PgNotify.Notify.{
  apublish_message, after_yield, on_quiet, initiate_self_check, leave_loop, send_all,
  apublish_message_from_cursor, self_check_fields, is_in_progress,
}
use dispatcher_fork.PgNotify.Notify.Serving.{
  Event, received, quiet, listening, turn, serve, sent_to, sent_to-snoc,
}

-- To send at once.
abbrev pub post : Option String → String → Broker → Broker
post c m b = record b { sent = b.sent ++ (c, m) ∷ [] }

-- The loop entered, and nothing waits to be sent.
pub record IsListening (b : Broker) : Type 0 where
  pub active : b.notify_loop_active ≡ true
  pub clear : b.notify_queue ≡ []

-- A broker that sends at any time.
pub sending : Protocol Error Broker (Option String)
sending = record {
  apublish_message = λ c o m b. (ok tt, post c m b);
  aclose = λ now b. (aclose now b).1;
  listens_to = λ b o. true;
  destination = λ c o. c;
  outbox = λ b c. sent_to c b.sent;
  posts = λ b c o m h. (post c m b, refl, sent_to-snoc c m b.sent);
}

-- The self check, sent at once.
unfoldable pub check_at_once : (Value → String) → ℕ → Method Error Broker (Unit {0})
check_at_once dumps now b =
    if is_in_progress b.self_check_status then (raises self_check_lost, b) else (
      ok tt,
      record (post (some b.self_check_channel) (dumps (object (self_check_fields b.broker_id))) b) {
        self_check_status = in_progress;
        last_self_check_message_time = now;
      },
    )

module _ {D : Type 0} (dumps : Value → String)
    (process : Origin → String → Method Error (Service Broker D) Answer) where
  pub turn_at_once : Event → Method Error (Service Broker D) (Unit {0})
  unfolding sending check_at_once
  turn_at_once (received c payload) = produce sending process (channel c) payload
  turn_at_once (quiet now) = on_broker sending (check_at_once dumps now)

  pub serve_at_once : List Event → Method Error (Service Broker D) (Unit {0})
  unfolding turn_at_once
  serve_at_once [] = return tt
  serve_at_once (e ∷ es) = do _ ← turn_at_once e; serve_at_once es

module _ (db : Database) (accepts : (c : Option String) (m : String) → db.accepts c m ≡ true) where
  leave_loop-one :
      (b : Broker) (c : Option String) (m : String)
      → IsListening b
      → leave_loop db (record b { notify_queue = (c, m) ∷ [] }) ≡ (ok tt, post c m b)
  unfolding leave_loop send_all apublish_message_from_cursor
  leave_loop-one b c m h = ground (arith, accepts c m, h.active, h.clear)

  pub on_quiet-at_once :
      (dumps : Value → String) (now : ℕ) (b : Broker)
      → IsListening b
      → on_quiet db dumps now b ≡ check_at_once dumps now b
  unfolding on_quiet initiate_self_check apublish_message check_at_once
  on_quiet-at_once dumps now b h =
      let m = dumps (object (self_check_fields b.broker_id)) in
      let checked = record b {
        self_check_status = in_progress;
        last_self_check_message_time = now;
      } in
      ground (
        arith,
        h.active,
        h.clear,
        leave_loop-one checked (some b.self_check_channel) m
            (record { active = h.active; clear = h.clear }),
      )

  after_yield-waiting :
      (b : Broker) (c : Option String) (m : String)
      → IsListening b
      → after_yield db (record b { notify_queue = b.notify_queue ++ (c, m) ∷ [] })
        ≡ (ok tt, post c m b)
  unfolding after_yield
  after_yield-waiting b c m h = ground (arith, h.clear, leave_loop-one b c m h)

  after_yield-clear : (b : Broker) → IsListening b → after_yield db b ≡ (ok tt, b)
  unfolding after_yield
  after_yield-clear b h = rw (h.clear) refl

-- What the dispatcher does to the broker leaves it in the loop, with nothing to be sent.
abbrev pub KeepsListening : {A D : Type 0} → Result Error A × Service Broker D → Type 0
KeepsListening (ok a, s) = IsListening s.broker
KeepsListening (raises e, s) = Unit {0}

check_at_once-KeepsListening :
    {D : Type 0} (dumps : Value → String) (now : ℕ) (s : Service Broker D)
    → IsListening s.broker
    → KeepsListening (on_broker sending (check_at_once dumps now) s)
unfolding check_at_once
check_at_once-KeepsListening dumps now s h =
    elim (Bool-cases (is_in_progress s.broker.self_check_status)) [
      | inl e ↦ rw e tt
      | inr e ↦ rw e (record { active = h.active; clear = h.clear })
    ]

module _ {D : Type 0} (db : Database) (dumps : Value → String)
    (process : Origin → String → Method Error (Service Broker D) Answer)
    (accepts : (c : Option String) (m : String) → db.accepts c m ≡ true) where
  answer-at_once :
      (o : Origin) (r : Result Error Answer × Service Broker D)
      → KeepsListening r
      → (and_then
            (and_then r (answer (listening db) o))
            (λ _. on_broker (listening db) (after_yield db))
          ≡ and_then r (answer sending o))
        × KeepsListening (and_then r (answer sending o))
  unfolding answer notify listening sending apublish_message
  answer-at_once o (raises e, s) h = (refl, tt)
  answer-at_once o (ok (t, p), s) h = elim (Bool-cases (is_text t && is_text p)) [
    | inl e ↦ (
      ground (arith, e, h.active, after_yield-waiting db accepts s.broker t (text_of p) h),
      rw e (record { active = h.active; clear = h.clear }),
    )
    | inr e ↦ (ground (arith, e, after_yield-clear db accepts s.broker h), rw e h)
  ]

  module _
      (keeps : (o : Origin) (payload : String) (s : Service Broker D)
        → IsListening s.broker
        → KeepsListening (process o payload s)) where
    turn-turn_at_once :
        (e : Event) (s : Service Broker D)
        → IsListening s.broker
        → (turn db dumps process e s ≡ turn_at_once dumps process e s)
          × KeepsListening (turn_at_once dumps process e s)
    unfolding turn turn_at_once produce
    turn-turn_at_once (received c payload) s h =
        let p = s.producer in
        let counted = record s { producer = record p { produced_count = p.produced_count + 1 } } in
        answer-at_once (channel c) (process (channel c) payload counted)
          (keeps (channel c) payload counted h)
    turn-turn_at_once (quiet now) s h = (
      rw (on_quiet-at_once db accepts dumps now s.broker h) refl,
      check_at_once-KeepsListening dumps now s h,
    )

    serve-cons :
        (es : List Event)
        → ((s : Service Broker D)
            → IsListening s.broker
            → serve db dumps process es s ≡ serve_at_once dumps process es s)
        → (r : Result Error (Unit {0}) × Service Broker D) → KeepsListening r
        → and_then r (λ _. serve db dumps process es)
          ≡ and_then r (λ _. serve_at_once dumps process es)
    serve-cons es ih (ok a, s) h = ih s h
    serve-cons es ih (raises e, s) h = refl

    -- While the server takes every notification and the dispatcher leaves the queue of the
    -- broker alone, the loop of aprocess_notify, which queues a reply, leaves the listening to
    -- send the queue and enters again, refines a broker that sends every reply and self check at
    -- once: after any series of notifications and timeouts both have the same outcome and the
    -- same state, with every reply sent once, in order.
    pub serve-serve_at_once :
        (es : List Event) (s : Service Broker D)
        → IsListening s.broker
        → serve db dumps process es s ≡ serve_at_once dumps process es s
    unfolding serve serve_at_once
    serve-serve_at_once [] s h = refl
    serve-serve_at_once (e ∷ es) s h =
        let (same, left) = turn-turn_at_once e s h in
        rw same (serve-cons es (serve-serve_at_once es) (turn_at_once dumps process e s) left)
