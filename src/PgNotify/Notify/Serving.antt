-- ===== src/PgNotify/Notify/Serving.antt =====
-- The pg_notify broker under its producer: `aprocess_notify` of dispatcherd/brokers/pg_notify.py
-- as the source of `produce_forever` of dispatcherd/producers/brokered.py.
use dispatcher_fork.Base.{
  ℕ, ◌≡◌, refl, Bool, true, false, Option, none, some, List, [], ◌∷◌, ◌++◌, String, arith, str_eq,
  str_eq_refl, ap, ◌∙◌, sym, append_assoc, if◌then◌else◌, ok, Method, ◌>>=◌, return,
}
use dispatcher_fork.Json.{Value}
use dispatcher_fork.Brokered.{Origin, channel, Protocol, Service, Answer, produce, on_broker}
use dispatcher_fork.PgNotify.{Database, Error, Outgoing, Broker, aclose}
use dispatcher_fork.PgNotify.Notify.{apublish_message, after_yield, on_quiet}

-- What happens to the listening broker: a notification, or the timeout without one.
pub data Event : Type 0 where
  received : String → String → Event
  quiet : ℕ → Event

abbrev same_channel : Option String → Option String → Bool
same_channel none none = true
same_channel none (some b) = false
same_channel (some a) none = false
same_channel (some a) (some b) = str_eq a b

same_channel_refl : (c : Option String) → same_channel c c ≡ true
same_channel_refl none = refl
same_channel_refl (some c) = str_eq_refl c

-- The texts for one channel, in order.
pub sent_to : Option String → List Outgoing → List String
sent_to c [] = []
sent_to c ((d, m) ∷ rest) = let more = sent_to c rest in if same_channel d c then m ∷ more else more

pub sent_to-snoc :
    (c : Option String) (m : String) (out : List Outgoing)
    → sent_to c (out ++ (c, m) ∷ []) ≡ sent_to c out ++ m ∷ []
unfolding sent_to
sent_to-snoc c m [] = rw (same_channel_refl c) refl
sent_to-snoc c m ((d, t) ∷ rest) = ground (arith, sent_to-snoc c m rest)

abbrev pub outbox : Broker → Option String → List String
outbox b c = sent_to c (b.sent ++ b.notify_queue)

-- While the broker listens, a reply is queued behind all that was sent and queued before.
pub apublish_message-posts :
    (db : Database) (b : Broker) (c : Option String) (m : String)
    → b.notify_loop_active ≡ true
    → (b' : Broker) × (apublish_message db c m b ≡ (ok tt, b'))
      × (outbox b' c ≡ outbox b c ++ m ∷ [])
unfolding apublish_message
apublish_message-posts db b c m h = (
  record b { notify_queue = b.notify_queue ++ (c, m) ∷ [] },
  rw h refl,
  ap (sent_to c) (sym (append_assoc b.sent b.notify_queue ((c, m) ∷ [])))
      ∙ sent_to-snoc c m (b.sent ++ b.notify_queue),
)

-- The broker as its producer sees it. The origin of a message plays no part.
unfoldable pub listening : Database → Protocol Error Broker (Option String)
listening db = record {
  apublish_message = λ c o m. apublish_message db c m;
  aclose = λ now b. (aclose now b).1;
  listens_to = λ b o. b.notify_loop_active;
  destination = λ c o. c;
  outbox = outbox;
  posts = λ b c o m h. apublish_message-posts db b c m h;
}

module _ {D : Type 0} (db : Database) (dumps : Value → String)
    (process : Origin → String → Method Error (Service Broker D) Answer) where
  -- One turn of the loop of `aprocess_notify` with the body of the loop that iterates it.
  unfoldable pub turn : Event → Method Error (Service Broker D) (Unit {0})
  unfolding listening
  turn (received c payload) = do
    _ ← produce (listening db) process (channel c) payload
    on_broker (listening db) (after_yield db)
  turn (quiet now) = on_broker (listening db) (on_quiet db dumps now)

  -- A run of the loop, which ends with the first exception.
  unfoldable pub serve : List Event → Method Error (Service Broker D) (Unit {0})
  unfolding turn
  serve [] = return tt
  serve (e ∷ es) = do _ ← turn e; serve es
