-- ===== src/Socket/Server.antt =====
-- The server side of dispatcherd/brokers/socket.py: the clients, what their tasks do between two
-- awaits, the loop of `aprocess_notify`, and where `apublish_message` sends a text.
pub mod Steps
pub mod Served
mod Clients
mod Kept
pub mod Replies
pub mod Posting
mod Tests
use dispatcher_fork.Base.{
  ℕ, ◌+◌, ◌≡◌, refl, Bool, true, false, ◌&&◌, not, Option, none, some, List, [], ◌∷◌, ◌++◌, String,
  ◌==◌, if◌then◌else◌, Result, ok, raises, Method, arith, is_some,
}
use dispatcher_fork.Brokered.{Origin, client, channel, Protocol}

-- Where the task of a client is: it reads a line, waits for `yield_clear`, or drains its writer.
pub data Phase : Type 0 where
  reading waiting draining : Phase

-- `Client`. Three fields are records of ours: `answered` holds what `apublish_message` was given
-- for it, `written` what was written to it, and `phase` tells where its task is. A client is
-- listened to from the first lines of its task on.
pub record Client : Type 0 where
  pub client_id : ℕ
  pub listen_loop_active : Bool
  pub yield_clear : Bool
  pub replies_to_send : List String
  pub answered : List String
  pub written : List String
  pub phase : Phase

abbrev pub new_client : ℕ → Client
new_client i = record {
  client_id = i;
  listen_loop_active = true;
  yield_clear = false;
  replies_to_send = [];
  answered = [];
  written = [];
  phase = reading;
}

-- `write`
abbrev pub write : String → Client → Client
write m c = record c { written = c.written ++ m ∷ [] }

-- `queue_reply`
abbrev pub queue_reply : String → Client → Client
queue_reply m c = record c { replies_to_send = c.replies_to_send ++ m ∷ [] }

-- `send_replies` up to its await: the loop over a copy of the list writes each reply.
pub write_all : List String → Client → Client
write_all [] c = c
write_all (m ∷ ms) c = write_all ms (write m c)

pub begin_send : Client → Client
unfolding write_all
begin_send c = write_all c.replies_to_send (record c { yield_clear = false; phase = draining })

-- The end of `send_replies`, and the next round of the task.
pub end_send : Client → Client
end_send c = record c { replies_to_send = []; phase = reading }

-- What is put on `incoming_queue`: a line of a client, or the sign from `aclose`.
pub data Item : Type 0 where
  line : ℕ → String → Item
  stop : Item

-- `Broker`. `clients` is a dict by number; `current` is the client whose message the consumer of
-- `aprocess_notify` holds; `sent_as_client` records what was sent over a connection of its own.
pub record Server : Type 0 where
  pub client_ct : ℕ
  pub clients : ℕ → Option Client
  pub incoming_queue : List Item
  pub current : Option ℕ
  pub sent_as_client : List String

abbrev pub new_server : Server
new_server = record {
  client_ct = 0;
  clients = λ _. none;
  incoming_queue = [];
  current = none;
  sent_as_client = [];
}

-- `self.clients[i] = o`, or `del self.clients[i]`
abbrev pub set_client : ℕ → Option Client → Server → Server
set_client i o s = record s { clients = λ j. if i == j then o else s.clients j }

abbrev pub update_client : ℕ → (Client → Client) → Server → Server
update_client i f s = elim (s.clients i) [ none ↦ s | some c ↦ set_client i (some (f c)) s ]

-- The beginning of `_add_client`.
pub add_client : Server → Server
add_client s =
    set_client s.client_ct (some (new_client s.client_ct))
      (record s { client_ct = s.client_ct + 1 })

-- A line was read: it is passed on, and the task waits.
pub read_line : ℕ → String → Server → Server
read_line i m s =
    update_client i (λ c. record c { phase = waiting })
      (record s { incoming_queue = s.incoming_queue ++ line i m ∷ [] })

-- The `finally` of `_add_client`, after a disconnect, a timeout or any other exception.
pub remove_client : ℕ → Server → Server
remove_client i s = set_client i none s

-- `aclose`
pub aclose : Server → Server
aclose s = record s { incoming_queue = s.incoming_queue ++ stop ∷ [] }

-- What follows a yield in `aprocess_notify`.
pub after_yield : ℕ → Server → Server
after_yield i s =
    update_client i (λ c. record c { yield_clear = true }) (record s { current = none })

-- The `finally` of `aprocess_notify`, as far as the dict of clients goes.
pub forget_clients : Server → Server
forget_clients s = record s { clients = λ _. none; current = none }

abbrev pub give : String → Client → Client
give m c =
    let noted = record c { answered = c.answered ++ m ∷ [] } in
    if c.listen_loop_active then queue_reply m noted else write m noted

-- `apublish_message`, where a connection of its own does not fail. The channel plays no part.
pub apublish_message : Origin → String → Server → Server
apublish_message (client i) m s = update_client i (give m) s
apublish_message (channel _) m s = record s { sent_as_client = s.sent_as_client ++ m ∷ [] }
