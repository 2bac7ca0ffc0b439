-- ===== src/Socket/Server/Posting.antt =====
-- The socket server as the broker of a producer: a reply goes to the client that asked.
use dispatcher_fork.Base.{
  ◌≡◌, refl, Bool, true, false, ◌&&◌, Option, none, some, List, [], ◌∷◌, ◌++◌, String, arith,
  ==_refl, ok, Option-cases, inl, inr, append_assoc,
}
use dispatcher_fork.Brokered.{Origin, client, channel, Protocol}
use dispatcher_fork.Socket.Server.{
  Client, Phase, reading, waiting, draining, Server, aclose, apublish_message, update_client, give,
}

abbrev is_waiting : Phase → Bool
is_waiting waiting = true
is_waiting reading = false
is_waiting draining = false

abbrev takes_replies : Option Client → Bool
takes_replies none = false
takes_replies (some c) = c.listen_loop_active && is_waiting c.phase

-- A client takes replies while it waits; to another channel they go over a new connection.
abbrev pub listens_to : Server → Origin → Bool
listens_to s (client i) = takes_replies (s.clients i)
listens_to s (channel c) = true

abbrev texts_of : Option Client → List String
texts_of none = []
texts_of (some c) = c.written ++ c.replies_to_send

abbrev pub outbox : Server → Origin → List String
outbox s (client i) = texts_of (s.clients i)
outbox s (channel c) = s.sent_as_client

give-texts :
    (m : String) (c : Client)
    → takes_replies (some c) ≡ true
    → texts_of (some (give m c)) ≡ texts_of (some c) ++ m ∷ []
give-texts m c h = ground (arith, h, append_assoc c.written c.replies_to_send (m ∷ []))

pub apublish_message-outbox :
    (s : Server) (o : Origin) (m : String)
    → listens_to s o ≡ true
    → outbox (apublish_message o m s) o ≡ outbox s o ++ m ∷ []
unfolding apublish_message
apublish_message-outbox s (channel c) m h = refl
apublish_message-outbox s (client i) m h = elim (Option-cases (s.clients i)) [
  | inl gone ↦ absurd (ground (arith, h, gone))
  | inr (c, e) ↦ rw (e, update_client, ==_refl i) (give-texts m c (ground (arith, h, e)))
]

unfoldable pub serving : Protocol (Unit {0}) Server Origin
serving = record {
  apublish_message = λ c o m s. (ok tt, apublish_message o m s);
  aclose = λ now s. aclose s;
  listens_to = listens_to;
  destination = λ c o. o;
  outbox = outbox;
  posts = λ s c o m h. (apublish_message o m s, refl, apublish_message-outbox s o m h);
}
