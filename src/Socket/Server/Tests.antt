-- ===== src/Socket/Server/Tests.antt =====
-- A client connects, sends a line, and gets an answer that is still to be written.
use dispatcher_fork.Base.{ℕ, ◌≡◌, refl, true, some, [], ◌∷◌, ◌++◌, String, ok, Method}
use dispatcher_fork.Brokered.{Origin, client, Service, Answer, new_producer, produce}
use dispatcher_fork.Brokered.Posting.{counted, produce-Posted}
use dispatcher_fork.Socket.Server.Posting.{serving}
use dispatcher_fork.Socket.Server.{
  Client, Server, waiting, new_client, new_server, add_client, read_line, apublish_message, give,
}
use dispatcher_fork.Socket.Server.Steps.{Reach, here, next, connects, reads, takes, answers}
use dispatcher_fork.Socket.Server.Replies.{waiting_replies, Reach-answered}

abbrev after_line : Server
after_line = read_line 0 "{}" (add_client new_server)

abbrev at_hand : Server
at_hand = record after_line { incoming_queue = []; current = some 0 }

abbrev answered : Server
answered = apublish_message (client 0) "reply" at_hand

abbrev asking : Client
asking = give "reply" (record (new_client 0) { phase = waiting })

answered-Reach : Reach new_server answered
unfolding add_client read_line
answered-Reach =
    next
      (next (next (next here connects) (reads 0 (new_client 0) "{}" refl refl))
        (takes 0 "{}" [] refl refl))
      (answers 0 "reply" refl)

asking_is : answered.clients 0 ≡ some asking
unfolding add_client read_line apublish_message
asking_is = refl

Reach-answered_example :
    (asking.client_id ≡ 0)
    × (asking.answered ≡ asking.written ++ waiting_replies asking.phase asking)
Reach-answered_example = Reach-answered answered 0 asking answered-Reach asking_is

-- The dispatcher answers the line at hand.
abbrev says : Origin → String → Method (Unit {0}) (Service Server ℕ) Answer
says o payload s = (ok (some "client", some "reply"), s)

abbrev serving_line : Service Server ℕ
serving_line = record { producer = new_producer; broker = at_hand; dispatcher = 0 }

at_hand_listens : serving.listens_to at_hand (client 0) ≡ true
unfolding serving add_client read_line
at_hand_listens = refl

produce-Posted_example :
    (b : Server) × (produce serving says (client 0) "{}" serving_line
      ≡ (ok tt, record (counted serving_line) { broker = b }))
    × (serving.outbox b (serving.destination (some "client") (client 0))
        ≡ serving.outbox at_hand (serving.destination (some "client") (client 0)) ++ "reply" ∷ [])
produce-Posted_example =
    produce-Posted serving says (client 0) "{}" (some "client") (some "reply") serving_line
      (counted serving_line) refl refl at_hand_listens
