-- ===== src/Socket/Server/Replies.antt =====
-- No reply to a client of the socket server is lost or sent twice, in whatever order the tasks of
-- the clients and the loop of the server take their steps.
use dispatcher_fork.Base.{ℕ, ◌≡◌, sym, ◌∙◌, some, List, [], ◌++◌, String, append-nil}
use dispatcher_fork.Socket.Server.{Client, Server, Phase, reading, waiting, draining, new_server}
use dispatcher_fork.Socket.Server.Served.{pending, ByPhase, IsFair, new_server-IsFair, served}
use dispatcher_fork.Socket.Server.Kept.{
  add_client-IsFair, remove_client-IsFair, aclose-IsFair, read_line-IsFair, begin_send-IsFair,
  end_send-IsFair, take-IsFair, forget-IsFair, apublish_message-IsFair, after_yield-IsFair,
}
use dispatcher_fork.Socket.Server.Steps.{
  Step, connects, reads, resumes, drains, leaves, takes, answers, finishes, closes, stops, Reach,
  here, next,
}

Step-IsFair : {s t : Server} → Step s t → IsFair s → IsFair t
Step-IsFair {s} connects h = add_client-IsFair s h
Step-IsFair {s} (reads i c m e p) h = read_line-IsFair s h i c e m p
Step-IsFair {s} (resumes i c e p set) h = begin_send-IsFair s h i c e p set
Step-IsFair {s} (drains i c e p) h = end_send-IsFair s h i c e p
Step-IsFair {s} (leaves i) h = remove_client-IsFair s h i
Step-IsFair {s} (takes i m rest none_is head) h = take-IsFair s h i m rest none_is head
Step-IsFair {s} (answers i m now) h = apublish_message-IsFair s i m h now
Step-IsFair {s} (finishes i now) h = after_yield-IsFair s i h now
Step-IsFair {s} closes h = aclose-IsFair s h
Step-IsFair {s} (stops rest none_is head) h = forget-IsFair s h rest none_is head

Reach-IsFair : {s t : Server} → IsFair s → Reach s t → IsFair t
Reach-IsFair h here = h
Reach-IsFair h (next r st) = Step-IsFair st (Reach-IsFair h r)

-- The replies that wait to be written: none is left behind once the task of the client sends.
abbrev pub waiting_replies : Phase → Client → List String
waiting_replies waiting c = c.replies_to_send
waiting_replies reading c = []
waiting_replies draining c = []

answered-written :
    (p : Phase) (c : Client) (n : ℕ) → ByPhase p c n → c.answered ≡ c.written ++ waiting_replies p c
answered-written waiting c n h = h.0
answered-written reading c n h = h.2 ∙ sym (append-nil c.written)
answered-written draining c n h = h.2 ∙ sym (append-nil c.written)

-- Whatever steps the clients and the loop of a new socket server have taken, a connected client
-- stands under its own number, and every reply that was meant for it has been written to it
-- once, in order, but for those in replies_to_send while it waits for yield_clear; none of them
-- is left when it reads its next line.
pub Reach-answered :
    (s : Server) (i : ℕ) (c : Client)
    → Reach new_server s
    → s.clients i ≡ some c
    → (c.client_id ≡ i) × (c.answered ≡ c.written ++ waiting_replies c.phase c)
Reach-answered s i c r e =
    let known = served s (Reach-IsFair new_server-IsFair r) i c e in
    (known.numbered, answered-written c.phase c (pending i s) known.phased)
