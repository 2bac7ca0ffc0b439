-- ===== src/Socket/Server/Steps.antt =====
-- The steps of the socket server between two awaits, in any order that the event loop takes.
use dispatcher_fork.Base.{ℕ, ◌≡◌, true, none, some, List, ◌∷◌, String}
use dispatcher_fork.Brokered.{client}
use dispatcher_fork.Socket.Server.{
  Client, Item, line, stop, Server, reading, waiting, draining, add_client, read_line,
  remove_client, aclose, after_yield, forget_clients, apublish_message, begin_send, end_send,
  update_client,
}

pub data Step (s : Server) : Server → Type 0 where
  connects : Step s (add_client s)
  reads :
      (i : ℕ) (c : Client) (m : String)
      → s.clients i ≡ some c
      → c.phase ≡ reading
      → Step s (read_line i m s)
  resumes :
      (i : ℕ) (c : Client)
      → s.clients i ≡ some c
      → c.phase ≡ waiting
      → c.yield_clear ≡ true
      → Step s (update_client i begin_send s)
  drains :
      (i : ℕ) (c : Client)
      → s.clients i ≡ some c
      → c.phase ≡ draining
      → Step s (update_client i end_send s)
  leaves : (i : ℕ) → Step s (remove_client i s)
  takes :
      (i : ℕ) (m : String) (rest : List Item)
      → s.current ≡ none
      → s.incoming_queue ≡ line i m ∷ rest
      → Step s (record s { incoming_queue = rest; current = some i })
  answers : (i : ℕ) (m : String) → s.current ≡ some i → Step s (apublish_message (client i) m s)
  finishes : (i : ℕ) → s.current ≡ some i → Step s (after_yield i s)
  closes : Step s (aclose s)
  stops :
      (rest : List Item)
      → s.current ≡ none
      → s.incoming_queue ≡ stop ∷ rest
      → Step s (forget_clients (record s { incoming_queue = rest }))

pub data Reach (s : Server) : Server → Type 0 where
  here : Reach s s
  next : {t u : Server} → Reach s t → Step t u → Reach s u
