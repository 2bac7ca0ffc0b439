-- ===== src/PgNotify/Notify/Publishing.antt =====
-- What one call to publish sends, outside the loop of `aprocess_notify`.
use dispatcher_fork.Base.{
  ◌≡◌, refl, Bool, false, Option, none, some, List, [], ◌∷◌, ◌++◌, String, arith, if◌then◌else◌,
  Result, ok, raises, Bool-cases, inl, inr, and_then, length, Method, ◌∙◌, ap,
}
use dispatcher_fork.PgNotify.{
  Database, Error, no_channel, Broker, aget_connection, get_connection, get_publish_channel,
  with_channel, channel_of, Connection,
}
use dispatcher_fork.PgNotify.Soundness.{IsSound}
use dispatcher_fork.PgNotify.Notify.Kept.{get_connection-IsSound, aget_connection-IsSound}
use dispatcher_fork.PgNotify.Notify.{
  apublish_message_from_cursor, apublish_message, publish_message, publish_channel,
}

-- The channel of a message: that of the call, else the default, else the only one of the user's.
abbrev pub chosen : Option String → Option String → List String → Option String
chosen (some c) default cs = some c
chosen none (some d) cs = some d
chosen none none [] = none
chosen none none (c ∷ []) = some c
chosen none none (c ∷ d ∷ cs) = none

abbrev named : Option String → Result Error String
named none = raises no_channel
named (some c) = ok c

channel_of-chosen :
    (c d : Option String) (own : String) (cs : List String)
    → channel_of c d (length cs) (with_channel own cs) ≡ named (chosen c d cs)
unfolding channel_of
channel_of-chosen (some c) d own cs = refl
channel_of-chosen none (some d) own cs = refl
channel_of-chosen none none own [] = refl
channel_of-chosen none none own (c ∷ []) = ground arith
channel_of-chosen none none own (c ∷ d ∷ cs) = ground arith

get_publish_channel-chosen :
    (c : Option String) (b : Broker)
    → IsSound b
    → get_publish_channel c b ≡ named (chosen c b.default_publish_channel b.user_channels)
unfolding get_publish_channel
get_publish_channel-chosen c b h =
    ap (channel_of c b.default_publish_channel (length b.user_channels)) h.announced
    ∙ channel_of-chosen c b.default_publish_channel b.self_check_channel b.user_channels

-- What a call to publish did: it sent the one message, on the channel chosen for it, or nothing.
abbrev pub Published : Option String → String → Broker → Result Error (Unit {0}) × Broker → Type 0
Published c m b (ok _, b') =
    (ch : String) × (chosen c b.default_publish_channel b.user_channels ≡ some ch)
    × (b'.sent ≡ b.sent ++ (some ch, m) ∷ [])
    × (b'.notify_queue ≡ b.notify_queue)
Published c m b (raises e, b') = (b'.sent ≡ b.sent) × (b'.notify_queue ≡ b.notify_queue)

module _ (db : Database) (c : Option String) (m : String) where
  cursor-Published :
      (ch : String) (b : Broker)
      → chosen c b.default_publish_channel b.user_channels ≡ some ch
      → Published c m b (apublish_message_from_cursor db (some ch) m b)
  unfolding apublish_message_from_cursor
  cursor-Published ch b e = elim (Bool-cases (db.accepts (some ch) m)) [
    | inl t ↦ rw t (ch, e, refl, refl)
    | inr t ↦ rw t (refl, refl)
  ]

  abbrev on_channel : Method Error Broker (Unit {0})
  on_channel b =
      and_then (publish_channel db c b) (λ ch. apublish_message_from_cursor db (some ch) m)

  named-Published :
      (o : Option String) (b : Broker)
      → chosen c b.default_publish_channel b.user_channels ≡ o
      → Published c m b (and_then (named o, b) (λ ch. apublish_message_from_cursor db (some ch) m))
  named-Published none b e = (refl, refl)
  named-Published (some ch) b e = cursor-Published ch b e

  connected-Published :
      (r : Result Error Connection) (b : Broker)
      → IsSound b
      → Published c m b (and_then (r, b) (λ _. on_channel))
  connected-Published (raises e) b h = (refl, refl)
  connected-Published (ok x) b h =
      rw (get_publish_channel-chosen c b h)
        (named-Published (chosen c b.default_publish_channel b.user_channels) b refl)

  if-Published :
      (b : Broker) (t : Bool) (x y : Result Error (Unit {0}) × Broker)
      → t ≡ false
      → Published c m b y
      → Published c m b (if t then x else y)
  if-Published b t x y e h = rw e h

  -- Out of the loop, apublish_message of a sound broker sends its one message and returns, or
  -- sends nothing and raises; the channel is that of the call, else the default, else the only
  -- one of the user's channels. publish_message does the same on the other connection.
  pub publish_message-Published :
      (b : Broker)
      → IsSound b
      → b.notify_loop_active ≡ false
      → Published c m b (publish_message db c m b) × Published c m b (apublish_message db c m b)
  unfolding publish_message apublish_message get_connection aget_connection
  publish_message-Published b h out = (
    connected-Published (get_connection db b).0 (get_connection db b).1
        (get_connection-IsSound db b h),
    if-Published b b.notify_loop_active _ _ out (
        connected-Published (aget_connection db b).0 (aget_connection db b).1
          (aget_connection-IsSound db b h)),
  )
