-- ===== src/PgNotify.antt =====
-- The `Broker` of dispatcherd/brokers/pg_notify.py: its state, its construction, its channels and
-- its connections. What psycopg does is an argument.
pub mod Notify
pub mod Soundness
pub mod Samples
mod Tests
use dispatcher_fork.Base.{
  ℕ, ◌≡◌, Bool, true, false, not, ◌&&◌, ◌||◌, Option, none, some, List, [], ◌∷◌, ◌++◌, String,
  concat, str_eq, any, ltb, length, if◌then◌else◌, ◌==◌, is_some, Result, ok, raises, Method,
}
use dispatcher_fork.Json.{Fields, end, field}

-- A psycopg connection, by its identity. The object itself is always true.
abbrev pub Connection : Type 0
Connection = ℕ

-- A connection factory: it is given the config and returns a connection, or raises.
abbrev pub Factory : Type 0
Factory = Fields → Option Connection

-- What comes from outside at a call: `is_closed` is `getattr(connection, "closed", 0) != 0`,
-- `resolve` is `resolve_callable`, whose outer none is an exception, `connect` opens a
-- connection with autocommit, `accepts` and `hears` tell whether the server takes a notification
-- and a LISTEN.
pub record Database : Type 0 where
  pub is_closed : Connection → Bool
  pub resolve : String → Option (Option Factory)
  pub connect : Factory
  pub accepts : Option String → String → Bool
  pub hears : String → Bool

pub data Status : Type 0 where
  idle in_progress : Status

-- The exceptions, by the place that raises them. `outside` is one that comes from psycopg or
-- from an import.
pub data Error : Type 0 where
  no_async_source no_sync_source no_message_age message_age_too_large : Error
  no_channel no_factory no_source self_check_lost self_check_late : Error
  outside : Error

-- The attributes of one of the two connections: `_async_connection_factory`,
-- `_async_connection`, `owns_async_connection`, and the same with `sync`.
pub record Side : Type 0 where
  pub connection_factory : Option String
  pub connection : Option Connection
  pub owns_connection : Bool

abbrev pub Outgoing : Type 0
Outgoing = Option String × String

-- `sent` is no attribute: it records the notifications that the server took, in order.
pub record Broker : Type 0 where
  pub broker_id : String
  pub max_connection_idle_seconds : Option ℕ
  pub max_self_check_message_age_seconds : Option ℕ
  pub async_side : Side
  pub sync_side : Side
  pub config : Fields
  pub user_channels : List String
  pub self_check_channel : String
  pub channels : List String
  pub default_publish_channel : Option String
  pub self_check_status : Status
  pub last_self_check_message_time : ℕ
  pub notify_loop_active : Bool
  pub notify_queue : List Outgoing
  pub sent : List Outgoing

-- The arguments of `__init__`.
pub record Settings : Type 0 where
  pub config : Option Fields
  pub async_connection_factory : Option String
  pub sync_connection_factory : Option String
  pub sync_connection : Option Connection
  pub async_connection : Option Connection
  pub channels : List String
  pub default_publish_channel : Option String
  pub max_connection_idle_seconds : Option ℕ
  pub max_self_check_message_age_seconds : Option ℕ

-- `bool` of an optional dict and text.
abbrev pub has_fields : Option Fields → Bool
has_fields none = false
has_fields (some end) = false
has_fields (some (field _ _ _)) = true

abbrev pub has_text_in : Option String → Bool
has_text_in none = false
has_text_in (some s) = not (str_eq s "")

-- The checks of the two ages: none where they pass.
pub check_ages : Option ℕ → Option ℕ → Option Error
check_ages none age = none
check_ages (some idle_seconds) none = if idle_seconds == 0 then none else some no_message_age
check_ages (some idle_seconds) (some age) =
    if idle_seconds == 0
    then none
    else if ltb idle_seconds age
    then some message_age_too_large
    else none

pub check_settings : Settings → Option Error
unfolding check_ages
check_settings s =
    if not
      (has_fields s.config || has_text_in s.async_connection_factory || is_some s.async_connection)
    then some no_async_source
    else if not
        (has_fields s.config || has_text_in s.sync_connection_factory || is_some s.sync_connection)
    then some no_sync_source
    else check_ages s.max_connection_idle_seconds s.max_self_check_message_age_seconds

-- `generate_self_check_channel_name`, from the text of a uuid with `_` for `-`.
abbrev pub self_check_channel_name : String → String
self_check_channel_name uuid = concat "self_check_" uuid

abbrev pub copy_config : Option Fields → Fields
copy_config none = end
copy_config (some fs) = fs

abbrev pub new_side : Option String → Option Connection → Side
new_side factory c = record {
  connection_factory = factory;
  connection = c;
  owns_connection = false;
}

-- `server_channels`
abbrev pub with_channel : String → List String → List String
with_channel c cs = if any (str_eq c) cs then cs else cs ++ c ∷ []

-- `Broker.__init__`: `uuid` and `uuid'` are the two fresh ones, `now` is the clock.
pub new_broker : String → String → ℕ → Settings → Result Error Broker
unfolding check_settings
new_broker uuid uuid' now s = elim (check_settings s) [
  | some e ↦ raises e
  | none ↦ ok (record {
    broker_id = concat "broker_" uuid;
    max_connection_idle_seconds = s.max_connection_idle_seconds;
    max_self_check_message_age_seconds = s.max_self_check_message_age_seconds;
    async_side = new_side s.async_connection_factory s.async_connection;
    sync_side = new_side s.sync_connection_factory s.sync_connection;
    config = copy_config s.config;
    user_channels = s.channels;
    self_check_channel = self_check_channel_name uuid';
    channels = with_channel (self_check_channel_name uuid') s.channels;
    default_publish_channel = s.default_publish_channel;
    self_check_status = idle;
    last_self_check_message_time = now;
    notify_loop_active = false;
    notify_queue = [];
    sent = [];
  })
]

-- `self.channels[0]`, for a broker with one channel of the user's.
abbrev first_channel : List String → Result Error String
first_channel [] = raises outside
first_channel (c ∷ cs) = ok c

-- The cases of `get_publish_channel`: the argument, the default, the channels.
channel_of : Option String → Option String → ℕ → List String → Result Error String
channel_of (some c) default user_channel_count cs = ok c
channel_of none (some d) user_channel_count cs = ok d
channel_of none none user_channel_count cs =
    if user_channel_count == 1 then first_channel cs else raises no_channel

-- `get_publish_channel`
pub get_publish_channel : Option String → Broker → Result Error String
unfolding channel_of
get_publish_channel c b = channel_of c b.default_publish_channel (length b.user_channels) b.channels

module _ (db : Database) where
  -- `not self._connection or getattr(self._connection, "closed", 0) != 0`
  abbrev pub is_unusable : Option Connection → Bool
  is_unusable none = true
  is_unusable (some c) = db.is_closed c

  abbrev keep : Option Connection → Bool → Side → Result Error Connection × Side
  keep none owns side = (raises outside, record side { owns_connection = owns })
  keep (some c) owns side = (ok c, record side { connection = some c; owns_connection = owns })

  -- The body under the test for a usable connection. A connection from a factory leaves
  -- `owns_connection` as it is; for one of its own the broker sets it before it connects.
  pub open_connection : Fields → Side → Result Error Connection × Side
  open_connection config side =
      if has_text_in side.connection_factory
      then elim side.connection_factory [
        | none ↦ (raises no_factory, side)
        | some path ↦ elim (db.resolve path) [
          | none ↦ (raises outside, side)
          | some none ↦ (raises no_factory, side)
          | some (some factory) ↦ keep (factory config) side.owns_connection side
        ]
      ]
      else if has_fields (some config)
      then keep (db.connect config) true side
      else (raises no_source, side)

  abbrev cached : Option Connection → Result Error Connection
  cached none = raises outside
  cached (some c) = ok c

  -- The common body of `aget_connection` and `get_connection`.
  pub side_connection : Fields → Side → Result Error Connection × Side
  unfolding open_connection
  side_connection config side =
      if is_unusable side.connection
      then open_connection config side
      else (cached side.connection, side)

  pub aget_connection : Method Error Broker Connection
  unfolding side_connection
  aget_connection b =
      let (r, side) = side_connection b.config b.async_side in (r, record b { async_side = side })

  pub get_connection : Method Error Broker Connection
  unfolding side_connection
  get_connection b =
      let (r, side) = side_connection b.config b.sync_side in (r, record b { sync_side = side })

-- The end of `aclose` and of `close`: only a connection that the broker owns is closed. The
-- first part is the connection that was closed.
pub close_side : Side → Option Connection × Side
close_side side =
    if side.owns_connection && is_some side.connection
    then (side.connection, record side { connection = none; owns_connection = false })
    else (none, side)

-- `aclose`
unfoldable pub aclose : ℕ → Broker → Option Connection × Broker
unfolding close_side
aclose now b =
    let (closed, side) = close_side b.async_side in
    (
      closed,
      record b {
        async_side = side;
        self_check_status = idle;
        last_self_check_message_time = now;
        notify_loop_active = false;
        notify_queue = [];
      },
    )

-- `close`
pub close : Broker → Option Connection × Broker
unfolding close_side
close b = let (closed, side) = close_side b.sync_side in (closed, record b { sync_side = side })

-- `connection_saver` and `async_connection_saver`, under their lock, each with its own saved
-- connection.
pub connection_saver : Database → Fields → Method Error (Option Connection) Connection
connection_saver db config saved =
    if is_unusable db saved
    then elim (db.connect config) [ none ↦ (raises outside, saved) | some c ↦ (ok c, some c) ]
    else (cached db saved, saved)
