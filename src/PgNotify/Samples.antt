-- ===== src/PgNotify/Samples.antt =====
-- A server that takes everything, and a pg_notify broker with two channels that is at rest.
use dispatcher_fork.Base.{refl, true, false, none, some, [], ◌∷◌}
use dispatcher_fork.Json.{str, field, end}
use dispatcher_fork.PgNotify.{Database, Broker, Side, idle, check_ages}
use dispatcher_fork.PgNotify.Soundness.{IsSound}

-- Every call to the server works.
abbrev pub server : Database
server = record {
  is_closed = λ c. false;
  resolve = λ path. none;
  connect = λ config. some 1;
  accepts = λ c m. true;
  hears = λ c. true;
}

abbrev no_side : Side
no_side = record { connection_factory = none; connection = none; owns_connection = false }

abbrev pub broker_at_rest : Broker
broker_at_rest = record {
  broker_id = "broker_a";
  max_connection_idle_seconds = some 30;
  max_self_check_message_age_seconds = some 2;
  async_side = no_side;
  sync_side = no_side;
  config = field "dbname" (str "tasks") end;
  user_channels = "tasks" ∷ "broadcast" ∷ [];
  self_check_channel = "self_check_b";
  channels = "tasks" ∷ "broadcast" ∷ "self_check_b" ∷ [];
  default_publish_channel = some "tasks";
  self_check_status = idle;
  last_self_check_message_time = 5;
  notify_loop_active = false;
  notify_queue = [];
  sent = [];
}

pub broker_at_rest-IsSound : IsSound broker_at_rest
unfolding check_ages
broker_at_rest-IsSound = record {
  announced = refl;
  ages = refl;
  async_source = record { some_source = refl; owned = refl };
  sync_source = record { some_source = refl; owned = refl };
}

-- The same without channels of the user's and without a default.
abbrev pub bare_broker : Broker
bare_broker = record broker_at_rest {
  user_channels = [];
  channels = "self_check_b" ∷ [];
  default_publish_channel = none;
}

pub bare_broker-IsSound : IsSound bare_broker
unfolding check_ages
bare_broker-IsSound = record {
  announced = refl;
  ages = refl;
  async_source = record { some_source = refl; owned = refl };
  sync_source = record { some_source = refl; owned = refl };
}
