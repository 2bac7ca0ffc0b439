-- ===== src/Factories/Tests.antt =====
-- Settings with two brokers, of which one is the default for control.
use dispatcher_fork.Json.{Fields, str, object, array, cons, nil, field, end}
use dispatcher_fork.Config.{Settings}

abbrev settings : Settings
settings = record {
  brokers = object (
      field "pg_notify" (object (field "channels" (str "tasks") end))
        (field "socket" (object (field "socket_path" (str "demo.sock") end)) end));
  producers = object end;
  service = end;
  publish = object (
      field "default_broker" (str "pg_notify") (field "default_control_broker" (str "socket") end));
}

abbrev overrides : Fields
overrides = field "channels" (array (cons (str "reply") nil)) end

abbrev publisher_kwargs : Fields
publisher_kwargs = field "channels" (array (cons (str "reply") nil)) end

abbrev control_kwargs : Fields
control_kwargs =
    field "socket_path" (str "demo.sock") (field "channels" (array (cons (str "reply") nil)) end)
