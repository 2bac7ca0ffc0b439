-- ===== src/Config/Tests.antt =====
-- A config with one broker, and no word on the workers.
use dispatcher_fork.Base.{◌≡◌, refl, some}
use dispatcher_fork.Json.{Fields, num, object, field, end, put, get, get_or, find, contains}
use dispatcher_fork.Json.Equality.{equal_refl}
use dispatcher_fork.Config.{Settings, new_settings, serialize, default_service}
use dispatcher_fork.Config.Serialized.{new_settings-serialize}

abbrev config : Fields
config = field "version" (num 2) (field "brokers" (object (field "socket" (object end) end)) end)

abbrev settings : Settings
settings = record {
  brokers = object (field "socket" (object end) end);
  producers = object end;
  service = field "pool_kwargs" (object (field "max_workers" (num 3) end)) end;
  publish = object end;
}

config_settings : new_settings config ≡ some (settings, config)
unfolding new_settings default_service get_or get put find contains
config_settings = rw (equal_refl (num 2)) refl

new_settings-serialize_example :
    new_settings (serialize settings) ≡ some (settings, serialize settings)
new_settings-serialize_example = new_settings-serialize config config settings config_settings
