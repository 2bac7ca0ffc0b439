-- ===== src/Config.antt =====
-- dispatcherd/config.py: the settings, and where they are kept.
pub mod Serialized
mod Tests
use dispatcher_fork.Base.{
  ℕ, ◌≡◌, Bool, true, false, not, Option, none, some, String, str_eq, has_text, if◌then◌else◌,
}
use dispatcher_fork.Json.{
  Value, null, bool, num, str, array, object, Items, Fields, end, field, contains, find, get,
  get_or, put, equal, has_item,
}

-- `DispatcherSettings`; `version` is always 2.
pub record Settings : Type 0 where
  pub brokers : Value
  pub producers : Value
  pub service : Fields
  pub publish : Value

-- The default of `max_workers` in `pool_kwargs`; none is an exception. A list and a text that
-- hold the key pass the test for it and are left alone.
pub default_pool_kwargs : Value → Option Value
default_pool_kwargs (object fs) =
    some (object (if contains "max_workers" fs then fs else put "max_workers" (num 3) fs))
default_pool_kwargs (array vs) = if has_item "max_workers" vs then some (array vs) else none
default_pool_kwargs (str s) = if has_text "max_workers" s then some (str s) else none
default_pool_kwargs _ = none

-- `self.service` with its defaults, from the value under `service`.
pub default_service : Value → Option Fields
unfolding default_pool_kwargs
default_service (object fs) =
    let given = if contains "pool_kwargs" fs then fs else put "pool_kwargs" (object end) fs in
    elim (default_pool_kwargs (get "pool_kwargs" given)) [
      | none ↦ none
      | some kwargs ↦ some (put "pool_kwargs" kwargs given)
    ]
default_service _ = none

abbrev sections : Fields → Fields → Settings
sections config service = record {
  brokers = get_or "brokers" (object end) config;
  producers = get_or "producers" (object end) config;
  service = service;
  publish = get_or "publish" (object end) config;
}

-- `DispatcherSettings.__init__`: the settings, and what the config that was passed is afterwards,
-- since its section `service` is the very dict that gets the defaults.
pub new_settings : Fields → Option (Settings × Fields)
unfolding default_service get_or
new_settings config =
    if equal (get "version" config) (num 2)
    then elim (default_service (get_or "service" (object end) config)) [
      | none ↦ none
      | some service ↦ some (
        sections config service,
        if contains "service" config then put "service" (object service) config else config,
      )
    ]
    else none

-- `serialize`
pub serialize : Settings → Fields
serialize s = field "version" (num 2) (
    field "brokers" s.brokers (
      field "producers" s.producers
        (field "service" (object s.service) (field "publish" s.publish end))))

abbrev settings_of : Option (Settings × Fields) → Option Settings
settings_of none = none
settings_of (some (s, config)) = some s

abbrev wrap : Option Settings → Option Settings → Bool × Option Settings
wrap none wrapped = (false, wrapped)
wrap (some s) wrapped = (true, some s)

-- `load` reads and parses a file; `environment` is the value of DISPATCHERD_CONFIG_FILE.
module _ (load : String → Option Fields) (environment : Option String) where
  pub settings_from_file : String → Option Settings
  unfolding new_settings
  settings_from_file path = elim (load path) [
    | none ↦ none
    | some config ↦ settings_of (new_settings config)
  ]

  pub settings_from_env : Option Settings
  unfolding settings_from_file
  settings_from_env = elim environment [
    | none ↦ none
    | some path ↦ if str_eq path "" then none else settings_from_file path
  ]

  -- `LazySettings`: the settings for a look at one of them, and `_wrapped` after it.
  pub get_settings : Option Settings → Option Settings × Option Settings
  unfolding settings_from_env
  get_settings (some s) = (some s, some s)
  get_settings none = (settings_from_env, settings_from_env)

  -- `setup`: whether it returned, and `_wrapped` after it.
  pub setup : Option Fields → Option String → Option Settings → Bool × Option Settings
  unfolding settings_from_file settings_from_env
  setup (some (field k v fs)) file_path wrapped =
      wrap (settings_of (new_settings (field k v fs))) wrapped
  setup _ (some path) wrapped =
      wrap (if str_eq path "" then settings_from_env else settings_from_file path) wrapped
  setup _ none wrapped = wrap settings_from_env wrapped

-- `temporary_settings` around a body that may change `_wrapped` and may raise.
pub temporary_settings :
    {R : Type 0}
    → Fields
    → (Option Settings → Option R × Option Settings)
    → Option Settings
    → Option R × Option Settings
unfolding new_settings
temporary_settings config body prior = elim (new_settings config) [
  | none ↦ (none, prior)
  | some (s, _) ↦ ((body (some s)).0, prior)
]
