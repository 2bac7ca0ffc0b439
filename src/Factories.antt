-- ===== src/Factories.antt =====
-- dispatcherd/factories.py, and `get_broker` of dispatcherd/brokers/__init__.py: what is built
-- from the settings, as the class and the keyword arguments of each object. A class of ours that
-- is looked up by its name, and then called, is a parameter of none of these functions: the
-- names and arguments are their results.
pub mod Publisher
mod Tests
use dispatcher_fork.Base.{
  ℕ, ◌≡◌, Bool, true, false, not, Option, none, some, List, [], ◌∷◌, ◌++◌, String, str_eq,
  if◌then◌else◌, map,
}
use dispatcher_fork.Json.{
  Value, null, bool, num, str, array, object, Fields, end, field, contains, find, get, get_or, put,
  update,
}
use dispatcher_fork.Config.{Settings}

-- `d[name]` for a section that is a dict of dicts; none is an exception.
pub section_at : Value → String → Option Fields
section_at (object fs) name = elim (find name fs) [ some (object config) ↦ some config | _ ↦ none ]
section_at _ name = none

-- `get_broker`: the keyword arguments for the broker's class.
pub get_broker : Fields → Fields → Fields
get_broker broker_config overrides = update broker_config overrides

abbrev named : Value → Option String
named (str name) = some name
named _ = none

-- `settings.publish[key]`, where it is there.
pub published_name : String → Value → Option String
published_name key (object fs) = elim (find key fs) [ none ↦ none | some v ↦ named v ]
published_name key _ = none

abbrev pub has_key : String → Value → Bool
has_key key (object fs) = contains key fs
has_key key _ = false

-- The cases after an explicit name: the only broker, else the default of the publish section.
pub configured_name : Value → Value → Option String
unfolding published_name
configured_name (object (field name v end)) publish = some name
configured_name (object _) publish = published_name "default_broker" publish
configured_name _ publish = none

-- `_get_publisher_broker_name`. A section that is no dict, and a default that is no text, end
-- with an exception here or where the broker is then looked up.
pub get_publisher_broker_name : Option String → Settings → Option String
unfolding configured_name
get_publisher_broker_name none s = configured_name s.brokers s.publish
get_publisher_broker_name (some name) s =
    if str_eq name "" then configured_name s.brokers s.publish else some name

abbrev with_config : Option String → Value → Option (String × Fields)
with_config none brokers = none
with_config (some name) brokers = elim (section_at brokers name) [
  | none ↦ none
  | some config ↦ some (name, config)
]

abbrev overridden : Fields → Option (String × Fields) → Option (String × Fields)
overridden overrides none = none
overridden overrides (some (name, config)) = some (name, get_broker config overrides)

-- `get_publisher_from_settings`: the module of the broker and its keyword arguments.
unfoldable pub get_publisher_from_settings :
    Option String → Settings → Fields → Option (String × Fields)
unfolding get_publisher_broker_name section_at get_broker
get_publisher_from_settings publish_broker s overrides =
    overridden overrides (with_config (get_publisher_broker_name publish_broker s) s.brokers)

-- `get_control_from_settings`: the arguments of `Control`.
pub get_control_from_settings : Option String → Settings → Fields → Option (String × Fields)
unfolding get_publisher_broker_name section_at get_broker published_name
get_control_from_settings publish_broker s overrides = overridden overrides (
    with_config
      (if has_key "default_control_broker" s.publish
        then published_name "default_control_broker" s.publish
        else get_publisher_broker_name publish_broker s)
      s.brokers)

-- The brokers of the settings, each with its keyword arguments.
pub broker_kwargs : Fields → Option (List (String × Fields))
broker_kwargs end = some []
broker_kwargs (field name (object config) rest) = elim (broker_kwargs rest) [
  | none ↦ none
  | some more ↦ some ((name, update config end) ∷ more)
]
broker_kwargs (field name _ rest) = none

-- `brokers_from_settings`
pub brokers_from_settings : Settings → Option (List (String × Fields))
unfolding broker_kwargs
brokers_from_settings s = elim s.brokers [ object fs ↦ broker_kwargs fs | _ ↦ none ]

-- A producer for a broker, or one of a class of dispatcherd/producers with its arguments.
pub data ProducerPlan : Type 0 where
  brokered : String → Fields → ProducerPlan
  instance_of : String → Fields → ProducerPlan

pub other_producers : Fields → Option (List ProducerPlan)
other_producers end = some []
other_producers (field cls (object kwargs) rest) = elim (other_producers rest) [
  | none ↦ none
  | some more ↦ some (instance_of cls kwargs ∷ more)
]
other_producers (field cls _ rest) = none

abbrev brokered_of : String × Fields → ProducerPlan
brokered_of (name, kwargs) = brokered name kwargs

-- `producers_from_settings`
pub producers_from_settings : Settings → Option (List ProducerPlan)
unfolding brokers_from_settings other_producers
producers_from_settings s = elim (brokers_from_settings s) [
  | none ↦ none
  | some brokers ↦ elim s.producers [
    | object fs ↦ elim (other_producers fs) [
      | none ↦ none
      | some others ↦ some (map brokered_of brokers ++ others)
    ]
    | _ ↦ none
  ]
]

-- `process_manager_from_settings`: the class and its keyword arguments, but for `settings`.
pub process_manager_from_settings : Settings → Option (String × Fields)
process_manager_from_settings s =
    elim (named (get_or "process_manager_cls" (str "ForkServerManager") s.service)) [
      | none ↦ none
      | some cls_name ↦ elim (get_or "process_manager_kwargs" (object end) s.service) [
        | object kwargs ↦ some (cls_name, kwargs)
        | _ ↦ none
      ]
    ]

-- `pool_from_settings`: the keyword arguments of `WorkerPool`, but for `process_manager`.
pub pool_from_settings : Settings → Option (Fields × (String × Fields))
unfolding process_manager_from_settings
pool_from_settings s = elim (get_or "pool_kwargs" (object end) s.service) [
  | object kwargs ↦ elim (process_manager_from_settings s) [
    | none ↦ none
    | some manager ↦ some (kwargs, manager)
  ]
  | _ ↦ none
]
