-- ===== src/Factories/Publisher.antt =====
-- The broker that a submission or a control message goes to, and the arguments it is built with.
use dispatcher_fork.Base.{◌≡◌, Option, some, String, if◌then◌else◌}
use dispatcher_fork.Json.{Fields, contains, find}
use dispatcher_fork.Config.{Settings}
use dispatcher_fork.Factories.{section_at, published_name, has_key, get_publisher_broker_name}

-- What a broker is built with: its entry in the settings, where the overrides come first.
abbrev pub Built : Settings → Fields → Option String → String → Fields → Type 0
Built s overrides wanted name kwargs =
    (config : Fields) × (wanted ≡ some name)
    × (section_at s.brokers name ≡ some config)
    × ((k : String)
        → find k kwargs ≡ (if contains k overrides then find k overrides else find k config))

-- The broker that a control message goes to: the default for control, if the settings have one,
-- whatever broker is asked for, else that of a publisher.
abbrev pub control_broker : Option String → Settings → Option String
control_broker publish_broker s =
    if has_key "default_control_broker" s.publish
    then published_name "default_control_broker" s.publish
    else get_publisher_broker_name publish_broker s
