-- ===== src/Registry/Tests.antt =====
-- The registry at concrete methods.
use dispatcher_fork.Base.{arith, refl, false, Option, none, String}
use dispatcher_fork.Json.{null, num, str, end}
use dispatcher_fork.Registry.{no_queue, Method, Registry, new_registry, Submission}
use dispatcher_fork.Registry.Entries.{IsIndexed}

abbrev sleep_method : Method
sleep_method = record {
  fn = 1;
  path = "tests.sleep";
  queue = no_queue;
  bind = false;
  submission_defaults = end;
}

abbrev submission : Submission
submission = record {
  args = null;
  kwargs = null;
  uuid = null;
  bind = null;
  on_duplicate = str "serial";
  timeout = num 5;
  delay = null;
}

-- No import finds anything.
abbrev no_import : String → Registry → Option Method × Registry
no_import _ r = (none, r)

new_registry-IsIndexed : IsIndexed new_registry
new_registry-IsIndexed = record {
  open_empty = λ _. refl;
  sound = λ h. absurd (ground (arith, h));
  complete = λ h. absurd (ground (arith, h));
}
