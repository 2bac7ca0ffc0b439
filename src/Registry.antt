-- ===== src/Registry.antt =====
-- `DispatcherMethod` and `DispatcherMethodRegistry` of dispatcherd/registry.py: the task methods
-- that a process knows, and the dict in which they are looked up.
pub mod Entries
pub mod Submissions
pub mod Options
mod Tests
use dispatcher_fork.Base.{
  ℕ, ◌≡◌, Bool, true, false, Option, none, some, List, [], ◌∷◌, String, str_eq, if◌then◌else◌,
  is_some, ◌==◌, find?,
}
use dispatcher_fork.Json.{
  Value, num, str, array, object, nil, Fields, end, field, put, truthy, bool,
}

-- The queue of a method or of a submission: None, a name, or a callable, by its identity.
pub data Queue : Type 0 where
  no_queue : Queue
  named : String → Queue
  computed : ℕ → Queue

-- `fn` is the identity of the callable, `path` what `serialize_task` makes of it.
pub record Method : Type 0 where
  pub fn : ℕ
  pub path : String
  pub queue : Queue
  pub bind : Bool
  pub submission_defaults : Fields

-- The true ones among the defaults: all None or falsy values have no effect.
unfoldable pub set_defaults : Fields → Fields
set_defaults end = end
set_defaults (field k v fs) =
    let rest = set_defaults fs in if truthy v then field k v rest else rest

-- `publication_defaults`
pub publication_defaults : ℕ → Method → Fields
unfolding set_defaults
publication_defaults now m =
    put "time_pub" (num now) (put "task" (str m.path) (set_defaults m.submission_defaults))

-- The options of one submission: None and falsy values have no effect, but for uuid, args and
-- kwargs, which are always set.
pub record Submission : Type 0 where
  pub args : Value
  pub kwargs : Value
  pub uuid : Value
  pub bind : Value
  pub on_duplicate : Value
  pub timeout : Value
  pub delay : Value

abbrev pub put_true : String → Value → Fields → Fields
put_true k v body = if truthy v then put k v body else body

abbrev pub value_or : Value → Value → Value
value_or v w = if truthy v then v else w

-- `get_async_body`; `fresh` is the text of a new `uuid4`.
unfoldable pub get_async_body : ℕ → String → Method → Submission → Fields
unfolding publication_defaults
get_async_body now fresh m s =
    let defaults = publication_defaults now m in
    let uuid = put "uuid" (value_or s.uuid (str fresh)) defaults in
    let args = put "args" (value_or s.args (array nil)) uuid in
    let kwargs = put "kwargs" (value_or s.kwargs (object end)) args in
    let bound = put_true "bind" s.bind kwargs in
    let duplicate = put_true "on_duplicate" s.on_duplicate bound in
    let delayed = put_true "delay" s.delay duplicate in put_true "timeout" s.timeout delayed

-- `registry` is a set of method objects, `_lookup_dict` a dict by path.
pub record Registry : Type 0 where
  pub registry : List Method
  pub lookup_dict : List (String × Method)
  pub registration_closed : Bool

abbrev pub new_registry : Registry
new_registry = record { registry = []; lookup_dict = []; registration_closed = false }

-- `d[path] = method`
pub put_method : Method → List (String × Method) → List (String × Method)
put_method m [] = (m.path, m) ∷ []
put_method m ((k, n) ∷ d) = if str_eq k m.path then (k, m) ∷ d else (k, n) ∷ put_method m d

pub get_entry : String → List (String × Method) → Option Method
get_entry task [] = none
get_entry task ((k, m) ∷ d) = if str_eq k task then some m else get_entry task d

-- The first lines of `register`: the lookup dict is forgotten if it had been filled.
abbrev pub reopen : Registry → Registry
reopen r =
    if r.registration_closed then record r { lookup_dict = []; registration_closed = false } else r

-- `register`, of a method object that is made here.
unfoldable pub register : Method → Registry → Registry
register m r = let r' = reopen r in record r' { registry = m ∷ r'.registry }

pub fill : List Method → List (String × Method) → List (String × Method)
unfolding put_method
fill [] d = d
fill (m ∷ ms) d = fill ms (put_method m d)

-- The property `lookup_dict`: any reference to it closes the registration.
pub close : Registry → Registry
unfolding fill
close r =
    if r.registration_closed
    then r
    else record r { lookup_dict = fill r.registry r.lookup_dict; registration_closed = true }

-- What `get_method` comes to: a method, or ImportError or NotRegistered.
pub data Lookup : Type 0 where
  found : Method → Lookup
  import_error : Lookup
  not_registered : Lookup

-- `resolve` is `resolve_callable`: it imports a module, which may register methods. It gives a
-- callable, or none.
module _ (resolve : String → Registry → Option Method × Registry) where
  -- The second look, after the import.
  look_again : String → Bool → Method → Registry → Lookup × Registry
  look_again task allow_unregistered candidate r =
      let r' = close r in
      elim (get_entry task r'.lookup_dict) [
        | some m ↦ (found m, r')
        | none ↦ (if allow_unregistered then found candidate else not_registered, r')
      ]

  pub get_method : String → Bool → Registry → Lookup × Registry
  unfolding look_again
  get_method task allow_unregistered r =
      let r' = close r in
      elim (get_entry task r'.lookup_dict) [
        | some m ↦ (found m, r')
        | none ↦ elim (resolve task r').0 [
          | none ↦ (import_error, (resolve task r').1)
          | some candidate ↦ look_again task allow_unregistered candidate (resolve task r').1
        ]
      ]

-- `get_from_callable`; none is a RuntimeError.
pub get_from_callable : ℕ → Registry → Option Method
get_from_callable fn r = find? (λ (m : Method). m.fn == fn) r.registry
