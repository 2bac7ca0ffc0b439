-- ===== src/Utils.antt =====
-- dispatcherd/utils.py: the dotted names of tasks.
pub mod Names
mod Tests
use Prim.Native.Char.{Char, code}
use Prim.Native.String
use dispatcher_fork.Base.{
  ℕ, ◌≡◌, Bool, true, false, not, ◌||◌, Option, none, some, String, concat, starts_with, ◌==◌,
  if◌then◌else◌,
}

-- `MODULE_METHOD_DELIMITER`
abbrev pub is_dot : Char → Bool
is_dot c = code c == b'.'

-- `'.' in s`
unfoldable pub has_dot : String → Bool
has_dot String.[] = false
has_dot (String.◌∷◌ c s) = is_dot c || has_dot s

abbrev prefix : Char → String × String → String × String
prefix c (s, t) = (String.◌∷◌ c s, t)

-- `s.rsplit('.', 1)`, none where there is no dot: the text is cut at its last dot.
unfoldable pub rsplit : String → Option (String × String)
rsplit String.[] = none
rsplit (String.◌∷◌ c s) = elim (rsplit s) [
  | some parts ↦ some (prefix c parts)
  | none ↦ if is_dot c then some ("", s) else none
]

-- `evaluate` is `eval`, and `import_module` that of importlib with the attributes of the module;
-- none is an exception.
module _ {C : Type 0} (evaluate : String → Option (Option C))
    (import_module : String → Option (String → Option C)) where
  -- `getattr(module, target)` where there is one, else None.
  abbrev pub find_target : String × String → Option (Option C)
  find_target (module_name, target) = elim (import_module module_name) [
    | none ↦ none
    | some attributes ↦ some (attributes target)
  ]

  pub resolve_callable : String → Option (Option C)
  unfolding has_dot rsplit
  resolve_callable task =
      if starts_with task "lambda"
      then evaluate task
      else if not (has_dot task)
      then none
      else elim (rsplit task) [ none ↦ none | some parts ↦ find_target parts ]

-- `serialize_task`, for the module and the name of a callable.
pub serialize_task : String → String → String
serialize_task module_name name = concat module_name (concat "." name)
