-- ===== src/Utils/Names.antt =====
-- `resolve_callable` finds what `serialize_task` names.
use Prim.Native.Char.{Char}
use Prim.Native.String.append
use dispatcher_fork.Base.{
  ◌≡◌, refl, ap, ◌∙◌, true, false, Option, none, some, String, concat, starts_with, if◌then◌else◌,
  arith,
}
use dispatcher_fork.Utils.{has_dot, rsplit, find_target, resolve_callable, serialize_task}

rsplit-none : (s : String) → has_dot s ≡ false → rsplit s ≡ none
unfolding rsplit has_dot
rsplit-none String.[] h = refl
rsplit-none (String.◌∷◌ c s) h = ground (arith, h, rsplit-none s)

abbrev dot : Char
dot = "."

concat-dot : (t : String) → concat "." t ≡ String.◌∷◌ dot t
concat-dot t = append.cons dot "" t ∙ ap (String.◌∷◌ dot) (append.nil t)

rsplit-concat : (s t : String) → has_dot t ≡ false → rsplit (concat s (concat "." t)) ≡ some (s, t)
unfolding rsplit
rsplit-concat String.[] t h =
    ap rsplit (append.nil (concat "." t) ∙ concat-dot t) ∙ rw (rsplit-none t h) refl
rsplit-concat (String.◌∷◌ c s) t h =
    ap rsplit (append.cons c s (concat "." t)) ∙ rw (rsplit-concat s t h, rsplit) refl

has_dot-concat : (s t : String) → has_dot (concat s (concat "." t)) ≡ true
unfolding has_dot
has_dot-concat String.[] t = ap has_dot (append.nil (concat "." t) ∙ concat-dot t)
has_dot-concat (String.◌∷◌ c s) t =
    ap has_dot (append.cons c s (concat "." t)) ∙ ground (arith, has_dot-concat s t)

module _ {C : Type 0} (evaluate : String → Option (Option C))
    (import_module : String → Option (String → Option C)) where
  -- The name that serialize_task gives a callable of a module that can be imported, whose own
  -- name has no dot, leads resolve_callable back to what this module holds under its own name,
  -- unless the dotted name begins with "lambda"; in that case resolve_callable evaluates the
  -- name as an expression.
  pub resolve_callable-serialize_task :
      (module_name name : String) (attributes : String → Option C)
      → has_dot name ≡ false
      → import_module module_name ≡ some attributes
      → resolve_callable evaluate import_module (serialize_task module_name name) ≡ (
          if starts_with (serialize_task module_name name) "lambda"
          then evaluate (serialize_task module_name name)
          else some (attributes name))
  unfolding resolve_callable serialize_task
  resolve_callable-serialize_task module_name name attributes plain imported =
      rw
        (
          has_dot-concat module_name name,
          rsplit-concat module_name name plain,
          find_target,
          imported,
        )
        refl
