-- ===== src/Message.antt =====
-- Task messages: the `dict` that `DispatcherMethod.get_async_body` of dispatcherd/registry.py
-- builds, `json.loads` returns and every part of the service passes on.
use dispatcher_fork.Base.{
  ℕ, String, ◌≡◌, subst, Bool, true, false, ◌&&◌, ◌||◌, List, arith, ◌==◌, drop_first,
}
use dispatcher_fork.Json.{Fields, end, field, get, equal, equal_fields}
use dispatcher_fork.Json.Equality.{equal_comm, equal-get, equal_fields_refl}

-- `ident` is the identity of the dict object, which Python's `is` compares; `body` its items.
pub record Message : Type 0 where
  pub ident : ℕ
  pub body : Fields

-- `bool(message)`: a dict is true when it has items.
unfoldable pub holds_items : Message → Bool
holds_items m = elim m.body [ end ↦ false | field _ _ _ ↦ true ]

-- `a is b`
abbrev pub is_same : Message → Message → Bool
is_same a b = a.ident == b.ident

-- The comparison that `list.remove` makes: identity, then equality.
unfoldable pub is_or_equals : Message → Message → Bool
is_or_equals m other = is_same m other || equal_fields other.body m.body

-- `messages.remove(message)`, for a message that is in the list.
abbrev pub remove : Message → List Message → List Message
remove m = drop_first (is_or_equals m)

-- A lookup in a message: `message.get(key) == other.get(key)`.
agrees_on : String → Message → Message → Bool
agrees_on key other m = equal (get key other.body) (get key m.body)

-- `all(other.get(key) == message.get(key) for key in ('task', 'args', 'kwargs'))`
pub same_call : Message → Message → Bool
unfolding agrees_on
same_call other m =
    agrees_on "task" other m && agrees_on "args" other m && agrees_on "kwargs" other m

pub same_call_comm : (a b : Message) → same_call a b ≡ same_call b a
unfolding same_call
same_call_comm a b = ground (
  arith,
  equal_comm (get "task" a.body) (get "task" b.body),
  equal_comm (get "args" a.body) (get "args" b.body),
  equal_comm (get "kwargs" a.body) (get "kwargs" b.body),
)

-- Two messages whose dicts compare equal agree on task, args and kwargs: they are for the same
-- call.
pub same_call_of_equal : (a b : Message) → equal_fields a.body b.body ≡ true → same_call a b ≡ true
unfolding same_call
same_call_of_equal a b h = ground (
  arith,
  equal-get "task" a.body b.body h,
  equal-get "args" a.body b.body h,
  equal-get "kwargs" a.body b.body h,
)

pub same_call_of_same_body : (a b : Message) → a.body ≡ b.body → same_call a b ≡ true
same_call_of_same_body a b e =
    same_call_of_equal a b (subst (λ t. equal_fields a.body t ≡ true) e (equal_fields_refl a.body))
