-- ===== src/Registry/Submissions.antt =====
-- A submission holds what was asked for.
use dispatcher_fork.Base.{ℕ, ◌≡◌, refl, ◌∙◌, true, false, some, String, str_eq, if◌then◌else◌}
use dispatcher_fork.Json.{Value, str, array, object, nil, Fields, end, find, put, truthy}
use dispatcher_fork.Json.Lookup.{find-put_eq, find-put_ne}
use dispatcher_fork.Registry.{
  Method, Submission, publication_defaults, get_async_body, put_true, value_or,
}

pub find-put_true :
    (k j : String) (v : Value) (body : Fields)
    → str_eq k j ≡ false
    → find j (put_true k v body) ≡ find j body
find-put_true k j v body h =
    elim (truthy v) as (λ b. find j (if b then put k v body else body) ≡ find j body) [
      | true ↦ find-put_ne j k v body h
      | false ↦ refl
    ]

-- A submission holds what was asked for: the path of the method, the uuid, args and kwargs with
-- their defaults, and the options that are set.
pub record Holds (fresh : String) (m : Method) (s : Submission) (body : Fields) : Type 0 where
  pub task : find "task" body ≡ some (str m.path)
  pub uuid : find "uuid" body ≡ some (value_or s.uuid (str fresh))
  pub args : find "args" body ≡ some (value_or s.args (array nil))
  pub kwargs : find "kwargs" body ≡ some (value_or s.kwargs (object end))
  pub on_duplicate : truthy s.on_duplicate ≡ true → find "on_duplicate" body ≡ some s.on_duplicate
  pub delay : truthy s.delay ≡ true → find "delay" body ≡ some s.delay
  pub timeout : truthy s.timeout ≡ true → find "timeout" body ≡ some s.timeout

-- The options are put last, and none of them is one of the other keys.
module _ (s : Submission) (body : Fields) where
  abbrev with_options : Fields
  with_options = put_true "timeout" s.timeout (
      put_true "delay" s.delay
        (put_true "on_duplicate" s.on_duplicate (put_true "bind" s.bind body)))

  pub find-with_options :
      (j : String)
      → str_eq "timeout" j ≡ false
      → str_eq "delay" j ≡ false
      → str_eq "on_duplicate" j ≡ false
      → str_eq "bind" j ≡ false
      → find j with_options ≡ find j body
  find-with_options j t d o b =
      find-put_true "timeout" j s.timeout _ t
      ∙ find-put_true "delay" j s.delay _ d
      ∙ find-put_true "on_duplicate" j s.on_duplicate _ o
      ∙ find-put_true "bind" j s.bind body b

-- The body of a submission holds the path of the method under task, uuid, args and kwargs as
-- given or with their defaults, and each of on_duplicate, delay and timeout that is given and
-- true.
pub get_async_body-Holds :
    (now : ℕ) (fresh : String) (m : Method) (s : Submission)
    → Holds fresh m s (get_async_body now fresh m s)
unfolding get_async_body publication_defaults
get_async_body-Holds now fresh m s =
    let d = publication_defaults now m in
    let b1 = put "uuid" (value_or s.uuid (str fresh)) d in
    let b2 = put "args" (value_or s.args (array nil)) b1 in
    let b3 = put "kwargs" (value_or s.kwargs (object end)) b2 in
    record {
      task =
          find-with_options s b3 "task" refl refl refl refl
          ∙ find-put_ne "task" "kwargs" _ b2 refl
          ∙ find-put_ne "task" "args" _ b1 refl
          ∙ find-put_ne "task" "uuid" _ d refl
          ∙ find-put_ne "task" "time_pub" _ _ refl
          ∙ find-put_eq "task" (str m.path) _;
      uuid =
          find-with_options s b3 "uuid" refl refl refl refl
          ∙ find-put_ne "uuid" "kwargs" _ b2 refl
          ∙ find-put_ne "uuid" "args" _ b1 refl
          ∙ find-put_eq "uuid" _ d;
      args =
          find-with_options s b3 "args" refl refl refl refl
          ∙ find-put_ne "args" "kwargs" _ b2 refl
          ∙ find-put_eq "args" _ b1;
      kwargs = find-with_options s b3 "kwargs" refl refl refl refl ∙ find-put_eq "kwargs" _ b2;
      on_duplicate = λ h.
          find-put_true "timeout" "on_duplicate" s.timeout _ refl
          ∙ find-put_true "delay" "on_duplicate" s.delay _ refl
          ∙ rw h (find-put_eq "on_duplicate" s.on_duplicate (put_true "bind" s.bind b3));
      delay = λ h.
          find-put_true "timeout" "delay" s.timeout _ refl
          ∙ rw h (
              find-put_eq "delay" s.delay
                (put_true "on_duplicate" s.on_duplicate (put_true "bind" s.bind b3)));
      timeout = λ h. rw h (
          find-put_eq "timeout" s.timeout (
            put_true "delay" s.delay
              (put_true "on_duplicate" s.on_duplicate (put_true "bind" s.bind b3))));
    }
