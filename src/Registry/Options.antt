-- ===== src/Registry/Options.antt =====
-- The items that a submission does not set, and its delay.
use dispatcher_fork.Base.{
  ℕ, ◌≡◌, refl, ap, ◌∙◌, true, false, Option, some, String, str_eq, if◌then◌else◌,
}
use dispatcher_fork.Json.{Value, str, array, object, nil, end, Fields, find, put, truthy}
use dispatcher_fork.Json.Lookup.{find-put_eq, find-put_ne}
use dispatcher_fork.Registry.{
  Method, Submission, set_defaults, publication_defaults, get_async_body, put_true, value_or,
}
use dispatcher_fork.Registry.Submissions.{find-put_true, find-with_options}

find-put_true_eq :
    (k : String) (v : Value) (body : Fields)
    → find k (put_true k v body) ≡ (if truthy v then some v else find k body)
find-put_true_eq k v body =
    elim (truthy v)
      as (λ b. find k (if b then put k v body else body) ≡ (if b then some v else find k body)) [
        | true ↦ find-put_eq k v body
        | false ↦ refl
      ]

find-publication_defaults :
    (j : String) (now : ℕ) (m : Method)
    → str_eq "time_pub" j ≡ false
    → str_eq "task" j ≡ false
    → find j (publication_defaults now m) ≡ find j (set_defaults m.submission_defaults)
unfolding publication_defaults
find-publication_defaults j now m a b = find-put_ne j "time_pub" _ _ a ∙ find-put_ne j "task" _ _ b

module _ (now : ℕ) (fresh : String) (m : Method) (s : Submission) where
  -- What get_async_body sets before the options.
  required : Fields
  required = put "kwargs" (value_or s.kwargs (object end)) (
      put "args" (value_or s.args (array nil))
        (put "uuid" (value_or s.uuid (str fresh)) (publication_defaults now m)))

  find-required :
      (j : String)
      → str_eq "kwargs" j ≡ false
      → str_eq "args" j ≡ false
      → str_eq "uuid" j ≡ false
      → str_eq "time_pub" j ≡ false
      → str_eq "task" j ≡ false
      → find j required ≡ find j (set_defaults m.submission_defaults)
  unfolding required
  find-required j k a u p q =
      find-put_ne j "kwargs" _ _ k
      ∙ find-put_ne j "args" _ _ a
      ∙ find-put_ne j "uuid" _ _ u
      ∙ find-publication_defaults j now m p q

  -- An item that no submission sets is that of the defaults of the method.
  pub find-get_async_body :
      (j : String)
      → str_eq "timeout" j ≡ false
      → str_eq "delay" j ≡ false
      → str_eq "on_duplicate" j ≡ false
      → str_eq "bind" j ≡ false
      → str_eq "kwargs" j ≡ false
      → str_eq "args" j ≡ false
      → str_eq "uuid" j ≡ false
      → str_eq "time_pub" j ≡ false
      → str_eq "task" j ≡ false
      → find j (get_async_body now fresh m s) ≡ find j (set_defaults m.submission_defaults)
  unfolding get_async_body required
  find-get_async_body j t d o b k a u p q =
      find-with_options s required j t d o b ∙ find-required j k a u p q

  -- An option that is given and true, else that of the defaults.
  abbrev pub given_or_default : String → Value → Option Value
  given_or_default k v = if truthy v then some v else find k (set_defaults m.submission_defaults)

  find-on_duplicate_part :
      find "on_duplicate" (put_true "on_duplicate" s.on_duplicate (put_true "bind" s.bind required))
      ≡ given_or_default "on_duplicate" s.on_duplicate
  find-on_duplicate_part =
      find-put_true_eq "on_duplicate" s.on_duplicate _
      ∙ ap (λ o. if truthy s.on_duplicate then some s.on_duplicate else o)
          (find-put_true "bind" "on_duplicate" s.bind _ refl
            ∙ find-required "on_duplicate" refl refl refl refl refl)

  pub find-on_duplicate :
      find "on_duplicate" (get_async_body now fresh m s)
      ≡ given_or_default "on_duplicate" s.on_duplicate
  unfolding get_async_body required
  find-on_duplicate =
      find-put_true "timeout" "on_duplicate" s.timeout _ refl
      ∙ find-put_true "delay" "on_duplicate" s.delay _ refl
      ∙ find-on_duplicate_part

  pub find-delay : find "delay" (get_async_body now fresh m s) ≡ given_or_default "delay" s.delay
  unfolding get_async_body required
  find-delay =
      find-put_true "timeout" "delay" s.timeout _ refl
      ∙ find-put_true_eq "delay" s.delay _
      ∙ ap (λ o. if truthy s.delay then some s.delay else o)
          (find-put_true "on_duplicate" "delay" s.on_duplicate _ refl
            ∙ find-put_true "bind" "delay" s.bind _ refl
            ∙ find-required "delay" refl refl refl refl refl)

  pub find-timeout :
      find "timeout" (get_async_body now fresh m s) ≡ given_or_default "timeout" s.timeout
  unfolding get_async_body required
  find-timeout =
      find-put_true_eq "timeout" s.timeout _
      ∙ ap (λ o. if truthy s.timeout then some s.timeout else o)
          (find-put_true "delay" "timeout" s.delay _ refl
            ∙ find-put_true "on_duplicate" "timeout" s.on_duplicate _ refl
            ∙ find-put_true "bind" "timeout" s.bind _ refl
            ∙ find-required "timeout" refl refl refl refl refl)
