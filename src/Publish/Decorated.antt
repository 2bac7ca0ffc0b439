-- ===== src/Publish/Decorated.antt =====
-- What the dict of a decorated task's submission holds, and where the service sends it.
use dispatcher_fork.Base.{
  ℕ, ◌≡◌, refl, sym, ap, ◌∙◌, false, ◌&&◌, Option, none, some, List, [], ◌∷◌, any, String, str_eq,
  if◌then◌else◌, arith, ==_refl,
}
use dispatcher_fork.Json.{Value, object, Fields, find, contains, truthy}
use dispatcher_fork.Message.{Message}
use dispatcher_fork.Utils.{serialize_task}
use dispatcher_fork.Dispatcher.{Dispatcher}
use dispatcher_fork.Dispatcher.Routing.{Check, check_fails, process_dict}
use dispatcher_fork.Dispatcher.Routing.Messages.{process_dict-Routed}
use dispatcher_fork.Registry.{Method, Submission, set_defaults, get_async_body}
use dispatcher_fork.Registry.Submissions.{get_async_body-Holds}
use dispatcher_fork.Registry.Options.{
  find-get_async_body, find-on_duplicate, find-timeout, find-delay,
}
use dispatcher_fork.Publish.{Callable, Tasks, Decorator, task_defaults, decorate}
use dispatcher_fork.Publish.Delivery.{
  Delivered, submitted_to, option_of, contains_of_none, contains_of_find_eq, Routed-submitted,
}

find-defaults :
    (j : String) (d : Decorator)
    → str_eq "on_duplicate" j ≡ false
    → str_eq "timeout" j ≡ false
    → find j (set_defaults (task_defaults d)) ≡ none
unfolding find set_defaults
find-defaults j d a b = ground (arith, a, b)

chosen :
    (given default : Value) (o : Option Value)
    → o ≡ (if truthy default then some default else none)
    → (if truthy given then some given else o) ≡ option_of given default
chosen given default o e = ground (arith, e)

abbrev get_async_body_keys : List String
get_async_body_keys =
    "timeout" ∷ "delay" ∷ "on_duplicate" ∷ "bind" ∷ "kwargs" ∷ "args" ∷ "uuid" ∷ "time_pub" ∷ "task"
    ∷ []

module _ (deco : Decorator) (fn : Callable) (name : String) (p : Tasks) (m : Method)
    (has_name : fn.qualname ≡ some name)
    (carried : (decorate deco fn p).1.glued fn.identity ≡ some m) where
  made : Method
  made = record {
    fn = fn.identity;
    path = serialize_task fn.module_name name;
    queue = deco.queue;
    bind = deco.bind;
    submission_defaults = task_defaults deco;
  }

  carried-made : m ≡ made
  unfolding decorate made
  carried-made =
      let there : (decorate deco fn p).1.glued fn.identity ≡ some made =
        rw (has_name, decorate, ==_refl fn.identity) refl in
      ap (λ o. elim o [ none ↦ made | some y ↦ y ]) (sym carried ∙ there)

  pub carried-path : m.path ≡ serialize_task fn.module_name name
  unfolding made
  carried-path = ap (λ (x : Method). x.path) carried-made

  pub carried-queue : m.queue ≡ deco.queue
  unfolding made
  carried-queue = ap (λ (x : Method). x.queue) carried-made

  no_default :
      (j : String)
      → str_eq "on_duplicate" j ≡ false
      → str_eq "timeout" j ≡ false
      → find j (set_defaults m.submission_defaults) ≡ none
  unfolding made
  no_default j a b =
      ap (λ (x : Method). find j (set_defaults x.submission_defaults)) carried-made
      ∙ find-defaults j deco a b

  default_options :
      (find "on_duplicate" (set_defaults m.submission_defaults)
        ≡ (if truthy deco.on_duplicate then some deco.on_duplicate else none))
      × (find "timeout" (set_defaults m.submission_defaults)
          ≡ (if truthy deco.timeout then some deco.timeout else none))
  unfolding made find set_defaults
  default_options = rw carried-made (ground arith, ground arith)

  no_control :
      (j : String) (now : ℕ) (fresh : String) (s : Submission)
      → any (λ k. str_eq k j) get_async_body_keys ≡ false
      → contains j (get_async_body now fresh m s) ≡ false
  no_control j now fresh s h = contains_of_none j (get_async_body now fresh m s) (
      find-get_async_body now fresh m s j (ground (arith, h)) (ground (arith, h))
        (ground (arith, h)) (ground (arith, h)) (ground (arith, h)) (ground (arith, h))
        (ground (arith, h)) (ground (arith, h)) (ground (arith, h))
      ∙ no_default j (ground (arith, h)) (ground (arith, h)))

  has_delay :
      (now : ℕ) (fresh : String) (s : Submission)
      → contains "delay" (get_async_body now fresh m s) ≡ truthy s.delay
  has_delay now fresh s =
      contains_of_find_eq "delay" (get_async_body now fresh m s) s.delay (truthy s.delay) (
        find-delay now fresh m s
        ∙ ap (λ o. if truthy s.delay then some s.delay else o) (no_default "delay" refl refl))

  -- The dict of a submission, when it comes to the service.
  pub process_dict-submitted :
      (aio : Value → Option Fields) (sent_at now ident capsule_id : ℕ) (fresh : String)
      (check : Check) (channel : Option String) (s : Submission) (d : Dispatcher)
      → let body = get_async_body sent_at fresh m s in
        (received : Message) × Delivered m.path fresh deco s received
        × (process_dict aio now capsule_id check channel (record { ident = ident; body = body }) d
            ≡ submitted_to now capsule_id s received d)
  process_dict-submitted aio sent_at now ident capsule_id fresh check channel s d =
      let body = get_async_body sent_at fresh m s in
      let sent : Message = record { ident = ident; body = body } in
      let unchecked : contains "self_check" body ≡ false =
        no_control "self_check" sent_at fresh s refl in
      Routed-submitted aio now capsule_id fresh m deco s sent d
        (get_async_body-Holds sent_at fresh m s)
        (find-on_duplicate sent_at fresh m s
          ∙ chosen s.on_duplicate deco.on_duplicate _ default_options.0)
        (find-timeout sent_at fresh m s ∙ chosen s.timeout deco.timeout _ default_options.1)
        (no_control "control" sent_at fresh s refl) (has_delay sent_at fresh s)
        (process_dict-Routed aio now capsule_id check channel sent d
          (ap (λ b. b && check_fails check (object body)) unchecked))
