-- ===== src/Publish/Delivery.antt =====
-- What the service makes of a submission of a decorated task.
use dispatcher_fork.Base.{
  ℕ, ◌+◌, ◌≡◌, refl, sym, ◌∙◌, Bool, true, false, Option, none, some, String, str_eq, if◌then◌else◌,
  arith, Option-cases, inl, inr,
}
use dispatcher_fork.Json.{Value, str, array, object, nil, Fields, end, find, contains, truthy}
use dispatcher_fork.Message.{Message}
use dispatcher_fork.Pool.{dispatch_task}
use dispatcher_fork.Dispatcher.{Dispatcher, create_delayed_task}
use dispatcher_fork.Dispatcher.Actions.{Answer, handled}
use dispatcher_fork.Dispatcher.Routing.Messages.{Accepted, Routed, to_delay, to_control, to_pool}
use dispatcher_fork.Registry.{Method, Submission, value_or}
use dispatcher_fork.Registry.Submissions.{Holds}
use dispatcher_fork.Publish.{Decorator}

pub contains_of_none : (k : String) (fs : Fields) → find k fs ≡ none → contains k fs ≡ false
unfolding contains
contains_of_none k fs e = rw (e, contains) refl

-- What becomes of a message of a submission: it is dispatched, or delayed if that is asked for.
abbrev pub submitted_to : ℕ → ℕ → Submission → Message → Dispatcher → Answer
submitted_to now capsule_id s m d =
    let d' = record d { received_count = d.received_count + 1 } in
    if truthy s.delay
    then handled none (create_delayed_task now capsule_id m d')
    else handled none (record d' { pool = dispatch_task now m d.pool })

-- An option: that of the submission, else that of the decorator; it is there if it is true.
abbrev pub option_of : Value → Value → Option Value
option_of given default = let v = value_or given default in if truthy v then some v else none

-- A message of the dispatcher that holds a submission of a decorated task.
abbrev pub Delivered : String → String → Decorator → Submission → Message → Type 0
Delivered path fresh deco s received =
    (find "task" received.body ≡ some (str path))
    × (find "uuid" received.body ≡ some (value_or s.uuid (str fresh)))
    × (find "args" received.body ≡ some (value_or s.args (array nil)))
    × (find "kwargs" received.body ≡ some (value_or s.kwargs (object end)))
    × (find "on_duplicate" received.body ≡ option_of s.on_duplicate deco.on_duplicate)
    × (find "timeout" received.body ≡ option_of s.timeout deco.timeout)

find_of_contains : (k : String) (fs : Fields) → contains k fs ≡ false → find k fs ≡ none
unfolding contains
find_of_contains k fs h = elim (Option-cases (find k fs)) [
  | inl e ↦ e
  | inr (v, e) ↦ absurd (ground (arith, h, e))
]

pub contains_of_find_eq :
    (k : String) (fs : Fields) (v : Value) (b : Bool)
    → find k fs ≡ (if b then some v else none)
    → contains k fs ≡ b
unfolding contains
contains_of_find_eq k fs v true e = rw (e, contains) refl
contains_of_find_eq k fs v false e = rw (e, contains) refl

Accepted-option :
    (k : String) (v : Value) (b : Bool) (sent received : Message)
    → Accepted sent received
    → str_eq "channel" k ≡ false
    → str_eq "uuid" k ≡ false
    → find k sent.body ≡ (if b then some v else none)
    → find k received.body ≡ (if b then some v else none)
Accepted-option k v true sent received a c u e = a.kept k v e c
Accepted-option k v false sent received a c u e =
    find_of_contains k received.body (a.routing k c u ∙ contains_of_find_eq k sent.body v false e)

module _ (fresh : String) (m : Method) (deco : Decorator) (s : Submission)
    (sent received : Message) where
  Delivered-Accepted :
      Holds fresh m s sent.body
      → find "on_duplicate" sent.body ≡ option_of s.on_duplicate deco.on_duplicate
      → find "timeout" sent.body ≡ option_of s.timeout deco.timeout
      → Accepted sent received
      → Delivered m.path fresh deco s received
  Delivered-Accepted h duplicate timeout a = (
    a.kept "task" _ h.task refl,
    a.kept "uuid" _ h.uuid refl,
    a.kept "args" _ h.args refl,
    a.kept "kwargs" _ h.kwargs refl,
    Accepted-option "on_duplicate" _ _ sent received a refl refl duplicate,
    Accepted-option "timeout" _ _ sent received a refl refl timeout,
  )

module _ (aio : Value → Option Fields) (now capsule_id : ℕ) (fresh : String) (m : Method)
    (deco : Decorator) (s : Submission) (sent : Message) (d : Dispatcher) where
  pub Routed-submitted :
      {a : Answer}
      → Holds fresh m s sent.body
      → find "on_duplicate" sent.body ≡ option_of s.on_duplicate deco.on_duplicate
      → find "timeout" sent.body ≡ option_of s.timeout deco.timeout
      → contains "control" sent.body ≡ false
      → contains "delay" sent.body ≡ truthy s.delay
      → Routed aio now capsule_id sent d a
      → (received : Message) × Delivered m.path fresh deco s received
        × (a ≡ submitted_to now capsule_id s received d)
  Routed-submitted h duplicate timeout control delay (to_delay m' acc e a_is) = (
    m',
    Delivered-Accepted fresh m deco s sent m' h duplicate timeout acc,
    a_is ∙ rw (sym delay ∙ e) refl,
  )
  Routed-submitted h duplicate timeout control delay (to_control m' acc e c a_is) =
      absurd (ground (arith, c, control))
  Routed-submitted h duplicate timeout control delay (to_pool m' acc e c a_is) = (
    m',
    Delivered-Accepted fresh m deco s sent m' h duplicate timeout acc,
    a_is ∙ rw (sym delay ∙ e) refl,
  )
