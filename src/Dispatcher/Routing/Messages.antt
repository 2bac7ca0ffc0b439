-- ===== src/Dispatcher/Routing/Messages.antt =====
-- What `process_message` makes of a dict, and what becomes of a delayed one.
use dispatcher_fork.Base.{
  ℕ, ◌+◌, ◌≡◌, refl, sym, ◌∙◌, subst, true, false, ◌&&◌, Option, none, some, List, [], ◌∷◌, map,
  arith, inl, inr, String, str_eq, eq_iff, Bool-cases, if◌then◌else◌, ◌==◌,
}
use dispatcher_fork.Json.{Value, Fields, str, object, find, contains, get, put}
use dispatcher_fork.Json.Lookup.{find-put_ne, contains-put_eq, contains-put_ne, contains_of_find}
use dispatcher_fork.Message.{Message}
use dispatcher_fork.Pool.{dispatch_task}
use dispatcher_fork.Dispatcher.{Capsule, Dispatcher, create_delayed_task, without}
use dispatcher_fork.Dispatcher.Actions.{Answer, handled, run_control_action}
use dispatcher_fork.Dispatcher.Routing.{
  Check, check_fails, with_uuid, with_channel, process_dict, process_message_internal,
  process_delayed_task,
}

-- The message that is passed on is the same object. It has a uuid, and its own one if it had one;
-- of its other items only the channel may be another.
pub record Accepted (m m' : Message) : Type 0 where
  pub same : m'.ident ≡ m.ident
  pub has_uuid : contains "uuid" m'.body ≡ true
  pub kept :
      (k : String) (v : Value)
      → find k m.body ≡ some v
      → str_eq "channel" k ≡ false
      → find k m'.body ≡ some v
  pub routing :
      (k : String)
      → str_eq "channel" k ≡ false
      → str_eq "uuid" k ≡ false
      → contains k m'.body ≡ contains k m.body

put-kept :
    (k : String) (v w : Value) (m : Message)
    → contains "uuid" m.body ≡ false
    → find k m.body ≡ some v
    → find k (put "uuid" w m.body) ≡ some v
put-kept k v w m e f = elim (Bool-cases (str_eq "uuid" k)) [
  | inl u ↦
      let there = contains_of_find k v m.body f in
      let same : "uuid" ≡ k = (eq_iff "uuid" k).0 u in
      let c : contains "uuid" m.body ≡ true =
        subst (λ j. contains j m.body ≡ true) (sym same) there in
      absurd (ground (arith, c, e))
  | inr u ↦ find-put_ne k "uuid" w m.body u ∙ f
]

Accepted-uuid : (n : ℕ) (m : Message) → Accepted m (with_uuid n m)
unfolding with_uuid
Accepted-uuid n m = elim (Bool-cases (contains "uuid" m.body)) [
  | inl e ↦
      rw (e, with_uuid)
        (record { same = refl; has_uuid = e; kept = λ k v f _. f; routing = λ k _ _. refl })
  | inr e ↦
      rw (e, with_uuid)
        (record {
          same = refl;
          has_uuid = contains-put_eq "uuid" _ m.body;
          kept = λ k v f _. put-kept k v _ m e f;
          routing = λ k _ h. contains-put_ne k "uuid" _ m.body h;
        })
]

Accepted-channel :
    (channel : Option String) (m m' : Message)
    → Accepted m m'
    → Accepted m (with_channel channel m')
unfolding with_channel
Accepted-channel none m m' a = a
Accepted-channel (some c) m m' a = elim (Bool-cases (str_eq c "")) [
  | inl e ↦ rw (e, with_channel) a
  | inr e ↦
      rw (e, with_channel)
        (record {
          same = a.same;
          has_uuid = contains-put_ne "uuid" "channel" (str c) m'.body refl ∙ a.has_uuid;
          kept = λ k v f h. find-put_ne k "channel" (str c) m'.body h ∙ a.kept k v f h;
          routing = λ k h h'. contains-put_ne k "channel" (str c) m'.body h ∙ a.routing k h h';
        })
]

-- Where a dict goes.
pub data Routed (aio : Value → Option Fields) (now capsule_id : ℕ) (m : Message) (d : Dispatcher)
    : Answer → Type 0 where
  to_delay :
      {a : Answer} (m' : Message)
      → Accepted m m'
      → contains "delay" m.body ≡ true
      → a
        ≡ handled none (
            create_delayed_task now capsule_id m'
              (record d { received_count = d.received_count + 1 }))
      → Routed aio now capsule_id m d a
  to_control :
      {a : Answer} (m' : Message)
      → Accepted m m'
      → contains "delay" m.body ≡ false
      → contains "control" m.body ≡ true
      → a
        ≡ run_control_action aio now
            (get "control" m'.body)
            (get "control_data" m'.body)
            (get "reply_to" m'.body)
            (record d { received_count = d.received_count + 1 })
      → Routed aio now capsule_id m d a
  to_pool :
      {a : Answer} (m' : Message)
      → Accepted m m'
      → contains "delay" m.body ≡ false
      → contains "control" m.body ≡ false
      → a
        ≡ handled none
            (record d { received_count = d.received_count + 1; pool = dispatch_task now m' d.pool })
      → Routed aio now capsule_id m d a

module _ (aio : Value → Option Fields) (now : ℕ) where
  internal-control :
      (m : Message) (d : Dispatcher)
      → contains "control" m.body ≡ true
      → process_message_internal aio now m d
        ≡ run_control_action aio now
            (get "control" m.body)
            (get "control_data" m.body)
            (get "reply_to" m.body)
            d
  unfolding process_message_internal
  internal-control m d e = rw (e, process_message_internal) refl

  internal-pool :
      (m : Message) (d : Dispatcher)
      → contains "control" m.body ≡ false
      → process_message_internal aio now m d
        ≡ handled none (record d { pool = dispatch_task now m d.pool })
  unfolding process_message_internal
  internal-pool m d e = rw (e, process_message_internal) refl

  -- A dict whose self check, if it asks for one, does not raise is counted as received and goes
  -- to exactly one place: to the delayed messages if it has a delay, else to the control actions
  -- if it has a control item, else to dispatch_task. What goes there is the same object, with a
  -- uuid, and with every item that it had but for the channel.
  pub process_dict-Routed :
      (capsule_id : ℕ) (check : Check) (channel : Option String) (m : Message) (d : Dispatcher)
      → (contains "self_check" m.body && check_fails check (object m.body)) ≡ false
      → Routed aio now capsule_id m d (process_dict aio now capsule_id check channel m d)
  unfolding process_dict
  process_dict-Routed capsule_id check channel m d ok =
      let m' = with_channel channel (with_uuid d.received_count m) in
      let a =
        Accepted-channel channel m (with_uuid d.received_count m)
          (Accepted-uuid d.received_count m) in
      let d' = record d { received_count = d.received_count + 1 } in
      elim (Bool-cases (contains "delay" m.body)) [
        | inl e ↦ to_delay m' a e (rw (ok, a.routing "delay" refl refl ∙ e) refl)
        | inr e ↦ elim (Bool-cases (contains "control" m.body)) [
          | inl c ↦ to_control m' a e c (
              rw (ok, a.routing "delay" refl refl ∙ e)
                (internal-control m' d' (a.routing "control" refl refl ∙ c)))
          | inr c ↦ to_pool m' a e c (
              rw (ok, a.routing "delay" refl refl ∙ e)
                (internal-pool m' d' (a.routing "control" refl refl ∙ c)))
        ]
      ]

  without-ran :
      (i : ℕ) (cs : List Capsule)
      → without i (map (λ x. if x.capsule_id == i then record x { has_ran = true } else x) cs)
        ≡ without i cs
  without-ran i [] = refl
  without-ran i (c ∷ cs) = elim (Bool-cases (c.capsule_id == i)) [
    | inl e ↦ ground (arith, without-ran i cs, e)
    | inr e ↦ ground (arith, without-ran i cs, e)
  ]

  -- When the delay of a message that is no control message is over, the message is dispatched to
  -- the pool once and its capsule leaves the delayed messages; nothing else changes.
  pub process_delayed_task-dispatch_task :
      (c : Capsule) (d : Dispatcher)
      → contains "control" c.message.body ≡ false
      → process_delayed_task aio now c d
        ≡ handled none (record d {
          delayed_messages = without c.capsule_id d.delayed_messages;
          pool = dispatch_task now c.message d.pool;
        })
  unfolding process_delayed_task
  process_delayed_task-dispatch_task c d e =
      rw (e, process_delayed_task, without-ran c.capsule_id d.delayed_messages) refl
