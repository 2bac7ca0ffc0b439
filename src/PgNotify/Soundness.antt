-- ===== src/PgNotify/Soundness.antt =====
-- What the constructor of the pg_notify broker establishes and every one of its methods keeps.
use dispatcher_fork.Base.{
  ℕ, ◌≡◌, refl, ◌<◌, Bool, true, false, not, ◌&&◌, ◌||◌, Option, none, some, [], String, arith,
  Result, ok, raises, Bool-cases, inl, inr, is_some, ltb, ◌==◌, Option-cases, subst,
}
use dispatcher_fork.Json.{Fields, end, field}
use dispatcher_fork.PgNotify.{
  Error, no_async_source, no_sync_source, no_message_age, message_age_too_large, no_channel,
  no_factory, no_source, self_check_lost, self_check_late, outside, Side, Broker, Settings,
  Connection, has_fields, has_text_in, check_ages, check_settings, with_channel, copy_config,
  new_broker, idle,
}

-- A connection can be had, and one that the broker has to close comes from its config.
pub record HasSource (config : Fields) (side : Side) : Type 0 where
  pub some_source :
      (has_fields (some config) || has_text_in side.connection_factory || is_some side.connection)
      ≡ true
  pub owned : (not side.owns_connection || has_fields (some config)) ≡ true

pub record IsSound (b : Broker) : Type 0 where
  pub announced : b.channels ≡ with_channel b.self_check_channel b.user_channels
  pub ages : check_ages b.max_connection_idle_seconds b.max_self_check_message_age_seconds ≡ none
  pub async_source : HasSource b.config b.async_side
  pub sync_source : HasSource b.config b.sync_side

-- The reasons for which the constructor raises.
abbrev pub Reason : Settings → Error → Type 0
Reason s no_async_source =
    (has_fields s.config ≡ false)
    × (has_text_in s.async_connection_factory ≡ false)
    × (s.async_connection ≡ none)
Reason s no_sync_source =
    (has_fields s.config ≡ false)
    × (has_text_in s.sync_connection_factory ≡ false)
    × (s.sync_connection ≡ none)
Reason s no_message_age =
    (n : ℕ) × (s.max_connection_idle_seconds ≡ some n)
    × (0 < n)
    × (s.max_self_check_message_age_seconds ≡ none)
Reason s message_age_too_large =
    (n : ℕ) × (a : ℕ) × (s.max_connection_idle_seconds ≡ some n)
    × (s.max_self_check_message_age_seconds ≡ some a)
    × (0 < n)
    × (n < a)
Reason s _ = ⊥

abbrev Allowed : Settings → Option Error → Type 0
Allowed s none =
    check_ages s.max_connection_idle_seconds s.max_self_check_message_age_seconds ≡ none
Allowed s (some e) = Reason s e

abbrev AgesAllowed : Option ℕ → Option ℕ → Option Error → Type 0
AgesAllowed seconds age none = check_ages seconds age ≡ none
AgesAllowed seconds age (some no_message_age) =
    (n : ℕ) × (seconds ≡ some n) × (0 < n) × (age ≡ none)
AgesAllowed seconds age (some message_age_too_large) =
    (n : ℕ) × (a : ℕ) × (seconds ≡ some n) × (age ≡ some a) × (0 < n) × (n < a)
AgesAllowed seconds age (some _) = ⊥

check_ages-AgesAllowed : (seconds age : Option ℕ) → AgesAllowed seconds age (check_ages seconds age)
unfolding check_ages
check_ages-AgesAllowed none age = refl
check_ages-AgesAllowed (some n) none = elim (Bool-cases (n == 0)) [
  | inl e ↦ rw e (rw e refl)
  | inr e ↦ rw e (n, refl, ground (arith, e), refl)
]
check_ages-AgesAllowed (some n) (some a) = elim (Bool-cases (n == 0)) [
  | inl e ↦ rw e (rw e refl)
  | inr e ↦ elim (Bool-cases (ltb n a)) [
    | inl l ↦ rw (e, l) (n, a, refl, refl, ground (arith, e), ground (arith, l))
    | inr l ↦ rw (e, l) (rw (e, l) refl)
  ]
]

of_ages :
    (s : Settings) (o : Option Error)
    → AgesAllowed s.max_connection_idle_seconds s.max_self_check_message_age_seconds o
    → Allowed s o
of_ages s none h = h
of_ages s (some no_message_age) h = h
of_ages s (some message_age_too_large) h = h
of_ages s (some no_async_source) h = absurd h
of_ages s (some no_sync_source) h = absurd h
of_ages s (some no_channel) h = absurd h
of_ages s (some no_factory) h = absurd h
of_ages s (some no_source) h = absurd h
of_ages s (some self_check_lost) h = absurd h
of_ages s (some self_check_late) h = absurd h
of_ages s (some outside) h = absurd h

abbrev can_connect : Option Fields → Option String → Option Connection → Bool
can_connect config factory c = has_fields config || has_text_in factory || is_some c

can_connect-false :
    (config : Option Fields) (factory : Option String) (c : Option Connection)
    → can_connect config factory c ≡ false
    → (has_fields config ≡ false) × (has_text_in factory ≡ false) × (c ≡ none)
can_connect-false config factory none h = (ground (arith, h), ground (arith, h), refl)
can_connect-false config factory (some c) h = absurd (ground (arith, h))

has_fields-copy_config :
    (config : Option Fields) → has_fields (some (copy_config config)) ≡ has_fields config
has_fields-copy_config none = refl
has_fields-copy_config (some end) = refl
has_fields-copy_config (some (field k v fs)) = refl

abbrev async_ready : Settings → Bool
async_ready s = can_connect s.config s.async_connection_factory s.async_connection

abbrev sync_ready : Settings → Bool
sync_ready s = can_connect s.config s.sync_connection_factory s.sync_connection

-- The outcome of the checks, and that a constructed broker can connect on both sides.
record Checked (s : Settings) (o : Option Error) : Type 0 where
  allowed : Allowed s o
  ready : (is_some o || (async_ready s && sync_ready s)) ≡ true

ready_of : (a b : Bool) (o : Option Error) → a ≡ true → b ≡ true → (is_some o || (a && b)) ≡ true
ready_of a b none h k = rw (h, k) refl
ready_of a b (some e) h k = refl

check_settings-Checked : (s : Settings) → Checked s (check_settings s)
unfolding check_settings
check_settings-Checked s = elim (Bool-cases (async_ready s)) [
  | inr e ↦ rw e (record {
    allowed = can_connect-false s.config s.async_connection_factory s.async_connection e;
    ready = refl;
  })
  | inl e ↦ elim (Bool-cases (sync_ready s)) [
    | inr f ↦
        rw (e, f)
          (record {
            allowed = can_connect-false s.config s.sync_connection_factory s.sync_connection f;
            ready = refl;
          })
    | inl f ↦
        let seconds = s.max_connection_idle_seconds in
        let age = s.max_self_check_message_age_seconds in
        rw (e, f)
          (record {
            allowed = of_ages s (check_ages seconds age) (check_ages-AgesAllowed seconds age);
            ready = ready_of (async_ready s) (sync_ready s) (check_ages seconds age) e f;
          })
  ]
]

-- A new broker, or the exception of its constructor.
abbrev pub Built : Settings → Result Error Broker → Type 0
Built s (ok b) =
    IsSound b
    × (b.self_check_status ≡ idle)
    × (b.notify_loop_active ≡ false)
    × (b.notify_queue ≡ [])
Built s (raises e) = Reason s e

of_config :
    (config : Option Fields) (factory : Option String) (c : Option Connection)
    → can_connect config factory c ≡ true
    → (has_fields (some (copy_config config)) || has_text_in factory || is_some c) ≡ true
of_config config factory c h = rw (has_fields-copy_config config) h

-- The constructor either raises for one of its four reasons, or gives a sound broker: idle, out
-- of the loop, with nothing to be sent.
pub new_broker-Built :
    (uuid uuid' : String) (now : ℕ) (s : Settings) → Built s (new_broker uuid uuid' now s)
unfolding new_broker
new_broker-Built uuid uuid' now s =
    let checked = check_settings-Checked s in
    elim (Option-cases (check_settings s)) [
      | inr (e, same) ↦ rw (same, new_broker) (subst (Allowed s) same checked.allowed)
      | inl passed ↦
          let ready : (async_ready s && sync_ready s) ≡ true =
            subst (λ o. (is_some o || (async_ready s && sync_ready s)) ≡ true) passed
              checked.ready in
          rw (passed, new_broker)
            (
              record {
                announced = refl;
                ages = subst (Allowed s) passed checked.allowed;
                async_source = record {
                  some_source =
                      of_config s.config s.async_connection_factory s.async_connection
                        (ground (arith, ready));
                  owned = refl;
                };
                sync_source = record {
                  some_source =
                      of_config s.config s.sync_connection_factory s.sync_connection
                        (ground (arith, ready));
                  owned = refl;
                };
              },
              refl,
              refl,
              refl,
            )
    ]
