-- ===== src/Dispatcher/Main.antt =====
-- The main loop of dispatcherd/service/main.py: `start_working`, `main_loop_wait`,
-- `recycle_broker_producers` and `main`, over the producers of the service.
pub mod Recycling
use dispatcher_fork.Base.{
  ℕ, ◌≡◌, Bool, true, false, not, ◌&&◌, ◌||◌, Option, none, some, List, [], ◌∷◌, map, if◌then◌else◌,
  Result, ok, raises, Method, and_then,
}
use dispatcher_fork.AsyncTasks.{TaskState, ensure_fatal, wait_for_any}
use dispatcher_fork.Brokered.{Protocol, Producer, Service, start_producing, recycle}

-- A producer of the service: one with a broker, or one of the other classes, whose task, if it
-- has one, is that of its runner.
pub data Managed (S D : Type 0) : Type 0 where
  brokered : Service S D → Managed S D
  plain : Producer → Managed S D

abbrev pub producer_of : {S D : Type 0} → Managed S D → Producer
producer_of (brokered s) = s.producer
producer_of (plain p) = p

-- `producer.events.recycle_event.is_set()`
abbrev pub needs_recycle : {S D : Type 0} → Managed S D → Bool
needs_recycle m = (producer_of m).recycle_event

abbrev pub with_event : {S D : Type 0} → Bool → Managed S D → Managed S D
with_event e (brokered s) =
    brokered (record s { producer = record (s.producer) { recycle_event = e } })
with_event e (plain p) = plain (record p { recycle_event = e })

abbrev pub flagged : {S D : Type 0} → Bool → Option Bool → Managed S D → Managed S D
flagged old none m = m
flagged old (some e) m = with_event e m

-- `for task in producer.all_tasks(): ensure_fatal(task, exit_event=producer.events.recycle_event)`
pub watch : {S D : Type 0} → Managed S D → Result (Unit {0}) (Unit {0}) × Managed S D
watch m = elim (producer_of m).production_task [
  | none ↦ (ok tt, m)
  | some task ↦
      let (r, event) = ensure_fatal task (some (needs_recycle m)) in
      (r, flagged (needs_recycle m) event m)
]

-- `start_producing` of a producer, as far as the main loop sees it. That of a brokered producer
-- does not raise; that of another one may, and leaves the task that it made, if any.
abbrev pub start_one : {S D : Type 0} → Bool × Option TaskState → Managed S D → Managed S D
start_one (fails, task) (brokered s) = brokered (record s { producer = start_producing s.producer })
start_one (fails, task) (plain p) =
    let started = record p { production_task = task } in
    plain (if fails then record started { recycle_event = true } else started)

-- A loop over the producers, from what its body makes of the first, and what the loop makes of the
-- others unless the body raises and leaves them as they are.
abbrev pub gathered :
    {S D : Type 0}
    → List (Managed S D)
    → Result (Unit {0}) (Unit {0}) × Managed S D
    → Result (Unit {0}) (Unit {0}) × List (Managed S D)
    → Result (Unit {0}) (Unit {0}) × List (Managed S D)
gathered ms (ok _, m') (r', rest) = (r', m' ∷ rest)
gathered ms (raises _, m') _ = (raises tt, m' ∷ ms)

-- The loop of `start_working` over the producers, which an exception of `ensure_fatal` leaves.
pub start_all :
    {S D : Type 0}
    → List ((Bool × Option TaskState) × Managed S D)
    → Result (Unit {0}) (Unit {0}) × List (Managed S D)
unfolding watch
start_all [] = (ok tt, [])
start_all ((start, m) ∷ ms) =
    gathered (map (λ x. x.1) ms) (watch (start_one start m)) (start_all ms)

-- What one round of `while True` in `main` comes to.
pub data Round (S D : Type 0) : Type 0 where
  sleeps stops : Round S D
  goes_on fails : List (Managed S D) → Round S D

abbrev pub after_recycle :
    {S D : Type 0} → Result (Unit {0}) (Unit {0}) × List (Managed S D) → Round S D
after_recycle (ok _, producers) = goes_on producers
after_recycle (raises _, producers) = fails producers

module _ {E S Destination D : Type 0} (broker : Protocol E S Destination) (now : ℕ) where
  as_managed :
      Result (Unit {0}) (Unit {0}) × Service S D → Result (Unit {0}) (Unit {0}) × Managed S D
  as_managed (r, s) = (r, brokered s)

  -- `producer.recycle()`, which does nothing but for a brokered producer.
  pub recycle_managed : Managed S D → Result (Unit {0}) (Unit {0}) × Managed S D
  unfolding as_managed
  recycle_managed (brokered s) = as_managed (recycle broker now s)
  recycle_managed (plain p) = (ok tt, plain p)

  pub recycle_one : Managed S D → Result (Unit {0}) (Unit {0}) × Managed S D
  unfolding recycle_managed watch
  recycle_one m = if needs_recycle m then and_then (recycle_managed m) (λ _. watch) else (ok tt, m)

  -- `recycle_broker_producers`
  pub recycle_all : List (Managed S D) → Result (Unit {0}) (Unit {0}) × List (Managed S D)
  unfolding recycle_one
  recycle_all [] = (ok tt, [])
  recycle_all (m ∷ ms) = gathered ms (recycle_one m) (recycle_all ms)

  -- `main_loop_wait` and what follows, at a moment at which some events are set.
  pub main_round : Bool → List (Managed S D) → Round S D
  unfolding recycle_all
  main_round exit_event producers = elim (wait_for_any (exit_event ∷ map needs_recycle producers)) [
    | none ↦ sleeps
    | some _ ↦ if exit_event then stops else after_recycle (recycle_all producers)
  ]
