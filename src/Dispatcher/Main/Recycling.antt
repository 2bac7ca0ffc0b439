-- ===== src/Dispatcher/Main/Recycling.antt =====
-- What the main loop makes of producers that ask to be recycled.
use dispatcher_fork.Base.{
  ℕ, ◌≡◌, refl, ap, ◌∙◌, Bool, true, false, not, ◌&&◌, ◌||◌, Option, none, some, List, [], ◌∷◌, map,
  any, All, arith, if◌then◌else◌, ok, Bool-cases, inl, inr, suc,
}
use dispatcher_fork.AsyncTasks.{
  TaskState, running, returned, canceled, failed, ensure_fatal, wait_for_any,
}
use dispatcher_fork.Brokered.{
  Protocol, Producer, Service, has_ended, start_producing, shutdown, recycle,
}
use dispatcher_fork.Dispatcher.Main.{
  Managed, brokered, plain, needs_recycle, watch, recycle_managed, recycle_one, recycle_all,
  goes_on, main_round, after_recycle, gathered,
}

-- A brokered producer whose task has ended can be recycled, and one of another class is no danger
-- if it has no task that was canceled or failed.
abbrev harmless : Option TaskState → Bool
harmless none = true
harmless (some running) = true
harmless (some returned) = true
harmless (some canceled) = false
harmless (some failed) = false

abbrev pub can_recycle : {S D : Type 0} → Managed S D → Bool
can_recycle (brokered s) = has_ended s.producer.production_task && s.producer.has_dispatcher
can_recycle (plain p) = harmless p.production_task

-- A producer of another class without a task.
abbrev pub is_stuck : {S D : Type 0} → Managed S D → Bool
is_stuck (brokered s) = false
is_stuck (plain p) = elim p.production_task [ none ↦ true | some _ ↦ false ]

module _ {E S Destination D : Type 0} (broker : Protocol E S Destination) (now : ℕ) where
  -- What recycling leaves: a brokered producer has closed its broker and runs a new task; one of
  -- another class is as it was, its event still set.
  abbrev pub recycled : Managed S D → Managed S D
  recycled (brokered s) = brokered (record s {
    producer = record (s.producer) { production_task = some running; recycle_event = false };
    broker = broker.aclose now s.broker;
  })
  recycled (plain p) = plain p

  abbrev pub settled : Managed S D → Managed S D
  settled m = if needs_recycle m then recycled m else m

  recycle_one-plain :
      (p : Producer)
      → (not p.recycle_event || harmless p.production_task) ≡ true
      → recycle_one {D = D} broker now (plain p) ≡ (ok tt, plain p)
  unfolding recycle_one recycle_managed watch ensure_fatal
  recycle_one-plain p h = ground (arith, h)

  recycle_one-brokered :
      (s : Service S D)
      → s.producer.recycle_event ≡ true
      → (has_ended s.producer.production_task && s.producer.has_dispatcher) ≡ true
      → recycle_one broker now (brokered s) ≡ (ok tt, recycled (brokered s))
  unfolding recycle_one recycle_managed watch ensure_fatal recycle shutdown start_producing
  recycle_one-brokered s e h = ground (arith, e, h)

  recycle_one-calm :
      (m : Managed S D) → needs_recycle m ≡ false → recycle_one broker now m ≡ (ok tt, m)
  unfolding recycle_one
  recycle_one-calm m e = rw (e, recycle_one) refl

  recycle_one-settled :
      (m : Managed S D)
      → (not (needs_recycle m) || can_recycle m) ≡ true
      → recycle_one broker now m ≡ (ok tt, settled m)
  recycle_one-settled (plain p) h = recycle_one-plain p h ∙ ground arith
  recycle_one-settled (brokered s) h = elim (Bool-cases s.producer.recycle_event) [
    | inl e ↦ recycle_one-brokered s e (ground (arith, h, e)) ∙ ground (arith, e)
    | inr e ↦ recycle_one-calm (brokered s) e ∙ ground (arith, e)
  ]

  -- If every producer that asks to be recycled can be (a brokered one whose task has ended after
  -- it had begun, or one of another class without a canceled or failed task),
  -- recycle_broker_producers returns, and afterwards each brokered producer that asked has
  -- closed its broker, cleared its event and runs a new task; every other producer is as it was.
  pub recycle_all-settled :
      (ms : List (Managed S D))
      → All (λ m. (not (needs_recycle m) || can_recycle m) ≡ true) ms
      → recycle_all broker now ms ≡ (ok tt, map settled ms)
  unfolding recycle_all
  recycle_all-settled [] h = refl
  recycle_all-settled (m ∷ ms) h =
      ap (λ x. gathered ms x (recycle_all broker now ms)) (recycle_one-settled m h.0)
      ∙ ap (gathered ms (ok tt, settled m)) (recycle_all-settled ms h.1)

  stuck-can_recycle :
      (m : Managed S D)
      → (not (needs_recycle m) || is_stuck m) ≡ true
      → (not (needs_recycle m) || can_recycle m) ≡ true
  stuck-can_recycle (brokered s) h = ground (arith, h)
  stuck-can_recycle (plain p) h = ground (arith, h)

  stuck-settled : (m : Managed S D) → (not (needs_recycle m) || is_stuck m) ≡ true → settled m ≡ m
  stuck-settled (brokered s) h = ground (arith, h)
  stuck-settled (plain p) h = ground (arith, h)

  all_stuck-recycle_all :
      (ms : List (Managed S D))
      → All (λ m. (not (needs_recycle m) || is_stuck m) ≡ true) ms
      → recycle_all broker now ms ≡ (ok tt, ms)
  unfolding recycle_all
  all_stuck-recycle_all [] h = refl
  all_stuck-recycle_all (m ∷ ms) h =
      ap (λ x. gathered ms x (recycle_all broker now ms))
        (recycle_one-settled m (stuck-can_recycle m h.0))
      ∙ ap (gathered ms (ok tt, settled m)) (all_stuck-recycle_all ms h.1)
      ∙ ap (λ x. (ok tt, x ∷ ms)) (stuck-settled m h.0)

  any-wait_for_any :
      (ms : List (Managed S D))
      → any needs_recycle ms ≡ true
      → (i : ℕ) × (wait_for_any (map needs_recycle ms) ≡ some i)
  unfolding wait_for_any
  any-wait_for_any [] h = absurd (ground (arith, h))
  any-wait_for_any (m ∷ ms) h = elim (Bool-cases (needs_recycle m)) [
    | inl e ↦ (0, rw e refl)
    | inr e ↦
        let (i, q) = any-wait_for_any ms (ground (arith, h, e)) in
        (suc i, rw (e, wait_for_any, q) refl)
  ]

  -- A producer of another class without a task, with its event set, is never recycled: as long
  -- as no other producer asks and the service is not told to exit, each round of the main loop
  -- finds the event set and goes on at once with all as it was.
  pub main_round-spins :
      (ms : List (Managed S D))
      → any needs_recycle ms ≡ true
      → All (λ m. (not (needs_recycle m) || is_stuck m) ≡ true) ms
      → main_round broker now false ms ≡ goes_on ms
  unfolding main_round wait_for_any
  main_round-spins ms some_set h =
      let (i, q) = any-wait_for_any ms some_set in
      rw (main_round, wait_for_any, q) (ap after_recycle (all_stuck-recycle_all ms h))
