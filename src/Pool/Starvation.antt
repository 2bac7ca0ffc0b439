-- ===== src/Pool/Starvation.antt =====
-- Two held messages for one call keep one another in the blocker.
pub mod Forever
use dispatcher_fork.Base.{
  ℕ, zero, suc, ◌+◌, ◌≡◌, refl, sym, ◌∙◌, ap, subst, ◌⊎◌, inl, inr, Bool, true, false, not, ◌&&◌,
  ◌||◌, Option, none, some, List, [], ◌∷◌, ◌++◌, arith, String, str_eq, if◌then◌else◌, In,
  In-append, In-select, any-In, any, all, is_some, Bool-cases, Option-cases,
}
use dispatcher_fork.Json.{Fields}
use dispatcher_fork.Message.{Message, holds_items}
use dispatcher_fork.Worker.{Worker, is_ready, inactive, start}
use dispatcher_fork.Queuer.{get_free_worker}
use dispatcher_fork.Blocker.{is_duplicate, already_running, already_queued}
use dispatcher_fork.Blocker.Release.{is_duplicate_comm}
use dispatcher_fork.Blocker.Outcome.{process_task-outcome}
use dispatcher_fork.Workers.{get_by_id, modify}
use dispatcher_fork.Pool.{
  Pool, dispatch_task, place, drain_queue, drain_loop, unblock, unqueue, process_finished,
  set_management_event,
}
use dispatcher_fork.Pool.Dispatch.{
  Dispatched, started, queued, held, dropped, dispatch_task-Dispatched,
}
use dispatcher_fork.Pool.Invariant.{IsValid}
use dispatcher_fork.Pool.Unblock.{unblock-eq}
use dispatcher_fork.Pool.Drain.{drain_queue_inv}
use dispatcher_fork.Pool.Finish.{process_finished-Finished, process_finished-IsValid}
use dispatcher_fork.Workers.Tasks.{found_id}
use dispatcher_fork.Pool.Results.{
  Report, stop_message, report, next, returned, pool_of, set_ready, set_exited, note_ready,
  on_ready, on_shutdown, on_done, on_event, handle_result,
}
use dispatcher_fork.Pool.Results.Invariant.{
  with_workers, KeepsTask, status-IsValid, note_ready-Keeps,
}
use dispatcher_fork.Pool.Scaling.{scale_workers, ups, up, stop_idle}
use dispatcher_fork.Pool.Scaling.Invariant.{scale_workers_cases}
use dispatcher_fork.Pool.Management.{Sight, manage_new_worker, manage_old_worker, remove_workers}
use dispatcher_fork.Pool.History.{
  Step, receive, read, scale, launch, look, forget, Reach, here, next as step_next,
}

or_true : (x : Bool) {y : Bool} → y ≡ true → (x || y) ≡ true
or_true x h = ground arith

-- Both messages are held.
abbrev pub BothHeld : Message → Message → Pool → Type 0
BothHeld a b p = In a p.blocker.blocked_messages × In b p.blocker.blocked_messages

-- Neither is released, whatever runs.
unblock-BothHeld :
    (a b : Message) (p : Pool)
    → is_duplicate a b ≡ true
    → IsValid p
    → BothHeld a b p
    → BothHeld a b (unblock p)
unfolding already_queued
unblock-BothHeld a b p twins v h =
    let held = p.blocker.blocked_messages in
    let stays_a = any-In (is_duplicate a) b held twins h.1 in
    let stays_b = any-In (is_duplicate b) a held (is_duplicate_comm b a ∙ twins) h.0 in
    rw (unblock-eq p v) (
      In-select (λ m. already_running p.workers m || any (is_duplicate m) held) a held
          (or_true _ stays_a) h.0,
      In-select (λ m. already_running p.workers m || any (is_duplicate m) held) b held
          (or_true _ stays_b) h.1,
    )

-- What is held stays held while another message is dispatched.
pub Dispatched-held :
    (x : Message) (now : ℕ) (m : Message) (p p' : Pool)
    → Dispatched now m p p'
    → In x p.blocker.blocked_messages
    → In x p'.blocker.blocked_messages
Dispatched-held x now m p p' (started w e passes ws q b rest) h = rw b h
Dispatched-held x now m p p' (queued e passes ws q b event rest) h = rw b h
Dispatched-held x now m p p' (held holds e) h =
    subst (λ (y : Pool). In x y.blocker.blocked_messages) (sym e)
      (In-append x p.blocker.blocked_messages (m ∷ []) h)
Dispatched-held x now m p p' (dropped drops e) h =
    subst (λ (y : Pool). In x y.blocker.blocked_messages) (sym e) h

module _ (a b : Message) where
  pub drain_queue-BothHeld :
      (now : ℕ) (p : Pool)
      → is_duplicate a b ≡ true
      → IsValid p
      → BothHeld a b p
      → BothHeld a b (drain_queue now p)
  drain_queue-BothHeld now p twins v h =
      drain_queue_inv (BothHeld a b)
        (λ now m p p' d k. (Dispatched-held a now m p p' d k.0, Dispatched-held b now m p p' d k.1))
        (λ ms p k. k) (λ e p k. k) now p v (unblock-BothHeld a b p twins v h)

  note_ready-BothHeld : (p : Pool) → BothHeld a b p → BothHeld a b (note_ready p)
  unfolding note_ready
  note_ready-BothHeld p h =
      let set = record (p.events) { workers_ready = true } in
      elim (all is_ready p.workers)
        as (λ x. BothHeld a b (if x then record p { events = set } else p)) [ true ↦ h | false ↦ h ]

  on_ready-BothHeld :
      (now i : ℕ) (p : Pool)
      → is_duplicate a b ≡ true
      → IsValid p
      → BothHeld a b p
      → BothHeld a b (on_ready now i p)
  unfolding on_ready
  on_ready-BothHeld now i p twins v h =
      let p' = with_workers i set_ready p in
      let keeps_task : KeepsTask set_ready = λ w. (refl, refl) in
      drain_queue-BothHeld now (note_ready p') twins
        (note_ready-Keeps p' (status-IsValid i set_ready p keeps_task v)).0
        (note_ready-BothHeld p' h)

  on_shutdown-BothHeld :
      (i : ℕ) (p : Pool) → BothHeld a b p → BothHeld a b (pool_of (on_shutdown i p))
  unfolding on_shutdown
  on_shutdown-BothHeld i p h =
      let p' = with_workers i set_exited p in
      elim p.shutting_down
        as (λ x. BothHeld a b (
          pool_of (
            if x
            then (if all inactive p'.workers then returned p' else next p')
            else next (set_management_event p')))) [
              | true ↦
                  elim (all inactive p'.workers)
                    as (λ x. BothHeld a b (pool_of (if x then returned p' else next p'))) [
                      | true ↦ h
                      | false ↦ h
                    ]
              | false ↦ h
            ]

  on_done-BothHeld :
      (now : ℕ) (w : Worker) (message : Fields) (p : Pool)
      → is_duplicate a b ≡ true
      → IsValid p
      → get_by_id w.worker_id p.workers ≡ some w
      → BothHeld a b p
      → BothHeld a b (on_done now w message p)
  unfolding on_done
  on_done-BothHeld now w message p twins v found h =
      let f = process_finished-Finished now w message p in
      drain_queue-BothHeld now (process_finished now w message p) twins
        (process_finished-IsValid now w message p v found) (rw f.blocker h)

  on_event-BothHeld :
      (now : ℕ) (w : Worker) (event : String) (message : Fields) (p : Pool)
      → is_duplicate a b ≡ true
      → IsValid p
      → get_by_id w.worker_id p.workers ≡ some w
      → BothHeld a b p
      → BothHeld a b (pool_of (on_event now w event message p))
  unfolding on_event
  on_event-BothHeld now w event message p twins v found h =
      elim (Bool-cases (str_eq event "ready")) [
        | inl e ↦ rw e (on_ready-BothHeld now w.worker_id p twins v h)
        | inr e ↦ rw e (elim (Bool-cases (str_eq event "shutdown")) [
          | inl e' ↦ rw e' (on_shutdown-BothHeld w.worker_id p h)
          | inr e' ↦ rw e' (elim (Bool-cases (str_eq event "done")) [
            | inl d ↦ rw d (on_done-BothHeld now w message p twins v found h)
            | inr d ↦ rw d h
          ])
        ])
      ]

  pub handle_result-BothHeld :
      (now : ℕ) (r : Report) (p : Pool)
      → is_duplicate a b ≡ true
      → IsValid p
      → BothHeld a b p
      → BothHeld a b (pool_of (handle_result now r p))
  unfolding handle_result
  handle_result-BothHeld now stop_message p twins v h =
      elim p.shutting_down as (λ x. BothHeld a b (pool_of (if x then returned p else next p))) [
        | true ↦ h
        | false ↦ h
      ]
  handle_result-BothHeld now (report i event message) p twins v h =
      elim (Option-cases (get_by_id i p.workers)) [
        | inl e ↦ rw (e, handle_result) h
        | inr (w, e) ↦
            rw (e, handle_result)
              (on_event-BothHeld now w event message p twins v
                (subst (λ j. get_by_id j p.workers ≡ some w) (sym (found_id i w p.workers e)) e) h)
      ]
