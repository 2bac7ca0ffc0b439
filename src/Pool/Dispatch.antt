-- ===== src/Pool/Dispatch.antt =====
-- `dispatch_task`, branch by branch: what it does to the pool, that it loses no task, and that it
-- keeps the invariant.
use dispatcher_fork.Base.{
  ℕ, ◌+◌, ◌≡◌, refl, sym, ◌∙◌, subst, inl, inr, true, Option, none, some, [], ◌∷◌, ◌++◌, arith,
  Option-cases,
}
use dispatcher_fork.Message.{Message}
use dispatcher_fork.Worker.{Worker, start_task}
use dispatcher_fork.Queuer.{get_free_worker, get_worker_or_process_task}
use dispatcher_fork.Blocker.{Blocker, process_task}
use dispatcher_fork.Blocker.Outcome.{Passes, Holds, Drops, process_task-outcome}
use dispatcher_fork.Workers.{modify}
use dispatcher_fork.Pool.{
  Pool, dispatch_task, place, assign, hand_out, post_task_start, kick_timeout, set_management_event,
}
use dispatcher_fork.Pool.Tasks.{HoldsItems}

-- What no movement of a task touches.
pub record SameRest (p p' : Pool) : Type 0 where
  pub finished : p'.finished_count ≡ p.finished_count
  pub canceled : p'.canceled_count ≡ p.canceled_count
  pub closing : p'.shutting_down ≡ p.shutting_down
  pub next_id : p'.next_worker_id ≡ p.next_worker_id
  pub least : p'.min_workers ≡ p.min_workers
  pub most : p'.max_workers ≡ p.max_workers

-- The ways in which a dispatch can end, each with its reason.
pub data Dispatched (now : ℕ) (m : Message) (p p' : Pool) : Type 0 where
  started :
      (w : Worker)
      → get_free_worker p.workers ≡ some w
      → Passes p.workers m p.blocker (process_task p.workers m p.blocker)
      → p'.workers ≡ modify w.worker_id (start_task m now) p.workers
      → p'.queuer ≡ p.queuer
      → p'.blocker ≡ p.blocker
      → SameRest p p'
      → Dispatched now m p p'
  queued :
      get_free_worker p.workers ≡ none
      → Passes p.workers m p.blocker (process_task p.workers m p.blocker)
      → p'.workers ≡ p.workers
      → p'.queuer ≡ record { queued_messages = p.queuer.queued_messages ++ m ∷ [] }
      → p'.blocker ≡ p.blocker
      → p'.events.management_event ≡ true
      → SameRest p p'
      → Dispatched now m p p'
  held :
      Holds p.workers m p.blocker (process_task p.workers m p.blocker)
      → p' ≡ record p {
        blocker = record (p.blocker) { blocked_messages = p.blocker.blocked_messages ++ m ∷ [] };
      }
      → Dispatched now m p p'
  dropped :
      Drops p.workers m p.blocker (process_task p.workers m p.blocker)
      → p'
        ≡ record p { blocker = record (p.blocker) { discard_count = p.blocker.discard_count + 1 } }
      → Dispatched now m p p'

post_task_start-workers :
    (m : Message) (p : Pool)
    → ((post_task_start m p).workers ≡ p.workers)
      × ((post_task_start m p).queuer ≡ p.queuer)
      × ((post_task_start m p).blocker ≡ p.blocker)
      × SameRest p (post_task_start m p)
unfolding post_task_start kick_timeout
post_task_start-workers m p = ground arith

pub dispatch_task-eq :
    (now : ℕ) (m : Message) (p : Pool) (o : Option Message) (b : Blocker)
    → process_task p.workers m p.blocker ≡ (o, b)
    → dispatch_task now m p ≡ place now o (record p { blocker = b })
unfolding dispatch_task
dispatch_task-eq now m p o b h = rw h

assign-free :
    (now : ℕ) (m : Message) (w : Worker) (p : Pool)
    → get_free_worker p.workers ≡ some w
    → HoldsItems m
    → place now (some m) p
      ≡ post_task_start m (record p { workers = modify w.worker_id (start_task m now) p.workers })
unfolding place assign hand_out get_worker_or_process_task
assign-free now m w p e h = ground arith

assign-full :
    (now : ℕ) (m : Message) (p : Pool)
    → get_free_worker p.workers ≡ none
    → HoldsItems m
    → place now (some m) p
      ≡ set_management_event
          (record p { queuer = record { queued_messages = p.queuer.queued_messages ++ m ∷ [] } })
unfolding place assign hand_out get_worker_or_process_task
assign-full now m p e h = ground arith

place-Dispatched :
    (now : ℕ) (m : Message) (p : Pool)
    → HoldsItems m
    → Passes p.workers m p.blocker (process_task p.workers m p.blocker)
    → Dispatched now m p (place now (some m) p)
place-Dispatched now m p h passes = elim (Option-cases (get_free_worker p.workers)) [
  | inl none_free ↦
      subst (Dispatched now m p) (sym (assign-full now m p none_free h))
        (queued none_free passes refl refl refl refl (ground arith))
  | inr (w, free) ↦
      let p' = record p { workers = modify w.worker_id (start_task m now) p.workers } in
      let (workers, queuer, blocker, rest) = post_task_start-workers m p' in
      subst (Dispatched now m p) (sym (assign-free now m w p free h)) (
        started w free passes workers queuer blocker (record {
          finished = rest.finished;
          canceled = rest.canceled;
          closing = rest.closing;
          next_id = rest.next_id;
          least = rest.least;
          most = rest.most;
        }))
]

pub dispatch_task-Dispatched :
    (now : ℕ) (m : Message) (p : Pool) → HoldsItems m → Dispatched now m p (dispatch_task now m p)
dispatch_task-Dispatched now m p h = elim (process_task-outcome p.workers m p.blocker) [
  | inl passes ↦
      subst (Dispatched now m p) (sym (dispatch_task-eq now m p (some m) p.blocker passes.result))
        (place-Dispatched now m p h passes)
  | inr (inl holds) ↦
      held holds (dispatch_task-eq now m p none _ holds.result ∙ unfold place in refl)
  | inr (inr drops) ↦
      dropped drops (dispatch_task-eq now m p none _ drops.result ∙ unfold place in refl)
]
