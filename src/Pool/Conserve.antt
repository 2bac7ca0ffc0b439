-- ===== src/Pool/Conserve.antt =====
-- No task is lost: what `dispatch_task` does to the tasks of the pool, and to its invariant.
use dispatcher_fork.Base.{
  ℕ, ◌+◌, ◌≡◌, ap, Bool, true, Option, some, List, [], ◌∷◌, ◌++◌, arith, count, count-append, All,
  length,
}
use dispatcher_fork.Message.{Message}
use dispatcher_fork.Worker.{Worker, start_task}
use dispatcher_fork.Queuer.{Queuer, get_free_worker, task_of, running_tasks}
use dispatcher_fork.Blocker.{Blocker}
use dispatcher_fork.Blocker.Outcome.{Drops, is_droppable}
use dispatcher_fork.Workers.{modify}
use dispatcher_fork.Workers.Tasks.{Rising, running_tasks-modify, get_by_id-free}
use dispatcher_fork.Pool.{Pool, dispatch_task}
use dispatcher_fork.Pool.Started.{start_task-fields, task_of-busy, task_of-free}
use dispatcher_fork.Pool.Tasks.{tasks, count-tasks, HoldsItems}
use dispatcher_fork.Pool.Dispatch.{
  Dispatched, started, queued, held, dropped, dispatch_task-Dispatched,
}

abbrev pub IsDroppable : Message → Type 0
IsDroppable m = is_droppable m ≡ true

-- From `p` to `p'` the pool has received the tasks `more`. Every task is still there, as often as
-- before by any test, but for the `lost` ones, which `discard_count` counts and whose publisher
-- allowed it.
pub record Keeps (more : List Message) (p p' : Pool) : Type 0 where
  pub lost : List Message
  pub same :
      (q : Message → Bool) → count q lost + count q (tasks p') ≡ count q more + count q (tasks p)
  pub discards : p'.blocker.discard_count ≡ p.blocker.discard_count + length lost
  pub droppable : All IsDroppable lost
  pub finished : p'.finished_count ≡ p.finished_count
  pub canceled : p'.canceled_count ≡ p.canceled_count

-- A started task is one more running task.
pub running_tasks-start :
    (q : Message → Bool) (now : ℕ) (m : Message) (w : Worker) (ws : List Worker)
    → Rising 0 ws
    → get_free_worker ws ≡ some w
    → HoldsItems m
    → count q (running_tasks (modify w.worker_id (start_task m now) ws))
      ≡ count q (m ∷ []) + count q (running_tasks ws)
running_tasks-start q now m w ws r e h =
    let (found, free) = get_by_id-free 0 w ws r e in
    let (_, task, _) = start_task-fields m now w in
    omega (
      arith,
      running_tasks-modify q w.worker_id (start_task m now) w ws found,
      ap (count q) (task_of-free w free),
      ap (λ t. count q (task_of t)) task,
      ap (count q) (task_of-busy m h),
    )

Drops-IsDroppable :
    {ws : List Worker} {m : Message} {b : Blocker} {r : Option Message × Blocker}
    → Drops ws m b r
    → IsDroppable m
unfolding is_droppable
Drops-IsDroppable {m = m} d = ground (arith, d.reason)

module _ (now : ℕ) (m : Message) (p p' : Pool) (v : Rising 0 p.workers) (h : HoldsItems m) where
  Dispatched-Keeps : Dispatched now m p p' → Keeps (m ∷ []) p p'
  Dispatched-Keeps (started w e passes ws q b rest) = record {
    lost = [];
    same = λ t. omega (
      arith,
      count-tasks t p,
      count-tasks t p',
      ap (λ x. count t (running_tasks x)) ws,
      ap (λ (x : Queuer). count t x.queued_messages) q,
      ap (λ (x : Blocker). count t x.blocked_messages) b,
      running_tasks-start t now m w p.workers v e h,
    );
    discards = omega (arith, ap (λ (x : Blocker). x.discard_count) b);
    droppable = tt;
    finished = rest.finished;
    canceled = rest.canceled;
  }
  Dispatched-Keeps (queued e passes ws q b event rest) = record {
    lost = [];
    same = λ t. omega (
      arith,
      count-tasks t p,
      count-tasks t p',
      ap (λ x. count t (running_tasks x)) ws,
      ap (λ (x : Queuer). count t x.queued_messages) q,
      ap (λ (x : Blocker). count t x.blocked_messages) b,
      count-append t p.queuer.queued_messages (m ∷ []),
    );
    discards = omega (arith, ap (λ (x : Blocker). x.discard_count) b);
    droppable = tt;
    finished = rest.finished;
    canceled = rest.canceled;
  }
  Dispatched-Keeps (held holds e) = record {
    lost = [];
    same = λ t. omega (
      arith,
      count-tasks t p,
      ap (λ (x : Pool). count t (tasks x)) e,
      count-tasks t (record p {
        blocker = record (p.blocker) { blocked_messages = p.blocker.blocked_messages ++ m ∷ [] };
      }),
      count-append t p.blocker.blocked_messages (m ∷ []),
    );
    discards = omega (arith, ap (λ (x : Pool). x.blocker.discard_count) e);
    droppable = tt;
    finished = ap (λ (x : Pool). x.finished_count) e;
    canceled = ap (λ (x : Pool). x.canceled_count) e;
  }
  Dispatched-Keeps (dropped drops e) = record {
    lost = m ∷ [];
    same = λ t. ap (λ (x : Pool). count t (m ∷ []) + count t (tasks x)) e;
    discards = omega (arith, ap (λ (x : Pool). x.blocker.discard_count) e);
    droppable = (Drops-IsDroppable drops, tt);
    finished = ap (λ (x : Pool). x.finished_count) e;
    canceled = ap (λ (x : Pool). x.canceled_count) e;
  }

pub dispatch_task-Keeps :
    (now : ℕ) (m : Message) (p : Pool)
    → Rising 0 p.workers
    → HoldsItems m
    → Keeps (m ∷ []) p (dispatch_task now m p)
dispatch_task-Keeps now m p v h =
    Dispatched-Keeps now m p (dispatch_task now m p) v h (dispatch_task-Dispatched now m p h)
