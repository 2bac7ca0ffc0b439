-- ===== src/Pool/Tasks.antt =====
-- The tasks that a pool holds, and the invariant under which none is lost or run twice.
use dispatcher_fork.Base.{
  ◌+◌, ◌≡◌, Bool, true, List, ◌++◌, arith, ◌==◌, count, count-append, length, length-append,
}
use dispatcher_fork.Message.{Message, holds_items}
use dispatcher_fork.Queuer.{running_tasks}
use dispatcher_fork.Queuer
use dispatcher_fork.Blocker
use dispatcher_fork.Workers.Tasks.{length-running_tasks}
use dispatcher_fork.Pool.{Pool, received_count, processed_count}

-- Running on a worker, waiting for a worker, or held back as a duplicate.
abbrev pub tasks : Pool → List Message
tasks p = running_tasks p.workers ++ (p.queuer.queued_messages ++ p.blocker.blocked_messages)

abbrev pub HoldsItems : Message → Type 0
HoldsItems m = holds_items m ≡ true

-- No task of the pool is this object.
abbrev pub IsFresh : Message → Pool → Type 0
IsFresh m p = count (λ x. x.ident == m.ident) (tasks p) ≡ 0

pub count-tasks :
    (q : Message → Bool) (p : Pool)
    → count q (tasks p)
      ≡ count q (running_tasks p.workers)
        + count q p.queuer.queued_messages
        + count q p.blocker.blocked_messages
count-tasks q p = omega (
  arith,
  count-append q (running_tasks p.workers) (p.queuer.queued_messages ++ p.blocker.blocked_messages),
  count-append q p.queuer.queued_messages p.blocker.blocked_messages,
)

-- `received_count` is the number of tasks that were dealt with and of those that are left.
pub received_count-eq : (p : Pool) → received_count p ≡ processed_count p + length (tasks p)
unfolding received_count Queuer.count Blocker.count
received_count-eq p = omega (
  arith,
  length-running_tasks p.workers,
  length-append (running_tasks p.workers) (p.queuer.queued_messages ++ p.blocker.blocked_messages),
  length-append p.queuer.queued_messages p.blocker.blocked_messages,
)
