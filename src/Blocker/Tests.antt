-- ===== src/Blocker/Tests.antt =====
-- The blocker at concrete inputs: one serial task runs, and two more wait for it.
use dispatcher_fork.Base.{◌≡◌, ◌⊎◌, not, ◌||◌, arith, select}
use dispatcher_fork.Blocker.{process_task, pop_unblocked_messages, already_running, already_queued}
use dispatcher_fork.Blocker.Outcome.{Passes, Holds, Drops, process_task-outcome}
use dispatcher_fork.Blocker.Release.{Distinct, pop_unblocked_messages-eq-select}
use dispatcher_fork.Samples.{busy_pool, ping}

process_task-outcome_example :
    Passes busy_pool.workers
      (ping 9)
      busy_pool.blocker
      (process_task busy_pool.workers (ping 9) busy_pool.blocker)
    ⊎ (Holds busy_pool.workers
          (ping 9)
          busy_pool.blocker
          (process_task busy_pool.workers (ping 9) busy_pool.blocker)
        ⊎ Drops busy_pool.workers
            (ping 9)
            busy_pool.blocker
            (process_task busy_pool.workers (ping 9) busy_pool.blocker))
process_task-outcome_example = process_task-outcome busy_pool.workers (ping 9) busy_pool.blocker

held_twice : Distinct busy_pool.blocker.blocked_messages
held_twice i = ground arith

pop_unblocked_messages-eq-select_example :
    pop_unblocked_messages busy_pool.workers busy_pool.blocker ≡ (
      select
          (λ m. not (already_running busy_pool.workers m || already_queued m busy_pool.blocker))
          busy_pool.blocker.blocked_messages,
      record (busy_pool.blocker) {
        blocked_messages =
            select
              (λ m. already_running busy_pool.workers m || already_queued m busy_pool.blocker)
              busy_pool.blocker.blocked_messages;
      },
    )
pop_unblocked_messages-eq-select_example =
    pop_unblocked_messages-eq-select busy_pool.workers busy_pool.blocker held_twice
