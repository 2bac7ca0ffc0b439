-- ===== src/Pool/Tests.antt =====
-- The theorems about the pool at concrete inputs.
use dispatcher_fork.Base.{
  true, ◌++◌, ℕ, ◌+◌, ◌≤◌, ◌≡◌, refl, false, [], ◌∷◌, arith, ◌==◌, count, inl, inr,
}
use dispatcher_fork.Message.{holds_items}
use dispatcher_fork.Queuer.{running_tasks}
use dispatcher_fork.Blocker.{is_duplicate-twins}
use dispatcher_fork.Pool.{dispatch_task, unblock, drain_queue, received_count}
use dispatcher_fork.Pool.Exclusive.{AllApart}
use dispatcher_fork.Pool.Invariant.{IsValid}
use dispatcher_fork.Pool.Scaling.{scale_workers}
use dispatcher_fork.Pool.History.{
  here, next, receive, scale, run, message, scaling, new_pool, new_pool-exclusive, Reach-IsValid,
  received_count-run,
}
use dispatcher_fork.Pool.Shutdown.{Endings, shutdown}
use dispatcher_fork.Pool.Shutdown.Stopped.{shutdown-starts_nothing}
use dispatcher_fork.Pool.Starvation.{BothHeld}
use dispatcher_fork.Pool.Starvation.Forever.{Reach-BothHeld}
use dispatcher_fork.Samples.{busy_pool, sleep, ping}

distinct_idents :
    (i : ℕ) → count (λ m. m.ident == i) (sleep 1 ∷ ping 2 ∷ sleep 3 ∷ sleep 4 ∷ []) ≤ 1
distinct_idents i = ground arith

busy_pool-IsValid : IsValid busy_pool
unfolding running_tasks holds_items
busy_pool-IsValid = record {
  ids = (omega arith, (omega arith, tt));
  next_id = (omega arith, (omega arith, tt));
  distinct = λ i. distinct_idents i;
  queued_items = (refl, tt);
  blocked_items = (refl, (refl, tt));
  exclusive = (tt, tt);
}

new_pool-exclusive_example :
    AllApart
      (running_tasks (scale_workers 2 (dispatch_task 1 (sleep 9) (new_pool 1 4 15 30 30))).workers)
unfolding holds_items running_tasks new_pool
new_pool-exclusive_example =
    new_pool-exclusive 1 4 15 30 30
      (next (next here (receive 1 (sleep 9) refl refl refl)) (scale 2 refl))

Reach-IsValid_example : IsValid (scale_workers 2 (dispatch_task 20 (ping 9) busy_pool))
unfolding holds_items running_tasks
Reach-IsValid_example =
    Reach-IsValid (next (next here (receive 20 (ping 9) refl refl refl)) (scale 2 refl))
      busy_pool-IsValid

received_count-run_example :
    received_count (run (message 20 (ping 9) ∷ scaling 21 ∷ []) busy_pool)
    ≡ received_count busy_pool + 1
unfolding holds_items running_tasks
received_count-run_example =
    received_count-run (message 20 (ping 9) ∷ scaling 21 ∷ []) busy_pool busy_pool-IsValid
      ((refl, refl), (tt, tt))

Reach-BothHeld_example : BothHeld (sleep 3) (sleep 4) (scale_workers 20 busy_pool)
Reach-BothHeld_example =
    Reach-BothHeld (sleep 3) (sleep 4) (is_duplicate-twins (sleep 3) (sleep 4) refl refl)
      busy_pool-IsValid (inl refl, inr (inl refl)) (next here (scale 20 refl))

abbrev quiet_endings : Endings
quiet_endings = record {
  first = λ i. record { exit_seen = true; is_alive = λ j. false };
  found_alive = λ i. false;
  second = λ i. record { exit_seen = false; is_alive = λ j. false };
}

shutdown-starts_nothing_example :
    (dispatch_task 21 (ping 9) (shutdown 20 quiet_endings busy_pool)
      ≡ record (shutdown 20 quiet_endings busy_pool) {
        blocker = record ((shutdown 20 quiet_endings busy_pool).blocker) {
          blocked_messages = busy_pool.blocker.blocked_messages ++ ping 9 ∷ [];
        };
      })
    × (drain_queue 21 (shutdown 20 quiet_endings busy_pool)
        ≡ unblock (shutdown 20 quiet_endings busy_pool))
shutdown-starts_nothing_example = shutdown-starts_nothing 20 21 quiet_endings (ping 9) busy_pool
