-- ===== src/Dispatcher/Tests.antt =====
-- Messages and control actions at a concrete dispatcher.
use dispatcher_fork.Base.{◌≡◌, refl, none, some, Option, [], ◌∷◌, map, true, false, ok, ℕ}
use dispatcher_fork.Json.{Value, Fields, end, contains, find}
use dispatcher_fork.Dispatcher.Routing.{process_dict}
use dispatcher_fork.Dispatcher.Routing.Messages.{Routed, process_dict-Routed}
use dispatcher_fork.AsyncTasks.{failed}
use dispatcher_fork.Brokered.{new_producer}
use dispatcher_fork.Socket.Server.{Server, new_server}
use dispatcher_fork.Socket.Server.Posting.{serving}
use dispatcher_fork.Dispatcher.Main.{Managed, brokered, plain, recycle_all, goes_on, main_round}
use dispatcher_fork.Dispatcher.Main.Recycling.{settled, recycle_all-settled, main_round-spins}
use dispatcher_fork.Samples.{busy_dispatcher, sleep}

-- `aio_tasks` finds no task.
abbrev no_tasks : Value → Option Fields
no_tasks _ = some end

process_dict-Routed_example :
    Routed no_tasks 20 1
      (sleep 9)
      busy_dispatcher
      (process_dict no_tasks 20 1 none (some "tasks") (sleep 9) busy_dispatcher)
unfolding contains find
process_dict-Routed_example =
    process_dict-Routed no_tasks 20 1 none (some "tasks") (sleep 9) busy_dispatcher refl

-- A brokered producer whose task failed, and one of another class that did not start.
abbrev broken : Managed Server ℕ
broken = brokered (record {
  producer = record new_producer {
    production_task = some failed;
    has_dispatcher = true;
    recycle_event = true;
  };
  broker = new_server;
  dispatcher = 0;
})

abbrev not_started : Managed Server ℕ
not_started = plain (record new_producer { recycle_event = true })

recycle_all-settled_example :
    recycle_all serving 20 (broken ∷ not_started ∷ [])
    ≡ (ok tt, map (settled serving 20) (broken ∷ not_started ∷ []))
recycle_all-settled_example =
    recycle_all-settled serving 20 (broken ∷ not_started ∷ []) (refl, (refl, tt))

main_round-spins_example :
    main_round serving 20 false (not_started ∷ []) ≡ goes_on (not_started ∷ [])
main_round-spins_example = main_round-spins serving 20 (not_started ∷ []) refl (refl, tt)
