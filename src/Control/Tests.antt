-- ===== src/Control/Tests.antt =====
-- The control actions at a concrete dispatcher. A request without items matches every task.
use dispatcher_fork.Base.{◌≡◌, refl, [], In}
use dispatcher_fork.Json.{end, truthy, get, find}
use dispatcher_fork.Control.{task_filter_match, running, cancel}
use dispatcher_fork.Control.Requests.{listing, running-listing, cancel-skips}
use dispatcher_fork.Samples.{busy_dispatcher, ping, sleep}

running-listing_example :
    running end busy_dispatcher ≡ (listing end busy_dispatcher, busy_dispatcher)
running-listing_example = running-listing end busy_dispatcher

cancel-skips_example : In (sleep 5) (cancel end busy_dispatcher).1.pool.queuer.queued_messages
unfolding task_filter_match truthy get find
cancel-skips_example = cancel-skips end busy_dispatcher (ping 2) (sleep 5) [] refl refl refl tt
