-- ===== src/Worker/Tests.antt =====
-- `stop` at a concrete worker.
use dispatcher_fork.Base.{false, ltb}
use dispatcher_fork.Worker.{Worker, ready}
use dispatcher_fork.Worker.Stop.{Ending}
use dispatcher_fork.Samples.{sleep, worker_with}

-- The exit message never comes, and the process lives through two looks.
abbrev stubborn : Ending
stubborn = record { exit_seen = false; is_alive = λ i. ltb i 2 }

abbrev sleeper : Worker
sleeper = worker_with 0 ready (sleep 1)
