-- ===== src/TaskWorker/Tests.antt =====
-- A worker process at concrete messages.
use dispatcher_fork.Base.{ℕ, suc, ◌≡◌, false, arith, String, Option, none, List, [], ◌∷◌}
use dispatcher_fork.Json.{Value, str, num, array, object, nil, cons, Fields, field, end}
use dispatcher_fork.TaskWorker.{
  Call, returned, perform_fueled, perform_work, Round, message, text, work_loop, get_ready_message,
  depth,
}
use dispatcher_fork.TaskWorker.Depth.{perform_work-enough}
use dispatcher_fork.TaskWorker.Protocol.{Lived, work_loop-Lived}

-- A process that counts the tasks that it has run, and returns the count.
abbrev counted : Fields → ℕ → Call × ℕ
counted fs n = (returned (num n), suc n)

abbrev with_callback : Fields
with_callback =
    field "task" (str "a")
      (field "callbacks" (array (cons (object (field "task" (str "b") end)) nil)) end)

perform_work-enough_example :
    perform_fueled counted 10 with_callback 0 ≡ perform_work counted with_callback 0
unfolding depth
perform_work-enough_example = perform_work-enough counted 10 with_callback 0 (omega arith)

abbrev no_json : String → Option Value
no_json _ = none

abbrev rounds : List Round
rounds =
    record {
      should_exit = false;
      arrival = message with_callback;
      time_started = 1;
      time_finish = 2;
    }
    ∷ record { should_exit = false; arrival = text "stop"; time_started = 3; time_finish = 3 }
    ∷ []

work_loop-Lived_example :
    Lived 4 2 (work_loop (λ s. s) no_json counted 4 rounds 0) (get_ready_message 4 ∷ [])
work_loop-Lived_example = work_loop-Lived (λ s. s) no_json counted 4 rounds 0
