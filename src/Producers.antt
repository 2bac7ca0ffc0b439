-- ===== src/Producers.antt =====
-- dispatcherd/producers/scheduled.py and on_start.py: tasks that the service submits to itself.
pub mod Scheduled
use dispatcher_fork.Base.{
  ℕ, suc, ◌+◌, Bool, true, false, Option, none, some, List, [], ◌∷◌, ◌++◌, map, String, concat,
  decimal, if◌then◌else◌, ◌==◌, select,
}
use dispatcher_fork.Json.{Value, str, Fields, end, field, get, put, erase}
use dispatcher_fork.Worker.{seconds}
use dispatcher_fork.Wakeup.{Runner, new_runner, kick}

-- `ScheduleEntry`; `entry_id` is the identity of the object.
pub record ScheduleEntry : Type 0 where
  pub entry_id : ℕ
  pub period : ℕ
  pub last_ran : ℕ
  pub body : Fields

abbrev pub mark_run : ℕ → ScheduleEntry → ScheduleEntry
mark_run now e = record e { last_ran = now }

-- `ScheduleEntry.next_wakeup`
abbrev pub entry_wakeup : ScheduleEntry → Option ℕ
entry_wakeup e = some (e.last_ran + e.period)

-- `ScheduledProducer`, with the set that its runner walks over.
pub record ScheduledProducer : Type 0 where
  pub produced_count : ℕ
  pub schedule_entries : List ScheduleEntry
  pub has_dispatcher : Bool
  pub schedule_runner : Runner
  pub ready_event : Bool

abbrev pub new_producer : ScheduledProducer
new_producer = record {
  produced_count = 0;
  schedule_entries = [];
  has_dispatcher = false;
  schedule_runner = new_runner;
  ready_event = false;
}

-- The message of one run of an entry.
abbrev pub scheduled_message : ℕ → ScheduleEntry → Fields
scheduled_message count e = put "uuid" (str (concat "sch-" (decimal count))) e.body

-- `trigger_schedule`: the message for the dispatcher, if it is there, and the producer after it.
pub trigger_schedule : ℕ → ScheduleEntry → ScheduledProducer → Option Fields × ScheduledProducer
trigger_schedule now e p =
    let count = p.produced_count + 1 in
    (
      if p.has_dispatcher then some (scheduled_message count e) else none,
      record p {
        produced_count = count;
        schedule_entries =
            map (λ x. if x.entry_id == e.entry_id then mark_run now x else x) p.schedule_entries;
      },
    )

-- The entries that `start_producing` makes: one for each task of the schedule, with the options
-- as its body, the task name set and the period taken out.
pub make_entries : ℕ → ℕ → List (String × Fields) → List ScheduleEntry
make_entries now i [] = []
make_entries now i ((task, options) ∷ schedule) =
    let named = put "task" (str task) options in
    record {
      entry_id = i;
      period = seconds (get "schedule" named);
      last_ran = now;
      body = erase "schedule" named;
    }
    ∷ make_entries now (suc i) schedule

-- The first `start_producing`; `i` is the first of the new identities. Every schedule has a
-- period, which is a number.
pub start_producing : ℕ → ℕ → List (String × Fields) → ScheduledProducer → ScheduledProducer
unfolding make_entries
start_producing now i schedule p =
    let entries = p.schedule_entries ++ make_entries now i schedule in
    record p {
      schedule_entries = entries;
      has_dispatcher = true;
      schedule_runner = kick (map entry_wakeup entries) p.schedule_runner;
      ready_event = true;
    }

-- `OnStartProducer.start_producing`: the messages that it has the dispatcher process, in order,
-- from a given `produced_count`.
pub on_start_messages : ℕ → List (String × Fields) → List Fields
on_start_messages count [] = []
on_start_messages count ((task, options) ∷ tasks) =
    let named = put "task" (str task) options in
    put "uuid" (str (concat "on-start-" (decimal count))) named
    ∷ on_start_messages (count + 1) tasks
