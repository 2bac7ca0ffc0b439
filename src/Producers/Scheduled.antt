-- ===== src/Producers/Scheduled.antt =====
-- What the producers submit, and when.
use dispatcher_fork.Base.{
  ℕ, suc, ◌+◌, ◌≡◌, refl, true, Option, some, List, [], ◌∷◌, map, arith, All, String, concat,
  decimal, if◌then◌else◌, ◌==◌, Bool-cases, inl, inr,
}
use dispatcher_fork.Json.{Value, str, Fields, find, put}
use dispatcher_fork.Json.Equality.{find-erase_ne}
use dispatcher_fork.Json.Lookup.{find-put_eq, find-put_ne}
use dispatcher_fork.Producers.{
  ScheduleEntry, mark_run, entry_wakeup, ScheduledProducer, scheduled_message, trigger_schedule,
  make_entries, on_start_messages,
}

abbrev pub task_of_body : Fields → Option Value
task_of_body = find "task"

abbrev pub named : String × Fields → Option Value
named x = some (str x.0)

-- What one run of an entry does.
pub record Triggered (now : ℕ) (e : ScheduleEntry) (p : ScheduledProducer)
    (r : Option Fields × ScheduledProducer) : Type 0 where
  pub counted : r.1.produced_count ≡ p.produced_count + 1
  pub restarted :
      All
        (λ x. (x.entry_id == e.entry_id) ≡ true → entry_wakeup x ≡ some (now + x.period))
        r.1.schedule_entries
  pub bodies :
      map (λ (x : ScheduleEntry). x.body) r.1.schedule_entries
      ≡ map (λ (x : ScheduleEntry). x.body) p.schedule_entries
  pub message :
      p.has_dispatcher ≡ true
      → (m : Fields) × (r.0 ≡ some m)
        × (find "uuid" m ≡ some (str (concat "sch-" (decimal (p.produced_count + 1)))))
        × (task_of_body m ≡ task_of_body e.body)

restart_all :
    (now i : ℕ) (es : List ScheduleEntry)
    → let es' = map (λ x. if x.entry_id == i then mark_run now x else x) es in
      All (λ x. (x.entry_id == i) ≡ true → entry_wakeup x ≡ some (now + x.period)) es'
      × (map (λ (x : ScheduleEntry). x.body) es' ≡ map (λ (x : ScheduleEntry). x.body) es)
restart_all now i [] = (tt, refl)
restart_all now i (e ∷ es) =
    let (all, same) = restart_all now i es in
    elim (Bool-cases (e.entry_id == i)) [
      | inl h ↦ rw h ((λ _. refl, all), rw same refl)
      | inr h ↦ rw h ((λ k. absurd (ground (arith, h, k)), all), rw same refl)
    ]

-- A run of a schedule entry counts one more task produced, puts the next wakeup of the entry one
-- period after the run, leaves the bodies of all entries alone, and, if the producer has its
-- dispatcher, submits the task of the entry under a uuid that carries the count.
pub trigger_schedule-Triggered :
    (now : ℕ) (e : ScheduleEntry) (p : ScheduledProducer)
    → Triggered now e p (trigger_schedule now e p)
unfolding trigger_schedule
trigger_schedule-Triggered now e p =
    let (all, same) = restart_all now e.entry_id p.schedule_entries in
    record {
      counted = refl;
      restarted = all;
      bodies = same;
      message = λ h. (
        scheduled_message (p.produced_count + 1) e,
        rw h refl,
        find-put_eq "uuid" (str (concat "sch-" (decimal (p.produced_count + 1)))) e.body,
        find-put_ne "task" "uuid" (str (concat "sch-" (decimal (p.produced_count + 1)))) e.body
            refl,
      );
    }

entries-tasks :
    (now i : ℕ) (schedule : List (String × Fields))
    → map (λ (x : ScheduleEntry). task_of_body x.body) (make_entries now i schedule)
      ≡ map named schedule
unfolding make_entries
entries-tasks now i [] = refl
entries-tasks now i ((task, options) ∷ schedule) =
    rw
      (
        find-erase_ne "schedule" "task" (put "task" (str task) options) refl,
        find-put_eq "task" (str task) options,
        entries-tasks now (suc i) schedule,
      )
      refl

messages-tasks :
    (count : ℕ) (tasks : List (String × Fields))
    → map task_of_body (on_start_messages count tasks) ≡ map named tasks
unfolding on_start_messages
messages-tasks count [] = refl
messages-tasks count ((task, options) ∷ tasks) =
    rw
      (
        find-put_ne "task" "uuid" (str (concat "on-start-" (decimal count)))
            (put "task" (str task) options) refl,
        find-put_eq "task" (str task) options,
        messages-tasks (count + 1) tasks,
      )
      refl

-- The scheduled producer makes one entry for each task of its schedule, and the on-start
-- producer submits one message for each task of its list, each in the order given and with the
-- name of the task.
pub producers-tasks :
    (now i count : ℕ) (tasks : List (String × Fields))
    → (map (λ (x : ScheduleEntry). task_of_body x.body) (make_entries now i tasks)
        ≡ map named tasks)
      × (map task_of_body (on_start_messages count tasks) ≡ map named tasks)
producers-tasks now i count tasks = (entries-tasks now i tasks, messages-tasks count tasks)
