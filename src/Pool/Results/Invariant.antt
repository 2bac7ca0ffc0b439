-- ===== src/Pool/Results/Invariant.antt =====
-- Every report keeps the invariant of the pool and the number of tasks received.
use dispatcher_fork.Base.{
  ℕ, ◌<◌, ◌≡◌, refl, sym, ◌∙◌, subst, true, false, some, [], inl, inr, arith, if◌then◌else◌,
  Bool-cases, all, str_eq, eq_iff, Option-cases, String, count-all,
}
use dispatcher_fork.Json.{Fields}
use dispatcher_fork.Worker.{Worker, is_busy, is_ready, inactive}
use dispatcher_fork.Queuer.{running_tasks}
use dispatcher_fork.Workers.{get_by_id, modify}
use dispatcher_fork.Workers.Tasks.{modify-Rising, modify-All, running_tasks-modify_same, found_id}
use dispatcher_fork.Pool.{
  Pool, received_count, processed_count, process_finished, set_management_event,
}
use dispatcher_fork.Pool.Tasks.{tasks, received_count-eq}
use dispatcher_fork.Pool.Conserve.{Keeps}
use dispatcher_fork.Pool.Invariant.{IsValid}
use dispatcher_fork.Pool.Drain.{
  IsValid-events, Keeps-events, Keeps-trans, drain_queue-IsValid, drain_queue-Keeps,
}
use dispatcher_fork.Pool.Finish.{process_finished-IsValid, received_count-process_finished}
use dispatcher_fork.Pool.Results.{
  Report, stop_message, report, next, returned, pool_of, set_ready, set_exited, note_ready,
  on_ready, on_shutdown, on_done, handle_result, on_event,
}

-- A conserving step neither adds to the received tasks nor takes from them.
pub received_count-Keeps : {p p' : Pool} → Keeps [] p p' → received_count p' ≡ received_count p
unfolding processed_count
received_count-Keeps {p} {p'} k = omega (
  arith,
  received_count-eq p,
  received_count-eq p',
  k.discards,
  k.finished,
  k.canceled,
  k.same (λ _. true),
  count-all (tasks p),
  count-all (tasks p'),
  count-all k.lost,
)

-- A worker whose status alone changes keeps its id and its task.
abbrev pub KeepsTask : (Worker → Worker) → Type 0
KeepsTask f = (w : Worker) → ((f w).worker_id ≡ w.worker_id) × ((f w).current_task ≡ w.current_task)

abbrev pub with_workers : (ℕ → (Worker → Worker) → Pool → Pool)
with_workers i f p = record p { workers = modify i f p.workers }

pub status-IsValid :
    (i : ℕ) (f : Worker → Worker) (p : Pool)
    → KeepsTask f
    → IsValid p
    → IsValid (with_workers i f p)
status-IsValid i f p k v =
    let same : running_tasks (modify i f p.workers) ≡ running_tasks p.workers =
      running_tasks-modify_same i f p.workers (λ w. (k w).1) in
    record {
      ids = modify-Rising 0 i f p.workers (λ w. (k w).0) v.ids;
      next_id =
          modify-All (λ x. x.worker_id < p.next_worker_id) i f p.workers (λ x h. rw (k x).0 h)
            v.next_id;
      distinct = rw same v.distinct;
      queued_items = v.queued_items;
      blocked_items = v.blocked_items;
      exclusive = rw same v.exclusive;
    }

pub status-Keeps :
    (i : ℕ) (f : Worker → Worker) (p : Pool) → KeepsTask f → Keeps [] p (with_workers i f p)
status-Keeps i f p k =
    let same : running_tasks (modify i f p.workers) ≡ running_tasks p.workers =
      running_tasks-modify_same i f p.workers (λ w. (k w).1) in
    record {
      lost = [];
      same = λ q. rw same;
      discards = omega arith;
      droppable = tt;
      finished = refl;
      canceled = refl;
    }

-- What every step of the results loop is shown to do.
pub record Sound (p p' : Pool) : Type 0 where
  pub valid : IsValid p'
  pub received : received_count p' ≡ received_count p

Sound-Keeps : {p p' : Pool} → IsValid p' → Keeps [] p p' → Sound p p'
Sound-Keeps v k = record { valid = v; received = received_count-Keeps k }

pub note_ready-Keeps : (p : Pool) → IsValid p → IsValid (note_ready p) × Keeps [] p (note_ready p)
unfolding note_ready
note_ready-Keeps p v =
    let set = record (p.events) { workers_ready = true } in
    elim (all is_ready p.workers)
      as (λ b. let p' = if b then record p { events = set } else p in IsValid p' × Keeps [] p p') [
        | true ↦ (IsValid-events p set v, Keeps-events p set)
        | false ↦ (v, Keeps-events p p.events)
      ]

on_ready-Sound : (now i : ℕ) (p : Pool) → IsValid p → Sound p (on_ready now i p)
unfolding on_ready
on_ready-Sound now i p v =
    let p' = with_workers i set_ready p in
    let keeps_task : KeepsTask set_ready = λ w. (refl, refl) in
    let (v', k) = note_ready-Keeps p' (status-IsValid i set_ready p keeps_task v) in
    Sound-Keeps (drain_queue-IsValid now (note_ready p') v') (
      Keeps-trans (Keeps-trans (status-Keeps i set_ready p keeps_task) k)
        (drain_queue-Keeps now (note_ready p') v'))

on_shutdown-Sound : (i : ℕ) (p : Pool) → IsValid p → Sound p (pool_of (on_shutdown i p))
unfolding on_shutdown
on_shutdown-Sound i p v =
    let p' = with_workers i set_exited p in
    let keeps_task : KeepsTask set_exited = λ w. (refl, refl) in
    let v' = status-IsValid i set_exited p keeps_task v in
    let k = status-Keeps i set_exited p keeps_task in
    let event = record (p'.events) { management_event = true } in
    elim p.shutting_down
      as (λ b. Sound p (
        pool_of (
          if b
          then (if all inactive p'.workers then returned p' else next p')
          else next (set_management_event p')))) [
            | true ↦
                elim (all inactive p'.workers)
                  as (λ b. Sound p (pool_of (if b then returned p' else next p'))) [
                    | true ↦ Sound-Keeps v' k
                    | false ↦ Sound-Keeps v' k
                  ]
            | false ↦
                Sound-Keeps (IsValid-events p' event v') (Keeps-trans k (Keeps-events p' event))
          ]

on_done-Sound :
    (now : ℕ) (w : Worker) (message : Fields) (p : Pool)
    → IsValid p
    → get_by_id w.worker_id p.workers ≡ some w
    → is_busy w ≡ true
    → Sound p (on_done now w message p)
unfolding on_done
on_done-Sound now w message p v found busy =
    let p' = process_finished now w message p in
    let v' = process_finished-IsValid now w message p v found in
    record {
      valid = drain_queue-IsValid now p' v';
      received =
          received_count-Keeps (drain_queue-Keeps now p' v')
          ∙ received_count-process_finished now w message p found busy;
    }

-- A worker reports the end of a task only while it has one.
abbrev pub IsHonest : Report → Pool → Type 0
IsHonest stop_message p = Unit {0}
IsHonest (report i event message) p =
    (w : Worker) → get_by_id i p.workers ≡ some w → event ≡ "done" → is_busy w ≡ true

on_event-Sound :
    (now : ℕ) (w : Worker) (event : String) (message : Fields) (p : Pool)
    → IsValid p
    → get_by_id w.worker_id p.workers ≡ some w
    → (event ≡ "done" → is_busy w ≡ true)
    → Sound p (pool_of (on_event now w event message p))
unfolding on_event
on_event-Sound now w event message p v found honest = elim (Bool-cases (str_eq event "ready")) [
  | inl e ↦ rw e (on_ready-Sound now w.worker_id p v)
  | inr e ↦ rw e (elim (Bool-cases (str_eq event "shutdown")) [
    | inl e' ↦ rw e' (on_shutdown-Sound w.worker_id p v)
    | inr e' ↦ rw e' (elim (Bool-cases (str_eq event "done")) [
      | inl d ↦ rw d (on_done-Sound now w message p v found (honest ((eq_iff event "done").0 d)))
      | inr d ↦ rw d (Sound-Keeps v (Keeps-events p p.events))
    ])
  ])
]

-- One round of the results loop, whatever it reads, keeps the invariant of a valid pool and the
-- number of tasks received, provided that a worker reports the end of a task only while it has
-- one.
pub handle_result-Sound :
    (now : ℕ) (r : Report) (p : Pool)
    → IsValid p
    → IsHonest r p
    → Sound p (pool_of (handle_result now r p))
unfolding handle_result
handle_result-Sound now stop_message p v h =
    elim p.shutting_down as (λ b. Sound p (pool_of (if b then returned p else next p))) [
      | true ↦ Sound-Keeps v (Keeps-events p p.events)
      | false ↦ Sound-Keeps v (Keeps-events p p.events)
    ]
handle_result-Sound now (report i event message) p v h =
    elim (Option-cases (get_by_id i p.workers)) [
      | inl missing ↦ rw (missing, handle_result) (Sound-Keeps v (Keeps-events p p.events))
      | inr (w, found) ↦
          rw (found, handle_result)
            (on_event-Sound now w event message p v
              (subst (λ j. get_by_id j p.workers ≡ some w) (sym (found_id i w p.workers found))
                found)
              (h w found))
    ]
