-- ===== src/Pool/Finish.antt =====
-- `process_finished`: a worker reports the end of its task.
use dispatcher_fork.Base.{
  ℕ, ◌+◌, ◌<◌, ◌≡◌, refl, sym, ◌∙◌, ap, subst, Bool, true, false, none, some, List, ◌++◌, ◌⊎◌,
  arith, ◌==◌, count, count-all, length,
}
use dispatcher_fork.Json.{Fields}
use dispatcher_fork.Message.{Message}
use dispatcher_fork.Worker.{Worker, is_busy, mark_finished_task}
use dispatcher_fork.Queuer.{Queuer, task_of, running_tasks}
use dispatcher_fork.Blocker.{Blocker}
use dispatcher_fork.Workers.{get_by_id, modify}
use dispatcher_fork.Workers.Tasks.{modify-Rising, modify-All, running_tasks-modify}
use dispatcher_fork.Pool.{
  Pool, process_finished, tally, note_cleared, kick_timeout, mark_used, is_cancel_result,
  received_count, processed_count,
}
use dispatcher_fork.Pool.Tasks.{tasks, count-tasks, received_count-eq}
use dispatcher_fork.Pool.Exclusive.{Split-running_tasks, AllApart, AllApart-task}
use dispatcher_fork.Pool.Invariant.{IsValid}

mark_finished_task-fields :
    (w : Worker)
    → ((mark_finished_task w).worker_id ≡ w.worker_id)
      × ((mark_finished_task w).current_task ≡ none)
unfolding mark_finished_task
mark_finished_task-fields w = (refl, refl)

-- The parts of the pool that say where its tasks are and how many it has dealt with.
pub record Finished (w : Worker) (message : Fields) (p p' : Pool) : Type 0 where
  pub workers : p'.workers ≡ modify w.worker_id mark_finished_task p.workers
  pub queuer : p'.queuer ≡ p.queuer
  pub blocker : p'.blocker ≡ p.blocker
  pub next_id : p'.next_worker_id ≡ p.next_worker_id
  pub closing : p'.shutting_down ≡ p.shutting_down
  pub as_canceled :
      w.is_active_cancel ≡ true
      → is_cancel_result message ≡ true
      → (p'.canceled_count ≡ p.canceled_count + 1) × (p'.finished_count ≡ p.finished_count)
  pub as_finished :
      (w.is_active_cancel ≡ false) ⊎ (is_cancel_result message ≡ false)
      → (p'.finished_count ≡ p.finished_count + 1) × (p'.canceled_count ≡ p.canceled_count)
  pub one_more : p'.finished_count + p'.canceled_count ≡ p.finished_count + p.canceled_count + 1

tally-Finished :
    (w : Worker) (message : Fields) (p : Pool) → Finished w message p (tally w message p)
unfolding tally
tally-Finished w message p = ground arith

-- `Finished` looks at these parts alone.
abbrev SameParts : Pool → Pool → Type 0
SameParts a b =
    (b.workers ≡ a.workers)
    × (b.queuer ≡ a.queuer)
    × (b.blocker ≡ a.blocker)
    × (b.next_worker_id ≡ a.next_worker_id)
    × (b.shutting_down ≡ a.shutting_down)
    × (b.canceled_count ≡ a.canceled_count)
    × (b.finished_count ≡ a.finished_count)

note_cleared-SameParts : (p : Pool) → SameParts p (note_cleared p)
unfolding note_cleared
note_cleared-SameParts p = ground arith

kick_timeout-SameParts : (message : Fields) (p : Pool) → SameParts p (kick_timeout message p)
unfolding kick_timeout
kick_timeout-SameParts message p = ground arith

Finished-SameParts :
    (w : Worker) (message : Fields) (p a b : Pool)
    → Finished w message p a
    → SameParts a b
    → Finished w message p b
Finished-SameParts w message p a b f (ws, q, bl, n, c, cc', fc) = record {
  workers = ws ∙ f.workers;
  queuer = q ∙ f.queuer;
  blocker = bl ∙ f.blocker;
  next_id = n ∙ f.next_id;
  closing = c ∙ f.closing;
  as_canceled = λ x y. (cc' ∙ (f.as_canceled x y).0, fc ∙ (f.as_canceled x y).1);
  as_finished = λ x. (fc ∙ (f.as_finished x).0, cc' ∙ (f.as_finished x).1);
  one_more = omega (arith, f.one_more);
}

Finished-marked :
    (now : ℕ) (w : Worker) (message : Fields) (p p' : Pool)
    → Finished w message (mark_used now p) p'
    → Finished w message p p'
unfolding mark_used
Finished-marked now w message p p' f = record {
  workers = f.workers;
  queuer = f.queuer;
  blocker = f.blocker;
  next_id = f.next_id;
  closing = f.closing;
  as_canceled = f.as_canceled;
  as_finished = f.as_finished;
  one_more = f.one_more;
}

-- What process_finished changes: its worker is free again, and either the count of finished or
-- that of canceled tasks goes up by one, the latter only for a canceled worker with the result
-- "<cancel>".
pub process_finished-Finished :
    (now : ℕ) (w : Worker) (message : Fields) (p : Pool)
    → Finished w message p (process_finished now w message p)
unfolding process_finished
process_finished-Finished now w message p =
    let marked = mark_used now p in
    let tallied = tally w message marked in
    Finished-SameParts w message p (note_cleared tallied) _
      (Finished-SameParts w message p tallied _
        (Finished-marked now w message p tallied (tally-Finished w message marked))
        (note_cleared-SameParts tallied))
      (kick_timeout-SameParts message (note_cleared tallied))

Finished-tasks :
    (q : Message → Bool) (w : Worker) (message : Fields) (p p' : Pool)
    → get_by_id w.worker_id p.workers ≡ some w
    → Finished w message p p'
    → count q (tasks p') + count q (task_of w.current_task) ≡ count q (tasks p)
Finished-tasks q w message p p' found f = omega (
  arith,
  count-tasks q p,
  count-tasks q p',
  ap (λ x. count q (running_tasks x)) f.workers,
  ap (λ (x : Queuer). count q x.queued_messages) f.queuer,
  ap (λ (x : Blocker). count q x.blocked_messages) f.blocker,
  running_tasks-modify q w.worker_id mark_finished_task w p.workers found,
  ap (λ t. count q (task_of t)) (mark_finished_task-fields w).1,
)

task_of-busy_length : (w : Worker) → is_busy w ≡ true → length (task_of w.current_task) ≡ 1
unfolding is_busy
task_of-busy_length w h = ground arith

-- When a worker of the pool that has a task reports its end, received_count does not change: the
-- task moves from the running ones to those dealt with.
pub received_count-process_finished :
    (now : ℕ) (w : Worker) (message : Fields) (p : Pool)
    → get_by_id w.worker_id p.workers ≡ some w
    → is_busy w ≡ true
    → received_count (process_finished now w message p) ≡ received_count p
unfolding processed_count
received_count-process_finished now w message p found busy =
    let p' = process_finished now w message p in
    let f = process_finished-Finished now w message p in
    omega (
      arith,
      received_count-eq p,
      received_count-eq p',
      f.one_more,
      ap (λ (x : Blocker). x.discard_count) f.blocker,
      count-all (tasks p),
      count-all (tasks p'),
      count-all (task_of w.current_task),
      task_of-busy_length w busy,
      Finished-tasks (λ _. true) w message p p' found f,
    )

Finished-exclusive :
    (w : Worker) (ws : List Worker)
    → get_by_id w.worker_id ws ≡ some w
    → AllApart (running_tasks ws)
    → AllApart (running_tasks (modify w.worker_id mark_finished_task ws))
Finished-exclusive w ws found h =
    let s = Split-running_tasks w.worker_id mark_finished_task w ws found in
    let is : running_tasks (modify w.worker_id mark_finished_task ws) ≡ s.before ++ s.after =
      s.then_after ∙ rw (mark_finished_task-fields w).1 in
    subst AllApart (sym is) (AllApart-task s.before w.current_task s.after (rw s.now at h))

pub process_finished-IsValid :
    (now : ℕ) (w : Worker) (message : Fields) (p : Pool)
    → IsValid p
    → get_by_id w.worker_id p.workers ≡ some w
    → IsValid (process_finished now w message p)
process_finished-IsValid now w message p v found =
    let p' = process_finished now w message p in
    let f = process_finished-Finished now w message p in
    record {
      ids = rw f.workers (
          modify-Rising 0 w.worker_id mark_finished_task p.workers
            (λ x. (mark_finished_task-fields x).0) v.ids);
      next_id =
          rw (f.workers, f.next_id)
            (modify-All (λ x. x.worker_id < p.next_worker_id) w.worker_id mark_finished_task
              p.workers (λ x k. rw (mark_finished_task-fields x).0 k) v.next_id);
      distinct = λ i.
          omega (arith, v.distinct i, Finished-tasks (λ m. m.ident == i) w message p p' found f);
      queued_items = rw f.queuer v.queued_items;
      blocked_items = rw f.blocker v.blocked_items;
      exclusive = rw f.workers (Finished-exclusive w p.workers found v.exclusive);
    }
