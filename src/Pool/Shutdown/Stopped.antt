-- ===== src/Pool/Shutdown/Stopped.antt =====
-- How a shutdown leaves the workers, and what the pool does with messages after it.
use dispatcher_fork.Base.{
  ℕ, ◌≡◌, refl, ap, ◌∙◌, inl, inr, ◌⊎◌, true, false, none, List, [], ◌∷◌, ◌++◌, map, arith, All,
  if◌then◌else◌, Bool-cases,
}
use dispatcher_fork.Message.{Message}
use dispatcher_fork.Worker.{Worker, error, retired, counts_for_capacity, signal_stop}
use dispatcher_fork.Worker.Stop.{Ending, stop, stop-Ended, signal_stop-fields}
use dispatcher_fork.Queuer.{running_tasks, task_of}
use dispatcher_fork.Blocker.{process_task-shutdown}
use dispatcher_fork.Pool.{Pool, dispatch_task, place, drain_queue, drain_loop, unblock}
use dispatcher_fork.Pool.Dispatch.{dispatch_task-eq}
use dispatcher_fork.Pool.Shutdown.{Endings, stop_counted, stop_alive, stop_workers, shutdown}

abbrev IsDown : Worker → Type 0
IsDown w = (w.status ≡ error) ⊎ (w.status ≡ retired)

-- The worker is the same one with the same task, and its process is done for.
record Down (w w' : Worker) : Type 0 where
  same_id : w'.worker_id ≡ w.worker_id
  same_task : w'.current_task ≡ w.current_task
  down : IsDown w'

stop-Down : (now : ℕ) (e : Ending) (w : Worker) → Down w (stop now e w)
stop-Down now e w = elim (stop-Ended now e w) [
  | inl (inl r, s) ↦ record {
    same_id = ap (λ (x : Worker). x.worker_id) s;
    same_task = ap (λ (x : Worker). x.current_task) s;
    down = inr (ap (λ (x : Worker). x.status) s ∙ r);
  }
  | inl (inr r, s) ↦ record {
    same_id = ap (λ (x : Worker). x.worker_id) s;
    same_task = ap (λ (x : Worker). x.current_task) s;
    down = inl (ap (λ (x : Worker). x.status) s ∙ r);
  }
  | inr d ↦ record {
    same_id = d.same_id;
    same_task = d.same_task;
    down = elim d.outcome [ inl r ↦ inl r | inr (r, _) ↦ inr r ];
  }
]

-- The worker is the same one with the same task, and counts for capacity no more.
record Stopped (w w' : Worker) : Type 0 where
  same_id : w'.worker_id ≡ w.worker_id
  same_task : w'.current_task ≡ w.current_task
  uncounted : counts_for_capacity w' ≡ false

Down-Stopped : (w w' : Worker) → Down w w' → Stopped w w'
unfolding counts_for_capacity
Down-Stopped w w' d = record {
  same_id = d.same_id;
  same_task = d.same_task;
  uncounted = elim d.down [ inl e ↦ rw e refl | inr e ↦ rw e refl ];
}

Stopped-later : {w w' w'' : Worker} → Stopped w w' → Stopped w' w'' → Stopped w w''
Stopped-later s t = record {
  same_id = t.same_id ∙ s.same_id;
  same_task = t.same_task ∙ s.same_task;
  uncounted = t.uncounted;
}

stop_counted-Stopped : (now : ℕ) (e : Endings) (w : Worker) → Stopped w (stop_counted now e w)
stop_counted-Stopped now e w = elim (Bool-cases (counts_for_capacity w)) [
  | inl counts ↦
      let asked = signal_stop now w in
      let (i, t, _, _) = signal_stop-fields now w in
      let s = Down-Stopped asked _ (stop-Down now (e.first w.worker_id) asked) in
      rw counts
        (record { same_id = s.same_id ∙ i; same_task = s.same_task ∙ t; uncounted = s.uncounted })
  | inr idle ↦ rw idle (record { same_id = refl; same_task = refl; uncounted = idle })
]

stop_alive-Stopped :
    (now : ℕ) (e : Endings) (w w' : Worker) → Stopped w w' → Stopped w (stop_alive now e w')
stop_alive-Stopped now e w w' s =
    elim (e.found_alive w'.worker_id)
      as (λ b. Stopped w (if b then stop now (e.second w'.worker_id) w' else w')) [
        | true ↦ Stopped-later s (Down-Stopped w' _ (stop-Down now (e.second w'.worker_id) w'))
        | false ↦ s
      ]

both_eq : {i j : ℕ} {is js : List ℕ} → i ≡ j → is ≡ js → i ∷ is ≡ j ∷ js
both_eq e f = cc

joined_eq : {xs ys us vs : List Message} → xs ≡ ys → us ≡ vs → xs ++ us ≡ ys ++ vs
joined_eq e f = cc

-- After stop_workers no worker counts for capacity, whatever the processes do; the workers are
-- the same ones in the same order, with the tasks that they had.
pub stop_workers-Stopped :
    (now : ℕ) (e : Endings) (ws : List Worker)
    → All (λ w. counts_for_capacity w ≡ false) (stop_workers now e ws)
      × (map (λ (w : Worker). w.worker_id) (stop_workers now e ws)
          ≡ map (λ (w : Worker). w.worker_id) ws)
      × (running_tasks (stop_workers now e ws) ≡ running_tasks ws)
unfolding stop_workers running_tasks
stop_workers-Stopped now e [] = (tt, refl, refl)
stop_workers-Stopped now e (w ∷ ws) =
    let s = stop_alive-Stopped now e w _ (stop_counted-Stopped now e w) in
    let (a, i, r) = stop_workers-Stopped now e ws in
    ((s.uncounted, a), both_eq s.same_id i, joined_eq (ap task_of s.same_task) r)

-- Nothing is started any more.
drain_loop-closed :
    (now : ℕ) (ms : List Message) (p : Pool)
    → p.shutting_down ≡ true
    → drain_loop now ms false p ≡ p
unfolding drain_loop
drain_loop-closed now [] p h = refl
drain_loop-closed now (m ∷ ms) p h = ground arith

-- After shutdown of a pool a dispatched message is held in the blocker and changes nothing else,
-- and drain_queue only moves what the blocker releases into the queue: no task is started any
-- more.
pub shutdown-starts_nothing :
    (at now : ℕ) (e : Endings) (m : Message) (p : Pool)
    → (dispatch_task now m (shutdown at e p) ≡ record (shutdown at e p) {
      blocker = record ((shutdown at e p).blocker) {
        blocked_messages = p.blocker.blocked_messages ++ m ∷ [];
      };
    })
      × (drain_queue now (shutdown at e p) ≡ unblock (shutdown at e p))
unfolding drain_queue unblock shutdown
shutdown-starts_nothing at now e m p =
    let q = shutdown at e p in
    (
      dispatch_task-eq now m q none _ (process_task-shutdown q.workers m p.blocker)
          ∙ unfold place in refl,
      drain_loop-closed now (unblock (shutdown at e p)).queuer.queued_messages
          (unblock (shutdown at e p)) refl,
    )
