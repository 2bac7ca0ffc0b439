-- ===== src/Pool/Management/Invariant.antt =====
-- Starting, stopping, losing and forgetting workers keeps the invariant of the pool.
use dispatcher_fork.Base.{
  ℕ, suc, ◌+◌, ◌≤◌, ◌<◌, ◌≡◌, refl, ap, subst, inl, inr, true, false, Option, none, List, [], ◌∷◌,
  ◌++◌, arith, ◌==◌, if◌then◌else◌, count, count-append, All, Option-cases, Bool-cases,
}
use mathlib.Core.List.{append_assoc}
use dispatcher_fork.Message.{Message}
use dispatcher_fork.Worker.{Worker, start, is_busy}
use dispatcher_fork.Worker.Stop.{Ending, stop, stop-Ended}
use dispatcher_fork.Queuer.{task_of, running_tasks}
use dispatcher_fork.Workers.{modify, get_by_id, contains, remove_by_id, has_id}
use dispatcher_fork.Workers.Tasks.{Rising}
use dispatcher_fork.Pool.{Pool, drain_queue}
use dispatcher_fork.Pool.Tasks.{count-tasks}
use dispatcher_fork.Pool.Exclusive.{AllApart, AllApart-task}
use dispatcher_fork.Pool.Invariant.{IsValid}
use dispatcher_fork.Pool.Drain.{drain_queue-IsValid}
use dispatcher_fork.Pool.Results.Invariant.{status-IsValid, KeepsTask, with_workers}
use dispatcher_fork.Pool.Management.{
  Sight, stop_now, remove, leave, mark_died, count_death, has_died, judge, judge_again, verdict,
  manage_old_worker, manage_new_worker, remove_workers, needs_start,
}

pub start-KeepsTask : (launched : Option ℕ) → KeepsTask (start launched)
unfolding start
start-KeepsTask launched w = ground arith

mark_died-KeepsTask : (now : ℕ) → KeepsTask (mark_died now)
unfolding mark_died
mark_died-KeepsTask now w = (refl, refl)

stop-KeepsTask : (now : ℕ) (e : Ending) → KeepsTask (stop now e)
stop-KeepsTask now e w = elim (stop-Ended now e w) [
  | inl (_, same) ↦
      (ap (λ (x : Worker). x.worker_id) same, ap (λ (x : Worker). x.current_task) same)
  | inr d ↦ (d.same_id, d.same_task)
]

IsValid-canceled : (p : Pool) (n : ℕ) → IsValid p → IsValid (record p { canceled_count = n })
IsValid-canceled p n v = record {
  ids = v.ids;
  next_id = v.next_id;
  distinct = v.distinct;
  queued_items = v.queued_items;
  blocked_items = v.blocked_items;
  exclusive = v.exclusive;
}

pub count_death-IsValid :
    (now : ℕ) (w : Worker) (p : Pool) → IsValid p → IsValid (count_death now w p)
unfolding count_death
count_death-IsValid now w p v =
    IsValid-canceled (with_workers w.worker_id (mark_died now) p)
      (if is_busy w then p.canceled_count + 1 else p.canceled_count)
      (status-IsValid w.worker_id (mark_died now) p (mark_died-KeepsTask now) v)

judge-IsValid :
    (now : ℕ) (s : Sight) (i : ℕ) (w : Worker) (ids : List ℕ) (p : Pool)
    → IsValid p
    → IsValid (judge now s i w (ids, p)).1
unfolding judge
judge-IsValid now s i w ids p v =
    elim (verdict now w p)
      as (λ x. IsValid (
        (elim x as (λ _. List ℕ × Pool) [
          | stop_now ↦ (ids, record p { workers = modify i (stop now s.ending) p.workers })
          | remove ↦ (ids ++ i ∷ [], p)
          | leave ↦ (ids, p)
        ]).1)) [
          | stop_now ↦ status-IsValid i (stop now s.ending) p (stop-KeepsTask now s.ending) v
          | remove ↦ v
          | leave ↦ v
        ]

judge_again-IsValid :
    (now : ℕ) (s : Sight) (i : ℕ) (ids : List ℕ) (p : Pool)
    → IsValid p
    → IsValid (judge_again now s i (ids, p)).1
unfolding judge_again
judge_again-IsValid now s i ids p v = elim (Option-cases (get_by_id i p.workers)) [
  | inl e ↦ rw (e, judge_again) v
  | inr (w, e) ↦ rw (e, judge_again) (judge-IsValid now s i w ids p v)
]

pub manage_old_worker-IsValid :
    (now : ℕ) (s : Sight) (i : ℕ) (ids : List ℕ) (p : Pool)
    → IsValid p
    → IsValid (manage_old_worker now s i (ids, p)).1
unfolding manage_old_worker
manage_old_worker-IsValid now s i ids p v = elim (Option-cases (get_by_id i p.workers)) [
  | inl e ↦ rw (e, manage_old_worker) v
  | inr (w, e) ↦
      rw (e, manage_old_worker)
        (judge_again-IsValid now s i ids _
          (elim (has_died s w) as (λ b. IsValid (if b then count_death now w p else p)) [
            | true ↦ count_death-IsValid now w p v
            | false ↦ v
          ]))
]

pub manage_new_worker_inv {ℓ} :
    (Q : Pool → Type ℓ) (now : ℕ) (launched : Option ℕ) (i : ℕ) (p : Pool)
    → Q p
    → Q (drain_queue now (with_workers i (start launched) p))
    → Q (manage_new_worker now launched i p)
unfolding manage_new_worker
manage_new_worker_inv Q now launched i p q drained = elim (Option-cases (get_by_id i p.workers)) [
  | inl e ↦ rw (e, manage_new_worker) q
  | inr (w, e) ↦
      rw (e, manage_new_worker)
        (elim (needs_start w.status)
          as (λ b. Q (if b then drain_queue now (with_workers i (start launched) p) else p)) [
            | true ↦ drained
            | false ↦ q
          ])
]

pub manage_new_worker-IsValid :
    (now : ℕ) (launched : Option ℕ) (i : ℕ) (p : Pool)
    → IsValid p
    → IsValid (manage_new_worker now launched i p)
manage_new_worker-IsValid now launched i p v = manage_new_worker_inv IsValid now launched i p v (
    drain_queue-IsValid now (with_workers i (start launched) p)
      (status-IsValid i (start launched) p (start-KeepsTask launched) v))

-- Forgetting a worker takes its task out of the running ones.
Rising-weaken : {m n : ℕ} (ws : List Worker) → m ≤ n → Rising n ws → Rising m ws
Rising-weaken [] h r = tt
Rising-weaken (w ∷ ws) h r = (omega arith, r.1)

remove_by_id-Rising : (n i : ℕ) (ws : List Worker) → Rising n ws → Rising n (remove_by_id i ws)
remove_by_id-Rising n i [] r = tt
remove_by_id-Rising n i (w ∷ ws) r = ground (
  arith,
  remove_by_id-Rising (suc w.worker_id) i ws r.1,
  Rising-weaken {m = n} {n = suc w.worker_id} ws,
)

remove_by_id-All {κ} :
    (P : Worker → Type κ) (i : ℕ) (ws : List Worker) → All P ws → All P (remove_by_id i ws)
remove_by_id-All P i [] h = tt
remove_by_id-All P i (w ∷ ws) h =
    elim (w.worker_id == i) as (λ b. All P (if b then ws else w ∷ remove_by_id i ws)) [
      | true ↦ h.1
      | false ↦ (h.0, remove_by_id-All P i ws h.1)
    ]

-- The running tasks around those of the worker that goes.
record Gap (i : ℕ) (ws : List Worker) : Type 0 where
  before : List Message
  gone : Option Message
  after : List Message
  was : running_tasks ws ≡ before ++ (task_of gone ++ after)
  now_left : running_tasks (remove_by_id i ws) ≡ before ++ after

Gap-remove_by_id : (i : ℕ) (ws : List Worker) → Gap i ws
unfolding running_tasks
Gap-remove_by_id i [] = record { before = []; gone = none; after = []; was = refl; now_left = refl }
Gap-remove_by_id i (w ∷ ws) =
    let g = Gap-remove_by_id i ws in
    elim (Bool-cases (has_id i w)) [
      | inl hit ↦ record {
        before = [];
        gone = w.current_task;
        after = running_tasks ws;
        was = refl;
        now_left = rw hit;
      }
      | inr miss ↦ record {
        before = task_of w.current_task ++ g.before;
        gone = g.gone;
        after = g.after;
        was = rw (g.was, append_assoc);
        now_left = rw (miss, g.now_left, append_assoc);
      }
    ]

forget-IsValid :
    (i : ℕ) (p : Pool) → IsValid p → IsValid (record p { workers = remove_by_id i p.workers })
forget-IsValid i p v =
    let g = Gap-remove_by_id i p.workers in
    let p' = record p { workers = remove_by_id i p.workers } in
    record {
      ids = remove_by_id-Rising 0 i p.workers v.ids;
      next_id = remove_by_id-All (λ w. w.worker_id < p.next_worker_id) i p.workers v.next_id;
      distinct = λ j. omega (
        arith,
        v.distinct j,
        count-tasks (λ m. m.ident == j) p,
        count-tasks (λ m. m.ident == j) p',
        ap (count (λ m. m.ident == j)) g.was,
        ap (count (λ m. m.ident == j)) g.now_left,
        count-append (λ m. m.ident == j) g.before (task_of g.gone ++ g.after),
        count-append (λ m. m.ident == j) (task_of g.gone) g.after,
        count-append (λ m. m.ident == j) g.before g.after,
      );
      queued_items = v.queued_items;
      blocked_items = v.blocked_items;
      exclusive =
          rw g.now_left (AllApart-task g.before g.gone g.after (subst AllApart g.was v.exclusive));
    }

pub remove_workers-IsValid : (ids : List ℕ) (p : Pool) → IsValid p → IsValid (remove_workers ids p)
unfolding remove_workers
remove_workers-IsValid [] p v = v
remove_workers-IsValid (i ∷ ids) p v =
    remove_workers-IsValid ids _
      (elim (contains i p.workers)
        as (λ b. IsValid (if b then record p { workers = remove_by_id i p.workers } else p)) [
          | true ↦ forget-IsValid i p v
          | false ↦ v
        ])
