-- ===== src/Pool/Scaling/Invariant.antt =====
-- Scaling moves no task and keeps the invariant: a worker that is stopped has none.
use dispatcher_fork.Base.{
  ℕ, zero, suc, ◌+◌, ◌-◌, ◌≤◌, ◌<◌, ◌≡◌, refl, ◌∙◌, ap, inl, inr, true, [], ◌∷◌, ◌++◌, arith, ltb,
  length, find?, All-append, All-map, Option-cases, Bool-cases,
}
use dispatcher_fork.Worker.{new_worker, create_process, signal_stop}
use dispatcher_fork.Worker.Stop.{signal_stop-fields}
use dispatcher_fork.Queuer.{running_tasks}
use dispatcher_fork.Workers.Tasks.{Rising-append, add_worker-new, running_tasks-append_idle}
use dispatcher_fork.Pool.{Pool, active_task_ct, has_no_task}
use dispatcher_fork.Pool.Conserve.{Keeps}
use dispatcher_fork.Pool.Invariant.{IsValid}
use dispatcher_fork.Pool.Drain.{Keeps-refl, Keeps-trans}
use dispatcher_fork.Pool.Results.Invariant.{status-IsValid, status-Keeps, KeepsTask}
use dispatcher_fork.Pool.Scaling.{
  up, ups, available_workers, stop_idle, scale_workers, should_scale_down,
}

abbrev pub Kept : Pool → Pool → Type 0
Kept p p' = IsValid p' × Keeps [] p p'

pub up-workers :
    (now : ℕ) (p : Pool)
    → IsValid p
    → (up now p).workers ≡ p.workers ++ new_worker p.next_worker_id create_process now ∷ []
unfolding up new_worker
up-workers now p v = add_worker-new _ p.workers v.next_id

up-running :
    (now : ℕ) (p : Pool) → IsValid p → running_tasks (up now p).workers ≡ running_tasks p.workers
unfolding new_worker
up-running now p v =
    ap running_tasks (up-workers now p v)
    ∙ running_tasks-append_idle (new_worker p.next_worker_id create_process now) p.workers refl

pub up-Kept : (now : ℕ) (p : Pool) → IsValid p → Kept p (up now p)
unfolding up new_worker
up-Kept now p v =
    let same = up-running now p v in
    let added = up-workers now p v in
    let w = new_worker p.next_worker_id create_process now in
    (
      record {
        ids = rw added (Rising-append 0 w p.workers (omega arith) v.next_id v.ids);
        next_id = rw added (
            All-append (λ x. x.worker_id < p.next_worker_id + 1) p.workers (w ∷ [])
              (All-map (λ x. x.worker_id < p.next_worker_id)
                (λ x. x.worker_id < p.next_worker_id + 1) p.workers (λ x h. omega arith) v.next_id)
              (omega arith, tt));
        distinct = rw same v.distinct;
        queued_items = v.queued_items;
        blocked_items = v.blocked_items;
        exclusive = rw same v.exclusive;
      },
      record {
        lost = [];
        same = λ q. rw same;
        discards = omega arith;
        droppable = tt;
        finished = refl;
        canceled = refl;
      },
    )

ups-Kept : (n now : ℕ) (p : Pool) → IsValid p → Kept p (ups n now p)
unfolding ups
ups-Kept zero now p v = (v, Keeps-refl p)
ups-Kept (suc n) now p v =
    let (v', k) = up-Kept now p v in
    let (v'', k') = ups-Kept n now (up now p) v' in (v'', Keeps-trans k k')

stop_idle-Kept : (now : ℕ) (p : Pool) → IsValid p → Kept p (stop_idle now p)
unfolding stop_idle
stop_idle-Kept now p v = elim (Option-cases (find? has_no_task (available_workers p))) [
  | inl e ↦ rw (e, stop_idle) (v, Keeps-refl p)
  | inr (w, e) ↦
      let keeps_task : KeepsTask (signal_stop now) =
        λ x. ((signal_stop-fields now x).0, (signal_stop-fields now x).1) in
      rw (e, stop_idle)
        (
          status-IsValid w.worker_id (signal_stop now) p keeps_task v,
          status-Keeps w.worker_id (signal_stop now) p keeps_task,
        )
]

-- The branches of `scale_workers`, each with its test.
pub scale_workers_cases {ℓ} :
    (P : Pool → Type ℓ) (now : ℕ) (p : Pool)
    → let ct = length (available_workers p) in
      (ct < p.min_workers → P (ups (p.min_workers - ct) now p))
      → (p.min_workers ≤ ct → ct < active_task_ct p → ct < p.max_workers → P (up now p))
      → (p.min_workers < ct
          → active_task_ct p ≤ ct
          → should_scale_down now p ≡ true
          → P (stop_idle now p))
      → (p.min_workers ≤ ct → P p)
      → P (scale_workers now p)
unfolding scale_workers
scale_workers_cases P now p low busy idle stay =
    let ct = length (available_workers p) in
    elim (Bool-cases (ltb ct p.min_workers)) [
      | inl a ↦ rw a (low (ground arith))
      | inr a ↦ rw a (elim (Bool-cases (ltb ct (active_task_ct p))) [
        | inl b ↦ rw b (elim (Bool-cases (ltb ct p.max_workers)) [
          | inl c ↦ rw c (busy (ground arith) (ground arith) (ground arith))
          | inr c ↦ rw c (stay (ground arith))
        ])
        | inr b ↦ rw b (elim (Bool-cases (ltb p.min_workers ct)) [
          | inl c ↦ rw c (elim (Bool-cases (should_scale_down now p)) [
            | inl d ↦ rw d (idle (ground arith) (ground arith) d)
            | inr d ↦ rw d (stay (ground arith))
          ])
          | inr c ↦ rw c (stay (ground arith))
        ])
      ])
    ]

-- scale_workers keeps the invariant of a valid pool and loses no task.
pub scale_workers-Kept : (now : ℕ) (p : Pool) → IsValid p → Kept p (scale_workers now p)
scale_workers-Kept now p v =
    scale_workers_cases (Kept p) now p (λ _. ups-Kept _ now p v) (λ _ _ _. up-Kept now p v)
      (λ _ _ _. stop_idle-Kept now p v) (λ _. (v, Keeps-refl p))
