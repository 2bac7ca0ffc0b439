-- ===== src/Pool/Invariant.antt =====
-- `dispatch_task` keeps the invariant of the pool.
use dispatcher_fork.Base.{
  ℕ, ◌+◌, ◌≤◌, ◌<◌, ◌≡◌, sym, subst, List, [], ◌∷◌, arith, ◌==◌, count, All, All-append, Bool-cases,
  inl, inr,
}
use dispatcher_fork.Message.{Message}
use dispatcher_fork.Worker.{start_task}
use dispatcher_fork.Queuer.{running_tasks}
use dispatcher_fork.Workers.Tasks.{Rising, modify-Rising, modify-All}
use dispatcher_fork.Pool.{Pool, dispatch_task}
use dispatcher_fork.Pool.Tasks.{tasks, IsFresh, HoldsItems}
use dispatcher_fork.Pool.Started.{start_task-fields}
use dispatcher_fork.Pool.Exclusive.{AllApart, start-AllApart}
use dispatcher_fork.Pool.Dispatch.{
  Dispatched, started, queued, held, dropped, dispatch_task-Dispatched,
}
use dispatcher_fork.Pool.Conserve.{dispatch_task-Keeps}

-- The workers stand in the order of their ids, all below the next one; no task object stands in
-- two places; no task that waits is an empty dict; and no two tasks run side by side that are for
-- the same call and both ask not to.
pub record IsValid (p : Pool) : Type 0 where
  pub ids : Rising 0 p.workers
  pub next_id : All (λ w. w.worker_id < p.next_worker_id) p.workers
  pub distinct : (i : ℕ) → count (λ m. m.ident == i) (tasks p) ≤ 1
  pub queued_items : All HoldsItems p.queuer.queued_messages
  pub blocked_items : All HoldsItems p.blocker.blocked_messages
  pub exclusive : AllApart (running_tasks p.workers)

-- The parts of the invariant that speak of the workers, of the queue and of the blocker.
module _ (now : ℕ) (m : Message) (p p' : Pool) (v : IsValid p) (h : HoldsItems m) where
  Dispatched-ids : Dispatched now m p p' → Rising 0 p'.workers
  Dispatched-ids (started w e passes ws q b rest) = rw ws (
      modify-Rising 0 w.worker_id (start_task m now) p.workers (λ x. (start_task-fields m now x).0)
        v.ids)
  Dispatched-ids (queued e passes ws q b event rest) = rw ws v.ids
  Dispatched-ids (held holds e) = subst (λ (x : Pool). Rising 0 x.workers) (sym e) v.ids
  Dispatched-ids (dropped drops e) = subst (λ (x : Pool). Rising 0 x.workers) (sym e) v.ids

  Dispatched-next_id : Dispatched now m p p' → All (λ w. w.worker_id < p'.next_worker_id) p'.workers
  Dispatched-next_id (started w e passes ws q b rest) =
      rw (ws, rest.next_id)
        (modify-All (λ x. x.worker_id < p.next_worker_id) w.worker_id (start_task m now) p.workers
          (λ x k. rw (start_task-fields m now x).0 k) v.next_id)
  Dispatched-next_id (queued e passes ws q b event rest) = rw (ws, rest.next_id) v.next_id
  Dispatched-next_id (held holds e) =
      subst (λ (x : Pool). All (λ w. w.worker_id < x.next_worker_id) x.workers) (sym e) v.next_id
  Dispatched-next_id (dropped drops e) =
      subst (λ (x : Pool). All (λ w. w.worker_id < x.next_worker_id) x.workers) (sym e) v.next_id

  Dispatched-items :
      Dispatched now m p p'
      → All HoldsItems p'.queuer.queued_messages × All HoldsItems p'.blocker.blocked_messages
  Dispatched-items (started w e passes ws q b rest) = rw (q, b) (v.queued_items, v.blocked_items)
  Dispatched-items (queued e passes ws q b event rest) =
      rw (q, b)
        (
          All-append HoldsItems p.queuer.queued_messages (m ∷ []) v.queued_items (h, tt),
          v.blocked_items,
        )
  Dispatched-items (held holds e) =
      subst
        (λ (x : Pool).
          All HoldsItems x.queuer.queued_messages × All HoldsItems x.blocker.blocked_messages)
        (sym e)
        (
          v.queued_items,
          All-append HoldsItems p.blocker.blocked_messages (m ∷ []) v.blocked_items (h, tt),
        )
  Dispatched-items (dropped drops e) =
      subst
        (λ (x : Pool).
          All HoldsItems x.queuer.queued_messages × All HoldsItems x.blocker.blocked_messages)
        (sym e) (v.queued_items, v.blocked_items)

  Dispatched-exclusive : Dispatched now m p p' → AllApart (running_tasks p'.workers)
  Dispatched-exclusive (started w e passes ws q b rest) =
      rw ws (start-AllApart now m w p.workers v.ids e h passes.alone v.exclusive)
  Dispatched-exclusive (queued e passes ws q b event rest) = rw ws v.exclusive
  Dispatched-exclusive (held holds e) =
      subst (λ (x : Pool). AllApart (running_tasks x.workers)) (sym e) v.exclusive
  Dispatched-exclusive (dropped drops e) =
      subst (λ (x : Pool). AllApart (running_tasks x.workers)) (sym e) v.exclusive

-- A new object beside distinct ones.
fresh-distinct :
    (i : ℕ) (m : Message) (old lost new : List Message)
    → count (λ x. x.ident == i) lost + count (λ x. x.ident == i) new
      ≡ count (λ x. x.ident == i) (m ∷ []) + count (λ x. x.ident == i) old
    → count (λ x. x.ident == i) old ≤ 1
    → count (λ x. x.ident == m.ident) old ≡ 0
    → count (λ x. x.ident == i) new ≤ 1
fresh-distinct i m old lost new k d fresh = elim (Bool-cases (m.ident == i)) [
  | inl hit ↦
      let e : m.ident ≡ i = ground arith in
      ground (arith, subst (λ j. count (λ x. x.ident == j) old ≡ 0) e fresh)
  | inr miss ↦ ground arith
]

-- `m` comes from outside the pool, or from a place that it has just left.
pub dispatch_task-IsValid :
    (now : ℕ) (m : Message) (p : Pool)
    → IsValid p
    → HoldsItems m
    → IsFresh m p
    → IsValid (dispatch_task now m p)
dispatch_task-IsValid now m p v h fresh =
    let p' = dispatch_task now m p in
    let d = dispatch_task-Dispatched now m p h in
    let k = dispatch_task-Keeps now m p v.ids h in
    let (queued_ok, blocked_ok) = Dispatched-items now m p p' v h d in
    record {
      ids = Dispatched-ids now m p p' v h d;
      next_id = Dispatched-next_id now m p p' v h d;
      distinct = λ i.
          fresh-distinct i m (tasks p) k.lost (tasks p') (k.same (λ x. x.ident == i)) (v.distinct i)
            fresh;
      queued_items = queued_ok;
      blocked_items = blocked_ok;
      exclusive = Dispatched-exclusive now m p p' v h d;
    }
