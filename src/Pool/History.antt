-- ===== src/Pool/History.antt =====
-- Histories of a pool: the calls that its coroutines make, in any order.
use dispatcher_fork.Base.{
  ℕ, ◌+◌, ◌≡◌, sym, subst, true, false, Option, List, [], ◌∷◌, arith, count-all,
}
use dispatcher_fork.Message.{Message}
use dispatcher_fork.Wakeup.{new_runner}
use dispatcher_fork.Queuer.{running_tasks, new_queuer}
use dispatcher_fork.Blocker.{new_blocker}
use dispatcher_fork.Pool.{Pool, dispatch_task, received_count, processed_count}
use dispatcher_fork.Pool.Tasks.{tasks, IsFresh, HoldsItems, received_count-eq}
use dispatcher_fork.Pool.Exclusive.{AllApart}
use dispatcher_fork.Pool.Conserve.{dispatch_task-Keeps}
use dispatcher_fork.Pool.Invariant.{IsValid, dispatch_task-IsValid}
use dispatcher_fork.Pool.Results.{Report, pool_of, handle_result}
use dispatcher_fork.Pool.Results.Invariant.{IsHonest, handle_result-Sound, received_count-Keeps}
use dispatcher_fork.Pool.Scaling.{scale_workers}
use dispatcher_fork.Pool.Scaling.Invariant.{scale_workers-Kept}
use dispatcher_fork.Pool.Management.{Sight, manage_new_worker, manage_old_worker, remove_workers}
use dispatcher_fork.Pool.Management.Invariant.{
  manage_new_worker-IsValid, manage_old_worker-IsValid, remove_workers-IsValid,
}

-- `WorkerPool.__init__`, with its settings.
unfoldable pub new_pool : ℕ → ℕ → ℕ → ℕ → ℕ → Pool
new_pool min_workers max_workers scaledown_wait worker_stop_wait worker_removal_wait = record {
  min_workers = min_workers;
  max_workers = max_workers;
  scaledown_wait = scaledown_wait;
  worker_stop_wait = worker_stop_wait;
  worker_removal_wait = worker_removal_wait;
  events = record {
    queue_cleared = false;
    work_cleared = false;
    management_event = false;
    workers_ready = false;
  };
  workers = [];
  next_worker_id = 0;
  shutting_down = false;
  finished_count = 0;
  canceled_count = 0;
  timeout_runner = new_runner;
  last_used_by_ct = [];
  queuer = new_queuer;
  blocker = new_blocker;
}

-- One step of the service: a message arrives, a report is read, or the management task makes one
-- of its moves. A message is an object that the pool does not hold yet.
pub data Step (p p' : Pool) : Type 0 where
  receive :
      (now : ℕ) (m : Message) → HoldsItems m → IsFresh m p → p' ≡ dispatch_task now m p → Step p p'
  read : (now : ℕ) (r : Report) → IsHonest r p → p' ≡ pool_of (handle_result now r p) → Step p p'
  scale : (now : ℕ) → p' ≡ scale_workers now p → Step p p'
  launch : (now : ℕ) (pid : Option ℕ) (i : ℕ) → p' ≡ manage_new_worker now pid i p → Step p p'
  look :
      (now : ℕ) (s : Sight) (i : ℕ) (ids : List ℕ)
      → p' ≡ (manage_old_worker now s i (ids, p)).1
      → Step p p'
  forget : (ids : List ℕ) → p' ≡ remove_workers ids p → Step p p'

pub data Reach (p : Pool) : Pool → Type 0 where
  here : Reach p p
  next : {q r : Pool} → Reach p q → Step q r → Reach p r

pub Step-IsValid : (p p' : Pool) → Step p p' → IsValid p → IsValid p'
Step-IsValid p p' (receive now m h f e) v =
    subst IsValid (sym e) (dispatch_task-IsValid now m p v h f)
Step-IsValid p p' (read now r h e) v = subst IsValid (sym e) (handle_result-Sound now r p v h).valid
Step-IsValid p p' (scale now e) v = subst IsValid (sym e) (scale_workers-Kept now p v).0
Step-IsValid p p' (launch now pid i e) v =
    subst IsValid (sym e) (manage_new_worker-IsValid now pid i p v)
Step-IsValid p p' (look now s i ids e) v =
    subst IsValid (sym e) (manage_old_worker-IsValid now s i ids p v)
Step-IsValid p p' (forget ids e) v = subst IsValid (sym e) (remove_workers-IsValid ids p v)

-- The invariant of a pool (ids in order and below the next one, no task object in two places, no
-- empty dict waiting, no forbidden pair of running tasks) holds after every history that starts
-- with it.
pub Reach-IsValid : {p p' : Pool} → Reach p p' → IsValid p → IsValid p'
Reach-IsValid here v = v
Reach-IsValid (next r s) v = Step-IsValid _ _ s (Reach-IsValid r v)

pub new_pool-IsValid :
    (min_workers max_workers scaledown_wait stop_wait removal_wait : ℕ)
    → IsValid (new_pool min_workers max_workers scaledown_wait stop_wait removal_wait)
unfolding new_pool running_tasks
new_pool-IsValid a b c d e = record {
  ids = tt;
  next_id = tt;
  distinct = λ i. omega arith;
  queued_items = tt;
  blocked_items = tt;
  exclusive = tt;
}

-- From its construction on, and after every history of received messages, reports, and moves of
-- the management task, a pool never runs two tasks for one call side by side if both ask for
-- serial, discard or queue_one treatment.
pub new_pool-exclusive :
    (min_workers max_workers scaledown_wait stop_wait removal_wait : ℕ) {p : Pool}
    → Reach (new_pool min_workers max_workers scaledown_wait stop_wait removal_wait) p
    → AllApart (running_tasks p.workers)
new_pool-exclusive a b c d e r = (Reach-IsValid r (new_pool-IsValid a b c d e)).exclusive

-- The inputs of a pool while no worker dies: messages, reports, and rounds of scaling.
pub data Input : Type 0 where
  message : ℕ → Message → Input
  result : ℕ → Report → Input
  scaling : ℕ → Input

pub apply : Input → Pool → Pool
apply (message now m) p = dispatch_task now m p
apply (result now r) p = pool_of (handle_result now r p)
apply (scaling now) p = scale_workers now p

pub run : List Input → Pool → Pool
run [] p = p
run (i ∷ is) p = run is (apply i p)

abbrev AdmissibleInput : Input → Pool → Type 0
AdmissibleInput (message now m) p = HoldsItems m × IsFresh m p
AdmissibleInput (result now r) p = IsHonest r p
AdmissibleInput (scaling now) p = Unit {0}

-- Each message is a new object with items, and each worker reports only a task that it has.
abbrev pub Admissible : List Input → Pool → Type 0
Admissible [] p = Unit {0}
Admissible (i ∷ is) p = AdmissibleInput i p × Admissible is (apply i p)

abbrev messages_in : Input → ℕ
messages_in (message _ _) = 1
messages_in _ = 0

abbrev pub messages : List Input → ℕ
messages [] = 0
messages (i ∷ is) = messages_in i + messages is

-- A dispatched message is received once, whatever becomes of it.
pub received_count-dispatch_task :
    (now : ℕ) (m : Message) (p : Pool)
    → IsValid p
    → HoldsItems m
    → received_count (dispatch_task now m p) ≡ received_count p + 1
unfolding processed_count
received_count-dispatch_task now m p v h =
    let p' = dispatch_task now m p in
    let k = dispatch_task-Keeps now m p v.ids h in
    omega (
      arith,
      received_count-eq p,
      received_count-eq p',
      k.discards,
      k.finished,
      k.canceled,
      k.same (λ _. true),
      count-all (tasks p),
      count-all (tasks p'),
      count-all k.lost,
    )

apply-received :
    (i : Input) (p : Pool)
    → IsValid p
    → AdmissibleInput i p
    → IsValid (apply i p) × (received_count (apply i p) ≡ received_count p + messages_in i)
unfolding apply
apply-received (message now m) p v (h, f) =
    (dispatch_task-IsValid now m p v h f, received_count-dispatch_task now m p v h)
apply-received (result now r) p v h =
    let s = handle_result-Sound now r p v h in (s.valid, omega (arith, s.received))
apply-received (scaling now) p v h =
    let k = scale_workers-Kept now p v in (k.0, omega (arith, received_count-Keeps k.1))

-- Through any history of new messages, honest reports and rounds of scaling, received_count of a
-- valid pool goes up by exactly the number of messages that came in.
pub received_count-run :
    (is : List Input) (p : Pool)
    → IsValid p
    → Admissible is p
    → received_count (run is p) ≡ received_count p + messages is
unfolding run
received_count-run [] p v a = omega arith
received_count-run (i ∷ is) p v a =
    let (v', e) = apply-received i p v a.0 in
    omega (arith, e, received_count-run is (apply i p) v' a.1)
