-- ===== src/Pool/Drain.antt =====
-- `drain_queue`: the queue is handed out from its front while a worker is free.
use dispatcher_fork.Base.{
  ℕ, ◌≡◌, refl, sym, ◌∙◌, ap, subst, Bool, true, false, not, ◌||◌, none, some, List, [], ◌∷◌, ◌++◌,
  ◌⊎◌, inl, inr, arith, count-append, All-append, length-append, Bool-cases, is_some, Option-cases,
}
use dispatcher_fork.Message.{Message}
use dispatcher_fork.Worker.{Worker}
use dispatcher_fork.Queuer.{Queuer, get_free_worker}
use dispatcher_fork.Pool.{
  Pool, PoolEvents, dispatch_task, drain_queue, drain_loop, unblock, unqueue,
}
use dispatcher_fork.Pool.Dispatch.{
  Dispatched, started, queued, held, dropped, dispatch_task-Dispatched,
}
use dispatcher_fork.Pool.Conserve.{Keeps, IsDroppable, dispatch_task-Keeps}
use dispatcher_fork.Pool.Invariant.{IsValid, dispatch_task-IsValid}
use dispatcher_fork.Pool.Unblock.{
  unblock-Keeps, unblock-IsValid, pop_front, unqueue-eq, count-pop_front, pop_front-IsValid,
}

pub Keeps-refl : (p : Pool) → Keeps [] p p
Keeps-refl p = record {
  lost = [];
  same = λ q. refl;
  discards = omega arith;
  droppable = tt;
  finished = refl;
  canceled = refl;
}

pub Keeps-trans : {p q r : Pool} → Keeps [] p q → Keeps [] q r → Keeps [] p r
Keeps-trans k l = record {
  lost = k.lost ++ l.lost;
  same = λ t. omega (arith, k.same t, l.same t, count-append t k.lost l.lost);
  discards = omega (arith, k.discards, l.discards, length-append k.lost l.lost);
  droppable = All-append IsDroppable k.lost l.lost k.droppable l.droppable;
  finished = l.finished ∙ k.finished;
  canceled = l.canceled ∙ k.canceled;
}

-- Setting and clearing events moves no task.
pub Keeps-events : (p : Pool) (e : PoolEvents) → Keeps [] p (record p { events = e })
Keeps-events p e = record {
  lost = [];
  same = λ q. refl;
  discards = omega arith;
  droppable = tt;
  finished = refl;
  canceled = refl;
}

pub IsValid-events : (p : Pool) (e : PoolEvents) → IsValid p → IsValid (record p { events = e })
IsValid-events p e v = record {
  ids = v.ids;
  next_id = v.next_id;
  distinct = v.distinct;
  queued_items = v.queued_items;
  blocked_items = v.blocked_items;
  exclusive = v.exclusive;
}

-- With a free worker nothing is put back into the queue.
dispatch_task-queuer :
    (now : ℕ) (m : Message) (w : Worker) (p p' : Pool)
    → get_free_worker p.workers ≡ some w
    → Dispatched now m p p'
    → p'.queuer ≡ p.queuer
dispatch_task-queuer now m w p p' e (started x f passes ws q b rest) = q
dispatch_task-queuer now m w p p' e (queued f passes ws q b event rest) = absurd (ground arith)
dispatch_task-queuer now m w p p' e (held holds eq) = ap (λ (x : Pool). x.queuer) eq
dispatch_task-queuer now m w p p' e (dropped drops eq) = ap (λ (x : Pool). x.queuer) eq

-- One round of the loop: the front of the queue is dispatched.
abbrev round : ℕ → Message → Pool → Pool
round now m p = dispatch_task now m (unqueue m p)

pub record Round (now : ℕ) (m : Message) (ms : List Message) (p p' : Pool) : Type 0 where
  pub keeps : Keeps [] p p'
  pub valid : IsValid p'
  pub rest : p'.queuer.queued_messages ≡ ms

round-Round :
    (now : ℕ) (m : Message) (ms : List Message) (w : Worker) (p : Pool)
    → IsValid p
    → p.queuer.queued_messages ≡ m ∷ ms
    → get_free_worker p.workers ≡ some w
    → Round now m ms p (round now m p)
round-Round now m ms w p v e free =
    let (v', fresh, items) = pop_front-IsValid m ms p e v in
    let p' = pop_front ms p in
    let k = dispatch_task-Keeps now m p' v'.ids items in
    rw (unqueue-eq m ms p e) (record {
      keeps = record {
        lost = k.lost;
        same = λ q. omega (arith, k.same q, count-pop_front q m ms p e);
        discards = k.discards;
        droppable = k.droppable;
        finished = k.finished;
        canceled = k.canceled;
      };
      valid = dispatch_task-IsValid now m p' v' items fresh;
      rest =
          ap (λ (x : Queuer). x.queued_messages)
            (dispatch_task-queuer now m w p' (dispatch_task now m p') free
              (dispatch_task-Dispatched now m p' items));
    })

-- What a drain makes of a pool: it loses no task, keeps the invariant, hands out a first part of
-- the queue in its order, and stops only when the queue is empty, no worker is free or the pool
-- shuts down.
pub record Drained (p p' : Pool) : Type 0 where
  pub keeps : Keeps [] p p'
  pub valid : IsValid p'
  pub handed : List Message
  pub order : p.queuer.queued_messages ≡ handed ++ p'.queuer.queued_messages
  pub stopped :
      (p'.queuer.queued_messages ≡ [])
      ⊎ ((get_free_worker p'.workers ≡ none) ⊎ (p'.shutting_down ≡ true))

abbrev must_stop : Pool → Bool
must_stop p = not (is_some (get_free_worker p.workers)) || p.shutting_down

stop_reason :
    (p : Pool) → must_stop p ≡ true → (get_free_worker p.workers ≡ none) ⊎ (p.shutting_down ≡ true)
stop_reason p h = ground arith

go_on_reason :
    (p : Pool) → must_stop p ≡ false → (w : Worker) × (get_free_worker p.workers ≡ some w)
go_on_reason p h = elim (Option-cases (get_free_worker p.workers)) [
  | inl e ↦ absurd (ground arith)
  | inr found ↦ found
]

drain_loop-nil :
    (now : ℕ) (processed : Bool) (p : Pool)
    → IsValid p
    → p.queuer.queued_messages ≡ []
    → Drained p (drain_loop now [] processed p)
unfolding drain_loop
drain_loop-nil now true p v e = record {
  keeps = Keeps-events p _;
  valid = IsValid-events p _ v;
  handed = [];
  order = refl;
  stopped = inl e;
}
drain_loop-nil now false p v e = record {
  keeps = Keeps-refl p;
  valid = v;
  handed = [];
  order = refl;
  stopped = inl e;
}

drain_loop-stop :
    (now : ℕ) (m : Message) (ms : List Message) (processed : Bool) (p : Pool)
    → must_stop p ≡ true
    → drain_loop now (m ∷ ms) processed p ≡ p
unfolding drain_loop
drain_loop-stop now m ms processed p h = rw h

drain_loop-round :
    (now : ℕ) (m : Message) (ms : List Message) (processed : Bool) (p : Pool)
    → must_stop p ≡ false
    → drain_loop now (m ∷ ms) processed p ≡ drain_loop now ms true (round now m p)
unfolding drain_loop
drain_loop-round now m ms processed p h = rw h

Drained-Round :
    {now : ℕ} {m : Message} {ms : List Message} (p p' p'' : Pool)
    → p.queuer.queued_messages ≡ m ∷ ms
    → Round now m ms p p'
    → Drained p' p''
    → Drained p p''
Drained-Round {m = m} p p' p'' e r d = record {
  keeps = Keeps-trans r.keeps d.keeps;
  valid = d.valid;
  handed = m ∷ d.handed;
  order = e ∙ ap (λ t. m ∷ t) (sym r.rest ∙ d.order);
  stopped = d.stopped;
}

drain_loop-Drained :
    (now : ℕ) (ms : List Message) (processed : Bool) (p : Pool)
    → IsValid p
    → p.queuer.queued_messages ≡ ms
    → Drained p (drain_loop now ms processed p)
drain_loop-Drained now [] processed p v e = drain_loop-nil now processed p v e
drain_loop-Drained now (m ∷ ms) processed p v e = elim (Bool-cases (must_stop p)) [
  | inl stop ↦ subst (Drained p) (sym (drain_loop-stop now m ms processed p stop)) (record {
    keeps = Keeps-refl p;
    valid = v;
    handed = [];
    order = refl;
    stopped = inr (stop_reason p stop);
  })
  | inr more ↦
      let (w, free) = go_on_reason p more in
      let r = round-Round now m ms w p v e free in
      subst (Drained p) (sym (drain_loop-round now m ms processed p more)) (
        Drained-Round p (round now m p) _ e r
          (drain_loop-Drained now ms true (round now m p) r.valid r.rest))
]

pub drain_queue-Drained : (now : ℕ) (p : Pool) → IsValid p → Drained (unblock p) (drain_queue now p)
unfolding drain_queue
drain_queue-Drained now p v =
    drain_loop-Drained now (unblock p).queuer.queued_messages false (unblock p)
      (unblock-IsValid p v) refl

-- Over a whole drain_queue every task of a valid pool is still there as often as before, but for
-- those dropped as their publisher allowed, which discard_count counts.
pub drain_queue-Keeps : (now : ℕ) (p : Pool) → IsValid p → Keeps [] p (drain_queue now p)
drain_queue-Keeps now p v = Keeps-trans (unblock-Keeps p v) (drain_queue-Drained now p v).keeps

pub drain_queue-IsValid : (now : ℕ) (p : Pool) → IsValid p → IsValid (drain_queue now p)
drain_queue-IsValid now p v = (drain_queue-Drained now p v).valid

-- An invariant rule for the loop: what a dispatch keeps, and what does not speak of the queue or
-- of the events, holds after the drain.
module _ {ℓ} (Q : Pool → Type ℓ)
    (dispatched : (now : ℕ) (m : Message) (p p' : Pool) → Dispatched now m p p' → Q p → Q p')
    (requeued : (ms : List Message) (p : Pool) → Q p → Q (pop_front ms p))
    (noted : (e : PoolEvents) (p : Pool) → Q p → Q (record p { events = e })) where
  round_inv :
      (now : ℕ) (m : Message) (ms : List Message) (p : Pool)
      → IsValid p
      → p.queuer.queued_messages ≡ m ∷ ms
      → Q p
      → Q (round now m p)
  round_inv now m ms p v e q =
      let (v', fresh, items) = pop_front-IsValid m ms p e v in
      rw (unqueue-eq m ms p e) (
        dispatched now m (pop_front ms p) _ (dispatch_task-Dispatched now m (pop_front ms p) items)
          (requeued ms p q))

  drain_loop_inv :
      (now : ℕ) (ms : List Message) (processed : Bool) (p : Pool)
      → IsValid p
      → p.queuer.queued_messages ≡ ms
      → Q p
      → Q (drain_loop now ms processed p)
  unfolding drain_loop
  drain_loop_inv now [] true p v e q = noted _ p q
  drain_loop_inv now [] false p v e q = q
  drain_loop_inv now (m ∷ ms) processed p v e q = elim (Bool-cases (must_stop p)) [
    | inl stop ↦ rw (drain_loop-stop now m ms processed p stop) q
    | inr more ↦
        let (w, free) = go_on_reason p more in
        let r = round-Round now m ms w p v e free in
        rw (drain_loop-round now m ms processed p more)
          (drain_loop_inv now ms true (round now m p) r.valid r.rest (round_inv now m ms p v e q))
  ]

  pub drain_queue_inv : (now : ℕ) (p : Pool) → IsValid p → Q (unblock p) → Q (drain_queue now p)
  unfolding drain_queue
  drain_queue_inv now p v q =
      drain_loop_inv now (unblock p).queuer.queued_messages false (unblock p) (unblock-IsValid p v)
        refl q
