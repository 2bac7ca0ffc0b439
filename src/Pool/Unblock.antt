-- ===== src/Pool/Unblock.antt =====
-- The first half of `drain_queue`: what the blocker releases joins the queue, and the front of the
-- queue comes off it.
use dispatcher_fork.Base.{
  ◌+◌, ◌≡◌, refl, ap, subst, Bool, not, ◌||◌, List, [], ◌∷◌, ◌++◌, arith, ◌==◌, ==_refl, count,
  count-append, count-partition, All, All-append, All-select, select,
}
use dispatcher_fork.Message.{Message, remove, is_or_equals}
use dispatcher_fork.Blocker.{already_running, already_queued}
use dispatcher_fork.Blocker.Release.{Distinct, pop_unblocked_messages-eq-select}
use dispatcher_fork.Pool.{Pool, unblock, unqueue}
use dispatcher_fork.Pool.Tasks.{tasks, count-tasks, IsFresh, HoldsItems}
use dispatcher_fork.Pool.Conserve.{Keeps}
use dispatcher_fork.Pool.Invariant.{IsValid}

abbrev keeps_waiting : Pool → Message → Bool
keeps_waiting p m = already_running p.workers m || already_queued m p.blocker

blocked-Distinct : (p : Pool) → IsValid p → Distinct p.blocker.blocked_messages
blocked-Distinct p v i = omega (arith, v.distinct i, count-tasks (λ m. m.ident == i) p)

-- The state that `unblock` leaves, with the loop of the blocker read as a filter.
abbrev unblocked : Pool → Pool
unblocked p = record p {
  queuer = record {
    queued_messages =
        p.queuer.queued_messages
        ++ select (λ m. not (keeps_waiting p m)) p.blocker.blocked_messages;
  };
  blocker = record (p.blocker) {
    blocked_messages = select (keeps_waiting p) p.blocker.blocked_messages;
  };
}

pub unblock-eq : (p : Pool) → IsValid p → unblock p ≡ unblocked p
unfolding unblock
unblock-eq p v = rw (pop_unblocked_messages-eq-select p.workers p.blocker (blocked-Distinct p v))

count-unblocked :
    (q : Message → Bool) (p : Pool) → count q (tasks (unblocked p)) ≡ count q (tasks p)
count-unblocked q p = omega (
  arith,
  count-tasks q p,
  count-tasks q (unblocked p),
  count-append q p.queuer.queued_messages
      (select (λ m. not (keeps_waiting p m)) p.blocker.blocked_messages),
  count-partition q (keeps_waiting p) p.blocker.blocked_messages,
)

unblocked-Keeps : (p : Pool) → Keeps [] p (unblocked p)
unblocked-Keeps p = record {
  lost = [];
  same = λ q. omega (arith, count-unblocked q p);
  discards = omega arith;
  droppable = tt;
  finished = refl;
  canceled = refl;
}

unblocked-IsValid : (p : Pool) → IsValid p → IsValid (unblocked p)
unblocked-IsValid p v = record {
  ids = v.ids;
  next_id = v.next_id;
  distinct = λ i. omega (arith, v.distinct i, count-unblocked (λ m. m.ident == i) p);
  queued_items = All-append HoldsItems p.queuer.queued_messages _ v.queued_items (
      All-select HoldsItems (λ m. not (keeps_waiting p m)) p.blocker.blocked_messages
        v.blocked_items);
  blocked_items =
      All-select HoldsItems (keeps_waiting p) p.blocker.blocked_messages v.blocked_items;
  exclusive = v.exclusive;
}

pub unblock-Keeps : (p : Pool) → IsValid p → Keeps [] p (unblock p)
unblock-Keeps p v = rw (unblock-eq p v) (unblocked-Keeps p)

pub unblock-IsValid : (p : Pool) → IsValid p → IsValid (unblock p)
unblock-IsValid p v = rw (unblock-eq p v) (unblocked-IsValid p v)

-- Taking the first message off the queue.
remove-head : (m : Message) (ms : List Message) → remove m (m ∷ ms) ≡ ms
unfolding is_or_equals
remove-head m ms = ground (arith, ==_refl m.ident)

abbrev pub pop_front : List Message → Pool → Pool
pop_front ms p = record p { queuer = record { queued_messages = ms } }

pub unqueue-eq :
    (m : Message) (ms : List Message) (p : Pool)
    → p.queuer.queued_messages ≡ m ∷ ms
    → unqueue m p ≡ pop_front ms p
unqueue-eq m ms p e = rw (e, remove-head m ms)

pub count-pop_front :
    (q : Message → Bool) (m : Message) (ms : List Message) (p : Pool)
    → p.queuer.queued_messages ≡ m ∷ ms
    → count q (tasks p) ≡ count q (m ∷ []) + count q (tasks (pop_front ms p))
count-pop_front q m ms p e =
    omega (arith, count-tasks q p, count-tasks q (pop_front ms p), ap (count q) e)

pub pop_front-IsValid :
    (m : Message) (ms : List Message) (p : Pool)
    → p.queuer.queued_messages ≡ m ∷ ms
    → IsValid p
    → IsValid (pop_front ms p) × IsFresh m (pop_front ms p) × HoldsItems m
pop_front-IsValid m ms p e v =
    let items : All HoldsItems (m ∷ ms) = subst (All HoldsItems) e v.queued_items in
    (
      record {
        ids = v.ids;
        next_id = v.next_id;
        distinct = λ i. omega (arith, v.distinct i, count-pop_front (λ x. x.ident == i) m ms p e);
        queued_items = items.1;
        blocked_items = v.blocked_items;
        exclusive = v.exclusive;
      },
      ground (
        arith,
        v.distinct m.ident,
        count-pop_front (λ x. x.ident == m.ident) m ms p e,
        ==_refl m.ident,
      ),
      items.0,
    )
