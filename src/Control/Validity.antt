-- ===== src/Control/Validity.antt =====
-- A cancel keeps the invariant of the pool.
use dispatcher_fork.Base.{
  ℕ, zero, suc, ◌≤◌, ◌<◌, ◌≡◌, refl, sym, ◌∙◌, ap, subst, Bool, true, false, ◌&&◌, List, [], ◌∷◌,
  map, arith, length, count, get_elem?, if◌then◌else◌, ◌==◌, All, Option-cases, inl, inr,
  drop_first,
}
use dispatcher_fork.Json.{Fields}
use dispatcher_fork.Message.{Message, is_or_equals, remove}
use dispatcher_fork.Worker
use dispatcher_fork.Worker.{Worker, cancel-fields}
use dispatcher_fork.Workers.Tasks.{Rising}
use dispatcher_fork.Queuer.{running_tasks}
use dispatcher_fork.Pool.Tasks.{count-tasks, HoldsItems}
use dispatcher_fork.Pool.Exclusive.{AllApart}
use dispatcher_fork.Pool.Invariant.{IsValid}
use dispatcher_fork.Dispatcher.{Dispatcher}
use dispatcher_fork.Control.{Place, blocked, queued, walk, find_tasks, cancel}
use dispatcher_fork.Control.Waiting.{walk-end, walk-step, left_of, left_of-All}
use dispatcher_fork.Control.Requests.{matching, is_wanted, cancel-workers}

-- What is left of a list: nothing is added, and what held for all its messages still does.
record Shrinks (ms left : List Message) : Type 1 where
  fewer : (q : Message → Bool) → count q left ≤ count q ms
  all : (P : Message → Type 0) → All P ms → All P left

Shrinks-refl : (ms : List Message) → Shrinks ms ms
Shrinks-refl ms = record { fewer = λ q. omega arith; all = λ P h. h }

count-remove : (q p : Message → Bool) (ms : List Message) → count q (drop_first p ms) ≤ count q ms
count-remove q p [] = omega arith
count-remove q p (m ∷ ms) = ground (arith, count-remove q p ms)

left_of-Shrinks :
    (stop : Bool) (matches : Message → Bool) (m : Message) (ms : List Message)
    → Shrinks ms (left_of stop matches m ms)
left_of-Shrinks stop matches m ms = record {
  fewer = λ q.
      elim (matches m && stop) as (λ b. count q (if b then remove m ms else ms) ≤ count q ms) [
        | true ↦ count-remove q (is_or_equals m) ms
        | false ↦ omega arith
      ];
  all = λ P h. left_of-All P stop matches m ms h;
}

walk-Shrinks :
    (place : ℕ → Place) (stop : Bool) (matches : Message → Bool) (fuel i : ℕ) (ms : List Message)
    → Shrinks ms (walk stop matches place fuel i ms).1
unfolding walk
walk-Shrinks place stop matches zero i ms = Shrinks-refl ms
walk-Shrinks place stop matches (suc fuel) i ms = elim (Option-cases (get_elem? i ms)) [
  | inl e ↦ rw (walk-end place stop matches fuel i ms e) (Shrinks-refl ms)
  | inr (m, e) ↦
      let s = left_of-Shrinks stop matches m ms in
      let t = walk-Shrinks place stop matches fuel (suc i) (left_of stop matches m ms) in
      rw (walk-step place stop matches fuel i m ms e) (record {
        fewer = λ q. omega (arith, s.fewer q, t.fewer q);
        all = λ P h. t.all P (s.all P h);
      })
]

-- Workers that are told to cancel are the same ones with the same tasks.
module _ (f : Worker → Worker)
    (keeps : (w : Worker)
      → ((f w).worker_id ≡ w.worker_id) × ((f w).current_task ≡ w.current_task)) where
  map-Rising : (n : ℕ) (ws : List Worker) → Rising n ws → Rising n (map f ws)
  map-Rising n [] r = tt
  map-Rising n (w ∷ ws) r = rw (keeps w).0 (r.0, map-Rising (suc w.worker_id) ws r.1)

  map-All :
      (n : ℕ) (ws : List Worker)
      → All (λ w. w.worker_id < n) ws
      → All (λ w. w.worker_id < n) (map f ws)
  map-All n [] h = tt
  map-All n (w ∷ ws) h = (rw (keeps w).0 h.0, map-All n ws h.1)

  running_tasks-map : (ws : List Worker) → running_tasks (map f ws) ≡ running_tasks ws
  unfolding running_tasks
  running_tasks-map [] = refl
  running_tasks-map (w ∷ ws) = rw ((keeps w).1, running_tasks-map ws) refl

cancel_wanted-keeps :
    (matches : Message → Bool) (w : Worker)
    → let w' = if is_wanted matches w then Worker.cancel w else w in
      (w'.worker_id ≡ w.worker_id) × (w'.current_task ≡ w.current_task)
cancel_wanted-keeps matches w =
    elim (is_wanted matches w)
      as (λ b.
        let w' = if b then Worker.cancel w else w in
        (w'.worker_id ≡ w.worker_id) × (w'.current_task ≡ w.current_task)) [
          | true ↦ cancel-fields w
          | false ↦ (refl, refl)
        ]

-- The action cancel keeps the invariant of a valid pool, whatever the request matches.
pub cancel-IsValid :
    (msg_data : Fields) (d : Dispatcher) → IsValid d.pool → IsValid (cancel msg_data d).1.pool
unfolding cancel find_tasks
cancel-IsValid msg_data d v =
    let q = matching msg_data in
    let p = d.pool in
    let p' = (cancel msg_data d).1.pool in
    let f = λ (w : Worker). if is_wanted q w then Worker.cancel w else w in
    let keeps = cancel_wanted-keeps q in
    let same = (cancel-workers msg_data d).0 in
    let same_tasks : running_tasks p'.workers ≡ running_tasks p.workers =
      ap running_tasks same ∙ running_tasks-map f keeps p.workers in
    let held = p.blocker.blocked_messages in
    let waiting = p.queuer.queued_messages in
    let b = walk-Shrinks blocked true q (length held) 0 held in
    let w = walk-Shrinks queued true q (length waiting) 0 waiting in
    record {
      ids = subst (Rising 0) (sym same) (map-Rising f keeps 0 p.workers v.ids);
      next_id =
          subst (All (λ (x : Worker). x.worker_id < p.next_worker_id)) (sym same)
            (map-All f keeps p.next_worker_id p.workers v.next_id);
      distinct = λ i.
          let t = λ (m : Message). m.ident == i in
          omega (
            arith,
            v.distinct i,
            count-tasks t p,
            count-tasks t p',
            ap (count t) same_tasks,
            b.fewer t,
            w.fewer t,
          );
      queued_items = w.all HoldsItems v.queued_items;
      blocked_items = b.all HoldsItems v.blocked_items;
      exclusive = subst AllApart (sym same_tasks) v.exclusive;
    }
