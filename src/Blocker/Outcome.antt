-- ===== src/Blocker/Outcome.antt =====
-- `process_task`: which messages pass the blocker, which it holds and which it drops.
use dispatcher_fork.Base.{
  ◌+◌, ◌≡◌, refl, ◌⊎◌, inl, inr, Bool, true, false, ◌||◌, Option, none, some, List, [], ◌∷◌, ◌++◌,
  arith, Bool-cases,
}
use dispatcher_fork.Message.{Message}
use dispatcher_fork.Worker.{Worker}
use dispatcher_fork.Blocker.{
  Blocker, DuplicateBehavior, parallel, discard, serial, queue_one, on_duplicate, already_running,
  already_queued, process_as, process_task,
}

-- The behaviors that keep a task from running beside another one for the same call.
abbrev pub exclusive_behavior : Option DuplicateBehavior → Bool
exclusive_behavior (some serial) = true
exclusive_behavior (some discard) = true
exclusive_behavior (some queue_one) = true
exclusive_behavior _ = false

pub is_exclusive : Message → Bool
is_exclusive m = exclusive_behavior (on_duplicate m)

-- The behaviors under which a message may be dropped.
abbrev pub droppable_behavior : Option DuplicateBehavior → Bool
droppable_behavior (some discard) = true
droppable_behavior (some queue_one) = true
droppable_behavior _ = false

unfoldable pub is_droppable : Message → Bool
is_droppable m = droppable_behavior (on_duplicate m)

pub record Passes (ws : List Worker) (m : Message) (b : Blocker) (r : Option Message × Blocker)
    : Type 0 where
  pub result : r ≡ (some m, b)
  pub open_for_work : b.shutting_down ≡ false
  pub alone : is_exclusive m ≡ true → already_running ws m ≡ false
  pub unheld : is_droppable m ≡ true → already_queued m b ≡ false

pub record Holds (ws : List Worker) (m : Message) (b : Blocker) (r : Option Message × Blocker)
    : Type 0 where
  pub result : r ≡ (none, record b { blocked_messages = b.blocked_messages ++ m ∷ [] })
  pub reason :
      (b.shutting_down ≡ true)
      ⊎ ((already_running ws m ≡ true)
          × ((on_duplicate m ≡ some serial)
              ⊎ ((on_duplicate m ≡ some queue_one) × (already_queued m b ≡ false))))

pub record Drops (ws : List Worker) (m : Message) (b : Blocker) (r : Option Message × Blocker)
    : Type 0 where
  pub result : r ≡ (none, record b { discard_count = b.discard_count + 1 })
  pub open_for_work : b.shutting_down ≡ false
  pub reason :
      ((on_duplicate m ≡ some discard) × (already_running ws m || already_queued m b ≡ true))
      ⊎ ((on_duplicate m ≡ some queue_one) × (already_queued m b ≡ true))

abbrev Outcome : List Worker → Message → Blocker → Option Message × Blocker → Type 0
Outcome ws m b r = Passes ws m b r ⊎ (Holds ws m b r ⊎ Drops ws m b r)

process_as-Outcome :
    (d : Option DuplicateBehavior) (ws : List Worker) (m : Message) (b : Blocker)
    → on_duplicate m ≡ d
    → b.shutting_down ≡ false
    → Outcome ws m b (process_as d (already_running ws m) (already_queued m b) m b)
unfolding process_as is_exclusive is_droppable
process_as-Outcome (some serial) ws m b e h = ground arith
process_as-Outcome (some discard) ws m b e h = ground arith
process_as-Outcome (some queue_one) ws m b e h = ground arith
process_as-Outcome (some parallel) ws m b e h = ground arith
process_as-Outcome none ws m b e h = ground arith

-- Every message passes, is held or is dropped by process_task, each only for the reasons that
-- its on_duplicate value and the running and held tasks give.
pub process_task-outcome :
    (ws : List Worker) (m : Message) (b : Blocker)
    → Passes ws m b (process_task ws m b)
      ⊎ (Holds ws m b (process_task ws m b) ⊎ Drops ws m b (process_task ws m b))
unfolding process_task
process_task-outcome ws m b = elim (Bool-cases b.shutting_down) [
  | inl closing ↦ inr (inl (record { result = rw (closing, process_as); reason = inl closing }))
  | inr open_now ↦ simp open_now (process_as-Outcome (on_duplicate m) ws m b refl open_now)
]
