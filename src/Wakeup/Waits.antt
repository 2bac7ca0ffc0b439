-- ===== src/Wakeup/Waits.antt =====
-- `background_task` of the runner, and what happens around it: the objects change, `kick` is
-- called, and time passes.
pub mod Bounds
pub mod Watched
use dispatcher_fork.Base.{
  ℕ, ◌+◌, ◌≡◌, ◌⊎◌, ◌≤◌, Bool, true, false, Option, none, some, List, [], ◌∷◌, map, ltb, In,
  if◌then◌else◌, Result, ok, raises,
}
use dispatcher_fork.AsyncTasks.{set_event}
use dispatcher_fork.Wakeup.{
  due_time, Run, done, raised, Callbacks, process_wakeups, Background, running, finished, Runner,
  new_runner, kick,
}

-- The objects and the state that their callbacks use, the runner, and its task: where the task
-- sleeps, until when. A task that runs and does not sleep is at the beginning of its loop.
pub record Loop (S : Type 0) : Type 0 where
  pub state : S
  pub runner : Runner
  pub sleeps_until : Option ℕ
  pub exit_event : Bool
  pub clock : ℕ

abbrev pub new_loop : {S : Type 0} → S → Loop S
new_loop s = record {
  state = s;
  runner = new_runner;
  sleeps_until = none;
  exit_event = false;
  clock = 0;
}

abbrev pub is_running : Option Background → Bool
is_running none = false
is_running (some running) = true
is_running (some finished) = false

module _ {S O : Type 0} (c : Callbacks S O) (objects : S → List O) (tenth : ℕ) where
  abbrev pub wakeups : S → List (Option ℕ)
  wakeups s = map (λ o. c.next_wakeup o s) (objects s)

  -- `kick`; a task that it makes begins with its loop.
  unfoldable pub kick_loop : Loop S → Loop S
  kick_loop l = record l {
    runner = kick (wakeups l.state) l.runner;
    sleeps_until = if is_running l.runner.asyncio_task then l.sleeps_until else none;
  }

  abbrev pub ended : Loop S → Loop S
  ended l = record l { runner = record (l.runner) { asyncio_task = some finished } }

  -- `delta`, as the time at which it is over: a wakeup that is left over is waited for 0.1 s.
  abbrev pub wait_until : ℕ → ℕ → ℕ
  wait_until now next_wakeup = if ltb now next_wakeup then next_wakeup else now + tenth

  -- The end of a round, from what `process_wakeups` came to. An exception ends the task, and its
  -- callback sets the event.
  abbrev pub after_wakeups : Loop S → Run S → Loop S
  after_wakeups l (raised s) = ended (record l { state = s; exit_event = true })
  after_wakeups l (done none s) = ended (record l { state = s })
  after_wakeups l (done (some t) s) = record l {
    state = s;
    sleeps_until = some (wait_until l.clock t);
  }

  -- `background_task`, from the test of its loop to where it waits or ends.
  unfoldable pub round : Loop S → Loop S
  round l =
      if l.runner.shutting_down
      then ended l
      else after_wakeups l (process_wakeups c l.clock true (objects l.state) l.state)

  -- From the end of the wait to the test of the loop.
  abbrev pub wake_up : Loop S → Loop S
  wake_up l = record l { runner = record (l.runner) { kick_event = false }; sleeps_until = none }

  -- `shutdown`
  abbrev pub shutdown : Loop S → Loop S
  shutdown l = kick_loop (record l { runner = record (l.runner) { shutting_down = true } })

  -- In the second state there is no other object, and no wakeup that is sooner.
  abbrev pub Later : S → S → Type 0
  Later s s' =
      (o : O) (v : ℕ)
      → In o (objects s')
      → due_time (c.next_wakeup o s') ≡ some v
      → In o (objects s) × ((u : ℕ) × (due_time (c.next_wakeup o s) ≡ some u) × (u ≤ v))

  -- What happens: the objects change and the runner is kicked, or they change so that no wakeup
  -- becomes sooner; the task runs up to its wait, or wakes up when it was kicked or its time is
  -- over; the runner is shut down; and time passes.
  pub data Step (l : Loop S) : Loop S → Type 0 where
    changes : (s : S) → Step l (kick_loop (record l { state = s }))
    relaxes : (s : S) → Later l.state s → Step l (record l { state = s })
    runs : l.runner.asyncio_task ≡ some running → l.sleeps_until ≡ none → Step l (round l)
    wakes :
        (t : ℕ)
        → l.runner.asyncio_task ≡ some running
        → l.sleeps_until ≡ some t
        → (t ≤ l.clock) ⊎ (l.runner.kick_event ≡ true)
        → Step l (wake_up l)
    stops : Step l (shutdown l)
    ticks : (n : ℕ) → Step l (record l { clock = l.clock + n })

  pub data Reach (first : Loop S) : Loop S → Type 0 where
    here : Reach first first
    next : {l l' : Loop S} → Reach first l → Step l l' → Reach first l'
