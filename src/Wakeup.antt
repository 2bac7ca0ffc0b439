-- ===== src/Wakeup.antt =====
-- dispatcherd/service/next_wakeup_runner.py: objects that want a callback at a future time.
-- Clock readings are numbers of ticks.
pub mod Soonest
pub mod Kick
pub mod Visits
pub mod Waits
mod Tests
use dispatcher_fork.Base.{
  ℕ, Bool, true, false, ◌&&◌, Option, none, some, List, [], ◌∷◌, ltb, ◌==◌, if◌then◌else◌, is_some,
}

-- `if obj_wakeup := obj.next_wakeup()`: neither None nor zero passes the test.
unfoldable pub due_time : Option ℕ → Option ℕ
due_time none = none
due_time (some t) = if t == 0 then none else some t

-- `if (future_wakeup is None) or obj_wakeup < future_wakeup: future_wakeup = obj_wakeup`
pub sooner : Option ℕ → ℕ → Option ℕ
sooner none t = some t
sooner (some u) t = if ltb t u then some t else some u

-- A run that `process_object` ends by an exception has no result and leaves the state that the
-- exception found.
pub data Run (S : Type 0) : Type 0 where
  done : Option ℕ → S → Run S
  raised : S → Run S

-- The callbacks of a runner: `next_wakeup` of an object, and `process_object`, which tells by a
-- flag whether it raised.
pub record Callbacks (S O : Type 0) : Type 0 where
  pub next_wakeup : O → S → Option ℕ
  pub process_object : O → S → Bool × S

module _ {S O : Type 0} (c : Callbacks S O) (current_time : ℕ) (do_processing : Bool) where
  -- The body of the loop for an object with a wakeup time: the new `future_wakeup`.
  visit : O → ℕ → Option ℕ → S → Run S
  visit o t future s =
      if do_processing && ltb t current_time
      then (let (failed, s') = c.process_object o s in
          if failed then raised s' else elim (c.next_wakeup o s') [
            | none ↦ done future s'
            | some t' ↦ done (sooner future t') s'
          ])
      else done (sooner future t) s

  consider : O → Option ℕ → S → Run S
  unfolding visit
  consider o future s = elim (due_time (c.next_wakeup o s)) [
    | none ↦ done future s
    | some t ↦ visit o t future s
  ]

  wakeup_loop : List O → Option ℕ → S → Run S
  wakeup_loop [] future s = done future s
  wakeup_loop (o ∷ os) future s = elim (consider o future s) [
    | done future' s' ↦ wakeup_loop os future' s'
    | raised s' ↦ raised s'
  ]

  pub process_wakeups : List O → S → Run S
  unfolding wakeup_loop
  process_wakeups os s = wakeup_loop os none s

-- The asyncio task that `mk_new_task` starts, as far as `kick` looks at it.
pub data Background : Type 0 where
  running finished : Background

pub record Runner : Type 0 where
  pub asyncio_task : Option Background
  pub kick_event : Bool
  pub shutting_down : Bool

abbrev pub new_runner : Runner
new_runner = record { asyncio_task = none; kick_event = false; shutting_down = false }

pub mk_new_task : Runner → Runner
mk_new_task r = record r { asyncio_task = some running }

-- `kick` after its optimisation: there is a next wakeup.
pub wake : Runner → Runner
unfolding mk_new_task
wake r = elim r.asyncio_task [
  | none ↦ mk_new_task r
  | some finished ↦ mk_new_task r
  | some running ↦ record r { kick_event = true }
]

-- The objects as far as `kick` reads them: with no processing their wakeup times stand still.
abbrev pub idle : Callbacks (Unit {0}) (Option ℕ)
idle = record { next_wakeup = λ t _. t; process_object = λ _ s. (false, s) }

-- The next wakeup that `kick` asks `process_wakeups` for, with no processing.
pub next_time : List (Option ℕ) → Option ℕ
next_time ts = elim (process_wakeups idle 0 false ts tt) [
  | done future _ ↦ future
  | raised _ ↦ none
]

pub kick : List (Option ℕ) → Runner → Runner
unfolding wake
kick ts r = if is_some (next_time ts) then wake r else r
