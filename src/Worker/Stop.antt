-- ===== src/Worker/Stop.antt =====
-- `PoolWorker.stop`: bring a worker process down, whatever it takes.
use dispatcher_fork.Base.{
  ℕ, zero, suc, ◌+◌, ◌≤◌, ◌<◌, ◌≡◌, refl, ◌∙◌, ◌⊎◌, inl, inr, Bool, true, false, some, arith,
  if◌then◌else◌, Bool-cases,
}
use dispatcher_fork.Worker.{
  Worker, Status, stopping, exited, error, retired, Signal, kill, send_signal, signal_stop,
}

-- What the worker's process does during one call of `stop`: whether its exit message arrives
-- within the three seconds, and whether it is alive at each of the three later looks.
pub record Ending : Type 0 where
  pub exit_seen : Bool
  pub is_alive : ℕ → Bool

-- The looks that are left, and the number of those already made.
reap : ℕ → ℕ → ℕ → Ending → Worker → Worker
reap zero i now e w = record w { status = error; retired_at = some now }
reap (suc n) i now e w =
    let again = reap n (suc i) now e (send_signal kill w) in
    if e.is_alive i then again else record w { status = retired; retired_at = some now }

-- The wait for the exit message.
await_exit : Ending → Worker → Worker
await_exit e w =
    if e.exit_seen then record w { exit_msg_event = false } else record w { status = error }

wait_exit : Status → Ending → Worker → Worker
wait_exit exited e w = record w { exit_msg_event = false }
wait_exit _ e w = await_exit e w

abbrev is_stopped : Status → Bool
is_stopped retired = true
is_stopped error = true
is_stopped _ = false

abbrev is_leaving : Status → Bool
is_leaving stopping = true
is_leaving exited = true
is_leaving _ = false

ask_to_stop : ℕ → Worker → Worker
ask_to_stop now w = if is_leaving w.status then w else signal_stop now w

-- `stop`, from the request on.
bring_down : ℕ → Ending → Worker → Worker
bring_down now e w =
    let asked = ask_to_stop now w in reap 3 0 now e (wait_exit asked.status e asked)

pub stop : ℕ → Ending → Worker → Worker
stop now e w = if is_stopped w.status then w else bring_down now e w

pub signal_stop-fields :
    (now : ℕ) (w : Worker)
    → ((signal_stop now w).worker_id ≡ w.worker_id)
      × ((signal_stop now w).current_task ≡ w.current_task)
      × ((signal_stop now w).status ≡ stopping)
      × ((signal_stop now w).stopping_at ≡ some now)
unfolding signal_stop
signal_stop-fields now w = ground arith

-- How `stop` leaves a worker that it had to bring down: retired, which takes a look that found
-- the process dead, or in the error state; in both cases with its id, its task and the time.
pub record Ended (looks now : ℕ) (e : Ending) (w w' : Worker) : Type 0 where
  pub same_id : w'.worker_id ≡ w.worker_id
  pub same_task : w'.current_task ≡ w.current_task
  pub time : w'.retired_at ≡ some now
  pub outcome :
      (w'.status ≡ error)
      ⊎ ((w'.status ≡ retired) × ((j : ℕ) × (j < looks) × (e.is_alive j ≡ false)))

send_signal-fields :
    (s : Signal) (w : Worker)
    → ((send_signal s w).worker_id ≡ w.worker_id)
      × ((send_signal s w).current_task ≡ w.current_task)
unfolding send_signal
send_signal-fields s w = (refl, refl)

Ended-later :
    {looks now : ℕ} {e : Ending} (w w' w'' : Worker)
    → w'.worker_id ≡ w.worker_id
    → w'.current_task ≡ w.current_task
    → Ended looks now e w' w''
    → Ended looks now e w w''
Ended-later w w' w'' i t d = record {
  same_id = d.same_id ∙ i;
  same_task = d.same_task ∙ t;
  time = d.time;
  outcome = d.outcome;
}

reap-Ended :
    (looks n i now : ℕ) (e : Ending) (w : Worker)
    → i + n ≤ looks
    → Ended looks now e w (reap n i now e w)
unfolding reap
reap-Ended looks zero i now e w h = record {
  same_id = refl;
  same_task = refl;
  time = refl;
  outcome = inl refl;
}
reap-Ended looks (suc n) i now e w h = elim (Bool-cases (e.is_alive i)) [
  | inl alive ↦
      let (same_id, same_task) = send_signal-fields kill w in
      rw alive (
        Ended-later w (send_signal kill w) _ same_id same_task
          (reap-Ended looks n (suc i) now e (send_signal kill w) (omega arith)))
  | inr dead ↦ rw dead (record {
    same_id = refl;
    same_task = refl;
    time = refl;
    outcome = inr (refl, (i, omega arith, dead));
  })
]

asked-fields :
    (now : ℕ) (w : Worker)
    → ((ask_to_stop now w).worker_id ≡ w.worker_id)
      × ((ask_to_stop now w).current_task ≡ w.current_task)
unfolding ask_to_stop
asked-fields now w =
    let (same_id, same_task, _, _) = signal_stop-fields now w in
    elim (is_leaving w.status)
      as (λ b.
        let w' = if b then w else signal_stop now w in
        (w'.worker_id ≡ w.worker_id) × (w'.current_task ≡ w.current_task)) [
          | true ↦ (refl, refl)
          | false ↦ (same_id, same_task)
        ]

await_exit-fields :
    (e : Ending) (w : Worker)
    → ((await_exit e w).worker_id ≡ w.worker_id) × ((await_exit e w).current_task ≡ w.current_task)
unfolding await_exit
await_exit-fields e w = ground arith

wait_exit-fields :
    (s : Status) (e : Ending) (w : Worker)
    → ((wait_exit s e w).worker_id ≡ w.worker_id)
      × ((wait_exit s e w).current_task ≡ w.current_task)
unfolding wait_exit
wait_exit-fields exited e w = (refl, refl)
wait_exit-fields _ e w = await_exit-fields e w

bring_down-Ended : (now : ℕ) (e : Ending) (w : Worker) → Ended 3 now e w (bring_down now e w)
unfolding bring_down
bring_down-Ended now e w =
    let asked = ask_to_stop now w in
    let waited = wait_exit asked.status e asked in
    let (i, t) = asked-fields now w in
    let (i', t') = wait_exit-fields asked.status e asked in
    Ended-later w waited _ (i' ∙ i) (t' ∙ t) (reap-Ended 3 3 0 now e waited (omega arith))

pub stop-Ended :
    (now : ℕ) (e : Ending) (w : Worker)
    → (((w.status ≡ retired) ⊎ (w.status ≡ error)) × (stop now e w ≡ w))
      ⊎ Ended 3 now e w (stop now e w)
unfolding stop
stop-Ended now e w = elim (Bool-cases (is_stopped w.status)) [
  | inl over ↦ inl (ground arith, rw over)
  | inr still_up ↦ inr (rw still_up (bring_down-Ended now e w))
]
