-- ===== src/Wakeup/Kick.antt =====
-- What `kick` does to a runner.
use dispatcher_fork.Base.{
  ℕ, ◌≡◌, refl, sym, subst, ◌⊎◌, inl, inr, true, Option, none, some, List, [], ◌∷◌, map, arith, All,
  Option-cases,
}
use dispatcher_fork.Wakeup.{due_time, idle, next_time, running, Runner, mk_new_task, wake, kick}
use dispatcher_fork.Wakeup.Soonest.{IsSoonest, process_wakeups-IsSoonest}

map-id : (ts : List (Option ℕ)) → map (λ t. t) ts ≡ ts
map-id [] = refl
map-id (t ∷ ts) = rw (map-id ts) refl

next_time-IsSoonest : (ts : List (Option ℕ)) → IsSoonest ts (next_time ts)
unfolding next_time
next_time-IsSoonest ts =
    let (r, e, sound) = process_wakeups-IsSoonest idle 0 ts tt in
    let same : next_time ts ≡ r = rw (e, next_time) refl in
    subst (IsSoonest ts) (sym same) (subst (λ l. IsSoonest l r) (map-id ts) sound)

wake-running :
    (r : Runner)
    → ((wake r).asyncio_task ≡ some running)
      × (r.asyncio_task ≡ some running → (wake r).kick_event ≡ true)
unfolding wake mk_new_task
wake-running r = (ground arith, λ h. ground (arith, h))

-- kick leaves the runner alone when no object has a wakeup other than zero; else the background
-- task runs afterwards, a new one or the one that ran before, and that one has been woken.
pub kick-running :
    (ts : List (Option ℕ)) (r : Runner)
    → (All (λ t. due_time t ≡ none) ts × (kick ts r ≡ r))
      ⊎ (((kick ts r).asyncio_task ≡ some running)
          × (r.asyncio_task ≡ some running → (kick ts r).kick_event ≡ true))
unfolding kick
kick-running ts r = elim (Option-cases (next_time ts)) [
  | inl e ↦ inl (subst (IsSoonest ts) e (next_time-IsSoonest ts), rw e refl)
  | inr (t, e) ↦ inr (rw e (wake-running r))
]
