-- ===== src/Pool/Timeouts.antt =====
-- The workers as the objects of the runner of the task timeouts.
use dispatcher_fork.Base.{
  ℕ, ◌≡◌, ◌⊎◌, inl, inr, refl, sym, ap, ◌∙◌, subst, Option, none, some, List, [], ◌∷◌, map, In,
  arith, ◌==◌, Bool-cases,
}
use dispatcher_fork.Worker.{Worker, next_wakeup, cancel, cancel-fields}
use dispatcher_fork.Workers.{get_by_id, modify}
use dispatcher_fork.Wakeup.{due_time}
use dispatcher_fork.Wakeup.Waits.{Later}
use dispatcher_fork.Pool.{Pool}
use dispatcher_fork.Pool.Shutdown.{cancel_worker, timeout_callbacks}

abbrev pub worker_ids : Pool → List ℕ
worker_ids p = map (λ (w : Worker). w.worker_id) p.workers

cancel-next_wakeup : (w : Worker) → next_wakeup (cancel w) ≡ none
unfolding next_wakeup cancel
cancel-next_wakeup w = ground arith

cancel_worker-id : (w : Worker) → (cancel_worker w).worker_id ≡ w.worker_id
unfolding cancel_worker
cancel_worker-id w = ground (arith, (cancel-fields w).0)

-- A worker that is canceled has no timeout any more, and one that is not is as it was.
cancel_worker-cases : (w : Worker) → (next_wakeup (cancel_worker w) ≡ none) ⊎ (cancel_worker w ≡ w)
unfolding cancel_worker
cancel_worker-cases w = ground (arith, cancel-next_wakeup w)

abbrev wakeup_of : Option Worker → Option ℕ
wakeup_of none = none
wakeup_of (some w) = next_wakeup w

cancel_worker-wakeup_of :
    (i j : ℕ) (ws : List Worker)
    → (wakeup_of (get_by_id j (modify i cancel_worker ws)) ≡ none)
      ⊎ (wakeup_of (get_by_id j (modify i cancel_worker ws)) ≡ wakeup_of (get_by_id j ws))
unfolding cancel_worker
cancel_worker-wakeup_of i j [] = inr refl
cancel_worker-wakeup_of i j (w ∷ ws) = elim (Bool-cases (w.worker_id == i)) [
  | inl e ↦ elim (Bool-cases (w.worker_id == j)) [
    | inl f ↦ elim (cancel_worker-cases w) [
      | inl n ↦ inl (rw (e, cancel_worker-id w, f) n)
      | inr same ↦ inr (rw (e, same, f) refl)
    ]
    | inr f ↦ inr (rw (e, cancel_worker-id w, f) refl)
  ]
  | inr e ↦ elim (Bool-cases (w.worker_id == j)) [
    | inl f ↦ inr (rw (e, f) refl)
    | inr f ↦ rw (e, f) (cancel_worker-wakeup_of i j ws)
  ]
]

modify-ids :
    (i : ℕ) (ws : List Worker)
    → map (λ (w : Worker). w.worker_id) (modify i cancel_worker ws)
      ≡ map (λ (w : Worker). w.worker_id) ws
modify-ids i [] = refl
modify-ids i (w ∷ ws) = elim (Bool-cases (w.worker_id == i)) [
  | inl e ↦ rw (e, cancel_worker-id w) refl
  | inr e ↦ rw (e, modify-ids i ws) refl
]

due_time-none : (v : ℕ) → due_time none ≡ some v → ⊥
unfolding due_time
due_time-none v h = absurd (ground (arith, h))

-- To cancel a worker adds no worker and makes no timeout sooner.
pub timeout_callbacks-Later :
    (tenth i : ℕ) (p : Pool)
    → Later timeout_callbacks worker_ids tenth p (timeout_callbacks.process_object i p).1
timeout_callbacks-Later tenth i p o v m d =
    let there : In o (worker_ids p) = subst (In o) (modify-ids i p.workers) m in
    elim (cancel_worker-wakeup_of i o p.workers) [
      | inl gone ↦ absurd (due_time-none v (sym (ap due_time gone) ∙ d))
      | inr same ↦ (there, (v, sym (ap due_time same) ∙ d, omega arith))
    ]
