-- ===== src/Pool/Management/Untouched.antt =====
-- The management of the workers does not touch the blocker.
use dispatcher_fork.Base.{
  ℕ, ◌≡◌, refl, ◌∙◌, inl, inr, true, false, List, [], ◌∷◌, arith, if◌then◌else◌, Option-cases,
}
use dispatcher_fork.Worker.{Worker}
use dispatcher_fork.Workers.{get_by_id, contains, remove_by_id}
use dispatcher_fork.Pool.{Pool}
use dispatcher_fork.Pool.Management.{
  Sight, judge, judge_again, has_died, count_death, manage_old_worker, remove_workers,
}

judge-blocker :
    (now : ℕ) (s : Sight) (i : ℕ) (w : Worker) (ids : List ℕ) (p : Pool)
    → (judge now s i w (ids, p)).1.blocker ≡ p.blocker
unfolding judge
judge-blocker now s i w ids p = ground arith

judge_again-blocker :
    (now : ℕ) (s : Sight) (i : ℕ) (ids : List ℕ) (p : Pool)
    → (judge_again now s i (ids, p)).1.blocker ≡ p.blocker
unfolding judge_again
judge_again-blocker now s i ids p = elim (Option-cases (get_by_id i p.workers)) [
  | inl e ↦ rw (e, judge_again)
  | inr (w, e) ↦ rw (e, judge_again) (judge-blocker now s i w ids p)
]

died-blocker :
    (now : ℕ) (s : Sight) (w : Worker) (p : Pool)
    → (if has_died s w then count_death now w p else p).blocker ≡ p.blocker
unfolding count_death
died-blocker now s w p = ground arith

pub manage_old_worker-blocker :
    (now : ℕ) (s : Sight) (i : ℕ) (ids : List ℕ) (p : Pool)
    → (manage_old_worker now s i (ids, p)).1.blocker ≡ p.blocker
unfolding manage_old_worker
manage_old_worker-blocker now s i ids p = elim (Option-cases (get_by_id i p.workers)) [
  | inl e ↦ rw (e, manage_old_worker)
  | inr (w, e) ↦
      rw (e, manage_old_worker) (judge_again-blocker now s i ids _ ∙ died-blocker now s w p)
]

pub remove_workers-blocker : (ids : List ℕ) (p : Pool) → (remove_workers ids p).blocker ≡ p.blocker
unfolding remove_workers
remove_workers-blocker [] p = refl
remove_workers-blocker (i ∷ ids) p =
    remove_workers-blocker ids _
    ∙ elim (contains i p.workers)
        as (λ x.
          (if x then record p { workers = remove_by_id i p.workers } else p).blocker ≡ p.blocker) [
            | true ↦ refl
            | false ↦ refl
          ]
