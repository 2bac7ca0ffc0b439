-- ===== src/Pool/Starvation/Forever.antt =====
-- No step of a pool releases either of two held messages for one call.
use dispatcher_fork.Base.{ℕ, ◌≡◌, sym, ◌∙◌, ap, subst, true, Option, In}
use dispatcher_fork.Message.{Message}
use dispatcher_fork.Worker.{start}
use dispatcher_fork.Blocker.{Blocker, is_duplicate}
use dispatcher_fork.Pool.{Pool, dispatch_task}
use dispatcher_fork.Pool.Dispatch.{dispatch_task-Dispatched}
use dispatcher_fork.Pool.Invariant.{IsValid}
use dispatcher_fork.Pool.Results.Invariant.{with_workers, status-IsValid}
use dispatcher_fork.Pool.Scaling.Untouched.{scale_workers-blocker}
use dispatcher_fork.Pool.Management.{manage_new_worker}
use dispatcher_fork.Pool.Management.Invariant.{start-KeepsTask, manage_new_worker_inv}
use dispatcher_fork.Pool.Management.Untouched.{manage_old_worker-blocker, remove_workers-blocker}
use dispatcher_fork.Pool.History.{
  Step, receive, read, scale, launch, look, forget, Reach, here, next, Reach-IsValid,
}
use dispatcher_fork.Pool.Starvation.{
  BothHeld, Dispatched-held, drain_queue-BothHeld, handle_result-BothHeld,
}

module _ (a b : Message) (twins : is_duplicate a b ≡ true) where
  BothHeld-blocker : (p q : Pool) → q.blocker ≡ p.blocker → BothHeld a b p → BothHeld a b q
  BothHeld-blocker p q e h =
      subst (λ (x : Blocker). In a x.blocked_messages × In b x.blocked_messages) (sym e) h

  manage_new_worker-BothHeld :
      (now : ℕ) (pid : Option ℕ) (i : ℕ) (p : Pool)
      → IsValid p
      → BothHeld a b p
      → BothHeld a b (manage_new_worker now pid i p)
  manage_new_worker-BothHeld now pid i p v h = manage_new_worker_inv (BothHeld a b) now pid i p h (
      drain_queue-BothHeld a b now (with_workers i (start pid) p) twins
        (status-IsValid i (start pid) p (start-KeepsTask pid) v) h)

  Step-BothHeld : (p p' : Pool) → Step p p' → IsValid p → BothHeld a b p → BothHeld a b p'
  Step-BothHeld p p' (receive now m items f e) v h =
      let d = dispatch_task-Dispatched now m p items in
      subst (BothHeld a b) (sym e) (
        Dispatched-held a now m p (dispatch_task now m p) d h.0,
        Dispatched-held b now m p (dispatch_task now m p) d h.1,
      )
  Step-BothHeld p p' (read now r honest e) v h =
      subst (BothHeld a b) (sym e) (handle_result-BothHeld a b now r p twins v h)
  Step-BothHeld p p' (scale now e) v h =
      BothHeld-blocker p p' (ap (λ (x : Pool). x.blocker) e ∙ scale_workers-blocker now p) h
  Step-BothHeld p p' (launch now pid i e) v h =
      subst (BothHeld a b) (sym e) (manage_new_worker-BothHeld now pid i p v h)
  Step-BothHeld p p' (look now s i ids e) v h =
      BothHeld-blocker p p'
        (ap (λ (x : Pool). x.blocker) e ∙ manage_old_worker-blocker now s i ids p) h
  Step-BothHeld p p' (forget ids e) v h =
      BothHeld-blocker p p' (ap (λ (x : Pool). x.blocker) e ∙ remove_workers-blocker ids p) h

-- Once two messages for one call are held together by a valid pool, both are held after every
-- history: none of the two is ever run.
pub Reach-BothHeld :
    (a b : Message) {p p' : Pool}
    → is_duplicate a b ≡ true
    → IsValid p
    → BothHeld a b p
    → Reach p p'
    → BothHeld a b p'
Reach-BothHeld a b twins v h here = h
Reach-BothHeld a b twins v h (next r s) =
    Step-BothHeld a b twins _ _ s (Reach-IsValid r v) (Reach-BothHeld a b twins v h r)
