-- ===== src/Pool/Scaling/Untouched.antt =====
-- Scaling does not touch the blocker.
use dispatcher_fork.Base.{ℕ, zero, suc, ◌≡◌, refl, arith}
use dispatcher_fork.Pool.{Pool}
use dispatcher_fork.Pool.Scaling.{scale_workers, ups, up, stop_idle}
use dispatcher_fork.Pool.Scaling.Invariant.{scale_workers_cases}

ups-blocker : (n now : ℕ) (p : Pool) → (ups n now p).blocker ≡ p.blocker
unfolding ups up
ups-blocker zero now p = refl
ups-blocker (suc n) now p = ups-blocker n now (up now p)

up-blocker : (now : ℕ) (p : Pool) → (up now p).blocker ≡ p.blocker
unfolding up
up-blocker now p = refl

stop_idle-blocker : (now : ℕ) (p : Pool) → (stop_idle now p).blocker ≡ p.blocker
unfolding stop_idle
stop_idle-blocker now p = ground arith

pub scale_workers-blocker : (now : ℕ) (p : Pool) → (scale_workers now p).blocker ≡ p.blocker
scale_workers-blocker now p =
    scale_workers_cases (λ q. q.blocker ≡ p.blocker) now p (λ _. ups-blocker _ now p)
      (λ _ _ _. up-blocker now p) (λ _ _ _. stop_idle-blocker now p) (λ _. refl)
