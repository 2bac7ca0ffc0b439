-- ===== src/Pool/Scaling/Bounds.antt =====
-- How many workers `scale_workers` leaves.
use dispatcher_fork.Base.{ℕ, ◌+◌, ◌≤◌, count}
use dispatcher_fork.Worker.{Worker, counts_for_capacity}
use dispatcher_fork.Pool.{Pool}

-- The workers that count for capacity.
abbrev pub capacity : Pool → ℕ
capacity p = count counts_for_capacity p.workers

-- What one call of `scale_workers` does to the number of workers that count.
pub record Scaled (p p' : Pool) : Type 0 where
  pub at_least : p.min_workers ≤ capacity p'
  pub at_most :
      p.min_workers ≤ p.max_workers → capacity p ≤ p.max_workers → capacity p' ≤ p.max_workers
  pub one_less : capacity p ≤ capacity p' + 1
