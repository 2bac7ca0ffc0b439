-- ===== src/Pool/Management/Deaths.antt =====
-- What `manage_old_workers` makes of a worker that died with a task: the task is counted as
-- canceled and stays on the worker.
use dispatcher_fork.Worker.{Worker}
use dispatcher_fork.Pool.{Pool}
