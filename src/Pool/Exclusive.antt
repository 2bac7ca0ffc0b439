-- ===== src/Pool/Exclusive.antt =====
-- Two tasks for one call never run side by side, where both ask not to.
use dispatcher_fork.Base.{
  ℕ, ◌≡◌, sym, ◌∙◌, ap, subst, inl, inr, true, false, Option, none, some, List, [], ◌∷◌, ◌++◌,
  arith, ◌==◌, All, All-append, All-left, All-right, any, any-false, Bool-cases, All-map, All-of,
}
use mathlib.Core.List.{append_assoc}
use dispatcher_fork.Message.{Message, holds_items}
use dispatcher_fork.Worker.{Worker, start_task}
use dispatcher_fork.Queuer.{get_free_worker, task_of, running_tasks}
use dispatcher_fork.Blocker.{is_duplicate, already_running}
use dispatcher_fork.Blocker.Release.{is_duplicate_comm}
use dispatcher_fork.Blocker.Outcome.{is_exclusive}
use dispatcher_fork.Workers.{modify, get_by_id}
use dispatcher_fork.Workers.Tasks.{Rising, get_by_id-free}
use dispatcher_fork.Pool.Started.{start_task-fields, task_of-busy, task_of-free}
use dispatcher_fork.Pool.Tasks.{HoldsItems}

abbrev pub Apart : Message → Message → Type 0
Apart a b = is_exclusive a ≡ true → is_exclusive b ≡ true → is_duplicate a b ≡ false

-- Of any two in the list that both ask not to run beside another, no two are for the same call.
abbrev pub AllApart : List Message → Type 0
AllApart [] = Unit {0}
AllApart (m ∷ ms) = All (Apart m) ms × AllApart ms

Apart-symm : (a b : Message) → Apart a b → Apart b a
Apart-symm a b h eb ea = is_duplicate_comm b a ∙ h ea eb

AllApart-insert :
    (m : Message) (before after : List Message)
    → All (Apart m) (before ++ after)
    → AllApart (before ++ after)
    → AllApart (before ++ m ∷ after)
AllApart-insert m [] after h k = (h, k)
AllApart-insert m (x ∷ before) after h k = (
  All-append (Apart x) before (m ∷ after) (All-left (Apart x) before after k.0)
      (Apart-symm m x h.0, All-right (Apart x) before after k.0),
  AllApart-insert m before after h.1 k.1,
)

AllApart-drop :
    (before : List Message) (m : Message) (after : List Message)
    → AllApart (before ++ m ∷ after)
    → AllApart (before ++ after)
AllApart-drop [] m after h = h.1
AllApart-drop (x ∷ before) m after h = (
  All-append (Apart x) before after (All-left (Apart x) before (m ∷ after) h.0)
      (All-right (Apart x) before (m ∷ after) h.0).1,
  AllApart-drop before m after h.1,
)

pub AllApart-task :
    (before : List Message) (o : Option Message) (after : List Message)
    → AllApart (before ++ (task_of o ++ after))
    → AllApart (before ++ after)
AllApart-task before none after h = h
AllApart-task before (some m) after h = elim (Bool-cases (holds_items m)) [
  | inl e ↦ AllApart-drop before m after (rw e at h)
  | inr e ↦ rw e at h
]

-- Where the task of the found worker stands among the running ones.
pub record Split (i : ℕ) (f : Worker → Worker) (w : Worker) (ws : List Worker) : Type 0 where
  pub before : List Message
  pub after : List Message
  pub now : running_tasks ws ≡ before ++ (task_of w.current_task ++ after)
  pub then_after : running_tasks (modify i f ws) ≡ before ++ (task_of (f w).current_task ++ after)

pub Split-running_tasks :
    (i : ℕ) (f : Worker → Worker) (w : Worker) (ws : List Worker)
    → get_by_id i ws ≡ some w
    → Split i f w ws
unfolding running_tasks
Split-running_tasks i f w [] h = absurd (ground arith)
Split-running_tasks i f w (x ∷ ws) h = elim (Bool-cases (x.worker_id == i)) [
  | inl hit ↦
      let e : x ≡ w = ground arith in
      record {
        before = [];
        after = running_tasks ws;
        now = ap (λ (v : Worker). task_of v.current_task ++ running_tasks ws) e;
        then_after = rw hit (ap (λ (v : Worker). task_of (f v).current_task ++ running_tasks ws) e);
      }
  | inr miss ↦
      let s = Split-running_tasks i f w ws (rw miss at h) in
      record {
        before = task_of x.current_task ++ s.before;
        after = s.after;
        now = rw (s.now, append_assoc);
        then_after = rw (miss, s.then_after, append_assoc);
      }
]

pub Passes-Apart :
    (m : Message) (ms : List Message)
    → (is_exclusive m ≡ true → any (is_duplicate m) ms ≡ false)
    → All (Apart m) ms
Passes-Apart m ms h = elim (Bool-cases (is_exclusive m)) [
  | inl e ↦
      All-map (λ x. is_duplicate m x ≡ false) (Apart m) ms (λ x d _ _. d)
        (any-false (is_duplicate m) ms (h e))
  | inr n ↦ All-of (Apart m) ms (λ x e _. absurd (ground arith))
]

-- A message that passes the blocker may start next to what runs.
pub start-AllApart :
    (now : ℕ) (m : Message) (w : Worker) (ws : List Worker)
    → Rising 0 ws
    → get_free_worker ws ≡ some w
    → HoldsItems m
    → (is_exclusive m ≡ true → already_running ws m ≡ false)
    → AllApart (running_tasks ws)
    → AllApart (running_tasks (modify w.worker_id (start_task m now) ws))
unfolding already_running
start-AllApart now m w ws r e h alone apart =
    let (found, free) = get_by_id-free 0 w ws r e in
    let s = Split-running_tasks w.worker_id (start_task m now) w ws found in
    let was : running_tasks ws ≡ s.before ++ s.after = s.now ∙ rw (task_of-free w free) in
    let is : running_tasks (modify w.worker_id (start_task m now) ws) ≡ s.before ++ m ∷ s.after =
      s.then_after ∙ rw ((start_task-fields m now w).1, task_of-busy m h) in
    subst AllApart (sym is) (
      AllApart-insert m s.before s.after
        (Passes-Apart m (s.before ++ s.after) (λ x. rw (← was) (alone x))) (rw was at apart))
