-- ===== src/Wakeup/Waits/Watched.antt =====
-- No wakeup is missed.
use dispatcher_fork.Base.{
  ℕ, ◌+◌, ◌≡◌, ◌≤◌, ◌⊎◌, inl, inr, refl, sym, ap, subst, Bool, true, false, ◌||◌, Option, none,
  some, List, [], ◌∷◌, map, arith, ltb, All, In, Bool-cases, if◌then◌else◌,
}
use dispatcher_fork.Wakeup.{
  due_time, done, raised, Callbacks, process_wakeups, running, finished, Background, Run,
}
use dispatcher_fork.Wakeup.Kick.{kick-running}
use dispatcher_fork.Wakeup.Waits.{
  Loop, new_loop, wakeups, kick_loop, wait_until, round, Later, Step, changes, relaxes, runs, wakes,
  stops, ticks, Reach, here, next, after_wakeups, ended, is_running,
}
use dispatcher_fork.Wakeup.Waits.Bounds.{Bounded, process_wakeups-Bounded}

All-In-map :
    {A B : Type 0} (P : B → Type 0) (f : A → B) (xs : List A) (x : A)
    → All P (map f xs)
    → In x xs
    → P (f x)
All-In-map P f [] x h i = absurd i
All-In-map P f (y ∷ ys) x h (inl e) = subst (λ z. P (f z)) (sym e) h.0
All-In-map P f (y ∷ ys) x h (inr i) = All-In-map P f ys x h.1 i

-- The runner has been told to stop, or its callback has raised.
abbrev pub given_up : {S : Type 0} → Loop S → Bool
given_up l = l.exit_event || l.runner.shutting_down

not_running : (t : Option Background) → is_running t ≡ false ⊎ (t ≡ some running)
not_running none = inl refl
not_running (some finished) = inl refl
not_running (some running) = inr refl

module _ {S O : Type 0} (c : Callbacks S O) (objects : S → List O) (tenth : ℕ) where
  -- The task runs, and is at the beginning of its loop, or has been kicked, or sleeps no longer
  -- than until the wakeup, or than 0.1 s from now.
  abbrev pub Watched : Loop S → ℕ → Type 0
  Watched l v =
      (l.runner.asyncio_task ≡ some running)
      × ((l.sleeps_until ≡ none)
          ⊎ (l.runner.kick_event ≡ true)
          ⊎ ((t : ℕ) × (l.sleeps_until ≡ some t) × ((t ≤ v) ⊎ (t ≤ l.clock + tenth))))

  abbrev Watches : Loop S → Type 0
  Watches l =
      (o : O) (v : ℕ)
      → In o (objects l.state)
      → due_time (c.next_wakeup o l.state) ≡ some v
      → Watched l v

  kick_loop-Watches : (l : Loop S) → Watches (kick_loop c objects tenth l)
  unfolding kick_loop
  kick_loop-Watches l o v i d = elim (kick-running (wakeups c objects tenth l.state) l.runner) [
    | inl (nothing, _) ↦
        let is_none =
          All-In-map (λ t. due_time t ≡ none) (λ x. c.next_wakeup x l.state) (objects l.state) o
            nothing i in
        absurd (ground (arith, d, is_none))
    | inr (alive, kicked) ↦ elim (not_running l.runner.asyncio_task) [
      | inl e ↦ (alive, inl (rw e refl))
      | inr e ↦ (alive, inr (inl (kicked e)))
    ]
  ]

  Watched-mono : (l : Loop S) (u v : ℕ) → u ≤ v → Watched l u → Watched l v
  Watched-mono l u v le (alive, inl e) = (alive, inl e)
  Watched-mono l u v le (alive, inr (inl e)) = (alive, inr (inl e))
  Watched-mono l u v le (alive, inr (inr (t, e, inl h))) =
      (alive, inr (inr (t, e, inl (omega (arith, h, le)))))
  Watched-mono l u v le (alive, inr (inr (t, e, inr h))) = (alive, inr (inr (t, e, inr h)))

  Watched-ticks :
      (l : Loop S) (n v : ℕ) → Watched l v → Watched (record l { clock = l.clock + n }) v
  Watched-ticks l n v (alive, inl e) = (alive, inl e)
  Watched-ticks l n v (alive, inr (inl e)) = (alive, inr (inl e))
  Watched-ticks l n v (alive, inr (inr (t, e, inl h))) = (alive, inr (inr (t, e, inl h)))
  Watched-ticks l n v (alive, inr (inr (t, e, inr h))) =
      (alive, inr (inr (t, e, inr (omega (arith, h)))))

  wait_until-Watched :
      (now t v : ℕ)
      → t ≤ v
      → (wait_until c objects tenth now t ≤ v) ⊎ (wait_until c objects tenth now t ≤ now + tenth)
  wait_until-Watched now t v le = elim (Bool-cases (ltb now t)) [
    | inl e ↦ inl (rw e le)
    | inr e ↦ inr (rw e (omega arith))
  ]

  module _ (gentle : (o : O) (s : S) → Later c objects tenth s (c.process_object o s).1) where
    Kept : Loop S → Type 0
    Kept l = (given_up l ≡ true) ⊎ Watches l

    after-Kept :
        (l : Loop S) (r : Run S)
        → l.runner.asyncio_task ≡ some running
        → Bounded c objects tenth l.clock gentle (objects l.state) none l.state r
        → Kept (after_wakeups c objects tenth l r)
    unfolding Kept
    after-Kept l (raised s) alive b = inl (ground arith)
    after-Kept l (done none s) alive (l', _, below) =
        inr (λ o v i d. absurd (below o v (l' o v i d).0 i d))
    after-Kept l (done (some t) s) alive (l', _, below) = inr (λ o v i d. (
      alive,
      inr (
          inr (
            wait_until c objects tenth l.clock t,
            refl,
            wait_until-Watched l.clock t v (below o v (l' o v i d).0 i d),
          )),
    ))

    round-Kept :
        (l : Loop S) → l.runner.asyncio_task ≡ some running → Kept (round c objects tenth l)
    unfolding Kept round
    round-Kept l alive =
        let looked =
          after_wakeups c objects tenth l
            (process_wakeups c l.clock true (objects l.state) l.state) in
        let as_told : Bool → Loop S = λ told. if told then ended c objects tenth l else looked in
        elim (Bool-cases l.runner.shutting_down) [
          | inl e ↦ subst Kept (sym (ap as_told e)) (inl (ground (arith, e)))
          | inr e ↦ subst Kept (sym (ap as_told e)) (
              after-Kept l (process_wakeups c l.clock true (objects l.state) l.state) alive
                (process_wakeups-Bounded c objects tenth l.clock gentle (objects l.state) l.state))
        ]

    Step-Kept : (l l' : Loop S) → Step c objects tenth l l' → Kept l → Kept l'
    unfolding Kept
    Step-Kept l l' (changes s) k = inr (kick_loop-Watches (record l { state = s }))
    Step-Kept l l' (relaxes s later) (inl e) = inl e
    Step-Kept l l' (relaxes s later) (inr w) =
        inr (λ o v i d. let (i', (u, e, le)) = later o v i d in Watched-mono l u v le (w o u i' e))
    Step-Kept l l' (runs alive _) k = round-Kept l alive
    Step-Kept l l' (wakes t alive _ _) k = inr (λ o v i d. (alive, inl refl))
    Step-Kept l l' stops k =
        inr (kick_loop-Watches (record l { runner = record (l.runner) { shutting_down = true } }))
    Step-Kept l l' (ticks n) (inl e) = inl e
    Step-Kept l l' (ticks n) (inr w) = inr (λ o v i d. Watched-ticks l n v (w o v i d))

    Reach-Kept :
        (s : S) (l : Loop S)
        → Reach c objects tenth (kick_loop c objects tenth (new_loop s)) l
        → Kept l
    unfolding Kept
    Reach-Kept s l here = inr (kick_loop-Watches (new_loop s))
    Reach-Kept s l (next {l = l0} r step) = Step-Kept l0 l step (Reach-Kept s l0 r)

    -- A runner that is kicked at the beginning and after every change of its objects that may
    -- add a wakeup or make one sooner misses none, if its callback adds no object and makes no
    -- wakeup sooner. In each state that its task, the changes and the time can reach, while it
    -- was not shut down and no callback has raised, for each object with a wakeup other than
    -- zero the task runs, and it is about to look, or was kicked, or sleeps no longer than until
    -- this wakeup or than 0.1 s from now.
    pub Reach-Watched :
        (s : S) (l : Loop S) (o : O) (v : ℕ)
        → Reach c objects tenth (kick_loop c objects tenth (new_loop s)) l
        → given_up l ≡ false
        → In o (objects l.state)
        → due_time (c.next_wakeup o l.state) ≡ some v
        → Watched l v
    unfolding Kept
    Reach-Watched s l o v r goes_on i d = elim (Reach-Kept s l r) [
      | inl e ↦ absurd (ground (arith, e, goes_on))
      | inr w ↦ w o v i d
    ]
