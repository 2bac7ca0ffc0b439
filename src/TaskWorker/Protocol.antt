-- ===== src/TaskWorker/Protocol.antt =====
-- What a worker process puts on the finished queue in its life.
use dispatcher_fork.Base.{
  ℕ, suc, ◌≤◌, ◌≡◌, refl, ap, ◌⊎◌, inl, inr, false, Option, none, some, List, [], ◌∷◌, ◌++◌, length,
  arith, All, String, Bool-cases,
}
use dispatcher_fork.Json.{Value, num, str, Fields, find}
use dispatcher_fork.TaskWorker.{
  Call, Raw, perform_work, get_ready_message, get_shutdown_message, get_finished_message, Order,
  perform, go_on, leave, crash, order_of, Round, Sent, End, in_loop, at_end, by_crash, work_rounds,
  work_loop,
}

-- A report that a task is done, from this worker.
abbrev pub IsDone : ℕ → Fields → Type 0
IsDone worker_id fs =
    (find "worker" fs ≡ some (num worker_id)) × (find "event" fs ≡ some (str "done"))

finished-IsDone :
    (worker_id : ℕ) (raw : Raw) (fs : Fields) (started finish : ℕ)
    → IsDone worker_id (get_finished_message worker_id raw fs started finish)
unfolding get_finished_message find
finished-IsDone worker_id raw fs started finish = (refl, refl)

-- After what stands before and some reports of done tasks, at most one for each round, comes the shutdown message if the
-- loop has come to its end, and nothing more if it goes on or was left by an exception.
pub record Lived (worker_id rounds : ℕ) (s : Sent) (before : List Fields) : Type 0 where
  pub dones : List Fields
  pub all_done : All (IsDone worker_id) dones
  pub bound : length dones ≤ rounds
  pub order :
      ((s.how ≡ at_end) × (s.reports ≡ before ++ (dones ++ get_shutdown_message worker_id ∷ [])))
      ⊎ (((s.how ≡ in_loop) ⊎ (s.how ≡ by_crash)) × (s.reports ≡ before ++ dones))

module _ (lower : String → String) (loads : String → Option Value) {S : Type 0}
    (call : Fields → S → Call × S) (worker_id : ℕ) where
  Lived-none :
      (n : ℕ) (end : End)
      → ((end ≡ in_loop) ⊎ (end ≡ by_crash))
      → Lived worker_id n (record { reports = []; how = end }) []
  Lived-none n end h = record {
    dones = [];
    all_done = tt;
    bound = omega arith;
    order = inr (h, refl);
  }

  Lived-shutdown :
      (n : ℕ)
      → Lived worker_id n
          (record { reports = get_shutdown_message worker_id ∷ []; how = at_end })
          []
  Lived-shutdown n = record {
    dones = [];
    all_done = tt;
    bound = omega arith;
    order = inl (refl, refl);
  }

  Lived-later : (n : ℕ) (s : Sent) → Lived worker_id n s [] → Lived worker_id (suc n) s []
  Lived-later n s l = record {
    dones = l.dones;
    all_done = l.all_done;
    bound = omega (arith, l.bound);
    order = l.order;
  }

  Lived-done :
      (n : ℕ) (fs : Fields) (s : Sent)
      → IsDone worker_id fs
      → Lived worker_id n s []
      → Lived worker_id (suc n) (record { reports = fs ∷ s.reports; how = s.how }) []
  Lived-done n fs s d l = record {
    dones = fs ∷ l.dones;
    all_done = (d, l.all_done);
    bound = omega (arith, l.bound);
    order = elim l.order [
      | inl (h, e) ↦ inl (h, ap (λ t. fs ∷ t) e)
      | inr (h, e) ↦ inr (h, ap (λ t. fs ∷ t) e)
    ];
  }

  -- The end of a round on the order that it got.
  follow : Round → List Round → S → Order → Sent
  follow r rs s leave = record { reports = get_shutdown_message worker_id ∷ []; how = at_end }
  follow r rs s crash = record { reports = []; how = by_crash }
  follow r rs s go_on = work_rounds lower loads call worker_id rs s
  follow r rs s (perform fs) = elim (perform_work call fs s).0 [
    | none ↦ record { reports = []; how = by_crash }
    | some raw ↦
        let rest = work_rounds lower loads call worker_id rs (perform_work call fs s).1 in
        record {
          reports =
              get_finished_message worker_id raw fs r.time_started r.time_finish ∷ rest.reports;
          how = rest.how;
        }
  ]

  work_rounds-follow :
      (r : Round) (rs : List Round) (s : S)
      → r.should_exit ≡ false
      → work_rounds lower loads call worker_id (r ∷ rs) s
        ≡ follow r rs s (order_of lower loads r.arrival)
  unfolding work_rounds follow
  work_rounds-follow r rs s e = rw e refl

  follow-Lived :
      (r : Round) (rs : List Round) (s : S) (o : Order)
      → ((s' : S) → Lived worker_id (length rs) (work_rounds lower loads call worker_id rs s') [])
      → Lived worker_id (suc (length rs)) (follow r rs s o) []
  unfolding follow
  follow-Lived r rs s leave later = Lived-shutdown (suc (length rs))
  follow-Lived r rs s crash later = Lived-none (suc (length rs)) by_crash (inr refl)
  follow-Lived r rs s go_on later = Lived-later (length rs) _ (later s)
  follow-Lived r rs s (perform fs) later =
      let rest = work_rounds lower loads call worker_id rs (perform_work call fs s).1 in
      elim (perform_work call fs s).0
        as (λ o.
          Lived worker_id (suc (length rs))
            (elim o [
              | none ↦ record { reports = []; how = by_crash }
              | some raw ↦ record {
                reports =
                    get_finished_message worker_id raw fs r.time_started r.time_finish
                    ∷ rest.reports;
                how = rest.how;
              }
            ])
            []) [
              | none ↦ Lived-none (suc (length rs)) by_crash (inr refl)
              | some raw ↦
                  Lived-done (length rs) _ rest
                    (finished-IsDone worker_id raw fs r.time_started r.time_finish)
                    (later (perform_work call fs s).1)
            ]

  work_rounds-Lived :
      (rs : List Round) (s : S)
      → Lived worker_id (length rs) (work_rounds lower loads call worker_id rs s) []
  unfolding work_rounds
  work_rounds-Lived [] s = Lived-none 0 in_loop (inl refl)
  work_rounds-Lived (r ∷ rs) s = elim (Bool-cases r.should_exit) [
    | inl e ↦ rw (e, work_rounds) (Lived-shutdown (suc (length rs)))
    | inr e ↦
        rw (work_rounds-follow r rs s e)
          (follow-Lived r rs s (order_of lower loads r.arrival) (λ s'. work_rounds-Lived rs s'))
  ]

  -- What a worker process puts on the finished queue begins with its ready message, goes on with
  -- reports of done tasks under its own id, at most one for each round, and ends with its
  -- shutdown message if the loop comes to its end, and with nothing more if it goes on or is
  -- left by an exception.
  pub work_loop-Lived :
      (rs : List Round) (s : S)
      → Lived worker_id
          (length rs)
          (work_loop lower loads call worker_id rs s)
          (get_ready_message worker_id ∷ [])
  unfolding work_loop
  work_loop-Lived rs s =
      let l = work_rounds-Lived rs s in
      record {
        dones = l.dones;
        all_done = l.all_done;
        bound = l.bound;
        order = elim l.order [
          | inl (h, e) ↦ inl (h, ap (λ t. get_ready_message worker_id ∷ t) e)
          | inr (h, e) ↦ inr (h, ap (λ t. get_ready_message worker_id ∷ t) e)
        ];
      }
