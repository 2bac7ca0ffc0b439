-- ===== src/Wakeup/Visits.antt =====
-- `process_wakeups` with processing: which objects the callback is called for.
use dispatcher_fork.Base.{
  ℕ, ◌≡◌, refl, sym, ap, ◌∙◌, Bool, true, false, Option, none, some, List, [], ◌∷◌, ltb,
  Option-cases, inl, inr, if◌then◌else◌, Bool-cases,
}
use dispatcher_fork.Wakeup.{
  due_time, sooner, done, Callbacks, visit, consider, wakeup_loop, process_wakeups,
}

-- The callback is called for an object whose wakeup, at its turn, is not zero and has passed.
abbrev pub is_due : {S O : Type 0} → Callbacks S O → ℕ → O → S → Bool
is_due c now o s = elim (due_time (c.next_wakeup o s)) [ none ↦ false | some t ↦ ltb t now ]

abbrev pub process_due : {S O : Type 0} → Callbacks S O → ℕ → List O → S → S
process_due c now [] s = s
process_due c now (o ∷ os) s =
    process_due c now os (if is_due c now o s then (c.process_object o s).1 else s)

module _ {S O : Type 0} (c : Callbacks S O) (now : ℕ)
    (never_raises : (o : O) (s : S) → (c.process_object o s).0 ≡ false) where
  abbrev after : O → S → S
  after o s = if is_due c now o s then (c.process_object o s).1 else s

  refreshed :
      (o : O) (future : Option ℕ) (s : S) (t : ℕ)
      → due_time (c.next_wakeup o s) ≡ some t
      → ltb t now ≡ true
      → (r : Option ℕ) × (consider c now true o future s ≡ done r (c.process_object o s).1)
  unfolding consider visit
  refreshed o future s t e due = elim (Option-cases (c.next_wakeup o (c.process_object o s).1)) [
    | inl n ↦ (future, rw (e, consider, due, never_raises o s, n) refl)
    | inr (u, n) ↦ (sooner future u, rw (e, consider, due, never_raises o s, n) refl)
  ]

  not_due : (o : O) (s : S) → is_due c now o s ≡ false → after o s ≡ s
  not_due o s h = rw h refl

  considered :
      (o : O) (future : Option ℕ) (s : S)
      → (r : Option ℕ) × (consider c now true o future s ≡ done r (after o s))
  unfolding consider visit
  considered o future s = elim (Option-cases (due_time (c.next_wakeup o s))) [
    | inl e ↦
        let stands = not_due o s (rw (e, is_due) refl) in
        let same : consider c now true o future s ≡ done future s = rw (e, consider) refl in
        (future, same ∙ ap (done future) (sym stands))
    | inr (t, e) ↦ elim (Bool-cases (ltb t now)) [
      | inl due ↦
          let (r, x) = refreshed o future s t e due in
          let is : is_due c now o s ≡ true = rw (e, is_due) due in
          let moves : after o s ≡ (c.process_object o s).1 = rw is refl in
          (r, x ∙ ap (done r) (sym moves))
      | inr later ↦
          let stands = not_due o s (rw (e, is_due) later) in
          let same : consider c now true o future s ≡ done (sooner future t) s =
            rw (e, consider, later) refl in
          (sooner future t, same ∙ ap (done (sooner future t)) (sym stands))
    ]
  ]

  loop-process_due :
      (os : List O) (future : Option ℕ) (s : S)
      → (r : Option ℕ) × (wakeup_loop c now true os future s ≡ done r (process_due c now os s))
  unfolding wakeup_loop
  loop-process_due [] future s = (future, refl)
  loop-process_due (o ∷ os) future s =
      let (r, e) = considered o future s in
      let (r', e') = loop-process_due os r (after o s) in (r', rw (e, wakeup_loop) e')

  -- If the callback never raises, process_wakeups with processing comes to an end, and calls the
  -- callback once, in the order of the objects, for exactly those whose wakeup is not zero and
  -- has passed when their turn comes.
  pub process_wakeups-process_due :
      (os : List O) (s : S)
      → (r : Option ℕ) × (process_wakeups c now true os s ≡ done r (process_due c now os s))
  unfolding process_wakeups
  process_wakeups-process_due os s = loop-process_due os none s
