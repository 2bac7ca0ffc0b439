-- ===== src/Wakeup/Soonest.antt =====
-- What `process_wakeups` answers when it is asked not to process anything, as `kick` asks.
use dispatcher_fork.Base.{
  ℕ, ◌≤◌, ◌≡◌, refl, sym, ap, ◌∙◌, ◌⊎◌, inl, inr, false, Option, none, some, List, [], ◌∷◌, map,
  arith, ltb, All, In, Option-cases, Bool-cases,
}
use dispatcher_fork.Wakeup.{
  due_time, sooner, done, Callbacks, visit, consider, wakeup_loop, process_wakeups,
}

-- The loop on the wakeup times alone.
abbrev add_due : Option ℕ → Option ℕ → Option ℕ
add_due none future = future
add_due (some u) future = sooner future u

abbrev soonest : List (Option ℕ) → Option ℕ → Option ℕ
soonest [] future = future
soonest (t ∷ ts) future = soonest ts (add_due (due_time t) future)

-- No wakeup is sooner than the answer, and the answer is the wakeup of one of the objects. There
-- is none just when every object has none, or one at zero.
abbrev pub IsSoonest : List (Option ℕ) → Option ℕ → Type 0
IsSoonest ts none = All (λ t. due_time t ≡ none) ts
IsSoonest ts (some u) = In (some u) ts × All (λ t. (v : ℕ) → due_time t ≡ some v → u ≤ v) ts

due_time-some : (t : Option ℕ) (u : ℕ) → due_time t ≡ some u → t ≡ some u
unfolding due_time
due_time-some none u h = absurd (ground (arith, h))
due_time-some (some t) u h = ground (arith, h)

-- What the loop makes of a first answer.
record Extends (ts : List (Option ℕ)) (future r : Option ℕ) : Type 0 where
  nothing : r ≡ none → (future ≡ none) × All (λ t. due_time t ≡ none) ts
  least :
      (u : ℕ)
      → r ≡ some u
      → ((future ≡ some u) ⊎ In (some u) ts)
        × ((v : ℕ) → future ≡ some v → u ≤ v)
        × All (λ t. (v : ℕ) → due_time t ≡ some v → u ≤ v) ts

add_due-cases :
    (d future : Option ℕ) (u : ℕ)
    → add_due d future ≡ some u
    → ((future ≡ some u) ⊎ (d ≡ some u))
      × ((v : ℕ) → future ≡ some v → u ≤ v)
      × ((v : ℕ) → d ≡ some v → u ≤ v)
unfolding sooner
add_due-cases none future u h =
    (inl h, λ v k. ground (arith, h, k), λ v k. absurd (ground (arith, k)))
add_due-cases (some w) none u h =
    (inr h, λ v k. absurd (ground (arith, k)), λ v k. ground (arith, h, k))
add_due-cases (some w) (some f) u h = elim (Bool-cases (ltb w f)) [
  | inl e ↦
      (inr (ground (arith, h, e)), λ v k. ground (arith, h, k, e), λ v k. ground (arith, h, k, e))
  | inr e ↦
      (inl (ground (arith, h, e)), λ v k. ground (arith, h, k, e), λ v k. ground (arith, h, k, e))
]

add_due-none : (d future : Option ℕ) → add_due d future ≡ none → (future ≡ none) × (d ≡ none)
unfolding sooner
add_due-none none future h = (h, refl)
add_due-none (some w) none h = absurd (ground (arith, h))
add_due-none (some w) (some f) h = absurd (ground (arith, h))

lower_bounds :
    (d future : Option ℕ) (u : ℕ)
    → ((v : ℕ) → add_due d future ≡ some v → u ≤ v)
    → ((v : ℕ) → future ≡ some v → u ≤ v) × ((v : ℕ) → d ≡ some v → u ≤ v)
lower_bounds d future u below = elim (Option-cases (add_due d future)) [
  | inl e ↦
      let (f, n) = add_due-none d future e in
      (λ v k. absurd (ground (arith, f, k)), λ v k. absurd (ground (arith, n, k)))
  | inr (r, e) ↦
      let (_, low_future, low_due) = add_due-cases d future r e in
      let low = below r e in
      (λ v k. omega (arith, low, low_future v k), λ v k. omega (arith, low, low_due v k))
]

Extends-cons :
    (t : Option ℕ) (ts : List (Option ℕ)) (future : Option ℕ) (u : ℕ)
    → (add_due (due_time t) future ≡ some u) ⊎ In (some u) ts
    → ((v : ℕ) → add_due (due_time t) future ≡ some v → u ≤ v)
    → All (λ t. (v : ℕ) → due_time t ≡ some v → u ≤ v) ts
    → ((future ≡ some u) ⊎ In (some u) (t ∷ ts))
      × ((v : ℕ) → future ≡ some v → u ≤ v)
      × All (λ t. (v : ℕ) → due_time t ≡ some v → u ≤ v) (t ∷ ts)
Extends-cons t ts future u place below all =
    let (low_future, low_due) = lower_bounds (due_time t) future u below in
    (
      elim place [
        | inl h ↦ elim (add_due-cases (due_time t) future u h).0 [
          | inl f ↦ inl f
          | inr d ↦ inr (inl (sym (due_time-some t u d)))
        ]
        | inr i ↦ inr (inr i)
      ],
      low_future,
      (low_due, all),
    )

soonest-Extends : (ts : List (Option ℕ)) (future : Option ℕ) → Extends ts future (soonest ts future)
soonest-Extends [] future = record {
  nothing = λ h. (h, tt);
  least = λ u h. (inl h, λ v k. ground (arith, h, k), tt);
}
soonest-Extends (t ∷ ts) future =
    let x = soonest-Extends ts (add_due (due_time t) future) in
    record {
      nothing = λ h.
          let (n, all) = x.nothing h in
          let (f, d) = add_due-none (due_time t) future n in (f, (d, all));
      least = λ u h.
          let (from_where, below, all) = x.least u h in
          Extends-cons t ts future u from_where below all;
    }

pub soonest-IsSoonest : (ts : List (Option ℕ)) → IsSoonest ts (soonest ts none)
soonest-IsSoonest ts = elim (Option-cases (soonest ts none)) [
  | inl e ↦ rw e ((soonest-Extends ts none).nothing e).1
  | inr (u, e) ↦
      let (place, _, all) = (soonest-Extends ts none).least u e in
      rw e (elim place [ inl h ↦ absurd (ground (arith, h)) | inr i ↦ i ], all)
]

module _ {S O : Type 0} (c : Callbacks S O) (current_time : ℕ) where
  wakeup_loop-soonest :
      (os : List O) (future : Option ℕ) (s : S)
      → wakeup_loop c current_time false os future s
        ≡ done (soonest (map (λ o. c.next_wakeup o s) os) future) s
  unfolding wakeup_loop consider visit
  wakeup_loop-soonest [] future s = refl
  wakeup_loop-soonest (o ∷ os) future s = elim (Option-cases (due_time (c.next_wakeup o s))) [
    | inl e ↦
        rw (e, wakeup_loop)
          (wakeup_loop-soonest os future s
            ∙ ap (λ d. done (soonest (map (λ x. c.next_wakeup x s) os) (add_due d future)) s)
                (sym e))
    | inr (t, e) ↦
        rw (e, wakeup_loop)
          (wakeup_loop-soonest os (sooner future t) s
            ∙ ap (λ d. done (soonest (map (λ x. c.next_wakeup x s) os) (add_due d future)) s)
                (sym e))
  ]

  -- Without processing, process_wakeups runs no callback and answers with the soonest wakeup of
  -- the objects, and with none just when every object has none, or one at zero.
  pub process_wakeups-IsSoonest :
      (os : List O) (s : S)
      → (r : Option ℕ) × (process_wakeups c current_time false os s ≡ done r s)
        × IsSoonest (map (λ o. c.next_wakeup o s) os) r
  unfolding process_wakeups
  process_wakeups-IsSoonest os s =
      let ts = map (λ o. c.next_wakeup o s) os in
      (soonest ts none, wakeup_loop-soonest os none s, soonest-IsSoonest ts)
