-- ===== src/Wakeup/Waits/Bounds.antt =====
-- What a round of `process_wakeups` answers with is no later than any wakeup that it leaves.
use dispatcher_fork.Base.{
  ℕ, ◌≡◌, ◌≤◌, ◌⊎◌, inl, inr, refl, sym, ap, ◌∙◌, subst, true, Option, none, some, List, [], ◌∷◌,
  arith, ltb, In, Option-cases, Bool-cases,
}
use dispatcher_fork.Wakeup.{
  due_time, sooner, done, raised, Callbacks, visit, consider, wakeup_loop, process_wakeups, Run,
}
use dispatcher_fork.Wakeup.Waits.{Later}

-- The answer is there and no later.
abbrev pub Before : Option ℕ → ℕ → Type 0
Before none v = ⊥
Before (some u) v = u ≤ v

sooner-Before :
    (future : Option ℕ) (t v : ℕ) → Before future v ⊎ (t ≤ v) → Before (sooner future t) v
unfolding sooner
sooner-Before none t v (inl h) = absurd h
sooner-Before none t v (inr h) = h
sooner-Before (some u) t v (inl h) = elim (Bool-cases (ltb t u)) [
  | inl e ↦ rw e (ground (arith, h, e))
  | inr e ↦ rw e h
]
sooner-Before (some u) t v (inr h) = elim (Bool-cases (ltb t u)) [
  | inl e ↦ rw e h
  | inr e ↦ rw e (ground (arith, h, e))
]

Before-mono : (r : Option ℕ) (u v : ℕ) → Before r u → u ≤ v → Before r v
Before-mono none u v h l = absurd h
Before-mono (some t) u v h l = omega (arith, h, l)

due_time-some : (t v : ℕ) → due_time (some t) ≡ some v → t ≡ v
unfolding due_time
due_time-some t v h = ground (arith, h)

due_time_is : (t : Option ℕ) (u : ℕ) → due_time t ≡ some u → t ≡ some u
unfolding due_time
due_time_is none u h = absurd (ground (arith, h))
due_time_is (some t) u h = ground (arith, h)

pub Run-cases :
    {S : Type 0} (r : Run S)
    → ((s : S) × (r ≡ raised s)) ⊎ ((t : Option ℕ) × (s : S) × (r ≡ done t s))
Run-cases (raised s) = inl (s, refl)
Run-cases (done t s) = inr (t, s, refl)

only : {A : Type 0} (P : A → Type 0) (a b : A) → P a → In b (a ∷ []) → P b
only P a b p (inl e) = subst P (sym e) p
only P a b p (inr i) = absurd i

module _ {S O : Type 0} (c : Callbacks S O) (objects : S → List O) (tenth : ℕ) where
  Later-refl : (s : S) → Later c objects tenth s s
  Later-refl s o v i d = (i, (v, d, omega arith))

  Later-trans :
      (s s' s'' : S)
      → Later c objects tenth s s'
      → Later c objects tenth s' s''
      → Later c objects tenth s s''
  Later-trans s s' s'' l l' o v i d =
      let (i', (u, e, le)) = l' o v i d in
      let (i'', (t, f, le')) = l o u i' e in (i'', (t, f, omega (arith, le, le')))

  module _ (now : ℕ)
      (gentle : (o : O) (s : S) → Later c objects tenth s (c.process_object o s).1) where
    -- After the loop over `os` from `future`, in the state s': what was known, and each of them.
    abbrev pub Bounded : List O → Option ℕ → S → Run S → Type 0
    Bounded os future s (raised s') = Unit
    Bounded os future s (done r s') =
        Later c objects tenth s s'
        × ((v : ℕ) → Before future v → Before r v)
        × ((o : O) (v : ℕ)
            → In o os
            → In o (objects s')
            → due_time (c.next_wakeup o s') ≡ some v
            → Before r v)

    Bounded-none :
        (o : O) (future : Option ℕ) (s s' : S)
        → Later c objects tenth s s'
        → due_time (c.next_wakeup o s') ≡ none
        → Bounded (o ∷ []) future s (done future s')
    Bounded-none o future s s' l e = (
      l,
      λ v h. h,
      λ o' v i _ d.
          let same = only (λ x. due_time (c.next_wakeup x s') ≡ none) o o' e i in
          absurd (ground (arith, d, same)),
    )

    Bounded-some :
        (o : O) (future : Option ℕ) (s s' : S) (t : ℕ)
        → Later c objects tenth s s'
        → c.next_wakeup o s' ≡ some t
        → Bounded (o ∷ []) future s (done (sooner future t) s')
    Bounded-some o future s s' t l e = (
      l,
      λ v h. sooner-Before future t v (inl h),
      λ o' v i _ d.
          let same = only (λ x. c.next_wakeup x s' ≡ some t) o o' e i in
          let is : t ≡ v = due_time-some t v (sym (ap due_time same) ∙ d) in
          sooner-Before future t v (inr (omega (arith, is))),
    )

    refreshed-Bounded :
        (o : O) (future : Option ℕ) (s : S) (t : ℕ)
        → ltb t now ≡ true
        → Bounded (o ∷ []) future s (visit c now true o t future s)
    unfolding visit due_time
    refreshed-Bounded o future s t due = elim (Bool-cases (c.process_object o s).0) [
      | inl f ↦ rw (due, visit, f) tt
      | inr f ↦ elim (Option-cases (c.next_wakeup o (c.process_object o s).1)) [
        | inl e ↦
            rw (due, visit, f, e)
              (Bounded-none o future s (c.process_object o s).1 (gentle o s) (ap due_time e))
        | inr (u, e) ↦
            rw (due, visit, f, e)
              (Bounded-some o future s (c.process_object o s).1 u (gentle o s) e)
      ]
    ]

    consider-Bounded :
        (o : O) (future : Option ℕ) (s : S)
        → Bounded (o ∷ []) future s (consider c now true o future s)
    unfolding consider visit
    consider-Bounded o future s = elim (Option-cases (due_time (c.next_wakeup o s))) [
      | inl e ↦ rw (e, consider) (Bounded-none o future s s (Later-refl s) e)
      | inr (t, e) ↦ elim (Bool-cases (ltb t now)) [
        | inl due ↦ rw (e, consider) (refreshed-Bounded o future s t due)
        | inr not_due ↦
            rw (e, consider, visit, not_due)
              (Bounded-some o future s s t (Later-refl s) (due_time_is (c.next_wakeup o s) t e))
      ]
    ]

    Bounded-cons :
        (o : O) (os : List O) (future future' : Option ℕ) (s s1 : S) (r : Run S)
        → Bounded (o ∷ []) future s (done future' s1)
        → Bounded os future' s1 r
        → Bounded (o ∷ os) future s r
    Bounded-cons o os future future' s s1 (raised s') x y = tt
    Bounded-cons o os future future' s s1 (done r s') (l, known, first) (l', known', others) = (
      Later-trans s s1 s' l l',
      λ v h. known' v (known v h),
      λ o' v i m d. elim i [
        | inr i ↦ others o' v i m d
        | inl e ↦
            let (m1, (u, d1, le)) = l' o' v m d in
            Before-mono r u v (known' u (first o' u (inl e) m1 d1)) le
      ],
    )

    wakeup_loop-Bounded :
        (os : List O) (future : Option ℕ) (s : S)
        → Bounded os future s (wakeup_loop c now true os future s)
    unfolding wakeup_loop
    wakeup_loop-Bounded [] future s = (Later-refl s, λ v h. h, λ o v i m d. absurd i)
    wakeup_loop-Bounded (o ∷ os) future s = elim (Run-cases (consider c now true o future s)) [
      | inl (s', e) ↦ rw (e, wakeup_loop) tt
      | inr (future', s1, e) ↦
          let first = subst (Bounded (o ∷ []) future s) e (consider-Bounded o future s) in
          rw (e, wakeup_loop)
            (Bounded-cons o os future future' s s1 (wakeup_loop c now true os future' s1) first
              (wakeup_loop-Bounded os future' s1))
    ]

    pub process_wakeups-Bounded :
        (os : List O) (s : S) → Bounded os none s (process_wakeups c now true os s)
    unfolding process_wakeups
    process_wakeups-Bounded os s = wakeup_loop-Bounded os none s
