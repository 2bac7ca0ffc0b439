-- ===== src/TaskWorker/Depth.antt =====
-- `perform_work` has fuel enough for the callbacks of every message.
use dispatcher_fork.Base.{
  ℕ, zero, suc, ◌≤◌, ◌≡◌, refl, sym, subst, Bool, true, false, Option, arith, String, str_eq,
  eq_iff, if◌then◌else◌, Bool-cases, inl, inr,
}
use dispatcher_fork.Json.{
  Value, null, bool, num, str, array, object, Items, nil, cons, Fields, end, field, find, get, put,
  truthy,
}
use dispatcher_fork.Json.Lookup.{get-field}
use dispatcher_fork.TaskWorker.{
  Call, Raw, has_failed, get_uuid, depth, depth_items, depth_fields, listed, type_error,
  callbacks_of, callbacks_at, each, run_callbacks, perform_fueled, perform_work,
}

depth-put : (u : Value) (fs : Fields) → depth_fields (put "uuid" u fs) ≡ depth_fields fs
unfolding depth put
depth-put u end = refl
depth-put u (field j v fs) = elim (Bool-cases (str_eq j "uuid")) [
  | inl e ↦ ground (arith, e)
  | inr e ↦ ground (arith, e, depth-put u fs)
]

not_uuid :
    (j key : String) → str_eq j key ≡ true → str_eq key "uuid" ≡ false → str_eq j "uuid" ≡ false
not_uuid j key e h = subst (λ k. str_eq k "uuid" ≡ false) (sym ((eq_iff j key).0 e)) h

depth_fields-field :
    (j : String) (v : Value) (fs : Fields)
    → (depth_fields fs ≤ depth_fields (field j v fs))
      × (str_eq j "uuid" ≡ false → depth v ≤ depth_fields (field j v fs))
unfolding depth
depth_fields-field j v fs = elim (Bool-cases (str_eq j "uuid")) [
  | inl e ↦ (ground (arith, e), λ h. absurd (ground (arith, e, h)))
  | inr e ↦ (ground (arith, e), λ h. ground (arith, e))
]

depth-get :
    (key : String) (fs : Fields) → str_eq key "uuid" ≡ false → depth (get key fs) ≤ depth_fields fs
unfolding depth get find
depth-get key end h = omega arith
depth-get key (field j v fs) h =
    let (hit, miss) = get-field j key v fs in
    let (tail, head) = depth_fields-field j v fs in
    elim (Bool-cases (str_eq j key)) [
      | inl e ↦
          subst (λ w. depth w ≤ depth_fields (field j v fs)) (sym (hit e))
            (head (not_uuid j key e h))
      | inr e ↦
          subst (λ w. depth w ≤ depth_fields (field j v fs)) (sym (miss e))
            (omega (arith, depth-get key fs h, tail))
    ]

module _ {S : Type 0} (call : Fields → S → Call × S) where
  -- Both treat every message below this depth alike.
  abbrev Agree : ℕ → (Fields → S → Option Raw × S) → (Fields → S → Option Raw × S) → Type 0
  Agree d p q = (fs : Fields) → suc (depth_fields fs) ≤ d → (s : S) → p fs s ≡ q fs s

  each-Agree :
      (d : ℕ) (p q : Fields → S → Option Raw × S) (u : Value) (vs : Items) (s : S)
      → Agree d p q
      → depth_items vs ≤ d
      → each call p u vs s ≡ each call q u vs s
  unfolding each depth
  each-Agree d p q u nil s a h = refl
  each-Agree d p q u (cons (object fs) vs) s a h =
      let same = a (put "uuid" u fs) (omega (arith, depth-put u fs)) s in
      rw (same, each-Agree d p q u vs (q (put "uuid" u fs) s).1 a (omega arith)) refl
  each-Agree d p q u (cons null vs) s a h = refl
  each-Agree d p q u (cons (bool b) vs) s a h = refl
  each-Agree d p q u (cons (num n) vs) s a h = refl
  each-Agree d p q u (cons (str t) vs) s a h = refl
  each-Agree d p q u (cons (array ws) vs) s a h = refl

  if-listed-Agree :
      (d : ℕ) (p q : Fields → S → Option Raw × S) (u : Value) (b : Bool) (s : S)
      → let c = if b then type_error else listed nil in
        run_callbacks call p u c s ≡ run_callbacks call q u c s
  unfolding run_callbacks each
  if-listed-Agree d p q u true s = refl
  if-listed-Agree d p q u false s = refl

  of-Agree :
      (d : ℕ) (p q : Fields → S → Option Raw × S) (u v : Value) (s : S)
      → Agree d p q
      → depth v ≤ d
      → run_callbacks call p u (callbacks_of v) s ≡ run_callbacks call q u (callbacks_of v) s
  unfolding run_callbacks depth
  of-Agree d p q u (array vs) s a h = each-Agree d p q u vs s a (omega arith)
  of-Agree d p q u null s a h = if-listed-Agree d p q u (truthy null) s
  of-Agree d p q u (bool b) s a h = if-listed-Agree d p q u (truthy (bool b)) s
  of-Agree d p q u (num n) s a h = if-listed-Agree d p q u (truthy (num n)) s
  of-Agree d p q u (str t) s a h = if-listed-Agree d p q u (truthy (str t)) s
  of-Agree d p q u (object fs) s a h = if-listed-Agree d p q u (truthy (object fs)) s

  module _ (n m : ℕ) (fs : Fields)
      (a : Agree (depth_fields fs) (perform_fueled call n) (perform_fueled call m)) where
    at-Agree :
        (key : String) (u : Value) (s : S)
        → str_eq key "uuid" ≡ false
        → run_callbacks call (perform_fueled call n) u (callbacks_at key fs) s
          ≡ run_callbacks call (perform_fueled call m) u (callbacks_at key fs) s
    unfolding callbacks_at
    at-Agree key u s h =
        of-Agree (depth_fields fs) (perform_fueled call n) (perform_fueled call m) u (get key fs) s
          a (depth-get key fs h)

    errbacks-Agree :
        (b : Bool) (u : Value) (s : S)
        → let c = if b then callbacks_at "errbacks" fs else listed nil in
          run_callbacks call (perform_fueled call n) u c s
          ≡ run_callbacks call (perform_fueled call m) u c s
    unfolding run_callbacks each
    errbacks-Agree true u s = at-Agree "errbacks" u s refl
    errbacks-Agree false u s = refl

    step-Agree : (s : S) → perform_fueled call (suc n) fs s ≡ perform_fueled call (suc m) fs s
    unfolding perform_fueled
    step-Agree s =
        let c = call fs s in
        let errbacks = if has_failed c.0 then callbacks_at "errbacks" fs else listed nil in
        let s'' = (run_callbacks call (perform_fueled call m) (get_uuid fs) errbacks c.1).1 in
        rw
          (
            errbacks-Agree (has_failed c.0) (get_uuid fs) c.1,
            at-Agree "callbacks" (get_uuid fs) s'' refl,
          )
          refl

  fueled-Agree :
      (n m d : ℕ) → d ≤ n → d ≤ m → Agree d (perform_fueled call n) (perform_fueled call m)
  fueled-Agree zero m d h k fs below s = absurd (omega arith)
  fueled-Agree (suc n) zero d h k fs below s = absurd (omega arith)
  fueled-Agree (suc n) (suc m) d h k fs below s =
      step-Agree n m fs (fueled-Agree n m (depth_fields fs) (omega arith) (omega arith)) s

  -- perform_work ends: with any fuel above the nesting depth of a message, uuids not counted,
  -- its run with all callbacks and errbacks has the same result.
  pub perform_work-enough :
      (fuel : ℕ) (fs : Fields) (s : S)
      → suc (depth_fields fs) ≤ fuel
      → perform_fueled call fuel fs s ≡ perform_work call fs s
  unfolding perform_work
  perform_work-enough fuel fs s h =
      fueled-Agree fuel (suc (depth_fields fs)) (suc (depth_fields fs)) h (omega arith) fs
        (omega arith) s
