-- ===== src/Config/Serialized.antt =====
-- The settings that `serialize` gives, as the service passes them to its workers.
use dispatcher_fork.Base.{
  ◌≡◌, refl, true, some, String, if◌then◌else◌, arith, Bool-cases, Option-cases, inl, inr,
  str_eq_refl, subst,
}
use dispatcher_fork.Json.{
  Value, null, bool, num, str, array, object, Fields, end, field, contains, find, get, get_or, put,
  equal,
}
use dispatcher_fork.Json.Equality.{equal_refl}
use dispatcher_fork.Json.Lookup.{find-put_eq, contains-put_eq}
use dispatcher_fork.Config.{Settings, default_pool_kwargs, default_service, new_settings, serialize}

default_pool_kwargs_idem :
    (v w : Value) → default_pool_kwargs v ≡ some w → default_pool_kwargs w ≡ some w
unfolding default_pool_kwargs
default_pool_kwargs_idem (object fs) w h = elim (Bool-cases (contains "max_workers" fs)) [
  | inl e ↦ ground (arith, h, e)
  | inr e ↦ ground (arith, h, e, contains-put_eq "max_workers" (num 3) fs)
]
default_pool_kwargs_idem (array vs) w h = ground (arith, h)
default_pool_kwargs_idem (str s) w h = ground (arith, h)
default_pool_kwargs_idem null w h = ground (arith, h)
default_pool_kwargs_idem (bool b) w h = ground (arith, h)
default_pool_kwargs_idem (num n) w h = ground (arith, h)

put-put : (k : String) (v w : Value) (fs : Fields) → put k v (put k w fs) ≡ put k v fs
unfolding put
put-put k v w end = rw (str_eq_refl k) refl
put-put k v w (field j x fs) = ground (arith, put-put k v w fs)

get-put_eq : (k : String) (v : Value) (fs : Fields) → get k (put k v fs) ≡ v
unfolding get
get-put_eq k v fs = rw (find-put_eq k v fs, get) refl

defaulted :
    (fs : Fields) (kwargs : Value)
    → contains "pool_kwargs" fs ≡ true
    → get "pool_kwargs" fs ≡ kwargs
    → default_pool_kwargs kwargs ≡ some kwargs
    → put "pool_kwargs" kwargs fs ≡ fs
    → default_service (object fs) ≡ some fs
unfolding default_service
defaulted fs kwargs there holds kept same = ground (arith, there, holds, kept, same)

defaulted-again :
    (kwargs w : Value) (given : Fields)
    → default_pool_kwargs w ≡ some kwargs
    → default_service (object (put "pool_kwargs" kwargs given))
      ≡ some (put "pool_kwargs" kwargs given)
defaulted-again kwargs w given h =
    defaulted (put "pool_kwargs" kwargs given) kwargs (contains-put_eq "pool_kwargs" kwargs given)
      (get-put_eq "pool_kwargs" kwargs given) (default_pool_kwargs_idem w kwargs h)
      (put-put "pool_kwargs" kwargs kwargs given)

default_service_idem :
    (v : Value) (fs : Fields) → default_service v ≡ some fs → default_service (object fs) ≡ some fs
unfolding default_service
default_service_idem (object gs) fs h =
    let given = if contains "pool_kwargs" gs then gs else put "pool_kwargs" (object end) gs in
    elim (Option-cases (default_pool_kwargs (get "pool_kwargs" given))) [
      | inl e ↦ absurd (ground (arith, h, e))
      | inr (kwargs, e) ↦
          let same : put "pool_kwargs" kwargs given ≡ fs = ground (arith, h, e) in
          subst (λ t. default_service (object t) ≡ some t) same
            (defaulted-again kwargs (get "pool_kwargs" given) given e)
    ]
default_service_idem (array vs) fs h = ground (arith, h)
default_service_idem (str s) fs h = ground (arith, h)
default_service_idem null fs h = ground (arith, h)
default_service_idem (bool b) fs h = ground (arith, h)
default_service_idem (num n) fs h = ground (arith, h)

reread :
    (s : Settings)
    → default_service (object s.service) ≡ some s.service
    → new_settings (serialize s) ≡ some (s, serialize s)
unfolding new_settings serialize get_or put contains find get
reread s h = rw (equal_refl (num 2), h) refl

ready :
    (config config' : Fields) (s : Settings)
    → new_settings config ≡ some (s, config')
    → default_service (object s.service) ≡ some s.service
unfolding new_settings
ready config config' s h = elim (Bool-cases (equal (get "version" config) (num 2))) [
  | inr e ↦ absurd (ground (arith, h, e))
  | inl e ↦ elim (Option-cases (default_service (get_or "service" (object end) config))) [
    | inl f ↦ absurd (ground (arith, h, e, f))
    | inr (service, f) ↦
        let same : service ≡ s.service = ground (arith, h, e, f) in
        subst (λ t. default_service (object t) ≡ some t) same
          (default_service_idem (get_or "service" (object end) config) service f)
  ]
]

-- The settings made from a config are made again from what serialize gives of them, and that
-- dict is left as it was: the defaults are in it.
pub new_settings-serialize :
    (config config' : Fields) (s : Settings)
    → new_settings config ≡ some (s, config')
    → new_settings (serialize s) ≡ some (s, serialize s)
new_settings-serialize config config' s h = reread s (ready config config' s h)
