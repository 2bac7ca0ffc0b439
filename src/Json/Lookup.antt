-- ===== src/Json/Lookup.antt =====
-- Lookups in a dict to which a key was added.
use dispatcher_fork.Base.{
  ◌≡◌, refl, true, false, some, arith, String, str_eq, eq_iff, str_eq_refl, inl, inr, Bool-cases,
  subst, sym, ◌∙◌, if◌then◌else◌,
}
use dispatcher_fork.Json.{Value, Fields, end, field, find, contains, get, put, update, Distinct}

pub find-put_eq : (k : String) (v : Value) (fs : Fields) → find k (put k v fs) ≡ some v
unfolding find put
find-put_eq k v end = rw (str_eq_refl k)
find-put_eq k v (field j w fs) = elim (Bool-cases (str_eq j k)) [
  | inl e ↦ ground (arith, find-put_eq k v fs)
  | inr e ↦ ground (arith, find-put_eq k v fs)
]

pub find-put_ne :
    (j k : String) (v : Value) (fs : Fields) → str_eq k j ≡ false → find j (put k v fs) ≡ find j fs
unfolding find put
find-put_ne j k v end h = ground arith
find-put_ne j k v (field i w fs) h =
    ground (arith, find-put_ne j k v fs h, eq_iff i k, eq_iff i j, eq_iff k j)

pub contains-put_eq : (k : String) (v : Value) (fs : Fields) → contains k (put k v fs) ≡ true
unfolding contains
contains-put_eq k v fs = rw (find-put_eq k v fs, contains) refl

pub contains-put_ne :
    (j k : String) (v : Value) (fs : Fields)
    → str_eq k j ≡ false
    → contains j (put k v fs) ≡ contains j fs
unfolding contains
contains-put_ne j k v fs h = rw (find-put_ne j k v fs h, contains) refl

pub contains_of_find :
    (k : String) (v : Value) (fs : Fields) → find k fs ≡ some v → contains k fs ≡ true
unfolding contains
contains_of_find k v fs h = rw (h, contains) refl

pub get-field :
    (j k : String) (v : Value) (fs : Fields)
    → ((str_eq j k ≡ true) → get k (field j v fs) ≡ v)
      × ((str_eq j k ≡ false) → get k (field j v fs) ≡ get k fs)
unfolding get find
get-field j k v fs = (λ h. ground (arith, h), λ h. ground (arith, h))

-- After `fs.update(changes)` a key has the value of the changes, if they have it, else its own.
pub find-update :
    (k : String) (fs changes : Fields)
    → Distinct changes
    → find k (update fs changes) ≡ (if contains k changes then find k changes else find k fs)
unfolding update contains find
find-update k fs end h = refl
find-update k fs (field j v changes) h = elim (Bool-cases (str_eq j k)) [
  | inl e ↦
      let same : j ≡ k = (eq_iff j k).0 e in
      let none_left : contains k changes ≡ false =
        subst (λ t. contains t changes ≡ false) same h.0 in
      let put_there : find k (put j v fs) ≡ some v =
        subst (λ t. find k (put t v fs) ≡ some v) (sym same) (find-put_eq k v fs) in
      find-update k (put j v fs) changes h.1 ∙ ground (arith, e, none_left, put_there)
  | inr e ↦ find-update k (put j v fs) changes h.1 ∙ ground (arith, e, find-put_ne k j v fs e)
]
