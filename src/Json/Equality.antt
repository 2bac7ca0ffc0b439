-- ===== src/Json/Equality.antt =====
-- Python's `==` on message values is symmetric, dicts in any order of their keys included.
use dispatcher_fork.Base.{
  ℕ, String, ◌≡◌, refl, sym, ◌∙◌, Bool, true, false, some, arith, eq_iff, str_eq, str_eq_refl, inl,
  inr, Bool-cases, Option-cases,
}
use dispatcher_fork.Json.{
  Value, null, bool, num, str, array, object, Items, nil, cons, Fields, end, field, find, erase,
  get, equal, equal_items, equal_fields,
}

-- What a successful comparison with a non-empty left side says, and what proves one.
pub equal_fields-field :
    (k : String) (v : Value) (fs gs : Fields)
    → equal_fields (field k v fs) gs ≡ true
    → (w : Value) × (find k gs ≡ some w)
      × (equal v w ≡ true)
      × (equal_fields fs (erase k gs) ≡ true)
unfolding equal
equal_fields-field k v fs gs h = elim (Option-cases (find k gs)) [
  | inl e ↦ absurd (ground arith)
  | inr (w, e) ↦ (w, e, ground arith, ground arith)
]

equal_fields-cons :
    (k : String) (v w : Value) (fs gs : Fields)
    → find k gs ≡ some w
    → equal v w ≡ true
    → equal_fields fs (erase k gs) ≡ true
    → equal_fields (field k v fs) gs ≡ true
unfolding equal
equal_fields-cons k v w fs gs e h r = ground arith

find-field_ne :
    (j k : String) (v : Value) (fs : Fields)
    → str_eq j k ≡ false
    → (find k (field j v fs) ≡ find k fs) × (erase k (field j v fs) ≡ field j v (erase k fs))
unfolding find erase
find-field_ne j k v fs h = (ground arith, ground arith)

find-field_eq :
    (k : String) (v : Value) (fs : Fields)
    → (find k (field k v fs) ≡ some v) × (erase k (field k v fs) ≡ fs)
unfolding find erase
find-field_eq k v fs = (rw (str_eq_refl k), rw (str_eq_refl k))

str_eq_symm : (j k : String) → str_eq j k ≡ false → str_eq k j ≡ false
str_eq_symm j k h = ground (arith, eq_iff j k, eq_iff k j)

some-inj : {v w : Value} → some v ≡ some w → v ≡ w
some-inj h = cc

take_back_head :
    (k : String) (v w u : Value) (gs fs : Fields)
    → find k (field k u gs) ≡ some w
    → equal w v ≡ true
    → equal_fields (erase k (field k u gs)) fs ≡ true
    → equal_fields (field k u gs) (field k v fs) ≡ true
take_back_head k v w u gs fs f h r =
    let (fu, eu) = find-field_eq k u gs in
    let (fv, ev) = find-field_eq k v fs in
    let same : w ≡ u = some-inj (sym f ∙ fu) in
    equal_fields-cons k u v gs (field k v fs) fv (rw same at h) (rw ev (rw eu at r))

-- A field taken out on the left may be put back on the right.
equal_fields-take_back :
    (k : String) (v w : Value) (gs fs : Fields)
    → find k gs ≡ some w
    → equal w v ≡ true
    → equal_fields (erase k gs) fs ≡ true
    → equal_fields gs (field k v fs) ≡ true
equal_fields-take_back k v w end fs f h r = absurd (unfold find in cc)
equal_fields-take_back k v w (field j u gs) fs f h r = elim (Bool-cases (str_eq j k)) [
  | inl hit ↦
      let e = (eq_iff j k).0 hit in rw e (take_back_head k v w u gs fs (rw e at f) h (rw e at r))
  | inr miss ↦
      let (f', e') = find-field_ne j k u gs miss in
      let (x, fx, ux, rest) = equal_fields-field j u (erase k gs) fs (rw e' at r) in
      let (g', d') = find-field_ne k j v fs (str_eq_symm j k miss) in
      equal_fields-cons j u x gs (field k v fs) (g' ∙ fx) ux
        (rw d' (equal_fields-take_back k v w gs (erase j fs) (sym f' ∙ f) h rest))
]

bool_symm : (b : Bool) (w : Value) → equal (bool b) w ≡ true → equal w (bool b) ≡ true
unfolding equal
bool_symm b w h = ground arith

num_symm : (n : ℕ) (w : Value) → equal (num n) w ≡ true → equal w (num n) ≡ true
unfolding equal
num_symm n w h = ground arith

str_symm : (s : String) (w : Value) → equal (str s) w ≡ true → equal w (str s) ≡ true
unfolding equal
str_symm s null h = h
str_symm s (str t) h = ground (arith, eq_iff s t, eq_iff t s)
str_symm s _ h = cc

null_symm : (w : Value) → equal null w ≡ true → equal w null ≡ true
unfolding equal
null_symm null h = refl
null_symm _ h = cc

fields_end : (gs : Fields) → equal_fields end gs ≡ true → equal_fields gs end ≡ true
unfolding equal
fields_end end h = refl
fields_end (field k v fs) h = cc

mutual
  unfolding equal

  symm : (v w : Value) → equal v w ≡ true → equal w v ≡ true
  symm null w h = null_symm w h
  symm (bool b) w h = bool_symm b w h
  symm (num n) w h = num_symm n w h
  symm (str s) w h = str_symm s w h
  symm (array xs) (array ys) h = items_symm xs ys h
  symm (array xs) null h = cc
  symm (array xs) (bool b) h = cc
  symm (array xs) (num n) h = cc
  symm (array xs) (str s) h = cc
  symm (array xs) (object gs) h = cc
  symm (object fs) (object gs) h = fields_symm fs gs h
  symm (object fs) null h = cc
  symm (object fs) (bool b) h = cc
  symm (object fs) (num n) h = cc
  symm (object fs) (str s) h = cc
  symm (object fs) (array ys) h = cc

  items_symm : (xs ys : Items) → equal_items xs ys ≡ true → equal_items ys xs ≡ true
  items_symm nil nil h = refl
  items_symm nil (cons y ys) h = cc
  items_symm (cons x xs) nil h = cc
  items_symm (cons x xs) (cons y ys) h = ground (arith, symm x y, items_symm xs ys)

  fields_symm : (fs gs : Fields) → equal_fields fs gs ≡ true → equal_fields gs fs ≡ true
  fields_symm end gs h = fields_end gs h
  fields_symm (field k v fs) gs h =
      let (w, f, e, rest) = equal_fields-field k v fs gs h in
      equal_fields-take_back k v w gs fs f (symm v w e) (fields_symm fs (erase k gs) rest)

-- `v == v`
mutual
  unfolding equal

  pub equal_refl : (v : Value) → equal v v ≡ true
  equal_refl null = refl
  equal_refl (bool true) = refl
  equal_refl (bool false) = refl
  equal_refl (num n) = ground arith
  equal_refl (str s) = str_eq_refl s
  equal_refl (array xs) = equal_items_refl xs
  equal_refl (object fs) = equal_fields_refl fs

  equal_items_refl : (xs : Items) → equal_items xs xs ≡ true
  equal_items_refl nil = refl
  equal_items_refl (cons x xs) = rw (equal_refl x, equal_items_refl xs)

  pub equal_fields_refl : (fs : Fields) → equal_fields fs fs ≡ true
  equal_fields_refl end = refl
  equal_fields_refl (field k v fs) =
      let (found, left) = find-field_eq k v fs in
      equal_fields-cons k v v fs (field k v fs) found (equal_refl v)
        (rw left (equal_fields_refl fs))

-- The comparison of two JSON values, dicts compared in any order of their keys, does not depend
-- on the side on which each of them stands.
pub equal_comm : (v w : Value) → equal v w ≡ equal w v
equal_comm v w = ground (arith, symm v w, symm w v)

pub find-erase_ne :
    (j k : String) (gs : Fields) → str_eq j k ≡ false → find k (erase j gs) ≡ find k gs
unfolding find erase
find-erase_ne j k end h = refl
find-erase_ne j k (field i v gs) h =
    ground (arith, eq_iff j k, eq_iff i j, eq_iff i k, find-erase_ne j k gs h)

-- What `d.get(k)` answers, in terms of a lookup.
get_of_find : (k : String) (v : Value) (fs : Fields) → find k fs ≡ some v → get k fs ≡ v
unfolding get
get_of_find k v fs h = rw (h, get)

get_of_find_eq : (k : String) (fs gs : Fields) → find k fs ≡ find k gs → get k fs ≡ get k gs
unfolding get
get_of_find_eq k fs gs h = rw (h, get)

get-end : (k : String) → get k end ≡ null
unfolding get find
get-end k = refl

equal_fields-end : (gs : Fields) → equal_fields end gs ≡ true → gs ≡ end
unfolding equal
equal_fields-end end h = refl
equal_fields-end (field k v gs) h = cc

equal-null : equal null null ≡ true
unfolding equal
equal-null = refl

-- Equal dicts have equal values at every key.
pub equal-get :
    (k : String) (fs gs : Fields) → equal_fields fs gs ≡ true → equal (get k fs) (get k gs) ≡ true
equal-get k end gs h = rw (equal_fields-end gs h, get-end k) equal-null
equal-get k (field j v fs) gs h =
    let (w, f, e, rest) = equal_fields-field j v fs gs h in
    elim (Bool-cases (str_eq j k)) [
      | inl hit ↦
          let same = (eq_iff j k).0 hit in
          rw
            (
              get_of_find k v (field j v fs) (rw same (find-field_eq k v fs).0),
              get_of_find k w gs (rw same at f),
            )
            e
      | inr miss ↦
          rw
            (
              get_of_find_eq k (field j v fs) fs (find-field_ne j k v fs miss).0,
              ← get_of_find_eq k (erase j gs) gs (find-erase_ne j k gs miss),
            )
            (equal-get k fs (erase j gs) rest)
    ]
