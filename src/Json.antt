-- ===== src/Json.antt =====
-- The Python values that a task message holds: what `json.loads` returns, with Python's `==` and
-- truth test on them. Numbers are counted in ticks of the clock, a unit in which every delay,
-- timeout and clock reading is a whole number.
pub mod Equality
pub mod Lookup
use dispatcher_fork.Base.{
  ℕ, zero, suc, String, ◌≡◌, refl, Bool, true, false, not, ◌&&◌, ◌||◌, Option, none, some, ◌==◌,
  str_eq, if◌then◌else◌,
}

mutual
  pub data Value : Type 0 where
    null : Value
    bool : Bool → Value
    num : ℕ → Value
    str : String → Value
    array : Items → Value
    object : Fields → Value

  pub data Items : Type 0 where
    nil : Items
    cons : Value → Items → Items

  pub data Fields : Type 0 where
    end : Fields
    field : String → Value → Fields → Fields

-- `d.get(k)`, with `none` where the key is missing.
unfoldable pub find : String → Fields → Option Value
find k end = none
find k (field j v fs) = if str_eq j k then some v else find k fs

-- `k in d`
unfoldable pub contains : String → Fields → Bool
unfolding find
contains k fs = elim (find k fs) [ none ↦ false | some _ ↦ true ]

-- `d.get(k)`, where Python's `None` stands for a missing key and for a JSON null.
unfoldable pub get : String → Fields → Value
unfolding find
get k fs = elim (find k fs) [ none ↦ null | some v ↦ v ]

-- `d.get(k, v)`
unfoldable pub get_or : String → Value → Fields → Value
unfolding find
get_or k v fs = elim (find k fs) [ none ↦ v | some w ↦ w ]

-- `d[k] = v`
unfoldable pub put : String → Value → Fields → Fields
put k v end = field k v end
put k v (field j w fs) = if str_eq j k then field j v fs else field j w (put k v fs)

-- `del d[k]`
pub erase : String → Fields → Fields
erase k end = end
erase k (field j v fs) = if str_eq j k then fs else field j v (erase k fs)

abbrev is_end : Fields → Bool
is_end end = true
is_end (field _ _ _) = false

-- `bool(v)`
unfoldable pub truthy : Value → Bool
truthy null = false
truthy (bool b) = b
truthy (num n) = not (n == 0)
truthy (str s) = not (str_eq s "")
truthy (array nil) = false
truthy (array (cons _ _)) = true
truthy (object fs) = not (is_end fs)

-- Python's `True == 1` and `False == 0`.
abbrev bool_num : Bool → ℕ → Bool
bool_num b n = (if b then 1 else 0) == n

abbrev bool_eq : Bool → Bool → Bool
bool_eq true b = b
bool_eq false b = not b

-- `v == w`. The fields of an object are compared as Python compares dicts, in any order: each
-- key of the left side is found and taken out on the right, until nothing is left.
mutual
  unfolding find erase

  pub equal : Value → Value → Bool
  equal null w = elim w [ null ↦ true | _ ↦ false ]
  equal (bool b) w = elim w [ bool c ↦ bool_eq b c | num n ↦ bool_num b n | _ ↦ false ]
  equal (num m) w = elim w [ bool c ↦ bool_num c m | num n ↦ m == n | _ ↦ false ]
  equal (str s) w = elim w [ str t ↦ str_eq s t | _ ↦ false ]
  equal (array xs) w = elim w [ array ys ↦ equal_items xs ys | _ ↦ false ]
  equal (object fs) w = elim w [ object gs ↦ equal_fields fs gs | _ ↦ false ]

  pub equal_items : Items → Items → Bool
  equal_items nil ys = elim ys [ nil ↦ true | _ ↦ false ]
  equal_items (cons x xs) ys = elim ys [ cons y zs ↦ equal x y && equal_items xs zs | _ ↦ false ]

  pub equal_fields : Fields → Fields → Bool
  equal_fields end gs = is_end gs
  equal_fields (field k v fs) gs = elim (find k gs) [
    | none ↦ false
    | some w ↦ equal v w && equal_fields fs (erase k gs)
  ]

-- `key in v` for a list.
unfoldable pub has_item : String → Items → Bool
has_item key nil = false
has_item key (cons v vs) = equal v (str key) || has_item key vs

-- `d.update(changes)`
unfoldable pub update : Fields → Fields → Fields
unfolding put
update fs end = fs
update fs (field k v changes) = update (put k v fs) changes

-- No key stands twice, as in every dict.
abbrev pub Distinct : Fields → Type 0
Distinct end = Unit
Distinct (field k v fs) = (contains k fs ≡ false) × Distinct fs
