-- ===== src/Base/Lists.antt =====
-- Lists measured by native numbers, Python's `any`, `all` and comprehensions.
use Prim.Native.Nat.{ℕ, zero, suc, ◌+◌, ◌≤◌}
use mathlib.Core.Path.{◌≡◌, refl, ap}
use mathlib.Core.Logic.{◌⊎◌, inl, inr}
use mathlib.Core.List.{List, [], ◌∷◌, ◌++◌}
use mathlib.Core.Option.{Option, none, some}
use mathlib.Core.Bool.{Bool, true, false, not, ◌&&◌, ◌||◌}
use native.Mathlib.Omega.{arith}
use dispatcher_fork.Base.Tests.{if◌then◌else◌}

module _ {ℓ} {A : Type ℓ} where
  abbrev pub length : List A → ℕ
  length [] = 0
  length (x ∷ xs) = suc (length xs)

  -- `any(p(x) for x in xs)` and `all(…)`
  abbrev pub any : (A → Bool) → List A → Bool
  any p [] = false
  any p (x ∷ xs) = p x || any p xs

  abbrev pub all : (A → Bool) → List A → Bool
  all p [] = true
  all p (x ∷ xs) = p x && all p xs

  -- `[x for x in xs if p(x)]`
  abbrev pub select : (A → Bool) → List A → List A
  select p [] = []
  select p (x ∷ xs) = let rest = select p xs in if p x then x ∷ rest else rest

  -- `sum(1 for x in xs if p(x))`
  abbrev pub count : (A → Bool) → List A → ℕ
  count p [] = 0
  count p (x ∷ xs) = (if p x then 1 else 0) + count p xs

  abbrev pub find? : (A → Bool) → List A → Option A
  find? p [] = none
  find? p (x ∷ xs) = if p x then some x else find? p xs

  abbrev pub drop_first : (A → Bool) → List A → List A
  drop_first p [] = []
  drop_first p (x ∷ xs) = if p x then xs else x ∷ drop_first p xs

  pub length-append : (xs ys : List A) → length (xs ++ ys) ≡ length xs + length ys
  length-append [] ys = omega arith
  length-append (x ∷ xs) ys = omega (arith, length-append xs ys)

  pub count-append : (p : A → Bool) (xs ys : List A) → count p (xs ++ ys) ≡ count p xs + count p ys
  count-append p [] ys = omega arith
  count-append p (x ∷ xs) ys = ground (arith, count-append p xs ys)

  pub count-le-length : (p : A → Bool) (xs : List A) → count p xs ≤ length xs
  count-le-length p [] = omega arith
  count-le-length p (x ∷ xs) = ground (arith, count-le-length p xs)

  pub length-select : (p : A → Bool) (xs : List A) → length (select p xs) ≡ count p xs
  length-select p [] = refl
  length-select p (x ∷ xs) = ground (arith, length-select p xs)

  pub length-drop_first :
      (p : A → Bool) (xs : List A) → any p xs ≡ true → suc (length (drop_first p xs)) ≡ length xs
  length-drop_first p [] h = ground arith
  length-drop_first p (x ∷ xs) h = ground (arith, length-drop_first p xs)

  pub any-append : (p : A → Bool) (xs ys : List A) → any p (xs ++ ys) ≡ (any p xs || any p ys)
  any-append p [] ys = refl
  any-append p (x ∷ xs) ys = ground (arith, any-append p xs ys)

-- A predicate on all elements, by recursion.
abbrev pub All {ℓ κ} : {A : Type ℓ} → (A → Type κ) → List A → Type κ
All P [] = Unit
All P (x ∷ xs) = P x × All P xs

pub All-append {ℓ κ} :
    {A : Type ℓ} (P : A → Type κ) (xs ys : List A) → All P xs → All P ys → All P (xs ++ ys)
All-append P [] ys h k = k
All-append P (x ∷ xs) ys h k = (h.0, All-append P xs ys h.1 k)

pub All-left {ℓ κ} : {A : Type ℓ} (P : A → Type κ) (xs ys : List A) → All P (xs ++ ys) → All P xs
All-left P [] ys h = tt
All-left P (x ∷ xs) ys h = (h.0, All-left P xs ys h.1)

pub All-right {ℓ κ} : {A : Type ℓ} (P : A → Type κ) (xs ys : List A) → All P (xs ++ ys) → All P ys
All-right P [] ys h = h
All-right P (x ∷ xs) ys h = All-right P xs ys h.1

pub All-map {ℓ κ κ'} :
    {A : Type ℓ} (P : A → Type κ) (Q : A → Type κ') (xs : List A)
    → ((x : A) → P x → Q x)
    → All P xs
    → All Q xs
All-map P Q [] f h = tt
All-map P Q (x ∷ xs) f h = (f x h.0, All-map P Q xs f h.1)

pub All-zip {ℓ κ κ' κ''} :
    {A : Type ℓ} (P : A → Type κ) (Q : A → Type κ') (R : A → Type κ'') (xs : List A)
    → ((x : A) → P x → Q x → R x)
    → All P xs
    → All Q xs
    → All R xs
All-zip P Q R [] f h k = tt
All-zip P Q R (x ∷ xs) f h k = (f x h.0 k.0, All-zip P Q R xs f h.1 k.1)

pub All-select {ℓ κ} :
    {A : Type ℓ} (P : A → Type κ) (p : A → Bool) (xs : List A) → All P xs → All P (select p xs)
All-select P p [] h = tt
All-select P p (x ∷ xs) h =
    elim (p x) as (λ b. All P (if b then x ∷ select p xs else select p xs)) [
      | true ↦ (h.0, All-select P p xs h.1)
      | false ↦ All-select P p xs h.1
    ]

module _ {ℓ} {A : Type ℓ} (p : A → Bool) where
  pub any-false : (xs : List A) → any p xs ≡ false → All (λ x. p x ≡ false) xs
  any-false [] h = tt
  any-false (x ∷ xs) h = (ground arith, any-false xs (ground arith))

  pub select-append : (xs ys : List A) → select p (xs ++ ys) ≡ select p xs ++ select p ys
  select-append [] ys = refl
  select-append (x ∷ xs) ys = ground (arith, select-append xs ys)

pub select-congr {ℓ} :
    {A : Type ℓ} (p q : A → Bool) (xs : List A)
    → All (λ x. p x ≡ q x) xs
    → select p xs ≡ select q xs
select-congr p q [] h = refl
select-congr p q (x ∷ xs) h = rw (h.0, select-congr p q xs h.1)

pub All-of {ℓ κ} : {A : Type ℓ} (P : A → Type κ) (xs : List A) → ((x : A) → P x) → All P xs
All-of P [] h = tt
All-of P (x ∷ xs) h = (h x, All-of P xs h)

pub count-partition {ℓ} :
    {A : Type ℓ} (q p : A → Bool) (xs : List A)
    → count q (select (λ x. not (p x)) xs) + count q (select p xs) ≡ count q xs
count-partition q p [] = refl
count-partition q p (x ∷ xs) = ground (arith, count-partition q p xs)

pub count-all {ℓ} : {A : Type ℓ} (xs : List A) → count (λ _. true) xs ≡ length xs
count-all [] = refl
count-all (x ∷ xs) = omega (arith, count-all xs)

-- Membership, with the place kept.
abbrev pub In : {A : Type 0} → A → List A → Type 0
In a [] = ⊥
In a (x ∷ xs) = (a ≡ x) ⊎ In a xs

pub In-append : {A : Type 0} (a : A) (xs ys : List A) → In a xs → In a (xs ++ ys)
In-append a [] ys h = absurd h
In-append a (x ∷ xs) ys (inl e) = inl e
In-append a (x ∷ xs) ys (inr h) = inr (In-append a xs ys h)

pub In-select :
    {A : Type 0} (p : A → Bool) (a : A) (xs : List A) → p a ≡ true → In a xs → In a (select p xs)
In-select p a [] h i = i
In-select p a (x ∷ xs) h (inl e) = rw (← e, h) (inl refl)
In-select p a (x ∷ xs) h (inr i) =
    elim (p x) as (λ b. In a (if b then x ∷ select p xs else select p xs)) [
      | true ↦ inr (In-select p a xs h i)
      | false ↦ In-select p a xs h i
    ]

pub any-In :
    {A : Type 0} (p : A → Bool) (a : A) (xs : List A) → p a ≡ true → In a xs → any p xs ≡ true
any-In p a [] h i = absurd i
any-In p a (x ∷ xs) h (inl e) = rw (← e, h)
any-In p a (x ∷ xs) h (inr i) = ground (arith, any-In p a xs h i)

-- `xs[i]`, none where Python raises IndexError.
abbrev pub get_elem? {ℓ} : {A : Type ℓ} → ℕ → List A → Option A
get_elem? i [] = none
get_elem? zero (x ∷ xs) = some x
get_elem? (suc i) (x ∷ xs) = get_elem? i xs

pub All-drop_first {ℓ κ} :
    {A : Type ℓ} (P : A → Type κ) (p : A → Bool) (xs : List A) → All P xs → All P (drop_first p xs)
All-drop_first P p [] h = tt
All-drop_first P p (x ∷ xs) h = elim (p x) as (λ b. All P (if b then xs else x ∷ drop_first p xs)) [
  | true ↦ h.1
  | false ↦ (h.0, All-drop_first P p xs h.1)
]

abbrev pub take {ℓ} : {A : Type ℓ} → ℕ → List A → List A
take zero xs = []
take (suc n) [] = []
take (suc n) (x ∷ xs) = x ∷ take n xs

abbrev pub drop {ℓ} : {A : Type ℓ} → ℕ → List A → List A
drop zero xs = xs
drop (suc n) [] = []
drop (suc n) (x ∷ xs) = drop n xs

module _ {ℓ} {A : Type ℓ} where
  pub take-append-drop : (n : ℕ) (xs : List A) → take n xs ++ drop n xs ≡ xs
  take-append-drop zero xs = refl
  take-append-drop (suc n) [] = refl
  take-append-drop (suc n) (x ∷ xs) = rw (take-append-drop n xs) refl

  pub drop-drop : (n k m : ℕ) (xs : List A) → n + k ≡ m → drop k (drop n xs) ≡ drop m xs
  drop-drop zero k m xs h = let same : k ≡ m = omega (arith, h) in ap (λ j. drop j xs) same
  drop-drop (suc n) k zero xs h = absurd (omega (arith, h))
  drop-drop (suc n) zero (suc m) [] h = refl
  drop-drop (suc n) (suc k) (suc m) [] h = refl
  drop-drop (suc n) k (suc m) (x ∷ xs) h = drop-drop n k m xs (omega (arith, h))

  pub length-take-drop :
      (i k : ℕ) (xs : List A) → i + k ≤ length xs → length (take k (drop i xs)) ≡ k
  length-take-drop zero zero xs h = refl
  length-take-drop zero (suc k) [] h = absurd (omega arith)
  length-take-drop zero (suc k) (x ∷ xs) h = omega (arith, length-take-drop zero k xs (omega arith))
  length-take-drop (suc i) k [] h = absurd (omega arith)
  length-take-drop (suc i) k (x ∷ xs) h = length-take-drop i k xs (omega arith)

  pub append_assoc : (xs ys zs : List A) → (xs ++ ys) ++ zs ≡ xs ++ (ys ++ zs)
  append_assoc [] ys zs = refl
  append_assoc (x ∷ xs) ys zs = rw (append_assoc xs ys zs) refl

  pub append-nil : (xs : List A) → xs ++ [] ≡ xs
  append-nil [] = refl
  append-nil (x ∷ xs) = rw (append-nil xs) refl
