-- ===== src/Control/Waiting.antt =====
-- The loops of `_find_tasks` over the lists of waiting tasks and over the delayed ones.
use dispatcher_fork.Base.{
  ℕ, zero, suc, ◌≡◌, refl, ap, Bool, true, false, not, ◌&&◌, none, some, List, [], ◌∷◌, arith, inl,
  inr, select, length, get_elem?, if◌then◌else◌, Option-cases, All, All-drop_first, subst, In,
}
use dispatcher_fork.Message.{Message, is_or_equals, remove}
use dispatcher_fork.Dispatcher.{Capsule}
use dispatcher_fork.Control.{Place, Found, walk, visit_capsules}

-- The matching messages of a list, each with its place, from the place `i` on.
abbrev pub numbered : (ℕ → Place) → (Message → Bool) → ℕ → List Message → Found
numbered place matches i [] = []
numbered place matches i (m ∷ ms) =
    let rest = numbered place matches (suc i) ms in if matches m then (place i, m) ∷ rest else rest

abbrev from : ℕ → List Message → List Message
from zero xs = xs
from (suc i) [] = []
from (suc i) (x ∷ xs) = from i xs

get_elem?-from :
    (i : ℕ) (xs : List Message) (m : Message) (ms : List Message)
    → from i xs ≡ m ∷ ms
    → (get_elem? i xs ≡ some m) × (from (suc i) xs ≡ ms)
get_elem?-from zero [] m ms h = absurd (ground arith)
get_elem?-from zero (x ∷ xs) m ms h = (cc, cc)
get_elem?-from (suc i) [] m ms h = absurd (ground arith)
get_elem?-from (suc i) (x ∷ xs) m ms h = get_elem?-from i xs m ms h

abbrev pub left_of : Bool → (Message → Bool) → Message → List Message → List Message
left_of stop matches m ms = if matches m && stop then remove m ms else ms

left_of-read :
    (matches : Message → Bool) (m : Message) (ms : List Message) → left_of false matches m ms ≡ ms
left_of-read matches m ms = ground arith

left_of-cons :
    (stop : Bool) (matches : Message → Bool) (m b : Message) (ms : List Message)
    → is_or_equals m b ≡ false
    → left_of stop matches m (b ∷ ms) ≡ b ∷ left_of stop matches m ms
left_of-cons stop matches m b ms h = ground arith

pub left_of-All :
    (P : Message → Type 0) (stop : Bool) (matches : Message → Bool) (m : Message)
    (ms : List Message)
    → All P ms
    → All P (left_of stop matches m ms)
left_of-All P stop matches m ms h =
    elim (matches m && stop) as (λ x. All P (if x then remove m ms else ms)) [
      | true ↦ All-drop_first P (is_or_equals m) ms h
      | false ↦ h
    ]

All-get_elem? :
    (P : Message → Type 0) (i : ℕ) (ms : List Message) (m : Message)
    → All P ms
    → get_elem? i ms ≡ some m
    → P m
All-get_elem? P i [] m h e = absurd (ground arith)
All-get_elem? P zero (x ∷ ms) m h e = subst P (ap (λ o. elim o [ none ↦ x | some y ↦ y ]) e) h.0
All-get_elem? P (suc i) (x ∷ ms) m h e = All-get_elem? P i ms m h.1 e

module _ (place : ℕ → Place) (stop : Bool) (matches : Message → Bool) where
  pub walk-end :
      (fuel i : ℕ) (ms : List Message)
      → get_elem? i ms ≡ none
      → walk stop matches place (suc fuel) i ms ≡ ([], ms)
  unfolding walk
  walk-end fuel i ms e = rw (e, walk) refl

  pub walk-step :
      (fuel i : ℕ) (m : Message) (ms : List Message)
      → get_elem? i ms ≡ some m
      → walk stop matches place (suc fuel) i ms ≡ (
          let (hits, ms') = walk stop matches place fuel (suc i) (left_of stop matches m ms) in
          (if matches m then (place i, m) ∷ hits else hits, ms'))
  unfolding walk
  walk-step fuel i m ms e = rw (e, walk) refl

-- Without a cancel the list stands still, and every message is looked at once.
pub walk-numbered :
    (place : ℕ → Place) (matches : Message → Bool) (i : ℕ) (xs rest : List Message)
    → from i xs ≡ rest
    → walk false matches place (length rest) i xs ≡ (numbered place matches i rest, xs)
unfolding walk
walk-numbered place matches i xs [] h = refl
walk-numbered place matches i xs (m ∷ ms) h =
    let (here, next) = get_elem?-from i xs m ms h in
    rw
      (
        walk-step place false matches (length ms) i m xs here,
        left_of-read matches m xs,
        walk-numbered place matches (suc i) xs ms next,
      )
      refl

-- The first message is no longer looked at, once the walk has passed its place.
pub walk-passed :
    (place : ℕ → Place) (stop : Bool) (matches : Message → Bool) (fuel i : ℕ) (b : Message)
    (ms : List Message)
    → All (λ m. is_or_equals m b ≡ false) ms
    → In b (walk stop matches place fuel (suc i) (b ∷ ms)).1
unfolding walk
walk-passed place stop matches zero i b ms h = inl refl
walk-passed place stop matches (suc fuel) i b ms h = elim (Option-cases (get_elem? i ms)) [
  | inl e ↦ rw (walk-end place stop matches fuel (suc i) (b ∷ ms) e) (inl refl)
  | inr (m, e) ↦ rw (walk-step place stop matches fuel (suc i) m (b ∷ ms) e) (
      let apart = All-get_elem? (λ x. is_or_equals x b ≡ false) i ms m h e in
      rw (left_of-cons stop matches m b ms apart) (
        walk-passed place stop matches fuel (suc i) b (left_of stop matches m ms)
          (left_of-All (λ x. is_or_equals x b ≡ false) stop matches m ms h)))
]

pub visit_capsules-select :
    (matches : Message → Bool) (i : ℕ) (cs : List Capsule)
    → (visit_capsules true matches i cs).1 ≡ select (λ c. not (matches c.message)) cs
unfolding visit_capsules
visit_capsules-select matches i [] = refl
visit_capsules-select matches i (c ∷ cs) = ground (arith, visit_capsules-select matches (suc i) cs)
