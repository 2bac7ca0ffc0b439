-- ===== src/Base/Results.antt =====
-- What a call gives that returns or raises, and calls that change a state on the way.

pub data Result {ℓ κ} (E : Type ℓ) (A : Type κ) : Type (ℓ ⊔ κ) where
  ok : A → Result E A
  raises : E → Result E A

-- A method of an object in the state `S`: what it changed before it raised stays changed.
abbrev pub Method {ℓ κ κ'} : Type ℓ → Type κ → Type κ' → Type (ℓ ⊔ κ ⊔ κ')
Method E S A = S → Result E A × S

module _ {ℓ κ κ' κ''} {E : Type ℓ} {S : Type κ} {A : Type κ'} {B : Type κ''} where
  abbrev pub and_then : Result E A × S → (A → Method E S B) → Result E B × S
  and_then (ok a, s) f = f a s
  and_then (raises e, s) f = (raises e, s)

  infixl 5 ◌>>=◌
  abbrev pub ◌>>=◌ : Method E S A → (A → Method E S B) → Method E S B
  m >>= f = λ s. and_then (m s) f

module _ {ℓ κ κ'} {E : Type ℓ} {S : Type κ} {A : Type κ'} where
  abbrev pub return : A → Method E S A
  return a s = (ok a, s)

  abbrev pub raise : E → Method E S A
  raise e s = (raises e, s)

abbrev pub modify {ℓ κ} : {E : Type ℓ} {S : Type κ} → (S → S) → Method E S (Unit {0})
modify f s = (ok tt, f s)
