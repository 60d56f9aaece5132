-- ===== src/Prelude/Raising.antt =====
-- A call that returns or raises: the exceptions of a component are a data type of its own.
use mathlib.Core.Path.{◌≡◌, refl}
use mathlib.Core.Bool.{Bool, true, false}
use mathlib.Core.List.{List, [], ◌∷◌}
use meshy.Prelude.Lists.{All}

pub data Result {ℓ κ} (E : Type ℓ) (A : Type κ) : Type (ℓ ⊔ κ) where
  err : E → Result E A
  ok : A → Result E A

module _ {ℓ κ μ} {E : Type ℓ} {A : Type κ} {B : Type μ} where
  -- The exception of a call ends its caller.
  infixl 5 ◌>>=◌
  abbrev pub ◌>>=◌ : Result E A → (A → Result E B) → Result E B
  err raised >>= next = err raised
  ok value >>= next = next value

  pub >>=-eq-ok :
      (m : Result E A) (f : A → Result E B) {b : B}
      → (m >>= f) ≡ ok b
      → (a : A) × (m ≡ ok a) × (f a ≡ ok b)
  >>=-eq-ok (err e) f h = cc
  >>=-eq-ok (ok a) f h = (a, refl, h)

module _ {ℓ κ} {E : Type ℓ} {B : Type κ} where
  infixl 5 ◌>>◌
  abbrev pub ◌>>◌ : Result E (Unit {0}) → Result E B → Result E B
  first >> next = first >>= λ _. next

-- `if test: raise e`
abbrev pub raise_if {ℓ} : {E : Type ℓ} (test : Bool) → E → Result E (Unit {0})
raise_if false raised = ok tt
raise_if true raised = err raised

-- A loop whose body only raises.
abbrev pub each {ℓ κ} :
    {E : Type ℓ} {A : Type κ} → (A → Result E (Unit {0})) → List A → Result E (Unit {0})
each check [] = ok tt
each check (x ∷ xs) = let rest = each check xs in check x >> rest

module _ {ℓ κ} {E : Type ℓ} {A : Type κ} (check : A → Result E (Unit {0})) where
  pub each-All : (xs : List A) → each check xs ≡ ok tt → All (λ x. check x ≡ ok tt) xs
  each-All [] h = tt
  each-All (x ∷ xs) h = let s = >>=-eq-ok (check x) _ h in (s.1, each-All xs s.2)

  pub All-each : (xs : List A) → All (λ x. check x ≡ ok tt) xs → each check xs ≡ ok tt
  All-each [] h = refl
  All-each (x ∷ xs) h = rw h.0 (All-each xs h.1)
