-- ===== src/Prelude/Bags.antt =====
-- What depends on the elements of a list and not on their order.
use Prim.Native.Nat.{ℕ, ◌+◌, ◌*◌}
use mathlib.Core.Path.{◌≡◌, refl, ap, ◌∙◌, sym}
use mathlib.Core.Logic.{∥∥₁_elim}
use mathlib.Core.List.Perm
use mathlib.Core.List.{List, [], ◌∷◌, ◌++◌, map, flatten, Perm, Permᴰ}
use native.Mathlib.Nat.{ℕ_set}
use native.Mathlib.Omega.{arith}
use meshy.Prelude.Lists.{length, All, sum}

module _ {ℓ} {A : Type ℓ} where
  abbrev pub sum_over : (A → ℕ) → List A → ℕ
  sum_over f xs = sum (map f xs)

  pub sum_over-append :
      (f : A → ℕ) (xs ys : List A) → sum_over f (xs ++ ys) ≡ sum_over f xs + sum_over f ys
  sum_over-append f [] ys = omega arith
  sum_over-append f (x ∷ xs) ys = omega (arith, sum_over-append f xs ys)

  sum_over-permᴰ : (f : A → ℕ) {xs ys : List A} → Permᴰ xs ys → sum_over f xs ≡ sum_over f ys
  sum_over-permᴰ f Permᴰ.nil = refl
  sum_over-permᴰ f (Permᴰ.cons e p) = omega (arith, ap f e, sum_over-permᴰ f p)
  sum_over-permᴰ f (Permᴰ.swap e d) = omega (arith, ap f e, ap f d)
  sum_over-permᴰ f (Permᴰ.trans p q) = sum_over-permᴰ f p ∙ sum_over-permᴰ f q

  pub sum_over-perm : (f : A → ℕ) (xs ys : List A) → Perm xs ys → sum_over f xs ≡ sum_over f ys
  sum_over-perm f xs ys p = ∥∥₁_elim p (ℕ_set _ _) (sum_over-permᴰ f)

  pub length-eq-sum_over : (xs : List A) → length xs ≡ sum_over (λ _. 1) xs
  length-eq-sum_over [] = refl
  length-eq-sum_over (x ∷ xs) = omega (arith, length-eq-sum_over xs)

  pub length-perm : (xs ys : List A) → Perm xs ys → length xs ≡ length ys
  length-perm xs ys p =
      omega (arith, length-eq-sum_over xs, length-eq-sum_over ys, sum_over-perm (λ _. 1) xs ys p)

  pub sum_over-flatten :
      (f : A → ℕ) (xss : List (List A)) → sum_over f (flatten xss) ≡ sum (map (sum_over f) xss)
  unfolding flatten
  sum_over-flatten f [] = refl
  sum_over-flatten f (xs ∷ xss) =
      omega (arith, sum_over-append f xs (flatten xss), sum_over-flatten f xss)

module _ {ℓ} {B : Type ℓ} where
  pub sum_over-zero : (ys : List B) → sum_over (λ _. 0) ys ≡ 0
  sum_over-zero [] = refl
  sum_over-zero (y ∷ ys) = omega (arith, sum_over-zero ys)

  pub sum_over-add :
      (f g : B → ℕ) (ys : List B) → sum_over (λ y. f y + g y) ys ≡ sum_over f ys + sum_over g ys
  sum_over-add f g [] = omega arith
  sum_over-add f g (y ∷ ys) = omega (arith, sum_over-add f g ys)

  pub sum_over-const :
      (f : B → ℕ) (c : ℕ) (ys : List B) → All (λ y. f y ≡ c) ys → sum_over f ys ≡ length ys * c
  sum_over-const f c [] h = omega arith
  sum_over-const f c (y ∷ ys) h = omega (arith, sum_over-const f c ys h.1)

module _ {ℓ κ} {A : Type ℓ} (P : A → Type κ) where
  All-permᴰ : {xs ys : List A} → Permᴰ xs ys → All P xs → All P ys
  All-permᴰ Permᴰ.nil h = h
  All-permᴰ (Permᴰ.cons e p) h = (rw e at h.0, All-permᴰ p h.1)
  All-permᴰ (Permᴰ.swap e d) h = (rw d at h.1.0, (rw e at h.0, h.1.1))
  All-permᴰ (Permᴰ.trans p q) h = All-permᴰ q (All-permᴰ p h)

  All-prop : ((a : A) → IsProp (P a)) → (xs : List A) → IsProp (All P xs)
  All-prop prop [] = hlevel
  All-prop prop (x ∷ xs) = hlevel (prop x, All-prop prop xs)

  -- A property of all elements passes to a rearrangement.
  pub All-perm : ((a : A) → IsProp (P a)) → (xs ys : List A) → Perm xs ys → All P xs → All P ys
  All-perm prop xs ys p h = ∥∥₁_elim p (All-prop prop ys) (λ q. All-permᴰ q h)

module _ {ℓ κ} {A : Type ℓ} {B : Type κ} where
  -- Two sums may change places.
  pub sum_swap :
      (f : A → B → ℕ) (xs : List A) (ys : List B)
      → sum_over (λ x. sum_over (f x) ys) xs ≡ sum_over (λ y. sum_over (λ x. f x y) xs) ys
  sum_swap f [] ys = sym (sum_over-zero ys)
  sum_swap f (x ∷ xs) ys =
      ap (λ t. sum_over (f x) ys + t) (sum_swap f xs ys)
      ∙ sym (sum_over-add (f x) (λ y. sum_over (λ z. f z y) xs) ys)

module _ {ℓ} {A : Type ℓ} where
  pub flatten_map-perm :
      (f : List A → List A) (xss : List (List A))
      → ((xs : List A) → Perm (f xs) xs)
      → Perm (flatten (map f xss)) (flatten xss)
  unfolding flatten
  flatten_map-perm f [] h = Perm.rfl
  flatten_map-perm f (xs ∷ xss) h = Perm.append (h xs) (flatten_map-perm f xss h)
