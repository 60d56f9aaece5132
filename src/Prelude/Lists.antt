-- ===== src/Prelude/Lists.antt =====
-- Lists measured and indexed by native numbers, and predicates over their elements.
use Prim.Native.Nat.{ℕ, zero, suc, ◌+◌, ◌≤◌, ◌<◌, max}
use mathlib.Core.Path.{◌≡◌, refl, ap, ◌∙◌}
use mathlib.Core.List.{List, [], ◌∷◌, ◌++◌, map}
use mathlib.Core.Option.{Option, none, some}
use mathlib.Core.Bool.{Bool, true, false, ◌&&◌, ◌||◌}
use mathlib.Core.Logic.{inl, inr}
use native.Mathlib.Omega.{arith}
use meshy.Prelude.Tests.{if◌then◌else◌, Bool-cases}

module _ {ℓ} {A : Type ℓ} where
  abbrev pub length : List A → ℕ
  length [] = 0
  length (x ∷ xs) = suc (length xs)

  abbrev pub get_elem? : List A → ℕ → Option A
  get_elem? [] i = none
  get_elem? (x ∷ xs) zero = some x
  get_elem? (x ∷ xs) (suc i) = get_elem? xs i

  abbrev pub get_or : List A → ℕ → A → A
  get_or [] i d = d
  get_or (x ∷ xs) zero d = x
  get_or (x ∷ xs) (suc i) d = get_or xs i d

  abbrev pub replicate : ℕ → A → List A
  replicate zero a = []
  replicate (suc n) a = a ∷ replicate n a

  -- `l[:n]` and `l[n:]`
  abbrev pub take : ℕ → List A → List A
  take zero xs = []
  take (suc n) [] = []
  take (suc n) (x ∷ xs) = x ∷ take n xs

  abbrev pub drop : ℕ → List A → List A
  drop zero xs = xs
  drop (suc n) [] = []
  drop (suc n) (x ∷ xs) = drop n xs

  abbrev pub any : (A → Bool) → List A → Bool
  any p [] = false
  any p (x ∷ xs) = p x || any p xs

  abbrev pub all : (A → Bool) → List A → Bool
  all p [] = true
  all p (x ∷ xs) = p x && all p xs

  pub length-append : (xs ys : List A) → length (xs ++ ys) ≡ length xs + length ys
  length-append [] ys = omega arith
  length-append (x ∷ xs) ys = omega (arith, length-append xs ys)

  pub length-replicate : (n : ℕ) (a : A) → length (replicate n a) ≡ n
  length-replicate zero a = refl
  length-replicate (suc n) a = ap suc (length-replicate n a)

module _ {ℓ κ} {A : Type ℓ} {B : Type κ} where
  pub length-map : (f : A → B) (xs : List A) → length (map f xs) ≡ length xs
  length-map f [] = refl
  length-map f (x ∷ xs) = ap suc (length-map f xs)

-- Every element satisfies `P`.
abbrev pub All {ℓ κ} : {A : Type ℓ} → (A → Type κ) → List A → Type κ
All P [] = Unit
All P (x ∷ xs) = P x × All P xs

module _ {ℓ κ} {A : Type ℓ} where
  pub All-append : (P : A → Type κ) (xs ys : List A) → All P xs → All P ys → All P (xs ++ ys)
  All-append P [] ys hx hy = hy
  All-append P (x ∷ xs) ys hx hy = (hx.0, All-append P xs ys hx.1 hy)

module _ {ℓ κ μ} {A : Type ℓ} where
  pub All-map :
      (P : A → Type κ) (Q : A → Type μ) (xs : List A) → ((x : A) → P x → Q x) → All P xs → All Q xs
  All-map P Q [] f h = tt
  All-map P Q (x ∷ xs) f h = (f x h.0, All-map P Q xs f h.1)

-- `list(range(i, i + n))`
abbrev pub range_from : ℕ → ℕ → List ℕ
range_from i zero = []
range_from i (suc n) = i ∷ range_from (suc i) n

abbrev pub range : ℕ → List ℕ
range n = range_from 0 n

pub length-range_from : (i n : ℕ) → length (range_from i n) ≡ n
length-range_from i zero = refl
length-range_from i (suc n) = ap suc (length-range_from (suc i) n)

pub All-range_from : (i n : ℕ) → All (λ k. k < i + n) (range_from i n)
All-range_from i zero = tt
All-range_from i (suc n) = (
  omega arith,
  All-map (λ k. k < suc i + n) (λ k. k < i + suc n) (range_from (suc i) n) (λ k h. omega arith)
      (All-range_from (suc i) n),
)

abbrev pub sum : List ℕ → ℕ
sum [] = 0
sum (x ∷ xs) = x + sum xs

-- `max(...)` of a list that is not empty; 0 for an empty one.
abbrev pub maximum : List ℕ → ℕ
maximum [] = 0
maximum (x ∷ xs) = max x (maximum xs)

module _ {ℓ κ} {A : Type ℓ} where
  -- What holds at every index holds of every element, and the other way round.
  pub All-of_get_or :
      (P : A → Type κ) (d : A) (xs : List A)
      → ((j : ℕ) → j < length xs → P (get_or xs j d))
      → All P xs
  All-of_get_or P d [] h = tt
  All-of_get_or P d (x ∷ xs) h =
      (h 0 (omega arith), All-of_get_or P d xs (λ j p. h (suc j) (omega arith)))

  pub get_or-All :
      (P : A → Type κ) (d : A) (xs : List A) (j : ℕ) → All P xs → j < length xs → P (get_or xs j d)
  get_or-All P d [] j h p = absurd (omega arith)
  get_or-All P d (x ∷ xs) zero h p = h.0
  get_or-All P d (x ∷ xs) (suc j) h p = get_or-All P d xs j h.1 (omega arith)

-- `R` holds of the elements of two lists, pairwise, and the lists are equally long.
abbrev pub AllBoth {ℓ κ} : {A : Type ℓ} {B : Type κ} → (A → B → Type 0) → List A → List B → Type 0
AllBoth R [] [] = Unit
AllBoth R (x ∷ xs) (y ∷ ys) = R x y × AllBoth R xs ys
AllBoth R _ _ = ⊥

module _ {ℓ κ ν} {A : Type ℓ} {B : Type κ} where
  pub AllBoth-map :
      (R : A → B → Type 0) (P : A → Type ν) (f : A → B) (xs : List A)
      → ((x : A) → P x → R x (f x))
      → All P xs
      → AllBoth R xs (map f xs)
  AllBoth-map R P f [] h ps = tt
  AllBoth-map R P f (x ∷ xs) h ps = (h x ps.0, AllBoth-map R P f xs h ps.1)

range_from-suc : (i n : ℕ) → range_from (suc i) n ≡ map suc (range_from i n)
range_from-suc i zero = refl
range_from-suc i (suc n) = ap (λ l. suc i ∷ l) (range_from-suc (suc i) n)

pub map-map {ℓ κ μ} :
    {A : Type ℓ} {B : Type κ} {C : Type μ} (g : B → C) (f : A → B) (xs : List A)
    → map g (map f xs) ≡ map (λ x. g (f x)) xs
map-map g f [] = refl
map-map g f (x ∷ xs) = ap (λ l. g (f x) ∷ l) (map-map g f xs)

module _ {ℓ} {A : Type ℓ} where
  -- `[xs[i] for i in range(len(xs))]` is `xs`.
  pub map-get_or-range : (d : A) (xs : List A) → map (λ i. get_or xs i d) (range (length xs)) ≡ xs
  map-get_or-range d [] = refl
  map-get_or-range d (x ∷ xs) =
      ap (λ l. x ∷ l)
        (ap (map (λ i. get_or (x ∷ xs) i d)) (range_from-suc 0 (length xs))
          ∙ map-map (λ i. get_or (x ∷ xs) i d) suc (range (length xs))
          ∙ map-get_or-range d xs)

module _ {ℓ κ} {A : Type ℓ} {I : Type κ} where
  pub All-at :
      (P : I → A → Type 0) (xs : List A) → ((i : I) → All (P i) xs) → All (λ x. (i : I) → P i x) xs
  All-at P [] h = tt
  All-at P (x ∷ xs) h = (λ i. (h i).0, All-at P xs (λ i. (h i).1))

module _ {ℓ} {A : Type ℓ} where
  pub le-maximum : (f : A → ℕ) (xs : List A) → All (λ x. f x ≤ maximum (map f xs)) xs
  le-maximum f [] = tt
  le-maximum f (x ∷ xs) = (
    omega arith,
    All-map (λ y. f y ≤ maximum (map f xs)) (λ y. f y ≤ maximum (map f (x ∷ xs))) xs
        (λ y h. omega arith) (le-maximum f xs),
  )

module _ {ℓ κ μ ν} {A : Type ℓ} {B : Type κ} where
  pub All-of_map :
      {f : A → B} {P : A → Type μ} (Q : B → Type ν)
      → ((x : A) → P x → Q (f x))
      → (xs : List A) → All P xs
      → All Q (map f xs)
  All-of_map Q h [] ps = tt
  All-of_map Q h (x ∷ xs) ps = (h x ps.0, All-of_map Q h xs ps.1)

module _ {ℓ κ} {A : Type ℓ} where
  pub All-of_each : (P : A → Type κ) → ((x : A) → P x) → (xs : List A) → All P xs
  All-of_each P h [] = tt
  All-of_each P h (x ∷ xs) = (h x, All-of_each P h xs)

module _ {ℓ κ} {A : Type ℓ} where
  -- A lookup with a default that satisfies `P` satisfies `P`.
  pub get_or-All_default :
      (P : A → Type κ) (d : A) (xs : List A) (j : ℕ) → P d → All P xs → P (get_or xs j d)
  get_or-All_default P d [] j pd h = pd
  get_or-All_default P d (x ∷ xs) zero pd h = h.0
  get_or-All_default P d (x ∷ xs) (suc j) pd h = get_or-All_default P d xs j pd h.1

  pub All-replicate : (P : A → Type κ) (n : ℕ) (a : A) → P a → All P (replicate n a)
  All-replicate P zero a h = tt
  All-replicate P (suc n) a h = (h, All-replicate P n a h)

module _ {ℓ} {A : Type ℓ} where
  -- `[x for x in xs if p(x)]`
  abbrev pub select : (A → Bool) → List A → List A
  select p [] = []
  select p (x ∷ xs) = let rest = select p xs in if p x then x ∷ rest else rest

  pub select-keep :
      (p : A → Bool) (x : A) (xs : List A) → p x ≡ true → select p (x ∷ xs) ≡ x ∷ select p xs
  select-keep p x xs e = ap (λ b. if b then x ∷ select p xs else select p xs) e

  pub select-drop :
      (p : A → Bool) (x : A) (xs : List A) → p x ≡ false → select p (x ∷ xs) ≡ select p xs
  select-drop p x xs e = ap (λ b. if b then x ∷ select p xs else select p xs) e

  pub All-select : (p : A → Bool) (xs : List A) → All (λ x. p x ≡ true) (select p xs)
  All-select p [] = tt
  All-select p (x ∷ xs) = elim (Bool-cases (p x)) [
    | inl e ↦ rw e (e, All-select p xs)
    | inr e ↦ rw e (All-select p xs)
  ]
