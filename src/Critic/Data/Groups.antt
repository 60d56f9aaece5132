-- ===== src/Critic/Data/Groups.antt =====
-- Samples are of one group exactly where they have one prompt.
use meshy.Prelude.{
  ℕ, ◌+◌, ◌<◌, ◌≡◌, refl, sym, ap, subst, ◌∙◌, ◌↔◌, ◌⊎◌, true, none, some, List, [], ◌∷◌, ◌++◌, map,
  length, if◌then◌else◌, arith, inl, inr, Bool-cases, Option-cases, All, All-of_map, length-append,
}
use meshy.Critic.Data.{
  TrajectorySample, key_eq, Order, id_in, see, shifted, order_of, with_group, grouped,
}

key_eq_iff : (xs ys : List ℕ) → (key_eq xs ys ≡ true) ↔ (xs ≡ ys)
key_eq_iff [] [] = (λ h. refl, λ h. refl)
key_eq_iff [] (y ∷ ys) = (λ h. cc, λ h. cc)
key_eq_iff (x ∷ xs) [] = (λ h. cc, λ h. cc)
key_eq_iff (x ∷ xs) (y ∷ ys) = (
  λ h.
      let e : x ≡ y = ground (arith, h) in
      let t : xs ≡ ys = (key_eq_iff xs ys).0 (ground (arith, h)) in λ i. e i ∷ t i,
  λ h. subst (λ l. key_eq (x ∷ xs) l ≡ true) h (ground (arith, (key_eq_iff xs xs).1 refl)),
)

-- The ids of an order are below its length, and no two keys have one.
record IsOrder (order : Order) : Type 0 where
  below : (key : List ℕ) (n : ℕ) → id_in order key ≡ some n → n < length order
  apart : (k l : List ℕ) (n : ℕ) → id_in order k ≡ some n → id_in order l ≡ some n → k ≡ l

id_in-append :
    (order : Order) (k key : List ℕ) (n : ℕ)
    → id_in (order ++ (k, n) ∷ []) key
      ≡ elim (id_in order key) [ none ↦ if key_eq k key then some n else none | some m ↦ some m ]
unfolding id_in
id_in-append [] k key n = refl
id_in-append ((l, m) ∷ order) k key n = elim (Bool-cases (key_eq l key)) [
  | inl e ↦ rw e refl
  | inr e ↦ rw e (id_in-append order k key n)
]

-- An id after a key was appended is an old one, or the new one of that key.
id_in-new :
    (order : Order) (k key : List ℕ) (n m : ℕ)
    → id_in (order ++ (k, n) ∷ []) key ≡ some m
    → (id_in order key ≡ some m) ⊎ ((k ≡ key) × (m ≡ n))
id_in-new order k key n m h = elim (Option-cases (id_in order key)) [
  | inr (l, f) ↦ inl (f ∙ ap (λ x. some x) (ground (arith, h, id_in-append order k key n, f)))
  | inl f ↦ elim (Bool-cases (key_eq k key)) [
    | inl g ↦ inr ((key_eq_iff k key).0 g, ground (arith, h, id_in-append order k key n, f, g))
    | inr g ↦ absurd (ground (arith, h, id_in-append order k key n, f, g))
  ]
]

see-IsOrder : (order : Order) (key : List ℕ) → IsOrder order → IsOrder (see order key)
unfolding see
see-IsOrder order key i = elim (Option-cases (id_in order key)) [
  | inr (n, e) ↦ rw e i
  | inl e ↦
      let n = length order in
      let grows : length (order ++ (key, n) ∷ []) ≡ n + 1 = length-append order ((key, n) ∷ []) in
      rw e (record {
        below = λ l m h. elim (id_in-new order key l n m h) [
          | inl f ↦ omega (arith, i.below l m f, grows)
          | inr (f, g) ↦ omega (arith, grows, g)
        ];
        apart = λ k l m h j. elim (id_in-new order key k n m h) [
          | inl f ↦ elim (id_in-new order key l n m j) [
            | inl g ↦ i.apart k l m f g
            | inr (g, x) ↦ absurd (omega (arith, i.below k m f, x))
          ]
          | inr (f, x) ↦ elim (id_in-new order key l n m j) [
            | inl g ↦ absurd (omega (arith, i.below l m g, x))
            | inr (g, y) ↦ sym f ∙ g
          ]
        ];
      })
]

-- A key that has an id keeps it.
see-keeps :
    (order : Order) (key l : List ℕ) (n : ℕ)
    → id_in order l ≡ some n
    → id_in (see order key) l ≡ some n
unfolding see
see-keeps order key l n h = elim (Option-cases (id_in order key)) [
  | inr (m, e) ↦ rw e h
  | inl e ↦ rw e (id_in-append order key l (length order) ∙ rw h refl)
]

see-has : (order : Order) (key : List ℕ) → (n : ℕ) × (id_in (see order key) key ≡ some n)
unfolding see
see-has order key = elim (Option-cases (id_in order key)) [
  | inr (m, e) ↦ rw e (m, e)
  | inl e ↦
      let same : key_eq key key ≡ true = (key_eq_iff key key).1 refl in
      rw e (length order, id_in-append order key key (length order) ∙ rw (e, same) refl)
]

start : IsOrder []
unfolding id_in
start = record { below = λ key n h. cc; apart = λ k l n h j. cc }

module _ {R : Type 0} where
  order_of-IsOrder :
      (order : Order) (samples : List (TrajectorySample R))
      → IsOrder order
      → IsOrder (order_of order samples)
  unfolding order_of
  order_of-IsOrder order [] i = i
  order_of-IsOrder order (s ∷ samples) i =
      order_of-IsOrder (see order s.prompt_key) samples (see-IsOrder order s.prompt_key i)

  order_of-keeps :
      (order : Order) (samples : List (TrajectorySample R)) (key : List ℕ) (n : ℕ)
      → id_in order key ≡ some n
      → id_in (order_of order samples) key ≡ some n
  unfolding order_of
  order_of-keeps order [] key n h = h
  order_of-keeps order (s ∷ samples) key n h =
      order_of-keeps (see order s.prompt_key) samples key n (see-keeps order s.prompt_key key n h)

  order_of-has :
      (order : Order) (samples : List (TrajectorySample R))
      → All
          (λ (s : TrajectorySample R).
            (n : ℕ) × (id_in (order_of order samples) s.prompt_key ≡ some n))
          samples
  unfolding order_of
  order_of-has order [] = tt
  order_of-has order (s ∷ samples) =
      let h = see-has order s.prompt_key in
      (
        (h.0, order_of-keeps (see order s.prompt_key) samples s.prompt_key h.0 h.1),
        order_of-has (see order s.prompt_key) samples,
      )

  with_group_iff :
      (order : Order) (s t : TrajectorySample R)
      → IsOrder order
      → (n : ℕ) × (id_in order s.prompt_key ≡ some n)
      → (n : ℕ) × (id_in order t.prompt_key ≡ some n)
      → ((with_group order s).group_id ≡ (with_group order t).group_id)
        ↔ ((with_group order s).prompt_key ≡ (with_group order t).prompt_key)
  unfolding with_group
  with_group_iff order s t i (n, e) (m, f) = (
    λ h.
        let same : n ≡ m = ground (arith, h, e, f) in
        i.apart s.prompt_key t.prompt_key n e (f ∙ ap (λ x. some x) (sym same)),
    λ h. ap (λ k. shifted (id_in order k)) h,
  )

  -- Of the samples that are grouped, two have one group id exactly where their prompt keys are the same.
  pub grouped_iff :
      (samples : List (TrajectorySample R))
      → All
          (λ s.
            All (λ t. (s.group_id ≡ t.group_id) ↔ (s.prompt_key ≡ t.prompt_key)) (grouped samples))
          (grouped samples)
  unfolding grouped
  grouped_iff samples =
      let order = order_of [] samples in
      let i = order_of-IsOrder [] samples start in
      let has = order_of-has [] samples in
      All-of_map
        (λ (s : TrajectorySample R).
          All
            (λ (t : TrajectorySample R). (s.group_id ≡ t.group_id) ↔ (s.prompt_key ≡ t.prompt_key))
            (map (with_group order) samples))
        (λ s h.
          All-of_map
            (λ (t : TrajectorySample R).
              ((with_group order s).group_id ≡ t.group_id)
              ↔ ((with_group order s).prompt_key ≡ t.prompt_key))
            (λ t j. with_group_iff order s t i h j) samples has)
        samples has
