-- ===== src/Critic/Split/Counts.antt =====
-- How often ids occur, and how many rows some groups have.
use meshy.Prelude.{
  ℕ, ◌+◌, ◌≤◌, ◌<◌, ◌≡◌, refl, ap, subst, ◌∙◌, Bool, true, false, not, ◌&&◌, List, [], ◌∷◌, map,
  length, select, ◌==◌, arith, inl, inr, Bool-cases, All, All-map, sum,
}
use meshy.Prelude.Bags.{sum_over}
use meshy.Critic.Data.{TrajectorySample}
use meshy.Critic.Split.{has, distinct, ids, size_in, in_groups}
use meshy.Critic.Split.Paths.{nodup}

abbrev pub one_if : Bool → ℕ
one_if true = 1
one_if false = 0

-- How often a number is in a list.
abbrev pub count : ℕ → List ℕ → ℕ
count x l = sum_over (λ y. one_if (y == x)) l

pub has-count : (x : ℕ) (l : List ℕ) → has x l ≡ not (count x l == 0)
has-count x [] = refl
has-count x (y ∷ l) = elim (Bool-cases (y == x)) [
  | inl e ↦ rw e (ground arith)
  | inr e ↦ rw e (has-count x l ∙ ground arith)
]

pub nodup_of_count : (l : List ℕ) → ((x : ℕ) → count x l ≤ 1) → nodup l ≡ true
nodup_of_count [] h = refl
nodup_of_count (x ∷ l) h =
    let self : (x == x) ≡ true = ground arith in
    let here : 1 + count x l ≤ 1 = rw self at (h x) in
    ground (
      arith,
      has-count x l,
      here,
      nodup_of_count l (λ y. elim (Bool-cases (x == y)) [
        | inl e ↦ let q : 1 + count y l ≤ 1 = rw e at (h y) in omega (arith, q)
        | inr e ↦ let q : 0 + count y l ≤ 1 = rw e at (h y) in omega (arith, q)
      ]),
    )

pub one_if_le : (b : Bool) → one_if b ≤ 1
one_if_le true = omega arith
one_if_le false = omega arith

pub count-distinct : (x : ℕ) (l : List ℕ) → count x (distinct l) ≡ one_if (has x l)
unfolding distinct
count-distinct x [] = refl
count-distinct x (n ∷ l) = elim (Bool-cases (has n (distinct l))) [
  | inl e ↦ rw e (elim (Bool-cases (n == x)) [
    | inr f ↦ rw f (count-distinct x l)
    | inl f ↦
        let same : n ≡ x = ground (arith, f) in
        let there : has x (distinct l) ≡ true = subst (λ y. has y (distinct l) ≡ true) same e in
        rw f
          (ground (arith, has-count x (distinct l), count-distinct x l, one_if_le (has x l), there))
  ])
  | inr e ↦ rw e (elim (Bool-cases (n == x)) [
    | inr f ↦ rw f (ground (arith, count-distinct x l))
    | inl f ↦
        let same : n ≡ x = ground (arith, f) in
        let gone : has x (distinct l) ≡ false = subst (λ y. has y (distinct l) ≡ false) same e in
        rw f (ground (arith, has-count x (distinct l), gone))
  ])
]

module _ {R : Type 0} where
  pub size_in_positive :
      (samples : List (TrajectorySample R)) (g : ℕ)
      → has g (ids samples) ≡ true
      → 0 < size_in samples g
  size_in_positive [] g h = cc
  size_in_positive (s ∷ samples) g h = elim (Bool-cases (s.group_id == g)) [
    | inl e ↦ rw e (ground arith)
    | inr e ↦ rw e (size_in_positive samples g (ground (arith, h, e)))
  ]

  pub has-ids :
      (samples : List (TrajectorySample R))
      → All (λ (s : TrajectorySample R). has s.group_id (ids samples) ≡ true) samples
  has-ids [] = tt
  has-ids (s ∷ samples) = (
    ground arith,
    All-map (λ (t : TrajectorySample R). has t.group_id (ids samples) ≡ true) _ samples
        (λ t h. ground (arith, h)) (has-ids samples),
  )

  select-none : (samples : List (TrajectorySample R)) → select (in_groups []) samples ≡ []
  select-none [] = refl
  select-none (s ∷ samples) = select-none samples

  length-select-add :
      (g : ℕ) (groups : List ℕ) (samples : List (TrajectorySample R))
      → has g groups ≡ false
      → length (select (in_groups (g ∷ groups)) samples)
        ≡ size_in samples g + length (select (in_groups groups) samples)
  length-select-add g groups [] h = refl
  length-select-add g groups (s ∷ samples) h = elim (Bool-cases (g == s.group_id)) [
    | inl e ↦
        let same : g ≡ s.group_id = ground (arith, e) in
        let back : (s.group_id == g) ≡ true = ground (arith, e) in
        let out : has s.group_id groups ≡ false = subst (λ x. has x groups ≡ false) same h in
        rw (e, back, out) (ground (arith, length-select-add g groups samples h))
    | inr e ↦
        let back : (s.group_id == g) ≡ false = ground (arith, e) in
        elim (Bool-cases (has s.group_id groups)) [
          | inl i ↦ rw (e, back, i) (ground (arith, length-select-add g groups samples h))
          | inr i ↦ rw (e, back, i) (ground (arith, length-select-add g groups samples h))
        ]
  ]

  -- The rows of some groups are as many as the sizes of the groups say.
  pub length-select-groups :
      (groups : List ℕ) (samples : List (TrajectorySample R))
      → nodup groups ≡ true
      → length (select (in_groups groups) samples) ≡ sum (map (size_in samples) groups)
  length-select-groups [] samples h = ap length (select-none samples)
  length-select-groups (g ∷ groups) samples h =
      length-select-add g groups samples (ground (arith, h))
      ∙ ap (λ n. size_in samples g + n) (length-select-groups groups samples (ground (arith, h)))

  pub select-same :
      (p q : TrajectorySample R → Bool) (samples : List (TrajectorySample R))
      → All (λ s. p s ≡ q s) samples
      → select p samples ≡ select q samples
  select-same p q [] h = refl
  select-same p q (s ∷ samples) h = rw (h.0, select-same p q samples h.1) refl

pub has-select :
    (keep : ℕ → Bool) (x : ℕ) (l : List ℕ) → has x (select keep l) ≡ (has x l && keep x)
has-select keep x [] = refl
has-select keep x (y ∷ l) = elim (Bool-cases (y == x)) [
  | inl e ↦
      let same : y ≡ x = ground (arith, e) in
      let k : keep y ≡ keep x = ap keep same in
      elim (Bool-cases (keep x)) [
        | inl f ↦ let ky : keep y ≡ true = k ∙ f in rw (ky, e, f) refl
        | inr f ↦
            let ky : keep y ≡ false = k ∙ f in
            rw (ky, e, f) (has-select keep x l ∙ ground (arith, f))
      ]
  | inr e ↦ elim (Bool-cases (keep y)) [
    | inl f ↦ rw (f, e) (has-select keep x l)
    | inr f ↦ rw (f, e) (has-select keep x l)
  ]
]

pub nodup-select : (keep : ℕ → Bool) (l : List ℕ) → nodup l ≡ true → nodup (select keep l) ≡ true
nodup-select keep [] h = refl
nodup-select keep (x ∷ l) h = ground (arith, h, has-select keep x l, nodup-select keep l)
