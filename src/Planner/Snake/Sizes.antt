-- ===== src/Planner/Snake/Sizes.antt =====
-- The bins of `_snake` are equally full.
use native.Mathlib.Nat.{
  zero-add, add-zero, add-suc, suc-add, div-add-mod', mod-lt, mod-eq_of_lt, mul-add-div_right,
  div-eq_of_lt, mul-add-mod_self_right,
}
use native.Mathlib.Decide.{dec_lt}
use meshy.Prelude.{
  ℕ, zero, suc, ◌+◌, ◌-◌, ◌*◌, ◌/◌, ◌%◌, ◌<◌, ◌≤◌, ◌≡◌, refl, List, [], ◌∷◌, ◌==◌, ltb, arith,
  length, replicate, length-replicate, sym, All, All-of_get_or, get_or, ◌∙◌, ◌⊎◌, inl, inr,
  length-append, ap, if◌then◌else◌,
}
use meshy.Planner.Snake.{bin_of, append_at, deal, snake}
use meshy.Planner.Snake.Deal.{length-append_at, length-snake}

-- How many of the first `k` items bin `j` of `n` has been dealt.
pub dealt : ℕ → ℕ → ℕ → ℕ
dealt n k j =
    k / n
    + (if (k / n) % 2 == 0
        then (if ltb j (k % n) then 1 else 0)
        else (if ltb (n - 1 - j) (k % n) then 1 else 0))

mul_add_parts : (n q r : ℕ) → r < n → ((q * n + r) / n ≡ q) × ((q * n + r) % n ≡ r)
mul_add_parts n q r p = (
  mul-add-div_right {m = n} (omega arith) q r ∙ omega (arith, div-eq_of_lt p),
  mul-add-mod_self_right q n r ∙ mod-eq_of_lt p,
)

-- The next item falls in the same round, or starts the next one.
div_step :
    (n k : ℕ)
    → 0 < n
    → ((suc k / n ≡ k / n) × (suc k % n ≡ suc (k % n)))
      ⊎ ((suc k / n ≡ suc (k / n)) × (suc k % n ≡ 0) × (suc (k % n) ≡ n))
div_step n k h = elim (dec_lt (suc (k % n)) n) [
  | yes p ↦
      let e : suc k ≡ k / n * n + suc (k % n) = omega (arith, div-add-mod' k n) in
      let f = mul_add_parts n (k / n) (suc (k % n)) p in
      inl (ap (λ t. t / n) e ∙ f.0, ap (λ t. t % n) e ∙ f.1)
  | no p ↦
      let full : suc (k % n) ≡ n = omega (arith, mod-lt k {m = n} h) in
      let e : suc k ≡ suc (k / n) * n + 0 = omega (arith, div-add-mod' k n) in
      let f = mul_add_parts n (suc (k / n)) 0 h in
      inr (ap (λ t. t / n) e ∙ f.0, ap (λ t. t % n) e ∙ f.1, full)
]

dealt-suc :
    (n k j : ℕ) → j < n → dealt n (suc k) j ≡ dealt n k j + (if j == bin_of n k then 1 else 0)
unfolding dealt bin_of
dealt-suc n k j h = ground (arith, div_step n k, mod-lt k {m = n})

dealt-zero : (n j : ℕ) → j < n → dealt n 0 j ≡ 0
unfolding dealt
dealt-zero n j h = ground arith

module _ {ℓ} {A : Type ℓ} where
  size-append_at :
      (bins : List (List A)) (i j : ℕ) (a : A)
      → j < length bins
      → length (get_or (append_at bins i a) j [])
        ≡ length (get_or bins j []) + (if j == i then 1 else 0)
  unfolding append_at
  size-append_at [] i j a h = absurd (omega arith)
  size-append_at (b ∷ bins) zero zero a h = omega (arith, length-append b (a ∷ []))
  size-append_at (b ∷ bins) zero (suc j) a h = ground arith
  size-append_at (b ∷ bins) (suc i) zero a h = ground arith
  size-append_at (b ∷ bins) (suc i) (suc j) a h = ground (arith, size-append_at bins i j a)

  size-deal :
      (n k j : ℕ) (order : List A) (bins : List (List A))
      → j < n
      → length bins ≡ n
      → length (get_or bins j []) ≡ dealt n k j
      → length (get_or (deal n k order bins) j []) ≡ dealt n (k + length order) j
  unfolding deal
  size-deal n k j [] bins h e size = rw (add-zero k) size
  size-deal n k j (x ∷ order) bins h e size =
      let i = bin_of n k in
      let next = size-append_at bins i j x (omega arith) in
      rw (add-suc k (length order), ← suc-add k (length order))
        (size-deal n (suc k) j order (append_at bins i x) h (length-append_at bins i x ∙ e)
          (omega (arith, next, dealt-suc n k j h)))

  get_or-replicate : (n j : ℕ) → get_or (replicate n (let e : List A = [] in e)) j [] ≡ []
  get_or-replicate zero j = refl
  get_or-replicate (suc n) zero = refl
  get_or-replicate (suc n) (suc j) = get_or-replicate n j

  -- Bin `j` holds what it has been dealt of all the items.
  size-snake :
      (order : List A) (n j : ℕ)
      → j < n
      → length (get_or (snake order n) j []) ≡ dealt n (length order) j
  unfolding snake
  size-snake order n j h = rw zero-add at (
      size-deal n 0 j order (replicate n []) h (length-replicate n [])
        (rw (get_or-replicate n j) (sym (dealt-zero n j h))))

  -- The sizes of any two bins of `_snake` differ by one at most: each holds its share of the
  -- items, rounded down or up.
  pub snake_balanced :
      (order : List A) (n : ℕ)
      → All
          (λ bin. (length order / n ≤ length bin) × (length bin ≤ length order / n + 1))
          (snake order n)
  unfolding dealt
  snake_balanced order n = All-of_get_or _ [] (snake order n) λ j h.
      let p : j < n = omega (arith, length-snake order n) in ground (arith, size-snake order n j p)

  -- Where the bins divide the items, each bin of `_snake` has the same number of them.
  pub snake_even :
      (order : List A) (n : ℕ)
      → length order % n ≡ 0
      → All (λ bin. length bin ≡ length order / n) (snake order n)
  unfolding dealt
  snake_even order n e = All-of_get_or _ [] (snake order n) λ j h.
      let p : j < n = omega (arith, length-snake order n) in ground (arith, size-snake order n j p)
