-- ===== src/Planner/Snake/Deal.antt =====
-- Dealing loses no item and repeats none.
use mathlib.Core.List.Perm
use mathlib.Core.List.{perm_middle, append_assoc, append-nil}
use meshy.Prelude.{
  ℕ, zero, suc, ◌<◌, ◌≡◌, refl, List, [], ◌∷◌, ◌++◌, Perm, flatten, arith, length, replicate,
  length-replicate, ap, ◌∙◌,
}
use meshy.Planner.Snake.{bin_of, append_at, deal, snake}

pub bin_of-lt : (n k : ℕ) → 0 < n → bin_of n k < n
unfolding bin_of
bin_of-lt n k h = ground arith

module _ {ℓ} {A : Type ℓ} where
  pub length-append_at :
      (bins : List (List A)) (i : ℕ) (a : A) → length (append_at bins i a) ≡ length bins
  unfolding append_at
  length-append_at [] i a = refl
  length-append_at (b ∷ bins) zero a = refl
  length-append_at (b ∷ bins) (suc i) a = ap suc (length-append_at bins i a)

  append_at-perm :
      (bins : List (List A)) (i : ℕ) (a : A)
      → i < length bins
      → Perm (flatten (append_at bins i a)) (a ∷ flatten bins)
  unfolding append_at flatten
  append_at-perm [] i a h = absurd (omega arith)
  append_at-perm (b ∷ bins) zero a h = rw append_assoc (perm_middle b (flatten bins))
  append_at-perm (b ∷ bins) (suc i) a h =
      Perm.trans (Perm.append_left b (append_at-perm bins i a (omega arith)))
        (perm_middle b (flatten bins))

  deal-perm :
      (n k : ℕ) (order : List A) (bins : List (List A))
      → 0 < n
      → length bins ≡ n
      → Perm (flatten (deal n k order bins)) (order ++ flatten bins)
  unfolding deal
  deal-perm n k [] bins pos e = Perm.rfl
  deal-perm n k (x ∷ order) bins pos e =
      let i = bin_of n k in
      Perm.trans
        (deal-perm n (suc k) order (append_at bins i x) pos (length-append_at bins i x ∙ e))
        (Perm.trans
          (Perm.append_left order (append_at-perm bins i x (omega (arith, bin_of-lt n k pos))))
          (perm_middle order (flatten bins)))

  pub length-deal :
      (n k : ℕ) (order : List A) (bins : List (List A)) → length (deal n k order bins) ≡ length bins
  unfolding deal
  length-deal n k [] bins = refl
  length-deal n k (x ∷ order) bins =
      length-deal n (suc k) order (append_at bins (bin_of n k) x)
      ∙ length-append_at bins (bin_of n k) x

  pub length-snake : (order : List A) (n : ℕ) → length (snake order n) ≡ n
  unfolding snake
  length-snake order n = length-deal n 0 order (replicate n []) ∙ length-replicate n []

  flatten-replicate : (n : ℕ) → flatten (replicate n (let e : List A = [] in e)) ≡ []
  unfolding flatten
  flatten-replicate zero = refl
  flatten-replicate (suc n) = flatten-replicate n

  -- The bins of `_snake` hold the dealt items, each as often as it was dealt, if there is a bin.
  pub snake-perm : (order : List A) (n : ℕ) → 0 < n → Perm (flatten (snake order n)) order
  unfolding snake
  snake-perm order n pos = rw (append-nil order) at (
      rw (flatten-replicate n) at
        (deal-perm n 0 order (replicate n []) pos (length-replicate n [])))
