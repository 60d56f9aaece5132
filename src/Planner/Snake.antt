-- ===== src/Planner/Snake.antt =====
-- `_snake` of meshy/backend/titan/plan.py: dealing a list into bins in boustrophedon order.
pub mod Deal
pub mod Sizes
use meshy.Prelude.{ℕ, zero, suc, ◌-◌, ◌/◌, ◌%◌, List, [], ◌∷◌, ◌++◌, ◌==◌, if◌then◌else◌, replicate}

-- The bin of the `k`-th item: `rnd, pos = divmod(k, n_bins)`.
unfoldable pub bin_of : ℕ → ℕ → ℕ
bin_of n_bins k = if (k / n_bins) % 2 == 0 then k % n_bins else n_bins - 1 - k % n_bins

module _ {ℓ} {A : Type ℓ} where
  -- `bins[i].append(a)`
  unfoldable pub append_at : List (List A) → ℕ → A → List (List A)
  append_at [] i a = []
  append_at (b ∷ bins) zero a = (b ++ a ∷ []) ∷ bins
  append_at (b ∷ bins) (suc i) a = b ∷ append_at bins i a

  -- The loop `for k, idx in enumerate(order)`.
  unfoldable pub deal : ℕ → ℕ → List A → List (List A) → List (List A)
  unfolding bin_of append_at
  deal n_bins k [] bins = bins
  deal n_bins k (x ∷ order) bins = deal n_bins (suc k) order (append_at bins (bin_of n_bins k) x)

  unfoldable pub snake : List A → ℕ → List (List A)
  unfolding deal
  snake order n_bins = deal n_bins 0 order (replicate n_bins [])
