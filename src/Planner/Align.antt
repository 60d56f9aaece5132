-- ===== src/Planner/Align.antt =====
-- `resolve_align` of meshy/backend/titan/plan.py. `lcm` is math.lcm, of which only this is used, that
-- its result is a multiple of both arguments where these are positive.
use Prim.Native.Nat.{max}
use meshy.Prelude.{
  ℕ, ◌%◌, ◌≤◌, ◌<◌, ◌≡◌, not, ◌⊎◌, inl, inr, leb, ◌==◌, if◌then◌else◌, Result, ok, raise_if, ◌>>◌,
  arith, Bool-cases,
}

-- The ValueError, and Python's ZeroDivisionError.
pub data AlignError : Type 0 where
  seq_len_not_multiple division_by_zero : AlignError

-- `if align >= seq_len: align = seq_len`
unfoldable pub capped_align : ℕ → ℕ → ℕ
capped_align align seq_len = if leb seq_len align then seq_len else align

module _ (lcm : ℕ → ℕ → ℕ) where
  unfoldable pub resolve_align : ℕ → ℕ → ℕ → Result AlignError ℕ
  unfolding capped_align
  resolve_align seq_bucket divisor seq_len =
      let align = capped_align (lcm (max 1 seq_bucket) (max 1 divisor)) seq_len in
      do
        raise_if (align == 0) division_by_zero
        raise_if (not (seq_len % align == 0)) seq_len_not_multiple
        ok align

  -- An alignment that `resolve_align` returns is positive, is at most the sequence length and divides
  -- it; and it is the sequence length, or a multiple of the bucket and of the divisor, each taken as
  -- 1 where it is 0. `lcm` gives a multiple of each of two positive numbers.
  pub resolve_align-divides :
      (first : (a b : ℕ) → 0 < a → 0 < b → lcm a b % a ≡ 0)
      (second : (a b : ℕ) → 0 < a → 0 < b → lcm a b % b ≡ 0) (seq_bucket divisor seq_len align : ℕ)
      → resolve_align seq_bucket divisor seq_len ≡ ok align
      → (0 < align)
        × (align ≤ seq_len)
        × (seq_len % align ≡ 0)
        × ((align ≡ seq_len) ⊎ ((align % max 1 seq_bucket ≡ 0) × (align % max 1 divisor ≡ 0)))
  unfolding resolve_align
  resolve_align-divides first second seq_bucket divisor seq_len align h =
      let a = max 1 seq_bucket in
      let b = max 1 divisor in
      let p : 0 < a = omega arith in
      let q : 0 < b = omega arith in
      elim (Bool-cases (leb seq_len (lcm a b))) [
        | inl e ↦ (ground arith, ground arith, ground arith, inl (ground arith))
        | inr e ↦ (
          ground arith,
          ground arith,
          ground arith,
          inr (ground (arith, first a b p q), ground (arith, second a b p q)),
        )
      ]
