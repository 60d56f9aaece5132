-- ===== src/Planner/Types/Rounding.antt =====
-- `round_up`, against the least multiple that it computes.
use native.Mathlib.Nat.{div-add-mod', div-add-mod', div-mul-le_self, lt-div-mul-add, mul-mod_left}
use native.Mathlib.Decide.{dec_le}
use meshy.Prelude.{ℕ, ◌+◌, ◌-◌, ◌*◌, ◌/◌, ◌%◌, ◌≤◌, ◌<◌, ◌≡◌, arith}
use meshy.Planner.Types.{round_up}

pub round_up-aligned : (x a : ℕ) → round_up x a % a ≡ 0
unfolding round_up
round_up-aligned x a = mul-mod_left ((x + a - 1) / a) a

pub le-round_up : (x a : ℕ) → 0 < a → x ≤ round_up x a
unfolding round_up
le-round_up x a h = omega (arith, lt-div-mul-add {a = x + a - 1} h)

pub round_up-lt : (x a : ℕ) → 0 < a → round_up x a < x + a
unfolding round_up
round_up-lt x a h = omega (arith, div-mul-le_self (x + a - 1) a)

-- A multiple of `a` that is less than `a` above another is not above it.
multiple-le : (p q a : ℕ) → p * a < q * a + a → p * a ≤ q * a
multiple-le p q a h = elim (dec_le p q) [ yes le ↦ grind arith | no gt ↦ grind arith ]

round_up-le : (x a s : ℕ) → 0 < a → x ≤ s → s % a ≡ 0 → round_up x a ≤ s
unfolding round_up
round_up-le x a s h le e =
    let multiple : s ≡ s / a * a = omega (arith, div-add-mod' s a) in
    omega (
      arith,
      multiple-le ((x + a - 1) / a) (s / a) a (omega (arith, div-mul-le_self (x + a - 1) a)),
    )

-- `round_up x a` is the least multiple of `a` that is at least `x`.
pub round_up_least :
    (x a s : ℕ)
    → 0 < a
    → x ≤ s
    → s % a ≡ 0
    → (x ≤ round_up x a) × (round_up x a % a ≡ 0) × (round_up x a ≤ s)
round_up_least x a s h le e = (le-round_up x a h, round_up-aligned x a, round_up-le x a s h le e)
