-- ===== src/Reward.antt =====
-- Reward shaping by length: meshy/reward.py. A mask is a list of tests, and the penalty is counted in
-- parts: of `buffer_len` parts, each the share `penalty_factor / buffer_len`, so that the reward that
-- the code returns is the raw one less the parts times the share.
pub mod Length
pub mod Tests
use Prim.Native.Nat.{min}
use meshy.Prelude.{ℕ, suc, ◌+◌, ◌-◌, Bool, true, false, List, [], ◌∷◌, leb, ◌==◌, if◌then◌else◌}

-- The loop of `response_length`, over its two variables.
unfoldable pub measure : ℕ → Bool → List Bool → ℕ
measure length in_response [] = length
measure length in_response (true ∷ mask) = measure (suc length) true mask
measure length true (false ∷ mask) = length
measure length false (false ∷ mask) = measure length false mask

unfoldable pub response_length : List Bool → ℕ
unfolding measure
response_length mask = measure 0 false mask

-- `length <= expected` is `length + buffer_len <= max_response_len`, where `expected` may be negative.
unfoldable pub overlong_parts : ℕ → ℕ → List Bool → ℕ
unfolding response_length
overlong_parts max_response_len buffer_len mask =
    let length = response_length mask in
    if buffer_len == 0
    then 0
    else if leb (length + buffer_len) max_response_len
    then 0
    else min (length + buffer_len - max_response_len) buffer_len
