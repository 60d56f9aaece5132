-- ===== src/Reward/Length.antt =====
-- The length of a response, and the penalty that grows with it.
use meshy.Prelude.{
  ℕ, zero, suc, ◌+◌, ◌≤◌, ◌<◌, ◌≡◌, ◌∙◌, Bool, true, false, List, [], ◌∷◌, ◌++◌, replicate, arith,
}
use meshy.Reward.{measure, response_length, overlong_parts}

-- What ends a run of response tokens: the end of the mask, or another token.
pub data Ends : List Bool → Type 0 where
  at_end : Ends []
  at_other : (mask : List Bool) → Ends (false ∷ mask)

measure-run :
    (n k : ℕ) (rest : List Bool) → Ends rest → measure k true (replicate n true ++ rest) ≡ k + n
unfolding measure
measure-run zero k _ at_end = omega arith
measure-run zero k _ (at_other rest) = omega arith
measure-run (suc n) k rest e = measure-run n (suc k) rest e ∙ omega arith

measure-run_first :
    (n k : ℕ) (rest : List Bool)
    → Ends rest
    → measure k false (replicate (suc n) true ++ rest) ≡ k + suc n
unfolding measure
measure-run_first n k rest e = measure-run n (suc k) rest e ∙ omega arith

-- Of a mask that starts with other tokens, and then has `n` response tokens, `n` above 0, up to its end
-- or up to another token, the response length is `n`, whatever comes after.
pub response_length_first_run :
    (before n : ℕ) (rest : List Bool)
    → 0 < n
    → Ends rest
    → response_length (replicate before false ++ (replicate n true ++ rest)) ≡ n
unfolding response_length measure
response_length_first_run before zero rest p e = absurd (omega arith)
response_length_first_run zero (suc n) rest p e = measure-run_first n 0 rest e ∙ omega arith
response_length_first_run (suc before) (suc n) rest p e =
    response_length_first_run before (suc n) rest p e

-- A response that is shorter than the cap by the buffer or more has no penalty, and one that reaches
-- the cap has the penalty of the whole buffer.
pub overlong_parts_at_ends :
    (max_response_len buffer_len : ℕ) (mask longer : List Bool)
    → response_length mask + buffer_len ≤ max_response_len
    → max_response_len ≤ response_length longer
    → (overlong_parts max_response_len buffer_len mask ≡ 0)
      × (overlong_parts max_response_len buffer_len longer ≡ buffer_len)
unfolding overlong_parts
overlong_parts_at_ends max_response_len buffer_len mask longer p q = (ground arith, ground arith)

-- A response that is no longer than another has no greater penalty, and no penalty is more than the
-- whole buffer.
pub overlong_parts_grow :
    (max_response_len buffer_len : ℕ) (mask longer : List Bool)
    → response_length mask ≤ response_length longer
    → (overlong_parts max_response_len buffer_len mask
        ≤ overlong_parts max_response_len buffer_len longer)
      × (overlong_parts max_response_len buffer_len longer ≤ buffer_len)
unfolding overlong_parts
overlong_parts_grow max_response_len buffer_len mask longer p = (ground arith, ground arith)
