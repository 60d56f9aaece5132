-- ===== src/Reward/Tests.antt =====
-- Masks of a few tokens.
use meshy.Prelude.{◌≡◌, Bool, true, false, List, [], ◌∷◌, ◌++◌, replicate, arith}
use meshy.Reward.{response_length}
use meshy.Reward.Length.{at_other, response_length_first_run}

abbrev two_turns : List Bool
two_turns = true ∷ true ∷ false ∷ true ∷ []

response_length_first_run_example :
    response_length (replicate 2 false ++ (replicate 3 true ++ (false ∷ two_turns))) ≡ 3
response_length_first_run_example =
    response_length_first_run 2 3 (false ∷ two_turns) (omega arith) (at_other two_turns)
