-- ===== src/Planner/Samples.antt =====
-- Small batches, and the plans that the planner makes of them.
use meshy.Prelude.{ℕ, none, some, List, [], ◌∷◌, ◌≡◌, refl, map, ok, err}
use meshy.Planner.Types.{
  padded, packed, PlannerConfig, Plan, MiniPlan, MicroPlan, post_init, empty_batch,
}
use meshy.Planner.Snake.{snake}
use meshy.Planner.Build.{build_plan, plan_of}

-- `test_token_budget_padded_groups_by_rows_times_row_len` of tests/test_dynamic_batching.py.
abbrev pub five : List ℕ
five = 900 ∷ 800 ∷ 100 ∷ 90 ∷ 80 ∷ []

abbrev pub budgeted : PlannerConfig
budgeted = record {
  layout = padded;
  mini_batch_size = 5;
  seq_len = 4096;
  align = 64;
  max_tokens_per_micro = some 2000;
  micro_batch_size = some 1;
}

abbrev pub four : List ℕ
four = 70 ∷ 5000 ∷ 130 ∷ 1000 ∷ []

abbrev pub two_ranks : PlannerConfig
two_ranks = record {
  layout = packed;
  mini_batch_size = 1;
  seq_len = 4096;
  align = 64;
  max_tokens_per_micro = some 3000;
  micro_batch_size = none;
}

post_init_runs : post_init budgeted ≡ ok tt
unfolding post_init
post_init_runs = refl

snake_runs : snake {A = ℕ} (1 ∷ 2 ∷ 3 ∷ 4 ∷ 5 ∷ []) 2 ≡ (1 ∷ 4 ∷ 5 ∷ []) ∷ (2 ∷ 3 ∷ []) ∷ []
unfolding snake
snake_runs = refl

rows : Plan → List (List (List (List ℕ)))
rows p = map (map (λ (m : MiniPlan). map (λ (u : MicroPlan). u.sample_idx) m.micros)) p.per_rank

batch_of_five :
    rows (plan_of budgeted five five 1) ≡ (((0 ∷ 1 ∷ []) ∷ (2 ∷ 3 ∷ 4 ∷ []) ∷ []) ∷ []) ∷ []
unfolding rows plan_of
batch_of_five = refl

four_indices : (plan_of two_ranks four four 2).local_indices ≡ (1 ∷ 0 ∷ []) ∷ (3 ∷ 2 ∷ []) ∷ []
unfolding plan_of
four_indices = refl

build_errors : build_plan [] [] 2 budgeted ≡ err empty_batch
unfolding build_plan
build_errors = refl
