-- ===== src/Planner/Build.antt =====
-- `build_plan` of meshy/backend/titan/plan.py.
pub mod Shares
pub mod Cover
pub mod Agree
pub mod Limits
use Prim.Native.Nat.{min}
use meshy.Prelude.{
  ℕ, ◌+◌, ◌-◌, ◌/◌, ◌%◌, true, not, List, [], ◌++◌, map, length, get_or, replicate, range, sum,
  maximum, ◌==◌, if◌then◌else◌, Result, ok, raise_if, ◌>>◌,
}
use meshy.Prelude.Sort.{sort_by}
use meshy.Planner.Types.{
  PlannerConfig, MicroPlan, MiniPlan, Plan, PlanError, empty_batch, sizes_differ, not_divisible,
  filler_micro,
}
use meshy.Planner.Snake.{snake}
use meshy.Planner.Pack.{longer_first, pack_micros}

-- What one data-parallel rank was dealt: the global indices of its samples, their truncated
-- lengths, the members of each mini-batch as local positions, and the packed micro-batches.
pub record Share : Type 0 where
  pub owned : List ℕ
  pub local_len : List ℕ
  pub members : List (List ℕ)
  pub packs : List (List MicroPlan)

unfoldable pub truncate : PlannerConfig → List ℕ → List ℕ
truncate cfg lengths = map (λ l. min l cfg.seq_len) lengths

-- Step 1: which samples each rank trains on.
unfoldable pub deal_ranks : List ℕ → ℕ → List (List ℕ)
unfolding sort_by longer_first snake
deal_ranks trunc dp_size = snake (sort_by (longer_first trunc) (range (length trunc))) dp_size

unfoldable pub mini_count : PlannerConfig → ℕ → ℕ
mini_count cfg n_local = (n_local + cfg.mini_batch_size - 1) / cfg.mini_batch_size

-- Step 2: the mini-batches and micro-batches of one rank.
unfoldable pub share_of : PlannerConfig → List ℕ → ℕ → List ℕ → Share
unfolding sort_by longer_first snake pack_micros mini_count
share_of cfg trunc n_local owned =
    let local_len = map (λ g. get_or trunc g 0) owned in
    let members =
      snake (sort_by (longer_first local_len) (range n_local)) (mini_count cfg n_local) in
    record {
      owned = owned;
      local_len = local_len;
      members = members;
      packs = map (λ m. pack_micros cfg m local_len) members;
    }

-- `globals_q`: the members of mini-batch `i` of a rank, as global indices.
unfoldable pub global_members : ℕ → Share → List ℕ
global_members i s = map (λ p. get_or s.owned p 0) (get_or s.members i [])

unfoldable pub micro_count : List Share → ℕ → ℕ
micro_count shares i = maximum (map (λ (s : Share). length (get_or s.packs i [])) shares)

-- Step 3: mini-batch `i` of a rank, with fillers and the global denominators.
unfoldable pub mini_of : PlannerConfig → List ℕ → List ℕ → List Share → Share → ℕ → MiniPlan
unfolding micro_count global_members filler_micro
mini_of cfg trunc loss_tokens shares s i =
    let micros = get_or s.packs i [] in
    record {
      micros = micros ++ replicate (micro_count shares i - length micros) (filler_micro cfg);
      n_docs_global = sum (map (λ (q : Share). length (get_or q.members i [])) shares);
      n_tokens_global =
          sum (map (λ q. sum (map (λ g. get_or loss_tokens g 0) (global_members i q))) shares);
      tokens_per_rank = map (λ q. sum (map (λ g. get_or trunc g 0) (global_members i q))) shares;
    }

-- The plan that is computed once the checks have passed.
unfoldable pub plan_of : PlannerConfig → List ℕ → List ℕ → ℕ → Plan
unfolding deal_ranks share_of mini_of truncate
plan_of cfg lengths loss_tokens dp_size =
    let trunc = truncate cfg lengths in
    let n_local = length lengths / dp_size in
    let ranks = deal_ranks trunc dp_size in
    let shares = map (share_of cfg trunc n_local) ranks in
    record {
      per_rank =
          map (λ s. map (mini_of cfg trunc loss_tokens shares s) (range (mini_count cfg n_local)))
            shares;
      local_indices = ranks;
    }

unfoldable pub build_plan : List ℕ → List ℕ → ℕ → PlannerConfig → Result PlanError Plan
unfolding plan_of
build_plan lengths loss_tokens dp_size cfg =
    let n = length lengths in
    do
      raise_if (n == 0) empty_batch
      raise_if (not (length loss_tokens == n)) sizes_differ
      raise_if (if dp_size == 0 then true else not (n % dp_size == 0)) not_divisible
      ok (plan_of cfg lengths loss_tokens dp_size)
