-- ===== src/Planner/Types/Checks.antt =====
-- `PlannerConfig.__post_init__` accepts exactly the configurations that a plan can be built from.
use meshy.Prelude.{ℕ, ◌%◌, ◌<◌, ◌≡◌, ◌≢◌, ◌↔◌, Option, none, some, arith, ok}
use meshy.Planner.Types.{PlannerConfig, packed, post_init}

-- A limit that is set is positive.
abbrev pub PositiveIfSet : Option ℕ → Type 0
PositiveIfSet none = Unit {0}
PositiveIfSet (some v) = 0 < v

pub record IsUsable (cfg : PlannerConfig) : Type 0 where
  pub mini_positive : 0 < cfg.mini_batch_size
  pub align_positive : 0 < cfg.align
  pub seq_positive : 0 < cfg.seq_len
  pub seq_aligned : cfg.seq_len % cfg.align ≡ 0
  pub budget_positive : PositiveIfSet cfg.max_tokens_per_micro
  pub rows_positive : PositiveIfSet cfg.micro_batch_size
  pub some_limit : cfg.max_tokens_per_micro ≡ none → cfg.micro_batch_size ≢ none
  pub packed_budget : cfg.layout ≡ packed → cfg.max_tokens_per_micro ≢ none

-- `__post_init__` returns on the usable configurations, and raises on all others.
pub post_init-iff_IsUsable : (cfg : PlannerConfig) → (post_init cfg ≡ ok tt) ↔ IsUsable cfg
unfolding post_init
post_init-iff_IsUsable cfg = (λ h. ground arith, λ h. ground arith)
