-- ===== src/Checkpoint/Policy.antt =====
-- `GlobalCheckpointConfig` of meshy/config.py.
use meshy.Prelude.{ℕ, ◌%◌, Bool, false, ◌&&◌, Result, ok, raise_if, ◌>>◌, ltb, ◌==◌}

pub record GlobalCheckpointConfig : Type 0 where
  pub enabled : Bool
  pub interval : ℕ
  pub keep_latest_k : ℕ

abbrev pub defaults : GlobalCheckpointConfig
defaults = record { enabled = false; interval = 10; keep_latest_k = 3 }

pub data PolicyError : Type 0 where
  interval_not_positive keep_too_few : PolicyError

-- `__post_init__`
unfoldable pub post_init : GlobalCheckpointConfig → Result PolicyError (Unit {0})
post_init c = do
  raise_if (c.interval == 0) interval_not_positive
  raise_if (ltb c.keep_latest_k 2) keep_too_few
  ok tt

unfoldable pub due : GlobalCheckpointConfig → ℕ → Bool
due c global_step = c.enabled && (ltb 0 global_step && global_step % c.interval == 0)
