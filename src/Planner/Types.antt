-- ===== src/Planner/Types.antt =====
-- The data of meshy/backend/titan/plan.py: the planner's configuration with its checks, and plans.
pub mod Rounding
pub mod Checks
use meshy.Prelude.{
  ℕ, ◌+◌, ◌-◌, ◌*◌, ◌/◌, ◌%◌, Bool, true, false, not, ◌&&◌, Option, none, some, List, [], sum,
  length, ◌==◌, if◌then◌else◌, Result, ok, raise_if, ◌>>◌,
}
use Prim.Native.Nat.{max}

pub data Layout : Type 0 where
  padded packed : Layout

pub record PlannerConfig : Type 0 where
  pub layout : Layout
  pub mini_batch_size : ℕ
  pub seq_len : ℕ
  pub align : ℕ
  pub max_tokens_per_micro : Option ℕ
  pub micro_batch_size : Option ℕ

-- The ValueErrors of the module, one for each message.
pub data PlanError : Type 0 where
  mini_batch_not_positive align_not_positive seq_len_misaligned : PlanError
  max_tokens_not_positive micro_batch_not_positive no_micro_limit packed_needs_budget : PlanError
  empty_batch sizes_differ not_divisible : PlanError

-- `value is not None and value <= 0`
abbrev pub set_to_zero : Option ℕ → Bool
set_to_zero none = false
set_to_zero (some v) = v == 0

abbrev pub is_none : Option ℕ → Bool
is_none none = true
is_none (some v) = false

abbrev pub is_packed : Layout → Bool
is_packed padded = false
is_packed packed = true

-- `PlannerConfig.__post_init__`; an unknown layout cannot be written down.
unfoldable pub post_init : PlannerConfig → Result PlanError (Unit {0})
post_init cfg = do
  raise_if (cfg.mini_batch_size == 0) mini_batch_not_positive
  raise_if (if cfg.align == 0 then true else cfg.seq_len == 0) align_not_positive
  raise_if (not (cfg.seq_len % cfg.align == 0)) seq_len_misaligned
  raise_if (set_to_zero cfg.max_tokens_per_micro) max_tokens_not_positive
  raise_if (set_to_zero cfg.micro_batch_size) micro_batch_not_positive
  raise_if (is_none cfg.max_tokens_per_micro && is_none cfg.micro_batch_size) no_micro_limit
  raise_if (is_packed cfg.layout && is_none cfg.max_tokens_per_micro) packed_needs_budget
  ok tt

-- One forward and backward pass.
pub record MicroPlan : Type 0 where
  pub sample_idx : List ℕ
  pub seq_len : ℕ
  pub doc_lens : List ℕ

unfoldable pub is_filler : MicroPlan → Bool
is_filler m = length m.sample_idx == 0

unfoldable pub n_tokens : MicroPlan → ℕ
n_tokens m = sum m.doc_lens

unfoldable pub n_rows : MicroPlan → ℕ
n_rows m = max 1 (length m.sample_idx)

-- One optimizer step.
pub record MiniPlan : Type 0 where
  pub micros : List MicroPlan
  pub n_docs_global : ℕ
  pub n_tokens_global : ℕ
  pub tokens_per_rank : List ℕ

pub record Plan : Type 0 where
  pub per_rank : List (List MiniPlan)
  pub local_indices : List (List ℕ)

unfoldable pub round_up : ℕ → ℕ → ℕ
round_up x align = (x + align - 1) / align * align

unfoldable pub filler_micro : PlannerConfig → MicroPlan
filler_micro cfg = record { sample_idx = []; seq_len = cfg.align; doc_lens = [] }
