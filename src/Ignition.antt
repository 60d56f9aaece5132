-- ===== src/Ignition.antt =====
-- How a run is brought up: `_check_resume` of meshy/service/ignite.py. What it writes to the
-- environment, the effects of `drop_newer_than` on the state directory and the ValueError that ends it
-- are values.
pub mod Agree
pub mod Startup
pub mod Tests
use meshy.Prelude.{
  ℕ, String, Bool, true, false, not, ◌&&◌, ◌||◌, Option, none, some, List, [], ◌∷◌, ◌==◌,
  if◌then◌else◌,
}
use meshy.Checkpoint.Disk.{Disk, Effect}
use meshy.Checkpoint.Policy.{GlobalCheckpointConfig}
use meshy.Checkpoint.Store.{has_any_shard, drop_newer_than}
use meshy.Checkpoint.Resume.{resolve_resume_step}
use meshy.Topology.Types.{Gpu, ServiceInfo}
use meshy.Topology.Lookups.{checkpoint_config, checkpoint_participants}

pub data ResumeError : Type 0 where
  nothing_checkpoints resume_not_requested no_full_checkpoint : ResumeError

-- The step that the environment has at the end, what is dropped, and the exception, if there is one.
pub record Checked (P : Type 0) : Type 0 where
  pub published : ℕ
  pub dropped : List (Effect P)
  pub raised : Option ResumeError

module _ {P : Type 0} where
  abbrev pub starts_fresh : Checked P
  starts_fresh = record { published = 0; dropped = []; raised = none }

  abbrev pub refuses : ℕ → ResumeError → Checked P
  refuses step error = record { published = step; dropped = []; raised = some error }

  -- From `publish_resume_step(step)` on.
  unfoldable pub adopt : Disk P → ℕ → ℕ → Checked P
  unfolding drop_newer_than
  adopt d rank step =
      if step == 0
      then refuses step no_full_checkpoint
      else if rank == 0
      then record { published = step; dropped = drop_newer_than d step; raised = none }
      else record { published = step; dropped = []; raised = none }

  -- The branches, on the policy, on whether there is a shard and on `resume_requested`.
  unfoldable pub decide :
      Option GlobalCheckpointConfig → Bool → Bool → Disk P → ℕ → (ℕ → List String) → Checked P
  unfolding adopt resolve_resume_step
  decide none true true d rank participants_at = refuses 0 nothing_checkpoints
  decide none true false d rank participants_at = starts_fresh
  decide none false requested d rank participants_at = starts_fresh
  decide (some policy) false requested d rank participants_at = starts_fresh
  decide (some policy) true false d rank participants_at = refuses 0 resume_not_requested
  decide (some policy) true true d rank participants_at =
      adopt d rank (resolve_resume_step d participants_at none)

  unfoldable pub check_resume : Bool → ℕ → List ServiceInfo → Disk P → Checked P
  unfolding decide checkpoint_config has_any_shard checkpoint_participants
  check_resume requested rank services d =
      decide (checkpoint_config services) (has_any_shard d) requested d rank
        (checkpoint_participants services)

-- `_gpu_by_rank`, with none for the KeyError.
unfoldable pub gpu_by_rank : List Gpu → ℕ → Option Gpu
gpu_by_rank [] rank = none
gpu_by_rank (g ∷ gpus) rank = if g.global_rank == rank then some g else gpu_by_rank gpus rank
