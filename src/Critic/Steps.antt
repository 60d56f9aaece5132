-- ===== src/Critic/Steps.antt =====
-- `TitanWorker` of meshy/worker/titan.py: when it synchronises, and the gates that it raises. The
-- engine's answer is an argument, as for the critic.
use meshy.Prelude.{
  ℕ, ◌+◌, String, Bool, true, false, not, ◌&&◌, ◌||◌, Option, none, some, List, [], ◌∷◌, ltb, leb,
  if◌then◌else◌, Result, ok, err, is_some,
}
use meshy.Critic.Windows.{
  WorkerError, engine_raised, no_result, no_weights_path, Output, gate, nothing, Batch, and_then,
}

pub record TitanWorker : Type 0 where
  pub titan_colocated : Bool
  pub gate_step_offset : ℕ
  pub resume_step : ℕ
  pub batch_size : ℕ
  pub stream_minibatch : Bool
  pub trained_since_sync : ℕ
  pub holds_request : Bool

-- `engine.step`'s result: the step, and the path of the weights, if there is one.
pub record StepResult : Type 0 where
  pub step : ℕ
  pub weights_path : Option String

abbrev pub gate_output : {V : Type 0} → ℕ → ℕ → ℕ → Output V
gate_output version step offset =
    gate (record { gate_step = step + offset; weight_version = version })

unfoldable pub titan_startup : {V : Type 0} → TitanWorker → ℕ → Output V
titan_startup w version =
    gate_output version (if ltb 0 w.resume_step then w.resume_step else version) 0

-- `sync`, of a batch of so many samples.
unfoldable pub syncs : TitanWorker → ℕ → Bool
syncs w n_samples = not w.stream_minibatch || leb w.batch_size (w.trained_since_sync + n_samples)

-- A step that synchronises the weights, after the engine.
unfoldable pub publish_step :
    {V : Type 0}
    → TitanWorker
    → ℕ
    → Option (Option StepResult)
    → Result WorkerError (Output V) × TitanWorker
publish_step w version none = (err engine_raised, w)
publish_step w version (some none) = (err no_result, w)
publish_step w version (some (some result)) =
    if w.titan_colocated && not (is_some result.weights_path) then (err no_weights_path, w) else (
      ok (gate_output version result.step w.gate_step_offset),
      record w { holds_request = if w.titan_colocated then false else w.holds_request },
    )

unfoldable pub after_step :
    {V : Type 0}
    → TitanWorker
    → Bool
    → ℕ
    → ℕ
    → Option (Option StepResult)
    → Result WorkerError (Output V) × TitanWorker
unfolding publish_step
after_step w true n_samples version answer =
    publish_step (record w { trained_since_sync = 0 }) version answer
after_step w false n_samples version none =
    (err engine_raised, record w { trained_since_sync = w.trained_since_sync + n_samples })
after_step w false n_samples version (some answer) =
    (ok nothing, record w { trained_since_sync = w.trained_since_sync + n_samples })

-- `TitanWorker.process_tq_batch`; a colocated worker without a request makes one first.
unfoldable pub titan_process :
    {V : Type 0}
    → TitanWorker
    → ℕ
    → ℕ
    → Option (Option StepResult)
    → Result WorkerError (Output V) × TitanWorker
unfolding after_step syncs
titan_process w n_samples version answer =
    after_step (record w { holds_request = w.titan_colocated || w.holds_request })
      (syncs w n_samples) n_samples version answer

unfoldable pub titan_run :
    {V : Type 0}
    → TitanWorker
    → List (Batch StepResult)
    → Result WorkerError (List (Output V)) × TitanWorker
unfolding titan_process
titan_run w [] = (ok [], w)
titan_run w (b ∷ batches) =
    and_then (titan_process w b.n_samples b.version b.answer) (λ u. titan_run u batches)
