-- ===== src/Critic/Windows.antt =====
-- `CriticWorker` of meshy/worker/critic.py, as far as it
-- decides what is published, who clears a batch, and which gates are raised. The engine's answer to a
-- batch is an argument: none where it raises, and some none where it returns nothing. The text of a
-- request and the path of the actor's weights are parameters; a batch has a row.
pub mod Handing
pub mod Gates
use meshy.Prelude.{
  ℕ, zero, suc, ◌+◌, String, Bool, true, false, not, ◌&&◌, ◌||◌, Option, none, some, List, [], ◌∷◌,
  ◌++◌, map, length, maximum, ltb, leb, ◌==◌, if◌then◌else◌, Result, ok, err, raise_if, ◌>>=◌, ◌>>◌,
  is_some,
}
use meshy.Topology.Types.{ℤ, pos, negsuc}
use meshy.Topology.Checks.{output_fields_by_mode}

pub data WorkerError : Type 0 where
  size_not_positive cold_start_too_low unknown_publish_mode : WorkerError
  engine_raised no_result rows_differ no_weights_path : WorkerError

-- `make_gen_gate`
pub record GenGate : Type 0 where
  pub gate_step : ℕ
  pub weight_version : ℕ

-- What a batch gives to write: a gate, a column of scores, or nothing.
pub data Output (V : Type 0) : Type 0 where
  gate : GenGate → Output V
  column : String → List V → Output V
  nothing : Output V

-- What is asked of the colocation manager and of the engine.
pub data Action : Type 0 where
  requests : String → Action
  waits_for_grant : Action
  trains : ℕ → Bool → Action
  releases : Option String → Action

pub record CriticWorker : Type 0 where
  pub output_field : String
  pub colocated : Bool
  pub cold_start_windows : ℤ
  pub publish_gate_zero : Bool
  pub windows : ℕ
  pub gates_raised : ℕ

abbrev pub below_minus_one : ℤ → Bool
below_minus_one (pos n) = false
below_minus_one (negsuc n) = ltb 0 n

abbrev pub first_of : List String → String
first_of [] = ""
first_of (s ∷ l) = s

-- `CriticWorker.__init__`
unfoldable pub new_critic : ℕ → ℤ → String → Bool → Bool → ℕ → Result WorkerError CriticWorker
unfolding output_fields_by_mode
new_critic score_batch_size cold publish_mode publish_gate_zero colocated resume_step = do
  raise_if (score_batch_size == 0) size_not_positive
  raise_if (below_minus_one cold) cold_start_too_low
  elim (output_fields_by_mode publish_mode) [
    | none ↦ err unknown_publish_mode
    | some fields ↦ ok (record {
      output_field = first_of fields;
      colocated = colocated;
      cold_start_windows = cold;
      publish_gate_zero = publish_gate_zero;
      windows = resume_step;
      gates_raised = resume_step;
    })
  ]

-- `windows < cold_start_windows`, of a number of windows.
abbrev pub before_end : ℤ → ℕ → Bool
before_end (pos n) windows = ltb windows n
before_end (negsuc n) windows = true

unfoldable pub in_cold_start : CriticWorker → Bool
in_cold_start w = before_end w.cold_start_windows w.windows

-- `windows <= cold_start_windows`, of a number of windows.
abbrev pub up_to_end : ℤ → ℕ → Bool
up_to_end (pos n) windows = leb windows n
up_to_end (negsuc n) windows = true

-- `should_clear_batch`
unfoldable pub clears_batch : CriticWorker → Bool
clears_batch w = up_to_end w.cold_start_windows w.windows

module _ {S : Type 0} (version_of : S → ℕ) (actor_weights : Option (ℕ → Option String))
    (request_id : ℕ → String) where
  -- `_actor_weights_for`
  unfoldable pub actor_weights_for : List S → Option String
  actor_weights_for samples = elim actor_weights [
    | none ↦ none
    | some path_of ↦ path_of (maximum (map version_of samples))
  ]

  -- The calls around `score_and_train`; the card is released whether that raises or not.
  unfoldable pub actions_of : CriticWorker → List S → List Action
  unfolding in_cold_start actor_weights_for
  actions_of w samples =
      let step = suc w.windows in
      let train = trains step (not (in_cold_start w)) in
      if w.colocated
      then requests (request_id step)
        ∷ waits_for_grant
        ∷ train
        ∷ releases (actor_weights_for samples)
        ∷ []
      else train ∷ []

-- From the engine's answer on.
unfoldable pub conclude :
    {V : Type 0}
    → CriticWorker
    → Bool
    → ℕ
    → ℕ
    → Option (Option (List V))
    → Result WorkerError (Output V) × CriticWorker
conclude w cold version n_samples none = (err engine_raised, w)
conclude w cold version n_samples (some none) = (err no_result, w)
conclude w true version n_samples (some (some scored)) = (
  ok (gate (record { gate_step = w.gates_raised + 1; weight_version = version })),
  record w { gates_raised = w.gates_raised + 1 },
)
conclude w false version n_samples (some (some scored)) =
    if length scored == n_samples
    then (ok (column w.output_field scored), w)
    else (err rows_differ, w)

-- `CriticWorker.process_tq_batch`, with the engine's weight version and its answer.
unfoldable pub critic_process :
    {V : Type 0}
    → CriticWorker
    → ℕ
    → ℕ
    → Option (Option (List V))
    → Result WorkerError (Output V) × CriticWorker
unfolding conclude in_cold_start
critic_process w version n_samples answer =
    conclude (record w { windows = w.windows + 1 }) (in_cold_start w) version n_samples answer

-- `startup_tq_outputs`
unfoldable pub startup_tq_outputs : {V : Type 0} → CriticWorker → Output V
startup_tq_outputs w =
    if w.publish_gate_zero then gate (record { gate_step = 0; weight_version = 0 }) else nothing

-- One batch of a run: the engine's weight version, its rows and the engine's answer.
pub record Batch (A : Type 0) : Type 0 where
  pub version : ℕ
  pub n_samples : ℕ
  pub answer : Option (Option A)

abbrev pub and_then :
    {W V : Type 0}
    → Result WorkerError (Output V) × W
    → (W → Result WorkerError (List (Output V)) × W)
    → Result WorkerError (List (Output V)) × W
and_then (err e, w) rest = (err e, w)
and_then (ok out, w) rest = let more = rest w in ((more.0 >>= λ outs. ok (out ∷ outs)), more.1)

-- The batches of a run, up to one that raises.
unfoldable pub critic_run :
    {V : Type 0}
    → CriticWorker
    → List (Batch (List V))
    → Result WorkerError (List (Output V)) × CriticWorker
unfolding critic_process
critic_run w [] = (ok [], w)
critic_run w (b ∷ batches) =
    and_then (critic_process w b.version b.n_samples b.answer) (λ u. critic_run u batches)
