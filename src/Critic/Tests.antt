-- ===== src/Critic/Tests.antt =====
-- Rows of three prompts, and a critic with two cold windows before its trainer.
use mathlib.Core.List.Perm
use meshy.Prelude.{
  ℕ, suc, ◌+◌, ◌≡◌, ◌≢◌, ◌↔◌, refl, Bool, true, false, not, none, some, List, [], ◌∷◌, ◌++◌, ◌⊎◌,
  length, range, range_from, select, All, Perm, Result, ok, err, arith,
}
use meshy.Topology.Types.{pos, ServiceGroup, ServiceInfo}
use meshy.Topology.Lookups.{cold_start_windows, checkpoint_participants}
use meshy.Topology.Place.{gpu_info, is_in}
use meshy.Topology.Tests.{trainer, group_of, config_for, card, replica_name}
use meshy.Critic.Data.{TrajectorySample, Row, DataError, no_such_split, grouped, samples_from_rows}
use meshy.Critic.Data.Groups.{grouped_iff}
use meshy.Critic.Split.{divide, split_by_prompt}
use meshy.Critic.Split.Exact.{split_by_prompt-is_exact}
use meshy.Critic.Windows.{
  CriticWorker, Output, gate, Batch, WorkerError, clears_batch, critic_process, critic_run,
}
use meshy.Critic.Steps.{TitanWorker, StepResult, titan_run}
use meshy.Critic.Windows.Handing.{IsHanded, critic_process_lem}
use meshy.Critic.Windows.Gates.{gates_of, gates_follow_on}

abbrev row : ℕ → ℕ → Row ℕ
row prompt answer = record {
  tokens = prompt ∷ answer ∷ [];
  masks = false ∷ true ∷ [];
  reward = 1;
  truncated = false;
}

abbrev samples_in : Result DataError (List (TrajectorySample ℕ)) → List (TrajectorySample ℕ)
samples_in (err e) = []
samples_in (ok samples) = samples

-- The prompts 7, 8 and 9 with two, one and three rows.
abbrev samples : List (TrajectorySample ℕ)
samples =
    samples_in (samples_from_rows (row 7 1 ∷ row 8 2 ∷ row 7 3 ∷ row 9 4 ∷ row 9 5 ∷ row 9 6 ∷ []))

grouped_iff_example :
    All
      (λ s. All (λ t. (s.group_id ≡ t.group_id) ↔ (s.prompt_key ≡ t.prompt_key)) (grouped samples))
      (grouped samples)
grouped_iff_example = grouped_iff samples

range-perm : (n : ℕ) → Perm (range n) (range n)
range-perm n = Perm.rfl

split_by_prompt-is_exact_example :
    ((groups : List ℕ) × (split_by_prompt range samples none (some 4) ≡ ok (divide samples groups))
      × (length (divide samples groups).1 ≡ 4))
    ⊎ ((split_by_prompt range samples none (some 4) ≡ err no_such_split)
        × ((keep : ℕ → Bool)
            → length (select (λ (s : TrajectorySample ℕ). keep s.group_id) samples) ≢ 4))
unfolding samples_from_rows
split_by_prompt-is_exact_example = split_by_prompt-is_exact range range-perm samples 4 (omega arith)

four_of_six : split_by_prompt range samples none (some 4) ≡ ok (divide samples (3 ∷ 2 ∷ []))
unfolding split_by_prompt samples_from_rows divide
four_of_six = refl

abbrev cold_critic : CriticWorker
cold_critic = record {
  output_field = "values";
  colocated = true;
  cold_start_windows = pos 2;
  publish_gate_zero = false;
  windows = 0;
  gates_raised = 0;
}

abbrev scored : Batch (List ℕ)
scored = record { version = 0; n_samples = 2; answer = some (some (5 ∷ 6 ∷ [])) }

abbrev first_window : CriticWorker
first_window = (critic_process cold_critic 0 2 scored.answer).1

abbrev first_gate : Output ℕ
first_gate = gate (record { gate_step = 1; weight_version = 0 })

-- The services of that critic and its trainer.
abbrev cold_group : ServiceGroup
cold_group = record (group_of "critic" true 1 1 none) {
  config = record (config_for "critic" true) { cold_start_windows = some (pos 2) };
}

abbrev critic_service : ServiceInfo
critic_service = gpu_info replica_name cold_group false 0 (card 2 ∷ []) (card 2) 30000 40000

critic_process_lem_example :
    IsHanded cold_critic 0 2 first_gate first_window
    × (clears_batch first_window
        ≡ not (
            is_in trainer.name
              (checkpoint_participants (critic_service ∷ trainer ∷ []) first_window.windows)))
unfolding critic_process gpu_info cold_start_windows
critic_process_lem_example =
    critic_process_lem cold_critic 0 2 scored.answer first_gate first_window trainer
      (critic_service ∷ []) [] refl refl refl refl

abbrev titan : TitanWorker
titan = record {
  titan_colocated = true;
  gate_step_offset = 2;
  resume_step = 0;
  batch_size = 2;
  stream_minibatch = false;
  trained_since_sync = 0;
  holds_request = false;
}

abbrev trained : ℕ → Batch StepResult
trained n = record {
  version = n;
  n_samples = 2;
  answer = some (some (record { step = n; weights_path = some "weights" }));
}

abbrev windows : List (Batch (List ℕ))
windows = scored ∷ scored ∷ scored ∷ scored ∷ []

abbrev steps : List (Batch StepResult)
steps = trained 1 ∷ trained 2 ∷ []

abbrev outputs_in : Result WorkerError (List (Output ℕ)) → List (Output ℕ)
outputs_in (err e) = []
outputs_in (ok outs) = outs

abbrev critic_outputs : List (Output ℕ)
critic_outputs = outputs_in (critic_run cold_critic windows).0

abbrev titan_outputs : List (Output ℕ)
titan_outputs = outputs_in (titan_run titan steps).0

gates_follow_on_example :
    gates_of critic_outputs ++ gates_of titan_outputs ≡ range_from (suc 0) (2 + 2)
unfolding critic_run titan_run
gates_follow_on_example =
    gates_follow_on 2 2 cold_critic (critic_run cold_critic windows).1 titan
      (titan_run {V = ℕ} titan steps).1 windows steps critic_outputs titan_outputs refl refl refl
      (omega arith) refl refl refl
      (
        (record { step = 1; weights_path = some "weights" }, refl, refl),
        ((record { step = 2; weights_path = some "weights" }, refl, refl), tt),
      )
      refl
