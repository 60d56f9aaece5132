-- ===== src/Rollout/Tests.antt =====
-- A rollout with a window of two batches of four samples.
use meshy.Prelude.{ℕ, ◌≡◌, refl, true, some, List, [], ◌∷◌, ok, arith}
use meshy.Checkpoint.Policy.{GlobalCheckpointConfig}
use meshy.Checkpoint.Disk.{Disk}
use meshy.Rollout.Pacing.{
  Payload, Setup, Worker, initial, restore, commit, advance_gate, acquire_generation_slot,
  generation_budget,
}
use meshy.Rollout.Pacing.Budget.{IsPaced, acquire_generation_slot-grants}
use meshy.Rollout.Pacing.Recovery.{resumed_at, restore-advance_gate}

abbrev policy : GlobalCheckpointConfig
policy = record { enabled = true; interval = 1; keep_latest_k = 2 }

abbrev setup : Setup
setup = record {
  service_name = "rollout";
  train_batch_size = 4;
  pacing_window = some 2;
  checkpoint = policy;
  resume_step = 0;
}

abbrev no_disk : Disk Payload
no_disk = []

abbrev worker : Worker
worker = record { counters = initial; disk = no_disk }

abbrev arriving : List (ℕ × ℕ)
arriving = (0, 0) ∷ (1, 1) ∷ (2, 2) ∷ []

abbrev ahead : Worker
ahead = record worker {
  counters = record initial { gates_seen = 2; samples_started = 8; weight_version = 1 };
}

acquire_generation_slot-grants_example :
    (v : Worker) × (rest : List (ℕ × ℕ)) × (acquire_generation_slot setup ahead 4 arriving
      ≡ ok (some (v, rest)))
    × IsPaced setup 2 4 ahead arriving v rest
unfolding generation_budget
acquire_generation_slot-grants_example =
    acquire_generation_slot-grants setup 2 4 ahead arriving refl (omega arith) (omega arith)

restore-advance_gate_example :
    (p : Payload) × (restore (resumed_at setup 1) (commit setup ahead 1) ≡ ok p)
    × (advance_gate (resumed_at setup 1) (record { counters = p; disk = no_disk }) 1 1
        ≡ record { counters = ahead.counters; disk = no_disk })
restore-advance_gate_example = restore-advance_gate setup ahead 1 no_disk (omega arith) refl
