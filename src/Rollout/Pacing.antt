-- ===== src/Rollout/Pacing.antt =====
-- `_restore`, `_snapshot`, `_generation_budget`, `try_advance_gate` and `acquire_generation_slot` of
-- `RolloutWorker` in meshy/worker/rollout.py. The gates that arrive, each a step and a weight version,
-- are a list; where it ends the worker goes on waiting.
pub mod Budget
pub mod Recovery
use meshy.Prelude.{
  ℕ, suc, ◌+◌, ◌-◌, ◌*◌, String, Bool, true, false, not, ◌&&◌, Option, none, some, List, [], ◌∷◌,
  ◌++◌, ltb, ◌==◌, if◌then◌else◌, Result, ok, err,
}
use meshy.Checkpoint.Policy.{GlobalCheckpointConfig, due}
use meshy.Checkpoint.Disk.{Disk, run}
use meshy.Checkpoint.Store.{write_meta, mark_complete, prune, payload_of}

-- The sidecar's payload.
pub record Payload : Type 0 where
  pub epoch : ℕ
  pub dataset_index : ℕ
  pub filtered_at_epoch_start : ℕ
  pub groups_seen : ℕ
  pub groups_filtered : ℕ
  pub gates_seen : ℕ
  pub samples_started : ℕ
  pub weight_version : ℕ

-- What the service was given.
pub record Setup : Type 0 where
  pub service_name : String
  pub train_batch_size : ℕ
  pub pacing_window : Option ℕ
  pub checkpoint : GlobalCheckpointConfig
  pub resume_step : ℕ

-- The counters of the worker, which a snapshot writes, and the state directory.
pub record Worker : Type 0 where
  pub counters : Payload
  pub disk : Disk Payload

pub data RolloutError : Type 0 where
  shard_missing no_samples : RolloutError

abbrev pub initial : Payload
initial = record {
  epoch = 0;
  dataset_index = 0;
  filtered_at_epoch_start = 0;
  groups_seen = 0;
  groups_filtered = 0;
  gates_seen = 0;
  samples_started = 0;
  weight_version = 0;
}

-- `_restore`, from the counters of a new worker.
unfoldable pub restore : Setup → Disk Payload → Result RolloutError Payload
unfolding payload_of
restore c d =
    if c.resume_step == 0 then ok initial else elim (payload_of d c.service_name c.resume_step) [
      | none ↦ err shard_missing
      | some p ↦ ok (record p { gates_seen = c.resume_step })
    ]

-- The shard of `_snapshot` on the disk, before the pruning, and after it.
unfoldable pub commit : Setup → Worker → ℕ → Disk Payload
unfolding write_meta mark_complete
commit c w step =
    run w.disk (write_meta c.service_name step w.counters ++ mark_complete c.service_name step)

unfoldable pub snapshot : Setup → Worker → ℕ → Worker
unfolding commit prune
snapshot c w step =
    let d = commit c w step in
    record w { disk = run d (prune d c.service_name c.checkpoint.keep_latest_k).1 }

unfoldable pub generation_budget : ℕ → ℕ → ℕ → ℕ
generation_budget window batch gates = if gates == 0 then 0 else (gates - 1 + window) * batch

abbrev pub counted : Worker → ℕ → Worker
counted w version = record w {
  counters = record w.counters { gates_seen = suc w.counters.gates_seen; weight_version = version };
}

-- `try_advance_gate` on a gate; one that is out of order is taken all the same.
unfoldable pub advance_gate : Setup → Worker → ℕ → ℕ → Worker
unfolding snapshot due
advance_gate c w step version =
    let n = counted w version in
    if due c.checkpoint step && ltb c.resume_step step then snapshot c n step else n

-- `drain_gates`
unfoldable pub drain_gates : Setup → Worker → List (ℕ × ℕ) → Worker
unfolding advance_gate
drain_gates c w [] = w
drain_gates c w ((step, version) ∷ gates) = drain_gates c (advance_gate c w step version) gates

abbrev pub started : Worker → ℕ → Worker
started w n = record w {
  counters = record w.counters { samples_started = w.counters.samples_started + n };
}

-- The first loop of `acquire_generation_slot`: until there has been a gate. It returns the gates
-- that it leaves; none while it waits.
unfoldable pub await_first : Setup → Worker → List (ℕ × ℕ) → Option (Worker × List (ℕ × ℕ))
unfolding advance_gate
await_first c w [] = if w.counters.gates_seen == 0 then none else some (w, [])
await_first c w ((step, version) ∷ gates) =
    if w.counters.gates_seen == 0
    then some (advance_gate c w step version, gates)
    else some (w, (step, version) ∷ gates)

-- The second loop: until the budget has room.
unfoldable pub await_budget : Setup → ℕ → ℕ → Worker → List (ℕ × ℕ) → Option (Worker × List (ℕ × ℕ))
unfolding advance_gate generation_budget
await_budget c window n w [] =
    if ltb (generation_budget window c.train_batch_size w.counters.gates_seen)
      (w.counters.samples_started + n)
    then none
    else some (started w n, [])
await_budget c window n w ((step, version) ∷ gates) =
    let more = await_budget c window n (advance_gate c w step version) gates in
    if ltb (generation_budget window c.train_batch_size w.counters.gates_seen)
      (w.counters.samples_started + n)
    then more
    else some (started w n, (step, version) ∷ gates)

-- What follows the first gate.
unfoldable pub take_slot :
    Setup → Option ℕ → ℕ → Worker × List (ℕ × ℕ) → Option (Worker × List (ℕ × ℕ))
unfolding await_budget drain_gates
take_slot c none n (w, gates) = some (started (drain_gates c w gates) n, [])
take_slot c (some window) n (w, gates) = await_budget c window n w gates

abbrev pub and_then :
    Option (Worker × List (ℕ × ℕ))
    → (Worker × List (ℕ × ℕ) → Option (Worker × List (ℕ × ℕ)))
    → Option (Worker × List (ℕ × ℕ))
and_then none f = none
and_then (some p) f = f p

unfoldable pub acquire_generation_slot :
    Setup → Worker → ℕ → List (ℕ × ℕ) → Result RolloutError (Option (Worker × List (ℕ × ℕ)))
unfolding await_first take_slot
acquire_generation_slot c w n gates =
    if n == 0
    then err no_samples
    else ok (and_then (await_first c w gates) (λ p. take_slot c c.pacing_window n p))
