-- ===== src/Rollout/Pacing/Recovery.antt =====
-- A restart takes up the counters of the snapshot, and the gate that it sees again.
use meshy.Prelude.{ℕ, suc, ◌<◌, ◌≡◌, refl, String, true, false, ◌==◌, eq_iff, ok, arith}
use meshy.Checkpoint.Disk.{Disk}
use meshy.Checkpoint.Disk.Laws.{same}
use meshy.Checkpoint.Store.Crash.{commit_round_trip}
use meshy.Rollout.Pacing.{Payload, Setup, Worker, restore, commit, advance_gate}

-- The same service, restarted at a step.
abbrev pub resumed_at : Setup → ℕ → Setup
resumed_at c step = record c { resume_step = step }

module _ (c : Setup) where
  same_self : (s : String) (n : ℕ) → same s n s n ≡ true
  same_self s n = ground (arith, eq_iff s s)

  restore-commit :
      (w : Worker) (step : ℕ)
      → 0 < step
      → restore (resumed_at c step) (commit c w step) ≡ ok (record w.counters { gates_seen = step })
  unfolding restore commit
  restore-commit w step p =
      let z : (step == 0) ≡ false = ground arith in
      let t = (commit_round_trip w.disk c.service_name step w.counters c.service_name step).1 in
      let e = rw (same_self c.service_name step) at t in rw (z, e) refl

  -- A worker that has seen the gate of a step, as the one numbered so, writes the shard of the step. A
  -- restart at that step takes up counters with which seeing the gate again, with the same weight
  -- version, gives the counters of that worker, and leaves the disk as it finds it.
  pub restore-advance_gate :
      (w : Worker) (step : ℕ) (d : Disk Payload)
      → 0 < step
      → w.counters.gates_seen ≡ suc step
      → (p : Payload) × (restore (resumed_at c step) (commit c w step) ≡ ok p)
        × (advance_gate
              (resumed_at c step)
              (record { counters = p; disk = d })
              step
              w.counters.weight_version
            ≡ record { counters = w.counters; disk = d })
  unfolding advance_gate
  restore-advance_gate w step d p e =
      (record w.counters { gates_seen = step }, restore-commit w step p, ground (arith, e))
