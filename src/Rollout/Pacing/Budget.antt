-- ===== src/Rollout/Pacing/Budget.antt =====
-- A slot keeps the budget, takes no more gates than it needs, and comes once the gates are there.
use meshy.Prelude.{
  ℕ, suc, ◌+◌, ◌≤◌, ◌<◌, ◌≡◌, refl, sym, ap, ◌∙◌, false, Option, some, List, [], ◌∷◌, length, ltb,
  ◌==◌, ◌&&◌, Result, ok, arith, Bool-cases, inl, inr,
}
use meshy.Checkpoint.Policy.{due}
use meshy.Rollout.Pacing.{
  Payload, Setup, Worker, RolloutError, counted, started, advance_gate, snapshot, generation_budget,
  await_first, await_budget, take_slot, acquire_generation_slot,
}

-- A gate counts, and a snapshot counts nothing.
pub advance_gate-counters :
    (c : Setup) (w : Worker) (step version : ℕ)
    → (advance_gate c w step version).counters ≡ (counted w version).counters
unfolding advance_gate snapshot
advance_gate-counters c w step version =
    elim (Bool-cases (due c.checkpoint step && ltb c.resume_step step)) [
      | inl e ↦ rw e refl
      | inr e ↦ rw e refl
    ]

-- What a slot for `n` samples leaves.
pub record IsPaced (c : Setup) (window n : ℕ) (w : Worker) (gates : List (ℕ × ℕ)) (v : Worker)
    (rest : List (ℕ × ℕ)) : Type 0 where
  pub within :
      v.counters.samples_started ≤ generation_budget window c.train_batch_size v.counters.gates_seen
  pub counted_samples : v.counters.samples_started ≡ w.counters.samples_started + n
  pub counted_gates : v.counters.gates_seen + length rest ≡ w.counters.gates_seen + length gates
  pub some_gate : 0 < v.counters.gates_seen

module _ (c : Setup) (window n : ℕ) where
  await_budget-IsPaced :
      (w : Worker) (gates : List (ℕ × ℕ)) (v : Worker) (rest : List (ℕ × ℕ))
      → 0 < w.counters.gates_seen
      → await_budget c window n w gates ≡ some (v, rest)
      → IsPaced c window n w gates v rest
  unfolding await_budget
  await_budget-IsPaced w [] v rest p h = record {
    within = ground arith;
    counted_samples = ground arith;
    counted_gates = ground arith;
    some_gate = ground arith;
  }
  await_budget-IsPaced w ((step, version) ∷ gates) v rest p h =
      let m = advance_gate c w step version in
      let e = ap (λ (k : Payload). k.gates_seen) (advance_gate-counters c w step version) in
      let f = ap (λ (k : Payload). k.samples_started) (advance_gate-counters c w step version) in
      elim (Bool-cases (
        ltb (generation_budget window c.train_batch_size w.counters.gates_seen)
          (w.counters.samples_started + n))) [
            | inl b ↦
                let r = await_budget-IsPaced m gates v rest (omega (arith, e)) (rw b at h) in
                record {
                  within = r.within;
                  counted_samples = omega (arith, r.counted_samples, f);
                  counted_gates = omega (arith, r.counted_gates, e);
                  some_gate = r.some_gate;
                }
            | inr b ↦ record {
              within = ground arith;
              counted_samples = ground arith;
              counted_gates = ground arith;
              some_gate = ground arith;
            }
          ]

  await_budget-returns :
      (w : Worker) (gates : List (ℕ × ℕ))
      → w.counters.samples_started + n
        ≤ generation_budget window c.train_batch_size (w.counters.gates_seen + length gates)
      → (p : Worker × List (ℕ × ℕ)) × (await_budget c window n w gates ≡ some p)
  unfolding await_budget
  await_budget-returns w [] h =
      let e : w.counters.gates_seen + 0 ≡ w.counters.gates_seen = omega arith in
      let k = rw e at h in ((started w n, []), ground arith)
  await_budget-returns w ((step, version) ∷ gates) h =
      let m = advance_gate c w step version in
      let e = ap (λ (k : Payload). k.gates_seen) (advance_gate-counters c w step version) in
      let f = ap (λ (k : Payload). k.samples_started) (advance_gate-counters c w step version) in
      let g : w.counters.gates_seen + suc (length gates) ≡ m.counters.gates_seen + length gates =
        omega (arith, e) in
      let s : w.counters.samples_started + n ≡ m.counters.samples_started + n = omega (arith, f) in
      elim (Bool-cases (
        ltb (generation_budget window c.train_batch_size w.counters.gates_seen)
          (w.counters.samples_started + n))) [
            | inl b ↦
                let k = rw (g, s) at h in let r = await_budget-returns m gates k in (r.0, rw b r.1)
            | inr b ↦ ((started w n, (step, version) ∷ gates), rw b refl)
          ]

  -- The state after the wait for the first gate.
  record IsBegun (w : Worker) (gates : List (ℕ × ℕ)) (m : Worker) (rest : List (ℕ × ℕ))
      : Type 0 where
    some_gate : 0 < m.counters.gates_seen
    samples : m.counters.samples_started ≡ w.counters.samples_started
    all_gates : m.counters.gates_seen + length rest ≡ w.counters.gates_seen + length gates

  await_first-IsBegun :
      (w : Worker) (gates : List (ℕ × ℕ))
      → 0 < w.counters.gates_seen + length gates
      → (m : Worker) × (rest : List (ℕ × ℕ)) × (await_first c w gates ≡ some (m, rest))
        × IsBegun w gates m rest
  unfolding await_first
  await_first-IsBegun w [] p =
      (w, [], ground arith, record { some_gate = omega arith; samples = refl; all_gates = refl })
  await_first-IsBegun w ((step, version) ∷ gates) p =
      let m = advance_gate c w step version in
      let e = ap (λ (k : Payload). k.gates_seen) (advance_gate-counters c w step version) in
      let f = ap (λ (k : Payload). k.samples_started) (advance_gate-counters c w step version) in
      elim (Bool-cases (w.counters.gates_seen == 0)) [
        | inl b ↦ (
          m,
          gates,
          rw b refl,
          record { some_gate = omega (arith, e); samples = f; all_gates = omega (arith, e) },
        )
        | inr b ↦ (
          w,
          (step, version) ∷ gates,
          rw b refl,
          record { some_gate = ground arith; samples = refl; all_gates = refl },
        )
      ]

  acquired_by :
      (w : Worker) (gates : List (ℕ × ℕ)) (m : Worker) (rest : List (ℕ × ℕ))
      (p : Worker × List (ℕ × ℕ))
      → (n == 0) ≡ false
      → await_first c w gates ≡ some (m, rest)
      → c.pacing_window ≡ some window
      → await_budget c window n m rest ≡ some p
      → acquire_generation_slot c w n gates ≡ ok (some p)
  unfolding acquire_generation_slot take_slot
  acquired_by w gates m rest p z a e r =
      let wrap : Option (Worker × List (ℕ × ℕ))
          → Result RolloutError (Option (Worker × List (ℕ × ℕ))) =
        λ o. ok o in
      let first : acquire_generation_slot c w n gates
          ≡ wrap (take_slot c c.pacing_window n (m, rest)) =
        rw (z, a) refl in
      first ∙ ap (λ o. wrap (take_slot c o n (m, rest))) e ∙ ap wrap r

  -- Under a pacing window, once the gates that have been seen and those that arrive give a budget for
  -- `n` more samples, a slot for them is granted; then the samples started, these included, are
  -- within the budget of the gates that have been seen, and no gate is lost.
  pub acquire_generation_slot-grants :
      (w : Worker) (gates : List (ℕ × ℕ))
      → c.pacing_window ≡ some window
      → 0 < n
      → w.counters.samples_started + n
        ≤ generation_budget window c.train_batch_size (w.counters.gates_seen + length gates)
      → (v : Worker) × (rest : List (ℕ × ℕ)) × (acquire_generation_slot c w n gates
          ≡ ok (some (v, rest)))
        × IsPaced c window n w gates v rest
  unfolding generation_budget
  acquire_generation_slot-grants w gates e p h =
      let b = await_first-IsBegun w gates (ground arith) in
      let m = b.0 in
      let i = b.3 in
      let k : m.counters.samples_started + n
          ≤ generation_budget window c.train_batch_size (m.counters.gates_seen + length b.1) =
        rw (sym i.samples, sym i.all_gates) at h in
      let r = await_budget-returns m b.1 k in
      let q = await_budget-IsPaced m b.1 r.0.0 r.0.1 i.some_gate r.1 in
      let z : (n == 0) ≡ false = ground arith in
      (
        r.0.0,
        r.0.1,
        acquired_by w gates m b.1 r.0 z b.2 e r.1,
        record {
          within = q.within;
          counted_samples = omega (arith, q.counted_samples, i.samples);
          counted_gates = omega (arith, q.counted_gates, i.all_gates);
          some_gate = q.some_gate;
        },
      )
