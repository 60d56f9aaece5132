-- ===== src/Critic/Windows/Gates.antt =====
-- The gates that the critic and then the trainer raise follow on from one another.
use meshy.Prelude.{
  ℕ, zero, suc, ◌+◌, ◌≤◌, ◌≡◌, refl, sym, ap, ◌∙◌, true, false, not, ◌&&◌, ◌||◌, some, List, [],
  ◌∷◌, ◌++◌, length, range_from, leb, is_some, arith, inl, inr, Bool-cases, Result, ok, err,
  >>=-eq-ok,
}
use meshy.Topology.Types.{pos}
use meshy.Critic.Windows.{
  up_to_end, CriticWorker, WorkerError, Output, gate, column, nothing, clears_batch, critic_process,
  Batch, and_then, critic_run,
}
use meshy.Critic.Steps.{
  TitanWorker, StepResult, syncs, publish_step, after_step, titan_process, gate_output, titan_run,
}
use meshy.Critic.Windows.Handing.{IsHanded, critic_process-IsHanded}

-- The engine numbers its steps from `k` on.
abbrev pub Numbers : ℕ → List (Batch StepResult) → Type 0
Numbers k [] = Unit
Numbers k (b ∷ batches) =
    ((result : StepResult) × (b.answer ≡ some (some result)) × (result.step ≡ k))
    × Numbers (suc k) batches

module _ {V : Type 0} where
  -- The steps of the gates among some outputs.
  abbrev pub gates_of : List (Output V) → List ℕ
  gates_of [] = []
  gates_of (gate g ∷ outs) = g.gate_step ∷ gates_of outs
  gates_of (column s rows ∷ outs) = gates_of outs
  gates_of (nothing ∷ outs) = gates_of outs

  record Both {W : Type 0} (r : Result WorkerError (Output V) × W)
      (rest : W → Result WorkerError (List (Output V)) × W) (outs : List (Output V)) (u : W)
      : Type 0 where
    out : Output V
    more : List (Output V)
    middle : W
    first : r ≡ (ok out, middle)
    others : rest middle ≡ (ok more, u)
    whole : outs ≡ out ∷ more

  and_then-Both :
      {W : Type 0} (r : Result WorkerError (Output V) × W)
      (rest : W → Result WorkerError (List (Output V)) × W) (outs : List (Output V)) (u : W)
      → and_then r rest ≡ (ok outs, u)
      → Both r rest outs u
  and_then-Both (err e, w) rest outs u h = cc
  and_then-Both (ok out, w) rest outs u h =
      let b = >>=-eq-ok (rest w).0 _ (ap (λ x. x.0) h) in
      let last : (rest w).1 ≡ u = ap (λ x. x.1) h in
      record {
        out = out;
        more = b.0;
        middle = w;
        first = refl;
        others = λ i. (b.1 i, last i);
        whole = ground (arith, b.2);
      }

  -- Whether the critic clears is known from the windows before the batch.
  clears_at :
      (n version n_samples : ℕ) (w u : CriticWorker) (out : Output V)
      → w.cold_start_windows ≡ pos n
      → IsHanded w version n_samples out u
      → clears_batch u ≡ leb (w.windows + 1) n
  unfolding clears_batch
  clears_at n version n_samples w u out c i =
      ap (λ z. up_to_end z u.windows) (i.same ∙ c) ∙ ap (λ m. leb m n) i.counted

  -- After the cold start the critic raises no gate.
  critic_run-late :
      (n : ℕ) (w : CriticWorker) (batches : List (Batch (List V))) (outs : List (Output V))
      (u : CriticWorker)
      → w.cold_start_windows ≡ pos n
      → n ≤ w.windows
      → critic_run w batches ≡ (ok outs, u)
      → gates_of outs ≡ []
  unfolding critic_run
  critic_run-late n w [] outs u c p h =
      let e : [] ≡ outs = ground (arith, ap (λ r. r.0) h) in ap gates_of (sym e)
  critic_run-late n w (b ∷ batches) outs u c p h =
      let s =
        and_then-Both (critic_process w b.version b.n_samples b.answer) (λ v. critic_run v batches)
          outs u h in
      let i = critic_process-IsHanded w b.version b.n_samples b.answer s.out s.middle s.first in
      let k = clears_at n b.version b.n_samples w s.middle s.out c i in
      elim i.handed [
        | inl (x, y, z) ↦ absurd (ground (arith, x, k, p))
        | inr (x, y, z) ↦
            ap gates_of (s.whole ∙ ap (λ o. o ∷ s.more) z.1)
            ∙ critic_run-late n s.middle batches s.more u (i.same ∙ c) (omega (arith, p, i.counted))
                s.others
      ]

  -- With `k` cold windows to go, the critic raises the next `k` gates.
  critic_run-gates :
      (n k : ℕ) (w : CriticWorker) (batches : List (Batch (List V))) (outs : List (Output V))
      (u : CriticWorker)
      → w.cold_start_windows ≡ pos n
      → w.gates_raised ≡ w.windows
      → w.windows + k ≡ n
      → k ≤ length batches
      → critic_run w batches ≡ (ok outs, u)
      → gates_of outs ≡ range_from (suc w.windows) k
  unfolding critic_run
  critic_run-gates n zero w batches outs u c g p q h =
      critic_run-late n w batches outs u c (omega (arith, p)) h
  critic_run-gates n (suc k) w [] outs u c g p q h = absurd (omega (arith, q))
  critic_run-gates n (suc k) w (b ∷ batches) outs u c g p q h =
      let s =
        and_then-Both (critic_process w b.version b.n_samples b.answer) (λ v. critic_run v batches)
          outs u h in
      let i = critic_process-IsHanded w b.version b.n_samples b.answer s.out s.middle s.first in
      let e = clears_at n b.version b.n_samples w s.middle s.out c i in
      elim i.handed [
        | inr (x, y, z) ↦ absurd (ground (arith, x, e, p))
        | inl (x, y, z) ↦
            let first : w.gates_raised + 1 ≡ suc w.windows = omega (arith, g) in
            let now : s.middle.windows ≡ suc w.windows = omega (arith, i.counted) in
            ap gates_of (s.whole ∙ ap (λ o. o ∷ s.more) z)
            ∙ ap (λ m. m ∷ gates_of s.more) first
            ∙ ap (λ l. suc w.windows ∷ l)
                (critic_run-gates n k s.middle batches s.more u (i.same ∙ c)
                    (omega (arith, y, g, i.counted)) (omega (arith, p, i.counted))
                    (omega (arith, q)) s.others
                  ∙ ap (λ m. range_from (suc m) k) now)
      ]

  -- A trainer that synchronises at every batch raises the gate of its step.
  record Raises (w : TitanWorker) (k : ℕ) (out : Output V) (u : TitanWorker) : Type 0 where
    same : u.stream_minibatch ≡ w.stream_minibatch
    offset : u.gate_step_offset ≡ w.gate_step_offset
    step :
        (outs : List (Output V)) → gates_of (out ∷ outs) ≡ (k + w.gate_step_offset) ∷ gates_of outs

  titan_process-Raises :
      (w : TitanWorker) (b : Batch StepResult) (k : ℕ) (out : Output V) (u : TitanWorker)
      → w.stream_minibatch ≡ false
      → (result : StepResult) × (b.answer ≡ some (some result)) × (result.step ≡ k)
      → titan_process w b.n_samples b.version b.answer ≡ (ok out, u)
      → Raises w k out u
  unfolding titan_process syncs after_step publish_step
  titan_process-Raises w b k out u e (result, f, g) h =
      let start : TitanWorker = record w { holds_request = w.titan_colocated || w.holds_request } in
      let sync : syncs w b.n_samples ≡ true = ground (arith, e) in
      let p : publish_step (record start { trained_since_sync = 0 }) b.version (some (some result))
          ≡ (ok out, u) =
        rw (f, sync, titan_process, after_step) at h in
      elim (Bool-cases (w.titan_colocated && not (is_some result.weights_path))) [
        | inl x ↦ absurd (ground (arith, ap (λ r. r.0) (rw (x, publish_step) at p)))
        | inr x ↦
            let q = rw (x, publish_step) at p in
            let o : gate_output b.version result.step w.gate_step_offset ≡ out =
              ground (arith, ap (λ r. r.0) q) in
            record {
              same = sym (ap (λ r. r.1.stream_minibatch) q);
              offset = sym (ap (λ r. r.1.gate_step_offset) q);
              step = λ outs.
                  ap (λ x. gates_of (x ∷ outs)) (sym o)
                  ∙ ap (λ m. (m + w.gate_step_offset) ∷ gates_of outs) g;
            }
      ]

  titan_run-gates :
      (k : ℕ) (w : TitanWorker) (batches : List (Batch StepResult)) (outs : List (Output V))
      (u : TitanWorker)
      → w.stream_minibatch ≡ false
      → Numbers k batches
      → titan_run w batches ≡ (ok outs, u)
      → gates_of outs ≡ range_from (k + w.gate_step_offset) (length batches)
  unfolding titan_run
  titan_run-gates k w [] outs u e n h =
      let f : [] ≡ outs = ground (arith, ap (λ r. r.0) h) in ap gates_of (sym f)
  titan_run-gates k w (b ∷ batches) outs u e n h =
      let s =
        and_then-Both (titan_process w b.n_samples b.version b.answer) (λ v. titan_run v batches)
          outs u h in
      let r = titan_process-Raises w b k s.out s.middle e n.0 s.first in
      let next : suc k + s.middle.gate_step_offset ≡ suc (k + w.gate_step_offset) =
        omega (arith, r.offset) in
      ap gates_of s.whole
      ∙ r.step s.more
      ∙ ap (λ l. (k + w.gate_step_offset) ∷ l)
          (titan_run-gates (suc k) s.middle batches s.more u (r.same ∙ e) n.1 s.others
            ∙ ap (λ m. range_from m (length batches)) next)

range_from-append : (i m n : ℕ) → range_from i m ++ range_from (i + m) n ≡ range_from i (m + n)
range_from-append i zero n =
    let e : i + 0 ≡ i = omega arith in
    let f : 0 + n ≡ n = omega arith in ap (λ j. range_from j n) e ∙ ap (range_from i) (sym f)
range_from-append i (suc m) n =
    let e : i + suc m ≡ suc i + m = omega arith in
    let f : suc m + n ≡ suc (m + n) = omega arith in
    ap (λ l. i ∷ l)
      (ap (λ j. range_from (suc i) m ++ range_from j n) e ∙ range_from-append (suc i) m n)
    ∙ ap (range_from i) (sym f)

-- A critic with `n` cold windows, `k` of them to go, that processes at least `k` batches, and after it
-- a trainer whose gates are offset by `n`, which synchronises at every batch, and whose engine numbers
-- its steps from 1: their gates together are numbered on from the windows that the critic has
-- processed before, without a gap and none twice.
pub gates_follow_on :
    {V : Type 0} (n k : ℕ) (critic later : CriticWorker) (trainer done : TitanWorker)
    (windows : List (Batch (List V))) (steps : List (Batch StepResult))
    (outs more : List (Output V))
    → critic.cold_start_windows ≡ pos n
    → critic.gates_raised ≡ critic.windows
    → critic.windows + k ≡ n
    → k ≤ length windows
    → critic_run critic windows ≡ (ok outs, later)
    → trainer.stream_minibatch ≡ false
    → trainer.gate_step_offset ≡ n
    → Numbers 1 steps
    → titan_run trainer steps ≡ (ok more, done)
    → gates_of outs ++ gates_of more ≡ range_from (suc critic.windows) (k + length steps)
gates_follow_on n k critic later trainer done windows steps outs more c g p q h e o a t =
    let i : 1 + trainer.gate_step_offset ≡ suc critic.windows + k = omega (arith, o, p) in
    ap (λ l. l ++ gates_of more) (critic_run-gates n k critic windows outs later c g p q h)
    ∙ ap (◌++◌ (range_from (suc critic.windows) k))
        (titan_run-gates 1 trainer steps more done e a t ∙ ap (λ m. range_from m (length steps)) i)
    ∙ range_from-append (suc critic.windows) k (length steps)
