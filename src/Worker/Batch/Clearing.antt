-- ===== src/Worker/Batch/Clearing.antt =====
-- When `run_tq_once` clears a batch.
use meshy.Prelude.{
  String, ◌≡◌, refl, sym, ap, subst, ◌∙◌, Bool, true, false, Option, none, some, List, ◌++◌, ◌⊎◌,
  ◌==◌, ok, is_some, Bool-cases, inl, inr,
}
use meshy.Worker.Types.{
  TqInput, TqConfig, gets_meta, gets_data, processes, clears, History, Environment, Tq,
}
use meshy.Worker.Batch.{
  Ran, then_run, answer, record_call, make_call, count_error, write_outputs, retry_phase, done_with,
  clear_batch, run_batch, run_found, run_with, run_tq_once,
}
use meshy.Worker.Batch.Trace.{
  then_run-cases, Adds, Adds-trans, nothing_added, record_call-Adds, retry_phase-Adds,
  write_outputs-Adds,
}
use meshy.Worker.Batch.Writing.{WritesAll, write_outputs-WritesAll}
use meshy.Worker.Batch.Phases.{
  answer-eq, Keeps, Tries, TriesToWrite, Grows, made, IsRead, IsProcessed, Cleared, Tries-Keeps,
  TriesToWrite-Keeps, retry_phase-Tried,
}

module _ {D M : Type 0} where
  module _ (env : Environment D M) (c : TqConfig) (t : Tq D M) where
    abbrev Goal : {A : Type 0} → Ran D M A → Type 0
    Goal r = Adds Keeps t r.1 ⊎ Cleared env c t r.1.history

    clear_batch-Goal :
        (meta : M) (b : Bool) (result : List (String × D)) (start : History D M) (s u : Tq D M)
        → IsProcessed env c t meta result start
        → Grows TriesToWrite start s.history
        → WritesAll env c.tq_outputs (some meta) result s u
        → env.should_clear_batch u.history ≡ b
        → Adds Keeps t u
        → Goal (clear_batch env c meta b u)
    unfolding clear_batch
    clear_batch-Goal meta false result start s u p g w e k = inl k
    clear_batch-Goal meta true result start s u p g w e k =
        let r =
          retry_phase-Tried env (clears meta) (λ h. env.clear_samples h meta) c.tq_max_retries u in
        let tried =
          retry_phase env (λ v. make_call (clears meta) (env.clear_samples v.history meta) v)
            c.tq_max_retries u in
        let done : Cleared env c t tried.1.history = record {
          meta = meta;
          result = result;
          start = start;
          was_processed = p;
          at = s.history;
          rewriting = g;
          writes = w.calls;
          written = w.written;
          asked = ap env.should_clear_batch (sym w.history) ∙ e;
          clearing = subst (λ h. Grows (Tries (clears meta)) h tried.1.history) w.history r.holds;
        } in
        then_run-cases Goal tried (λ x v. (ok true, done_with env meta v)) (λ e h. inr done)
          (λ x h. inr done)

    -- From the result of `process_tq_batch` on.
    write_phase-Goal :
        (meta : M) (result : List (String × D)) (s : Tq D M)
        → IsProcessed env c t meta result s.history
        → Adds Keeps t s
        → Goal (
            then_run
              (retry_phase env
                (write_outputs env c.tq_outputs (some meta) result)
                c.tq_max_retries
                s)
              (λ u v. clear_batch env c meta (env.should_clear_batch v.history) v))
    write_phase-Goal meta result s p a =
        let write = write_outputs env c.tq_outputs (some meta) result in
        let r =
          retry_phase-Adds TriesToWrite env write c.tq_max_retries s s refl
            (λ v.
              write_outputs-Adds TriesToWrite env (λ td q b. refl) (λ td m b. refl) c.tq_outputs
                (some meta) result v)
            (nothing_added TriesToWrite s) in
        let k =
          Adds-trans Keeps t s (retry_phase env write c.tq_max_retries s).1 a
            (TriesToWrite-Keeps s.history _ r.holds) in
        then_run-cases Goal (retry_phase env write c.tq_max_retries s)
          (λ u v. clear_batch env c meta (env.should_clear_batch v.history) v) (λ e h. inl k)
          (λ u h.
            let (v, b, f) = r.returned u h in
            clear_batch-Goal meta _ result s.history v _ p b
              (write_outputs-WritesAll env c.tq_outputs (some meta) result v _ f) refl k)

    -- From the samples on.
    process_phase-Goal :
        (meta : M) (samples : D) (s : Tq D M)
        → IsRead env c t meta samples s.history
        → Adds Keeps t s
        → Goal (
            then_run
              (retry_phase env
                (λ v. make_call (processes samples) (env.process_tq_batch v.history samples) v)
                c.tq_process_retries
                s)
              (λ result v.
                then_run
                  (retry_phase env
                    (write_outputs env c.tq_outputs (some meta) result)
                    c.tq_max_retries
                    v)
                  (λ u v. clear_batch env c meta (env.should_clear_batch v.history) v)))
    process_phase-Goal meta samples s p a =
        let r =
          retry_phase-Tried env (processes samples) (λ h. env.process_tq_batch h samples)
            c.tq_process_retries s in
        let tried =
          retry_phase env
            (λ v. make_call (processes samples) (env.process_tq_batch v.history samples) v)
            c.tq_process_retries s in
        let k =
          Adds-trans Keeps t s tried.1 a
            (Tries-Keeps (processes samples) s.history _ refl r.holds) in
        then_run-cases Goal tried _ (λ e h. inl k)
          (λ result h.
            let (v, b, f, g) = r.returned result h in
            write_phase-Goal meta result _
              (record {
                samples = samples;
                start = s.history;
                was_read = p;
                at = v.history;
                processing = b;
                processed = f;
                history = g;
              })
              k)

    run_batch-Goal :
        (i : TqInput) (meta : M) (s : Tq D M)
        → c.tq_input ≡ some i
        → env.get_meta t.history i ≡ some meta
        → s.history ≡ t.history ++ made (gets_meta i)
        → Goal (run_batch env c i meta s)
    unfolding run_batch
    run_batch-Goal i meta s configured found asked =
        let a : Adds Keeps t s = (made (gets_meta i), asked, (refl, tt)) in
        let r =
          retry_phase-Tried env (gets_data meta) (λ h. env.get_data h meta) c.tq_max_retries s in
        let tried =
          retry_phase env (λ v. make_call (gets_data meta) (env.get_data v.history meta) v)
            c.tq_max_retries s in
        let k =
          Adds-trans Keeps t s tried.1 a (Tries-Keeps (gets_data meta) s.history _ refl r.holds) in
        then_run-cases Goal tried _ (λ e h. inl k)
          (λ packed h.
            then_run-cases Goal (answer (env.td_to_samples packed i.fields), _) _ (λ e h. inl k)
              (λ samples q.
                let (v, b, f, g) = r.returned packed h in
                process_phase-Goal meta samples _
                  (record {
                    input = i;
                    configured = configured;
                    found = found;
                    at = v.history;
                    reading = subst (λ h. Grows (Tries (gets_data meta)) h v.history) asked b;
                    packed = packed;
                    read = f;
                    unpacked = answer-eq (env.td_to_samples packed i.fields) samples q;
                    history = g;
                  })
                  k))

    run_found-Goal :
        (i : TqInput) (o : Option M)
        → c.tq_input ≡ some i
        → env.get_meta t.history i ≡ o
        → Goal (run_found env c i o (record_call (gets_meta i) (is_some o) t))
    unfolding run_found count_error
    run_found-Goal i none e f = inl (record_call-Adds Keeps (gets_meta i) false t refl)
    run_found-Goal i (some meta) e f = elim (Bool-cases (env.meta_size meta == 0)) [
      | inl z ↦ rw z (inl (record_call-Adds Keeps (gets_meta i) true t refl))
      | inr z ↦ rw z (run_batch-Goal i meta (record_call (gets_meta i) true t) e f refl)
    ]

    run_with-Goal : (o : Option TqInput) → c.tq_input ≡ o → Goal (run_with env c o t)
    unfolding run_with
    run_with-Goal none e = inl (nothing_added Keeps t)
    run_with-Goal (some i) e = run_found-Goal i (env.get_meta t.history i) e refl

-- `run_tq_once`, whether it returns or raises, either clears nothing, or all its calls are these, in
-- this order: it asks for the metadata of a batch of its input; it tries to read the data of that batch,
-- and does; it tries to process the samples that it got from those data, and has a result; it tries to
-- write, and at the last attempt writes each output of that result, in order, with success; and as it
-- then is to clear the batch, it tries to clear that batch. Nothing is cleared before the writes, no
-- other batch is, and nothing is written after.
pub run_tq_once-clears_after :
    {D M : Type 0} (env : Environment D M) (c : TqConfig) (t : Tq D M)
    → Adds Keeps t (run_tq_once env c t).1 ⊎ Cleared env c t (run_tq_once env c t).1.history
unfolding run_tq_once
run_tq_once-clears_after env c t = run_with-Goal env c t c.tq_input refl
