-- ===== src/Worker/Batch.antt =====
-- `_retry_phase`, `_write_outputs`, `run_tq_once`, `write_tq_output` and `read_tq_control` of
-- meshy/worker/tq.py. A method takes the state of the worker and returns its result with the state
-- after it, whether it raises or not.
pub mod Retry
pub mod Trace
pub mod Writing
pub mod Phases
pub mod Clearing
use meshy.Prelude.{
  ℕ, zero, suc, ◌+◌, String, Bool, true, false, not, ◌&&◌, ◌||◌, Option, none, some, List, [], ◌∷◌,
  ◌++◌, any, all, ◌==◌, str_eq, if◌then◌else◌, Result, ok, err, is_some,
}
use meshy.Prelude.Dicts.{get}
use meshy.Worker.Types.{
  TqInput, TqOutput, TqConfig, TqError, no_input, undeclared_output, fields_mismatch, no_metadata,
  batch_mismatch, undeclared_control, call_raised, retries_spent, Call, gets_meta, gets_data,
  processes, puts_new, puts_rows, clears, waits, MadeCall, History, Environment, Tq,
}

-- `set(a) == set(b)`
abbrev pub same_names : List String → List String → Bool
same_names xs ys = all (λ x. any (λ y. str_eq y x) ys) xs && all (λ y. any (λ x. str_eq x y) xs) ys

-- The result of a method, and the worker after it.
abbrev pub Ran : Type 0 → Type 0 → Type 0 → Type 0
Ran D M A = Result TqError A × Tq D M

abbrev pub answer : {A : Type 0} → Option A → Result TqError A
answer none = err call_raised
answer (some a) = ok a

module _ {D M : Type 0} where
  -- An exception ends the method.
  abbrev pub then_run : {A B : Type 0} → Ran D M A → (A → Tq D M → Ran D M B) → Ran D M B
  then_run (err e, t) next = (err e, t)
  then_run (ok a, t) next = next a t

  abbrev pub record_call : Call D M → Bool → Tq D M → Tq D M
  record_call c b t = record t { history = t.history ++ record { call = c; succeeded = b } ∷ [] }

  unfoldable pub make_call : {A : Type 0} → Call D M → Option A → Tq D M → Ran D M A
  make_call c o t = (answer o, record_call c (is_some o) t)

  unfoldable pub count_error : Tq D M → Tq D M
  count_error t = record t { errors = t.errors + 1 }

  module _ (env : Environment D M) where
    -- The last attempt, and the wait before another one, which the stop event cuts short.
    unfoldable pub last_attempt : {A : Type 0} → Ran D M A → Ran D M A
    unfolding count_error
    last_attempt (ok a, t) = (ok a, t)
    last_attempt (err e, t) = (err retries_spent, count_error t)

    unfoldable pub wait_then : {A : Type 0} → Bool → (Tq D M → Ran D M A) → Tq D M → Ran D M A
    wait_then true again t = (err retries_spent, t)
    wait_then false again t = again t

    unfoldable pub attempt : {A : Type 0} → Ran D M A → (Tq D M → Ran D M A) → Ran D M A
    unfolding count_error wait_then
    attempt (ok a, t) again = (ok a, t)
    attempt (err e, t) again =
        wait_then (env.stop_is_set t.history) again (record_call waits true (count_error t))

    -- `_retry_phase`, with the number of attempts that are left after this one.
    unfoldable pub retry_phase : {A : Type 0} → (Tq D M → Ran D M A) → ℕ → Tq D M → Ran D M A
    unfolding last_attempt attempt
    retry_phase fn zero t = last_attempt (fn t)
    retry_phase fn (suc n) t = attempt (fn t) (λ u. retry_phase fn n u)

    unfoldable pub produce : D → Unit {0} → Tq D M → Ran D M (Unit {0})
    produce td u t = (ok tt, record t { produced = t.produced + env.rows td })

    -- The client's `put`, for new rows or for those of the batch.
    unfoldable pub put_output : Bool → Option M → TqOutput → D → Tq D M → Ran D M (Unit {0})
    unfolding make_call produce
    put_output true meta spec td t =
        then_run
          (make_call (puts_new td spec.partition) (env.put t.history (puts_new td spec.partition))
            t)
          (produce td)
    put_output false none spec td t = (err no_metadata, t)
    put_output false (some m) spec td t =
        if env.rows td == env.meta_size m
        then then_run (make_call (puts_rows td m) (env.put t.history (puts_rows td m)) t)
            (produce td)
        else (err batch_mismatch, t)

    unfoldable pub write_output : Option TqOutput → Option M → D → Tq D M → Ran D M (Unit {0})
    unfolding put_output
    write_output none meta td t = (err undeclared_output, t)
    write_output (some spec) meta td t =
        if same_names (env.keys td) spec.fields
        then put_output spec.new_rows meta spec td t
        else (err fields_mismatch, t)

    unfoldable pub write_from :
        List (String × TqOutput) → Option M → List (String × D) → Tq D M → Ran D M (Unit {0})
    unfolding write_output get
    write_from outputs meta [] t = (ok tt, t)
    write_from outputs meta ((name, td) ∷ result) t =
        then_run (write_output (get outputs name) meta td t)
          (λ u s. write_from outputs meta result s)

    abbrev pub all_declared : List (String × TqOutput) → List (String × D) → Bool
    all_declared outputs result = all (λ e. is_some (get outputs e.0)) result

    -- `_write_outputs`: nothing is written where some output is not declared.
    unfoldable pub write_outputs :
        List (String × TqOutput) → Option M → List (String × D) → Tq D M → Ran D M (Unit {0})
    unfolding write_from get
    write_outputs outputs meta result t =
        if all_declared outputs result
        then write_from outputs meta result t
        else (err undeclared_output, t)

    abbrev pub done_with : M → Tq D M → Tq D M
    done_with meta t = record t {
      consumed = t.consumed + env.meta_size meta;
      batches = t.batches + 1;
    }

    -- From the last write on: the batch is cleared, or left to the next consumer.
    unfoldable pub clear_batch : TqConfig → M → Bool → Tq D M → Ran D M Bool
    unfolding retry_phase make_call
    clear_batch c meta false t = (ok true, done_with meta t)
    clear_batch c meta true t =
        then_run
          (retry_phase (λ s. make_call (clears meta) (env.clear_samples s.history meta) s)
            c.tq_max_retries t)
          (λ u s. (ok true, done_with meta s))

    -- The phases of a batch that is not empty.
    unfoldable pub run_batch : TqConfig → TqInput → M → Tq D M → Ran D M Bool
    unfolding clear_batch write_outputs retry_phase make_call
    run_batch c i meta t =
        then_run
          (retry_phase (λ s. make_call (gets_data meta) (env.get_data s.history meta) s)
            c.tq_max_retries t)
          (λ packed s.
            then_run (answer (env.td_to_samples packed i.fields), s)
              (λ samples s.
                then_run
                  (retry_phase
                    (λ s. make_call (processes samples) (env.process_tq_batch s.history samples) s)
                    c.tq_process_retries s)
                  (λ result s.
                    then_run
                      (retry_phase (write_outputs c.tq_outputs (some meta) result) c.tq_max_retries
                        s)
                      (λ u s. clear_batch c meta (env.should_clear_batch s.history) s))))

    unfoldable pub run_found : TqConfig → TqInput → Option M → Tq D M → Ran D M Bool
    unfolding run_batch count_error
    run_found c i none t = (ok false, count_error t)
    run_found c i (some meta) t =
        if env.meta_size meta == 0 then (ok false, t) else run_batch c i meta t

    unfoldable pub run_with : TqConfig → Option TqInput → Tq D M → Ran D M Bool
    unfolding run_found
    run_with c none t = (err no_input, t)
    run_with c (some i) t =
        let found = env.get_meta t.history i in
        run_found c i found (record_call (gets_meta i) (is_some found) t)

    unfoldable pub run_tq_once : TqConfig → Tq D M → Ran D M Bool
    unfolding run_with
    run_tq_once c t = run_with c c.tq_input t

    -- `write_tq_output`, of a worker without a batch.
    unfoldable pub write_tq_output : TqConfig → String → D → Tq D M → Ran D M (Unit {0})
    unfolding retry_phase write_outputs get
    write_tq_output c name td t =
        if is_some (get c.tq_outputs name)
        then then_run
            (retry_phase (write_outputs c.tq_outputs none ((name, td) ∷ [])) c.tq_max_retries t)
            (λ u s. (ok tt, record s { batches = s.batches + 1 }))
        else (err undeclared_output, t)

    unfoldable pub read_control : TqInput → M → Tq D M → Ran D M (Option D)
    unfolding make_call
    read_control spec meta t =
        if env.meta_size meta == 0
        then (ok none, t)
        else then_run (make_call (gets_data meta) (env.get_data t.history meta) t) (λ td s.
          if spec.clear_after_success
          then then_run (make_call (clears meta) (env.clear_samples s.history meta) s)
              (λ u s. (ok (some td), s))
          else (ok (some td), s))

    unfoldable pub read_tq_control : TqConfig → String → Tq D M → Ran D M (Option D)
    unfolding read_control make_call get
    read_tq_control c name t = elim (get c.tq_controls name) [
      | none ↦ (err undeclared_control, t)
      | some spec ↦
          then_run (make_call (gets_meta spec) (env.get_meta t.history spec) t) (read_control spec)
    ]
