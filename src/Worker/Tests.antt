-- ===== src/Worker/Tests.antt =====
-- A critic that adds a column to each batch of two rows; its first read and its first write fail.
use meshy.Prelude.{
  ℕ, ◌≡◌, ◌≤◌, ◌↔◌, refl, String, true, false, Option, none, some, List, [], ◌∷◌, ◌⊎◌, ◌==◌,
  if◌then◌else◌, length, ok,
}
use meshy.Worker.Types.{TqInput, TqOutput, TqConfig, Environment, Tq}
use meshy.Worker.Batch.{Ran, retry_phase, make_call, write_outputs, run_tq_once}
use meshy.Worker.Types.{gets_data}
use meshy.Worker.Batch.Retry.{SucceedsAt, retry_phase_iff}
use meshy.Worker.Batch.Trace.{Adds}
use meshy.Worker.Batch.Writing.{WritesAll, write_outputs-WritesAll}
use meshy.Worker.Batch.Phases.{Keeps, Cleared}
use meshy.Worker.Batch.Clearing.{run_tq_once-clears_after}

-- A table of columns and rows; the metadata of a batch is its size.
record Table : Type 0 where
  columns : List String
  n_rows : ℕ

abbrev scored : Table
scored = record { columns = "values" ∷ []; n_rows = 2 }

abbrev read_table : Table
read_table = record { columns = "prompt" ∷ []; n_rows = 2 }

abbrev outcome : List (String × Table)
outcome = ("scores", scored) ∷ []

abbrev world : Environment Table ℕ
world = record {
  meta_size = λ m. m;
  keys = λ d. d.columns;
  rows = λ d. d.n_rows;
  get_meta = λ h i. some 2;
  get_data = λ h m. if length h == 1 then none else some read_table;
  td_to_samples = λ d fields. some d;
  process_tq_batch = λ h d. some outcome;
  put = λ h d. if length h == 5 then none else some tt;
  clear_samples = λ h m. some tt;
  should_clear_batch = λ h. true;
  stop_is_set = λ h. false;
}

abbrev input : TqInput
input = record {
  partition = "train";
  fields = "prompt" ∷ [];
  batch_size = 2;
  consumer = "critic";
  clear_after_success = true;
}

abbrev no_partition : Option String
no_partition = none

abbrev scores : TqOutput
scores = record { fields = "values" ∷ []; new_rows = false; partition = no_partition }

abbrev config : TqConfig
config = record {
  tq_input = some input;
  tq_controls = [];
  tq_outputs = ("scores", scores) ∷ [];
  tq_max_retries = 3;
  tq_process_retries = 0;
}

abbrev idle : Tq Table ℕ
idle = record { history = []; consumed = 0; produced = 0; batches = 0; errors = 0 }

abbrev had_one : Tq Table ℕ
had_one = (run_tq_once world config idle).1

batch_is_counted :
    (had_one.consumed ≡ 2)
    × (had_one.produced ≡ 2)
    × (had_one.batches ≡ 1)
    × (had_one.errors ≡ 2)
    × (length had_one.history ≡ 9)
unfolding run_tq_once
batch_is_counted = (refl, refl, refl, refl, refl)

run_tq_once-clears_after_example :
    Adds Keeps idle (run_tq_once world config idle).1
    ⊎ Cleared world config idle (run_tq_once world config idle).1.history
run_tq_once-clears_after_example = run_tq_once-clears_after world config idle

abbrev written : Ran Table ℕ (Unit {0})
written = write_outputs world config.tq_outputs (some 2) outcome idle

write_outputs-WritesAll_example : WritesAll world config.tq_outputs (some 2) outcome idle written.1
unfolding write_outputs
write_outputs-WritesAll_example =
    write_outputs-WritesAll world config.tq_outputs (some 2) outcome idle written.1 refl

abbrev read : Tq Table ℕ → Ran Table ℕ Table
read t = make_call (gets_data 2) (world.get_data t.history 2) t

-- The read that fails once.
abbrev before_read : Tq Table ℕ
before_read = record idle { history = record { call = gets_data 2; succeeded = false } ∷ [] }

abbrev after_read : Tq Table ℕ
after_read = (retry_phase world read 3 before_read).1

retry_phase_iff_example :
    (retry_phase world read 3 before_read ≡ (ok read_table, after_read))
    ↔ ((k : ℕ) × (k ≤ 3) × SucceedsAt world read k before_read read_table after_read)
retry_phase_iff_example = retry_phase_iff world read 3 before_read read_table after_read

reads_at_second_attempt : retry_phase world read 3 before_read ≡ (ok read_table, after_read)
unfolding retry_phase make_call
reads_at_second_attempt = refl
