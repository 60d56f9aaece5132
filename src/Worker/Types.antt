-- ===== src/Worker/Types.antt =====
-- `TQInput` and `TQOutput` of meshy/worker/tq.py with their checks, and what a worker works with. The
-- TransferQueue client, the adapter, the worker's own `process_tq_batch` and `should_clear_batch` and
-- the event that stops it are the fields of `Environment`: each answers by the calls made so far, with
-- none where it raises. `D` are the tables that are read and written, and `M` the metadata of a batch.
use meshy.Prelude.{
  ℕ, String, Bool, true, false, not, ◌&&◌, ◌||◌, Option, none, some, List, [], ◌∷◌, any, ◌==◌,
  str_eq, Result, ok, raise_if, ◌>>◌,
}
use meshy.Colocation.Ring.{has_duplicates}

pub record TqInput : Type 0 where
  pub partition : String
  pub fields : List String
  pub batch_size : ℕ
  pub consumer : String
  pub clear_after_success : Bool

pub record TqOutput : Type 0 where
  pub fields : List String
  pub new_rows : Bool
  pub partition : Option String

pub data TqError : Type 0 where
  empty_partition bad_fields duplicate_fields batch_not_positive empty_consumer : TqError
  no_partition needless_partition empty_endpoints empty_name : TqError
  no_input undeclared_output fields_mismatch no_metadata batch_mismatch : TqError
  undeclared_control call_raised retries_spent : TqError

abbrev pub no_names : List String → Bool
no_names [] = true
no_names (s ∷ names) = false

abbrev pub has_empty : List String → Bool
has_empty names = any (λ s. str_eq s "") names

-- `TQInput.__post_init__`
unfoldable pub check_input : TqInput → Result TqError (Unit {0})
check_input i = do
  raise_if (str_eq i.partition "") empty_partition
  raise_if (no_names i.fields || has_empty i.fields) bad_fields
  raise_if (has_duplicates i.fields) duplicate_fields
  raise_if (i.batch_size == 0) batch_not_positive
  raise_if (str_eq i.consumer "") empty_consumer
  ok tt

-- `not self.partition`
abbrev pub lacks : Option String → Bool
lacks none = true
lacks (some p) = str_eq p ""

abbrev pub is_given : Option String → Bool
is_given none = false
is_given (some p) = true

-- `TQOutput.__post_init__`
unfoldable pub check_output : TqOutput → Result TqError (Unit {0})
check_output o = do
  raise_if (no_names o.fields || has_empty o.fields) bad_fields
  raise_if (has_duplicates o.fields) duplicate_fields
  raise_if (o.new_rows && lacks o.partition) no_partition
  raise_if (not o.new_rows && is_given o.partition) needless_partition
  ok tt

-- What `configure_tq` keeps, less what the client is made from.
pub record TqConfig : Type 0 where
  pub tq_input : Option TqInput
  pub tq_controls : List (String × TqInput)
  pub tq_outputs : List (String × TqOutput)
  pub tq_max_retries : ℕ
  pub tq_process_retries : ℕ

-- The checks of `configure_tq`; a negative number of retries cannot be written down.
unfoldable pub configure_tq : String → TqConfig → Result TqError TqConfig
configure_tq endpoints_ref c = do
  raise_if (str_eq endpoints_ref "") empty_endpoints
  raise_if (any (λ e. str_eq e.0 "") c.tq_controls || any (λ e. str_eq e.0 "") c.tq_outputs)
      empty_name
  ok c

-- The calls that leave the worker.
pub data Call (D M : Type 0) : Type 0 where
  gets_meta : TqInput → Call D M
  gets_data : M → Call D M
  processes : D → Call D M
  puts_new : D → Option String → Call D M
  puts_rows : D → M → Call D M
  clears : M → Call D M
  waits : Call D M

pub record MadeCall (D M : Type 0) : Type 0 where
  pub call : Call D M
  pub succeeded : Bool

abbrev pub History : Type 0 → Type 0 → Type 0
History D M = List (MadeCall D M)

pub record Environment (D M : Type 0) : Type 0 where
  pub meta_size : M → ℕ
  pub keys : D → List String
  pub rows : D → ℕ
  pub get_meta : History D M → TqInput → Option M
  pub get_data : History D M → M → Option D
  pub td_to_samples : D → List String → Option D
  pub process_tq_batch : History D M → D → Option (List (String × D))
  pub put : History D M → Call D M → Option (Unit {0})
  pub clear_samples : History D M → M → Option (Unit {0})
  pub should_clear_batch : History D M → Bool
  pub stop_is_set : History D M → Bool

-- The counters of `_tq_stats`, less the seconds, with the calls so far.
pub record Tq (D M : Type 0) : Type 0 where
  pub history : History D M
  pub consumed : ℕ
  pub produced : ℕ
  pub batches : ℕ
  pub errors : ℕ
