-- ===== src/Critic/Data.antt =====
-- `TrajectorySample`, and how rows are grouped by their prompt, of meshy/backend/titan/critic/data.py.
-- A mask is a truth value for each token. A group id is one more than in the code, whose ids start at -1.
-- Rewards are of any type.
pub mod Groups
use meshy.Prelude.{
  ℕ, zero, suc, Bool, true, false, not, ◌&&◌, Option, none, some, List, [], ◌∷◌, ◌++◌, map, any,
  length, take, ltb, ◌==◌, if◌then◌else◌, Result, ok, err, raise_if, ◌>>=◌, ◌>>◌,
}

pub record TrajectorySample (R : Type 0) : Type 0 where
  pub tokens : List ℕ
  pub masks : List Bool
  pub reward : R
  pub prompt_key : List ℕ
  pub group_id : ℕ

-- A row of a rollout, or a record of its log.
pub record Row (R : Type 0) : Type 0 where
  pub tokens : List ℕ
  pub masks : List Bool
  pub reward : R
  pub truncated : Bool

pub data DataError : Type 0 where
  lengths_differ no_records all_dropped : DataError
  not_one_size size_out_of_range no_such_split missing_total : DataError

-- The index of the first token of the assistant.
unfoldable pub first_masked : List Bool → Option ℕ
first_masked [] = none
first_masked (m ∷ masks) =
    let rest = first_masked masks in
    if m then some 0 else elim rest [ none ↦ none | some i ↦ some (suc i) ]

-- `_prompt_key`
unfoldable pub prompt_key_of : List ℕ → List Bool → List ℕ
unfolding first_masked
prompt_key_of tokens masks = elim (first_masked masks) [
  | none ↦ tokens
  | some cut ↦ take cut tokens
]

abbrev pub key_eq : List ℕ → List ℕ → Bool
key_eq [] [] = true
key_eq [] (y ∷ ys) = false
key_eq (x ∷ xs) [] = false
key_eq (x ∷ xs) (y ∷ ys) = x == y && key_eq xs ys

-- A dictionary from prompts to ids, in the order in which they were first seen.
abbrev pub Order : Type 0
Order = List (List ℕ × ℕ)

unfoldable pub id_in : Order → List ℕ → Option ℕ
id_in [] key = none
id_in ((k, n) ∷ order) key = if key_eq k key then some n else id_in order key

abbrev pub is_known : Option ℕ → Bool
is_known none = false
is_known (some n) = true

-- `order.setdefault(s.prompt_key, len(order))`
unfoldable pub see : Order → List ℕ → Order
unfolding id_in
see order key = if is_known (id_in order key) then order else order ++ (key, length order) ∷ []

abbrev pub shifted : Option ℕ → ℕ
shifted none = 0
shifted (some n) = suc n

module _ {R : Type 0} where
  unfoldable pub sample_of : Row R → TrajectorySample R
  unfolding prompt_key_of
  sample_of row = record {
    tokens = row.tokens;
    masks = row.masks;
    reward = row.reward;
    prompt_key = prompt_key_of row.tokens row.masks;
    group_id = 0;
  }

  unfoldable pub sample_from_row : Row R → Result DataError (TrajectorySample R)
  unfolding sample_of
  sample_from_row row = do
    raise_if (not (length row.tokens == length row.masks)) lengths_differ
    ok (sample_of row)

  unfoldable pub samples_of : List (Row R) → Result DataError (List (TrajectorySample R))
  unfolding sample_from_row
  samples_of [] = ok []
  samples_of (row ∷ rows) =
      sample_from_row row >>= λ s. samples_of rows >>= λ samples. ok (s ∷ samples)

  unfoldable pub order_of : Order → List (TrajectorySample R) → Order
  unfolding see
  order_of order [] = order
  order_of order (s ∷ samples) = order_of (see order s.prompt_key) samples

  unfoldable pub with_group : Order → TrajectorySample R → TrajectorySample R
  unfolding id_in
  with_group order s = record s { group_id = shifted (id_in order s.prompt_key) }

  unfoldable pub grouped : List (TrajectorySample R) → List (TrajectorySample R)
  unfolding order_of with_group
  grouped samples = map (with_group (order_of [] samples)) samples

  unfoldable pub samples_from_rows : List (Row R) → Result DataError (List (TrajectorySample R))
  unfolding samples_of grouped
  samples_from_rows rows = samples_of rows >>= λ samples. ok (grouped samples)

  -- The loop of `load_samples` over the records that were read.
  unfoldable pub keep_records :
      ℕ → Bool → List (Row R) → Result DataError (List (TrajectorySample R))
  unfolding sample_of
  keep_records max_seq_len drop_truncated [] = ok []
  keep_records max_seq_len drop_truncated (row ∷ rows) =
      raise_if (not (length row.tokens == length row.masks)) lengths_differ
      >> (keep_records max_seq_len drop_truncated rows >>= λ samples. ok (
          if ltb max_seq_len (length row.tokens)
          then samples
          else if drop_truncated && row.truncated
          then samples
          else if any (λ m. m) row.masks
          then sample_of row ∷ samples
          else samples))

  abbrev pub no_samples : List (TrajectorySample R) → Bool
  no_samples [] = true
  no_samples (s ∷ samples) = false

  abbrev pub no_rows : List (Row R) → Bool
  no_rows [] = true
  no_rows (r ∷ rows) = false

  -- `load_samples`, on the records of the log that it reads, at most `limit` of them.
  unfoldable pub load_samples :
      ℕ → Bool → List (Row R) → Result DataError (List (TrajectorySample R))
  unfolding keep_records grouped
  load_samples max_seq_len drop_truncated rows = do
    raise_if (no_rows rows) no_records
    samples ← keep_records max_seq_len drop_truncated rows
    raise_if (no_samples samples) all_dropped
    ok (grouped samples)
