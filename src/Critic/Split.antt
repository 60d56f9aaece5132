-- ===== src/Critic/Split.antt =====
-- `split_by_prompt` of meshy/backend/titan/critic/data.py. torch.randperm is a parameter, as is the
-- rounding of `val_frac`, which gives a number of groups.
pub mod Totals
pub mod Paths
pub mod Counts
pub mod Exact
use meshy.Prelude.{
  ℕ, zero, suc, ◌+◌, Bool, true, false, not, ◌&&◌, ◌||◌, Option, none, some, List, [], ◌∷◌, ◌++◌,
  map, any, length, take, get_or, select, leb, ◌==◌, if◌then◌else◌, Result, ok, err, raise_if,
  ◌>>=◌, ◌>>◌,
}
use meshy.Prelude.Sort.{sort_by}
use meshy.Critic.Data.{
  TrajectorySample, DataError, not_one_size, size_out_of_range, no_such_split, missing_total,
}

abbrev pub has : ℕ → List ℕ → Bool
has n l = any (λ m. m == n) l

-- A set, as a list without duplicates.
unfoldable pub distinct : List ℕ → List ℕ
distinct [] = []
distinct (n ∷ l) = let rest = distinct l in if has n rest then rest else n ∷ rest

-- `parents`: a total with the one before it and the group that leads to it; 0 has none.
abbrev pub Parents : Type 0
Parents = List (ℕ × Option (ℕ × ℕ))

unfoldable pub parent_of : Parents → ℕ → Option (Option (ℕ × ℕ))
parent_of [] n = none
parent_of ((m, p) ∷ l) n = if m == n then some p else parent_of l n

abbrev pub totals : Parents → List ℕ
totals parents = map (λ e. e.0) parents

abbrev pub geb : ℕ → ℕ → Bool
geb a b = leb b a

-- The body of the inner loop, and the loop, over the totals that were there before it.
unfoldable pub reach : ℕ → ℕ → ℕ → Parents → ℕ → Parents
reach val_size size group parents total =
    if leb (total + size) val_size && not (has (total + size) (totals parents))
    then parents ++ (total + size, some (total, group)) ∷ []
    else parents

unfoldable pub reach_all : ℕ → ℕ → ℕ → Parents → List ℕ → Parents
unfolding reach
reach_all val_size size group parents [] = parents
reach_all val_size size group parents (total ∷ snapshot) =
    reach_all val_size size group (reach val_size size group parents total) snapshot

unfoldable pub add_group : ℕ → ℕ → ℕ → Parents → Parents
unfolding reach_all sort_by
add_group val_size size group parents =
    reach_all val_size size group parents (sort_by geb (totals parents))

-- The loop over the groups, which stops once the size is reached.
unfoldable pub add_groups : ℕ → (ℕ → ℕ) → Parents → List ℕ → Parents
unfolding add_group
add_groups val_size size_of parents [] = parents
add_groups val_size size_of parents (g ∷ groups) =
    let next = add_group val_size (size_of g) g parents in
    let rest = add_groups val_size size_of next groups in
    if has val_size (totals next) then next else rest

-- `while total`, with the number of rounds that are left; none where a total has no parent.
unfoldable pub walk_back : Parents → ℕ → ℕ → Option (List ℕ)
unfolding parent_of
walk_back parents zero total = if total == 0 then some [] else none
walk_back parents (suc rounds) total =
    if total == 0 then some [] else elim (parent_of parents total) [
      | none ↦ none
      | some p ↦ elim p [
        | none ↦ none
        | some (before, group) ↦ elim (walk_back parents rounds before) [
          | none ↦ none
          | some groups ↦ some (group ∷ groups)
        ]
      ]
    ]

module _ {R : Type 0} where
  abbrev pub ids : List (TrajectorySample R) → List ℕ
  ids samples = map (λ (s : TrajectorySample R). s.group_id) samples

  -- `group_sizes[group_id]`
  abbrev pub size_in : List (TrajectorySample R) → ℕ → ℕ
  size_in samples g = length (select (λ (s : TrajectorySample R). s.group_id == g) samples)

  abbrev pub in_groups : List ℕ → TrajectorySample R → Bool
  in_groups groups s = has s.group_id groups

  unfoldable pub divide :
      List (TrajectorySample R) → List ℕ → List (TrajectorySample R) × List (TrajectorySample R)
  divide samples val_groups =
      (select (λ s. not (in_groups val_groups s)) samples, select (in_groups val_groups) samples)

module _ {R : Type 0} (randperm : ℕ → List ℕ) where
  -- `[groups[i] for i in perm]`
  unfoldable pub shuffled : List (TrajectorySample R) → List ℕ
  unfolding sort_by distinct
  shuffled samples =
      let groups = sort_by leb (distinct (ids samples)) in
      map (λ i. get_or groups i 0) (randperm (length groups))

  -- `val_groups` for `val_size`.
  unfoldable pub groups_of_size : List (TrajectorySample R) → ℕ → Result DataError (List ℕ)
  unfolding shuffled add_groups walk_back
  groups_of_size samples val_size =
      let parents = add_groups val_size (size_in samples) ((0, none) ∷ []) (shuffled samples) in
      if not (has val_size (totals parents))
      then err no_such_split
      else elim (walk_back parents val_size val_size) [
        | none ↦ err missing_total
        | some groups ↦ ok groups
      ]

  -- With `val_frac`, as the number of groups that it makes of theirs, or with `val_size`.
  unfoldable pub split_by_prompt :
      List (TrajectorySample R)
      → Option (ℕ → ℕ)
      → Option ℕ
      → Result DataError (List (TrajectorySample R) × List (TrajectorySample R))
  unfolding divide groups_of_size shuffled
  split_by_prompt samples (some frac) none =
      ok (divide samples (take (frac (length (shuffled samples))) (shuffled samples)))
  split_by_prompt samples none (some val_size) = do
    raise_if (leb (length samples) val_size) size_out_of_range
    val_groups ← groups_of_size samples val_size
    ok (divide samples val_groups)
  split_by_prompt samples (some frac) (some val_size) = err not_one_size
  split_by_prompt samples none none = err not_one_size
