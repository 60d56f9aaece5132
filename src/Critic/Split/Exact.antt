-- ===== src/Critic/Split/Exact.antt =====
-- `split_by_prompt` finds a division of exactly the size that is asked for, if there is one.
use meshy.Prelude.{
  ℕ, ◌<◌, ◌≡◌, ◌≢◌, refl, sym, ap, ◌∙◌, Bool, true, false, none, some, List, [], ◌∷◌, map, length,
  select, get_or, range, leb, ◌==◌, arith, ◌⊎◌, inl, inr, Bool-cases, All, All-map, sum, Perm, ok,
  err, map-get_or-range, map-map,
}
use meshy.Prelude.Bags.{sum_over, sum_over-perm}
use meshy.Prelude.Sort.{sort_by, sort_by-perm}
use meshy.Critic.Data.{TrajectorySample, no_such_split}
use meshy.Critic.Split.{
  has, distinct, Parents, totals, add_groups, ids, size_in, shuffled, in_groups, divide,
  groups_of_size, split_by_prompt,
}
use meshy.Critic.Split.Totals.{add_groups_complete}
use meshy.Critic.Split.Paths.{nodup, IsSound, All-has, Leads-walk_back, add_groups-IsSound}
use meshy.Critic.Split.Counts.{
  one_if, count, has-count, nodup_of_count, one_if_le, count-distinct, has-select, nodup-select,
  size_in_positive, has-ids, length-select-groups, select-same,
}

sum_over-map : (f h : ℕ → ℕ) (l : List ℕ) → sum_over f (map h l) ≡ sum_over (λ i. f (h i)) l
sum_over-map f h l = ap sum (map-map f h l)

module _ {R : Type 0} (randperm : ℕ → List ℕ) (perm : (n : ℕ) → Perm (randperm n) (range n))
    (samples : List (TrajectorySample R)) where
  -- The shuffled groups are the ids of the samples, each once.
  count-shuffled : (x : ℕ) → count x (shuffled randperm samples) ≡ count x (distinct (ids samples))
  unfolding shuffled
  count-shuffled x =
      let groups = sort_by leb (distinct (ids samples)) in
      let f : ℕ → ℕ = λ y. one_if (y == x) in
      let h : ℕ → ℕ = λ i. get_or groups i 0 in
      sum_over-map f h (randperm (length groups))
      ∙ sum_over-perm (λ i. f (h i)) (randperm (length groups)) (range (length groups))
          (perm (length groups))
      ∙ sym (sum_over-map f h (range (length groups)))
      ∙ ap (sum_over f) (map-get_or-range 0 groups)
      ∙ sum_over-perm f groups (distinct (ids samples)) (sort_by-perm leb (distinct (ids samples)))

  has-shuffled : (x : ℕ) → has x (shuffled randperm samples) ≡ has x (ids samples)
  has-shuffled x = elim (Bool-cases (has x (ids samples))) [
    | inl e ↦ ground (
      arith,
      has-count x (shuffled randperm samples),
      count-shuffled x,
      count-distinct x (ids samples) ∙ ap one_if e,
      e,
    )
    | inr e ↦ ground (
      arith,
      has-count x (shuffled randperm samples),
      count-shuffled x,
      count-distinct x (ids samples) ∙ ap one_if e,
      e,
    )
  ]

  shuffled-nodup : nodup (shuffled randperm samples) ≡ true
  shuffled-nodup = nodup_of_count (shuffled randperm samples) (λ x.
      omega
        (arith, count-shuffled x, count-distinct x (ids samples), one_if_le (has x (ids samples))))

  shuffled-positive : All (λ g. 0 < size_in samples g) (shuffled randperm samples)
  shuffled-positive =
      All-has _ (shuffled randperm samples)
        (λ g h. size_in_positive samples g (sym (has-shuffled g) ∙ h))

  -- Any choice of groups is one of shuffled groups.
  length-select-keep :
      (keep : ℕ → Bool)
      → length (select (λ (s : TrajectorySample R). keep s.group_id) samples)
        ≡ sum (map (size_in samples) (select keep (shuffled randperm samples)))
  length-select-keep keep =
      let groups = select keep (shuffled randperm samples) in
      ap length (
        select-same (λ (s : TrajectorySample R). keep s.group_id) (in_groups groups) samples
          (All-map (λ (s : TrajectorySample R). has s.group_id (ids samples) ≡ true) _ samples
            (λ s h. ground (
              arith,
              h,
              has-shuffled s.group_id,
              has-select keep s.group_id (shuffled randperm samples),
            ))
            (has-ids samples)))
      ∙ length-select-groups groups samples
          (nodup-select keep (shuffled randperm samples) shuffled-nodup)

  abbrev parents_for : ℕ → Parents
  parents_for v = add_groups v (size_in samples) ((0, none) ∷ []) (shuffled randperm samples)

  start-IsSound : IsSound (size_in samples) ((0, none) ∷ []) []
  start-IsSound t h = record {
    groups = [];
    leads = ground (arith, h);
    sums = ground (arith, h);
    short = ground arith;
    once = refl;
    within = λ x e. e;
  }

  found :
      (v : ℕ)
      → has v (totals (parents_for v)) ≡ true
      → (groups : List ℕ) × (groups_of_size randperm samples v ≡ ok groups)
        × (length (select (in_groups groups) samples) ≡ v)
  unfolding groups_of_size
  found v h =
      let s =
        add_groups-IsSound (size_in samples) v ((0, none) ∷ []) [] (shuffled randperm samples)
          shuffled-positive shuffled-nodup (λ x e. refl) start-IsSound in
      let k = s.1 v h in
      (
        k.groups,
        rw (h, Leads-walk_back (parents_for v) v v k.groups k.leads k.short) refl,
        length-select-groups k.groups samples k.once ∙ k.sums,
      )

  not_found :
      (v : ℕ)
      → has v (totals (parents_for v)) ≡ false
      → (groups_of_size randperm samples v ≡ err no_such_split)
        × ((keep : ℕ → Bool)
            → length (select (λ (s : TrajectorySample R). keep s.group_id) samples) ≢ v)
  unfolding groups_of_size
  not_found v h = (
    rw h refl,
    λ keep e.
        let c =
          add_groups_complete v (size_in samples) keep ((0, none) ∷ []) (shuffled randperm samples)
            0 refl (omega (arith, length-select-keep keep, e)) in
        ground (arith, c, h),
  )

-- Where the shuffle is a permutation and fewer rows are asked for than there are, `split_by_prompt` by
-- size either returns a division by whole groups whose second part has exactly so many rows, or it
-- raises, and then no choice of groups has exactly so many rows.
pub split_by_prompt-is_exact :
    {R : Type 0} (randperm : ℕ → List ℕ) (perm : (n : ℕ) → Perm (randperm n) (range n))
    (samples : List (TrajectorySample R)) (v : ℕ)
    → v < length samples
    → ((groups : List ℕ) × (split_by_prompt randperm samples none (some v)
          ≡ ok (divide samples groups))
        × (length (divide samples groups).1 ≡ v))
      ⊎ ((split_by_prompt randperm samples none (some v) ≡ err no_such_split)
          × ((keep : ℕ → Bool)
              → length (select (λ (s : TrajectorySample R). keep s.group_id) samples) ≢ v))
unfolding split_by_prompt divide
split_by_prompt-is_exact randperm perm samples v h =
    let small : leb (length samples) v ≡ false = ground (arith, h) in
    elim (Bool-cases (has v (totals (parents_for randperm perm samples v)))) [
      | inl e ↦ let f = found randperm perm samples v e in inl (f.0, rw (small, f.1) refl, f.2)
      | inr e ↦ let f = not_found randperm perm samples v e in inr (rw (small, f.0) refl, f.1)
    ]
