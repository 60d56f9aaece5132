-- ===== src/Planner/Build/Cover.antt =====
-- A plan trains on every sample exactly once.
use native.Mathlib.Nat.{div-add-mod', lt-div-mul-add}
use mathlib.Core.Path.{fun_ext}
use meshy.Prelude.{
  ℕ, zero, suc, ◌+◌, ◌-◌, ◌/◌, ◌%◌, ◌<◌, ◌≡◌, ◌↔◌, refl, sym, ap, ◌∙◌, List, [], ◌∷◌, ◌++◌, map,
  flatten, Perm, range, length, length-map, get_or, replicate, All, ok, AllBoth, AllBoth-map,
  map-get_or-range, map-map, arith, subst,
}
use meshy.Planner.Types.{PlannerConfig, MicroPlan, MiniPlan, Plan, filler_micro}
use meshy.Planner.Types.Checks.{IsUsable}
use meshy.Planner.Pack.Cover.{rows_of}
use meshy.Planner.Build.{
  Share, truncate, deal_ranks, mini_count, share_of, micro_count, mini_of, plan_of, build_plan,
}
use meshy.Planner.Build.Shares.{
  deal_ranks-perm, length-deal_ranks, deal_ranks_even, length-packs, packs-perm,
}

-- The batches that a plan is made of.
pub record IsPlannable (lengths loss_tokens : List ℕ) (dp_size : ℕ) : Type 0 where
  pub some_sample : 0 < length lengths
  pub sizes : length loss_tokens ≡ length lengths
  pub some_rank : 0 < dp_size
  pub divisible : length lengths % dp_size ≡ 0

-- `build_plan` returns a plan exactly for the batches with a sample, one token count for each
-- sample, and a positive number of ranks that divides the samples.
pub build_plan_returns :
    (lengths loss_tokens : List ℕ) (dp_size : ℕ) (cfg : PlannerConfig)
    → ((plan : Plan) × (build_plan lengths loss_tokens dp_size cfg ≡ ok plan))
      ↔ IsPlannable lengths loss_tokens dp_size
unfolding build_plan
build_plan_returns lengths loss_tokens dp_size cfg =
    (λ h. let e = h.1 in ground arith, λ h. (plan_of cfg lengths loss_tokens dp_size, ground arith))

pub build_plan-eq-plan_of :
    (lengths loss_tokens : List ℕ) (dp_size : ℕ) (cfg : PlannerConfig) (plan : Plan)
    → build_plan lengths loss_tokens dp_size cfg ≡ ok plan
    → plan ≡ plan_of cfg lengths loss_tokens dp_size
unfolding build_plan
build_plan-eq-plan_of lengths loss_tokens dp_size cfg plan h = ground arith

-- The rows of all the micro-batches of one rank.
abbrev pub rank_rows : List MiniPlan → List ℕ
rank_rows minis = flatten (map (λ (m : MiniPlan). rows_of m.micros) minis)

rows_of-fillers :
    (cfg : PlannerConfig) (micros : List MicroPlan) (k : ℕ)
    → rows_of (micros ++ replicate k (filler_micro cfg)) ≡ rows_of micros
unfolding filler_micro flatten
rows_of-fillers cfg [] zero = refl
rows_of-fillers cfg [] (suc k) = rows_of-fillers cfg [] k
rows_of-fillers cfg (m ∷ micros) k = ap (◌++◌ m.sample_idx) (rows_of-fillers cfg micros k)

module _ (cfg : PlannerConfig) (trunc loss_tokens : List ℕ) (shares : List Share) where
  rank_rows-packs :
      (s : Share)
      → rank_rows (map (mini_of cfg trunc loss_tokens shares s) (range (length s.packs)))
        ≡ flatten (map rows_of s.packs)
  unfolding mini_of
  rank_rows-packs s =
      let k = range (length s.packs) in
      let minis = mini_of cfg trunc loss_tokens shares s in
      ap flatten (
        map-map (λ (m : MiniPlan). rows_of m.micros) minis k
        ∙ ap (λ f. map f k)
            (fun_ext λ i.
              rows_of-fillers cfg (get_or s.packs i [])
                (micro_count shares i - length (get_or s.packs i [])))
        ∙ sym (map-map rows_of (λ i. get_or s.packs i []) k)
        ∙ ap (map rows_of) (map-get_or-range [] s.packs))

mini_count_pos : (cfg : PlannerConfig) (n : ℕ) → IsUsable cfg → 0 < n → 0 < mini_count cfg n
unfolding mini_count
mini_count_pos cfg n usable h =
    let below = lt-div-mul-add {a = n + cfg.mini_batch_size - 1} usable.mini_positive in
    grind (arith, below, usable.mini_positive)

share_pos : (n dp : ℕ) → 0 < n → 0 < dp → n % dp ≡ 0 → 0 < n / dp
share_pos n dp h pos e = grind (arith, div-add-mod' n dp)

module _ (cfg : PlannerConfig) (lengths loss_tokens : List ℕ) (dp_size : ℕ) (usable : IsUsable cfg)
    (fits : IsPlannable lengths loss_tokens dp_size) where
  abbrev pub trunc : List ℕ
  trunc = truncate cfg lengths

  abbrev pub n_local : ℕ
  n_local = length lengths / dp_size

  abbrev pub ranks : List (List ℕ)
  ranks = deal_ranks trunc dp_size

  pub length-trunc : length trunc ≡ length lengths
  unfolding truncate
  length-trunc = length-map _ lengths

  pub some_mini : 0 < mini_count cfg n_local
  some_mini =
      mini_count_pos cfg n_local usable
        (share_pos (length lengths) dp_size fits.some_sample fits.some_rank fits.divisible)

  pub ranks_even : All (λ owned. length owned ≡ n_local) ranks
  ranks_even =
      subst (λ n. All (λ owned. length owned ≡ n / dp_size) ranks) length-trunc
        (deal_ranks_even trunc dp_size (rw length-trunc fits.divisible))

  rank_rows-perm :
      (shares : List Share) (owned : List ℕ)
      → length owned ≡ n_local
      → Perm
          (rank_rows (
            map
              (mini_of cfg trunc loss_tokens shares (share_of cfg trunc n_local owned))
              (range (mini_count cfg n_local))))
          (range (length owned))
  rank_rows-perm shares owned e =
      rw
        (
          e,
          ← length-packs cfg trunc n_local owned,
          rank_rows-packs cfg trunc loss_tokens shares (share_of cfg trunc n_local owned),
        )
        (packs-perm cfg trunc n_local owned some_mini)

-- A plan for `n` samples on `dp_size` ranks, under a usable configuration: it has one list of
-- samples for each rank; together they are the samples of the batch, each once; each has the same
-- length; and the micro-batches of each rank train on each of its samples once.
pub build_plan-covers :
    (lengths loss_tokens : List ℕ) (dp_size : ℕ) (cfg : PlannerConfig) (plan : Plan)
    → IsUsable cfg
    → build_plan lengths loss_tokens dp_size cfg ≡ ok plan
    → (length plan.local_indices ≡ dp_size)
      × Perm (flatten plan.local_indices) (range (length lengths))
      × All (λ owned. length owned ≡ length lengths / dp_size) plan.local_indices
      × AllBoth
          (λ owned minis. Perm (rank_rows minis) (range (length owned)))
          plan.local_indices
          plan.per_rank
build_plan-covers lengths loss_tokens dp_size cfg plan usable h =
    let fits = (build_plan_returns lengths loss_tokens dp_size cfg).0 (plan, h) in
    let owned = ranks_even cfg lengths loss_tokens dp_size usable fits in
    let len = length-trunc cfg lengths loss_tokens dp_size usable fits in
    let trunc = truncate cfg lengths in
    let n_local = length lengths / dp_size in
    let ranks = deal_ranks trunc dp_size in
    let shares = map (share_of cfg trunc n_local) ranks in
    rw (build_plan-eq-plan_of lengths loss_tokens dp_size cfg plan h) (
      unfold plan_of in
      (
        length-deal_ranks trunc dp_size,
        subst (λ n. Perm (flatten ranks) (range n)) len
            (deal_ranks-perm trunc dp_size fits.some_rank),
        owned,
        rw map-map (
            AllBoth-map _ (λ r. length r ≡ n_local) _ ranks
              (rank_rows-perm cfg lengths loss_tokens dp_size usable fits shares) owned),
      ))
