-- ===== src/Planner/Build/Limits.antt =====
-- Every micro-batch of a plan keeps the limits of the configuration, or is a filler.
use meshy.Prelude.{
  ℕ, ◌/◌, ◌≡◌, refl, sym, subst, ◌⊎◌, inl, inr, List, [], map, range, length, get_or, All,
  All-of_each, All-map, All-append, All-replicate, All-of_map, get_or-All_default, AllBoth,
  AllBoth-map, map-map, ok,
}
use meshy.Planner.Types.{PlannerConfig, MicroPlan, MiniPlan, Plan, filler_micro}
use meshy.Planner.Types.Checks.{IsUsable}
use meshy.Planner.Pack.Sound.{IsSound}
use meshy.Planner.Pack.Keeps.{pack_micros-IsSound}
use meshy.Planner.Build.{
  Share, truncate, deal_ranks, mini_count, share_of, mini_of, plan_of, build_plan,
}
use meshy.Planner.Build.Cover.{build_plan-eq-plan_of}

-- The truncated lengths of the samples that a rank owns.
abbrev pub local_lengths : PlannerConfig → List ℕ → List ℕ → List ℕ
local_lengths cfg lengths owned = map (λ g. get_or (truncate cfg lengths) g 0) owned

abbrev pub SoundOrFiller : PlannerConfig → List ℕ → MicroPlan → Type 0
SoundOrFiller cfg local_len u = IsSound cfg local_len u ⊎ (u ≡ filler_micro cfg)

module _ (cfg : PlannerConfig) (usable : IsUsable cfg) (trunc loss_tokens : List ℕ)
    (n_local : ℕ) where
  packs-IsSound :
      (owned : List ℕ)
      → All
          (All (IsSound cfg (map (λ g. get_or trunc g 0) owned)))
          (share_of cfg trunc n_local owned).packs
  unfolding share_of
  packs-IsSound owned =
      All-of_map _ (λ m _. pack_micros-IsSound cfg usable (map (λ g. get_or trunc g 0) owned) m)
        (share_of cfg trunc n_local owned).members (All-of_each (λ _. Unit {0}) (λ _. tt) _)

  mini-SoundOrFiller :
      (shares : List Share) (owned : List ℕ) (i : ℕ)
      → All
          (SoundOrFiller cfg (map (λ g. get_or trunc g 0) owned))
          (mini_of cfg trunc loss_tokens shares (share_of cfg trunc n_local owned) i).micros
  unfolding mini_of
  mini-SoundOrFiller shares owned i =
      let packs = (share_of cfg trunc n_local owned).packs in
      All-append _ (get_or packs i []) _
        (All-map (IsSound cfg _) _ (get_or packs i []) (λ u s. inl s)
          (get_or-All_default (All (IsSound cfg _)) [] packs i tt (packs-IsSound owned)))
        (All-replicate _ _ (filler_micro cfg) (inr refl))

-- Each micro-batch of a plan under a usable configuration is a filler, or: it lists the truncated
-- lengths of its samples; it has a sample; its length is aligned; in the padded layout no sample is
-- longer than a row, and in the packed layout the samples together are not longer than the row;
-- with a token budget, two or more samples together keep the budget; with none, the cap on rows
-- holds.
pub build_plan-SoundOrFiller :
    (lengths loss_tokens : List ℕ) (dp_size : ℕ) (cfg : PlannerConfig) (plan : Plan)
    → IsUsable cfg
    → build_plan lengths loss_tokens dp_size cfg ≡ ok plan
    → AllBoth
        (λ owned minis.
          All
            (λ (m : MiniPlan). All (SoundOrFiller cfg (local_lengths cfg lengths owned)) m.micros)
            minis)
        plan.local_indices
        plan.per_rank
build_plan-SoundOrFiller lengths loss_tokens dp_size cfg plan usable h =
    let trunc = truncate cfg lengths in
    let n_local = length lengths / dp_size in
    let ranks = deal_ranks trunc dp_size in
    let shares = map (share_of cfg trunc n_local) ranks in
    subst
      (λ (p : Plan).
        AllBoth
          (λ owned minis.
            All
              (λ (m : MiniPlan). All (SoundOrFiller cfg (local_lengths cfg lengths owned)) m.micros)
              minis)
          p.local_indices p.per_rank)
      (sym (build_plan-eq-plan_of lengths loss_tokens dp_size cfg plan h))
      (unfold plan_of in
        rw map-map (
          AllBoth-map _ (λ _. Unit {0}) _ ranks
            (λ owned _.
              All-of_map _
                (λ i _. mini-SoundOrFiller cfg usable trunc loss_tokens n_local shares owned i)
                (range (mini_count cfg n_local)) (All-of_each (λ _. Unit {0}) (λ _. tt) _))
            (All-of_each (λ _. Unit {0}) (λ _. tt) ranks)))
