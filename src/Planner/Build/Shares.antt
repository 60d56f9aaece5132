-- ===== src/Planner/Build/Shares.antt =====
-- What `build_plan` deals to one rank, and the micro-batches that the rank makes of it.
use mathlib.Core.List.Perm
use meshy.Prelude.{
  Bool, ℕ, ◌/◌, ◌%◌, ◌<◌, ◌≡◌, ◌∙◌, List, map, flatten, Perm, range, length, length-map,
  length-range_from, All, map-map,
}
use meshy.Prelude.Bags.{flatten_map-perm, length-perm}
use meshy.Prelude.Sort.{sort_by, sort_by-perm}
use meshy.Planner.Types.{PlannerConfig}
use meshy.Planner.Snake.Deal.{snake-perm, length-snake}
use meshy.Planner.Snake.Sizes.{snake_even}
use meshy.Planner.Pack.{longer_first, pack_micros}
use meshy.Planner.Pack.Cover.{rows_of, pack_micros-perm}
use meshy.Planner.Build.{Share, deal_ranks, mini_count, share_of}

-- The ranks' samples are the batch.
pub deal_ranks-perm :
    (trunc : List ℕ) (dp : ℕ) → 0 < dp → Perm (flatten (deal_ranks trunc dp)) (range (length trunc))
unfolding deal_ranks
deal_ranks-perm trunc dp pos =
    Perm.trans (snake-perm (sort_by (longer_first trunc) (range (length trunc))) dp pos)
      (sort_by-perm (longer_first trunc) (range (length trunc)))

length-sorted : (le : ℕ → ℕ → Bool) (n : ℕ) → length (sort_by le (range n)) ≡ n
length-sorted le n = length-perm _ _ (sort_by-perm le (range n)) ∙ length-range_from 0 n

pub length-deal_ranks : (trunc : List ℕ) (dp : ℕ) → length (deal_ranks trunc dp) ≡ dp
unfolding deal_ranks
length-deal_ranks trunc dp = length-snake (sort_by (longer_first trunc) (range (length trunc))) dp

pub deal_ranks_even :
    (trunc : List ℕ) (dp : ℕ)
    → length trunc % dp ≡ 0
    → All (λ owned. length owned ≡ length trunc / dp) (deal_ranks trunc dp)
unfolding deal_ranks
deal_ranks_even trunc dp e =
    let order = sort_by (longer_first trunc) (range (length trunc)) in
    let same : length order ≡ length trunc = length-sorted (longer_first trunc) (length trunc) in
    rw same at (snake_even order dp (rw same e))

module _ (cfg : PlannerConfig) (trunc : List ℕ) (n_local : ℕ) (owned : List ℕ) where
  abbrev share : Share
  share = share_of cfg trunc n_local owned

  pub length-members : length share.members ≡ mini_count cfg n_local
  unfolding share_of
  length-members =
      length-snake (sort_by (longer_first share.local_len) (range n_local)) (mini_count cfg n_local)

  pub length-packs : length share.packs ≡ mini_count cfg n_local
  unfolding share_of
  length-packs = length-map (λ m. pack_micros cfg m share.local_len) share.members ∙ length-members

  -- A rank's mini-batches share out its samples.
  pub members-perm : 0 < mini_count cfg n_local → Perm (flatten share.members) (range n_local)
  unfolding share_of
  members-perm pos =
      Perm.trans
        (snake-perm (sort_by (longer_first share.local_len) (range n_local))
          (mini_count cfg n_local) pos)
        (sort_by-perm (longer_first share.local_len) (range n_local))

  pub packs-perm :
      0 < mini_count cfg n_local → Perm (flatten (map rows_of share.packs)) (range n_local)
  unfolding share_of
  packs-perm pos = rw map-map (
      Perm.trans
        (flatten_map-perm (λ m. rows_of (pack_micros cfg m share.local_len)) share.members
          (λ m. pack_micros-perm cfg m share.local_len))
        (members-perm pos))
