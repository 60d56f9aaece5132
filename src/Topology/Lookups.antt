-- ===== src/Topology/Lookups.antt =====
-- `Topology` of meshy/service/topology.py: what the services are asked for once they are placed. `url`
-- writes an endpoint, f"http://{host}:{port}".
pub mod Sharing
pub mod Ranks
use meshy.Prelude.{
  ℕ, String, Bool, true, false, not, ◌&&◌, Option, none, some, List, [], ◌∷◌, ◌++◌, map, flatten,
  any, select, ◌==◌, str_eq, if◌then◌else◌, Result, ok, err,
}
use meshy.Checkpoint.Policy.{GlobalCheckpointConfig}
use meshy.Topology.Types.{ℤ, covers, Gpu, ServiceInfo, TopologyError, no_card}
use meshy.Topology.Checks.{services_by_role, checkpointing_services, zero_windows, cold_of}

-- `ServiceInfo.master_rank`
unfoldable pub master_rank : ServiceInfo → Result TopologyError ℕ
master_rank s = elim s.replica_gpus [ [] ↦ err no_card | g ∷ cards ↦ ok g.global_rank ]

abbrev pub has_rank : ℕ → List Gpu → Bool
has_rank rank cards = any (λ (g : Gpu). g.global_rank == rank) cards

-- `ServiceInfo.contains_rank`
unfoldable pub contains_rank : ServiceInfo → ℕ → Bool
contains_rank s rank = has_rank rank s.replica_gpus

abbrev pub in_group : String → ServiceInfo → Bool
in_group group_id s = str_eq s.group_id group_id

-- `Topology.group`
unfoldable pub group : List ServiceInfo → String → List ServiceInfo
group services group_id = select (in_group group_id) services

-- `Topology.by_name`, with none for the KeyError.
unfoldable pub by_name : List ServiceInfo → String → Option ServiceInfo
by_name [] name = none
by_name (s ∷ services) name = if str_eq s.name name then some s else by_name services name

unfoldable pub gpu_services : List ServiceInfo → List ServiceInfo
gpu_services services = select (λ (s : ServiceInfo). s.uses_gpu) services

unfoldable pub cpu_services : List ServiceInfo → List ServiceInfo
cpu_services services = select (λ (s : ServiceInfo). not s.uses_gpu) services

-- `Topology.checkpoint_config`: the first enabled service speaks for all of them.
unfoldable pub checkpoint_config : List ServiceInfo → Option GlobalCheckpointConfig
unfolding checkpointing_services
checkpoint_config services = elim (checkpointing_services services) [
  | [] ↦ none
  | s ∷ rest ↦ s.config.checkpoint
]

unfoldable pub cold_start_windows : List ServiceInfo → ℤ
cold_start_windows services = elim (services_by_role "critic" services) [
  | [] ↦ zero_windows
  | critic ∷ rest ↦ cold_of critic
]

-- A training service takes no step during the cold start of the critic.
abbrev pub takes_part : ℤ → ℕ → ServiceInfo → Bool
takes_part cold step s = not (str_eq s.role "training" && covers cold step)

unfoldable pub checkpoint_participants : List ServiceInfo → ℕ → List String
unfolding checkpointing_services cold_start_windows
checkpoint_participants services step =
    map (λ (s : ServiceInfo). s.name)
      (select (takes_part (cold_start_windows services) step) (checkpointing_services services))

-- `Topology.dependency_names`
unfoldable pub dependency_names : List ServiceInfo → ServiceInfo → List String
unfolding group flatten
dependency_names services service =
    flatten (map (λ gid. map (λ (s : ServiceInfo). s.name) (group services gid)) service.wait_until)

-- `Topology.local_services`
unfoldable pub local_services : List ServiceInfo → ℕ → List ServiceInfo
unfolding gpu_services contains_rank
local_services services rank = select (λ s. contains_rank s rank) (gpu_services services)

-- `by_rank[rank] = name`
unfoldable pub put_rank : List (ℕ × String) → ℕ → String → List (ℕ × String)
put_rank [] rank name = (rank, name) ∷ []
put_rank ((r, n) ∷ l) rank name =
    let rest = put_rank l rank name in if r == rank then (r, name) ∷ l else (r, n) ∷ rest

unfoldable pub put_ranks : List (ℕ × String) → List ℕ → String → List (ℕ × String)
unfolding put_rank
put_ranks l [] name = l
put_ranks l (r ∷ ranks) name = put_ranks (put_rank l r name) ranks name

abbrev pub rank_of : Gpu → ℕ
rank_of g = g.global_rank

-- The ranks of a replica that are among those of another.
unfoldable pub shared_ranks : List Gpu → List Gpu → List ℕ
shared_ranks mine theirs = map rank_of (select (λ (g : Gpu). has_rank g.global_rank mine) theirs)

pub record Shared : Type 0 where
  pub names : List String
  pub by_rank : List (ℕ × String)
  pub endpoints : List String

module _ (url : String → ℕ → String) where
  unfoldable pub endpoint : ServiceInfo → String
  endpoint s = url s.host s.endpoint_port

  unfoldable pub inference_endpoints : List ServiceInfo → List String
  unfolding endpoint
  inference_endpoints services = map endpoint (services_by_role "inference" services)

  unfoldable pub inference_targets : List ServiceInfo → List (String × String)
  unfolding endpoint
  inference_targets services =
      map (λ (s : ServiceInfo). (s.name, endpoint s)) (services_by_role "inference" services)

  unfoldable pub trainer_endpoint : List ServiceInfo → Option String
  unfolding endpoint
  trainer_endpoint services = elim (services_by_role "training" services) [
    | [] ↦ none
    | s ∷ rest ↦ some (endpoint s)
  ]

  -- The body of the loop of `colocated_inference_for`; a replica without a shared card is skipped.
  unfoldable pub share_on : ServiceInfo → List ℕ → Shared → Shared
  unfolding put_ranks endpoint
  share_on inf [] l = l
  share_on inf (r ∷ ranks) l = record {
    names = l.names ++ inf.name ∷ [];
    by_rank = put_ranks l.by_rank (r ∷ ranks) inf.name;
    endpoints = l.endpoints ++ endpoint inf ∷ [];
  }

  unfoldable pub share_with : List Gpu → Shared → ServiceInfo → Shared
  unfolding shared_ranks share_on
  share_with mine l inf = share_on inf (shared_ranks mine inf.replica_gpus) l

  unfoldable pub share_all : List Gpu → Shared → List ServiceInfo → Shared
  unfolding share_with
  share_all mine l [] = l
  share_all mine l (inf ∷ infs) = share_all mine (share_with mine l inf) infs

  abbrev pub no_shared : Shared
  no_shared = record { names = []; by_rank = []; endpoints = [] }

  unfoldable pub colocated_inference_for : List ServiceInfo → ServiceInfo → Shared
  unfolding share_all group
  colocated_inference_for services trainer = elim trainer.colocate_with [
    | none ↦ no_shared
    | some other ↦ share_all trainer.replica_gpus no_shared (group services other)
  ]
