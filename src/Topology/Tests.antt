-- ===== src/Topology/Tests.antt =====
-- Two inference replicas that share their cards with a trainer, a critic on a card of its own, and a
-- rollout without cards.
use meshy.Prelude.{
  ◌↔◌, ◌≤◌, length, ℕ, ◌≡◌, refl, String, Bool, any, true, false, ◌&&◌, Option, none, some, List,
  [], ◌∷◌, map, select, str_eq, ◌==◌, if◌then◌else◌, Result, ok, err, All, take, sum,
}
use meshy.Prelude.Sort.{sort_by}
use meshy.Checkpoint.Policy.{GlobalCheckpointConfig}
use meshy.Colocation.Ring.{ColocationRing, on_demand, fallback}
use meshy.Topology.Types.{Gpu, ServiceConfig, ServiceGroup, ServiceInfo, TopologyError, n_gpus}
use meshy.Topology.Place.{gpu_info}
use meshy.Topology.Place.Blocks.{claimed_cards}
use meshy.Topology.Checks.{
  validate_ports, validate_critic_columns, services_by_role, checkpointing_services,
  validate_checkpoint,
}
use meshy.Topology.Checks.Ports.{validate_ports_iff, GoodPorts}
use meshy.Topology.Checks.Columns.{validate_critic_columns_iff, Wired}
use meshy.Topology.Checks.Policies.{validate_checkpoint-one_policy}
use meshy.Topology.Attach.{attach_colocations}
use meshy.Topology.Attach.Rings.{ring_for, in_ring, attach_colocations-map}
use meshy.Topology.Build.{by_global_rank, build_topology}
use meshy.Topology.Build.Sound.{build_topology-cards, build_topology-is_checked}
use meshy.Topology.Lookups.{has_rank, group, endpoint, checkpoint_config, colocated_inference_for}
use meshy.Topology.Lookups.Ranks.{shares, has_entry}
use meshy.Topology.Lookups.Sharing.{hosted, colocated_inference_for_lem}

abbrev policy : GlobalCheckpointConfig
policy = record { enabled = true; interval = 10; keep_latest_k = 3 }

abbrev no_text : Option String
no_text = none

abbrev pub config_for : String → Bool → ServiceConfig
config_for role uses_gpu = record {
  role = role;
  uses_gpu = uses_gpu;
  endpoint_port_base = some (if str_eq role "training" then 31000 else 30000);
  dist_port_base = some (if str_eq role "training" then 41000 else 40000);
  checkpoint = if str_eq role "inference" then none else some policy;
  cold_start_windows = none;
  critic_cold_start_windows = none;
  publish_mode = no_text;
  tq_fields = if str_eq role "training" then some ("prompt" ∷ "advantage" ∷ []) else none;
  enable_gae = none;
}

abbrev pub group_of : String → Bool → ℕ → ℕ → Option String → ServiceGroup
group_of id uses_gpu n_replicas n_gpus_per_replica other = record {
  id = id;
  config = config_for id uses_gpu;
  n_replicas = n_replicas;
  n_gpus_per_replica = n_gpus_per_replica;
  colocate_with = other;
  wait_until =
      if str_eq id "training"
      then "inference" ∷ []
      else if str_eq id "rollout"
      then "inference" ∷ "training" ∷ "critic" ∷ []
      else [];
}

abbrev groups : List ServiceGroup
groups =
    group_of "inference" true 2 1 none
    ∷ group_of "training" true 1 2 (some "inference")
    ∷ group_of "critic" true 1 1 none
    ∷ group_of "rollout" false 1 0 none
    ∷ []

abbrev pub card : ℕ → Gpu
card rank = record {
  host = "node";
  global_rank = rank;
  node_rank = 0;
  local_rank = rank;
  uuid = "";
}

abbrev cards : List Gpu
cards = card 2 ∷ card 0 ∷ card 3 ∷ card 1 ∷ []

abbrev ring : ColocationRing
ring = record {
  group_id = "pair";
  ring =
      record { service_id = "inference"; mode = on_demand }
      ∷ record { service_id = "training"; mode = fallback }
      ∷ [];
  poll_interval = 1;
  next_owner_timeout = 60;
}

abbrev pub replica_name : String → ℕ → String
replica_name id r =
    if str_eq id "inference" then (if r == 0 then "inference-0" else "inference-1") else id

abbrev services_in : Result TopologyError (List ServiceInfo) → List ServiceInfo
services_in (err e) = []
services_in (ok services) = services

abbrev rings : List ColocationRing
rings = ring ∷ []

abbrev pub services : List ServiceInfo
services = services_in (build_topology replica_name groups cards rings)

abbrev url : String → ℕ → String
url host port = host

abbrev pub trainer : ServiceInfo
trainer =
    gpu_info replica_name (group_of "training" true 1 2 (some "inference")) true 0
      (card 0 ∷ card 1 ∷ []) (card 0) 31000 41000

abbrev placed : List ServiceInfo
placed = services_in (build_topology replica_name groups cards [])

build_topology-cards_example :
    (sum (map n_gpus groups) ≤ length cards)
    × (length (claimed_cards services) ≡ sum (map n_gpus groups))
    × (claimed_cards services ≡ take (sum (map n_gpus groups)) (sort_by by_global_rank cards))
unfolding build_topology
build_topology-cards_example = build_topology-cards replica_name groups cards rings services refl

build_topology-is_checked_example :
    GoodPorts (λ (s : ServiceInfo). s.endpoint_port) services
    × GoodPorts (λ (s : ServiceInfo). s.dist_port) services
    × All
        (λ c. All (Wired c) (services_by_role "training" services))
        (services_by_role "critic" services)
unfolding build_topology
build_topology-is_checked_example =
    build_topology-is_checked replica_name groups cards rings services refl

validate_ports_iff_example : (validate_ports services ≡ ok tt) ↔ (
    GoodPorts (λ (s : ServiceInfo). s.endpoint_port) services
    × GoodPorts (λ (s : ServiceInfo). s.dist_port) services)
validate_ports_iff_example = validate_ports_iff services

validate_critic_columns_iff_example :
    (validate_critic_columns services ≡ ok tt)
    ↔ All
        (λ critic. All (Wired critic) (services_by_role "training" services))
        (services_by_role "critic" services)
validate_critic_columns_iff_example = validate_critic_columns_iff services

attach_colocations-map_example :
    map (λ (s : ServiceInfo). in_ring (ring_for rings s.group_id) s) placed ≡ services
unfolding build_topology attach_colocations
attach_colocations-map_example = attach_colocations-map placed services rings refl

validate_checkpoint-one_policy_example :
    All
      (λ (s : ServiceInfo). s.config.checkpoint ≡ checkpoint_config services)
      (checkpointing_services services)
unfolding build_topology validate_checkpoint
validate_checkpoint-one_policy_example = validate_checkpoint-one_policy services refl refl

colocated_inference_for_lem_example :
    ((colocated_inference_for url services trainer).names
      ≡ map
          (λ (s : ServiceInfo). s.name)
          (select (shares trainer.replica_gpus) (group services "inference")))
    × ((colocated_inference_for url services trainer).endpoints
        ≡ map (endpoint url) (select (shares trainer.replica_gpus) (group services "inference")))
    × All
        (λ e. hosted (group services "inference") trainer.replica_gpus e ≡ true)
        (colocated_inference_for url services trainer).by_rank
    × (has_entry 1 (colocated_inference_for url services trainer).by_rank
        ≡ any
            (λ (inf : ServiceInfo). has_rank 1 inf.replica_gpus && has_rank 1 trainer.replica_gpus)
            (group services "inference"))
unfolding gpu_info
colocated_inference_for_lem_example =
    colocated_inference_for_lem url services trainer "inference" 1 refl
