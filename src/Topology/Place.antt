-- ===== src/Topology/Place.antt =====
-- The loop of `build_topology` in meshy/service/topology.py over the groups. `replica_name` writes the
-- name of a replica, f"{id}-{index}".
pub mod Blocks
use meshy.Prelude.{
  ℕ, zero, suc, is_some, ◌+◌, ◌*◌, String, Bool, true, false, not, ◌||◌, Option, none, some, List,
  [], ◌∷◌, ◌++◌, map, any, length, range, take, drop, leb, ◌==◌, str_eq, if◌then◌else◌, Result, ok,
  err, raise_if, ◌>>=◌, ◌>>◌,
}
use meshy.Prelude.Dicts.{get, put}
use meshy.Topology.Types.{
  Gpu, ServiceConfig, ServiceGroup, ServiceInfo, TopologyError, no_role, not_declared,
  block_mismatch, too_few_cards, no_card, no_port_base,
}

-- `sg.colocate_with` of the groups where it is not empty.
unfoldable pub colocated_targets : List ServiceGroup → List String
colocated_targets [] = []
colocated_targets (sg ∷ sgs) =
    let rest = colocated_targets sgs in
    elim sg.colocate_with [
      | none ↦ rest
      | some target ↦ if str_eq target "" then rest else target ∷ rest
    ]

abbrev pub is_in : String → List String → Bool
is_in s l = any (λ t. str_eq t s) l

-- The variables of the loop.
pub record Placing : Type 0 where
  pub cursor : ℕ
  pub card_ranges : List (String × List Gpu)
  pub services : List ServiceInfo

-- The cards of a group, and the state after it has claimed them or not.
unfoldable pub claim_block :
    List Gpu → Placing → ServiceGroup → Result TopologyError (List Gpu × Placing)
unfolding get put
claim_block gpus p sg =
    let total = sg.n_replicas * sg.n_gpus_per_replica in
    elim sg.colocate_with [
      | some other ↦ elim (get p.card_ranges other) [
        | none ↦ err not_declared
        | some block ↦ if length block == total then ok (block, p) else err block_mismatch
      ]
      | none ↦
          let block = take total (drop p.cursor gpus) in
          if length block == total
          then ok (
            block,
            record p { cursor = p.cursor + total; card_ranges = put p.card_ranges sg.id block },
          )
          else err too_few_cards
    ]

module _ (replica_name : String → ℕ → String) where
  unfoldable pub cpu_info : ServiceGroup → ℕ → ServiceInfo
  cpu_info sg r = record {
    name = replica_name sg.id r;
    group_id = sg.id;
    role = sg.config.role;
    uses_gpu = false;
    replica_idx = r;
    host = "127.0.0.1";
    endpoint_port = 0;
    dist_port = 0;
    replica_gpus = [];
    is_colocate = false;
    colocate_with = none;
    wait_until = sg.wait_until;
    config = sg.config;
    colocation = none;
    is_colocation_leader = false;
  }

  -- One replica on its cards, of which `master` is the first.
  unfoldable pub gpu_info : ServiceGroup → Bool → ℕ → List Gpu → Gpu → ℕ → ℕ → ServiceInfo
  gpu_info sg is_colocate r cards master endpoint_base dist_base = record {
    name = replica_name sg.id r;
    group_id = sg.id;
    role = sg.config.role;
    uses_gpu = true;
    replica_idx = r;
    host = master.host;
    endpoint_port = endpoint_base + master.global_rank;
    dist_port = dist_base + master.global_rank;
    replica_gpus = cards;
    is_colocate = is_colocate;
    colocate_with = sg.colocate_with;
    wait_until = sg.wait_until;
    config = sg.config;
    colocation = none;
    is_colocation_leader = false;
  }

  -- `replica_gpus[0]`, and the checks of the port bases.
  unfoldable pub gpu_replica : ServiceGroup → Bool → ℕ → List Gpu → Result TopologyError ServiceInfo
  unfolding gpu_info
  gpu_replica sg is_colocate r [] = err no_card
  gpu_replica sg is_colocate r (master ∷ cards) = elim sg.config.endpoint_port_base [
    | none ↦ err no_port_base
    | some endpoint_base ↦ elim sg.config.dist_port_base [
      | none ↦ err no_port_base
      | some dist_base ↦
          ok (gpu_info sg is_colocate r (master ∷ cards) master endpoint_base dist_base)
    ]
  ]

  -- The inner loop, from replica `r` on the cards that are left of the block.
  unfoldable pub gpu_replicas :
      ServiceGroup → Bool → ℕ → ℕ → List Gpu → Result TopologyError (List ServiceInfo)
  unfolding gpu_replica
  gpu_replicas sg is_colocate r zero block = ok []
  gpu_replicas sg is_colocate r (suc more) block = do
    info ← gpu_replica sg is_colocate r (take sg.n_gpus_per_replica block)
    infos ← gpu_replicas sg is_colocate (suc r) more (drop sg.n_gpus_per_replica block)
    ok (info ∷ infos)

  unfoldable pub place_on :
      Bool → List Gpu → List String → Placing → ServiceGroup → Result TopologyError Placing
  unfolding claim_block cpu_info gpu_replicas
  place_on false gpus targets p sg =
      ok (record p { services = p.services ++ map (cpu_info sg) (range sg.n_replicas) })
  place_on true gpus targets p sg = do
    claimed ← claim_block gpus p sg
    infos ←
        gpu_replicas sg (is_some sg.colocate_with || is_in sg.id targets) 0 sg.n_replicas claimed.0
    ok (record claimed.1 { services = claimed.1.services ++ infos })

  unfoldable pub place_group :
      List Gpu → List String → Placing → ServiceGroup → Result TopologyError Placing
  unfolding place_on
  place_group gpus targets p sg = do
    raise_if (str_eq sg.config.role "" || str_eq sg.config.role "?") no_role
    place_on sg.config.uses_gpu gpus targets p sg

  unfoldable pub place_groups :
      List Gpu → List String → Placing → List ServiceGroup → Result TopologyError Placing
  unfolding place_group
  place_groups gpus targets p [] = ok p
  place_groups gpus targets p (sg ∷ sgs) =
      place_group gpus targets p sg >>= λ q. place_groups gpus targets q sgs
