-- ===== src/Topology/Build.antt =====
-- `build_topology` of meshy/service/topology.py, whole.
pub mod Sound
use meshy.Prelude.{ℕ, String, Bool, List, [], ◌∷◌, leb, Result, ok, ◌>>=◌, ◌>>◌}
use meshy.Prelude.Sort.{sort_by}
use meshy.Colocation.Ring.{ColocationRing}
use meshy.Topology.Types.{Gpu, ServiceGroup, ServiceInfo, TopologyError}
use meshy.Topology.Place.{Placing, colocated_targets, place_groups}
use meshy.Topology.Checks.{validate_ports, validate_critic_columns, validate_checkpoint}
use meshy.Topology.Attach.{attach_colocations}

abbrev pub by_global_rank : Gpu → Gpu → Bool
by_global_rank g h = leb g.global_rank h.global_rank

abbrev pub nothing_placed : Placing
nothing_placed = record { cursor = 0; card_ranges = []; services = [] }

module _ (replica_name : String → ℕ → String) where
  unfoldable pub build_topology :
      List ServiceGroup → List Gpu → List ColocationRing → Result TopologyError (List ServiceInfo)
  unfolding colocated_targets place_groups attach_colocations validate_ports validate_critic_columns
      validate_checkpoint sort_by
  build_topology sgs gpus rings = do
    placed ←
        place_groups replica_name (sort_by by_global_rank gpus) (colocated_targets sgs)
          nothing_placed sgs
    services ← attach_colocations placed.services rings
    validate_ports services
    validate_critic_columns services
    validate_checkpoint services
    ok services
