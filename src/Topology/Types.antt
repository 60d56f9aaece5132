-- ===== src/Topology/Types.antt =====
-- `GPU` and `ServiceGroup` of meshy/service/base.py, `ServiceConfig` of meshy/config.py, and
-- `ServiceInfo` of meshy/service/topology.py. A configuration is the class attributes that every
-- configuration has, and those attributes that only some classes have, none where `getattr` takes its
-- default. Ports and counts are natural numbers; `cold_start_windows` may be negative.
use meshy.Prelude.{ℕ, ◌*◌, Bool, true, false, Option, none, some, List, String, ◌==◌, leb}
use meshy.Checkpoint.Policy.{GlobalCheckpointConfig}
use meshy.Colocation.Ring.{ColocationRing}

-- Integers: `negsuc n` is -(n + 1).
pub data ℤ : Type 0 where
  pos negsuc : ℕ → ℤ

abbrev pub int_eq : ℤ → ℤ → Bool
int_eq (pos m) (pos n) = m == n
int_eq (pos m) (negsuc n) = false
int_eq (negsuc m) (pos n) = false
int_eq (negsuc m) (negsuc n) = m == n

-- `windows < 0 or step <= windows`
abbrev pub covers : ℤ → ℕ → Bool
covers (pos n) step = leb step n
covers (negsuc n) step = true

pub record Gpu : Type 0 where
  pub host : String
  pub global_rank : ℕ
  pub node_rank : ℕ
  pub local_rank : ℕ
  pub uuid : String

pub record ServiceConfig : Type 0 where
  pub role : String
  pub uses_gpu : Bool
  pub endpoint_port_base : Option ℕ
  pub dist_port_base : Option ℕ
  pub checkpoint : Option GlobalCheckpointConfig
  pub cold_start_windows : Option ℤ
  pub critic_cold_start_windows : Option ℤ
  pub publish_mode : Option String
  pub tq_fields : Option (List String)
  pub enable_gae : Option Bool

pub record ServiceGroup : Type 0 where
  pub id : String
  pub config : ServiceConfig
  pub n_replicas : ℕ
  pub n_gpus_per_replica : ℕ
  pub colocate_with : Option String
  pub wait_until : List String

-- `ServiceGroup.n_gpus`: the cards that the group newly claims.
abbrev pub claim_of : Bool → Option String → ℕ → ℕ
claim_of false other total = 0
claim_of true (some other) total = 0
claim_of true none total = total

unfoldable pub n_gpus : ServiceGroup → ℕ
n_gpus sg = claim_of sg.config.uses_gpu sg.colocate_with (sg.n_replicas * sg.n_gpus_per_replica)

pub record ServiceInfo : Type 0 where
  pub name : String
  pub group_id : String
  pub role : String
  pub uses_gpu : Bool
  pub replica_idx : ℕ
  pub host : String
  pub endpoint_port : ℕ
  pub dist_port : ℕ
  pub replica_gpus : List Gpu
  pub is_colocate : Bool
  pub colocate_with : Option String
  pub wait_until : List String
  pub config : ServiceConfig
  pub colocation : Option ColocationRing
  pub is_colocation_leader : Bool

-- The ValueErrors of the module, and the IndexError and KeyError that it leaves to Python.
pub data TopologyError : Type 0 where
  no_role not_declared block_mismatch too_few_cards no_card no_port_base : TopologyError
  duplicate_rings unknown_groups two_rings different_cards not_colocated : TopologyError
  invalid_port port_collision : TopologyError
  unknown_mode columns_not_fetched values_without_gae gae_without_values : TopologyError
  policies_differ role_without_policy cold_starts_differ : TopologyError
