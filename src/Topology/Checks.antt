-- ===== src/Topology/Checks.antt =====
-- The checks at the end of `build_topology` in meshy/service/topology.py: `_validate_ports`,
-- `_validate_critic_columns` and `_validate_checkpoint`.
pub mod Ports
pub mod Columns
pub mod Policies
use meshy.Prelude.{
  ℕ, String, Bool, true, false, not, ◌&&◌, ◌||◌, Option, none, some, List, [], ◌∷◌, map, any, all,
  select, leb, ◌==◌, str_eq, if◌then◌else◌, Result, ok, err, raise_if, each, ◌>>=◌, ◌>>◌,
}
use meshy.Prelude.Dicts.{put}
use meshy.Checkpoint.Policy.{GlobalCheckpointConfig}
use meshy.Topology.Types.{
  ℤ, pos, int_eq, ServiceConfig, ServiceInfo, TopologyError, invalid_port, port_collision,
  unknown_mode, columns_not_fetched, values_without_gae, gae_without_values, policies_differ,
  role_without_policy, cold_starts_differ,
}

abbrev pub of_role : String → ServiceInfo → Bool
of_role role s = str_eq s.role role

abbrev pub services_by_role : String → List ServiceInfo → List ServiceInfo
services_by_role role services = select (of_role role) services

-- `1 <= port <= 65535`
abbrev pub in_range : ℕ → Bool
in_range port = leb 1 port && leb port 65535

abbrev pub owned : String → ℕ → List (String × ℕ) → Bool
owned host port owners = any (λ a. str_eq a.0 host && a.1 == port) owners

-- The loop over the services for one attribute, with the addresses that have an owner.
unfoldable pub check_ports :
    (ServiceInfo → ℕ) → List (String × ℕ) → List ServiceInfo → Result TopologyError (Unit {0})
check_ports attribute owners [] = ok tt
check_ports attribute owners (s ∷ services) = elim s.uses_gpu [
  | false ↦ check_ports attribute owners services
  | true ↦
      raise_if (not (in_range (attribute s))) invalid_port
      >> (raise_if (owned s.host (attribute s) owners) port_collision
          >> check_ports attribute ((s.host, attribute s) ∷ owners) services)
]

unfoldable pub validate_ports : List ServiceInfo → Result TopologyError (Unit {0})
unfolding check_ports
validate_ports services = do
  check_ports (λ s. s.endpoint_port) [] services
  check_ports (λ s. s.dist_port) [] services

-- CRITIC_OUTPUT_FIELDS_BY_MODE
unfoldable pub output_fields_by_mode : String → Option (List String)
output_fields_by_mode mode =
    if str_eq mode "values"
    then some ("values" ∷ [])
    else if str_eq mode "advantage"
    then some ("advantage" ∷ [])
    else none

abbrev pub or_default {ℓ} : {A : Type ℓ} → Option A → A → A
or_default none a = a
or_default (some b) a = b

-- `getattr(critic.config, "publish_mode", "advantage")`
abbrev pub mode_of : ServiceInfo → String
mode_of critic = or_default critic.config.publish_mode "advantage"

abbrev pub fetched_by : ServiceInfo → List String
fetched_by trainer = or_default trainer.config.tq_fields []

abbrev pub gae_of : ServiceInfo → Bool
gae_of trainer = or_default trainer.config.enable_gae false

-- `published <= fetched`
abbrev pub all_in : List String → List String → Bool
all_in published fetched = all (λ f. any (λ g. str_eq g f) fetched) published

unfoldable pub check_columns :
    ServiceInfo → List String → ServiceInfo → Result TopologyError (Unit {0})
check_columns critic published trainer = do
  raise_if (not (all_in published (fetched_by trainer))) columns_not_fetched
  raise_if (str_eq (mode_of critic) "values" && not (gae_of trainer)) values_without_gae
  raise_if (not (str_eq (mode_of critic) "values") && gae_of trainer) gae_without_values

unfoldable pub check_critic : List ServiceInfo → ServiceInfo → Result TopologyError (Unit {0})
unfolding output_fields_by_mode check_columns
check_critic trainers critic = elim (output_fields_by_mode (mode_of critic)) [
  | none ↦ err unknown_mode
  | some published ↦ each (check_columns critic published) trainers
]

abbrev pub is_empty : List ServiceInfo → Bool
is_empty [] = true
is_empty (s ∷ ss) = false

unfoldable pub validate_critic_columns : List ServiceInfo → Result TopologyError (Unit {0})
unfolding check_critic
validate_critic_columns services =
    let critics = services_by_role "critic" services in
    let trainers = services_by_role "training" services in
    if is_empty critics || is_empty trainers then ok tt else each (check_critic trainers) critics

abbrev pub enabled_in : Option GlobalCheckpointConfig → Bool
enabled_in none = false
enabled_in (some policy) = policy.enabled

-- `Topology.checkpointing_services`
unfoldable pub checkpointing_services : List ServiceInfo → List ServiceInfo
checkpointing_services services =
    select (λ (s : ServiceInfo). enabled_in s.config.checkpoint) services

abbrev pub bool_eq : Bool → Bool → Bool
bool_eq true b = b
bool_eq false b = not b

abbrev pub policy_eq : GlobalCheckpointConfig → GlobalCheckpointConfig → Bool
policy_eq p q =
    bool_eq p.enabled q.enabled && (p.interval == q.interval && p.keep_latest_k == q.keep_latest_k)

-- `{s.name: s.config.checkpoint for s in enabled}`
unfoldable pub policies_from :
    List (String × Option GlobalCheckpointConfig)
    → List ServiceInfo
    → List (String × Option GlobalCheckpointConfig)
unfolding put
policies_from l [] = l
policies_from l (s ∷ ss) = policies_from (put l s.name s.config.checkpoint) ss

abbrev pub same_policy : Option GlobalCheckpointConfig → Option GlobalCheckpointConfig → Bool
same_policy none none = true
same_policy (some p) (some q) = policy_eq p q
same_policy none (some q) = false
same_policy (some p) none = false

-- `len(distinct) != 1`, of the values of a dictionary.
abbrev pub one_policy : List (String × Option GlobalCheckpointConfig) → Bool
one_policy [] = false
one_policy (e ∷ l) = all (λ f. same_policy f.1 e.1) l

abbrev pub has_role : String → List ServiceInfo → Bool
has_role role services = any (of_role role) services

abbrev pub zero_windows : ℤ
zero_windows = pos 0

abbrev pub cold_of : ServiceInfo → ℤ
cold_of critic = or_default critic.config.cold_start_windows zero_windows

abbrev pub offset_of : ServiceInfo → ℤ
offset_of trainer = or_default trainer.config.critic_cold_start_windows zero_windows

unfoldable pub check_role :
    List ServiceInfo → List ServiceInfo → String → Result TopologyError (Unit {0})
check_role services enabled role =
    raise_if (has_role role services && not (has_role role enabled)) role_without_policy

unfoldable pub check_cold : List ServiceInfo → ServiceInfo → Result TopologyError (Unit {0})
check_cold trainers critic =
    each
      (λ trainer. raise_if (not (int_eq (offset_of trainer) (cold_of critic))) cold_starts_differ)
      trainers

unfoldable pub validate_checkpoint : List ServiceInfo → Result TopologyError (Unit {0})
unfolding checkpointing_services policies_from check_role check_cold
validate_checkpoint services =
    let enabled = checkpointing_services services in
    if is_empty enabled then ok tt else do
      raise_if (not (one_policy (policies_from [] enabled))) policies_differ
      each (check_role services enabled) ("training" ∷ "critic" ∷ "rollout" ∷ [])
      each (check_cold (services_by_role "training" services)) (services_by_role "critic" services)
