-- ===== src/Topology/Attach.antt =====
-- `_attach_colocations` of meshy/service/topology.py. A set of groups is the list of the ring's nodes;
-- the mutation of the services is a new list of them.
pub mod Rings
use meshy.Prelude.{
  ℕ, String, Bool, true, false, not, ◌&&◌, ◌||◌, some, List, [], ◌∷◌, ◌++◌, map, flatten, any, all,
  select, ◌==◌, str_eq, if◌then◌else◌, Result, ok, err, raise_if, ◌>>=◌, ◌>>◌,
}
use meshy.Colocation.Ring.{ColocationRing, names, has_duplicates}
use meshy.Topology.Types.{
  Gpu, ServiceInfo, TopologyError, duplicate_rings, unknown_groups, two_rings, different_cards,
  not_colocated,
}
use meshy.Topology.Place.{is_in}
use meshy.Topology.Lookups.{group}

-- `card_sets[group_id]`
unfoldable pub cards_of : List ServiceInfo → String → List ℕ
unfolding group flatten
cards_of services group_id = flatten (
    map (λ (s : ServiceInfo). map (λ (g : Gpu). g.global_rank) s.replica_gpus)
      (group services group_id))

abbrev pub subset : List ℕ → List ℕ → Bool
subset xs ys = all (λ x. any (λ y. y == x) ys) xs

-- `len({frozenset(cards) for cards in card_sets.values()}) == 1`
unfoldable pub one_card_set : List ServiceInfo → List String → Bool
unfolding cards_of
one_card_set services [] = false
one_card_set services (g ∷ groups) =
    all
      (λ h.
        subset (cards_of services h) (cards_of services g)
        && subset (cards_of services g) (cards_of services h))
      groups

abbrev pub nobody : List ServiceInfo → Bool
nobody [] = true
nobody (s ∷ ss) = false

-- `service.colocation = config`, for a member of the group.
unfoldable pub join_ring : ColocationRing → Bool → ServiceInfo → ServiceInfo
join_ring config false s = s
join_ring config true s = record s {
  colocation = some config;
  is_colocation_leader = s.replica_idx == 0;
}

-- The last loop, over the groups of one ring.
unfoldable pub join_groups :
    ColocationRing → List String → List ServiceInfo → Result TopologyError (List ServiceInfo)
unfolding join_ring group
join_groups config [] services = ok services
join_groups config (g ∷ groups) services = do
  raise_if
      (nobody (group services g)
        || not (all (λ (s : ServiceInfo). s.is_colocate) (group services g)))
      not_colocated
  join_groups config groups
      (map (λ (s : ServiceInfo). join_ring config (str_eq s.group_id g) s) services)

-- The loop over the rings, with the groups that are known and those that have a ring.
unfoldable pub attach_rings :
    List String
    → List String
    → List ColocationRing
    → List ServiceInfo
    → Result TopologyError (List ServiceInfo)
unfolding one_card_set join_groups
attach_rings known assigned [] services = ok services
attach_rings known assigned (config ∷ rings) services = do
  raise_if (any (λ g. not (is_in g known)) (names config)) unknown_groups
  raise_if (any (λ g. is_in g assigned) (names config)) two_rings
  raise_if (not (one_card_set services (names config))) different_cards
  joined ← join_groups config (names config) services
  attach_rings known (assigned ++ names config) rings joined

unfoldable pub attach_colocations :
    List ServiceInfo → List ColocationRing → Result TopologyError (List ServiceInfo)
unfolding attach_rings
attach_colocations services rings = do
  raise_if (has_duplicates (map (λ (config : ColocationRing). config.group_id) rings))
      duplicate_rings
  attach_rings (map (λ (s : ServiceInfo). s.group_id) services) [] rings services
