-- ===== src/Topology/Build/Sound.antt =====
-- What holds of the services that `build_topology` returns.
use meshy.Prelude.{
  ℕ, ◌≤◌, String, ◌≡◌, refl, sym, ap, subst, ◌∙◌, Option, none, some, List, [], ◌∷◌, map, ok,
  >>=-eq-ok, arith, All, take, sum, length,
}
use meshy.Prelude.Sort.{sort_by, sort_by-perm}
use meshy.Prelude.Bags.{length-perm}
use meshy.Colocation.Ring.{ColocationRing}
use meshy.Topology.Types.{Gpu, ServiceGroup, ServiceInfo, n_gpus}
use meshy.Topology.Place.{colocated_targets, place_groups}
use meshy.Topology.Place.Blocks.{claims, claimed_cards, length-take, place_groups-IsPlaced}
use meshy.Topology.Checks.{
  services_by_role, validate_ports, validate_critic_columns, validate_checkpoint,
}
use meshy.Topology.Checks.Ports.{GoodPorts, validate_ports_iff}
use meshy.Topology.Checks.Columns.{Wired, validate_critic_columns_iff}
use meshy.Topology.Attach.{attach_colocations}
use meshy.Topology.Attach.Rings.{ring_for, in_ring, attach_colocations-map}
use meshy.Topology.Build.{by_global_rank, nothing_placed, build_topology}

in_ring-claims : (o : Option ColocationRing) (s : ServiceInfo) → claims (in_ring o s) ≡ claims s
in_ring-claims none s = refl
in_ring-claims (some config) s = refl

in_ring-cards :
    (o : Option ColocationRing) (s : ServiceInfo) → (in_ring o s).replica_gpus ≡ s.replica_gpus
in_ring-cards none s = refl
in_ring-cards (some config) s = refl

-- Rings move no cards.
claimed_cards-in_ring :
    (rings : List ColocationRing) (services : List ServiceInfo)
    → claimed_cards (map (λ (s : ServiceInfo). in_ring (ring_for rings s.group_id) s) services)
      ≡ claimed_cards services
claimed_cards-in_ring rings [] = refl
claimed_cards-in_ring rings (s ∷ services) =
    rw
      (
        in_ring-claims (ring_for rings s.group_id) s,
        in_ring-cards (ring_for rings s.group_id) s,
        claimed_cards-in_ring rings services,
      )
      refl

-- The steps of a build that returns.
record Built (replica_name : String → ℕ → String) (sgs : List ServiceGroup) (gpus : List Gpu)
    (rings : List ColocationRing) (services : List ServiceInfo) : Type 0 where
  cards : claimed_cards services ≡ take (sum (map n_gpus sgs)) (sort_by by_global_rank gpus)
  enough : sum (map n_gpus sgs) ≤ length gpus
  ports : validate_ports services ≡ ok tt
  columns : validate_critic_columns services ≡ ok tt
  policies : validate_checkpoint services ≡ ok tt

build_topology-Built :
    (replica_name : String → ℕ → String) (sgs : List ServiceGroup) (gpus : List Gpu)
    (rings : List ColocationRing) (services : List ServiceInfo)
    → build_topology replica_name sgs gpus rings ≡ ok services
    → Built replica_name sgs gpus rings services
unfolding build_topology
build_topology-Built replica_name sgs gpus rings services h =
    let sorted = sort_by by_global_rank gpus in
    let a =
      >>=-eq-ok (place_groups replica_name sorted (colocated_targets sgs) nothing_placed sgs) _ h in
    let b = >>=-eq-ok (attach_colocations a.0.services rings) _ a.2 in
    let c = >>=-eq-ok (validate_ports b.0) _ b.2 in
    let d = >>=-eq-ok (validate_critic_columns b.0) _ c.2 in
    let e = >>=-eq-ok (validate_checkpoint b.0) _ d.2 in
    let same : b.0 ≡ services = ground (arith, e.2) in
    let p =
      place_groups-IsPlaced replica_name sorted (colocated_targets sgs) nothing_placed sgs a.0
        (record { cards = refl; room = omega arith }) a.1 in
    let cursor : a.0.cursor ≡ sum (map n_gpus sgs) = omega (arith, p.1) in
    subst (Built replica_name sgs gpus rings) same (record {
      cards =
          ap claimed_cards (sym (attach_colocations-map a.0.services b.0 rings b.1))
          ∙ claimed_cards-in_ring rings a.0.services
          ∙ p.0.cards
          ∙ ap (λ k. take k sorted) cursor;
      enough =
          omega
            (arith, cursor, p.0.room, length-perm sorted gpus (sort_by-perm by_global_rank gpus));
      ports = c.1;
      columns = d.1;
      policies = e.1;
    })

-- The groups that `build_topology` accepts claim no more cards than there are; the cards of the
-- services that it returns and that share no other group's, in the order of the services, are the first
-- cards by global rank, as many as those groups claim. So no card is given out twice, none is left out
-- between two groups, and none is missing at the end.
pub build_topology-cards :
    (replica_name : String → ℕ → String) (sgs : List ServiceGroup) (gpus : List Gpu)
    (rings : List ColocationRing) (services : List ServiceInfo)
    → build_topology replica_name sgs gpus rings ≡ ok services
    → (sum (map n_gpus sgs) ≤ length gpus)
      × (length (claimed_cards services) ≡ sum (map n_gpus sgs))
      × (claimed_cards services ≡ take (sum (map n_gpus sgs)) (sort_by by_global_rank gpus))
build_topology-cards replica_name sgs gpus rings services h =
    let b = build_topology-Built replica_name sgs gpus rings services h in
    let sorted = sort_by by_global_rank gpus in
    (
      b.enough,
      ap length b.cards
          ∙ length-take (sum (map n_gpus sgs)) sorted (
              subst (λ n. sum (map n_gpus sgs) ≤ n)
                (sym (length-perm sorted gpus (sort_by-perm by_global_rank gpus))) b.enough),
      b.cards,
    )

-- Each service on cards that `build_topology` returns has an endpoint port and a process-group port
-- between 1 and 65535, no two services on cards have one host and one endpoint port, or one host and one
-- process-group port, and each critic and each trainer agree on the column between them. Services
-- without cards are exempt from what is said of ports.
pub build_topology-is_checked :
    (replica_name : String → ℕ → String) (sgs : List ServiceGroup) (gpus : List Gpu)
    (rings : List ColocationRing) (services : List ServiceInfo)
    → build_topology replica_name sgs gpus rings ≡ ok services
    → GoodPorts (λ (s : ServiceInfo). s.endpoint_port) services
      × GoodPorts (λ (s : ServiceInfo). s.dist_port) services
      × All
          (λ c. All (Wired c) (services_by_role "training" services))
          (services_by_role "critic" services)
build_topology-is_checked replica_name sgs gpus rings services h =
    let b = build_topology-Built replica_name sgs gpus rings services h in
    let p = (validate_ports_iff services).0 b.ports in
    (p.0, p.1, (validate_critic_columns_iff services).0 b.columns)
