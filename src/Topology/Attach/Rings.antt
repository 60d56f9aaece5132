-- ===== src/Topology/Attach/Rings.antt =====
-- What `_attach_colocations` leaves in each service.
use meshy.Prelude.{
  String, ◌≡◌, refl, sym, ap, ◌∙◌, Bool, true, false, not, ◌||◌, Option, none, some, List, [], ◌∷◌,
  ◌++◌, map, any, all, str_eq, ◌==◌, eq_iff, if◌then◌else◌, ok, raise_if, >>=-eq-ok, arith, inl,
  inr, Bool-cases, map-map,
}
use meshy.Colocation.Ring.{ColocationRing, names, has_duplicates}
use meshy.Topology.Types.{
  ServiceInfo, unknown_groups, two_rings, different_cards, not_colocated, duplicate_rings,
}
use meshy.Topology.Place.{is_in}
use meshy.Topology.Lookups.{group}
use meshy.Topology.Attach.{
  one_card_set, nobody, join_ring, join_groups, attach_rings, attach_colocations,
}

-- The first ring that names a group.
abbrev pub ring_for : List ColocationRing → String → Option ColocationRing
ring_for [] g = none
ring_for (config ∷ rings) g =
    let rest = ring_for rings g in if is_in g (names config) then some config else rest

-- A service with the ring of its group, if there is one: replica 0 leads, the others do not, and all
-- else is as it was.
abbrev pub in_ring : Option ColocationRing → ServiceInfo → ServiceInfo
in_ring none s = s
in_ring (some config) s = record s {
  colocation = some config;
  is_colocation_leader = s.replica_idx == 0;
}

join_ring-group :
    (config : ColocationRing) (b : Bool) (s : ServiceInfo)
    → (join_ring config b s).group_id ≡ s.group_id
unfolding join_ring
join_ring-group config false s = refl
join_ring-group config true s = refl

join_ring-join_ring :
    (config : ColocationRing) (a b : Bool) (s : ServiceInfo)
    → join_ring config b (join_ring config a s) ≡ join_ring config (a || b) s
unfolding join_ring
join_ring-join_ring config false b s = refl
join_ring-join_ring config true false s = refl
join_ring-join_ring config true true s = refl

map-ext {ℓ κ} :
    {A : Type ℓ} {B : Type κ} (f g : A → B) (xs : List A)
    → ((x : A) → f x ≡ g x)
    → map f xs ≡ map g xs
map-ext f g [] h = refl
map-ext f g (x ∷ xs) h = rw (h x, map-ext f g xs h) refl

map-same {ℓ} : {A : Type ℓ} (f : A → A) (xs : List A) → ((x : A) → f x ≡ x) → map f xs ≡ xs
map-same f [] h = refl
map-same f (x ∷ xs) h = rw (h x, map-same f xs h) refl

is_in_step :
    (g h : String) (groups : List String) → (str_eq h g || is_in h groups) ≡ is_in h (g ∷ groups)
is_in_step g h groups = ground (arith, eq_iff h g, eq_iff g h)

join_groups-map :
    (config : ColocationRing) (groups : List String) (services joined : List ServiceInfo)
    → join_groups config groups services ≡ ok joined
    → map (λ (s : ServiceInfo). join_ring config (is_in s.group_id groups) s) services ≡ joined
unfolding join_groups join_ring
join_groups-map config [] services joined h =
    map-same (λ (s : ServiceInfo). join_ring config (is_in s.group_id []) s) services (λ s. refl)
    ∙ ground (arith, h)
join_groups-map config (g ∷ groups) services joined h =
    let once = λ (s : ServiceInfo). join_ring config (str_eq s.group_id g) s in
    let more = λ (s : ServiceInfo). join_ring config (is_in s.group_id groups) s in
    let a =
      >>=-eq-ok
        (raise_if
          (nobody (group services g)
            || not (all (λ (s : ServiceInfo). s.is_colocate) (group services g)))
          not_colocated)
        _ h in
    map-ext (λ (s : ServiceInfo). join_ring config (is_in s.group_id (g ∷ groups)) s)
      (λ s. more (once s)) services
      (λ s.
        ap (λ b. join_ring config b s) (sym (is_in_step g s.group_id groups))
        ∙ sym (join_ring-join_ring config (str_eq s.group_id g) (is_in s.group_id groups) s)
        ∙ ap (λ h. join_ring config (is_in h groups) (once s))
            (sym (join_ring-group config (str_eq s.group_id g) s)))
    ∙ sym (map-map more once services)
    ∙ join_groups-map config groups (map once services) joined a.2

is_in-append : (g : String) (xs ys : List String) → is_in g (xs ++ ys) ≡ (is_in g xs || is_in g ys)
is_in-append g [] ys = refl
is_in-append g (x ∷ xs) ys = ground (arith, is_in-append g xs ys)

-- A group that is assigned is not among those that pass the check.
assigned_elsewhere :
    (g : String) (assigned groups : List String)
    → is_in g assigned ≡ true
    → any (λ h. is_in h assigned) groups ≡ false
    → is_in g groups ≡ false
assigned_elsewhere g assigned [] h n = refl
assigned_elsewhere g assigned (x ∷ groups) h n = elim (Bool-cases (str_eq x g)) [
  | inl e ↦
      let same : x ≡ g = (eq_iff x g).0 e in
      let there : is_in x assigned ≡ true = ap (λ y. is_in y assigned) same ∙ h in
      absurd (ground (arith, n, there))
  | inr e ↦ ground (arith, assigned_elsewhere g assigned groups h, n, e)
]

record Joins (known assigned : List String) (config : ColocationRing) (rings : List ColocationRing)
    (services attached : List ServiceInfo) : Type 0 where
  free : any (λ g. is_in g assigned) (names config) ≡ false
  joined : List ServiceInfo
  joins : join_groups config (names config) services ≡ ok joined
  others : attach_rings known (assigned ++ names config) rings joined ≡ ok attached

attach_rings-Joins :
    (known assigned : List String) (config : ColocationRing) (rings : List ColocationRing)
    (services attached : List ServiceInfo)
    → attach_rings known assigned (config ∷ rings) services ≡ ok attached
    → Joins known assigned config rings services attached
unfolding attach_rings
attach_rings-Joins known assigned config rings services attached h =
    let a =
      >>=-eq-ok (raise_if (any (λ g. not (is_in g known)) (names config)) unknown_groups) _ h in
    let b = >>=-eq-ok (raise_if (any (λ g. is_in g assigned) (names config)) two_rings) _ a.2 in
    let c =
      >>=-eq-ok (raise_if (not (one_card_set services (names config))) different_cards) _ b.2 in
    let d = >>=-eq-ok (join_groups config (names config) services) _ c.2 in
    record { free = ground (arith, b.1); joined = d.0; joins = d.1; others = d.2 }

ring_for-assigned :
    (known assigned : List String) (rings : List ColocationRing)
    (services attached : List ServiceInfo) (g : String)
    → attach_rings known assigned rings services ≡ ok attached
    → is_in g assigned ≡ true
    → ring_for rings g ≡ none
ring_for-assigned known assigned [] services attached g h i = refl
ring_for-assigned known assigned (config ∷ rings) services attached g h i =
    let j = attach_rings-Joins known assigned config rings services attached h in
    let n = assigned_elsewhere g assigned (names config) i j.free in
    let k =
      ring_for-assigned known (assigned ++ names config) rings j.joined attached g j.others
        (ground (arith, is_in-append g assigned (names config), i)) in
    ground (arith, n, k)

in_ring-join_ring :
    (rings : List ColocationRing) (config : ColocationRing) (s : ServiceInfo)
    → (is_in s.group_id (names config) ≡ true → ring_for rings s.group_id ≡ none)
    → in_ring (ring_for (config ∷ rings) s.group_id) s
      ≡ in_ring (ring_for rings s.group_id) (join_ring config (is_in s.group_id (names config)) s)
unfolding join_ring
in_ring-join_ring rings config s h = elim (Bool-cases (is_in s.group_id (names config))) [
  | inl e ↦ rw (e, h e) refl
  | inr e ↦ rw e refl
]

attach_rings-map :
    (known assigned : List String) (rings : List ColocationRing)
    (services attached : List ServiceInfo)
    → attach_rings known assigned rings services ≡ ok attached
    → map (λ (s : ServiceInfo). in_ring (ring_for rings s.group_id) s) services ≡ attached
unfolding attach_rings
attach_rings-map known assigned [] services attached h =
    map-same (λ (s : ServiceInfo). in_ring (ring_for [] s.group_id) s) services (λ s. refl)
    ∙ ground (arith, h)
attach_rings-map known assigned (config ∷ rings) services attached h =
    let j = attach_rings-Joins known assigned config rings services attached h in
    let once = λ (s : ServiceInfo). join_ring config (is_in s.group_id (names config)) s in
    let more = λ (s : ServiceInfo). in_ring (ring_for rings s.group_id) s in
    map-ext (λ (s : ServiceInfo). in_ring (ring_for (config ∷ rings) s.group_id) s)
      (λ s. more (once s)) services
      (λ s.
        in_ring-join_ring rings config s (λ i.
          ring_for-assigned known (assigned ++ names config) rings j.joined attached s.group_id
            j.others (ground (arith, is_in-append s.group_id assigned (names config), i)))
        ∙ ap (λ g. in_ring (ring_for rings g) (once s))
            (sym (join_ring-group config (is_in s.group_id (names config)) s)))
    ∙ sym (map-map more once services)
    ∙ ap (map more) (join_groups-map config (names config) services j.joined j.joins)
    ∙ attach_rings-map known (assigned ++ names config) rings j.joined attached j.others

-- Where `_attach_colocations` accepts the rings, the services are the same in the same order, but that
-- each whose group some ring names has the first ring that names it, and is the leader exactly if it is
-- replica 0; a service whose group no ring names, and every other field, is as it was.
pub attach_colocations-map :
    (services attached : List ServiceInfo) (rings : List ColocationRing)
    → attach_colocations services rings ≡ ok attached
    → map (λ (s : ServiceInfo). in_ring (ring_for rings s.group_id) s) services ≡ attached
unfolding attach_colocations
attach_colocations-map services attached rings h =
    let a =
      >>=-eq-ok
        (raise_if (has_duplicates (map (λ (config : ColocationRing). config.group_id) rings))
          duplicate_rings)
        _ h in
    attach_rings-map (map (λ (s : ServiceInfo). s.group_id) services) [] rings services attached a.2
