-- ===== src/Topology/Checks/Ports.antt =====
-- What `_validate_ports` accepts.
use meshy.Prelude.{
  ℕ, String, ◌≡◌, ◌↔◌, refl, Bool, true, false, not, ◌&&◌, ◌||◌, List, [], ◌∷◌, ◌==◌, leb, str_eq,
  ok, raise_if, >>=-eq-ok, arith, All, All-map, All-of_each, Bool-cases, inl, inr,
}
use meshy.Topology.Types.{ServiceInfo, invalid_port, port_collision}
use meshy.Topology.Checks.{in_range, owned, check_ports, validate_ports}

module _ (attribute : ServiceInfo → ℕ) where
  abbrev pub InRange : ServiceInfo → Type 0
  InRange s = (not s.uses_gpu || (leb 1 (attribute s) && leb (attribute s) 65535)) ≡ true

  -- Two services on cards have one address.
  abbrev pub clash : ServiceInfo → ServiceInfo → Bool
  clash s t = s.uses_gpu && (t.uses_gpu && (str_eq s.host t.host && attribute s == attribute t))

  abbrev pub AllApart : List ServiceInfo → Type 0
  AllApart [] = Unit
  AllApart (s ∷ ss) = All (λ t. clash s t ≡ false) ss × AllApart ss

  abbrev IsFree : List (String × ℕ) → ServiceInfo → Type 0
  IsFree owners s = (s.uses_gpu && owned s.host (attribute s) owners) ≡ false

  IsFree-later :
      (s : ServiceInfo) (owners : List (String × ℕ)) (t : ServiceInfo)
      → s.uses_gpu ≡ true
      → IsFree ((s.host, attribute s) ∷ owners) t
      → IsFree owners t × (clash s t ≡ false)
  IsFree-later s owners t u f = (ground (arith, f), ground (arith, f))

  IsFree-sooner :
      (s : ServiceInfo) (owners : List (String × ℕ)) (t : ServiceInfo)
      → IsFree owners t
      → (s.uses_gpu ≡ true)
      → (clash s t ≡ false)
      → IsFree ((s.host, attribute s) ∷ owners) t
  IsFree-sooner s owners t f u c = ground arith

  not_clash : (s t : ServiceInfo) → s.uses_gpu ≡ false → clash s t ≡ false
  not_clash s t u = ground arith

  check_ports_sound :
      (owners : List (String × ℕ)) (ss : List ServiceInfo)
      → check_ports attribute owners ss ≡ ok tt
      → All InRange ss × All (IsFree owners) ss × AllApart ss
  unfolding check_ports
  check_ports_sound owners [] h = (tt, tt, tt)
  check_ports_sound owners (s ∷ ss) h = elim (Bool-cases s.uses_gpu) [
    | inr u ↦
        let r = check_ports_sound owners ss (rw u at h) in
        (
          (ground arith, r.0),
          (ground arith, r.1),
          (All-of_each (λ t. clash s t ≡ false) (λ t. not_clash s t u) ss, r.2),
        )
    | inl u ↦
        let a = >>=-eq-ok (raise_if (not (in_range (attribute s))) invalid_port) _ (rw u at h) in
        let b = >>=-eq-ok (raise_if (owned s.host (attribute s) owners) port_collision) _ a.2 in
        let r = check_ports_sound ((s.host, attribute s) ∷ owners) ss b.2 in
        (
          (ground (arith, a.1), r.0),
          (
            ground (arith, b.1),
            All-map _ (IsFree owners) ss (λ t f. (IsFree-later s owners t u f).0) r.1,
          ),
          (All-map _ (λ t. clash s t ≡ false) ss (λ t f. (IsFree-later s owners t u f).1) r.1, r.2),
        )
  ]

  All-both :
      (P Q : ServiceInfo → Type 0) (ss : List ServiceInfo)
      → All P ss
      → All Q ss
      → All (λ s. P s × Q s) ss
  All-both P Q [] p q = tt
  All-both P Q (s ∷ ss) p q = ((p.0, q.0), All-both P Q ss p.1 q.1)

  check_ports_complete :
      (owners : List (String × ℕ)) (ss : List ServiceInfo)
      → All InRange ss
      → All (IsFree owners) ss
      → AllApart ss
      → check_ports attribute owners ss ≡ ok tt
  unfolding check_ports
  check_ports_complete owners [] r f a = refl
  check_ports_complete owners (s ∷ ss) r f a = elim (Bool-cases s.uses_gpu) [
    | inr u ↦ rw u (check_ports_complete owners ss r.1 f.1 a.1)
    | inl u ↦
        let free =
          All-map (λ t. IsFree owners t × (clash s t ≡ false))
            (IsFree ((s.host, attribute s) ∷ owners)) ss (λ t p. IsFree-sooner s owners t p.0 u p.1)
            (All-both _ _ ss f.1 a.0) in
        let ih = check_ports_complete ((s.host, attribute s) ∷ owners) ss r.1 free a.1 in
        let good : in_range (attribute s) ≡ true = ground (arith, r.0, u) in
        let fresh : owned s.host (attribute s) owners ≡ false = ground (arith, f.0, u) in
        rw (u, good, fresh) ih
  ]

  IsFree-start : (ss : List ServiceInfo) → All (IsFree []) ss
  IsFree-start ss = All-of_each (IsFree []) (λ s. ground arith) ss

-- Every port that a service on cards has is between 1 and 65535, and no two of those services have
-- one host and one port.
abbrev pub GoodPorts : (ServiceInfo → ℕ) → List ServiceInfo → Type 0
GoodPorts attribute services = All (InRange attribute) services × AllApart attribute services

-- `_validate_ports` accepts exactly the services whose endpoint ports, and whose distribution ports,
-- are in range and apart: those of a service on cards are between 1 and 65535, and no two services on
-- cards have one host and one port.
pub validate_ports_iff :
    (services : List ServiceInfo)
    → (validate_ports services ≡ ok tt)
      ↔ (GoodPorts (λ s. s.endpoint_port) services × GoodPorts (λ s. s.dist_port) services)
unfolding validate_ports
validate_ports_iff services = (
  λ h.
      let s = >>=-eq-ok (check_ports (λ s. s.endpoint_port) [] services) _ h in
      let a = check_ports_sound (λ s. s.endpoint_port) [] services s.1 in
      let b = check_ports_sound (λ s. s.dist_port) [] services s.2 in ((a.0, a.2), (b.0, b.2)),
  λ g.
      rw
        (check_ports_complete (λ s. s.endpoint_port) [] services g.0.0
          (IsFree-start (λ s. s.endpoint_port) services) g.0.1)
        (check_ports_complete (λ s. s.dist_port) [] services g.1.0
          (IsFree-start (λ s. s.dist_port) services) g.1.1),
)
