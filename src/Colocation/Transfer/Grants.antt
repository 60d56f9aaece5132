-- ===== src/Colocation/Transfer/Grants.antt =====
-- What a manager learns of the grants, by each of its operations.
use meshy.Prelude.{
  ℕ, suc, ◌≡◌, refl, sym, ap, subst, ◌∙◌, String, Bool, true, false, not, ◌&&◌, Option, none, some,
  List, [], ◌∷◌, any, ◌⊎◌, inl, inr, str_eq, eq_iff, if◌then◌else◌, ok, ◌>>=◌, ◌>>◌, >>=-eq-ok,
  arith, All, Bool-cases, Option-cases,
}
use meshy.Colocation.Ring.{ColocationRing, GpuGrant, is_fallback, ring_index_for}
use meshy.Prelude.Dicts.{get}
use meshy.Colocation.Manager.{
  RequestRecord, Manager, owns_gpu, at_most, accept, check_next, apply_grant,
}
use meshy.Colocation.Rows.{noted, sequence_of, grant_known, records_of, waits_in_fallback}
use meshy.Colocation.Transfer.{ensure_fallback_request, observe, kept_waiting, observe_all}

abbrev pub target_of : Option GpuGrant → Option String
target_of none = none
target_of (some g) = some g.target

-- The three fields on the newest grant agree.
pub record IsCoherent (m : Manager) : Type 0 where
  pub last : m.last_sequence ≡ sequence_of m.grant
  pub owner : m.owner_service ≡ target_of m.grant

-- A grant comes next after the newest one that is known.
abbrev pub Follows : Option GpuGrant → GpuGrant → Type 0
Follows none g = g.sequence ≡ 0
Follows (some l) g = (g.sequence ≡ suc l.sequence) × (g.source ≡ l.target)

check_next-Follows :
    (config : ColocationRing) (m : Manager) (g : GpuGrant)
    → IsCoherent m
    → check_next config m g ≡ ok tt
    → Follows m.grant g
unfolding check_next
check_next-Follows config m g c h = elim (Option-cases m.grant) [
  | inl e ↦ rw e (let l : m.last_sequence ≡ none = c.last ∙ ap sequence_of e in ground arith)
  | inr (k, e) ↦ rw e (
      let l : m.last_sequence ≡ some k.sequence = c.last ∙ ap sequence_of e in
      ground (arith, eq_iff k.target g.source))
]

pub apply_grant-cases :
    (config : ColocationRing) (m : Manager) (g : GpuGrant) (n : Manager)
    → IsCoherent m
    → apply_grant config m g ≡ ok n
    → (n ≡ m) ⊎ (Follows m.grant g × (n ≡ accept m g))
unfolding apply_grant
apply_grant-cases config m g n c h = elim (Bool-cases (str_eq g.group_id config.group_id)) [
  | inr e ↦ inl (ground arith)
  | inl e ↦ elim (Bool-cases (at_most g.sequence m.last_sequence)) [
    | inl f ↦ inl (ground arith)
    | inr f ↦
        let k : (check_next config m g >> ok (accept m g)) ≡ ok n = ground arith in
        let s = >>=-eq-ok (check_next config m g) (λ _. ok (accept m g)) k in
        inr (check_next-Follows config m g c s.1, ground arith)
  ]
]

abbrev pub Among : GpuGrant → List GpuGrant → Type 0
Among g [] = ⊥
Among g (h ∷ hs) = (g ≡ h) ⊎ Among g hs

-- What a manager comes to know from published grants, one after another.
pub data Learns (published : List GpuGrant) : Option GpuGrant → Option GpuGrant → Type 0 where
  stays : (o : Option GpuGrant) → Learns published o o
  learns :
      (o p : Option GpuGrant) (g : GpuGrant)
      → Among g published
      → Follows o g
      → Learns published (some g) p
      → Learns published o p

Learns-trans :
    (published : List GpuGrant) (o p q : Option GpuGrant)
    → Learns published o p
    → Learns published p q
    → Learns published o q
Learns-trans published _ p q (stays o) k = k
Learns-trans published _ _ q (learns o p g a f h) k =
    learns o q g a f (Learns-trans published (some g) p q h k)

pub record Learned (published : List GpuGrant) (m n : Manager) : Type 0 where
  pub service : n.service_id ≡ m.service_id
  pub coherent : IsCoherent n
  pub grants : Learns published m.grant n.grant

pub Learned-trans :
    (published : List GpuGrant) (l m n : Manager)
    → Learned published l m
    → Learned published m n
    → Learned published l n
Learned-trans published l m n h k = record {
  service = k.service ∙ h.service;
  coherent = k.coherent;
  grants = Learns-trans published l.grant m.grant n.grant h.grants k.grants;
}

-- The fields on the newest grant, and the service, are the same.
pub record SameView (m n : Manager) : Type 0 where
  pub service : n.service_id ≡ m.service_id
  pub grant : n.grant ≡ m.grant
  pub last : n.last_sequence ≡ m.last_sequence
  pub owner : n.owner_service ≡ m.owner_service

pub SameView-refl : (m : Manager) → SameView m m
SameView-refl m = record { service = refl; grant = refl; last = refl; owner = refl }

pub SameView-of_eq : (m n : Manager) → n ≡ m → SameView m n
SameView-of_eq m n e = record {
  service = ap (λ (k : Manager). k.service_id) e;
  grant = ap (λ (k : Manager). k.grant) e;
  last = ap (λ (k : Manager). k.last_sequence) e;
  owner = ap (λ (k : Manager). k.owner_service) e;
}

pub SameView-trans : (l m n : Manager) → SameView l m → SameView m n → SameView l n
SameView-trans l m n h k = record {
  service = k.service ∙ h.service;
  grant = k.grant ∙ h.grant;
  last = k.last ∙ h.last;
  owner = k.owner ∙ h.owner;
}

pub Learned-of_SameView :
    (published : List GpuGrant) (m n : Manager)
    → IsCoherent m
    → SameView m n
    → Learned published m n
Learned-of_SameView published m n c v = record {
  service = v.service;
  coherent = record {
    last = v.last ∙ c.last ∙ ap sequence_of (sym v.grant);
    owner = v.owner ∙ c.owner ∙ ap target_of (sym v.grant);
  };
  grants = subst (λ o. Learns published m.grant o) (sym v.grant) (stays m.grant);
}

abbrev pub PublishedIf : List GpuGrant → Option GpuGrant → Type 0
PublishedIf published none = Unit
PublishedIf published (some g) = Among g published

-- The grant of a record, if it has one, has been published.
abbrev pub IsPublished : List GpuGrant → RequestRecord → Type 0
IsPublished published r = PublishedIf published r.grant

module _ (config : ColocationRing) (published : List GpuGrant) where
  apply_grant-Learned :
      (m : Manager) (g : GpuGrant) (n : Manager)
      → IsCoherent m
      → Among g published
      → apply_grant config m g ≡ ok n
      → Learned published m n
  unfolding accept
  apply_grant-Learned m g n c a h = elim (apply_grant-cases config m g n c h) [
    | inl e ↦ Learned-of_SameView published m n c (SameView-of_eq m n e)
    | inr (f, e) ↦ subst (Learned published m) (sym e) (record {
      service = refl;
      coherent = record { last = refl; owner = refl };
      grants = learns m.grant (some g) g a f (stays (some g));
    })
  ]

  module _ (fallback_id : String → ℕ → String) (now : ℕ) where
    pub ensure-SameView :
        (m : Manager) (s : String) (n : Manager)
        → ensure_fallback_request config fallback_id now m s ≡ ok n
        → SameView m n
    unfolding ensure_fallback_request
    ensure-SameView m s n h = elim (Bool-cases (any (waits_in_fallback s) (records_of m))) [
      | inl e ↦ SameView-of_eq m n (ground arith)
      | inr e ↦
          let k = rw e at h in
          let b = >>=-eq-ok (ring_index_for config s) _ k in
          record {
            service = ground arith;
            grant = ground arith;
            last = ground arith;
            owner = ground arith;
          }
    ]

    kept_waiting-Learned :
        (m n : Manager)
        → IsCoherent m
        → kept_waiting config fallback_id now m ≡ ok n
        → Learned published m n
    unfolding kept_waiting
    kept_waiting-Learned m n c h = elim (Bool-cases (is_fallback m.mode && not (owns_gpu m))) [
      | inl e ↦ Learned-of_SameView published m n c (ensure-SameView m m.service_id n (rw e at h))
      | inr e ↦ Learned-of_SameView published m n c (SameView-of_eq m n (ground arith))
    ]

    observe_grant-Learned :
        (m : Manager) (known : Bool) (g : GpuGrant) (n : Manager)
        → IsCoherent m
        → Among g published
        → (if known
            then ok m
            else (apply_grant config m g >>= λ k. kept_waiting config fallback_id now k))
          ≡ ok n
        → Learned published m n
    observe_grant-Learned m true g n c a h =
        Learned-of_SameView published m n c (SameView-of_eq m n (ground arith))
    observe_grant-Learned m false g n c a h =
        let b = >>=-eq-ok (apply_grant config m g) (λ k. kept_waiting config fallback_id now k) h in
        let l = apply_grant-Learned m g b.0 c a b.1 in
        Learned-trans published m b.0 n l (kept_waiting-Learned b.0 n l.coherent b.2)

    pub observe-Learned :
        (m : Manager) (previous : Option RequestRecord) (r : RequestRecord) (n : Manager)
        → IsCoherent m
        → IsPublished published r
        → observe config fallback_id now m previous r ≡ ok n
        → Learned published m n
    unfolding observe
    observe-Learned m previous r n c a h = elim (Option-cases r.grant) [
      | inl e ↦ Learned-of_SameView published m n c (SameView-of_eq m n (ground arith))
      | inr (g, e) ↦ observe_grant-Learned m (grant_known previous g) g n c (rw e at a) (rw e at h)
    ]

    pub noted-Learned :
        (m : Manager) (r : RequestRecord) → IsCoherent m → Learned published m (noted m r)
    unfolding noted
    noted-Learned m r c = record {
      service = refl;
      coherent = record { last = c.last; owner = c.owner };
      grants = stays m.grant;
    }

    pub observe_all-Learned :
        (m : Manager) (rs : List RequestRecord) (n : Manager)
        → IsCoherent m
        → All (IsPublished published) rs
        → observe_all config fallback_id now m rs ≡ ok n
        → Learned published m n
    unfolding observe_all
    observe_all-Learned m [] n c a h =
        Learned-of_SameView published m n c (SameView-of_eq m n (ground arith))
    observe_all-Learned m (r ∷ rs) n c a h =
        let b =
          >>=-eq-ok
            (observe config fallback_id now (noted m r) (get m.records r.handle.request.request_id)
              r)
            _ h in
        let l = noted-Learned m r c in
        let k =
          observe-Learned (noted m r) (get m.records r.handle.request.request_id) r b.0 l.coherent
            a.0 b.1 in
        Learned-trans published m (noted m r) n l (
          Learned-trans published (noted m r) b.0 n k
            (observe_all-Learned b.0 rs n k.coherent a.1 b.2))
