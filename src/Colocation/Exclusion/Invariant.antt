-- ===== src/Colocation/Exclusion/Invariant.antt =====
-- The published grants are a chain, and each manager knows all grants that it made.
use meshy.Prelude.{
  ℕ, ◌≡◌, refl, sym, ap, subst, ◌∙◌, String, true, Option, none, some, List, [], ◌∷◌, inl, inr,
  str_eq, eq_iff, arith, Bool-cases, Option-cases,
}
use meshy.Colocation.Ring.{ColocationRing, GpuGrant, GpuRequest, SchedulingMode, initial_owner}
use meshy.Colocation.Manager.{Manager, owns_gpu, fresh_manager, issue_genesis, genesis_grant, Event}
use meshy.Colocation.Rows.{run_request}
use meshy.Colocation.Transfer.Grants.{IsCoherent, stays, Learned}
use meshy.Colocation.Transfer.Handover.{Passes, owner-Owns}
use meshy.Colocation.Transfer.Turns.{Outcome, transfer-Outcome, reconcile_record-Outcome}
use meshy.Colocation.Exclusion.{
  System, update, after, Step, turns, releases, requests, IsStart, Reaches, starts, steps,
}
use meshy.Colocation.Exclusion.Chain.{IsChain}
use meshy.Colocation.Exclusion.Views.{
  IsUpToDate, IsUpToDate-Learned, owner-newest, IsChain-Passes, IsUpToDate-maker, IsUpToDate-other,
  IsConsistent,
}

-- One service's turn, when it makes no grant.
after-none :
    (sys : System) (s : String) (n : Manager)
    → IsConsistent sys
    → Learned sys.published (sys.managers s) n
    → IsConsistent (after sys s none n)
unfolding update
after-none sys s n c l = record {
  newest = c.newest;
  older = c.older;
  published = c.published;
  chain = c.chain;
  managers = λ t. elim (Bool-cases (str_eq s t)) [
    | inl e ↦ rw e (
        subst (λ u. IsUpToDate sys.published u n) ((eq_iff s t).0 e)
          (IsUpToDate-Learned sys.published s (sys.managers s) n l (c.managers s)))
    | inr e ↦ rw e (c.managers t)
  ];
}

-- One service's turn, when it makes a grant.
after-some :
    (sys : System) (s : String) (k n : Manager) (l g : GpuGrant)
    → IsConsistent sys
    → Learned sys.published (sys.managers s) k
    → Passes k n l g
    → IsConsistent (after sys s (some g) n)
unfolding update
after-some sys s k n l g c w p =
    let gs : List GpuGrant = c.newest ∷ c.older in
    let u =
      subst (λ q. IsUpToDate q s k) c.published
        (IsUpToDate-Learned sys.published s (sys.managers s) k w (c.managers s)) in
    let chain = IsChain-Passes c.newest c.older s k n l g (subst IsChain c.published c.chain) u p in
    let made = IsUpToDate-maker c.newest c.older s k n l g chain u p in
    let back : (g ∷ gs) ≡ (g ∷ sys.published) = ap (λ q. g ∷ q) (sym c.published) in
    record {
      newest = g;
      older = sys.published;
      published = refl;
      chain = subst IsChain back chain;
      managers = λ t. elim (Bool-cases (str_eq s t)) [
        | inl e ↦ rw e (
            subst (λ v. IsUpToDate (g ∷ sys.published) v n) ((eq_iff s t).0 e)
              (subst (λ q. IsUpToDate q s n) back made))
        | inr e ↦ rw e (
            IsUpToDate-other sys.published t (sys.managers t) g
              (ap (λ v. str_eq v t) (p.source ∙ u.service) ∙ e) (c.managers t))
      ];
    }

after-Outcome :
    (sys : System) (s : String) (og : Option GpuGrant) (n : Manager)
    → IsConsistent sys
    → Outcome sys.published (sys.managers s) og n
    → IsConsistent (after sys s og n)
after-Outcome sys s none n c o = after-none sys s n c o
after-Outcome sys s (some g) n c (k, l, w, p) = after-some sys s k n l g c w p

run_request-Learned :
    (published : List GpuGrant) (m : Manager) (q : GpuRequest)
    → IsCoherent m
    → Learned published m (run_request m q)
unfolding run_request
run_request-Learned published m q c = record {
  service = refl;
  coherent = record { last = c.last; owner = c.owner };
  grants = stays m.grant;
}

issued-sequence :
    (config : ColocationRing) (name : String) (g : GpuGrant) (es : List Event)
    → issue_genesis config name ≡ some (g, es)
    → g.sequence ≡ 0
unfolding issue_genesis genesis_grant
issued-sequence config name g es h = elim (Option-cases (initial_owner config)) [
  | inl e ↦ absurd (ground (arith, e, h))
  | inr (owner, e) ↦ ground (arith, e, h)
]

fresh-IsUpToDate :
    (g : GpuGrant) (s : String) (mode : SchedulingMode)
    → g.sequence ≡ 0
    → IsUpToDate (g ∷ []) s (fresh_manager s mode)
unfolding fresh_manager
fresh-IsUpToDate g s mode z = record {
  service = refl;
  coherent = record { last = refl; owner = refl };
  knows = record {
    known = tt;
    caught = λ x a q e. elim a [
      | inl f ↦ absurd (omega (arith, z, ap (λ (y : GpuGrant). y.sequence) f))
      | inr b ↦ absurd b
    ];
  };
}

start-IsConsistent :
    (config : ColocationRing) (sys : System) → IsStart config sys → IsConsistent sys
start-IsConsistent config sys i =
    let z = issued-sequence config i.name i.genesis i.events i.issued in
    record {
      newest = i.genesis;
      older = [];
      published = i.published;
      chain = subst IsChain (sym i.published) z;
      managers = λ s.
          subst (λ q. IsUpToDate q s (sys.managers s)) (sym i.published)
            (subst (IsUpToDate (i.genesis ∷ []) s) (sym (i.fresh s))
              (fresh-IsUpToDate i.genesis s (i.modes s) z));
    }

module _ (config : ColocationRing) (fallback_id : String → ℕ → String) where
  Step-IsConsistent :
      (sys next : System) → Step config fallback_id sys next → IsConsistent sys → IsConsistent next
  Step-IsConsistent _ _ (turns sys s now r scans og n w a h) c = after-Outcome sys s og n c (
      reconcile_record-Outcome config sys.published fallback_id now (sys.managers s) r scans og n
        (c.managers s).coherent w a h)
  Step-IsConsistent _ _ (releases sys s now scans transition payload_ref og n a h) c =
      after-Outcome sys s og n c (
        transfer-Outcome config sys.published fallback_id now (sys.managers s) scans transition
          payload_ref og n (c.managers s).coherent a h)
  Step-IsConsistent _ _ (requests sys s q) c =
      after-Outcome sys s none (run_request (sys.managers s) q) c
        (run_request-Learned sys.published (sys.managers s) q (c.managers s).coherent)

  Reaches-IsConsistent :
      (sys end : System) → Reaches config fallback_id sys end → IsConsistent sys → IsConsistent end
  Reaches-IsConsistent _ _ starts c = c
  Reaches-IsConsistent sys _ (steps mid end r x) c =
      Step-IsConsistent mid end x (Reaches-IsConsistent sys mid r c)

  -- From a start, whatever turns, releases and requests follow in whatever order, two services whose
  -- managers own the GPU are one service.
  pub one_owner :
      (sys end : System) (s t : String)
      → IsStart config sys
      → Reaches config fallback_id sys end
      → owns_gpu (end.managers s) ≡ true
      → owns_gpu (end.managers t) ≡ true
      → s ≡ t
  one_owner sys end s t i r a b =
      let c = Reaches-IsConsistent sys end r (start-IsConsistent config sys i) in
      let chain = subst IsChain c.published c.chain in
      let here = subst (λ q. IsUpToDate q s (end.managers s)) c.published (c.managers s) in
      let there = subst (λ q. IsUpToDate q t (end.managers t)) c.published (c.managers t) in
      let o = owner-Owns (end.managers s) (c.managers s).coherent a in
      let p = owner-Owns (end.managers t) (c.managers t).coherent b in
      let e = owner-newest c.newest c.older s (end.managers s) o.0 chain here o.1 in
      let f = owner-newest c.newest c.older t (end.managers t) p.0 chain there p.1 in
      sym (o.1.target ∙ (c.managers s).service)
      ∙ ap (λ (x : GpuGrant). x.target) (e ∙ sym f)
      ∙ p.1.target
      ∙ (c.managers t).service

  -- From a start, whatever turns, releases and requests follow in whatever order, the grants that
  -- were published go on from one another without a gap: each has the number after the one before
  -- it, and is made by the service that the one before it was made for; the first has the number 0.
  pub published-IsChain :
      (sys end : System)
      → IsStart config sys
      → Reaches config fallback_id sys end
      → IsChain end.published
  published-IsChain sys end i r =
      (Reaches-IsConsistent sys end r (start-IsConsistent config sys i)).chain
