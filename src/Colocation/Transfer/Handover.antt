-- ===== src/Colocation/Transfer/Handover.antt =====
-- What a transfer does with the newest grant: it makes the next one, and makes it as the owner.
use meshy.Prelude.{
  suc, ◌≡◌, refl, sym, ap, ◌∙◌, String, true, Option, none, some, ◌∷◌, inl, inr, eq_iff, ok, arith,
  Option-cases,
}
use meshy.Colocation.Ring.{ColocationRing, GpuGrant}
use meshy.Prelude.Dicts.{get}
use meshy.Colocation.Manager.{
  RequestHandle, RequestRecord, Manager, owns_gpu, next_sequence, accept, check_next, apply_grant,
  released,
}
use meshy.Colocation.Rows.{
  close_current, close_named, close_handle, grant_request, next_grant, hand_over, sequence_of,
  request_of, requester,
}
use meshy.Colocation.Transfer.Grants.{IsCoherent, target_of, SameView, SameView-refl}

close_handle-SameView :
    (m : Manager) (s : String) (h : Option RequestHandle) → SameView m (close_handle m s h)
unfolding close_handle
close_handle-SameView m s none = SameView-refl m
close_handle-SameView m s (some h) = record {
  service = refl;
  grant = refl;
  last = refl;
  owner = refl;
}

close_named-SameView : (m : Manager) (s : Option String) → SameView m (close_named m s)
unfolding close_named
close_named-SameView m none = SameView-refl m
close_named-SameView m (some s) = close_handle-SameView m s (get m.handles s)

pub close_current-SameView : (m : Manager) → SameView m (close_current m)
unfolding close_current
close_current-SameView m = close_named-SameView m (request_of m.grant)

-- The grant that follows the newest one is accepted.
apply_grant-accepts :
    (config : ColocationRing) (m : Manager) (l g : GpuGrant)
    → m.grant ≡ some l
    → m.last_sequence ≡ some l.sequence
    → g.group_id ≡ config.group_id
    → g.sequence ≡ suc l.sequence
    → g.source ≡ l.target
    → apply_grant config m g ≡ ok (accept m g)
unfolding apply_grant check_next
apply_grant-accepts config m l g e f h k s =
    ground (arith, eq_iff g.group_id config.group_id, eq_iff l.target g.source)

-- The owner's newest grant is its own.
pub record Owns (m : Manager) (l : GpuGrant) : Type 0 where
  pub newest : m.grant ≡ some l
  pub target : l.target ≡ m.service_id

pub owner-Owns : (m : Manager) → IsCoherent m → owns_gpu m ≡ true → (l : GpuGrant) × Owns m l
owner-Owns m c h = elim (Option-cases m.grant) [
  | inl e ↦ (let o : m.owner_service ≡ none = c.owner ∙ ap target_of e in absurd (ground arith))
  | inr (l, e) ↦
      (let o : m.owner_service ≡ some l.target = c.owner ∙ ap target_of e in
        (l, record { newest = e; target = ground (arith, eq_iff l.target m.service_id) }))
]

-- A transfer that makes a grant makes the one after the owner's, and as the owner.
pub record Passes (m n : Manager) (l g : GpuGrant) : Type 0 where
  pub owns : Owns m l
  pub next : g.sequence ≡ suc l.sequence
  pub source : g.source ≡ m.service_id
  pub service : n.service_id ≡ m.service_id
  pub coherent : IsCoherent n
  pub newest : n.grant ≡ some g

module _ (config : ColocationRing) where
  -- What is left of `m` when the grant is about to be made.
  abbrev vacated : Manager → RequestRecord → Manager
  vacated m r = close_current (record m { trace = released (requester r) ∷ m.trace })

  vacated-SameView : (m : Manager) (r : RequestRecord) → SameView m (vacated m r)
  vacated-SameView m r =
      let v = close_current-SameView (record m { trace = released (requester r) ∷ m.trace }) in
      record { service = v.service; grant = v.grant; last = v.last; owner = v.owner }

  -- The owner's hand-over never raises.
  pub hand_over-Passes :
      (m : Manager) (r : RequestRecord) (transition : String) (payload_ref : Option String)
      → IsCoherent m
      → owns_gpu m ≡ true
      → (l : GpuGrant) × (g : GpuGrant) × (n : Manager) × (hand_over config m r transition
            payload_ref
          ≡ ok (some g, n))
        × Passes m n l g
        × (g.target ≡ requester r)
  unfolding hand_over
  hand_over-Passes m r transition payload_ref c h =
      let o = owner-Owns m c h in
      let l = o.0 in
      let v = vacated-SameView m r in
      let g = next_grant config (vacated m r) r transition payload_ref in
      let k = grant_request (vacated m r) r g in
      let last : m.last_sequence ≡ some l.sequence = c.last ∙ ap sequence_of o.1.newest in
      let e = v.grant ∙ o.1.newest in
      let f = v.last ∙ last in
      let sq : g.sequence ≡ suc l.sequence = unfold next_grant in ap next_sequence f in
      let sv : g.source ≡ m.service_id = unfold next_grant in v.service in
      let a : apply_grant config k g ≡ ok (accept k g) =
        apply_grant-accepts config k l g (unfold grant_request in e) (unfold grant_request in f)
          (unfold next_grant in refl) sq (sv ∙ sym o.1.target) in
      (
        l,
        g,
        accept k g,
        rw a refl,
        record {
          owns = o.1;
          next = sq;
          source = sv;
          service = unfold accept grant_request in v.service;
          coherent = unfold accept in record { last = refl; owner = refl };
          newest = unfold accept in refl;
        },
        unfold next_grant in refl,
      )
