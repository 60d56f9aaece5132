-- ===== src/Colocation/Transfer/Turns.antt =====
-- What a transfer, and one turn of the loop of `_reconcile`, do with the newest grant.
use meshy.Prelude.{
  ℕ, zero, suc, ◌≡◌, sym, ap, subst, ◌∙◌, String, Bool, true, false, not, Option, none, some, List,
  [], ◌∷◌, inl, inr, str_eq, Result, ok, raise_if, >>=-eq-ok, arith, All, Bool-cases,
}
use meshy.Prelude.Sort.{sort_by, All-sort_by}
use meshy.Colocation.Ring.{
  ColocationRing, GpuGrant, ColocationError, ring_index_for, not_owner, reentered,
}
use meshy.Prelude.Dicts.{get}
use meshy.Colocation.Manager.{RequestRecord, Manager, owns_gpu, is_name}
use meshy.Colocation.Rows.{
  finish, next_ring_member, has_open_request_from, noted, preempts, grant_leb, candidates,
}
use meshy.Colocation.Transfer.{
  ensure_fallback_request, select_next, select_from, observe, reconcile_waiting, wait_for,
  transfer_locked, transfer, reconcile_record,
}
use meshy.Colocation.Transfer.Grants.{
  IsCoherent, Learned, Learned-trans, SameView, SameView-of_eq, SameView-trans, Learned-of_SameView,
  IsPublished, ensure-SameView, observe-Learned, noted-Learned, observe_all-Learned,
}
use meshy.Colocation.Transfer.Handover.{Passes, hand_over-Passes}

-- A call learns from published grants; if it makes a grant, it does so at the end, as the owner.
abbrev pub Outcome : List GpuGrant → Manager → Option GpuGrant → Manager → Type 0
Outcome published m none n = Learned published m n
Outcome published m (some g) n =
    (k : Manager) × (l : GpuGrant) × Learned published m k × Passes k n l g

module _ (config : ColocationRing) (published : List GpuGrant) (fallback_id : String → ℕ → String)
    (now : ℕ) where
  wait_for-Learned :
      (member : String) (m : Manager) (scans : List (List RequestRecord)) (n : Manager)
      → IsCoherent m
      → All (All (IsPublished published)) scans
      → wait_for config fallback_id now member m scans ≡ ok n
      → Learned published m n
  unfolding wait_for reconcile_waiting
  wait_for-Learned member m [] n c a h =
      Learned-of_SameView published m n c (SameView-of_eq m n (ground arith))
  wait_for-Learned member m (scan ∷ scans) n c a h =
      elim (Bool-cases (has_open_request_from m member)) [
        | inl e ↦ Learned-of_SameView published m n c (SameView-of_eq m n (ground arith))
        | inr e ↦
            let b = >>=-eq-ok (reconcile_waiting config fallback_id now m scan) _ (rw e at h) in
            let l =
              observe_all-Learned config published fallback_id now m (sort_by grant_leb scan) b.0 c
                (All-sort_by grant_leb (IsPublished published) scan a.0) b.1 in
            Learned-trans published m b.0 n l
              (wait_for-Learned member b.0 scans n l.coherent a.1 b.2)
      ]

  select_from-SameView :
      (again : Manager → Result ColocationError (Option RequestRecord × Manager)) (m : Manager)
      (rs : List RequestRecord) (newest : Option GpuGrant) (o : Option RequestRecord) (n : Manager)
      → ((k : Manager) → again k ≡ ok (o, n) → SameView k n)
      → select_from config fallback_id now again m rs newest ≡ ok (o, n)
      → SameView m n
  unfolding select_from
  select_from-SameView again m (r ∷ rs) newest o n a h = SameView-of_eq m n (ground arith)
  select_from-SameView again m [] none o n a h = SameView-of_eq m n (ground arith)
  select_from-SameView again m [] (some g) o n a h =
      elim (Bool-cases (str_eq g.source m.service_id)) [
        | inl e ↦ SameView-of_eq m n (ground arith)
        | inr e ↦
            let b =
              >>=-eq-ok (ensure_fallback_request config fallback_id now m g.source) again
                (rw e at h) in
            SameView-trans m b.0 n
              (ensure-SameView config published fallback_id now m g.source b.0 b.1) (a b.0 b.2)
      ]

  select_next-SameView :
      (calls : ℕ) (m : Manager) (o : Option RequestRecord) (n : Manager)
      → select_next config fallback_id now calls m ≡ ok (o, n)
      → SameView m n
  unfolding select_next
  select_next-SameView zero m o n h = cc
  select_next-SameView (suc calls) m o n h = elim (Bool-cases (owns_gpu m)) [
    | inr e ↦ SameView-of_eq m n (ground arith)
    | inl e ↦
        let b = >>=-eq-ok (ring_index_for config m.service_id) _ (rw e at h) in
        select_from-SameView (λ k. select_next config fallback_id now calls k) m
          (candidates config b.0 m) m.grant o n (λ k. select_next-SameView calls k o n) b.2
  ]

  -- Only the owner selects.
  select_next-owns :
      (calls : ℕ) (m : Manager) (r : RequestRecord) (n : Manager)
      → select_next config fallback_id now calls m ≡ ok (some r, n)
      → owns_gpu m ≡ true
  unfolding select_next
  select_next-owns zero m r n h = cc
  select_next-owns (suc calls) m r n h = elim (Bool-cases (owns_gpu m)) [
    | inl e ↦ e
    | inr e ↦ absurd (ground arith)
  ]

  owns-SameView : (m n : Manager) → SameView m n → owns_gpu m ≡ true → owns_gpu n ≡ true
  owns-SameView m n v h =
      ap (λ o. is_name o n.service_id) v.owner ∙ ap (is_name m.owner_service) v.service ∙ h

  selected-Outcome :
      (m k : Manager) (s : Option RequestRecord × Manager) (og : Option GpuGrant) (n : Manager)
      (transition : String) (payload_ref : Option String)
      → Learned published m k
      → select_next config fallback_id now 2 k ≡ ok s
      → finish config s transition payload_ref ≡ ok (og, n)
      → Outcome published m og n
  unfolding finish
  selected-Outcome m k (none, t) og n transition payload_ref l e h =
      let v = Learned-of_SameView published k t l.coherent (select_next-SameView 2 k none t e) in
      let a : og ≡ none = ground arith in
      let b : t ≡ n = ground arith in
      subst (λ o. Outcome published m o n) (sym a)
        (subst (Learned published m) b (Learned-trans published m k t l v))
  selected-Outcome m k (some r, t) og n transition payload_ref l e h =
      let v = select_next-SameView 2 k (some r) t e in
      let w = Learned-of_SameView published k t l.coherent v in
      let o = owns-SameView k t v (select_next-owns 2 k r t e) in
      let p = hand_over-Passes config t r transition payload_ref w.coherent o in
      let a : og ≡ some p.1 = ground (arith, p.3) in
      let b : p.2 ≡ n = ground (arith, p.3) in
      subst (λ o. Outcome published m o n) (sym a)
        (t, p.0, Learned-trans published m k t l w, subst (λ x. Passes t x p.0 p.1) b p.4)

  transfer_locked-Outcome :
      (m : Manager) (scans : List (List RequestRecord)) (transition : String)
      (payload_ref : Option String) (og : Option GpuGrant) (n : Manager)
      → IsCoherent m
      → All (All (IsPublished published)) scans
      → transfer_locked config fallback_id now m scans transition payload_ref ≡ ok (og, n)
      → Outcome published m og n
  unfolding transfer_locked
  transfer_locked-Outcome m scans transition payload_ref og n c a h =
      let b = >>=-eq-ok (next_ring_member config m) _ h in
      let d = >>=-eq-ok (wait_for config fallback_id now b.0 m scans) _ b.2 in
      let e = >>=-eq-ok (select_next config fallback_id now 2 d.0) _ d.2 in
      selected-Outcome m d.0 e.0 og n transition payload_ref
        (wait_for-Learned b.0 m scans d.0 c a d.1) e.1 e.2

  -- Only the flag of the transfer is set.
  abbrev flagged : Bool → Manager → Manager
  flagged b m = record m { transferring = b }

  flagged-Outcome :
      (m : Manager) (og : Option GpuGrant) (n : Manager)
      → Outcome published (flagged true m) og n
      → Outcome published m og (flagged false n)
  flagged-Outcome m none n l = record {
    service = l.service;
    coherent = record { last = l.coherent.last; owner = l.coherent.owner };
    grants = l.grants;
  }
  flagged-Outcome m (some g) n (k, l, h, p) = (
    k,
    l,
    record { service = h.service; coherent = h.coherent; grants = h.grants },
    record {
      owns = p.owns;
      next = p.next;
      source = p.source;
      service = p.service;
      coherent = record { last = p.coherent.last; owner = p.coherent.owner };
      newest = p.newest;
    },
  )

  pub transfer-Outcome :
      (m : Manager) (scans : List (List RequestRecord)) (transition : String)
      (payload_ref : Option String) (og : Option GpuGrant) (n : Manager)
      → IsCoherent m
      → All (All (IsPublished published)) scans
      → transfer config fallback_id now m scans transition payload_ref ≡ ok (og, n)
      → Outcome published m og n
  unfolding transfer
  transfer-Outcome m scans transition payload_ref og n c a h =
      let p = >>=-eq-ok (raise_if (not (owns_gpu m)) not_owner) _ h in
      let q = >>=-eq-ok (raise_if m.transferring reentered) _ p.2 in
      let b =
        >>=-eq-ok
          (transfer_locked config fallback_id now (flagged true m) scans transition payload_ref) _
          q.2 in
      let l =
        transfer_locked-Outcome (flagged true m) scans transition payload_ref b.0.0 b.0.1
          (record { last = c.last; owner = c.owner }) a b.1 in
      let e : b.0.0 ≡ og = ground arith in
      let f : flagged false b.0.1 ≡ n = ground arith in
      subst (λ o. Outcome published m o n) e
        (subst (Outcome published m b.0.0) f (flagged-Outcome m b.0.0 b.0.1 l))

  prepend-Outcome :
      (l m : Manager) (og : Option GpuGrant) (n : Manager)
      → Learned published l m
      → Outcome published m og n
      → Outcome published l og n
  prepend-Outcome l m none n h o = Learned-trans published l m n h o
  prepend-Outcome l m (some g) n h (k, w, q, p) = (k, w, Learned-trans published l m k h q, p)

  -- One turn of the loop of `_reconcile`.
  pub reconcile_record-Outcome :
      (m : Manager) (r : RequestRecord) (scans : List (List RequestRecord)) (og : Option GpuGrant)
      (n : Manager)
      → IsCoherent m
      → IsPublished published r
      → All (All (IsPublished published)) scans
      → reconcile_record config fallback_id now m r scans ≡ ok (og, n)
      → Outcome published m og n
  unfolding reconcile_record
  reconcile_record-Outcome m r scans og n c w a h =
      let l = noted-Learned config published fallback_id now m r c in
      elim (Bool-cases (preempts (noted m r) r)) [
        | inl e ↦
            prepend-Outcome m (noted m r) og n l
              (transfer-Outcome (noted m r) scans "preempt" none og n l.coherent a (rw e at h))
        | inr e ↦
            let b =
              >>=-eq-ok
                (observe config fallback_id now (noted m r)
                  (get m.records r.handle.request.request_id) r)
                _ (rw e at h) in
            let k =
              observe-Learned config published fallback_id now (noted m r)
                (get m.records r.handle.request.request_id) r b.0 l.coherent w b.1 in
            let f : none ≡ og = ground arith in
            let g : b.0 ≡ n = ground arith in
            subst (λ o. Outcome published m o n) f
              (subst (Learned published m) g (Learned-trans published m (noted m r) b.0 l k))
      ]
