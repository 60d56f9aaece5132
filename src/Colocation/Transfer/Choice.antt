-- ===== src/Colocation/Transfer/Choice.antt =====
-- Whom `_select_next` chooses, and in which order a transfer leaves the GPU and publishes its grant.
use meshy.Prelude.{
  select, All-select, ℕ, suc, ◌≡◌, refl, sym, ap, subst, ◌∙◌, String, true, false, Option, none,
  some, List, [], ◌∷◌, length, inl, inr, ◌⊎◌, str_eq, Result, ok, ◌>>◌, >>=-eq-ok, arith, All,
  Bool-cases,
}
use meshy.Prelude.Sort.{sort_by, All-sort_by}
use meshy.Colocation.Ring.{ColocationRing, GpuGrant, ColocationError, ring_index_for}
use meshy.Prelude.Dicts.{get}
use meshy.Colocation.Manager.{
  RequestHandle, RequestRecord, Manager, Event, granted, closed, released, owns_gpu, at_most,
  check_next, apply_grant, accept,
}
use meshy.Colocation.Transfer.Handover.{close_current-SameView}
use meshy.Colocation.Rows.{
  key_leb, is_candidate, candidates, records_of, requester, close_handle, close_named,
  close_current, grant_request, next_grant, hand_over, request_of,
}
use meshy.Colocation.Transfer.{select_from, select_next}
use meshy.Colocation.Transfer.InOrder.{
  NoLater, InTurn, sort_by-InTurn, InRecords, InRecords-sort_by, InRecords-select, All-InRecords,
}

module _ (config : ColocationRing) (fallback_id : String → ℕ → String) (now : ℕ) where
  first-InTurn :
      (m : Manager) (owner : ℕ)
      (again : Manager → Result ColocationError (Option RequestRecord × Manager))
      (l : List RequestRecord) (s : RequestRecord)
      → InTurn (length config.ring) owner l
      → All (λ r. is_candidate config m r ≡ true) l
      → InRecords s l
      → (r : RequestRecord) × (select_from config fallback_id now again m l m.grant
          ≡ ok (some r, m))
        × (is_candidate config m r ≡ true)
        × NoLater (length config.ring) owner r s
  unfolding select_from
  first-InTurn m owner again [] s t a h = absurd h
  first-InTurn m owner again (r ∷ rs) s t a (inl e) =
      (r, refl, a.0, inr (ground arith, ground arith))
  first-InTurn m owner again (r ∷ rs) s t a (inr h) =
      (r, refl, a.0, All-InRecords (NoLater (length config.ring) owner r) s rs t.0 h)

  -- If the owner knows of a candidate, an open request of another service of its group that has no
  -- grant, then its selection returns a candidate, without any change of the manager; and by
  -- priority, and then by the distance from the owner along the ring, none comes before it.
  pub select_next-in_turn :
      (calls : ℕ) (m : Manager) (owner : ℕ) (s : RequestRecord)
      → owns_gpu m ≡ true
      → ring_index_for config m.service_id ≡ ok owner
      → InRecords s (records_of m)
      → is_candidate config m s ≡ true
      → (r : RequestRecord) × (select_next config fallback_id now (suc calls) m ≡ ok (some r, m))
        × (is_candidate config m r ≡ true)
        × NoLater (length config.ring) owner r s
  unfolding select_next candidates
  select_next-in_turn calls m owner s h i j k =
      let p = is_candidate config m in
      let le = key_leb (length config.ring) owner in
      rw (h, i)
        (first-InTurn m owner (λ n. select_next config fallback_id now calls n)
          (sort_by le (select p (records_of m))) s
          (sort_by-InTurn (length config.ring) owner (select p (records_of m)))
          (All-sort_by le (λ r. p r ≡ true) (select p (records_of m)) (All-select p (records_of m)))
          (InRecords-sort_by le s (select p (records_of m))
            (InRecords-select p s (records_of m) j k)))

apply_grant-trace :
    (config : ColocationRing) (m : Manager) (g : GpuGrant) (n : Manager)
    → str_eq g.target m.service_id ≡ false
    → apply_grant config m g ≡ ok n
    → n.trace ≡ m.trace
unfolding apply_grant accept
apply_grant-trace config m g n d h = elim (Bool-cases (str_eq g.group_id config.group_id)) [
  | inr e ↦ ground arith
  | inl e ↦ elim (Bool-cases (at_most g.sequence m.last_sequence)) [
    | inl f ↦ ground arith
    | inr f ↦
        let k : (check_next config m g >> ok (accept m g)) ≡ ok n = ground arith in
        let s = >>=-eq-ok (check_next config m g) (λ _. ok (accept m g)) k in ground arith
  ]
]

-- The trace `new` goes on from `old` with a release, at most one closed request, and the grant `g`.
abbrev pub Vacates : String → GpuGrant → List Event → List Event → Type 0
Vacates target g old new =
    (h : RequestHandle) × ((new ≡ granted h g ∷ released target ∷ old)
      ⊎ ((c : RequestHandle) × (new ≡ granted h g ∷ closed c ∷ released target ∷ old)))

close_handle-trace :
    (m : Manager) (s : String) (h : Option RequestHandle)
    → ((close_handle m s h).trace ≡ m.trace)
      ⊎ ((c : RequestHandle) × ((close_handle m s h).trace ≡ closed c ∷ m.trace))
unfolding close_handle
close_handle-trace m s none = inl refl
close_handle-trace m s (some h) = inr (h, refl)

close_named-trace :
    (m : Manager) (s : Option String)
    → ((close_named m s).trace ≡ m.trace)
      ⊎ ((c : RequestHandle) × ((close_named m s).trace ≡ closed c ∷ m.trace))
unfolding close_named
close_named-trace m none = inl refl
close_named-trace m (some s) = close_handle-trace m s (get m.handles s)

-- A hand-over to another service that returns has first called the owner's release callback, then
-- closed at most one request, and only then published its grant, which names the new owner; nothing
-- follows in the trace.
pub hand_over-Vacates :
    (config : ColocationRing) (m : Manager) (r : RequestRecord) (transition : String)
    (payload_ref : Option String) (g : GpuGrant) (n : Manager)
    → str_eq (requester r) m.service_id ≡ false
    → hand_over config m r transition payload_ref ≡ ok (some g, n)
    → Vacates (requester r) g m.trace n.trace × (g.target ≡ requester r)
unfolding hand_over next_grant grant_request
hand_over-Vacates config m r transition payload_ref g n d h =
    let out = record m { trace = released (requester r) ∷ m.trace } in
    let v = close_current out in
    let q = next_grant config v r transition payload_ref in
    let k = grant_request v r q in
    let b = >>=-eq-ok (apply_grant config k q) (λ x. ok (some q, x)) h in
    let same : q ≡ g = ground arith in
    let f : b.0 ≡ n = ground arith in
    let w : v.service_id ≡ m.service_id = (close_current-SameView out).service in
    let t : n.trace ≡ granted r.handle q ∷ v.trace =
      ap (λ (x : Manager). x.trace) (sym f)
      ∙ apply_grant-trace config k q b.0 (ap (str_eq (requester r)) w ∙ d) b.1 in
    let closing : (v.trace ≡ released (requester r) ∷ m.trace)
        ⊎ ((c : RequestHandle) × (v.trace ≡ closed c ∷ released (requester r) ∷ m.trace)) =
      unfold close_current in close_named-trace out (request_of m.grant) in
    subst (λ x. Vacates (requester r) x m.trace n.trace × (x.target ≡ requester r)) same
      (
        (
          r.handle,
          elim closing [
            | inl e ↦ inl (t ∙ ap (λ l. granted r.handle q ∷ l) e)
            | inr (c, e) ↦ inr (c, t ∙ ap (λ l. granted r.handle q ∷ l) e)
          ],
        ),
        refl,
      )
