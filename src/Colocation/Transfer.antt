-- ===== src/Colocation/Transfer.antt =====
-- How `ColocationManager` of meshy/service/colocation.py reconciles itself with the ledger and hands
-- the GPU over. `fallback_id` writes the name of a fallback request, and `now` is the clock; the
-- callbacks are taken to return, and a service's name is not empty. What a call that raises has
-- changed before is not modelled.
pub mod Turns
pub mod Grants
pub mod Handover
pub mod Choice
pub mod InOrder
pub mod Settling
use Prim.Native.Nat.{Ordering}
use Prim.Native.String.{compare}
use meshy.Prelude.{
  ℕ, zero, suc, ◌+◌, ◌-◌, ◌%◌, String, Bool, true, false, not, ◌&&◌, ◌||◌, Option, none, some, List,
  [], ◌∷◌, map, length, any, ltb, leb, ◌==◌, str_eq, if◌then◌else◌, Result, ok, err, raise_if,
  ◌>>=◌, ◌>>◌, get_elem?,
}
use meshy.Prelude.Sort.{sort_by}
use meshy.Colocation.Ring.{
  RingNode, ColocationRing, GpuGrant, GpuRequest, ColocationError, fallback_request,
  unknown_service, not_owner, reentered, endless_recursion, is_fallback, is_fallback_request,
  ring_index_for,
}
use meshy.Prelude.Dicts.{get, put}
use meshy.Colocation.Manager.{
  RequestHandle, RequestRecord, open_row, granted_row, is_open, Event, created, granted, closed,
  released, Manager, is_name, owns_gpu, next_sequence, named, accept, apply_grant,
}
use meshy.Colocation.Rows.{
  register, fallback_for, before, candidates, close_current, close_handle, close_named, distance,
  finish, grant_known, grant_leb, grant_request, hand_over, has_open_request_from, is_candidate,
  is_granted, key_leb, next_grant, next_ring_member, noted, opened, preempts, records_of, refreshed,
  request_of, requester, run_request, sequence_of, string_leb, waits_in_fallback,
}

module _ (config : ColocationRing) (fallback_id : String → ℕ → String) (now : ℕ) where
  unfoldable pub ensure_fallback_request : Manager → String → Result ColocationError Manager
  unfolding ring_index_for register fallback_for
  ensure_fallback_request m s = if any (waits_in_fallback s) (records_of m) then ok m else do
    i ← ring_index_for config s
    ok (register m (fallback_for config s (fallback_id s (next_sequence m.last_sequence)) now i))

  -- The first candidate; without one, a request is made for the service that the GPU came from, and
  -- the selection is made `again`.
  unfoldable pub select_from :
      (Manager → Result ColocationError (Option RequestRecord × Manager))
      → Manager
      → List RequestRecord
      → Option GpuGrant
      → Result ColocationError (Option RequestRecord × Manager)
  unfolding ensure_fallback_request
  select_from again m (r ∷ rest) newest = ok (some r, m)
  select_from again m [] none = ok (none, m)
  select_from again m [] (some g) =
      if str_eq g.source m.service_id
      then ok (none, m)
      else (ensure_fallback_request m g.source >>= λ n. again n)

  -- `_select_next` calls itself after it has made a request; `calls` bounds that.
  unfoldable pub select_next : ℕ → Manager → Result ColocationError (Option RequestRecord × Manager)
  unfolding candidates select_from ring_index_for
  select_next zero m = err endless_recursion
  select_next (suc calls) m = if not (owns_gpu m) then ok (none, m) else do
    owner ← ring_index_for config m.service_id
    select_from (λ n. select_next calls n) m (candidates config owner m) m.grant

  -- A fallback service that does not own the GPU keeps a request in the ledger.
  unfoldable pub kept_waiting : Manager → Result ColocationError Manager
  unfolding ensure_fallback_request
  kept_waiting n =
      if is_fallback n.mode && not (owns_gpu n)
      then ensure_fallback_request n n.service_id
      else ok n

  -- The loop of `_reconcile` on a record that starts no transfer.
  unfoldable pub observe :
      Manager → Option RequestRecord → RequestRecord → Result ColocationError Manager
  unfolding apply_grant kept_waiting
  observe m previous r = elim r.grant [
    | none ↦ ok m
    | some g ↦
        if grant_known previous g then ok m else (apply_grant config m g >>= λ n. kept_waiting n)
  ]

  unfoldable pub observe_all : Manager → List RequestRecord → Result ColocationError Manager
  unfolding observe noted get
  observe_all m [] = ok m
  observe_all m (r ∷ rs) = do
    n ← observe (noted m r) (get m.records r.handle.request.request_id) r
    observe_all n rs

  -- `_reconcile` inside a transfer, which starts no other.
  unfoldable pub reconcile_waiting : Manager → List RequestRecord → Result ColocationError Manager
  unfolding observe_all sort_by
  reconcile_waiting m scan = observe_all m (sort_by grant_leb scan)

  -- Phase 1 of `_transfer_locked`, over what its scans of the ledger find until the deadline.
  unfoldable pub wait_for :
      String → Manager → List (List RequestRecord) → Result ColocationError Manager
  unfolding reconcile_waiting has_open_request_from
  wait_for member m [] = ok m
  wait_for member m (scan ∷ scans) =
      if has_open_request_from m member
      then ok m
      else (reconcile_waiting m scan >>= λ n. wait_for member n scans)

  unfoldable pub transfer_locked :
      Manager
      → List (List RequestRecord)
      → String
      → Option String
      → Result ColocationError (Option GpuGrant × Manager)
  unfolding wait_for next_ring_member select_next finish
  transfer_locked m scans transition payload_ref = do
    member ← next_ring_member config m
    n ← wait_for member m scans
    selected ← select_next 2 n
    finish config selected transition payload_ref

  unfoldable pub transfer :
      Manager
      → List (List RequestRecord)
      → String
      → Option String
      → Result ColocationError (Option GpuGrant × Manager)
  unfolding transfer_locked
  transfer m scans transition payload_ref = do
    raise_if (not (owns_gpu m)) not_owner
    raise_if m.transferring reentered
    done ← transfer_locked (record m { transferring = true }) scans transition payload_ref
    ok (done.0, record done.1 { transferring = false })

  -- One record of the loop of `_reconcile`; `scans` is what a transfer finds while it waits.
  unfoldable pub reconcile_record :
      Manager
      → RequestRecord
      → List (List RequestRecord)
      → Result ColocationError (Option GpuGrant × Manager)
  unfolding transfer observe noted get
  reconcile_record m r scans =
      let n = noted m r in
      if preempts n r
      then transfer n scans "preempt" none
      else (observe n (get m.records r.handle.request.request_id) r >>= λ k. ok (none, k))

  unfoldable pub reconcile_all :
      Manager
      → List RequestRecord
      → (RequestRecord → List (List RequestRecord))
      → Result ColocationError (List GpuGrant × Manager)
  unfolding reconcile_record
  reconcile_all m [] scans = ok ([], m)
  reconcile_all m (r ∷ rs) scans = do
    let now_r = refreshed m r
    one ← reconcile_record m now_r (scans now_r)
    more ← reconcile_all one.1 rs scans
    ok (elim one.0 [ none ↦ more.0 | some g ↦ g ∷ more.0 ], more.1)

  -- `_reconcile`; the result also lists the grants that it made.
  unfoldable pub reconcile :
      Manager
      → List RequestRecord
      → (RequestRecord → List (List RequestRecord))
      → Result ColocationError (List GpuGrant × Manager)
  unfolding reconcile_all sort_by
  reconcile m scan scans = reconcile_all m (sort_by grant_leb scan) scans

  -- `_drain_commands` on a release, after a look at the ledger.
  unfoldable pub run_release :
      Manager
      → List RequestRecord
      → (RequestRecord → List (List RequestRecord))
      → List (List RequestRecord)
      → String
      → Option String
      → Result ColocationError (Option GpuGrant × Manager)
  unfolding reconcile transfer
  run_release m scan scans waits transition payload_ref = do
    found ← reconcile m scan scans
    transfer found.1 waits transition payload_ref
