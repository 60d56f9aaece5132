-- ===== src/Colocation/Rows.antt =====
-- The parts of the methods of `ColocationManager` in meshy/service/colocation.py that read no clock and
-- make no request: which records are candidates, and what a grant changes.
use Prim.Native.Nat.{Ordering}
use Prim.Native.String.{compare}
use meshy.Prelude.{
  select, ℕ, suc, ◌+◌, ◌-◌, ◌%◌, String, Bool, true, false, not, ◌&&◌, Option, none, some, List,
  ◌∷◌, map, length, any, ltb, leb, ◌==◌, str_eq, if◌then◌else◌, Result, ok, err, ◌>>=◌, get_elem?,
}
use meshy.Prelude.Sort.{sort_by}
use meshy.Colocation.Ring.{
  fallback_request, ColocationRing, GpuGrant, GpuRequest, ColocationError, unknown_service,
  is_fallback, is_fallback_request, ring_index_for,
}
use meshy.Prelude.Dicts.{get, put}
use meshy.Colocation.Manager.{
  open_row, RequestHandle, RequestRecord, granted_row, is_open, created, granted, closed, released,
  Manager, owns_gpu, next_sequence, named, apply_grant,
}

abbrev pub is_granted : Option GpuGrant → Bool
is_granted none = false
is_granted (some g) = true

abbrev pub requester : RequestRecord → String
requester r = r.handle.request.service_id

abbrev pub opened : GpuRequest → RequestHandle
opened q = record { request = q; version = 0; grant = none }

-- `record.state != "open" or record.grant is not None`, and the two tests after it.
abbrev pub is_candidate : ColocationRing → Manager → RequestRecord → Bool
is_candidate config m r =
    is_open r.state
    && not (is_granted r.grant)
    && str_eq r.handle.request.group_id config.group_id
    && not (str_eq (requester r) m.service_id)

-- `(request.ring_index - owner_index) % ring_size`, which is not negative.
abbrev pub distance : ℕ → ℕ → RequestRecord → ℕ
distance size owner r = (r.handle.request.ring_index + (size - owner)) % size

-- The order of pairs, `rest` deciding where the numbers are the same.
abbrev pub before : ℕ → ℕ → Bool → Bool
before a b rest = if ltb a b then true else if a == b then rest else false

abbrev pub string_leb : String → String → Bool
string_leb s t = elim (compare s t) [ Ordering.gt ↦ false | _ ↦ true ]

-- `item[:4]`
abbrev pub key_leb : ℕ → ℕ → RequestRecord → RequestRecord → Bool
key_leb size owner r s =
    let p = r.handle.request in
    let q = s.handle.request in
    before p.priority q.priority (
      before (distance size owner r) (distance size owner s)
        (before p.created_at_ns q.created_at_ns (string_leb p.request_id q.request_id)))

abbrev pub records_of : Manager → List RequestRecord
records_of m = map (λ e. e.1) m.records

unfoldable pub candidates : ColocationRing → ℕ → Manager → List RequestRecord
unfolding sort_by
candidates config owner m =
    sort_by (key_leb (length config.ring) owner) (select (is_candidate config m) (records_of m))

abbrev pub waits_in_fallback : String → RequestRecord → Bool
waits_in_fallback s r =
    str_eq (requester r) s && is_fallback_request r.handle.request.kind && is_open r.state

-- `_has_open_request_from`
unfoldable pub has_open_request_from : Manager → String → Bool
has_open_request_from m s =
    any (λ r. str_eq (requester r) s && is_open r.state && not (is_granted r.grant)) (records_of m)

-- `_next_ring_member`
unfoldable pub next_ring_member : ColocationRing → Manager → Result ColocationError String
unfolding ring_index_for
next_ring_member config m = do
  i ← ring_index_for config m.service_id
  elim (get_elem? config.ring (suc i % length config.ring)) [
    | none ↦ err unknown_service
    | some n ↦ ok n.service_id
  ]

-- The first lines of the loop of `_reconcile`.
unfoldable pub noted : Manager → RequestRecord → Manager
unfolding put
noted m r = record m {
  records = put m.records r.handle.request.request_id r;
  handles = put m.handles r.handle.request.request_id r.handle;
}

-- `previous.grant.sequence >= grant.sequence`, where there are both.
abbrev pub grant_known : Option RequestRecord → GpuGrant → Bool
grant_known none g = false
grant_known (some p) g = elim p.grant [ none ↦ false | some h ↦ leb g.sequence h.sequence ]

abbrev pub sequence_of : Option GpuGrant → Option ℕ
sequence_of none = none
sequence_of (some g) = some g.sequence

abbrev pub request_of : Option GpuGrant → Option String
request_of none = none
request_of (some g) = named g.request_id

-- `records.sort(key=...)`: those without a grant first.
abbrev pub grant_leb : RequestRecord → RequestRecord → Bool
grant_leb r s = leb (next_sequence (sequence_of r.grant)) (next_sequence (sequence_of s.grant))

-- `transport.close_request(self._handles[current_request_id])`, if there is such a handle.
unfoldable pub close_handle : Manager → String → Option RequestHandle → Manager
unfolding put
close_handle m s none = m
close_handle m s (some h) = record m {
  handles = put m.handles s (record h { version = suc h.version });
  trace = closed h ∷ m.trace;
}

unfoldable pub close_named : Manager → Option String → Manager
unfolding get close_handle
close_named m none = m
close_named m (some s) = close_handle m s (get m.handles s)

unfoldable pub close_current : Manager → Manager
unfolding close_named
close_current m = close_named m (request_of m.grant)

-- `transport.grant_request` and the two assignments after it.
unfoldable pub grant_request : Manager → RequestRecord → GpuGrant → Manager
unfolding put
grant_request m r g =
    let name = r.handle.request.request_id in
    let h = record r.handle { version = suc r.handle.version; grant = some g } in
    record m {
      records = put m.records name (record r { handle = h; state = granted_row; grant = some g });
      handles = put m.handles name h;
      trace = granted r.handle g ∷ m.trace;
    }

-- The test of `_reconcile` that starts a transfer.
abbrev pub preempts : Manager → RequestRecord → Bool
preempts m r = is_open r.state && owns_gpu m && is_fallback m.mode && not m.transferring

-- The objects that a transfer granted are the same in the list that the loop goes through.
abbrev pub refreshed : Manager → RequestRecord → RequestRecord
unfolding get
refreshed m r = elim (get m.records r.handle.request.request_id) [
  | none ↦ r
  | some s ↦ if s.object_id == r.object_id then s else r
]

-- `_drain_commands` on a request.
unfoldable pub run_request : Manager → GpuRequest → Manager
unfolding put
run_request m q = record m {
  handles = put m.handles q.request_id (opened q);
  trace = created q ∷ m.trace;
}

-- The request of `_ensure_fallback_request`, and what it adds to the manager and the ledger.
unfoldable pub fallback_for : ColocationRing → String → String → ℕ → ℕ → GpuRequest
fallback_for config s name now index = record {
  group_id = config.group_id;
  service_id = s;
  request_id = name;
  created_at_ns = now;
  payload_ref = none;
  ring_index = index;
  priority = 1;
  kind = fallback_request;
}

unfoldable pub register : Manager → GpuRequest → Manager
unfolding put
register m q = record m {
  records =
      put m.records q.request_id
        (record { object_id = 0; handle = opened q; state = open_row; grant = none });
  handles = put m.handles q.request_id (opened q);
  trace = created q ∷ m.trace;
}

module _ (config : ColocationRing) where
  unfoldable pub next_grant : Manager → RequestRecord → String → Option String → GpuGrant
  next_grant m r transition payload_ref = record {
    group_id = config.group_id;
    sequence = next_sequence m.last_sequence;
    source = m.service_id;
    target = requester r;
    request_id = some r.handle.request.request_id;
    transition = transition;
    payload_ref = payload_ref;
  }

  -- Phase 2, once the next owner is selected.
  unfoldable pub hand_over :
      Manager
      → RequestRecord
      → String
      → Option String
      → Result ColocationError (Option GpuGrant × Manager)
  unfolding close_current grant_request next_grant apply_grant
  hand_over m r transition payload_ref =
      let vacated = close_current (record m { trace = released (requester r) ∷ m.trace }) in
      let g = next_grant vacated r transition payload_ref in
      apply_grant config (grant_request vacated r g) g >>= λ n. ok (some g, n)

  -- Without a next owner the GPU stays.
  unfoldable pub finish :
      Option RequestRecord × Manager
      → String
      → Option String
      → Result ColocationError (Option GpuGrant × Manager)
  unfolding hand_over
  finish (none, m) transition payload_ref = ok (none, m)
  finish (some r, m) transition payload_ref = hand_over m r transition payload_ref
