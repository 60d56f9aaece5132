-- ===== src/Colocation/Manager.antt =====
-- `ColocationManager` of meshy/service/colocation.py: one service's view of the shared ledger. What
-- it writes to the ledger and its callbacks stand in its trace, newest first.
use meshy.Prelude.{
  ℕ, suc, String, Bool, true, false, not, ◌&&◌, Option, none, some, List, [], ◌∷◌, any, leb, ◌==◌,
  str_eq, if◌then◌else◌, Result, ok, raise_if, ◌>>=◌, ◌>>◌,
}
use meshy.Prelude.Dicts.{put}
use meshy.Colocation.Ring.{
  SchedulingMode, ColocationRing, GpuGrant, GpuRequest, ColocationError, fallback_request,
  invalid_genesis, gap_in_grants, initial_owner, mode_for,
}

pub data RowState : Type 0 where
  open_row granted_row closed_row : RowState

abbrev pub is_open : RowState → Bool
is_open open_row = true
is_open _ = false

-- `RequestHandle`, less the metadata, which names the row of the ledger.
pub record RequestHandle : Type 0 where
  pub request : GpuRequest
  pub version : ℕ
  pub grant : Option GpuGrant

-- `RequestRecord`, with the identity of the object: a scan's records are new objects.
pub record RequestRecord : Type 0 where
  pub object_id : ℕ
  pub handle : RequestHandle
  pub state : RowState
  pub grant : Option GpuGrant

pub data Event : Type 0 where
  created : GpuRequest → Event
  granted : RequestHandle → GpuGrant → Event
  closed : RequestHandle → Event
  acquired : GpuGrant → Event
  released : String → Event

-- `last_sequence` is none where the code has -1. A lease event that is set stands in `signalled`.
pub record Manager : Type 0 where
  pub service_id : String
  pub mode : SchedulingMode
  pub records : List (String × RequestRecord)
  pub handles : List (String × RequestHandle)
  pub grants : List (String × GpuGrant)
  pub signalled : List String
  pub acquired_sequences : List ℕ
  pub owner_service : Option String
  pub last_sequence : Option ℕ
  pub grant : Option GpuGrant
  pub transferring : Bool
  pub trace : List Event

abbrev pub is_name : Option String → String → Bool
is_name none s = false
is_name (some t) s = str_eq t s

abbrev pub owns_gpu : Manager → Bool
owns_gpu m = is_name m.owner_service m.service_id

-- `sequence <= self._last_sequence`, and `self._last_sequence + 1`.
abbrev pub at_most : ℕ → Option ℕ → Bool
at_most n none = false
at_most n (some l) = leb n l

abbrev pub next_sequence : Option ℕ → ℕ
next_sequence none = 0
next_sequence (some l) = suc l

abbrev pub targets : Option GpuGrant → String → Bool
targets none s = false
targets (some g) s = str_eq g.target s

-- The checks of `_apply_grant`.
unfoldable pub check_next : ColocationRing → Manager → GpuGrant → Result ColocationError (Unit {0})
unfolding initial_owner
check_next config m g = elim m.last_sequence [
  | none ↦
      raise_if
        (not (
          g.sequence == 0
          && str_eq g.source "authority"
          && is_name (initial_owner config) g.target))
        invalid_genesis
  | some l ↦ raise_if (not (g.sequence == suc l && targets m.grant g.source)) gap_in_grants
]

-- `if grant.request_id`
abbrev pub named : Option String → Option String
named none = none
named (some s) = if str_eq s "" then none else some s

abbrev pub keep_grant :
    Option String → GpuGrant → List (String × GpuGrant) → List (String × GpuGrant)
unfolding put
keep_grant none g l = l
keep_grant (some s) g l = put l s g

abbrev pub signal : Option String → List String → List String
signal none l = l
signal (some s) l = s ∷ l

-- What `_apply_grant` changes once the checks have passed.
unfoldable pub accept : Manager → GpuGrant → Manager
accept m g =
    let fresh =
      str_eq g.target m.service_id && not (any (λ n. n == g.sequence) m.acquired_sequences) in
    record m {
      last_sequence = some g.sequence;
      grant = some g;
      owner_service = some g.target;
      grants = keep_grant (named g.request_id) g m.grants;
      acquired_sequences =
          if fresh then g.sequence ∷ m.acquired_sequences else m.acquired_sequences;
      trace = if fresh then acquired g ∷ m.trace else m.trace;
      signalled = signal (named g.request_id) m.signalled;
    }

unfoldable pub apply_grant : ColocationRing → Manager → GpuGrant → Result ColocationError Manager
unfolding check_next accept
apply_grant config m g =
    if not (str_eq g.group_id config.group_id)
    then ok m
    else if at_most g.sequence m.last_sequence
    then ok m
    else (check_next config m g >> ok (accept m g))

unfoldable pub fresh_manager : String → SchedulingMode → Manager
fresh_manager s mode = record {
  service_id = s;
  mode = mode;
  records = [];
  handles = [];
  grants = [];
  signalled = [];
  acquired_sequences = [];
  owner_service = none;
  last_sequence = none;
  grant = none;
  transferring = false;
  trace = [];
}

-- `ColocationManager.__init__`: it raises for a service that is not in the ring.
unfoldable pub new_manager : ColocationRing → String → Result ColocationError Manager
unfolding mode_for fresh_manager
new_manager config s = do mode ← mode_for config s; ok (fresh_manager s mode)

-- The request and the grant of `issue_genesis`, whose name is given.
unfoldable pub genesis_request : ColocationRing → String → String → GpuRequest
genesis_request config name owner = record {
  group_id = config.group_id;
  service_id = owner;
  request_id = name;
  created_at_ns = 0;
  payload_ref = none;
  ring_index = 0;
  priority = 1;
  kind = fallback_request;
}

unfoldable pub genesis_grant : ColocationRing → String → String → GpuGrant
genesis_grant config name owner = record {
  group_id = config.group_id;
  sequence = 0;
  source = "authority";
  target = owner;
  request_id = some name;
  transition = "genesis";
  payload_ref = none;
}

-- `issue_genesis` for a ring with a first service: the grant, and what is written, newest first.
unfoldable pub issue_genesis : ColocationRing → String → Option (GpuGrant × List Event)
unfolding initial_owner genesis_request genesis_grant
issue_genesis config name = elim (initial_owner config) [
  | none ↦ none
  | some owner ↦
      let q = genesis_request config name owner in
      let g = genesis_grant config name owner in
      some (g, granted (record { request = q; version = 0; grant = none }) g ∷ created q ∷ [])
]
