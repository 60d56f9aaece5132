-- ===== src/Colocation/Ring.antt =====
-- The data of meshy/service/colocation.py: rings with their checks, requests and grants.
use meshy.Prelude.{
  ℕ, String, Bool, true, false, ◌||◌, Option, none, some, List, [], ◌∷◌, map, length, any, ltb,
  ◌==◌, str_eq, if◌then◌else◌, Result, ok, err, raise_if, ◌>>=◌, ◌>>◌, suc,
}

pub data SchedulingMode : Type 0 where
  on_demand fallback : SchedulingMode

pub data RequestKind : Type 0 where
  on_demand_request fallback_request : RequestKind

pub record RingNode : Type 0 where
  pub service_id : String
  pub mode : SchedulingMode

-- The two times are in a unit of their own; the code counts seconds.
pub record ColocationRing : Type 0 where
  pub group_id : String
  pub ring : List RingNode
  pub poll_interval : ℕ
  pub next_owner_timeout : ℕ

pub record GpuGrant : Type 0 where
  pub group_id : String
  pub sequence : ℕ
  pub source : String
  pub target : String
  pub request_id : Option String
  pub transition : String
  pub payload_ref : Option String

pub record GpuRequest : Type 0 where
  pub group_id : String
  pub service_id : String
  pub request_id : String
  pub created_at_ns : ℕ
  pub payload_ref : Option String
  pub ring_index : ℕ
  pub priority : ℕ
  pub kind : RequestKind

-- What the ring and its managers raise.
pub data ColocationError : Type 0 where
  empty_group short_ring empty_name duplicate_names poll_not_positive : ColocationError
  unknown_service invalid_genesis gap_in_grants not_owner reentered endless_recursion :
      ColocationError

abbrev pub is_fallback : SchedulingMode → Bool
is_fallback on_demand = false
is_fallback fallback = true

abbrev pub is_fallback_request : RequestKind → Bool
is_fallback_request on_demand_request = false
is_fallback_request fallback_request = true

abbrev pub names : ColocationRing → List String
names config = map (λ (n : RingNode). n.service_id) config.ring

-- `len(names) != len(set(names))`
abbrev pub has_duplicates : List String → Bool
has_duplicates [] = false
has_duplicates (s ∷ l) = any (λ t. str_eq t s) l || has_duplicates l

-- `ColocationRing.__post_init__`; a negative time cannot be written down.
unfoldable pub post_init : ColocationRing → Result ColocationError (Unit {0})
post_init config = do
  raise_if (str_eq config.group_id "") empty_group
  raise_if (ltb (length config.ring) 2) short_ring
  raise_if (any (λ s. str_eq s "") (names config)) empty_name
  raise_if (has_duplicates (names config)) duplicate_names
  raise_if (config.poll_interval == 0) poll_not_positive
  ok tt

-- The first service of the ring; a ring that has passed its checks has one.
unfoldable pub initial_owner : ColocationRing → Option String
initial_owner config = elim config.ring [ [] ↦ none | n ∷ nodes ↦ some n.service_id ]

unfoldable pub index_in : List RingNode → String → Result ColocationError ℕ
index_in [] s = err unknown_service
index_in (n ∷ nodes) s =
    let rest = index_in nodes s in
    if str_eq n.service_id s then ok 0 else (rest >>= λ i. ok (suc i))

unfoldable pub ring_index_for : ColocationRing → String → Result ColocationError ℕ
unfolding index_in
ring_index_for config s = index_in config.ring s

unfoldable pub mode_in : List RingNode → String → Result ColocationError SchedulingMode
mode_in [] s = err unknown_service
mode_in (n ∷ nodes) s = if str_eq n.service_id s then ok n.mode else mode_in nodes s

-- `mode_for`: the mode of the node at the index of the service.
unfoldable pub mode_for : ColocationRing → String → Result ColocationError SchedulingMode
unfolding mode_in
mode_for config s = mode_in config.ring s
