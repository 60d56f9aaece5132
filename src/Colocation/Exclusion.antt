-- ===== src/Colocation/Exclusion.antt =====
-- The services of one ring together: meshy/service/colocation.py, with each turn of a manager's loop
-- and each release that returns as a step, in any order. A manager reads of the ledger what has been published.
pub mod Chain
pub mod Invariant
pub mod Views
use meshy.Prelude.{
  ℕ, ◌≡◌, String, Option, none, some, List, [], ◌∷◌, str_eq, if◌then◌else◌, Result, ok, All,
}
use meshy.Colocation.Ring.{ColocationRing, GpuGrant, GpuRequest, SchedulingMode, mode_for}
use meshy.Colocation.Manager.{RequestRecord, Manager, fresh_manager, issue_genesis, Event}
use meshy.Colocation.Rows.{run_request}
use meshy.Colocation.Transfer.{transfer, reconcile_record}
use meshy.Colocation.Transfer.Grants.{IsPublished}

-- All grants that were ever written to the ledger, newest first, and each service's manager.
pub record System : Type 0 where
  pub published : List GpuGrant
  pub managers : String → Manager

unfoldable pub update : (String → Manager) → String → Manager → String → Manager
update f s m t = if str_eq s t then m else f t

abbrev pub publish : Option GpuGrant → List GpuGrant → List GpuGrant
publish none gs = gs
publish (some g) gs = g ∷ gs

abbrev pub after : System → String → Option GpuGrant → Manager → System
unfolding update
after sys s og n = record {
  published = publish og sys.published;
  managers = update sys.managers s n;
}

module _ (config : ColocationRing) where
  -- The first grant is made, and each service of the ring has its new manager.
  pub record IsStart (sys : System) : Type 0 where
    pub name : String
    pub genesis : GpuGrant
    pub events : List Event
    pub issued : issue_genesis config name ≡ some (genesis, events)
    pub published : sys.published ≡ genesis ∷ []
    pub modes : String → SchedulingMode
    pub in_ring :
        (s : String) (mode : SchedulingMode) → mode_for config s ≡ ok mode → modes s ≡ mode
    pub fresh : (s : String) → sys.managers s ≡ fresh_manager s (modes s)

module _ (config : ColocationRing) (fallback_id : String → ℕ → String) where
  pub data Step : System → System → Type 0 where
    turns :
        (sys : System) (s : String) (now : ℕ) (r : RequestRecord)
        (scans : List (List RequestRecord)) (og : Option GpuGrant) (n : Manager)
        → IsPublished sys.published r
        → All (All (IsPublished sys.published)) scans
        → reconcile_record config fallback_id now (sys.managers s) r scans ≡ ok (og, n)
        → Step sys (after sys s og n)
    releases :
        (sys : System) (s : String) (now : ℕ) (scans : List (List RequestRecord))
        (transition : String) (payload_ref : Option String) (og : Option GpuGrant) (n : Manager)
        → All (All (IsPublished sys.published)) scans
        → transfer config fallback_id now (sys.managers s) scans transition payload_ref ≡ ok (og, n)
        → Step sys (after sys s og n)
    requests :
        (sys : System) (s : String) (q : GpuRequest)
        → Step sys (after sys s none (run_request (sys.managers s) q))

  pub data Reaches (sys : System) : System → Type 0 where
    starts : Reaches sys sys
    steps : (mid end : System) → Reaches sys mid → Step mid end → Reaches sys end
