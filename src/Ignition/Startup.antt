-- ===== src/Ignition/Startup.antt =====
-- The order in which the ranks bring services up: the loops of `Ignitor.run` and `_gate_and_start` of
-- meshy/service/ignite.py. A rank gates a service once the markers that it needs are published; the
-- master of a service goes on waiting, and publishes the marker, once every rank of the service has
-- ignited it, which is what the engine's start stands for. The barrier of a run with colocations is
-- a stage of all ranks, which each of them waits for.
pub mod Progress
pub mod Waiting
pub mod Order
use meshy.Prelude.{
  ℕ, zero, suc, ◌<◌, String, ◌≡◌, Bool, true, false, ◌&&◌, List, [], ◌∷◌, ◌++◌, map, flatten, any,
  all, ◌==◌, str_eq, if◌then◌else◌, Result, ok, err,
}
use meshy.Topology.Types.{ServiceInfo, TopologyError}
use meshy.Topology.Place.{is_in}
use meshy.Topology.Lookups.{
  master_rank, contains_rank, dependency_names, local_services, gpu_services, cpu_services,
}

pub record Stage : Type 0 where
  pub name : String
  pub hosted_by : ℕ → Bool
  pub awaited_by : ℕ → Bool
  pub needs : List String

-- A rank gates and ignites, or waits until the stage is ready.
pub record Task : Type 0 where
  pub stage : Stage
  pub waits : Bool

abbrev pub same_rank : Result TopologyError ℕ → ℕ → Bool
same_rank (err e) r = false
same_rank (ok m) r = m == r

-- `is_master`; a service without cards is rank 0's.
abbrev pub is_master : Bool → ServiceInfo → ℕ → Bool
is_master true s r = same_rank (master_rank s) r
is_master false s r = r == 0

abbrev pub hosts : Bool → ServiceInfo → ℕ → Bool
hosts true s r = contains_rank s r
hosts false s r = r == 0

unfoldable pub stage_of : List ServiceInfo → ServiceInfo → Stage
unfolding dependency_names contains_rank master_rank
stage_of services s = record {
  name = s.name;
  hosted_by = hosts s.uses_gpu s;
  awaited_by = is_master s.uses_gpu s;
  needs = dependency_names services s;
}

abbrev pub barrier : Stage
barrier = record { name = ""; hosted_by = λ r. true; awaited_by = λ r. true; needs = [] }

-- `_gate_and_start`, on one rank.
abbrev pub gate_and_start : Stage → ℕ → List Task
gate_and_start s r =
    if s.awaited_by r
    then record { stage = s; waits = false } ∷ record { stage = s; waits = true } ∷ []
    else record { stage = s; waits = false } ∷ []

-- The tasks of a rank in some stages.
unfoldable pub tasks_in : List Stage → ℕ → List Task
tasks_in [] r = []
tasks_in (s ∷ stages) r =
    let rest = tasks_in stages r in if s.hosted_by r then gate_and_start s r ++ rest else rest

-- The stages of `Ignitor.run`, in their order on every rank.
unfoldable pub stages_of : List ServiceInfo → Bool → List Stage
unfolding stage_of gpu_services cpu_services
stages_of services has_barrier =
    map (stage_of services) (gpu_services services)
    ++ ((if has_barrier then barrier ∷ [] else [])
        ++ map (stage_of services) (cpu_services services))

-- What each rank has done and has to do.
pub record Bringup : Type 0 where
  pub past : ℕ → List Task
  pub rest : ℕ → List Task

abbrev pub is_task : String → Bool → Task → Bool
is_task name true t = t.waits && str_eq t.stage.name name
is_task name false t = if t.waits then false else str_eq t.stage.name name

abbrev pub has_done : Bringup → ℕ → String → Bool → Bool
has_done p r name waits = any (is_task name waits) (p.past r)

-- The marker of a stage is published once a rank has waited for it.
abbrev pub IsReady : ℕ → Bringup → String → Type 0
IsReady world p name = (r : ℕ) × (r < world) × (has_done p r name true ≡ true)

abbrev pub AllReady : ℕ → Bringup → List String → Type 0
AllReady world p [] = Unit
AllReady world p (n ∷ names) = IsReady world p n × AllReady world p names

abbrev pub IsEnabled : ℕ → Bringup → Bool → Stage → Type 0
IsEnabled world p false s = AllReady world p s.needs
IsEnabled world p true s =
    (r : ℕ) → r < world → s.hosted_by r ≡ true → has_done p r s.name false ≡ true

abbrev pub put_at : (ℕ → List Task) → ℕ → List Task → ℕ → List Task
put_at f r l k = if k == r then l else f k

unfoldable pub start_of : List Stage → Bringup
unfolding tasks_in
start_of stages = record { past = λ r. []; rest = tasks_in stages }

abbrev pub after_task : Bringup → ℕ → Task → List Task → Bringup
after_task p r t ts = record {
  past = put_at p.past r (p.past r ++ t ∷ []);
  rest = put_at p.rest r ts;
}

-- What the ranks reach in `n` steps, in whatever order they take them.
pub data Reaches (world : ℕ) (stages : List Stage) : ℕ → Bringup → Type 0 where
  at_start : Reaches world stages 0 (start_of stages)
  step :
      (n r : ℕ) (p : Bringup) (t : Task) (ts : List Task)
      → Reaches world stages n p
      → r < world
      → p.rest r ≡ t ∷ ts
      → IsEnabled world p t.waits t.stage
      → Reaches world stages (suc n) (after_task p r t ts)

-- The tasks of one rank as `Ignitor.run` goes through them: those of its own services, the barrier, and
-- on rank 0 those of the services without cards.
unfoldable pub run_tasks : List ServiceInfo → Bool → ℕ → List Task
unfolding stage_of local_services cpu_services flatten
run_tasks services has_barrier r =
    flatten (map (λ s. gate_and_start (stage_of services s) r) (local_services services r))
    ++ ((if has_barrier then gate_and_start barrier r else [])
        ++ (if r == 0
            then flatten (map (λ s. gate_and_start (stage_of services s) r) (cpu_services services))
            else []))
