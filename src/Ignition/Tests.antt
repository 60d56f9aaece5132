-- ===== src/Ignition/Tests.antt =====
-- A restart of the services of Topology/Tests, whose trainer is one checkpoint ahead.
use meshy.Prelude.{
  ℕ, ◌≡◌, ◌≤◌, ◌<◌, refl, true, false, none, List, [], ◌∷◌, ◌++◌, ◌⊎◌, All, ◌+◌, take, arith,
}
use meshy.Checkpoint.Disk.{Disk, is_complete, run}
use meshy.Checkpoint.Store.{write_meta, mark_complete}
use meshy.Checkpoint.Resume.{resumable}
use meshy.Checkpoint.Resume.Committed.{IsCommitted}
use meshy.Topology.Build.{build_topology}
use meshy.Topology.Tests.{services}
use meshy.Topology.Lookups.{checkpoint_config, checkpoint_participants}
use meshy.Ignition.{check_resume}
use meshy.Topology.Lookups.{gpu_services}
use meshy.Ignition.Startup.{
  Stage, Task, barrier, stages_of, tasks_in, run_tasks, Bringup, start_of, after_task, Reaches,
  at_start, step,
}
use meshy.Ignition.Startup.Waiting.{IsHosted, is_ordered, IsFinished, CanGoOn}
use meshy.Ignition.Startup.Progress.{left_in, startup_goes_on}
use meshy.Ignition.Agree.{verdict, check_resume-agrees, check_resume-is_safe}

abbrev empty_disk : Disk ℕ
empty_disk = []

abbrev ahead : Disk ℕ
ahead = run empty_disk (
    write_meta "rollout" 10 1
    ++ mark_complete "rollout" 10
    ++ write_meta "critic" 10 2
    ++ mark_complete "critic" 10
    ++ write_meta "training" 10 3
    ++ mark_complete "training" 10
    ++ write_meta "training" 20 4
    ++ mark_complete "training" 20)

resumes_at_ten : (check_resume true 0 services ahead).published ≡ 10
unfolding check_resume run write_meta mark_complete build_topology
resumes_at_ten = refl

refuses_without_flag : (check_resume false 0 services ahead).published ≡ 0
unfolding check_resume run write_meta mark_complete build_topology
refuses_without_flag = refl

check_resume-agrees_example :
    verdict (
      check_resume true 3 services
        (run ahead (take 2 (check_resume true 0 services ahead).dropped)))
    ≡ verdict (check_resume true 0 services ahead)
check_resume-agrees_example = check_resume-agrees true 3 2 services ahead

check_resume-is_safe_example :
    (((check_resume true 0 services ahead).published ≡ 0)
      × ((checkpoint_config services ≡ none) ⊎ (is_complete ahead "critic" 20 ≡ false)))
    ⊎ ((true ≡ true)
        × (0 < (check_resume true 0 services ahead).published)
        × IsCommitted ahead
            (checkpoint_participants services (check_resume true 0 services ahead).published)
            (check_resume true 0 services ahead).published
        × ((resumable ahead (checkpoint_participants services) 20 ≡ false)
            ⊎ (20 ≤ (check_resume true 0 services ahead).published)))
unfolding check_resume resumable checkpoint_participants run write_meta mark_complete build_topology
check_resume-is_safe_example = check_resume-is_safe true 0 services ahead "critic" 20 refl

-- Three cards bring up two inference replicas, their trainer, a critic and a rollout.
abbrev stages : List Stage
stages = stages_of services true

abbrev head_of : List Stage → Stage
head_of [] = barrier
head_of (s ∷ l) = s

abbrev tail_of : List Task → List Task
tail_of [] = []
tail_of (t ∷ l) = l

abbrev first_task : Task
first_task = record { stage = head_of stages; waits = false }

abbrev one_started : Bringup
one_started = after_task (start_of stages) 0 first_task (tail_of (tasks_in stages 0))

one_started-Reaches : Reaches 3 stages 1 one_started
unfolding stages_of build_topology start_of gpu_services tasks_in
one_started-Reaches =
    step 0 0 (start_of stages) first_task (tail_of (tasks_in stages 0)) at_start (omega arith) refl
      tt

stages-IsHosted : All (IsHosted 3) stages
unfolding stages_of build_topology
stages-IsHosted = (
  (0, omega arith, refl, refl),
  (
    (1, omega arith, refl, refl),
    (
      (0, omega arith, refl, refl),
      (
        (2, omega arith, refl, refl),
        ((0, omega arith, refl, refl), ((0, omega arith, refl, refl), tt)),
      ),
    ),
  ),
)

in_order : is_ordered [] stages ≡ true
unfolding stages_of build_topology
in_order = refl

startup_goes_on_example :
    (1 + left_in 3 one_started.rest ≡ left_in 3 (run_tasks services true))
    × (IsFinished 3 one_started ⊎ CanGoOn 3 one_started)
startup_goes_on_example =
    startup_goes_on 3 1 services true one_started stages-IsHosted in_order one_started-Reaches
