-- ===== src/Checkpoint/Tests.antt =====
-- The theorems on checkpoints, on a directory with two services.
use meshy.Prelude.{
  ℕ, ◌≤◌, String, none, some, List, [], ◌∷◌, ◌++◌, ◌≡◌, refl, true, not, length, take, ◌&&◌, str_eq,
  if◌then◌else◌, arith,
}
use Prim.Native.Nat.{min}
use meshy.Checkpoint.Disk.{Disk, is_complete, run}
use meshy.Checkpoint.Disk.Laws.{same}
use meshy.Checkpoint.Store.{
  write_meta, mark_complete, payload_of, prune, drop_newer_than, complete_steps,
}
use meshy.Checkpoint.Store.Crash.{
  IsWhole, pruning_crash, commit_crash, commit_torn, commit_round_trip,
}
use meshy.Checkpoint.Store.Pruning.{IsBelow, has_step, prune-lem}
use meshy.Checkpoint.Resume.{resumable, resolve_resume_step}
use meshy.Checkpoint.Resume.Newest.{resolve-is_newest}
use meshy.Checkpoint.Resume.Committed.{IsCommitted, is_candidate, resolve-IsCommitted}
use meshy.Checkpoint.Resume.Dropping.{drop_newer_than-resolve}

-- The trainer is one checkpoint ahead of the rollout.
abbrev start : Disk ℕ
start = []

abbrev two_services : Disk ℕ
two_services = run start (
    write_meta "rollout" 10 1
    ++ mark_complete "rollout" 10
    ++ write_meta "training" 10 2
    ++ mark_complete "training" 10
    ++ write_meta "training" 20 3
    ++ mark_complete "training" 20)

abbrev both : ℕ → List String
both step = "rollout" ∷ "training" ∷ []

resolve_runs : resolve_resume_step two_services both none ≡ 10
unfolding resolve_resume_step run write_meta mark_complete
resolve_runs = refl

ten_resumable : resumable two_services both 10 ≡ true
unfolding resumable run write_meta mark_complete
ten_resumable = refl

resolve-is_newest_example : 10 ≤ resolve_resume_step two_services both none
resolve-is_newest_example = resolve-is_newest two_services both 10 (omega arith) ten_resumable

resolve-IsCommitted_example :
    IsCommitted two_services
      (both (resolve_resume_step two_services both (some (20 ∷ 10 ∷ []))))
      (resolve_resume_step two_services both (some (20 ∷ 10 ∷ [])))
    × (is_candidate two_services both
          (some (20 ∷ 10 ∷ []))
          (resolve_resume_step two_services both (some (20 ∷ 10 ∷ [])))
        ≡ true)
unfolding resolve_resume_step run write_meta mark_complete
resolve-IsCommitted_example =
    resolve-IsCommitted two_services both (some (20 ∷ 10 ∷ [])) (omega arith)

drop_newer_than-resolve_example :
    resolve_resume_step
      (run two_services
        (take 1 (drop_newer_than two_services (resolve_resume_step two_services both none))))
      both
      none
    ≡ resolve_resume_step two_services both none
drop_newer_than-resolve_example = drop_newer_than-resolve both two_services 1

-- The rollout's first checkpoint, written to an empty directory.
abbrev first : Disk ℕ
first = run start (write_meta "rollout" 10 1 ++ mark_complete "rollout" 10)

start-IsWhole : IsWhole start
unfolding is_complete
start-IsWhole = record { sidecar = λ s n h. ground arith }

commit_crash_example :
    IsWhole (run start (take 4 (write_meta "rollout" 10 1 ++ mark_complete "rollout" 10)))
commit_crash_example = commit_crash start "rollout" 10 4 1 start-IsWhole

first-IsWhole : IsWhole first
unfolding write_meta mark_complete
first-IsWhole = commit_crash start "rollout" 10 4 1 start-IsWhole

commit_torn_example :
    is_complete
      (run first (take 3 (write_meta "rollout" 20 5 ++ mark_complete "rollout" 20)))
      "rollout"
      20
    ≡ is_complete first "rollout" 20
commit_torn_example = commit_torn first "rollout" 20 3 5 "rollout" 20 (omega arith)

commit_round_trip_example :
    (is_complete (run first (write_meta "rollout" 20 5 ++ mark_complete "rollout" 20)) "rollout" 20
      ≡ (if same "rollout" 20 "rollout" 20 then true else is_complete first "rollout" 20))
    × (payload_of (run first (write_meta "rollout" 20 5 ++ mark_complete "rollout" 20)) "rollout" 20
        ≡ (if same "rollout" 20 "rollout" 20 then some 5 else payload_of first "rollout" 20))
commit_round_trip_example = commit_round_trip first "rollout" 20 5 "rollout" 20

pruning_crash_example :
    IsWhole (run first (take 2 (prune first "rollout" 2).1))
    × IsWhole (run first (take 2 (drop_newer_than first 5)))
pruning_crash_example = pruning_crash first "rollout" 2 5 2 first-IsWhole

prune-lem_example :
    (is_complete (run two_services (prune two_services "training" 1).1) "training" 10 ≡ (
      is_complete two_services "training" 10
      && not (str_eq "training" "training" && has_step 10 (prune two_services "training" 1).0)))
    × ((kept : List ℕ) × (complete_steps two_services "training"
          ≡ (prune two_services "training" 1).0 ++ kept)
        × (length kept ≡ min 1 (length (complete_steps two_services "training")))
        × IsBelow (prune two_services "training" 1).0 kept)
prune-lem_example = prune-lem two_services "training" 1 "training" 10 (omega arith)
