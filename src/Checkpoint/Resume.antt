-- ===== src/Checkpoint/Resume.antt =====
-- `resolve_resume_step` of meshy/service/checkpoint.py, and the step that every service restores.
pub mod Newest
pub mod Dropping
pub mod Committed
use meshy.Prelude.{
  ℕ, zero, suc, String, Bool, true, false, not, Option, none, some, List, [], ◌∷◌, ◌++◌, any, all,
  leb, ◌==◌, ◌&&◌, if◌then◌else◌,
}
use meshy.Prelude.Sort.{sort_by}
use meshy.Checkpoint.Disk.{Disk, is_complete}
use meshy.Checkpoint.Store.{complete_steps, known_services}

-- `seen.update(steps)`, a set as a list without repetitions.
unfoldable pub update_seen : List ℕ → List ℕ → List ℕ
update_seen seen [] = seen
update_seen seen (n ∷ steps) =
    update_seen (if any (λ k. k == n) seen then seen else seen ++ n ∷ []) steps

abbrev pub no_names : List String → Bool
no_names [] = true
no_names (s ∷ names) = false

-- Newest first.
abbrev pub geb : ℕ → ℕ → Bool
geb a b = leb b a

module _ {P : Type 0} where
  unfoldable pub seen_from : Disk P → List ℕ → List String → List ℕ
  unfolding complete_steps update_seen
  seen_from d seen [] = seen
  seen_from d seen (s ∷ services) = seen_from d (update_seen seen (complete_steps d s)) services

  -- The steps at which some service has committed a shard.
  unfoldable pub candidates_of : Disk P → List ℕ
  unfolding seen_from known_services
  candidates_of d = seen_from d [] (known_services d)

  -- `required and all(store.is_complete(name, step) for name in required)`
  unfoldable pub resumable : Disk P → (ℕ → List String) → ℕ → Bool
  unfolding is_complete
  resumable d participants_at step =
      not (no_names (participants_at step))
      && all (λ name. is_complete d name step) (participants_at step)

  -- The loop over the candidates; `step <= 0` is skipped.
  unfoldable pub resolve_from : Disk P → (ℕ → List String) → List ℕ → ℕ
  unfolding resumable
  resolve_from d participants_at [] = 0
  resolve_from d participants_at (step ∷ steps) =
      let rest = resolve_from d participants_at steps in
      if step == 0 then rest else if resumable d participants_at step then step else rest

  unfoldable pub resolve_resume_step : Disk P → (ℕ → List String) → Option (List ℕ) → ℕ
  unfolding resolve_from candidates_of sort_by
  resolve_resume_step d participants_at none =
      resolve_from d participants_at (sort_by geb (candidates_of d))
  resolve_resume_step d participants_at (some candidates) =
      resolve_from d participants_at (sort_by geb candidates)

  -- `run_resume_step`: the published step, where the environment has one that is not empty.
  unfoldable pub run_resume_step : Bool → Option ℕ → Disk P → (ℕ → List String) → ℕ
  unfolding resolve_resume_step
  run_resume_step requested cached d participants_at =
      if requested
      then elim cached [ none ↦ resolve_resume_step d participants_at none | some step ↦ step ]
      else 0
