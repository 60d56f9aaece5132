-- ===== src/Checkpoint/Resume/Committed.antt =====
-- The step that a restart resumes from has the shards of its participants.
use meshy.Prelude.{
  ℕ, ◌<◌, String, ◌≡◌, ◌≢◌, sym, ◌∙◌, Bool, true, not, Option, none, some, List, [], ◌∷◌, all, ◌==◌,
  ◌&&◌, All, arith,
}
use meshy.Prelude.Sort.{sort_by}
use meshy.Checkpoint.Disk.{Disk, is_complete}
use meshy.Checkpoint.Resume.{
  no_names, geb, candidates_of, resumable, resolve_from, resolve_resume_step,
}
use meshy.Checkpoint.Resume.Newest.{has_step, any-sort_by, resolve-is_resumable}

module _ {P : Type 0} (d : Disk P) where
  -- Some service is asked for, and each has the marker of a committed shard.
  abbrev pub IsCommitted : List String → ℕ → Type 0
  IsCommitted names step = (names ≢ []) × All (λ s. is_complete d s step ≡ true) names

  pub IsCommitted-of_test :
      (names : List String) (step : ℕ)
      → (not (no_names names) && all (λ s. is_complete d s step) names) ≡ true
      → IsCommitted names step
  IsCommitted-of_test [] step h = cc
  IsCommitted-of_test (s ∷ names) step h =
      (λ e. cc, (ground (arith, h), rest names (ground (arith, h))))
    where
      rest :
          (l : List String)
          → all (λ s. is_complete d s step) l ≡ true
          → All (λ s. is_complete d s step ≡ true) l
      rest [] k = tt
      rest (u ∷ l) k = (ground (arith, k), rest l (ground (arith, k)))

module _ {P : Type 0} (d : Disk P) (participants_at : ℕ → List String) where
  pub resumable-IsCommitted :
      (step : ℕ)
      → resumable d participants_at step ≡ true
      → IsCommitted d (participants_at step) step
  unfolding resumable
  resumable-IsCommitted step h = IsCommitted-of_test d (participants_at step) step h

  resolve_from-has_step :
      (steps : List ℕ)
      → 0 < resolve_from d participants_at steps
      → has_step (resolve_from d participants_at steps) steps ≡ true
  unfolding resolve_from
  resolve_from-has_step [] h = absurd (omega arith)
  resolve_from-has_step (n ∷ steps) h = ground (arith, resolve_from-has_step steps)

  abbrev pub is_candidate : Option (List ℕ) → ℕ → Bool
  is_candidate none step = has_step step (candidates_of d)
  is_candidate (some l) step = has_step step l

  resolve-is_candidate :
      (candidates : Option (List ℕ))
      → 0 < resolve_resume_step d participants_at candidates
      → is_candidate candidates (resolve_resume_step d participants_at candidates) ≡ true
  unfolding resolve_resume_step
  resolve-is_candidate none h =
      sym (
        any-sort_by geb (λ k. k == resolve_from d participants_at (sort_by geb (candidates_of d)))
          (candidates_of d))
      ∙ resolve_from-has_step (sort_by geb (candidates_of d)) h
  resolve-is_candidate (some l) h =
      sym (any-sort_by geb (λ k. k == resolve_from d participants_at (sort_by geb l)) l)
      ∙ resolve_from-has_step (sort_by geb l) h

  -- The step that a restart resumes from, where it is not 0, has participants, every one of which has
  -- committed a shard at it; and it is one of the given candidates, or without them a step at which
  -- some service has committed a shard.
  pub resolve-IsCommitted :
      (candidates : Option (List ℕ))
      → 0 < resolve_resume_step d participants_at candidates
      → IsCommitted d
          (participants_at (resolve_resume_step d participants_at candidates))
          (resolve_resume_step d participants_at candidates)
        × (is_candidate candidates (resolve_resume_step d participants_at candidates) ≡ true)
  resolve-IsCommitted candidates h = (
    resumable-IsCommitted (resolve_resume_step d participants_at candidates)
        (resolve-is_resumable d participants_at candidates h),
    resolve-is_candidate candidates h,
  )
