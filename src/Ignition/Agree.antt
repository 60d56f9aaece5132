-- ===== src/Ignition/Agree.antt =====
-- Every rank decides the same resume step, whatever rank 0 has dropped by then.
use meshy.Prelude.{
  ℕ, zero, suc, ◌<◌, ◌≤◌, String, ◌≡◌, refl, sym, ap, subst, ◌∙◌, Bool, true, false, not, ◌&&◌,
  Option, none, some, List, [], ◌∷◌, all, ◌==◌, if◌then◌else◌, arith, inl, inr, ◌⊎◌, Bool-cases,
  take,
}
use meshy.Checkpoint.Disk.{Disk, is_complete, run}
use meshy.Checkpoint.Store.{
  complete_steps, known_services, is_empty, has_any_shard, drop_newer_than, string_leb,
}
use meshy.Checkpoint.Resume.{no_names, resumable, resolve_resume_step}
use meshy.Checkpoint.Resume.Newest.{
  has_step, any-sort_by, any_of_name, has_step-complete_steps, resolve-is_resumable,
  resolve-is_newest,
}
use meshy.Checkpoint.Resume.Committed.{IsCommitted, resolve-IsCommitted}
use meshy.Checkpoint.Resume.Dropping.{drop_newer_than-resolve}
use meshy.Checkpoint.Policy.{GlobalCheckpointConfig}
use meshy.Topology.Types.{ServiceInfo}
use meshy.Topology.Lookups.{checkpoint_config, checkpoint_participants}
use meshy.Ignition.{Checked, adopt, decide, check_resume, ResumeError}

not_empty : (t : ℕ) (steps : List ℕ) → has_step t steps ≡ true → is_empty steps ≡ false
not_empty t [] h = cc
not_empty t (s ∷ steps) h = refl

module _ {P : Type 0} where
  -- A committed shard is found.
  has_any_shard-of_complete :
      (d : Disk P) (s : String) (t : ℕ) → is_complete d s t ≡ true → has_any_shard d ≡ true
  unfolding has_any_shard known_services
  has_any_shard-of_complete d s t h =
      let f = λ (u : String). if is_empty (complete_steps d u) then false else true in
      let n = not_empty t (complete_steps d s) (has_step-complete_steps d s t ∙ h) in
      let e : f s ≡ true = rw n refl in any-sort_by string_leb f _ ∙ any_of_name f d s t h e

  has_any_shard-of_all :
      (d : Disk P) (names : List String) (t : ℕ)
      → (not (no_names names) && all (λ s. is_complete d s t) names) ≡ true
      → has_any_shard d ≡ true
  has_any_shard-of_all d [] t h = cc
  has_any_shard-of_all d (s ∷ names) t h = has_any_shard-of_complete d s t (ground (arith, h))

  resumable_names :
      (d : Disk P) (participants_at : ℕ → List String) (step : ℕ)
      → resumable d participants_at step ≡ true
      → (not (no_names (participants_at step))
          && all (λ s. is_complete d s step) (participants_at step))
        ≡ true
  unfolding resumable
  resumable_names d participants_at step r = r

  has_any_shard-of_resolve :
      (d : Disk P) (participants_at : ℕ → List String)
      → 0 < resolve_resume_step d participants_at none
      → has_any_shard d ≡ true
  has_any_shard-of_resolve d participants_at h =
      let step = resolve_resume_step d participants_at none in
      let r : resumable d participants_at step ≡ true =
        resolve-is_resumable d participants_at none h in
      has_any_shard-of_all d (participants_at step) step (resumable_names d participants_at step r)

  abbrev pub verdict : Checked P → ℕ × Option ResumeError
  verdict c = (c.published, c.raised)

  -- What is decided does not depend on the rank.
  adopt-verdict :
      (d e : Disk P) (rank other step : ℕ)
      → verdict (adopt d rank step) ≡ verdict (adopt e other step)
  unfolding adopt
  adopt-verdict d e rank other step = elim (Bool-cases (step == 0)) [
    | inl z ↦ rw z refl
    | inr z ↦ elim (Bool-cases (rank == 0)) [
      | inl a ↦ elim (Bool-cases (other == 0)) [
        | inl b ↦ rw (z, a, b) refl
        | inr b ↦ rw (z, a, b) refl
      ]
      | inr a ↦ elim (Bool-cases (other == 0)) [
        | inl b ↦ rw (z, a, b) refl
        | inr b ↦ rw (z, a, b) refl
      ]
    ]
  ]

  run_nothing : (d : Disk P) (k : ℕ) → run d (take k []) ≡ d
  unfolding run
  run_nothing d zero = refl
  run_nothing d (suc k) = refl

  -- What rank 0 drops leaves a shard and the resume point.
  adopt-again :
      (d : Disk P) (rank k : ℕ) (participants_at : ℕ → List String)
      (policy : GlobalCheckpointConfig) (step : ℕ)
      → resolve_resume_step d participants_at none ≡ step
      → has_any_shard d ≡ true
      → verdict (
          decide
            (some policy)
            (has_any_shard (run d (take k (adopt d 0 step).dropped)))
            true
            (run d (take k (adopt d 0 step).dropped))
            rank
            participants_at)
        ≡ verdict (adopt d 0 step)
  unfolding adopt decide
  adopt-again d rank k participants_at policy step e h = elim (Bool-cases (step == 0)) [
    | inl z ↦
        let same : run d (take k (adopt d 0 step).dropped) ≡ d = rw (z, adopt) (run_nothing d k) in
        let shard : has_any_shard (run d (take k (adopt d 0 step).dropped)) ≡ true =
          ap has_any_shard same ∙ h in
        rw (shard, same, e) (adopt-verdict d d rank 0 step)
    | inr z ↦
        let cut : (adopt d 0 step).dropped ≡ drop_newer_than d step = rw (z, adopt) refl in
        let f = run d (take k (drop_newer_than d step)) in
        let again : resolve_resume_step f participants_at none ≡ step =
          subst
            (λ r.
              resolve_resume_step (run d (take k (drop_newer_than d r))) participants_at none ≡ r)
            e (drop_newer_than-resolve participants_at d k) in
        let positive : 0 < resolve_resume_step f participants_at none = ground (arith, again, z) in
        let shard : has_any_shard f ≡ true = has_any_shard-of_resolve f participants_at positive in
        rw (cut, shard, again) (adopt-verdict f d rank 0 step)
  ]

  decide-again :
      (policy : Option GlobalCheckpointConfig) (shard requested : Bool) (d : Disk P) (rank k : ℕ)
      (participants_at : ℕ → List String)
      → has_any_shard d ≡ shard
      → verdict (
          decide policy
            (has_any_shard
              (run d (take k (decide policy shard requested d 0 participants_at).dropped)))
            requested
            (run d (take k (decide policy shard requested d 0 participants_at).dropped))
            rank
            participants_at)
        ≡ verdict (decide policy shard requested d 0 participants_at)
  unfolding decide
  decide-again none true true d rank k participants_at h = rw (run_nothing d k, h) refl
  decide-again none true false d rank k participants_at h = rw (run_nothing d k, h) refl
  decide-again none false requested d rank k participants_at h = rw (run_nothing d k, h) refl
  decide-again (some policy) false requested d rank k participants_at h =
      rw (run_nothing d k, h) refl
  decide-again (some policy) true false d rank k participants_at h = rw (run_nothing d k, h) refl
  decide-again (some policy) true true d rank k participants_at h =
      adopt-again d rank k participants_at policy (resolve_resume_step d participants_at none) refl
        h

-- A rank that checks the state directory after rank 0 has run any first part of what it drops, none of
-- it and all of it included, publishes the same resume step as rank 0 and raises the same exception; so
-- does every rank at the next restart of a run that crashed while it dropped shards.
pub check_resume-agrees :
    {P : Type 0} (requested : Bool) (rank k : ℕ) (services : List ServiceInfo) (d : Disk P)
    → verdict (
        check_resume requested rank services
          (run d (take k (check_resume requested 0 services d).dropped)))
      ≡ verdict (check_resume requested 0 services d)
unfolding check_resume
check_resume-agrees requested rank k services d =
    decide-again (checkpoint_config services) (has_any_shard d) requested d rank k
      (checkpoint_participants services) refl

never_complete :
    {P : Type 0} (d : Disk P) (s : String) (t : ℕ)
    → has_any_shard d ≡ false
    → is_complete d s t ≡ false
never_complete d s t h = elim (Bool-cases (is_complete d s t)) [
  | inl c ↦ absurd (ground (arith, has_any_shard-of_complete d s t c, h))
  | inr c ↦ c
]

none_newer :
    {P : Type 0} (d : Disk P) (participants_at : ℕ → List String) (t : ℕ)
    → (resumable d participants_at t ≡ false) ⊎ (t ≤ resolve_resume_step d participants_at none)
none_newer d participants_at zero = inr (omega arith)
none_newer d participants_at (suc n) = elim (Bool-cases (resumable d participants_at (suc n))) [
  | inl r ↦ inr (resolve-is_newest d participants_at (suc n) (omega arith) r)
  | inr r ↦ inl r
]

-- The step that is positive, or no shard is there to adopt, or no service checkpoints.
decide-cases :
    {P : Type 0} (policy : Option GlobalCheckpointConfig) (shard requested : Bool) (d : Disk P)
    (rank : ℕ) (participants_at : ℕ → List String)
    → (decide policy shard requested d rank participants_at).raised ≡ none
    → (((decide policy shard requested d rank participants_at).published ≡ 0)
        × ((policy ≡ none) ⊎ (shard ≡ false)))
      ⊎ ((requested ≡ true)
          × (0 < (decide policy shard requested d rank participants_at).published)
          × ((decide policy shard requested d rank participants_at).published
              ≡ resolve_resume_step d participants_at none))
unfolding decide adopt
decide-cases none true true d rank participants_at h = cc
decide-cases none true false d rank participants_at h = inl (refl, inl refl)
decide-cases none false requested d rank participants_at h = inl (refl, inl refl)
decide-cases (some policy) false requested d rank participants_at h = inl (refl, inr refl)
decide-cases (some policy) true false d rank participants_at h = cc
decide-cases (some policy) true true d rank participants_at h =
    let step = resolve_resume_step d participants_at none in
    elim (Bool-cases (step == 0)) [
      | inl z ↦ absurd (ground (arith, rw (z, adopt) at h))
      | inr z ↦
          let p : 0 < step = ground (arith, z) in
          elim (Bool-cases (rank == 0)) [
            | inl a ↦ rw (z, a, adopt) (inr (refl, p, refl))
            | inr a ↦ rw (z, a, adopt) (inr (refl, p, refl))
          ]
    ]

-- A run that `_check_resume` lets through either starts at step 0, and then no service checkpoints or
-- no service has committed a shard at any step, so that no shard is left beside the new ones; or
-- --resume was given and it starts at a positive step, at which there are participants and every one of
-- them has committed a shard, and no step at which that holds is newer.
pub check_resume-is_safe :
    {P : Type 0} (requested : Bool) (rank : ℕ) (services : List ServiceInfo) (d : Disk P)
    (s : String) (t : ℕ)
    → (check_resume requested rank services d).raised ≡ none
    → (((check_resume requested rank services d).published ≡ 0)
        × ((checkpoint_config services ≡ none) ⊎ (is_complete d s t ≡ false)))
      ⊎ ((requested ≡ true)
          × (0 < (check_resume requested rank services d).published)
          × IsCommitted d
              (checkpoint_participants services (check_resume requested rank services d).published)
              (check_resume requested rank services d).published
          × ((resumable d (checkpoint_participants services) t ≡ false)
              ⊎ (t ≤ (check_resume requested rank services d).published)))
unfolding check_resume
check_resume-is_safe requested rank services d s t h =
    let participants_at = checkpoint_participants services in
    elim (decide-cases (checkpoint_config services) (has_any_shard d) requested d rank
      participants_at h) [
        | inl (z, inl a) ↦ inl (z, inl a)
        | inl (z, inr a) ↦ inl (z, inr (never_complete d s t a))
        | inr (r, p, e) ↦
            let step = resolve_resume_step d participants_at none in
            inr (
              r,
              p,
              subst (λ n. IsCommitted d (participants_at n) n) (sym e)
                  (resolve-IsCommitted d participants_at none (subst (λ n. 0 < n) e p)).0,
              subst (λ n. (resumable d participants_at t ≡ false) ⊎ (t ≤ n)) (sym e)
                  (none_newer d participants_at t),
            )
      ]
