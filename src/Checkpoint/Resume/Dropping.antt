-- ===== src/Checkpoint/Resume/Dropping.antt =====
-- `drop_newer_than` of meshy/service/checkpoint.py, which a restart runs at its resume point, and
-- what it leaves of the committed shards.
use meshy.Prelude.{
  ℕ, zero, suc, ◌≤◌, ◌<◌, String, ◌≡◌, refl, ◌∙◌, Bool, true, none, List, [], ◌∷◌, all, ltb, All,
  All-append, Bool-cases, inl, inr, arith, take, flatten,
}
use meshy.Checkpoint.Disk.{Disk, Effect, puts_marker, removes_marker, is_complete, apply, run}
use meshy.Checkpoint.Disk.Laws.{is_complete-apply}
use meshy.Checkpoint.Store.{
  complete_steps, known_services, newer_than, drop, drop_all, drop_newer_from, drop_newer_than,
}
use meshy.Checkpoint.Resume.{resumable, resolve_resume_step}
use meshy.Checkpoint.Resume.Newest.{resolve-is_resumable, resolve-is_newest}

all_complete :
    (f g : String → Bool) (names : List String)
    → ((s : String) → f s ≡ true → g s ≡ true)
    → all f names ≡ true
    → all g names ≡ true
all_complete f g [] h a = refl
all_complete f g (s ∷ names) h a = ground (arith, h s, all_complete f g names h)

module _ {P : Type 0} where
  -- An effect that takes away no marker but one above `r`.
  abbrev IsAbove : ℕ → Effect P → Type 0
  IsAbove r (puts_marker s n) = ⊥
  IsAbove r (removes_marker s n) = r < n
  IsAbove r _ = Unit

  -- The committed shards of `e` are among those of `d`, and the same up to the step `r`.
  record IsCut (r : ℕ) (d e : Disk P) : Type 0 where
    same_below : (t : String) (m : ℕ) → m ≤ r → is_complete e t m ≡ is_complete d t m
    no_more : (t : String) (m : ℕ) → is_complete e t m ≡ true → is_complete d t m ≡ true

  IsCut-apply :
      (r : ℕ) (d e : Disk P) (x : Effect P) → IsAbove r x → IsCut r d e → IsCut r d (apply e x)
  IsCut-apply r d e (puts_marker s n) h c = absurd h
  IsCut-apply r d e x h c = record {
    same_below = λ t m p. ground (arith, is_complete-apply e x t m, c.same_below t m);
    no_more = λ t m p. ground (arith, is_complete-apply e x t m, c.no_more t m);
  }

  IsCut-run :
      (r : ℕ) (d e : Disk P) (es : List (Effect P)) (k : ℕ)
      → All (IsAbove r) es
      → IsCut r d e
      → IsCut r d (run e (take k es))
  unfolding run
  IsCut-run r d e es zero h c = c
  IsCut-run r d e [] (suc k) h c = c
  IsCut-run r d e (x ∷ es) (suc k) h c =
      IsCut-run r d (apply e x) es k h.1 (IsCut-apply r d e x h.0 c)

  drop_all-IsAbove :
      (d : Disk P) (r : ℕ) (s : String) (steps : List ℕ)
      → All (IsAbove r) (drop_all s (newer_than r steps))
  unfolding drop_all drop flatten newer_than
  drop_all-IsAbove d r s [] = tt
  drop_all-IsAbove d r s (n ∷ steps) = elim (Bool-cases (ltb r n)) [
    | inl e ↦ rw e ((ground arith, (tt, (tt, drop_all-IsAbove d r s steps))))
    | inr e ↦ rw e (drop_all-IsAbove d r s steps)
  ]

  drop_newer_from-IsAbove :
      (d : Disk P) (r : ℕ) (services : List String) → All (IsAbove r) (drop_newer_from d r services)
  unfolding drop_newer_from
  drop_newer_from-IsAbove d r [] = tt
  drop_newer_from-IsAbove d r (s ∷ services) =
      All-append (IsAbove r) (drop_all s (newer_than r (complete_steps d s))) _
        (drop_all-IsAbove d r s (complete_steps d s)) (drop_newer_from-IsAbove d r services)

  drop_newer_than-IsCut : (d : Disk P) (r k : ℕ) → IsCut r d (run d (take k (drop_newer_than d r)))
  unfolding drop_newer_than
  drop_newer_than-IsCut d r k =
      IsCut-run r d d (drop_newer_from d r (known_services d)) k
        (drop_newer_from-IsAbove d r (known_services d))
        (record { same_below = λ t m p. refl; no_more = λ t m p. p })

  module _ (participants_at : ℕ → List String) where
    resumable_mono :
        (d e : Disk P) (t : ℕ)
        → ((s : String) → is_complete d s t ≡ true → is_complete e s t ≡ true)
        → resumable d participants_at t ≡ true
        → resumable e participants_at t ≡ true
    unfolding resumable
    resumable_mono d e t h r = ground (
      arith,
      all_complete (λ s. is_complete d s t) (λ s. is_complete e s t) (participants_at t) h,
    )

    resumable_before :
        (r t : ℕ) (d e : Disk P)
        → IsCut r d e
        → resumable e participants_at t ≡ true
        → resumable d participants_at t ≡ true
    resumable_before r t d e c = resumable_mono e d t (λ s. c.no_more s t)

    resumable_after :
        (r t : ℕ) (d e : Disk P)
        → IsCut r d e
        → t ≤ r
        → resumable d participants_at t ≡ true
        → resumable e participants_at t ≡ true
    resumable_after r t d e c p = resumable_mono d e t (λ s h. c.same_below s t p ∙ h)

    resolve-IsCut :
        (d e : Disk P)
        → IsCut (resolve_resume_step d participants_at none) d e
        → resolve_resume_step e participants_at none ≡ resolve_resume_step d participants_at none
    resolve-IsCut d e c =
        let r = resolve_resume_step d participants_at none in
        let q = resolve_resume_step e participants_at none in
        ground (
          arith,
          resolve-is_resumable d participants_at none,
          resolve-is_resumable e participants_at none,
          resumable_before r q d e c,
          resumable_after r r d e c,
          resolve-is_newest d participants_at q,
          resolve-is_newest e participants_at r,
        )

    -- A restart that drops the shards newer than its resume point, and crashes between any two
    -- effects of that, resumes from the same step the next time.
    pub drop_newer_than-resolve :
        (d : Disk P) (k : ℕ)
        → resolve_resume_step
            (run d (take k (drop_newer_than d (resolve_resume_step d participants_at none))))
            participants_at
            none
          ≡ resolve_resume_step d participants_at none
    drop_newer_than-resolve d k =
        resolve-IsCut d _ (drop_newer_than-IsCut d (resolve_resume_step d participants_at none) k)
